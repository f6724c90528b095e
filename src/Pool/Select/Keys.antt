-- ===== src/Pool/Select/Keys.antt =====
-- src/pool.rs, `try_acquire`: what one pass over the keys does to each of them.
use brave_search_api_rotator.Base.{
  option_map, if◌then◌else◌, ℕ, zero, suc, ◌+◌, ◌<◌, Bool, List, [], ◌∷◌, some, get_elem?, set, ◌≡◌,
  refl, arith, map, Bool-cases, inl, inr,
}
use brave_search_api_rotator.Key.{KeyState}
use brave_search_api_rotator.Key.Window.{availability}
use brave_search_api_rotator.Pool.Select.{Picked, consider, pick}

-- A predicate on the keys and their indices, counted from `i`.
abbrev pub AllAt {ℓ} : (ℕ → KeyState → Type ℓ) → ℕ → List KeyState → Type ℓ
AllAt P i [] = Unit
AllAt P i (k ∷ ks) = P i k × AllAt P (suc i) ks

pub AllAt-get_elem? {ℓ} :
    (P : ℕ → KeyState → Type ℓ) (i : ℕ) (ks : List KeyState) (j n : ℕ) (k : KeyState)
    → AllAt P i ks
    → n ≡ i + j
    → get_elem? ks j ≡ some k
    → P n k
AllAt-get_elem? P i [] j n k h e g = cc
AllAt-get_elem? P i (x ∷ ks) zero n k h e g =
    let x≡k : x ≡ k = ground arith in let n≡i : n ≡ i = omega arith in rw (n≡i, ← x≡k) h.0
AllAt-get_elem? P i (x ∷ ks) (suc j) n k h e g =
    AllAt-get_elem? P (suc i) ks j n k h.1 (omega arith) g

pub AllAt-of_get_elem? {ℓ} :
    (P : ℕ → KeyState → Type ℓ) (i : ℕ) (ks : List KeyState)
    → ((j : ℕ) (k : KeyState) → get_elem? ks j ≡ some k → P (i + j) k)
    → AllAt P i ks
AllAt-of_get_elem? P i [] h = tt
AllAt-of_get_elem? P i (x ∷ ks) h =
    let i+0 : i + 0 ≡ i = omega arith in
    (
      rw i+0 at (h 0 x refl),
      AllAt-of_get_elem? P (suc i) ks
          (λ j k e. let e' : i + suc j ≡ suc i + j = omega arith in rw e' at (h (suc j) k e)),
    )

pub AllAt-mono {ℓ κ} :
    (P : ℕ → KeyState → Type ℓ) (Q : ℕ → KeyState → Type κ)
    → ((i : ℕ) (k : KeyState) → P i k → Q i k)
    → (i : ℕ) (ks : List KeyState) → AllAt P i ks
    → AllAt Q i ks
AllAt-mono P Q f i [] h = tt
AllAt-mono P Q f i (k ∷ ks) h = (f i k h.0, AllAt-mono P Q f (suc i) ks h.1)

pub AllAt-map {ℓ κ} :
    (P : ℕ → KeyState → Type ℓ) (Q : ℕ → KeyState → Type κ) (f : KeyState → KeyState)
    → ((i : ℕ) (k : KeyState) → P i k → Q i (f k))
    → (i : ℕ) (ks : List KeyState) → AllAt P i ks
    → AllAt Q i (map f ks)
AllAt-map P Q f g i [] h = tt
AllAt-map P Q f g i (k ∷ ks) h = (g i k h.0, AllAt-map P Q f g (suc i) ks h.1)

-- A write at one index: what is asked of the others there must hold of the new key.
pub AllAt-set {ℓ κ} :
    (P : ℕ → KeyState → Type ℓ) (Q : ℕ → KeyState → Type κ) (i : ℕ) (ks : List KeyState) (j : ℕ)
    (v : KeyState)
    → AllAt P i ks
    → ((n : ℕ) (k : KeyState) → (n ≡ i + j → ⊥) → P n k → Q n k)
    → Q (i + j) v
    → AllAt Q i (set ks j v)
AllAt-set P Q i [] j v h f q = tt
AllAt-set P Q i (k ∷ ks) zero v h f q =
    let i+0 : i + 0 ≡ i = omega arith in (rw i+0 at q, tail ks (suc i) (omega arith) h.1)
  where
    tail : (ks : List KeyState) (m : ℕ) → i < m → AllAt P m ks → AllAt Q m ks
    tail [] m lt h = tt
    tail (x ∷ xs) m lt h = (f m x (λ e. omega arith) h.0, tail xs (suc m) (omega arith) h.1)
AllAt-set P Q i (k ∷ ks) (suc j) v h f q =
    let e' : i + suc j ≡ suc i + j = omega arith in
    (
      f i k (λ e. omega arith) h.0,
      AllAt-set P Q (suc i) ks j v h.1 (λ n x ne. f n x (λ e. ne (omega arith))) (rw e' at q),
    )

-- What `availability` keeps, a pass keeps.
pub pick-AllAt {ℓ} :
    (P : ℕ → KeyState → Type ℓ) (now window : ℕ) (skip : ℕ → Bool)
    → ((i : ℕ) (k : KeyState) → P i k → P i (availability k now window).0)
    → (i : ℕ) (ks : List KeyState) (p : Picked) → AllAt P i ks
    → AllAt P i (pick now window skip i ks p).0
unfolding pick
pick-AllAt P now window skip keep i [] p h = tt
pick-AllAt P now window skip keep i (k ∷ ks) p h = elim (Bool-cases (skip i)) [
  | inl s ↦ rw s (h.0, pick-AllAt P now window skip keep (suc i) ks p h.1)
  | inr s ↦
      rw s (
        keep i k h.0,
        pick-AllAt P now window skip keep (suc i) ks (consider now window i k p).1 h.1,
      )
]

pub get_elem?-map :
    (f : KeyState → KeyState) (ks : List KeyState) (j : ℕ)
    → get_elem? (map f ks) j ≡ option_map (get_elem? ks j) f
get_elem?-map f [] j = refl
get_elem?-map f (k ∷ ks) zero = refl
get_elem?-map f (k ∷ ks) (suc j) = get_elem?-map f ks j

-- A pass leaves a skipped key as it is, and any other as `availability` does.
pub get_elem?-pick :
    (now window : ℕ) (skip : ℕ → Bool) (i : ℕ) (ks : List KeyState) (p : Picked) (j n : ℕ)
    → n ≡ i + j
    → get_elem? (pick now window skip i ks p).0 j
      ≡ option_map (get_elem? ks j) (λ k. if skip n then k else (availability k now window).0)
unfolding pick consider
get_elem?-pick now window skip i [] p j n e = refl
get_elem?-pick now window skip i (k ∷ ks) p zero n e =
    let n≡i : n ≡ i = omega arith in
    rw n≡i (elim (Bool-cases (skip i)) [ inl s ↦ rw s | inr s ↦ rw s ])
get_elem?-pick now window skip i (k ∷ ks) p (suc j) n e =
    get_elem?-pick now window skip (suc i) ks _ j n (omega arith)
