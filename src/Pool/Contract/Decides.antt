-- ===== src/Pool/Contract/Decides.antt =====
-- src/pool.rs, `try_acquire`: its abstract description allows one result at most.
use brave_search_api_rotator.Base.{
  ℕ, List, Option, none, some, ◌≡◌, ◌≢◌, refl, sym, ◌∙◌, ap, arith, inl, inr, Result, ok, err,
  Bool-cases, ◌==◌,
}
use brave_search_api_rotator.Text.{Text}
use brave_search_api_rotator.Key.{KeyState}
use brave_search_api_rotator.Key.Window.{refresh}
use brave_search_api_rotator.Key.Window.Availability.{availability_healthy}
use brave_search_api_rotator.Pool.{Pool, Lease, Next, window}
use brave_search_api_rotator.Pool.Select.Promises.{UsedBefore}
use brave_search_api_rotator.Pool.Contract.{
  Preferred, Soonest, Serves, Waits, Refuses, Earliest, Contract,
}

UsedBefore-asym : (a b : Option ℕ) → UsedBefore a b → UsedBefore b a → ⊥
UsedBefore-asym none none g h = g
UsedBefore-asym none (some b) g h = h
UsedBefore-asym (some a) none g h = g
UsedBefore-asym (some a) (some b) g h = omega arith

UsedBefore-irrefl : (a b : Option ℕ) → a ≡ b → UsedBefore a b → ⊥
UsedBefore-irrefl a b e h = UsedBefore-asym b b (rw e at h) (rw e at h)

Preferred_asym :
    (now i : ℕ) (k : KeyState) (j : ℕ) (l : KeyState)
    → Preferred now i k j l
    → Preferred now j l i k
    → ⊥
Preferred_asym now i k j l (inl a) (inl b) = UsedBefore-asym k.last_used l.last_used a b
Preferred_asym now i k j l (inl a) (inr (e, b)) =
    UsedBefore-irrefl k.last_used l.last_used (sym e) a
Preferred_asym now i k j l (inr (e, a)) (inl b) =
    UsedBefore-irrefl l.last_used k.last_used (sym e) b
Preferred_asym now i k j l (inr (e, inl a)) (inr (f, inl b)) = omega arith
Preferred_asym now i k j l (inr (e, inl a)) (inr (f, inr b)) = omega arith
Preferred_asym now i k j l (inr (e, inr a)) (inr (f, inl b)) = omega arith
Preferred_asym now i k j l (inr (e, inr a)) (inr (f, inr b)) = omega arith

module _ (p : Pool) (now : ℕ) (exclude : List ℕ) where
  one_place : (a b : Lease) → Serves p now exclude a → Serves p now exclude b → a.idx ≡ b.idx
  one_place a b f g = elim (Bool-cases (a.idx == b.idx)) [
    | inl same ↦ ground arith
    | inr other ↦
        let apart : a.idx ≢ b.idx = λ e. ground arith in
        absurd (
          Preferred_asym now a.idx f.key b.idx g.key
            (f.first b.idx g.key g.candidate g.usable (λ e. apart (sym e)))
            (g.first a.idx f.key f.candidate f.usable apart))
  ]

  one_lease : (a b : Lease) → Serves p now exclude a → Serves p now exclude b → a ≡ b
  one_lease a b f g =
      let same = one_place a b f g in
      let keys : f.key ≡ g.key = ground (arith, same, f.candidate.there, g.candidate.there) in
      f.names ∙ (rw (same, keys) refl ∙ sym g.names)

  one_instant : (t u : ℕ) → Soonest p now exclude t → Soonest p now exclude u → t ≡ u
  one_instant t u f g =
      let le = f.first g.index g.key u g.candidate g.busy in
      let ge = g.first f.index f.key t f.candidate f.busy in omega arith

  one-Earliest : (a b : Option ℕ) → Earliest p now exclude a → Earliest p now exclude b → a ≡ b
  one-Earliest none none f g = refl
  one-Earliest none (some u) f g = absurd (f g.index g.key g.candidate.there)
  one-Earliest (some t) none f g = absurd (g f.index f.key f.candidate.there)
  one-Earliest (some t) (some u) f g = ap some (one_instant t u f g)

  module _ (fmt_instant : ℕ → Text) where
    Serves-not-Refuses :
        (lease : Lease) (e : Option ℕ) (text : Text)
        → Serves p now exclude lease
        → Refuses p now exclude fmt_instant e text
        → ⊥
    Serves-not-Refuses lease e text f g = cc (
      g.sick lease.idx f.key f.candidate.there,
      availability_healthy (refresh f.key now) now (window p) f.usable,
    )

    Waits-not-Refuses :
        (t : ℕ) (e : Option ℕ) (text : Text)
        → Waits p now exclude t
        → Refuses p now exclude fmt_instant e text
        → ⊥
    Waits-not-Refuses t e text f g = cc (g.sick f.index f.key f.candidate.there, f.healthy)

    abbrev Promise : Result Lease Next → Type 0
    Promise = Contract p now exclude fmt_instant

    -- Two results that say what the description asks are the same.
    pub Contract_unique : (r s : Result Lease Next) → Promise r → Promise s → r ≡ s
    Contract_unique (ok a) (ok b) f g = ap ok (one_lease a b f g)
    Contract_unique (ok a) (err (Next.at u)) f g =
        absurd (g.none_usable a.idx f.key f.candidate f.usable)
    Contract_unique (ok a) (err (Next.unavailable e x)) f g = absurd (Serves-not-Refuses a e x f g)
    Contract_unique (err (Next.at t)) (ok b) f g =
        absurd (f.none_usable b.idx g.key g.candidate g.usable)
    Contract_unique (err (Next.at t)) (err (Next.at u)) f g =
        ap (λ x. err (Next.at x)) (one_instant t u f.soonest g.soonest)
    Contract_unique (err (Next.at t)) (err (Next.unavailable e x)) f g =
        absurd (Waits-not-Refuses t e x f g)
    Contract_unique (err (Next.unavailable d w)) (ok b) f g = absurd (Serves-not-Refuses b d w g f)
    Contract_unique (err (Next.unavailable d w)) (err (Next.at u)) f g =
        absurd (Waits-not-Refuses u d w g f)
    Contract_unique (err (Next.unavailable d w)) (err (Next.unavailable e x)) f g =
        let earliest = one-Earliest d e f.soonest g.soonest in
        let text = f.summed ∙ sym g.summed in rw (earliest, text) refl
