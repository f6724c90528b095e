-- ===== src/Proxy/Queries/Lengths.antt =====
-- src/proxy.rs: how long the logged texts get.
use brave_search_api_rotator.Base.{
  ℕ, zero, suc, ◌+◌, ◌≤◌, ◌≡◌, inl, inr, arith, refl, Bool, List, [], ◌∷◌, ◌++◌, leb, ltb, length,
  take, length-append, Bool-cases, leb→le, All, false, min,
}
use brave_search_api_rotator.Text.{Text, codes, trim, trim_start, trim_end_by, is_whitespace}
use brave_search_api_rotator.Proxy.Queries.{short}
use brave_search_api_rotator.Proxy.Attempts.{snippet, printable, is_control}

length-take : (n : ℕ) (s : Text) → length (take n s) ≡ min n (length s)
length-take zero s = omega arith
length-take (suc n) [] = omega arith
length-take (suc n) (c ∷ s) = omega (arith, length-take n s)

pub length-short : (s : Text) (most : ℕ) → length (short s most) ≤ most + 3
unfolding short
length-short s most = elim (Bool-cases (leb (length s) most)) [
  | inl fits ↦ rw fits (omega (arith, leb→le _ _ fits))
  | inr long ↦
      rw long (omega (arith, length-append (take most s) (codes "..."), length-take most s))
]

-- No control characters, so that the text takes one line.
abbrev pub Printable : Text → Type 0
Printable = All (λ c. is_control c ≡ false)

printable-Printable : (s : Text) → Printable (printable s)
unfolding printable
printable-Printable [] = tt
printable-Printable (c ∷ s) = elim (Bool-cases (is_control c)) [
  | inl control ↦ rw control (printable-Printable s)
  | inr visible ↦ rw visible (visible, printable-Printable s)
]

Printable-append : (s t : Text) → Printable s → Printable t → Printable (s ++ t)
Printable-append [] t first rest = rest
Printable-append (c ∷ s) t (here, first) rest = (here, Printable-append s t first rest)

take-Printable : (n : ℕ) (s : Text) → Printable s → Printable (take n s)
take-Printable zero s all = tt
take-Printable (suc n) [] all = tt
take-Printable (suc n) (c ∷ s) (here, all) = (here, take-Printable n s all)

trim_start-Printable : (s : Text) → Printable s → Printable (trim_start s)
unfolding trim_start
trim_start-Printable [] all = tt
trim_start-Printable (c ∷ s) (here, all) = elim (Bool-cases (is_whitespace c)) [
  | inl blank ↦ rw blank (trim_start-Printable s all)
  | inr ink ↦ rw ink (here, all)
]

trim_end_by-Printable : (p : ℕ → Bool) (s : Text) → Printable s → Printable (trim_end_by p s)
unfolding trim_end_by
trim_end_by-Printable p [] all = tt
trim_end_by-Printable p (c ∷ s) (here, all) =
    by_rest (trim_end_by p s) refl (trim_end_by-Printable p s all)
  where
    by_rest : (r : Text) → trim_end_by p s ≡ r → Printable r → Printable (trim_end_by p (c ∷ s))
    by_rest [] e rest = elim (Bool-cases (p c)) [
      | inl cut ↦ rw (e, trim_end_by) (rw cut tt)
      | inr kept ↦ rw (e, trim_end_by) (rw kept (here, tt))
    ]
    by_rest (d ∷ r) e rest = rw (e, trim_end_by) (here, rest)

-- The logged part of a body has at most 163 characters and none that controls the terminal.
pub snippet-Printable :
    (decode : List ℕ → Text) (body : List ℕ)
    → (length (snippet decode body) ≤ 163) × Printable (snippet decode body)
unfolding snippet trim
snippet-Printable decode body = elim (Bool-cases (ltb 160 (length trimmed))) [
  | inl long ↦ rw long (
    omega (arith, length-append (take 160 trimmed) (codes "..."), length-take 160 trimmed),
    Printable-append (take 160 trimmed) (codes "...") (take-Printable 160 trimmed visible)
        (refl, (refl, (refl, tt))),
  )
  | inr fits ↦ rw fits (omega (arith, length-take 160 trimmed), take-Printable 160 trimmed visible)
]
  where
    trimmed : Text
    trimmed = trim (printable (decode body))

    visible : Printable trimmed
    visible =
        trim_end_by-Printable is_whitespace _
          (trim_start-Printable _ (printable-Printable (decode body)))
