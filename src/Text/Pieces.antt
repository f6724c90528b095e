-- ===== src/Text/Pieces.antt =====
-- `str::split` and `str::trim` on texts made of digits.
use brave_search_api_rotator.Base.{ℕ, ◌≡◌, refl, arith, Bool, true, false, [], ◌∷◌, ◌++◌, All}
use brave_search_api_rotator.Text.{Text, is_whitespace, trim_start, trim_end_by, trim, split}
use brave_search_api_rotator.Text.Numbers.{is_digit}

abbrev pub Digits : Text → Type 0
Digits = All (λ c. is_digit c ≡ true)

-- The test fails on every character.
abbrev pub Free : (ℕ → Bool) → Text → Type 0
Free p = All (λ c. p c ≡ false)

pub Free-of_Digits :
    (p : ℕ → Bool) → ((c : ℕ) → is_digit c ≡ true → p c ≡ false) → (s : Text) → Digits s → Free p s
Free-of_Digits p other [] digits = tt
Free-of_Digits p other (c ∷ s) (digit, digits) = (other c digit, Free-of_Digits p other s digits)

pub digit-not_whitespace : (c : ℕ) → is_digit c ≡ true → is_whitespace c ≡ false
unfolding is_digit is_whitespace
digit-not_whitespace c digit = ground arith

pub split-Free : (p : ℕ → Bool) (s : Text) → Free p s → split p s ≡ s ∷ []
unfolding split
split-Free p [] free = refl
split-Free p (c ∷ s) (here, free) = rw (here, split-Free p s free) refl

pub split-at :
    (p : ℕ → Bool) (s : Text) (c : ℕ) (t : Text)
    → Free p s
    → p c ≡ true
    → split p (s ++ c ∷ t) ≡ s ∷ split p t
unfolding split
split-at p [] c t free cut = rw cut refl
split-at p (d ∷ s) c t (here, free) cut = rw (here, split-at p s c t free cut) refl

trim_end_by-Free : (p : ℕ → Bool) (s : Text) → Free p s → trim_end_by p s ≡ s
unfolding trim_end_by
trim_end_by-Free p [] free = refl
trim_end_by-Free p (c ∷ []) (here, free) = rw here refl
trim_end_by-Free p (c ∷ d ∷ s) (here, free) = rw (trim_end_by-Free p (d ∷ s) free) refl

trim_start-Free : (s : Text) → Free is_whitespace s → trim_start s ≡ s
unfolding trim_start
trim_start-Free [] free = refl
trim_start-Free (c ∷ s) (here, free) = rw here refl

pub trim-Free : (s : Text) → Free is_whitespace s → trim s ≡ s
unfolding trim
trim-Free s free = rw (trim_start-Free s free) (trim_end_by-Free is_whitespace s free)

-- A blank before the text goes too.
pub trim-space : (s : Text) → Free is_whitespace s → trim (32 ∷ s) ≡ s
unfolding trim trim_start
trim-space s free = rw (trim_start-Free s free) (trim_end_by-Free is_whitespace s free)
