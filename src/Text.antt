-- ===== src/Text.antt =====
-- The parts of Rust's `str` that the program uses, over lists of code points.
pub mod Numbers
pub mod Pieces
use Prim.Native.Char.{code}
use Prim.Native.String.{String}
use brave_search_api_rotator.Base.{
  ℕ, ◌-◌, Bool, true, false, ◌&&◌, ◌||◌, List, [], ◌∷◌, ◌++◌, Option, none, some, ltb, leb, ◌==◌,
  if◌then◌else◌, ◌≡◌, ◌≢◌, ◌↔◌, refl, sym, arith, Bool-cases, inl, inr,
}

abbrev pub Text : Type 0
Text = List ℕ

-- A literal of the source; all are ASCII.
abbrev pub codes : String → Text
codes String.[] = []
codes (String.◌∷◌ c s) = code c ∷ codes s

unfoldable pub equal : Text → Text → Bool
equal [] [] = true
equal (x ∷ xs) (y ∷ ys) = x == y && equal xs ys
equal _ _ = false

pub equal_iff : (a b : Text) → (equal a b ≡ true) ↔ (a ≡ b)
unfolding equal
equal_iff (x ∷ a) (y ∷ b) = ground (arith, equal_iff a b)
equal_iff _ _ = ground arith

pub not-equal : (a b : Text) → b ≢ a → equal a b ≡ false
not-equal a b other = elim (Bool-cases (equal a b)) [
  | inl same ↦ absurd (other (sym ((equal_iff a b).0 same)))
  | inr differ ↦ differ
]

-- `char::is_whitespace`: the Unicode property White_Space.
unfoldable pub is_whitespace : ℕ → Bool
is_whitespace c =
    (leb 9 c && leb c 13)
    || c == 32
    || c == 0x85
    || c == 0xA0
    || c == 0x1680
    || (leb 0x2000 c && leb c 0x200A)
    || c == 0x2028
    || c == 0x2029
    || c == 0x202F
    || c == 0x205F
    || c == 0x3000

unfoldable pub trim_start : Text → Text
unfolding is_whitespace
trim_start [] = []
trim_start (c ∷ s) = if is_whitespace c then trim_start s else c ∷ s

-- `str::trim_end_matches` by a test: drops the longest run at the end that passes.
unfoldable pub trim_end_by : (ℕ → Bool) → Text → Text
trim_end_by p [] = []
trim_end_by p (c ∷ s) = cut p c (trim_end_by p s)
  where
    cut : (ℕ → Bool) → ℕ → Text → Text
    cut p c [] = if p c then [] else c ∷ []
    cut p c (d ∷ r) = c ∷ d ∷ r

-- `str::trim`.
unfoldable pub trim : Text → Text
unfolding trim_start trim_end_by
trim s = trim_end_by is_whitespace (trim_start s)

-- The first piece of `str::split`, and what stands behind its separator.
unfoldable pub split_first : (ℕ → Bool) → Text → Text × Option Text
split_first p [] = ([], none)
split_first p (c ∷ s) = if p c then ([], some s) else (c ∷ (split_first p s).0, (split_first p s).1)

-- `str::split`: at least one piece.
unfoldable pub split : (ℕ → Bool) → Text → List Text
split p [] = [] ∷ []
split p (c ∷ s) = if p c then [] ∷ split p s else onto c (split p s)
  where
    onto : ℕ → List Text → List Text
    onto c [] = (c ∷ []) ∷ []
    onto c (w ∷ ws) = (c ∷ w) ∷ ws

-- `str::strip_prefix`.
unfoldable pub strip_prefix : Text → Text → Option Text
strip_prefix [] s = some s
strip_prefix (x ∷ xs) [] = none
strip_prefix (x ∷ xs) (c ∷ s) = if x == c then strip_prefix xs s else none

unfoldable pub starts_with : Text → Text → Bool
unfolding strip_prefix
starts_with s prefix = elim (strip_prefix prefix s) [ none ↦ false | some _ ↦ true ]
