-- ===== src/Text/Numbers.antt =====
-- `u64::from_str` and `u64::to_string`.
pub mod Roundtrip
use brave_search_api_rotator.Base.{
  ℕ, zero, suc, ◌+◌, ◌-◌, ◌*◌, ◌/◌, ◌%◌, Bool, ◌&&◌, [], ◌∷◌, ◌++◌, Option, none, some, ltb, leb,
  ◌==◌, if◌then◌else◌, u64_max,
}
use brave_search_api_rotator.Text.{Text}

unfoldable pub is_digit : ℕ → Bool
is_digit c = leb b'0' c && leb c b'9'

-- One digit: the value so far times ten, plus the digit, refused above `limit`.
unfoldable pub push_digit : ℕ → ℕ → ℕ → Option ℕ
unfolding is_digit
push_digit limit acc c =
    if is_digit c
    then if leb (acc * 10 + (c - b'0')) limit then some (acc * 10 + (c - b'0')) else none
    else none

unfoldable pub parse_digits : ℕ → ℕ → Text → Option ℕ
unfolding push_digit
parse_digits limit acc [] = some acc
parse_digits limit acc (c ∷ s) = elim (push_digit limit acc c) [
  | none ↦ none
  | some acc' ↦ parse_digits limit acc' s
]

unfoldable pub parse_unsigned : ℕ → Text → Option ℕ
unfolding parse_digits
parse_unsigned limit [] = none
parse_unsigned limit (c ∷ []) = parse_digits limit 0 (c ∷ [])
parse_unsigned limit (c ∷ d ∷ s) =
    if c == b'+' then parse_digits limit 0 (d ∷ s) else parse_digits limit 0 (c ∷ d ∷ s)

-- `str::parse::<u64>`: an optional plus, then digits only, at least one, with no overflow.
abbrev pub parse_u64 : Text → Option ℕ
parse_u64 = parse_unsigned u64_max

-- The digits of `n`, at most as many as the first argument.
unfoldable pub to_digits : ℕ → ℕ → Text
to_digits zero n = []
to_digits (suc f) n =
    let high = to_digits f (n / 10) in
    if ltb n 10 then (b'0' + n) ∷ [] else high ++ (b'0' + n % 10) ∷ []

-- `u128::to_string`: thirty-nine digits are enough.
unfoldable pub to_string_u128 : ℕ → Text
unfolding to_digits
to_string_u128 = to_digits 39

-- `u64::to_string`: twenty digits are enough.
unfoldable pub to_string : ℕ → Text
unfolding to_digits
to_string = to_digits 20
