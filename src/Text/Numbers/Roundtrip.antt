-- ===== src/Text/Numbers/Roundtrip.antt =====
-- `u64::from_str` reads back what `u64::to_string` prints, as the header values rest on.
use native.Mathlib.Nat.{pow-suc}
use brave_search_api_rotator.Base.{
  ℕ, zero, suc, ◌+◌, ◌*◌, ◌/◌, ◌%◌, ◌^◌, ◌≤◌, ◌<◌, ◌≡◌, refl, ap, ◌∙◌, inl, inr, arith, true, false,
  [], ◌∷◌, ◌++◌, Option, none, some, ltb, ◌==◌, if◌then◌else◌, and_then, Bool-cases, ltb→lt, lt→ltb,
  ==_iff, is_empty, u64_max, u128_max,
}
use brave_search_api_rotator.Text.{Text}
use brave_search_api_rotator.Text.Pieces.{Digits}
use brave_search_api_rotator.Text.Numbers.{
  is_digit, push_digit, parse_digits, parse_unsigned, parse_u64, to_digits, to_string,
  to_string_u128,
}

parse_digits-append :
    (limit acc : ℕ) (s : Text) (c : ℕ)
    → parse_digits limit acc (s ++ c ∷ [])
      ≡ and_then (parse_digits limit acc s) (λ a. push_digit limit a c)
unfolding parse_digits
parse_digits-append limit acc [] c = by_last (push_digit limit acc c) refl
  where
    by_last :
        (o : Option ℕ)
        → push_digit limit acc c ≡ o
        → parse_digits limit acc (c ∷ []) ≡ push_digit limit acc c
    by_last none e = rw (e, parse_digits) refl
    by_last (some a) e = rw (e, parse_digits) refl
parse_digits-append limit acc (d ∷ s) c =
    by_first (push_digit limit acc d) refl λ a. parse_digits-append limit a s c
  where
    by_first :
        (o : Option ℕ)
        → push_digit limit acc d ≡ o
        → ((a : ℕ)
            → parse_digits limit a (s ++ c ∷ [])
              ≡ and_then (parse_digits limit a s) (λ a. push_digit limit a c))
        → parse_digits limit acc (d ∷ s ++ c ∷ [])
          ≡ and_then (parse_digits limit acc (d ∷ s)) (λ a. push_digit limit a c)
    by_first none e rest = rw (e, parse_digits) refl
    by_first (some a) e rest = rw (e, parse_digits) (rest a)

push_digit_value :
    (limit acc d : ℕ)
    → d < 10
    → acc * 10 + d ≤ limit
    → push_digit limit acc (b'0' + d) ≡ some (acc * 10 + d)
unfolding push_digit is_digit
push_digit_value limit acc d digit small = ground arith

push_digit_last : (limit n : ℕ) → n ≤ limit → push_digit limit (n / 10) (b'0' + n % 10) ≡ some n
push_digit_last limit n small =
    push_digit_value limit (n / 10) (n % 10) (omega arith) (omega arith) ∙ ap some (omega arith)

parse_digits_one :
    (limit n : ℕ) → n < 10 → n ≤ limit → parse_digits limit 0 ((b'0' + n) ∷ []) ≡ some n
unfolding parse_digits
parse_digits_one limit n digit small =
    rw (push_digit_value limit 0 n digit (omega arith), parse_digits) (ap some (omega arith))

to_digits-suc :
    (f n : ℕ)
    → to_digits (suc f) n
      ≡ (if ltb n 10 then (b'0' + n) ∷ [] else to_digits f (n / 10) ++ (b'0' + n % 10) ∷ [])
unfolding to_digits
to_digits-suc f n = refl

parse_digits-to_digits :
    (limit f n : ℕ)
    → n < 10 ^ suc f
    → n ≤ limit
    → parse_digits limit 0 (to_digits (suc f) n) ≡ some n
parse_digits-to_digits limit zero n fits small =
    rw (to_digits-suc 0 n, lt→ltb n 10 (omega arith)) (parse_digits_one limit n (omega arith) small)
parse_digits-to_digits limit (suc f) n fits small = elim (Bool-cases (ltb n 10)) [
  | inl one_digit ↦
      rw (to_digits-suc (suc f) n, one_digit)
        (parse_digits_one limit n (ltb→lt _ _ one_digit) small)
  | inr more ↦
      let shorter : 10 ^ suc (suc f) ≡ 10 ^ suc f * 10 = pow-suc 10 (suc f) in
      let high = parse_digits-to_digits limit f (n / 10) (omega (arith, shorter)) (omega arith) in
      rw (to_digits-suc (suc f) n, more)
        (parse_digits-append limit 0 (to_digits (suc f) (n / 10)) (b'0' + n % 10)
          ∙ rw high (push_digit_last limit n small))
]

to_digits_filled : (f n : ℕ) → is_empty (to_digits (suc f) n) ≡ false
to_digits_filled f n = elim (Bool-cases (ltb n 10)) [
  | inl one_digit ↦ rw (to_digits-suc f n, one_digit) refl
  | inr more ↦ rw (to_digits-suc f n, more) (longer (to_digits f (n / 10)) (b'0' + n % 10))
]
  where
    longer : (s : Text) (c : ℕ) → is_empty (s ++ c ∷ []) ≡ false
    longer [] c = refl
    longer (d ∷ s) c = refl

-- The plus that `parse` allows is no digit.
no_plus : (limit n c : ℕ) (s : Text) → c ≡ b'+' → ¬ (parse_digits limit 0 (c ∷ s) ≡ some n)
unfolding parse_digits push_digit is_digit
no_plus limit n c s plus digits = ground arith

parse_unsigned-digits :
    (limit n : ℕ) (s : Text)
    → is_empty s ≡ false
    → parse_digits limit 0 s ≡ some n
    → parse_unsigned limit s ≡ some n
unfolding parse_unsigned
parse_unsigned-digits limit n [] filled digits = absurd cc
parse_unsigned-digits limit n (c ∷ []) filled digits = digits
parse_unsigned-digits limit n (c ∷ d ∷ s) filled digits = elim (Bool-cases (c == b'+')) [
  | inl plus ↦ absurd (no_plus limit n c (d ∷ s) ((==_iff c b'+').0 plus) digits)
  | inr digit ↦ rw digit digits
]

-- Every number that fits a u64 is read back from its text.
pub parse_u64-to_string : (n : ℕ) → n ≤ u64_max → parse_u64 (to_string n) ≡ some n
unfolding to_string
parse_u64-to_string n small =
    parse_unsigned-digits u64_max n (to_digits 20 n) (to_digits_filled 19 n)
      (parse_digits-to_digits u64_max 19 n (omega arith) small)

-- And every number that fits a u128.
pub parse_unsigned-to_string_u128 :
    (n : ℕ) → n ≤ u128_max → parse_unsigned u128_max (to_string_u128 n) ≡ some n
unfolding to_string_u128
parse_unsigned-to_string_u128 n small =
    parse_unsigned-digits u128_max n (to_digits 39 n) (to_digits_filled 38 n)
      (parse_digits-to_digits u128_max 38 n (omega arith) small)

Digits-append : (s : Text) (c : ℕ) → Digits s → is_digit c ≡ true → Digits (s ++ c ∷ [])
Digits-append [] c digits last = (last, tt)
Digits-append (d ∷ s) c (first, digits) last = (first, Digits-append s c digits last)

is_digit_value : (d : ℕ) → d < 10 → is_digit (b'0' + d) ≡ true
unfolding is_digit
is_digit_value d small = ground arith

to_digits-Digits : (f n : ℕ) → Digits (to_digits f n)
unfolding to_digits
to_digits-Digits zero n = tt
to_digits-Digits (suc f) n = elim (Bool-cases (ltb n 10)) [
  | inl one_digit ↦ rw one_digit (is_digit_value n (ltb→lt _ _ one_digit), tt)
  | inr more ↦ rw more (
      Digits-append (to_digits f (n / 10)) (b'0' + n % 10) (to_digits-Digits f (n / 10))
        (is_digit_value (n % 10) (omega arith)))
]

pub to_string-Digits : (n : ℕ) → Digits (to_string n)
unfolding to_string
to_string-Digits n = to_digits-Digits 20 n

pub to_string_u128-Digits : (n : ℕ) → Digits (to_string_u128 n)
unfolding to_string_u128
to_string_u128-Digits n = to_digits-Digits 39 n
