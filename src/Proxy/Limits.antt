-- ===== src/Proxy/Limits.antt =====
-- src/proxy.rs and src/ratelimit.rs: the limits that `build_response` prints are limits that
-- `parse_windows` reads.
use brave_search_api_rotator.Base.{
  ℕ, ◌≤◌, ◌≡◌, refl, arith, true, false, ◌∷◌, ◌++◌, some, ◌==◌, u64_max,
}
use brave_search_api_rotator.Text.{Text, codes, is_whitespace}
use brave_search_api_rotator.Text.Numbers.{is_digit, to_string}
use brave_search_api_rotator.Text.Numbers.Roundtrip.{parse_u64-to_string, to_string-Digits}
use brave_search_api_rotator.Text.Pieces.{
  Free, Free-of_Digits, digit-not_whitespace, split-Free, split-at, trim-Free, trim-space,
}
use brave_search_api_rotator.RateLimit.{window_value, parse_windows}
use brave_search_api_rotator.Pool.{Pool}

digit-not : (c x : ℕ) → is_digit x ≡ false → is_digit c ≡ true → (c == x) ≡ false
unfolding is_digit
digit-not c x other digit = ground arith

no_space : (n : ℕ) → Free is_whitespace (to_string n)
no_space n = Free-of_Digits is_whitespace digit-not_whitespace (to_string n) (to_string-Digits n)

no_comma : (n : ℕ) → Free (λ c. c == b',') (to_string n)
unfolding is_digit
no_comma n =
    Free-of_Digits (λ c. c == b',') (λ c. digit-not c b',' refl) (to_string n) (to_string-Digits n)

no_semicolon : (n : ℕ) → Free (λ c. c == b';') (to_string n)
unfolding is_digit
no_semicolon n =
    Free-of_Digits (λ c. c == b';') (λ c. digit-not c b';' refl) (to_string n) (to_string-Digits n)

-- A number is read back, with or without a blank before it.
window_value-to_string : (n : ℕ) → n ≤ u64_max → window_value (to_string n) ≡ some n
unfolding window_value
window_value-to_string n small =
    rw
      (
        trim-Free _ (no_space n),
        split-Free (λ c. c == b';') _ (no_semicolon n),
        trim-Free _ (no_space n),
      )
      (parse_u64-to_string n small)

window_value-space : (n : ℕ) → n ≤ u64_max → window_value (32 ∷ to_string n) ≡ some n
unfolding window_value
window_value-space n small =
    rw
      (
        trim-space _ (no_space n),
        split-Free (λ c. c == b';') _ (no_semicolon n),
        trim-Free _ (no_space n),
      )
      (parse_u64-to_string n small)

pub parse_windows-printed :
    (a b : ℕ)
    → a ≤ u64_max
    → b ≤ u64_max
    → parse_windows (to_string a ++ (codes ", " ++ to_string b))
      ≡ record { second = some a; month = some b }
unfolding parse_windows
parse_windows-printed a b a_small b_small =
    rw
      (
        split-at (λ c. c == b',') (to_string a) b',' (32 ∷ to_string b) (no_comma a) refl,
        split-Free (λ c. c == b',') (32 ∷ to_string b) (refl, no_comma b),
        window_value-to_string a a_small,
        window_value-space b b_small,
      )
      refl
