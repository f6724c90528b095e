-- ===== src/Examples/HeaderTests.antt =====
-- The unit tests of src/ratelimit.rs, run on the model with a list for the header map. Names are lower
-- case, as `HeaderName::from_bytes` makes them.
use brave_search_api_rotator.Base.{
  ℕ, Bool, true, false, ◌&&◌, not, List, [], ◌∷◌, Option, none, some, ◌≡◌, refl, ◌==◌, is_none,
  is_some_eq, from_secs,
}
use brave_search_api_rotator.Text.{Text, codes, equal, trim, split, strip_prefix}
use brave_search_api_rotator.Text.Numbers.{parse_unsigned}
use brave_search_api_rotator.Http.{values_of}
use brave_search_api_rotator.RateLimit.{
  Windows, RateLimitInfo, from_headers, month_exhausted, second_wait, month_reset, header_text,
  parse_windows, parse_policy_windows,
}
use brave_search_api_rotator.Examples.Headers.{list_http}

reading : Unit {0}
unfolding from_headers header_text values_of equal parse_windows parse_policy_windows trim split
    strip_prefix parse_unsigned month_exhausted second_wait
reading = tt

-- `from_headers(&h).unwrap()` in front of the assertions.
abbrev reads : List (Text × Text) → (RateLimitInfo → Bool) → Bool
reads h test = tested (from_headers list_http h)
  where
    tested : Option RateLimitInfo → Bool
    tested none = false
    tested (some rl) = test rl

-- Both parts of a header were read.
abbrev both : Windows → ℕ → ℕ → Bool
both w second month = is_some_eq w.second second && is_some_eq w.month month

abbrev parses_documented_example : Bool
parses_documented_example =
    reads
      ((codes "x-ratelimit-limit", codes "1, 15000")
        ∷ (codes "x-ratelimit-policy", codes "1;w=1, 15000;w=2592000")
        ∷ (codes "x-ratelimit-remaining", codes "0, 14523")
        ∷ (codes "x-ratelimit-reset", codes "1, 1234567")
        ∷ [])
      λ rl.
        both rl.limit 1 15000
        && both rl.remaining 0 14523
        && both rl.reset 1 1234567
        && both rl.window 1 2592000
        && not (month_exhausted rl)
        && second_wait rl == from_secs 1
        && is_some_eq (month_reset rl) (from_secs 1234567)

parses_documented_example_lem : parses_documented_example ≡ true
unfolding reading
parses_documented_example_lem = refl

abbrev detects_monthly_exhaustion_and_unlimited_plans : Bool
detects_monthly_exhaustion_and_unlimited_plans =
    reads
      ((codes "x-ratelimit-limit", codes "1, 2000")
        ∷ (codes "x-ratelimit-remaining", codes "1, 0")
        ∷ [])
      (λ rl. month_exhausted rl)
    && reads
        ((codes "x-ratelimit-limit", codes "50, 0")
          ∷ (codes "x-ratelimit-remaining", codes "49, 0")
          ∷ [])
        (λ rl. not (month_exhausted rl))

detects_monthly_exhaustion_and_unlimited_plans_lem :
    detects_monthly_exhaustion_and_unlimited_plans ≡ true
unfolding reading
detects_monthly_exhaustion_and_unlimited_plans_lem = refl

abbrev honours_retry_after_and_odd_formatting : Bool
honours_retry_after_and_odd_formatting =
    reads
      ((codes "x-ratelimit-remaining", codes " 0 ,  10 ")
        ∷ (codes "x-ratelimit-reset", codes "2,100")
        ∷ (codes "retry-after", codes "5")
        ∷ [])
      λ rl.
        both rl.remaining 0 10
        && second_wait rl == from_secs 5
        && is_none rl.limit.second
        && is_none rl.limit.month

honours_retry_after_and_odd_formatting_lem : honours_retry_after_and_odd_formatting ≡ true
unfolding reading
honours_retry_after_and_odd_formatting_lem = refl

abbrev absent_headers_yield_none : Bool
absent_headers_yield_none =
    is_none (from_headers list_http [])
    && is_none (from_headers list_http ((codes "content-type", codes "application/json") ∷ []))

absent_headers_yield_none_lem : absent_headers_yield_none ≡ true
unfolding reading
absent_headers_yield_none_lem = refl
