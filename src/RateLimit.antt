-- ===== src/RateLimit.antt =====
-- src/ratelimit.rs: Brave's rate-limit headers. A wait is a `Duration` in nanoseconds.
pub mod Headers
use brave_search_api_rotator.Base.{
  ℕ, ◌≤◌, Bool, true, false, ◌&&◌, List, [], ◌∷◌, Option, none, some, if◌then◌else◌, option_map,
  and_then, unwrap_or, is_none, is_some_eq, from_secs, ◌==◌, max, min,
}
use brave_search_api_rotator.Text.{Text, codes, split, trim, strip_prefix}
use brave_search_api_rotator.Text.Numbers.{parse_u64}
use brave_search_api_rotator.Http.{Http}

-- `Default` gives `no_windows`.
pub record Windows : Type 0 where
  pub second : Option ℕ
  pub month : Option ℕ

abbrev pub no_windows : Windows
no_windows = record { second = none; month = none }

pub record RateLimitInfo : Type 0 where
  pub limit : Windows
  pub remaining : Windows
  pub reset : Windows
  pub window : Windows
  pub retry_after : Option ℕ

unfoldable pub month_exhausted : RateLimitInfo → Bool
month_exhausted r = if is_some_eq r.limit.month 0 then false else is_some_eq r.remaining.month 0

-- `Ord::clamp`.
abbrev clamp : ℕ → ℕ → ℕ → ℕ
clamp n lo hi = min (max n lo) hi

unfoldable pub second_wait : RateLimitInfo → ℕ
second_wait r =
    from_secs (clamp (max (unwrap_or r.reset.second 1) (unwrap_or r.retry_after 0)) 1 60)

abbrev pub month_reset : RateLimitInfo → Option ℕ
month_reset r = option_map r.reset.month from_secs

-- `split(',')` and `split(';')`.
abbrev pub at_comma : Text → List Text
at_comma = split (λ c. c == b',')

abbrev pub at_semicolon : Text → List Text
at_semicolon = split (λ c. c == b';')

-- The first two parts of a header, each parsed by `f`; a missing part is `none`.
abbrev pub two_parts : (Text → Option ℕ) → List Text → Windows
two_parts f [] = no_windows
two_parts f (s ∷ []) = record { second = f s; month = none }
two_parts f (s ∷ m ∷ rest) = record { second = f s; month = f m }

-- The closure of `parse_windows`: the part before a semicolon, trimmed, as a number.
unfoldable pub window_value : Text → Option ℕ
window_value p = parse_u64 (trim (head_or_empty (at_semicolon (trim p))))
  where
    head_or_empty : List Text → Text
    head_or_empty [] = []
    head_or_empty (w ∷ ws) = w

unfoldable pub parse_windows : Text → Windows
unfolding window_value
parse_windows v = two_parts window_value (at_comma v)

-- `find_map` of `strip_prefix("w=")` over the trimmed pieces.
unfoldable pub find_size : List Text → Option Text
find_size [] = none
find_size (kv ∷ kvs) = elim (strip_prefix (codes "w=") (trim kv)) [
  | some w ↦ some w
  | none ↦ find_size kvs
]

unfoldable pub policy_size : Text → Option ℕ
unfolding find_size
policy_size p = and_then (find_size (at_semicolon p)) (λ w. parse_u64 (trim w))

unfoldable pub parse_policy_windows : Text → Windows
unfolding policy_size
parse_policy_windows v = two_parts policy_size (at_comma v)

-- `Option::map(f).unwrap_or_default()` on a header.
abbrev windows_or_default : Option Text → (Text → Windows) → Windows
windows_or_default none f = no_windows
windows_or_default (some v) f = f v

module _ (http : Http) where
  open http use {HeaderMap, get, to_str}

  unfoldable pub header_text : HeaderMap → Text → Option Text
  header_text h name = and_then (get h name) to_str

  unfoldable pub from_headers : HeaderMap → Option RateLimitInfo
  from_headers h =
      let limit : Option Text = header_text h (codes "x-ratelimit-limit") in
      let remaining : Option Text = header_text h (codes "x-ratelimit-remaining") in
      let reset : Option Text = header_text h (codes "x-ratelimit-reset") in
      let policy : Option Text = header_text h (codes "x-ratelimit-policy") in
      if is_none limit && is_none remaining && is_none reset && is_none policy
      then none
      else some (record {
        limit = windows_or_default limit parse_windows;
        remaining = windows_or_default remaining parse_windows;
        reset = windows_or_default reset parse_windows;
        window = windows_or_default policy parse_policy_windows;
        retry_after = and_then (header_text h (codes "retry-after")) (λ v. parse_u64 (trim v));
      })
