-- ===== src/Key/Backoff.antt =====
-- src/pool.rs: `disable`, `exhaust` and `fail`.
pub mod Durations
use brave_search_api_rotator.Base.{
  ℕ, ◌+◌, ◌-◌, ◌^◌, min, ◌++◌, Option, none, some, leb, if◌then◌else◌, unwrap_or, add_u32, u32_max,
  saturating_mul,
}
use brave_search_api_rotator.Text.{Text, codes}
use brave_search_api_rotator.Text.Numbers.{to_string}
use brave_search_api_rotator.Key.{
  KeyState, Health, fail_threshold, fail_backoff_base, fail_backoff_max, exhausted_fallback,
}

-- How long a strike disables: `1u32 << (strikes - 1).min(16)` times the base, at most `top`.
unfoldable pub backoff : ℕ → ℕ → ℕ → ℕ
backoff base top strikes = min (saturating_mul base (2 ^ min (strikes - 1) 16)) top

-- `Option::get_or_insert`.
abbrev get_or_insert : Option ℕ → ℕ → Option ℕ
get_or_insert none v = some v
get_or_insert (some w) v = some w

unfoldable pub disable : KeyState → ℕ → ℕ → ℕ → Text → KeyState
disable k now base top reason =
    let strikes = min (k.disable_strikes + 1) u32_max in
    record k {
      disable_strikes = strikes;
      disabled_since = get_or_insert k.disabled_since now;
      consecutive_failures = 0;
      consecutive_429 = 0;
      health = Health.disabled (now + backoff base top strikes) reason;
    }

unfoldable pub exhaust : KeyState → ℕ → Option ℕ → KeyState
exhaust k now reset_in =
    let until = now + unwrap_or reset_in exhausted_fallback in
    record k {
      month_remaining = some 0;
      month_reset_at = some until;
      health = Health.exhausted until;
    }

unfoldable pub fail_reason : Text → ℕ → Text
fail_reason what n = what ++ (codes " (" ++ (to_string n ++ codes " consecutive failures)"))

unfoldable pub fail : KeyState → ℕ → Text → KeyState
fail k now what =
    let failures = add_u32 k.consecutive_failures 1 in
    let counted = record k { consecutive_failures = failures } in
    if leb fail_threshold failures
    then disable counted now fail_backoff_base fail_backoff_max (fail_reason what failures)
    else counted
