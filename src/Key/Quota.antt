-- ===== src/Key/Quota.antt =====
-- src/pool.rs: the monthly quota of a key, and what a response teaches about its limits.
use brave_search_api_rotator.Base.{
  ℕ, ◌+◌, ◌-◌, min, Bool, true, false, ◌&&◌, ◌||◌, not, Option, none, some, ltb, leb, if◌then◌else◌,
  is_some, is_some_eq, unwrap_or, u64_max,
}
use brave_search_api_rotator.Key.{KeyState, max_learned_rps}
use brave_search_api_rotator.RateLimit.{RateLimitInfo, month_reset}

unfoldable pub month_unlimited : KeyState → Bool
month_unlimited k = if is_some k.monthly_cap_override then false else is_some_eq k.month_limit 0

-- `zip`, `map` of the saturating difference, and `unwrap_or(0)`.
abbrev used_of : Option ℕ → Option ℕ → ℕ
used_of (some l) (some r) = l - r
used_of (some l) none = 0
used_of none r = 0

unfoldable pub effective_month_used : KeyState → ℕ
effective_month_used k =
    if is_some k.monthly_cap_override then k.stats.ok else used_of k.month_limit k.month_remaining

unfoldable pub month_remaining_for_ranking : KeyState → ℕ
unfolding effective_month_used month_unlimited
month_remaining_for_ranking k = elim k.monthly_cap_override [
  | some cap ↦ cap - effective_month_used k
  | none ↦ if month_unlimited k then u64_max else unwrap_or k.month_remaining u64_max
]

unfoldable pub override_cap_exhausted : KeyState → Bool
unfolding effective_month_used
override_cap_exhausted k = elim k.monthly_cap_override [
  | some cap ↦ leb cap (effective_month_used k)
  | none ↦ false
]

-- `rl.limit.second.filter(|l| *l > 0)`, capped.
abbrev learned_sec_limit : Option ℕ → ℕ → ℕ
learned_sec_limit none old = old
learned_sec_limit (some l) old = if ltb 0 l then min l max_learned_rps else old

-- `if new.is_some() { old = new }`.
abbrev pub or_keep : Option ℕ → Option ℕ → Option ℕ
or_keep none old = old
or_keep (some v) old = some v

abbrev reset_at : Option ℕ → ℕ → Option ℕ → Option ℕ
reset_at none now old = old
reset_at (some r) now old = some (now + r)

unfoldable pub learn_limits : KeyState → ℕ → RateLimitInfo → KeyState
learn_limits k now rl = record k {
  sec_limit = learned_sec_limit rl.limit.second k.sec_limit;
  month_limit = or_keep rl.limit.month k.month_limit;
  month_remaining = or_keep rl.remaining.month k.month_remaining;
  month_reset_at = reset_at (month_reset rl) now k.month_reset_at;
  limits_learned =
      if not k.limits_learned && (is_some rl.limit.second || is_some rl.limit.month)
      then true
      else k.limits_learned;
}
