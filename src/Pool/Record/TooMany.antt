-- ===== src/Pool/Record/TooMany.antt =====
-- src/pool.rs, `record`: the effects of a 429, with and without rate-limit headers.
use native.Mathlib.Nat.{one-le-pow, mul-le-mul_left}
use brave_search_api_rotator.Base.{
  ℕ, ◌+◌, ◌*◌, ◌^◌, ◌≤◌, ◌<◌, min, true, false, Option, none, some, ◌≡◌, ◌∙◌, arith, u32_max,
  from_secs, unwrap_or, add_u32,
}
use brave_search_api_rotator.Text.{Text}
use brave_search_api_rotator.RateLimit.{RateLimitInfo, month_exhausted, month_reset, second_wait}
use brave_search_api_rotator.RateLimit.Headers.{second_wait_bounds}
use brave_search_api_rotator.Key.{KeyState, Health, exhausted_fallback, unexplained_429_backoff}
use brave_search_api_rotator.Key.Quota.{learn_limits}
use brave_search_api_rotator.Key.Backoff.Durations.{backoff_strike}
use brave_search_api_rotator.Key.Backoff.{disable, exhaust, backoff}
use brave_search_api_rotator.Pool.{response}
use brave_search_api_rotator.Pool.Record.{digest, detail_of, unexplained_reason}

abbrev after_429 : KeyState → ℕ → Option RateLimitInfo → Option Text → KeyState
after_429 k now rl body = (digest k now (response 429 rl body)).0

pow-pos : (n : ℕ) → 1 ≤ 2 ^ n
pow-pos n = one-le-pow n 2 (omega arith)

-- With one base and one longest time, a strike disables for just that long.
backoff_const : (d strikes : ℕ) → d ≤ from_secs 1000 → backoff d d (min (strikes + 1) u32_max) ≡ d
backoff_const d strikes h =
    let grows : d * 1 ≤ d * 2 ^ strikes = mul-le-mul_left d (pow-pos strikes) in
    backoff_strike d d strikes (omega arith) (omega arith) ∙ omega arith

pub digest_429_explained :
    (k : KeyState) (now : ℕ) (r : RateLimitInfo) (body : Option Text)
    → let k' = after_429 k now (some r) body in
      (month_exhausted r ≡ true
        → k'.health ≡ Health.exhausted (now + unwrap_or (month_reset r) exhausted_fallback))
      × (month_exhausted r ≡ false
          → (k'.health ≡ k.health)
            × (k'.hold_until ≡ some (now + second_wait r))
            × (from_secs 1 ≤ second_wait r)
            × (second_wait r ≤ from_secs 60))
      × (k'.consecutive_429 ≡ add_u32 k.consecutive_429 1)
unfolding digest exhaust learn_limits
digest_429_explained k now r body = ground (arith, second_wait_bounds r)

-- A 429 without headers holds the key for two seconds and counts; from the fifth in a row on, it
-- also disables the key for five minutes and starts the count again.
pub digest_429_unexplained :
    (k : KeyState) (now : ℕ) (body : Option Text)
    → let k' = after_429 k now none body in
      let n = add_u32 k.consecutive_429 1 in
      (n < 5 → (k'.health ≡ k.health) × (k'.consecutive_429 ≡ n))
      × (5 ≤ n
          → (k'.health
              ≡ Health.disabled (now + from_secs 300) (unexplained_reason n (detail_of body)))
            × (k'.consecutive_429 ≡ 0))
      × (k'.hold_until ≡ some (now + from_secs 2))
unfolding digest disable
digest_429_unexplained k now body =
    ground (arith, backoff_const unexplained_429_backoff k.disable_strikes (omega arith))

-- The count of 429s without headers includes those with headers: after three in a row of any kind
-- and a fourth with headers, a single one without headers disables the key.
pub unexplained_counts_explained :
    (k : KeyState) (now later : ℕ) (r : RateLimitInfo) (body : Option Text)
    → k.consecutive_429 ≡ 3
    → let first = after_429 k now (some r) body in
      (after_429 first later none body).health
      ≡ Health.disabled (later + from_secs 300) (unexplained_reason 5 (detail_of body))
unexplained_counts_explained k now later r body three =
    let counted = (digest_429_explained k now r body).2 in
    let n : add_u32 (after_429 k now (some r) body).consecutive_429 1 ≡ 5 =
      omega (arith, counted) in
    rw n at
      ((digest_429_unexplained (after_429 k now (some r) body) later body).1 (omega (arith, n))).0
