-- ===== src/Pool/Record/Statuses.antt =====
-- src/pool.rs, `record`: the state of a key after each kind of outcome.
use brave_search_api_rotator.Base.{
  ℕ, ◌+◌, ◌*◌, ◌^◌, ◌≤◌, ◌<◌, min, Option, none, some, ◌≡◌, arith, ◌⊎◌, u32_max, from_secs, add_u64,
}
use brave_search_api_rotator.Text.{Text}
use brave_search_api_rotator.RateLimit.{RateLimitInfo}
use brave_search_api_rotator.Key.{KeyState, Health, auth_backoff_base, auth_backoff_max}
use brave_search_api_rotator.Key.Quota.{learn_limits}
use brave_search_api_rotator.Key.Backoff.Durations.{backoff_strike}
use brave_search_api_rotator.Key.Backoff.{disable, exhaust, fail}
use brave_search_api_rotator.Pool.{Outcome, response, transport}
use brave_search_api_rotator.Pool.Record.{
  digest, by_status, learned, on_5xx, detail_of, http_reason, transport_reason,
}
use brave_search_api_rotator.Pool.Record.Effects.{
  IsFailure, FailsOnce, fail-FailsOnce, learn_limits-failures,
}

abbrev pub seen : KeyState → ℕ → ℕ → Option RateLimitInfo → KeyState
seen k now status rl =
    learned (record k { stats = record k.stats { last_status = some status } }) now rl

pub learned_keeps :
    (k : KeyState) (now status : ℕ) (rl : Option RateLimitInfo)
    → let k' = seen k now status rl in
      (k'.consecutive_failures ≡ k.consecutive_failures)
      × (k'.health ≡ k.health)
      × (k'.disable_strikes ≡ k.disable_strikes)
      × (k'.consecutive_429 ≡ k.consecutive_429)
      × (k'.stats ≡ record k.stats { last_status = some status })
      × (k'.monthly_cap_override ≡ k.monthly_cap_override)
learned_keeps k now status rl =
    learn_limits-failures (record k { stats = record k.stats { last_status = some status } }) now rl

by_status-5xx :
    (k : KeyState) (now status : ℕ) (rl : Option RateLimitInfo) (detail : Text)
    → (500 ≤ status) × (status ≤ 599)
    → (by_status k now status rl detail).0 ≡ on_5xx k now status detail
unfolding by_status
by_status-5xx k now status rl detail h = ground arith

-- A transport error or a 5xx counts one failure: the third in a row disables the key for thirty seconds, doubled for
-- each strike so far up to ten minutes, and starts the count again; an earlier one leaves the
-- key's health and strikes alone.
pub digest-FailsOnce :
    (k : KeyState) (now : ℕ) (outcome : Outcome)
    → k.consecutive_failures < 3
    → IsFailure outcome
    → FailsOnce k now (digest k now outcome).0
unfolding digest learn_limits
digest-FailsOnce k now (transport error) few failed =
    fail-FailsOnce _ now (transport_reason error) few
digest-FailsOnce k now (response status none body) few failed =
    rw (by_status-5xx _ now status none (detail_of body) failed)
      (fail-FailsOnce _ now (http_reason status (detail_of body)) few)
digest-FailsOnce k now (response status (some r) body) few failed =
    rw (by_status-5xx _ now status (some r) (detail_of body) failed)
      (fail-FailsOnce _ now (http_reason status (detail_of body)) few)

-- No outcome takes the count of failures in a row to three.
pub digest-failures_lt :
    (k : KeyState) (now : ℕ) (outcome : Outcome)
    → k.consecutive_failures < 3
    → (digest k now outcome).0.consecutive_failures < 3
unfolding digest fail disable exhaust
digest-failures_lt k now (transport error) few = ground arith
digest-failures_lt k now (response status rl body) few =
    ground (arith, learned_keeps k now status rl)

-- A 401 or 403 disables the key at once, for five minutes doubled for each strike so far up to an
-- hour, with the status and the body's start as the reason, counts the strike, and sets the count of
-- failures in a row to zero.
pub digest_auth :
    (k : KeyState) (now status : ℕ) (rl : Option RateLimitInfo) (body : Option Text)
    → (status ≡ 401) ⊎ (status ≡ 403)
    → let k' = (digest k now (response status rl body)).0 in
      (k'.health
        ≡ Health.disabled
            (now + min (from_secs 300 * 2 ^ k.disable_strikes) (from_secs 3600))
            (http_reason status (detail_of body)))
      × (k'.disable_strikes ≡ min (k.disable_strikes + 1) u32_max)
      × (k'.consecutive_failures ≡ 0)
unfolding digest disable
digest_auth k now status rl body auth = ground (
  arith,
  learned_keeps k now status rl,
  backoff_strike auth_backoff_base auth_backoff_max k.disable_strikes (omega arith) (omega arith),
)

-- A 2xx clears the strikes and both counts in a row, adds one to the successes and notes the time.
pub digest_success :
    (k : KeyState) (now status : ℕ) (rl : Option RateLimitInfo) (body : Option Text)
    → 200 ≤ status
    → status ≤ 299
    → let k' = (digest k now (response status rl body)).0 in
      (k'.disable_strikes ≡ 0)
      × (k'.consecutive_failures ≡ 0)
      × (k'.consecutive_429 ≡ 0)
      × (k'.stats.ok ≡ add_u64 k.stats.ok 1)
      × (k'.last_ok ≡ some now)
unfolding digest exhaust
digest_success k now status rl body lo hi = ground (arith, learned_keeps k now status rl)
