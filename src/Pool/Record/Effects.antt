-- ===== src/Pool/Record/Effects.antt =====
-- src/pool.rs, `record`: its effects on one key, for each kind of outcome.
use brave_search_api_rotator.Base.{
  ℕ, ◌+◌, ◌*◌, ◌^◌, ◌≤◌, ◌<◌, min, Option, none, some, ◌≡◌, refl, arith, ◌↔◌, ◌⊎◌, inl, inr,
  u32_max, from_secs, leb, add_u32, Bool-cases,
}
use brave_search_api_rotator.Text.{Text}
use brave_search_api_rotator.RateLimit.{RateLimitInfo}
use brave_search_api_rotator.Key.{
  KeyState, Health, fail_threshold, fail_backoff_base, fail_backoff_max,
}
use brave_search_api_rotator.Key.Quota.{learn_limits}
use brave_search_api_rotator.Key.Backoff.Durations.{backoff_strike}
use brave_search_api_rotator.Key.Backoff.{fail_reason, disable, exhaust, fail}
use brave_search_api_rotator.Pool.{Verdict, Outcome, response, transport}
use brave_search_api_rotator.Pool.Record.{digest, by_status, learned, detail_of}

-- The parts of a key that an outcome leaves alone.
abbrev pub SameSends : KeyState → KeyState → Type 0
SameSends k k' =
    (k'.sends ≡ k.sends)
    × (k'.last_used ≡ k.last_used)
    × (k'.token ≡ k.token)
    × (k'.label ≡ k.label)
    × (k'.monthly_cap_override ≡ k.monthly_cap_override)

pub learn_limits-SameSends :
    (k : KeyState) (now : ℕ) (rl : RateLimitInfo) → SameSends k (learn_limits k now rl)
unfolding learn_limits
learn_limits-SameSends k now rl = (refl, refl, refl, refl, refl)

learn_limits-sec_limit :
    (k : KeyState) (now : ℕ) (rl : RateLimitInfo)
    → k.sec_limit ≤ u32_max
    → (learn_limits k now rl).sec_limit ≤ u32_max
unfolding learn_limits
learn_limits-sec_limit k now rl h = ground arith

pub by_status-SameSends :
    (k : KeyState) (now status : ℕ) (rl : Option RateLimitInfo) (detail : Text)
    → SameSends k (by_status k now status rl detail).0
      × ((by_status k now status rl detail).0.sec_limit ≡ k.sec_limit)
unfolding by_status disable exhaust fail
by_status-SameSends k now status rl detail = ground arith

pub digest_keeps :
    (k : KeyState) (now : ℕ) (outcome : Outcome)
    → k.sec_limit ≤ u32_max
    → SameSends k (digest k now outcome).0 × ((digest k now outcome).0.sec_limit ≤ u32_max)
unfolding digest fail disable
digest_keeps k now (transport error) b = ground arith
digest_keeps k now (response status none body) b = ground (
  arith,
  by_status-SameSends (record k { stats = record k.stats { last_status = some status } }) now status
      none (detail_of body),
)
digest_keeps k now (response status (some r) body) b =
    let seen = record k { stats = record k.stats { last_status = some status } } in
    ground (
      arith,
      by_status-SameSends (learn_limits seen now r) now status (some r) (detail_of body),
      learn_limits-SameSends seen now r,
      learn_limits-sec_limit seen now r b,
    )

-- The statuses after which another key is tried.
abbrev pub IsRetried : ℕ → Type 0
IsRetried status =
    (status ≡ 401) ⊎ ((status ≡ 403) ⊎ ((status ≡ 429) ⊎ ((500 ≤ status) × (status ≤ 599))))

-- What the caller is told, for every status: success for 2xx, another key for 401, 403, 429
-- and 5xx and for a transport error, and the response as it is for all else. A transport error
-- always means another key.
pub digest_verdict :
    (k : KeyState) (now status : ℕ) (rl : Option RateLimitInfo) (body : Option Text) (error : Text)
    → (((digest k now (response status rl body)).1 ≡ Verdict.ok)
        ↔ ((200 ≤ status) × (status ≤ 299)))
      × (((digest k now (response status rl body)).1 ≡ Verdict.retry_other_key) ↔ IsRetried status)
      × ((digest k now (transport error)).1 ≡ Verdict.retry_other_key)
unfolding digest
digest_verdict k now status rl body error = ground arith

-- The outcomes that count towards disabling a key.
abbrev pub IsFailure : Outcome → Type 0
IsFailure (transport error) = Unit
IsFailure (response status rl body) = (500 ≤ status) × (status ≤ 599)

pub learn_limits-failures :
    (k : KeyState) (now : ℕ) (rl : Option RateLimitInfo)
    → let k' = learned k now rl in
      (k'.consecutive_failures ≡ k.consecutive_failures)
      × (k'.health ≡ k.health)
      × (k'.disable_strikes ≡ k.disable_strikes)
      × (k'.consecutive_429 ≡ k.consecutive_429)
      × (k'.stats ≡ k.stats)
      × (k'.monthly_cap_override ≡ k.monthly_cap_override)
unfolding learn_limits
learn_limits-failures k now none = (refl, refl, refl, refl, refl, refl)
learn_limits-failures k now (some rl) = (refl, refl, refl, refl, refl, refl)

-- What a third failure in a row does: the key is disabled for 30 seconds times two to the strikes
-- so far, ten minutes at most. Fewer failures only count.
abbrev pub FailsOnce : KeyState → ℕ → KeyState → Type 0
FailsOnce k now k' =
    ((k.consecutive_failures < 2)
      × (k'.consecutive_failures ≡ k.consecutive_failures + 1)
      × (k'.health ≡ k.health)
      × (k'.disable_strikes ≡ k.disable_strikes))
    ⊎ ((k.consecutive_failures ≡ 2)
        × (k'.consecutive_failures ≡ 0)
        × (k'.disable_strikes ≡ min (k.disable_strikes + 1) u32_max)
        × ((reason : Text) × (k'.health
              ≡ Health.disabled (now + min (from_secs 30 * 2 ^ k.disable_strikes) (from_secs 600))
                  reason)))

pub fail-FailsOnce :
    (k : KeyState) (now : ℕ) (what : Text)
    → k.consecutive_failures < fail_threshold
    → FailsOnce k now (fail k now what)
unfolding fail disable
fail-FailsOnce k now what h = elim (Bool-cases (leb 2 k.consecutive_failures)) [
  | inl third ↦ inr (
    ground arith,
    ground arith,
    ground arith,
    (
      fail_reason what (add_u32 k.consecutive_failures 1),
      ground (
        arith,
        backoff_strike fail_backoff_base fail_backoff_max k.disable_strikes (omega arith)
            (omega arith),
      ),
    ),
  )
  | inr fewer ↦ inl (ground arith)
]
