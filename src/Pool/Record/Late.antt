-- ===== src/Pool/Record/Late.antt =====
-- src/pool.rs, `record`: outcomes of requests that were under way when their key was parked.
use brave_search_api_rotator.Base.{ℕ, ◌≤◌, ◌<◌, Option, none, ◌≡◌, arith}
use brave_search_api_rotator.Text.{Text}
use brave_search_api_rotator.Key.{KeyState, Health}
use brave_search_api_rotator.Key.Quota.{override_cap_exhausted}
use brave_search_api_rotator.Pool.{response}
use brave_search_api_rotator.Pool.Record.{digest}

-- A 2xx without rate-limit headers for a key that is disabled meanwhile and has no local cap takes
-- back the strikes and the time since which it is disabled, but leaves the key disabled as it was.
pub late_success_stays_disabled :
    (k : KeyState) (now status : ℕ) (body : Option Text) (until : ℕ) (reason : Text)
    → (200 ≤ status) × (status ≤ 299)
    → k.health ≡ Health.disabled until reason
    → k.monthly_cap_override ≡ none
    → 0 < k.disable_strikes
    → let k' = (digest k now (response status none body)).0 in
      (k'.health ≡ Health.disabled until reason)
      × (k'.disable_strikes ≡ 0)
      × (k'.disabled_since ≡ none)
unfolding digest override_cap_exhausted
late_success_stays_disabled k now status body until reason success parked uncapped struck =
    ground arith
