-- ===== src/Examples/Recording.antt =====
-- The theorems on `record` and on rate-limit headers, at concrete inputs.
use brave_search_api_rotator.Base.{
  ℕ, ◌+◌, ◌*◌, ◌≤◌, ◌^◌, min, none, some, from_secs, ◌≡◌, refl, ◌↔◌, arith, add_u64, inr,
}
use brave_search_api_rotator.Text.{codes}
use brave_search_api_rotator.Key.{KeyState, Health, no_stats, new_key}
use brave_search_api_rotator.Key.Window.{refresh}
use brave_search_api_rotator.Pool.{Verdict, response, transport}
use brave_search_api_rotator.Pool.Record.{digest, http_reason, unexplained_reason, detail_of}
use brave_search_api_rotator.Pool.Record.Effects.{IsRetried, FailsOnce, digest_verdict}
use brave_search_api_rotator.Pool.Record.Statuses.{digest-FailsOnce, digest_auth}
use brave_search_api_rotator.Pool.Record.Late.{late_success_stays_disabled}
use brave_search_api_rotator.Pool.Record.Parking.{
  ParksIfSpent, digest-ParksIfSpent, capped_key_parks_again,
}
use brave_search_api_rotator.Pool.Record.TooMany.{
  digest_429_unexplained, unexplained_counts_explained,
}
use brave_search_api_rotator.Examples.Runs.{key_0, rl}

-- A key that failed twice and was disabled once before, and one with a cap of five that it has used up.
abbrev failing : KeyState
failing = record key_0 { consecutive_failures = 2; consecutive_429 = 3; disable_strikes = 1 }

abbrev capped : KeyState
capped = record key_0 { monthly_cap_override = some 5; stats = record no_stats { ok = 5 } }

digest_verdict_example :
    (((digest failing 7 (response 503 none none)).1 ≡ Verdict.ok) ↔ ((200 ≤ 503) × (503 ≤ 299)))
    × (((digest failing 7 (response 503 none none)).1 ≡ Verdict.retry_other_key) ↔ IsRetried 503)
    × ((digest failing 7 (transport (codes "reset"))).1 ≡ Verdict.retry_other_key)
digest_verdict_example = digest_verdict failing 7 503 none none (codes "reset")

digest-FailsOnce_example : FailsOnce failing 7 (digest failing 7 (response 503 none none)).0
digest-FailsOnce_example =
    digest-FailsOnce failing 7 (response 503 none none) (omega arith) (omega arith)

digest_auth_example :
    let k' = (digest failing 7 (response 403 none none)).0 in
    (k'.health
      ≡ Health.disabled
          (7 + min (from_secs 300 * 2 ^ 1) (from_secs 3600))
          (http_reason 403 (detail_of none)))
    × (k'.disable_strikes ≡ min (1 + 1) 4_294_967_295)
    × (k'.consecutive_failures ≡ 0)
digest_auth_example = digest_auth failing 7 403 none none (inr refl)

digest-ParksIfSpent_example :
    ParksIfSpent capped 7 none (add_u64 5 1) (digest capped 7 (response 200 none none)).0.health
digest-ParksIfSpent_example = digest-ParksIfSpent capped 7 200 none none (omega arith) (omega arith)

capped_key_parks_again_example :
    (until : ℕ) × ((digest (refresh capped 9) 10 (response 200 none none)).0.health
      ≡ Health.exhausted until)
capped_key_parks_again_example =
    capped_key_parks_again capped 5 9 10 200 none none refl (omega arith) (omega arith)
      (omega arith) (omega arith)

digest_429_unexplained_example :
    (digest failing 7 (response 429 none none)).0.hold_until ≡ some (7 + from_secs 2)
digest_429_unexplained_example = (digest_429_unexplained failing 7 none).2

unexplained_counts_explained_example :
    (digest
      (digest failing 7 (response 429 (some (rl (1, 0) (0, 0) (90, 9))) none)).0
      8
      (response 429 none none)).0.health
    ≡ Health.disabled (8 + from_secs 300) (unexplained_reason 5 (detail_of none))
unexplained_counts_explained_example =
    unexplained_counts_explained failing 7 8 (rl (1, 0) (0, 0) (90, 9)) none refl

-- A key that a 401 disabled, and a success that was under way then.
abbrev refused : KeyState
refused = record key_0 {
  health = Health.disabled (from_secs 300) (codes "HTTP 401");
  disable_strikes = 1;
  disabled_since = some 0;
}

late_success_stays_disabled_example :
    ((digest refused 7 (response 200 none none)).0.health
      ≡ Health.disabled (from_secs 300) (codes "HTTP 401"))
    × ((digest refused 7 (response 200 none none)).0.disable_strikes ≡ 0)
    × ((digest refused 7 (response 200 none none)).0.disabled_since ≡ none)
unfolding new_key
late_success_stays_disabled_example =
    late_success_stays_disabled refused 7 200 none (from_secs 300) (codes "HTTP 401")
      (omega arith, omega arith) refl refl (omega arith)
