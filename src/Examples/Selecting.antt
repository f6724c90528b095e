-- ===== src/Examples/Selecting.antt =====
-- The theorems on the choice of a key, on waiting and on histories, at concrete inputs.
use brave_search_api_rotator.Base.{
  ◌≡◌, ◌+◌, ◌*◌, ◌<◌, max, true, List, [], ◌∷◌, none, some, ok, err, from_secs, ◌≡◌, refl, ◌↔◌,
  arith, ◌^◌, min, length,
}
use brave_search_api_rotator.Key.{KeyState, Health, is_ok}
use brave_search_api_rotator.Key.Backoff.{backoff}
use brave_search_api_rotator.Key.Backoff.Durations.{backoff_strike}
use brave_search_api_rotator.RateLimit.{month_exhausted}
use brave_search_api_rotator.Key.Quota.{override_cap_exhausted, learn_limits}
use brave_search_api_rotator.Key.Window.{availability}
use brave_search_api_rotator.Key.Window.Sliding.{availability_iff, count_recent, HoldOver}
use brave_search_api_rotator.Pool.Snapshot.Slots.{slots-try_acquire}
use brave_search_api_rotator.Pool.{Lease, Next, response, new}
use brave_search_api_rotator.Pool.Select.{try_acquire}
use brave_search_api_rotator.Pool.Contract.{Contract}
use brave_search_api_rotator.Pool.Contract.Refines.{try_acquire-Contract}
use brave_search_api_rotator.Pool.Acquire.{World}
use brave_search_api_rotator.Pool.Acquire.Waiting.{Done, acquire_loop_total}
use brave_search_api_rotator.Pool.Snapshot.{snapshot}
use brave_search_api_rotator.Pool.History.{acquires, records, snapshots, sends_of, Event, run}
use brave_search_api_rotator.Pool.Select.Keys.{AllAt}
use brave_search_api_rotator.Pool.History.Valid.{IsValid, run-IsValid}
use brave_search_api_rotator.Pool.History.Limit.{after, sliding_window_respected}
use brave_search_api_rotator.Examples.Runs.{
  running, no_clock, millis, config, tokens, key_0, lease_0, second_lease, rl,
}

abbrev used_0 : KeyState
used_0 = record key_0 {
  sends = 1000 ∷ [];
  last_used = some 1000;
  stats = record key_0.stats { requests = 1 };
}

-- The wait of the second pool, whose keys are both in use.
try_acquire-Contract_example :
    ((try_acquire no_clock second_lease.0 (millis 500) []).1 ≡ err (Next.at (1000 + millis 1100)))
    ↔ Contract second_lease.0 (millis 500) [] no_clock (err (Next.at (1000 + millis 1100)))
try_acquire-Contract_example =
    try_acquire-Contract no_clock second_lease.0 (millis 500) []
      (err (Next.at (1000 + millis 1100)))

-- A task that wakes up one nanosecond late, among tasks that leave the pool alone.
abbrev world : World
world = record { wake = λ round at. at + 1; others = λ round p. p }

acquire_loop_total_example : Done no_clock world [] 20 12 0 10 second_lease.0
acquire_loop_total_example =
    acquire_loop_total no_clock world [] 20 12 0 10 second_lease.0 (λ round at. omega arith)
      (omega arith)

abbrev busy_day : List Event
busy_day =
    acquires 1000 []
    ∷ snapshots 1500
    ∷ records 2000 0 (response 200 (some (rl (20, 0) (19, 0) (1, 100))) none)
    ∷ []

run-IsValid_example :
    let p = (run no_clock no_clock (new tokens config, []) busy_day).0 in
    (length p.keys ≡ length tokens) × AllAt (IsValid tokens config) 0 p.keys
run-IsValid_example = run-IsValid no_clock no_clock tokens config busy_day

sliding_window_respected_example :
    count_recent 3000
      (from_secs 1 + config.window_margin)
      (sends_of 0 (after no_clock no_clock tokens config busy_day).1)
    < max 20 1
unfolding running run snapshot month_exhausted override_cap_exhausted learn_limits
sliding_window_respected_example =
    sliding_window_respected no_clock no_clock tokens config busy_day 3000 (1 ∷ []) lease_0 _
      (omega arith) (omega arith) refl refl

availability_iff_example :
    ((availability (record key_0 { sends = 5 ∷ 9 ∷ []; sec_limit = 2 }) 12 4).1 ≡ ok tt)
    ↔ ((is_ok Health.ok ≡ true) × HoldOver 12 none × (count_recent 12 4 (5 ∷ 9 ∷ []) < max 2 1))
unfolding running
availability_iff_example =
    availability_iff (record key_0 { sends = 5 ∷ 9 ∷ []; sec_limit = 2 }) 12 4 (omega arith)
      (omega arith) (omega arith)

backoff_strike_example :
    backoff (from_secs 300) (from_secs 3600) (min (2 + 1) 4_294_967_295)
    ≡ min (from_secs 300 * 2 ^ 2) (from_secs 3600)
backoff_strike_example =
    backoff_strike (from_secs 300) (from_secs 3600) 2 (omega arith) (omega arith)

-- Both keys are in use, so there is no slot and no lease.
slots-try_acquire_example :
    (0 < (snapshot no_clock no_clock second_lease.0 (millis 500)).1.slots_available_now)
    ↔ ((lease : Lease) × ((try_acquire no_clock second_lease.0 (millis 500) []).1 ≡ ok lease))
unfolding running
slots-try_acquire_example =
    slots-try_acquire no_clock no_clock second_lease.0 (millis 500) (omega arith) (omega arith)
