-- ===== src/Examples/Histories.antt =====
-- The theorems on what many tasks do to one pool, at concrete inputs.
use mathlib.Core.List.Perm
use brave_search_api_rotator.Base.{
  ok, sym, ◌≡◌, refl, All, ℕ, ◌+◌, ◌≤◌, List, [], ◌∷◌, none, some, arith, from_secs,
}
use brave_search_api_rotator.Text.{Text, codes, equal, starts_with}
use brave_search_api_rotator.Mock.{Settings, Reply, no_logs, handle_all}
use brave_search_api_rotator.Mock.Pacing.{Paced}
use brave_search_api_rotator.Mock.Refusals.{mock_never_refuses}
use brave_search_api_rotator.Proxy.Limits.{parse_windows-printed}
use brave_search_api_rotator.Key.{KeyState, Health, window_base}
use brave_search_api_rotator.Key.Backoff.{backoff, disable}
use brave_search_api_rotator.Pool.Record.{record_outcome, http_reason}
use brave_search_api_rotator.Pool.History.Cooling.{parked_not_used}
use brave_search_api_rotator.Key.Quota.{learn_limits, override_cap_exhausted}
use brave_search_api_rotator.RateLimit.{month_exhausted}
use brave_search_api_rotator.Pool.Acquire.{acquire_loop}
use brave_search_api_rotator.Pool.Acquire.Served.{HasWorking, acquire_leases}
use brave_search_api_rotator.Pool.{Pool, Lease, response}
use brave_search_api_rotator.Pool.Select.{try_acquire}
use brave_search_api_rotator.Pool.History.Unseen.{without_snapshots, snapshots_unseen}
use brave_search_api_rotator.Pool.Acquire.Turnstile.{Caller, Answer, take_turns}
use brave_search_api_rotator.Pool.Acquire.Turns.{IsPrompt, Answered, take_turns-Answered}
use brave_search_api_rotator.Pool.Snapshot.{snapshot}
use brave_search_api_rotator.Pool.History.{acquires, records, snapshots, Event, run, sends_of}
use brave_search_api_rotator.Pool.History.Arrivals.{count_within, upstream_never_overrun}
use brave_search_api_rotator.Examples.Runs.{
  running, no_clock, millis, config, tokens, rl, second_lease, pool, key_1,
}

-- Three leases; the first key is used a second time as soon as its window lets it.
abbrev three_leases : List Event
three_leases =
    acquires 1000 []
    ∷ acquires 1500 []
    ∷ records 2000 0 (response 200 (some (rl (1, 0) (0, 0) (1, 100))) none)
    ∷ acquires 3000 []
    ∷ snapshots 4000
    ∷ acquires (1000 + millis 1100) []
    ∷ []

-- The first request takes a tenth of a second longer than the second.
abbrev two_arrivals : List ℕ
two_arrivals = (1000 + millis 150) ∷ (1000 + millis 1150) ∷ []

upstream_never_overrun_example : count_within (1000 + millis 150) window_base two_arrivals ≤ 1
unfolding running run snapshot month_exhausted override_cap_exhausted learn_limits sends_of
upstream_never_overrun_example =
    upstream_never_overrun no_clock no_clock tokens config three_leases (from_secs 2) 0 1
      (millis 50) (1000 + millis 150) two_arrivals (omega arith) (omega arith) (omega arith)
      (omega arith) (omega arith) (omega arith)

-- A task that wakes up one nanosecond late, among tasks that leave the pool alone.
abbrev in_queue : ℕ → ℕ → List ℕ → Caller
in_queue arrives deadline exclude = record {
  arrives = arrives;
  deadline = deadline;
  exclude = exclude;
  begins = λ t. t + 1;
  before = λ p. p;
  world = record { wake = λ round at. at + 1; others = λ round p. p };
}

-- Both keys are in use. The second caller comes with a deadline before the first one's.
abbrev queue : List Caller
queue = in_queue 2000 (from_secs 2) [] ∷ in_queue 3000 (from_secs 1) (0 ∷ []) ∷ []

queue-IsPrompt : All (IsPrompt 1) queue
queue-IsPrompt = (prompt 2000 (from_secs 2) [], (prompt 3000 (from_secs 1) (0 ∷ []), tt))
  where
    prompt :
        (arrives deadline : ℕ) (exclude : List ℕ) → IsPrompt 1 (in_queue arrives deadline exclude)
    prompt arrives deadline exclude = record {
      not_before = λ t. omega arith;
      begins_soon = λ t. omega arith;
      sleeps = λ round at. omega arith;
      wakes_soon = λ round at. omega arith;
    }

take_turns-Answered_example :
    (answers : List (Answer × ℕ)) × (take_turns no_clock 1500 second_lease.0 queue ≡ some answers)
    × Answered no_clock 1 1500 1500 second_lease.0 queue answers
take_turns-Answered_example =
    take_turns-Answered no_clock 1 1500 second_lease.0 queue queue-IsPrompt

-- Two leases with a status report before and between them.
abbrev watched : List Event
watched = snapshots 900 ∷ acquires 1000 [] ∷ snapshots 1500 ∷ acquires 2000 [] ∷ snapshots 3000 ∷ []

snapshots_unseen_example :
    ((run no_clock no_clock (pool, []) watched).1
      ≡ (run no_clock no_clock (pool, []) (without_snapshots watched)).1)
    × ((try_acquire no_clock (run no_clock no_clock (pool, []) watched).0 (from_secs 2) []).1
        ≡ (try_acquire no_clock
            (run no_clock no_clock (pool, []) (without_snapshots watched)).0
            (from_secs 2)
            []).1)
snapshots_unseen_example =
    snapshots_unseen no_clock no_clock 900 (from_secs 2) pool watched [] (omega arith) tt

-- The requests of both keys, as they reach a mock with one request a second and no monthly limit.
abbrev mock : Settings
mock = record { rps = 1; month = 0 }

abbrev requests : List (Text × ℕ)
requests =
    (codes "BSA0001key", 1500 + millis 60)
    ∷ (codes "BSA0000key", 1000 + millis 150)
    ∷ (codes "BSA0000key", 1000 + millis 1150)
    ∷ []

mock_never_refuses_example : Paced mock (codes "BSA0000key") (handle_all mock no_logs requests)
unfolding running run snapshot month_exhausted override_cap_exhausted learn_limits sends_of equal
mock_never_refuses_example =
    mock_never_refuses no_clock no_clock tokens config three_leases (from_secs 2) 0 (millis 50)
      two_arrivals mock (codes "BSA0000key") requests (omega arith) (omega arith) (omega arith)
      (omega arith) (omega arith) (omega arith)
      (
        tt,
        (
          tt,
          (
            (λ _. sym (parse_windows-printed 1 0 (omega arith) (omega arith))),
            (tt, (tt, (tt, tt))),
          ),
        ),
      )
      (omega arith) (omega arith) (Perm.refl two_arrivals)

-- Two requests at once are one too many for the mock.
mock_refuses :
    handle_all mock no_logs ((codes "k", 1000) ∷ (codes "k", 2000) ∷ [])
    ≡ (codes "k", Reply.served) ∷ (codes "k", Reply.rate_limit_exceeded) ∷ []
unfolding handle_all equal starts_with
mock_refuses = refl

-- Both keys are in use, and the window of the first is empty by 1.1 seconds after its send.
second_lease-HasWorking : HasWorking (1000 + millis 1100) 0 second_lease.0
unfolding running
second_lease-HasWorking = (
  (
    (λ same. record { healthy = refl; not_held = refl; empty_by = omega arith }),
    ((λ same. absurd (omega arith)), tt),
  ),
  omega arith,
)

acquire_leases_example :
    (p' : Pool) × (lease : Lease) × (acquire_loop no_clock
        (in_queue 0 0 []).world
        (from_secs 2)
        0
        (millis 500)
        second_lease.0
        (from_secs 2)
        (1 ∷ [])
      ≡ some (p', ok lease))
acquire_leases_example =
    acquire_leases no_clock (1000 + millis 1100) 0 (1 ∷ []) refl (in_queue 0 0 []).world
      (from_secs 2) (from_secs 2) 0 (millis 500) second_lease.0 (λ round at. omega arith)
      (λ round q works. works) (omega arith) (omega arith) second_lease-HasWorking

-- The second key was refused with 401. It is not used for five minutes, though the first is busy.
abbrev refused_key : KeyState
refused_key = record key_1 {
  health = Health.disabled (500 + from_secs 300) (codes "HTTP 401");
  disable_strikes = 1;
  disabled_since = some 500;
  stats = record key_1.stats {
    client_4xx = 1;
    last_status = some 401;
    last_error = some (codes "HTTP 401");
  };
}

abbrev one_key_left : Pool
one_key_left = (record_outcome pool 500 1 (response 401 none none)).0

parked_not_used_example :
    sends_of 1
      (run no_clock no_clock
        (one_key_left, [])
        (acquires 1000 [] ∷ snapshots 2000 ∷ acquires (from_secs 200) (0 ∷ []) ∷ [])).1
    ≡ sends_of 1 []
unfolding running disable backoff http_reason
parked_not_used_example =
    parked_not_used no_clock no_clock (500 + from_secs 300) 1 one_key_left refused_key []
      (acquires 1000 [] ∷ snapshots 2000 ∷ acquires (from_secs 200) (0 ∷ []) ∷ []) refl
      (omega arith) (omega arith) (tt, (tt, (tt, tt)))
