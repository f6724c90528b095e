-- ===== src/Examples/PoolTests.antt =====
-- The unit tests of src/pool.rs, run on the model. What the source reads from the clock is `t0`.
use brave_search_api_rotator.Base.{
  ℕ, zero, suc, ◌+◌, ◌-◌, ◌*◌, Bool, true, false, ◌&&◌, List, [], ◌∷◌, ◌++◌, Option, none, some,
  Result, ok, err, ◌≡◌, refl, leb, ◌==◌, get_elem?, length, is_none, is_some_eq, from_secs,
}
use brave_search_api_rotator.Text.{Text, codes, equal, starts_with}
use brave_search_api_rotator.Text.Numbers.{to_string}
use brave_search_api_rotator.RateLimit.{month_exhausted, second_wait}
use brave_search_api_rotator.Key.{auth_backoff_base}
use brave_search_api_rotator.Key.Quota.{learn_limits, override_cap_exhausted}
use brave_search_api_rotator.Key.Backoff.{disable, exhaust, fail, backoff}
use brave_search_api_rotator.Pool.{Pool, Lease, Next, Verdict, Outcome, response, transport, new}
use brave_search_api_rotator.Pool.Select.{try_acquire, summary}
use brave_search_api_rotator.Pool.Record.{record_outcome, http_reason}
use brave_search_api_rotator.Pool.Snapshot.{PoolSnapshot, KeySnapshot, snapshot}
use brave_search_api_rotator.Examples.Runs.{running, no_clock, millis, config, rl}

-- What the tests compute with, besides the choice of a key.
recording : Unit {0}
unfolding running month_exhausted override_cap_exhausted learn_limits second_wait exhaust fail
    disable backoff summary http_reason snapshot equal starts_with
recording = tt

abbrev t0 : ℕ
t0 = 1000

-- `{i:04}`.
abbrev padded : ℕ → Text
padded i = zeros (4 - length (to_string i)) ++ to_string i
  where
    zeros : ℕ → Text
    zeros zero = []
    zeros (suc n) = b'0' ∷ zeros n

abbrev test_keys : ℕ → ℕ → List Text
test_keys i zero = []
test_keys i (suc n) = (codes "BSA" ++ (padded i ++ codes "key")) ∷ test_keys (suc i) n

abbrev test_pool : ℕ → Pool
test_pool n = new (test_keys 0 n) config

-- `try_acquire(…).unwrap()` in front of the rest of a test, which gets the pool and the lease.
abbrev leases : Pool → ℕ → List ℕ → (Pool → Lease → Bool) → Bool
leases p now exclude rest = unwrapped (try_acquire no_clock p now exclude)
  where
    unwrapped : Pool × Result Lease Next → Bool
    unwrapped (q, ok lease) = rest q lease
    unwrapped (q, err n) = false

-- A `try_acquire` that gives `Err(Next::At(at))`.
abbrev must_wait : Pool → ℕ → List ℕ → (Pool → ℕ → Bool) → Bool
must_wait p now exclude rest = unwrapped (try_acquire no_clock p now exclude)
  where
    unwrapped : Pool × Result Lease Next → Bool
    unwrapped (q, ok lease) = false
    unwrapped (q, err (Next.at at)) = rest q at
    unwrapped (q, err (Next.unavailable earliest summary)) = false

-- A `try_acquire` that gives `Err(Next::Unavailable { earliest: Some(at), summary })`.
abbrev must_refuse : Pool → ℕ → List ℕ → (Pool → ℕ → Text → Bool) → Bool
must_refuse p now exclude rest = unwrapped (try_acquire no_clock p now exclude)
  where
    unwrapped : Pool × Result Lease Next → Bool
    unwrapped (q, err (Next.unavailable (some at) summary)) = rest q at summary
    unwrapped (q, err (Next.unavailable none summary)) = false
    unwrapped (q, err (Next.at at)) = false
    unwrapped (q, ok lease) = false

abbrev records : Pool → ℕ → Outcome → (Pool → Verdict → Bool) → Bool
records p idx outcome rest = let done = record_outcome p t0 idx outcome in rest done.0 done.1

abbrev shows : Pool → (Pool → PoolSnapshot → Bool) → Bool
shows p rest = let done = snapshot no_clock no_clock p t0 in rest done.0 done.1

-- An assertion on `snap.keys[i]`.
abbrev row : PoolSnapshot → ℕ → (KeySnapshot → Bool) → Bool
row s i test = tested (get_elem? s.keys i)
  where
    tested : Option KeySnapshot → Bool
    tested none = false
    tested (some k) = test k

abbrev is_retry : Verdict → Bool
is_retry Verdict.ok = false
is_retry Verdict.retry_other_key = true
is_retry Verdict.return_to_client = false

-- `str::contains`.
abbrev has : Text → Text → Bool
has [] part = starts_with [] part
has (c ∷ s) part = if_found (starts_with (c ∷ s) part) (has s part)
  where
    if_found : Bool → Bool → Bool
    if_found true rest = true
    if_found false rest = rest

abbrev rotates_round_robin_and_respects_per_second_window : Bool
rotates_round_robin_and_respects_per_second_window = leases (test_pool 3) t0 [] λ p a.
    leases p t0 [] λ p b. leases p t0 [] λ p c.
      a.idx == 0
      && (b.idx == 1 && c.idx == 2)
      && must_wait p (t0 + millis 500) []
          λ p at. at == (t0 + millis 1100) && leases p (t0 + millis 1100) [] λ p d. d.idx == 0

rotates_round_robin_and_respects_per_second_window_lem :
    rotates_round_robin_and_respects_per_second_window ≡ true
unfolding recording
rotates_round_robin_and_respects_per_second_window_lem = refl

-- `for _ in 0..n` around a lease at one time.
abbrev leases_times : ℕ → Pool → ℕ → (Pool → Bool) → Bool
leases_times zero p now rest = rest p
leases_times (suc n) p now rest = leases p now [] λ p l. leases_times n p now rest

abbrev learns_higher_rps_from_headers : Bool
learns_higher_rps_from_headers = leases (test_pool 1) t0 [] λ p l.
    records p l.idx (response 200 (some (rl (20, 0) (19, 0) (1, 100))) none)
      λ p v. leases_times 19 p (t0 + millis 10) λ p. must_wait p (t0 + millis 20) [] λ p at. true

learns_higher_rps_from_headers_lem : learns_higher_rps_from_headers ≡ true
unfolding recording
learns_higher_rps_from_headers_lem = refl

abbrev monthly_exhaustion_parks_key_until_reset : Bool
monthly_exhaustion_parks_key_until_reset = leases (test_pool 2) t0 [] λ p l.
    records p l.idx (response 429 (some (rl (1, 2000) (1, 0) (1, 3600))) (some (codes "quota")))
      λ p v. shows p λ p snap. leases p (t0 + millis 10) (0 ∷ []) λ p l2.
        leases p (t0 + from_secs 5) [] λ p l3. leases p (t0 + from_secs 3601) [] λ p l4.
          l.idx == 0
          && is_retry v
          && row snap 0 (λ k. equal k.state (codes "exhausted"))
          && row snap 0 (λ k. is_some_eq k.monthly.remaining 0)
          && l2.idx == 1
          && l3.idx == 1
          && l4.idx == 0

monthly_exhaustion_parks_key_until_reset_lem : monthly_exhaustion_parks_key_until_reset ≡ true
unfolding recording
monthly_exhaustion_parks_key_until_reset_lem = refl

abbrev auth_failure_disables_with_backoff_and_reports_unavailable : Bool
auth_failure_disables_with_backoff_and_reports_unavailable = leases (test_pool 1) t0 [] λ p l.
    records p l.idx (response 401 none (some (codes "bad key"))) λ p v.
      must_refuse p (t0 + from_secs 2) [] λ p at summary.
        leases p (t0 + auth_backoff_base + from_secs 1) [] λ p l2.
          records p l2.idx (response 401 none none) λ p w. shows p λ p snap.
            is_retry v
            && leb (t0 + auth_backoff_base - from_secs 1) at
            && has summary (codes "HTTP 401")
            && row snap 0 (λ k. equal k.state (codes "disabled"))
            && snap.keys_healthy == 0

auth_failure_disables_with_backoff_and_reports_unavailable_lem :
    auth_failure_disables_with_backoff_and_reports_unavailable ≡ true
unfolding recording
auth_failure_disables_with_backoff_and_reports_unavailable_lem = refl

-- `for i in …` around a lease at `2 * i` seconds and a failed connection.
abbrev fails_at : List ℕ → Pool → (Pool → Bool) → Bool
fails_at [] p rest = rest p
fails_at (i ∷ is) p rest =
    leases p (t0 + from_secs (2 * i)) []
      λ p l. records p l.idx (transport (codes "connection reset")) λ p v. fails_at is p rest

abbrev server_errors_need_three_strikes : Bool
server_errors_need_three_strikes =
    fails_at (0 ∷ 1 ∷ 2 ∷ []) (test_pool 1)
      λ p. shows p λ p snap. row snap 0 λ k. equal k.state (codes "disabled")

server_errors_need_three_strikes_lem : server_errors_need_three_strikes ≡ true
unfolding recording
server_errors_need_three_strikes_lem = refl

abbrev single_key_pool_may_reuse_excluded_key : Bool
single_key_pool_may_reuse_excluded_key = leases (test_pool 1) t0 [] λ p l.
    records p l.idx (response 429 (some (rl (1, 100) (0, 50) (1, 10))) none)
      λ p v. must_wait p (t0 + millis 10) (0 ∷ []) λ p at. leb (t0 + from_secs 1) at

single_key_pool_may_reuse_excluded_key_lem : single_key_pool_may_reuse_excluded_key ≡ true
unfolding recording
single_key_pool_may_reuse_excluded_key_lem = refl

-- `for i in …` around a lease after `i` milliseconds and a success without a monthly cap.
abbrev succeeds_at : List ℕ → Pool → (Pool → Bool) → Bool
succeeds_at [] p rest = rest p
succeeds_at (i ∷ is) p rest = leases p (t0 + millis i) (1 ∷ []) λ p l.
    records p l.idx (response 200 (some (rl (50, 0) (40, 0) (1, 100))) none)
      λ p v. l.idx == 0 && succeeds_at is p rest

abbrev plan_without_monthly_cap_is_never_exhausted_and_excluded_from_totals : Bool
plan_without_monthly_cap_is_never_exhausted_and_excluded_from_totals =
    leases (test_pool 2) t0 [] λ p a.
      records p a.idx (response 200 (some (rl (50, 0) (49, 0) (1, 100))) none) λ p v.
        leases p t0 [] λ p b.
          records p b.idx (response 200 (some (rl (1, 2000) (0, 1500) (1, 100))) none) λ p w.
            shows p λ p s.
              b.idx == 1
              && row s 0 (λ k. equal k.state (codes "ok"))
              && row s 0 (λ k. k.monthly.unlimited)
              && row s 0 (λ k. is_none k.monthly.remaining)
              && s.month_unlimited_keys == 1
              && is_some_eq s.month_limit_total 2000
              && is_some_eq s.month_remaining_total 1500
              && s.rps_capacity == 51
              && succeeds_at (1 ∷ 2 ∷ 3 ∷ 4 ∷ 5 ∷ 6 ∷ 7 ∷ 8 ∷ 9 ∷ 10 ∷ []) p
                  λ p. shows p λ p s. row s 0 λ k. equal k.state (codes "ok")

plan_without_monthly_cap_is_never_exhausted_and_excluded_from_totals_lem :
    plan_without_monthly_cap_is_never_exhausted_and_excluded_from_totals ≡ true
unfolding recording
plan_without_monthly_cap_is_never_exhausted_and_excluded_from_totals_lem = refl
