-- ===== src/Pool/Acquire/Waiting.antt =====
-- src/pool.rs, `acquire`: the loop ends, and what each way of ending means.
use brave_search_api_rotator.Base.{
  ℕ, zero, suc, ◌+◌, ◌-◌, ◌<◌, ◌≤◌, List, Option, some, Result, ok, err, ltb, option_map, ◌≡◌, refl,
  arith, Bool-cases, inl, inr, ltb→lt, not-ltb→le,
}
use brave_search_api_rotator.Text.{Text}
use brave_search_api_rotator.Pool.{Pool, Lease, Next, AcquireError}
use brave_search_api_rotator.Pool.Select.{try_acquire}
use brave_search_api_rotator.Pool.Select.Outcomes.{Leased}
use brave_search_api_rotator.Pool.Select.Promises.{try_acquire-Leased, try_acquire-at_later}
use brave_search_api_rotator.Pool.Contract.{Serves, Waits, Refuses}
use brave_search_api_rotator.Pool.Contract.Refines.{try_acquire-Contract}
use brave_search_api_rotator.Pool.Acquire.{World, acquire_loop}

-- `sleep_until(at)` does not return before `at`.
abbrev pub SleepsLongEnough : World → Type 0
SleepsLongEnough world = (round at : ℕ) → at ≤ world.wake round at

module _ (fmt_instant : ℕ → Text) (world : World) (exclude : List ℕ) (deadline : ℕ) where
  -- Round `round` at the time `now` on the pool `p` leads to the one at the time `m` on the pool
  -- `q`: at once, or through a wait that ends by the deadline, a sleep and what the others do.
  pub data Waited (q : Pool) (m : ℕ) : ℕ → ℕ → Pool → Type 0 where
    here : (round now : ℕ) (p : Pool) → q ≡ p → m ≡ now → Waited q m round now p
    later :
        (round now : ℕ) (p : Pool) (at : ℕ)
        → Waits p now exclude at
        → at ≤ deadline
        → Waited q m
            (suc round)
            (world.wake round at)
            (world.others round (try_acquire fmt_instant p now exclude).0)
        → Waited q m round now p

  -- Why the loop ends with the round at the time `m` on the pool `q`: the key that comes first, a
  -- wait that ends behind the deadline, or no healthy key.
  pub data Ended (q : Pool) (m : ℕ) (p' : Pool) (r : Result Lease AcquireError) : Type 0 where
    leased :
        (lease : Lease)
        → r ≡ ok lease
        → Leased q m lease p'
        → Serves q m exclude lease
        → Ended q m p' r
    too_late :
        (at : ℕ)
        → r ≡ err (AcquireError.saturated (at - m))
        → Waits q m exclude at
        → m < at
        → deadline < at
        → Ended q m p' r
    no_usable_key :
        (earliest : Option ℕ) (summary : Text)
        → r ≡ err (AcquireError.unavailable (option_map earliest (λ e. e - m)) summary)
        → Refuses q m exclude fmt_instant earliest summary
        → Ended q m p' r

  -- The loop's last round is reached by its waits, and decides the result.
  abbrev pub Ends : ℕ → ℕ → Pool → Pool → Result Lease AcquireError → Type 0
  Ends round now p p' r =
      (q : Pool) × (m : ℕ) × Waited q m round now p
      × (p' ≡ (try_acquire fmt_instant q m exclude).0)
      × Ended q m p' r

  -- The loop gives a result, and it ended for one of the three reasons.
  abbrev pub Done : ℕ → ℕ → ℕ → Pool → Type 0
  Done fuel round now p =
      (p' : Pool) × (r : Result Lease AcquireError) × (acquire_loop fmt_instant world fuel round now
          p deadline exclude
        ≡ some (p', r))
      × Ends round now p p' r

  -- One round, given that the rounds after a wait are done.
  acquire_loop-round :
      (fuel round now : ℕ) (p : Pool) (t : Result Lease Next)
      → (try_acquire fmt_instant p now exclude).1 ≡ t
      → ((at : ℕ)
          → now < at
          → at ≤ deadline
          → Done fuel
              (suc round)
              (world.wake round at)
              (world.others round (try_acquire fmt_instant p now exclude).0))
      → Done (suc fuel) round now p
  unfolding acquire_loop
  acquire_loop-round fuel round now p (ok lease) e again = (
    (try_acquire fmt_instant p now exclude).0,
    ok lease,
    rw (e, acquire_loop),
    (
      p,
      now,
      here round now p refl refl,
      refl,
      leased lease refl (try_acquire-Leased fmt_instant p now exclude lease e)
          ((try_acquire-Contract fmt_instant p now exclude _).0 e),
    ),
  )
  acquire_loop-round fuel round now p (err (Next.unavailable earliest summary)) e again = (
    (try_acquire fmt_instant p now exclude).0,
    err (AcquireError.unavailable (option_map earliest (λ e. e - now)) summary),
    rw (e, acquire_loop),
    (
      p,
      now,
      here round now p refl refl,
      refl,
      no_usable_key earliest summary refl ((try_acquire-Contract fmt_instant p now exclude _).0 e),
    ),
  )
  acquire_loop-round fuel round now p (err (Next.at at)) e again =
      let ahead = try_acquire-at_later fmt_instant p now exclude at e in
      let waits = (try_acquire-Contract fmt_instant p now exclude _).0 e in
      elim (Bool-cases (ltb deadline at)) [
        | inl late ↦ (
          (try_acquire fmt_instant p now exclude).0,
          err (AcquireError.saturated (at - now)),
          rw (e, acquire_loop) (rw late),
          (
            p,
            now,
            here round now p refl refl,
            refl,
            too_late at refl waits ahead (ltb→lt _ _ late),
          ),
        )
        | inr in_time ↦
            let (p', r, result, (q, m, waited, last, ended)) =
              again at ahead (not-ltb→le _ _ in_time) in
            (
              p',
              r,
              rw (e, acquire_loop) (rw in_time result),
              (q, m, later round now p at waits (not-ltb→le _ _ in_time) waited, last, ended),
            )
      ]

  -- If no sleep ends too early, fuel above `deadline + 1 - now` gives a result, whatever other tasks
  -- do to the pool meanwhile. Each round but the last found a healthy candidate and none usable, and
  -- waited for the first instant at which one may be, which is not behind the deadline; the next
  -- round is at the time the sleep ended, on the pool as the other tasks left it. The result is what
  -- the description of `try_acquire` asks for at the pool and the time of the last round, and the
  -- pool is what `try_acquire` makes of it: the lease of the candidate that comes first, noted as
  -- sent; a refusal with the time left to the first instant at which a candidate may be usable, which
  -- lies behind the deadline; or, when every key is disabled or exhausted, a refusal with the time
  -- left to the first instant at which one may be usable, if there are keys, and their summary.
  pub acquire_loop_total :
      (fuel round now : ℕ) (p : Pool)
      → SleepsLongEnough world
      → deadline + 1 - now < fuel
      → Done fuel round now p
  acquire_loop_total zero round now p sleeps enough = absurd (omega arith)
  acquire_loop_total (suc fuel) round now p sleeps enough =
      acquire_loop-round fuel round now p _ refl λ at ahead in_time.
        acquire_loop_total fuel (suc round) (world.wake round at) _ sleeps
          (omega (arith, sleeps round at))
