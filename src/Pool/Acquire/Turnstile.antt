-- ===== src/Pool/Acquire/Turnstile.antt =====
-- src/pool.rs, `acquire` with its turnstile: the callers, one after another, and when each is done.
-- tokio's mutex hands the turnstile on in the order in which it was asked for, which is here the
-- order of a list.
use brave_search_api_rotator.Base.{
  ℕ, zero, suc, ◌+◌, ◌-◌, max, List, [], ◌∷◌, Option, none, some, Result, ok, err, ltb,
  if◌then◌else◌, option_map, ◌≡◌, refl, inl, inr, Bool-cases,
}
use brave_search_api_rotator.Text.{Text}
use brave_search_api_rotator.Pool.{Pool, Lease, Next, AcquireError}
use brave_search_api_rotator.Pool.Select.{try_acquire}
use brave_search_api_rotator.Pool.Acquire.{World, acquire_loop}

-- One call of `acquire`: when it asks for the turnstile, when it reads the clock once it has it,
-- and what the tasks outside the turnstile have made of the pool by then.
pub record Caller : Type 0 where
  pub arrives : ℕ
  pub deadline : ℕ
  pub exclude : List ℕ
  pub begins : ℕ → ℕ
  pub before : Pool → Pool
  pub world : World

abbrev pub Answer : Type 0
Answer = Result Lease AcquireError

-- Enough fuel: the loop goes on only while the time has not passed the deadline.
abbrev pub fuel_for : Caller → ℕ → ℕ
fuel_for c now = suc (c.deadline + 1 - now)

abbrev pub untimed : Pool × Answer × ℕ → Pool × Answer
untimed (p, r, done) = (p, r)

module _ (fmt_instant : ℕ → Text) where
  -- `acquire_loop` with the time of its last round.
  unfoldable pub acquire_timed : World → ℕ → ℕ → ℕ → Pool → ℕ → List ℕ → Option (Pool × Answer × ℕ)
  acquire_timed world zero round now p deadline exclude = none
  acquire_timed world (suc fuel) round now p deadline exclude =
      let tried = try_acquire fmt_instant p now exclude in
      elim tried.1 [
        | ok lease ↦ some (tried.0, ok lease, now)
        | err (Next.at at) ↦
            let again =
              acquire_timed world fuel (suc round) (world.wake round at)
                (world.others round tried.0) deadline exclude in
            if ltb deadline at
            then some (tried.0, err (AcquireError.saturated (at - now)), now)
            else again
        | err (Next.unavailable earliest summary) ↦ some (
          tried.0,
          err (AcquireError.unavailable (option_map earliest (λ e. e - now)) summary),
          now,
        )
      ]

  -- The callers in turn, from when the turnstile is free: the answers with the times at which the
  -- turnstile is given up.
  unfoldable pub take_turns : ℕ → Pool → List Caller → Option (List (Answer × ℕ))
  unfolding acquire_timed
  take_turns free p [] = some []
  take_turns free p (c ∷ cs) =
      let now = c.begins (max c.arrives free) in
      elim (acquire_timed c.world (fuel_for c now) 0 now (c.before p) c.deadline c.exclude) [
        | none ↦ none
        | some (q, answer, done) ↦ option_map (take_turns done q cs) (λ rest. (answer, done) ∷ rest)
      ]

  -- It is `acquire_loop`.
  pub acquire_timed-acquire_loop :
      (world : World) (deadline : ℕ) (exclude : List ℕ) (fuel round now : ℕ) (p : Pool)
      → option_map (acquire_timed world fuel round now p deadline exclude) untimed
        ≡ acquire_loop fmt_instant world fuel round now p deadline exclude
  unfolding acquire_timed acquire_loop
  acquire_timed-acquire_loop world deadline exclude zero round now p = refl
  acquire_timed-acquire_loop world deadline exclude (suc fuel) round now p =
      by_result (try_acquire fmt_instant p now exclude).1 refl (λ at.
        acquire_timed-acquire_loop world deadline exclude fuel (suc round) (world.wake round at)
          (world.others round (try_acquire fmt_instant p now exclude).0))
    where
      by_result :
          (t : Result Lease Next)
          → (try_acquire fmt_instant p now exclude).1 ≡ t
          → ((at : ℕ)
              → option_map
                  (acquire_timed world fuel
                    (suc round)
                    (world.wake round at)
                    (world.others round (try_acquire fmt_instant p now exclude).0)
                    deadline
                    exclude)
                  untimed
                ≡ acquire_loop fmt_instant world fuel
                    (suc round)
                    (world.wake round at)
                    (world.others round (try_acquire fmt_instant p now exclude).0)
                    deadline
                    exclude)
          → option_map (acquire_timed world (suc fuel) round now p deadline exclude) untimed
            ≡ acquire_loop fmt_instant world (suc fuel) round now p deadline exclude
      by_result (ok lease) e again = rw (e, acquire_timed, acquire_loop) refl
      by_result (err (Next.unavailable earliest summary)) e again =
          rw (e, acquire_timed, acquire_loop) refl
      by_result (err (Next.at at)) e again = elim (Bool-cases (ltb deadline at)) [
        | inl late ↦ rw (e, acquire_timed, acquire_loop) (rw late refl)
        | inr in_time ↦ rw (e, acquire_timed, acquire_loop) (rw in_time (again at))
      ]

  pub take_turns-cons :
      (free : ℕ) (p q : Pool) (c : Caller) (cs : List Caller) (answer : Answer) (done : ℕ)
      (rest : List (Answer × ℕ))
      → (let now = c.begins (max c.arrives free) in
          acquire_timed c.world (fuel_for c now) 0 now (c.before p) c.deadline c.exclude)
        ≡ some (q, answer, done)
      → take_turns done q cs ≡ some rest
      → take_turns free p (c ∷ cs) ≡ some ((answer, done) ∷ rest)
  unfolding take_turns
  take_turns-cons free p q c cs answer done rest e turns = rw (e, take_turns) (rw turns refl)
