-- ===== src/Pool/Acquire/Turns.antt =====
-- src/pool.rs, `acquire`: no caller is kept waiting long behind its deadline, however many queue.
use brave_search_api_rotator.Base.{
  ℕ, zero, suc, ◌+◌, ◌≤◌, max, List, [], ◌∷◌, Option, none, some, Result, ok, err, ltb, option_map,
  ◌≡◌, subst, refl, arith, ap, sym, ◌∙◌, inl, inr, Bool-cases, All, not-ltb→le, unwrap_or,
}
use brave_search_api_rotator.Text.{Text}
use brave_search_api_rotator.Pool.{Pool, Lease, Next}
use brave_search_api_rotator.Pool.Select.{try_acquire}
use brave_search_api_rotator.Pool.Select.Promises.{try_acquire-at_later}
use brave_search_api_rotator.Pool.Acquire.Waiting.{Ends, acquire_loop_total}
use brave_search_api_rotator.Pool.Acquire.Turnstile.{
  Caller, Answer, acquire_timed, fuel_for, take_turns, untimed, acquire_timed-acquire_loop,
  take_turns-cons,
}

-- The runtime resumes a caller no earlier than asked, and at most `lag` later.
pub record IsPrompt (lag : ℕ) (c : Caller) : Type 0 where
  pub not_before : (t : ℕ) → t ≤ c.begins t
  pub begins_soon : (t : ℕ) → c.begins t ≤ t + lag
  pub sleeps : (round at : ℕ) → at ≤ c.world.wake round at
  pub wakes_soon : (round at : ℕ) → c.world.wake round at ≤ at + lag

-- The latest of the arrivals and deadlines so far, with one lag for each turn.
abbrev pub bound : ℕ → ℕ → Caller → ℕ
bound lag latest c = max latest (max c.arrives c.deadline) + lag

-- How the waiting loop of a caller ends that starts at the time `now` on the pool `p`.
abbrev pub LoopEnds : (ℕ → Text) → Caller → ℕ → Pool → Pool → Answer → Type 0
LoopEnds fmt_instant c now p q answer =
    Ends fmt_instant c.world c.exclude c.deadline 0 now p q answer

-- Each caller is answered in turn, no earlier than the one before it and no later than its bound,
-- with what ends its waiting loop on the pool that the one before it left.
abbrev pub Answered : (ℕ → Text) → ℕ → ℕ → ℕ → Pool → List Caller → List (Answer × ℕ) → Type 0
Answered fmt_instant lag latest free p [] [] = Unit
Answered fmt_instant lag latest free p (c ∷ cs) ((answer, done) ∷ rest) =
    (max c.arrives free ≤ done)
    × (done ≤ bound lag latest c)
    × ((q : Pool) × LoopEnds fmt_instant c (c.begins (max c.arrives free)) (c.before p) q answer
        × Answered fmt_instant lag (bound lag latest c) done q cs rest)
Answered fmt_instant lag latest free p [] (a ∷ rest) = ⊥
Answered fmt_instant lag latest free p (c ∷ cs) [] = ⊥

module _ (fmt_instant : ℕ → Text) (lag : ℕ) (c : Caller) (prompt : IsPrompt lag c) where
  abbrev timed : ℕ → ℕ → ℕ → Pool → Option (Pool × Answer × ℕ)
  timed fuel round now p = acquire_timed fmt_instant c.world fuel round now p c.deadline c.exclude

  -- The loop is done no earlier than it began, and soon after the deadline if it waited.
  acquire_timed_bounds :
      (fuel round now : ℕ) (p : Pool) (x : Pool × Answer × ℕ)
      → timed fuel round now p ≡ some x
      → (now ≤ x.2) × (x.2 ≤ max now (c.deadline + lag))
  unfolding acquire_timed
  acquire_timed_bounds zero round now p x e = absurd cc
  acquire_timed_bounds (suc fuel) round now p x e =
      by_result (try_acquire fmt_instant p now c.exclude).1 refl (λ at.
        acquire_timed_bounds fuel (suc round) (c.world.wake round at)
          (c.world.others round (try_acquire fmt_instant p now c.exclude).0) x)
    where
      at_once :
          (q : Pool) (answer : Answer)
          → ◌≡◌ {A = Option (Pool × Answer × ℕ)} (some (q, answer, now)) (some x)
          → (now ≤ x.2) × (x.2 ≤ max now (c.deadline + lag))
      at_once q answer h =
          let same : now ≡ x.2 = ap (λ (z : Option (Pool × Answer × ℕ)). (unwrap_or z x).2) h in
          omega (arith, same)

      by_result :
          (t : Result Lease Next)
          → (try_acquire fmt_instant p now c.exclude).1 ≡ t
          → ((at : ℕ)
              → timed fuel
                  (suc round)
                  (c.world.wake round at)
                  (c.world.others round (try_acquire fmt_instant p now c.exclude).0)
                ≡ some x
              → (c.world.wake round at ≤ x.2)
                × (x.2 ≤ max (c.world.wake round at) (c.deadline + lag)))
          → (now ≤ x.2) × (x.2 ≤ max now (c.deadline + lag))
      by_result (ok lease) f again = at_once _ _ (rw (f, acquire_timed) at e)
      by_result (err (Next.unavailable earliest summary)) f again =
          at_once _ _ (rw (f, acquire_timed) at e)
      by_result (err (Next.at at)) f again = elim (Bool-cases (ltb c.deadline at)) [
        | inl late ↦ at_once _ _ (rw late at (rw (f, acquire_timed) at e))
        | inr in_time ↦
            let later = again at (rw in_time at (rw (f, acquire_timed) at e)) in
            let ahead = try_acquire-at_later fmt_instant p now c.exclude at f in
            omega (
              arith,
              later,
              ahead,
              not-ltb→le _ _ in_time,
              prompt.sleeps round at,
              prompt.wakes_soon round at,
            )
      ]

  -- The loop ends, with one of its three reasons.
  acquire_timed_total :
      (now : ℕ) (p : Pool)
      → (q : Pool) × (answer : Answer) × (done : ℕ) × (timed (fuel_for c now) 0 now p
          ≡ some (q, answer, done))
        × LoopEnds fmt_instant c now p q answer
  acquire_timed_total now p =
      let (p', r, result, ends) =
        acquire_loop_total fmt_instant c.world c.exclude c.deadline (fuel_for c now) 0 now p
          prompt.sleeps (omega arith) in
      by_timed p' r ends (timed (fuel_for c now) 0 now p) refl (
        acquire_timed-acquire_loop fmt_instant c.world c.deadline c.exclude (fuel_for c now) 0 now p
        ∙ result)
    where
      by_timed :
          (p' : Pool) (r : Answer)
          → LoopEnds fmt_instant c now p p' r
          → (o : Option (Pool × Answer × ℕ)) → timed (fuel_for c now) 0 now p ≡ o
          → option_map o untimed ≡ some (p', r)
          → (q : Pool) × (answer : Answer) × (done : ℕ) × (timed (fuel_for c now) 0 now p
              ≡ some (q, answer, done))
            × LoopEnds fmt_instant c now p q answer
      by_timed p' r ends none e both = absurd (cc)
      by_timed p' r ends (some (q, answer, done)) e both =
          let same : ◌≡◌ {A = Pool × Answer} (q, answer) (p', r) =
            ap (λ (z : Option (Pool × Answer)). unwrap_or z (q, answer)) both in
          let ends' =
            subst (λ (y : Pool × Answer). LoopEnds fmt_instant c now p y.0 y.1) (sym same) ends in
          (q, answer, done, e, ends')

module _ (fmt_instant : ℕ → Text) (lag : ℕ) where
  -- If the runtime hands on the turnstile and ends each sleep within a lag, and no earlier than
  -- asked, then every caller in the queue is answered: in turn, not before it has come and the one
  -- before it is done, and at the latest one lag for each turn so far behind the latest of when the
  -- turnstile became free, the arrivals and the deadlines of the callers up to it. Its answer is one
  -- that ends its own waiting loop, which starts on the pool as the caller before it and then the
  -- tasks outside the turnstile left it: what the description of `try_acquire` asks for in a round
  -- that the waits of this loop lead to.
  pub take_turns-Answered :
      (free : ℕ) (p : Pool) (cs : List Caller)
      → All (IsPrompt lag) cs
      → (answers : List (Answer × ℕ)) × (take_turns fmt_instant free p cs ≡ some answers)
        × Answered fmt_instant lag free free p cs answers
  take_turns-Answered free p cs prompt = from free free p cs (omega arith) prompt
    where
      from :
          (latest free : ℕ) (p : Pool) (cs : List Caller)
          → free ≤ latest
          → All (IsPrompt lag) cs
          → (answers : List (Answer × ℕ)) × (take_turns fmt_instant free p cs ≡ some answers)
            × Answered fmt_instant lag latest free p cs answers
      from latest free p [] h prompt = ([], unfold take_turns in refl, tt)
      from latest free p (c ∷ cs) h prompt =
          let now = c.begins (max c.arrives free) in
          let (q, answer, done, result, ends) =
            acquire_timed_total fmt_instant lag c prompt.0 now (c.before p) in
          let (no_earlier, no_later) =
            acquire_timed_bounds fmt_instant lag c prompt.0 (fuel_for c now) 0 now (c.before p)
              (q, answer, done) result in
          let not_before = prompt.0.not_before (max c.arrives free) in
          let soon = prompt.0.begins_soon (max c.arrives free) in
          let (rest, turns, answered) =
            from (bound lag latest c) done q cs (omega (arith, no_later, soon)) prompt.1 in
          (
            (answer, done) ∷ rest,
            take_turns-cons fmt_instant free p q c cs answer done rest result turns,
            (
              omega (arith, no_earlier, not_before),
              omega (arith, no_later, soon),
              (q, ends, answered),
            ),
          )
