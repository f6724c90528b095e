-- ===== src/Pool/Acquire/Served.antt =====
-- src/pool.rs, `acquire`: with a key that works, the caller whose turn it is gets a lease.
use brave_search_api_rotator.Base.{
  ℕ, zero, suc, ◌+◌, ◌-◌, ◌≤◌, ◌<◌, ◌≡◌, refl, ◌∙◌, ap, arith, ltb, leb, List, [], ◌∷◌, none, some,
  Result, ok, err, All, get_elem?, length, contains, false, inl, inr, Bool-cases,
}
use brave_search_api_rotator.Text.{Text}
use brave_search_api_rotator.Key.{KeyState, Health}
use brave_search_api_rotator.Key.Window.{refresh, prune, prune_window, window_slot, availability}
use brave_search_api_rotator.Pool.{Pool, Lease, Next, window}
use brave_search_api_rotator.Pool.Select.{try_acquire, select}
use brave_search_api_rotator.Pool.Select.Keys.{AllAt, AllAt-map, AllAt-get_elem?}
use brave_search_api_rotator.Pool.Select.Selected.{select-AllAt}
use brave_search_api_rotator.Pool.Select.Outcomes.{conclude-err, refreshed}
use brave_search_api_rotator.Pool.Select.Promises.{try_acquire-at_later}
use brave_search_api_rotator.Pool.Contract.{Candidate, Waits}
use brave_search_api_rotator.Pool.Contract.Refines.{try_acquire-Contract}
use brave_search_api_rotator.Pool.History.{acquires, step}
use brave_search_api_rotator.Pool.History.Keeps.{length-step}
use brave_search_api_rotator.Pool.Acquire.{World, acquire_loop}
use brave_search_api_rotator.Pool.Acquire.Waiting.{SleepsLongEnough}

-- A key that works: it is healthy, not held, and its window is empty by `by`.
pub record Works (window by : ℕ) (k : KeyState) : Type 0 where
  pub healthy : k.health ≡ Health.ok
  pub not_held : k.hold_until ≡ none
  pub empty_by : All (λ t. t + window ≤ by) k.sends

prune-All : (P : ℕ → Type 0) (now window : ℕ) (ts : List ℕ) → All P ts → All P (prune now window ts)
unfolding prune
prune-All P now window [] h = tt
prune-All P now window (t ∷ ts) h = elim (Bool-cases (leb window (now - t))) [
  | inl over ↦ rw over (prune-All P now window ts h.1)
  | inr recent ↦ rw recent h
]

module _ (window by : ℕ) where
  refresh-Works : (k : KeyState) (now : ℕ) → Works window by k → Works window by (refresh k now)
  unfolding refresh
  refresh-Works k now w = let same : refresh k now ≡ k = ground (arith, w.healthy) in rw same w

  window_slot_by :
      (k : KeyState) (s : List ℕ) (u : ℕ)
      → All (λ t. t + window ≤ by) s
      → window_slot k window s ≡ err u
      → u ≤ by
  unfolding window_slot
  window_slot_by k [] u h e = cc
  window_slot_by k (t ∷ s) u h e = ground (arith, h.0)

  availability_unheld :
      (k : KeyState) (now : ℕ)
      → Works window by k
      → availability k now window ≡ (
        prune_window k now window,
        window_slot (prune_window k now window) window (prune now window k.sends),
      )
  unfolding availability prune_window
  availability_unheld k now w = ground (arith, w.healthy, w.not_held)

  -- Such a key stays so, and is free, or at the latest when its window is empty.
  availability-Works :
      (k : KeyState) (now : ℕ)
      → Works window by k
      → Works window by (availability k now window).0
        × ((u : ℕ) → (availability k now window).1 ≡ err u → u ≤ by)
  unfolding prune_window
  availability-Works k now w =
      let seen = availability_unheld k now w in
      let pruned = prune-All (λ t. t + window ≤ by) now window k.sends w.empty_by in
      rw seen (
        record { healthy = w.healthy; not_held = w.not_held; empty_by = pruned },
        λ u. window_slot_by (prune_window k now window) (prune now window k.sends) u pruned,
      )

get_elem?-within :
    (ks : List KeyState) (j : ℕ) → j < length ks → (k : KeyState) × (get_elem? ks j ≡ some k)
get_elem?-within [] j h = absurd (omega arith)
get_elem?-within (k ∷ ks) zero h = (k, refl)
get_elem?-within (k ∷ ks) (suc j) h = get_elem?-within ks j (omega arith)

-- Key number `j` of the pool works.
abbrev pub HasWorking : ℕ → ℕ → Pool → Type 0
HasWorking by j p = AllAt (λ i k. i ≡ j → Works (window p) by k) 0 p.keys × (j < length p.keys)

module _ (fmt_instant : ℕ → Text) (by j : ℕ) (exclude : List ℕ)
    (free : contains exclude j ≡ false) where
  module _ (p : Pool) (now : ℕ) (works : HasWorking by j p) where
    working : (k : KeyState) × (get_elem? p.keys j ≡ some k) × Works (window p) by k
    working =
        let (k, there) = get_elem?-within p.keys j works.1 in
        (k, there, AllAt-get_elem? _ 0 p.keys j j k works.0 (omega arith) there refl)

    -- No attempt finds the pool unusable, and the wait ends when the key's window is empty.
    refused_by :
        (n : Next)
        → (try_acquire fmt_instant p now exclude).1 ≡ err n
        → (t : ℕ) × (n ≡ Next.at t) × (t ≤ by)
    refused_by (Next.unavailable earliest text) e =
        let (k, there, w) = working in
        let sick = ((try_acquire-Contract fmt_instant p now exclude _).0 e).sick j k there in
        absurd (cc (sick, (refresh-Works (window p) by k now w).healthy))
    refused_by (Next.at t) e =
        let (k, there, w) = working in
        let waits = (try_acquire-Contract fmt_instant p now exclude _).0 e in
        let candidate : Candidate p now exclude j k = record {
          there = there;
          allowed = inl free;
        } in
        let (_, soon) =
          availability-Works (window p) by (refresh k now) now
            (refresh-Works (window p) by k now w) in
        (
          t,
          refl,
          by_result k candidate waits soon (availability (refresh k now) now (window p)).1 refl,
        )
      where
        by_result :
            (k : KeyState)
            → Candidate p now exclude j k
            → Waits p now exclude t
            → ((u : ℕ) → (availability (refresh k now) now (window p)).1 ≡ err u → u ≤ by)
            → (r : Result (Unit {0}) ℕ) → (availability (refresh k now) now (window p)).1 ≡ r
            → t ≤ by
        by_result k c waits soon (ok tt) f = absurd (waits.none_usable j k c f)
        by_result k c waits soon (err u) f = omega (arith, soon u f, waits.soonest.first j k u c f)

    refused-HasWorking :
        (n : Next)
        → (try_acquire fmt_instant p now exclude).1 ≡ err n
        → HasWorking by j (try_acquire fmt_instant p now exclude).0
    refused-HasWorking n e = (
      unfold try_acquire in
          (let choice = select now (window p) exclude (refreshed p now) in
            rw (conclude-err fmt_instant now choice.0 choice.1 n e) (
              select-AllAt now (window p) exclude (refreshed p now)
                (λ i k. i ≡ j → Works (window p) by k)
                (λ i k w same. (availability-Works (window p) by k now (w same)).0)
                (AllAt-map _ _ (λ k. refresh k now)
                  (λ i k w same. refresh-Works (window p) by k now (w same)) 0 p.keys works.0))),
      let kept : length (try_acquire fmt_instant p now exclude).0.keys ≡ length p.keys =
            unfold step in length-step fmt_instant fmt_instant p [] (acquires now exclude) in
          rw kept works.1,
    )

  -- If the key number `j`, which the caller does not exclude, is healthy and not held and its window
  -- is empty by a time `by` that is no later than the deadline, and what the other tasks do while
  -- the caller waits leaves that so, then the caller gets a lease, with fuel above
  -- `deadline + 1 - now` and sleeps that do not end too early.
  pub acquire_leases :
      (world : World) (deadline fuel round now : ℕ) (p : Pool)
      → SleepsLongEnough world
      → ((n : ℕ) (q : Pool) → HasWorking by j q → HasWorking by j (world.others n q))
      → by ≤ deadline
      → deadline + 1 - now < fuel
      → HasWorking by j p
      → (p' : Pool) × (lease : Lease) × (acquire_loop fmt_instant world fuel round now p deadline
            exclude
          ≡ some (p', ok lease))
  unfolding acquire_loop
  acquire_leases world deadline zero round now p sleeps others soon enough works =
      absurd (omega arith)
  acquire_leases world deadline (suc fuel) round now p sleeps others soon enough works =
      by_result (try_acquire fmt_instant p now exclude).1 refl λ at ahead in_time working.
        acquire_leases world deadline fuel (suc round) (world.wake round at)
          (world.others round (try_acquire fmt_instant p now exclude).0) sleeps others soon
          (omega (arith, sleeps round at, in_time, soon)) (others round _ working)
    where
      Leases : Type 0
      Leases =
          (p' : Pool) × (lease : Lease) × (acquire_loop fmt_instant world (suc fuel) round now p
              deadline exclude
            ≡ some (p', ok lease))

      by_result :
          (r : Result Lease Next)
          → (try_acquire fmt_instant p now exclude).1 ≡ r
          → ((at : ℕ)
              → now < at
              → at ≤ by
              → HasWorking by j (try_acquire fmt_instant p now exclude).0
              → (p' : Pool) × (lease : Lease) × (acquire_loop fmt_instant world fuel
                    (suc round)
                    (world.wake round at)
                    (world.others round (try_acquire fmt_instant p now exclude).0)
                    deadline
                    exclude
                  ≡ some (p', ok lease)))
          → Leases
      by_result (ok lease) e again =
          ((try_acquire fmt_instant p now exclude).0, lease, rw (e, acquire_loop))
      by_result (err n) e again =
          let (t, same, in_time) = refused_by p now works n e in
          let e' : (try_acquire fmt_instant p now exclude).1 ≡ err (Next.at t) =
            e ∙ ap (λ (m : Next). err m) same in
          let not_late : ltb deadline t ≡ false = ground (arith, in_time, soon) in
          let (p', lease, result) =
            again t (try_acquire-at_later fmt_instant p now exclude t e') in_time
              (refused-HasWorking p now works n e) in
          (p', lease, rw (e', acquire_loop) (rw not_late result))
