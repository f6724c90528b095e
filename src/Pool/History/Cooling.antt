-- ===== src/Pool/History/Cooling.antt =====
-- src/pool.rs: a disabled or exhausted key is not used before its time.
use mathlib.Core.List.{append-nil}
use brave_search_api_rotator.Base.{
  true, ℕ, ◌≤◌, ◌<◌, List, [], ◌∷◌, ◌++◌, some, Result, ok, err, ◌≡◌, refl, sym, ◌∙◌, ap, arith,
  get_elem?, All,
}
use brave_search_api_rotator.Text.{Text}
use brave_search_api_rotator.Key.{KeyState, Health, is_ok}
use brave_search_api_rotator.Key.Window.{refresh}
use brave_search_api_rotator.Key.Window.Availability.{availability_healthy}
use brave_search_api_rotator.Key.Window.Settled.{availability_parked}
use brave_search_api_rotator.Pool.{Pool, Lease, Next, Outcome, window}
use brave_search_api_rotator.Pool.Select.{mark_sent, try_acquire}
use brave_search_api_rotator.Pool.Select.Keys.{AllAt, AllAt-get_elem?, AllAt-of_get_elem?}
use brave_search_api_rotator.Pool.Select.Promises.{try_acquire-Leased}
use brave_search_api_rotator.Pool.History.{
  Event, acquires, records, snapshots, time, Grants, granted, step, run, sends_of,
}
use brave_search_api_rotator.Pool.History.Granting.{sends_of_others}
use brave_search_api_rotator.Pool.History.Keeps.{KeptBy, Records, step_by-AllAt}

-- Disabled or exhausted, at least until `u`.
abbrev pub ParkedTo : ℕ → Health → Type 0
ParkedTo u Health.ok = ⊥
ParkedTo u (Health.disabled until reason) = u ≤ until
ParkedTo u (Health.exhausted until) = u ≤ until

-- No outcome is recorded for the key `j`.
abbrev pub RecordsOthers : ℕ → ℕ → Outcome → Type 0
RecordsOthers j i outcome = i ≡ j → ⊥

abbrev KeptParked : ℕ → ℕ → ℕ → KeyState → Type 0
KeptParked u j i k = i ≡ j → ParkedTo u k.health

not_ok : (u : ℕ) (h : Health) → ParkedTo u h → h ≡ Health.ok → ⊥
not_ok u Health.ok parked e = parked
not_ok u (Health.disabled until reason) parked e = cc
not_ok u (Health.exhausted until) parked e = cc

refresh_parked : (k : KeyState) (now u : ℕ) → now < u → ParkedTo u k.health → refresh k now ≡ k
unfolding refresh
refresh_parked k now u early parked = by_health k.health refl parked
  where
    by_health : (h : Health) → k.health ≡ h → ParkedTo u h → refresh k now ≡ k
    by_health Health.ok e p = absurd p
    by_health (Health.disabled until reason) e p = ground arith
    by_health (Health.exhausted until) e p = ground arith

mark_sent-health : (k : KeyState) (now : ℕ) → (mark_sent k now).health ≡ k.health
unfolding mark_sent
mark_sent-health k now = refl

KeptParked-KeptBy : (u j : ℕ) → KeptBy (λ t. t < u) (RecordsOthers j) (KeptParked u j)
KeptParked-KeptBy u j = record {
  by_refresh = λ i k now early h e. rw (refresh_parked k now u early (h e)) (h e);
  by_availability =
      λ i k now window h e. rw (availability_parked k now window (not_ok u k.health (h e))) (h e);
  by_mark_sent = λ i k now h e. rw (mark_sent-health k now) (h e);
  by_digest = λ i k now outcome other h e. absurd (other e);
}

module _ (format_duration fmt_instant : ℕ → Text) (u j : ℕ) where
  -- Before `u` the key is not leased.
  not_leased :
      (p : Pool) (now : ℕ) (exclude : List ℕ) (lease : Lease)
      → now < u
      → AllAt (KeptParked u j) 0 p.keys
      → (try_acquire fmt_instant p now exclude).1 ≡ ok lease
      → j ≡ lease.idx
      → ⊥
  not_leased p now exclude lease early parked e same =
      let leased = try_acquire-Leased fmt_instant p now exclude lease e in
      let key_parked : ParkedTo u leased.key.health =
        AllAt-get_elem? _ 0 p.keys lease.idx lease.idx leased.key parked (omega arith) leased.there
          (sym same) in
      let idle = refresh_parked leased.key now u early key_parked in
      let healthy : is_ok (refresh leased.key now).health ≡ true =
        availability_healthy (refresh leased.key now) now (window p) leased.usable in
      not_healthy leased.key.health key_parked
        (sym (ap (λ (x : KeyState). is_ok x.health) idle) ∙ healthy)
    where
      not_healthy : (h : Health) → ParkedTo u h → is_ok h ≡ true → ⊥
      not_healthy Health.ok parked e = parked
      not_healthy (Health.disabled until reason) parked e = cc
      not_healthy (Health.exhausted until) parked e = cc

  step-sends :
      (p : Pool) (g : Grants) (e : Event)
      → time e < u
      → AllAt (KeptParked u j) 0 p.keys
      → sends_of j (step format_duration fmt_instant (p, g) e).1 ≡ sends_of j g
  unfolding step
  step-sends p g (records now idx outcome) early parked = refl
  step-sends p g (snapshots now) early parked = refl
  step-sends p g (acquires now exclude) early parked =
      by_result (try_acquire fmt_instant p now exclude).1 refl
    where
      by_result :
          (r : Result Lease Next)
          → (try_acquire fmt_instant p now exclude).1 ≡ r
          → sends_of j (g ++ granted now r) ≡ sends_of j g
      by_result (err n) e = ap (sends_of j) (append-nil g)
      by_result (ok lease) e =
          sends_of_others j lease.idx now g (not_leased p now exclude lease early parked e)

  run-sends :
      (p : Pool) (g : Grants) (es : List Event)
      → All (λ e. time e < u) es
      → All (Records (RecordsOthers j)) es
      → AllAt (KeptParked u j) 0 p.keys
      → sends_of j (run format_duration fmt_instant (p, g) es).1 ≡ sends_of j g
  unfolding run
  run-sends p g [] early others parked = refl
  run-sends p g (e ∷ es) early others parked =
      run-sends (step format_duration fmt_instant (p, g) e).0
        (step format_duration fmt_instant (p, g) e).1 es early.1 others.1
        (step_by-AllAt (λ t. t < u) (RecordsOthers j) (KeptParked u j) (KeptParked-KeptBy u j)
          format_duration fmt_instant p g e early.0 others.0 parked)
      ∙ step-sends p g e early.0 parked

  -- Whatever many tasks do before the time `u`, a key that is disabled or exhausted until then or
  -- later is not granted, as long as no outcome is recorded for it.
  pub parked_not_used :
      (p : Pool) (k : KeyState) (g : Grants) (es : List Event)
      → get_elem? p.keys j ≡ some k
      → ParkedTo u k.health
      → All (λ e. time e < u) es
      → All (Records (RecordsOthers j)) es
      → sends_of j (run format_duration fmt_instant (p, g) es).1 ≡ sends_of j g
  parked_not_used p k g es there parked early others =
      run-sends p g es early others
        (AllAt-of_get_elem? (KeptParked u j) 0 p.keys (λ i x at same. ground (arith, there)))
