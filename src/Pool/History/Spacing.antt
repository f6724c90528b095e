-- ===== src/Pool/History/Spacing.antt =====
-- src/pool.rs: the sends granted with one key, each against those before it.
use mathlib.Core.List.{append-nil, append_assoc}
use brave_search_api_rotator.Base.{
  ℕ, ◌≤◌, ◌<◌, max, List, [], ◌∷◌, ◌++◌, Result, ok, err, ◌≡◌, refl, ◌∙◌, ap, subst, arith, inl,
  inr, Bool-cases, ◌==◌, ==_iff, u32_max,
}
use brave_search_api_rotator.Text.{Text}
use brave_search_api_rotator.Key.Window.Sliding.{count_recent}
use brave_search_api_rotator.Pool.{Pool, PoolConfig, Lease, Next, window, new}
use brave_search_api_rotator.Pool.Select.{try_acquire}
use brave_search_api_rotator.Pool.Select.Keys.{AllAt, AllAt-get_elem?}
use brave_search_api_rotator.Pool.Select.Promises.{try_acquire-Leased}
use brave_search_api_rotator.Pool.History.{
  Event, acquires, records, snapshots, time, Grants, granted, step, run, InOrder, sends_of,
}
use brave_search_api_rotator.Pool.History.Granting.{
  leased-recent, new_keys-AllTrack, sends_of-append, sends_of_self, sends_of_others, AllTrack-later,
}
use brave_search_api_rotator.Pool.History.Keeps.{Records, step_by-AllAt}
use brave_search_api_rotator.Pool.History.Limit.{
  IsTracked, step-IsTracked, step-cfg, run-cfg, after,
}
use brave_search_api_rotator.Pool.History.Reported.{
  ReportsFor, AllReport, Limited, Limited-KeptBy, new_keys-Limited,
}

-- Fewer than `top` of the sends before each one are recent at its time.
abbrev pub Spaced : ℕ → ℕ → List ℕ → List ℕ → Type 0
Spaced len top earlier [] = Unit
Spaced len top earlier (t ∷ ts) =
    (count_recent t len earlier < top) × Spaced len top (earlier ++ t ∷ []) ts

Spaced-append :
    (len top t : ℕ) (earlier ts : List ℕ)
    → Spaced len top earlier ts
    → count_recent t len (earlier ++ ts) < top
    → Spaced len top earlier (ts ++ t ∷ [])
Spaced-append len top t earlier [] h room = (rw (append-nil earlier) at room, tt)
Spaced-append len top t earlier (u ∷ us) h room =
    let same = append_assoc earlier (u ∷ []) us in
    (h.0, Spaced-append len top t (earlier ++ u ∷ []) us h.1 (rw same room))

-- What the sends of the key `i` and its limit satisfy at any moment.
abbrev IsSpaced : ℕ → ℕ → Pool × Grants → Type 0
IsSpaced top i s = AllAt (Limited top i) 0 s.0.keys × Spaced (window s.0) top [] (sends_of i s.1)

module _ (format_duration fmt_instant : ℕ → Text) (top i : ℕ) (pos : 1 ≤ top) where
  acquired-Spaced :
      (p : Pool) (g : Grants) (now : ℕ) (exclude : List ℕ) (r : Result Lease Next)
      → (try_acquire fmt_instant p now exclude).1 ≡ r
      → IsTracked format_duration fmt_instant now (p, g)
      → IsSpaced top i (p, g)
      → Spaced (window p) top [] (sends_of i (g ++ granted now r))
  acquired-Spaced p g now exclude (err n) e tracked (limits, spaced) = rw (append-nil g) spaced
  acquired-Spaced p g now exclude (ok lease) e tracked (limits, spaced) =
      elim (Bool-cases (lease.idx == i)) [
        | inr miss ↦
            let same =
              sends_of_others i lease.idx now g (λ e. ground (arith, ==_iff lease.idx i)) in
            rw same spaced
        | inl hit ↦
            let same : lease.idx ≡ i = (==_iff lease.idx i).0 hit in
            let leased = try_acquire-Leased fmt_instant p now exclude lease e in
            let recent =
              leased-recent fmt_instant p g now exclude lease leased.key tracked e leased.there in
            let limit : leased.key.sec_limit ≤ top =
              AllAt-get_elem? (Limited top i) 0 p.keys lease.idx lease.idx leased.key limits
                (omega arith) leased.there same in
            let grown : sends_of i (g ++ (lease.idx, now) ∷ []) ≡ sends_of i g ++ now ∷ [] =
              sends_of-append i g ((lease.idx, now) ∷ [])
              ∙ rw same (ap (λ xs. sends_of i g ++ xs) (sends_of_self i now)) in
            let at_i : count_recent now (window p) (sends_of i g) < max leased.key.sec_limit 1 =
              subst
                (λ (j : ℕ). count_recent now (window p) (sends_of j g) < max leased.key.sec_limit 1)
                same recent in
            rw grown (
              Spaced-append (window p) top now [] (sends_of i g) spaced
                (omega (arith, at_i, limit)))
      ]

  step-Spaced :
      (last : ℕ) (p : Pool) (g : Grants) (e : Event)
      → last ≤ time e
      → Records (ReportsFor top i) e
      → IsTracked format_duration fmt_instant last (p, g)
      → IsSpaced top i (p, g)
      → IsSpaced top i (step format_duration fmt_instant (p, g) e)
  step-Spaced last p g e later good tracked spaced = (
    step_by-AllAt (λ _. Unit) (ReportsFor top i) (Limited top i) (Limited-KeptBy top i)
        format_duration fmt_instant p g e tt good spaced.0,
    rw (step-cfg format_duration fmt_instant p g e) (by_event e later),
  )
    where
      by_event :
          (e : Event)
          → last ≤ time e
          → Spaced (window p) top [] (sends_of i (step format_duration fmt_instant (p, g) e).1)
      by_event (acquires now exclude) later =
          unfold step in
          acquired-Spaced p g now exclude (try_acquire fmt_instant p now exclude).1 refl
            (AllTrack-later (window p) (omega arith) g last now p.keys later tracked) spaced
      by_event (records now idx outcome) later = unfold step in spaced.1
      by_event (snapshots now) later = unfold step in spaced.1

  run-Spaced :
      (last to : ℕ) (p : Pool) (g : Grants) (es : List Event)
      → InOrder last es to
      → AllReport top i es
      → IsTracked format_duration fmt_instant last (p, g)
      → IsSpaced top i (p, g)
      → IsSpaced top i (run format_duration fmt_instant (p, g) es)
  unfolding run
  run-Spaced last to p g [] order good tracked spaced = spaced
  run-Spaced last to p g (e ∷ es) order good tracked spaced =
      run-Spaced (time e) to (step format_duration fmt_instant (p, g) e).0
        (step format_duration fmt_instant (p, g) e).1 es order.1 good.1
        (step-IsTracked format_duration fmt_instant last p g e order.0 tracked)
        (step-Spaced last p g e order.0 good.0 tracked spaced)

  -- The sends of a key that has never learned more than `top` are spaced, after any history.
  pub after-Spaced :
      (keys : List Text) (cfg : PoolConfig) (es : List Event) (to : ℕ)
      → cfg.default_rps ≤ u32_max
      → cfg.default_rps ≤ top
      → InOrder 0 es to
      → AllReport top i es
      → Spaced
          (window (new keys cfg))
          top
          []
          (sends_of i (after format_duration fmt_instant keys cfg es).1)
  unfolding new sends_of
  after-Spaced keys cfg es to fits rps order good =
      subst
        (λ (c : PoolConfig).
          Spaced (window (record (new keys cfg) { cfg = c })) top []
            (sends_of i (after format_duration fmt_instant keys cfg es).1))
        (run-cfg format_duration fmt_instant (new keys cfg) [] es)
        (run-Spaced 0 to (new keys cfg) [] es order good (new_keys-AllTrack cfg _ 0 keys fits)
          (new_keys-Limited top i pos cfg 0 keys rps, tt)).1
