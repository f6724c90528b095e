-- ===== src/Pool/History/Limit.antt =====
-- No history sends more on a key, within one window, than the key's limit of the moment.
use brave_search_api_rotator.Base.{
  ℕ, ◌+◌, ◌≤◌, ◌<◌, max, List, [], ◌∷◌, some, ok, ◌≡◌, refl, ◌∙◌, subst, arith, u32_max, get_elem?,
}
use brave_search_api_rotator.Text.{Text}
use brave_search_api_rotator.Key.{KeyState, window_base}
use brave_search_api_rotator.Key.Window.Sliding.{count_recent}
use brave_search_api_rotator.Pool.{Pool, PoolConfig, Lease, window, new}
use brave_search_api_rotator.Pool.Select.{try_acquire}
use brave_search_api_rotator.Pool.Record.{record_outcome}
use brave_search_api_rotator.Pool.Snapshot.{snapshot}
use brave_search_api_rotator.Pool.History.{
  Event, acquires, records, snapshots, time, Grants, step, run, InOrder, sends_of,
}
use brave_search_api_rotator.Pool.History.Granting.{
  AllTrack, AllTrack-later, leased-recent, try_acquire-AllTrack, record-AllTrack, survey-AllTrack,
  new_keys-AllTrack,
}

module _ (format_duration fmt_instant : ℕ → Text) where
  abbrev pub IsTracked : ℕ → Pool × Grants → Type 0
  IsTracked now s = AllTrack now (window s.0) s.1 0 s.0.keys

  pub step-cfg :
      (p : Pool) (g : Grants) (e : Event)
      → (step format_duration fmt_instant (p, g) e).0.cfg ≡ p.cfg
  unfolding step try_acquire record_outcome snapshot
  step-cfg p g (acquires now exclude) = refl
  step-cfg p g (snapshots now) = refl
  step-cfg p g (records now idx outcome) = ground arith

  pub step-IsTracked :
      (last : ℕ) (p : Pool) (g : Grants) (e : Event)
      → last ≤ time e
      → IsTracked last (p, g)
      → IsTracked (time e) (step format_duration fmt_instant (p, g) e)
  unfolding step try_acquire
  step-IsTracked last p g (acquires now exclude) later h =
      try_acquire-AllTrack fmt_instant p g now exclude _ refl
        (AllTrack-later (window p) (omega arith) g last now p.keys later h)
  step-IsTracked last p g (records now idx outcome) later h =
      rw (step-cfg p g (records now idx outcome)) (
        record-AllTrack p g now idx outcome
          (AllTrack-later (window p) (omega arith) g last now p.keys later h))
  step-IsTracked last p g (snapshots now) later h =
      unfold snapshot in
      survey-AllTrack format_duration fmt_instant now (window p) g (omega arith) 0 p.keys _
        (AllTrack-later (window p) (omega arith) g last now p.keys later h)

  run-IsTracked :
      (last to : ℕ) (p : Pool) (g : Grants) (es : List Event)
      → InOrder last es to
      → IsTracked last (p, g)
      → IsTracked to (run format_duration fmt_instant (p, g) es)
  unfolding run
  run-IsTracked last to p g [] order h =
      AllTrack-later (window p) (omega arith) g last to p.keys order h
  run-IsTracked last to p g (e ∷ es) order h =
      run-IsTracked (time e) to _ _ es order.1 (step-IsTracked last p g e order.0 h)

  pub run-cfg :
      (p : Pool) (g : Grants) (es : List Event)
      → (run format_duration fmt_instant (p, g) es).0.cfg ≡ p.cfg
  unfolding run
  run-cfg p g [] = refl
  run-cfg p g (e ∷ es) =
      run-cfg (step format_duration fmt_instant (p, g) e).0
        (step format_duration fmt_instant (p, g) e).1 es
      ∙ step-cfg p g e

  -- The pool and the grants after a history that begins with a new pool.
  abbrev pub after : List Text → PoolConfig → List Event → Pool × Grants
  after keys cfg es = run format_duration fmt_instant (new keys cfg, []) es

  -- After any history of a new pool whose times do not fall, up to now included, a key that is
  -- leased had fewer sends granted within the last window (a second and the margin) than its limit
  -- of that moment, at least one. The default limit fits 32 bits.
  pub sliding_window_respected :
      (keys : List Text) (cfg : PoolConfig) (es : List Event) (now : ℕ) (exclude : List ℕ)
      (lease : Lease) (k : KeyState)
      → cfg.default_rps ≤ u32_max
      → InOrder 0 es now
      → (try_acquire fmt_instant (after keys cfg es).0 now exclude).1 ≡ ok lease
      → get_elem? (after keys cfg es).0.keys lease.idx ≡ some k
      → count_recent now
          (window_base + cfg.window_margin)
          (sends_of lease.idx (after keys cfg es).1)
        < max k.sec_limit 1
  unfolding new
  sliding_window_respected keys cfg es now exclude lease k rps order e there =
      let tracked =
        run-IsTracked 0 now (new keys cfg) [] es order (new_keys-AllTrack cfg _ 0 keys rps) in
      let same = run-cfg (new keys cfg) [] es in
      subst
        (λ (c : PoolConfig).
          count_recent now (window_base + c.window_margin)
            (sends_of lease.idx (after keys cfg es).1)
          < max k.sec_limit 1)
        same
        (leased-recent fmt_instant (after keys cfg es).0 (after keys cfg es).1 now exclude lease k
          tracked e there)
