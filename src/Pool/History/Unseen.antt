-- ===== src/Pool/History/Unseen.antt =====
-- src/pool.rs: a snapshot refreshes and prunes the keys, but what is leased after it is the same.
use brave_search_api_rotator.Base.{
  ℕ, List, [], ◌∷◌, ◌++◌, some, Result, ok, err, ◌≡◌, refl, sym, ◌∙◌, ap, subst, map, get_elem?,
  inl, inr,
}
use brave_search_api_rotator.Text.{Text}
use brave_search_api_rotator.Key.{KeyState}
use brave_search_api_rotator.Key.Window.{refresh, availability}
use brave_search_api_rotator.Pool.{Pool, PoolConfig, Lease, Next, window}
use brave_search_api_rotator.Pool.Select.{Picked, Score, select, mark_sent, conclude, try_acquire}
use brave_search_api_rotator.Pool.Select.Alike.{
  Pairs, Alike, select-Alike, Alike-get_elem?, conclude-Alike,
}
use brave_search_api_rotator.Pool.Select.Selected.{select-Selected}
use brave_search_api_rotator.Pool.Select.Outcomes.{conclude-ok, conclude-err}
use brave_search_api_rotator.Pool.Snapshot.{snapshot}
use brave_search_api_rotator.Pool.History.{
  Event, acquires, records, snapshots, Grants, step, run, InOrder, granted,
}
use brave_search_api_rotator.Pool.History.Same.{
  Same, Pairs-refl, Pairs-sym, Pairs-trans, Pairs-set, Pairs-later, select-Same, survey-Same,
  refreshed-Alike,
}

abbrev with_keys : Pool → List KeyState → Pool
with_keys p ks = record p { keys = ks }

module _ (fmt_instant : ℕ → Text) (p : Pool) (now : ℕ) (exclude : List ℕ) (ks ls : List KeyState)
    (h : Pairs (Same now (window p)) ks ls) where
  abbrev choice : List KeyState → List KeyState × Picked
  choice ms = select now (window p) exclude (map (λ k. refresh k now) ms)

  abbrev tried : List KeyState → Pool × Result Lease Next
  tried ms = try_acquire fmt_instant (with_keys p ms) now exclude

  alike : ((choice ks).1 ≡ (choice ls).1) × Pairs (Alike now (window p)) (choice ks).0 (choice ls).0
  alike = select-Alike now (window p) exclude _ _ (refreshed-Alike now (window p) ks ls h)

  chosen-Same : Pairs (Same now (window p)) (choice ks).0 (choice ls).0
  chosen-Same =
      Pairs-trans now (window p) (choice ks).0 ks (choice ls).0
        (Pairs-sym now (window p) ks (choice ks).0 (select-Same now (window p) exclude ks))
        (Pairs-trans now (window p) ks ls (choice ls).0 h (select-Same now (window p) exclude ls))

  -- The same is leased, or refused.
  tried-result : (tried ks).1 ≡ (tried ls).1
  unfolding try_acquire
  tried-result =
      subst
        (λ (q : Picked).
          (conclude fmt_instant now (choice ks).0 (choice ks).1).1
          ≡ (conclude fmt_instant now (choice ls).0 q).1)
        alike.0
        (conclude-Alike now (window p) fmt_instant (choice ks).0 (choice ls).0 (choice ks).1
          alike.1)

  -- The key that is leased was looked at, so it is the same.
  chosen_key :
      (i : ℕ) (s s' : Score) (k l : KeyState)
      → (choice ks).1.best ≡ some (i, s)
      → (choice ls).1.best ≡ some (i, s')
      → get_elem? (choice ks).0 i ≡ some k
      → get_elem? (choice ls).0 i ≡ some l
      → k ≡ l
  chosen_key i s s' k l best best' there there' =
      let fresh = map (λ k. refresh k now) ks in
      let fresh' = map (λ k. refresh k now) ls in
      let sel = select-Selected now (window p) exclude fresh i s best in
      let sel' = select-Selected now (window p) exclude fresh' i s' best' in
      elim (Alike-get_elem? now (window p) fresh fresh' i
        (refreshed-Alike now (window p) ks ls h)) [
          | inl (e, e') ↦ absurd (cc (e, sel.there))
          | inr (x, y, e, e', same) ↦
              by_keys sel.key sel'.key x y (cc (e, sel.there)) (cc (e', sel'.there)) same
                (cc (there, sel.kept)) (cc (there', sel'.kept))
        ]
    where
      by_keys :
          (a b x y : KeyState)
          → a ≡ x
          → b ≡ y
          → Alike now (window p) x y
          → k ≡ (availability a now (window p)).0
          → l ≡ (availability b now (window p)).0
          → k ≡ l
      by_keys a b x y ax bx same ka lb =
          ka
          ∙ ap (λ z. (availability z now (window p)).0) ax
          ∙ ap (λ (z : KeyState × Result (Unit {0}) ℕ). z.0) same
          ∙ ap (λ z. (availability z now (window p)).0) (sym bx)
          ∙ sym lb

  tried-Same : Pairs (Same now (window p)) (tried ks).0.keys (tried ls).0.keys
  unfolding try_acquire
  tried-Same = by_result (tried ks).1 refl
    where
      by_result :
          (r : Result Lease Next)
          → (conclude fmt_instant now (choice ks).0 (choice ks).1).1 ≡ r
          → Pairs
              (Same now (window p))
              (conclude fmt_instant now (choice ks).0 (choice ks).1).0
              (conclude fmt_instant now (choice ls).0 (choice ls).1).0
      by_result (err n) e =
          let e' = sym tried-result ∙ e in
          rw
            (
              conclude-err fmt_instant now (choice ks).0 (choice ks).1 n e,
              conclude-err fmt_instant now (choice ls).0 (choice ls).1 n e',
            )
            chosen-Same
      by_result (ok lease) e =
          let e' = sym tried-result ∙ e in
          let (s, k, best, there, _, keys) =
            conclude-ok fmt_instant now (choice ks).0 (choice ks).1 lease e in
          let (s', l, best', there', _, keys') =
            conclude-ok fmt_instant now (choice ls).0 (choice ls).1 lease e' in
          let k≡l = chosen_key lease.idx s s' k l best best' there there' in
          rw (keys, keys', k≡l)
            (Pairs-set now (window p) lease.idx (mark_sent l now) (choice ks).0 (choice ls).0
              chosen-Same)

-- A history without its snapshots.
abbrev pub without_snapshots : List Event → List Event
without_snapshots [] = []
without_snapshots (acquires now exclude ∷ es) = acquires now exclude ∷ without_snapshots es
without_snapshots (records now idx outcome ∷ es) = records now idx outcome ∷ without_snapshots es
without_snapshots (snapshots now ∷ es) = without_snapshots es

-- Nothing is recorded.
abbrev pub NoRecords : List Event → Type 0
NoRecords [] = Unit
NoRecords (acquires now exclude ∷ es) = NoRecords es
NoRecords (records now idx outcome ∷ es) = ⊥
NoRecords (snapshots now ∷ es) = NoRecords es

-- The same was granted, and the keys are the same from `to` on.
abbrev Agree : Pool → ℕ → Pool × Grants → Pool × Grants → Type 0
Agree p to s s' =
    (s.1 ≡ s'.1)
    × (s.0.cfg ≡ p.cfg)
    × (s'.0.cfg ≡ p.cfg)
    × Pairs (Same to (window p)) s.0.keys s'.0.keys

module _ (format_duration fmt_instant : ℕ → Text) where
  run-Same :
      (from to : ℕ) (p : Pool) (ks ls : List KeyState) (g : Grants) (es : List Event)
      → InOrder from es to
      → NoRecords es
      → Pairs (Same from (window p)) ks ls
      → Agree p to
          (run format_duration fmt_instant (with_keys p ks, g) es)
          (run format_duration fmt_instant (with_keys p ls, g) (without_snapshots es))
  unfolding run step try_acquire snapshot
  run-Same from to p ks ls g [] order quiet h =
      (refl, refl, refl, Pairs-later from (window p) to ks ls order h)
  run-Same from to p ks ls g (records now idx outcome ∷ es) order quiet h = absurd quiet
  run-Same from to p ks ls g (snapshots now ∷ es) order quiet h =
      run-Same now to p (snapshot format_duration fmt_instant (with_keys p ks) now).0.keys ls g es
        order.1 quiet
        (Pairs-trans now (window p)
          (snapshot format_duration fmt_instant (with_keys p ks) now).0.keys ks ls
          (Pairs-sym now (window p) ks
            (snapshot format_duration fmt_instant (with_keys p ks) now).0.keys
            (survey-Same now (window p) format_duration fmt_instant ks _))
          (Pairs-later from (window p) now ks ls order.0 h))
  run-Same from to p ks ls g (acquires now exclude ∷ es) order quiet h =
      let here = Pairs-later from (window p) now ks ls order.0 h in
      let tried = λ (ms : List KeyState). try_acquire fmt_instant (with_keys p ms) now exclude in
      subst
        (λ (r : Result Lease Next).
          Agree p to
            (run format_duration fmt_instant ((tried ks).0, g ++ granted now (tried ks).1) es)
            (run format_duration fmt_instant ((tried ls).0, g ++ granted now r)
              (without_snapshots es)))
        (tried-result fmt_instant p now exclude ks ls here)
        (run-Same now to p (tried ks).0.keys (tried ls).0.keys (g ++ granted now (tried ks).1) es
          order.1 quiet (tried-Same fmt_instant p now exclude ks ls here))

  results_agree :
      (now : ℕ) (p : Pool) (exclude : List ℕ) (q q' : Pool)
      → q.cfg ≡ p.cfg
      → q'.cfg ≡ p.cfg
      → Pairs (Same now (window p)) q.keys q'.keys
      → (try_acquire fmt_instant q now exclude).1 ≡ (try_acquire fmt_instant q' now exclude).1
  results_agree now p exclude q q' cfg cfg' same =
      let result = λ (x : Pool). (try_acquire fmt_instant x now exclude).1 in
      ap (λ (c : PoolConfig). result (record q { cfg = c })) cfg
      ∙ tried-result fmt_instant p now exclude q.keys q'.keys same
      ∙ sym (ap (λ (c : PoolConfig). result (record q' { cfg = c })) cfg')

  -- Snapshots go unseen: in any pool, a history of leases and snapshots at times that do not fall,
  -- in which no outcome is recorded, grants the same keys at the same times as without its snapshots,
  -- and what `try_acquire` returns at the end of it is the same.
  pub snapshots_unseen :
      (from to : ℕ) (p : Pool) (es : List Event) (exclude : List ℕ)
      → InOrder from es to
      → NoRecords es
      → let seen = run format_duration fmt_instant (p, []) es in
        let unseen = run format_duration fmt_instant (p, []) (without_snapshots es) in
        (seen.1 ≡ unseen.1)
        × ((try_acquire fmt_instant seen.0 to exclude).1
            ≡ (try_acquire fmt_instant unseen.0 to exclude).1)
  snapshots_unseen from to p es exclude order quiet =
      let seen = run format_duration fmt_instant (p, []) es in
      let unseen = run format_duration fmt_instant (p, []) (without_snapshots es) in
      let (granted_same, cfg, cfg', same) =
        run-Same from to p p.keys p.keys [] es order quiet (Pairs-refl from (window p) p.keys) in
      (granted_same, results_agree to p exclude seen.0 unseen.0 cfg cfg' same)
