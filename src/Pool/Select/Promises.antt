-- ===== src/Pool/Select/Promises.antt =====
-- src/pool.rs, `try_acquire`: what it promises to its caller.
use brave_search_api_rotator.Base.{
  refl, sym, sym, ◌≤◌, ◌⊎◌, ltb, ltb→lt, inl, inr, Bool-cases, ℕ, ◌<◌, true, false, List, Option,
  none, some, get_elem?, ◌≡◌, subst, ◌∙◌, ap, arith, inl, inr, ◌↔◌, Result, ok, err, contains,
  Option-cases, get_elem?-set_self, get_elem?-lt,
}
use brave_search_api_rotator.Text.{Text}
use brave_search_api_rotator.Key.{KeyState, is_ok}
use brave_search_api_rotator.Key.Quota.{month_remaining_for_ranking}
use brave_search_api_rotator.Key.Window.{availability, refresh}
use brave_search_api_rotator.Key.Window.Availability.{availability_keeps}
use brave_search_api_rotator.Pool.{Pool, Lease, Next, window}
use brave_search_api_rotator.Pool.Select.{
  Score, score_lt, Picked, select, try_acquire, mark_sent, summary,
}
use brave_search_api_rotator.Pool.Select.Keys.{
  AllAt, AllAt-get_elem?, AllAt-of_get_elem?, get_elem?-map,
}
use brave_search_api_rotator.Pool.Select.Selected.{
  Selected, select-Selected, select-Waits, select_unhealthy, select_saw_all,
}
use brave_search_api_rotator.Pool.Select.Outcomes.{
  refreshed, get_elem?-refreshed, score_at, Leased, refresh_keeps, Parked-refreshed, conclude_idle,
  conclude-ok, conclude-at, conclude-unavailable,
}

-- The key is disabled or exhausted at `now`.
abbrev pub Unhealthy : ℕ → KeyState → Type 0
Unhealthy now k = is_ok (refresh k now).health ≡ false

-- The monthly quota by which the key is ranked at `now`.
abbrev pub quota_left : KeyState → ℕ → ℕ
quota_left k now = month_remaining_for_ranking (refresh k now)

-- A key never used comes before one used, and an earlier use before a later one.
abbrev pub UsedBefore : Option ℕ → Option ℕ → Type 0
UsedBefore none none = ⊥
UsedBefore none (some b) = Unit
UsedBefore (some a) none = ⊥
UsedBefore (some a) (some b) = a < b

pub not_score_lt :
    (s t : Score)
    → score_lt s t ≡ false
    → UsedBefore t.last_used s.last_used
      ⊎ ((t.last_used ≡ s.last_used) × (s.remaining ≤ t.remaining))
not_score_lt s t h = by_use s.last_used t.last_used refl refl
  where
    by_use :
        (a b : Option ℕ)
        → s.last_used ≡ a
        → t.last_used ≡ b
        → UsedBefore t.last_used s.last_used
          ⊎ ((t.last_used ≡ s.last_used) × (s.remaining ≤ t.remaining))
    by_use none none e f = inr (f ∙ sym e, ground arith)
    by_use none (some b) e f = absurd (ground arith)
    by_use (some a) none e f = rw (e, f) (inl tt)
    by_use (some a) (some b) e f = elim (Bool-cases (ltb b a)) [
      | inl before ↦ rw (e, f) (inl (ltb→lt b a before))
      | inr after ↦ inr (ground arith, ground arith)
    ]

availability-ranking :
    (k : KeyState) (now window : ℕ)
    → month_remaining_for_ranking (availability k now window).0 ≡ month_remaining_for_ranking k
unfolding availability month_remaining_for_ranking
availability-ranking k now window = ground arith

refresh-last_used : (k : KeyState) (now : ℕ) → (refresh k now).last_used ≡ k.last_used
unfolding refresh
refresh-last_used k now = ground arith

pub score_at_key :
    (p : Pool) (now : ℕ) (k : KeyState)
    → ((score_at p now k).last_used ≡ k.last_used)
      × ((score_at p now k).remaining ≡ quota_left k now)
score_at_key p now k =
    let ranking = availability-ranking (refresh k now) now (window p) in
    let kept = availability_keeps (refresh k now) now (window p) in
    (kept.1 ∙ refresh-last_used k now, ranking)

module _ (fmt_instant : ℕ → Text) (p : Pool) (now : ℕ) (exclude : List ℕ) where
  abbrev pub after : Pool × Result Lease Next
  after = try_acquire fmt_instant p now exclude

  abbrev pub chosen : List KeyState × Picked
  chosen = select now (window p) exclude (refreshed p now)

  -- The selected key of the refreshed pool, as a key of the pool.
  pub from_refreshed :
      (j : ℕ) (k : KeyState)
      → get_elem? (refreshed p now) j ≡ some k
      → (k₀ : KeyState) × (get_elem? p.keys j ≡ some k₀) × (refresh k₀ now ≡ k)
  from_refreshed j k e = elim (Option-cases (get_elem? p.keys j)) [
    | inl missing ↦ absurd (ground (arith, get_elem?-map (λ k. refresh k now) p.keys j))
    | inr (k₀, there) ↦ (k₀, there, ground (arith, get_elem?-refreshed p now j k₀ there))
  ]

  pub lease-Selected :
      (lease : Lease)
      → after.1 ≡ ok lease
      → (s : Score) × (sel : Selected now (window p) exclude (refreshed p now) lease.idx s chosen.0)
        × (k : KeyState) × (get_elem? p.keys lease.idx ≡ some k)
        × (refresh k now ≡ sel.key)
  unfolding try_acquire
  lease-Selected lease e =
      let (s, k, best, there, same, keys) = conclude-ok fmt_instant now chosen.0 chosen.1 lease e in
      let sel = select-Selected now (window p) exclude (refreshed p now) lease.idx s best in
      let (k₀, there₀, r) = from_refreshed lease.idx sel.key sel.there in (s, sel, k₀, there₀, r)

  -- A lease names a key of the pool that is healthy, not held, and has room in its window, with that key's
  -- token and label; the send is noted on exactly that key.
  pub try_acquire-Leased : (lease : Lease) → after.1 ≡ ok lease → Leased p now lease after.0
  unfolding try_acquire
  try_acquire-Leased lease e =
      let (s, k, best, there, same, keys) = conclude-ok fmt_instant now chosen.0 chosen.1 lease e in
      let (_, sel, k₀, there₀, r) = lease-Selected lease e in
      let free = (availability sel.key now (window p)).0 in
      let k≡ : k ≡ free = ground (arith, sel.kept) in
      let kept = availability_keeps sel.key now (window p) in
      let names = refresh_keeps k₀ now in
      record {
        key = k₀;
        there = there₀;
        usable = rw r sel.free;
        token = ground (arith, kept, names);
        label = ground (arith, kept, names);
        noted =
            rw (keys, r)
              (get_elem?-set_self chosen.0 lease.idx (mark_sent k now)
                  (get_elem?-lt chosen.0 lease.idx k there)
                ∙ ap (λ x. some (mark_sent x now)) k≡);
      }

  -- A key that the caller excludes is leased only while every other key is disabled or exhausted.
  pub try_acquire_excluded :
      (lease : Lease) (j : ℕ) (k : KeyState)
      → after.1 ≡ ok lease
      → contains exclude lease.idx ≡ true
      → get_elem? p.keys j ≡ some k
      → contains exclude j ≡ false
      → Unhealthy now k
  try_acquire_excluded lease j k e again there other =
      let (_, sel, _, _, _) = lease-Selected lease e in
      AllAt-get_elem? _ 0 (refreshed p now) j j (refresh k now) (sel.turn again) (omega arith)
        (get_elem?-refreshed p now j k there) other

  pub window_pos : 0 < window p
  window_pos = omega arith

  -- A wait is always for an instant ahead, so a caller that sleeps until then makes progress.
  pub try_acquire-at_later : (t : ℕ) → after.1 ≡ err (Next.at t) → now < t
  unfolding try_acquire
  try_acquire-at_later t e = elim (conclude-at fmt_instant now chosen.0 chosen.1 t e) [
    | inr (i, s, best, outside) ↦
        let sel = select-Selected now (window p) exclude (refreshed p now) i s best in
        cc (outside, sel.kept)
    | inl (best, healthy, t≡) ↦
        let waits =
          select-Waits now (window p) exclude (refreshed p now) window_pos
            (Parked-refreshed p now) in
        ground (arith, waits, waits.progress healthy)
  ]

  select_idle :
      AllAt (λ j k. is_ok k.health ≡ false) 0 (refreshed p now)
      → (chosen.1.best ≡ none) × (chosen.1.any_healthy ≡ false)
  select_idle sick = select_unhealthy now (window p) exclude (refreshed p now) sick

  -- The pool is reported unavailable exactly when every one of its keys is disabled or exhausted,
  -- whatever the caller excludes.
  pub try_acquire_unavailable :
      ((earliest : Option ℕ) × (text : Text) × (after.1 ≡ err (Next.unavailable earliest text)))
      ↔ ((j : ℕ) (k : KeyState) → get_elem? p.keys j ≡ some k → Unhealthy now k)
  unfolding try_acquire
  try_acquire_unavailable = (only, always)
    where
      only :
          ((earliest : Option ℕ) × (text : Text) × (after.1 ≡ err (Next.unavailable earliest text)))
          → (j : ℕ) (k : KeyState) → get_elem? p.keys j ≡ some k
          → Unhealthy now k
      only (earliest, text, e) j k there =
          let (best, idle, _, _) =
            conclude-unavailable fmt_instant now chosen.0 chosen.1 earliest text e in
          select_saw_all now (window p) exclude (refreshed p now) best idle j (refresh k now)
            (get_elem?-refreshed p now j k there)

      always :
          ((j : ℕ) (k : KeyState) → get_elem? p.keys j ≡ some k → Unhealthy now k)
          → (earliest : Option ℕ) × (text : Text) × (after.1 ≡ err (Next.unavailable earliest text))
      always sick =
          let (best, idle) = select_idle (
            AllAt-of_get_elem? _ 0 (refreshed p now) (λ j k e.
              let (k₀, there, r) = from_refreshed j k e in
              subst (λ (x : KeyState). is_ok x.health ≡ false) r (sick j k₀ there))) in
          (
            chosen.1.next,
            summary fmt_instant chosen.0,
            conclude_idle fmt_instant now chosen.0 chosen.1 best idle,
          )
