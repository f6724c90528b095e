-- ===== src/Pool/Contract/Refines.antt =====
-- src/pool.rs, `try_acquire`: it implements its abstract description.
use brave_search_api_rotator.Base.{
  ℕ, true, false, List, Option, none, some, ◌≡◌, ◌↔◌, refl, sym, ◌∙◌, ap, subst, arith, inl, inr,
  Result, ok, err, get_elem?, unwrap_or, is_some,
}
use brave_search_api_rotator.Text.{Text}
use brave_search_api_rotator.Key.{KeyState, Health, is_ok}
use brave_search_api_rotator.Key.Window.{availability, refresh}
use brave_search_api_rotator.Pool.{Pool, Lease, Next, window}
use brave_search_api_rotator.Pool.Select.{Picked, nothing_picked, summary, try_acquire}
use brave_search_api_rotator.Pool.Select.Keys.{AllAt-of_get_elem?}
use brave_search_api_rotator.Pool.Select.Selected.{select-Waits, select-Selected}
use brave_search_api_rotator.Pool.Select.Whole.{Whole, select-Whole, pick_same}
use brave_search_api_rotator.Pool.Select.Outcomes.{
  refreshed, score_at, Parked-refreshed, conclude-ok, conclude-at, conclude-unavailable,
}
use brave_search_api_rotator.Pool.Select.Promises.{
  Unhealthy, from_refreshed, chosen, window_pos, after, try_acquire-Leased, try_acquire_unavailable,
}
use brave_search_api_rotator.Pool.Select.Earliest.{NoLater}
use brave_search_api_rotator.Pool.Contract.{Candidate, Serves, Waits, Refuses, Earliest, Contract}
use brave_search_api_rotator.Pool.Contract.Decides.{Contract_unique}
use brave_search_api_rotator.Pool.Contract.Meets.{
  result, chosen-result, Waits-result, first-result, place-result, Soonest-result, least,
}

module _ (fmt_instant : ℕ → Text) (p : Pool) (now : ℕ) (exclude : List ℕ) where
  abbrev w : Whole now (window p) exclude (refreshed p now)
  w = select-Whole now (window p) exclude (refreshed p now)

  -- The keys of the pool that the choice is made from, and what the pass over them finds.
  abbrev keys : List KeyState
  keys = (chosen fmt_instant p now exclude).0

  abbrev picked : Picked
  picked = (chosen fmt_instant p now exclude).1

  picked≡ : picked ≡ result fmt_instant p now exclude w
  picked≡ = chosen-result fmt_instant p now exclude w

  serves :
      (lease : Lease) → (after fmt_instant p now exclude).1 ≡ ok lease → Serves p now exclude lease
  unfolding try_acquire
  serves lease e =
      let (s, _, best, _, _, _) = conclude-ok fmt_instant now keys picked lease e in
      let sel = select-Selected now (window p) exclude (refreshed p now) lease.idx s best in
      let (k, there, r) = from_refreshed fmt_instant p now exclude lease.idx sel.key sel.there in
      let leased = try_acquire-Leased fmt_instant p now exclude lease e in
      let same : k ≡ leased.key = ground (arith, leased.there) in
      let score : s ≡ score_at p now leased.key = sel.score ∙ rw (← r, same) refl in
      let best' : (result fmt_instant p now exclude w).best
          ≡ some (lease.idx, score_at p now leased.key) =
        ap (λ (q : Picked). q.best) (sym picked≡) ∙ (best ∙ ap (λ x. some (lease.idx, x)) score) in
      record {
        key = leased.key;
        candidate = record {
          there = leased.there;
          allowed = place-result fmt_instant p now exclude w lease.idx _ best';
        };
        usable = leased.usable;
        names = ground (arith, leased.token, leased.label);
        first = first-result fmt_instant p now exclude w lease.idx leased.key best';
      }

  next_time : (o : Option ℕ) → is_some o ≡ true → o ≡ some (unwrap_or o now)
  next_time none h = absurd cc
  next_time (some t) h = refl

  waits : (t : ℕ) → (after fmt_instant p now exclude).1 ≡ err (Next.at t) → Waits p now exclude t
  unfolding try_acquire
  waits t e = elim (conclude-at fmt_instant now keys picked t e) [
    | inr (i, s, best, outside) ↦
        let sel = select-Selected now (window p) exclude (refreshed p now) i s best in
        absurd (cc (outside, sel.kept))
    | inl (best, healthy, t≡) ↦
        let ahead =
          select-Waits now (window p) exclude (refreshed p now)
            (window_pos fmt_instant p now exclude) (Parked-refreshed p now) in
        let some_next : is_some picked.next ≡ true = ground (arith, ahead.progress healthy) in
        let next : picked.next ≡ some t = next_time picked.next some_next ∙ ap some (sym t≡) in
        Waits-result fmt_instant p now exclude w t
          (ap (λ (q : Picked). q.best) (sym picked≡) ∙ best)
          (ap (λ (q : Picked). q.any_healthy) (sym picked≡) ∙ healthy)
          (ap (λ (q : Picked). q.next) (sym picked≡) ∙ next)
  ]

  unhealthy_busy :
      (k : KeyState)
      → is_ok k.health ≡ false
      → (u : ℕ) × ((availability k now (window p)).1 ≡ err u)
  unfolding availability
  unhealthy_busy k sick = by_health k.health refl
    where
      by_health :
          (h : Health) → k.health ≡ h → (u : ℕ) × ((availability k now (window p)).1 ≡ err u)
      by_health Health.ok e = absurd (ground arith)
      by_health (Health.disabled until reason) e = (until, rw (e, availability) refl)
      by_health (Health.exhausted until) e = (until, rw (e, availability) refl)

  module _ (sick : (j : ℕ) (k : KeyState) → get_elem? p.keys j ≡ some k → Unhealthy now k) where
    Earliest-result :
        (o : Option ℕ) → (result fmt_instant p now exclude w).next ≡ o → Earliest p now exclude o
    Earliest-result (some t) e = Soonest-result fmt_instant p now exclude w t e
    Earliest-result none e = λ j k there.
        let (u, busy) = unhealthy_busy (refresh k now) (sick j k there) in
        let here : Candidate p now exclude j k = record {
          there = there;
          allowed = inr (λ i l at _. sick i l at);
        } in
        subst (λ (o : Option ℕ). NoLater o (some u)) e
          (least fmt_instant p now exclude w j k u here busy)

    unchanged : keys ≡ refreshed p now
    unchanged =
        ap (λ (r : List KeyState × Picked). r.0) w.same
        ∙ pick_same now (window p) w.skip 0 (refreshed p now) nothing_picked (
            AllAt-of_get_elem? _ 0 (refreshed p now) (λ j k e _.
              let (k₀, there, r) = from_refreshed fmt_instant p now exclude j k e in
              subst (λ (x : KeyState). is_ok x.health ≡ false) r (sick j k₀ there)))

  refuses :
      (earliest : Option ℕ) (text : Text)
      → (after fmt_instant p now exclude).1 ≡ err (Next.unavailable earliest text)
      → Refuses p now exclude fmt_instant earliest text
  unfolding try_acquire
  refuses earliest text e =
      let sick = (try_acquire_unavailable fmt_instant p now exclude).0 (earliest, text, e) in
      let (_, _, next, summed) = conclude-unavailable fmt_instant now keys picked earliest text e in
      record {
        sick = sick;
        soonest =
            Earliest-result sick earliest (ap (λ (q : Picked). q.next) (sym picked≡) ∙ sym next);
        summed = summed ∙ ap (summary fmt_instant) (unchanged sick);
      }

  meets :
      (r : Result Lease Next)
      → (after fmt_instant p now exclude).1 ≡ r
      → Contract p now exclude fmt_instant r
  meets (ok lease) e = serves lease e
  meets (err (Next.at t)) e = waits t e
  meets (err (Next.unavailable earliest text)) e = refuses earliest text e

  -- `try_acquire` returns exactly the one result that the abstract description allows: the lease of
  -- the usable candidate that comes first (used longest ago, then most quota left, then first in
  -- the list); or, when a candidate is healthy and none is usable, the first instant at which one
  -- may be; or, when no key is healthy, the first instant at which one may be, if there are keys,
  -- with the summary of all keys. Candidates are the keys that the caller does not exclude, and all
  -- keys when those are all disabled or exhausted.
  pub try_acquire-Contract :
      (r : Result Lease Next)
      → ((try_acquire fmt_instant p now exclude).1 ≡ r) ↔ Contract p now exclude fmt_instant r
  try_acquire-Contract r =
      (meets r, λ c. Contract_unique p now exclude fmt_instant _ r (meets _ refl) c)
