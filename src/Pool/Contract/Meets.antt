-- ===== src/Pool/Contract/Meets.antt =====
-- src/pool.rs, `try_acquire`: what its pass finds, in the words of the abstract description.
use brave_search_api_rotator.Base.{
  ℕ, ◌+◌, ◌<◌, true, false, List, Option, none, some, ◌≡◌, ◌≢◌, refl, sym, ◌∙◌, ap, subst, arith,
  ◌⊎◌, inl, inr, ok, err, ltb, ltb→lt, not-ltb→le, Bool-cases,
}
use brave_search_api_rotator.Text.{Text}
use brave_search_api_rotator.Key.{KeyState, is_ok}
use brave_search_api_rotator.Key.Window.{availability, refresh}
use brave_search_api_rotator.Pool.{Pool, window}
use brave_search_api_rotator.Pool.Select.{Score, score_lt, Picked, nothing_picked, pick}
use brave_search_api_rotator.Pool.Select.Keys.{AllAt, AllAt-get_elem?, AllAt-of_get_elem?}
use brave_search_api_rotator.Pool.Select.Best.{pick_minimal}
use brave_search_api_rotator.Pool.Select.First.{pick-Earlier}
use brave_search_api_rotator.Pool.Select.Earliest.{NoLater, pick-NoLater, pick-Source, pick-Healthy}
use brave_search_api_rotator.Pool.Select.Passes.{pick-Origin}
use brave_search_api_rotator.Pool.Select.Whole.{Considered, Whole}
use brave_search_api_rotator.Pool.Select.Outcomes.{refreshed, get_elem?-refreshed, Usable, score_at}
use brave_search_api_rotator.Pool.Select.Promises.{
  UsedBefore, not_score_lt, score_at_key, from_refreshed, chosen, after,
}
use brave_search_api_rotator.Pool.Contract.{Preferred, Allowed, Busy, Candidate, Soonest, Waits}

score_lt_means :
    (s t : Score)
    → score_lt s t ≡ true
    → UsedBefore s.last_used t.last_used
      ⊎ ((s.last_used ≡ t.last_used) × (t.remaining < s.remaining))
score_lt_means s t h = by_use s.last_used t.last_used refl refl
  where
    by_use :
        (a b : Option ℕ)
        → s.last_used ≡ a
        → t.last_used ≡ b
        → UsedBefore s.last_used t.last_used
          ⊎ ((s.last_used ≡ t.last_used) × (t.remaining < s.remaining))
    by_use none none e f = inr (e ∙ sym f, ground arith)
    by_use none (some b) e f = rw (e, f) (inl tt)
    by_use (some a) none e f = absurd (ground arith)
    by_use (some a) (some b) e f = elim (Bool-cases (ltb a b)) [
      | inl before ↦ rw (e, f) (inl (ltb→lt a b before))
      | inr after ↦ inr (ground arith, ground arith)
    ]

-- The order by scores, and by index among equal ones, is the one of the description.
Preferred-scores :
    (p : Pool) (now i : ℕ) (k : KeyState) (j : ℕ) (l : KeyState)
    → j ≢ i
    → score_lt (score_at p now l) (score_at p now k) ≡ false
    → (j < i → score_lt (score_at p now k) (score_at p now l) ≡ true)
    → Preferred now i k j l
Preferred-scores p now i k j l apart no_worse earlier = elim (Bool-cases (ltb j i)) [
  | inl before ↦ ground (
    arith,
    score_lt_means (score_at p now k) (score_at p now l) (earlier (ltb→lt j i before)),
    score_at_key p now k,
    score_at_key p now l,
  )
  | inr behind ↦
      let le = not-ltb→le j i behind in
      ground (
        arith,
        le,
        not_score_lt (score_at p now l) (score_at p now k) no_worse,
        score_at_key p now k,
        score_at_key p now l,
      )
]

module _ (fmt_instant : ℕ → Text) (p : Pool) (now : ℕ) (exclude : List ℕ) where
  -- Which keys may be handed out, as the passes and as the description have it.
  to_pool : (j : ℕ) → Considered exclude (refreshed p now) j → Allowed p now exclude j
  to_pool j (inl other) = inl other
  to_pool j (inr others) = inr (λ i k there other.
      AllAt-get_elem? _ 0 (refreshed p now) i i (refresh k now) others (omega arith)
        (get_elem?-refreshed p now i k there) other)

  to_pass : (j : ℕ) → Allowed p now exclude j → Considered exclude (refreshed p now) j
  to_pass j (inl other) = inl other
  to_pass j (inr others) = inr (
      AllAt-of_get_elem? _ 0 (refreshed p now) (λ i k e other.
        let (k₀, there, r) = from_refreshed fmt_instant p now exclude i k e in
        let i≡ : 0 + i ≡ i = omega arith in
        subst (λ (x : KeyState). is_ok x.health ≡ false) r (others i k₀ there (rw i≡ at other))))

  module _ (w : Whole now (window p) exclude (refreshed p now)) where
    abbrev pub result : Picked
    result = (pick now (window p) w.skip 0 (refreshed p now) nothing_picked).1

    pub chosen-result : (chosen fmt_instant p now exclude).1 ≡ result
    chosen-result = ap (λ (r : List KeyState × Picked). r.1) w.same

    allowed : (j : ℕ) → w.skip (0 + j) ≡ false → Allowed p now exclude j
    allowed j used = let j≡ : 0 + j ≡ j = omega arith in to_pool j ((w.used j).0 (rw j≡ at used))

    -- What holds of every key that the pass takes holds of every candidate.
    of_candidate {ℓ} :
        (P : ℕ → KeyState → Type ℓ)
        → AllAt (λ j k. w.skip j ≡ false → P j k) 0 (refreshed p now)
        → (j : ℕ) (k : KeyState) → Candidate p now exclude j k
        → P j (refresh k now)
    of_candidate P h j k c =
        AllAt-get_elem? _ 0 (refreshed p now) j j (refresh k now) h (omega arith)
          (get_elem?-refreshed p now j k c.there) ((w.used j).1 (to_pass j c.allowed))

    -- No candidate is free before the wait that the pass reports.
    pub least :
        (j : ℕ) (k : KeyState) (u : ℕ)
        → Candidate p now exclude j k
        → Busy p now exclude k u
        → NoLater result.next (some u)
    least j k u c busy =
        of_candidate
          (λ i x.
            (v : ℕ) → (availability x now (window p)).1 ≡ err v → NoLater result.next (some v))
          ((pick-NoLater now (window p) w.skip 0 (refreshed p now) nothing_picked).1) j k c u busy

    pub Soonest-result : (t : ℕ) → result.next ≡ some t → Soonest p now exclude t
    Soonest-result t e =
        elim (pick-Source now (window p) w.skip 0 (refreshed p now) nothing_picked t e) [
          | inl old ↦ absurd cc
          | inr s ↦
              let (k, there, same) =
                from_refreshed fmt_instant p now exclude s.place s.key s.there in
              record {
                index = s.place;
                key = k;
                candidate = record { there = there; allowed = allowed s.place s.used };
                busy = rw same s.busy;
                first = λ j l u c busy.
                    subst (λ (o : Option ℕ). NoLater o (some u)) e (least j l u c busy);
              }
        ]

    none-Usable-result :
        result.best ≡ none
        → (j : ℕ) (k : KeyState) → Candidate p now exclude j k
        → Usable p now k
        → ⊥
    none-Usable-result e j k c usable =
        of_candidate (λ i x. (availability x now (window p)).1 ≡ ok tt → ⊥)
          (pick_minimal now (window p) w.skip 0 (refreshed p now) nothing_picked none e) j k c
          usable

    pub Waits-result :
        (t : ℕ)
        → result.best ≡ none
        → result.any_healthy ≡ true
        → result.next ≡ some t
        → Waits p now exclude t
    Waits-result t best healthy next =
        elim (pick-Healthy now (window p) w.skip 0 (refreshed p now) nothing_picked healthy) [
          | inl old ↦ absurd cc
          | inr s ↦
              let (k, there, same) =
                from_refreshed fmt_instant p now exclude s.place s.key s.there in
              record {
                index = s.place;
                key = k;
                candidate = record { there = there; allowed = allowed s.place s.used };
                healthy = rw same s.fine;
                none_usable = none-Usable-result best;
                soonest = Soonest-result t next;
              }
        ]

    pub first-result :
        (b : ℕ) (c : KeyState)
        → result.best ≡ some (b, score_at p now c)
        → (j : ℕ) (k : KeyState) → Candidate p now exclude j k
        → Usable p now k
        → j ≢ b
        → Preferred now b c j k
    first-result b c e j k here usable apart =
        Preferred-scores p now b c j k apart
          (of_candidate _
            (pick_minimal now (window p) w.skip 0 (refreshed p now) nothing_picked _ e) j k here
            usable)
          (of_candidate _
            ((pick-Earlier now (window p) w.skip 0 (refreshed p now) nothing_picked b _ tt e).0) j k
            here usable)

    pub place-result : (b : ℕ) (s : Score) → result.best ≡ some (b, s) → Allowed p now exclude b
    place-result b s e =
        elim (pick-Origin now (window p) w.skip 0 (refreshed p now) nothing_picked b s e) [
          | inl old ↦ absurd cc
          | inr o ↦ to_pool b ((w.used b).0 o.used)
        ]
