-- ===== src/Pool/Select/Earliest.antt =====
-- src/pool.rs, the closure `pick`: the wait that a pass reports is the least of its keys' waits.
use brave_search_api_rotator.Base.{
  ℕ, suc, ◌+◌, ◌≤◌, ◌⊎◌, Bool, true, false, List, [], ◌∷◌, Option, none, some, ◌≡◌, refl, arith,
  Bool-cases, inl, inr, Result, ok, err, get_elem?, subst, sym, ap, ◌∙◌, ◌||◌, ltb, ltb→lt,
  not-ltb→le,
}
use brave_search_api_rotator.Key.{KeyState, is_ok}
use brave_search_api_rotator.Key.Window.{availability}
use brave_search_api_rotator.Pool.Select.{Picked, sooner, consider, pick}
use brave_search_api_rotator.Pool.Select.Keys.{AllAt}
use brave_search_api_rotator.Pool.Select.Waits.{consider-any_healthy}

-- The first wait is no later than the second one.
abbrev pub NoLater : Option ℕ → Option ℕ → Type 0
NoLater t none = Unit
NoLater none (some v) = ⊥
NoLater (some t) (some v) = t ≤ v

NoLater-refl : (t : Option ℕ) → NoLater t t
NoLater-refl none = tt
NoLater-refl (some t) = omega arith

NoLater-trans : (t u v : Option ℕ) → NoLater t u → NoLater u v → NoLater t v
NoLater-trans t u none g h = tt
NoLater-trans t none (some v) g h = absurd h
NoLater-trans none (some u) (some v) g h = g
NoLater-trans (some t) (some u) (some v) g h = omega arith

module _ (now window : ℕ) (skip : ℕ → Bool) where
  -- A busy key of the pass whose wait is `t`.
  pub record Source (i : ℕ) (ks : List KeyState) (t : ℕ) : Type 0 where
    pub place : ℕ
    pub key : KeyState
    pub there : get_elem? ks place ≡ some key
    pub used : skip (i + place) ≡ false
    pub busy : (availability key now window).1 ≡ err t

  -- No busy key of the pass has a wait before `t`.
  abbrev pub NotSooner : Option ℕ → ℕ → KeyState → Type 0
  NotSooner t j k =
      skip j ≡ false → (u : ℕ) → (availability k now window).1 ≡ err u → NoLater t (some u)

  consider-next_free :
      (i : ℕ) (k : KeyState) (p : Picked)
      → (availability k now window).1 ≡ ok tt
      → (consider now window i k p).1.next ≡ p.next
  unfolding consider
  consider-next_free i k p free = ground arith

  consider-next_busy :
      (i : ℕ) (k : KeyState) (p : Picked) (u : ℕ)
      → (availability k now window).1 ≡ err u
      → (consider now window i k p).1.next ≡ some (sooner p.next u)
  unfolding consider
  consider-next_busy i k p u busy = ground arith

  NoLater-sooner :
      (o : Option ℕ) (u : ℕ) → NoLater (some (sooner o u)) o × NoLater (some (sooner o u)) (some u)
  NoLater-sooner none u = (tt, omega arith)
  NoLater-sooner (some n) u = (omega arith, omega arith)

  consider-NoLater :
      (i : ℕ) (k : KeyState) (p : Picked)
      → NoLater (consider now window i k p).1.next p.next
        × ((u : ℕ)
            → (availability k now window).1 ≡ err u
            → NoLater (consider now window i k p).1.next (some u))
  consider-NoLater i k p = by_avail (availability k now window).1 refl
    where
      by_avail :
          (r : Result (Unit {0}) ℕ)
          → (availability k now window).1 ≡ r
          → NoLater (consider now window i k p).1.next p.next
            × ((u : ℕ)
                → (availability k now window).1 ≡ err u
                → NoLater (consider now window i k p).1.next (some u))
      by_avail (ok _) free = (
        rw (consider-next_free i k p free) (NoLater-refl p.next),
        λ u busy. absurd (ground arith),
      )
      by_avail (err t) busy =
          let (old, here) = NoLater-sooner p.next t in
          (
            rw (consider-next_busy i k p t busy) old,
            λ u busy'.
                let t≡u : t ≡ u = ground arith in rw (consider-next_busy i k p t busy, ← t≡u) here,
          )

  -- What a pass finds, from the pass of the rest.
  pub pick_skipped :
      (i : ℕ) (k : KeyState) (ks : List KeyState) (p : Picked)
      → skip i ≡ true
      → (pick now window skip i (k ∷ ks) p).1 ≡ (pick now window skip (suc i) ks p).1
  unfolding pick
  pick_skipped i k ks p skipped = rw skipped refl

  pub pick_used :
      (i : ℕ) (k : KeyState) (ks : List KeyState) (p : Picked)
      → skip i ≡ false
      → (pick now window skip i (k ∷ ks) p).1
        ≡ (pick now window skip (suc i) ks (consider now window i k p).1).1
  unfolding pick
  pick_used i k ks p used = rw used refl

  abbrev LeastWait : ℕ → List KeyState → Picked → Picked → Type 0
  LeastWait i ks p r = NoLater r.next p.next × AllAt (NotSooner r.next) i ks

  pub pick-NoLater :
      (i : ℕ) (ks : List KeyState) (p : Picked)
      → NoLater (pick now window skip i ks p).1.next p.next
        × AllAt (NotSooner (pick now window skip i ks p).1.next) i ks
  unfolding pick
  pick-NoLater i [] p = (NoLater-refl p.next, tt)
  pick-NoLater i (k ∷ ks) p = elim (Bool-cases (skip i)) [
    | inl skipped ↦
        let (old, rest) = pick-NoLater (suc i) ks p in
        subst (LeastWait i (k ∷ ks) p) (sym (pick_skipped i k ks p skipped))
          (old, ((λ used u busy. absurd cc), rest))
    | inr used ↦
        let q = (consider now window i k p).1 in
        let (old, rest) = pick-NoLater (suc i) ks q in
        let (before, here) = consider-NoLater i k p in
        subst (LeastWait i (k ∷ ks) p) (sym (pick_used i k ks p used)) (
          NoLater-trans _ q.next p.next old before,
          ((λ _ u busy. NoLater-trans _ q.next (some u) old (here u busy)), rest),
        )
  ]

  deeper :
      (i : ℕ) (k : KeyState) (ks : List KeyState) (t : ℕ)
      → Source (suc i) ks t
      → Source i (k ∷ ks) t
  deeper i k ks t s =
      let e : i + suc s.place ≡ suc i + s.place = omega arith in
      record {
        place = suc s.place;
        key = s.key;
        there = s.there;
        used = rw e s.used;
        busy = s.busy;
      }

  sooner-cases : (o : Option ℕ) (u t : ℕ) → sooner o u ≡ t → (o ≡ some t) ⊎ (u ≡ t)
  sooner-cases none u t e = inr e
  sooner-cases (some n) u t e = elim (Bool-cases (ltb n u)) [
    | inl before ↦
        let lt = ltb→lt n u before in let same : n ≡ t = omega arith in inl (ap some same)
    | inr behind ↦ let le = not-ltb→le n u behind in inr (omega arith)
  ]

  consider-Source :
      (i : ℕ) (k : KeyState) (ks : List KeyState) (p : Picked) (t : ℕ)
      → skip i ≡ false
      → (consider now window i k p).1.next ≡ some t
      → (p.next ≡ some t) ⊎ Source i (k ∷ ks) t
  consider-Source i k ks p t used e = by_avail (availability k now window).1 refl
    where
      by_avail :
          (r : Result (Unit {0}) ℕ)
          → (availability k now window).1 ≡ r
          → (p.next ≡ some t) ⊎ Source i (k ∷ ks) t
      by_avail (ok _) free = inl (sym (consider-next_free i k p free) ∙ e)
      by_avail (err u) busy =
          let at : sooner p.next u ≡ t = ground (arith, consider-next_busy i k p u busy) in
          elim (sooner-cases p.next u t at) [
            | inl old ↦ inl old
            | inr same ↦
                let e₀ : i + 0 ≡ i = omega arith in
                inr (record {
                  place = 0;
                  key = k;
                  there = refl;
                  used = rw e₀ used;
                  busy = busy ∙ ap err same;
                })
          ]

  pub pick-Source :
      (i : ℕ) (ks : List KeyState) (p : Picked) (t : ℕ)
      → (pick now window skip i ks p).1.next ≡ some t
      → (p.next ≡ some t) ⊎ Source i ks t
  unfolding pick
  pick-Source i [] p t e = inl e
  pick-Source i (k ∷ ks) p t e = elim (Bool-cases (skip i)) [
    | inl skipped ↦ elim (pick-Source (suc i) ks p t (rw skipped at e)) [
      | inl old ↦ inl old
      | inr s ↦ inr (deeper i k ks t s)
    ]
    | inr used ↦ elim (pick-Source (suc i) ks (consider now window i k p).1 t (rw used at e)) [
      | inl here ↦ consider-Source i k ks p t used here
      | inr s ↦ inr (deeper i k ks t s)
    ]
  ]

  -- A healthy key of the pass.
  pub record Healthy (i : ℕ) (ks : List KeyState) : Type 0 where
    pub place : ℕ
    pub key : KeyState
    pub there : get_elem? ks place ≡ some key
    pub used : skip (i + place) ≡ false
    pub fine : is_ok key.health ≡ true

  deeper-Healthy :
      (i : ℕ) (k : KeyState) (ks : List KeyState) → Healthy (suc i) ks → Healthy i (k ∷ ks)
  deeper-Healthy i k ks s =
      let e : i + suc s.place ≡ suc i + s.place = omega arith in
      record {
        place = suc s.place;
        key = s.key;
        there = s.there;
        used = rw e s.used;
        fine = s.fine;
      }

  consider-Healthy :
      (i : ℕ) (k : KeyState) (ks : List KeyState) (p : Picked)
      → skip i ≡ false
      → (consider now window i k p).1.any_healthy ≡ true
      → (p.any_healthy ≡ true) ⊎ Healthy i (k ∷ ks)
  consider-Healthy i k ks p used e = elim (Bool-cases (is_ok k.health)) [
    | inl fine ↦
        let e₀ : i + 0 ≡ i = omega arith in
        inr (record { place = 0; key = k; there = refl; used = rw e₀ used; fine = fine })
    | inr bad ↦
        let both : (is_ok k.health || p.any_healthy) ≡ true =
          sym (consider-any_healthy now window skip i k p) ∙ e in
        inl (ground (arith, both, bad))
  ]

  -- A pass that saw a healthy key has one among its keys.
  pub pick-Healthy :
      (i : ℕ) (ks : List KeyState) (p : Picked)
      → (pick now window skip i ks p).1.any_healthy ≡ true
      → (p.any_healthy ≡ true) ⊎ Healthy i ks
  unfolding pick
  pick-Healthy i [] p e = inl e
  pick-Healthy i (k ∷ ks) p e = elim (Bool-cases (skip i)) [
    | inl skipped ↦ elim (pick-Healthy (suc i) ks p (rw skipped at e)) [
      | inl old ↦ inl old
      | inr s ↦ inr (deeper-Healthy i k ks s)
    ]
    | inr used ↦ elim (pick-Healthy (suc i) ks (consider now window i k p).1 (rw used at e)) [
      | inl here ↦ consider-Healthy i k ks p used here
      | inr s ↦ inr (deeper-Healthy i k ks s)
    ]
  ]
