-- ===== src/Pool/Select/Waits.antt =====
-- src/pool.rs, the closure `pick`: how long a pass says to wait, and which keys it saw healthy.
use brave_search_api_rotator.Base.{
  ℕ, suc, ◌<◌, Bool, true, false, ◌||◌, List, [], ◌∷◌, Option, none, some, ◌≡◌, refl, ◌∙◌, arith,
  Bool-cases, inl, inr, Result, ok, err, is_some,
}
use brave_search_api_rotator.Key.{KeyState, is_ok}
use brave_search_api_rotator.Key.Window.{availability}
use brave_search_api_rotator.Key.Window.Availability.{
  Parked, Later, availability-Later, availability_healthy,
}
use brave_search_api_rotator.Pool.Select.{Picked, note, consider, pick, nothing_picked}
use brave_search_api_rotator.Pool.Select.Keys.{AllAt}

abbrev pub LaterThan : ℕ → Option ℕ → Type 0
LaterThan now none = Unit
LaterThan now (some t) = now < t

-- The time to wait for lies ahead, and a pass that saw a healthy key has a key or a time.
pub record Waits (now : ℕ) (p : Picked) : Type 0 where
  pub later : LaterThan now p.next
  pub progress : p.any_healthy ≡ true → (is_some p.best || is_some p.next) ≡ true

pub nothing-Waits : (now : ℕ) → Waits now nothing_picked
nothing-Waits now = record { later = tt; progress = λ e. cc }

module _ (now window : ℕ) (skip : ℕ → Bool) where
  consider-Waits :
      (i : ℕ) (k : KeyState) (p : Picked)
      → 0 < window
      → Parked now k.health
      → Waits now p
      → Waits now (consider now window i k p).1
  unfolding consider
  consider-Waits i k p w parked waits =
      by_result (availability k now window).1 (availability-Later k now window w parked)
    where
      by_result :
          (r : Result (Unit {0}) ℕ)
          → Later now r
          → Waits now (
              note r i
                (availability k now window).0
                (record p { any_healthy = is_ok k.health || p.any_healthy }))
      by_result (ok _) l = ground arith
      by_result (err t) l = ground arith

  pub pick-Waits :
      (i : ℕ) (ks : List KeyState) (p : Picked)
      → 0 < window
      → AllAt (λ j k. Parked now k.health) i ks
      → Waits now p
      → Waits now (pick now window skip i ks p).1
  unfolding pick
  pick-Waits i [] p w parked waits = waits
  pick-Waits i (k ∷ ks) p w parked waits = elim (Bool-cases (skip i)) [
    | inl skipped ↦ rw skipped (pick-Waits (suc i) ks p w parked.1 waits)
    | inr used ↦ rw used (
        pick-Waits (suc i) ks (consider now window i k p).1 w parked.1
          (consider-Waits i k p w parked.0 waits))
  ]

  pub consider-any_healthy :
      (i : ℕ) (k : KeyState) (p : Picked)
      → (consider now window i k p).1.any_healthy ≡ (is_ok k.health || p.any_healthy)
  unfolding consider
  consider-any_healthy i k p = ground arith

  -- A pass that saw no healthy key skipped or found unhealthy every key.
  pub pick_unhealthy :
      (i : ℕ) (ks : List KeyState) (p : Picked)
      → (pick now window skip i ks p).1.any_healthy ≡ false
      → (p.any_healthy ≡ false) × AllAt (λ j k. skip j ≡ false → is_ok k.health ≡ false) i ks
  unfolding pick
  pick_unhealthy i [] p e = (e, tt)
  pick_unhealthy i (k ∷ ks) p e = elim (Bool-cases (skip i)) [
    | inl skipped ↦
        let (old, rest) = pick_unhealthy (suc i) ks p (rw skipped at e) in
        (old, ((λ used. cc), rest))
    | inr used ↦
        let (here, rest) = pick_unhealthy (suc i) ks (consider now window i k p).1 (rw used at e) in
        let both : (is_ok k.health || p.any_healthy) ≡ false =
          rw (← consider-any_healthy i k p) here in
        (ground (arith, both), ((λ _. ground (arith, both)), rest))
  ]

  consider_idle :
      (i : ℕ) (k : KeyState) (p : Picked)
      → is_ok k.health ≡ false
      → ((consider now window i k p).1.any_healthy ≡ p.any_healthy)
        × ((consider now window i k p).1.best ≡ p.best)
  unfolding consider
  consider_idle i k p h = ground (arith, availability_healthy k now window)

  -- A pass that finds no healthy key picks none.
  pub pick_idle :
      (i : ℕ) (ks : List KeyState) (p : Picked)
      → AllAt (λ j k. skip j ≡ false → is_ok k.health ≡ false) i ks
      → ((pick now window skip i ks p).1.any_healthy ≡ p.any_healthy)
        × ((pick now window skip i ks p).1.best ≡ p.best)
  unfolding pick
  pick_idle i [] p h = (refl, refl)
  pick_idle i (k ∷ ks) p h = elim (Bool-cases (skip i)) [
    | inl skipped ↦ rw skipped (pick_idle (suc i) ks p h.1)
    | inr used ↦
        let next = (consider now window i k p).1 in
        let here = consider_idle i k p (h.0 used) in
        let rest = pick_idle (suc i) ks next h.1 in rw used (rest.0 ∙ here.0, rest.1 ∙ here.1)
  ]
