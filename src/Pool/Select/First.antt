-- ===== src/Pool/Select/First.antt =====
-- src/pool.rs, the closure `pick`: of keys with the same score, the pass takes the first.
use brave_search_api_rotator.Base.{
  ℕ, suc, ◌≤◌, ◌<◌, ◌⊎◌, Bool, true, false, List, [], ◌∷◌, Option, none, some, ◌≡◌, refl, arith,
  Bool-cases, inl, inr, Result, ok, err, Option-cases, ◌≢◌, subst, ◌∙◌, ltb, ltb→lt, not-ltb→le,
}
use brave_search_api_rotator.Key.{KeyState}
use brave_search_api_rotator.Key.Window.{availability}
use brave_search_api_rotator.Pool.Select.{
  Score, score_lt, score_of, Picked, improves, note, consider, pick,
}
use brave_search_api_rotator.Pool.Select.Keys.{AllAt}
use brave_search_api_rotator.Pool.Select.Passes.{pick-Origin}

score_lt_trans' : (s t u : Score) → score_lt s t ≡ true → score_lt u t ≡ false → score_lt s u ≡ true
score_lt_trans' s t u h k = ground arith

score_lt_both : (s t u : Score) → score_lt s t ≡ true → score_lt t u ≡ true → score_lt s u ≡ true
score_lt_both s t u h k = ground arith

module _ (now window : ℕ) (skip : ℕ → Bool) where
  -- A usable key of the pass that stands before the one picked scores worse.
  abbrev pub WorseBefore : ℕ → Score → ℕ → KeyState → Type 0
  WorseBefore b s j k =
      skip j ≡ false
      → (availability k now window).1 ≡ ok tt
      → j < b
      → score_lt s (score_of (availability k now window).0) ≡ true

  -- The key that a pass starts with, in front of its keys.
  abbrev pub InFront : ℕ → Option (ℕ × Score) → Type 0
  InFront i none = Unit
  InFront i (some (b, s)) = b < i

  -- The key picked beats the one that the pass started with, if it is another.
  abbrev pub Beats : ℕ → ℕ → Score → Option (ℕ × Score) → Type 0
  Beats i b s none = Unit
  Beats i b s (some (b₀, s₀)) = i ≤ b → score_lt s s₀ ≡ true

  -- What the pass keeps, picking number `b` of score `s` from index `i` on.
  abbrev pub Earlier : ℕ → List KeyState → Picked → ℕ → Score → Type 0
  Earlier i ks p b s = AllAt (WorseBefore b s) i ks × Beats i b s p.best

  Beats-of :
      (i : ℕ) (q : Picked) (b b₀ : ℕ) (s s₀ : Score)
      → q.best ≡ some (b₀, s₀)
      → Beats (suc i) b s q.best
      → i < b
      → score_lt s s₀ ≡ true
  Beats-of i q b b₀ s s₀ e beats lt =
      subst (λ (o : Option (ℕ × Score)). Beats (suc i) b s o) e beats (omega arith)

  -- The steps of the pass at one key, given that the pass of the rest starts with `best`.
  busy-Earlier :
      (i : ℕ) (k : KeyState) (ks : List KeyState) (p q : Picked) (b : ℕ) (s : Score)
      → ((skip i ≡ false) → (availability k now window).1 ≡ ok tt → ⊥)
      → q.best ≡ p.best
      → (i ≢ b)
      → Earlier (suc i) ks q b s
      → Earlier i (k ∷ ks) p b s
  busy-Earlier i k ks p q b s busy same other (rest, beats) =
      (((λ used free before. absurd (busy used free)), rest), by_best p.best refl beats)
    where
      by_best :
          (o : Option (ℕ × Score)) → p.best ≡ o → Beats (suc i) b s q.best → Beats i b s p.best
      by_best none e h = rw e tt
      by_best (some (b₀, s₀)) e h = rw e λ le. Beats-of i q b b₀ s s₀ (same ∙ e) h (omega arith)

  taken-Earlier :
      (i : ℕ) (k : KeyState) (ks : List KeyState) (p q : Picked) (b : ℕ) (s : Score)
      → q.best ≡ some (i, score_of (availability k now window).0)
      → ((b₀ : ℕ) (s₀ : Score)
          → p.best ≡ some (b₀, s₀)
          → score_lt (score_of (availability k now window).0) s₀ ≡ true)
      → (b ≡ i → s ≡ score_of (availability k now window).0)
      → Earlier (suc i) ks q b s
      → Earlier i (k ∷ ks) p b s
  taken-Earlier i k ks p q b s taken better same (rest, beats) =
      (((λ used free before. Beats-of i q b i s _ taken beats before), rest), by_best p.best refl)
    where
      score : Score
      score = score_of (availability k now window).0

      by_best : (o : Option (ℕ × Score)) → p.best ≡ o → Beats i b s p.best
      by_best none e = rw e tt
      by_best (some (b₀, s₀)) e = rw e λ le. elim (Bool-cases (ltb i b)) [
        | inl before ↦
            score_lt_both s score s₀ (Beats-of i q b i s score taken beats (ltb→lt i b before))
              (better b₀ s₀ e)
        | inr here ↦ rw (same (omega (arith, not-ltb→le i b here))) (better b₀ s₀ e)
      ]

  passed-Earlier :
      (i : ℕ) (k : KeyState) (ks : List KeyState) (p q : Picked) (b b₀ : ℕ) (s s₀ : Score)
      → p.best ≡ some (b₀, s₀)
      → q.best ≡ p.best
      → score_lt (score_of (availability k now window).0) s₀ ≡ false
      → (i ≢ b)
      → Earlier (suc i) ks q b s
      → Earlier i (k ∷ ks) p b s
  passed-Earlier i k ks p q b b₀ s s₀ had same worse other (rest, beats) =
      let beaten : i < b → score_lt s s₀ ≡ true =
        λ lt. Beats-of i q b b₀ s s₀ (same ∙ had) beats lt in
      (
        ((λ used free before. score_lt_trans' s s₀ _ (beaten before) worse), rest),
        rw had λ le. beaten (omega arith),
      )

  -- `consider` on each of its branches.
  consider_busy :
      (i : ℕ) (k : KeyState) (p : Picked) (t : ℕ)
      → (availability k now window).1 ≡ err t
      → (consider now window i k p).1.best ≡ p.best
  unfolding consider
  consider_busy i k p t e = ground arith

  consider_takes :
      (i : ℕ) (k : KeyState) (p : Picked)
      → (availability k now window).1 ≡ ok tt
      → improves (score_of (availability k now window).0) p.best ≡ true
      → (consider now window i k p).1.best ≡ some (i, score_of (availability k now window).0)
  unfolding consider
  consider_takes i k p free better = rw (free, note) (rw better refl)

  consider_passes :
      (i : ℕ) (k : KeyState) (p : Picked)
      → (availability k now window).1 ≡ ok tt
      → improves (score_of (availability k now window).0) p.best ≡ false
      → (consider now window i k p).1.best ≡ p.best
  unfolding consider
  consider_passes i k p free worse = rw (free, note) (rw worse refl)

  InFront-later : (i : ℕ) (o : Option (ℕ × Score)) → InFront i o → InFront (suc i) o
  InFront-later i none h = tt
  InFront-later i (some (b, s)) h = omega arith

  -- Where the best key of the rest comes from.
  origin :
      (i : ℕ) (ks : List KeyState) (q : Picked) (b : ℕ) (s : Score)
      → (pick now window skip i ks q).1.best ≡ some (b, s)
      → (q.best ≡ some (b, s)) ⊎ (i ≤ b)
  origin i ks q b s e = elim (pick-Origin now window skip i ks q b s e) [
    | inl old ↦ inl old
    | inr o ↦ inr (omega (arith, o.index))
  ]

  apart :
      (i : ℕ) (ks : List KeyState) (q : Picked) (b : ℕ) (s : Score)
      → InFront i q.best
      → (pick now window skip (suc i) ks q).1.best ≡ some (b, s)
      → i ≢ b
  apart i ks q b s front e same = elim (origin (suc i) ks q b s e) [
    | inl old ↦
        let before : b < i = subst (λ (o : Option (ℕ × Score)). InFront i o) old front in
        omega arith
    | inr behind ↦ omega arith
  ]

  used-Earlier :
      (i : ℕ) (k : KeyState) (ks : List KeyState) (p : Picked) (b : ℕ) (s : Score)
      → InFront i p.best
      → (pick now window skip (suc i) ks (consider now window i k p).1).1.best ≡ some (b, s)
      → (InFront (suc i) (consider now window i k p).1.best
          → Earlier (suc i) ks (consider now window i k p).1 b s)
      → Earlier i (k ∷ ks) p b s
  used-Earlier i k ks p b s front e rest = by_avail (availability k now window).1 refl
    where
      q : Picked
      q = (consider now window i k p).1

      score : Score
      score = score_of (availability k now window).0

      as_before : q.best ≡ p.best → InFront i q.best
      as_before same = rw same front

      by_avail :
          (r : Result (Unit {0}) ℕ) → (availability k now window).1 ≡ r → Earlier i (k ∷ ks) p b s
      by_avail (err t) busy =
          let same = consider_busy i k p t busy in
          busy-Earlier i k ks p q b s (λ used free. cc) same (apart i ks q b s (as_before same) e)
            (rest (InFront-later i q.best (as_before same)))
      by_avail (ok u) free = elim (Bool-cases (improves score p.best)) [
        | inl better ↦
            let taken : q.best ≡ some (i, score) = consider_takes i k p free better in
            let front' : InFront (suc i) q.best = rw taken (omega arith) in
            taken-Earlier i k ks p q b s taken (λ b₀ s₀ had. rw had at better)
              (λ here. elim (origin (suc i) ks q b s e) [
                | inl old ↦ ground arith
                | inr behind ↦ absurd (omega arith)
              ])
              (rest front')
        | inr worse ↦
            let same = consider_passes i k p free worse in
            elim (Option-cases p.best) [
              | inl none_yet ↦ absurd (cc (rw none_yet at worse))
              | inr ((b₀, s₀), had) ↦
                  passed-Earlier i k ks p q b b₀ s s₀ had same (rw had at worse)
                    (apart i ks q b s (as_before same) e)
                    (rest (InFront-later i q.best (as_before same)))
            ]
      ]

  -- What the pass picks scores better than each usable key before it.
  pub pick-Earlier :
      (i : ℕ) (ks : List KeyState) (p : Picked) (b : ℕ) (s : Score)
      → InFront i p.best
      → (pick now window skip i ks p).1.best ≡ some (b, s)
      → Earlier i ks p b s
  unfolding pick
  pick-Earlier i [] p b s front e = (tt, rw e λ le. absurd (in_front p.best e front le))
    where
      in_front : (o : Option (ℕ × Score)) → o ≡ some (b, s) → InFront i o → i ≤ b → ⊥
      in_front none f h le = cc
      in_front (some (b₀, s₀)) f h le = ground arith
  pick-Earlier i (k ∷ ks) p b s front e = elim (Bool-cases (skip i)) [
    | inl skipped ↦
        let e' : (pick now window skip (suc i) ks p).1.best ≡ some (b, s) = rw skipped at e in
        busy-Earlier i k ks p p b s (λ used free. cc) refl (apart i ks p b s front e')
          (pick-Earlier (suc i) ks p b s (InFront-later i p.best front) e')
    | inr used ↦
        let q = (consider now window i k p).1 in
        let e' : (pick now window skip (suc i) ks q).1.best ≡ some (b, s) = rw used at e in
        used-Earlier i k ks p b s front e' (λ front'. pick-Earlier (suc i) ks q b s front' e')
  ]
