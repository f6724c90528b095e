-- ===== src/Pool/Select/Best.antt =====
-- src/pool.rs, the closure `pick`: the key that one pass settles on is usable, and no usable key
-- of the pass has a better score.
use brave_search_api_rotator.Base.{
  ℕ, suc, Bool, true, false, List, [], ◌∷◌, Option, none, some, ◌≡◌, refl, arith, Bool-cases, inl,
  inr, Result, ok, err,
}
use brave_search_api_rotator.Key.{KeyState}
use brave_search_api_rotator.Key.Window.{availability}
use brave_search_api_rotator.Pool.Select.{
  Score, score_lt, score_of, Picked, improves, note, consider, pick,
}
use brave_search_api_rotator.Pool.Select.Keys.{AllAt}

-- The best key so far is no worse than the score `s`.
abbrev pub NotWorse : Option (ℕ × Score) → Score → Type 0
NotWorse none s = ⊥
NotWorse (some (b, t)) s = score_lt s t ≡ false

score_lt_trans : (s t u : Score) → score_lt s t ≡ false → score_lt u t ≡ true → score_lt s u ≡ false
score_lt_trans s t u h k = ground arith

score_lt_irrefl : (s : Score) → score_lt s s ≡ false
score_lt_irrefl s = ground arith

note-NotWorse :
    (r : Result (Unit {0}) ℕ) (i : ℕ) (k : KeyState) (p : Picked) (s : Score)
    → NotWorse p.best s
    → NotWorse (note r i k p).best s
note-NotWorse (err at) i k p s h = h
note-NotWorse (ok _) i k p s h = by_best p.best refl h
  where
    by_best :
        (b : Option (ℕ × Score)) → p.best ≡ b → NotWorse b s → NotWorse (note (ok tt) i k p).best s
    by_best none e n = absurd n
    by_best (some (b, t)) e n = elim (Bool-cases (score_lt (score_of k) t)) [
      | inl better ↦ rw (e, improves, better) (score_lt_trans s t (score_of k) n better)
      | inr worse ↦ rw (e, improves, worse) n
    ]

-- A free key that is noted is no better than the best one afterwards.
note_free-NotWorse :
    (u : Unit {0}) (i : ℕ) (k : KeyState) (p : Picked)
    → NotWorse (note (ok u) i k p).best (score_of k)
note_free-NotWorse u i k p = by_best p.best refl
  where
    by_best : (b : Option (ℕ × Score)) → p.best ≡ b → NotWorse (note (ok u) i k p).best (score_of k)
    by_best none e = rw (e, improves) (score_lt_irrefl (score_of k))
    by_best (some (b, t)) e = elim (Bool-cases (score_lt (score_of k) t)) [
      | inl better ↦ rw (e, improves, better) (score_lt_irrefl (score_of k))
      | inr worse ↦ rw (e, improves, worse) worse
    ]

module _ (now window : ℕ) (skip : ℕ → Bool) where
  pub pick-NotWorse :
      (i : ℕ) (ks : List KeyState) (p : Picked) (s : Score)
      → NotWorse p.best s
      → NotWorse (pick now window skip i ks p).1.best s
  unfolding pick consider
  pick-NotWorse i [] p s h = h
  pick-NotWorse i (k ∷ ks) p s h = elim (Bool-cases (skip i)) [
    | inl skipped ↦ rw skipped (pick-NotWorse (suc i) ks p s h)
    | inr used ↦ rw used (
        pick-NotWorse (suc i) ks (consider now window i k p).1 s
          (note-NotWorse (availability k now window).1 i _ _ s h))
  ]

  -- The key `k` at index `j` takes no part in the pass, is busy, or scores no better than `best`.
  abbrev pub Beaten : Option (ℕ × Score) → ℕ → KeyState → Type 0
  Beaten best j k =
      skip j ≡ false
      → (availability k now window).1 ≡ ok tt
      → NotWorse best (score_of (availability k now window).0)

  consider-Beaten :
      (i : ℕ) (k : KeyState) (p : Picked)
      → (availability k now window).1 ≡ ok tt
      → NotWorse (consider now window i k p).1.best (score_of (availability k now window).0)
  unfolding consider
  consider-Beaten i k p free = rw free (note_free-NotWorse tt i (availability k now window).0 _)

  -- Every usable key of the pass scores no better than the one picked.
  pub pick_minimal :
      (i : ℕ) (ks : List KeyState) (p : Picked) (best : Option (ℕ × Score))
      → (pick now window skip i ks p).1.best ≡ best
      → AllAt (Beaten best) i ks
  unfolding pick
  pick_minimal i [] p best e = tt
  pick_minimal i (k ∷ ks) p best e = elim (Bool-cases (skip i)) [
    | inl skipped ↦ ((λ used free. cc), pick_minimal (suc i) ks p best (rw skipped at e))
    | inr used ↦
        let e' : (pick now window skip (suc i) ks (consider now window i k p).1).1.best ≡ best =
          rw used at e in
        (
          (λ _ free. rw (← e') (
              pick-NotWorse (suc i) ks (consider now window i k p).1 _
                (consider-Beaten i k p free))),
          pick_minimal (suc i) ks (consider now window i k p).1 best e',
        )
  ]
