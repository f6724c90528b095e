-- ===== src/Pool/Select/Passes.antt =====
-- src/pool.rs, the closure `pick`: where the best key comes from, and how long the pass says to wait.
use brave_search_api_rotator.Base.{
  ℕ, suc, ◌+◌, Bool, false, List, [], ◌∷◌, some, get_elem?, ◌≡◌, refl, arith, Bool-cases, inl, inr,
  ◌⊎◌, ok,
}
use brave_search_api_rotator.Key.{KeyState}
use brave_search_api_rotator.Key.Window.{availability}
use brave_search_api_rotator.Pool.Select.{Score, score_of, Picked, consider, pick}

module _ (now window : ℕ) where
  -- The pass over `ks` from index `i` took the key with index `b` as usable with score `s`, and
  -- left it in `after` as `availability` does.
  pub record Origin (skip : ℕ → Bool) (i : ℕ) (ks : List KeyState) (b : ℕ) (s : Score)
      (after : List KeyState) : Type 0 where
    pub place : ℕ
    pub key : KeyState
    pub index : b ≡ i + place
    pub there : get_elem? ks place ≡ some key
    pub used : skip b ≡ false
    pub free : (availability key now window).1 ≡ ok tt
    pub kept : get_elem? after place ≡ some (availability key now window).0
    pub score : s ≡ score_of (availability key now window).0

  consider-best :
      (i : ℕ) (k : KeyState) (p : Picked) (b : ℕ) (s : Score)
      → (consider now window i k p).1.best ≡ some (b, s)
      → (p.best ≡ some (b, s))
        ⊎ ((b ≡ i)
            × ((availability k now window).1 ≡ ok tt)
            × (s ≡ score_of (availability k now window).0))
  unfolding consider
  consider-best i k p b s e = ground arith

  pub pick-Origin :
      (skip : ℕ → Bool) (i : ℕ) (ks : List KeyState) (p : Picked) (b : ℕ) (s : Score)
      → (pick now window skip i ks p).1.best ≡ some (b, s)
      → (p.best ≡ some (b, s)) ⊎ Origin skip i ks b s (pick now window skip i ks p).0
  unfolding pick
  pick-Origin skip i [] p b s e = inl e
  pick-Origin skip i (k ∷ ks) p b s e = elim (Bool-cases (skip i)) [
    | inl skipped ↦ elim (pick-Origin skip (suc i) ks p b s (rw skipped at e)) [
      | inl old ↦ inl old
      | inr o ↦ inr (rw skipped (deeper k p o))
    ]
    | inr used ↦
        let next = (consider now window i k p).1 in
        elim (pick-Origin skip (suc i) ks next b s (rw used at e)) [
          | inr o ↦ inr (rw used (deeper (availability k now window).0 next o))
          | inl here ↦ elim (consider-best i k p b s here) [
            | inl old ↦ inl old
            | inr (b≡i, free, score) ↦ inr (record {
              place = 0;
              key = k;
              index = omega arith;
              there = refl;
              used = rw b≡i used;
              free = free;
              kept = rw used (unfold consider in refl);
              score = score;
            })
          ]
        ]
  ]
    where
      deeper :
          (k' : KeyState) (q : Picked)
          → Origin skip (suc i) ks b s (pick now window skip (suc i) ks q).0
          → Origin skip i (k ∷ ks) b s (k' ∷ (pick now window skip (suc i) ks q).0)
      deeper k' q o = record {
        place = suc o.place;
        key = o.key;
        index = omega (arith, o.index);
        there = o.there;
        used = o.used;
        free = o.free;
        kept = o.kept;
        score = o.score;
      }
