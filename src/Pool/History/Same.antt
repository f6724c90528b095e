-- ===== src/Pool/History/Same.antt =====
-- src/pool.rs: keys that no later look tells apart, and what a look makes of a key.
use brave_search_api_rotator.Base.{
  ℕ, zero, suc, ◌≤◌, Bool, false, List, [], ◌∷◌, refl, sym, ◌∙◌, arith, map, set, inl, inr,
  Bool-cases, contains,
}
use brave_search_api_rotator.Text.{Text}
use brave_search_api_rotator.Key.{KeyState}
use brave_search_api_rotator.Key.Window.{refresh, availability}
use brave_search_api_rotator.Key.Window.Settled.{availability-Seen, refresh-Seen}
use brave_search_api_rotator.Pool.{window}
use brave_search_api_rotator.Pool.Select.{Picked, nothing_picked, consider, pick, select}
use brave_search_api_rotator.Pool.Select.Alike.{Pairs, Alike}
use brave_search_api_rotator.Pool.Select.Selected.{select_cases, first_pass}
use brave_search_api_rotator.Pool.Snapshot.{PoolSnapshot, survey}

-- From `now` on, after `refresh`, `availability` makes the same of both keys.
abbrev pub Same : ℕ → ℕ → KeyState → KeyState → Type 0
Same now window k l =
    (later : ℕ) → now ≤ later → Alike later window (refresh k later) (refresh l later)

module _ (now window : ℕ) where
  pub Same-availability :
      (k l : KeyState) → Same now window k l → Same now window k (availability l now window).0
  Same-availability k l h later after =
      h later after ∙ sym (availability-Seen l now later window after)

  pub Same-refresh : (k : KeyState) → Same now window k (refresh k now)
  Same-refresh k later after = sym (refresh-Seen k now later window after)

  pub Pairs-refl : (ks : List KeyState) → Pairs (Same now window) ks ks
  Pairs-refl [] = tt
  Pairs-refl (k ∷ ks) = ((λ later after. refl), Pairs-refl ks)

  pub Pairs-sym :
      (ks ls : List KeyState) → Pairs (Same now window) ks ls → Pairs (Same now window) ls ks
  Pairs-sym [] [] h = tt
  Pairs-sym [] (l ∷ ls) h = absurd h
  Pairs-sym (k ∷ ks) [] h = absurd h
  Pairs-sym (k ∷ ks) (l ∷ ls) h = ((λ later after. sym (h.0 later after)), Pairs-sym ks ls h.1)

  pub Pairs-trans :
      (ks ls ms : List KeyState)
      → Pairs (Same now window) ks ls
      → Pairs (Same now window) ls ms
      → Pairs (Same now window) ks ms
  Pairs-trans [] [] [] h g = tt
  Pairs-trans [] [] (m ∷ ms) h g = absurd g
  Pairs-trans [] (l ∷ ls) ms h g = absurd h
  Pairs-trans (k ∷ ks) [] ms h g = absurd h
  Pairs-trans (k ∷ ks) (l ∷ ls) [] h g = absurd g
  Pairs-trans (k ∷ ks) (l ∷ ls) (m ∷ ms) h g =
      ((λ later after. h.0 later after ∙ g.0 later after), Pairs-trans ks ls ms h.1 g.1)

  pub Pairs-set :
      (i : ℕ) (v : KeyState) (ks ls : List KeyState)
      → Pairs (Same now window) ks ls
      → Pairs (Same now window) (set ks i v) (set ls i v)
  Pairs-set i v [] [] h = tt
  Pairs-set i v [] (l ∷ ls) h = absurd h
  Pairs-set i v (k ∷ ks) [] h = absurd h
  Pairs-set zero v (k ∷ ks) (l ∷ ls) h = ((λ later after. refl), h.1)
  Pairs-set (suc i) v (k ∷ ks) (l ∷ ls) h = (h.0, Pairs-set i v ks ls h.1)

  pub Pairs-later :
      (later : ℕ) (ks ls : List KeyState)
      → now ≤ later
      → Pairs (Same now window) ks ls
      → Pairs (Same later window) ks ls
  Pairs-later later [] [] after h = tt
  Pairs-later later [] (l ∷ ls) after h = absurd h
  Pairs-later later (k ∷ ks) [] after h = absurd h
  Pairs-later later (k ∷ ks) (l ∷ ls) after h =
      ((λ u beyond. h.0 u (omega arith)), Pairs-later later ks ls after h.1)

  -- What the operations do to keys that they do not lease.
  pub refreshed-Same :
      (ks : List KeyState) → Pairs (Same now window) ks (map (λ k. refresh k now) ks)
  refreshed-Same [] = tt
  refreshed-Same (k ∷ ks) = (Same-refresh k, refreshed-Same ks)

  pub pick-Same :
      (skip : ℕ → Bool) (i : ℕ) (ks ls : List KeyState) (q : Picked)
      → Pairs (Same now window) ks ls
      → Pairs (Same now window) ks (pick now window skip i ls q).0
  unfolding pick
  pick-Same skip i [] [] q h = tt
  pick-Same skip i [] (l ∷ ls) q h = absurd h
  pick-Same skip i (k ∷ ks) [] q h = absurd h
  pick-Same skip i (k ∷ ks) (l ∷ ls) q h = elim (Bool-cases (skip i)) [
    | inl skipped ↦ rw skipped (h.0, pick-Same skip (suc i) ks ls q h.1)
    | inr used ↦
        rw used (
          Same-availability k l h.0,
          pick-Same skip (suc i) ks ls (consider now window i l q).1 h.1,
        )
  ]

  pub select-Same :
      (exclude : List ℕ) (ks : List KeyState)
      → Pairs (Same now window) ks (select now window exclude (map (λ k. refresh k now) ks)).0
  select-Same exclude ks =
      let fresh = map (λ k. refresh k now) ks in
      let once = pick-Same (contains exclude) 0 ks fresh nothing_picked (refreshed-Same ks) in
      elim (select_cases now window exclude fresh) [
        | inl (one, _) ↦ rw one once
        | inr (two, _) ↦ rw two (
            pick-Same (λ _. false) 0 ks (first_pass now window exclude fresh).0 nothing_picked once)
      ]

  pub survey-Same :
      (format_duration fmt_instant : ℕ → Text) (ks : List KeyState) (out : PoolSnapshot)
      → Pairs (Same now window) ks (survey format_duration fmt_instant now window ks out).0
  unfolding survey
  survey-Same d f [] out = tt
  survey-Same d f (k ∷ ks) out =
      (Same-availability k (refresh k now) (Same-refresh k), survey-Same d f ks _)

  pub refreshed-Alike :
      (ks ls : List KeyState)
      → Pairs (Same now window) ks ls
      → Pairs (Alike now window) (map (λ k. refresh k now) ks) (map (λ k. refresh k now) ls)
  refreshed-Alike [] [] h = tt
  refreshed-Alike [] (l ∷ ls) h = absurd h
  refreshed-Alike (k ∷ ks) [] h = absurd h
  refreshed-Alike (k ∷ ks) (l ∷ ls) h = (h.0 now (omega arith), refreshed-Alike ks ls h.1)
