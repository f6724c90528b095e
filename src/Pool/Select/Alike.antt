-- ===== src/Pool/Select/Alike.antt =====
-- src/pool.rs, `try_acquire`: keys of which `availability` makes the same lead to the same choice.
use brave_search_api_rotator.Base.{
  ℕ, zero, suc, Bool, false, ◌&&◌, not, List, [], ◌∷◌, none, some, Result, ◌≡◌, refl, sym, ◌⊎◌, ◌∙◌,
  ap, subst, arith, get_elem?, inl, inr, Bool-cases, Option-cases, contains, is_none, is_empty,
}
use brave_search_api_rotator.Text.{Text}
use brave_search_api_rotator.Key.{KeyState}
use brave_search_api_rotator.Key.Window.{availability}
use brave_search_api_rotator.Key.Window.Availability.{availability_keeps}
use brave_search_api_rotator.Pool.{window}
use brave_search_api_rotator.Pool.Select.{
  Picked, nothing_picked, consider, pick, select, summary, conclude,
}

-- Two lists of keys, related key by key.
abbrev pub Pairs : (KeyState → KeyState → Type 0) → List KeyState → List KeyState → Type 0
Pairs R [] [] = Unit
Pairs R (k ∷ ks) (l ∷ ls) = R k l × Pairs R ks ls
Pairs R [] (l ∷ ls) = ⊥
Pairs R (k ∷ ks) [] = ⊥

-- At `now`, `availability` makes the same of both keys.
abbrev pub Alike : ℕ → ℕ → KeyState → KeyState → Type 0
Alike now window k l = availability k now window ≡ availability l now window

module _ (now window : ℕ) where
  Alike-keeps :
      (k l : KeyState)
      → Alike now window k l
      → (k.health ≡ l.health) × (k.label ≡ l.label) × (k.token ≡ l.token)
  Alike-keeps k l h =
      let (health, _, _, token, label, _) = availability_keeps k now window in
      let (health', _, _, token', label', _) = availability_keeps l now window in
      let key = ap (λ (x : KeyState × Result (Unit {0}) ℕ). x.0) h in
      (
        sym health ∙ ap (λ (x : KeyState). x.health) key ∙ health',
        sym label ∙ ap (λ (x : KeyState). x.label) key ∙ label',
        sym token ∙ ap (λ (x : KeyState). x.token) key ∙ token',
      )

  -- A pass picks the same of both lists.
  pick-Alike :
      (skip : ℕ → Bool) (i : ℕ) (ks ls : List KeyState) (q : Picked)
      → Pairs (Alike now window) ks ls
      → ((pick now window skip i ks q).1 ≡ (pick now window skip i ls q).1)
        × Pairs (Alike now window) (pick now window skip i ks q).0 (pick now window skip i ls q).0
  unfolding pick consider
  pick-Alike skip i [] [] q h = (refl, tt)
  pick-Alike skip i [] (l ∷ ls) q h = absurd h
  pick-Alike skip i (k ∷ ks) [] q h = absurd h
  pick-Alike skip i (k ∷ ks) (l ∷ ls) q h = elim (Bool-cases (skip i)) [
    | inl skipped ↦
        let rest = pick-Alike skip (suc i) ks ls q h.1 in rw skipped (rest.0, (h.0, rest.1))
    | inr used ↦
        let (healthy, _, _) = Alike-keeps k l h.0 in
        let seen : (consider now window i k q).1 ≡ (consider now window i l q).1 =
          rw (h.0, healthy) refl in
        let rest = pick-Alike skip (suc i) ks ls (consider now window i k q).1 h.1 in
        let pair : Alike now window (availability k now window).0 (availability l now window).0 =
          ap (λ (x : KeyState × Result (Unit {0}) ℕ). availability x.0 now window) h.0 in
        rw used (
          subst
            (λ (x : Picked).
              ((pick now window skip (suc i) ks (consider now window i k q).1).1
                ≡ (pick now window skip (suc i) ls x).1)
              × (Alike now window (availability k now window).0 (availability l now window).0
                  × Pairs (Alike now window)
                      (pick now window skip (suc i) ks (consider now window i k q).1).0
                      (pick now window skip (suc i) ls x).0))
            seen (rest.0, (pair, rest.1)))
  ]

  pub select-Alike :
      (exclude : List ℕ) (ks ls : List KeyState)
      → Pairs (Alike now window) ks ls
      → ((select now window exclude ks).1 ≡ (select now window exclude ls).1)
        × Pairs (Alike now window) (select now window exclude ks).0 (select now window exclude ls).0
  unfolding select
  select-Alike exclude ks ls h =
      let (same, alike) = pick-Alike (contains exclude) 0 ks ls nothing_picked h in
      let again = λ (q : Picked). is_none q.best && (not (is_empty exclude) && not q.any_healthy) in
      elim (Bool-cases (again (pick now window (contains exclude) 0 ks nothing_picked).1)) [
        | inl two ↦
            rw (two, ap again (sym same) ∙ two)
              (pick-Alike (λ _. false) 0 (pick now window (contains exclude) 0 ks nothing_picked).0
                (pick now window (contains exclude) 0 ls nothing_picked).0 nothing_picked alike)
        | inr one ↦ rw (one, ap again (sym same) ∙ one) (same, alike)
      ]

  pub Alike-get_elem? :
      (ks ls : List KeyState) (i : ℕ)
      → Pairs (Alike now window) ks ls
      → ((get_elem? ks i ≡ none) × (get_elem? ls i ≡ none))
        ⊎ ((k : KeyState) × (l : KeyState) × (get_elem? ks i ≡ some k)
            × (get_elem? ls i ≡ some l)
            × Alike now window k l)
  Alike-get_elem? [] [] i h = inl (refl, refl)
  Alike-get_elem? [] (l ∷ ls) i h = absurd h
  Alike-get_elem? (k ∷ ks) [] i h = absurd h
  Alike-get_elem? (k ∷ ks) (l ∷ ls) zero h = inr (k, l, refl, refl, h.0)
  Alike-get_elem? (k ∷ ks) (l ∷ ls) (suc i) h = Alike-get_elem? ks ls i h.1

  module _ (fmt_instant : ℕ → Text) where
    pub summary-Alike :
        (ks ls : List KeyState)
        → Pairs (Alike now window) ks ls
        → summary fmt_instant ks ≡ summary fmt_instant ls
    unfolding summary
    summary-Alike [] [] h = refl
    summary-Alike [] (l ∷ ls) h = absurd h
    summary-Alike (k ∷ ks) [] h = absurd h
    summary-Alike (k ∷ []) (l ∷ []) h =
        let (health, label, _) = Alike-keeps k l h.0 in rw (health, label) refl
    summary-Alike (k ∷ []) (l ∷ l' ∷ ls) h = absurd h.1
    summary-Alike (k ∷ k' ∷ ks) (l ∷ []) h = absurd h.1
    summary-Alike (k ∷ k' ∷ ks) (l ∷ l' ∷ ls) h =
        let (health, label, _) = Alike-keeps k l h.0 in
        rw (health, label, summary-Alike (k' ∷ ks) (l' ∷ ls) h.1) refl

    pub conclude-Alike :
        (ks ls : List KeyState) (q : Picked)
        → Pairs (Alike now window) ks ls
        → (conclude fmt_instant now ks q).1 ≡ (conclude fmt_instant now ls q).1
    unfolding conclude
    conclude-Alike ks ls q h = elim (Option-cases q.best) [
      | inl none_best ↦ ground (arith, summary-Alike ks ls h)
      | inr ((i, s), best) ↦ elim (Alike-get_elem? ks ls i h) [
        | inl (e, e') ↦ ground arith
        | inr (k, l, e, e', alike) ↦ let (_, label, token) = Alike-keeps k l alike in ground arith
      ]
    ]
