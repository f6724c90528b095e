-- ===== src/Pool/Select/Whole.antt =====
-- src/pool.rs, both passes of `try_acquire` as one pass over the keys that may be handed out.
use brave_search_api_rotator.Base.{
  ℕ, suc, Bool, true, false, List, [], ◌∷◌, ◌≡◌, refl, ◌∙◌, ap, arith, Bool-cases, inl, inr, ◌⊎◌,
  ◌↔◌, contains, is_empty,
}
use brave_search_api_rotator.Key.{KeyState, is_ok}
use brave_search_api_rotator.Key.Window.{availability}
use brave_search_api_rotator.Pool.Select.{Picked, nothing_picked, consider, pick, select}
use brave_search_api_rotator.Pool.Select.Keys.{AllAt}
use brave_search_api_rotator.Pool.Select.Waits.{pick_idle}
use brave_search_api_rotator.Pool.Select.Selected.{OthersUnhealthy, wants_second, select_cases}

-- The key number `j` may be handed out: it is not excluded, or all keys that are not are unhealthy.
abbrev pub Considered : List ℕ → List KeyState → ℕ → Type 0
Considered exclude keys j = (contains exclude j ≡ false) ⊎ OthersUnhealthy exclude keys

availability_unhealthy :
    (k : KeyState) (now window : ℕ) → is_ok k.health ≡ false → (availability k now window).0 ≡ k
unfolding availability
availability_unhealthy k now window sick = ground arith

consider_same :
    (now window i : ℕ) (k : KeyState) (p : Picked)
    → is_ok k.health ≡ false
    → (consider now window i k p).0 ≡ k
unfolding consider
consider_same now window i k p sick = availability_unhealthy k now window sick

-- A pass that finds no healthy key leaves all keys as they are.
pub pick_same :
    (now window : ℕ) (skip : ℕ → Bool) (i : ℕ) (ks : List KeyState) (p : Picked)
    → AllAt (λ j k. skip j ≡ false → is_ok k.health ≡ false) i ks
    → (pick now window skip i ks p).0 ≡ ks
unfolding pick
pick_same now window skip i [] p sick = refl
pick_same now window skip i (k ∷ ks) p sick = elim (Bool-cases (skip i)) [
  | inl skipped ↦ rw skipped (ap (λ xs. k ∷ xs) (pick_same now window skip (suc i) ks p sick.1))
  | inr used ↦
      let rest = pick_same now window skip (suc i) ks (consider now window i k p).1 sick.1 in
      let q = consider now window i k p in
      rw used (
        ap (λ x. x ∷ (pick now window skip (suc i) ks q.1).0)
          (consider_same now window i k p (sick.0 used))
        ∙ ap (λ xs. k ∷ xs) rest)
]

nothing_excluded : (exclude : List ℕ) (j : ℕ) → is_empty exclude ≡ true → contains exclude j ≡ false
nothing_excluded [] j h = refl
nothing_excluded (x ∷ xs) j h = cc

module _ (now window : ℕ) (exclude : List ℕ) (keys : List KeyState) where
  -- The one pass that `select` amounts to.
  pub record Whole : Type 0 where
    pub skip : ℕ → Bool
    pub same : select now window exclude keys ≡ pick now window skip 0 keys nothing_picked
    pub used : (j : ℕ) → (skip j ≡ false) ↔ Considered exclude keys j

  enough-Considered :
      wants_second now window exclude keys ≡ false
      → (j : ℕ) → Considered exclude keys j
      → contains exclude j ≡ false
  enough-Considered enough j (inl other) = other
  enough-Considered enough j (inr others) =
      let (idle, best) = pick_idle now window (contains exclude) 0 keys nothing_picked others in
      nothing_excluded exclude j (ground (arith, idle, best, enough))

  pub select-Whole : Whole
  select-Whole = elim (select_cases now window exclude keys) [
    | inl (one, enough) ↦ record {
      skip = contains exclude;
      same = one;
      used = λ j. (inl, enough-Considered enough j);
    }
    | inr (two, others) ↦ record {
      skip = λ _. false;
      same =
          two
          ∙ ap (λ ks. pick now window (λ _. false) 0 ks nothing_picked)
              (pick_same now window (contains exclude) 0 keys nothing_picked others);
      used = λ j. ((λ _. inr others), λ _. refl);
    }
  ]
