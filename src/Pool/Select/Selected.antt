-- ===== src/Pool/Select/Selected.antt =====
-- src/pool.rs, both passes of `try_acquire` together.
use brave_search_api_rotator.Base.{
  ℕ, ◌<◌, Bool, true, false, ◌&&◌, not, List, [], ◌∷◌, none, some, get_elem?, if◌then◌else◌, ◌≡◌,
  refl, sym, ◌∙◌, ap, arith, Bool-cases, inl, inr, ◌⊎◌, ok, is_none, is_empty, contains, option_map,
  Option-cases,
}
use brave_search_api_rotator.Key.{KeyState, is_ok}
use brave_search_api_rotator.Key.Window.{availability}
use brave_search_api_rotator.Key.Window.Availability.{
  Parked, availability_healthy, availability_keeps,
}
use brave_search_api_rotator.Pool.Select.{Score, score_of, Picked, nothing_picked, pick, select}
use brave_search_api_rotator.Pool.Select.Keys.{
  AllAt, AllAt-get_elem?, AllAt-mono, pick-AllAt, get_elem?-pick,
}
use brave_search_api_rotator.Pool.Select.Best.{Beaten, pick_minimal}
use brave_search_api_rotator.Pool.Select.Passes.{pick-Origin}
use brave_search_api_rotator.Pool.Select.Waits.{
  Waits, nothing-Waits, pick-Waits, pick_unhealthy, pick_idle,
}

-- Every key that is not excluded is disabled or exhausted.
abbrev pub OthersUnhealthy : List ℕ → List KeyState → Type 0
OthersUnhealthy exclude = AllAt (λ j k. contains exclude j ≡ false → is_ok k.health ≡ false) 0

abbrev pub first_pass : ℕ → ℕ → List ℕ → List KeyState → List KeyState × Picked
first_pass now window exclude keys = pick now window (contains exclude) 0 keys nothing_picked

abbrev pub second_pass : ℕ → ℕ → List ℕ → List KeyState → List KeyState × Picked
second_pass now window exclude keys =
    pick now window (λ _. false) 0 (first_pass now window exclude keys).0 nothing_picked

module _ (now window : ℕ) (exclude : List ℕ) (keys : List KeyState) where
  abbrev pub wants_second : Bool
  wants_second =
      is_none (first_pass now window exclude keys).1.best
      && (not (is_empty exclude) && not (first_pass now window exclude keys).1.any_healthy)

  -- The second pass runs only when there is something excluded and all else is unhealthy.
  pub select_cases :
      ((select now window exclude keys ≡ first_pass now window exclude keys)
        × (wants_second ≡ false))
      ⊎ ((select now window exclude keys ≡ second_pass now window exclude keys)
          × OthersUnhealthy exclude keys)
  unfolding select
  select_cases = elim (Bool-cases wants_second) [
    | inl again ↦
        let idle : (first_pass now window exclude keys).1.any_healthy ≡ false = ground arith in
        inr (rw again, (pick_unhealthy now window (contains exclude) 0 keys nothing_picked idle).1)
    | inr enough ↦ inl (rw enough, enough)
  ]

  -- What `select` says of the key that it settles on.
  pub record Selected (b : ℕ) (s : Score) (after : List KeyState) : Type 0 where
    pub key : KeyState
    pub there : get_elem? keys b ≡ some key
    pub free : (availability key now window).1 ≡ ok tt
    pub kept : get_elem? after b ≡ some (availability key now window).0
    pub score : s ≡ score_of (availability key now window).0
    pub least : AllAt (Beaten now window (contains exclude) (some (b, s))) 0 keys
    pub turn : contains exclude b ≡ true → OthersUnhealthy exclude keys

  first-Selected :
      (b : ℕ) (s : Score)
      → (first_pass now window exclude keys).1.best ≡ some (b, s)
      → Selected b s (first_pass now window exclude keys).0
  first-Selected b s e =
      elim (pick-Origin now window (contains exclude) 0 keys nothing_picked b s e) [
        | inl old ↦ cc
        | inr o ↦
            let b≡place : b ≡ o.place = omega (arith, o.index) in
            record {
              key = o.key;
              there = rw b≡place o.there;
              free = o.free;
              kept = rw b≡place o.kept;
              score = o.score;
              least =
                  pick_minimal now window (contains exclude) 0 keys nothing_picked (some (b, s)) e;
              turn = λ h. cc (h, o.used);
            }
      ]

  -- A key that the first pass changed was healthy or excluded, so the second one takes it as it was.
  first_pass_key :
      OthersUnhealthy exclude keys
      → (b : ℕ) (k : KeyState) → get_elem? (first_pass now window exclude keys).0 b ≡ some k
      → (availability k now window).1 ≡ ok tt
      → (get_elem? keys b ≡ some k) × (contains exclude b ≡ true)
  first_pass_key others b k there free = elim (Option-cases (get_elem? keys b)) [
    | inl e ↦ absurd (ground (arith, seen, e))
    | inr (k₀, e) ↦ elim (Bool-cases (contains exclude b)) [
      | inl skipped ↦ (ground (arith, seen, e, skipped), skipped)
      | inr used ↦
          let k≡ : (availability k₀ now window).0 ≡ k = ground (arith, seen, e, used) in
          let sick : is_ok k₀.health ≡ false =
            AllAt-get_elem? _ 0 keys b b k₀ others (omega arith) e used in
          let well : is_ok k.health ≡ true = availability_healthy k now window free in
          let same : (availability k₀ now window).0.health ≡ k₀.health =
            (availability_keeps k₀ now window).0 in
          absurd (cc (ap (λ (x : KeyState). is_ok x.health) k≡, ap is_ok same, sick, well))
    ]
  ]
    where
      seen :
          option_map
            (get_elem? keys b)
            (λ k. if contains exclude b then k else (availability k now window).0)
          ≡ some k
      seen =
          sym (get_elem?-pick now window (contains exclude) 0 keys nothing_picked b b (omega arith))
          ∙ there

  second-Selected :
      OthersUnhealthy exclude keys
      → (b : ℕ) (s : Score) → (second_pass now window exclude keys).1.best ≡ some (b, s)
      → Selected b s (second_pass now window exclude keys).0
  second-Selected others b s e =
      elim (pick-Origin now window (λ _. false) 0 first nothing_picked b s e) [
        | inl old ↦ cc
        | inr o ↦
            let b≡place : b ≡ o.place = omega (arith, o.index) in
            let (there, skipped) = first_pass_key others b o.key (rw b≡place o.there) o.free in
            record {
              key = o.key;
              there = there;
              free = o.free;
              kept = rw b≡place o.kept;
              score = o.score;
              least =
                  AllAt-mono _ _
                    (λ j k sick used free.
                      absurd (cc (sick used, availability_healthy k now window free)))
                    0 keys others;
              turn = λ _. others;
            }
      ]
    where
      first : List KeyState
      first = (first_pass now window exclude keys).0

  pub select-Selected :
      (b : ℕ) (s : Score)
      → (select now window exclude keys).1.best ≡ some (b, s)
      → Selected b s (select now window exclude keys).0
  select-Selected b s e = elim select_cases [
    | inl (one, _) ↦ rw one (first-Selected b s (rw one at e))
    | inr (two, others) ↦ rw two (second-Selected others b s (rw two at e))
  ]

module _ (now window : ℕ) (exclude : List ℕ) (keys : List KeyState) where
  abbrev AllParked : List KeyState → Type 0
  AllParked = AllAt (λ j k. Parked now k.health) 0

  first_pass-Parked : AllParked keys → AllParked (first_pass now window exclude keys).0
  first_pass-Parked =
      pick-AllAt (λ j k. Parked now k.health) now window (contains exclude)
        (λ i k parked. rw ((availability_keeps k now window).0) parked) 0 keys nothing_picked

  pub select-Waits : 0 < window → AllParked keys → Waits now (select now window exclude keys).1
  select-Waits w parked = elim (select_cases now window exclude keys) [
    | inl (one, _) ↦
        rw one (pick-Waits now window (contains exclude) 0 keys _ w parked (nothing-Waits now))
    | inr (two, others) ↦
        rw two (
          pick-Waits now window (λ _. false) 0 _ _ w (first_pass-Parked parked) (nothing-Waits now))
  ]

  -- All keys unhealthy: neither pass picks one.
  pub select_unhealthy :
      AllAt (λ j k. is_ok k.health ≡ false) 0 keys
      → ((select now window exclude keys).1.best ≡ none)
        × ((select now window exclude keys).1.any_healthy ≡ false)
  select_unhealthy sick = elim (select_cases now window exclude keys) [
    | inl (one, _) ↦
        let idle =
          pick_idle now window (contains exclude) 0 keys nothing_picked
            (AllAt-mono _ _ (λ j k h _. h) 0 keys sick) in
        rw one (idle.1, idle.0)
    | inr (two, others) ↦
        let still =
          pick-AllAt (λ j k. is_ok k.health ≡ false) now window (contains exclude)
            (λ i k h. rw ((availability_keeps k now window).0) h) 0 keys nothing_picked sick in
        let idle =
          pick_idle now window (λ _. false) 0 (first_pass now window exclude keys).0 nothing_picked
            (AllAt-mono _ _ (λ j k h _. h) 0 _ still) in
        rw two (idle.1, idle.0)
  ]

  -- A selection that saw no healthy key saw every key.
  pub select_saw_all :
      (select now window exclude keys).1.best ≡ none
      → (select now window exclude keys).1.any_healthy ≡ false
      → (j : ℕ) (k : KeyState) → get_elem? keys j ≡ some k
      → is_ok k.health ≡ false
  select_saw_all best idle j k there = elim (select_cases now window exclude keys) [
    | inl (one, enough) ↦
        let best' : (first_pass now window exclude keys).1.best ≡ none = rw one at best in
        let idle' : (first_pass now window exclude keys).1.any_healthy ≡ false = rw one at idle in
        AllAt-get_elem? _ 0 keys j j k
          ((pick_unhealthy now window (contains exclude) 0 keys nothing_picked idle').1)
          (omega arith) there (nothing_excluded exclude j (ground arith))
    | inr (two, others) ↦ elim (Bool-cases (contains exclude j)) [
      | inr other ↦ AllAt-get_elem? _ 0 keys j j k others (omega arith) there other
      | inl skipped ↦
          AllAt-get_elem? _ 0 (first_pass now window exclude keys).0 j j k
            ((pick_unhealthy now window (λ _. false) 0 _ nothing_picked (rw two at idle)).1)
            (omega arith)
            (get_elem?-pick now window (contains exclude) 0 keys nothing_picked j j (omega arith)
              ∙ rw (there, skipped))
            refl
    ]
  ]
    where
      nothing_excluded :
          (exclude : List ℕ) (j : ℕ) → is_empty exclude ≡ true → contains exclude j ≡ false
      nothing_excluded [] j h = refl
      nothing_excluded (x ∷ xs) j h = cc

  -- What `availability` keeps, both passes keep.
  pub select-AllAt {ℓ} :
      (P : ℕ → KeyState → Type ℓ)
      → ((i : ℕ) (k : KeyState) → P i k → P i (availability k now window).0)
      → AllAt P 0 keys
      → AllAt P 0 (select now window exclude keys).0
  select-AllAt P keep h = elim (select_cases now window exclude keys) [
    | inl (one, _) ↦ rw one (pick-AllAt P now window (contains exclude) keep 0 keys _ h)
    | inr (two, others) ↦ rw two (
        pick-AllAt P now window (λ _. false) keep 0 _ _
          (pick-AllAt P now window (contains exclude) keep 0 keys _ h))
  ]
