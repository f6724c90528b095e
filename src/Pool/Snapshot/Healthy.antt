-- ===== src/Pool/Snapshot/Healthy.antt =====
-- src/pool.rs, `snapshot`: what the reported numbers say about `try_acquire`.
use brave_search_api_rotator.Base.{
  ℕ, zero, suc, ◌+◌, ◌≡◌, ◌↔◌, refl, sym, ap, ◌∙◌, inl, inr, arith, List, [], ◌∷◌, some,
  if◌then◌else◌, get_elem?, length, Bool-cases,
}
use brave_search_api_rotator.Text.{Text}
use brave_search_api_rotator.Key.{KeyState, is_ok}
use brave_search_api_rotator.Key.Window.{refresh}
use brave_search_api_rotator.Key.Window.Availability.{availability_keeps}
use brave_search_api_rotator.Pool.{Pool, window}
use brave_search_api_rotator.Pool.Select.Promises.{Unhealthy}
use brave_search_api_rotator.Pool.Snapshot.{
  PoolSnapshot, observed, tally, survey, snapshot, nothing_seen,
}

-- The keys that are healthy at `now`.
abbrev healthy_count : ℕ → List KeyState → ℕ
healthy_count now [] = 0
healthy_count now (k ∷ ks) = (if is_ok (refresh k now).health then 1 else 0) + healthy_count now ks

healthy_count-zero :
    (now : ℕ) (ks : List KeyState)
    → healthy_count now ks ≡ 0
    → (j : ℕ) (k : KeyState) → get_elem? ks j ≡ some k
    → Unhealthy now k
healthy_count-zero now [] none_ok j k there = absurd cc
healthy_count-zero now (l ∷ ks) none_ok zero k there = ground arith
healthy_count-zero now (l ∷ ks) none_ok (suc j) k there =
    healthy_count-zero now ks (omega arith) j k there

zero-healthy_count :
    (now : ℕ) (ks : List KeyState)
    → ((j : ℕ) (k : KeyState) → get_elem? ks j ≡ some k → Unhealthy now k)
    → healthy_count now ks ≡ 0
zero-healthy_count now [] sick = refl
zero-healthy_count now (l ∷ ks) sick =
    let none_here = sick 0 l refl in
    let none_after = zero-healthy_count now ks (λ j k there. sick (suc j) k there) in
    rw none_here (omega (arith, none_after))

observed-health :
    (k : KeyState) (now window : ℕ)
    → is_ok (observed k now window).0.health ≡ is_ok (refresh k now).health
observed-health k now window = ap is_ok ((availability_keeps (refresh k now) now window).0)

module _ (format_duration fmt_instant : ℕ → Text) where
  survey-keys_healthy :
      (now window : ℕ) (ks : List KeyState) (out : PoolSnapshot)
      → (survey format_duration fmt_instant now window ks out).1.keys_healthy
        ≡ out.keys_healthy + healthy_count now ks
  unfolding survey tally
  survey-keys_healthy now window [] out = omega arith
  survey-keys_healthy now window (k ∷ ks) out = survey-keys_healthy now window ks _ ∙ step
    where
      step :
          (tally out (observed k now window).0).keys_healthy + healthy_count now ks
          ≡ out.keys_healthy + healthy_count now (k ∷ ks)
      step = elim (Bool-cases (is_ok (refresh k now).health)) [
        | inl well ↦ rw (observed-health k now window, well) (omega arith)
        | inr sick ↦ rw (observed-health k now window, sick) (omega arith)
      ]

  counted :
      (p : Pool) (now : ℕ)
      → (snapshot format_duration fmt_instant p now).1.keys_healthy ≡ healthy_count now p.keys
  unfolding snapshot
  counted p now =
      survey-keys_healthy now (window p) p.keys (nothing_seen (fmt_instant now) (length p.keys))
      ∙ omega arith

  -- The report counts no healthy key exactly if every key is disabled or exhausted at that time.
  pub snapshot-keys_healthy :
      (p : Pool) (now : ℕ)
      → ((snapshot format_duration fmt_instant p now).1.keys_healthy ≡ 0)
        ↔ ((j : ℕ) (k : KeyState) → get_elem? p.keys j ≡ some k → Unhealthy now k)
  snapshot-keys_healthy p now = (
    λ none_ok. healthy_count-zero now p.keys (sym (counted p now) ∙ none_ok),
    λ sick. counted p now ∙ zero-healthy_count now p.keys sick,
  )
