-- ===== src/Key/Window/Settled.antt =====
-- src/pool.rs, `refresh` and `availability`: looking at a key changes nothing that a later look sees.
use brave_search_api_rotator.Base.{
  true, ℕ, ◌-◌, ◌≤◌, List, [], ◌∷◌, ◌≡◌, refl, ◌∙◌, arith, leb, inl, inr, Bool-cases,
}
use brave_search_api_rotator.Key.{KeyState, Health}
use brave_search_api_rotator.Key.Window.{refresh, prune, availability}
use brave_search_api_rotator.Key.Window.Availability.{availability_keeps}

prune-prune :
    (now later window : ℕ) (ts : List ℕ)
    → now ≤ later
    → prune later window (prune now window ts) ≡ prune later window ts
unfolding prune
prune-prune now later window [] h = refl
prune-prune now later window (t ∷ ts) h = elim (Bool-cases (leb window (now - t))) [
  | inl over ↦
      let still : leb window (later - t) ≡ true = ground arith in
      rw (over, still) (prune-prune now later window ts h)
  | inr recent ↦ rw recent refl
]

refresh-refresh :
    (k : KeyState) (now later : ℕ) → now ≤ later → refresh (refresh k now) later ≡ refresh k later
unfolding refresh
refresh-refresh k now later h = ground arith

availability-availability :
    (k : KeyState) (now later window : ℕ)
    → now ≤ later
    → availability (availability k now window).0 later window ≡ availability k later window
unfolding availability
availability-availability k now later window h =
    ground (arith, prune-prune now later window k.sends h)

refresh_idle : (k : KeyState) (now : ℕ) → k.health ≡ Health.ok → refresh k now ≡ k
unfolding refresh
refresh_idle k now e = ground arith

pub availability_parked :
    (k : KeyState) (now window : ℕ) → (k.health ≡ Health.ok → ⊥) → (availability k now window).0 ≡ k
unfolding availability
availability_parked k now window parked = by_health k.health refl
  where
    by_health : (h : Health) → k.health ≡ h → (availability k now window).0 ≡ k
    by_health Health.ok e = absurd (parked e)
    by_health (Health.disabled until reason) e = ground arith
    by_health (Health.exhausted until) e = ground arith

module _ (k : KeyState) (now later window : ℕ) (h : now ≤ later) where
  abbrev Seen : KeyState → Type 0
  Seen k' =
      availability (refresh k' later) later window ≡ availability (refresh k later) later window

  pub availability-Seen : Seen (availability k now window).0
  availability-Seen = by_health k.health refl
    where
      as_it_was : (k.health ≡ Health.ok → ⊥) → Seen (availability k now window).0
      as_it_was parked = rw (availability_parked k now window parked) refl

      by_health : (x : Health) → k.health ≡ x → Seen (availability k now window).0
      by_health Health.ok e =
          let same : (availability k now window).0.health ≡ Health.ok =
            (availability_keeps k now window).0 ∙ e in
          rw (refresh_idle k later e, refresh_idle (availability k now window).0 later same)
            (availability-availability k now later window h)
      by_health (Health.disabled until reason) e = as_it_was (λ f. cc)
      by_health (Health.exhausted until) e = as_it_was (λ f. cc)

  pub refresh-Seen : Seen (refresh k now)
  refresh-Seen = rw (refresh-refresh k now later h) refl
