-- ===== src/Key/Window/Availability.antt =====
-- src/pool.rs, `refresh` and `availability`: when a key may send, and what both leave alone.
use brave_search_api_rotator.Base.{
  ℕ, ◌-◌, ◌≤◌, ◌<◌, max, true, List, [], ◌∷◌, none, Result, ok, err, length, as_u32, u32_max, ◌≡◌,
  refl, arith, ◌↔◌, ◌⊎◌,
}
use brave_search_api_rotator.Key.{KeyState, Health, is_ok}
use brave_search_api_rotator.Key.Window.{
  refresh, prune, prune_window, window_slot, availability, free_slots,
}
use brave_search_api_rotator.Key.Window.Prune.{prune-head, length-prune}

-- A parked key is parked beyond `now`.
abbrev pub Parked : ℕ → Health → Type 0
Parked now Health.ok = Unit
Parked now (Health.disabled until _) = now < until
Parked now (Health.exhausted until) = now < until

-- The instant of a refusal lies after `now`.
abbrev pub Later : ℕ → Result (Unit {0}) ℕ → Type 0
Later now (ok _) = Unit
Later now (err t) = now < t

pub refresh-Parked : (k : KeyState) (now : ℕ) → Parked now (refresh k now).health
unfolding refresh
refresh-Parked k now = by_health k.health refl
  where
    by_health : (h : Health) → k.health ≡ h → Parked now (refresh k now).health
    by_health Health.ok e = rw (e, refresh) (rw e tt)
    by_health (Health.disabled until reason) e = ground arith
    by_health (Health.exhausted until) e = ground arith

-- `availability` changes the hold and the window, nothing else.
pub availability_keeps :
    (k : KeyState) (now window : ℕ)
    → let k' = (availability k now window).0 in
      (k'.health ≡ k.health)
      × (k'.last_used ≡ k.last_used)
      × (k'.sec_limit ≡ k.sec_limit)
      × (k'.token ≡ k.token)
      × (k'.label ≡ k.label)
      × ((k'.sends ≡ k.sends) ⊎ (k'.sends ≡ prune now window k.sends))
unfolding availability
availability_keeps k now window = ground arith

pub window_slot-Later :
    (k : KeyState) (now window : ℕ) (ts : List ℕ)
    → 0 < window
    → Later now (window_slot k window (prune now window ts))
unfolding window_slot
window_slot-Later k now window ts w = by_sends (prune now window ts) refl
  where
    by_sends : (s : List ℕ) → prune now window ts ≡ s → Later now (window_slot k window s)
    by_sends [] e = tt
    by_sends (t ∷ rest) e = ground (arith, prune-head now window ts t rest w e)

pub availability-Later :
    (k : KeyState) (now window : ℕ)
    → 0 < window
    → Parked now k.health
    → Later now (availability k now window).1
unfolding availability
availability-Later k now window w p = ground (
  arith,
  window_slot-Later (prune_window k now window) now window k.sends w,
  window_slot-Later (prune_window (record k { hold_until = none }) now window) now window k.sends w,
)

pub window_slot_room :
    (k : KeyState) (window : ℕ) (s : List ℕ)
    → length s ≤ u32_max
    → window_slot k window s ≡ ok tt
    → length s < max k.sec_limit 1
unfolding window_slot
window_slot_room k window [] b e = ground arith
window_slot_room k window (t ∷ s) b e = ground arith

window_slot_iff :
    (k : KeyState) (window : ℕ) (s : List ℕ)
    → (0 < max k.sec_limit 1 - as_u32 (length s)) ↔ (window_slot k window s ≡ ok tt)
unfolding window_slot
window_slot_iff k window [] = ground arith
window_slot_iff k window (t ∷ s) = ground arith

-- Only a healthy key can be free.
pub availability_healthy :
    (k : KeyState) (now window : ℕ) → (availability k now window).1 ≡ ok tt → is_ok k.health ≡ true
unfolding availability
availability_healthy k now window e = ground arith

-- A free key has room in its window, unless the window outgrew a 32-bit count.
pub availability-room :
    (k : KeyState) (now window : ℕ)
    → length k.sends ≤ u32_max
    → (availability k now window).1 ≡ ok tt
    → length (availability k now window).0.sends < max k.sec_limit 1
unfolding availability
availability-room k now window b e = ground (
  arith,
  length-prune now window k.sends,
  window_slot_room (prune_window k now window) window (prune now window k.sends),
  window_slot_room (prune_window (record k { hold_until = none }) now window) window
      (prune now window k.sends),
)

-- A key is free exactly when it counts at least one free slot afterwards.
pub free_slots-availability :
    (k : KeyState) (now window : ℕ)
    → (0 < free_slots (availability k now window).0) ↔ ((availability k now window).1 ≡ ok tt)
unfolding availability free_slots
free_slots-availability k now window = ground (
  arith,
  window_slot_iff (prune_window k now window) window (prune now window k.sends),
  window_slot_iff (prune_window (record k { hold_until = none }) now window) window
      (prune now window k.sends),
)
