-- ===== src/Key/Window.antt =====
-- src/pool.rs: when a key may be used. `refresh`, the sliding window and `availability`.
pub mod Prune
pub mod Availability
pub mod Sliding
pub mod Settled
use brave_search_api_rotator.Base.{
  ℕ, ◌+◌, ◌-◌, max, ◌||◌, not, List, [], ◌∷◌, Option, none, some, Result, ok, err, ltb, leb,
  if◌then◌else◌, length, is_some, as_u32,
}
use brave_search_api_rotator.Key.{KeyState, Health, is_ok}

unfoldable pub refresh : KeyState → ℕ → KeyState
refresh k now = elim k.health [
  | Health.disabled until reason ↦ if leb until now then record k { health = Health.ok } else k
  | Health.exhausted until ↦
      if leb until now
      then record k { month_remaining = none; month_reset_at = none; health = Health.ok }
      else k
  | Health.ok ↦ k
]

-- The loop over the front of the deque. `now - t` stops at 0, as `saturating_duration_since` does.
unfoldable pub prune : ℕ → ℕ → List ℕ → List ℕ
prune now window [] = []
prune now window (t ∷ ts) = if leb window (now - t) then prune now window ts else t ∷ ts

unfoldable pub prune_window : KeyState → ℕ → ℕ → KeyState
prune_window k now window = record k { sends = prune now window k.sends }

-- The end of `availability`, on the pruned window.
unfoldable pub window_slot : KeyState → ℕ → List ℕ → Result (Unit {0}) ℕ
window_slot k window [] = ok tt
window_slot k window (oldest ∷ ts) =
    if leb (max k.sec_limit 1) (as_u32 (length (oldest ∷ ts))) then err (oldest + window) else ok tt

abbrev with_window : KeyState → ℕ → ℕ → KeyState × Result (Unit {0}) ℕ
with_window k now window =
    let pruned = prune_window k now window in (pruned, window_slot pruned window pruned.sends)

-- A key that is not held goes on to its window; a hold that is over is forgotten.
abbrev after_hold : Option ℕ → KeyState → ℕ → ℕ → KeyState × Result (Unit {0}) ℕ
after_hold none k now window = with_window k now window
after_hold (some h) k now window =
    if ltb now h then (k, err h) else with_window (record k { hold_until = none }) now window

-- The key afterwards, and `ok` or the earliest instant at which it may send.
unfoldable pub availability : KeyState → ℕ → ℕ → KeyState × Result (Unit {0}) ℕ
unfolding prune_window window_slot
availability k now window = elim k.health [
  | Health.disabled until _ ↦ (k, err until)
  | Health.exhausted until ↦ (k, err until)
  | Health.ok ↦ after_hold k.hold_until k now window
]

unfoldable pub free_slots : KeyState → ℕ
free_slots k =
    if not (is_ok k.health) || is_some k.hold_until
    then 0
    else max k.sec_limit 1 - as_u32 (length k.sends)
