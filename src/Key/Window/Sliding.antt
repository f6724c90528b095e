-- ===== src/Key/Window/Sliding.antt =====
-- src/pool.rs: the deque and `availability` against the sliding window that they stand for.
use brave_search_api_rotator.Base.{
  ℕ, ◌+◌, ◌-◌, ◌≤◌, ◌<◌, max, true, List, [], ◌∷◌, Option, none, some, ok, ltb, leb, if◌then◌else◌,
  length, u32_max, ◌≡◌, refl, arith, ◌↔◌, All, Bool-cases, inl, inr,
}
use brave_search_api_rotator.Key.{KeyState, is_ok}
use brave_search_api_rotator.Key.Window.{prune, prune_window, window_slot, availability}
use brave_search_api_rotator.Key.Window.Prune.{length-prune}

-- Times that do not fall along the list.
abbrev pub IsSorted : List ℕ → Type 0
IsSorted [] = Unit
IsSorted (t ∷ ts) = All (λ u. t ≤ u) ts × IsSorted ts

-- How many of the sends lie less than a window back.
unfoldable pub count_recent : ℕ → ℕ → List ℕ → ℕ
count_recent now window [] = 0
count_recent now window (t ∷ ts) =
    (if ltb now (t + window) then 1 else 0) + count_recent now window ts

count_recent-All :
    (now window t : ℕ) (ts : List ℕ)
    → now < t + window
    → All (λ u. t ≤ u) ts
    → count_recent now window ts ≡ length ts
unfolding count_recent
count_recent-All now window t [] h a = refl
count_recent-All now window t (u ∷ us) h a = ground (arith, count_recent-All now window t us h a.1)

-- Popping the front of a sorted deque leaves exactly the recent sends.
pub length-prune_recent :
    (now window : ℕ) (ts : List ℕ)
    → 0 < window
    → IsSorted ts
    → length (prune now window ts) ≡ count_recent now window ts
unfolding prune count_recent
length-prune_recent now window [] w s = refl
length-prune_recent now window (t ∷ ts) w s = elim (Bool-cases (leb window (now - t))) [
  | inl over ↦ rw over (ground (arith, length-prune_recent now window ts w s.1))
  | inr recent ↦ rw recent (ground (arith, count_recent-All now window t ts (ground arith) s.0))
]

-- The hold of a key is over, or there is none.
abbrev pub HoldOver : ℕ → Option ℕ → Type 0
HoldOver now none = Unit
HoldOver now (some h) = h ≤ now

window_slot-ok_iff :
    (k : KeyState) (window : ℕ) (s : List ℕ)
    → length s ≤ u32_max
    → (window_slot k window s ≡ ok tt) ↔ (length s < max k.sec_limit 1)
unfolding window_slot
window_slot-ok_iff k window [] b = ground arith
window_slot-ok_iff k window (t ∷ s) b = ground arith

-- A key may send exactly when it is healthy, its hold is over, and fewer of its sends than its
-- limit (at least one) are recent, provided that its sends are in order and that a 32-bit number
-- counts them.
pub availability_iff :
    (k : KeyState) (now window : ℕ)
    → 0 < window
    → IsSorted k.sends
    → length k.sends ≤ u32_max
    → ((availability k now window).1 ≡ ok tt) ↔ (
        (is_ok k.health ≡ true)
        × HoldOver now k.hold_until
        × (count_recent now window k.sends < max k.sec_limit 1))
unfolding availability
availability_iff k now window w s b = ground (
  arith,
  length-prune_recent now window k.sends w s,
  length-prune now window k.sends,
  window_slot-ok_iff (prune_window k now window) window (prune now window k.sends),
  window_slot-ok_iff (prune_window (record k { hold_until = none }) now window) window
      (prune now window k.sends),
)
