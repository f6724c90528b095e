-- ===== src/Pool/Contract.antt =====
-- src/pool.rs, `try_acquire`: an abstract description of its result, which names no loop, no pass
-- and no score.
pub mod Meets
pub mod Decides
pub mod Refines
pub mod Idle
use brave_search_api_rotator.Base.{
  ℕ, ◌≤◌, ◌<◌, Bool, true, false, List, Option, none, some, ◌≡◌, ◌≢◌, ◌⊎◌, Result, ok, err,
  get_elem?, contains,
}
use brave_search_api_rotator.Text.{Text}
use brave_search_api_rotator.Key.{KeyState, is_ok}
use brave_search_api_rotator.Key.Window.{availability, refresh}
use brave_search_api_rotator.Pool.{Pool, Lease, Next, window}
use brave_search_api_rotator.Pool.Select.{lease_of, summary}
use brave_search_api_rotator.Pool.Select.Outcomes.{Usable, refreshed}
use brave_search_api_rotator.Pool.Select.Promises.{Unhealthy, UsedBefore, quota_left}

-- Key `k`, number `i`, comes before key `l`, number `j`: used longer ago, or with more quota left,
-- or listed first.
abbrev pub Preferred : ℕ → ℕ → KeyState → ℕ → KeyState → Type 0
Preferred now i k j l =
    UsedBefore k.last_used l.last_used
    ⊎ ((k.last_used ≡ l.last_used)
        × ((quota_left l now < quota_left k now)
            ⊎ ((quota_left k now ≡ quota_left l now) × (i < j))))

module _ (p : Pool) (now : ℕ) (exclude : List ℕ) where
  -- The key number `j` may be handed out: the caller does not exclude it, or each key that the
  -- caller does not exclude is disabled or exhausted.
  abbrev pub Allowed : ℕ → Type 0
  Allowed j =
      (contains exclude j ≡ false)
      ⊎ ((i : ℕ) (k : KeyState)
          → get_elem? p.keys i ≡ some k
          → contains exclude i ≡ false
          → Unhealthy now k)

  -- The key cannot be used before `t`.
  abbrev pub Busy : KeyState → ℕ → Type 0
  Busy k t = (availability (refresh k now) now (window p)).1 ≡ err t

  pub record Candidate (j : ℕ) (k : KeyState) : Type 0 where
    pub there : get_elem? p.keys j ≡ some k
    pub allowed : Allowed j

  -- The first instant at which a candidate may be usable.
  pub record Soonest (t : ℕ) : Type 0 where
    pub index : ℕ
    pub key : KeyState
    pub candidate : Candidate index key
    pub busy : Busy key t
    pub first : (j : ℕ) (k : KeyState) (u : ℕ) → Candidate j k → Busy k u → t ≤ u

  -- A usable candidate that comes before all others.
  pub record Serves (lease : Lease) : Type 0 where
    pub key : KeyState
    pub candidate : Candidate lease.idx key
    pub usable : Usable p now key
    pub names : lease ≡ lease_of lease.idx key
    pub first :
        (j : ℕ) (k : KeyState)
        → Candidate j k
        → Usable p now k
        → j ≢ lease.idx
        → Preferred now lease.idx key j k

  -- A candidate is healthy, none is usable, and `t` is when the first one may be.
  pub record Waits (t : ℕ) : Type 0 where
    pub index : ℕ
    pub key : KeyState
    pub candidate : Candidate index key
    pub healthy : is_ok (refresh key now).health ≡ true
    pub none_usable : (j : ℕ) (k : KeyState) → Candidate j k → Usable p now k → ⊥
    pub soonest : Soonest t

  abbrev pub Earliest : Option ℕ → Type 0
  Earliest none = (j : ℕ) (k : KeyState) → get_elem? p.keys j ≡ some k → ⊥
  Earliest (some t) = Soonest t

  module _ (fmt_instant : ℕ → Text) where
    -- No key is healthy; the summary is that of the keys as they stand now.
    pub record Refuses (earliest : Option ℕ) (text : Text) : Type 0 where
      pub sick : (j : ℕ) (k : KeyState) → get_elem? p.keys j ≡ some k → Unhealthy now k
      pub soonest : Earliest earliest
      pub summed : text ≡ summary fmt_instant (refreshed p now)

    -- What a result of `try_acquire` has to say.
    abbrev pub Contract : Result Lease Next → Type 0
    Contract (ok lease) = Serves lease
    Contract (err (Next.at t)) = Waits t
    Contract (err (Next.unavailable earliest text)) = Refuses earliest text
