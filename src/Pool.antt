-- ===== src/Pool.antt =====
-- src/pool.rs, `Pool`: its data, `new` and the sliding window's length. The mutex is the order of
-- the operations: each of them runs on the whole pool and returns the new one.
pub mod Select
pub mod Contract
pub mod Acquire
pub mod Record
pub mod Snapshot
pub mod History
use brave_search_api_rotator.Base.{
  ℕ, suc, ◌+◌, List, [], ◌∷◌, Option, none, some, get_elem?, and_then, length,
}
use brave_search_api_rotator.Text.{Text}
use brave_search_api_rotator.RateLimit.{RateLimitInfo}
use brave_search_api_rotator.Key.{KeyState, new_key, window_base}

pub data Verdict : Type 0 where
  ok : Verdict
  retry_other_key : Verdict
  return_to_client : Verdict

-- `response` has the status, the rate-limit headers and the start of the body.
pub data Outcome : Type 0 where
  response : ℕ → Option RateLimitInfo → Option Text → Outcome
  transport : Text → Outcome

pub record Lease : Type 0 where
  pub idx : ℕ
  pub token : Text
  pub label : Text

-- `unavailable` has the earliest instant and the summary.
pub data Next : Type 0 where
  at : ℕ → Next
  unavailable : Option ℕ → Text → Next

-- Each has its `retry_after`, the second one the summary too.
pub data AcquireError : Type 0 where
  saturated : ℕ → AcquireError
  unavailable : Option ℕ → Text → AcquireError

pub record PoolConfig : Type 0 where
  pub window_margin : ℕ
  pub default_rps : ℕ
  pub monthly_limits : List (Option ℕ)

pub record Pool : Type 0 where
  pub keys : List KeyState
  pub cfg : PoolConfig

-- `get(i).copied().flatten()`.
abbrev pub cap_at : List (Option ℕ) → ℕ → Option ℕ
cap_at limits i = and_then (get_elem? limits i) (λ o. o)

unfoldable pub new_keys : PoolConfig → ℕ → List Text → List KeyState
new_keys cfg i [] = []
new_keys cfg i (k ∷ ks) =
    new_key i k cfg.default_rps (cap_at cfg.monthly_limits i) ∷ new_keys cfg (suc i) ks

unfoldable pub new : List Text → PoolConfig → Pool
new keys cfg = record { keys = new_keys cfg 0 keys; cfg = cfg }

abbrev pub len : Pool → ℕ
len p = length p.keys

abbrev pub window : Pool → ℕ
window p = window_base + p.cfg.window_margin
