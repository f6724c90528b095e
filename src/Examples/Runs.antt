-- ===== src/Examples/Runs.antt =====
-- Pools like those of the unit tests in src/pool.rs, and runs on them.
use brave_search_api_rotator.Base.{
  ℕ, ◌+◌, ◌*◌, List, [], ◌∷◌, none, some, Result, ok, err, ◌≡◌, refl,
}
use brave_search_api_rotator.Text.{Text, codes}
use brave_search_api_rotator.RateLimit.{RateLimitInfo, no_windows}
use brave_search_api_rotator.Key.{KeyState, new_key, label_of}
use brave_search_api_rotator.Key.Window.{refresh, availability, prune}
use brave_search_api_rotator.Key.Quota.{month_remaining_for_ranking}
use brave_search_api_rotator.Text.Numbers.{to_string}
use brave_search_api_rotator.Pool.{Pool, PoolConfig, Lease, Next, new, new_keys}
use brave_search_api_rotator.Pool.Select.{try_acquire, mark_sent}
use brave_search_api_rotator.Pool.Record.{record_outcome}

-- What a run of the pool computes with.
unfoldable pub running : Unit {0}
unfolding try_acquire record_outcome new new_keys new_key refresh availability prune label_of
    to_string mark_sent month_remaining_for_ranking
running = tt

abbrev pub no_clock : ℕ → Text
no_clock t = []

abbrev pub millis : ℕ → ℕ
millis n = n * 1_000_000

abbrev pub config : PoolConfig
config = record { window_margin = millis 100; default_rps = 1; monthly_limits = [] }

abbrev pub tokens : List Text
tokens = codes "BSA0000key" ∷ codes "BSA0001key" ∷ []

abbrev pub pool : Pool
pool = new tokens config

abbrev pub key_0 : KeyState
key_0 = new_key 0 (codes "BSA0000key") 1 none

abbrev pub key_1 : KeyState
key_1 = new_key 1 (codes "BSA0001key") 1 none

abbrev pub lease_0 : Lease
lease_0 = record { idx = 0; token = codes "BSA0000key"; label = codes "k1:..0key" }

abbrev pub lease_1 : Lease
lease_1 = record { idx = 1; token = codes "BSA0001key"; label = codes "k2:..1key" }

-- Headers as the unit tests' `rl` makes them.
abbrev pub rl : ℕ × ℕ → ℕ × ℕ → ℕ × ℕ → RateLimitInfo
rl (l, lm) (r, rm) (s, sm) = record {
  limit = record { second = some l; month = some lm };
  remaining = record { second = some r; month = some rm };
  reset = record { second = some s; month = some sm };
  window = no_windows;
  retry_after = none;
}

abbrev pub first_lease : Pool × Result Lease Next
first_lease = try_acquire no_clock pool 1000 []

pub leases_0 : first_lease.1 ≡ ok lease_0
unfolding running
leases_0 = refl

abbrev pub second_lease : Pool × Result Lease Next
second_lease = try_acquire no_clock first_lease.0 1000 []

leases_1 : second_lease.1 ≡ ok lease_1
unfolding running
leases_1 = refl

-- All keys used within the window: nothing until it passes.
pub waits :
    (try_acquire no_clock second_lease.0 (millis 500) []).1 ≡ err (Next.at (1000 + millis 1100))
unfolding running
waits = refl

-- The least recently used key comes first again.
leases_again : (try_acquire no_clock second_lease.0 (1000 + millis 1100) []).1 ≡ ok lease_0
unfolding running
leases_again = refl
