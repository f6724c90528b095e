-- ===== src/Pool/Contract/Idle.antt =====
-- src/pool.rs, `try_acquire`: a pool with a usable key gives a lease.
use brave_search_api_rotator.Base.{ℕ, [], some, Result, ok, err, ◌≡◌, refl, inl, get_elem?}
use brave_search_api_rotator.Text.{Text}
use brave_search_api_rotator.Key.{KeyState}
use brave_search_api_rotator.Key.Window.{refresh}
use brave_search_api_rotator.Key.Window.Availability.{availability_healthy}
use brave_search_api_rotator.Pool.{Pool, Lease, Next, window}
use brave_search_api_rotator.Pool.Select.{try_acquire}
use brave_search_api_rotator.Pool.Select.Outcomes.{Usable}
use brave_search_api_rotator.Pool.Contract.{Candidate}
use brave_search_api_rotator.Pool.Contract.Refines.{try_acquire-Contract}

module _ (fmt_instant : ℕ → Text) (p : Pool) (now : ℕ) where
  -- With a usable key and none excluded, the pool gives a lease.
  pub Usable-leased :
      (j : ℕ) (k : KeyState)
      → get_elem? p.keys j ≡ some k
      → Usable p now k
      → (lease : Lease) × ((try_acquire fmt_instant p now []).1 ≡ ok lease)
  Usable-leased j k there usable = by_result (try_acquire fmt_instant p now []).1 refl
    where
      here : Candidate p now [] j k
      here = record { there = there; allowed = inl refl }

      by_result :
          (r : Result Lease Next)
          → (try_acquire fmt_instant p now []).1 ≡ r
          → (lease : Lease) × ((try_acquire fmt_instant p now []).1 ≡ ok lease)
      by_result (ok lease) e = (lease, e)
      by_result (err (Next.at t)) e =
          absurd (((try_acquire-Contract fmt_instant p now [] _).0 e).none_usable j k here usable)
      by_result (err (Next.unavailable earliest text)) e =
          let sick = ((try_acquire-Contract fmt_instant p now [] _).0 e).sick j k there in
          absurd (cc (sick, availability_healthy (refresh k now) now (window p) usable))
