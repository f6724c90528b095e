-- ===== src/Pool/History.antt =====
-- Histories of the pool: what any number of tasks do to it, in the order in which they hold the
-- mutex, with the time that each of them read.
pub mod Tracks
pub mod Granting
pub mod Limit
pub mod Keeps
pub mod Valid
pub mod Reported
pub mod Spacing
pub mod Arrivals
pub mod Same
pub mod Unseen
pub mod Cooling
use brave_search_api_rotator.Base.{
  ℕ, List, [], ◌∷◌, ◌++◌, Option, none, some, Result, ok, err, if◌then◌else◌, ◌==◌, ◌≤◌,
}
use brave_search_api_rotator.Text.{Text}
use brave_search_api_rotator.Pool.{Pool, Outcome, Lease, Next}
use brave_search_api_rotator.Pool.Select.{try_acquire}
use brave_search_api_rotator.Pool.Record.{record_outcome}
use brave_search_api_rotator.Pool.Snapshot.{snapshot}

-- `try_acquire`, `record` and `snapshot`, each with its time first.
pub data Event : Type 0 where
  acquires : ℕ → List ℕ → Event
  records : ℕ → ℕ → Outcome → Event
  snapshots : ℕ → Event

abbrev pub time : Event → ℕ
time (acquires now exclude) = now
time (records now idx outcome) = now
time (snapshots now) = now

-- The sends granted so far, oldest first: the key's index and the time.
abbrev pub Grants : Type 0
Grants = List (ℕ × ℕ)

abbrev pub granted : ℕ → Result Lease Next → Grants
granted now (ok lease) = (lease.idx, now) ∷ []
granted now (err n) = []

module _ (format_duration fmt_instant : ℕ → Text) where
  unfoldable pub step : Pool × Grants → Event → Pool × Grants
  step (p, g) (acquires now exclude) =
      let tried = try_acquire fmt_instant p now exclude in (tried.0, g ++ granted now tried.1)
  step (p, g) (records now idx outcome) = ((record_outcome p now idx outcome).0, g)
  step (p, g) (snapshots now) = ((snapshot format_duration fmt_instant p now).0, g)

  unfoldable pub run : Pool × Grants → List Event → Pool × Grants
  unfolding step
  run s [] = s
  run s (e ∷ es) = run (step s e) es

-- The times do not fall, and none lies before `from` or after `to`.
abbrev pub InOrder : ℕ → List Event → ℕ → Type 0
InOrder from [] to = from ≤ to
InOrder from (e ∷ es) to = (from ≤ time e) × InOrder (time e) es to

-- The times at which a key was granted, oldest first.
unfoldable pub sends_of : ℕ → Grants → List ℕ
sends_of i [] = []
sends_of i ((j, t) ∷ g) = if j == i then t ∷ sends_of i g else sends_of i g
