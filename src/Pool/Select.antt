-- ===== src/Pool/Select.antt =====
-- src/pool.rs, `try_acquire`: the choice of a key at one instant.
pub mod Keys
pub mod Best
pub mod First
pub mod Earliest
pub mod Passes
pub mod Waits
pub mod Selected
pub mod Outcomes
pub mod Whole
pub mod Promises
pub mod Alike
use brave_search_api_rotator.Base.{
  ℕ, suc, ◌+◌, min, Bool, true, false, ◌&&◌, ◌||◌, not, List, [], ◌∷◌, ◌++◌, Option, none, some,
  map, Result, ok, err, ltb, ◌==◌, if◌then◌else◌, get_elem?, set, contains, is_empty, is_none,
  unwrap_or, add_u64,
}
use brave_search_api_rotator.Text.{Text, codes}
use brave_search_api_rotator.Key.{KeyState, Health, is_ok}
use brave_search_api_rotator.Key.Quota.{month_remaining_for_ranking}
use brave_search_api_rotator.Key.Window.{refresh, availability}
use brave_search_api_rotator.Pool.{Pool, Lease, Next, window}

-- Lower is better: least recently used, then the most quota left (`Reverse` in the source).
pub record Score : Type 0 where
  pub last_used : Option ℕ
  pub remaining : ℕ

-- `Ord` on `Option`: `None` is least.
abbrev pub option_lt : Option ℕ → Option ℕ → Bool
option_lt none none = false
option_lt none (some b) = true
option_lt (some a) none = false
option_lt (some a) (some b) = ltb a b

abbrev pub option_eq : Option ℕ → Option ℕ → Bool
option_eq none none = true
option_eq none (some b) = false
option_eq (some a) none = false
option_eq (some a) (some b) = a == b

abbrev pub score_lt : Score → Score → Bool
score_lt s t =
    option_lt s.last_used t.last_used
    || (option_eq s.last_used t.last_used && ltb t.remaining s.remaining)

abbrev pub score_of : KeyState → Score
score_of k = record { last_used = k.last_used; remaining = month_remaining_for_ranking k }

-- The three variables of the loop in `pick`.
pub record Picked : Type 0 where
  pub best : Option (ℕ × Score)
  pub next : Option ℕ
  pub any_healthy : Bool

abbrev pub nothing_picked : Picked
nothing_picked = record { best = none; next = none; any_healthy = false }

-- `best.is_none_or(|(_, s)| score < *s)`.
abbrev pub improves : Score → Option (ℕ × Score) → Bool
improves s none = true
improves s (some (i, t)) = score_lt s t

-- `next.map_or(at, |n| n.min(at))`.
abbrev pub sooner : Option ℕ → ℕ → ℕ
sooner none at = at
sooner (some n) at = min n at

-- The end of the loop's body: a free key may become the best one, a busy one bounds the wait.
abbrev pub note : Result (Unit {0}) ℕ → ℕ → KeyState → Picked → Picked
note (ok _) i k p =
    if improves (score_of k) p.best then record p { best = some (i, score_of k) } else p
note (err at) i k p = record p { next = some (sooner p.next at) }

-- The loop's body for a key that is not skipped: the key afterwards, and the loop's variables.
unfoldable pub consider : ℕ → ℕ → ℕ → KeyState → Picked → KeyState × Picked
consider now window i k p =
    let avail = availability k now window in
    (avail.0, note avail.1 i avail.0 (record p { any_healthy = is_ok k.health || p.any_healthy }))

-- The loop over the keys from index `i` on.
unfoldable pub pick : ℕ → ℕ → (ℕ → Bool) → ℕ → List KeyState → Picked → List KeyState × Picked
unfolding consider
pick now window skip i [] p = ([], p)
pick now window skip i (k ∷ ks) p =
    let here = if skip i then (k, p) else consider now window i k p in
    let rest = pick now window skip (suc i) ks here.1 in (here.0 ∷ rest.0, rest.1)

-- Both calls of the closure `pick`.
unfoldable pub select : ℕ → ℕ → List ℕ → List KeyState → List KeyState × Picked
unfolding pick
select now window exclude keys =
    let first = pick now window (contains exclude) 0 keys nothing_picked in
    if is_none first.1.best && (not (is_empty exclude) && not first.1.any_healthy)
    then pick now window (λ _. false) 0 first.0 nothing_picked
    else first

-- The bookkeeping of a send.
unfoldable pub mark_sent : KeyState → ℕ → KeyState
mark_sent k now = record k {
  sends = k.sends ++ now ∷ [];
  last_used = some now;
  stats = record k.stats { requests = add_u64 k.stats.requests 1 };
}

abbrev pub lease_of : ℕ → KeyState → Lease
lease_of i k = record { idx = i; token = k.token; label = k.label }

-- `fmt_instant` reads the wall clock and formats through the crate `humantime`: a parameter.
module _ (fmt_instant : ℕ → Text) where
  abbrev health_summary : Health → Text → Text
  health_summary Health.ok label = label ++ codes " ok"
  health_summary (Health.disabled until reason) label =
      label ++ (codes " disabled (" ++ (reason ++ (codes ") until " ++ fmt_instant until)))
  health_summary (Health.exhausted until) label =
      label ++ (codes " monthly quota exhausted until " ++ fmt_instant until)

  -- `join("; ")` over the keys.
  unfoldable pub summary : List KeyState → Text
  summary [] = []
  summary (k ∷ []) = health_summary k.health k.label
  summary (k ∷ l ∷ ks) = health_summary k.health k.label ++ (codes "; " ++ summary (l ∷ ks))

  -- The final `match`. An index outside the pool would panic; `select-chosen` shows there is none.
  unfoldable pub conclude : ℕ → List KeyState → Picked → List KeyState × Result Lease Next
  conclude now keys p = elim p.best [
    | some (i, s) ↦ elim (get_elem? keys i) [
      | some k ↦ (set keys i (mark_sent k now), ok (lease_of i k))
      | none ↦ (keys, err (Next.at now))
    ]
    | none ↦
        if p.any_healthy
        then (keys, err (Next.at (unwrap_or p.next now)))
        else (keys, err (Next.unavailable p.next (summary keys)))
  ]

  unfoldable pub try_acquire : Pool → ℕ → List ℕ → Pool × Result Lease Next
  unfolding select conclude
  try_acquire p now exclude =
      let chosen = select now (window p) exclude (map (λ k. refresh k now) p.keys) in
      let done = conclude now chosen.0 chosen.1 in (record p { keys = done.0 }, done.1)
