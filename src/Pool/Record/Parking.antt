-- ===== src/Pool/Record/Parking.antt =====
-- src/pool.rs, `record`: when a success or a 429 parks, holds or disables a key.
use brave_search_api_rotator.Base.{
  ℕ, ◌+◌, ◌≤◌, ◌<◌, true, false, Option, none, some, ◌≡◌, refl, arith, ◌↔◌, inl, inr, u64_max,
  unwrap_or, add_u64, Bool-cases, and_then,
}
use brave_search_api_rotator.Text.{Text}
use brave_search_api_rotator.RateLimit.{RateLimitInfo, month_reset}
use brave_search_api_rotator.Key.{KeyState, Health, override_cap_fallback, exhausted_fallback}
use brave_search_api_rotator.Key.Quota.{learn_limits, override_cap_exhausted, effective_month_used}
use brave_search_api_rotator.Key.Window.{refresh}
use brave_search_api_rotator.Key.Backoff.{exhaust}
use brave_search_api_rotator.Pool.{response}
use brave_search_api_rotator.Pool.Record.{
  digest, by_status, on_success, mark_ok, detail_of, says_exhausted,
}
use brave_search_api_rotator.Pool.Record.Statuses.{seen}

-- The successes counted so far have reached the key's own cap.
abbrev pub CapReached : Option ℕ → ℕ → Type 0
CapReached none count = ⊥
CapReached (some c) count = c ≤ count

override_cap_exhausted_iff :
    (k : KeyState)
    → (override_cap_exhausted k ≡ true) ↔ CapReached k.monthly_cap_override k.stats.ok
unfolding override_cap_exhausted
override_cap_exhausted_iff k = by_cap k.monthly_cap_override refl
  where
    by_cap :
        (c : Option ℕ)
        → k.monthly_cap_override ≡ c
        → (override_cap_exhausted k ≡ true) ↔ CapReached k.monthly_cap_override k.stats.ok
    by_cap none e = rw (e, override_cap_exhausted) ((λ h. cc), (λ h. absurd h))
    by_cap (some c) e = rw (e, override_cap_exhausted, effective_month_used) (ground arith)

-- The health of a key after it counted a success.
pub record ParksIfSpent (k : KeyState) (now : ℕ) (rl : Option RateLimitInfo) (count : ℕ)
    (h : Health) : Type 0 where
  pub month_over :
      says_exhausted rl ≡ true
      → h ≡ Health.exhausted (now + unwrap_or (and_then rl month_reset) exhausted_fallback)
  pub cap_reached :
      says_exhausted rl ≡ false
      → CapReached k.monthly_cap_override count
      → h ≡ Health.exhausted (now + unwrap_or (and_then rl month_reset) override_cap_fallback)
  pub otherwise :
      says_exhausted rl ≡ false → ¬ CapReached k.monthly_cap_override count → h ≡ k.health

on_success-ParksIfSpent :
    (k : KeyState) (now : ℕ) (rl : Option RateLimitInfo)
    → ParksIfSpent k now rl (add_u64 k.stats.ok 1) (on_success k now rl).health
unfolding on_success exhaust
on_success-ParksIfSpent k now rl =
    let reached = override_cap_exhausted_iff (mark_ok k now) in
    record {
      month_over = λ h. ground arith;
      cap_reached = λ h c. let r = reached.1 c in rw (h, r);
      otherwise = λ h c. elim (Bool-cases (override_cap_exhausted (mark_ok k now))) [
        | inl r ↦ absurd (c (reached.0 r))
        | inr r ↦ rw (h, r)
      ];
    }

by_status-2xx :
    (k : KeyState) (now status : ℕ) (rl : Option RateLimitInfo) (detail : Text)
    → 200 ≤ status
    → status ≤ 299
    → (by_status k now status rl detail).0 ≡ on_success k now rl
unfolding by_status
by_status-2xx k now status rl detail lo hi = ground arith

-- After a 2xx the key is parked until the reported reset (six hours if none is reported) when the headers say that the
-- month is used up; else, when the successes counted have reached the key's own cap, until the
-- reported reset (thirty days if none is reported); else its health is as before.
pub digest-ParksIfSpent :
    (k : KeyState) (now status : ℕ) (rl : Option RateLimitInfo) (body : Option Text)
    → 200 ≤ status
    → status ≤ 299
    → ParksIfSpent k now rl (add_u64 k.stats.ok 1) (digest k now (response status rl body)).0.health
unfolding digest learn_limits
digest-ParksIfSpent k now status none body lo hi =
    rw (by_status-2xx _ now status none (detail_of body) lo hi)
      (as_seen (on_success-ParksIfSpent _ now none))
  where
    as_seen :
        ParksIfSpent
          (seen k now status none)
          now
          none
          (add_u64 k.stats.ok 1)
          (on_success (seen k now status none) now none).health
        → ParksIfSpent k now none
            (add_u64 k.stats.ok 1)
            (on_success (seen k now status none) now none).health
    as_seen p = record {
      month_over = p.month_over;
      cap_reached = p.cap_reached;
      otherwise = p.otherwise;
    }
digest-ParksIfSpent k now status (some r) body lo hi =
    rw (by_status-2xx _ now status (some r) (detail_of body) lo hi)
      (as_seen (on_success-ParksIfSpent _ now (some r)))
  where
    as_seen :
        ParksIfSpent
          (seen k now status (some r))
          now
          (some r)
          (add_u64 k.stats.ok 1)
          (on_success (seen k now status (some r)) now (some r)).health
        → ParksIfSpent k now
            (some r)
            (add_u64 k.stats.ok 1)
            (on_success (seen k now status (some r)) now (some r)).health
    as_seen p = record {
      month_over = p.month_over;
      cap_reached = p.cap_reached;
      otherwise = p.otherwise;
    }

refresh-counts :
    (k : KeyState) (now : ℕ)
    → ((refresh k now).stats.ok ≡ k.stats.ok)
      × ((refresh k now).monthly_cap_override ≡ k.monthly_cap_override)
unfolding refresh
refresh-counts k now = ground arith

-- Once the successes of a key have reached its own cap, a 2xx parks it again, whenever the refresh
-- before it was, as long as the count of successes does not wrap.
pub capped_key_parks_again :
    (k : KeyState) (cap_value later now status : ℕ) (rl : Option RateLimitInfo) (body : Option Text)
    → k.monthly_cap_override ≡ some cap_value
    → cap_value ≤ k.stats.ok
    → k.stats.ok < u64_max
    → 200 ≤ status
    → status ≤ 299
    → (until : ℕ) × ((digest (refresh k later) now (response status rl body)).0.health
        ≡ Health.exhausted until)
capped_key_parks_again k c later now status rl body capped reached fits lo hi =
    elim (Bool-cases (says_exhausted rl)) [
      | inl over ↦ (_, parks.month_over over)
      | inr not_over ↦ (_, parks.cap_reached not_over still)
    ]
  where
    parks :
        ParksIfSpent
          (refresh k later)
          now
          rl
          (add_u64 (refresh k later).stats.ok 1)
          (digest (refresh k later) now (response status rl body)).0.health
    parks = digest-ParksIfSpent (refresh k later) now status rl body lo hi

    kept :
        ((refresh k later).stats.ok ≡ k.stats.ok)
        × ((refresh k later).monthly_cap_override ≡ k.monthly_cap_override)
    kept = refresh-counts k later

    still : CapReached (refresh k later).monthly_cap_override (add_u64 (refresh k later).stats.ok 1)
    still = ground (arith, kept)
