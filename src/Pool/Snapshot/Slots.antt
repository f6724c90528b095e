-- ===== src/Pool/Snapshot/Slots.antt =====
-- src/pool.rs, `snapshot`: the free slots that it reports, and what `try_acquire` makes of them.
use brave_search_api_rotator.Base.{
  ℕ, zero, suc, ◌+◌, ◌*◌, ◌≤◌, ◌<◌, false, ◌≡◌, ◌↔◌, refl, ap, ◌∙◌, inl, inr, arith, List, [], ◌∷◌,
  some, ok, get_elem?, length, Bool-cases, u32_max, u64_max,
}
use brave_search_api_rotator.Text.{Text}
use brave_search_api_rotator.Key.{KeyState, is_ok}
use brave_search_api_rotator.Key.Window.{refresh, free_slots}
use brave_search_api_rotator.Key.Window.Availability.{free_slots-availability, availability_keeps}
use brave_search_api_rotator.Pool.{Pool, Lease, window}
use brave_search_api_rotator.Pool.Select.{try_acquire}
use brave_search_api_rotator.Pool.Select.Keys.{AllAt}
use brave_search_api_rotator.Pool.Select.Promises.{try_acquire-Leased}
use brave_search_api_rotator.Pool.Contract.Idle.{Usable-leased}
use brave_search_api_rotator.Pool.Snapshot.{
  PoolSnapshot, observed, tally, survey, snapshot, nothing_seen,
}

-- The limit of the key fits its type.
abbrev pub LimitFits : ℕ → KeyState → Type 0
LimitFits i k = k.sec_limit ≤ u32_max

kept_limit : (k : KeyState) (now : ℕ) → (refresh k now).sec_limit ≡ k.sec_limit
unfolding refresh
kept_limit k now = ground arith

free_slots_healthy : (k : KeyState) → is_ok k.health ≡ false → free_slots k ≡ 0
unfolding free_slots
free_slots_healthy k sick = ground arith

module _ (now window : ℕ) where
  slots_of : KeyState → ℕ
  slots_of k = free_slots (observed k now window).0

  slot_sum : List KeyState → ℕ
  slot_sum [] = 0
  slot_sum (k ∷ ks) = slots_of k + slot_sum ks

  slots_of-le : (k : KeyState) → k.sec_limit ≤ u32_max → slots_of k ≤ u32_max
  unfolding slots_of free_slots
  slots_of-le k fits =
      ground (arith, availability_keeps (refresh k now) now window, kept_limit k now)

  slot_sum-le :
      (i : ℕ) (ks : List KeyState) → AllAt LimitFits i ks → slot_sum ks ≤ length ks * u32_max
  unfolding slot_sum
  slot_sum-le i [] h = omega arith
  slot_sum-le i (k ∷ ks) h = omega (arith, slots_of-le k h.0, slot_sum-le (suc i) ks h.1)

  -- There are slots exactly if some key has one.
  slot_sum_found :
      (ks : List KeyState)
      → 0 < slot_sum ks
      → (j : ℕ) × (k : KeyState) × (get_elem? ks j ≡ some k) × (0 < slots_of k)
  unfolding slot_sum
  slot_sum_found [] h = absurd (omega arith)
  slot_sum_found (k ∷ ks) h = by_first (slots_of k) refl (slot_sum_found ks)
    where
      by_first :
          (n : ℕ)
          → slots_of k ≡ n
          → (0 < slot_sum ks
              → (j : ℕ) × (l : KeyState) × (get_elem? ks j ≡ some l) × (0 < slots_of l))
          → (j : ℕ) × (l : KeyState) × (get_elem? (k ∷ ks) j ≡ some l) × (0 < slots_of l)
      by_first zero e rest = let (j, l, there, free) = rest (omega arith) in (suc j, l, there, free)
      by_first (suc n) e rest = (0, k, refl, omega arith)

  slot_sum_pos :
      (ks : List KeyState) (j : ℕ) (k : KeyState)
      → get_elem? ks j ≡ some k
      → 0 < slots_of k
      → 0 < slot_sum ks
  unfolding slot_sum
  slot_sum_pos [] j k there free = cc
  slot_sum_pos (l ∷ ks) zero k there free =
      let same : l ≡ k = ground arith in omega (arith, ap slots_of same)
  slot_sum_pos (l ∷ ks) (suc j) k there free = omega (arith, slot_sum_pos ks j k there free)

module _ (format_duration fmt_instant : ℕ → Text) where
  survey-slots :
      (now window : ℕ) (ks : List KeyState) (out : PoolSnapshot)
      → out.slots_available_now + slot_sum now window ks ≤ u64_max
      → (survey format_duration fmt_instant now window ks out).1.slots_available_now
        ≡ out.slots_available_now + slot_sum now window ks
  unfolding survey tally slot_sum slots_of
  survey-slots now window [] out small = omega arith
  survey-slots now window (k ∷ ks) out small =
      survey-slots now window ks _ (omega (arith, step)) ∙ omega (arith, step)
    where
      step :
          (tally out (observed k now window).0).slots_available_now
          ≡ out.slots_available_now + slots_of now window k
      step = elim (Bool-cases (is_ok (observed k now window).0.health)) [
        | inl well ↦ ground arith
        | inr sick ↦ ground (arith, free_slots_healthy (observed k now window).0 sick)
      ]

  module _ (p : Pool) (now : ℕ) where
    slots_counted :
        length p.keys ≤ u32_max
        → AllAt LimitFits 0 p.keys
        → (snapshot format_duration fmt_instant p now).1.slots_available_now
          ≡ slot_sum now (window p) p.keys
    unfolding snapshot
    slots_counted few fits =
        survey-slots now (window p) p.keys (nothing_seen (fmt_instant now) (length p.keys))
          (omega (arith, slot_sum-le now (window p) 0 p.keys fits))
        ∙ omega arith

    -- If the pool has fewer than 2^32 keys, and their limits fit 32 bits, its report shows a free slot
    -- exactly if an attempt to acquire a key at the same time, with none excluded, gives a lease.
    pub slots-try_acquire :
        length p.keys ≤ u32_max
        → AllAt LimitFits 0 p.keys
        → (0 < (snapshot format_duration fmt_instant p now).1.slots_available_now)
          ↔ ((lease : Lease) × ((try_acquire fmt_instant p now []).1 ≡ ok lease))
    slots-try_acquire few fits = (leased, free)
      where
        leased :
            0 < (snapshot format_duration fmt_instant p now).1.slots_available_now
            → (lease : Lease) × ((try_acquire fmt_instant p now []).1 ≡ ok lease)
        leased some_free =
            let (j, k, there, slot) =
              slot_sum_found now (window p) p.keys (omega (arith, slots_counted few fits)) in
            Usable-leased fmt_instant p now j k there
              ((free_slots-availability (refresh k now) now (window p)).0 (unfold slots_of in slot))

        free :
            (lease : Lease) × ((try_acquire fmt_instant p now []).1 ≡ ok lease)
            → 0 < (snapshot format_duration fmt_instant p now).1.slots_available_now
        free (lease, e) =
            let l = try_acquire-Leased fmt_instant p now [] lease e in
            let slot = (free_slots-availability (refresh l.key now) now (window p)).1 l.usable in
            omega (
              arith,
              slots_counted few fits,
              slot_sum_pos now (window p) p.keys lease.idx l.key l.there (unfold slots_of in slot),
            )
