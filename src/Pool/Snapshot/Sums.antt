-- ===== src/Pool/Snapshot/Sums.antt =====
-- src/pool.rs, `snapshot`: the limits of the whole pool that it reports.
use brave_search_api_rotator.Base.{
  ℕ, ◌+◌, max, ◌≤◌, ◌≡◌, refl, ap, sym, ◌∙◌, inl, inr, arith, Bool, true, false, ◌&&◌, ◌||◌, List,
  [], ◌∷◌, Option, none, some, ltb, unwrap_or, if◌then◌else◌, length, Bool-cases, u64_max,
}
use brave_search_api_rotator.Text.{Text}
use brave_search_api_rotator.Key.{KeyState, is_ok}
use brave_search_api_rotator.Key.Quota.{month_unlimited}
use brave_search_api_rotator.Key.Window.{refresh, availability}
use brave_search_api_rotator.Key.Window.Availability.{availability_keeps}
use brave_search_api_rotator.Pool.{Pool, window}
use brave_search_api_rotator.Pool.Snapshot.{
  PoolSnapshot, observed, tally, survey, snapshot, nothing_seen,
}

-- The requests per second of the keys that are healthy at `now`, at least one for each.
abbrev pub second_sum : ℕ → List KeyState → ℕ
second_sum now [] = 0
second_sum now (k ∷ ks) =
    (if is_ok (refresh k now).health then max k.sec_limit 1 else 0) + second_sum now ks

-- Some key that is healthy at `now` has no monthly limit.
abbrev pub some_unlimited : ℕ → List KeyState → Bool
some_unlimited now [] = false
some_unlimited now (k ∷ ks) =
    (is_ok (refresh k now).health && month_unlimited k) || some_unlimited now ks

-- The sum of what is known.
abbrev pub plus_known : Option ℕ → Option ℕ → Option ℕ
plus_known none b = b
plus_known (some a) none = some a
plus_known (some a) (some b) = some (a + b)

-- The known monthly limits of all the keys that have one.
abbrev pub month_sum : List KeyState → Option ℕ
month_sum [] = none
month_sum (k ∷ ks) = plus_known (if month_unlimited k then none else k.month_limit) (month_sum ks)

plus_known-none : (a : Option ℕ) → plus_known a none ≡ a
plus_known-none none = refl
plus_known-none (some a) = refl

plus_known_assoc :
    (a b c : Option ℕ) → plus_known (plus_known a b) c ≡ plus_known a (plus_known b c)
plus_known_assoc none b c = refl
plus_known_assoc (some a) none c = refl
plus_known_assoc (some a) (some b) none = refl
plus_known_assoc (some a) (some b) (some c) = ap some (omega arith)

plus_known-le : (a b : Option ℕ) → unwrap_or a 0 ≤ unwrap_or (plus_known a b) 0
plus_known-le none b = omega arith
plus_known-le (some a) none = omega arith
plus_known-le (some a) (some b) = omega arith

or_false : (a : Bool) → a ≡ (a || false)
or_false true = refl
or_false false = refl

or_assoc : (a b c : Bool) → ((a || b) || c) ≡ (a || (b || c))
or_assoc true b c = refl
or_assoc false b c = refl

module _ (k : KeyState) (now window : ℕ) where
  abbrev seen : KeyState
  seen = (observed k now window).0

  seen-is_ok : is_ok seen.health ≡ is_ok (refresh k now).health
  seen-is_ok = ap is_ok ((availability_keeps (refresh k now) now window).0)

  seen_limit : seen.sec_limit ≡ k.sec_limit
  unfolding refresh availability
  seen_limit = ground arith

  seen_month_limit : seen.month_limit ≡ k.month_limit
  unfolding refresh availability
  seen_month_limit = ground arith

  seen-month_unlimited : month_unlimited seen ≡ month_unlimited k
  unfolding refresh availability month_unlimited
  seen-month_unlimited = ground arith

  tally_second :
      (out : PoolSnapshot)
      → out.rps_capacity + second_sum now (k ∷ []) ≤ u64_max
      → (tally out seen).rps_capacity ≡ out.rps_capacity + second_sum now (k ∷ [])
  unfolding tally
  tally_second out small = elim (Bool-cases (is_ok (refresh k now).health)) [
    | inl well ↦ rw (seen-is_ok, well, seen_limit) (omega (arith, rw well at small))
    | inr sick ↦ rw (seen-is_ok, sick) (omega arith)
  ]

  tally_unlimited :
      (out : PoolSnapshot)
      → ltb 0 (tally out seen).month_unlimited_keys
        ≡ (ltb 0 out.month_unlimited_keys || (is_ok (refresh k now).health && month_unlimited k))
  unfolding tally
  tally_unlimited out = ground (arith, seen-is_ok, seen-month_unlimited)

  tally_month :
      (out : PoolSnapshot)
      → unwrap_or (plus_known out.month_limit_total (month_sum (k ∷ []))) 0 ≤ u64_max
      → (tally out seen).month_limit_total ≡ plus_known out.month_limit_total (month_sum (k ∷ []))
  unfolding tally
  tally_month out small = ground (arith, seen_month_limit, seen-month_unlimited)

module _ (format_duration fmt_instant : ℕ → Text) where
  abbrev surveyed : ℕ → ℕ → List KeyState → PoolSnapshot → PoolSnapshot
  surveyed now window ks out = (survey format_duration fmt_instant now window ks out).1

  survey_second :
      (now window : ℕ) (ks : List KeyState) (out : PoolSnapshot)
      → out.rps_capacity + second_sum now ks ≤ u64_max
      → (surveyed now window ks out).rps_capacity ≡ out.rps_capacity + second_sum now ks
  unfolding survey
  survey_second now window [] out small = omega arith
  survey_second now window (k ∷ ks) out small =
      let step = tally_second k now window out (omega arith) in
      survey_second now window ks _ (omega (arith, step)) ∙ omega (arith, step)

  survey_unlimited :
      (now window : ℕ) (ks : List KeyState) (out : PoolSnapshot)
      → ltb 0 (surveyed now window ks out).month_unlimited_keys
        ≡ (ltb 0 out.month_unlimited_keys || some_unlimited now ks)
  unfolding survey
  survey_unlimited now window [] out = or_false (ltb 0 out.month_unlimited_keys)
  survey_unlimited now window (k ∷ ks) out =
      survey_unlimited now window ks _
      ∙ ap (λ b. b || some_unlimited now ks) (tally_unlimited k now window out)
      ∙ or_assoc (ltb 0 out.month_unlimited_keys) _ (some_unlimited now ks)

  survey_month :
      (now window : ℕ) (ks : List KeyState) (out : PoolSnapshot)
      → unwrap_or (plus_known out.month_limit_total (month_sum ks)) 0 ≤ u64_max
      → (surveyed now window ks out).month_limit_total
        ≡ plus_known out.month_limit_total (month_sum ks)
  unfolding survey
  survey_month now window [] out small = sym (plus_known-none out.month_limit_total)
  survey_month now window (k ∷ ks) out small =
      let total = out.month_limit_total in
      let here = month_sum (k ∷ []) in
      let parts : plus_known (plus_known total here) (month_sum ks)
          ≡ plus_known total (month_sum (k ∷ ks)) =
        plus_known_assoc total here (month_sum ks)
        ∙ ap (λ m. plus_known total (plus_known m (month_sum ks)))
            (plus_known-none (if month_unlimited k then none else k.month_limit)) in
      let step = tally_month k now window out (
        omega (
          arith,
          ap (λ m. unwrap_or m 0) parts,
          small,
          plus_known-le (plus_known total here) (month_sum ks),
        )) in
      let joined = ap (λ m. plus_known m (month_sum ks)) step ∙ parts in
      survey_month now window ks _ (omega (arith, ap (λ m. unwrap_or m 0) joined)) ∙ joined

  module _ (p : Pool) (now : ℕ) where
    abbrev reported : PoolSnapshot
    reported = (snapshot format_duration fmt_instant p now).1

    abbrev empty : PoolSnapshot
    empty = nothing_seen (fmt_instant now) (length p.keys)

    pub snapshot_second :
        second_sum now p.keys ≤ u64_max → reported.rps_capacity ≡ second_sum now p.keys
    unfolding snapshot
    snapshot_second small = survey_second now (window p) p.keys empty (omega arith) ∙ omega arith

    pub snapshot_unlimited : ltb 0 reported.month_unlimited_keys ≡ some_unlimited now p.keys
    unfolding snapshot
    snapshot_unlimited = survey_unlimited now (window p) p.keys empty

    pub snapshot_month :
        unwrap_or (month_sum p.keys) 0 ≤ u64_max → reported.month_limit_total ≡ month_sum p.keys
    unfolding snapshot
    snapshot_month small = survey_month now (window p) p.keys empty small
