-- ===== src/Main/Reports.antt =====
-- src/main.rs, `reporter`: whom it warns about.
use brave_search_api_rotator.Base.{
  ℕ, suc, ◌+◌, ◌≡◌, refl, ap, ◌∙◌, inl, inr, arith, true, false, not, List, [], ◌∷◌, ◌++◌, map,
  Result, ok, err, if◌then◌else◌, length, Bool-cases,
}
use brave_search_api_rotator.Text.{Text, equal}
use brave_search_api_rotator.Key.{KeyState, Health, is_ok}
use brave_search_api_rotator.Pool.{Pool, window}
use brave_search_api_rotator.Pool.Snapshot.{
  KeySnapshot, PoolSnapshot, observed, standing, key_snapshot, tally, survey, snapshot,
  nothing_seen, held_at,
}
use brave_search_api_rotator.Main.{is_parked, parked_rows, key_line, report}

length-map : (f : KeySnapshot → Text) (xs : List KeySnapshot) → length (map f xs) ≡ length xs
length-map f [] = refl
length-map f (x ∷ xs) = ap suc (length-map f xs)

module _ (format_duration fmt_instant : ℕ → Text) where
  is_parked-key_snapshot :
      (k : KeyState) (avail : Result (Unit {0}) ℕ) (now : ℕ)
      → is_parked (key_snapshot format_duration fmt_instant k avail now) ≡ not (is_ok k.health)
  unfolding is_parked key_snapshot standing equal
  is_parked-key_snapshot k avail now = by_health k.health refl
    where
      by_avail :
          (r : Result (Unit {0}) ℕ)
          → avail ≡ r
          → held_at k.hold_until now ≡ false
          → k.health ≡ Health.ok
          → is_parked (key_snapshot format_duration fmt_instant k avail now) ≡ not (is_ok k.health)
      by_avail (ok u) f free e = rw (e, free, f) refl
      by_avail (err at) f free e = rw (e, free, f) refl

      by_health :
          (h : Health)
          → k.health ≡ h
          → is_parked (key_snapshot format_duration fmt_instant k avail now) ≡ not (is_ok k.health)
      by_health Health.ok e = elim (Bool-cases (held_at k.hold_until now)) [
        | inl held ↦ rw (e, held) refl
        | inr free ↦ by_avail avail refl free e
      ]
      by_health (Health.disabled until reason) e = rw e refl
      by_health (Health.exhausted until) e = rw e refl

  length-parked_rows :
      (rows : List KeySnapshot) (r : KeySnapshot)
      → length (parked_rows (rows ++ r ∷ []))
        ≡ length (parked_rows rows) + (if is_parked r then 1 else 0)
  unfolding parked_rows
  length-parked_rows [] r = ground arith
  length-parked_rows (k ∷ rows) r = ground (arith, length-parked_rows rows r)

  -- Each key is counted as healthy, or it has a row that is parked.
  survey-parked_rows :
      (now window : ℕ) (ks : List KeyState) (out : PoolSnapshot)
      → let seen = (survey format_duration fmt_instant now window ks out).1 in
        length (parked_rows seen.keys) + seen.keys_healthy
        ≡ (length (parked_rows out.keys) + out.keys_healthy) + length ks
  unfolding survey tally
  survey-parked_rows now window [] out = omega arith
  survey-parked_rows now window (k ∷ ks) out = survey-parked_rows now window ks _ ∙ step
    where
      k' : KeyState
      k' = (observed k now window).0

      row : KeySnapshot
      row = key_snapshot format_duration fmt_instant k' (observed k now window).1 now

      step :
          (length (parked_rows (out.keys ++ row ∷ [])) + (tally out k').keys_healthy) + length ks
          ≡ (length (parked_rows out.keys) + out.keys_healthy) + length (k ∷ ks)
      step = elim (Bool-cases (is_ok k'.health)) [
        | inl well ↦
            let fine : is_parked row ≡ false = is_parked-key_snapshot k' _ now ∙ ap not well in
            rw (length-parked_rows out.keys row, fine, well) (omega arith)
        | inr sick ↦
            let parked : is_parked row ≡ true = is_parked-key_snapshot k' _ now ∙ ap not sick in
            rw (length-parked_rows out.keys row, parked, sick) (omega arith)
      ]

  -- Each round prints one warning for each key that its report does not count as healthy.
  pub length-report :
      (p : Pool) (now : ℕ)
      → length (report format_duration fmt_instant p now).1.warnings
          + (snapshot format_duration fmt_instant p now).1.keys_healthy
        ≡ length p.keys
  unfolding report snapshot
  length-report p now = omega (
    arith,
    length-map key_line (parked_rows (snapshot format_duration fmt_instant p now).1.keys),
    survey-parked_rows now (window p) p.keys (nothing_seen (fmt_instant now) (length p.keys)),
  )
