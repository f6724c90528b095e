-- ===== src/Pool/History/Granting.antt =====
-- The sends granted with each key, and what one operation on the pool does to them.
use mathlib.Core.List.{append-nil}
use brave_search_api_rotator.Base.{
  ℕ, suc, ◌+◌, ◌≤◌, ◌<◌, max, List, [], ◌∷◌, ◌++◌, some, Result, ok, err, ◌≡◌, refl, sym, ◌∙◌, ap,
  subst, arith, length, u32_max, inl, inr, ◌==◌, map, get_elem?, set, Option-cases, Bool-cases,
  ==_iff,
}
use brave_search_api_rotator.Text.{Text}
use brave_search_api_rotator.Key.{KeyState, new_key}
use brave_search_api_rotator.Key.Window.{refresh, availability}
use brave_search_api_rotator.Key.Window.Availability.{availability_keeps, availability-room}
use brave_search_api_rotator.Key.Window.Sliding.{count_recent}
use brave_search_api_rotator.Pool.{Pool, PoolConfig, Outcome, Lease, Next, window, new_keys}
use brave_search_api_rotator.Pool.Select.{mark_sent, try_acquire, select, conclude, Picked}
use brave_search_api_rotator.Pool.Select.Keys.{
  AllAt, AllAt-map, AllAt-mono, AllAt-set, AllAt-get_elem?,
}
use brave_search_api_rotator.Pool.Select.Selected.{select-AllAt, select-Selected}
use brave_search_api_rotator.Pool.Select.Outcomes.{
  conclude-ok, conclude-err, refreshed, get_elem?-refreshed,
}
use brave_search_api_rotator.Pool.Record.{record_outcome}
use brave_search_api_rotator.Pool.Snapshot.{survey, PoolSnapshot}
use brave_search_api_rotator.Pool.History.{Grants, sends_of, granted}
use brave_search_api_rotator.Pool.History.Tracks.{
  Tracks, Tracks-later, refresh-Tracks, availability-Tracks, digest-Tracks, mark_sent-Tracks,
  Tracks-recent, refresh-sends,
}

-- Every key of the pool tracks the sends granted with it.
abbrev pub AllTrack : ℕ → ℕ → Grants → ℕ → List KeyState → Type 0
AllTrack now window g = AllAt (λ i k. Tracks now window (sends_of i g) k)

pub sends_of-append : (i : ℕ) (g h : Grants) → sends_of i (g ++ h) ≡ sends_of i g ++ sends_of i h
unfolding sends_of
sends_of-append i [] h = refl
sends_of-append i ((j, t) ∷ g) h = elim (Bool-cases (j == i)) [
  | inl hit ↦ rw hit (ap (λ xs. t ∷ xs) (sends_of-append i g h))
  | inr miss ↦ rw miss (sends_of-append i g h)
]

pub sends_of_self : (i t : ℕ) → sends_of i ((i, t) ∷ []) ≡ t ∷ []
unfolding sends_of
sends_of_self i t = rw ((==_iff i i).1 refl)

sends_of_other : (i j t : ℕ) → (i ≡ j → ⊥) → sends_of i ((j, t) ∷ []) ≡ []
unfolding sends_of
sends_of_other i j t ne = elim (Bool-cases (j == i)) [
  | inl hit ↦ absurd (ne (sym ((==_iff j i).0 hit)))
  | inr miss ↦ rw miss
]

-- A grant of another key.
pub sends_of_others :
    (i j t : ℕ) (g : Grants) → (i ≡ j → ⊥) → sends_of i (g ++ (j, t) ∷ []) ≡ sends_of i g
sends_of_others i j t g ne =
    sends_of-append i g ((j, t) ∷ []) ∙ rw (sends_of_other i j t ne) (append-nil (sends_of i g))

module _ (window_len : ℕ) (w : 0 < window_len) (g : Grants) where
  pub AllTrack-later :
      (now later : ℕ) (ks : List KeyState)
      → now ≤ later
      → AllTrack now window_len g 0 ks
      → AllTrack later window_len g 0 ks
  AllTrack-later now later ks h =
      AllAt-mono _ _ (λ i k. Tracks-later now window_len (sends_of i g) k later h) 0 ks

  selected_AllTrack :
      (now : ℕ) (exclude : List ℕ) (ks : List KeyState)
      → AllTrack now window_len g 0 ks
      → AllTrack now window_len g 0 (select now window_len exclude (map (λ k. refresh k now) ks)).0
  selected_AllTrack now exclude ks h =
      select-AllAt now window_len exclude (map (λ k. refresh k now) ks)
        (λ i k. Tracks now window_len (sends_of i g) k)
        (λ i k. availability-Tracks now window_len (sends_of i g) k w)
        (AllAt-map _ _ (λ k. refresh k now) (λ i k. refresh-Tracks now window_len (sends_of i g) k)
          0 ks h)

-- One send more on key `i`, which had room for it.
grant_AllTrack :
    (now window_len : ℕ) (g : Grants) (ks : List KeyState) (i : ℕ) (k : KeyState)
    → get_elem? ks i ≡ some k
    → length k.sends < max k.sec_limit 1
    → AllTrack now window_len g 0 ks
    → AllTrack now window_len (g ++ (i, now) ∷ []) 0 (set ks i (mark_sent k now))
grant_AllTrack now window_len g ks i k there room h =
    AllAt-set _ _ 0 ks i (mark_sent k now) h others granted
  where
    others :
        (n : ℕ) (x : KeyState)
        → (n ≡ 0 + i → ⊥)
        → Tracks now window_len (sends_of n g) x
        → Tracks now window_len (sends_of n (g ++ (i, now) ∷ [])) x
    others n x ne t = let e = sends_of_others n i now g (λ e. ne (omega arith)) in rw e t

    granted : Tracks now window_len (sends_of (0 + i) (g ++ (i, now) ∷ [])) (mark_sent k now)
    granted =
        let 0+i : 0 + i ≡ i = omega arith in
        let e : sends_of i (g ++ (i, now) ∷ []) ≡ sends_of i g ++ now ∷ [] =
          sends_of-append i g ((i, now) ∷ [])
          ∙ ap (λ xs. sends_of i g ++ xs) (sends_of_self i now) in
        rw (0+i, e)
          (mark_sent-Tracks now window_len (sends_of i g) k now room
            (AllAt-get_elem? _ 0 ks i i k h (omega arith) there))

module _ (fmt_instant : ℕ → Text) (p : Pool) (g : Grants) (now : ℕ) (exclude : List ℕ) where
  abbrev chosen : List KeyState × Picked
  chosen = select now (window p) exclude (refreshed p now)

  abbrev Tracked : Type 0
  Tracked = AllTrack now (window p) g 0 p.keys

  -- The key that a lease takes has room in its window.
  lease-room :
      (lease : Lease) (k : KeyState)
      → Tracked
      → (conclude fmt_instant now chosen.0 chosen.1).1 ≡ ok lease
      → get_elem? chosen.0 lease.idx ≡ some k
      → length k.sends < max k.sec_limit 1
  lease-room lease k h e there =
      let (s, _, best, _, _, _) = conclude-ok fmt_instant now chosen.0 chosen.1 lease e in
      let sel = select-Selected now (window p) exclude (refreshed p now) lease.idx s best in
      let tracked : Tracks now (window p) (sends_of lease.idx g) sel.key =
        AllAt-get_elem? (λ i k. Tracks now (window p) (sends_of i g) k) 0 (refreshed p now)
          lease.idx lease.idx sel.key
          (AllAt-map _ _ (λ k. refresh k now)
            (λ i k. refresh-Tracks now (window p) (sends_of i g) k) 0 p.keys h)
          (omega arith) sel.there in
      let same : (availability sel.key now (window p)).0 ≡ k = ground (arith, sel.kept) in
      let kept = availability_keeps sel.key now (window p) in
      let room = availability-room sel.key now (window p) tracked.fits sel.free in
      subst (λ (x : KeyState). length x.sends < max x.sec_limit 1) same
        (omega (arith, room, kept.2))

  -- The recent sends of the key that a lease takes are fewer than its limit.
  pub leased-recent :
      (lease : Lease) (k : KeyState)
      → Tracked
      → (try_acquire fmt_instant p now exclude).1 ≡ ok lease
      → get_elem? p.keys lease.idx ≡ some k
      → count_recent now (window p) (sends_of lease.idx g) < max k.sec_limit 1
  unfolding try_acquire
  leased-recent lease k h e there =
      let (s, k', best, there', _, _) = conclude-ok fmt_instant now chosen.0 chosen.1 lease e in
      let sel = select-Selected now (window p) exclude (refreshed p now) lease.idx s best in
      let tracked : Tracks now (window p) (sends_of lease.idx g) k' =
        AllAt-get_elem? (λ i k. Tracks now (window p) (sends_of i g) k) 0 chosen.0 lease.idx
          lease.idx k' (selected_AllTrack (window p) (omega arith) g now exclude p.keys h)
          (omega arith) there' in
      let recent = Tracks-recent now (window p) (sends_of lease.idx g) k' tracked in
      let room = lease-room lease k' h e there' in
      let same : (availability sel.key now (window p)).0 ≡ k' = ground (arith, sel.kept) in
      let found : refresh k now ≡ sel.key =
        ground (arith, sel.there, get_elem?-refreshed p now lease.idx k there) in
      let limit : k'.sec_limit ≡ k.sec_limit =
        ap (λ (x : KeyState). x.sec_limit) (sym same)
        ∙ (availability_keeps sel.key now (window p)).2
        ∙ ap (λ (x : KeyState). x.sec_limit) (sym found)
        ∙ (refresh-sends now (window p) [] k).1 in
      omega (arith, recent, room, limit)

  pub try_acquire-AllTrack :
      (r : Result Lease Next)
      → (try_acquire fmt_instant p now exclude).1 ≡ r
      → Tracked
      → AllTrack now
          (window p)
          (g ++ granted now r)
          0
          (try_acquire fmt_instant p now exclude).0.keys
  unfolding try_acquire
  try_acquire-AllTrack (ok lease) e h =
      let (s, k, best, there, same, keys) = conclude-ok fmt_instant now chosen.0 chosen.1 lease e in
      rw keys (
        grant_AllTrack now (window p) g chosen.0 lease.idx k there (lease-room lease k h e there)
          (selected_AllTrack (window p) (omega arith) g now exclude p.keys h))
  try_acquire-AllTrack (err n) e h =
      rw (conclude-err fmt_instant now chosen.0 chosen.1 n e, append-nil)
        (selected_AllTrack (window p) (omega arith) g now exclude p.keys h)

pub record-AllTrack :
    (p : Pool) (g : Grants) (now idx : ℕ) (outcome : Outcome)
    → AllTrack now (window p) g 0 p.keys
    → AllTrack now (window p) g 0 (record_outcome p now idx outcome).0.keys
unfolding record_outcome
record-AllTrack p g now idx outcome h = elim (Option-cases (get_elem? p.keys idx)) [
  | inl outside ↦ rw (outside, record_outcome) h
  | inr (k, there) ↦
      rw (there, record_outcome)
        (AllAt-set _ _ 0 p.keys idx _ h (λ n x ne t. t)
          (digest-Tracks now (window p) (sends_of (0 + idx) g) k now outcome
            (AllAt-get_elem? _ 0 p.keys idx (0 + idx) k h refl there)))
]

pub survey-AllTrack :
    (format_duration fmt_instant : ℕ → Text) (now window_len : ℕ) (g : Grants)
    → 0 < window_len
    → (i : ℕ) (ks : List KeyState) (out : PoolSnapshot) → AllTrack now window_len g i ks
    → AllTrack now window_len g i (survey format_duration fmt_instant now window_len ks out).0
unfolding survey
survey-AllTrack d f now window_len g w i [] out h = tt
survey-AllTrack d f now window_len g w i (k ∷ ks) out h = (
  availability-Tracks now window_len (sends_of i g) (refresh k now) w
      (refresh-Tracks now window_len (sends_of i g) k h.0),
  survey-AllTrack d f now window_len g w (suc i) ks _ h.1,
)

pub new_keys-AllTrack :
    (cfg : PoolConfig) (window_len i : ℕ) (ks : List Text)
    → cfg.default_rps ≤ u32_max
    → AllTrack 0 window_len [] i (new_keys cfg i ks)
unfolding new_keys new_key sends_of
new_keys-AllTrack cfg window_len i [] h = tt
new_keys-AllTrack cfg window_len i (k ∷ ks) h = (
  record { past = []; splits = refl; over = tt; fits = omega arith; limit = omega arith },
  new_keys-AllTrack cfg window_len (suc i) ks h,
)
