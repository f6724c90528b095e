-- ===== src/Pool/History/Keeps.antt =====
-- What each use of a key keeps, every history of the pool keeps of all its keys.
use brave_search_api_rotator.Base.{
  ℕ, suc, ◌+◌, List, [], ◌∷◌, Option, none, some, Result, ok, err, ◌≡◌, refl, ◌∙◌, ap, arith, inl,
  inr, map, get_elem?, set, Option-cases, length, length-set, Bool, contains, false,
}
use brave_search_api_rotator.Text.{Text}
use brave_search_api_rotator.Key.{KeyState}
use brave_search_api_rotator.Key.Window.{refresh, availability}
use brave_search_api_rotator.Pool.{Pool, Outcome, Lease, Next, window}
use brave_search_api_rotator.Pool.Select.{
  mark_sent, try_acquire, select, conclude, Picked, pick, nothing_picked,
}
use brave_search_api_rotator.Pool.Select.Keys.{AllAt, AllAt-map, AllAt-set, AllAt-get_elem?}
use brave_search_api_rotator.Pool.Select.Selected.{select-AllAt, select_cases, first_pass}
use brave_search_api_rotator.Pool.Select.Outcomes.{conclude-ok, conclude-err, refreshed}
use brave_search_api_rotator.Pool.Record.{record_outcome, digest}
use brave_search_api_rotator.Pool.Snapshot.{snapshot, survey, PoolSnapshot}
use brave_search_api_rotator.Pool.History.{
  Event, acquires, records, snapshots, time, Grants, step, run,
}

-- The outcome that an event records for a key, if it records one, is of a kind.
abbrev pub Records : (ℕ → Outcome → Type 0) → Event → Type 0
Records Q (acquires now exclude) = Unit
Records Q (records now idx outcome) = Q idx outcome
Records Q (snapshots now) = Unit

-- A predicate on keys and their numbers that the operations on a key keep, at times and with
-- outcomes of a kind.
pub record KeptBy (T : ℕ → Type 0) (Q : ℕ → Outcome → Type 0) (P : ℕ → KeyState → Type 0)
    : Type 0 where
  pub by_refresh : (i : ℕ) (k : KeyState) (now : ℕ) → T now → P i k → P i (refresh k now)
  pub by_availability :
      (i : ℕ) (k : KeyState) (now window : ℕ) → P i k → P i (availability k now window).0
  pub by_mark_sent : (i : ℕ) (k : KeyState) (now : ℕ) → P i k → P i (mark_sent k now)
  pub by_digest :
      (i : ℕ) (k : KeyState) (now : ℕ) (outcome : Outcome)
      → Q i outcome
      → P i k
      → P i (digest k now outcome).0

-- The same at any times and with any outcomes.
abbrev pub Kept : (ℕ → KeyState → Type 0) → Type 0
Kept = KeptBy (λ _. Unit) (λ _ _. Unit)

Records-any : (e : Event) → Records (λ _ _. Unit) e
Records-any (acquires now exclude) = tt
Records-any (records now idx outcome) = tt
Records-any (snapshots now) = tt

module _ (T : ℕ → Type 0) (Q : ℕ → Outcome → Type 0) (P : ℕ → KeyState → Type 0)
    (kept : KeptBy T Q P) where
  set-AllAt :
      (ks : List KeyState) (i : ℕ) (v : KeyState) → AllAt P 0 ks → P i v → AllAt P 0 (set ks i v)
  set-AllAt ks i v h here =
      let 0+i : 0 + i ≡ i = omega arith in AllAt-set P P 0 ks i v h (λ n k ne p. p) (rw 0+i here)

  module _ (fmt_instant : ℕ → Text) (p : Pool) (now : ℕ) (timely : T now) (exclude : List ℕ) where
    abbrev chosen : List KeyState × Picked
    chosen = select now (window p) exclude (refreshed p now)

    chosen-AllAt : AllAt P 0 p.keys → AllAt P 0 chosen.0
    chosen-AllAt h =
        select-AllAt now (window p) exclude (refreshed p now) P
          (λ i k. kept.by_availability i k now (window p))
          (AllAt-map P P (λ k. refresh k now) (λ i k. kept.by_refresh i k now timely) 0 p.keys h)

    try_acquire-AllAt : AllAt P 0 p.keys → AllAt P 0 (try_acquire fmt_instant p now exclude).0.keys
    unfolding try_acquire
    try_acquire-AllAt h = by_result (conclude fmt_instant now chosen.0 chosen.1).1 refl
      where
        by_result :
            (r : Result Lease Next)
            → (conclude fmt_instant now chosen.0 chosen.1).1 ≡ r
            → AllAt P 0 (conclude fmt_instant now chosen.0 chosen.1).0
        by_result (err n) e =
            rw (conclude-err fmt_instant now chosen.0 chosen.1 n e) (chosen-AllAt h)
        by_result (ok lease) e =
            let (s, k, best, there, same, keys) =
              conclude-ok fmt_instant now chosen.0 chosen.1 lease e in
            rw keys (
              set-AllAt chosen.0 lease.idx (mark_sent k now) (chosen-AllAt h) (
                kept.by_mark_sent lease.idx k now (
                  AllAt-get_elem? P 0 chosen.0 lease.idx lease.idx k (chosen-AllAt h) (omega arith)
                    there)))

  record_outcome-AllAt :
      (p : Pool) (now idx : ℕ) (outcome : Outcome)
      → Q idx outcome
      → AllAt P 0 p.keys
      → AllAt P 0 (record_outcome p now idx outcome).0.keys
  unfolding record_outcome
  record_outcome-AllAt p now idx outcome good h = elim (Option-cases (get_elem? p.keys idx)) [
    | inl outside ↦ rw (outside, record_outcome) h
    | inr (k, there) ↦
        rw (there, record_outcome)
          (set-AllAt p.keys idx _ h (
            kept.by_digest idx k now outcome good
              (AllAt-get_elem? P 0 p.keys idx idx k h (omega arith) there)))
  ]

  survey-AllAt :
      (format_duration fmt_instant : ℕ → Text) (now window_len i : ℕ) (ks : List KeyState)
      (out : PoolSnapshot)
      → T now
      → AllAt P i ks
      → AllAt P i (survey format_duration fmt_instant now window_len ks out).0
  unfolding survey
  survey-AllAt d f now window_len i [] out timely h = tt
  survey-AllAt d f now window_len i (k ∷ ks) out timely h = (
    kept.by_availability i (refresh k now) now window_len (kept.by_refresh i k now timely h.0),
    survey-AllAt d f now window_len (suc i) ks _ timely h.1,
  )

  module _ (format_duration fmt_instant : ℕ → Text) where
    pub step_by-AllAt :
        (p : Pool) (g : Grants) (e : Event)
        → T (time e)
        → Records Q e
        → AllAt P 0 p.keys
        → AllAt P 0 (step format_duration fmt_instant (p, g) e).0.keys
    unfolding step
    step_by-AllAt p g (acquires now exclude) timely good h =
        try_acquire-AllAt fmt_instant p now timely exclude h
    step_by-AllAt p g (records now idx outcome) timely good h =
        record_outcome-AllAt p now idx outcome good h
    step_by-AllAt p g (snapshots now) timely good h =
        unfold snapshot in
        survey-AllAt format_duration fmt_instant now (window p) 0 p.keys _ timely h

module _ (P : ℕ → KeyState → Type 0) (kept : Kept P) (format_duration fmt_instant : ℕ → Text) where
  pub step-AllAt :
      (p : Pool) (g : Grants) (e : Event)
      → AllAt P 0 p.keys
      → AllAt P 0 (step format_duration fmt_instant (p, g) e).0.keys
  step-AllAt p g e h =
      step_by-AllAt (λ _. Unit) (λ _ _. Unit) P kept format_duration fmt_instant p g e tt
        (Records-any e) h

  pub run-AllAt :
      (p : Pool) (g : Grants) (es : List Event)
      → AllAt P 0 p.keys
      → AllAt P 0 (run format_duration fmt_instant (p, g) es).0.keys
  unfolding run
  run-AllAt p g [] h = h
  run-AllAt p g (e ∷ es) h =
      run-AllAt (step format_duration fmt_instant (p, g) e).0
        (step format_duration fmt_instant (p, g) e).1 es (step-AllAt p g e h)

-- No operation adds or removes a key.
length-pick :
    (now window : ℕ) (skip : ℕ → Bool) (i : ℕ) (ks : List KeyState) (q : Picked)
    → length (pick now window skip i ks q).0 ≡ length ks
unfolding pick
length-pick now window skip i [] q = refl
length-pick now window skip i (k ∷ ks) q = ap suc (length-pick now window skip (suc i) ks _)

length-select :
    (now window : ℕ) (exclude : List ℕ) (ks : List KeyState)
    → length (select now window exclude ks).0 ≡ length ks
length-select now window exclude ks = elim (select_cases now window exclude ks) [
  | inl (one, _) ↦ rw one (length-pick now window (contains exclude) 0 ks nothing_picked)
  | inr (two, _) ↦ rw two (
      length-pick now window (λ _. false) 0 (first_pass now window exclude ks).0 nothing_picked
      ∙ length-pick now window (contains exclude) 0 ks nothing_picked)
]

length-refreshed : (now : ℕ) (ks : List KeyState) → length (map (λ k. refresh k now) ks) ≡ length ks
length-refreshed now [] = refl
length-refreshed now (k ∷ ks) = ap suc (length-refreshed now ks)

length-survey :
    (format_duration fmt_instant : ℕ → Text) (now window_len : ℕ) (ks : List KeyState)
    (out : PoolSnapshot)
    → length (survey format_duration fmt_instant now window_len ks out).0 ≡ length ks
unfolding survey
length-survey d f now window_len [] out = refl
length-survey d f now window_len (k ∷ ks) out = ap suc (length-survey d f now window_len ks _)

length-record_outcome :
    (p : Pool) (now idx : ℕ) (outcome : Outcome)
    → length (record_outcome p now idx outcome).0.keys ≡ length p.keys
unfolding record_outcome
length-record_outcome p now idx outcome = by_key (get_elem? p.keys idx) refl
  where
    by_key :
        (o : Option KeyState)
        → get_elem? p.keys idx ≡ o
        → length (record_outcome p now idx outcome).0.keys ≡ length p.keys
    by_key none e = ground arith
    by_key (some k) e = ground (arith, length-set p.keys idx (digest k now outcome).0)

module _ (format_duration fmt_instant : ℕ → Text) where
  length-conclude :
      (now : ℕ) (ks : List KeyState) (q : Picked)
      → length (conclude fmt_instant now ks q).0 ≡ length ks
  length-conclude now ks q = by_result (conclude fmt_instant now ks q).1 refl
    where
      by_result :
          (r : Result Lease Next)
          → (conclude fmt_instant now ks q).1 ≡ r
          → length (conclude fmt_instant now ks q).0 ≡ length ks
      by_result (err n) e = rw (conclude-err fmt_instant now ks q n e) refl
      by_result (ok lease) e =
          let (s, k, best, there, same, keys) = conclude-ok fmt_instant now ks q lease e in
          rw keys (length-set ks lease.idx (mark_sent k now))

  pub length-step :
      (p : Pool) (g : Grants) (e : Event)
      → length (step format_duration fmt_instant (p, g) e).0.keys ≡ length p.keys
  unfolding step try_acquire
  length-step p g (acquires now exclude) =
      let choice = select now (window p) exclude (refreshed p now) in
      length-conclude now choice.0 choice.1
      ∙ length-select now (window p) exclude (refreshed p now)
      ∙ length-refreshed now p.keys
  length-step p g (records now idx outcome) = length-record_outcome p now idx outcome
  length-step p g (snapshots now) =
      unfold snapshot in length-survey format_duration fmt_instant now (window p) p.keys _

  pub length-run :
      (p : Pool) (g : Grants) (es : List Event)
      → length (run format_duration fmt_instant (p, g) es).0.keys ≡ length p.keys
  unfolding run
  length-run p g [] = refl
  length-run p g (e ∷ es) =
      length-run (step format_duration fmt_instant (p, g) e).0
        (step format_duration fmt_instant (p, g) e).1 es
      ∙ length-step p g e
