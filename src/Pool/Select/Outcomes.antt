-- ===== src/Pool/Select/Outcomes.antt =====
-- src/pool.rs, `try_acquire`: what each of its three results says.
use brave_search_api_rotator.Base.{
  ℕ, suc, true, false, List, [], ◌∷◌, Option, none, some, get_elem?, set, ◌≡◌, ◌∙◌, ap, arith, inl,
  inr, ◌⊎◌, ok, err, Option-cases, map, unwrap_or,
}
use brave_search_api_rotator.Text.{Text}
use brave_search_api_rotator.Key.{KeyState}
use brave_search_api_rotator.Key.Window.{availability, refresh}
use brave_search_api_rotator.Key.Window.Availability.{Parked, refresh-Parked}
use brave_search_api_rotator.Pool.{Pool, Lease, Next, window}
use brave_search_api_rotator.Pool.Select.{
  Score, score_of, Picked, conclude, lease_of, mark_sent, summary,
}
use brave_search_api_rotator.Pool.Select.Keys.{AllAt, get_elem?-map}

-- The keys as the passes find them.
abbrev pub refreshed : Pool → ℕ → List KeyState
refreshed p now = map (λ k. refresh k now) p.keys

-- A key of the pool after `refresh`.
pub get_elem?-refreshed :
    (p : Pool) (now j : ℕ) (k : KeyState)
    → get_elem? p.keys j ≡ some k
    → get_elem? (refreshed p now) j ≡ some (refresh k now)
get_elem?-refreshed p now j k e = get_elem?-map (λ k. refresh k now) p.keys j ∙ rw e

-- The key may be used at `now`, once it is refreshed.
abbrev pub Usable : Pool → ℕ → KeyState → Type 0
Usable p now k = (availability (refresh k now) now (window p)).1 ≡ ok tt

-- The score by which the key competes at `now`.
abbrev pub score_at : Pool → ℕ → KeyState → Score
score_at p now k = score_of (availability (refresh k now) now (window p)).0

-- `p'` has handed out key number `lease.idx` of `p`, which was usable, and has noted the send.
pub record Leased (p : Pool) (now : ℕ) (lease : Lease) (p' : Pool) : Type 0 where
  pub key : KeyState
  pub there : get_elem? p.keys lease.idx ≡ some key
  pub usable : Usable p now key
  pub token : lease.token ≡ key.token
  pub label : lease.label ≡ key.label
  pub noted :
      get_elem? p'.keys lease.idx
      ≡ some (mark_sent (availability (refresh key now) now (window p)).0 now)

pub refresh_keeps :
    (k : KeyState) (now : ℕ) → ((refresh k now).token ≡ k.token) × ((refresh k now).label ≡ k.label)
unfolding refresh
refresh_keeps k now = ground arith

pub Parked-refreshed : (p : Pool) (now : ℕ) → AllAt (λ j k. Parked now k.health) 0 (refreshed p now)
Parked-refreshed p now = by_keys 0 p.keys
  where
    by_keys :
        (i : ℕ) (ks : List KeyState)
        → AllAt (λ j k. Parked now k.health) i (map (λ k. refresh k now) ks)
    by_keys i [] = tt
    by_keys i (k ∷ ks) = (refresh-Parked k now, by_keys (suc i) ks)

module _ (fmt_instant : ℕ → Text) (now : ℕ) where
  -- `conclude` on each of its branches.
  pub conclude-ok :
      (keys : List KeyState) (q : Picked) (lease : Lease)
      → (conclude fmt_instant now keys q).1 ≡ ok lease
      → (s : Score) × (k : KeyState) × (q.best ≡ some (lease.idx, s))
        × (get_elem? keys lease.idx ≡ some k)
        × (lease ≡ lease_of lease.idx k)
        × ((conclude fmt_instant now keys q).0 ≡ set keys lease.idx (mark_sent k now))
  unfolding conclude
  conclude-ok keys q lease e = elim (Option-cases q.best) [
    | inl none_best ↦ absurd (ground arith)
    | inr ((i, s), best) ↦ elim (Option-cases (get_elem? keys i)) [
      | inl outside ↦ absurd (ground arith)
      | inr (k, there) ↦
          let same : lease_of i k ≡ lease = ground arith in
          let i≡ : i ≡ lease.idx = ap (λ (l : Lease). l.idx) same in
          (s, k, ground arith, rw (← i≡) there, ground arith, ground arith)
    ]
  ]

  pub conclude-at :
      (keys : List KeyState) (q : Picked) (t : ℕ)
      → (conclude fmt_instant now keys q).1 ≡ err (Next.at t)
      → ((q.best ≡ none) × (q.any_healthy ≡ true) × (t ≡ unwrap_or q.next now))
        ⊎ ((i : ℕ) × (s : Score) × (q.best ≡ some (i, s)) × (get_elem? keys i ≡ none))
  unfolding conclude
  conclude-at keys q t e = elim (Option-cases q.best) [
    | inl none_best ↦ inl (none_best, ground arith, ground arith)
    | inr ((i, s), best) ↦ elim (Option-cases (get_elem? keys i)) [
      | inl outside ↦ inr (i, s, best, outside)
      | inr (k, there) ↦ absurd (ground arith)
    ]
  ]

  pub conclude-unavailable :
      (keys : List KeyState) (q : Picked) (earliest : Option ℕ) (text : Text)
      → (conclude fmt_instant now keys q).1 ≡ err (Next.unavailable earliest text)
      → (q.best ≡ none)
        × (q.any_healthy ≡ false)
        × (earliest ≡ q.next)
        × (text ≡ summary fmt_instant keys)
  unfolding conclude
  conclude-unavailable keys q earliest text e = elim (Option-cases q.best) [
    | inl none_best ↦ (none_best, ground arith, ground arith, ground arith)
    | inr ((i, s), best) ↦ elim (Option-cases (get_elem? keys i)) [
      | inl outside ↦ absurd (ground arith)
      | inr (k, there) ↦ absurd (ground arith)
    ]
  ]

  pub conclude_idle :
      (keys : List KeyState) (q : Picked)
      → q.best ≡ none
      → q.any_healthy ≡ false
      → (conclude fmt_instant now keys q).1
        ≡ err (Next.unavailable q.next (summary fmt_instant keys))
  unfolding conclude
  conclude_idle keys q best idle = ground arith

  -- Without a lease the keys stay as the passes left them.
  pub conclude-err :
      (keys : List KeyState) (q : Picked) (n : Next)
      → (conclude fmt_instant now keys q).1 ≡ err n
      → (conclude fmt_instant now keys q).0 ≡ keys
  unfolding conclude
  conclude-err keys q n e = elim (Option-cases q.best) [
    | inl none_best ↦ ground arith
    | inr ((i, s), best) ↦ elim (Option-cases (get_elem? keys i)) [
      | inl outside ↦ ground arith
      | inr (k, there) ↦ absurd (ground arith)
    ]
  ]
