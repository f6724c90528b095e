-- ===== src/Config/Keys.antt =====
-- src/config.rs: the list of keys.
use brave_search_api_rotator.Base.{
  ℕ, ◌+◌, ◌<◌, ◌≡◌, ◌⊎◌, refl, sym, subst, inl, inr, arith, true, false, ◌||◌, List, [], ◌∷◌, ◌++◌,
  Option, ok, if◌then◌else◌, length, length-append, is_empty, All, Bool-cases,
}
use brave_search_api_rotator.Text.{Text, equal, equal_iff, trim}
use brave_search_api_rotator.Proxy.{one_of}
use brave_search_api_rotator.Config.{Collected, take_key, collect, read_keys, no_keys, key_pieces}

-- No text stands in the list twice.
abbrev pub Distinct : List Text → Type 0
Distinct [] = Unit
Distinct (k ∷ ks) = (one_of ks k ≡ false) × Distinct ks

-- How many of the pieces are not blank.
abbrev pub filled_count : List Text → ℕ
filled_count [] = 0
filled_count (piece ∷ pieces) = (if is_empty (trim piece) then 0 else 1) + filled_count pieces

unequal : (a b : Text) → equal a b ≡ false → equal b a ≡ false
unequal a b differ = elim (Bool-cases (equal b a)) [
  | inl same ↦ absurd (cc (differ, (equal_iff a b).1 (sym ((equal_iff b a).0 same))))
  | inr other ↦ other
]

one_of-append : (ks : List Text) (k l : Text) → one_of (ks ++ k ∷ []) l ≡ (one_of ks l || equal k l)
unfolding one_of
one_of-append [] k l = ground arith
one_of-append (x ∷ ks) k l = elim (Bool-cases (equal x l)) [
  | inl here ↦ rw here refl
  | inr other ↦ rw other (one_of-append ks k l)
]

Distinct-append :
    (ks : List Text) (k : Text) → Distinct ks → one_of ks k ≡ false → Distinct (ks ++ k ∷ [])
unfolding one_of
Distinct-append [] k distinct new = (refl, tt)
Distinct-append (x ∷ ks) k (fresh, distinct) new =
    let differs : equal x k ≡ false = ground arith in
    let new' : one_of ks k ≡ false = ground arith in
    (rw (one_of-append ks k x, fresh) (unequal x k differs), Distinct-append ks k distinct new')

All-append :
    (ks : List Text) (k : Text)
    → All (λ k. is_empty k ≡ false) ks
    → is_empty k ≡ false
    → All (λ k. is_empty k ≡ false) (ks ++ k ∷ [])
All-append [] k all last = (last, tt)
All-append (x ∷ ks) k (first, all) last = (first, All-append ks k all last)

-- What the loop keeps.
abbrev Proper : Collected → Type 0
Proper c = Distinct c.keys × All (λ k. is_empty k ≡ false) c.keys

take_key-Proper : (k : Text) (c : Collected) → Proper c → Proper (take_key k c)
unfolding take_key
take_key-Proper k c proper = elim (Bool-cases (is_empty k)) [
  | inl blank ↦ rw blank proper
  | inr filled ↦ elim (Bool-cases (one_of c.keys k)) [
    | inl old ↦ rw (filled, old) proper
    | inr new ↦
        rw (filled, new)
          (Distinct-append c.keys k proper.0 new, All-append c.keys k proper.1 filled)
  ]
]

collect-Proper : (pieces : List Text) (c : Collected) → Proper c → Proper (collect pieces c)
unfolding collect
collect-Proper [] c proper = proper
collect-Proper (piece ∷ pieces) c proper =
    collect-Proper pieces (take_key (trim piece) c) (take_key-Proper (trim piece) c proper)

take_key-count :
    (k : Text) (c : Collected)
    → length (take_key k c).keys + (take_key k c).duplicate_keys
      ≡ (if is_empty k then 0 else 1) + (length c.keys + c.duplicate_keys)
unfolding take_key
take_key-count k c = elim (Bool-cases (is_empty k)) [
  | inl blank ↦ rw blank (omega arith)
  | inr filled ↦ elim (Bool-cases (one_of c.keys k)) [
    | inl old ↦ rw (filled, old) (omega arith)
    | inr new ↦ rw (filled, new) (omega (arith, length-append c.keys (k ∷ [])))
  ]
]

collect-count :
    (pieces : List Text) (c : Collected)
    → length (collect pieces c).keys + (collect pieces c).duplicate_keys
      ≡ filled_count pieces + (length c.keys + c.duplicate_keys)
unfolding collect
collect-count [] c = omega arith
collect-count (piece ∷ pieces) c =
    omega (arith, collect-count pieces (take_key (trim piece) c), take_key-count (trim piece) c)

-- A key once collected stays.
take_key_keeps :
    (k l : Text) (c : Collected) → one_of c.keys l ≡ true → one_of (take_key k c).keys l ≡ true
unfolding take_key
take_key_keeps k l c there = elim (Bool-cases (is_empty k)) [
  | inl blank ↦ rw blank there
  | inr filled ↦ elim (Bool-cases (one_of c.keys k)) [
    | inl old ↦ rw (filled, old) there
    | inr new ↦ rw (filled, new, one_of-append c.keys k l, there) refl
  ]
]

collect_keeps :
    (pieces : List Text) (l : Text) (c : Collected)
    → one_of c.keys l ≡ true
    → one_of (collect pieces c).keys l ≡ true
unfolding collect
collect_keeps [] l c there = there
collect_keeps (piece ∷ pieces) l c there =
    collect_keeps pieces l (take_key (trim piece) c) (take_key_keeps (trim piece) l c there)

take_key_takes :
    (k : Text) (c : Collected) → is_empty k ≡ false → one_of (take_key k c).keys k ≡ true
unfolding take_key
take_key_takes k c filled = elim (Bool-cases (one_of c.keys k)) [
  | inl old ↦ rw (filled, old) old
  | inr new ↦ rw (filled, new, one_of-append c.keys k k, new) ((equal_iff k k).1 refl)
]

-- Each piece is blank, or it is one of the keys.
abbrev pub Covered : List Text → List Text → Type 0
Covered keys = All (λ piece. (is_empty (trim piece) ≡ true) ⊎ (one_of keys (trim piece) ≡ true))

collect-Covered : (pieces : List Text) (c : Collected) → Covered (collect pieces c).keys pieces
unfolding collect
collect-Covered [] c = tt
collect-Covered (piece ∷ pieces) c = (
  elim (Bool-cases (is_empty (trim piece))) [
    | inl blank ↦ inl blank
    | inr filled ↦ inr (
        collect_keeps pieces (trim piece) (take_key (trim piece) c)
          (take_key_takes (trim piece) c filled))
  ],
  collect-Covered pieces (take_key (trim piece) c),
)

-- When the keys are read, there is at least one, none is empty and none stands there twice; every
-- piece of the variable that is not blank is one of them, and the keys and the duplicates
-- together are as many as those pieces.
pub read_keys-Distinct :
    (brave_api_keys brave_keys : Option Text) (c : Collected)
    → read_keys brave_api_keys brave_keys ≡ ok c
    → (0 < length c.keys)
      × Distinct c.keys
      × All (λ k. is_empty k ≡ false) c.keys
      × Covered c.keys (key_pieces brave_api_keys brave_keys)
      × (length c.keys + c.duplicate_keys ≡ filled_count (key_pieces brave_api_keys brave_keys))
unfolding read_keys
read_keys-Distinct brave_api_keys brave_keys c read = elim (Bool-cases (is_empty r.keys)) [
  | inl empty ↦ absurd (ground arith)
  | inr some_key ↦
      let same : r ≡ c = ground arith in
      let (distinct, filled) = collect-Proper pieces no_keys (tt, tt) in
      subst
        (λ (x : Collected).
          (0 < length x.keys)
          × Distinct x.keys
          × All (λ k. is_empty k ≡ false) x.keys
          × Covered x.keys pieces
          × (length x.keys + x.duplicate_keys ≡ filled_count pieces))
        same
        (
          not_empty r.keys some_key,
          distinct,
          filled,
          collect-Covered pieces no_keys,
          omega (arith, collect-count pieces no_keys),
        )
]
  where
    pieces : List Text
    pieces = key_pieces brave_api_keys brave_keys

    r : Collected
    r = collect pieces no_keys

    not_empty : (ks : List Text) → is_empty ks ≡ false → 0 < length ks
    not_empty [] e = absurd cc
    not_empty (k ∷ ks) e = omega arith
