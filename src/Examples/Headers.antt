-- ===== src/Examples/Headers.antt =====
-- A header map of the tests: a list, with all of a name's values.
use brave_search_api_rotator.Base.{
  ◌≡◌, ◌≢◌, refl, sym, ap, ◌∙◌, inl, inr, false, List, [], ◌∷◌, ◌++◌, Option, some, if◌then◌else◌,
  Bool-cases,
}
use brave_search_api_rotator.Text.{Text, equal, equal_iff}
use brave_search_api_rotator.Http.{Http, values_of, first}

abbrev pub without : Text → List (Text × Text) → List (Text × Text)
without n [] = []
without n ((m, v) ∷ es) = if equal m n then without n es else (m, v) ∷ without n es

pub values_of-append :
    (m : List (Text × Text)) (n v k : Text)
    → values_of k (m ++ (n, v) ∷ [])
      ≡ (if equal n k then values_of k m ++ v ∷ [] else values_of k m)
unfolding values_of
values_of-append [] n v k = refl
values_of-append ((o, w) ∷ m) n v k = elim (Bool-cases (equal n k)) [
  | inl here ↦ elim (Bool-cases (equal o k)) [
    | inl old ↦ rw (here, old, values_of-append m n v k, here) refl
    | inr other ↦ rw (here, other, values_of-append m n v k, here) refl
  ]
  | inr elsewhere ↦ elim (Bool-cases (equal o k)) [
    | inl old ↦ rw (elsewhere, old, values_of-append m n v k, elsewhere) refl
    | inr other ↦ rw (elsewhere, other, values_of-append m n v k, elsewhere) refl
  ]
]

values_of-without :
    (m : List (Text × Text)) (n k : Text)
    → values_of k (without n m) ≡ (if equal n k then [] else values_of k m)
unfolding values_of
values_of-without [] n k = elim (Bool-cases (equal n k)) [
  | inl same ↦ rw same refl
  | inr other ↦ rw other refl
]
values_of-without ((o, w) ∷ m) n k = elim (Bool-cases (equal o n)) [
  | inl gone ↦ elim (Bool-cases (equal n k)) [
    | inl same ↦ rw (gone, values_of-without m n k, same) refl
    | inr other ↦ rw (gone, values_of-without m n k, other, (equal_iff o n).0 gone, other) refl
  ]
  | inr stays ↦ elim (Bool-cases (equal n k)) [
    | inl same ↦
        let differs : equal o k ≡ false = ap (equal o) (sym ((equal_iff n k).0 same)) ∙ stays in
        rw (stays, differs, values_of-without m n k, same) refl
    | inr other ↦ rw (stays, values_of-without m n k, other) refl
  ]
]

pub values_of-insert :
    (m : List (Text × Text)) (n v k : Text)
    → values_of k (without n m ++ (n, v) ∷ []) ≡ (if equal n k then v ∷ [] else values_of k m)
values_of-insert m n v k = elim (Bool-cases (equal n k)) [
  | inl here ↦ rw (values_of-append (without n m) n v k, here, values_of-without m n k, here) refl
  | inr elsewhere ↦
      rw (values_of-append (without n m) n v k, elsewhere, values_of-without m n k, elsewhere) refl
]

pub some_inj : (a b : Text) → (◌≡◌ {A = Option Text} (some a) (some b)) → b ≡ a
some_inj a b e = cc

pub distinct : (a b : Text) → equal a b ≡ false → a ≢ b
distinct a b differ same = absurd (cc ((equal_iff a b).1 same, differ))

abbrev pub list_http : Http
list_http = record {
  HeaderMap = List (Text × Text);
  HeaderValue = Text;
  to_str = λ v. some v;
  as_bytes = λ v. v;
  from_str = λ s. some s;
  empty = [];
  get = λ m k. first (values_of k m);
  append = λ m n v. m ++ (n, v) ∷ [];
  insert = λ m n v. without n m ++ (n, v) ∷ [];
  entries = λ m. m;
  as_bytes-from_str = some_inj;
  from_str-Visible = λ s visible. (s, refl);
  entries-empty = refl;
  get-entries = λ m k. refl;
  values-append = values_of-append;
  values-insert = values_of-insert;
}
