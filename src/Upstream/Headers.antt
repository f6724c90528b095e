-- ===== src/Upstream/Headers.antt =====
-- src/upstream.rs and src/proxy.rs: the loops that copy headers, name by name.
use mathlib.Core.List.{append_assoc, append-nil}
use brave_search_api_rotator.Base.{
  Bool, true, false, List, [], ◌∷◌, ◌++◌, Option, none, some, if◌then◌else◌, is_some, ◌≡◌,
  Bool-cases, inl, inr, refl, ◌∙◌, sym, ap,
}
use brave_search_api_rotator.Text.{Text, equal, equal_iff}
use brave_search_api_rotator.Http.{Http, values_of}
use brave_search_api_rotator.Upstream.{copy_headers, insert_if_missing}

module _ (http : Http) where
  -- The values that a header map has under a name.
  abbrev pub values : http.HeaderMap → Text → List http.HeaderValue
  values h k = values_of k (http.entries h)

  pub values-copy_headers :
      (strip : Text → Bool) (es : List (Text × http.HeaderValue)) (h : http.HeaderMap) (k : Text)
      → values (copy_headers http strip es h) k
        ≡ (if strip k then values h k else values h k ++ values_of k es)
  unfolding copy_headers values_of
  values-copy_headers strip [] h k = elim (Bool-cases (strip k)) [
    | inl out ↦ rw out refl
    | inr through ↦ rw through (sym (append-nil _))
  ]
  values-copy_headers strip ((n, v) ∷ es) h k =
      values-copy_headers strip es (if strip n then h else http.append h n v) k ∙ step
    where
      same : equal n k ≡ true → strip n ≡ strip k
      same e = ap strip ((equal_iff n k).0 e)

      step :
          (if strip k
            then values (if strip n then h else http.append h n v) k
            else values (if strip n then h else http.append h n v) k ++ values_of k es)
          ≡ (if strip k then values h k else values h k ++ values_of k ((n, v) ∷ es))
      step = elim (Bool-cases (equal n k)) [
        | inl here ↦ elim (Bool-cases (strip k)) [
          | inl out ↦ rw (same here, out) refl
          | inr through ↦
              rw (same here, through, http.values-append h n v k, here)
                (append_assoc (values h k) (v ∷ []) (values_of k es))
        ]
        | inr elsewhere ↦ elim (Bool-cases (strip n)) [
          | inl out ↦ rw (out, elsewhere) refl
          | inr through ↦ rw (through, http.values-append h n v k, elsewhere) refl
        ]
      ]

  pub values-insert_if_missing :
      (h : http.HeaderMap) (n : Text) (o : Option http.HeaderValue) (k : Text)
      → equal n k ≡ false
      → values (insert_if_missing http h n o) k ≡ values h k
  values-insert_if_missing h n none k other = refl
  values-insert_if_missing h n (some v) k other = elim (Bool-cases (is_some (http.get h n))) [
    | inl there ↦ rw there refl
    | inr missing ↦ rw (missing, http.values-insert h n v k, other) refl
  ]
