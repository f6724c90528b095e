-- ===== src/Http.antt =====
-- What the program uses of the crate `http`: header maps behind an interface with the crate's
-- documented laws. Names are lower case, as `HeaderName` keeps them.
use brave_search_api_rotator.Base.{
  List, [], ◌∷◌, ◌++◌, Option, none, some, if◌then◌else◌, ◌≡◌, ℕ, ◌≤◌, All,
}
use brave_search_api_rotator.Text.{Text, equal}

-- The values that stand under a name, in order.
unfoldable pub values_of {ℓ} : {V : Type ℓ} → Text → List (Text × V) → List V
values_of k [] = []
values_of k ((n, v) ∷ es) = if equal n k then v ∷ values_of k es else values_of k es

abbrev pub Visible : ℕ → Type 0
Visible c = (32 ≤ c) × (c ≤ 126)

abbrev pub first {ℓ} : {V : Type ℓ} → List V → Option V
first [] = none
first (v ∷ vs) = some v

pub record Http : Type 1 where
  pub HeaderMap : Type 0
  pub HeaderValue : Type 0
  pub to_str : HeaderValue → Option Text
  pub as_bytes : HeaderValue → Text
  pub from_str : Text → Option HeaderValue
  pub empty : HeaderMap
  pub get : HeaderMap → Text → Option HeaderValue
  pub append : HeaderMap → Text → HeaderValue → HeaderMap
  pub insert : HeaderMap → Text → HeaderValue → HeaderMap
  -- what a `for` over the map visits
  pub entries : HeaderMap → List (Text × HeaderValue)
  pub as_bytes-from_str : (s : Text) (v : HeaderValue) → from_str s ≡ some v → as_bytes v ≡ s
  -- Visible ASCII makes a header value.
  pub from_str-Visible : (s : Text) → All Visible s → (v : HeaderValue) × (from_str s ≡ some v)
  pub entries-empty : entries empty ≡ []
  pub get-entries : (m : HeaderMap) (k : Text) → get m k ≡ first (values_of k (entries m))
  pub values-append :
      (m : HeaderMap) (n : Text) (v : HeaderValue) (k : Text)
      → values_of k (entries (append m n v))
        ≡ (if equal n k then values_of k (entries m) ++ v ∷ [] else values_of k (entries m))
  pub values-insert :
      (m : HeaderMap) (n : Text) (v : HeaderValue) (k : Text)
      → values_of k (entries (insert m n v))
        ≡ (if equal n k then v ∷ [] else values_of k (entries m))
