-- ===== src/Proxy/Queries.antt =====
-- src/proxy.rs: the functions that describe a request for the log. `as_bytes` is the UTF-8 form of a
-- text, `from_utf8_lossy` reads it back, `debug` is the `Debug` form.
pub mod Decoding
pub mod Lengths
use brave_search_api_rotator.Base.{
  ℕ, ◌+◌, ◌-◌, ◌*◌, Bool, true, false, not, ◌&&◌, ◌||◌, List, [], ◌∷◌, ◌++◌, Option, none, some,
  leb, ltb, ◌==◌, if◌then◌else◌, length, take, is_empty,
}
use brave_search_api_rotator.Text.{Text, codes, equal, split, split_first, starts_with}

unfoldable pub hex : ℕ → Option ℕ
hex b =
    if leb b'0' b && leb b b'9'
    then some (b - b'0')
    else if leb b'a' b && leb b b'f'
    then some ((b - b'a') + 10)
    else if leb b'A' b && leb b b'F'
    then some ((b - b'A') + 10)
    else none

-- The byte that a percent sign and two digits stand for: `(h << 4) | l`.
abbrev pub byte_of : Option ℕ → Option ℕ → Option ℕ
byte_of none l = none
byte_of (some h) none = none
byte_of (some h) (some l) = some (h * 16 + l)

unfoldable pub escaped : ℕ → ℕ → ℕ → Option ℕ
unfolding hex
escaped c h l = if c == b'%' then byte_of (hex h) (hex l) else none

-- A byte that starts no escape.
abbrev pub plain : ℕ → ℕ
plain c = if c == b'+' then b' ' else c

-- The loop of `url_decode` from some index on.
unfoldable pub decode_bytes : List ℕ → List ℕ
unfolding escaped
decode_bytes [] = []
decode_bytes (c ∷ []) = plain c ∷ []
decode_bytes (c ∷ h ∷ []) = plain c ∷ decode_bytes (h ∷ [])
decode_bytes (c ∷ h ∷ l ∷ s) = elim (escaped c h l) [
  | some b ↦ b ∷ decode_bytes s
  | none ↦ plain c ∷ decode_bytes (h ∷ l ∷ s)
]

-- `chars().count()`, and the first characters with a mark when there are more.
unfoldable pub short : Text → ℕ → Text
short s most = if leb (length s) most then s else take most s ++ codes "..."

unfoldable pub hint_for : ℕ → Text → Text
hint_for status path =
    if status == 404 && not (starts_with path (codes "/res/v1/"))
    then codes
        " (hint: Brave Search API endpoints live under /res/v1/, e.g. /res/v1/web/search?q=...; check the base URL configured in your client)"
    else if status == 404
    then codes " (hint: unknown endpoint, see https://api-dashboard.search.brave.com/documentation)"
    else if status == 400 || status == 422
    then codes " (hint: Brave rejected the query parameters, see its detail above)"
    else []

module _ (as_bytes from_utf8_lossy : List ℕ → List ℕ) where
  unfoldable pub url_decode : Text → Text
  unfolding decode_bytes
  url_decode s = from_utf8_lossy (decode_bytes (as_bytes s))

  -- `split_once('=').unwrap_or((kv, ""))`.
  abbrev pub value_or_empty : Option Text → Text
  value_or_empty none = []
  value_or_empty (some v) = v

  -- `find_map` over the pairs.
  unfoldable pub find_param : List Text → Text → Option Text
  unfolding url_decode
  find_param [] name = none
  find_param (kv ∷ kvs) name =
      let (k, v) = split_first (λ c. c == b'=') kv in
      let rest = find_param kvs name in
      if equal (url_decode k) name then some (url_decode (value_or_empty v)) else rest

  abbrev pub find_in : Option Text → Text → Option Text
  find_in none name = none
  find_in (some query) name = find_param (split (λ c. c == b'&') query) name

  unfoldable pub query_param : Text → Text → Option Text
  unfolding find_param
  query_param path_and_query name = find_in (split_first (λ c. c == b'?') path_and_query).1 name

  module _ (debug : Text → Text) where
    -- The end of the line, of the parameter `q` and of the whole query.
    abbrev pub described : Option Text → Option Text → Text
    described (some q) query = codes " q=" ++ debug (short q 120)
    described none none = []
    described none (some []) = []
    described none (some (c ∷ qs)) = codes " ?" ++ short (c ∷ qs) 120

    unfoldable pub describe_request : Text → Text → Text
    unfolding query_param short
    describe_request method path_and_query =
        let (path, query) = split_first (λ c. c == b'?') path_and_query in
        method ++ (codes " " ++ (path ++ described (query_param path_and_query (codes "q")) query))
