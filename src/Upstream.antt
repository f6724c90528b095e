-- ===== src/Upstream.antt =====
-- src/upstream.rs, `send`: the request that goes out, and the errors that come back. The crates
-- `hyper` and `tokio` are the parameter `client`.
pub mod Headers
use brave_search_api_rotator.Base.{
  ℕ, Bool, true, false, List, [], ◌∷◌, ◌++◌, Option, none, some, Result, ok, err, if◌then◌else◌,
  is_some, as_millis,
}
use brave_search_api_rotator.Text.{Text, codes}
use brave_search_api_rotator.Text.Numbers.{to_string_u128}
use brave_search_api_rotator.Http.{Http}

pub data UpstreamError : Type 0 where
  timeout : ℕ → UpstreamError
  request : Text → UpstreamError
  body : Text → UpstreamError

-- `Display`.
unfoldable pub error_text : UpstreamError → Text
error_text (UpstreamError.timeout d) =
    codes "upstream timed out after " ++ (to_string_u128 (as_millis d) ++ codes "ms")
error_text (UpstreamError.request e) = codes "upstream request failed: " ++ e
error_text (UpstreamError.body e) = codes "upstream body error: " ++ e

module _ (http : Http) where
  -- `for (name, value) in headers { h.append(name, value) }`, less the names that `strip` holds of.
  unfoldable pub copy_headers :
      (Text → Bool) → List (Text × http.HeaderValue) → http.HeaderMap → http.HeaderMap
  copy_headers strip [] h = h
  copy_headers strip ((n, v) ∷ es) h =
      copy_headers strip es (if strip n then h else http.append h n v)

  pub record UpstreamResponse : Type 0 where
    pub status : ℕ
    pub headers : http.HeaderMap
    pub body : List ℕ

  -- `if !h.contains_key(name) { h.insert(name, value) }`, where `value` is a static text.
  abbrev pub insert_if_missing : http.HeaderMap → Text → Option http.HeaderValue → http.HeaderMap
  insert_if_missing h name none = h
  insert_if_missing h name (some v) = if is_some (http.get h name) then h else http.insert h name v

  -- The headers of the request; `user_agent` has the build's version number.
  unfoldable pub request_headers :
      Text → http.HeaderMap → Text → Result http.HeaderMap UpstreamError
  unfolding copy_headers
  request_headers user_agent headers key =
      let h = copy_headers (λ _. false) (http.entries headers) http.empty in
      elim (http.from_str key) [
        | none ↦ err (UpstreamError.request (codes "key contains invalid header characters"))
        | some token ↦ ok (
            insert_if_missing
              (insert_if_missing (http.insert h (codes "x-subscription-token") token)
                (codes "accept") (http.from_str (codes "application/json")))
              (codes "user-agent") (http.from_str user_agent))
      ]

  -- What the client can answer; `elapsed` when the timeout comes first.
  pub data Exchange : Type 0 where
    elapsed : Exchange
    not_sent : Text → Exchange
    no_body : Text → Exchange
    answered : UpstreamResponse → Exchange

  pub record Upstream : Type 0 where
    pub base : Text
    pub timeout : ℕ
    pub user_agent : Text
    -- the errors that `Request::builder` finds in a method and a URI
    pub invalid : Text → Text → Option Text
    pub client : Text → Text → http.HeaderMap → List ℕ → Exchange

  unfoldable pub settle : ℕ → Exchange → Result UpstreamResponse UpstreamError
  settle limit elapsed = err (UpstreamError.timeout limit)
  settle limit (not_sent e) = err (UpstreamError.request e)
  settle limit (no_body e) = err (UpstreamError.body e)
  settle limit (answered r) = ok r

  unfoldable pub send :
      Upstream
      → Text
      → Text
      → http.HeaderMap
      → List ℕ
      → Text
      → Result UpstreamResponse UpstreamError
  unfolding settle request_headers
  send up method path_and_query headers content key =
      let uri = up.base ++ path_and_query in
      elim (up.invalid method uri) [
        | some e ↦
            err (UpstreamError.request (codes "invalid request for " ++ (uri ++ (codes ": " ++ e))))
        | none ↦ elim (request_headers up.user_agent headers key) [
          | err e ↦ err e
          | ok h ↦ settle up.timeout (up.client method uri h content)
        ]
      ]
