-- ===== src/Proxy.antt =====
-- src/proxy.rs: the rules on headers, and the responses to the client. What `axum` and `serde_json`
-- make of them is left out.
pub mod Printed
pub mod Forwarding
pub mod Limits
pub mod Attempts
pub mod Health
pub mod Queries
pub mod Refusals
use brave_search_api_rotator.Base.{
  ℕ, ◌+◌, ◌/◌, max, Bool, true, false, ◌&&◌, ◌||◌, List, [], ◌∷◌, ◌++◌, Option, none, some, ltb,
  if◌then◌else◌, option_map, unwrap_or,
}
use brave_search_api_rotator.Text.{Text, codes, equal, starts_with}
use brave_search_api_rotator.Text.Numbers.{to_string, to_string_u128}
use brave_search_api_rotator.Http.{Http}
use brave_search_api_rotator.Pool.{Pool}
use brave_search_api_rotator.Pool.Snapshot.{PoolSnapshot, snapshot}
use brave_search_api_rotator.Upstream.{UpstreamResponse, copy_headers}

-- `matches!` on texts.
unfoldable pub one_of : List Text → Text → Bool
one_of [] name = false
one_of (n ∷ ns) name = equal n name || one_of ns name

unfoldable pub hop_by_hop : Text → Bool
unfolding one_of
hop_by_hop = one_of (
    codes "connection"
    ∷ codes "keep-alive"
    ∷ codes "proxy-authenticate"
    ∷ codes "proxy-authorization"
    ∷ codes "te"
    ∷ codes "trailer"
    ∷ codes "transfer-encoding"
    ∷ codes "upgrade"
    ∷ codes "content-length"
    ∷ [])

unfoldable pub strip_request_header : Text → Bool
unfolding hop_by_hop one_of
strip_request_header name =
    hop_by_hop name
    || one_of
        (codes "host"
          ∷ codes "expect"
          ∷ codes "x-subscription-token"
          ∷ codes "x-api-key"
          ∷ codes "x-proxy-token"
          ∷ codes "authorization"
          ∷ [])
        name

unfoldable pub strip_response_header : Text → Bool
unfolding hop_by_hop
strip_response_header name = hop_by_hop name || starts_with name (codes "x-ratelimit-")

-- The JSON body of an error.
pub record ErrorBody : Type 0 where
  pub error : Text
  pub detail : Text
  pub status : ℕ
  pub retry_after_ms : Option ℕ

-- `ms.div_ceil(1000).max(1)`.
unfoldable pub retry_after_secs : ℕ → ℕ
retry_after_secs ms = max ((ms + 999) / 1000) 1

-- Brave's convention: "0" is "no monthly cap".
unfoldable pub month_text : PoolSnapshot → Option ℕ → Text
month_text snap v =
    if ltb 0 snap.month_unlimited_keys
    then codes "0"
    else unwrap_or (option_map v to_string) (codes "?")

unfoldable pub limit_text : PoolSnapshot → Text
unfolding month_text
limit_text snap =
    to_string snap.rps_capacity ++ (codes ", " ++ month_text snap snap.month_limit_total)

unfoldable pub remaining_text : PoolSnapshot → Text
unfolding month_text
remaining_text snap =
    to_string snap.slots_available_now ++ (codes ", " ++ month_text snap snap.month_remaining_total)

module _ (http : Http) where
  -- `proxy_token` is the configured one.
  unfoldable pub authorized : Option Text → http.HeaderMap → Bool
  authorized none headers = true
  authorized (some expected) headers =
      matches (http.get headers (codes "x-proxy-token")) expected
      || matches (http.get headers (codes "x-subscription-token")) expected
    where
      matches : Option http.HeaderValue → Text → Bool
      matches none expected = false
      matches (some v) expected = equal (http.as_bytes v) expected

  -- The loop that fills `fwd_headers`.
  unfoldable pub forward_headers : http.HeaderMap → http.HeaderMap
  forward_headers headers = copy_headers http strip_request_header (http.entries headers) http.empty

  -- A value that is no header value is dropped.
  abbrev pub set_header : http.HeaderMap → Text → Text → http.HeaderMap
  set_header h name value = insert_parsed (http.from_str value)
    where
      insert_parsed : Option http.HeaderValue → http.HeaderMap
      insert_parsed none = h
      insert_parsed (some v) = http.insert h name v

  pub data Body : Type 0 where
    relayed : List ℕ → Body
    error_json : ErrorBody → Body

  pub record Response : Type 0 where
    pub status : ℕ
    pub headers : http.HeaderMap
    pub body : Body

  unfoldable pub error_response : ℕ → Text → Text → Option ℕ → Response
  unfolding retry_after_secs
  error_response status error detail retry_after_ms =
      let h = set_header http.empty (codes "content-type") (codes "application/json") in
      record {
        status = status;
        headers = elim retry_after_ms [
          | none ↦ h
          | some ms ↦ set_header h (codes "retry-after") (to_string_u128 (retry_after_secs ms))
        ];
        body = error_json (record {
          error = error;
          detail = detail;
          status = status;
          retry_after_ms = retry_after_ms;
        });
      }

  -- The headers of a relayed response, with the pool's report in place of the key's own limits.
  unfoldable pub response_headers : http.HeaderMap → PoolSnapshot → Text → ℕ → http.HeaderMap
  response_headers headers snap key_label attempts =
      let h = copy_headers http strip_response_header (http.entries headers) http.empty in
      set_header
        (set_header
          (set_header (set_header h (codes "x-ratelimit-limit") (limit_text snap))
            (codes "x-ratelimit-remaining") (remaining_text snap))
          (codes "x-rotator-key") key_label)
        (codes "x-rotator-attempts") (to_string attempts)

  module _ (format_duration fmt_instant : ℕ → Text) where
    -- `build_response` at the time `now`: the pool afterwards, and the response.
    unfoldable pub build_response : Pool → ℕ → UpstreamResponse http → Text → ℕ → Pool × Response
    unfolding response_headers
    build_response p now up key_label attempts =
        let (p', snap) = snapshot format_duration fmt_instant p now in
        (
          p',
          record {
            status = up.status;
            headers = response_headers up.headers snap key_label attempts;
            body = relayed up.body;
          },
        )
