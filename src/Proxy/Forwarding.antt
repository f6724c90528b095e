-- ===== src/Proxy/Forwarding.antt =====
-- src/proxy.rs and src/upstream.rs: which headers reach Brave, and which reach the client.
use brave_search_api_rotator.Base.{
  ℕ, Bool, true, false, List, [], ◌∷◌, Option, none, some, Result, ok, err, if◌then◌else◌, ◌≡◌, ◌≢◌,
  Option-cases, inl, inr, refl, ◌∙◌, sym, ap,
}
use brave_search_api_rotator.Text.{
  not-equal, Text, codes, equal, equal_iff, starts_with, strip_prefix,
}
use brave_search_api_rotator.Http.{Http, values_of}
use brave_search_api_rotator.Upstream.{
  UpstreamError, copy_headers, insert_if_missing, request_headers,
}
use brave_search_api_rotator.Upstream.Headers.{
  values, values-copy_headers, values-insert_if_missing,
}
use brave_search_api_rotator.Pool.Snapshot.{PoolSnapshot}
use brave_search_api_rotator.Proxy.Printed.{limit_text-Visible, remaining_text-Visible}
use brave_search_api_rotator.Proxy.{
  strip_request_header, strip_response_header, forward_headers, response_headers, set_header,
  hop_by_hop, one_of, limit_text, remaining_text,
}

unlike : (a b : Text) → equal a b ≡ false → b ≢ a
unlike a b differ same = absurd (cc ((equal_iff a b).1 (sym same), differ))

module _ (http : Http) where
  values-copied :
      (strip : Text → Bool) (m : http.HeaderMap) (k : Text)
      → values http (copy_headers http strip (http.entries m) http.empty) k
        ≡ (if strip k then [] else values http m k)
  unfolding values_of
  values-copied strip m k =
      values-copy_headers http strip (http.entries m) http.empty k ∙ rw (http.entries-empty) refl

  -- The value, if there is one.
  abbrev pub only : Option http.HeaderValue → List http.HeaderValue
  only none = []
  only (some v) = v ∷ []

  pub values-set_header :
      (h : http.HeaderMap) (n value : Text) (k : Text)
      → equal n k ≡ false
      → values http (set_header http h n value) k ≡ values http h k
  values-set_header h n value k other = elim (Option-cases (http.from_str value)) [
    | inl bad ↦ rw bad refl
    | inr (v, good) ↦ rw (good, http.values-insert h n v k, other) refl
  ]

  pub values-set_header_self :
      (h : http.HeaderMap) (n value : Text)
      → equal n n ≡ true
      → values http h n ≡ []
      → values http (set_header http h n value) n ≡ only (http.from_str value)
  values-set_header_self h n value same free = elim (Option-cases (http.from_str value)) [
    | inl bad ↦ rw bad free
    | inr (v, good) ↦ rw (good, http.values-insert h n v n, same) refl
  ]

  -- The headers of a request with the token in place.
  abbrev with_token : http.HeaderMap → http.HeaderValue → http.HeaderMap
  with_token m v =
      http.insert
        (copy_headers http (λ _. false) (http.entries (forward_headers http m)) http.empty)
        (codes "x-subscription-token") v

  values-with_token :
      (m : http.HeaderMap) (v : http.HeaderValue) (k : Text)
      → values http (with_token m v) k ≡ (
          if equal (codes "x-subscription-token") k
          then v ∷ []
          else if strip_request_header k
          then []
          else values http m k)
  unfolding forward_headers
  values-with_token m v k =
      rw
        (
          http.values-insert
              (copy_headers http (λ _. false) (http.entries (forward_headers http m)) http.empty)
              (codes "x-subscription-token") v k,
          values-copied (λ _. false) (forward_headers http m) k,
          values-copied strip_request_header m k,
        )
        refl

  -- The request that goes to Brave has the pool's key as its only subscription token; of all other
  -- names, except `accept` and `user-agent`, it has no value if the name is one to strip, and the
  -- client's values, in order, if not.
  pub request_headers_forwarded :
      (user_agent key : Text) (m h : http.HeaderMap) (k : Text)
      → request_headers http user_agent (forward_headers http m) key ≡ ok h
      → k ≢ codes "accept"
      → k ≢ codes "user-agent"
      → (v : http.HeaderValue) × (http.as_bytes v ≡ key)
        × (values http h k ≡ (
            if equal (codes "x-subscription-token") k
            then v ∷ []
            else if strip_request_header k
            then []
            else values http m k))
  unfolding request_headers forward_headers
  request_headers_forwarded user_agent key m h k sent not_accept not_agent =
      elim (Option-cases (http.from_str key)) [
        | inl bad ↦ absurd (cc (rw (bad, request_headers) at sent))
        | inr (v, good) ↦ (
          v,
          http.as_bytes-from_str key v good,
          ap (λ x. values http x k) (sym (built v good))
              ∙ values-insert_if_missing http _ (codes "user-agent") _ k (not-equal _ k not_agent)
              ∙ values-insert_if_missing http _ (codes "accept") _ k (not-equal _ k not_accept)
              ∙ values-with_token m v k,
        )
      ]
    where
      or_h : Result http.HeaderMap UpstreamError → http.HeaderMap
      or_h (ok x) = x
      or_h (err e) = h

      built :
          (v : http.HeaderValue)
          → http.from_str key ≡ some v
          → insert_if_missing http
              (insert_if_missing http
                (with_token m v)
                (codes "accept")
                (http.from_str (codes "application/json")))
              (codes "user-agent")
              (http.from_str user_agent)
            ≡ h
      built v good = ap or_h (rw (good, request_headers) at sent)

  -- Of a request that is sent, the pool's key is the only subscription token, and what the client
  -- sends to authenticate itself to the proxy, or to others by the usual names, is withheld.
  pub request_headers_withhold :
      (user_agent key : Text) (m h : http.HeaderMap)
      → request_headers http user_agent (forward_headers http m) key ≡ ok h
      → (v : http.HeaderValue) × (http.as_bytes v ≡ key)
        × (values http h (codes "x-subscription-token") ≡ v ∷ [])
        × (values http h (codes "x-proxy-token") ≡ [])
        × (values http h (codes "x-api-key") ≡ [])
        × (values http h (codes "authorization") ≡ [])
        × (values http h (codes "proxy-authorization") ≡ [])
  unfolding equal strip_request_header hop_by_hop one_of
  request_headers_withhold user_agent key m h sent =
      let (v, token, only_one) = of (codes "x-subscription-token") refl refl in
      (
        v,
        token,
        only_one,
        (of (codes "x-proxy-token") refl refl).2,
        (of (codes "x-api-key") refl refl).2,
        (of (codes "authorization") refl refl).2,
        (of (codes "proxy-authorization") refl refl).2,
      )
    where
      of :
          (k : Text)
          → equal (codes "accept") k ≡ false
          → equal (codes "user-agent") k ≡ false
          → (v : http.HeaderValue) × (http.as_bytes v ≡ key)
            × (values http h k ≡ (
                if equal (codes "x-subscription-token") k
                then v ∷ []
                else if strip_request_header k
                then []
                else values http m k))
      of k accept agent =
          request_headers_forwarded user_agent key m h k sent (unlike _ k accept) (unlike _ k agent)

  -- Of the limits that the response carries, the client sees the pool's alone: under each of the two
  -- names it finds one value, the pool's text, and nothing else.
  pub response_headers-limits :
      (m : http.HeaderMap) (snap : PoolSnapshot) (label : Text) (attempts : ℕ)
      → (values http (response_headers http m snap label attempts) (codes "x-ratelimit-limit")
          ≡ only (http.from_str (limit_text snap)))
        × (values http (response_headers http m snap label attempts) (codes "x-ratelimit-remaining")
            ≡ only (http.from_str (remaining_text snap)))
        × ((v : http.HeaderValue) × (http.from_str (limit_text snap) ≡ some v))
        × ((v : http.HeaderValue) × (http.from_str (remaining_text snap) ≡ some v))
  unfolding response_headers equal strip_response_header hop_by_hop one_of starts_with strip_prefix
  response_headers-limits m snap label attempts = (
    values-set_header _ _ _ (codes "x-ratelimit-limit") refl
        ∙ values-set_header _ _ _ (codes "x-ratelimit-limit") refl
        ∙ values-set_header _ _ _ (codes "x-ratelimit-limit") refl
        ∙ values-set_header_self _ (codes "x-ratelimit-limit") _ refl
            (values-copied strip_response_header m (codes "x-ratelimit-limit")),
    values-set_header _ _ _ (codes "x-ratelimit-remaining") refl
        ∙ values-set_header _ _ _ (codes "x-ratelimit-remaining") refl
        ∙ values-set_header_self _ (codes "x-ratelimit-remaining") _ refl (
            values-set_header _ _ _ (codes "x-ratelimit-remaining") refl
            ∙ values-copied strip_response_header m (codes "x-ratelimit-remaining")),
    http.from_str-Visible (limit_text snap) (limit_text-Visible snap),
    http.from_str-Visible (remaining_text snap) (remaining_text-Visible snap),
  )

  -- Of every name but those two and the rotator's own two, the client gets no value if the name is
  -- one to strip, and the values of the upstream's response, in order, if not.
  pub response_headers_relayed :
      (m : http.HeaderMap) (snap : PoolSnapshot) (label : Text) (attempts : ℕ) (k : Text)
      → k ≢ codes "x-ratelimit-limit"
      → k ≢ codes "x-ratelimit-remaining"
      → k ≢ codes "x-rotator-key"
      → k ≢ codes "x-rotator-attempts"
      → values http (response_headers http m snap label attempts) k
        ≡ (if strip_response_header k then [] else values http m k)
  unfolding response_headers
  response_headers_relayed m snap label attempts k limit remaining key count =
      values-set_header _ _ _ k (not-equal _ k count)
      ∙ values-set_header _ _ _ k (not-equal _ k key)
      ∙ values-set_header _ _ _ k (not-equal _ k remaining)
      ∙ values-set_header _ _ _ k (not-equal _ k limit)
      ∙ values-copied strip_response_header m k
