-- ===== src/Proxy/Refusals.antt =====
-- src/proxy.rs, `error_response`: how long a refused client is told to wait.
use brave_search_api_rotator.Base.{
  ℕ, ◌*◌, ◌≤◌, [], ◌∷◌, ap, u128_max, none, some, ◌≡◌, refl, ◌∙◌, ◌↔◌, arith,
}
use brave_search_api_rotator.Text.{Text, codes, equal}
use brave_search_api_rotator.Text.Numbers.{to_string_u128, parse_unsigned}
use brave_search_api_rotator.Text.Numbers.Roundtrip.{
  parse_unsigned-to_string_u128, to_string_u128-Digits,
}
use brave_search_api_rotator.Http.{Http, values_of}
use brave_search_api_rotator.Upstream.Headers.{values}
use brave_search_api_rotator.Proxy.{retry_after_secs, error_response}
use brave_search_api_rotator.Proxy.Printed.{Visible-of_Digits}
use brave_search_api_rotator.Proxy.Forwarding.{only, values-set_header, values-set_header_self}

-- `n` is the least number of whole seconds, at least one, that covers `ms` milliseconds.
abbrev pub LeastSeconds : ℕ → ℕ → Type 0
LeastSeconds ms n = (m : ℕ) → (n ≤ m) ↔ ((1 ≤ m) × (ms ≤ m * 1000))

retry_after_secs-LeastSeconds : (ms : ℕ) → LeastSeconds ms (retry_after_secs ms)
unfolding retry_after_secs
retry_after_secs-LeastSeconds ms m = (λ h. (omega arith, omega arith), λ h. omega arith)

retry_after_secs-fits : (ms : ℕ) → ms ≤ u128_max → retry_after_secs ms ≤ u128_max
unfolding retry_after_secs
retry_after_secs-fits ms fits = omega arith

module _ (http : Http) where
  -- A refusal without a time has no header `Retry-After`; one with a time in milliseconds that fits
  -- a u128 has that header once, and it reads as the least number of whole seconds that covers the
  -- time and is at least one.
  pub error_response_retry_after :
      (status : ℕ) (error detail : Text) (ms : ℕ)
      → ms ≤ u128_max
      → (values http (error_response http status error detail none).headers (codes "retry-after")
          ≡ [])
        × ((n : ℕ) × LeastSeconds ms n
            × ((v : http.HeaderValue) × (values http
                    (error_response http status error detail (some ms)).headers
                    (codes "retry-after")
                  ≡ v ∷ [])
                × (parse_unsigned u128_max (http.as_bytes v) ≡ some n)))
  unfolding error_response equal values_of
  error_response_retry_after status error detail ms fits =
      let secs = retry_after_secs ms in
      let (v, made) =
        http.from_str-Visible (to_string_u128 secs)
          (Visible-of_Digits (to_string_u128 secs) (to_string_u128-Digits secs)) in
      let text = http.as_bytes-from_str (to_string_u128 secs) v made in
      (
        values-set_header http _ _ _ (codes "retry-after") refl ∙ none_yet,
        (
          secs,
          retry_after_secs-LeastSeconds ms,
          (
            v,
            values-set_header_self http _ (codes "retry-after") _ refl
                  (values-set_header http _ _ _ (codes "retry-after") refl ∙ none_yet)
                ∙ ap (only http) made,
            rw text (parse_unsigned-to_string_u128 secs (retry_after_secs-fits ms fits)),
          ),
        ),
      )
    where
      none_yet : values http http.empty (codes "retry-after") ≡ []
      none_yet = rw (http.entries-empty) refl
