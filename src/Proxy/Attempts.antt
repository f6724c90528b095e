-- ===== src/Proxy/Attempts.antt =====
-- src/proxy.rs, `proxy`: the attempts on one request. What happens while this task waits is a
-- parameter of each attempt.
pub mod Course
pub mod Total
pub mod Answers
use brave_search_api_rotator.Base.{
  ℕ, zero, suc, ◌+◌, ◌-◌, ◌/◌, max, min, Bool, true, false, ◌&&◌, ◌||◌, List, [], ◌∷◌, ◌++◌, Option,
  none, some, Result, ok, err, ltb, leb, if◌then◌else◌, option_map, unwrap_or, length, take,
  as_millis,
}
use brave_search_api_rotator.Text.{Text, codes, trim}
use brave_search_api_rotator.Text.Numbers.{to_string_u128}
use brave_search_api_rotator.Http.{Http}
use brave_search_api_rotator.RateLimit.{from_headers}
use brave_search_api_rotator.Pool.{
  Pool, Lease, Verdict, Outcome, response, transport, AcquireError, len,
}
use brave_search_api_rotator.Pool.Acquire.{World, acquire_loop}
use brave_search_api_rotator.Pool.Record.{record_outcome}
use brave_search_api_rotator.Upstream.{Upstream, UpstreamResponse, UpstreamError, send, error_text}
use brave_search_api_rotator.Proxy.{
  Response, authorized, forward_headers, error_response, build_response,
}

-- `char::is_control`: the Unicode category Cc.
unfoldable pub is_control : ℕ → Bool
is_control c = leb c 0x1F || (leb 0x7F c && leb c 0x9F)

unfoldable pub printable : Text → Text
unfolding is_control
printable [] = []
printable (c ∷ s) = if is_control c then printable s else c ∷ printable s

-- `decode` is `String::from_utf8_lossy`.
unfoldable pub snippet : (List ℕ → Text) → List ℕ → Text
unfolding printable
snippet decode body =
    let trimmed = trim (printable (decode body)) in
    if ltb 160 (length trimmed) then take 160 trimmed ++ codes "..." else take 160 trimmed

-- `st.pool.len().clamp(2, 5)`.
abbrev pub max_attempts_of : Pool → ℕ
max_attempts_of p = min (max (len p) 2) 5

module _ (http : Http) where
  -- `body` is what `to_bytes` gives: an error when the body is above the limit.
  pub record Request : Type 0 where
    pub method : Text
    pub path_and_query : Text
    pub headers : http.HeaderMap
    pub body : Result (List ℕ) Text

  -- The world around each attempt: what the other tasks do to the pool before it and while its
  -- request is out, the times of its `acquire` and of its `record`, and the client it meets; and
  -- the same for the response.
  pub record Schedule : Type 0 where
    pub started : ℕ
    pub before : ℕ → Pool → Pool
    pub starts : ℕ → ℕ
    pub waiting : ℕ → World
    pub upstream : ℕ → Upstream http
    pub during : ℕ → Pool → Pool
    pub recorded : ℕ → ℕ
    pub before_reply : Pool → Pool
    pub replied : ℕ

  -- The variables of the loop.
  pub record Progress : Type 0 where
    pub pool : Pool
    pub tried : List ℕ
    pub last_response : Option (UpstreamResponse http × Text)
    pub last_error : Option Text
    pub attempts : ℕ

  -- How the loop is left: by a `return`, by `break`, or by its condition.
  pub data Leaving : Type 0 where
    returned : UpstreamResponse http → Text → Leaving
    broken : AcquireError → Leaving
    used_up : Leaving

  abbrev pub start : Pool → Progress
  start p = record { pool = p; tried = []; last_response = none; last_error = none; attempts = 0 }

  module _ (fmt_instant : ℕ → Text) (decode : List ℕ → Text) (world : Schedule) where
    -- The snippet of a response that is no success.
    abbrev pub snip_of : UpstreamResponse http → Option Text
    snip_of resp =
        if leb 200 resp.status && leb resp.status 299 then none else some (snippet decode resp.body)

    -- The match on the verdict.
    abbrev pub judge :
        Progress → UpstreamResponse http → Text → Pool × Verdict → Progress × Option Leaving
    judge g resp label (p, Verdict.ok) = (record g { pool = p }, some (returned resp label))
    judge g resp label (p, Verdict.return_to_client) =
        (record g { pool = p }, some (returned resp label))
    judge g resp label (p, Verdict.retry_other_key) =
        (record g { pool = p; last_response = some (resp, label) }, none)

    -- The match on the result of `send`; `n` is the number of the attempts before this one.
    unfoldable pub digest_reply :
        ℕ
        → Lease
        → Progress
        → Result (UpstreamResponse http) UpstreamError
        → Progress × Option Leaving
    unfolding snippet
    digest_reply n lease g (ok resp) = judge g resp lease.label (
        record_outcome (world.during n g.pool) (world.recorded n) lease.idx
          (response resp.status (from_headers http resp.headers) (snip_of resp)))
    digest_reply n lease g (err e) = (
      record g {
        pool =
            (record_outcome (world.during n g.pool) (world.recorded n) lease.idx
              (transport (error_text e))).0;
        last_error = some (error_text e);
      },
      none,
    )

    module _ (deadline : ℕ) (method path_and_query : Text) (headers : http.HeaderMap)
        (body : List ℕ) where
      -- What follows a lease.
      unfoldable pub use_lease : Progress → Pool → Lease → Progress × Option Leaving
      unfolding digest_reply
      use_lease g p lease =
          let counted = record g {
            pool = p;
            attempts = g.attempts + 1;
            tried = g.tried ++ lease.idx ∷ [];
          } in
          digest_reply g.attempts lease counted
            (send http (world.upstream g.attempts) method path_and_query headers body lease.token)

      abbrev pub on_acquired :
          Progress → Pool × Result Lease AcquireError → Progress × Option Leaving
      on_acquired g (p, err e) = (record g { pool = p }, some (broken e))
      on_acquired g (p, ok lease) = use_lease g p lease

      -- The loop's body. The fuel allows every wait up to the deadline.
      unfoldable pub attempt : Progress → Option (Progress × Option Leaving)
      unfolding use_lease
      attempt g =
          let now = world.starts g.attempts in
          option_map
            (acquire_loop fmt_instant (world.waiting g.attempts) (suc (deadline + 1 - now)) 0 now
              (world.before g.attempts g.pool) deadline g.tried)
            (on_acquired g)

      -- `none` means that some fuel ran out.
      unfoldable pub attempts_loop : ℕ → ℕ → Progress → Option (Progress × Leaving)
      unfolding attempt
      attempts_loop zero max_attempts g = none
      attempts_loop (suc fuel) max_attempts g =
          if ltb g.attempts max_attempts
          then elim (attempt g) [
            | none ↦ none
            | some (g', some leaving) ↦ some (g', leaving)
            | some (g', none) ↦ attempts_loop fuel max_attempts g'
          ]
          else some (g, used_up)

    module _ (format_duration : ℕ → Text) where
      -- What follows the loop.
      unfoldable pub reply : Progress × Leaving → Pool × Response http
      reply (g, returned resp label) =
          build_response http format_duration fmt_instant (world.before_reply g.pool) world.replied
            resp label g.attempts
      reply (g, broken (AcquireError.saturated retry_after)) = (
        g.pool,
        error_response http 429 (codes "rotator_saturated")
            (codes "every key's per-second budget is spent; next slot in "
              ++ (to_string_u128 (as_millis retry_after) ++ codes "ms"))
            (some (as_millis retry_after)),
      )
      reply (g, broken (AcquireError.unavailable retry_after summary)) = (
        g.pool,
        error_response http 503 (codes "no_usable_key") summary
            (option_map retry_after (λ d. as_millis d)),
      )
      reply (g, used_up) = elim g.last_response [
        | some (resp, label) ↦
            build_response http format_duration fmt_instant (world.before_reply g.pool)
              world.replied resp label g.attempts
        | none ↦ (
          g.pool,
          error_response http 502 (codes "upstream_unreachable")
              (unwrap_or g.last_error (codes "no attempt could be made")) none,
        )
      ]

      unfoldable pub proxy : Option Text → ℕ → Pool → Request → Option (Pool × Response http)
      unfolding reply attempts_loop
      proxy proxy_token max_queue_wait p req =
          if authorized http proxy_token req.headers
          then elim req.body [
            | err e ↦ some (p, error_response http 413 (codes "body_too_large") e none)
            | ok body ↦
                option_map
                  (attempts_loop (world.started + max_queue_wait) req.method req.path_and_query
                    (forward_headers http req.headers) body (suc (max_attempts_of p))
                    (max_attempts_of p) (start p))
                  reply
          ]
          else some (
            p,
            error_response http 401 (codes "unauthorized") (codes "missing or wrong X-Proxy-Token")
                none,
          )
