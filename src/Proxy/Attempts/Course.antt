-- ===== src/Proxy/Attempts/Course.antt =====
-- src/proxy.rs, `proxy`: a description of its attempts that names no loop, no break and no verdict.
use brave_search_api_rotator.Base.{
  ℕ, ◌+◌, ◌<◌, ◌≡◌, true, ◌||◌, List, [], ◌∷◌, ◌++◌, some, Result, ok, err, is_some,
}
use brave_search_api_rotator.Text.{Text}
use brave_search_api_rotator.Http.{Http}
use brave_search_api_rotator.RateLimit.{from_headers}
use brave_search_api_rotator.Pool.{Pool, Lease, Outcome, response, transport, AcquireError}
use brave_search_api_rotator.Pool.Acquire.Waiting.{Ends}
use brave_search_api_rotator.Pool.Record.{record_outcome}
use brave_search_api_rotator.Pool.Record.Effects.{IsRetried}
use brave_search_api_rotator.Upstream.{UpstreamResponse, UpstreamError, send, error_text}
use brave_search_api_rotator.Proxy.Attempts.{
  Schedule, Progress, Leaving, returned, broken, used_up, snip_of,
}

module _ (http : Http) where
  -- There is a failure to report.
  abbrev pub HasFailed : Progress http → Type 0
  HasFailed g = (is_some g.last_response || is_some g.last_error) ≡ true

  module _ (fmt_instant : ℕ → Text) (decode : List ℕ → Text) (world : Schedule http)
      (deadline most : ℕ) (method path_and_query : Text) (headers : http.HeaderMap)
      (body : List ℕ) where
    -- The next attempt waits for a key that it has not tried: this ends with `r`, on the pool `q`.
    abbrev pub Acquires : Progress http → Pool → Result Lease AcquireError → Type 0
    Acquires g q r =
        Ends fmt_instant (world.waiting g.attempts) g.tried deadline 0 (world.starts g.attempts)
          (world.before g.attempts g.pool) q r

    -- What the upstream makes of the request with the leased token.
    abbrev pub sent : Progress http → Lease → Result (UpstreamResponse http) UpstreamError
    sent g lease =
        send http (world.upstream g.attempts) method path_and_query headers body lease.token

    abbrev pub outcome_of : UpstreamResponse http → Outcome
    outcome_of resp =
        response resp.status (from_headers http resp.headers)
          (snip_of http fmt_instant decode world resp)

    -- After an attempt with a lease from the pool `q`: the leased key is noted as tried, and this
    -- outcome recorded, once, on this key.
    abbrev pub noted : Progress http → Pool → Lease → Outcome → Progress http
    noted g q lease outcome = record g {
      pool =
          (record_outcome (world.during g.attempts q) (world.recorded g.attempts) lease.idx
            outcome).0;
      tried = g.tried ++ lease.idx ∷ [];
      attempts = g.attempts + 1;
    }

    -- The attempts from here lead to `last`, and the loop is then left in this way.
    pub data Course (last : Progress http) (leaving : Leaving http) : Progress http → Type 0 where
      all_made :
          (g : Progress http)
          → g.attempts ≡ most
          → HasFailed g
          → last ≡ g
          → leaving ≡ used_up
          → Course last leaving g
      no_key :
          (g : Progress http) (q : Pool) (e : AcquireError)
          → g.attempts < most
          → Acquires g q (err e)
          → last ≡ record g { pool = q }
          → leaving ≡ broken e
          → Course last leaving g
      passed_on :
          (g : Progress http) (q : Pool) (lease : Lease) (resp : UpstreamResponse http)
          → g.attempts < most
          → Acquires g q (ok lease)
          → sent g lease ≡ ok resp
          → ¬ IsRetried resp.status
          → last ≡ noted g q lease (outcome_of resp)
          → leaving ≡ returned resp lease.label
          → Course last leaving g
      retried :
          (g : Progress http) (q : Pool) (lease : Lease) (resp : UpstreamResponse http)
          → g.attempts < most
          → Acquires g q (ok lease)
          → sent g lease ≡ ok resp
          → IsRetried resp.status
          → Course last leaving (record (noted g q lease (outcome_of resp)) {
            last_response = some (resp, lease.label);
          })
          → Course last leaving g
      unreached :
          (g : Progress http) (q : Pool) (lease : Lease) (e : UpstreamError)
          → g.attempts < most
          → Acquires g q (ok lease)
          → sent g lease ≡ err e
          → Course last leaving (record (noted g q lease (transport (error_text e))) {
            last_error = some (error_text e);
          })
          → Course last leaving g
