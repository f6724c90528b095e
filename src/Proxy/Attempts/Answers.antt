-- ===== src/Proxy/Attempts/Answers.antt =====
-- src/proxy.rs, `proxy`: every request is answered.
use brave_search_api_rotator.Base.{
  ℕ, suc, ◌+◌, ◌≤◌, min, max, ◌≡◌, refl, inl, arith, true, List, Option, some, ok, length,
}
use brave_search_api_rotator.Text.{Text}
use brave_search_api_rotator.Http.{Http}
use brave_search_api_rotator.Pool.{Pool, len}
use brave_search_api_rotator.Proxy.Attempts.{
  Schedule, Progress, Leaving, start, Request, max_attempts_of, proxy, reply,
}
use brave_search_api_rotator.Proxy.{authorized, forward_headers}
use brave_search_api_rotator.Proxy.Attempts.Course.{Course}
use brave_search_api_rotator.Proxy.Attempts.Total.{KeptRetried, Orderly, attempts_loop_total}

module _ (http : Http) (fmt_instant format_duration : ℕ → Text) (decode : List ℕ → Text)
    (world : Schedule http) where
  -- A request that is authorized and whose body can be read is answered, if no other task removes a
  -- key and no sleep is too short, after at most five attempts and at most as many as the pool
  -- allows. The attempts run as follows. Each waits, up to the deadline, for a key that was not
  -- tried before, or for any key if those are disabled or exhausted, in a loop that ends as the one
  -- of `acquire` does. If it has no key, the answer is the refusal of this loop. Else it sends the
  -- request with the token of the leased key, notes this key as tried, and records the outcome,
  -- once, on this key in the pool as the loop and then the other tasks left it. A response with a
  -- status on which no other key is tried is passed on at once. One with another status is kept, or
  -- the transport error is, and the next attempt follows. When all allowed attempts are made there
  -- is a response that was kept, or a transport error, to report.
  pub proxy_answers :
      (token : Option Text) (max_queue_wait : ℕ) (p : Pool) (req : Request http) (body : List ℕ)
      → Orderly http world
      → authorized http token req.headers ≡ true
      → req.body ≡ ok body
      → (g : Progress http) × (leaving : Leaving http) × (proxy http fmt_instant decode world
            format_duration token max_queue_wait p req
          ≡ some (reply http fmt_instant decode world format_duration (g, leaving)))
        × (g.attempts ≤ min (max (len p) 2) 5)
        × (length g.tried ≡ g.attempts)
        × KeptRetried http g.last_response
        × Course http fmt_instant decode world
            (world.started + max_queue_wait)
            (max_attempts_of p)
            req.method
            req.path_and_query
            (forward_headers http req.headers)
            body
            g
            leaving
            (start http p)
  unfolding proxy
  proxy_answers token max_queue_wait p req body orderly allowed read =
      let (g, leaving, ends, bound, each, kept, left) =
        attempts_loop_total http fmt_instant decode world (world.started + max_queue_wait)
          (max_attempts_of p) req.method req.path_and_query (forward_headers http req.headers) body
          orderly (suc (max_attempts_of p)) (start http p) (ground arith)
          (record { bound = omega arith; one_key_each = refl; kept = tt; failed = inl refl })
          (omega arith) in
      (g, leaving, rw (allowed, read, ends) refl, bound, each, kept, left)
