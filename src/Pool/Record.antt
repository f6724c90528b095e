-- ===== src/Pool/Record.antt =====
-- src/pool.rs, `record`: what the pool learns from an upstream outcome.
pub mod Effects
pub mod Statuses
pub mod Parking
pub mod TooMany
pub mod Late
use brave_search_api_rotator.Base.{
  ℕ, ◌+◌, ◌*◌, Bool, true, false, ◌&&◌, ◌||◌, List, [], ◌∷◌, ◌++◌, Option, none, some, ltb, leb,
  ◌==◌, if◌then◌else◌, get_elem?, set, unwrap_or, option_map, and_then, add_u64, add_u32,
}
use brave_search_api_rotator.Text.{Text, codes}
use brave_search_api_rotator.Text.Numbers.{to_string}
use brave_search_api_rotator.RateLimit.{RateLimitInfo, month_exhausted, month_reset, second_wait}
use brave_search_api_rotator.Key.{
  KeyState, window_base, auth_backoff_base, auth_backoff_max, unexplained_429_threshold,
  unexplained_429_backoff, override_cap_fallback,
}
use brave_search_api_rotator.Key.Quota.{learn_limits, override_cap_exhausted}
use brave_search_api_rotator.Key.Backoff.{disable, exhaust, fail}
use brave_search_api_rotator.Pool.{Pool, Verdict, Outcome, response, transport}

-- `": {s}"` for a body that is there and not empty.
abbrev snippet_detail : Text → Text
snippet_detail [] = []
snippet_detail (c ∷ s) = codes ": " ++ (c ∷ s)

unfoldable pub detail_of : Option Text → Text
detail_of none = []
detail_of (some s) = snippet_detail s

-- `"HTTP {status}{detail}"`.
unfoldable pub http_reason : ℕ → Text → Text
http_reason status detail = codes "HTTP " ++ (to_string status ++ detail)

unfoldable pub transport_reason : Text → Text
transport_reason error = codes "transport error: " ++ error

unfoldable pub unexplained_reason : ℕ → Text → Text
unexplained_reason n detail =
    to_string n ++ (codes " consecutive 429s without rate-limit headers" ++ detail)

unfoldable pub on_transport : KeyState → ℕ → Text → KeyState
on_transport k now error =
    let counted = record k {
      stats = record k.stats {
        transport_errors = add_u64 k.stats.transport_errors 1;
        last_status = none;
        last_error = some error;
      };
    } in
    fail counted now (transport_reason error)

-- The counters of a success, and the recovery of a key that had strikes.
unfoldable pub mark_ok : KeyState → ℕ → KeyState
mark_ok k now =
    let healed = ltb 0 k.disable_strikes in
    record k {
      stats = record k.stats { ok = add_u64 k.stats.ok 1; last_error = none };
      last_ok = some now;
      consecutive_failures = 0;
      consecutive_429 = 0;
      disable_strikes = if healed then 0 else k.disable_strikes;
      disabled_since = if healed then none else k.disabled_since;
    }

-- `rl.is_some_and(|r| r.month_exhausted())`.
abbrev pub says_exhausted : Option RateLimitInfo → Bool
says_exhausted none = false
says_exhausted (some r) = month_exhausted r

-- Parks a key after the last request of the month, as Brave or the local cap has it.
unfoldable pub park_if_spent : KeyState → ℕ → Option RateLimitInfo → KeyState
park_if_spent k now rl =
    if says_exhausted rl
    then exhaust k now (and_then rl month_reset)
    else if override_cap_exhausted k
    then exhaust k now (some (unwrap_or (and_then rl month_reset) override_cap_fallback))
    else k

unfoldable pub on_success : KeyState → ℕ → Option RateLimitInfo → KeyState
unfolding mark_ok park_if_spent
on_success k now rl = park_if_spent (mark_ok k now) now rl

unfoldable pub hold_or_park : KeyState → ℕ → Text → Option RateLimitInfo → KeyState
hold_or_park k now detail (some r) =
    if month_exhausted r
    then exhaust k now (month_reset r)
    else record k { hold_until = some (now + second_wait r) }
hold_or_park k now detail none =
    let held = record k { hold_until = some (now + 2 * window_base) } in
    if leb unexplained_429_threshold k.consecutive_429
    then disable held now unexplained_429_backoff unexplained_429_backoff
        (unexplained_reason k.consecutive_429 detail)
    else held

unfoldable pub on_429 : KeyState → ℕ → Text → Option RateLimitInfo → KeyState
unfolding hold_or_park
on_429 k now detail rl =
    let counted = record k {
      stats = record k.stats {
        upstream_429 = add_u64 k.stats.upstream_429 1;
        last_error = some (http_reason 429 detail);
      };
      consecutive_429 = add_u32 k.consecutive_429 1;
    } in
    hold_or_park counted now detail rl

-- The counter and the message of a 4xx.
unfoldable pub mark_4xx : KeyState → ℕ → Text → KeyState
mark_4xx k status detail = record k {
  stats = record k.stats {
    client_4xx = add_u64 k.stats.client_4xx 1;
    last_error = some (http_reason status detail);
  };
}

unfoldable pub on_auth : KeyState → ℕ → ℕ → Text → KeyState
unfolding mark_4xx
on_auth k now status detail =
    disable (mark_4xx k status detail) now auth_backoff_base auth_backoff_max
      (http_reason status detail)

unfoldable pub on_5xx : KeyState → ℕ → ℕ → Text → KeyState
on_5xx k now status detail =
    let counted = record k {
      stats = record k.stats {
        server_5xx = add_u64 k.stats.server_5xx 1;
        last_error = some (http_reason status detail);
      };
    } in
    fail counted now (http_reason status detail)

-- The match on the status, first arm that fits.
unfoldable pub by_status : KeyState → ℕ → ℕ → Option RateLimitInfo → Text → KeyState × Verdict
unfolding on_success on_429 mark_4xx on_auth on_5xx
by_status k now status rl detail =
    if leb 200 status && leb status 299
    then (on_success k now rl, Verdict.ok)
    else if status == 429
    then (on_429 k now detail rl, Verdict.retry_other_key)
    else if status == 401 || status == 403
    then (on_auth k now status detail, Verdict.retry_other_key)
    else if leb 400 status && leb status 499
    then (mark_4xx k status detail, Verdict.return_to_client)
    else if leb 500 status && leb status 599
    then (on_5xx k now status detail, Verdict.retry_other_key)
    else (k, Verdict.return_to_client)

-- `if let Some(rl) = &rl { k.learn_limits(now, rl) }`.
abbrev pub learned : KeyState → ℕ → Option RateLimitInfo → KeyState
learned k now none = k
learned k now (some rl) = learn_limits k now rl

unfoldable pub digest : KeyState → ℕ → Outcome → KeyState × Verdict
unfolding on_transport by_status detail_of
digest k now (transport error) = (on_transport k now error, Verdict.retry_other_key)
digest k now (response status rl body_snippet) =
    let seen = record k { stats = record k.stats { last_status = some status } } in
    by_status (learned seen now rl) now status rl (detail_of body_snippet)

unfoldable pub record_outcome : Pool → ℕ → ℕ → Outcome → Pool × Verdict
unfolding digest
record_outcome p now idx outcome = elim (get_elem? p.keys idx) [
  | none ↦ (p, Verdict.return_to_client)
  | some k ↦
      let (k', verdict) = digest k now outcome in (record p { keys = set p.keys idx k' }, verdict)
]
