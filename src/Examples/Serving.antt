-- ===== src/Examples/Serving.antt =====
-- The theorems on the proxy, at concrete inputs.
use brave_search_api_rotator.Base.{
  ℕ, ◌+◌, ◌≤◌, ◌≡◌, ◌↔◌, refl, arith, min, max, List, [], ◌∷◌, Option, none, some, ok, err, length,
  if◌then◌else◌,
}
use brave_search_api_rotator.Text.{Text, codes, equal, split, trim}
use brave_search_api_rotator.Text.Numbers.{parse_unsigned}
use brave_search_api_rotator.Http.{values_of}
use brave_search_api_rotator.Pool.{Pool, Next, len}
use brave_search_api_rotator.Base.{◌<◌, u128_max, All, is_empty, false}
use brave_search_api_rotator.Config.{
  Collected, read_keys, key_pieces, first_env, is_key_separator, collect, take_key,
}
use brave_search_api_rotator.Config.Keys.{Distinct, Covered, filled_count, read_keys-Distinct}
use brave_search_api_rotator.Pool.Acquire.{World}
use brave_search_api_rotator.Pool.Select.{try_acquire}
use brave_search_api_rotator.Upstream.{Upstream, elapsed, request_headers, copy_headers}
use brave_search_api_rotator.Upstream.Headers.{values}
use brave_search_api_rotator.Proxy.{
  strip_request_header, strip_response_header, forward_headers, response_headers, limit_text,
  remaining_text, authorized, hop_by_hop, one_of, error_response,
}
use brave_search_api_rotator.Proxy.Forwarding.{
  only, request_headers_forwarded, request_headers_withhold, response_headers-limits,
  response_headers_relayed,
}
use brave_search_api_rotator.Proxy.Attempts.{
  Schedule, Request, Progress, Leaving, proxy, reply, max_attempts_of, start,
}
use brave_search_api_rotator.Proxy.Attempts.Total.{KeptRetried}
use brave_search_api_rotator.Proxy.Attempts.Course.{Course}
use brave_search_api_rotator.Proxy.Attempts.Answers.{proxy_answers}
use brave_search_api_rotator.Proxy.Refusals.{LeastSeconds, error_response_retry_after}
use brave_search_api_rotator.Proxy.Health.{health, health-try_acquire}
use brave_search_api_rotator.Pool.Snapshot.{PoolSnapshot, nothing_seen}
use brave_search_api_rotator.Key.{Health}
use brave_search_api_rotator.Examples.Headers.{list_http, distinct}
use brave_search_api_rotator.Examples.Runs.{no_clock, pool, key_0, key_1}

-- A client that sends its own token, and the proxy's password.
abbrev client_headers : List (Text × Text)
client_headers =
    (codes "x-proxy-token", codes "secret")
    ∷ (codes "x-subscription-token", codes "mine")
    ∷ (codes "cache-control", codes "no-cache")
    ∷ []

abbrev sent_headers : List (Text × Text)
sent_headers =
    (codes "cache-control", codes "no-cache")
    ∷ (codes "x-subscription-token", codes "BSA0000key")
    ∷ (codes "accept", codes "application/json")
    ∷ (codes "user-agent", codes "brave-rotator/1")
    ∷ []

request_headers_forwarded_example :
    (v : Text) × (v ≡ codes "BSA0000key")
    × (values list_http sent_headers (codes "x-proxy-token") ≡ (
        if equal (codes "x-subscription-token") (codes "x-proxy-token")
        then v ∷ []
        else if strip_request_header (codes "x-proxy-token")
        then []
        else values list_http client_headers (codes "x-proxy-token")))
unfolding request_headers forward_headers strip_request_header values_of equal copy_headers
    hop_by_hop one_of
request_headers_forwarded_example =
    request_headers_forwarded list_http (codes "brave-rotator/1") (codes "BSA0000key")
      client_headers sent_headers (codes "x-proxy-token") refl (distinct _ _ refl)
      (distinct _ _ refl)

request_headers_withhold_example :
    (v : Text) × (v ≡ codes "BSA0000key")
    × (values list_http sent_headers (codes "x-subscription-token") ≡ v ∷ [])
    × (values list_http sent_headers (codes "x-proxy-token") ≡ [])
    × (values list_http sent_headers (codes "x-api-key") ≡ [])
    × (values list_http sent_headers (codes "authorization") ≡ [])
    × (values list_http sent_headers (codes "proxy-authorization") ≡ [])
unfolding request_headers forward_headers strip_request_header values_of equal copy_headers
    hop_by_hop one_of
request_headers_withhold_example =
    request_headers_withhold list_http (codes "brave-rotator/1") (codes "BSA0000key") client_headers
      sent_headers refl

abbrev report : PoolSnapshot
report = record (nothing_seen [] 2) { keys_healthy = 2; rps_capacity = 2; slots_available_now = 1 }

abbrev upstream_headers : List (Text × Text)
upstream_headers =
    (codes "x-ratelimit-limit", codes "1, 2000")
    ∷ (codes "x-ratelimit-policy", codes "1;w=1")
    ∷ (codes "content-type", codes "application/json")
    ∷ []

response_headers-limits_example :
    (values list_http
        (response_headers list_http upstream_headers report (codes "k1") 1)
        (codes "x-ratelimit-limit")
      ≡ only list_http (some (limit_text report)))
    × (values list_http
          (response_headers list_http upstream_headers report (codes "k1") 1)
          (codes "x-ratelimit-remaining")
        ≡ only list_http (some (remaining_text report)))
    × ((v : Text) × (◌≡◌ {A = Option Text} (some (limit_text report)) (some v)))
    × ((v : Text) × (◌≡◌ {A = Option Text} (some (remaining_text report)) (some v)))
response_headers-limits_example =
    response_headers-limits list_http upstream_headers report (codes "k1") 1

error_response_retry_after_example :
    (values list_http
        (error_response list_http 429 (codes "rotator_saturated") (codes "busy") none).headers
        (codes "retry-after")
      ≡ [])
    × ((n : ℕ) × LeastSeconds 1001 n
        × ((v : Text) × (values list_http
                (error_response list_http 429
                  (codes "rotator_saturated")
                  (codes "busy")
                  (some 1001)).headers
                (codes "retry-after")
              ≡ v ∷ [])
            × (parse_unsigned u128_max v ≡ some n)))
error_response_retry_after_example =
    error_response_retry_after list_http 429 (codes "rotator_saturated") (codes "busy") 1001
      (omega arith)

response_headers_relayed_example :
    values list_http
      (response_headers list_http upstream_headers report (codes "k1") 1)
      (codes "content-type")
    ≡ (if strip_response_header (codes "content-type")
        then []
        else values list_http upstream_headers (codes "content-type"))
unfolding equal
response_headers_relayed_example =
    response_headers_relayed list_http upstream_headers report (codes "k1") 1 (codes "content-type")
      (distinct _ _ refl) (distinct _ _ refl) (distinct _ _ refl) (distinct _ _ refl)

-- A task alone, whose every request times out.
abbrev alone : World
alone = record { wake = λ round at. at; others = λ round p. p }

abbrev silent : Upstream list_http
silent = record {
  base = codes "https://api.search.brave.com";
  timeout = 10;
  user_agent = codes "brave-rotator/1";
  invalid = λ method uri. none;
  client = λ method uri h body. elapsed;
}

abbrev timetable : Schedule list_http
timetable = record {
  started = 1000;
  before = λ n p. p;
  starts = λ n. 1000 + n;
  waiting = λ n. alone;
  upstream = λ n. silent;
  during = λ n p. p;
  recorded = λ n. 1001 + n;
  before_reply = λ p. p;
  replied = 2000;
}

abbrev query : Request list_http
query = record {
  method = codes "GET";
  path_and_query = codes "/res/v1/web/search?q=x";
  headers = client_headers;
  body = ok [];
}

abbrev as_text : List ℕ → Text
as_text bytes = bytes

proxy_answers_example :
    (g : Progress list_http) × (leaving : Leaving list_http) × (proxy list_http no_clock as_text
        timetable no_clock
        (some (codes "secret"))
        10
        pool
        query
      ≡ some (reply list_http no_clock as_text timetable no_clock (g, leaving)))
    × (g.attempts ≤ min (max (len pool) 2) 5)
    × (length g.tried ≡ g.attempts)
    × KeptRetried list_http g.last_response
    × Course list_http no_clock as_text timetable
        (timetable.started + 10)
        (max_attempts_of pool)
        query.method
        query.path_and_query
        (forward_headers list_http query.headers)
        []
        g
        leaving
        (start list_http pool)
unfolding authorized values_of equal
proxy_answers_example =
    proxy_answers list_http no_clock no_clock as_text timetable (some (codes "secret")) 10 pool
      query [] (record { sleeps = λ n round at. omega arith; keeps_keys = λ n p. refl }) refl refl

health-try_acquire_example : ((health no_clock no_clock pool 1000).1.code ≡ 503) ↔ (
    (earliest : Option ℕ) × (text : Text) × ((try_acquire no_clock pool 1000 []).1
      ≡ err (Next.unavailable earliest text)))
health-try_acquire_example = health-try_acquire no_clock no_clock pool 1000

abbrev given : Option Text
given = some (codes "one, two;one")

abbrev two_keys : Collected
two_keys = record { keys = codes "one" ∷ codes "two" ∷ []; duplicate_keys = 1 }

read_keys-Distinct_example :
    (0 < length two_keys.keys)
    × Distinct two_keys.keys
    × All (λ k. is_empty k ≡ false) two_keys.keys
    × Covered two_keys.keys (key_pieces given none)
    × (length two_keys.keys + two_keys.duplicate_keys ≡ filled_count (key_pieces given none))
unfolding read_keys first_env is_key_separator collect split trim equal take_key one_of
read_keys-Distinct_example = read_keys-Distinct given none two_keys refl

-- A key with a monthly limit, and a disabled one without.
abbrev mixed : Pool
mixed = record pool {
  keys =
      record key_0 { sec_limit = 20; month_limit = some 2000 }
      ∷ record key_1 { month_limit = some 0; health = Health.disabled 5000 [] }
      ∷ [];
}
