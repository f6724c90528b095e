-- ===== src/Lib.antt =====
-- brave-rotator, a reverse proxy that spreads Brave Search API traffic over several keys.
--
-- src/pool.rs keeps, for each key, its health, the limits learned from Brave's headers, a deque of
-- recent sends and counters. A request takes a key through `Pool::acquire`, which waits on
-- `try_acquire`, and reports the upstream's answer through `record`; `snapshot` reports on all
-- keys. src/ratelimit.rs reads the rate-limit headers. The handlers of src/proxy.rs forward a request
-- through `Upstream::send` of src/upstream.rs, try other keys when an answer calls for it, and
-- report on the pool.
--
-- Files:
--   Base            shared names, Boolean tests, lists, machine words and times
--   Text            `str` operations, `u64` parsing and printing, over lists of code points
--   Http            header maps of the crate `http`, as an interface with its documented laws
--   RateLimit       src/ratelimit.rs: `RateLimitInfo`, `from_headers`, `second_wait`
--   Key             src/pool.rs: `KeyState`; Key/Window has `refresh`, `prune_window` and
--                   `availability`, Key/Quota the monthly quota and `learn_limits`, Key/Backoff
--                   `disable`, `exhaust` and `fail`, Key/Log what these log
--   Pool            src/pool.rs: `Pool::new`; Pool/Select has `try_acquire`, Pool/Acquire the loop
--                   of `acquire` and its turnstile, Pool/Record `record`, Pool/Snapshot `snapshot`,
--                   Pool/Contract an abstract description of what `try_acquire` returns,
--                   Pool/History sequences of these operations, Pool/History/Arrivals when the
--                   requests reach the upstream, Pool/History/Unseen what a snapshot leaves
--   Upstream        src/upstream.rs: `send`; Upstream/Headers has the copying of headers
--   Proxy           src/proxy.rs: the rules on headers and the responses; Proxy/Attempts has the
--                   loop of `proxy`, Proxy/Attempts/Course a description of it that names no loop,
--                   Proxy/Health `health` and `status`, Proxy/Limits the limits that are printed,
--                   Proxy/Refusals what `error_response` tells a client to wait, Proxy/Queries
--                   the texts that describe a request in the log
--   Config          src/config.rs: the parts of `from_env`; Config/Load has `from_env`
--   Main            src/main.rs: the pool that `run` builds, the routes, a round of `reporter`, and
--                   `healthcheck`; Main/Start has `main` and `run`, Main/Running the set-up of the
--                   log, `reporter` and `shutdown_signal`
--   Mock            scripts/mock_brave.py: `handle_any`; Mock/Refusals puts it behind the pool
--   Examples        the theorems at concrete inputs; Examples/PoolTests and Examples/HeaderTests
--                   run the source's unit tests on the model
--
-- A method that changes a key or the pool is a function from the old value to the new one, with
-- its result beside it. The mutex makes whole operations follow one another, so a concurrent run
-- is a list of operations with the times that they read (Pool/History). Counters wrap at 2^32 and
-- 2^64 as in the release build, `as u32` truncates. An `Instant` or `Duration` is a number of
-- nanoseconds; instants have no upper end, so the panic of `Instant + Duration` is left out.
--
-- Bounds and fuel: the loop of `acquire` has fuel, and a number above `deadline + 1 - now` is enough,
-- since each wait ends at a later instant, also for each caller in the queue; `u64::to_string`
-- prints at most twenty digits and `u128::to_string` thirty-nine, which is enough for their types.
-- The loop of `proxy` has one more than `max_attempts`.
--
-- Parameters: `fmt_instant`, which reads the wall clock and formats through `humantime`,
-- `humantime::format_duration`, `String::from_utf8_lossy`, the wake-up times of `sleep_until`, the
-- doings of other tasks, the HTTP client, and what `axum` reads of a request.
--
-- The environment is a function, and what the standard library and the crate `http` do with
-- addresses, URLs and connections is a parameter too.
--
-- The turnstile of `acquire` is a mutex of tokio, which is documented to be handed on in the order
-- in which it was asked for: the callers are a list, and each begins once the one before it is done.
--
-- Not modelled: the log lines, save those of the keys, the reporter and the start; `serde_json`;
-- of src/main.rs the runtime, which is taken to start; a request that its client gives up;
-- of the mock server all but its answers and the limit that it reports; scripts/e2e.sh.
pub mod Base
pub mod Text
pub mod Http
pub mod RateLimit
pub mod Key
pub mod Pool
pub mod Upstream
pub mod Proxy
pub mod Config
pub mod Main
pub mod Mock
mod Examples
