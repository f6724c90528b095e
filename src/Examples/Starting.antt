-- ===== src/Examples/Starting.antt =====
-- The theorems on the configuration, the reports and the log, at concrete inputs.
use brave_search_api_rotator.Base.{
  ℕ, ◌+◌, ◌≡◌, ◌↔◌, ◌⊎◌, refl, arith, true, false, [], ◌∷◌, ◌++◌, Option, none, some, ok, err,
  Result, length, if◌then◌else◌, is_empty, from_millis, from_secs,
}
use brave_search_api_rotator.Text.{Text, codes, equal, split, trim, trim_start, trim_end_by}
use brave_search_api_rotator.Text.Numbers.{parse_unsigned, to_string}
use brave_search_api_rotator.Pool.{Next, Lease}
use brave_search_api_rotator.Pool.Select.{try_acquire}
use brave_search_api_rotator.Pool.Snapshot.{snapshot}
use brave_search_api_rotator.Proxy.{one_of}
use brave_search_api_rotator.Proxy.Queries.{describe_request, short}
use brave_search_api_rotator.Proxy.Queries.Decoding.{q_and, describe_request-encode}
use brave_search_api_rotator.Config.{
  first_env, is_key_separator, collect, take_key, read_keys, read_proxy_token, read_limit,
  read_monthly_limits, read_bool, lower,
}
use brave_search_api_rotator.Config.Load.{
  Parsers, Config, parse_env, parse_addr_env, parse_bool, read_base, from_env,
}
use brave_search_api_rotator.Config.Valid.{IsValid, from_env-IsValid}
use brave_search_api_rotator.Proxy.Health.{health}
use brave_search_api_rotator.Main.{Net, received, healthcheck, report, pool_of}
use brave_search_api_rotator.Main.Start.{Host, main}
use brave_search_api_rotator.Main.Start.Fresh.{pool_of_serves}
use brave_search_api_rotator.Main.Start.Exits.{Fails, Serves, main_exit_code}
use brave_search_api_rotator.Main.Reports.{length-report}
use brave_search_api_rotator.Main.Checks.{healthcheck-health, healthcheck_blank}
use brave_search_api_rotator.Examples.Runs.{no_clock, pool, running}

-- Addresses are texts, and none is empty or blank.
abbrev address : Text → Result Text Text
address s = if is_empty (trim s) then err (codes "invalid socket address syntax") else ok s

abbrev parsers : Parsers
parsers = record {
  SocketAddr = Text;
  parse_addr = address;
  parse_uri = λ s. ok (true, true);
  debug = λ s. s;
  int_error = λ s. codes "invalid digit found in string";
}

-- One key twice, a rate of zero and a URL with a slash at the end.
abbrev environment : Text → Option Text
environment name =
    if equal name (codes "BRAVE_API_KEYS")
    then some (codes "a,a")
    else if equal name (codes "DEFAULT_RPS_PER_KEY")
    then some (codes "0")
    else if equal name (codes "BRAVE_BASE_URL")
    then some (codes "http://b/")
    else none

abbrev configuration : Config parsers
configuration = record {
  keys = codes "a" ∷ [];
  duplicate_keys = 1;
  listen = codes "0.0.0.0:8080";
  upstream_base = codes "http://b";
  upstream_timeout = from_millis 15000;
  max_queue_wait = from_millis 5000;
  report_interval = from_secs 60;
  window_margin = from_millis 100;
  default_rps_per_key = 1;
  max_body_bytes = 4194304;
  proxy_token = none;
  worker_threads = 2;
  access_log = true;
  monthly_limits = [];
}

configuration_read : from_env parsers environment ≡ ok configuration
unfolding from_env parse_env parse_addr_env parse_bool read_base read_keys first_env
    is_key_separator collect take_key one_of read_proxy_token read_monthly_limits read_limit
    read_bool lower equal split trim trim_start trim_end_by parse_unsigned
configuration_read = refl

from_env-IsValid_example : IsValid parsers environment configuration
from_env-IsValid_example = from_env-IsValid parsers environment configuration configuration_read

pool_of_serves_example :
    ((lease : Lease) × ((try_acquire no_clock (pool_of parsers configuration) 7 []).1 ≡ ok lease))
    × ((health no_clock no_clock (pool_of parsers configuration) 7).1.code ≡ 200)
pool_of_serves_example =
    pool_of_serves parsers environment no_clock no_clock configuration 7 configuration_read

length-report_example :
    length (report no_clock no_clock pool 1000).1.warnings
      + (snapshot no_clock no_clock pool 1000).1.keys_healthy
    ≡ length pool.keys
length-report_example = length-report no_clock no_clock pool 1000

-- A server whose answer has the status 200 and no more.
abbrev net : Net parsers
net = record {
  IpAddr = Text;
  ip = λ a. a;
  port = λ a. 8080;
  is_unspecified = λ i. true;
  is_ipv4 = λ a. true;
  ip_text = λ i. i;
  parse_ip = λ s. some s;
  localhost = codes "127.0.0.1";
  socket_addr = λ i p. i;
  fetch = λ a request. received (codes "HTTP/1.0 200 OK");
  from_utf8_lossy = λ s. s;
}

-- An address that another process holds.
abbrev taken : Host parsers
taken = record {
  version = codes "0.1.0";
  started = 7;
  addr_text = λ a. a;
  bind = λ a. some (codes "address in use");
  serve = λ s. none;
}

main_exit_code_example :
    (((main parsers taken net environment none).1 ≡ 2)
      ↔ ((e : Text) × (from_env parsers environment ≡ err e)))
    × (((main parsers taken net environment none).1 ≡ 1) ↔ (
        (cfg : Config parsers) × (e : Text) × (from_env parsers environment ≡ ok cfg)
        × Fails parsers taken cfg e))
    × (((main parsers taken net environment none).1 ≡ 0) ↔ (
        (cfg : Config parsers) × (from_env parsers environment ≡ ok cfg)
        × Serves parsers taken cfg))
main_exit_code_example = main_exit_code parsers taken net environment none (λ e. cc)

healthcheck-health_example :
    ((healthcheck parsers net (some (codes "0.0.0.0:8080")) ≡ 1) ↔ (
      (earliest : Option ℕ) × (text : Text) × ((try_acquire no_clock pool 1000 []).1
        ≡ err (Next.unavailable earliest text))))
    × ((healthcheck parsers net (some (codes "0.0.0.0:8080")) ≡ 0)
        ⊎ (healthcheck parsers net (some (codes "0.0.0.0:8080")) ≡ 1))
unfolding trim trim_start trim_end_by health snapshot running to_string
healthcheck-health_example =
    healthcheck-health parsers net no_clock no_clock (codes "0.0.0.0:8080") (codes "0.0.0.0:8080")
      (codes "HTTP/1.0 200 OK") false (codes " OK") pool 1000 refl refl refl

abbrev blank_address : Text → Option Text
blank_address name = some (codes " ")

healthcheck_blank_example :
    (parse_addr_env parsers blank_address (codes "LISTEN_ADDR") (codes "0.0.0.0:8080")
      ≡ ok (codes "0.0.0.0:8080"))
    × (healthcheck parsers net (some (codes " ")) ≡ 2)
unfolding trim trim_start trim_end_by
healthcheck_blank_example =
    healthcheck_blank parsers net blank_address (codes " ") (codes "invalid socket address syntax")
      (codes "0.0.0.0:8080") refl refl refl refl

describe_request-encode_example :
    describe_request
      (λ s. s)
      (λ s. s)
      (λ s. s)
      (codes "GET")
      (codes "/s" ++ b'?' ∷ q_and (codes "a b&c") (some (codes "count=5")))
    ≡ codes "GET" ++ (codes " " ++ (codes "/s" ++ (codes " q=" ++ short (codes "a b&c") 120)))
describe_request-encode_example =
    describe_request-encode (λ s. s) (λ s. s) (λ s a. refl) (λ s a. refl) (λ s. s) (codes "GET")
      (codes "/s") (codes "a b&c") (some (codes "count=5")) (refl, (refl, tt)) (omega arith)
