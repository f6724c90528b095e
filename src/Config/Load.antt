-- ===== src/Config/Load.antt =====
-- src/config.rs, `Config` and `from_env`. What the standard library and the crate `http` parse
-- and print is a parameter, and so is the environment.
use brave_search_api_rotator.Base.{
  ℕ, max, Bool, true, ◌&&◌, List, ◌++◌, Option, none, some, Result, ok, err, ◌>>=◌, ◌==◌,
  if◌then◌else◌, from_secs, u32_max, u64_max, from_millis,
}
use brave_search_api_rotator.Text.{Text, codes, trim, trim_end_by}
use brave_search_api_rotator.Text.Numbers.{parse_unsigned}
use brave_search_api_rotator.Config.{
  env_or, read_keys, read_proxy_token, read_monthly_limits, read_bool,
}

-- `SocketAddr` and `Uri`, of which the program asks whether it has a scheme and an authority; the
-- `Debug` form of a text, and the message of a number that does not parse.
pub record Parsers : Type 1 where
  pub SocketAddr : Type 0
  pub parse_addr : Text → Result SocketAddr Text
  pub parse_uri : Text → Result (Bool × Bool) Text
  pub debug : Text → Text
  pub int_error : Text → Text

module _ (std : Parsers) where
  pub record Config : Type 0 where
    pub keys : List Text
    pub duplicate_keys : ℕ
    pub listen : std.SocketAddr
    pub upstream_base : Text
    pub upstream_timeout : ℕ
    pub max_queue_wait : ℕ
    pub report_interval : ℕ
    pub window_margin : ℕ
    pub default_rps_per_key : ℕ
    pub max_body_bytes : ℕ
    pub proxy_token : Option Text
    pub worker_threads : ℕ
    pub access_log : Bool
    pub monthly_limits : List (Option ℕ)

  abbrev pub invalid : Text → Text → Text → Text
  invalid name raw e = name ++ (codes "=" ++ (std.debug raw ++ (codes " is invalid: " ++ e)))

  module _ (env : Text → Option Text) where
    -- `parse_env` at an unsigned type with the maximum `limit`.
    unfoldable pub parse_env : ℕ → Text → Text → Result ℕ Text
    parse_env limit name default =
        let raw = env_or (env name) default in
        elim (parse_unsigned limit (trim raw)) [
          | some n ↦ ok n
          | none ↦ err (invalid name raw (std.int_error (trim raw)))
        ]

    unfoldable pub parse_addr_env : Text → Text → Result std.SocketAddr Text
    parse_addr_env name default =
        let raw = env_or (env name) default in
        elim (std.parse_addr (trim raw)) [ ok a ↦ ok a | err e ↦ err (invalid name raw e) ]

    unfoldable pub parse_bool : Text → Bool → Result Bool Text
    parse_bool name default = elim (read_bool (env name) default) [
      | some b ↦ ok b
      | none ↦ err (
          invalid name (env_or (env name) (if default then codes "true" else codes "false"))
            (codes "expected true or false"))
    ]

    -- The URL without its slashes at the end, if it has a scheme and a host.
    unfoldable pub read_base : Result Text Text
    read_base =
        let base =
          trim_end_by (λ c. c == b'/')
            (env_or (env (codes "BRAVE_BASE_URL")) (codes "https://api.search.brave.com")) in
        elim (std.parse_uri base) [
          | err e ↦ err (codes "BRAVE_BASE_URL is not a valid URL: " ++ e)
          | ok (scheme, authority) ↦
              if scheme && authority
              then ok base
              else err (
                  codes
                    "BRAVE_BASE_URL must include scheme and host, e.g. https://api.search.brave.com")
        ]

    unfoldable pub from_env : Result Config Text
    unfolding parse_env parse_addr_env parse_bool read_base
    from_env = do
      collected ← read_keys (env (codes "BRAVE_API_KEYS")) (env (codes "BRAVE_KEYS"))
      listen ← parse_addr_env (codes "LISTEN_ADDR") (codes "0.0.0.0:8080")
      base ← read_base
      timeout ← parse_env u64_max (codes "UPSTREAM_TIMEOUT_MS") (codes "15000")
      queue ← parse_env u64_max (codes "MAX_QUEUE_WAIT_MS") (codes "5000")
      interval ← parse_env u64_max (codes "REPORT_INTERVAL_SECS") (codes "60")
      margin ← parse_env u64_max (codes "WINDOW_MARGIN_MS") (codes "100")
      rps ← parse_env u32_max (codes "DEFAULT_RPS_PER_KEY") (codes "1")
      body ← parse_env u64_max (codes "MAX_BODY_BYTES") (codes "4194304")
      threads ← parse_env u64_max (codes "WORKER_THREADS") (codes "2")
      log ← parse_bool (codes "ACCESS_LOG") true
      ok (record {
        keys = collected.keys;
        duplicate_keys = collected.duplicate_keys;
        listen = listen;
        upstream_base = base;
        upstream_timeout = from_millis timeout;
        max_queue_wait = from_millis queue;
        report_interval = from_secs (max interval 1);
        window_margin = from_millis margin;
        default_rps_per_key = max rps 1;
        max_body_bytes = body;
        proxy_token = read_proxy_token (env (codes "PROXY_TOKEN"));
        worker_threads = max threads 1;
        access_log = log;
        monthly_limits = read_monthly_limits (env (codes "BRAVE_MONTHLY_LIMITS"));
      })
