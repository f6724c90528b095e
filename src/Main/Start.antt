-- ===== src/Main/Start.antt =====
-- src/main.rs, `main` and `run`: the start of the program, what it logs and how it exits. The runtime
-- is taken to start; the log and the tasks beside the server are in Running.
pub mod Fresh
pub mod Exits
use brave_search_api_rotator.Base.{
  ℕ, Bool, true, false, List, [], ◌∷◌, ◌++◌, Option, none, some, Result, ok, err, ltb,
  if◌then◌else◌, length, is_none, min, from_secs,
}
use brave_search_api_rotator.Text.{Text, codes, equal}
use brave_search_api_rotator.Text.Numbers.{to_string}
use brave_search_api_rotator.Config.Load.{Parsers, Config, from_env}
use brave_search_api_rotator.Pool.{Pool}
use brave_search_api_rotator.Main.{Net, limits_mismatch, healthcheck, pool_of}

pub data LogLine : Type 0 where
  info : Text → LogLine
  warn : Text → LogLine
  error : Text → LogLine

-- How `Upstream::new` asks for a client, which the crates `hyper` and `hyper_rustls` then make.
pub record ClientSettings : Type 0 where
  pub enforce_http : Bool
  pub nodelay : Bool
  pub connect_timeout : ℕ
  pub webpki_roots : Bool
  pub https_or_http : Bool
  pub http1 : Bool
  pub http2 : Bool
  pub pool_idle_timeout : ℕ
  pub pool_max_idle_per_host : ℕ

-- An `Upstream` with its client's settings in place of the client.
pub record NewUpstream : Type 0 where
  pub client : ClientSettings
  pub base : Text
  pub timeout : ℕ
  pub max_body : ℕ

unfoldable pub new_upstream : Text → ℕ → ℕ → NewUpstream
new_upstream base timeout max_body = record {
  client = record {
    enforce_http = false;
    nodelay = true;
    connect_timeout = min timeout (from_secs 10);
    webpki_roots = true;
    https_or_http = true;
    http1 = true;
    http2 = true;
    pool_idle_timeout = from_secs 90;
    pool_max_idle_per_host = 8;
  };
  base = base;
  timeout = timeout;
  max_body = max_body;
}

module _ (std : Parsers) where
  -- What the handlers and the reporter share.
  pub record AppState : Type 0 where
    pub cfg : Config std
    pub pool : Pool
    pub upstream : NewUpstream
    pub started : ℕ

  -- `now` is `Instant::now()`.
  unfoldable pub app_state : Config std → ℕ → AppState
  unfolding new_upstream
  app_state cfg now = record {
    cfg = cfg;
    pool = pool_of std cfg;
    upstream = new_upstream cfg.upstream_base cfg.upstream_timeout cfg.max_body_bytes;
    started = now;
  }

  -- What the program meets: the version that it is built with, the time of its start, how an
  -- address is printed, and the errors, if any, of binding the address and of serving until the shutdown signal.
  pub record Host : Type 0 where
    pub version : Text
    pub started : ℕ
    pub addr_text : std.SocketAddr → Text
    pub bind : std.SocketAddr → Option Text
    pub serve : AppState → Option Text

-- A line that is logged only under a condition.
abbrev pub line_if : Bool → LogLine → List LogLine
line_if true l = l ∷ []
line_if false l = []

module _ (std : Parsers) (host : Host std) where
  -- The lines before the address is bound.
  unfoldable pub opening_lines : Config std → List LogLine
  opening_lines cfg =
      LogLine.info (
        codes "brave-rotator "
        ++ (host.version
            ++ (codes " starting: "
                ++ (to_string (length cfg.keys)
                    ++ (codes " key(s), upstream "
                        ++ (cfg.upstream_base
                            ++ (codes ", listening on " ++ host.addr_text cfg.listen)))))))
      ∷ (line_if (ltb 0 cfg.duplicate_keys) (
            LogLine.warn (
              to_string cfg.duplicate_keys
              ++ codes " duplicate key(s) in BRAVE_API_KEYS were ignored"))
          ++ (line_if (is_none cfg.proxy_token) (
                LogLine.warn (
                  codes "PROXY_TOKEN is not set: anyone who can reach "
                  ++ (host.addr_text cfg.listen ++ codes " can spend your quota")))
              ++ line_if (limits_mismatch std cfg) (
                  LogLine.warn (
                    codes "BRAVE_MONTHLY_LIMITS has "
                    ++ (to_string (length cfg.monthly_limits)
                        ++ (codes " entr(y/ies) but BRAVE_API_KEYS has "
                            ++ (to_string (length cfg.keys)
                                ++ codes
                                    "; extra keys use 'detect', extra limits are ignored")))))))

  abbrev ready_line : Config std → LogLine
  ready_line cfg = LogLine.info (
      codes "ready: point clients at http://"
      ++ (host.addr_text cfg.listen
          ++ (codes "/res/v1/web/search?q=... (every key assumed "
              ++ (to_string cfg.default_rps_per_key
                  ++ codes " req/s until Brave reports the plan limits)"))))

  -- The lines, and the error that `run` returns.
  unfoldable pub run : Config std → List LogLine × Option Text
  run cfg = elim (host.bind cfg.listen) [
    | some e ↦ (opening_lines cfg, some e)
    | none ↦ elim (host.serve (app_state std cfg host.started)) [
      | some e ↦ (opening_lines cfg ++ ready_line cfg ∷ [], some e)
      | none ↦ (
        opening_lines cfg
            ++ ready_line cfg
              ∷ LogLine.info (codes "shutdown signal received, draining connections")
              ∷ LogLine.info (codes "bye")
              ∷ [],
        none,
      )
    ]
  ]

  -- What follows the configuration: the lines and the exit code.
  abbrev pub finish : List LogLine × Option Text → List LogLine × ℕ
  finish (lines, none) = (lines, 0)
  finish (lines, some e) = (lines ++ LogLine.error (codes "fatal: " ++ e) ∷ [], 1)

  module _ (net : Net std) (env : Text → Option Text) where
    -- `arg` is the first argument.
    unfoldable pub main : Option Text → List LogLine × ℕ
    unfolding run
    main arg =
        let checks = is_healthcheck arg in
        if checks
        then ([], healthcheck std net (env (codes "LISTEN_ADDR")))
        else elim (from_env std env) [
          | err e ↦ (LogLine.error (codes "configuration error: " ++ e) ∷ [], 2)
          | ok cfg ↦ finish (run cfg)
        ]
      where
        is_healthcheck : Option Text → Bool
        is_healthcheck none = false
        is_healthcheck (some a) = equal a (codes "healthcheck")
