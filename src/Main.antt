-- ===== src/Main.antt =====
-- src/main.rs: what `run` builds of the configuration, the routes, the reporter and the command
-- `healthcheck`. Running has the set-up of the log, the reporter's ticks and the signals.
pub mod Reports
pub mod Checks
pub mod Start
pub mod Running
use brave_search_api_rotator.Base.{
  ℕ, ◌+◌, ◌-◌, Bool, true, false, ◌&&◌, ◌||◌, not, List, [], ◌∷◌, ◌++◌, Option, none, some, map,
  Result, ok, err, leb, ltb, ◌==◌, if◌then◌else◌, unwrap_or, option_map, is_empty, length, add_u64,
  from_secs,
}
use brave_search_api_rotator.Text.{Text, codes, equal, starts_with}
use brave_search_api_rotator.Text.Numbers.{to_string}
use brave_search_api_rotator.Http.{Http}
use brave_search_api_rotator.Key.{Stats}
use brave_search_api_rotator.Pool.{Pool, PoolConfig, new}
use brave_search_api_rotator.Pool.Snapshot.{PoolSnapshot, KeySnapshot, snapshot}
use brave_search_api_rotator.Config.Load.{Parsers, Config}

module _ (std : Parsers) where
  unfoldable pub pool_config : Config std → PoolConfig
  pool_config cfg = record {
    window_margin = cfg.window_margin;
    default_rps = cfg.default_rps_per_key;
    monthly_limits = cfg.monthly_limits;
  }

  unfoldable pub pool_of : Config std → Pool
  unfolding pool_config
  pool_of cfg = new cfg.keys (pool_config cfg)

  -- Whether `run` warns that the monthly limits do not match the keys.
  unfoldable pub limits_mismatch : Config std → Bool
  limits_mismatch cfg =
      not (is_empty cfg.monthly_limits) && not (length cfg.monthly_limits == length cfg.keys)

-- The handlers behind the routes; `axum` itself answers the other methods on the first two paths.
pub data Handler : Type 0 where
  status : Handler
  health : Handler
  proxy : Handler
  method_not_allowed : Handler

-- `get` also takes HEAD.
unfoldable pub route : Text → Text → Handler
route method path =
    let reads = equal method (codes "GET") || equal method (codes "HEAD") in
    if equal path (codes "/proxy/status")
    then if reads then Handler.status else Handler.method_not_allowed
    else if equal path (codes "/proxy/health")
    then if reads then Handler.health else Handler.method_not_allowed
    else Handler.proxy

-- The failed attempts of a report.
unfoldable pub failed : Stats → ℕ
failed t = add_u64 (add_u64 (add_u64 t.upstream_429 t.client_4xx) t.server_5xx) t.transport_errors

abbrev pub number_or_mark : Option ℕ → Text
number_or_mark v = unwrap_or (option_map v to_string) (codes "?")

abbrev some_known : Option ℕ → Option ℕ → ℕ → Text
some_known rem lim n =
    let m = number_or_mark rem ++ (codes " of " ++ number_or_mark lim) in
    if ltb 0 n then m ++ (codes " + " ++ (to_string n ++ codes " key(s) without cap")) else m

unfoldable pub monthly_line : Option ℕ → Option ℕ → ℕ → Text
monthly_line none none n =
    if n == 0 then codes "unknown yet" else codes "no cap (" ++ (to_string n ++ codes " key(s))")
monthly_line none (some lim) n = some_known none (some lim) n
monthly_line (some rem) lim n = some_known (some rem) lim n

unfoldable pub status_line : PoolSnapshot → Text
unfolding failed monthly_line
status_line s =
    codes "status: "
    ++ (to_string s.keys_healthy
        ++ (codes "/"
            ++ (to_string s.keys_total
                ++ (codes " keys healthy, capacity "
                    ++ (to_string s.rps_capacity
                        ++ (codes " req/s, monthly remaining "
                            ++ (monthly_line s.month_remaining_total s.month_limit_total
                                  s.month_unlimited_keys
                                ++ (codes ", upstream attempts "
                                    ++ (to_string s.totals.ok
                                        ++ (codes " ok / "
                                            ++ (to_string (failed s.totals)
                                                ++ (codes " failed ("
                                                    ++ (to_string s.totals.upstream_429
                                                        ++ codes " were 429s)")))))))))))))

-- `to_uppercase` on the names of the states, which are ASCII.
unfoldable pub to_uppercase : Text → Text
to_uppercase [] = []
to_uppercase (c ∷ s) = (if leb b'a' c && leb c b'z' then c - 32 else c) ∷ to_uppercase s

unfoldable pub key_line : KeySnapshot → Text
unfolding to_uppercase
key_line k =
    codes "key "
    ++ (k.key
        ++ (codes " is "
            ++ (to_uppercase k.state
                ++ (codes ": "
                    ++ (unwrap_or k.reason (codes "-")
                        ++ (codes "; retrying at "
                            ++ (unwrap_or k.until (codes "?")
                                ++ (codes " (in "
                                    ++ (unwrap_or k.until_in (codes "?") ++ codes ")")))))))))

-- The keys that the reporter warns about.
unfoldable pub is_parked : KeySnapshot → Bool
is_parked k = equal k.state (codes "disabled") || equal k.state (codes "exhausted")

unfoldable pub parked_rows : List KeySnapshot → List KeySnapshot
unfolding is_parked
parked_rows [] = []
parked_rows (k ∷ ks) = let rest = parked_rows ks in if is_parked k then k ∷ rest else rest

pub record Report : Type 0 where
  pub info : Text
  pub warnings : List Text

module _ (format_duration fmt_instant : ℕ → Text) where
  -- One round of the reporter's loop.
  unfoldable pub report : Pool → ℕ → Pool × Report
  unfolding status_line key_line parked_rows
  report p now =
      let seen = snapshot format_duration fmt_instant p now in
      (
        seen.0,
        record { info = status_line seen.1; warnings = map key_line (parked_rows seen.1.keys) },
      )

-- What the standard library does with addresses and connections; `fetch` connects, writes and reads
-- to the end, with the source's timeouts.
pub data Fetched : Type 0 where
  not_connected : Fetched
  not_written : Fetched
  received : List ℕ → Fetched

pub record Net (std : Parsers) : Type 1 where
  pub IpAddr : Type 0
  pub ip : std.SocketAddr → IpAddr
  pub port : std.SocketAddr → ℕ
  pub is_unspecified : IpAddr → Bool
  pub is_ipv4 : std.SocketAddr → Bool
  pub ip_text : IpAddr → Text
  pub parse_ip : Text → Option IpAddr
  pub localhost : IpAddr
  pub socket_addr : IpAddr → ℕ → std.SocketAddr
  pub fetch : std.SocketAddr → Text → Fetched
  pub from_utf8_lossy : List ℕ → Text

module _ (std : Parsers) (net : Net std) where
  unfoldable pub target : std.SocketAddr → std.SocketAddr
  target addr =
      let host =
        if net.is_unspecified (net.ip addr)
        then if net.is_ipv4 addr then codes "127.0.0.1" else codes "::1"
        else net.ip_text (net.ip addr) in
      net.socket_addr (unwrap_or (net.parse_ip host) net.localhost) (net.port addr)

  abbrev pub health_request : Text
  health_request =
      codes "GET /proxy/health HTTP/1.0"
      ++ (13 ∷ 10 ∷ codes "Host: localhost"
          ++ (13 ∷ 10 ∷ codes "Connection: close" ++ 13 ∷ 10 ∷ 13 ∷ 10 ∷ []))

  abbrev pub exit_of : Fetched → ℕ
  exit_of not_connected = 1
  exit_of not_written = 1
  exit_of (received buf) =
      let head = net.from_utf8_lossy buf in
      if starts_with head (codes "HTTP/1.1 200") || starts_with head (codes "HTTP/1.0 200")
      then 0
      else 1

  -- `listen_addr` is the variable LISTEN_ADDR; the result is the exit code.
  unfoldable pub healthcheck : Option Text → ℕ
  unfolding target
  healthcheck listen_addr = elim (std.parse_addr (unwrap_or listen_addr (codes "0.0.0.0:8080"))) [
    | err e ↦ 2
    | ok addr ↦ exit_of (net.fetch (target addr) health_request)
  ]
