-- ===== src/Main/Running.antt =====
-- src/main.rs: the set-up of the log in `main`, and the two tasks beside the server, `reporter` and
-- `shutdown_signal`.
use brave_search_api_rotator.Base.{
  ℕ, zero, suc, Bool, false, List, [], ◌∷◌, Option, none, some, Result, ok, err, min, is_none,
  unwrap_or,
}
use brave_search_api_rotator.Text.{Text, codes}
use brave_search_api_rotator.Pool.{Pool}
use brave_search_api_rotator.Main.{Report, report}

-- The filter is that of the variable RUST_LOG, which the crate `tracing_subscriber` parses.
pub record LogSetup (EnvFilter : Type 0) : Type 0 where
  pub filter : EnvFilter
  pub target : Bool
  pub ansi : Bool

unfoldable pub log_setup :
    {EnvFilter : Type 0}
    → (Text → EnvFilter)
    → Option EnvFilter
    → (Text → Option Text)
    → LogSetup EnvFilter
log_setup new_filter from_default_env env = record {
  filter = unwrap_or from_default_env (new_filter (codes "info"));
  target = false;
  ansi = is_none (env (codes "NO_COLOR"));
}

-- What tokio's `interval` and the other tasks do: the time at which tick number `n` completes,
-- counted from 0, and the pool that its reader then finds.
pub record Ticker : Type 0 where
  pub tick : ℕ → ℕ
  pub others : ℕ → Pool → Pool

module _ (format_duration fmt_instant : ℕ → Text) (ticker : Ticker) where
  -- So many rounds of the endless loop, from tick `n` on.
  unfoldable pub report_rounds : ℕ → ℕ → Pool → Pool × List Report
  report_rounds zero n p = (p, [])
  report_rounds (suc rounds) n p =
      let (q, seen) = report format_duration fmt_instant (ticker.others n p) (ticker.tick n) in
      let (r, later) = report_rounds rounds (suc n) q in (r, seen ∷ later)

  -- The first tick is skipped.
  unfoldable pub reporter : ℕ → Pool → Pool × List Report
  unfolding report_rounds
  reporter rounds p = report_rounds rounds 1 (ticker.others 0 p)

-- The time of whichever comes first.
abbrev first_of : Option ℕ → Option ℕ → Option ℕ
first_of none t = t
first_of (some s) none = some s
first_of (some s) (some t) = some (min s t)

-- A handler for Ctrl-C that cannot be set up ends the wait at once, `now`; one for SIGTERM never.
abbrev ctrl_c_at : ℕ → Result (Option ℕ) Text → Option ℕ
ctrl_c_at now (ok t) = t
ctrl_c_at now (err e) = some now

abbrev terminate_at : Result (Option ℕ) Text → Option ℕ
terminate_at (ok t) = t
terminate_at (err e) = none

-- When the server stops taking connections, given when the two signals come, if they do.
unfoldable pub shutdown_signal : ℕ → Result (Option ℕ) Text → Result (Option ℕ) Text → Option ℕ
shutdown_signal now ctrl_c terminate = first_of (ctrl_c_at now ctrl_c) (terminate_at terminate)
