-- ===== src/Key.antt =====
-- src/pool.rs, `KeyState` and what it is made of: health, counters and the limits of one key.
-- Instants and durations are numbers of nanoseconds.
pub mod Quota
pub mod Window
pub mod Backoff
pub mod Log
use mathlib.Core.List.{reverse}
use brave_search_api_rotator.Base.{
  ℕ, ◌+◌, Bool, false, List, [], ◌∷◌, ◌++◌, Option, none, some, max, take, from_secs,
}
use brave_search_api_rotator.Text.{Text, codes}
use brave_search_api_rotator.Text.Numbers.{to_string}

-- Brave's burst window.
abbrev pub window_base : ℕ
window_base = from_secs 1

abbrev pub fail_threshold : ℕ
fail_threshold = 3

abbrev pub fail_backoff_base : ℕ
fail_backoff_base = from_secs 30

abbrev pub fail_backoff_max : ℕ
fail_backoff_max = from_secs 600

abbrev pub auth_backoff_base : ℕ
auth_backoff_base = from_secs 300

abbrev pub auth_backoff_max : ℕ
auth_backoff_max = from_secs 3600

abbrev pub unexplained_429_threshold : ℕ
unexplained_429_threshold = 5

abbrev pub unexplained_429_backoff : ℕ
unexplained_429_backoff = from_secs 300

abbrev pub exhausted_fallback : ℕ
exhausted_fallback = from_secs 21600

abbrev pub override_cap_fallback : ℕ
override_cap_fallback = from_secs 2592000

abbrev pub max_learned_rps : ℕ
max_learned_rps = 1000

pub data Health : Type 0 where
  ok : Health
  disabled : ℕ → Text → Health
  exhausted : ℕ → Health

pub record Stats : Type 0 where
  pub requests : ℕ
  pub ok : ℕ
  pub upstream_429 : ℕ
  pub client_4xx : ℕ
  pub server_5xx : ℕ
  pub transport_errors : ℕ
  pub last_status : Option ℕ
  pub last_error : Option Text

abbrev pub no_stats : Stats
no_stats = record {
  requests = 0;
  ok = 0;
  upstream_429 = 0;
  client_4xx = 0;
  server_5xx = 0;
  transport_errors = 0;
  last_status = none;
  last_error = none;
}

-- `sends` is the deque of send times, oldest first.
pub record KeyState : Type 0 where
  pub token : Text
  pub label : Text
  pub health : Health
  pub sec_limit : ℕ
  pub limits_learned : Bool
  pub month_limit : Option ℕ
  pub month_remaining : Option ℕ
  pub month_reset_at : Option ℕ
  pub hold_until : Option ℕ
  pub sends : List ℕ
  pub last_used : Option ℕ
  pub last_ok : Option ℕ
  pub consecutive_failures : ℕ
  pub consecutive_429 : ℕ
  pub disable_strikes : ℕ
  pub disabled_since : Option ℕ
  pub stats : Stats
  pub monthly_cap_override : Option ℕ

-- The label shows the last four characters of the token.
unfoldable pub label_of : ℕ → Text → Text
label_of idx token =
    codes "k" ++ (to_string (idx + 1) ++ (codes ":.." ++ reverse (take 4 (reverse token))))

unfoldable pub new_key : ℕ → Text → ℕ → Option ℕ → KeyState
new_key idx token default_rps monthly_cap_override = record {
  token = token;
  label = label_of idx token;
  health = Health.ok;
  sec_limit = max default_rps 1;
  limits_learned = false;
  month_limit = none;
  month_remaining = none;
  month_reset_at = none;
  hold_until = none;
  sends = [];
  last_used = none;
  last_ok = none;
  consecutive_failures = 0;
  consecutive_429 = 0;
  disable_strikes = 0;
  disabled_since = none;
  stats = no_stats;
  monthly_cap_override = monthly_cap_override;
}

-- `self.health == Health::Ok`.
abbrev pub is_ok : Health → Bool
is_ok Health.ok = Bool.true
is_ok (Health.disabled _ _) = false
is_ok (Health.exhausted _) = false
