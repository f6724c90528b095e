-- ===== src/Pool/Snapshot.antt =====
-- src/pool.rs, `snapshot`: the report on the pool, which also refreshes its keys.
pub mod Healthy
pub mod Slots
pub mod Sums
use brave_search_api_rotator.Base.{
  ℕ, ◌+◌, ◌-◌, max, Bool, true, false, List, [], ◌∷◌, ◌++◌, Option, none, some, Result, ok, err,
  ltb, if◌then◌else◌, option_map, unwrap_or, length, as_u32, as_u64, add_u64, as_secs, as_millis,
  from_secs,
}
use brave_search_api_rotator.Text.{Text, codes}
use brave_search_api_rotator.Key.{KeyState, Health, Stats, no_stats, is_ok}
use brave_search_api_rotator.Key.Quota.{month_unlimited}
use brave_search_api_rotator.Key.Window.{refresh, availability, free_slots}
use brave_search_api_rotator.Pool.{Pool, window}

pub record PerSecond : Type 0 where
  pub limit : ℕ
  pub limits_learned : Bool
  pub in_window : ℕ
  pub next_slot_in_ms : ℕ

pub record Monthly : Type 0 where
  pub unlimited : Bool
  pub limit : Option ℕ
  pub remaining : Option ℕ
  pub reset_at : Option Text
  pub reset_in : Option Text

pub record KeySnapshot : Type 0 where
  pub key : Text
  pub state : Text
  pub reason : Option Text
  pub until : Option Text
  pub until_in : Option Text
  pub disabled_since : Option Text
  pub per_second : PerSecond
  pub monthly : Monthly
  pub last_used_ago : Option Text
  pub last_ok_ago : Option Text
  pub stats : Stats

pub record PoolSnapshot : Type 0 where
  pub now : Text
  pub keys_total : ℕ
  pub keys_healthy : ℕ
  pub rps_capacity : ℕ
  pub slots_available_now : ℕ
  pub month_limit_total : Option ℕ
  pub month_remaining_total : Option ℕ
  pub month_unlimited_keys : ℕ
  pub totals : Stats
  pub keys : List KeySnapshot

-- What a snapshot does to a key: `refresh`, then `availability`.
abbrev pub observed : KeyState → ℕ → ℕ → KeyState × Result (Unit {0}) ℕ
observed k now window = availability (refresh k now) now window

-- `hold_until.is_some_and(|h| h > now)`.
abbrev pub held_at : Option ℕ → ℕ → Bool
held_at none now = false
held_at (some h) now = ltb now h

abbrev err_of : Result (Unit {0}) ℕ → Option ℕ
err_of (ok _) = none
err_of (err t) = some t

-- The state's name, the reason and the instant until which it lasts.
pub record Standing : Type 0 where
  pub state : Text
  pub reason : Option Text
  pub until : Option ℕ

unfoldable pub standing : KeyState → Result (Unit {0}) ℕ → ℕ → Standing
standing k avail now = elim k.health [
  | Health.ok ↦
      if held_at k.hold_until now
      then record {
        state = codes "cooling";
        reason = some (codes "upstream asked us to slow down");
        until = k.hold_until;
      }
      else elim avail [
        | err at ↦ record { state = codes "busy"; reason = none; until = some at }
        | ok _ ↦ record { state = codes "ok"; reason = none; until = none }
      ]
  | Health.disabled until reason ↦ record {
    state = codes "disabled";
    reason = some reason;
    until = some until;
  }
  | Health.exhausted until ↦ record {
    state = codes "exhausted";
    reason = some (codes "monthly quota used up");
    until = some until;
  }
]

-- `total = Some(total.unwrap_or(0) + m)` if there is an `m`.
abbrev add_known : Option ℕ → Option ℕ → Option ℕ
add_known total none = total
add_known total (some m) = some (add_u64 (unwrap_or total 0) m)

abbrev add_stats : Stats → Stats → Stats
add_stats t s = record t {
  requests = add_u64 t.requests s.requests;
  ok = add_u64 t.ok s.ok;
  upstream_429 = add_u64 t.upstream_429 s.upstream_429;
  client_4xx = add_u64 t.client_4xx s.client_4xx;
  server_5xx = add_u64 t.server_5xx s.server_5xx;
  transport_errors = add_u64 t.transport_errors s.transport_errors;
}

-- The sums that a key adds to; `month_unlimited_keys` and `keys_healthy` count keys.
unfoldable pub tally : PoolSnapshot → KeyState → PoolSnapshot
tally out k =
    let healthy = is_ok k.health in
    let unlimited = month_unlimited k in
    record out {
      keys_healthy = if healthy then out.keys_healthy + 1 else out.keys_healthy;
      rps_capacity =
          if healthy then add_u64 out.rps_capacity (max k.sec_limit 1) else out.rps_capacity;
      slots_available_now =
          if healthy
          then add_u64 out.slots_available_now (free_slots k)
          else out.slots_available_now;
      month_unlimited_keys =
          if unlimited
          then if healthy then out.month_unlimited_keys + 1 else out.month_unlimited_keys
          else out.month_unlimited_keys;
      month_limit_total =
          if unlimited
          then out.month_limit_total
          else add_known out.month_limit_total k.month_limit;
      month_remaining_total =
          if unlimited
          then out.month_remaining_total
          else add_known out.month_remaining_total k.month_remaining;
      totals = add_stats out.totals k.stats;
    }

-- The report before the loop.
abbrev pub nothing_seen : Text → ℕ → PoolSnapshot
nothing_seen now total = record {
  now = now;
  keys_total = total;
  keys_healthy = 0;
  rps_capacity = 0;
  slots_available_now = 0;
  month_limit_total = none;
  month_remaining_total = none;
  month_unlimited_keys = 0;
  totals = no_stats;
  keys = [];
}

-- `fmt_instant` and the crate's `format_duration` are parameters.
module _ (format_duration fmt_instant : ℕ → Text) where
  -- Whole seconds.
  unfoldable pub fmt_dur : ℕ → Text
  fmt_dur d = format_duration (from_secs (as_secs d))

  unfoldable pub key_snapshot : KeyState → Result (Unit {0}) ℕ → ℕ → KeySnapshot
  unfolding standing fmt_dur
  key_snapshot k avail now =
      let s = standing k avail now in
      let unlimited = month_unlimited k in
      record {
        key = k.label;
        state = s.state;
        reason = s.reason;
        until = option_map s.until fmt_instant;
        until_in = option_map s.until (λ u. fmt_dur (u - now));
        disabled_since = option_map k.disabled_since fmt_instant;
        per_second = record {
          limit = k.sec_limit;
          limits_learned = k.limits_learned;
          in_window = as_u32 (length k.sends);
          next_slot_in_ms =
              unwrap_or (option_map (err_of avail) (λ at. as_u64 (as_millis (at - now)))) 0;
        };
        monthly = record {
          unlimited = unlimited;
          limit = if unlimited then none else k.month_limit;
          remaining = if unlimited then none else k.month_remaining;
          reset_at = option_map k.month_reset_at fmt_instant;
          reset_in = option_map k.month_reset_at (λ r. fmt_dur (r - now));
        };
        last_used_ago = option_map k.last_used (λ t. fmt_dur (now - t));
        last_ok_ago = option_map k.last_ok (λ t. fmt_dur (now - t));
        stats = k.stats;
      }

  -- The loop over the keys: the keys afterwards, and the report.
  unfoldable pub survey : ℕ → ℕ → List KeyState → PoolSnapshot → List KeyState × PoolSnapshot
  unfolding tally key_snapshot
  survey now window [] out = ([], out)
  survey now window (k ∷ ks) out =
      let seen = observed k now window in
      let counted = tally out seen.0 in
      let row = key_snapshot seen.0 seen.1 now in
      let rest = survey now window ks (record counted { keys = counted.keys ++ row ∷ [] }) in
      (seen.0 ∷ rest.0, rest.1)

  unfoldable pub snapshot : Pool → ℕ → Pool × PoolSnapshot
  unfolding survey
  snapshot p now =
      let seen = survey now (window p) p.keys (nothing_seen (fmt_instant now) (length p.keys)) in
      (record p { keys = seen.0 }, seen.1)
