-- ===== src/Proxy/Health.antt =====
-- src/proxy.rs, `health` and `status`: the two reports. `serde_json` is left out: a report is the
-- record of its fields.
use brave_search_api_rotator.Base.{
  ℕ, ◌-◌, ◌≡◌, ◌↔◌, refl, arith, Bool, [], Option, none, err, Result, ok, ltb, if◌then◌else◌,
  is_some, as_millis,
}
use brave_search_api_rotator.Text.{Text, codes}
use brave_search_api_rotator.Http.{Http}
use brave_search_api_rotator.Pool.{Pool, Next}
use brave_search_api_rotator.Pool.Select.{try_acquire}
use brave_search_api_rotator.Pool.Select.Promises.{try_acquire_unavailable}
use brave_search_api_rotator.Pool.Snapshot.{PoolSnapshot, snapshot, fmt_dur}
use brave_search_api_rotator.Pool.Snapshot.Healthy.{snapshot-keys_healthy}
use brave_search_api_rotator.Proxy.{Response, authorized, error_response}

pub record HealthReport : Type 0 where
  pub code : ℕ
  pub status : Text
  pub keys_healthy : ℕ
  pub keys_total : ℕ

pub record ConfigReport : Type 0 where
  pub upstream : Text
  pub max_queue_wait_ms : ℕ
  pub upstream_timeout_ms : ℕ
  pub window_margin_ms : ℕ
  pub auth_required : Bool
  pub access_log : Bool

pub record StatusReport : Type 0 where
  pub service : Text
  pub version : Text
  pub uptime : Text
  pub config : ConfigReport
  pub pool : PoolSnapshot

-- The part of the configuration that `status` shows.
pub record Shown : Type 0 where
  pub upstream_base : Text
  pub max_queue_wait : ℕ
  pub upstream_timeout : ℕ
  pub window_margin : ℕ
  pub proxy_token : Option Text
  pub access_log : Bool

module _ (format_duration fmt_instant : ℕ → Text) where
  unfoldable pub health : Pool → ℕ → Pool × HealthReport
  health p now =
      let (p', snap) = snapshot format_duration fmt_instant p now in
      let healthy = ltb 0 snap.keys_healthy in
      (
        p',
        record {
          code = if healthy then 200 else 503;
          status = if healthy then codes "ok" else codes "degraded";
          keys_healthy = snap.keys_healthy;
          keys_total = snap.keys_total;
        },
      )

  -- `version` is set by the build.
  unfoldable status_report : Text → Shown → ℕ → PoolSnapshot → StatusReport
  unfolding fmt_dur
  status_report version cfg elapsed snap = record {
    service = codes "brave-rotator";
    version = version;
    uptime = fmt_dur format_duration fmt_instant elapsed;
    config = record {
      upstream = cfg.upstream_base;
      max_queue_wait_ms = as_millis cfg.max_queue_wait;
      upstream_timeout_ms = as_millis cfg.upstream_timeout;
      window_margin_ms = as_millis cfg.window_margin;
      auth_required = is_some cfg.proxy_token;
      access_log = cfg.access_log;
    };
    pool = snap;
  }

  unfoldable status :
      (http : Http)
      → Text
      → Shown
      → Pool
      → ℕ
      → ℕ
      → http.HeaderMap
      → Pool × Result StatusReport (Response http)
  unfolding status_report
  status http version cfg p started now headers =
      let seen = snapshot format_duration fmt_instant p now in
      if authorized http cfg.proxy_token headers
      then (seen.0, ok (status_report version cfg (now - started) seen.1))
      else (
        p,
        err (
            error_response http 401 (codes "unauthorized") (codes "missing or wrong X-Proxy-Token")
              none),
      )

  -- The health check answers 503 exactly if an attempt to acquire a key at the same time would find
  -- every key disabled or exhausted.
  pub health-try_acquire :
      (p : Pool) (now : ℕ)
      → ((health p now).1.code ≡ 503) ↔ (
          (earliest : Option ℕ) × (text : Text) × ((try_acquire fmt_instant p now []).1
            ≡ err (Next.unavailable earliest text)))
  unfolding health
  health-try_acquire p now = (
    λ degraded.
        (try_acquire_unavailable fmt_instant p now []).1
          ((snapshot-keys_healthy format_duration fmt_instant p now).0 (ground arith)),
    λ refused.
        rw
          ((snapshot-keys_healthy format_duration fmt_instant p now).1
            ((try_acquire_unavailable fmt_instant p now []).0 refused))
          refl,
  )
