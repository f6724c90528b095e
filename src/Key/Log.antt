-- ===== src/Key/Log.antt =====
-- src/pool.rs: the lines that the operations on a key log, and how times and quotas are printed.
use brave_search_api_rotator.Base.{
  ℕ, ◌+◌, ◌-◌, true, false, ◌&&◌, ◌||◌, not, [], ◌++◌, Option, none, some, leb, ◌==◌, if◌then◌else◌,
  unwrap_or, option_map, is_some, from_secs, as_secs, ◌≡◌, arith, ◌↔◌, min, u32_max, add_u32,
}
use brave_search_api_rotator.Text.{Text, codes}
use brave_search_api_rotator.Text.Numbers.{to_string}
use brave_search_api_rotator.RateLimit.{RateLimitInfo, month_reset}
use brave_search_api_rotator.Key.{KeyState, Health, exhausted_fallback, fail_threshold}
use brave_search_api_rotator.Key.Backoff.{backoff}
use brave_search_api_rotator.Key.Quota.{learn_limits, month_unlimited}

unfoldable pub fmt_quota : ℕ → Text
fmt_quota v = if v == 0 then codes "unlimited" else to_string v

-- The two clocks, read together, and what the standard library and the crate `humantime` do with
-- the wall clock's times.
pub record Clocks : Type 1 where
  pub SystemTime : Type 0
  pub now_i : ℕ
  pub now_s : SystemTime
  pub checked_add : SystemTime → ℕ → Option SystemTime
  pub checked_sub : SystemTime → ℕ → Option SystemTime
  pub format_rfc3339_seconds : SystemTime → Text

unfoldable pub wall_clock : Clocks → ℕ → Text
wall_clock c i =
    let at =
      if leb c.now_i i
      then c.checked_add c.now_s (i - c.now_i)
      else c.checked_sub c.now_s (c.now_i - i) in
    unwrap_or (option_map at c.format_rfc3339_seconds) []

abbrev or_mark : Option Text → Text
or_mark t = unwrap_or t (codes "?")

module _ (format_duration fmt_instant : ℕ → Text) where
  abbrev printed : ℕ → Text
  printed d = format_duration (from_secs (as_secs d))

  -- What `refresh` logs.
  unfoldable pub refresh_line : KeyState → ℕ → Option Text
  refresh_line k now = elim k.health [
    | Health.disabled until reason ↦
        if leb until now
        then some (
            codes "key "
            ++ (k.label
                ++ (codes ": cooldown over, probing again (was: " ++ (reason ++ codes ")"))))
        else none
    | Health.exhausted until ↦
        if leb until now
        then some
            (codes "key " ++ (k.label ++ codes ": monthly quota should have reset, probing again"))
        else none
    | Health.ok ↦ none
  ]

  -- What `learn_limits` logs of the key that it has made.
  unfoldable pub learned_text : KeyState → RateLimitInfo → Text
  learned_text k rl =
      codes "key "
      ++ (k.label
          ++ (codes ": plan limits learned: "
              ++ (to_string k.sec_limit
                  ++ (if month_unlimited k
                      then codes " req/s, no monthly cap"
                      else codes " req/s, "
                        ++ (or_mark (option_map k.month_limit to_string)
                            ++ (codes " req/month, "
                                ++ (or_mark (option_map k.month_remaining to_string)
                                    ++ (codes " remaining, month resets in "
                                        ++ or_mark (option_map (month_reset rl) printed)))))))))

  unfoldable pub learned_line : KeyState → ℕ → RateLimitInfo → Option Text
  unfolding learned_text learn_limits
  learned_line k now rl =
      if not k.limits_learned && (is_some rl.limit.second || is_some rl.limit.month)
      then some (learned_text (learn_limits k now rl) rl)
      else none

  -- What `exhaust` logs of the key before it.
  unfoldable pub exhausted_line : KeyState → ℕ → Option ℕ → Option Text
  unfolding fmt_quota
  exhausted_line k now reset_in = elim k.health [
    | Health.exhausted until ↦ none
    | Health.disabled until reason ↦ some (exhausted_text (unwrap_or reset_in exhausted_fallback))
    | Health.ok ↦ some (exhausted_text (unwrap_or reset_in exhausted_fallback))
  ]
    where
      exhausted_text : ℕ → Text
      exhausted_text wait =
          codes "key "
          ++ (k.label
              ++ (codes ": monthly quota EXHAUSTED ("
                  ++ (or_mark (option_map k.month_limit fmt_quota)
                      ++ (codes " req/month); parked until "
                          ++ (fmt_instant (now + wait)
                              ++ (codes " (in " ++ (printed wait ++ codes ")")))))))

  -- What `disable` logs of the key before it.
  unfoldable pub disabled_line : KeyState → ℕ → ℕ → ℕ → Text → Text
  disabled_line k now base most reason =
      let strikes = min (k.disable_strikes + 1) u32_max in
      let dur = backoff base most strikes in
      codes "key "
      ++ (k.label
          ++ (codes ": DISABLED for "
              ++ (printed dur
                  ++ (codes " (strike "
                      ++ (to_string strikes
                          ++ (codes ") - "
                              ++ (reason
                                  ++ (codes "; will probe again at "
                                      ++ fmt_instant (now + dur)))))))))

  -- What `fail` logs of the key before it, unless it disables the key.
  unfoldable pub failing_line : KeyState → Text → Option Text
  failing_line k what =
      let failures = add_u32 k.consecutive_failures 1 in
      if leb fail_threshold failures
      then none
      else some (
          codes "key "
          ++ (k.label
              ++ (codes ": "
                  ++ (what
                      ++ (codes " ("
                          ++ (to_string failures
                              ++ (codes "/"
                                  ++ (to_string fail_threshold ++ codes " before disabling)"))))))))

  -- The limits are logged exactly when the first response that has some is read.
  learned_line_iff :
      (k : KeyState) (now : ℕ) (rl : RateLimitInfo)
      → (is_some (learned_line k now rl) ≡ true)
        ↔ ((k.limits_learned ≡ false) × ((learn_limits k now rl).limits_learned ≡ true))
  unfolding learned_line
  learned_line_iff k now rl = ground arith
