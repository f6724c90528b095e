-- ===== src/Pool/History/Valid.antt =====
-- src/pool.rs: what holds of every key after any history of the pool.
use brave_search_api_rotator.Base.{
  ℕ, suc, ◌+◌, ◌≤◌, ◌<◌, max, false, List, [], ◌∷◌, Option, none, some, ◌≡◌, refl, ◌∙◌, sym, ap,
  arith, ◌↔◌, length, u32_max, get_elem?, is_some,
}
use brave_search_api_rotator.Text.{Text}
use brave_search_api_rotator.RateLimit.{RateLimitInfo}
use brave_search_api_rotator.Key.{KeyState, new_key, label_of, max_learned_rps}
use brave_search_api_rotator.Key.Quota.{learn_limits}
use brave_search_api_rotator.Key.Backoff.{disable, exhaust, fail}
use brave_search_api_rotator.Key.Window.{refresh, availability}
use brave_search_api_rotator.Pool.{
  PoolConfig, Outcome, response, transport, window, new, new_keys, cap_at,
}
use brave_search_api_rotator.Pool.Select.{mark_sent}
use brave_search_api_rotator.Pool.Select.Keys.{AllAt}
use brave_search_api_rotator.Pool.Record.{digest, by_status, learned, detail_of}
use brave_search_api_rotator.Pool.Record.Effects.{by_status-SameSends}
use brave_search_api_rotator.Pool.Record.Statuses.{digest-failures_lt}
use brave_search_api_rotator.Pool.History.Keeps.{Kept, run-AllAt, length-run}
use brave_search_api_rotator.Pool.History.{Event, run}

-- The parts of a key that only its creation sets, and those that the invariant reads.
abbrev Identity : KeyState → KeyState → Type 0
Identity k k' =
    (k'.token ≡ k.token) × (k'.label ≡ k.label) × (k'.monthly_cap_override ≡ k.monthly_cap_override)

-- Strikes and the time of the first of them come and go together.
abbrev Struck : KeyState → Type 0
Struck k = (k.disable_strikes ≡ 0) ↔ (is_some k.disabled_since ≡ false)

-- A key in order: the one with this number in the list of tokens, with its label and its cap, a
-- limit within its range, fewer than three failures in a row, and strikes that fit their type.
pub record IsValid (tokens : List Text) (cfg : PoolConfig) (i : ℕ) (k : KeyState) : Type 0 where
  pub listed : get_elem? tokens i ≡ some k.token
  pub named : k.label ≡ label_of i k.token
  pub capped : k.monthly_cap_override ≡ cap_at cfg.monthly_limits i
  pub limit_from : 1 ≤ k.sec_limit
  pub limit_to : k.sec_limit ≤ max (max cfg.default_rps 1) max_learned_rps
  pub few_failures : k.consecutive_failures < 3
  pub strikes : k.disable_strikes ≤ u32_max
  pub struck : Struck k

-- The parts that a use of the key leaves alone.
abbrev Untouched : KeyState → KeyState → Type 0
Untouched k k' =
    Identity k k'
    × (k'.sec_limit ≡ k.sec_limit)
    × (k'.consecutive_failures ≡ k.consecutive_failures)
    × (k'.disable_strikes ≡ k.disable_strikes)
    × (k'.disabled_since ≡ k.disabled_since)

refresh-Untouched : (k : KeyState) (now : ℕ) → Untouched k (refresh k now)
unfolding refresh
refresh-Untouched k now = ground arith

availability-Untouched : (k : KeyState) (now window : ℕ) → Untouched k (availability k now window).0
unfolding availability
availability-Untouched k now window = ground arith

mark_sent-Untouched : (k : KeyState) (now : ℕ) → Untouched k (mark_sent k now)
unfolding mark_sent
mark_sent-Untouched k now = ((refl, refl, refl), refl, refl, refl, refl)

by_status-Struck :
    (k : KeyState) (now status : ℕ) (rl : Option RateLimitInfo) (detail : Text)
    → k.disable_strikes ≤ u32_max
    → Struck k
    → ((by_status k now status rl detail).0.disable_strikes ≤ u32_max)
      × Struck (by_status k now status rl detail).0
unfolding by_status disable exhaust fail
by_status-Struck k now status rl detail fits h = ground arith

-- What a response teaches: the limit alone, within its range.
learned-Limit :
    (k : KeyState) (now status : ℕ) (rl : Option RateLimitInfo) (top : ℕ)
    → max_learned_rps ≤ top
    → 1 ≤ k.sec_limit
    → k.sec_limit ≤ top
    → let k' = learned (record k { stats = record k.stats { last_status = some status } }) now rl in
      Identity k k'
      × (1 ≤ k'.sec_limit)
      × (k'.sec_limit ≤ top)
      × (k'.disable_strikes ≡ k.disable_strikes)
      × (k'.disabled_since ≡ k.disabled_since)
unfolding learn_limits
learned-Limit k now status none top above from to = ((refl, refl, refl), from, to, refl, refl)
learned-Limit k now status (some r) top above from to = ground arith

module _ (k : KeyState) (now : ℕ) where
  digest-Struck :
      (outcome : Outcome)
      → 1 ≤ k.sec_limit
      → k.disable_strikes ≤ u32_max
      → Struck k
      → ((digest k now outcome).0.disable_strikes ≤ u32_max) × Struck (digest k now outcome).0
  unfolding digest fail disable exhaust
  digest-Struck (transport error) from fits h = ground arith
  digest-Struck (response status rl body) from fits h =
      let seen =
        learned (record k { stats = record k.stats { last_status = some status } }) now rl in
      let (_, _, _, strikes, since) =
        learned-Limit k now status rl (max k.sec_limit max_learned_rps) (omega arith) from
          (omega arith) in
      by_status-Struck seen now status rl (detail_of body) (omega arith)
        ((λ e. rw since (h.0 (sym strikes ∙ e))), λ e. strikes ∙ h.1 (rw since at e))

  digest-Limit :
      (outcome : Outcome) (top : ℕ)
      → max_learned_rps ≤ top
      → 1 ≤ k.sec_limit
      → k.sec_limit ≤ top
      → Identity k (digest k now outcome).0
        × (1 ≤ (digest k now outcome).0.sec_limit)
        × ((digest k now outcome).0.sec_limit ≤ top)
  unfolding digest fail disable
  digest-Limit (transport error) top above from to = ground arith
  digest-Limit (response status rl body) top above from to =
      let seen =
        learned (record k { stats = record k.stats { last_status = some status } }) now rl in
      ground (
        arith,
        learned-Limit k now status rl top above from to,
        by_status-SameSends seen now status rl (detail_of body),
      )

module _ (tokens : List Text) (cfg : PoolConfig) (i : ℕ) where
  IsValid-Untouched :
      (k k' : KeyState) → Untouched k k' → IsValid tokens cfg i k → IsValid tokens cfg i k'
  IsValid-Untouched k k' (same, limit, failures, strikes, since) v = record {
    listed = rw (same.0) v.listed;
    named = rw (same.0, same.1) v.named;
    capped = rw (same.2) v.capped;
    limit_from = rw limit v.limit_from;
    limit_to = rw limit v.limit_to;
    few_failures = rw failures v.few_failures;
    strikes = rw strikes v.strikes;
    struck = rw (strikes, since) v.struck;
  }

  digest-IsValid :
      (k : KeyState) (now : ℕ) (outcome : Outcome)
      → IsValid tokens cfg i k
      → IsValid tokens cfg i (digest k now outcome).0
  digest-IsValid k now outcome v =
      let (same, from, to) =
        digest-Limit k now outcome (max (max cfg.default_rps 1) max_learned_rps) (omega arith)
          v.limit_from v.limit_to in
      let (strikes, struck) = digest-Struck k now outcome v.limit_from v.strikes v.struck in
      record {
        listed = rw (same.0) v.listed;
        named = rw (same.0, same.1) v.named;
        capped = rw (same.2) v.capped;
        limit_from = from;
        limit_to = to;
        few_failures = digest-failures_lt k now outcome v.few_failures;
        strikes = strikes;
        struck = struck;
      }

pub IsValid-Kept : (tokens : List Text) (cfg : PoolConfig) → Kept (IsValid tokens cfg)
IsValid-Kept tokens cfg = record {
  by_refresh =
      λ i k now _. IsValid-Untouched tokens cfg i k (refresh k now) (refresh-Untouched k now);
  by_availability = λ i k now window.
      IsValid-Untouched tokens cfg i k (availability k now window).0
        (availability-Untouched k now window);
  by_mark_sent =
      λ i k now. IsValid-Untouched tokens cfg i k (mark_sent k now) (mark_sent-Untouched k now);
  by_digest = λ i k now outcome _. digest-IsValid tokens cfg i k now outcome;
}

new_keys-IsValid :
    (tokens : List Text) (cfg : PoolConfig) (i : ℕ) (ks : List Text)
    → ((j : ℕ) → get_elem? tokens (i + j) ≡ get_elem? ks j)
    → AllAt (IsValid tokens cfg) i (new_keys cfg i ks)
unfolding new_keys new_key
new_keys-IsValid tokens cfg i [] same = tt
new_keys-IsValid tokens cfg i (t ∷ ts) same =
    let i+0 : i + 0 ≡ i = omega arith in
    (
      record {
        listed = rw i+0 at (same 0);
        named = refl;
        capped = refl;
        limit_from = omega arith;
        limit_to = omega arith;
        few_failures = omega arith;
        strikes = omega arith;
        struck = ((λ _. refl), λ _. refl);
      },
      new_keys-IsValid tokens cfg (suc i) ts
          (λ j. let e : i + suc j ≡ suc i + j = omega arith in rw e at (same (suc j))),
    )

length-new_keys :
    (cfg : PoolConfig) (i : ℕ) (ks : List Text) → length (new_keys cfg i ks) ≡ length ks
unfolding new_keys
length-new_keys cfg i [] = refl
length-new_keys cfg i (t ∷ ts) = ap suc (length-new_keys cfg (suc i) ts)

module _ (format_duration fmt_instant : ℕ → Text) (tokens : List Text) (cfg : PoolConfig) where
  -- After any history of a new pool, at any times and with any outcomes, the pool has as many keys as
  -- tokens, and each key is in order: it has its token, label and monthly cap, a limit of at least one
  -- and at most the default and 1000, fewer than three failures in a row, strikes that fit 32 bits,
  -- and a time since which it is disabled exactly if it has strikes.
  pub run-IsValid :
      (es : List Event)
      → let p = (run format_duration fmt_instant (new tokens cfg, []) es).0 in
        (length p.keys ≡ length tokens) × AllAt (IsValid tokens cfg) 0 p.keys
  unfolding new
  run-IsValid es =
      let start : AllAt (IsValid tokens cfg) 0 (new_keys cfg 0 tokens) =
        new_keys-IsValid tokens cfg 0 tokens (λ j. let e : 0 + j ≡ j = omega arith in rw e refl) in
      (
        length-run format_duration fmt_instant (new tokens cfg) [] es
            ∙ length-new_keys cfg 0 tokens,
        run-AllAt (IsValid tokens cfg) (IsValid-Kept tokens cfg) format_duration fmt_instant
            (new tokens cfg) [] es start,
      )
