-- ===== src/Pool/History/Reported.antt =====
-- src/pool.rs, `learn_limits`: a key's limit against those that its responses report.
use brave_search_api_rotator.Base.{ℕ, ◌≤◌, List, [], ◌∷◌, Option, none, some, ◌≡◌, refl, arith, suc}
use brave_search_api_rotator.Text.{Text}
use brave_search_api_rotator.RateLimit.{RateLimitInfo}
use brave_search_api_rotator.Key.{KeyState, new_key}
use brave_search_api_rotator.Key.Quota.{learn_limits}
use brave_search_api_rotator.Key.Backoff.{disable, fail}
use brave_search_api_rotator.Key.Window.{refresh, availability}
use brave_search_api_rotator.Pool.{PoolConfig, Outcome, response, transport, window, new_keys}
use brave_search_api_rotator.Pool.Select.{mark_sent}
use brave_search_api_rotator.Pool.Select.Keys.{AllAt}
use brave_search_api_rotator.Pool.Record.{digest, learned, detail_of}
use brave_search_api_rotator.Pool.Record.Effects.{by_status-SameSends}
use brave_search_api_rotator.Pool.History.{Event}
use brave_search_api_rotator.Pool.History.Keeps.{KeptBy, Records}

-- The limit that a response reports for a second, if it reports one, is at most `top`.
abbrev pub LimitAtMost : ℕ → Option ℕ → Type 0
LimitAtMost top none = Unit
LimitAtMost top (some l) = l ≤ top

abbrev pub Reports : ℕ → Outcome → Type 0
Reports top (transport error) = Unit
Reports top (response status none body) = Unit
Reports top (response status (some rl) body) = LimitAtMost top rl.limit.second

-- So does every outcome recorded for the key `i`.
abbrev pub ReportsFor : ℕ → ℕ → ℕ → Outcome → Type 0
ReportsFor top i j outcome = j ≡ i → Reports top outcome

abbrev pub AllReport : ℕ → ℕ → List Event → Type 0
AllReport top i [] = Unit
AllReport top i (e ∷ es) = Records (ReportsFor top i) e × AllReport top i es

-- The key `i` has learned no limit above `top`.
abbrev pub Limited : ℕ → ℕ → ℕ → KeyState → Type 0
Limited top i j k = j ≡ i → k.sec_limit ≤ top

refresh-limit : (k : KeyState) (now : ℕ) → (refresh k now).sec_limit ≡ k.sec_limit
unfolding refresh
refresh-limit k now = ground arith

availability-limit :
    (k : KeyState) (now window : ℕ) → (availability k now window).0.sec_limit ≡ k.sec_limit
unfolding availability
availability-limit k now window = ground arith

mark_sent-limit : (k : KeyState) (now : ℕ) → (mark_sent k now).sec_limit ≡ k.sec_limit
unfolding mark_sent
mark_sent-limit k now = refl

learned-limit :
    (k : KeyState) (now top : ℕ) (rl : Option RateLimitInfo)
    → Reports top (response 0 rl none)
    → k.sec_limit ≤ top
    → (learned k now rl).sec_limit ≤ top
unfolding learn_limits
learned-limit k now top none reported h = h
learned-limit k now top (some r) reported h = by_limit r.limit.second reported
  where
    by_limit :
        (l : Option ℕ)
        → LimitAtMost top l
        → (learn_limits k now (record r { limit = record r.limit { second = l } })).sec_limit ≤ top
    by_limit none q = h
    by_limit (some l) q = ground arith

digest-limit :
    (k : KeyState) (now top : ℕ) (outcome : Outcome)
    → Reports top outcome
    → k.sec_limit ≤ top
    → (digest k now outcome).0.sec_limit ≤ top
unfolding digest fail disable
digest-limit k now top (transport error) reported h = ground arith
digest-limit k now top (response status none body) reported h =
    let noted = record k { stats = record k.stats { last_status = some status } } in
    ground (
      arith,
      by_status-SameSends (learned noted now none) now status none (detail_of body),
      learned-limit noted now top none tt h,
    )
digest-limit k now top (response status (some r) body) reported h =
    let noted = record k { stats = record k.stats { last_status = some status } } in
    ground (
      arith,
      by_status-SameSends (learned noted now (some r)) now status (some r) (detail_of body),
      learned-limit noted now top (some r) reported h,
    )

pub Limited-KeptBy : (top i : ℕ) → KeptBy (λ _. Unit) (ReportsFor top i) (Limited top i)
Limited-KeptBy top i = record {
  by_refresh = λ j k now _ h e. rw (refresh-limit k now) (h e);
  by_availability = λ j k now window h e. rw (availability-limit k now window) (h e);
  by_mark_sent = λ j k now h e. rw (mark_sent-limit k now) (h e);
  by_digest = λ j k now outcome good h e. digest-limit k now top outcome (good e) (h e);
}

pub new_keys-Limited :
    (top i : ℕ)
    → 1 ≤ top
    → (cfg : PoolConfig) (n : ℕ) (ks : List Text) → cfg.default_rps ≤ top
    → AllAt (Limited top i) n (new_keys cfg n ks)
unfolding new_keys new_key
new_keys-Limited top i pos cfg n [] h = tt
new_keys-Limited top i pos cfg n (k ∷ ks) h =
    ((λ e. omega arith), new_keys-Limited top i pos cfg (suc n) ks h)
