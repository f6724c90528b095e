-- ===== src/Pool/History/Arrivals.antt =====
-- When the requests of the pool reach the upstream, whose window of one second is not to overflow.
use mathlib.Core.List.{append-nil, append_assoc}
use brave_search_api_rotator.Base.{
  sym, ℕ, ◌+◌, ◌≤◌, ◌<◌, List, [], ◌∷◌, ◌++◌, ◌≡◌, arith, if◌then◌else◌, ltb, leb, ◌&&◌, u32_max,
  inl, inr, Bool-cases,
}
use brave_search_api_rotator.Text.{Text}
use brave_search_api_rotator.Key.{window_base}
use brave_search_api_rotator.Key.Window.Sliding.{count_recent}
use brave_search_api_rotator.Pool.{PoolConfig, new}
use brave_search_api_rotator.Pool.History.{Event, InOrder, sends_of}
use brave_search_api_rotator.Pool.History.Limit.{after}
use brave_search_api_rotator.Pool.History.Reported.{AllReport}
use brave_search_api_rotator.Pool.History.Spacing.{Spaced, after-Spaced}

-- Each send arrives between `delay` and `delay + jitter` after it was granted.
abbrev pub Arrives : ℕ → ℕ → List ℕ → List ℕ → Type 0
Arrives delay jitter [] [] = Unit
Arrives delay jitter (t ∷ ts) (a ∷ rs) =
    (t + delay ≤ a) × (a ≤ t + delay + jitter) × Arrives delay jitter ts rs
Arrives delay jitter [] (a ∷ rs) = ⊥
Arrives delay jitter (t ∷ ts) [] = ⊥

-- How many of the times lie in the `len` that begin with `from`.
unfoldable pub count_within : ℕ → ℕ → List ℕ → ℕ
count_within from len [] = 0
count_within from len (a ∷ rs) =
    (if leb from a && ltb a (from + len) then 1 else 0) + count_within from len rs

pub count_within-append :
    (from len : ℕ) (rs bs : List ℕ)
    → count_within from len (rs ++ bs) ≡ count_within from len rs + count_within from len bs
unfolding count_within
count_within-append from len [] bs = omega arith
count_within-append from len (a ∷ rs) bs = omega (arith, count_within-append from len rs bs)

module _ (delay jitter from len : ℕ) where
  -- What arrives together with a request was recent when that was sent.
  count_within-le-recent :
      (t a : ℕ) (ts rs : List ℕ)
      → t + delay ≤ a
      → a < from + len
      → Arrives delay jitter ts rs
      → count_within from len rs ≤ count_recent t (len + jitter) ts
  unfolding count_within count_recent
  count_within-le-recent t a [] [] lo hi h = omega arith
  count_within-le-recent t a [] (b ∷ bs) lo hi h = absurd h
  count_within-le-recent t a (s ∷ ss) [] lo hi h = absurd h
  count_within-le-recent t a (s ∷ ss) (b ∷ bs) lo hi h =
      ground (arith, count_within-le-recent t a ss bs lo hi h.2)

  Arrives-append :
      (t a : ℕ) (ts rs : List ℕ)
      → t + delay ≤ a
      → a ≤ t + delay + jitter
      → Arrives delay jitter ts rs
      → Arrives delay jitter (ts ++ t ∷ []) (rs ++ a ∷ [])
  Arrives-append t a [] [] lo hi h = (lo, hi, tt)
  Arrives-append t a [] (b ∷ bs) lo hi h = absurd h
  Arrives-append t a (s ∷ ss) [] lo hi h = absurd h
  Arrives-append t a (s ∷ ss) (b ∷ bs) lo hi h = (h.0, h.1, Arrives-append t a ss bs lo hi h.2)

  Spaced-within :
      (top : ℕ) (earlier before ts rs : List ℕ)
      → Arrives delay jitter earlier before
      → count_within from len before ≤ top
      → Spaced (len + jitter) top earlier ts
      → Arrives delay jitter ts rs
      → count_within from len (before ++ rs) ≤ top
  unfolding count_within
  Spaced-within top earlier before [] [] arrived few spaced h = rw (append-nil before) few
  Spaced-within top earlier before [] (a ∷ rs) arrived few spaced h = absurd h
  Spaced-within top earlier before (t ∷ ts) [] arrived few spaced h = absurd h
  Spaced-within top earlier before (t ∷ ts) (a ∷ rs) arrived few spaced h =
      let now_in : count_within from len (before ++ a ∷ []) ≤ top =
        elim (Bool-cases (leb from a && ltb a (from + len))) [
          | inl within ↦
              let recent = count_within-le-recent t a earlier before h.0 (ground arith) arrived in
              let one : count_within from len (a ∷ []) ≡ 1 = ground arith in
              omega (arith, count_within-append from len before (a ∷ []), one, recent, spaced.0)
          | inr outside ↦
              let zero_more : count_within from len (a ∷ []) ≡ 0 = ground arith in
              omega (arith, count_within-append from len before (a ∷ []), zero_more, few)
        ] in
      let split : before ++ (a ∷ rs) ≡ (before ++ a ∷ []) ++ rs =
        sym (append_assoc before (a ∷ []) rs) in
      rw split (
        Spaced-within top (earlier ++ t ∷ []) (before ++ a ∷ []) ts rs
          (Arrives-append t a earlier before h.0 h.1 arrived) now_in spaced.1 h.2)

-- After any history of a new pool whose times do not fall: if the default limit of a second, which
-- fits 32 bits, and those that the responses to a key report are at most `top`, which is at least
-- one, and each request reaches the upstream between `delay` and `delay` and the margin after its
-- key was granted, then in no second, wherever it begins, do more than `top` requests of that key
-- reach the upstream.
pub upstream_never_overrun :
    (format_duration fmt_instant : ℕ → Text) (keys : List Text) (cfg : PoolConfig) (es : List Event)
    (to i top delay from : ℕ) (arrivals : List ℕ)
    → cfg.default_rps ≤ u32_max
    → cfg.default_rps ≤ top
    → 1 ≤ top
    → InOrder 0 es to
    → AllReport top i es
    → Arrives delay cfg.window_margin
        (sends_of i (after format_duration fmt_instant keys cfg es).1)
        arrivals
    → count_within from window_base arrivals ≤ top
unfolding count_within new
upstream_never_overrun format_duration fmt_instant keys cfg es to i top delay from arrivals fits rps
      pos order good arrives =
    Spaced-within delay cfg.window_margin from window_base top [] []
      (sends_of i (after format_duration fmt_instant keys cfg es).1) arrivals tt (omega arith)
      (after-Spaced format_duration fmt_instant top i pos keys cfg es to fits rps order good)
      arrives
