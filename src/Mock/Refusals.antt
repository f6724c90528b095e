-- ===== src/Mock/Refusals.antt =====
-- The pool before scripts/mock_brave.py: what scripts/e2e.sh checks of the pacing, for every history.
use mathlib.Core.List.{Perm, foldr}
use mathlib.Core.List
use brave_search_api_rotator.Base.{
  ℕ, ◌+◌, ◌≤◌, ◌&&◌, List, [], ◌∷◌, ltb, leb, if◌then◌else◌, ◌≡◌, refl, sym, ◌∙◌, ap, arith,
  u32_max, u64_max, none, some,
}
use brave_search_api_rotator.Text.{Text}
use brave_search_api_rotator.RateLimit.{Windows, parse_windows}
use brave_search_api_rotator.Proxy.Limits.{parse_windows-printed}
use brave_search_api_rotator.Pool.{PoolConfig, Outcome, response, transport}
use brave_search_api_rotator.Pool.History.Keeps.{Records}
use brave_search_api_rotator.Pool.History.{Event, acquires, records, snapshots, InOrder, sends_of}
use brave_search_api_rotator.Pool.History.Limit.{after}
use brave_search_api_rotator.Pool.History.Reported.{AllReport, Reports}
use brave_search_api_rotator.Pool.History.Arrivals.{Arrives, count_within, upstream_never_overrun}
use brave_search_api_rotator.Mock.{Settings, mock_window, limit_header, no_logs, handle_all}
use brave_search_api_rotator.Mock.Pacing.{times_of, TimesInOrder, Paced, handle_all-Paced}

module _ (from len : ℕ) where
  counted : ℕ → ℕ → ℕ
  counted a n = (if leb from a && ltb a (from + len) then 1 else 0) + n

  counted_comm : (a b n : ℕ) → counted a (counted b n) ≡ counted b (counted a n)
  unfolding counted
  counted_comm a b n = omega arith

  count_within-foldr : (ts : List ℕ) → count_within from len ts ≡ foldr counted 0 ts
  unfolding count_within counted
  count_within-foldr [] = refl
  count_within-foldr (t ∷ ts) = omega (arith, count_within-foldr ts)

  -- The order of the times does not matter.
  count_within-perm :
      (ts us : List ℕ) → Perm ts us → count_within from len ts ≡ count_within from len us
  count_within-perm ts us p =
      count_within-foldr ts
      ∙ List.Perm.foldr-eq (hlevel) counted counted_comm p 0
      ∙ sym (count_within-foldr us)

-- An outcome whose limits, if there are any, are those that the mock reports.
abbrev pub FromMock : Settings → Outcome → Type 0
FromMock s (transport error) = Unit
FromMock s (response status none body) = Unit
FromMock s (response status (some rl) body) = rl.limit ≡ parse_windows (limit_header s)

-- So is every outcome recorded for the key `i`.
abbrev pub AllFromMock : Settings → ℕ → List Event → Type 0
AllFromMock s i [] = Unit
AllFromMock s i (e ∷ es) = Records (λ j outcome. j ≡ i → FromMock s outcome) e × AllFromMock s i es

module _ (s : Settings) (small : s.rps ≤ u64_max) (small' : s.month ≤ u64_max) (i : ℕ) where
  FromMock-Reports : (outcome : Outcome) → FromMock s outcome → Reports s.rps outcome
  FromMock-Reports (transport error) h = tt
  FromMock-Reports (response status none body) h = tt
  FromMock-Reports (response status (some rl) body) h =
      let second : rl.limit.second ≡ some s.rps =
        ap (λ (w : Windows). w.second) (h ∙ parse_windows-printed s.rps s.month small small') in
      rw second (omega arith)

  AllFromMock-AllReport : (es : List Event) → AllFromMock s i es → AllReport s.rps i es
  AllFromMock-AllReport [] h = tt
  AllFromMock-AllReport (acquires now exclude ∷ es) h = (tt, AllFromMock-AllReport es h.1)
  AllFromMock-AllReport (records now j outcome ∷ es) h =
      ((λ e. FromMock-Reports outcome (h.0 e)), AllFromMock-AllReport es h.1)
  AllFromMock-AllReport (snapshots now ∷ es) h = (tt, AllFromMock-AllReport es h.1)

-- After any history of a new pool whose times do not fall: if the limit of the mock is at least one
-- and the default limit is no higher, the responses to a key report the limits of the mock or none,
-- and each request of the key arrives between `delay` and `delay` and the margin after its grant,
-- then the mock, which has the requests with this and with any other keys in the order of their
-- arrival, answers none with this key by "Rate limit exceeded". The limits of the mock fit 64
-- bits, and the default 32.
pub mock_never_refuses :
    (format_duration fmt_instant : ℕ → Text) (keys : List Text) (cfg : PoolConfig) (es : List Event)
    (to i delay : ℕ) (arrivals : List ℕ) (s : Settings) (key : Text) (rs : List (Text × ℕ))
    → cfg.default_rps ≤ u32_max
    → s.rps ≤ u64_max
    → s.month ≤ u64_max
    → cfg.default_rps ≤ s.rps
    → 1 ≤ s.rps
    → InOrder 0 es to
    → AllFromMock s i es
    → Arrives delay cfg.window_margin
        (sends_of i (after format_duration fmt_instant keys cfg es).1)
        arrivals
    → TimesInOrder 0 rs
    → Perm (times_of key rs) arrivals
    → Paced s key (handle_all s no_logs rs)
mock_never_refuses format_duration fmt_instant keys cfg es to i delay arrivals s key rs fits small
      small' rps pos order from_mock arrives in_order same =
    handle_all-Paced s key no_logs 0 [] rs in_order tt
      (record { sorted = tt; up = tt; fewer = λ t. omega arith })
      λ from.
        let few =
          upstream_never_overrun format_duration fmt_instant keys cfg es to i s.rps delay from
            arrivals fits rps pos order (AllFromMock-AllReport s small small' i es from_mock)
            arrives in
        omega (arith, few, count_within-perm from mock_window (times_of key rs) arrivals same)
