-- ===== src/Main/Start/Fresh.antt =====
-- src/main.rs, `run`: the pool that a start builds can serve.
use brave_search_api_rotator.Base.{
  ℕ, ◌<◌, List, [], ◌∷◌, Option, some, ok, ◌≡◌, refl, arith, ◌⊎◌, inl, inr, get_elem?, length,
}
use brave_search_api_rotator.Text.{Text}
use brave_search_api_rotator.Key.{KeyState, new_key}
use brave_search_api_rotator.Key.Window.{refresh, availability, window_slot, prune}
use brave_search_api_rotator.Pool.{Pool, PoolConfig, Lease, new, new_keys, cap_at}
use brave_search_api_rotator.Pool.Select.{try_acquire}
use brave_search_api_rotator.Pool.Select.Outcomes.{Usable}
use brave_search_api_rotator.Pool.Contract.Idle.{Usable-leased}
use brave_search_api_rotator.Config.Load.{Parsers, Config, from_env}
use brave_search_api_rotator.Config.Valid.{from_env-IsValid}
use brave_search_api_rotator.Proxy.Health.{health, health-try_acquire}
use brave_search_api_rotator.Main.{pool_config, pool_of}

new_key-Usable :
    (p : Pool) (now i : ℕ) (token : Text) (rps : ℕ) (cap : Option ℕ)
    → Usable p now (new_key i token rps cap)
unfolding new_key refresh availability window_slot prune
new_key-Usable p now i token rps cap = refl

-- A pool built for at least one token has a first key that may be used at once.
fresh_pool :
    (keys : List Text) (cfg : PoolConfig) (now : ℕ)
    → 0 < length keys
    → (k : KeyState) × (get_elem? (new keys cfg).keys 0 ≡ some k) × Usable (new keys cfg) now k
unfolding new new_keys
fresh_pool [] cfg now some_key = absurd (omega arith)
fresh_pool (t ∷ ts) cfg now some_key = (
  new_key 0 t cfg.default_rps (cap_at cfg.monthly_limits 0),
  refl,
  new_key-Usable (new (t ∷ ts) cfg) now 0 t cfg.default_rps (cap_at cfg.monthly_limits 0),
)

health-code :
    (format_duration fmt_instant : ℕ → Text) (p : Pool) (now : ℕ)
    → let code = (health format_duration fmt_instant p now).1.code in (code ≡ 200) ⊎ (code ≡ 503)
unfolding health
health-code format_duration fmt_instant p now = ground arith

module _ (std : Parsers) (env : Text → Option Text) (format_duration fmt_instant : ℕ → Text) where
  -- Whatever configuration is read, the pool built of it can serve at once: at any time it gives a
  -- lease to a caller that excludes no key, and the health check answers 200.
  pub pool_of_serves :
      (cfg : Config std) (now : ℕ)
      → from_env std env ≡ ok cfg
      → ((lease : Lease) × ((try_acquire fmt_instant (pool_of std cfg) now []).1 ≡ ok lease))
        × ((health format_duration fmt_instant (pool_of std cfg) now).1.code ≡ 200)
  unfolding pool_of
  pool_of_serves cfg now read =
      let valid = from_env-IsValid std env cfg read in
      let (k, there, usable) = fresh_pool cfg.keys (pool_config std cfg) now valid.some_key in
      let (lease, leased) = Usable-leased fmt_instant (pool_of std cfg) now 0 k there usable in
      (
        (lease, leased),
        elim (health-code format_duration fmt_instant (pool_of std cfg) now) [
          | inl good ↦ good
          | inr bad ↦
              let (_, _, refused) =
                (health-try_acquire format_duration fmt_instant (pool_of std cfg) now).0 bad in
              absurd (cc (leased, refused))
        ],
      )
