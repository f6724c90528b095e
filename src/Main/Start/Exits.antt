-- ===== src/Main/Start/Exits.antt =====
-- src/main.rs, `main`: what each exit code says.
use brave_search_api_rotator.Base.{
  ℕ, List, Option, none, some, Result, ok, err, ◌≡◌, refl, ◌↔◌, ◌≢◌, ap, false, ◌⊎◌, inl, inr,
  arith, Option-cases, subst, sym,
}
use brave_search_api_rotator.Text.{Text, codes, equal, not-equal}
use brave_search_api_rotator.Config.Load.{Parsers, Config, from_env}
use brave_search_api_rotator.Main.{Net}
use brave_search_api_rotator.Main.Start.{Host, LogLine, main, run, finish, app_state}

never {ℓ κ} : {A : Type ℓ} {B : Type κ} → (A → ⊥) → (B → ⊥) → A ↔ B
never f g = (λ a. absurd (f a), λ b. absurd (g b))

module _ (std : Parsers) (host : Host std) where
  -- Serving could not begin or ended with the error `e`.
  abbrev pub Fails : Config std → Text → Type 0
  Fails cfg e =
      (host.bind cfg.listen ≡ some e)
      ⊎ ((host.bind cfg.listen ≡ none) × (host.serve (app_state std cfg host.started) ≡ some e))

  abbrev pub Serves : Config std → Type 0
  Serves cfg = (host.bind cfg.listen ≡ none) × (host.serve (app_state std cfg host.started) ≡ none)

  not_both : (cfg : Config std) (e : Text) → Fails cfg e → Serves cfg → ⊥
  not_both cfg e (inl bound) (free, served) = cc
  not_both cfg e (inr (free, failed)) (_, served) = cc

  -- The code for the result of `from_env`.
  abbrev code_of : Result (Config std) Text → ℕ
  code_of (err e) = 2
  code_of (ok cfg) = (finish std host (run std host cfg)).1

  finish_error :
      (x : List LogLine × Option Text) (e : Text) → x.1 ≡ some e → (finish std host x).1 ≡ 1
  finish_error (lines, none) e h = absurd cc
  finish_error (lines, some d) e h = refl

  finish_done : (x : List LogLine × Option Text) → x.1 ≡ none → (finish std host x).1 ≡ 0
  finish_done (lines, none) h = refl
  finish_done (lines, some d) h = absurd cc

  run-Fails : (cfg : Config std) (e : Text) → Fails cfg e → (run std host cfg).1 ≡ some e
  unfolding run
  run-Fails cfg e (inl bound) = ground arith
  run-Fails cfg e (inr (free, failed)) = ground arith

  run-Serves : (cfg : Config std) → Serves cfg → (run std host cfg).1 ≡ none
  unfolding run
  run-Serves cfg (free, served) = ground arith

  ends : (cfg : Config std) → ((e : Text) × Fails cfg e) ⊎ Serves cfg
  ends cfg = elim (Option-cases (host.bind cfg.listen)) [
    | inr (e, bound) ↦ inl (e, inl bound)
    | inl free ↦ elim (Option-cases (host.serve (app_state std cfg host.started))) [
      | inr (e, failed) ↦ inl (e, inr (free, failed))
      | inl served ↦ inr (free, served)
    ]
  ]

  -- What the three codes say of the result of `from_env`.
  abbrev Codes : ℕ → Result (Config std) Text → Type 0
  Codes code r =
      ((code ≡ 2) ↔ ((e : Text) × (r ≡ err e)))
      × ((code ≡ 1) ↔ ((cfg : Config std) × (e : Text) × (r ≡ ok cfg) × Fails cfg e))
      × ((code ≡ 0) ↔ ((cfg : Config std) × (r ≡ ok cfg) × Serves cfg))

  Codes-of : (r : Result (Config std) Text) → Codes (code_of r) r
  Codes-of (err e) = (
    (λ _. (e, refl), λ _. refl),
    never (λ h. omega arith) (λ (cfg, x, same, _). cc),
    never (λ h. omega arith) (λ (cfg, same, _). cc),
  )
  Codes-of (ok cfg) = elim (ends cfg) [
    | inl (e, fails) ↦
        let one : code_of (ok cfg) ≡ 1 =
          finish_error (run std host cfg) e (run-Fails cfg e fails) in
        (
          never (λ h. omega (arith, one)) (λ (x, same). cc),
          (λ _. (cfg, e, refl, fails), λ _. one),
          never (λ h. omega (arith, one))
              (λ (c, same, serves).
                let cfg≡c : cfg ≡ c = ground arith in not_both c e (rw cfg≡c at fails) serves),
        )
    | inr serves ↦
        let zero_code : code_of (ok cfg) ≡ 0 =
          finish_done (run std host cfg) (run-Serves cfg serves) in
        (
          never (λ h. omega (arith, zero_code)) (λ (x, same). cc),
          never (λ h. omega (arith, zero_code))
              (λ (c, e, same, fails).
                let cfg≡c : cfg ≡ c = ground arith in not_both c e fails (rw cfg≡c at serves)),
          (λ _. (cfg, refl, serves), λ _. zero_code),
        )
  ]

module _ (std : Parsers) (host : Host std) (net : Net std) (env : Text → Option Text) where
  main-no_argument : (main std host net env none).1 ≡ code_of std host (from_env std env)
  unfolding main
  main-no_argument = by_config (from_env std env) refl
    where
      by_config :
          (r : Result (Config std) Text)
          → from_env std env ≡ r
          → (main std host net env none).1 ≡ code_of std host (from_env std env)
      by_config (err x) e = rw e refl
      by_config (ok cfg) e = rw e refl

  main-code :
      (arg : Option Text)
      → arg ≢ some (codes "healthcheck")
      → (main std host net env arg).1 ≡ code_of std host (from_env std env)
  unfolding main
  main-code none other = main-no_argument
  main-code (some a) other =
      let differs : equal a (codes "healthcheck") ≡ false =
        not-equal a (codes "healthcheck") (λ same. other (ap some (sym same))) in
      rw differs main-no_argument

  -- Unless its first argument is `healthcheck`, the program exits with 2 exactly if its configuration cannot be read, with 1
  -- exactly if that is read but its address cannot be bound or serving fails, and with 0 exactly if
  -- it is read and the program binds its address and serves until the shutdown.
  pub main_exit_code :
      (arg : Option Text)
      → arg ≢ some (codes "healthcheck")
      → (((main std host net env arg).1 ≡ 2) ↔ ((e : Text) × (from_env std env ≡ err e)))
        × (((main std host net env arg).1 ≡ 1) ↔ (
            (cfg : Config std) × (e : Text) × (from_env std env ≡ ok cfg) × Fails std host cfg e))
        × (((main std host net env arg).1 ≡ 0)
            ↔ ((cfg : Config std) × (from_env std env ≡ ok cfg) × Serves std host cfg))
  main_exit_code arg other =
      subst (λ (n : ℕ). Codes std host n (from_env std env)) (sym (main-code arg other))
        (Codes-of std host (from_env std env))
