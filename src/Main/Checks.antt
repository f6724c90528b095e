-- ===== src/Main/Checks.antt =====
-- src/main.rs, `healthcheck`: what its exit code says of the server.
use brave_search_api_rotator.Base.{
  ℕ, ◌≡◌, ◌↔◌, ◌⊎◌, refl, inl, inr, arith, Bool, true, false, List, [], ◌++◌, Option, some, ok, err,
  ltb, if◌then◌else◌, is_empty, ◌==◌, Bool-cases,
}
use brave_search_api_rotator.Text.{
  Text, codes, starts_with, strip_prefix, trim, trim_start, trim_end_by,
}
use brave_search_api_rotator.Text.Numbers.{to_string}
use brave_search_api_rotator.Pool.{Pool, Next}
use brave_search_api_rotator.Pool.Select.{try_acquire}
use brave_search_api_rotator.Proxy.Health.{health, health-try_acquire}
use brave_search_api_rotator.Config.Load.{Parsers, parse_addr_env}
use brave_search_api_rotator.Pool.Snapshot.{snapshot}
use brave_search_api_rotator.Main.{Net, received, target, health_request, exit_of, healthcheck}

-- A response as `hyper` writes it: the version, the status, and whatever follows.
abbrev pub response_head : Bool → ℕ → Text → Text
response_head newer code rest =
    (if newer then codes "HTTP/1.1 " else codes "HTTP/1.0 ") ++ (to_string code ++ rest)

module _ (std : Parsers) (net : Net std) where
  exit_of-response_head :
      (newer : Bool) (code : ℕ) (rest : Text) (buf : List ℕ)
      → (code ≡ 200) ⊎ (code ≡ 503)
      → net.from_utf8_lossy buf ≡ response_head newer code rest
      → (exit_of std net (received buf) ≡ (if code == 503 then 1 else 0))
  unfolding starts_with strip_prefix to_string
  exit_of-response_head true code rest buf (inl up) heard = rw (heard, up) refl
  exit_of-response_head false code rest buf (inl up) heard = rw (heard, up) refl
  exit_of-response_head true code rest buf (inr down) heard = rw (heard, down) refl
  exit_of-response_head false code rest buf (inr down) heard = rw (heard, down) refl

  module _ (format_duration fmt_instant : ℕ → Text) where
    health_code :
        (p : Pool) (now : ℕ)
        → ((health format_duration fmt_instant p now).1.code ≡ 200)
          ⊎ ((health format_duration fmt_instant p now).1.code ≡ 503)
    unfolding health
    health_code p now =
        elim (Bool-cases (ltb 0 (snapshot format_duration fmt_instant p now).1.keys_healthy)) [
          | inl up ↦ inl (rw up refl)
          | inr down ↦ inr (rw down refl)
        ]

    -- If the server's answer to its request is what `health` gives for the pool at `now`, the command
    -- exits with 1 exactly when an attempt to acquire a key at that time would find every key
    -- disabled or exhausted, and else with 0.
    pub healthcheck-health :
        (listen : Text) (addr : std.SocketAddr) (buf : List ℕ) (newer : Bool) (rest : Text)
        (p : Pool) (now : ℕ)
        → std.parse_addr listen ≡ ok addr
        → net.fetch (target std net addr) (health_request std net) ≡ received buf
        → net.from_utf8_lossy buf
          ≡ response_head newer (health format_duration fmt_instant p now).1.code rest
        → ((healthcheck std net (some listen) ≡ 1) ↔ (
            (earliest : Option ℕ) × (text : Text) × ((try_acquire fmt_instant p now []).1
              ≡ err (Next.unavailable earliest text))))
          × ((healthcheck std net (some listen) ≡ 0) ⊎ (healthcheck std net (some listen) ≡ 1))
    unfolding healthcheck
    healthcheck-health listen addr buf newer rest p now parsed fetched heard =
        let refused = health-try_acquire format_duration fmt_instant p now in
        let value : healthcheck std net (some listen)
            ≡ (if (health format_duration fmt_instant p now).1.code == 503 then 1 else 0) =
          rw (parsed, healthcheck)
            (rw fetched (exit_of-response_head newer _ rest buf (health_code p now) heard)) in
        elim (health_code p now) [
          | inl up ↦
              rw (value, up)
                ((λ e. absurd (omega arith), λ r. absurd (omega (arith, refused.1 r))), inl refl)
          | inr down ↦ rw (value, down) ((λ e. refused.0 down, λ r. refl), inr refl)
        ]

  -- A blank LISTEN_ADDR makes the server listen on the default address, but if no address is blank,
  -- the command does not look there and always fails with 2.
  pub healthcheck_blank :
      (env : Text → Option Text) (v e : Text) (addr : std.SocketAddr)
      → env (codes "LISTEN_ADDR") ≡ some v
      → is_empty (trim v) ≡ true
      → std.parse_addr v ≡ err e
      → std.parse_addr (codes "0.0.0.0:8080") ≡ ok addr
      → (parse_addr_env std env (codes "LISTEN_ADDR") (codes "0.0.0.0:8080") ≡ ok addr)
        × (healthcheck std net (env (codes "LISTEN_ADDR")) ≡ 2)
  unfolding parse_addr_env healthcheck trim trim_start trim_end_by
  healthcheck_blank env v e addr given blank refused default = (
    rw (given, parse_addr_env) (rw (blank, default) refl),
    rw (given, healthcheck) (rw refused refl),
  )
