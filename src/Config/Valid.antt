-- ===== src/Config/Valid.antt =====
-- src/config.rs, `from_env`: what holds of every configuration that it returns.
use brave_search_api_rotator.Base.{
  ℕ, ◌≤◌, ◌<◌, ◌≡◌, refl, arith, inl, inr, Bool, true, false, [], ◌∷◌, Option, none, some, Result,
  ok, err, >>=-Ensures, Ensures, ◌==◌, from_secs, u32_max, u64_max, length, is_empty, All,
  Bool-cases,
}
use brave_search_api_rotator.Text.{Text, codes, trim, trim_end_by}
use brave_search_api_rotator.Text.Numbers.{parse_unsigned, parse_digits, push_digit}
use brave_search_api_rotator.Config.{env_or, read_keys, read_proxy_token}
use brave_search_api_rotator.Config.Keys.{Distinct, read_keys-Distinct}
use brave_search_api_rotator.Config.Load.{
  Parsers, Config, parse_env, parse_addr_env, parse_bool, read_base, from_env,
}

parse_digits-le :
    (limit acc : ℕ) (s : Text) (n : ℕ) → acc ≤ limit → parse_digits limit acc s ≡ some n → n ≤ limit
unfolding parse_digits push_digit
parse_digits-le limit acc [] n small e = ground arith
parse_digits-le limit acc (c ∷ s) n small e =
    by_digit (push_digit limit acc c) refl (λ a. parse_digits-le limit a s n)
  where
    by_digit :
        (o : Option ℕ)
        → push_digit limit acc c ≡ o
        → ((a : ℕ) → a ≤ limit → parse_digits limit a s ≡ some n → n ≤ limit)
        → n ≤ limit
    by_digit none f rest = absurd (ground arith)
    by_digit (some a) f rest = rest a (ground arith) (ground arith)

parse_unsigned-le : (limit : ℕ) (s : Text) (n : ℕ) → parse_unsigned limit s ≡ some n → n ≤ limit
unfolding parse_unsigned
parse_unsigned-le limit [] n e = cc
parse_unsigned-le limit (c ∷ []) n e = parse_digits-le limit 0 (c ∷ []) n (omega arith) e
parse_unsigned-le limit (c ∷ d ∷ s) n e = elim (Bool-cases (c == b'+')) [
  | inl plus ↦ parse_digits-le limit 0 (d ∷ s) n (omega arith) (rw plus at e)
  | inr digit ↦ parse_digits-le limit 0 (c ∷ d ∷ s) n (omega arith) (rw digit at e)
]

-- A text that does not end with a slash.
abbrev pub NoSlashAtEnd : Text → Type 0
NoSlashAtEnd [] = Unit
NoSlashAtEnd (c ∷ []) = (c == b'/') ≡ false
NoSlashAtEnd (c ∷ d ∷ s) = NoSlashAtEnd (d ∷ s)

trim_end_by-NoSlashAtEnd : (s : Text) → NoSlashAtEnd (trim_end_by (λ c. c == b'/') s)
unfolding trim_end_by
trim_end_by-NoSlashAtEnd [] = tt
trim_end_by-NoSlashAtEnd (c ∷ s) =
    by_rest (trim_end_by (λ c. c == b'/') s) refl (trim_end_by-NoSlashAtEnd s)
  where
    by_rest :
        (r : Text)
        → trim_end_by (λ c. c == b'/') s ≡ r
        → NoSlashAtEnd r
        → NoSlashAtEnd (trim_end_by (λ c. c == b'/') (c ∷ s))
    by_rest [] e rest = elim (Bool-cases (c == b'/')) [
      | inl slash ↦ rw (e, trim_end_by) (rw slash tt)
      | inr other ↦ rw (e, trim_end_by) (rw other other)
    ]
    by_rest (d ∷ r) e rest = rw (e, trim_end_by) rest

abbrev pub FilledToken : Option Text → Type 0
FilledToken none = Unit
FilledToken (some t) = is_empty t ≡ false

read_proxy_token-FilledToken : (v : Option Text) → FilledToken (read_proxy_token v)
unfolding read_proxy_token
read_proxy_token-FilledToken none = tt
read_proxy_token-FilledToken (some s) = elim (Bool-cases (is_empty (trim s))) [
  | inl blank ↦ rw blank tt
  | inr filled ↦ rw filled filled
]

module _ (std : Parsers) (env : Text → Option Text) where
  -- The keys are there and differ, no rate, interval or number of threads is zero, the rate fits 32
  -- bits, the password is not empty, and paths can be put behind the URL.
  pub record IsValid (c : Config std) : Type 0 where
    pub some_key : 0 < length c.keys
    pub distinct : Distinct c.keys
    pub filled : All (λ k. is_empty k ≡ false) c.keys
    pub rate_from : 1 ≤ c.default_rps_per_key
    pub rate_to : c.default_rps_per_key ≤ u32_max
    pub reports : from_secs 1 ≤ c.report_interval
    pub threads : 1 ≤ c.worker_threads
    pub token : FilledToken c.proxy_token
    pub base : NoSlashAtEnd c.upstream_base

  parse_env-le :
      (limit : ℕ) (name default : Text) (n : ℕ)
      → parse_env std env limit name default ≡ ok n
      → n ≤ limit
  unfolding parse_env
  parse_env-le limit name default n e =
      by_parsed (parse_unsigned limit (trim (env_or (env name) default))) refl
    where
      by_parsed :
          (o : Option ℕ) → parse_unsigned limit (trim (env_or (env name) default)) ≡ o → n ≤ limit
      by_parsed none f = absurd (ground arith)
      by_parsed (some m) f =
          parse_unsigned-le limit (trim (env_or (env name) default)) n (ground arith)

  read_base-NoSlashAtEnd : Ensures NoSlashAtEnd (read_base std env)
  unfolding read_base
  read_base-NoSlashAtEnd = by_uri (std.parse_uri base) refl
    where
      base : Text
      base =
          trim_end_by (λ c. c == b'/')
            (env_or (env (codes "BRAVE_BASE_URL")) (codes "https://api.search.brave.com"))

      by_uri :
          (r : Result (Bool × Bool) Text)
          → std.parse_uri base ≡ r
          → Ensures NoSlashAtEnd (read_base std env)
      by_uri (err e) f = rw (f, read_base) tt
      by_uri (ok (true, true)) f = rw (f, read_base) (trim_end_by-NoSlashAtEnd _)
      by_uri (ok (true, false)) f = rw (f, read_base) tt
      by_uri (ok (false, authority)) f = rw (f, read_base) tt

  from_env-Ensures : Ensures IsValid (from_env std env)
  unfolding from_env
  from_env-Ensures =
      >>=-Ensures IsValid (read_keys (env (codes "BRAVE_API_KEYS")) (env (codes "BRAVE_KEYS"))) _
        λ collected keys.
          >>=-Ensures IsValid (parse_addr_env std env (codes "LISTEN_ADDR") (codes "0.0.0.0:8080"))
            _
            λ listen _. >>=-Ensures IsValid (read_base std env) _ λ base based.
              >>=-Ensures IsValid
                (parse_env std env u64_max (codes "UPSTREAM_TIMEOUT_MS") (codes "15000")) _
                λ timeout _.
                  >>=-Ensures IsValid
                    (parse_env std env u64_max (codes "MAX_QUEUE_WAIT_MS") (codes "5000")) _
                    λ queue _.
                      >>=-Ensures IsValid
                        (parse_env std env u64_max (codes "REPORT_INTERVAL_SECS") (codes "60")) _
                        λ interval _.
                          >>=-Ensures IsValid
                            (parse_env std env u64_max (codes "WINDOW_MARGIN_MS") (codes "100")) _
                            λ margin _.
                              >>=-Ensures IsValid
                                (parse_env std env u32_max (codes "DEFAULT_RPS_PER_KEY")
                                  (codes "1"))
                                _
                                λ rps fits.
                                  >>=-Ensures IsValid
                                    (parse_env std env u64_max (codes "MAX_BODY_BYTES")
                                      (codes "4194304"))
                                    _
                                    λ body _.
                                      >>=-Ensures IsValid
                                        (parse_env std env u64_max (codes "WORKER_THREADS")
                                          (codes "2"))
                                        _
                                        λ threads _.
                                          >>=-Ensures IsValid
                                            (parse_bool std env (codes "ACCESS_LOG") true) _
                                            λ log _.
                                              let (some_key, distinct, filled, _, _) =
                                                read_keys-Distinct _ _ collected keys in
                                              record {
                                                some_key = some_key;
                                                distinct = distinct;
                                                filled = filled;
                                                rate_from = omega arith;
                                                rate_to =
                                                    omega
                                                      (arith, parse_env-le u32_max _ _ rps fits);
                                                reports = omega arith;
                                                threads = omega arith;
                                                token =
                                                    read_proxy_token-FilledToken
                                                      (env (codes "PROXY_TOKEN"));
                                                base = rw based at read_base-NoSlashAtEnd;
                                              }

  -- Every configuration that is read is valid.
  pub from_env-IsValid : (c : Config std) → from_env std env ≡ ok c → IsValid c
  from_env-IsValid c read = rw read at from_env-Ensures
