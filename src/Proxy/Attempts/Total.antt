-- ===== src/Proxy/Attempts/Total.antt =====
-- src/proxy.rs, `proxy`: the loop ends, and what each way of leaving it means.
use brave_search_api_rotator.Base.{
  ℕ, zero, suc, ◌+◌, ◌-◌, ◌≤◌, ◌<◌, ◌⊎◌, ◌↔◌, ◌≡◌, refl, ◌∙◌, inl, inr, arith, Bool, true, false,
  ◌||◌, List, [], ◌∷◌, ◌++◌, ap, Option, none, some, Result, ok, err, ltb, get_elem?, length,
  length-append, is_some, Bool-cases, ltb→lt, not-ltb→le, get_elem?-lt,
}
use brave_search_api_rotator.Text.{Text}
use brave_search_api_rotator.Http.{Http}
use brave_search_api_rotator.RateLimit.{RateLimitInfo}
use brave_search_api_rotator.Key.{KeyState}
use brave_search_api_rotator.Pool.{Pool, Lease, Verdict, response, AcquireError}
use brave_search_api_rotator.Pool.Acquire.Waiting.{
  SleepsLongEnough, Ended, leased, too_late, no_usable_key, acquire_loop_total,
}
use brave_search_api_rotator.Pool.Record.{record_outcome}
use brave_search_api_rotator.Pool.Record.Effects.{IsRetried, digest_verdict}
use brave_search_api_rotator.Upstream.{UpstreamResponse, UpstreamError}
use brave_search_api_rotator.Proxy.Attempts.Course.{
  HasFailed, Acquires, sent, Course, all_made, no_key, passed_on, retried, unreached,
}
use brave_search_api_rotator.Proxy.Attempts.{
  Schedule, Progress, Leaving, returned, used_up, judge, digest_reply, use_lease, on_acquired,
  attempt, attempts_loop,
}

record_outcome_retries :
    (p : Pool) (now idx status : ℕ) (rl : Option RateLimitInfo) (body : Option Text) (k : KeyState)
    → get_elem? p.keys idx ≡ some k
    → ((record_outcome p now idx (response status rl body)).1 ≡ Verdict.retry_other_key)
      ↔ IsRetried status
unfolding record_outcome
record_outcome_retries p now idx status rl body k there =
    rw (there, record_outcome) ((digest_verdict k now status rl body []).1)

or_true : (b : Bool) → (b || true) ≡ true
or_true true = refl
or_true false = refl

get_elem?-some :
    (ks : List KeyState) (i : ℕ) → i < length ks → (k : KeyState) × (get_elem? ks i ≡ some k)
get_elem?-some [] i h = absurd (omega arith)
get_elem?-some (k ∷ ks) zero h = (k, refl)
get_elem?-some (k ∷ ks) (suc i) h = get_elem?-some ks i (omega arith)

abbrev ok_or : Result Lease AcquireError → Lease → Lease
ok_or (ok lease) default = lease
ok_or (err e) default = default

module _ (http : Http) where
  -- The response that is kept for later is one that another key might do better on.
  abbrev pub KeptRetried : Option (UpstreamResponse http × Text) → Type 0
  KeptRetried none = Unit
  KeptRetried (some (resp, label)) = IsRetried resp.status

  -- One key is noted per attempt, and each attempt so far failed in a way that calls for another.
  pub record Attempted (most : ℕ) (g : Progress http) : Type 0 where
    pub bound : g.attempts ≤ most
    pub one_key_each : length g.tried ≡ g.attempts
    pub kept : KeptRetried g.last_response
    pub failed : (g.attempts ≡ 0) ⊎ HasFailed http g

  -- The world as far as the loop relies on it: no task sleeps too short, and none removes a key.
  pub record Orderly (world : Schedule http) : Type 0 where
    pub sleeps : (n : ℕ) → SleepsLongEnough (world.waiting n)
    pub keeps_keys : (n : ℕ) (p : Pool) → length (world.during n p).keys ≡ length p.keys

  module _ (fmt_instant : ℕ → Text) (decode : List ℕ → Text) (world : Schedule http)
      (deadline most : ℕ) (method path_and_query : Text) (headers : http.HeaderMap)
      (body : List ℕ) where
    abbrev FollowsFrom : Progress http → Leaving http → Progress http → Type 0
    FollowsFrom last leaving g =
        Course http fmt_instant decode world deadline most method path_and_query headers body last
          leaving g

    -- What one attempt contributes to the description.
    abbrev Step : Progress http → Progress http × Option (Leaving http) → Type 0
    Step g₀ (g, none) =
        Attempted most g
        × (g.attempts ≡ g₀.attempts + 1)
        × ((last : Progress http) (leaving : Leaving http)
            → FollowsFrom last leaving g
            → FollowsFrom last leaving g₀)
    Step g₀ (g, some leaving) =
        (g.attempts ≤ most)
        × (length g.tried ≡ g.attempts)
        × KeptRetried g.last_response
        × FollowsFrom g leaving g₀

    judge-Step :
        (g₀ g : Progress http) (resp : UpstreamResponse http) (label : Text) (p : Pool)
        (v : Verdict)
        → g.attempts ≤ most
        → length g.tried ≡ g.attempts
        → KeptRetried g.last_response
        → g.attempts ≡ g₀.attempts + 1
        → (v ≡ Verdict.retry_other_key) ↔ IsRetried resp.status
        → (¬ IsRetried resp.status → FollowsFrom (record g { pool = p }) (returned resp label) g₀)
        → (IsRetried resp.status
            → (last : Progress http) (leaving : Leaving http)
            → FollowsFrom last leaving (record g { pool = p; last_response = some (resp, label) })
            → FollowsFrom last leaving g₀)
        → Step g₀ (judge http fmt_instant decode world g resp label (p, v))
    judge-Step g₀ g resp label p Verdict.ok bound each kept more another final again =
        (bound, each, kept, final (λ h. cc (another.1 h)))
    judge-Step g₀ g resp label p Verdict.return_to_client bound each kept more another final again =
        (bound, each, kept, final (λ h. cc (another.1 h)))
    judge-Step g₀ g resp label p Verdict.retry_other_key bound each kept more another final again =
        (
          record { bound = bound; one_key_each = each; kept = another.0 refl; failed = inr refl },
          more,
          again (another.0 refl),
        )

    module _ (orderly : Orderly world) where
      use_lease-Step :
          (g : Progress http) (q : Pool) (lease : Lease)
          (r : Result (UpstreamResponse http) UpstreamError) (k : KeyState)
          → get_elem? (world.during g.attempts q).keys lease.idx ≡ some k
          → Attempted most g
          → g.attempts < most
          → Acquires http fmt_instant decode world deadline most method path_and_query headers body
              g q
              (ok lease)
          → sent http fmt_instant decode world deadline most method path_and_query headers body g
              lease
            ≡ r
          → Step g (
              use_lease http fmt_instant decode world deadline method path_and_query headers body g
                q lease)
      unfolding use_lease digest_reply
      use_lease-Step g q lease (ok resp) k there so_far more acquires answer = rw answer (
          judge-Step g
            (record g { pool = q; attempts = g.attempts + 1; tried = g.tried ++ lease.idx ∷ [] })
            resp lease.label _ _ (omega arith)
            (length-append g.tried (lease.idx ∷ []) ∙ omega (arith, so_far.one_key_each))
            so_far.kept refl (record_outcome_retries _ _ _ _ _ _ k there)
            (λ final. passed_on g q lease resp more acquires answer final refl refl)
            (λ again last leaving. retried g q lease resp more acquires answer again))
      use_lease-Step g q lease (err e) k there so_far more acquires answer = rw answer (
        record {
          bound = omega arith;
          one_key_each =
              length-append g.tried (lease.idx ∷ []) ∙ omega (arith, so_far.one_key_each);
          kept = so_far.kept;
          failed = inr (or_true (is_some g.last_response));
        },
        refl,
        λ last leaving. unreached g q lease e more acquires answer,
      )

      -- A key that was leased is still there.
      leased_there :
          (g : Progress http) (q : Pool) (lease : Lease)
          → Acquires http fmt_instant decode world deadline most method path_and_query headers body
              g q
              (ok lease)
          → (k : KeyState) × (get_elem? (world.during g.attempts q).keys lease.idx ≡ some k)
      leased_there g q lease (p, m, waited, last, ended) = by_end ended
        where
          by_end :
              Ended fmt_instant (world.waiting g.attempts) g.tried deadline p m q (ok lease)
              → (k : KeyState) × (get_elem? (world.during g.attempts q).keys lease.idx ≡ some k)
          by_end (leased l e there first) =
              let same : lease ≡ l = ap (λ (z : Result Lease AcquireError). ok_or z lease) e in
              let inside = get_elem?-lt q.keys l.idx _ there.noted in
              rw same (
                get_elem?-some (world.during g.attempts q).keys l.idx
                  (omega (arith, orderly.keeps_keys g.attempts q, inside)))
          by_end (too_late at e wait ahead late) = absurd (cc)
          by_end (no_usable_key earliest summary e refuses) = absurd (cc)

      acquired-Step :
          (g : Progress http) (q : Pool) (r : Result Lease AcquireError)
          → Attempted most g
          → g.attempts < most
          → Acquires http fmt_instant decode world deadline most method path_and_query headers body
              g q r
          → Step g (
              on_acquired http fmt_instant decode world deadline method path_and_query headers body
                g
                (q, r))
      acquired-Step g q (err e) so_far more acquires =
          (so_far.bound, so_far.one_key_each, so_far.kept, no_key g q e more acquires refl refl)
      acquired-Step g q (ok lease) so_far more acquires =
          let (k, key) = leased_there g q lease acquires in
          use_lease-Step g q lease _ k key so_far more acquires refl

      attempt-Step :
          (g : Progress http)
          → Attempted most g
          → g.attempts < most
          → (o : Progress http × Option (Leaving http)) × (attempt http fmt_instant decode world
                deadline method path_and_query headers body g
              ≡ some o)
            × Step g o
      unfolding attempt
      attempt-Step g so_far more =
          let (p', r, done, ends) =
            acquire_loop_total fmt_instant (world.waiting g.attempts) g.tried deadline
              (suc (deadline + 1 - world.starts g.attempts)) 0 (world.starts g.attempts)
              (world.before g.attempts g.pool) (orderly.sleeps g.attempts) (omega arith) in
          (_, rw done refl, acquired-Step g p' r so_far more ends)

      -- The loop ends within the fuel, as described, after at most `most` attempts, each on a key
      -- that it noted.
      abbrev pub Finished : ℕ → Progress http → Type 0
      Finished fuel g =
          (g' : Progress http) × (leaving : Leaving http) × (attempts_loop http fmt_instant decode
              world deadline method path_and_query headers body fuel most g
            ≡ some (g', leaving))
          × (g'.attempts ≤ most)
          × (length g'.tried ≡ g'.attempts)
          × KeptRetried g'.last_response
          × FollowsFrom g' leaving g

      follow :
          (fuel : ℕ) (g : Progress http) (o : Progress http × Option (Leaving http))
          → ltb g.attempts most ≡ true
          → attempt http fmt_instant decode world deadline method path_and_query headers body g
            ≡ some o
          → Step g o
          → ((g' : Progress http)
              → Attempted most g'
              → g'.attempts ≡ g.attempts + 1
              → Finished fuel g')
          → Finished (suc fuel) g
      unfolding attempts_loop
      follow fuel g (g', some leaving) more done step again =
          let (bound, each, kept, left) = step in
          (g', leaving, rw (more, done) refl, bound, each, kept, left)
      follow fuel g (g', none) more done (so_far, one_more, course) again =
          let (g'', leaving, ends, bound, each, kept, left) = again g' so_far one_more in
          (g'', leaving, rw (more, done) ends, bound, each, kept, course g'' leaving left)

      pub attempts_loop_total :
          (fuel : ℕ) (g : Progress http)
          → 0 < most
          → Attempted most g
          → most - g.attempts < fuel
          → Finished fuel g
      unfolding attempts_loop
      attempts_loop_total zero g some_allowed so_far enough = absurd (omega arith)
      attempts_loop_total (suc fuel) g some_allowed so_far enough =
          elim (Bool-cases (ltb g.attempts most)) [
            | inl more ↦
                let (o, done, step) = attempt-Step g so_far (ltb→lt _ _ more) in
                follow fuel g o more done step λ g' so_far' one_more.
                  attempts_loop_total fuel g' some_allowed so_far' (omega (arith, ltb→lt _ _ more))
            | inr no_more ↦
                let failed : HasFailed http g = elim so_far.failed [
                  | inl none_made ↦ absurd (omega (arith, not-ltb→le _ _ no_more))
                  | inr failed ↦ failed
                ] in
                (
                  g,
                  used_up,
                  rw no_more refl,
                  so_far.bound,
                  so_far.one_key_each,
                  so_far.kept,
                  all_made g (omega (arith, so_far.bound, not-ltb→le _ _ no_more)) failed refl refl,
                )
          ]
