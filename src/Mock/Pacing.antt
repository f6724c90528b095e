-- ===== src/Mock/Pacing.antt =====
-- scripts/mock_brave.py against the pool: the server never refuses a request for its rate.
use mathlib.Core.List.{append_assoc}
use brave_search_api_rotator.Base.{
  subst, ℕ, ◌+◌, ◌-◌, ◌≤◌, ◌<◌, Bool, false, List, [], ◌∷◌, ◌++◌, some, leb, if◌then◌else◌, length,
  ◌≡◌, refl, arith, All, Bool-cases, inl, inr, is_empty, ◌||◌, ap, sym, ◌∙◌, ◌⊎◌, ◌≢◌,
}
use brave_search_api_rotator.Text.{Text, codes, equal, equal_iff, starts_with}
use brave_search_api_rotator.Key.Window.Sliding.{IsSorted, count_recent, length-prune_recent}
use brave_search_api_rotator.Key.Window.{prune}
use brave_search_api_rotator.Pool.History.Tracks.{count_recent-append}
use brave_search_api_rotator.Pool.History.Arrivals.{count_within, count_within-append}
use brave_search_api_rotator.Mock.{
  Settings, mock_window, KeyLog, Logs, Reply, rate_limit_exceeded, pop_old, answer_key, handle_any,
  handle_all,
}

-- The times of the requests with one key.
abbrev pub times_of : Text → List (Text × ℕ) → List ℕ
times_of key [] = []
times_of key ((other, t) ∷ rest) =
    if equal other key then t ∷ times_of key rest else times_of key rest

-- The times do not fall.
abbrev pub TimesInOrder : ℕ → List (Text × ℕ) → Type 0
TimesInOrder from [] = Unit
TimesInOrder from ((key, t) ∷ rest) = (from ≤ t) × TimesInOrder t rest

pop_old-prune : (now : ℕ) (q : List ℕ) → pop_old now q ≡ prune now mock_window q
unfolding pop_old prune
pop_old-prune now [] = refl
pop_old-prune now (t ∷ q) = ground (arith, pop_old-prune now q)

abbrev pub AllUpTo : ℕ → List ℕ → Type 0
AllUpTo now = All (λ t. t ≤ now)

pop_old-All : (P : ℕ → Type 0) (now : ℕ) (q : List ℕ) → All P q → All P (pop_old now q)
unfolding pop_old
pop_old-All P now [] h = tt
pop_old-All P now (t ∷ q) h = elim (Bool-cases (leb mock_window (now - t))) [
  | inl over ↦ rw over (pop_old-All P now q h.1)
  | inr recent ↦ rw recent h
]

pop_old-IsSorted : (now : ℕ) (q : List ℕ) → IsSorted q → IsSorted (pop_old now q)
unfolding pop_old
pop_old-IsSorted now [] h = tt
pop_old-IsSorted now (t ∷ q) h = elim (Bool-cases (leb mock_window (now - t))) [
  | inl over ↦ rw over (pop_old-IsSorted now q h.1)
  | inr recent ↦ rw recent h
]

All-append_one : (P : ℕ → Type 0) (q : List ℕ) (t : ℕ) → All P q → P t → All P (q ++ t ∷ [])
All-append_one P [] t h p = (p, tt)
All-append_one P (u ∷ q) t h p = (h.0, All-append_one P q t h.1 p)

AllUpTo-later : (now later : ℕ) (q : List ℕ) → now ≤ later → AllUpTo now q → AllUpTo later q
AllUpTo-later now later [] after h = tt
AllUpTo-later now later (t ∷ q) after h = (omega arith, AllUpTo-later now later q after h.1)

IsSorted-append_one : (q : List ℕ) (now : ℕ) → AllUpTo now q → IsSorted q → IsSorted (q ++ now ∷ [])
IsSorted-append_one [] now up s = (tt, tt)
IsSorted-append_one (t ∷ q) now up s =
    (All-append_one (λ u. t ≤ u) q now s.0 up.0, IsSorted-append_one q now up.1 s.1)

count_recent-pop_old :
    (t window now : ℕ) (q : List ℕ)
    → count_recent t window (pop_old now q) ≤ count_recent t window q
unfolding pop_old count_recent
count_recent-pop_old t window now [] = omega arith
count_recent-pop_old t window now (u ∷ q) = ground (arith, count_recent-pop_old t window now q)

-- What is recent at `now` lies in the window that ends right behind `now`.
count_recent-le-within :
    (now : ℕ) (earlier : List ℕ)
    → AllUpTo now earlier
    → count_recent now mock_window earlier
      ≤ count_within (now + 1 - mock_window) mock_window earlier
unfolding count_recent count_within
count_recent-le-within now [] up = omega arith
count_recent-le-within now (t ∷ earlier) up =
    ground (arith, count_recent-le-within now earlier up.1)

within_self : (now : ℕ) → count_within (now + 1 - mock_window) mock_window (now ∷ []) ≡ 1
unfolding count_within
within_self now = ground arith

-- The entries of a key after the requests at the times `earlier`, the last of them by `now`.
pub record Logged (now : ℕ) (earlier : List ℕ) (log : KeyLog) : Type 0 where
  pub sorted : IsSorted log.sends
  pub up : AllUpTo now log.sends
  pub fewer : (t : ℕ) → count_recent t mock_window log.sends ≤ count_recent t mock_window earlier

module _ (s : Settings) (key : Text) (log : KeyLog) (now : ℕ) where
  answer_sends :
      ((answer_key s key log now).0.sends ≡ log.sends)
      ⊎ (((answer_key s key log now).0.sends ≡ pop_old now log.sends)
          ⊎ ((answer_key s key log now).0.sends ≡ pop_old now log.sends ++ now ∷ []))
  unfolding answer_key
  answer_sends = ground arith

  module _ (last : ℕ) (earlier : List ℕ) (after : last ≤ now)
      (logged : Logged last earlier log) where
    count_more :
        (t : ℕ)
        → count_recent t mock_window (earlier ++ now ∷ [])
          ≡ count_recent t mock_window earlier + count_recent t mock_window (now ∷ [])
    count_more t = count_recent-append t mock_window earlier (now ∷ [])

    answer_key-Logged : Logged now (earlier ++ now ∷ []) (answer_key s key log now).0
    answer_key-Logged = elim answer_sends [
      | inl same ↦ record {
        sorted = rw same logged.sorted;
        up = rw same (AllUpTo-later last now log.sends after logged.up);
        fewer = λ t. rw same (omega (arith, logged.fewer t, count_more t));
      }
      | inr (inl popped) ↦ record {
        sorted = rw popped (pop_old-IsSorted now log.sends logged.sorted);
        up = rw popped kept_up;
        fewer = λ t. rw popped (omega (arith, kept_fewer t, count_more t));
      }
      | inr (inr grown) ↦ record {
        sorted = rw grown (
            IsSorted-append_one (pop_old now log.sends) now kept_up
              (pop_old-IsSorted now log.sends logged.sorted));
        up =
            rw grown
              (All-append_one (λ u. u ≤ now) (pop_old now log.sends) now kept_up (omega arith));
        fewer = λ t. rw grown (
            omega (
              arith,
              kept_fewer t,
              count_more t,
              count_recent-append t mock_window (pop_old now log.sends) (now ∷ []),
            ));
      }
    ]
      where
        kept_up : AllUpTo now (pop_old now log.sends)
        kept_up =
            pop_old-All (λ u. u ≤ now) now log.sends
              (AllUpTo-later last now log.sends after logged.up)

        kept_fewer :
            (t : ℕ)
            → count_recent t mock_window (pop_old now log.sends)
              ≤ count_recent t mock_window earlier
        kept_fewer t =
            omega (arith, count_recent-pop_old t mock_window now log.sends, logged.fewer t)

    -- With room for this request in every window, it is not refused for its rate.
    answer_paced :
        AllUpTo now earlier
        → count_within (now + 1 - mock_window) mock_window (earlier ++ now ∷ []) ≤ s.rps
        → (answer_key s key log now).1 ≢ rate_limit_exceeded
    unfolding answer_key
    answer_paced up room =
        let kept : length (pop_old now log.sends) ≡ count_recent now mock_window log.sends =
          ap length (pop_old-prune now log.sends)
          ∙ length-prune_recent now mock_window log.sends (omega arith) logged.sorted in
        let free : length (pop_old now log.sends) < s.rps = omega (
          arith,
          kept,
          logged.fewer now,
          count_recent-le-within now earlier up,
          count_within-append (now + 1 - mock_window) mock_window earlier (now ∷ []),
          within_self now,
        ) in
        λ refused. ground arith

module _ (s : Settings) (key : Text) where
  is_bad : Bool
  is_bad = is_empty key || starts_with key (codes "bad")

  Logged-more :
      (last now : ℕ) (earlier : List ℕ) (log : KeyLog)
      → last ≤ now
      → Logged last earlier log
      → Logged now (earlier ++ now ∷ []) log
  Logged-more last now earlier log after logged = record {
    sorted = logged.sorted;
    up = AllUpTo-later last now log.sends after logged.up;
    fewer =
        λ t. omega (arith, logged.fewer t, count_recent-append t mock_window earlier (now ∷ []));
  }

  Logged-later :
      (last now : ℕ) (earlier : List ℕ) (log : KeyLog)
      → last ≤ now
      → Logged last earlier log
      → Logged now earlier log
  Logged-later last now earlier log after logged = record {
    sorted = logged.sorted;
    up = AllUpTo-later last now log.sends after logged.up;
    fewer = logged.fewer;
  }

  module _ (logs : Logs) (last now : ℕ) (earlier : List ℕ) (after : last ≤ now)
      (logged : Logged last earlier (logs key)) where
    own-Logged : Logged now (earlier ++ now ∷ []) ((handle_any s logs (some key) now).0 key)
    unfolding handle_any is_bad
    own-Logged = elim (Bool-cases is_bad) [
      | inl bad ↦ rw bad (Logged-more last now earlier (logs key) after logged)
      | inr good ↦
          rw (good, (equal_iff key key).1 refl)
            (answer_key-Logged s key (logs key) now last earlier after logged)
    ]

    own_paced :
        AllUpTo now earlier
        → count_within (now + 1 - mock_window) mock_window (earlier ++ now ∷ []) ≤ s.rps
        → (handle_any s logs (some key) now).1 ≢ rate_limit_exceeded
    unfolding handle_any is_bad
    own_paced up room = elim (Bool-cases is_bad) [
      | inl bad ↦ rw bad (λ e. cc)
      | inr good ↦ rw good (answer_paced s key (logs key) now last earlier after logged up room)
    ]

  other_kept :
      (logs : Logs) (other : Text) (now : ℕ)
      → equal other key ≡ false
      → (handle_any s logs (some other) now).0 key ≡ logs key
  unfolding handle_any
  other_kept logs other now differ =
      elim (Bool-cases (is_empty other || starts_with other (codes "bad"))) [
        | inl bad ↦ rw bad refl
        | inr good ↦ rw (good, differ) refl
      ]

  -- No request with the key is refused for its rate.
  abbrev pub Paced : List (Text × Reply) → Type 0
  Paced [] = Unit
  Paced ((other, reply) ∷ rest) = (other ≡ key → reply ≢ rate_limit_exceeded) × Paced rest

  pub handle_all-Paced :
      (logs : Logs) (last : ℕ) (earlier : List ℕ) (rs : List (Text × ℕ))
      → TimesInOrder last rs
      → AllUpTo last earlier
      → Logged last earlier (logs key)
      → ((from : ℕ) → count_within from mock_window (earlier ++ times_of key rs) ≤ s.rps)
      → Paced (handle_all s logs rs)
  unfolding handle_all
  handle_all-Paced logs last earlier [] order up logged room = tt
  handle_all-Paced logs last earlier ((other, now) ∷ rs) order up logged room =
      let later = AllUpTo-later last now earlier order.0 up in
      elim (Bool-cases (equal other key)) [
        | inr differ ↦ (
          (λ e. ground (arith, equal_iff other key)),
          handle_all-Paced (handle_any s logs (some other) now).0 now earlier rs order.1 later
              (subst (λ (log : KeyLog). Logged now earlier log)
                (sym (other_kept logs other now differ))
                (Logged-later last now earlier (logs key) order.0 logged))
              (λ from. rw differ at (room from)),
        )
        | inl hit ↦
            let split : earlier ++ (now ∷ times_of key rs)
                ≡ (earlier ++ now ∷ []) ++ times_of key rs =
              sym (append_assoc earlier (now ∷ []) (times_of key rs)) in
            let room' : (from : ℕ)
                → count_within from mock_window ((earlier ++ now ∷ []) ++ times_of key rs) ≤ s.rps =
              λ from. rw split at (rw hit at (room from)) in
            let fits : count_within (now + 1 - mock_window) mock_window (earlier ++ now ∷ [])
                ≤ s.rps =
              omega (
                arith,
                room' (now + 1 - mock_window),
                count_within-append (now + 1 - mock_window) mock_window (earlier ++ now ∷ [])
                    (times_of key rs),
              ) in
            subst (λ (o : Text). Paced (handle_all s logs ((o, now) ∷ rs)))
              (sym ((equal_iff other key).0 hit))
              (
                (λ _. own_paced logs last now earlier order.0 logged later fits),
                handle_all-Paced (handle_any s logs (some key) now).0 now (earlier ++ now ∷ []) rs
                    order.1 (All-append_one (λ u. u ≤ now) earlier now later (omega arith))
                    (own-Logged logs last now earlier order.0 logged) room',
              )
      ]
