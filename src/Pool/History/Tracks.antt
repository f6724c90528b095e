-- ===== src/Pool/History/Tracks.antt =====
-- How the deque of a key tracks the sends granted with it: what it has forgotten is over.
use mathlib.Core.List.{append_assoc}
use brave_search_api_rotator.Base.{
  ℕ, ◌+◌, ◌≤◌, ◌<◌, max, List, [], ◌∷◌, ◌++◌, ◌≡◌, refl, sym, ◌∙◌, ap, arith, length, length-append,
  u32_max, inl, inr,
}
use brave_search_api_rotator.Key.{KeyState}
use brave_search_api_rotator.Key.Window.{refresh, availability, prune}
use brave_search_api_rotator.Key.Window.Prune.{
  AllOver, AllOver-append, AllOver-later, dropped, dropped-append-prune, dropped-AllOver,
  length-prune,
}
use brave_search_api_rotator.Key.Window.Availability.{availability_keeps}
use brave_search_api_rotator.Key.Window.Sliding.{count_recent}
use brave_search_api_rotator.Pool.{Outcome}
use brave_search_api_rotator.Pool.Select.{mark_sent}
use brave_search_api_rotator.Pool.Record.{digest}
use brave_search_api_rotator.Pool.Record.Effects.{digest_keeps}

-- The key's deque is the end of `sent`, and the sends before it are over at `now`.
pub record Tracks (now window : ℕ) (sent : List ℕ) (k : KeyState) : Type 0 where
  pub past : List ℕ
  pub splits : past ++ k.sends ≡ sent
  pub over : AllOver now window past
  pub fits : length k.sends ≤ u32_max
  pub limit : k.sec_limit ≤ u32_max

module _ (now window : ℕ) (sent : List ℕ) where
  pub Tracks-later :
      (k : KeyState) (later : ℕ)
      → now ≤ later
      → Tracks now window sent k
      → Tracks later window sent k
  Tracks-later k later h t = record {
    past = t.past;
    splits = t.splits;
    over = AllOver-later now later window t.past h t.over;
    fits = t.fits;
    limit = t.limit;
  }

  -- The parts that `Tracks` reads are the same.
  pub Tracks-same :
      (k k' : KeyState)
      → k'.sends ≡ k.sends
      → k'.sec_limit ≤ u32_max
      → Tracks now window sent k
      → Tracks now window sent k'
  Tracks-same k k' same limit t = record {
    past = t.past;
    splits = rw same t.splits;
    over = t.over;
    fits = rw same t.fits;
    limit = limit;
  }

  pub refresh-sends :
      (k : KeyState) → ((refresh k now).sends ≡ k.sends) × ((refresh k now).sec_limit ≡ k.sec_limit)
  unfolding refresh
  refresh-sends k = ground arith

  pub refresh-Tracks :
      (k : KeyState) → Tracks now window sent k → Tracks now window sent (refresh k now)
  refresh-Tracks k t =
      let (sends, limit) = refresh-sends k in
      Tracks-same k (refresh k now) sends (omega (arith, limit, t.limit)) t

  pub availability-Tracks :
      (k : KeyState)
      → 0 < window
      → Tracks now window sent k
      → Tracks now window sent (availability k now window).0
  availability-Tracks k w t =
      let kept = availability_keeps k now window in
      let limit : (availability k now window).0.sec_limit ≤ u32_max =
        omega (arith, kept.2, t.limit) in
      elim kept.5 [
        | inl same ↦ Tracks-same k _ same limit t
        | inr pruned ↦ record {
          past = t.past ++ dropped now window k.sends;
          splits = rw pruned (
              append_assoc t.past (dropped now window k.sends) (prune now window k.sends)
              ∙ rw (dropped-append-prune now window k.sends) t.splits);
          over =
              AllOver-append now window t.past (dropped now window k.sends) t.over
                (dropped-AllOver now window k.sends w);
          fits = rw pruned (omega (arith, length-prune now window k.sends, t.fits));
          limit = limit;
        }
      ]

  pub digest-Tracks :
      (k : KeyState) (at : ℕ) (outcome : Outcome)
      → Tracks now window sent k
      → Tracks now window sent (digest k at outcome).0
  digest-Tracks k at outcome t =
      let (same, limit) = digest_keeps k at outcome t.limit in Tracks-same k _ same.0 limit t

  pub mark_sent-Tracks :
      (k : KeyState) (at : ℕ)
      → length k.sends < max k.sec_limit 1
      → Tracks now window sent k
      → Tracks now window (sent ++ at ∷ []) (mark_sent k at)
  unfolding mark_sent
  mark_sent-Tracks k at room t = record {
    past = t.past;
    splits = sym (append_assoc t.past k.sends (at ∷ [])) ∙ ap (λ xs. xs ++ at ∷ []) t.splits;
    over = t.over;
    fits = omega (arith, length-append k.sends (at ∷ []), t.limit);
    limit = t.limit;
  }

pub count_recent-append :
    (now window : ℕ) (xs ys : List ℕ)
    → count_recent now window (xs ++ ys) ≡ count_recent now window xs + count_recent now window ys
unfolding count_recent
count_recent-append now window [] ys = omega arith
count_recent-append now window (x ∷ xs) ys = omega (arith, count_recent-append now window xs ys)

count_recent_over :
    (now window : ℕ) (xs : List ℕ) → AllOver now window xs → count_recent now window xs ≡ 0
unfolding count_recent
count_recent_over now window [] h = refl
count_recent_over now window (x ∷ xs) h = ground (arith, count_recent_over now window xs h.1)

count_recent-le : (now window : ℕ) (xs : List ℕ) → count_recent now window xs ≤ length xs
unfolding count_recent
count_recent-le now window [] = omega arith
count_recent-le now window (x ∷ xs) = ground (arith, count_recent-le now window xs)

-- The recent ones among all sends are at most those of the deque.
pub Tracks-recent :
    (now window : ℕ) (sent : List ℕ) (k : KeyState)
    → Tracks now window sent k
    → count_recent now window sent ≤ length k.sends
Tracks-recent now window sent k t = rw (← t.splits) (
    omega (
      arith,
      count_recent-append now window t.past k.sends,
      count_recent_over now window t.past t.over,
      count_recent-le now window k.sends,
    ))
