-- ===== src/Proxy/Printed.antt =====
-- src/proxy.rs: the texts that the proxy puts under header names are header values.
use brave_search_api_rotator.Base.{
  ℕ, [], ◌∷◌, ◌++◌, Option, none, some, unwrap_or, option_map, ltb, All, inl, inr, Bool-cases,
  arith,
}
use brave_search_api_rotator.Text.{Text, codes}
use brave_search_api_rotator.Text.Numbers.{is_digit, to_string}
use brave_search_api_rotator.Text.Numbers.Roundtrip.{to_string-Digits}
use brave_search_api_rotator.Text.Pieces.{Digits}
use brave_search_api_rotator.Http.{Visible}
use brave_search_api_rotator.Pool.Snapshot.{PoolSnapshot}
use brave_search_api_rotator.Proxy.{month_text, limit_text, remaining_text}

pub Visible-of_Digits : (s : Text) → Digits s → All Visible s
unfolding is_digit
Visible-of_Digits [] digits = tt
Visible-of_Digits (c ∷ s) (digit, digits) = (ground arith, Visible-of_Digits s digits)

Visible-append : (s t : Text) → All Visible s → All Visible t → All Visible (s ++ t)
Visible-append [] t first rest = rest
Visible-append (c ∷ s) t (here, first) rest = (here, Visible-append s t first rest)

to_string-Visible : (n : ℕ) → All Visible (to_string n)
to_string-Visible n = Visible-of_Digits (to_string n) (to_string-Digits n)

month_text-Visible : (snap : PoolSnapshot) (v : Option ℕ) → All Visible (month_text snap v)
unfolding month_text
month_text-Visible snap v = elim (Bool-cases (ltb 0 snap.month_unlimited_keys)) [
  | inl unlimited ↦ rw unlimited (omega arith)
  | inr limited ↦ rw limited (by_value v)
]
  where
    by_value : (v : Option ℕ) → All Visible (unwrap_or (option_map v to_string) (codes "?"))
    by_value none = omega arith
    by_value (some n) = to_string-Visible n

two_texts : (a : ℕ) (t : Text) → All Visible t → All Visible (to_string a ++ (codes ", " ++ t))
two_texts a t visible =
    Visible-append (to_string a) (codes ", " ++ t) (to_string-Visible a)
      (omega arith, (omega arith, visible))

pub limit_text-Visible : (snap : PoolSnapshot) → All Visible (limit_text snap)
unfolding limit_text
limit_text-Visible snap = two_texts snap.rps_capacity _ (month_text-Visible snap _)

pub remaining_text-Visible : (snap : PoolSnapshot) → All Visible (remaining_text snap)
unfolding remaining_text
remaining_text-Visible snap = two_texts snap.slots_available_now _ (month_text-Visible snap _)
