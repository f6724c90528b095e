-- ===== src/Config.antt =====
-- src/config.rs, `from_env`: the keys, the password and the monthly limits. The environment's
-- variables are parameters.
pub mod Keys
pub mod Load
pub mod Valid
use brave_search_api_rotator.Base.{
  ℕ, ◌+◌, ◌-◌, Bool, true, false, ◌&&◌, ◌||◌, List, [], ◌∷◌, ◌++◌, Option, none, some, map, Result,
  ok, err, leb, ◌==◌, if◌then◌else◌, unwrap_or, option_map, is_empty,
}
use brave_search_api_rotator.Text.{Text, codes, equal, split, trim, is_whitespace}
use brave_search_api_rotator.Text.Numbers.{parse_u64}
use brave_search_api_rotator.Proxy.{one_of}

-- `std::env::var(n).ok().filter(|v| !v.trim().is_empty())`.
abbrev pub filled : Option Text → Option Text
filled none = none
filled (some v) = if is_empty (trim v) then none else some v

-- The first variable that is set and not blank.
unfoldable pub first_env : List (Option Text) → Option Text
first_env [] = none
first_env (v ∷ vs) = elim (filled v) [ none ↦ first_env vs | some s ↦ some s ]

abbrev pub env_or : Option Text → Text → Text
env_or v default = unwrap_or (filled v) default

unfoldable pub is_key_separator : ℕ → Bool
unfolding is_whitespace
is_key_separator c = c == b',' || c == b';' || is_whitespace c

pub record Collected : Type 0 where
  pub keys : List Text
  pub duplicate_keys : ℕ

-- One round of the loop, for a trimmed piece.
unfoldable pub take_key : Text → Collected → Collected
unfolding one_of
take_key k c =
    if is_empty k
    then c
    else if one_of c.keys k
    then record c { duplicate_keys = c.duplicate_keys + 1 }
    else record c { keys = c.keys ++ k ∷ [] }

-- The loop over the pieces of `BRAVE_API_KEYS`.
unfoldable pub collect : List Text → Collected → Collected
unfolding take_key
collect [] c = c
collect (piece ∷ pieces) c = collect pieces (take_key (trim piece) c)

abbrev pub no_keys : Collected
no_keys = record { keys = []; duplicate_keys = 0 }

abbrev pub key_pieces : Option Text → Option Text → List Text
key_pieces brave_api_keys brave_keys =
    split is_key_separator (unwrap_or (first_env (brave_api_keys ∷ brave_keys ∷ [])) [])

unfoldable pub read_keys : Option Text → Option Text → Result Collected Text
unfolding collect
read_keys brave_api_keys brave_keys =
    let c = collect (key_pieces brave_api_keys brave_keys) no_keys in
    if is_empty c.keys
    then err (
        codes "BRAVE_API_KEYS is empty. Provide one or more comma-separated Brave Search API keys.")
    else ok c

unfoldable pub read_proxy_token : Option Text → Option Text
read_proxy_token none = none
read_proxy_token (some s) = if is_empty (trim s) then none else some (trim s)

-- `to_ascii_lowercase`, on the comparisons of which `eq_ignore_ascii_case` rests.
unfoldable pub lower : Text → Text
lower [] = []
lower (c ∷ s) = (if leb b'A' c && leb c b'Z' then c + 32 else c) ∷ lower s

unfoldable pub read_limit : Text → Option ℕ
unfolding lower
read_limit piece =
    let s = trim piece in
    if is_empty s || equal (lower s) (codes "detect") then none else parse_u64 s

unfoldable pub read_monthly_limits : Option Text → List (Option ℕ)
unfolding read_limit
read_monthly_limits v = elim (filled v) [
  | none ↦ []
  | some raw ↦ map read_limit (split (λ c. c == b',') raw)
]

-- The values of a switch: `none` is "invalid: expected true or false".
unfoldable pub read_bool : Option Text → Bool → Option Bool
unfolding lower one_of
read_bool v default =
    let word = lower (trim (env_or v (if default then codes "true" else codes "false"))) in
    if one_of (codes "1" ∷ codes "true" ∷ codes "yes" ∷ codes "on" ∷ []) word
    then some true
    else if one_of (codes "0" ∷ codes "false" ∷ codes "no" ∷ codes "off" ∷ []) word
    then some false
    else none
