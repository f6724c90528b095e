-- ===== src/Key/Window/Prune.antt =====
-- src/pool.rs, `prune_window`: what leaves the sliding window and what stays.
use brave_search_api_rotator.Base.{
  ℕ, ◌+◌, ◌-◌, ◌≤◌, ◌<◌, true, false, List, [], ◌∷◌, ◌++◌, ◌≡◌, refl, arith, All, leb, length,
}
use brave_search_api_rotator.Key.Window.{prune}

-- Every send of a list is over at `now`: it no longer counts against the window.
abbrev pub AllOver : ℕ → ℕ → List ℕ → Type 0
AllOver now window = All (λ t. t + window ≤ now)

pub AllOver-append :
    (now window : ℕ) (xs ys : List ℕ)
    → AllOver now window xs
    → AllOver now window ys
    → AllOver now window (xs ++ ys)
AllOver-append now window [] ys hx hy = hy
AllOver-append now window (x ∷ xs) ys hx hy = (hx.0, AllOver-append now window xs ys hx.1 hy)

pub AllOver-later :
    (now later window : ℕ) (xs : List ℕ)
    → now ≤ later
    → AllOver now window xs
    → AllOver later window xs
AllOver-later now later window [] h o = tt
AllOver-later now later window (x ∷ xs) h o = (omega arith, AllOver-later now later window xs h o.1)

-- What `prune` drops is over.
pub dropped : ℕ → ℕ → List ℕ → List ℕ
dropped now window [] = []
dropped now window (t ∷ ts) = elim (leb window (now - t)) [
  | true ↦ t ∷ dropped now window ts
  | false ↦ []
]

pub dropped-append-prune :
    (now window : ℕ) (ts : List ℕ) → dropped now window ts ++ prune now window ts ≡ ts
unfolding dropped prune
dropped-append-prune now window [] = refl
dropped-append-prune now window (t ∷ ts) = ground (arith, dropped-append-prune now window ts)

pub dropped-AllOver :
    (now window : ℕ) (ts : List ℕ) → 0 < window → AllOver now window (dropped now window ts)
unfolding dropped
dropped-AllOver now window [] h = tt
dropped-AllOver now window (t ∷ ts) h = ground (arith, dropped-AllOver now window ts h)

-- The oldest send that stays is still inside the window.
pub prune-head :
    (now window : ℕ) (ts : List ℕ) (t : ℕ) (rest : List ℕ)
    → 0 < window
    → prune now window ts ≡ t ∷ rest
    → now < t + window
unfolding prune
prune-head now window [] t rest h e = cc
prune-head now window (u ∷ ts) t rest h e = ground (arith, prune-head now window ts t rest h)

pub length-prune : (now window : ℕ) (ts : List ℕ) → length (prune now window ts) ≤ length ts
unfolding prune
length-prune now window [] = omega arith
length-prune now window (t ∷ ts) = ground (arith, length-prune now window ts)
