-- ===== src/Pool/Acquire.antt =====
-- src/pool.rs, `acquire`: the waiting loop. While a task sleeps, the others change the pool: what
-- they do and when the task wakes up are parameters of each round.
pub mod Waiting
pub mod Turnstile
pub mod Turns
pub mod Served
use brave_search_api_rotator.Base.{
  ℕ, zero, suc, ◌-◌, List, Option, none, some, Result, ok, err, ltb, if◌then◌else◌, option_map,
}
use brave_search_api_rotator.Text.{Text}
use brave_search_api_rotator.Pool.{Pool, Lease, Next, AcquireError}
use brave_search_api_rotator.Pool.Select.{try_acquire}

-- `wake r at` is the time of round `r + 1` after `sleep_until(at)`; `others r` is what the other
-- tasks did to the pool meanwhile.
pub record World : Type 0 where
  pub wake : ℕ → ℕ → ℕ
  pub others : ℕ → Pool → Pool

module _ (fmt_instant : ℕ → Text) (world : World) where
  -- `none` means that the fuel ran out.
  unfoldable pub acquire_loop :
      ℕ → ℕ → ℕ → Pool → ℕ → List ℕ → Option (Pool × Result Lease AcquireError)
  acquire_loop zero round now p deadline exclude = none
  acquire_loop (suc fuel) round now p deadline exclude =
      let tried = try_acquire fmt_instant p now exclude in
      elim tried.1 [
        | ok lease ↦ some (tried.0, ok lease)
        | err (Next.at at) ↦
            let again =
              acquire_loop fuel (suc round) (world.wake round at) (world.others round tried.0)
                deadline exclude in
            if ltb deadline at
            then some (tried.0, err (AcquireError.saturated (at - now)))
            else again
        | err (Next.unavailable earliest summary) ↦
            some
              (tried.0, err (AcquireError.unavailable (option_map earliest (λ e. e - now)) summary))
      ]
