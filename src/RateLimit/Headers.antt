-- ===== src/RateLimit/Headers.antt =====
-- Reading the headers back: what `from_headers` sees of headers that Brave documents.
use brave_search_api_rotator.Base.{◌≤◌, some, ◌≡◌, refl, arith, from_secs}
use brave_search_api_rotator.Text.{codes, split, trim, strip_prefix}
use brave_search_api_rotator.Text.Numbers.{parse_unsigned, to_string}
use brave_search_api_rotator.RateLimit.{
  RateLimitInfo, second_wait, parse_windows, parse_policy_windows,
}

-- The hold after a per-second 429 lies between one second and one minute, whatever the headers say.
pub second_wait_bounds :
    (r : RateLimitInfo) → (from_secs 1 ≤ second_wait r) × (second_wait r ≤ from_secs 60)
unfolding second_wait
second_wait_bounds r = ground arith

documented : parse_windows (codes "1, 15000") ≡ record { second = some 1; month = some 15000 }
unfolding parse_windows split trim parse_unsigned
documented = refl

documented_policy :
    parse_policy_windows (codes "1;w=1, 15000;w=2592000")
    ≡ record { second = some 1; month = some 2592000 }
unfolding parse_policy_windows split trim strip_prefix parse_unsigned
documented_policy = refl

printed : to_string 15000 ≡ codes "15000"
unfolding to_string
printed = refl
