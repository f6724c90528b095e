-- ===== src/Base/Words.antt =====
-- Machine words and times. An `Instant` is a number of nanoseconds since some fixed point, a
-- `Duration` a number of nanoseconds; instants are not bounded above.
use Prim.Native.Nat.{ℕ, ◌+◌, ◌*◌, ◌%◌, ◌/◌, min}

abbrev pub u32_max : ℕ
u32_max = 4_294_967_295

abbrev pub u64_max : ℕ
u64_max = 18_446_744_073_709_551_615

abbrev pub u128_max : ℕ
u128_max = 340_282_366_920_938_463_463_374_607_431_768_211_455

-- `n as u32`, `n as u64`, and `a + b` on u32 and u64 as the release build computes it.
abbrev pub as_u32 : ℕ → ℕ
as_u32 n = n % 4_294_967_296

abbrev pub as_u64 : ℕ → ℕ
as_u64 n = n % 18_446_744_073_709_551_616

abbrev pub add_u32 : ℕ → ℕ → ℕ
add_u32 a b = (a + b) % 4_294_967_296

abbrev pub add_u64 : ℕ → ℕ → ℕ
add_u64 a b = (a + b) % 18_446_744_073_709_551_616

-- `Duration::from_secs`, `Duration::as_secs`, `Duration::as_millis` and `Duration::MAX`.
abbrev pub from_secs : ℕ → ℕ
from_secs s = s * 1_000_000_000

abbrev pub from_millis : ℕ → ℕ
from_millis n = n * 1_000_000

abbrev pub as_secs : ℕ → ℕ
as_secs d = d / 1_000_000_000

abbrev pub as_millis : ℕ → ℕ
as_millis d = d / 1_000_000

abbrev pub duration_max : ℕ
duration_max = 18_446_744_073_709_551_615_999_999_999

-- `Duration::saturating_mul`.
abbrev pub saturating_mul : ℕ → ℕ → ℕ
saturating_mul d k = min (d * k) duration_max
