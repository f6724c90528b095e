-- ===== src/Key/Backoff/Durations.antt =====
-- src/pool.rs, `disable`: how the time that a key stays disabled grows with its strikes.
use native.Mathlib.Nat.{pow-le-pow_right, mul-le-mul_left}
use brave_search_api_rotator.Base.{
  ℕ, ◌+◌, ◌-◌, ◌*◌, ◌^◌, ◌≤◌, min, ◌≡◌, sym, ◌∙◌, arith, duration_max, u32_max, ltb, leb,
  Bool-cases, inl, inr,
}
use brave_search_api_rotator.Key.Backoff.{backoff}

-- The exponent's cap of 16 and the saturation never show: while the longest time is at most
-- 2^16 times the base and within a `Duration`, strike n + 1 disables for 2^n times the base, up
-- to the longest time.
pub backoff_doubles :
    (base top strikes : ℕ)
    → top ≤ base * 2 ^ 16
    → top ≤ duration_max
    → backoff base top (strikes + 1) ≡ min (base * 2 ^ strikes) top
unfolding backoff
backoff_doubles base top strikes reached fits =
    let e : strikes + 1 - 1 ≡ strikes = omega arith in
    rw e (elim (Bool-cases (leb strikes 16)) [
      | inl small ↦ let m : min strikes 16 ≡ strikes = ground arith in rw m (omega arith)
      | inr large ↦
          let m : min strikes 16 ≡ 16 = ground arith in
          let h : base * 2 ^ 16 ≤ base * 2 ^ strikes =
            mul-le-mul_left base (pow-le-pow_right (omega arith) {i = 16} (ground arith)) in
          rw m (omega arith)
    ])

-- A key with so many strikes is disabled for the base time doubled for each of them, at most `top`,
-- although the shift stops at 16 and the counter, one higher, at the largest 32-bit value; `top` is
-- no more than the base shifted by 16, and a `Duration`.
pub backoff_strike :
    (base top strikes : ℕ)
    → top ≤ base * 2 ^ 16
    → top ≤ duration_max
    → backoff base top (min (strikes + 1) u32_max) ≡ min (base * 2 ^ strikes) top
backoff_strike base top strikes reached fits = elim (Bool-cases (ltb strikes u32_max)) [
  | inl counted ↦
      let e : min (strikes + 1) u32_max ≡ strikes + 1 = ground arith in
      rw e (backoff_doubles base top strikes reached fits)
  | inr full ↦
      let e : min (strikes + 1) u32_max ≡ (u32_max - 1) + 1 = ground arith in
      rw e (
        backoff_doubles base top (u32_max - 1) reached fits
        ∙ at_top (u32_max - 1) (omega arith)
        ∙ sym (at_top strikes (ground arith)))
]
  where
    at_top : (n : ℕ) → 16 ≤ n → min (base * 2 ^ n) top ≡ top
    at_top n large =
        let h : base * 2 ^ 16 ≤ base * 2 ^ n =
          mul-le-mul_left base (pow-le-pow_right (omega arith) {i = 16} large) in
        omega arith
