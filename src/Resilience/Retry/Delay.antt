-- ===== src/Resilience/Retry/Delay.antt =====
-- The back-off delays.
use native.Mathlib.Nat.{pow-zero, pow-suc, mul-le-mul_left}
use merlya.Common.{ℕ, zero, suc, ◌+◌, ◌-◌, ◌^◌, ◌≤◌, ◌≡◌, arith}
use merlya.Resilience.Retry.{RetryConfig, delay}

pow_pos : (b n : ℕ) → 1 ≤ b → 1 ≤ b ^ n
pow_pos b zero h = rw pow-zero (omega arith)
pow_pos b (suc n) h = rw pow-suc (grind (arith, pow_pos b n h))

pow_grows : (b n : ℕ) → 1 ≤ b → b ^ n ≤ b ^ suc n
pow_grows b n h = rw pow-suc (grind arith)

-- Every delay is at most `max_delay`, and with a base of at least 1 no delay is shorter than the
-- one before it.
pub delay_bounds :
    (c : RetryConfig) (n : ℕ)
    → 1 ≤ c.exponential_base
    → (delay c (n + 1) ≤ c.max_delay) × (delay c (n + 1) ≤ delay c (n + 2))
unfolding delay
delay_bounds c n h =
    let g = mul-le-mul_left c.initial_delay (pow_grows c.exponential_base n h) in
    let e : n + 1 - 1 ≡ n = omega arith in
    let e' : n + 2 - 1 ≡ suc n = omega arith in rw (e, e') (omega arith)
