-- ===== src/Ssh/Types/Admission.antt =====
-- How many calls the breaker of merlya/ssh/types.py lets through.
use merlya.Common.{ℕ, ◌+◌, ◌-◌, ◌≡◌, Bool, true, false, List, [], ◌∷◌, arith, length, min}
use merlya.Ssh.Types.{open_, half_open, CircuitBreaker, can_execute, recovered}

abbrev pub bit : Bool → ℕ
bit true = 1
bit false = 0

-- The tests at these times that let a call through, with no call ending between them.
pub admitted : CircuitBreaker → List ℕ → ℕ
admitted b [] = 0
admitted b (now ∷ ts) = let (ok, b') = can_execute now b in bit ok + admitted b' ts

admitted_half_open :
    (b : CircuitBreaker) (ts : List ℕ)
    → b.state ≡ half_open
    → admitted b ts ≡ min (length ts) (b.half_open_max_calls - b.half_open_calls)
unfolding admitted can_execute
admitted_half_open b [] h = omega arith
admitted_half_open b (now ∷ ts) h = ground (arith, admitted_half_open (can_execute now b).1 ts)

-- After the recovery timeout an open breaker lets through one call and then `half_open_max_calls`
-- more before any of them ends, so one call more than the limit.
pub admitted_after_recovery :
    (b : CircuitBreaker) (now : ℕ) (ts : List ℕ)
    → b.state ≡ open_
    → recovered b b.last_failure_time now ≡ true
    → admitted b (now ∷ ts) ≡ 1 + min (length ts) b.half_open_max_calls
unfolding admitted can_execute
admitted_after_recovery b now ts o r = ground (arith, admitted_half_open (can_execute now b).1 ts)
