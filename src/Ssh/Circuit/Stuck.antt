-- ===== src/Ssh/Circuit/Stuck.antt =====
-- The breaker never leaves its open state by itself.
use merlya.Common.{ℕ, ◌+◌, ◌≤◌, ◌≡◌, ◌≢◌, ◌↔◌, true, List, [], ◌∷◌, arith}
use merlya.Ssh.Circuit.{
  open_, half_open, CircuitBreaker, new, Event, success, failure, step, run, can_execute, timeout,
}

step-open : (b : CircuitBreaker) (e : Event) → b.state ≡ open_ → (step b e).state ≡ open_
unfolding step
step-open b success o = ground arith
step-open b (failure now) o = ground arith

-- Once the circuit is open, no sequence of successes and failures, in whatever number and at
-- whatever times, changes its state: a success after the timeout does not close it, and the half
-- open state is not entered.
pub open_forever :
    (b : CircuitBreaker) (es : List Event) → b.state ≡ open_ → (run b es).state ≡ open_
unfolding run
open_forever b [] o = o
open_forever b (e ∷ es) o = open_forever (step b e) es (step-open b e o)

step-not_half_open :
    (b : CircuitBreaker) (e : Event) → b.state ≢ half_open → (step b e).state ≢ half_open
unfolding step
step-not_half_open b success h = ground arith
step-not_half_open b (failure now) h = ground arith

run-not_half_open :
    (b : CircuitBreaker) (es : List Event) → b.state ≢ half_open → (run b es).state ≢ half_open
unfolding run
run-not_half_open b [] h = h
run-not_half_open b (e ∷ es) h = run-not_half_open (step b e) es (step-not_half_open b e h)

-- No sequence of successes and failures takes a new breaker to the half open state.
pub half_open_unreachable : (es : List Event) → (run new es).state ≢ half_open
unfolding new
half_open_unreachable es = run-not_half_open new es (λ e. cc)

-- After a failure while the circuit is open a call is let through exactly if `timeout` has passed
-- since that failure: each such failure starts the waiting time again.
pub failure_restarts_wait :
    (b : CircuitBreaker) (t now : ℕ)
    → b.state ≡ open_
    → (can_execute (step b (failure t)) now ≡ true) ↔ (t + timeout ≤ now)
unfolding step can_execute
failure_restarts_wait b t now o = ground arith
