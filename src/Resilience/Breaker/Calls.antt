-- ===== src/Resilience/Breaker/Calls.antt =====
-- One call by itself: what it does to the breaker, and when the function is not called.
use merlya.Common.{ℕ, ◌+◌, ◌≡◌, ◌<◌, Bool, true, false, some, List, [], ◌∷◌, arith}
use merlya.Common.Outcome.{Outcome, returned, raised, cancelled, Exec}
use merlya.Resilience.Breaker.{
  open_, CircuitBreakerConfig, CircuitBreaker, Event, start, success, failure, step, run,
  open_error, call, start_call,
}

module _ {W A : Type 0} (config : CircuitBreakerConfig) (time : W → ℕ) (func : Exec W A) where
  -- The locked blocks that a call runs, from how the function ends.
  abbrev pub func_events : Outcome A → W → List Event
  func_events (returned a) w = success ∷ []
  func_events (raised e) w = failure (time w) ∷ []
  func_events cancelled w = []

  abbrev pub call_events : Bool → W → List Event
  call_events true w = start (time w) ∷ func_events (func w).0 (func w).1
  call_events false w = start (time w) ∷ []

  -- While the circuit is open and the recovery timeout has not passed, the function is not called:
  -- the call fails with the failure count, and neither the breaker nor the world changes.
  pub open_rejects :
      (b : CircuitBreaker) (w : W) {t : ℕ}
      → b.state ≡ open_
      → b.last_failure_time ≡ some t
      → time w < t + config.recovery_timeout
      → call config time func b w ≡ (open_error b.failure_count, b, w)
  unfolding call start_call
  open_rejects b w o l h = ground arith

  -- A call does to the breaker what its locked blocks do one after the other: the start, and for a
  -- call that is admitted a success or a failure as the function ends, or none if it is cancelled.
  pub call-eq-run :
      (b : CircuitBreaker) (w : W)
      → (call config time func b w).1
        ≡ run config b (call_events (start_call config (time w) b).1 w)
  unfolding call start_call run step
  call-eq-run b w = ground arith
