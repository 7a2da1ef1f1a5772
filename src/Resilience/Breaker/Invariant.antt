-- ===== src/Resilience/Breaker/Invariant.antt =====
-- What holds of a breaker between two locked blocks.
use merlya.Common.{◌≤◌, ◌<◌, ◌≡◌, ◌≢◌, none, List, [], ◌∷◌, arith}
use merlya.Resilience.Breaker.{
  closed, half_open, CircuitBreakerConfig, CircuitBreaker, new, Event, start, success, failure,
  reset_, step, run,
}

pub record IsValid (config : CircuitBreakerConfig) (b : CircuitBreaker) : Type 0 where
  pub closed_below : b.state ≡ closed → b.failure_count < config.failure_threshold
  pub tripped : b.state ≢ closed → config.failure_threshold ≤ b.failure_count
  pub timed : b.state ≢ closed → b.last_failure_time ≢ none
  pub half_open_below : b.state ≡ half_open → b.success_count < config.success_threshold
  pub unused : b.state ≢ half_open → b.success_count ≡ 0

module _ (config : CircuitBreakerConfig) (f : 0 < config.failure_threshold)
    (g : 0 < config.success_threshold) where
  step-IsValid :
      (b : CircuitBreaker) (e : Event) → IsValid config b → IsValid config (step config b e)
  unfolding step
  step-IsValid b (start now) v = grind arith
  step-IsValid b success v = ground arith
  step-IsValid b (failure now) v = ground arith
  step-IsValid b reset_ v = ground arith

  -- However the calls of the tasks interleave, a breaker that starts valid stays valid: closed
  -- with fewer failures than the threshold, otherwise with at least that many and a time of the
  -- last failure; half open with fewer successes than it takes to close, otherwise with none.
  pub run-IsValid :
      (b : CircuitBreaker) (es : List Event) → IsValid config b → IsValid config (run config b es)
  unfolding run
  run-IsValid b [] v = v
  run-IsValid b (e ∷ es) v = run-IsValid (step config b e) es (step-IsValid b e v)

  pub new-IsValid : IsValid config new
  new-IsValid = ground arith
