-- ===== src/Resilience/Examples.antt =====
-- Runs of the circuit breaker and of the retry decorator.
use merlya.Common.{
  ℕ, ◌+◌, ◌<◌, ◌≡◌, refl, ◌==◌, true, false, some, List, [], ◌∷◌, arith, if◌then◌else◌,
}
use merlya.Common.Outcome.{Outcome, Exec, returned, raised}
use merlya.Resilience.Breaker.{
  open_, CircuitBreakerConfig, CircuitBreaker, new, Event, start, success, failure, step, run,
}
use merlya.Resilience.Breaker.Invariant.{IsValid, run-IsValid, new-IsValid}
use merlya.Resilience.Breaker.History.{failures_since, closed_history}
use merlya.Resilience.Retry.{RetryConfig, delay, retry}
use merlya.Resilience.Retry.Attempts.{logging, scripted, is_retryable, delays, retry_first_final}

abbrev config : CircuitBreakerConfig
config = record { failure_threshold = 2; recovery_timeout = 60; success_threshold = 2 }

abbrev trip : List Event
trip = failure 100 ∷ success ∷ failure 110 ∷ failure 120 ∷ start 150 ∷ success ∷ []

trip_opens : (run config new trip).state ≡ open_
unfolding run step
trip_opens = refl

run-IsValid_example : IsValid config (run config new trip)
run-IsValid_example =
    run-IsValid config (omega arith) (omega arith) new trip
      (new-IsValid config (omega arith) (omega arith))

abbrev mild : List Event
mild = failure 100 ∷ success ∷ failure 110 ∷ []

closed_history_example :
    ((run config new mild).failure_count ≡ failures_since 0 mild) × (failures_since 0 mild < 2)
unfolding run step
closed_history_example = closed_history config mild (omega arith) (omega arith) refl

abbrev tripped : CircuitBreaker
tripped = record {
  state = open_;
  failure_count = 2;
  success_count = 0;
  last_failure_time = some 120;
}

-- Worlds are times; the one function answers at once, the other fails after one tick.
abbrev answers : Exec ℕ ℕ
answers w = (returned 5, w)

abbrev refuses : Exec ℕ ℕ
refuses w = (raised "refused", w + 1)

abbrev policy : RetryConfig
policy = record { max_attempts = 4; initial_delay = 10; max_delay = 30; exponential_base = 2 }

-- Two failures and then the value 7.
abbrev script : ℕ → Outcome ℕ
script n = if n == 2 then returned 7 else raised "busy"

retry_run :
    retry policy
      (logging (λ e. true) script)
      (scripted (λ e. true) script)
      (record { calls = 0; slept = [] })
    ≡ (returned 7, record { calls = 3; slept = 10 ∷ 20 ∷ [] })
unfolding retry delay
retry_run = refl

retry_first_final_example :
    (r : ℕ) × (r < 4)
    × (retry policy
          (logging (λ e. true) script)
          (scripted (λ e. true) script)
          (record { calls = 0; slept = [] })
        ≡ (script r, record { calls = r + 1; slept = delays policy 1 r }))
    × ((j : ℕ) → j < r → is_retryable (λ e. true) (script j) ≡ true)
    × (r + 1 < 4 → is_retryable (λ e. true) (script r) ≡ false)
retry_first_final_example = retry_first_final policy (λ e. true) script (omega arith)
