-- ===== src/Resilience/Breaker.antt =====
-- The `CircuitBreaker` of merlya/core/resilience.py. Each `with self._lock` block is one function:
-- calls of several tasks interleave as lists of `Event`. Times and timeouts are in one unit, as
-- naturals; `now - last >= timeout` is written without the subtraction.
pub mod Invariant
pub mod History
pub mod Calls
use merlya.Common.{
  ℕ, zero, ◌+◌, String, Bool, true, false, ◌&&◌, Option, none, some, List, [], ◌∷◌, leb, ltb, ◌==◌,
  if◌then◌else◌, not,
}
use merlya.Common.Outcome.{Outcome, returned, raised, cancelled, Exec}

pub data CircuitState : Type 0 where
  closed open_ half_open : CircuitState

pub record CircuitBreakerConfig : Type 0 where
  pub failure_threshold : ℕ
  pub recovery_timeout : ℕ
  pub success_threshold : ℕ

pub record CircuitBreaker : Type 0 where
  pub state : CircuitState
  pub failure_count : ℕ
  pub success_count : ℕ
  pub last_failure_time : Option ℕ

abbrev pub new : CircuitBreaker
new = record { state = closed; failure_count = 0; success_count = 0; last_failure_time = none }

module _ (config : CircuitBreakerConfig) where
  -- `self.last_failure_time and (time.time() - self.last_failure_time >= recovery_timeout)`:
  -- a time of 0.0 is as false as None.
  abbrev pub recovered : Option ℕ → ℕ → Bool
  recovered none now = false
  recovered (some t) now = not (t == 0) && leb (t + config.recovery_timeout) now

  abbrev start_open : Bool → CircuitBreaker → CircuitBreaker × Bool
  start_open true b = (record b { state = half_open; success_count = 0 }, true)
  start_open false b = (b, false)

  abbrev start_in : CircuitState → ℕ → CircuitBreaker → CircuitBreaker × Bool
  start_in open_ now b = start_open (recovered b.last_failure_time now) b
  start_in closed now b = (b, true)
  start_in half_open now b = (b, true)

  -- The locked block that opens `call`: the flag says whether the function is called; without it
  -- `CircuitBreakerOpenError` is raised.
  unfoldable pub start_call : ℕ → CircuitBreaker → CircuitBreaker × Bool
  start_call now b = start_in b.state now b

  abbrev success_in : CircuitState → CircuitBreaker → CircuitBreaker
  success_in half_open b =
      if leb config.success_threshold (b.success_count + 1)
      then record b { state = closed; failure_count = 0; success_count = 0 }
      else record b { success_count = b.success_count + 1 }
  success_in closed b = record b { failure_count = 0 }
  success_in open_ b = b

  unfoldable pub on_success : CircuitBreaker → CircuitBreaker
  on_success b = success_in b.state b

  abbrev failure_in : CircuitState → CircuitBreaker → CircuitBreaker
  failure_in half_open b = record b { state = open_; success_count = 0 }
  failure_in closed b =
      if leb config.failure_threshold b.failure_count then record b { state = open_ } else b
  failure_in open_ b = b

  unfoldable pub on_failure : ℕ → CircuitBreaker → CircuitBreaker
  on_failure now b =
      failure_in b.state
        (record b { failure_count = b.failure_count + 1; last_failure_time = some now })

-- reset()
pub reset : CircuitBreaker → CircuitBreaker
reset b = record b {
  state = closed;
  failure_count = 0;
  success_count = 0;
  last_failure_time = none;
}

-- The locked blocks, as the tasks that share a breaker run them. A cancelled call ends with none.
pub data Event : Type 0 where
  start : ℕ → Event
  success : Event
  failure : ℕ → Event
  reset_ : Event

unfoldable pub step : CircuitBreakerConfig → CircuitBreaker → Event → CircuitBreaker
unfolding start_call on_success on_failure reset
step config b (start now) = (start_call config now b).0
step config b success = on_success config b
step config b (failure now) = on_failure config now b
step config b reset_ = reset b

unfoldable pub run : CircuitBreakerConfig → CircuitBreaker → List Event → CircuitBreaker
run config b [] = b
run config b (e ∷ es) = run config (step config b e) es

-- How `call` ends: with `CircuitBreakerOpenError(failed n times)`, or as the function did.
pub data Called (A : Type 0) : Type 0 where
  open_error : ℕ → Called A
  ended : Outcome A → Called A

-- One call by itself. `time.time()` is read where the source reads it.
module _ {W A : Type 0} (config : CircuitBreakerConfig) (time : W → ℕ) (func : Exec W A) where
  abbrev after_func : Outcome A → W → CircuitBreaker → Called A × CircuitBreaker × W
  after_func (returned a) w b = (ended (returned a), on_success config b, w)
  after_func (raised e) w b = (ended (raised e), on_failure config (time w) b, w)
  after_func cancelled w b = (ended cancelled, b, w)

  unfoldable pub call : CircuitBreaker → W → Called A × CircuitBreaker × W
  call b w =
      let (b', admitted) = start_call config (time w) b in
      if admitted
      then (let (o, w') = func w in after_func o w' b')
      else (open_error b.failure_count, b, w)
