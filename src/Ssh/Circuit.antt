-- ===== src/Ssh/Circuit.antt =====
-- merlya/ssh/circuit_breaker.py: the breaker that the connection pool keeps for each host.
-- Times are naturals in one unit.
pub mod Stuck
use merlya.Common.{
  ℕ, ◌+◌, ◌-◌, Bool, true, false, Option, none, some, List, [], ◌∷◌, leb, ◌==◌, if◌then◌else◌,
}

pub data CircuitState : Type 0 where
  closed open_ half_open : CircuitState

abbrev pub failure_threshold : ℕ
failure_threshold = 5

abbrev pub timeout : ℕ
timeout = 60

pub record CircuitBreaker : Type 0 where
  pub state : CircuitState
  pub failure_count : ℕ
  pub last_failure_time : Option ℕ
  pub success_count : ℕ
  pub attempt_count : ℕ

unfoldable pub new : CircuitBreaker
new = record {
  state = closed;
  failure_count = 0;
  last_failure_time = none;
  success_count = 0;
  attempt_count = 0;
}

abbrev retry_in : CircuitState → Option ℕ → ℕ → ℕ
retry_in open_ (some t) now = t + timeout - now
retry_in open_ none now = 0
retry_in closed last now = 0
retry_in half_open last now = 0

-- max(0, timeout - (now - last_failure_time)) while the circuit is open.
unfoldable pub time_until_retry : CircuitBreaker → ℕ → ℕ
time_until_retry b now = retry_in b.state b.last_failure_time now

abbrev can_execute_in : CircuitState → ℕ → Bool
can_execute_in closed wait = true
can_execute_in open_ wait = leb wait 0
can_execute_in half_open wait = true

unfoldable pub can_execute : CircuitBreaker → ℕ → Bool
unfolding time_until_retry
can_execute b now = can_execute_in b.state (time_until_retry b now)

unfoldable pub open_circuit : CircuitBreaker → CircuitBreaker
open_circuit b = record b { state = open_ }

unfoldable pub close_circuit : CircuitBreaker → CircuitBreaker
close_circuit b = record b {
  state = closed;
  failure_count = 0;
  last_failure_time = none;
  success_count = 0;
  attempt_count = 0;
}

abbrev fail_in : CircuitState → CircuitBreaker → CircuitBreaker
fail_in closed b = if leb failure_threshold b.failure_count then open_circuit b else b
fail_in half_open b = open_circuit b
fail_in open_ b = b

unfoldable pub record_failure : ℕ → CircuitBreaker → CircuitBreaker
unfolding open_circuit
record_failure now b = fail_in b.state (record b {
  failure_count = b.failure_count + 1;
  last_failure_time = some now;
  attempt_count = b.attempt_count + 1;
})

abbrev succeed_in : CircuitState → CircuitBreaker → CircuitBreaker
succeed_in half_open b = close_circuit b
succeed_in closed b = record b { failure_count = b.failure_count - 1 }
succeed_in open_ b = b

unfoldable pub record_success : CircuitBreaker → CircuitBreaker
unfolding close_circuit
record_success b =
    succeed_in b.state
      (record b { success_count = b.success_count + 1; attempt_count = b.attempt_count + 1 })

-- What the pool tells a breaker.
pub data Event : Type 0 where
  success : Event
  failure : ℕ → Event

unfoldable pub step : CircuitBreaker → Event → CircuitBreaker
unfolding record_success record_failure
step b success = record_success b
step b (failure now) = record_failure now b

unfoldable pub run : CircuitBreaker → List Event → CircuitBreaker
run b [] = b
run b (e ∷ es) = run (step b e) es
