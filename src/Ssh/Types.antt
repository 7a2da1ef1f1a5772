-- ===== src/Ssh/Types.antt =====
-- merlya/ssh/types.py: connection results and options, connections with a time limit, the errors
-- worth a retry, and the module's own circuit breaker. Times are naturals in one unit (seconds).
pub mod Admission
use merlya.Common.Clock.{ℤ}
use merlya.Common.{
  ℕ, ◌+◌, ◌≤◌, String, Bool, true, false, ◌&&◌, ◌||◌, not, Option, none, some, List, [], ◌∷◌, map,
  leb, ltb, suc, if◌then◌else◌,
}
use merlya.Common.Text.{Text, codes, lower, contains}

pub data CircuitState : Type 0 where
  closed open_ half_open : CircuitState

pub record CircuitBreaker : Type 0 where
  pub failure_threshold : ℕ
  pub recovery_timeout : ℕ
  pub half_open_max_calls : ℕ
  pub state : CircuitState
  pub failure_count : ℕ
  pub last_failure_time : Option ℕ
  pub half_open_calls : ℕ

unfoldable pub record_success : CircuitBreaker → CircuitBreaker
record_success b = record b { state = closed; failure_count = 0; half_open_calls = 0 }

abbrev fail_in : CircuitState → CircuitBreaker → CircuitBreaker
fail_in half_open b = record b { state = open_; half_open_calls = 0 }
fail_in closed b = if leb b.failure_threshold b.failure_count then record b { state = open_ } else b
fail_in open_ b = if leb b.failure_threshold b.failure_count then record b { state = open_ } else b

unfoldable pub record_failure : ℕ → CircuitBreaker → CircuitBreaker
record_failure now b =
    fail_in b.state (record b { failure_count = b.failure_count + 1; last_failure_time = some now })

abbrev pub recovered : CircuitBreaker → Option ℕ → ℕ → Bool
recovered b none now = false
recovered b (some t) now = leb (t + b.recovery_timeout) now

abbrev can_execute_in : CircuitState → ℕ → CircuitBreaker → Bool × CircuitBreaker
can_execute_in closed now b = (true, b)
can_execute_in open_ now b =
    if recovered b b.last_failure_time now
    then (true, record b { state = half_open; half_open_calls = 0 })
    else (false, b)
can_execute_in half_open now b =
    if ltb b.half_open_calls b.half_open_max_calls
    then (true, record b { half_open_calls = b.half_open_calls + 1 })
    else (false, b)

-- The test changes the breaker too.
unfoldable pub can_execute : ℕ → CircuitBreaker → Bool × CircuitBreaker
can_execute now b = can_execute_in b.state now b

pub record SshResult : Type 0 where
  pub stdout : String
  pub stderr : String
  pub exit_code : ℤ

pub record SshConnectionOptions : Type 0 where
  pub port : ℕ
  pub jump_host : Option String
  pub connect_timeout : Option ℕ

-- `TRANSIENT_ERROR_PATTERNS`.
abbrev pub transient_error_patterns : List String
transient_error_patterns =
    "connection reset" ∷ "broken pipe" ∷ "connection closed" ∷ "network is unreachable"
    ∷ "no route to host" ∷ "resource temporarily unavailable" ∷ "open failed"
    ∷ "channel open failed" ∷ "errno 54" ∷ "errno 104" ∷ "errno 32" ∷ []

unfoldable pub any_in : List String → Text → Bool
unfolding contains
any_in [] s = false
any_in (p ∷ ps) s = contains (codes p) s || any_in ps s

-- is_transient_error(error), on the text of the error
unfoldable pub is_transient_error : String → Bool
unfolding lower any_in
is_transient_error e = any_in transient_error_patterns (lower (codes e))

-- `connected` says whether `connection` is not None.
pub record SshConnection : Type 0 where
  pub host : String
  pub connected : Bool
  pub last_used : ℕ
  pub timeout : ℕ
  pub is_healthy : Bool

unfoldable pub is_alive : ℕ → SshConnection → Bool
is_alive now c = c.connected && c.is_healthy && leb now (c.last_used + c.timeout)

unfoldable pub refresh_timeout : ℕ → SshConnection → SshConnection
refresh_timeout now c = record c { last_used = now }

unfoldable pub mark_unhealthy : SshConnection → SshConnection
mark_unhealthy c = record c { is_healthy = false }

unfoldable pub close : SshConnection → SshConnection
close c = if c.connected then record c { connected = false; is_healthy = false } else c
