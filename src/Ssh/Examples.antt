-- ===== src/Ssh/Examples.antt =====
-- Runs of the pool and of the two SSH breakers.
use merlya.Common.{
  ℕ, ◌+◌, ◌≡◌, refl, String, true, none, some, List, [], ◌∷◌, arith, length, leb, if◌then◌else◌,
}
use merlya.Common.Clock.{pos}
use merlya.Common.Outcome.{Outcome, returned, raised}
use merlya.Common.Dict.{lookup, insert, delete}
use merlya.Common.Text.{contains, strip, lower}
use merlya.Ssh.Circuit
use merlya.Ssh.Types
use merlya.Ssh.Types.{
  SshConnection, SshResult, is_alive, refresh_timeout, is_transient_error, any_in,
}
use merlya.Ssh.Pool.{
  PoolConfig, Pool, Target, Net, State, connection_key, lru_key, evict_lru_connection, make_room,
  reuse, store, get_connection, execute_once, execute_loop, execute, invalidate_connection,
}
use merlya.Ssh.Circuit.Stuck.{open_forever}
use merlya.Ssh.Pool.Bounds.{Within, pool-Within}
use merlya.Ssh.Pool.Attempts.{Settled, with_breaker, execute-Settled}

abbrev config : PoolConfig
config = record { max_connections = 2; max_retries = 3; retry_delay = 1 }

abbrev conn : String → ℕ → SshConnection
conn h t = record { host = h; connected = true; last_used = t; timeout = 600; is_healthy = true }

abbrev web : Target
web = record { host = "web"; username = none; port = 22 }

-- A world is the time; the first command's channel is reset, later ones answer.
abbrev answer : ℕ → Outcome SshResult
answer t =
    if leb t 11
    then raised "Connection reset by peer"
    else returned (record { stdout = "ok"; stderr = ""; exit_code = pos 0 })

abbrev net : Net ℕ
net = record {
  connect = λ t w. (returned (conn t.host w), w + 1);
  execute_command = λ c command w. (answer w, w + 1);
  sleep = λ n w. (returned tt, w + n);
  time = λ w. w;
}

abbrev two : Pool
two = record {
  connections = ("default@db:22", conn "db" 5) ∷ ("default@cache:22", conn "cache" 3) ∷ [];
  circuit_breakers = [];
}

abbrev at : ℕ → Pool → State ℕ
at t p = record { pool = p; world = t }

abbrev five_failures : List Circuit.Event
five_failures =
    Circuit.failure 1
    ∷ Circuit.failure 2
    ∷ Circuit.failure 3
    ∷ Circuit.failure 4
    ∷ Circuit.failure 9
    ∷ []

abbrev stuck : Circuit.CircuitBreaker
stuck = Circuit.run Circuit.new five_failures

connection_key-web : connection_key web ≡ "default@web:22"
unfolding connection_key
connection_key-web = refl

evicts_least_used : lru_key two.connections ≡ some "default@cache:22"
unfolding lru_key
evicts_least_used = refl

retries_on_a_new_connection :
    ((execute config net web "uptime" true (at 10 two)).0
      ≡ returned (record { stdout = "ok"; stderr = ""; exit_code = pos 0 }))
    × (length (execute config net web "uptime" true (at 10 two)).1.pool.connections ≡ 2)
unfolding execute execute_loop execute_once get_connection invalidate_connection make_room
    evict_lru_connection lru_key reuse store connection_key is_transient_error any_in contains lower
    strip Circuit.can_execute Circuit.record_success lookup Circuit.new delete insert
retries_on_a_new_connection = (refl, refl)

pool-Within_example :
    Within config (get_connection config net web (at 10 two)).1.pool
    × Within config (execute config net web "uptime" true (at 10 two)).1.pool
pool-Within_example =
    pool-Within config net web "uptime" true (at 10 two) (omega arith) (omega arith)

abbrev one_left : PoolConfig
one_left = record { max_connections = 3; max_retries = 3; retry_delay = 1 }

execute-Settled_example :
    Settled
      (execute config net web "uptime" true (at 10 two)).0
      "web"
      (with_breaker config net "web" two)
      (execute config net web "uptime" true (at 10 two)).1.pool
unfolding strip Circuit.can_execute lookup Circuit.new
execute-Settled_example =
    execute-Settled config net web "uptime" true (at 10 two) (λ n w e. cc) (omega arith) refl refl
      refl

abbrev refusing : Pool
refusing = record two { circuit_breakers = ("web", stuck) ∷ [] }

open_forever_example :
    (Circuit.run stuck (Circuit.success ∷ Circuit.success ∷ Circuit.failure 100 ∷ [])).state
    ≡ Circuit.open_
unfolding Circuit.run Circuit.step Circuit.new
open_forever_example =
    open_forever stuck (Circuit.success ∷ Circuit.success ∷ Circuit.failure 100 ∷ []) refl

abbrev tripped : Types.CircuitBreaker
tripped = record {
  failure_threshold = 5;
  recovery_timeout = 60;
  half_open_max_calls = 3;
  state = Types.open_;
  failure_count = 5;
  last_failure_time = some 100;
  half_open_calls = 0;
}
