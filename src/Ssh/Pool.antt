-- ===== src/Ssh/Pool.antt =====
-- merlya/ssh/pool.py: the connection pool. Connections and breakers are dictionaries by key and by
-- host. Opening a connection, running a command, `asyncio.sleep` and the clock are the fields of
-- `Net`, actions on a world `W`. The operations here are those of one task between two waits for a
-- lock; `Overshoot` has two tasks interleave. The semaphore that limits the channels of a host, the
-- callbacks and the deprecated parameters of `execute` are left out, and closing a dropped connection
-- is taken not to fail.
pub mod Lru
pub mod Bounds
pub mod Overshoot
pub mod Attempts
pub mod Disconnect
use merlya.Common.{
  ℕ, zero, suc, ◌+◌, ◌-◌, ◌*◌, ◌^◌, String, ◌<>◌, Bool, true, false, ◌&&◌, ◌||◌, not, Option, none,
  some, List, [], ◌∷◌, ltb, leb, length, if◌then◌else◌, str_eq,
}
use merlya.Common.Decimal.{show}
use merlya.Common.Text.{codes, contains, strip}
use merlya.Common.Outcome.{Outcome, returned, raised, cancelled, Exec}
use merlya.Common.Dict.{Dict, lookup, has, insert, delete, get_or}
use merlya.Ssh.Types.{SshConnection, SshResult, is_alive, refresh_timeout, is_transient_error}
use merlya.Ssh.Circuit
use merlya.Ssh.Circuit.{CircuitBreaker}

pub record PoolConfig : Type 0 where
  pub max_connections : ℕ
  pub max_retries : ℕ
  pub retry_delay : ℕ

pub record Pool : Type 0 where
  pub connections : Dict SshConnection
  pub circuit_breakers : Dict CircuitBreaker

-- Where to connect: the host, the user if one is given, and the port.
pub record Target : Type 0 where
  pub host : String
  pub username : Option String
  pub port : ℕ

-- username or 'default'
abbrev user_part : Option String → String
user_part none = "default"
user_part (some u) = if str_eq u "" then "default" else u

-- f"{username or 'default'}@{host}:{opts.port}"
unfoldable pub connection_key : Target → String
unfolding show
connection_key t = user_part t.username <> "@" <> t.host <> ":" <> show t.port

-- min(connections, key=last_used): the first of the least recently used.
older : String × SshConnection → String × SshConnection → String × SshConnection
older best e = if ltb e.1.last_used best.1.last_used then e else best

lru_from : String × SshConnection → Dict SshConnection → String × SshConnection
unfolding older
lru_from best [] = best
lru_from best (e ∷ d) = lru_from (older best e) d

unfoldable pub lru_key : Dict SshConnection → Option String
unfolding lru_from
lru_key [] = none
lru_key (e ∷ d) = some (lru_from e d).0

abbrev delete_if : Option String → Dict SshConnection → Dict SshConnection
delete_if none d = d
delete_if (some k) d = delete k d

-- _evict_lru_connection()
unfoldable pub evict_lru_connection : Pool → Pool
unfolding lru_key
evict_lru_connection s = record s { connections = delete_if (lru_key s.connections) s.connections }

-- The block under `_pool_lock` in `get_connection`.
unfoldable pub make_room : PoolConfig → Pool → Pool
make_room c s = if leb c.max_connections (length s.connections) then evict_lru_connection s else s

-- The opening test of `get_connection`: the connection to reuse, refreshed, or none after a dead
-- one is dropped.
abbrev reuse_found : String → ℕ → Option SshConnection → Pool → Option SshConnection × Pool
reuse_found k now none s = (none, s)
reuse_found k now (some c) s =
    if is_alive now c
    then (
      some (refresh_timeout now c),
      record s { connections = insert k (refresh_timeout now c) s.connections },
    )
    else (none, record s { connections = delete k s.connections })

unfoldable pub reuse : String → ℕ → Pool → Option SshConnection × Pool
reuse k now s = reuse_found k now (lookup k s.connections) s

unfoldable pub store : String → SshConnection → Pool → Pool
store k c s = record s { connections = insert k c s.connections }

pub record Net (W : Type 0) : Type 0 where
  pub connect : Target → Exec W SshConnection
  pub execute_command : SshConnection → String → Exec W SshResult
  pub sleep : ℕ → Exec W (Unit {0})
  pub time : W → ℕ

pub record State (W : Type 0) : Type 0 where
  pub pool : Pool
  pub world : W

-- _get_circuit_breaker(host): creates the breaker where there is none.
abbrev pub breaker_of : String → Pool → CircuitBreaker
breaker_of h s = get_or Circuit.new (lookup h s.circuit_breakers)

abbrev pub set_breaker : String → CircuitBreaker → Pool → Pool
set_breaker h b s = record s { circuit_breakers = insert h b s.circuit_breakers }

-- reset_circuit(host)
unfoldable pub reset_circuit : String → Pool → Pool
reset_circuit h s = if has h s.circuit_breakers then set_breaker h Circuit.new s else s

module _ {W : Type 0} (c : PoolConfig) (net : Net W) where
  abbrev connected : String → Outcome SshConnection → W → Pool → Outcome SshConnection × State W
  connected k (returned x) w s = (returned x, record { pool = store k x s; world = w })
  connected k (raised e) w s = (raised e, record { pool = s; world = w })
  connected k cancelled w s = (cancelled, record { pool = s; world = w })

  abbrev obtain : Target → Option SshConnection × Pool → W → Outcome SshConnection × State W
  obtain t (some x, s) w = (returned x, record { pool = s; world = w })
  obtain t (none, s) w =
      let r = net.connect t w in connected (connection_key t) r.0 r.1 (make_room c s)

  unfoldable pub get_connection : Target → Exec (State W) SshConnection
  get_connection t s =
      if leb 1 t.port && leb t.port 65535
      then obtain t (reuse (connection_key t) (net.time s.world) s.pool) s.world
      else (raised ("Invalid port number: " <> show t.port <> " (must be 1-65535)"), s)

  -- _invalidate_connection(...): the connection is dropped, marked and closed.
  unfoldable pub invalidate_connection : Target → State W → State W
  invalidate_connection t s = record s {
    pool = record s.pool { connections = delete (connection_key t) s.pool.connections };
  }

  abbrev succeeded : String → Outcome SshResult → W → Pool → Outcome SshResult × State W
  succeeded h (returned r) w s = (
    returned r,
    record { pool = set_breaker h (Circuit.record_success (breaker_of h s)) s; world = w },
  )
  succeeded h (raised e) w s = (raised e, record { pool = s; world = w })
  succeeded h cancelled w s = (cancelled, record { pool = s; world = w })

  abbrev run_on : Target → String → Outcome SshConnection → State W → Outcome SshResult × State W
  run_on t command (returned x) s =
      let r = net.execute_command x command s.world in succeeded t.host r.0 r.1 s.pool
  run_on t command (raised e) s = (raised e, s)
  run_on t command cancelled s = (cancelled, s)

  unfoldable pub execute_once : Target → String → Exec (State W) SshResult
  execute_once t command s = let r = get_connection t s in run_on t command r.0 r.1

  abbrev pub fail : String → String → State W → Outcome SshResult × State W
  fail h e s = (
    raised e,
    record s {
      pool = set_breaker h (Circuit.record_failure (net.time s.world) (breaker_of h s.pool)) s.pool;
    },
  )

  abbrev pub after_sleep :
      Exec (State W) SshResult → Outcome (Unit {0}) → State W → Outcome SshResult × State W
  after_sleep rest (returned _) s = rest s
  after_sleep rest (raised e) s = (raised e, s)
  after_sleep rest cancelled s = (cancelled, s)

  -- The `except` clause's retry: the connection is dropped before the wait.
  abbrev pub retry_later : Target → ℕ → Exec (State W) SshResult → Exec (State W) SshResult
  retry_later t attempt rest s =
      let s' = invalidate_connection t s in
      let r = net.sleep (c.retry_delay * 2 ^ attempt) s'.world in
      after_sleep rest r.0 (record s' { world = r.1 })

  abbrev pub retry_or_fail :
      Target → ℕ → String → Exec (State W) SshResult → Bool → Exec (State W) SshResult
  retry_or_fail t attempt e rest true s = retry_later t attempt rest s
  retry_or_fail t attempt e rest false s = fail t.host e s

  abbrev pub attempted :
      Target
      → Bool
      → ℕ
      → ℕ
      → Exec (State W) SshResult
      → Outcome SshResult
      → Exec (State W) SshResult
  attempted t retry max attempt rest (returned r) s = (returned r, s)
  attempted t retry max attempt rest cancelled s = (cancelled, s)
  attempted t retry max attempt rest (raised e) s =
      retry_or_fail t attempt e rest (retry && is_transient_error e && ltb (attempt + 1) max) s

  -- for attempt in range(max_attempts), with so many rounds left.
  unfoldable pub execute_loop : Target → String → Bool → ℕ → ℕ → ℕ → Exec (State W) SshResult
  execute_loop t command retry max zero attempt s =
      (raised ("Unexpected error executing command on " <> t.host), s)
  execute_loop t command retry max (suc left) attempt s =
      attempted t retry max attempt (execute_loop t command retry max left (attempt + 1))
        (execute_once t command s).0 (execute_once t command s).1

  abbrev pub blank : String → Bool
  blank h = elim (strip (codes h)) [ [] ↦ true | _ ∷ _ ↦ false ]

  abbrev pub max_attempts : Bool → ℕ
  max_attempts retry = if retry then c.max_retries else 1

  unfoldable pub execute : Target → String → Bool → Exec (State W) SshResult
  execute t command retry s =
      if blank t.host
      then (raised "Host cannot be empty", s)
      else if blank command
      then (raised "Command cannot be empty", s)
      else if Circuit.can_execute (breaker_of t.host s.pool) (net.time s.world)
      then execute_loop t command retry (max_attempts retry) (max_attempts retry) 0
          (record s { pool = set_breaker t.host (breaker_of t.host s.pool) s.pool })
      else (
        raised (
            "Circuit breaker open for "
            <> t.host
            <> ". Too many failures. Retry in "
            <> show (Circuit.time_until_retry (breaker_of t.host s.pool) (net.time s.world))
            <> "s or use reset_circuit()"),
        record s { pool = set_breaker t.host (breaker_of t.host s.pool) s.pool },
      )

-- to_remove = [k for k in self._connections if host in k]: a host is looked for anywhere in a key.
unfoldable pub without_host : String → Dict SshConnection → Dict SshConnection
unfolding contains
without_host host [] = []
without_host host ((k, c) ∷ d) =
    let rest = without_host host d in
    if contains (codes host) (codes k) then rest else (k, c) ∷ rest

unfoldable pub disconnect : String → Pool → Pool
unfolding without_host
disconnect host s = record s { connections = without_host host s.connections }

unfoldable pub disconnect_all : Pool → Pool
disconnect_all s = record s { connections = [] }
