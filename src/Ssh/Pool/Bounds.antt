-- ===== src/Ssh/Pool/Bounds.antt =====
-- How many connections the pool holds.
use merlya.Common.{
  ℕ, zero, suc, ◌+◌, ◌≤◌, ◌<◌, refl, String, Bool, true, false, [], ◌∷◌, arith, length, ltb, ◌&&◌,
}
use merlya.Common.Outcome.{Outcome, returned, raised, cancelled, Exec}
use merlya.Common.Dict.{Dict, has-lookup, length-insert, length-delete, length-delete-has}
use merlya.Ssh.Types.{is_transient_error, SshConnection, SshResult}
use merlya.Ssh.Circuit.{CircuitBreaker}
use merlya.Ssh.Pool.{
  PoolConfig, Pool, Target, Net, State, connection_key, lru_key, evict_lru_connection, make_room,
  reuse, store, get_connection, invalidate_connection, execute_once, execute_loop, execute,
  max_attempts, set_breaker, breaker_of, retry_later, retry_or_fail, attempted,
}
use merlya.Ssh.Pool.Lru.{has-lru_key}

abbrev pub Within : PoolConfig → Pool → Type 0
Within c s = length s.connections ≤ c.max_connections

evict_shrinks :
    (d : Dict SshConnection) (bs : Dict CircuitBreaker)
    → 1 ≤ length d
    → length (evict_lru_connection (record { connections = d; circuit_breakers = bs })).connections
      < length d
unfolding evict_lru_connection lru_key
evict_shrinks [] bs h = ground arith
evict_shrinks (e ∷ d) bs h = length-delete-has _ (e ∷ d) (has-lru_key (e ∷ d) refl)

make_room-room :
    (c : PoolConfig) (s : Pool)
    → 1 ≤ c.max_connections
    → Within c s
    → length (make_room c s).connections < c.max_connections
unfolding make_room
make_room-room c s h g = ground (arith, evict_shrinks s.connections s.circuit_breakers)

store-length :
    (k : String) (x : SshConnection) (s : Pool)
    → length (store k x s).connections ≤ suc (length s.connections)
unfolding store
store-length k x s = ground (arith, length-insert k x s.connections)

reuse_shorter :
    (k : String) (now : ℕ) (s : Pool) → length (reuse k now s).1.connections ≤ length s.connections
unfolding reuse
reuse_shorter k now s =
    grind (arith, has-lookup k s.connections, length-insert, length-delete k s.connections)

module _ {W : Type 0} (c : PoolConfig) (net : Net W) where
  get_connection-Within :
      (t : Target) (s : State W)
      → 1 ≤ c.max_connections
      → Within c s.pool
      → Within c (get_connection c net t s).1.pool
  unfolding get_connection
  get_connection-Within t s h g = grind (
    arith,
    reuse_shorter (connection_key t) (net.time s.world) s.pool,
    make_room-room c (reuse (connection_key t) (net.time s.world) s.pool).1 h,
    store-length,
  )

  execute_once-Within :
      (t : Target) (command : String) (s : State W)
      → 1 ≤ c.max_connections
      → Within c s.pool
      → Within c (execute_once c net t command s).1.pool
  unfolding execute_once
  execute_once-Within t command s h g = ground (arith, get_connection-Within t s h g)

  retry_later-Within :
      (t : Target) (attempt : ℕ) (rest : Exec (State W) SshResult) (s : State W)
      → ((s' : State W) → Within c s'.pool → Within c (rest s').1.pool)
      → Within c s.pool
      → Within c (retry_later c net t attempt rest s).1.pool
  unfolding invalidate_connection
  retry_later-Within t attempt rest s h g =
      grind (arith, h, length-delete (connection_key t) s.pool.connections)

  retry_or_fail-Within :
      (t : Target) (attempt : ℕ) (e : String) (rest : Exec (State W) SshResult) (b : Bool)
      (s : State W)
      → ((s' : State W) → Within c s'.pool → Within c (rest s').1.pool)
      → Within c s.pool
      → Within c (retry_or_fail c net t attempt e rest b s).1.pool
  retry_or_fail-Within t attempt e rest true s h g = retry_later-Within t attempt rest s h g
  retry_or_fail-Within t attempt e rest false s h g = g

  attempted-Within :
      (t : Target) (retry : Bool) (max attempt : ℕ) (rest : Exec (State W) SshResult)
      (r : Outcome SshResult) (s : State W)
      → ((s' : State W) → Within c s'.pool → Within c (rest s').1.pool)
      → Within c s.pool
      → Within c (attempted c net t retry max attempt rest r s).1.pool
  attempted-Within t retry max attempt rest (returned x) s h g = g
  attempted-Within t retry max attempt rest cancelled s h g = g
  attempted-Within t retry max attempt rest (raised e) s h g =
      retry_or_fail-Within t attempt e rest (retry && is_transient_error e && ltb (attempt + 1) max)
        s h g

  execute_loop-Within :
      (t : Target) (command : String) (retry : Bool) (max left attempt : ℕ) (s : State W)
      → 1 ≤ c.max_connections
      → Within c s.pool
      → Within c (execute_loop c net t command retry max left attempt s).1.pool
  unfolding execute_loop
  execute_loop-Within t command retry max zero attempt s h g = g
  execute_loop-Within t command retry max (suc left) attempt s h g =
      attempted-Within t retry max attempt _ _ _
        (λ s' i. execute_loop-Within t command retry max left (attempt + 1) s' h i)
        (execute_once-Within t command s h g)

  -- Where at least one connection is allowed, a pool within `max_connections` is still within it
  -- after one task's `get_connection` and after its `execute`, whatever the network does and
  -- however they end.
  pub pool-Within :
      (t : Target) (command : String) (retry : Bool) (s : State W)
      → 1 ≤ c.max_connections
      → Within c s.pool
      → Within c (get_connection c net t s).1.pool
        × Within c (execute c net t command retry s).1.pool
  unfolding execute
  pool-Within t command retry s h g = (
    get_connection-Within t s h g,
    ground (
      arith,
      execute_loop-Within t command retry (max_attempts c net retry) (max_attempts c net retry) 0
          (record s { pool = set_breaker t.host (breaker_of t.host s.pool) s.pool }) h g,
    ),
  )
