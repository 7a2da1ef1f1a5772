-- ===== src/Ssh/Pool/Attempts.antt =====
-- What the attempts of one command do to the breaker of its host.
use merlya.Common.{
  ℕ, zero, suc, ◌+◌, ◌≤◌, ◌<◌, ◌≡◌, refl, String, Bool, true, false, arith, ◌≢◌, ◌||◌, not,
  Bool-cases, eq_iff, inl, inr,
}
use merlya.Common.Outcome.{Outcome, returned, raised, cancelled, Exec}
use merlya.Common.Dict.{insert, lookup-insert}
use merlya.Ssh.Circuit
use merlya.Ssh.Circuit.{CircuitBreaker, open_, record_success, record_failure}
use merlya.Ssh.Types.{SshResult}
use merlya.Ssh.Pool.{
  PoolConfig, Pool, Target, Net, State, breaker_of, set_breaker, connection_key, make_room,
  evict_lru_connection, reuse, store, get_connection, invalidate_connection, execute_once,
  execute_loop, execute, max_attempts, retry_or_fail, attempted, fail, blank, after_sleep,
}

-- The breakers after a run: the host's breaker has one success more, or one failure more, or is
-- left alone.
abbrev pub Settled : Outcome SshResult → String → Pool → Pool → Type 0
Settled (returned r) h p q =
    q.circuit_breakers ≡ insert h (record_success (breaker_of h p)) p.circuit_breakers
Settled (raised e) h p q =
    (now : ℕ) × (q.circuit_breakers
      ≡ insert h (record_failure now (breaker_of h p)) p.circuit_breakers)
Settled cancelled h p q = q.circuit_breakers ≡ p.circuit_breakers

-- Only the breakers before the run matter.
Settled-from :
    (r : Outcome SshResult) (h : String) (p p' q : Pool)
    → p'.circuit_breakers ≡ p.circuit_breakers
    → Settled r h p' q
    → Settled r h p q
Settled-from (returned r) h p p' q e i = ground (arith, e, i)
Settled-from (raised x) h p p' q e (now, i) = (now, ground (arith, e, i))
Settled-from cancelled h p p' q e i = ground (arith, e, i)

make_room-breakers :
    (c : PoolConfig) (s : Pool) → (make_room c s).circuit_breakers ≡ s.circuit_breakers
unfolding make_room evict_lru_connection
make_room-breakers c s = ground arith

reuse-breakers :
    (k : String) (now : ℕ) (s : Pool) → (reuse k now s).1.circuit_breakers ≡ s.circuit_breakers
unfolding reuse
reuse-breakers k now s = ground arith

module _ {W : Type 0} (c : PoolConfig) (net : Net W) where
  get_connection-breakers :
      (t : Target) (s : State W)
      → (get_connection c net t s).1.pool.circuit_breakers ≡ s.pool.circuit_breakers
  unfolding get_connection store
  get_connection-breakers t s = ground (
    arith,
    reuse-breakers (connection_key t) (net.time s.world) s.pool,
    make_room-breakers c (reuse (connection_key t) (net.time s.world) s.pool).1,
  )

  -- One attempt counts a success where it returns, and nothing where it does not.
  abbrev OnceSettled : Outcome SshResult → String → Pool → Pool → Type 0
  OnceSettled (returned r) h p q = Settled (returned r) h p q
  OnceSettled (raised e) h p q = q.circuit_breakers ≡ p.circuit_breakers
  OnceSettled cancelled h p q = q.circuit_breakers ≡ p.circuit_breakers

  execute_once-OnceSettled :
      (t : Target) (command : String) (s : State W)
      → OnceSettled
          (execute_once c net t command s).0
          t.host
          s.pool
          (execute_once c net t command s).1.pool
  unfolding execute_once
  execute_once-OnceSettled t command s = ground (arith, get_connection-breakers t s)

  fail-Settled :
      (h e : String) (p : Pool) (s : State W)
      → s.pool.circuit_breakers ≡ p.circuit_breakers
      → Settled (fail c net h e s).0 h p (fail c net h e s).1.pool
  fail-Settled h e p s i = (net.time s.world, ground (arith, i))

  -- The wait between two attempts does not fail.
  abbrev pub Sleeps : Type 0
  Sleeps = (n : ℕ) (w : W) → (e : String) → (net.sleep n w).0 ≢ raised e

  after_sleep-Settled :
      (h : String) (p : Pool) (rest : Exec (State W) SshResult) (r : Outcome (Unit {0}))
      (s : State W)
      → ((e : String) → r ≢ raised e)
      → s.pool.circuit_breakers ≡ p.circuit_breakers
      → ((s' : State W)
          → s'.pool.circuit_breakers ≡ p.circuit_breakers
          → Settled (rest s').0 h p (rest s').1.pool)
      → Settled (after_sleep c net rest r s).0 h p (after_sleep c net rest r s).1.pool
  after_sleep-Settled h p rest (returned _) s n i f = f s i
  after_sleep-Settled h p rest (raised e) s n i f = absurd (n e refl)
  after_sleep-Settled h p rest cancelled s n i f = i

  retry_or_fail-Settled :
      (t : Target) (attempt : ℕ) (e : String) (rest : Exec (State W) SshResult) (p : Pool)
      (b : Bool) (s : State W)
      → Sleeps
      → s.pool.circuit_breakers ≡ p.circuit_breakers
      → (b ≡ true
          → (s' : State W) → s'.pool.circuit_breakers ≡ p.circuit_breakers
          → Settled (rest s').0 t.host p (rest s').1.pool)
      → Settled
          (retry_or_fail c net t attempt e rest b s).0
          t.host
          p
          (retry_or_fail c net t attempt e rest b s).1.pool
  unfolding invalidate_connection
  retry_or_fail-Settled t attempt e rest p true s n i f =
      after_sleep-Settled t.host p rest _ _ (n _ _) i (f refl)
  retry_or_fail-Settled t attempt e rest p false s n i f = fail-Settled t.host e p s i

  attempted-Settled :
      (t : Target) (retry : Bool) (max attempt : ℕ) (rest : Exec (State W) SshResult) (p : Pool)
      (r : Outcome SshResult) (s : State W)
      → Sleeps
      → OnceSettled r t.host p s.pool
      → (suc attempt < max
          → (s' : State W) → s'.pool.circuit_breakers ≡ p.circuit_breakers
          → Settled (rest s').0 t.host p (rest s').1.pool)
      → Settled
          (attempted c net t retry max attempt rest r s).0
          t.host
          p
          (attempted c net t retry max attempt rest r s).1.pool
  attempted-Settled t retry max attempt rest p (returned x) s n i f = i
  attempted-Settled t retry max attempt rest p cancelled s n i f = i
  attempted-Settled t retry max attempt rest p (raised e) s n i f =
      retry_or_fail-Settled t attempt e rest p _ s n i (λ b. f (ground (arith, b)))

  execute_loop-Settled :
      (t : Target) (command : String) (retry : Bool) (max left attempt : ℕ) (s : State W)
      → Sleeps
      → attempt + suc left ≡ max
      → Settled
          (execute_loop c net t command retry max (suc left) attempt s).0
          t.host
          s.pool
          (execute_loop c net t command retry max (suc left) attempt s).1.pool
  unfolding execute_loop
  execute_loop-Settled t command retry max zero attempt s n a =
      attempted-Settled t retry max attempt _ s.pool _ _ n (execute_once-OnceSettled t command s)
        (λ l. absurd (omega arith))
  execute_loop-Settled t command retry max (suc left) attempt s n a =
      attempted-Settled t retry max attempt _ s.pool _ _ n (execute_once-OnceSettled t command s)
        (λ l s' i.
          Settled-from _ t.host s.pool s'.pool _ i
            (execute_loop-Settled t command retry max left (attempt + 1) s' n (omega arith)))

  -- The pool once `_get_circuit_breaker` has been asked for the host's breaker.
  abbrev pub with_breaker : String → Pool → Pool
  with_breaker h p = set_breaker h (breaker_of h p) p

  -- Where neither the host nor the command is blank, at least one attempt is allowed, the waits do
  -- not fail and the breaker lets the call through, a run of execute, with all its attempts, counts
  -- once in the breaker of its host and nowhere else: one success if a result is returned, one
  -- failure if an exception is raised, nothing if the task is cancelled.
  pub execute-Settled :
      (t : Target) (command : String) (retry : Bool) (s : State W)
      → Sleeps
      → 1 ≤ c.max_retries
      → blank c net t.host ≡ false
      → blank c net command ≡ false
      → Circuit.can_execute (breaker_of t.host s.pool) (net.time s.world) ≡ true
      → Settled
          (execute c net t command retry s).0
          t.host
          (with_breaker t.host s.pool)
          (execute c net t command retry s).1.pool
  unfolding execute
  execute-Settled t command retry s n m h k b =
      rw (h, k, b) (loop retry (max_attempts c net retry) (ground arith))
    where
      loop :
          (retry : Bool) (max : ℕ)
          → 1 ≤ max
          → Settled
              (execute_loop c net t command retry max max 0
                (record s { pool = with_breaker t.host s.pool })).0
              t.host
              (with_breaker t.host s.pool)
              (execute_loop c net t command retry max max 0
                (record s { pool = with_breaker t.host s.pool })).1.pool
      loop retry zero l = absurd (omega arith)
      loop retry (suc left) l =
          execute_loop-Settled t command retry (suc left) left 0 _ n (omega arith)

  breaker_of-with_breaker :
      (h j : String) (p : Pool) → breaker_of j (with_breaker h p) ≡ breaker_of j p
  breaker_of-with_breaker h j p =
      ground (arith, eq_iff h j, lookup-insert h j (breaker_of h p) p.circuit_breakers)

  -- A blank host or command and a breaker that does not let the call through raise an error before
  -- anything is done in the world, and count nothing in the breaker.
  pub execute-rejects :
      (t : Target) (command : String) (retry : Bool) (s : State W)
      → (blank c net t.host
          || blank c net command
          || not (Circuit.can_execute (breaker_of t.host s.pool) (net.time s.world)))
        ≡ true
      → let r = execute c net t command retry s in
        (e : String) × (r.0 ≡ raised e)
        × (r.1.world ≡ s.world)
        × (r.1.pool.connections ≡ s.pool.connections)
        × ((j : String) → breaker_of j r.1.pool ≡ breaker_of j s.pool)
  unfolding execute
  execute-rejects t command retry s h = elim (Bool-cases (blank c net t.host)) [
    | inl a ↦ rw a (_, refl, refl, refl, λ j. refl)
    | inr a ↦ elim (Bool-cases (blank c net command)) [
      | inl b ↦ rw (a, b) (_, refl, refl, refl, λ j. refl)
      | inr b ↦
          elim (Bool-cases (Circuit.can_execute (breaker_of t.host s.pool) (net.time s.world))) [
            | inl d ↦ absurd (ground (arith, a, b, d, h))
            | inr d ↦
                rw (a, b, d) (_, refl, refl, refl, λ j. breaker_of-with_breaker t.host j s.pool)
          ]
    ]
  ]
