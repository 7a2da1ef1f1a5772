-- ===== src/Resilience/Retry.antt =====
-- The `retry` decorator of merlya/core/resilience.py. Delays are naturals in one unit; the base of
-- the back-off is a natural. The retry metric and `asyncio.sleep` act on the world.
pub mod Attempts
pub mod Delay
use merlya.Common.{ℕ, zero, suc, ◌+◌, ◌-◌, ◌*◌, ◌^◌, min, String, Bool, true, false, ◌==◌}
use merlya.Common.Outcome.{Outcome, returned, raised, cancelled, Exec}

pub record RetryConfig : Type 0 where
  pub max_attempts : ℕ
  pub initial_delay : ℕ
  pub max_delay : ℕ
  pub exponential_base : ℕ

-- min(initial_delay * (exponential_base ** (attempt - 1)), max_delay), for attempt >= 1
unfoldable pub delay : RetryConfig → ℕ → ℕ
delay c attempt = min (c.initial_delay * c.exponential_base ^ (attempt - 1)) c.max_delay

-- Whether an exception is an instance of one of `exceptions`, the metric's `inc(attempt=...)`, and
-- `asyncio.sleep`, which a cancellation can end.
pub record Env (W : Type 0) : Type 0 where
  pub matches : String → Bool
  pub inc_retries : ℕ → W → W
  pub sleep : ℕ → Exec W (Unit {0})

module _ {W A : Type 0} (c : RetryConfig) (env : Env W) (func : Exec W A) where
  abbrev pub after_sleep : Exec W A → Outcome (Unit {0}) → Exec W A
  after_sleep rest (returned _) w = rest w
  after_sleep rest (raised e) w = (raised e, w)
  after_sleep rest cancelled w = (cancelled, w)

  abbrev pub pause : ℕ → Exec W A → Exec W A
  pause attempt rest w =
      let r = env.sleep (delay c attempt) (env.inc_retries attempt w) in after_sleep rest r.0 r.1

  -- The body of the loop at an attempt, given the attempts that are left after it.
  abbrev pub attempt_once : ℕ → Exec W A → Outcome A → Exec W A
  attempt_once attempt rest (returned a) w = (returned a, w)
  attempt_once attempt rest (raised e) w = elim (env.matches e) [
    | false ↦ (raised e, w)
    | true ↦ elim (attempt == c.max_attempts) [
      | true ↦ (raised e, w)
      | false ↦ pause attempt rest w
    ]
  ]
  attempt_once attempt rest cancelled w = (cancelled, w)

  -- for attempt in range(1, max_attempts + 1), from `attempt` with so many rounds left; the end of
  -- the loop is reached only without any attempt.
  pub retry_loop : ℕ → ℕ → Exec W A
  retry_loop zero attempt w = (raised "Retry logic error", w)
  retry_loop (suc left) attempt w =
      attempt_once attempt (retry_loop left (attempt + 1)) (func w).0 (func w).1

  unfoldable pub retry : Exec W A
  unfolding retry_loop
  retry = retry_loop c.max_attempts 1
