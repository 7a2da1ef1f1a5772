-- ===== src/Resilience/Breaker/History.antt =====
-- The breaker against its history: what `failure_count` counts, how the circuit trips, and how it
-- recovers.
use merlya.Common.{
  ℕ, zero, suc, ◌+◌, ◌≤◌, ◌<◌, ◌≡◌, refl, true, List, [], ◌∷◌, map, arith, length, replicate, ◌⊎◌,
}
use merlya.Resilience.Breaker.{
  closed, open_, half_open, CircuitBreakerConfig, CircuitBreaker, new, recovered, Event, start,
  success, failure, reset_, step, run,
}
use merlya.Resilience.Breaker.Invariant.{run-IsValid, new-IsValid}

-- The failures since the last success or reset, after `acc` earlier ones.
abbrev pub failures_since : ℕ → List Event → ℕ
failures_since acc [] = acc
failures_since acc (start _ ∷ es) = failures_since acc es
failures_since acc (success ∷ es) = failures_since 0 es
failures_since acc (failure _ ∷ es) = failures_since (acc + 1) es
failures_since acc (reset_ ∷ es) = failures_since 0 es

module _ (config : CircuitBreakerConfig) where
  count-run :
      (b : CircuitBreaker) (acc : ℕ) (es : List Event)
      → (b.state ≡ closed → b.failure_count ≡ acc)
      → (run config b es).state ≡ closed
      → (run config b es).failure_count ≡ failures_since acc es
  unfolding run
  count-run b acc [] h c = h c
  count-run b acc (start now ∷ es) h c =
      count-run (step config b (start now)) acc es (unfold step in ground arith) c
  count-run b acc (success ∷ es) h c =
      count-run (step config b success) 0 es (unfold step in ground arith) c
  count-run b acc (failure now ∷ es) h c =
      count-run (step config b (failure now)) (acc + 1) es (unfold step in ground arith) c
  count-run b acc (reset_ ∷ es) h c =
      count-run (step config b reset_) 0 es (unfold step in ground arith) c

  -- With positive thresholds, if the circuit is closed after any history of a new breaker, then
  -- `failure_count` is the number of failures since the last success or reset, and this number is
  -- below the failure threshold.
  pub closed_history :
      (es : List Event)
      → 0 < config.failure_threshold
      → 0 < config.success_threshold
      → (run config new es).state ≡ closed
      → ((run config new es).failure_count ≡ failures_since 0 es)
        × (failures_since 0 es < config.failure_threshold)
  closed_history es f g c =
      let e = count-run new 0 es (λ _. refl) c in
      let v = (run-IsValid config f g new es (new-IsValid config f g)).closed_below c in
      (e, omega arith)

  stays_open :
      (b : CircuitBreaker) (ts : List ℕ)
      → (b.state ≡ open_)
        ⊎ (b.failure_count < config.failure_threshold)
          × (config.failure_threshold ≤ b.failure_count + length ts)
      → (run config b (map failure ts)).state ≡ open_
  unfolding run
  stays_open b [] h = ground arith
  stays_open b (t ∷ ts) h = stays_open (step config b (failure t)) ts (unfold step in ground arith)

  -- From every breaker, in any state, as many failures in a row as the threshold (a positive one),
  -- at whatever times, leave the circuit open.
  pub failures_open :
      (b : CircuitBreaker) (ts : List ℕ)
      → 0 < config.failure_threshold
      → config.failure_threshold ≤ length ts
      → (run config b (map failure ts)).state ≡ open_
  unfolding run
  failures_open b [] f h = ground arith
  failures_open b (t ∷ ts) f h =
      stays_open (step config b (failure t)) ts (unfold step in ground arith)

  closes :
      (b : CircuitBreaker) (n : ℕ)
      → (b.state ≡ half_open) × (b.success_count + suc n ≡ config.success_threshold)
      → ((run config b (replicate (suc n) success)).state ≡ closed)
        × ((run config b (replicate (suc n) success)).failure_count ≡ 0)
  unfolding run
  closes b zero h = unfold step in ground arith
  closes b (suc n) h = closes (step config b success) n (unfold step in ground arith)

  -- An open circuit whose recovery timeout has passed closes after one admitted start and exactly
  -- `success_threshold` successes (a positive number), and its failure count is 0 again.
  pub recovery_closes :
      (b : CircuitBreaker) (now n : ℕ)
      → b.state ≡ open_
      → recovered config b.last_failure_time now ≡ true
      → config.success_threshold ≡ suc n
      → ((run config b (start now ∷ replicate (suc n) success)).state ≡ closed)
        × ((run config b (start now ∷ replicate (suc n) success)).failure_count ≡ 0)
  unfolding run
  recovery_closes b now n o r e = closes (step config b (start now)) n (unfold step in ground arith)
