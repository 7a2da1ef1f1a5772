-- ===== src/Resilience/Retry/Attempts.antt =====
-- Which attempts are made, with what result, and the delays between them.
use mathlib.Core.List.{append-nil, append_assoc}
use native.Mathlib.Nat.{add-zero, zero-add}
use merlya.Common.{
  ℕ, zero, suc, ◌+◌, ◌≤◌, ◌<◌, ◌≡◌, String, Bool, true, false, List, [], ◌∷◌, ◌++◌, arith,
  Bool-cases, inl, inr, ◌-◌,
}
use merlya.Common.Outcome.{Outcome, returned, raised, cancelled, Exec}
use merlya.Resilience.Retry.{RetryConfig, Env, delay, retry_loop, retry}

-- A world that counts the calls and logs the delays, in which the n-th call ends as a script says.
pub record Log : Type 0 where
  pub calls : ℕ
  pub slept : List ℕ

module _ {A : Type 0} (matches : String → Bool) (script : ℕ → Outcome A) where
  abbrev pub logging : Env Log
  logging = record {
    matches = matches;
    inc_retries = λ n w. w;
    sleep = λ d w. (returned tt, record w { slept = w.slept ++ d ∷ [] });
  }

  abbrev pub scripted : Exec Log A
  scripted w = (script w.calls, record w { calls = w.calls + 1 })

-- The specification: the retries made from the n-th call on, of at most `left`. The first call that
-- does not raise a retryable exception ends them.
module _ {A : Type 0} (matches : String → Bool) where
  abbrev pub is_retryable : Outcome A → Bool
  is_retryable (returned a) = false
  is_retryable (raised e) = matches e
  is_retryable cancelled = false

  pub retries : (ℕ → Outcome A) → ℕ → ℕ → ℕ
  retries script zero n = 0
  retries script (suc left) n = elim (is_retryable (script n)) [
    | true ↦ suc (retries script left (n + 1))
    | false ↦ 0
  ]

-- The delays after the attempts `attempt`, `attempt + 1` and so on, so many of them.
pub delays : RetryConfig → ℕ → ℕ → List ℕ
delays c attempt zero = []
delays c attempt (suc n) = delay c attempt ∷ delays c (attempt + 1) n

module _ {A : Type 0} (c : RetryConfig) (matches : String → Bool) (script : ℕ → Outcome A) where
  abbrev Ran : ℕ → ℕ → List ℕ → Outcome A × Log
  Ran n r slept =
      (script (n + r), record { calls = n + r + 1; slept = slept ++ delays c (n + 1) r })

  retry_loop_lem :
      (left n : ℕ) (slept : List ℕ)
      → n + 1 + left ≡ c.max_attempts
      → retry_loop c
          (logging matches script)
          (scripted matches script)
          (suc left)
          (n + 1)
          (record { calls = n; slept = slept })
        ≡ Ran n (retries matches script left n) slept
  unfolding retry_loop retries delays
  retry_loop_lem zero n slept h = ground (arith, append-nil slept)
  retry_loop_lem (suc left) n slept h =
      let d = delay c (n + 1) in
      ground (
        arith,
        retry_loop_lem left (n + 1) (slept ++ d ∷ []),
        append-nil slept,
        append_assoc slept (d ∷ []) (delays c (n + 1 + 1) (retries matches script left (n + 1))),
      )

  retries_lem :
      (left n : ℕ)
      → (retries matches script left n ≤ left)
        × ((j : ℕ)
            → j < retries matches script left n
            → is_retryable matches (script (n + j)) ≡ true)
        × (retries matches script left n < left
            → is_retryable matches (script (n + retries matches script left n)) ≡ false)
  unfolding retries
  retries_lem zero n = (omega arith, λ j h. absurd (omega arith), λ h. absurd (omega arith))
  retries_lem (suc left) n = elim (Bool-cases (is_retryable matches (script n))) [
    | inl e ↦
        rw (e, retries) (again (retries matches script left (n + 1)) e (retries_lem left (n + 1)))
    | inr e ↦ rw (e, retries) (omega arith, λ j h. absurd (omega arith), λ h. rw add-zero e)
  ]
    where
      again :
          (r : ℕ)
          → is_retryable matches (script n) ≡ true
          → (r ≤ left)
            × ((j : ℕ) → j < r → is_retryable matches (script (n + 1 + j)) ≡ true)
            × (r < left → is_retryable matches (script (n + 1 + r)) ≡ false)
          → (suc r ≤ suc left)
            × ((j : ℕ) → j < suc r → is_retryable matches (script (n + j)) ≡ true)
            × (suc r < suc left → is_retryable matches (script (n + suc r)) ≡ false)
      again r e (a, b, z) = (omega arith, below, λ h. rw (shift r) (z (omega arith)))
        where
          shift : (j : ℕ) → n + suc j ≡ n + 1 + j
          shift j = omega arith

          below : (j : ℕ) → j < suc r → is_retryable matches (script (n + j)) ≡ true
          below zero h = rw add-zero e
          below (suc j) h = rw (shift j) (b j (omega arith))

  first_final :
      (left : ℕ)
      → suc left ≡ c.max_attempts
      → (r : ℕ) × (r < c.max_attempts)
        × (retry_loop c
              (logging matches script)
              (scripted matches script)
              c.max_attempts
              1
              (record { calls = 0; slept = [] })
            ≡ (script r, record { calls = r + 1; slept = delays c 1 r }))
        × ((j : ℕ) → j < r → is_retryable matches (script j) ≡ true)
        × (r + 1 < c.max_attempts → is_retryable matches (script r) ≡ false)
  first_final left e =
      let r = retries matches script left 0 in
      let (a, b, z) = retries_lem left 0 in
      let ran = retry_loop_lem left 0 [] (omega arith) in
      let z' : r < left → is_retryable matches (script r) ≡ false = λ h. rw zero-add at (z h) in
      (
        r,
        omega arith,
        rw e at (simp zero-add at ran),
        λ j h. rw zero-add at (b j h),
        λ h. z' (omega arith),
      )

  -- With at least one attempt allowed, `retry` around calls whose n-th one ends as a script says
  -- ends as call r does, counted from 0, for some r below `max_attempts`: the calls before it all
  -- raised a retryable exception, and it did not, or it was the last one allowed. The function was
  -- called r + 1 times, with the delays of the attempts 1 to r between the calls.
  pub retry_first_final :
      0 < c.max_attempts
      → (r : ℕ) × (r < c.max_attempts)
        × (retry c
              (logging matches script)
              (scripted matches script)
              (record { calls = 0; slept = [] })
            ≡ (script r, record { calls = r + 1; slept = delays c 1 r }))
        × ((j : ℕ) → j < r → is_retryable matches (script j) ≡ true)
        × (r + 1 < c.max_attempts → is_retryable matches (script r) ≡ false)
  unfolding retry
  retry_first_final h = first_final (c.max_attempts - 1) (omega arith)
