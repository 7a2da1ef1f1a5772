-- ===== src/Delegation/Attempts.antt =====
-- merlya/agent/orchestrator/specialist_runner.py: what a delegation with retries reports, and how
-- often it calls the specialist.
use merlya.Common.{
  ℕ, zero, suc, ◌+◌, ◌≤◌, ◌≡◌, refl, String, Bool, true, false, Option, none, some, [], arith, ltb,
  if◌then◌else◌,
}
use merlya.Common.Text.{Text}
use merlya.Common.Outcome.{Outcome, Exec, returned, raised, cancelled, try_except}
use merlya.Agent.Tracker.{Loop, is_looping}
use merlya.Delegation.{
  SpecialistType, DelegationResult, Report, output, output_stopped, error, State, Specialist,
  Prompt, unless_looping, after_attempt, failed, unless_stuck, attempts, run_specialist_with_retry,
  task_seems_complete, current_task, specialist_limit, max_specialist_retries, or_report,
  retries_done, incomplete, stopped,
}

-- A complete result is an output that seems complete; a failure is an exception of the specialist,
-- and is not complete.
abbrev pub IsTold : Outcome DelegationResult → Type 0
IsTold (returned r) =
    (r.complete ≡ true
      → (r.success ≡ true)
        × ((out : Text) × (r.report ≡ output out) × (task_seems_complete out ≡ true)))
    × (r.success ≡ false → (r.complete ≡ false) × ((e : String) × (r.report ≡ error e)))
IsTold (raised _) = ⊥
IsTold cancelled = Unit

incomplete-IsTold : (k : SpecialistType) (r : Report) → IsTold (returned (incomplete k r))
incomplete-IsTold k r = (λ h. absurd (ground (arith, h)), λ h. absurd (ground (arith, h)))

module _ {W : Type 0} (k : SpecialistType) where
  unless_looping-IsTold :
      (out : Text) (l : Option Loop) (rest : Exec (State W) DelegationResult) (s : State W)
      → IsTold (rest s).0
      → IsTold (unless_looping k out l rest s).0
  unfolding unless_looping
  unless_looping-IsTold out none rest s h = h
  unless_looping-IsTold out (some l) rest s h = incomplete-IsTold k (output_stopped out l)

  after_attempt-IsTold :
      (out : Text) (rest : Exec (State W) DelegationResult) (s : State W)
      → IsTold (rest s).0
      → IsTold (after_attempt k out rest s).0
  unfolding after_attempt
  after_attempt-IsTold out rest s h = go (task_seems_complete out) refl
    where
      go :
          (t : Bool)
          → task_seems_complete out ≡ t
          → IsTold
              (if t
                then (
                  returned (record {
                    success = true;
                    report = output out;
                    specialist = k;
                    complete = true;
                  }),
                  s,
                )
                else unless_looping k out (is_looping s.tracker) rest s).0
      go true e = (λ _. (refl, (out, refl, e)), λ f. absurd (ground (arith, f)))
      go false e = unless_looping-IsTold out (is_looping s.tracker) rest s h

  unless_stuck-IsTold :
      (previous : Text) (b : Bool) (l : Option Loop) (m : Exec (State W) DelegationResult)
      (s : State W)
      → IsTold (m s).0
      → IsTold (unless_stuck k previous b l m s).0
  unfolding unless_stuck
  unless_stuck-IsTold previous true (some l) m s h =
      incomplete-IsTold k (or_report previous (stopped l))
  unless_stuck-IsTold previous true none m s h = h
  unless_stuck-IsTold previous false l m s h = h

  try_except-IsTold :
      (o : Outcome Text) (rest : Text → Exec (State W) DelegationResult) (s : State W)
      → ((out : Text) → IsTold (rest out s).0)
      → IsTold (try_except o rest (λ e. failed k (error e)) s).0
  unfolding try_except failed
  try_except-IsTold (returned out) rest s h = h out
  try_except-IsTold (raised e) rest s h = (λ c. absurd (ground (arith, c)), λ _. (refl, (e, refl)))
  try_except-IsTold cancelled rest s h = tt

module _ {W : Type 0} (specialist : Specialist W) (k : SpecialistType) (target : Text)
    (username : Option Text) (task : Text) where
  attempts-IsTold :
      (left attempt : ℕ) (previous : Text) (s : State W)
      → IsTold (attempts specialist k target username task left attempt previous s).0
  unfolding attempts
  attempts-IsTold zero attempt previous s = incomplete-IsTold k (or_report previous retries_done)
  attempts-IsTold (suc left) attempt previous s =
      let r =
        specialist target username (current_task task previous s.tracker) (specialist_limit k) s in
      unless_stuck-IsTold k previous (ltb 0 attempt) (is_looping s.tracker) _ s (
        try_except-IsTold k r.0
          (λ out.
            after_attempt k out (attempts specialist k target username task left (attempt + 1) out))
          r.1
          λ out.
            after_attempt-IsTold k out
              (attempts specialist k target username task left (attempt + 1) out) r.1
              (attempts-IsTold left (attempt + 1) out r.1))

  -- A delegation with retries returns a result, unless it is cancelled; it never raises. A result
  -- that is complete is a success with an output that seems complete, and one that is no success
  -- holds the exception of a specialist and is not complete.
  pub run_specialist_with_retry-IsTold :
      (s : State W) → IsTold (run_specialist_with_retry specialist k target username task s).0
  unfolding run_specialist_with_retry
  run_specialist_with_retry-IsTold s = attempts-IsTold max_specialist_retries 0 [] s

-- The number of calls, as a measure of the world, which a call of the specialist raises by one at
-- most and nothing else changes.
module _ {W : Type 0} (calls : State W → ℕ) (k : SpecialistType) where
  unless_looping-calls :
      (n : ℕ) (out : Text) (l : Option Loop) (rest : Exec (State W) DelegationResult) (s : State W)
      → calls s ≤ n
      → calls (rest s).1 ≤ n
      → calls (unless_looping k out l rest s).1 ≤ n
  unfolding unless_looping
  unless_looping-calls n out none rest s h c = c
  unless_looping-calls n out (some l) rest s h c = h

  after_attempt-calls :
      (n : ℕ) (out : Text) (rest : Exec (State W) DelegationResult) (s : State W)
      → calls s ≤ n
      → calls (rest s).1 ≤ n
      → calls (after_attempt k out rest s).1 ≤ n
  unfolding after_attempt
  after_attempt-calls n out rest s h c =
      ground (arith, h, unless_looping-calls n out (is_looping s.tracker) rest s h c)

  unless_stuck-calls :
      (n : ℕ) (previous : Text) (b : Bool) (l : Option Loop) (m : Exec (State W) DelegationResult)
      (s : State W)
      → calls s ≤ n
      → calls (m s).1 ≤ n
      → calls (unless_stuck k previous b l m s).1 ≤ n
  unfolding unless_stuck
  unless_stuck-calls n previous true (some l) m s h c = h
  unless_stuck-calls n previous true none m s h c = c
  unless_stuck-calls n previous false l m s h c = c

  try_except-calls :
      (n : ℕ) (o : Outcome Text) (rest : Text → Exec (State W) DelegationResult) (s : State W)
      → calls s ≤ n
      → ((out : Text) → calls (rest out s).1 ≤ n)
      → calls (try_except o rest (λ e. failed k (error e)) s).1 ≤ n
  unfolding try_except failed
  try_except-calls n (returned out) rest s h c = c out
  try_except-calls n (raised e) rest s h c = h
  try_except-calls n cancelled rest s h c = h

module _ {W : Type 0} (specialist : Specialist W) (k : SpecialistType) (target : Text)
    (username : Option Text) (task : Text) (calls : State W → ℕ)
    (one_call : (t : Text) (u : Option Text) (p : Prompt) (n : ℕ) (s : State W)
      → calls (specialist t u p n s).1 ≤ calls s + 1) where
  attempts-calls :
      (left attempt : ℕ) (previous : Text) (s : State W)
      → calls (attempts specialist k target username task left attempt previous s).1
        ≤ calls s + left
  unfolding attempts
  attempts-calls zero attempt previous s = omega arith
  attempts-calls (suc left) attempt previous s =
      let r =
        specialist target username (current_task task previous s.tracker) (specialist_limit k) s in
      let one =
        one_call target username (current_task task previous s.tracker) (specialist_limit k) s in
      unless_stuck-calls calls k _ previous (ltb 0 attempt) (is_looping s.tracker) _ s (omega arith)
        (try_except-calls calls k _ r.0
          (λ out.
            after_attempt k out (attempts specialist k target username task left (attempt + 1) out))
          r.1 (omega (arith, one))
          λ out.
            after_attempt-calls calls k _ out
              (attempts specialist k target username task left (attempt + 1) out) r.1
              (omega (arith, one)) (omega (arith, one, attempts-calls left (attempt + 1) out r.1)))

  -- Where a call of the specialist counts once at most, a delegation with retries counts three at
  -- most, whatever the specialist does and however it ends.
  pub run_specialist_with_retry-calls :
      (s : State W)
      → calls (run_specialist_with_retry specialist k target username task s).1 ≤ calls s + 3
  unfolding run_specialist_with_retry
  run_specialist_with_retry-calls s = attempts-calls max_specialist_retries 0 [] s
