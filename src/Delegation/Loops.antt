-- ===== src/Delegation/Loops.antt =====
-- merlya/agent/orchestrator/specialist_runner.py: where the retries call the specialist.
use merlya.Common.{
  ℕ, zero, suc, ◌+◌, ◌≡◌, refl, ap, ◌∙◌, Bool, true, false, Option, none, some, [], ltb,
  if◌then◌else◌,
}
use merlya.Common.Text.{Text}
use merlya.Common.Outcome.{Outcome, Exec, returned, raised, cancelled, try_except}
use merlya.Agent.Tracker.{Loop, is_looping}
use merlya.Delegation.{
  SpecialistType, DelegationResult, error, State, Specialist, Prompt, unless_looping, after_attempt,
  failed, unless_stuck, attempts, run_specialist_with_retry, task_seems_complete, current_task,
  specialist_limit,
}

-- Two specialists that do the same wherever the tracker has found no loop.
abbrev pub AgreeUnlooped : {W : Type 0} → Specialist W → Specialist W → Type 0
AgreeUnlooped {W} f g =
    (t : Text) (u : Option Text) (p : Prompt) (n : ℕ) (s : State W)
    → is_looping s.tracker ≡ none
    → f t u p n s ≡ g t u p n s

module _ {W : Type 0} (k : SpecialistType) where
  -- What comes after an attempt is only reached where no loop is found.
  after_attempt-agree :
      (out : Text) (m n : Exec (State W) DelegationResult) (s : State W)
      → (is_looping s.tracker ≡ none → m s ≡ n s)
      → after_attempt k out m s ≡ after_attempt k out n s
  unfolding after_attempt
  after_attempt-agree out m n s h =
      branches _ _ _ (task_seems_complete out) (same (is_looping s.tracker) refl)
    where
      same :
          (l : Option Loop)
          → is_looping s.tracker ≡ l
          → unless_looping k out l m s ≡ unless_looping k out l n s
      same none e = h e
      same (some l) e = refl

      branches :
          {A : Type 0} (a b c : A) (t : Bool) → b ≡ c → (if t then a else b) ≡ (if t then a else c)
      branches a b c true e = refl
      branches a b c false e = e

  unless_stuck-agree :
      (previous : Text) (b : Bool) (l : Option Loop) (m n : Exec (State W) DelegationResult)
      (s : State W)
      → m s ≡ n s
      → unless_stuck k previous b l m s ≡ unless_stuck k previous b l n s
  unfolding unless_stuck
  unless_stuck-agree previous true (some l) m n s h = refl
  unless_stuck-agree previous true none m n s h = h
  unless_stuck-agree previous false l m n s h = h

  try_except-agree :
      (o : Outcome Text) (m n : Text → Exec (State W) DelegationResult) (s : State W)
      → ((out : Text) → m out s ≡ n out s)
      → try_except o m (λ e. failed k (error e)) s ≡ try_except o n (λ e. failed k (error e)) s
  unfolding try_except
  try_except-agree (returned out) m n s h = h out
  try_except-agree (raised e) m n s h = refl
  try_except-agree cancelled m n s h = refl

module _ {W : Type 0} (f g : Specialist W) (k : SpecialistType) (target : Text)
    (username : Option Text) (task : Text) where
  -- An attempt whose call of the specialist is the same for both, before the attempts left.
  pub attempt-agree :
      (left attempt : ℕ) (previous : Text) (s : State W)
      → f target username (current_task task previous s.tracker) (specialist_limit k) s
        ≡ g target username (current_task task previous s.tracker) (specialist_limit k) s
      → ((out : Text) (s2 : State W)
          → is_looping s2.tracker ≡ none
          → attempts f k target username task left (attempt + 1) out s2
            ≡ attempts g k target username task left (attempt + 1) out s2)
      → attempts f k target username task (suc left) attempt previous s
        ≡ attempts g k target username task (suc left) attempt previous s
  unfolding attempts
  attempt-agree left attempt previous s e h =
      let r = g target username (current_task task previous s.tracker) (specialist_limit k) s in
      unless_stuck-agree k previous (ltb 0 attempt) (is_looping s.tracker) _ _ s (
        ap
          (λ x.
            try_except x.0
              (λ out.
                after_attempt k out (attempts f k target username task left (attempt + 1) out))
              (λ y. failed k (error y)) x.1)
          e
        ∙ try_except-agree k r.0 _ _ r.1 λ out.
          after_attempt-agree k out (attempts f k target username task left (attempt + 1) out)
            (attempts g k target username task left (attempt + 1) out) r.1 (h out r.1))

  retries-agree :
      AgreeUnlooped f g
      → (left attempt : ℕ) (previous : Text) (s : State W) → is_looping s.tracker ≡ none
      → attempts f k target username task left attempt previous s
        ≡ attempts g k target username task left attempt previous s
  unfolding attempts
  retries-agree a zero attempt previous s e = refl
  retries-agree a (suc left) attempt previous s e =
      attempt-agree left attempt previous s (a _ _ _ _ s e) (retries-agree a left (attempt + 1))

  -- After its first call of the specialist, a delegation with retries does not depend on what the
  -- specialist does where the tracker has found a loop: it never calls it there.
  pub run_specialist_with_retry-agree :
      (s : State W)
      → AgreeUnlooped f g
      → f target username (current_task task [] s.tracker) (specialist_limit k) s
        ≡ g target username (current_task task [] s.tracker) (specialist_limit k) s
      → run_specialist_with_retry f k target username task s
        ≡ run_specialist_with_retry g k target username task s
  unfolding run_specialist_with_retry
  run_specialist_with_retry-agree s a e = attempt-agree 2 0 [] s e (retries-agree a 2 1)
