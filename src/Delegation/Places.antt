-- ===== src/Delegation/Places.antt =====
-- merlya/agent/orchestrator/specialist_tools.py: where the tools that delegate run a specialist.
use merlya.Common.{true, zero, suc, ℕ, ◌+◌, ◌≡◌, refl, ap, Option, none, some, []}
use merlya.Common.Text.{Text, codes}
use merlya.Common.Outcome.{Exec, returned, try_except}
use merlya.Delegation.{
  SpecialistType, diagnostic, execution, security, query, Specialist, State, DelegationResult,
  attempts, run_specialist_with_retry, run_specialist_once, output, hidden_error, failed, Prompt,
  plain, specialist_limit,
}
use merlya.Delegation.Targets.{
  Inventory, delegate_diagnostic, delegate_execution, delegate_security, delegate_query,
  resolve_target,
}
use merlya.Delegation.Addresses.{Names, resolve_target-Names}
use merlya.Delegation.Loops.{attempt-agree}

-- Where the tool of a specialist runs it: the place that the target names for a diagnostic and for
-- an execution, the target as it is written for security, and this machine for a query.
abbrev pub GoesTo : Inventory → SpecialistType → Text → Text × Option Text → Type 0
GoesTo i diagnostic target r = Names i target r
GoesTo i execution target r = Names i target r
GoesTo i security target r = r ≡ (target, none)
GoesTo i query target r = r ≡ (codes "local", none)

-- Two specialists that do the same at a place, that is, with this host and this user.
abbrev pub AgreeAt : {W : Type 0} → Specialist W → Specialist W → Text × Option Text → Type 0
AgreeAt {W} f g r = (p : Prompt) (n : ℕ) (s : State W) → f r.0 r.1 p n s ≡ g r.0 r.1 p n s

-- The tool of each specialist; that of a query takes no target.
abbrev pub delegate :
    {W : Type 0}
    → Inventory
    → SpecialistType
    → Specialist W
    → (target task : Text) → Exec (State W) DelegationResult
delegate i diagnostic f target task = delegate_diagnostic i f target task
delegate i execution f target task = delegate_execution i f target task
delegate i security f target task = delegate_security f target task
delegate i query f target task = delegate_query f task

module _ {W : Type 0} (f g : Specialist W) (k : SpecialistType) (r : Text × Option Text)
    (task : Text) (a : AgreeAt f g r) where
  attempts-agree :
      (left attempt : ℕ) (previous : Text) (s : State W)
      → attempts f k r.0 r.1 task left attempt previous s
        ≡ attempts g k r.0 r.1 task left attempt previous s
  unfolding attempts
  attempts-agree zero attempt previous s = refl
  attempts-agree (suc left) attempt previous s =
      attempt-agree f g k r.0 r.1 task left attempt previous s (a _ _ s)
        (λ out s2 e. attempts-agree left (attempt + 1) out s2)

  retry-agree :
      (s : State W)
      → run_specialist_with_retry f k r.0 r.1 task s ≡ run_specialist_with_retry g k r.0 r.1 task s
  unfolding run_specialist_with_retry
  retry-agree s = attempts-agree 3 0 [] s

  once-agree :
      (s : State W)
      → run_specialist_once f k r.0 r.1 task s ≡ run_specialist_once g k r.0 r.1 task s
  unfolding run_specialist_once
  once-agree s =
      ap
        (λ x.
          try_except x.0
            (λ out s2. (
              returned
                  (record { success = true; report = output out; specialist = k; complete = true }),
              s2,
            ))
            (λ e. failed k hidden_error) x.1)
        (a (plain task) (specialist_limit k) s)

-- What the tool of a specialist returns and does depends only on what the specialist does at the
-- place where it goes: with specialists that agree there, and may differ everywhere else, the tool
-- ends the same. A diagnostic and an execution go where their target names, security goes to its
-- target as it is written, and a query to this machine.
pub delegate-agree :
    {W : Type 0} (i : Inventory) (k : SpecialistType) (f g : Specialist W) (target task : Text)
    (s : State W)
    → ((r : Text × Option Text) → GoesTo i k target r → AgreeAt f g r)
    → delegate i k f target task s ≡ delegate i k g target task s
unfolding delegate_diagnostic delegate_execution delegate_security delegate_query
delegate-agree i diagnostic f g target task s a =
    retry-agree f g diagnostic (resolve_target (some i) target) task
      (a _ (resolve_target-Names i target)) s
delegate-agree i execution f g target task s a =
    retry-agree f g execution (resolve_target (some i) target) task
      (a _ (resolve_target-Names i target)) s
delegate-agree i security f g target task s a =
    once-agree f g security (target, none) task (a _ refl) s
delegate-agree i query f g target task s a =
    once-agree f g query (codes "local", none) task (a _ refl) s
