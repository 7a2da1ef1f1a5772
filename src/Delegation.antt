-- ===== src/Delegation.antt =====
-- merlya/agent/orchestrator: the tools that delegate a task to a specialist, with
-- specialist_runner.py and specialist_tools.py. A specialist, which calls the language model, is a
-- parameter: an action on the world and the tracker of tool calls. The messages that are put
-- together of a task, an output and a tracker are the constructors of `Prompt` and `Report`.
mod Completion
pub mod Sanitization
pub mod Targets
pub mod Attempts
pub mod Loops
pub mod Addresses
pub mod Places
mod Examples
pub use Completion.*
use merlya.Common.{
  ℕ, zero, suc, ◌+◌, String, Bool, true, false, ◌&&◌, Option, none, some, List, [], ◌∷◌, take, ltb,
  if◌then◌else◌,
}
use merlya.Common.Text.{Text, codes}
use merlya.Common.Outcome.{Outcome, Exec, returned, try_except}
use merlya.Agent.Tracker.{ToolCallTracker, Loop, is_looping}

pub data SpecialistType : Type 0 where
  diagnostic execution security query : SpecialistType

-- SPECIALIST_LIMITS
unfoldable pub specialist_limit : SpecialistType → ℕ
specialist_limit diagnostic = 40
specialist_limit execution = 30
specialist_limit security = 25
specialist_limit query = 15

abbrev pub max_specialist_retries : ℕ
max_specialist_retries = 3

-- The task alone, or with the start of the output before and a summary of the tracker.
pub data Prompt : Type 0 where
  plain : Text → Prompt
  again : (task context : Text) → ToolCallTracker → Prompt

-- An output of a specialist, alone or with the reason of a stop, or one of the fixed texts.
pub data Report : Type 0 where
  output : Text → Report
  output_stopped : Text → Loop → Report
  stopped : Loop → Report
  error : String → Report
  hidden_error : Report
  retries_done : Report

pub record DelegationResult : Type 0 where
  pub success : Bool
  pub report : Report
  pub specialist : SpecialistType
  pub complete : Bool

pub record State (W : Type 0) : Type 0 where
  pub world : W
  pub tracker : ToolCallTracker

-- specialist_fn(deps=..., task=..., usage_limits=...)
abbrev pub Specialist : Type 0 → Type 0
Specialist W =
    (target : Text) (username : Option Text) (task : Prompt) (tool_limit : ℕ) → Exec (State W) Text

-- previous_output or another report
abbrev pub or_report : Text → Report → Report
or_report [] r = r
or_report (c ∷ s) r = output (c ∷ s)

abbrev pub is_some : Option Loop → Bool
is_some none = false
is_some (some _) = true

unfoldable pub current_task : Text → Text → ToolCallTracker → Prompt
current_task task [] t = plain task
current_task task (c ∷ s) t = again task (take 500 (c ∷ s)) t

abbrev pub incomplete : SpecialistType → Report → DelegationResult
incomplete k r = record { success = true; report = r; specialist = k; complete = false }

module _ {W : Type 0} where
  -- The end of an attempt whose output does not seem complete: the loop found, or the next attempt.
  unfoldable pub unless_looping :
      SpecialistType
      → Text
      → Option Loop
      → Exec (State W) DelegationResult
      → Exec (State W) DelegationResult
  unless_looping k out (some l) rest s = (returned (incomplete k (output_stopped out l)), s)
  unless_looping k out none rest s = rest s

  unfoldable pub after_attempt :
      SpecialistType → Text → Exec (State W) DelegationResult → Exec (State W) DelegationResult
  unfolding unless_looping
  after_attempt k out rest s =
      if task_seems_complete out
      then (
        returned (record { success = true; report = output out; specialist = k; complete = true }),
        s,
      )
      else unless_looping k out (is_looping s.tracker) rest s

  unfoldable pub failed : SpecialistType → Report → Exec (State W) DelegationResult
  failed k r s =
      (returned (record { success = false; report = r; specialist = k; complete = false }), s)

  -- Before a retry: the loop found, or the attempt.
  unfoldable pub unless_stuck :
      SpecialistType
      → Text
      → Bool
      → Option Loop
      → Exec (State W) DelegationResult
      → Exec (State W) DelegationResult
  unless_stuck k previous true (some l) try_once s =
      (returned (incomplete k (or_report previous (stopped l))), s)
  unless_stuck k previous _ _ try_once s = try_once s

module _ {W : Type 0} (specialist : Specialist W) (k : SpecialistType) (target : Text)
    (username : Option Text) (task : Text) where
  -- The attempts that are left, from the one with the number `attempt` on.
  unfoldable pub attempts : (left attempt : ℕ) → Text → Exec (State W) DelegationResult
  unfolding unless_stuck after_attempt failed try_except current_task
  attempts zero attempt previous s = (returned (incomplete k (or_report previous retries_done)), s)
  attempts (suc left) attempt previous s =
      unless_stuck k previous (ltb 0 attempt) (is_looping s.tracker)
        (λ s1.
          let r =
            specialist target username (current_task task previous s1.tracker) (specialist_limit k)
              s1 in
          try_except r.0 (λ out. after_attempt k out (attempts left (attempt + 1) out))
            (λ e. failed k (error e)) r.1)
        s

  unfoldable pub run_specialist_with_retry : Exec (State W) DelegationResult
  unfolding attempts
  run_specialist_with_retry = attempts max_specialist_retries 0 []

  unfoldable pub run_specialist_once : Exec (State W) DelegationResult
  unfolding failed try_except
  run_specialist_once s =
      let r = specialist target username (plain task) (specialist_limit k) s in
      try_except r.0
        (λ out s2. (
          returned
              (record { success = true; report = output out; specialist = k; complete = true }),
          s2,
        ))
        (λ e. failed k hidden_error) r.1
