-- ===== src/Pipelines/Bash/Outcomes.antt =====
-- merlya/pipelines/bash.py: what a run of the whole pipeline has executed.
use merlya.Common.{◌<>◌, ◌≡◌, String, true, false, none, List, ◌++◌}
use merlya.Common.Outcome.{Outcome}
use merlya.Common.Outcome.Triple.{Triple}
use merlya.Pipelines.{
  risk_label, assess_risk_level, DiffResult, PipelineDeps, Pipeline, Run, ApplyResult,
}
use merlya.Pipelines.Records.{applied}
use merlya.Pipelines.Bash.{BashPipeline}
use merlya.Pipelines.Bash.Stages.{Shell, State, Executed, bash_pipeline}
use merlya.Pipelines.Bash.Runs.{Ran}

-- The world in which the commands start: the time is read at the start, the user is asked with some
-- message and answers, the time is read twice, and the pool is asked for.
abbrev pub first_world : {W : Type 0} → Shell W → String → W → W
first_world sh m w =
    (sh.get_ssh_pool (sh.now (sh.now (sh.prompt_confirm m false (sh.now w).1).1).1).1).1

-- All commands have run on the target, from the world in which they start on, each with the exit
-- code 0, and what was executed comes after what was executed before.
abbrev pub AllRan : {W : Type 0} → BashPipeline → Shell W → W → List Executed → State W → Type 0
AllRan {W} b sh w before s =
    (m : String) × (es : List Executed) × (v : W) × (s.executed ≡ before ++ es)
    × Ran sh b.target b.commands (first_world sh m w) es true v

module _ {W : Type 0} (b : BashPipeline) (sh : Shell W) (deps : PipelineDeps) (w : W)
    (before : List Executed) where
  abbrev p : Pipeline (State W)
  p = bash_pipeline b sh

  -- Nothing has been applied, and the world is this one.
  abbrev At : W → Run (State W) → Type 0
  At u s = (s.world.executed ≡ before) × (s.result.apply_result ≡ none) × (s.world.world ≡ u)

  abbrev Fresh : Run (State W) → Type 0
  Fresh = At (sh.now w).1

  -- The user has answered a question; and the time has been read.
  abbrev Asked : Run (State W) → Type 0
  Asked s = (m : String) × At (sh.prompt_confirm m false (sh.now w).1).1 s

  abbrev Noted : Run (State W) → Type 0
  Noted s = (m : String) × At (sh.now (sh.prompt_confirm m false (sh.now w).1).1).1 s

  abbrev Good : Run (State W) → Type 0
  Good s = applied s.result.apply_result ≡ true → AllRan b sh w before s.world

  -- After apply(), before its result is recorded.
  abbrev Ended : ApplyResult → Run (State W) → Type 0
  Ended a s = (a.success ≡ true → AllRan b sh w before s.world) × (s.result.apply_result ≡ none)

  abbrev question : DiffResult → String
  question d = risk_label (assess_risk_level d) <> " Approve " <> "bash" <> " changes?"
