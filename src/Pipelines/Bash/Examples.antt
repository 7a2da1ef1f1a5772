-- ===== src/Pipelines/Bash/Examples.antt =====
-- A shell over a count of the commands run, in which the command "false" fails and "lost" raises.
use merlya.Common.{
  ℕ, ◌+◌, ◌≡◌, refl, ◌≢◌, String, str_eq, Bool, true, false, Option, none, some, List, [], ◌∷◌,
  ◌++◌, if◌then◌else◌,
}
use merlya.Common.Clock.{pos}
use merlya.Common.Outcome.{Outcome, returned, raised, cancelled}
use merlya.Ssh.Types.{SshResult}
use merlya.Pipelines.{PipelineDeps, PipelineResult, PipelineStage, Run, execute, new_result}
use merlya.Pipelines.Bash.{BashPipeline, check_dangerous_patterns, blocked, harmless}
use merlya.Pipelines.Bash.Stages.{Shell, State, Executed, apply, rollback, bash_pipeline}
use merlya.Pipelines.Bash.Blocked.{blocked-runs_nothing}
use merlya.Pipelines.Bash.Runs.{IsApplied, apply-IsApplied}

abbrev answer : String → Outcome SshResult
answer c =
    if str_eq c "lost"
    then raised "gone"
    else returned
        (record { stdout = ""; stderr = ""; exit_code = if str_eq c "false" then pos 1 else pos 0 })

abbrev shell : Shell ℕ
shell = record {
  get_ssh_pool = λ w. (returned tt, w);
  execute = λ h c t w. (answer c, w + 1);
  prompt_confirm = λ m d w. (returned true, w);
  now = λ w. (w, w);
}

abbrev pipeline : List String → List String → BashPipeline
pipeline cs undo = record {
  target = "web";
  commands = cs;
  rollback_commands = undo;
  check_commands = [];
}

abbrev start : State ℕ
start = record { world = 0; executed = [] }

abbrev done : String → ℕ → Executed
done c n = record { command = c; stdout = ""; stderr = ""; exit_code = pos n }

abbrev run : Run (State ℕ)
run = record { world = start; stage = none; rollback_data = []; result = new_result 0 }

abbrev deps : PipelineDeps
deps = record { target = "web"; task = "t"; dry_run = false; auto_rollback = true }

formatting_is_blocked : check_dangerous_patterns "MKFS x" ≡ blocked "Filesystem format"
unfolding check_dangerous_patterns
formatting_is_blocked = refl

-- The option in another order is let through without a warning.
other_order_is_harmless : check_dangerous_patterns "rm -fr /" ≡ harmless
unfolding check_dangerous_patterns
other_order_is_harmless = refl

-- A script from the net, piped to a shell, has no warning.
piped_script_is_harmless : check_dangerous_patterns "curl u | bash" ≡ harmless
unfolding check_dangerous_patterns
piped_script_is_harmless = refl

-- The removal of one directory is taken for that of the root.
directory_is_blocked :
    check_dangerous_patterns "rm -rf /d" ≡ blocked "Recursive delete of root filesystem"
unfolding check_dangerous_patterns
directory_is_blocked = refl

-- The second command fails, the third is not run.
applied_until_failure :
    (apply (pipeline ("a" ∷ "false" ∷ "b" ∷ []) []) shell start).1
    ≡ record { world = 2; executed = done "a" 0 ∷ done "false" 1 ∷ [] }
unfolding apply
applied_until_failure = refl

-- Every command of a rollback is run.
rolled_back_to_the_end : (rollback (pipeline [] ("false" ∷ "b" ∷ [])) shell start).1.world ≡ 2
unfolding rollback
rolled_back_to_the_end = refl

-- A blocked command is run by a rollback.
blocked_rollback_runs : (rollback (pipeline [] ("mkfs" ∷ [])) shell start).1.world ≡ 1
unfolding rollback
blocked_rollback_runs = refl

apply-IsApplied_example :
    IsApplied
      (pipeline ("a" ∷ "lost" ∷ []) [])
      shell
      (returned tt)
      0
      []
      (apply (pipeline ("a" ∷ "lost" ∷ []) []) shell start).0
      (apply (pipeline ("a" ∷ "lost" ∷ []) []) shell start).1
apply-IsApplied_example = apply-IsApplied (pipeline ("a" ∷ "lost" ∷ []) []) shell start

blocked-runs_nothing_example :
    ((execute (bash_pipeline (pipeline ("a" ∷ "mkfs" ∷ []) []) shell) deps run).1.world ≡ start)
    × ((r : PipelineResult) × ((execute
            (bash_pipeline (pipeline ("a" ∷ "mkfs" ∷ []) []) shell)
            deps
            run).0
          ≡ returned r)
        × (r.success ≡ false)
        × (r.aborted_at ≡ some PipelineStage.plan))
unfolding check_dangerous_patterns
blocked-runs_nothing_example =
    blocked-runs_nothing (pipeline ("a" ∷ "mkfs" ∷ []) []) shell deps run
      ("a" ∷ [], [], "mkfs", "Filesystem format", refl, refl)
