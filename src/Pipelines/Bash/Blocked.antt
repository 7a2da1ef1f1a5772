-- ===== src/Pipelines/Bash/Blocked.antt =====
-- merlya/pipelines/bash.py: what a blocked command does to a run of the pipeline.
use merlya.Common.{ℕ, ◌+◌, ◌≡◌, refl, String, Bool, true, false, some, List, [], ◌∷◌, ◌++◌, arith}
use merlya.Common.Outcome.{returned, ◌>>=◌}
use merlya.Pipelines.{
  PipelineDeps, PipelineResult, PipelineStage, Run, execute, try_stages, catch, finalize_result,
}
use merlya.Pipelines.Bash.{
  BashPipeline, Danger, blocked, warned, harmless, add_error, check_dangerous_patterns,
  check_commands_from, plan_of, plan_result,
}
use merlya.Pipelines.Bash.Stages.{Shell, State, bash_pipeline}

abbrev pub nonempty : List String → Bool
nonempty [] = false
nonempty (_ ∷ _) = true

-- One of the commands is blocked.
abbrev pub HasBlocked : List String → Type 0
HasBlocked cs =
    (before after : List String) × (c reason : String) × (cs ≡ before ++ (c ∷ after))
    × (check_dangerous_patterns c ≡ blocked reason)

add_error-blocked :
    (i : ℕ) (d : Danger) (es : List String) (reason : String)
    → d ≡ blocked reason
    → nonempty (add_error i d es) ≡ true
add_error-blocked i (blocked _) es reason h = refl
add_error-blocked i (warned _) es reason h = absurd (ground (arith, h))
add_error-blocked i harmless es reason h = absurd (ground (arith, h))

add_error-kept :
    (i : ℕ) (d : Danger) (es : List String)
    → nonempty es ≡ true
    → nonempty (add_error i d es) ≡ true
add_error-kept i (blocked _) es h = refl
add_error-kept i (warned _) es h = h
add_error-kept i harmless es h = h

check_commands_from-blocked :
    (i : ℕ) (before after : List String) (c reason : String)
    → check_dangerous_patterns c ≡ blocked reason
    → nonempty (check_commands_from i (before ++ (c ∷ after))).0 ≡ true
unfolding check_commands_from
check_commands_from-blocked i [] after c reason h =
    add_error-blocked i (check_dangerous_patterns c) _ reason h
check_commands_from-blocked i (d ∷ before) after c reason h =
    add_error-kept i (check_dangerous_patterns d) _
      (check_commands_from-blocked (i + 1) before after c reason h)

plan_of-fails :
    (b : BashPipeline) (p : List String × List String)
    → nonempty p.0 ≡ true
    → (plan_of b p).success ≡ false
unfolding plan_of
plan_of-fails b ([], ws) h = ground (arith, h)
plan_of-fails b (e ∷ es, ws) h = refl

plan_result-fails : (b : BashPipeline) → HasBlocked b.commands → (plan_result b).success ≡ false
unfolding plan_result
plan_result-fails b (before, after, c, reason, e, h) =
    plan_of-fails b (check_commands_from 1 b.commands)
      (rw e (check_commands_from-blocked 1 before after c reason h))

module _ {W : Type 0} (b : BashPipeline) (sh : Shell W) (deps : PipelineDeps) where
  -- A pipeline with a blocked command, whatever the other commands are and whatever the user would
  -- answer, is aborted in its plan: no command is run, no pool is asked for, nobody is asked, and
  -- the world is only asked twice for the time.
  pub blocked-runs_nothing :
      (s : Run (State W))
      → HasBlocked b.commands
      → ((execute (bash_pipeline b sh) deps s).1.world
          ≡ record s.world { world = (sh.now (sh.now s.world.world).1).1 })
        × ((r : PipelineResult) × ((execute (bash_pipeline b sh) deps s).0 ≡ returned r)
            × (r.success ≡ false)
            × (r.aborted_at ≡ some PipelineStage.plan))
  unfolding execute try_stages catch finalize_result bash_pipeline ◌>>=◌
  blocked-runs_nothing s h = let e = plan_result-fails b h in rw e (refl, (_, refl, refl, refl))
