-- ===== src/Subagents/Orchestrator.antt =====
-- merlya/subagents/orchestrator.py: the run of a task on many hosts. How the subagent of a host ends
-- under its time limits is given for each host; `asyncio.gather` keeps the order of the hosts,
-- whatever the order in which they end. A time is a number of milliseconds. The semaphore, the
-- callbacks for progress and the record of executions are left out.
use merlya.Common.{
  ℕ, ◌/◌, min, max, Bool, true, false, Option, none, some, List, [], ◌∷◌, ◌++◌, ltb, if◌then◌else◌,
}
use merlya.Common.Text.{Text, codes}
use merlya.Common.Outcome.{Outcome, returned, raised}
use merlya.Subagents.Results.{
  SubagentStatus, success, failed, timeout, SubagentResult, new_result, AggregatedResults,
  compute_totals,
}

-- The time limit asked for, by the call or else by the skill.
abbrev pub requested : Option ℕ → Option ℕ → ℕ
requested (some t) skill = t
requested none (some t) = t
requested none none = 600000

unfoldable pub clamp : ℕ → ℕ
clamp t = if ltb t 30000 then 30000 else if ltb 3600000 t then 3600000 else t

unfoldable pub effective_timeout : (timeout skill_timeout : Option ℕ) → ℕ
unfolding clamp
effective_timeout t skill = clamp (requested t skill)

unfoldable pub idle_timeout : ℕ → ℕ
idle_timeout t = min (max (t / 2) 30000) 60000

-- How `timeout_tracker.run(subagent.run(task))` ends, the creation of the subagent before it.
pub data Ending : Type 0 where
  completed : (success : Bool) (output error : Option Text) → Ending
  timed_out : Text → Ending
  was_cancelled : Ending
  crashed : Text → Ending

abbrev pub status_of : Bool → SubagentStatus
status_of true = success
status_of false = failed

-- str(e), or the time limit
abbrev reason_or : Text → Text → Text
reason_or [] other = other
reason_or (c ∷ s) other = c ∷ s

unfoldable pub execute_on_host : (limit : Text) → Text → Ending → Outcome SubagentResult
unfolding new_result
execute_on_host limit h (completed ok out err) = returned (new_result h ok (status_of ok) out err)
execute_on_host limit h (timed_out e) =
    returned
      (new_result h false timeout none (some (codes "Execution timed out: " ++ reason_or e limit)))
execute_on_host limit h was_cancelled = Outcome.cancelled
execute_on_host limit h (crashed e) = returned (new_result h false failed none (some e))

-- asyncio.gather(..., return_exceptions=True)
unfoldable pub gather : (limit : Text) → List (Text × Ending) → List (Text × Outcome SubagentResult)
unfolding execute_on_host
gather limit [] = []
gather limit ((h, e) ∷ js) = (h, execute_on_host limit h e) ∷ gather limit js

abbrev pub onto : SubagentResult → Option (List SubagentResult) → Option (List SubagentResult)
onto r none = none
onto r (some rs) = some (r ∷ rs)

-- The loop over the raw results. A CancelledError is no `Exception`, so it meets the assertion.
unfoldable pub process_results : List (Text × Outcome SubagentResult) → Option (List SubagentResult)
unfolding new_result
process_results [] = some []
process_results ((h, returned r) ∷ rs) = onto r (process_results rs)
process_results ((h, raised e) ∷ rs) =
    onto (new_result h false failed none (some (codes e))) (process_results rs)
process_results ((h, Outcome.cancelled) ∷ rs) = none

abbrev pub aggregate : Option (List SubagentResult) → Option AggregatedResults
aggregate none = none
aggregate (some rs) =
    some (compute_totals (record { results = rs; total_tool_calls = 0; total_tokens_used = 0 }))

-- `none` stands for the AssertionError.
unfoldable pub run_on_hosts : (limit : Text) → List (Text × Ending) → Option AggregatedResults
unfolding gather process_results compute_totals
run_on_hosts limit js = aggregate (process_results (gather limit js))
