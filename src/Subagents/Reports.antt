-- ===== src/Subagents/Reports.antt =====
-- merlya/subagents/orchestrator.py: what is reported of the hosts.
use merlya.Common.{
  ℕ, ◌+◌, ◌≤◌, ◌≡◌, refl, ◌∙◌, Bool, true, false, Option, none, some, List, [], ◌∷◌, arith, length,
}
use merlya.Common.Text.{Text}
use merlya.Subagents.Results.{
  failed, timeout, SubagentResult, new_result, AggregatedResults, compute_totals, sum_calls,
  succeeded_hosts, failed_hosts, total_hosts, get_successful, get_failed,
}
use merlya.Subagents.Orchestrator.{
  Ending, completed, timed_out, was_cancelled, crashed, execute_on_host, gather, process_results,
  run_on_hosts, onto, aggregate, effective_timeout, clamp, idle_timeout, requested,
}

abbrev pub any_cancelled : List (Text × Ending) → Bool
any_cancelled [] = false
any_cancelled ((h, was_cancelled) ∷ js) = true
any_cancelled ((h, _) ∷ js) = any_cancelled js

-- The result says how the host's subagent ended.
pub data Tells (h : Text) : Ending → SubagentResult → Type 0 where
  of_completed :
      (ok : Bool) (out err : Option Text) (r : SubagentResult)
      → r.host ≡ h
      → r.success ≡ ok
      → Tells h (completed ok out err) r
  of_timeout :
      (e : Text) (r : SubagentResult)
      → r.host ≡ h
      → r.success ≡ false
      → r.status ≡ timeout
      → Tells h (timed_out e) r
  of_crash :
      (e : Text) (r : SubagentResult)
      → r.host ≡ h
      → r.success ≡ false
      → r.status ≡ failed
      → Tells h (crashed e) r

-- One result for each host, in the order of the hosts.
abbrev pub Reports : List (Text × Ending) → List SubagentResult → Type 0
Reports [] [] = Unit
Reports [] (_ ∷ _) = ⊥
Reports (_ ∷ _) [] = ⊥
Reports ((h, e) ∷ js) (r ∷ rs) = Tells h e r × Reports js rs

ReportsIf : List (Text × Ending) → Option (List SubagentResult) → Type 0
ReportsIf js none = any_cancelled js ≡ true
ReportsIf js (some rs) =
    (any_cancelled js ≡ false)
    × Reports js rs
    × (sum_calls rs ≡ 0)
    × (length (get_successful rs) + length (get_failed rs) ≡ length rs)

new_result-onto :
    (js : List (Text × Ending)) (h : Text) (e : Ending) (r : SubagentResult)
    (o : Option (List SubagentResult))
    → any_cancelled ((h, e) ∷ js) ≡ any_cancelled js
    → Tells h e r
    → r.tool_calls ≡ 0
    → ReportsIf js o
    → ReportsIf ((h, e) ∷ js) (onto r o)
unfolding ReportsIf get_successful get_failed
new_result-onto js h e r none c t z k = c ∙ k
new_result-onto js h e r (some rs) c t z k =
    (c ∙ k.0, (t, k.1), ground (arith, z, k.2), ground (arith, k.3))

process_results-ReportsIf :
    (limit : Text) (js : List (Text × Ending)) → ReportsIf js (process_results (gather limit js))
unfolding ReportsIf process_results gather execute_on_host new_result get_successful get_failed
process_results-ReportsIf limit [] = (refl, tt, refl, refl)
process_results-ReportsIf limit ((h, completed ok out err) ∷ js) =
    new_result-onto js h (completed ok out err) _ _ refl (of_completed ok out err _ refl refl) refl
      (process_results-ReportsIf limit js)
process_results-ReportsIf limit ((h, timed_out e) ∷ js) =
    new_result-onto js h (timed_out e) _ _ refl (of_timeout e _ refl refl refl) refl
      (process_results-ReportsIf limit js)
process_results-ReportsIf limit ((h, was_cancelled) ∷ js) = refl
process_results-ReportsIf limit ((h, crashed e) ∷ js) =
    new_result-onto js h (crashed e) _ _ refl (of_crash e _ refl refl refl) refl
      (process_results-ReportsIf limit js)

-- What a run on hosts gives: nothing, if the subagent of a host is cancelled; else one result for
-- each host, in the order of the hosts, with the success and the status of how its subagent ended.
-- The hosts that succeeded and those that failed are all of them, and the total of tool calls is 0.
abbrev pub IsReport : List (Text × Ending) → Option AggregatedResults → Type 0
IsReport js none = any_cancelled js ≡ true
IsReport js (some a) =
    (any_cancelled js ≡ false)
    × Reports js a.results
    × (succeeded_hosts a + failed_hosts a ≡ total_hosts a)
    × (a.total_tool_calls ≡ 0)

aggregate-IsReport :
    (js : List (Text × Ending)) (o : Option (List SubagentResult))
    → ReportsIf js o
    → IsReport js (aggregate o)
unfolding ReportsIf compute_totals succeeded_hosts failed_hosts total_hosts
aggregate-IsReport js none h = h
aggregate-IsReport js (some rs) h = (h.0, h.1, h.3, h.2)

-- A run on hosts gives an aggregate just when no host's subagent is cancelled, and otherwise fails
-- an assertion. An aggregate has one result for each host, in the order of the hosts, with the
-- success and, for a timeout and a crash, the status of how its subagent ended; the hosts that
-- succeeded and those that failed add up to all; and its total of tool calls is 0.
pub run_on_hosts-IsReport :
    (limit : Text) (js : List (Text × Ending)) → IsReport js (run_on_hosts limit js)
unfolding run_on_hosts
run_on_hosts-IsReport limit js =
    aggregate-IsReport js (process_results (gather limit js)) (process_results-ReportsIf limit js)

clamp-bounds : (t : ℕ) → (30000 ≤ clamp t) × (clamp t ≤ 3600000)
unfolding clamp
clamp-bounds t = (ground arith, ground arith)

idle_timeout-bounds :
    (t : ℕ) → 30000 ≤ t → (30000 ≤ idle_timeout t) × (idle_timeout t ≤ 60000) × (idle_timeout t ≤ t)
unfolding idle_timeout
idle_timeout-bounds t h = (omega arith, omega arith, omega arith)

-- The time limit of a run on hosts is between half a minute and an hour, whatever is asked for, and
-- the limit without activity between half a minute and a minute, and no more than the time limit.
pub timeouts-bounds :
    (t skill : Option ℕ)
    → (30000 ≤ effective_timeout t skill)
      × (effective_timeout t skill ≤ 3600000)
      × (30000 ≤ idle_timeout (effective_timeout t skill))
      × (idle_timeout (effective_timeout t skill) ≤ 60000)
      × (idle_timeout (effective_timeout t skill) ≤ effective_timeout t skill)
unfolding effective_timeout
timeouts-bounds t skill =
    let c = clamp-bounds (requested t skill) in
    let i = idle_timeout-bounds (clamp (requested t skill)) c.0 in (c.0, c.1, i.0, i.1, i.2)
