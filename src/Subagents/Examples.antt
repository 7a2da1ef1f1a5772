-- ===== src/Subagents/Examples.antt =====
-- Runs of tasks under the activity timeout; the world is the time.
use merlya.Common.{ℕ, ◌+◌, ◌≡◌, refl, true, List, [], ◌∷◌, none, some, arith, leb, if◌then◌else◌}
use merlya.Common.Outcome.{returned}
use merlya.Subagents.Orchestrator.{
  Ending, completed, timed_out, was_cancelled, run_on_hosts, effective_timeout,
}
use merlya.Subagents.Reports.{IsReport, run_on_hosts-IsReport}
use merlya.Common.Text.{Text, codes}
use merlya.Subagents.{
  new, Task, finished, pending, Ended, run, loop, started, check_interval, check_timeout, touch,
}
use merlya.Subagents.Timeout.{TimedOut, run-Returns, silent_task-TimedOut}

-- A task that does nothing and never ends.
abbrev asleep : Task ℕ ℕ
asleep = record {
  now = λ w. w;
  wait = λ i w. (pending, none, w + i);
  cancel = λ w. (returned tt, w);
  on_timeout = none;
}

-- A task that is active all the time and ends after 20 seconds.
abbrev busy : Task ℕ ℕ
busy = record asleep {
  wait = λ i w. (if leb 20000 (w + i) then finished (returned 7) else pending, some (w + i), w + i);
}

run-Returns_example : (e : Ended ℕ ℕ) × (run asleep (new 20000 60000) 5 ≡ some e)
run-Returns_example = run-Returns asleep 20000 60000 5 (λ i w p. omega arith)

silent_task-TimedOut_example : TimedOut asleep (loop asleep 11 (started 5 (new 20000 60000)) 5)
silent_task-TimedOut_example =
    silent_task-TimedOut asleep 20000 60000 5 (λ i w p. omega arith) (λ i w. refl) (λ i w. refl)

busy_ends :
    (run busy (new 10000 60000) 0)
    ≡ some (record {
      outcome = returned 7;
      tracker = touch 20000 (started 0 (new 10000 60000));
      world = 20000;
    })
unfolding run loop check_interval check_timeout touch new
busy_ends = refl

abbrev jobs : List (Text × Ending)
jobs = (codes "a", completed true none none) ∷ (codes "b", timed_out []) ∷ []

run_on_hosts-IsReport_example : IsReport jobs (run_on_hosts (codes "9s") jobs)
run_on_hosts-IsReport_example = run_on_hosts-IsReport (codes "9s") jobs

-- One cancelled host loses the results of all.
cancelled_host : run_on_hosts (codes "9s") ((codes "c", was_cancelled) ∷ jobs) ≡ none
unfolding run_on_hosts
cancelled_host = refl

short_limit : effective_timeout (some 1000) none ≡ 30000
unfolding effective_timeout
short_limit = refl
