-- ===== src/Pipelines/Examples.antt =====
-- A small pipeline over a world with a clock and a count of the changes made, and runs of it.
use merlya.Common.{ℕ, ◌+◌, ◌≡◌, refl, ◌⊎◌, Bool, true, false, none, [], ◌∷◌}
use merlya.Common.Outcome.{Outcome, returned, raised, ◌>>=◌}
use merlya.Common.Clock.{ms_between}
use merlya.Pipelines.{
  PipelineDeps, Pipeline, PipelineResult, DiffResult, ApplyResult, Run, execute, try_stages,
  approval_stages, approved_stages, apply_stages, trigger_rollback, safe_rollback, recover_rollback,
  request_hitl, read_now, catch, finalize_result, assess_risk_level, new_result,
}
use merlya.Pipelines.Safety.{KeepsBefore, SaysYes, execute-guarded}
use merlya.Pipelines.Records.{IsConsistent}
use merlya.Pipelines.Traces.{IsTraced, execute-IsTraced}
use merlya.Pipelines.Rollback.{raising_apply-no_rollback}

record World : Type 0 where
  time : ℕ
  changes : ℕ

abbrev a_diff : DiffResult
a_diff = record {
  success = true;
  diff_output = "1 to add";
  additions = 1;
  modifications = 0;
  deletions = 2;
  unchanged = 3;
  risk_assessment = "";
}

abbrev an_apply : ApplyResult
an_apply = record {
  success = true;
  output = "done";
  resources_created = "web" ∷ [];
  resources_modified = [];
  resources_deleted = [];
  duration_ms = 5;
  rollback_data = ("id", "web") ∷ [];
}

-- The pipeline, given the user's answer, how `apply()` ends and whether the post-check passes.
abbrev demo : Bool → Outcome ApplyResult → Bool → Pipeline World
demo answer applied healthy = record {
  name = "demo";
  plan = λ w. (
    returned (record {
      success = true;
      plan_output = "plan";
      resources_affected = [];
      warnings = [];
      errors = [];
    }),
    w,
  );
  diff = λ w. (returned a_diff, w);
  apply = λ w. (applied, record w { changes = w.changes + 1 });
  rollback = λ w. (
    returned (record {
      success = true;
      output = "";
      resources_restored = "web" ∷ [];
      partial = false;
      errors = [];
    }),
    record w { changes = 0 },
  );
  post_check = λ w. (
    returned (record { success = healthy; checks_passed = []; checks_failed = []; warnings = [] }),
    w,
  );
  prompt_confirm = λ m d w. (returned answer, w);
  now = λ w. (w.time, record w { time = w.time + 2000 });
}

abbrev deps : PipelineDeps
deps = record { target = "web"; task = "deploy"; dry_run = false; auto_rollback = true }

abbrev start : Run World
start = record {
  world = record { time = 1000; changes = 0 };
  stage = none;
  rollback_data = [];
  result = new_result 0;
}

abbrev Untouched : World → Type 0
Untouched w = w.changes ≡ 0

demo-KeepsBefore :
    (b : Bool) (o : Outcome ApplyResult) (h : Bool) → KeepsBefore Untouched (demo b o h)
demo-KeepsBefore b o h = record {
  plan = λ w u. u;
  diff = λ w u. u;
  confirm = λ m d w u. u;
  now = λ w u. u;
}

-- The user declines: nothing is changed.
declined_untouched :
    ((execute (demo false (returned an_apply) true) deps start).1.result.hitl_approved ≡ false)
    × ((execute (demo false (returned an_apply) true) deps start).1.world.changes ≡ 0)
unfolding execute try_stages approval_stages request_hitl assess_risk_level catch finalize_result
    ◌>>=◌ ms_between
declined_untouched = (refl, refl)

execute-guarded_example :
    Untouched (execute (demo false (returned an_apply) true) deps start).1.world
    ⊎ (SaysYes Untouched (demo false (returned an_apply) true)
        × (((execute (demo false (returned an_apply) true) deps start).1.result.hitl_approved
              ≡ true)
            × (deps.dry_run ≡ false)))
execute-guarded_example =
    execute-guarded Untouched (demo false (returned an_apply) true) deps
      (demo-KeepsBefore false (returned an_apply) true) start refl

abbrev failing_check : Outcome PipelineResult × Run World
failing_check = execute (demo true (returned an_apply) false) deps start

-- The post-check fails: the change is rolled back.
failing_check_rolls_back :
    (failing_check.1.result.rollback_triggered ≡ true) × (failing_check.1.world.changes ≡ 0)
unfolding execute try_stages approval_stages approved_stages apply_stages trigger_rollback
    safe_rollback recover_rollback request_hitl read_now assess_risk_level catch finalize_result
    ◌>>=◌ ms_between
failing_check_rolls_back = (refl, refl)

failing_check_returns : failing_check.0 ≡ returned failing_check.1.result
unfolding execute try_stages approval_stages approved_stages apply_stages trigger_rollback
    safe_rollback recover_rollback request_hitl read_now assess_risk_level catch finalize_result
    ◌>>=◌ ms_between
failing_check_returns = refl

execute-IsTraced_example :
    IsConsistent deps failing_check.1.result
    × IsTraced (demo true (returned an_apply) false) failing_check.1.result
execute-IsTraced_example =
    execute-IsTraced (demo true (returned an_apply) false) deps start failing_check_returns

raising_apply-no_rollback_example :
    (execute (demo true (raised "disk full") true) deps start).1.result.rollback_triggered ≡ false
raising_apply-no_rollback_example =
    raising_apply-no_rollback (demo true (raised "disk full") true) deps (λ w. ("disk full", refl))
      start refl
