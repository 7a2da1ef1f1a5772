-- ===== src/Pipelines/Bash/Tally.antt =====
-- merlya/pipelines/bash.py: what the loops of rollback() and post_check() keep, and their results.
use merlya.Common.{
  ℕ, String, ◌<>◌, str_eq, Bool, true, false, ◌&&◌, List, [], ◌∷◌, ◌++◌, if◌then◌else◌,
}
use merlya.Common.Clock.{is_zero}
use merlya.Common.Decimal.{show, show_int}
use merlya.Ssh.Types.{SshResult}
use merlya.Pipelines.{RollbackResult, PostCheckResult}
use merlya.Pipelines.Bash.{join_lines, labelled, label}

-- The locals of rollback() and of post_check(), which has no output.
pub record Tally : Type 0 where
  pub output_lines : List String
  pub passed : List String
  pub failed : List String

abbrev pub empty_tally : Tally
empty_tally = record { output_lines = []; passed = []; failed = [] }

abbrev pub nonempty : List String → Bool
nonempty [] = false
nonempty (_ ∷ _) = true

abbrev pub is_empty : List String → Bool
is_empty [] = true
is_empty (_ ∷ _) = false

unfoldable pub rollback_lines : ℕ → String → SshResult → List String
unfolding show show_int
rollback_lines i c r =
    ("--- Rollback " <> show i <> ": " <> c <> " ---")
    ∷ ("Exit code: " <> show_int r.exit_code)
    ∷ labelled "" r.stdout

-- One pass of the loop in rollback().
unfoldable pub tally_rollback : ℕ → String → SshResult → Tally → Tally
unfolding rollback_lines show is_zero
tally_rollback i c r t =
    let t2 = record t { output_lines = t.output_lines ++ rollback_lines i c r } in
    if is_zero r.exit_code
    then record t2 { passed = t.passed ++ (label "rollback:" i ∷ []) }
    else record t2 {
      failed = t.failed ++ (("Rollback command " <> show i <> " failed: " <> r.stderr) ∷ []);
    }

unfoldable pub rollback_done : Tally → RollbackResult
unfolding join_lines
rollback_done t = record {
  success = is_empty t.failed;
  output = join_lines t.output_lines;
  resources_restored = t.passed;
  partial = nonempty t.failed && nonempty t.passed;
  errors = t.failed;
}

unfoldable pub rollback_raised : Tally → String → RollbackResult
unfolding join_lines
rollback_raised t e = record {
  success = false;
  output = join_lines t.output_lines;
  resources_restored = t.passed;
  partial = nonempty t.passed;
  errors = ("Rollback exception: " <> e) ∷ [];
}

abbrev pub no_rollback : RollbackResult
no_rollback = record {
  success = false;
  output = "No rollback commands defined";
  resources_restored = [];
  partial = false;
  errors = "Rollback not available: no commands specified" ∷ [];
}

abbrev or_non_zero : String → String
or_non_zero e = if str_eq e "" then "non-zero exit" else e

-- One pass of the loop in post_check().
unfoldable pub tally_check : ℕ → String → SshResult → Tally → Tally
unfolding show is_zero
tally_check i c r t =
    if is_zero r.exit_code
    then record t { passed = t.passed ++ (label "check_" i ∷ []) }
    else record t { failed = t.failed ++ ((label "check_" i <> ": " <> or_non_zero r.stderr) ∷ []) }

unfoldable pub check_done : Tally → PostCheckResult
check_done t = record {
  success = is_empty t.failed;
  checks_passed = t.passed;
  checks_failed = t.failed;
  warnings = [];
}

unfoldable pub check_raised : Tally → String → PostCheckResult
check_raised t e = record {
  success = false;
  checks_passed = t.passed;
  checks_failed = ("check_exception: " <> e) ∷ [];
  warnings = [];
}

abbrev pub no_checks : PostCheckResult
no_checks = record {
  success = true;
  checks_passed = "no_checks_defined" ∷ [];
  checks_failed = [];
  warnings = "No post-check commands defined" ∷ [];
}
