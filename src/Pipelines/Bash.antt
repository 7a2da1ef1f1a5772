-- ===== src/Pipelines/Bash.antt =====
-- merlya/pipelines/bash.py: `BashPipeline`, which runs the commands it is given over SSH. The pool,
-- the commands on the target and the clock are the fields of `Shell`, actions on a world `W`; the
-- clock is not set back while commands run. The value of "executed" in `rollback_data` is left out:
-- the list is the field `executed` of the object.
pub mod Tally
pub mod Stages
pub mod Blocked
pub mod Keeps
pub mod Runs
pub mod Outcomes
mod Examples
use merlya.Common.{
  ℕ, ◌+◌, ◌-◌, ◌/◌, String, ◌<>◌, str_eq, Bool, true, false, ◌&&◌, not, Option, none, some, List,
  [], ◌∷◌, ◌++◌, ltb, ◌==◌, if◌then◌else◌, length,
}
use merlya.Common.Text.{Text, codes, lower, strip, contains}
use merlya.Common.Decimal.{show}
use merlya.Common.Outcome.{Outcome, returned, raised, cancelled, Exec}
use merlya.Pipelines.{PlanResult, DiffResult}

pub record BashPipeline : Type 0 where
  pub target : String
  pub commands : List String
  pub rollback_commands : List String
  pub check_commands : List String

pub data Danger : Type 0 where
  blocked warned : (reason : String) → Danger
  harmless : Danger

-- The first pattern that the text contains, with what is said of it.
unfoldable pub find_pattern : Text → List (String × String) → Option String
unfolding contains
find_pattern s [] = none
find_pattern s ((p, reason) ∷ ps) = if contains (codes p) s then some reason else find_pattern s ps

abbrev pub blocked_patterns : List (String × String)
blocked_patterns =
    ("rm -rf /", "Recursive delete of root filesystem")
    ∷ ("dd if=", "Low-level disk write")
    ∷ ("mkfs", "Filesystem format")
    ∷ (":(){:|:&};:", "Fork bomb")
    ∷ ("> /dev/sd", "Direct disk write")
    ∷ ("chmod 777 /", "Dangerous permission change on root")
    ∷ []

abbrev pub warning_patterns : List (String × String)
warning_patterns =
    ("rm -r", "Recursive delete")
    ∷ ("systemctl stop", "Stopping service")
    ∷ ("systemctl restart", "Restarting service")
    ∷ ("kill -9", "Forceful process termination")
    ∷ ("reboot", "System reboot")
    ∷ ("shutdown", "System shutdown")
    ∷ ("> /etc/", "Writing to /etc/")
    ∷ ("curl | bash", "Piping remote script to bash")
    ∷ ("wget | sh", "Piping remote script to shell")
    ∷ []

abbrev warning_of : Option String → Danger
warning_of none = harmless
warning_of (some w) = warned w

abbrev danger_of : Option String → Option String → Danger
danger_of (some r) _ = blocked r
danger_of none w = warning_of w

unfoldable pub check_dangerous_patterns : String → Danger
unfolding find_pattern lower strip
check_dangerous_patterns c =
    let s = strip (lower (codes c)) in
    danger_of (find_pattern s blocked_patterns) (find_pattern s warning_patterns)

abbrev numbered : ℕ → String → String
numbered i m = "Command " <> show i <> ": " <> m

abbrev pub add_error : ℕ → Danger → List String → List String
add_error i (blocked r) es = numbered i r ∷ es
add_error i _ es = es

abbrev add_warning : ℕ → Danger → List String → List String
add_warning i (warned r) es = numbered i r ∷ es
add_warning i _ es = es

-- The errors and the warnings of the loop in `plan`, from the command with the number i on.
unfoldable pub check_commands_from : ℕ → List String → List String × List String
unfolding check_dangerous_patterns show
check_commands_from i [] = ([], [])
check_commands_from i (c ∷ cs) =
    let d = check_dangerous_patterns c in
    let rest = check_commands_from (i + 1) cs in (add_error i d rest.0, add_warning i d rest.1)

-- "\n".join(lines)
unfoldable pub join_lines : List String → String
join_lines [] = ""
join_lines (l ∷ []) = l
join_lines (l ∷ m ∷ ls) = l <> "\n" <> join_lines (m ∷ ls)

-- The lines `  {i}. {cmd}`.
unfoldable pub number_from : ℕ → List String → List String
unfolding show
number_from i [] = []
number_from i (c ∷ cs) = ("  " <> show i <> ". " <> c) ∷ number_from (i + 1) cs

unfoldable pub format_command_list : List String → String
unfolding number_from join_lines
format_command_list cs = "Commands to execute:\n" <> join_lines (number_from 1 cs)

unfoldable pub plan_of : BashPipeline → List String × List String → PlanResult
unfolding format_command_list
plan_of b ([], warnings) = record {
  success = true;
  plan_output = format_command_list b.commands;
  resources_affected = b.target ∷ [];
  warnings = warnings;
  errors = [];
}
plan_of b (e ∷ es, warnings) = record {
  success = false;
  plan_output = "Commands contain blocked patterns";
  resources_affected = [];
  warnings = warnings;
  errors = e ∷ es;
}

unfoldable pub plan_result : BashPipeline → PlanResult
unfolding plan_of check_commands_from
plan_result b = plan_of b (check_commands_from 1 b.commands)

unfoldable pub contains_any : Text → List String → Bool
unfolding contains
contains_any s [] = false
contains_any s (p ∷ ps) = if contains (codes p) s then true else contains_any s ps

-- How many commands contain one of the patterns.
unfoldable pub count_risky : List String → List String → ℕ
unfolding contains_any lower
count_risky ps [] = 0
count_risky ps (c ∷ cs) =
    let rest = count_risky ps cs in if contains_any (lower (codes c)) ps then rest + 1 else rest

abbrev pub high_risk_patterns : List String
high_risk_patterns = "rm" ∷ "kill" ∷ "systemctl" ∷ "service" ∷ "shutdown" ∷ "reboot" ∷ []

abbrev pub medium_risk_patterns : List String
medium_risk_patterns = ">" ∷ ">>" ∷ "mv" ∷ "cp" ∷ "chmod" ∷ "chown" ∷ []

unfoldable pub assess_command_risk : List String → String
unfolding count_risky
assess_command_risk cs =
    if ltb 0 (count_risky high_risk_patterns cs)
    then "high"
    else if ltb 2 (count_risky medium_risk_patterns cs)
    then "high"
    else if ltb 0 (count_risky medium_risk_patterns cs)
    then "medium"
    else "low"

-- A list of commands under its title, if there are any.
abbrev section : String → List String → List String
section title [] = []
section title (c ∷ cs) = "" ∷ title ∷ number_from 1 (c ∷ cs)

unfoldable pub diff_lines : BashPipeline → List String
unfolding number_from
diff_lines b =
    "Commands to be executed:"
    ∷ ""
    ∷ (number_from 1 b.commands
        ++ (section "Post-check commands:" b.check_commands
            ++ section "Rollback commands (if needed):" b.rollback_commands))

unfoldable pub diff_result : BashPipeline → DiffResult
unfolding diff_lines join_lines assess_command_risk
diff_result b = record {
  success = true;
  diff_output = join_lines (diff_lines b);
  additions = 0;
  modifications = length b.commands;
  deletions = 0;
  unchanged = 0;
  risk_assessment = assess_command_risk b.commands;
}

-- f"{title}{text}", if there is a text.
abbrev pub labelled : String → String → List String
labelled title text = if str_eq text "" then [] else (title <> text) ∷ []

unfoldable pub label : String → ℕ → String
unfolding show
label word i = word <> show i
