-- ===== src/Subagents/Results.antt =====
-- merlya/subagents/results.py: the result of a subagent on a host, and the results of all hosts.
-- Ids, times, the structured output and the texts for display are left out.
use merlya.Common.{
  ℕ, ◌+◌, Bool, ◌&&◌, Option, none, some, List, [], ◌∷◌, ◌++◌, take, length, ltb, ◌==◌,
  if◌then◌else◌,
}
use merlya.Common.Text.{Text, codes, text_eq}

pub data SubagentStatus : Type 0 where
  pending running success failed timeout cancelled : SubagentStatus

pub record SubagentResult : Type 0 where
  pub host : Text
  pub success : Bool
  pub status : SubagentStatus
  pub output : Option Text
  pub error : Option Text
  pub tool_calls : ℕ
  pub tokens_used : ℕ

abbrev pub max_output_length : ℕ
max_output_length = 500000

abbrev pub max_error_length : ℕ
max_error_length = 100000

-- v[:limit] + mark, if v is longer
unfoldable pub truncate : ℕ → Text → Option Text → Option Text
truncate limit mark none = none
truncate limit mark (some v) = some (if ltb limit (length v) then take limit v ++ mark else v)

unfoldable pub validate_output_length : Option Text → Option Text
unfolding truncate
validate_output_length v =
    truncate max_output_length (10 ∷ 10 ∷ codes "[... output truncated ...]") v

unfoldable pub validate_error_length : Option Text → Option Text
unfolding truncate
validate_error_length v = truncate max_error_length (codes "...") v

-- SubagentResult(host=..., success=..., status=..., output=..., error=...), with its validators.
unfoldable pub new_result :
    Text → Bool → SubagentStatus → Option Text → Option Text → SubagentResult
unfolding validate_output_length validate_error_length
new_result h ok st out err = record {
  host = h;
  success = ok;
  status = st;
  output = validate_output_length out;
  error = validate_error_length err;
  tool_calls = 0;
  tokens_used = 0;
}

pub record AggregatedResults : Type 0 where
  pub results : List SubagentResult
  pub total_tool_calls : ℕ
  pub total_tokens_used : ℕ

unfoldable pub total_hosts : AggregatedResults → ℕ
total_hosts a = length a.results

unfoldable pub get_successful : List SubagentResult → List SubagentResult
get_successful [] = []
get_successful (r ∷ rs) = let rest = get_successful rs in if r.success then r ∷ rest else rest

unfoldable pub get_failed : List SubagentResult → List SubagentResult
get_failed [] = []
get_failed (r ∷ rs) = let rest = get_failed rs in if r.success then rest else r ∷ rest

unfoldable pub succeeded_hosts : AggregatedResults → ℕ
unfolding get_successful
succeeded_hosts a = length (get_successful a.results)

unfoldable pub failed_hosts : AggregatedResults → ℕ
unfolding get_failed
failed_hosts a = length (get_failed a.results)

unfoldable pub is_complete_success : AggregatedResults → Bool
unfolding succeeded_hosts total_hosts
is_complete_success a = ltb 0 (total_hosts a) && succeeded_hosts a == total_hosts a

unfoldable pub is_partial_success : AggregatedResults → Bool
unfolding succeeded_hosts total_hosts
is_partial_success a = ltb 0 (succeeded_hosts a) && ltb (succeeded_hosts a) (total_hosts a)

unfoldable pub is_complete_failure : AggregatedResults → Bool
unfolding failed_hosts total_hosts
is_complete_failure a = ltb 0 (total_hosts a) && failed_hosts a == total_hosts a

unfoldable pub find_host : Text → List SubagentResult → Option SubagentResult
unfolding text_eq
find_host h [] = none
find_host h (r ∷ rs) = if text_eq r.host h then some r else find_host h rs

unfoldable pub get_result_by_host : AggregatedResults → Text → Option SubagentResult
unfolding find_host
get_result_by_host a [] = none
get_result_by_host a (c ∷ h) = find_host (c ∷ h) a.results

abbrev pub sum_calls : List SubagentResult → ℕ
sum_calls [] = 0
sum_calls (r ∷ rs) = r.tool_calls + sum_calls rs

abbrev pub sum_tokens : List SubagentResult → ℕ
sum_tokens [] = 0
sum_tokens (r ∷ rs) = r.tokens_used + sum_tokens rs

unfoldable pub compute_totals : AggregatedResults → AggregatedResults
compute_totals a = record a {
  total_tool_calls = sum_calls a.results;
  total_tokens_used = sum_tokens a.results;
}
