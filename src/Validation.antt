-- ===== src/Validation.antt =====
-- merlya/tools/system/validation.py: the checks of the arguments of the system tools. Each gives the
-- error, or nothing where the argument is accepted; the texts of the errors are shortened to their
-- kinds. A negative number is none of the naturals here, and is refused by the code.
pub mod Names
mod Examples
use merlya.Common.{
  ℕ, ◌≡◌, Bool, true, false, not, ◌&&◌, ◌||◌, Option, none, some, List, [], ◌∷◌, length, ltb, leb,
  ◌==◌, if◌then◌else◌,
}
use merlya.Common.Text.{Text, codes, lower, one_of}

pub data Invalid : Type 0 where
  empty : Invalid
  too_long : Invalid
  null_bytes : Invalid
  bad_characters : Invalid
  out_of_range : Invalid
  unknown_level : Invalid

unfoldable pub has_null : Text → Bool
has_null [] = false
has_null (c ∷ s) = c == 0 || has_null s

unfoldable pub validate_path : Text → Option Invalid
unfolding has_null
validate_path [] = some empty
validate_path (c ∷ s) =
    if ltb 4096 (length (c ∷ s))
    then some too_long
    else if has_null (c ∷ s)
    then some null_bytes
    else none

abbrev is_alnum : ℕ → Bool
is_alnum c = leb b'a' c && leb c b'z' || leb b'A' c && leb c b'Z' || leb b'0' c && leb c b'9'

-- [a-zA-Z0-9_.-]
unfoldable pub is_service_char : ℕ → Bool
is_service_char c = is_alnum c || c == b'_' || c == b'.' || c == b'-'

-- [a-zA-Z0-9_-]
unfoldable pub is_user_char : ℕ → Bool
is_user_char c = is_alnum c || c == b'_' || c == b'-'

-- ^p+$ with re.match, after the first character: `$` matches before a newline at the end too.
unfoldable pub rest_matches : (ℕ → Bool) → Text → Bool
rest_matches p [] = true
rest_matches p (c ∷ []) = p c || c == 10
rest_matches p (c ∷ d ∷ s) = p c && rest_matches p (d ∷ s)

unfoldable pub whole_matches : (ℕ → Bool) → Text → Bool
unfolding rest_matches
whole_matches p [] = false
whole_matches p (c ∷ s) = p c && rest_matches p s

unfoldable pub validate_service_name : Text → Option Invalid
validate_service_name [] = some empty
validate_service_name (c ∷ s) =
    if ltb 128 (length (c ∷ s))
    then some too_long
    else if not (whole_matches is_service_char (c ∷ s))
    then some bad_characters
    else none

unfoldable pub validate_username : Option Text → Option Invalid
validate_username none = none
validate_username (some []) = none
validate_username (some (c ∷ s)) =
    if ltb 32 (length (c ∷ s))
    then some too_long
    else if not (whole_matches is_user_char (c ∷ s))
    then some bad_characters
    else none

unfoldable pub validate_threshold : ℕ → Option Invalid
validate_threshold n = if leb n 100 then none else some out_of_range

abbrev log_levels : List Text
log_levels = codes "error" ∷ codes "warn" ∷ codes "info" ∷ codes "debug" ∷ []

unfoldable pub validate_log_level : Text → Option Invalid
validate_log_level level = if one_of (lower level) log_levels then none else some unknown_level

unfoldable pub validate_pattern_length : Text → Option Invalid
validate_pattern_length pattern = if ltb 256 (length pattern) then some too_long else none

unfoldable pub validate_lines_count : ℕ → Option Invalid
validate_lines_count n = if leb 1 n && leb n 10000 then none else some out_of_range
