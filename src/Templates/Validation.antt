-- ===== src/Templates/Validation.antt =====
-- merlya/templates/models.py: TemplateInstance.validate_variables. A message is a constructor of
-- `Problem` with the variable's name. Regular expressions are Python's `re`: `re_match pattern text`
-- is `none` when the pattern is invalid, else whether the text has a match at its start.
use merlya.Common.{
  ℕ, String, str_eq, Bool, true, false, Option, none, some, List, [], ◌∷◌, ◌++◌, if◌then◌else◌,
}
use merlya.Common.Value.{
  Number, Value, string, less, as_number, is_bool, is_list, is_dict, is_none, among,
}
use merlya.Templates.{
  VariableType, string_type, number_type, boolean_type, list_type, map_type, secret_type,
  TemplateVariable, TemplateInstance, get_variable,
}

pub data Problem : Type 0 where
  not_set not_number below_min above_max not_boolean not_list not_map : String → Problem
  not_allowed no_match invalid_regex : String → Problem

-- value < var.min_value, when there is a minimum
unfoldable pub is_below : Option Number → Number → Bool
unfolding less
is_below none n = false
is_below (some m) n = less n m

-- value > var.max_value, when there is a maximum
unfoldable pub is_above : Option Number → Number → Bool
unfolding less
is_above none n = false
is_above (some m) n = less m n

unfoldable pub check_number : TemplateVariable → Option Number → List Problem
unfolding is_below is_above
check_number v none = not_number v.name ∷ []
check_number v (some n) =
    if is_below v.min_value n
    then below_min v.name ∷ []
    else if is_above v.max_value n
    then above_max v.name ∷ []
    else []

-- The type validation, an if with a branch for four of the six types.
unfoldable pub check_type : (unit : ℕ) → TemplateVariable → VariableType → Value → List Problem
unfolding check_number as_number is_bool is_list is_dict
check_type unit v number_type x = check_number v (as_number unit x)
check_type unit v boolean_type x = if is_bool x then [] else not_boolean v.name ∷ []
check_type unit v list_type x = if is_list x then [] else not_list v.name ∷ []
check_type unit v map_type x = if is_dict x then [] else not_map v.name ∷ []
check_type unit v string_type x = []
check_type unit v secret_type x = []

-- A missing list and an empty one allow every value.
unfoldable pub check_allowed : (unit : ℕ) → TemplateVariable → Value → List Problem
unfolding among
check_allowed unit v x = elim v.allowed_values [
  | none ↦ []
  | some [] ↦ []
  | some (w ∷ ws) ↦ if among unit x (w ∷ ws) then [] else not_allowed v.name ∷ []
]

unfoldable pub match_problem : Option Bool → String → List Problem
match_problem none name = invalid_regex name ∷ []
match_problem (some true) name = []
match_problem (some false) name = no_match name ∷ []

-- var.validation_regex and isinstance(value, str)
unfoldable pub regex_text : Option String → Value → Option (String × String)
regex_text (some p) (string s) = if str_eq p "" then none else some (p, s)
regex_text _ _ = none

module _ (unit : ℕ) (re_match : String → String → Option Bool) where
  unfoldable pub match_text : Option (String × String) → String → List Problem
  unfolding match_problem
  match_text none name = []
  match_text (some (p, s)) name = match_problem (re_match p s) name

  unfoldable pub check_regex : TemplateVariable → Value → List Problem
  unfolding match_text regex_text
  check_regex v x = match_text (regex_text v.validation_regex x) v.name

  -- What one pass of the loop adds.
  unfoldable pub check_variable : TemplateVariable → Value → List Problem
  unfolding is_none check_type check_allowed check_regex
  check_variable v x =
      if is_none x
      then (if v.required then not_set v.name ∷ [] else [])
      else check_type unit v v.type x ++ (check_allowed unit v x ++ check_regex v x)

  unfoldable pub check_all : TemplateInstance → List TemplateVariable → List Problem
  unfolding check_variable get_variable
  check_all i [] = []
  check_all i (v ∷ vs) = check_variable v (get_variable i v.name) ++ check_all i vs

  unfoldable pub validate_variables : TemplateInstance → List Problem
  unfolding check_all
  validate_variables i = check_all i i.template.variables
