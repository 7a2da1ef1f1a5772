-- ===== src/Templates/Examples.antt =====
-- A virtual machine's template: a size of 1 to 8, a flag, a region from a list, a token.
use merlya.Common.{
  ◌≡◌, refl, String, str_eq, Bool, true, false, Option, none, some, [], ◌∷◌, inr, ◌↔◌, All,
}
use merlya.Common.Value.{Value, none_value, bool, number, string, positive}
use merlya.Common.Dict.{Dict, lookup, has}
use merlya.Templates.{
  TemplateVariable, number_type, string_type, secret_type, VariableType, Template, TemplateInstance,
  terraform, get_variable, get_required_variables,
}
use merlya.Templates.Validation.{above_max, no_match, validate_variables}
use merlya.Templates.Conforms.{HasConforming, validate_variables_iff}
use merlya.Templates.Rendering.{Renderer, instantiate, build_render_context}
use merlya.Templates.Rendering.Context.{lookup-build_render_context, declares}
use merlya.Templates.Rendering.Results.{IsSound, instantiate-IsSound}

abbrev plain : String → VariableType → Value → TemplateVariable
plain n t d = record {
  name = n;
  type = t;
  required = true;
  default = d;
  validation_regex = none;
  min_value = none;
  max_value = none;
  allowed_values = none;
  provider_defaults = [];
}

abbrev size : TemplateVariable
size = record (plain "size" number_type none_value) {
  min_value = some (positive 1);
  max_value = some (positive 8);
}

abbrev region : TemplateVariable
region = record (plain "region" string_type (string "eu")) {
  allowed_values = some (string "eu" ∷ string "us" ∷ []);
  provider_defaults = ("aws", string "us") ∷ [];
}

abbrev token : TemplateVariable
token = record (plain "token" secret_type none_value) { validation_regex = some "a.*" }

abbrev machine : Template
machine = record {
  name = "vm";
  version = "1.0.0";
  providers = "AWS" ∷ [];
  backends = record { backend = terraform; entry_point = "main.j2"; files = [] } ∷ [];
  variables = size ∷ region ∷ token ∷ [];
}

-- The text "abc" has a match, no other one.
abbrev matching : String → String → Option Bool
matching p s = some (str_eq s "abc")

abbrev instance_of : Value → Value → TemplateInstance
instance_of s t = record {
  template = machine;
  variables = ("size", s) ∷ ("token", t) ∷ [];
  provider = "aws";
  backend = terraform;
}

-- A size of True is in range, and a token of 7 is not looked at.
accepted : validate_variables 1 matching (instance_of (bool true) (number (positive 7))) ≡ []
unfolding validate_variables
accepted = refl

rejected :
    validate_variables 1 matching (instance_of (number (positive 9)) (string "b"))
    ≡ above_max "size" ∷ no_match "token" ∷ []
unfolding validate_variables
rejected = refl

required_variables : get_required_variables machine ≡ size ∷ token ∷ []
unfolding get_required_variables
required_variables = refl

-- No file is there but the entry point; a rendering writes its name.
abbrev renderer : Renderer Bool
renderer = record {
  is_j2 = λ f. str_eq f "main.j2";
  without_suffix = λ f. "main";
  has_source = true;
  found_files = [];
  render = λ f c w. (some "text", true);
}

abbrev good : TemplateInstance
good = instance_of (number (positive 2)) (string "abc")

abbrev files : Dict String
files = ("main", "text") ∷ []

instantiated : instantiate renderer 1 matching good false ≡ (inr files, true)
unfolding instantiate
instantiated = refl

validate_variables_iff_example :
    (validate_variables 1 matching good ≡ [])
    ↔ All (HasConforming 1 matching good) machine.variables
validate_variables_iff_example = validate_variables_iff 1 matching good

instantiate-IsSound_example : IsSound renderer 1 matching good files
unfolding instantiate
instantiate-IsSound_example = instantiate-IsSound renderer 1 matching good false files refl

lookup-build_render_context_example :
    lookup "region" (build_render_context good) ≡ some (string "us")
unfolding has declares get_variable
lookup-build_render_context_example = lookup-build_render_context good "region" (refl, (refl, tt))
