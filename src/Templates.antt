-- ===== src/Templates.antt =====
-- merlya/templates/models.py: templates, their variables, and the values of an instance.
-- Descriptions, tags and outputs, which no operation reads, are left out.
pub mod Validation
pub mod Values
pub mod Matches
pub mod Conforms
pub mod Rendering
mod Examples
use merlya.Common.{
  ℕ, String, str_eq, Bool, true, false, not, ◌&&◌, ◌||◌, Option, none, some, List, [], ◌∷◌, ◌++◌,
  if◌then◌else◌, arith,
}
use merlya.Common.Value.{
  Number, Value, none_value, string, less, as_number, is_bool, is_list, is_dict, is_none, among,
}
use merlya.Common.Dict.{Dict, lookup, get_or}
use merlya.Common.Text.{codes, lower, text_eq}

pub data VariableType : Type 0 where
  string_type number_type boolean_type list_type map_type secret_type : VariableType

pub data IacBackend : Type 0 where
  terraform pulumi ansible cloudformation : IacBackend

-- The value of the StrEnum.
unfoldable pub backend_value : IacBackend → String
backend_value terraform = "terraform"
backend_value pulumi = "pulumi"
backend_value ansible = "ansible"
backend_value cloudformation = "cloudformation"

-- b.backend == backend
unfoldable pub same_backend : IacBackend → IacBackend → Bool
unfolding backend_value
same_backend a b = str_eq (backend_value a) (backend_value b)

pub record TemplateVariable : Type 0 where
  pub name : String
  pub type : VariableType
  pub required : Bool
  pub default : Value
  pub validation_regex : Option String
  pub min_value : Option Number
  pub max_value : Option Number
  pub allowed_values : Option (List Value)
  pub provider_defaults : Dict Value

pub record TemplateBackendConfig : Type 0 where
  pub backend : IacBackend
  pub entry_point : String
  pub files : List String

pub record Template : Type 0 where
  pub name : String
  pub version : String
  pub providers : List String
  pub backends : List TemplateBackendConfig
  pub variables : List TemplateVariable

pub record TemplateInstance : Type 0 where
  pub template : Template
  pub variables : Dict Value
  pub provider : String
  pub backend : IacBackend

unfoldable pub get_default_for_provider : TemplateVariable → String → Value
unfolding lookup
get_default_for_provider v provider = get_or v.default (lookup provider v.provider_defaults)

-- The loop of Template.get_variable.
unfoldable pub find_variable : String → List TemplateVariable → Option TemplateVariable
find_variable name [] = none
find_variable name (v ∷ vs) = if str_eq v.name name then some v else find_variable name vs

-- v.required and v.default is None
unfoldable pub needs_value : TemplateVariable → Bool
unfolding is_none
needs_value v = v.required && is_none v.default

unfoldable pub filter_required : List TemplateVariable → List TemplateVariable
unfolding needs_value
filter_required [] = []
filter_required (v ∷ vs) = let rest = filter_required vs in if needs_value v then v ∷ rest else rest

unfoldable pub get_required_variables : Template → List TemplateVariable
unfolding filter_required
get_required_variables t = filter_required t.variables

unfoldable pub listed_provider : String → List String → Bool
unfolding lower text_eq
listed_provider provider [] = false
listed_provider provider (p ∷ ps) =
    text_eq (lower (codes provider)) (lower (codes p)) || listed_provider provider ps

unfoldable pub supports_provider : Template → String → Bool
unfolding listed_provider
supports_provider t provider = elim t.providers [
  | [] ↦ true
  | p ∷ ps ↦ listed_provider provider (p ∷ ps)
]

unfoldable pub any_backend : IacBackend → List TemplateBackendConfig → Bool
unfolding same_backend
any_backend b [] = false
any_backend b (c ∷ cs) = same_backend c.backend b || any_backend b cs

unfoldable pub supports_backend : Template → IacBackend → Bool
unfolding any_backend
supports_backend t b = any_backend b t.backends

unfoldable pub find_config : IacBackend → List TemplateBackendConfig → Option TemplateBackendConfig
unfolding same_backend
find_config b [] = none
find_config b (c ∷ cs) = if same_backend c.backend b then some c else find_config b cs

unfoldable pub get_backend_config : Template → IacBackend → Option TemplateBackendConfig
unfolding find_config
get_backend_config t b = find_config b t.backends

-- The default of the declared variable, when the instance gives no value.
unfoldable pub default_of : Option TemplateVariable → String → Value
unfolding get_default_for_provider
default_of none provider = none_value
default_of (some v) provider = get_default_for_provider v provider

unfoldable pub get_variable : TemplateInstance → String → Value
unfolding lookup find_variable default_of
get_variable i name =
    get_or (default_of (find_variable name i.template.variables) i.provider)
      (lookup name i.variables)
