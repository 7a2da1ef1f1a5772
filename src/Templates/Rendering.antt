-- ===== src/Templates/Rendering.antt =====
-- merlya/templates/instantiation.py: TemplateInstantiator.instantiate, the context of a rendering
-- and the files rendered. Jinja, the directories and the writes are actions on a world `W`: a
-- rendering that raises gives `none`. The path of the output is left out, and so are its removal
-- and that the entry point is appended to the configuration's own list.
pub mod Context
pub mod Results
use merlya.Common.{
  ℕ, String, str_eq, ◌≡◌, refl, ◌⊎◌, inl, inr, Bool, true, false, not, ◌&&◌, Option, none, some,
  List, [], ◌∷◌, ◌++◌, if◌then◌else◌, arith, eq_iff,
}
use merlya.Common.Value.{Value, string}
use merlya.Common.Text.{Text, text_eq}
use merlya.Common.Dict.{Dict, lookup, insert, get_or, lookup-insert, has, has-insert}
use merlya.Templates.{
  IacBackend, backend_value, TemplateVariable, TemplateBackendConfig, Template, TemplateInstance,
  get_variable, supports_provider, supports_backend, get_backend_config,
}
use merlya.Templates.Validation.{Problem, validate_variables}

-- context[var.name] = value, for every variable
unfoldable pub set_variables : TemplateInstance → List TemplateVariable → Dict Value → Dict Value
unfolding insert get_variable
set_variables i [] c = c
set_variables i (v ∷ vs) c = set_variables i vs (insert v.name (get_variable i v.name) c)

-- d.update(e)
unfoldable pub update : Dict Value → Dict Value → Dict Value
unfolding insert
update d [] = d
update d ((k, v) ∷ e) = update (insert k v d) e

-- The four entries that every rendering has.
abbrev pub base_context : TemplateInstance → Dict Value
base_context i =
    ("provider", string i.provider)
    ∷ ("backend", string (backend_value i.backend))
    ∷ ("template_name", string i.template.name)
    ∷ ("template_version", string i.template.version)
    ∷ []

unfoldable pub build_render_context : TemplateInstance → Dict Value
unfolding set_variables update
build_render_context i = update (set_variables i i.template.variables (base_context i)) i.variables

-- file_path.endswith(".j2") and file_path[:-3], the `.j2` files that `rglob` finds, the rendering
-- and writing of a file; `has_source` is whether the template has a source path.
pub record Renderer (W : Type 0) : Type 0 where
  pub is_j2 : String → Bool
  pub without_suffix : String → String
  pub has_source : Bool
  pub found_files : List String
  pub render : String → Dict Value → W → Option String × W

unfoldable pub in_files : String → List String → Bool
in_files f [] = false
in_files f (g ∷ gs) = if str_eq g f then true else in_files f gs

unfoldable pub output_name : {W : Type 0} → Renderer W → String → String
output_name r f = if r.is_j2 f then r.without_suffix f else f

-- backend_config.files, or the files that are found, and the entry point.
unfoldable pub listed_files : {W : Type 0} → Renderer W → List String → List String
listed_files r [] = r.found_files
listed_files r (f ∷ fs) = f ∷ fs

unfoldable pub files_to_render : {W : Type 0} → Renderer W → TemplateBackendConfig → List String
unfolding in_files listed_files
files_to_render r c =
    let files = listed_files r c.files in
    if r.is_j2 c.entry_point && not (in_files c.entry_point files)
    then files ++ (c.entry_point ∷ [])
    else files

module _ {W : Type 0} (r : Renderer W) where
  -- The loop over the files; the first one that raises ends it.
  unfoldable pub render_files :
      Dict Value → List String → Dict String → W → Option (Dict String) × W
  unfolding insert output_name
  render_files c [] d w = (some d, w)
  render_files c (f ∷ fs) d w =
      let t = r.render f c w in
      elim t.0 [
        | none ↦ (none, t.1)
        | some text ↦ render_files c fs (insert (output_name r f) text d) t.1
      ]

  unfoldable pub render_template_files :
      TemplateBackendConfig → Dict Value → W → Option (Dict String) × W
  unfolding render_files files_to_render
  render_template_files b c w =
      if r.has_source then render_files c (files_to_render r b) [] w else (some [], w)

pub data TemplateError : Type 0 where
  invalid_variables : List Problem → TemplateError
  unsupported_provider unsupported_backend no_backend_config render_failed : TemplateError

unfoldable pub rendering_result :
    {W : Type 0} → Option (Dict String) × W → (TemplateError ⊎ Dict String) × W
rendering_result (none, w) = (inl render_failed, w)
rendering_result (some d, w) = (inr d, w)

module _ {W : Type 0} (r : Renderer W) (unit : ℕ) (re_match : String → String → Option Bool) where
  unfoldable pub with_config :
      TemplateInstance → Option TemplateBackendConfig → W → (TemplateError ⊎ Dict String) × W
  unfolding rendering_result render_template_files build_render_context
  with_config i none w = (inl no_backend_config, w)
  with_config i (some c) w = rendering_result (render_template_files r c (build_render_context i) w)

  unfoldable pub check_supports : TemplateInstance → W → (TemplateError ⊎ Dict String) × W
  unfolding supports_provider supports_backend get_backend_config with_config
  check_supports i w =
      if not (supports_provider i.template i.provider)
      then (inl unsupported_provider, w)
      else if not (supports_backend i.template i.backend)
      then (inl unsupported_backend, w)
      else with_config i (get_backend_config i.template i.backend) w

  unfoldable pub after_validation :
      List Problem → TemplateInstance → W → (TemplateError ⊎ Dict String) × W
  unfolding check_supports
  after_validation [] i w = check_supports i w
  after_validation (p ∷ ps) i w = (inl (invalid_variables (p ∷ ps)), w)

  unfoldable pub instantiate : TemplateInstance → W → (TemplateError ⊎ Dict String) × W
  unfolding validate_variables after_validation
  instantiate i w = after_validation (validate_variables unit re_match i) i w
