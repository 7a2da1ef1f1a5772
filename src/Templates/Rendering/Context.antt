-- ===== src/Templates/Rendering/Context.antt =====
-- merlya/templates/instantiation.py, _build_render_context: which value each name has.
use merlya.Common.{
  ◌≡◌, refl, String, str_eq, Bool, true, false, ◌||◌, some, List, [], ◌∷◌, if◌then◌else◌, arith,
  eq_iff,
}
use merlya.Common.Value.{Value}
use merlya.Common.Dict.{Dict, lookup, insert, lookup-insert, has, has-lookup}
use merlya.Templates.{TemplateVariable, TemplateInstance, get_variable}
use merlya.Templates.Rendering.{set_variables, update, base_context, build_render_context}

-- The keys of a dictionary are different.
abbrev pub IsKeyed : {V : Type 0} → Dict V → Type 0
IsKeyed [] = Unit
IsKeyed ((k, v) ∷ d) = (has k d ≡ false) × IsKeyed d

-- A variable of the template has the name.
unfoldable pub declares : String → List TemplateVariable → Bool
declares k [] = false
declares k (v ∷ vs) = if str_eq v.name k then true else declares k vs

lookup-set_variables :
    (k : String) (i : TemplateInstance) (vs : List TemplateVariable) (c : Dict Value)
    → lookup k (set_variables i vs c)
      ≡ (if declares k vs then some (get_variable i k) else lookup k c)
unfolding set_variables declares
lookup-set_variables k i [] c = refl
lookup-set_variables k i (v ∷ vs) c = ground (
  arith,
  eq_iff v.name k,
  lookup-insert v.name k (get_variable i v.name) c,
  lookup-set_variables k i vs (insert v.name (get_variable i v.name) c),
)

lookup-update :
    (k : String) (d e : Dict Value)
    → IsKeyed e
    → lookup k (update d e) ≡ (if has k e then lookup k e else lookup k d)
unfolding update lookup has
lookup-update k d [] u = refl
lookup-update k d ((j, v) ∷ e) u =
    ground (arith, eq_iff j k, lookup-insert j k v d, lookup-update k (insert j v d) e u.1, u.0)

-- In the context of a rendering, where the names that the instance gives values are different, a
-- name that it gives a value or that a variable of the template has stands for the value of the
-- variable in the instance, the defaults filled in; the names provider, backend, template_name and
-- template_version have their values only when they are not among those; no other name has one.
pub lookup-build_render_context :
    (i : TemplateInstance) (k : String)
    → IsKeyed i.variables
    → lookup k (build_render_context i) ≡ (
        if has k i.variables || declares k i.template.variables
        then some (get_variable i k)
        else lookup k (base_context i))
unfolding build_render_context get_variable
lookup-build_render_context i k u = ground (
  arith,
  lookup-update k (set_variables i i.template.variables (base_context i)) i.variables u,
  lookup-set_variables k i i.template.variables (base_context i),
  has-lookup k i.variables,
)
