-- ===== src/Templates/Rendering/Results.antt =====
-- merlya/templates/instantiation.py, instantiate: what is checked and rendered before files are
-- returned.
use mathlib.Core.Path.{subst}
use mathlib.Core.Option.{some-injective}
use merlya.Common.{
  ◌≡◌, refl, inl, inr, String, Bool, true, Bool-cases, Option, none, some, List, [], ◌∷◌, arith,
  eq_refl, eq_iff, str_eq, Option-cases, All, ℕ,
}
use merlya.Common.Value.{Value}
use merlya.Common.Dict.{Dict, insert, lookup, lookup-insert}
use merlya.Templates.{
  TemplateBackendConfig, TemplateInstance, supports_provider, supports_backend, get_backend_config,
}
use merlya.Templates.Validation.{Problem, validate_variables}
use merlya.Templates.Conforms.{HasConforming, validate_variables_iff}
use merlya.Templates.Rendering.{
  Renderer, in_files, output_name, files_to_render, render_files, render_template_files,
  rendering_result, with_config, check_supports, after_validation, instantiate,
  build_render_context,
}

-- Under the output name `k` is the text that the rendering of one of these files returned, a file
-- whose output name is `k`.
abbrev pub HoldsRendering :
    {W : Type 0} → Renderer W → Dict Value → List String → Dict String → String → Type 0
HoldsRendering {W} r c files d k =
    (f : String) × (text : String) × (w : W) × (in_files f files ≡ true)
    × (output_name r f ≡ k)
    × ((r.render f c w).0 ≡ some text)
    × (lookup k d ≡ some text)

in_files_later :
    (g : String) (fs gs : List String)
    → All (λ f. in_files f fs ≡ true) gs
    → All (λ f. in_files f (g ∷ fs) ≡ true) gs
unfolding in_files
in_files_later g fs [] h = tt
in_files_later g fs (f ∷ gs) h = (ground (arith, h.0), in_files_later g fs gs h.1)

in_files_self : (fs : List String) → All (λ f. in_files f fs ≡ true) fs
unfolding in_files
in_files_self [] = tt
in_files_self (f ∷ fs) = (ground (arith, eq_refl f), in_files_later f fs fs (in_files_self fs))

module _ {W : Type 0} (r : Renderer W) (c : Dict Value) (files : List String) where
  -- A write of a rendering leaves a rendering under every name that had one.
  HoldsRendering-insert :
      (f text k : String) (w : W) (d : Dict String)
      → in_files f files ≡ true
      → (r.render f c w).0 ≡ some text
      → HoldsRendering r c files d k
      → HoldsRendering r c files (insert (output_name r f) text d) k
  HoldsRendering-insert f text k w d m q (g, old, v, n, o, p, l) =
      elim (Bool-cases (str_eq (output_name r f) k)) [
        | inl e ↦ (
          f,
          text,
          w,
          m,
          ground (arith, e, eq_iff (output_name r f) k),
          q,
          ground (arith, e, lookup-insert (output_name r f) k text d),
        )
        | inr e ↦
            (g, old, v, n, o, p, ground (arith, e, l, lookup-insert (output_name r f) k text d))
      ]

  HoldsRendering-new :
      (f text : String) (w : W) (d : Dict String)
      → in_files f files ≡ true
      → (r.render f c w).0 ≡ some text
      → HoldsRendering r c files (insert (output_name r f) text d) (output_name r f)
  HoldsRendering-new f text w d m q = (
    f,
    text,
    w,
    m,
    refl,
    q,
    ground (
      arith,
      lookup-insert (output_name r f) (output_name r f) text d,
      eq_refl (output_name r f),
    ),
  )

  -- What is rendered stays.
  render_files-keeps :
      (fs : List String) (d e : Dict String) (w : W) (k : String)
      → All (λ f. in_files f files ≡ true) fs
      → (render_files r c fs d w).0 ≡ some e
      → HoldsRendering r c files d k
      → HoldsRendering r c files e k
  unfolding render_files
  render_files-keeps [] d e w k a h m =
      subst (λ x. HoldsRendering r c files x k) (some-injective _ _ h) m
  render_files-keeps (f ∷ fs) d e w k a h m = elim (Option-cases (r.render f c w).0) [
    | inl q ↦ absurd (ground (arith, h, q))
    | inr (t, q) ↦
        render_files-keeps fs (insert (output_name r f) t d) e (r.render f c w).1 k a.1
          (ground (arith, h, q)) (HoldsRendering-insert f t k w d a.0 q m)
  ]

  render_files-covers :
      (fs : List String) (d e : Dict String) (w : W)
      → All (λ f. in_files f files ≡ true) fs
      → (render_files r c fs d w).0 ≡ some e
      → All (λ f. HoldsRendering r c files e (output_name r f)) fs
  unfolding render_files
  render_files-covers [] d e w a h = tt
  render_files-covers (f ∷ fs) d e w a h = elim (Option-cases (r.render f c w).0) [
    | inl q ↦ absurd (ground (arith, h, q))
    | inr (t, q) ↦
        let rest : (render_files r c fs (insert (output_name r f) t d) (r.render f c w).1).0
            ≡ some e =
          ground (arith, h, q) in
        (
          render_files-keeps fs (insert (output_name r f) t d) e (r.render f c w).1
              (output_name r f) a.1 rest (HoldsRendering-new f t w d a.0 q),
          render_files-covers fs (insert (output_name r f) t d) e (r.render f c w).1 a.1 rest,
        )
  ]

rendering_result-some :
    {W : Type 0} (t : Option (Dict String) × W) (d : Dict String)
    → (rendering_result t).0 ≡ inr d
    → t.0 ≡ some d
unfolding rendering_result
rendering_result-some (none, w) d h = absurd (ground (arith, h))
rendering_result-some (some e, w) d h = ground (arith, h)

-- Under the output name of each of these files is a rendering of one of them.
abbrev pub IsRendered : {W : Type 0} → Renderer W → Dict Value → List String → Dict String → Type 0
IsRendered r c files d = All (λ f. HoldsRendering r c files d (output_name r f)) files

module _ {W : Type 0} (r : Renderer W) (unit : ℕ) (re_match : String → String → Option Bool) where
  -- What has been checked of an instance that is rendered with a configuration to these files.
  abbrev pub IsSound : TemplateInstance → Dict String → Type 0
  IsSound i d =
      All (HasConforming unit re_match i) i.template.variables
      × (supports_provider i.template i.provider ≡ true)
      × ((c : TemplateBackendConfig) × (get_backend_config i.template i.backend ≡ some c)
          × (r.has_source ≡ true → IsRendered r (build_render_context i) (files_to_render r c) d))

  after_validation-valid :
      (ps : List Problem) (i : TemplateInstance) (w : W) (d : Dict String)
      → (after_validation r unit re_match ps i w).0 ≡ inr d
      → (ps ≡ []) × ((check_supports r unit re_match i w).0 ≡ inr d)
  unfolding after_validation
  after_validation-valid [] i w d h = (refl, h)
  after_validation-valid (p ∷ ps) i w d h = absurd (ground (arith, h))

  with_config-IsRendered :
      (i : TemplateInstance) (c : Option TemplateBackendConfig) (w : W) (d : Dict String)
      → (with_config r unit re_match i c w).0 ≡ inr d
      → (b : TemplateBackendConfig) × (c ≡ some b)
        × (r.has_source ≡ true → IsRendered r (build_render_context i) (files_to_render r b) d)
  unfolding with_config render_template_files
  with_config-IsRendered i none w d h = absurd (ground (arith, h))
  with_config-IsRendered i (some b) w d h = (
    b,
    refl,
    λ s.
        render_files-covers r (build_render_context i) (files_to_render r b) (files_to_render r b)
          [] d w (in_files_self (files_to_render r b))
          (ground (arith, s, rendering_result-some _ d h)),
  )

  check_supports-supported :
      (i : TemplateInstance) (w : W) (d : Dict String)
      → (check_supports r unit re_match i w).0 ≡ inr d
      → (supports_provider i.template i.provider ≡ true)
        × ((with_config r unit re_match i (get_backend_config i.template i.backend) w).0 ≡ inr d)
  unfolding check_supports
  check_supports-supported i w d h = elim (Bool-cases (supports_provider i.template i.provider)) [
    | inl p ↦ elim (Bool-cases (supports_backend i.template i.backend)) [
      | inl b ↦ (p, ground (arith, p, b, h))
      | inr b ↦ absurd (ground (arith, p, b, h))
    ]
    | inr p ↦ absurd (ground (arith, p, h))
  ]

  -- An instantiation that gives files has an instance in which every variable has a value that conforms, of a provider that the
  -- template supports and a backend that it has a configuration for; and if the template has a
  -- source path, then every file to render has an entry under its output name, which is the text
  -- that the rendering, in the context of the instance, of a file to render with that output name
  -- returned (of the file itself, where no other shares its output name).
  pub instantiate-IsSound :
      (i : TemplateInstance) (w : W) (d : Dict String)
      → (instantiate r unit re_match i w).0 ≡ inr d
      → IsSound i d
  unfolding instantiate
  instantiate-IsSound i w d h =
      let v = after_validation-valid (validate_variables unit re_match i) i w d h in
      let s = check_supports-supported i w d v.1 in
      (
        (validate_variables_iff unit re_match i).0 v.0,
        s.0,
        with_config-IsRendered i (get_backend_config i.template i.backend) w d s.1,
      )
