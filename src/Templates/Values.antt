-- ===== src/Templates/Values.antt =====
-- merlya/templates/models.py: the value that an instance has for a variable, and the order of
-- numbers, as relations.
use merlya.Common.{
  ◌<◌, ◌≡◌, ◌≢◌, refl, ◌⊎◌, inl, inr, ◌↔◌, String, str_eq, eq_iff, false, Bool-cases, Option, none,
  some, Option-cases, List, [], ◌∷◌, arith, All,
}
use merlya.Common.Value.{Number, nan, positive, negative, less, Value, none_value}
use merlya.Common.Dict.{lookup}
use merlya.Templates.{
  TemplateVariable, TemplateInstance, get_default_for_provider, find_variable, default_of,
  get_variable,
}
use merlya.Templates.Validation.{is_below, is_above}

-- The order of numbers with a sign, both zeros alike; NaN is before and after none.
abbrev pub Precedes : Number → Number → Type 0
Precedes (positive m) (positive n) = m < n
Precedes (negative m) (negative n) = n < m
Precedes (negative m) (positive n) = (0 < m) ⊎ (0 < n)
Precedes (positive m) (negative n) = ⊥
Precedes (positive m) nan = ⊥
Precedes (negative m) nan = ⊥
Precedes nan b = ⊥

-- No limit, or one that the number does not precede; no limit, or one that does not precede it.
abbrev pub IsAtLeast : Option Number → Number → Type 0
IsAtLeast none n = Unit
IsAtLeast (some m) n = ¬ (Precedes n m)

abbrev pub IsAtMost : Option Number → Number → Type 0
IsAtMost none n = Unit
IsAtMost (some m) n = ¬ (Precedes m n)

less_lem : (a b : Number) → (less a b ≡ false) ↔ (¬ (Precedes a b))
unfolding less
less_lem nan b = (λ h p. p, λ h. refl)
less_lem (positive m) nan = (λ h p. p, λ h. refl)
less_lem (positive m) (positive n) = ground arith
less_lem (positive m) (negative n) = (λ h p. p, λ h. refl)
less_lem (negative m) nan = (λ h p. p, λ h. refl)
less_lem (negative m) (positive n) = ground arith
less_lem (negative m) (negative n) = ground arith

pub is_below_lem : (lo : Option Number) (n : Number) → (is_below lo n ≡ false) ↔ IsAtLeast lo n
unfolding is_below
is_below_lem none n = (λ _. tt, λ _. refl)
is_below_lem (some m) n = less_lem n m

pub is_above_lem : (hi : Option Number) (n : Number) → (is_above hi n ≡ false) ↔ IsAtMost hi n
unfolding is_above
is_above_lem none n = (λ _. tt, λ _. refl)
is_above_lem (some m) n = less_lem m n

-- The first variable with a name.
pub data IsFirst (name : String) : List TemplateVariable → TemplateVariable → Type 0 where
  here :
      (v : TemplateVariable) (vs : List TemplateVariable) → v.name ≡ name → IsFirst name (v ∷ vs) v
  later :
      (u v : TemplateVariable) (vs : List TemplateVariable)
      → u.name ≢ name
      → IsFirst name vs v
      → IsFirst name (u ∷ vs) v

-- The value of a name in an instance: what the instance gives, or else what the first variable of
-- that name has for the provider, or else its default; a name that is not declared has no value.
pub data HasValue (i : TemplateInstance) (name : String) : Value → Type 0 where
  given : (x : Value) → lookup name i.variables ≡ some x → HasValue i name x
  by_provider :
      (v : TemplateVariable) (x : Value)
      → lookup name i.variables ≡ none
      → IsFirst name i.template.variables v
      → lookup i.provider v.provider_defaults ≡ some x
      → HasValue i name x
  by_default :
      (v : TemplateVariable)
      → lookup name i.variables ≡ none
      → IsFirst name i.template.variables v
      → lookup i.provider v.provider_defaults ≡ none
      → HasValue i name v.default
  undeclared :
      lookup name i.variables ≡ none
      → All (λ v. v.name ≢ name) i.template.variables
      → HasValue i name none_value

-- What the search for a variable finds.
abbrev IsFound : String → List TemplateVariable → Option TemplateVariable → Type 0
IsFound name vs none = All (λ v. v.name ≢ name) vs
IsFound name vs (some v) = IsFirst name vs v

IsFound-later :
    (name : String) (u : TemplateVariable) (vs : List TemplateVariable)
    (o : Option TemplateVariable)
    → u.name ≢ name
    → IsFound name vs o
    → IsFound name (u ∷ vs) o
IsFound-later name u vs none n h = (n, h)
IsFound-later name u vs (some v) n h = later u v vs n h

find_variable-IsFound :
    (name : String) (vs : List TemplateVariable) → IsFound name vs (find_variable name vs)
unfolding find_variable
find_variable-IsFound name [] = tt
find_variable-IsFound name (u ∷ vs) = elim (Bool-cases (str_eq u.name name)) [
  | inl e ↦ rw e (here u vs ((eq_iff u.name name).0 e))
  | inr e ↦ rw e (
      IsFound-later name u vs (find_variable name vs)
        (λ q. absurd (ground (arith, e, (eq_iff u.name name).1 q))) (find_variable-IsFound name vs))
]

first-find_variable :
    (name : String) (vs : List TemplateVariable) (v : TemplateVariable)
    → IsFirst name vs v
    → find_variable name vs ≡ some v
unfolding find_variable
first-find_variable name vs v (here _ _ e) = rw ((eq_iff v.name name).1 e) refl
first-find_variable name vs v (later u _ ws n f) = elim (Bool-cases (str_eq u.name name)) [
  | inl e ↦ absurd (n ((eq_iff u.name name).0 e))
  | inr e ↦ rw e (first-find_variable name ws v f)
]

none-find_variable :
    (name : String) (vs : List TemplateVariable)
    → All (λ v. v.name ≢ name) vs
    → find_variable name vs ≡ none
unfolding find_variable
none-find_variable name [] h = refl
none-find_variable name (u ∷ vs) h = elim (Bool-cases (str_eq u.name name)) [
  | inl e ↦ absurd (h.0 ((eq_iff u.name name).0 e))
  | inr e ↦ rw e (none-find_variable name vs h.1)
]

module _ (i : TemplateInstance) (name : String) where
  default-HasValue :
      (o : Option TemplateVariable)
      → lookup name i.variables ≡ none
      → IsFound name i.template.variables o
      → HasValue i name (default_of o i.provider)
  unfolding default_of get_default_for_provider
  default-HasValue none e f = undeclared e f
  default-HasValue (some v) e f = elim (Option-cases (lookup i.provider v.provider_defaults)) [
    | inl q ↦ rw q (by_default v e f q)
    | inr (x, q) ↦ rw q (by_provider v x e f q)
  ]

  pub get_variable-HasValue : HasValue i name (get_variable i name)
  unfolding get_variable
  get_variable-HasValue = elim (Option-cases (lookup name i.variables)) [
    | inl e ↦ rw e (
        default-HasValue (find_variable name i.template.variables) e
          (find_variable-IsFound name i.template.variables))
    | inr (x, e) ↦ rw e (given x e)
  ]

  pub HasValue-get_variable : (x : Value) → HasValue i name x → get_variable i name ≡ x
  unfolding get_variable default_of get_default_for_provider
  HasValue-get_variable x (given _ e) = rw e refl
  HasValue-get_variable x (by_provider v _ e f q) =
      rw (e, first-find_variable name i.template.variables v f, q) refl
  HasValue-get_variable x (by_default v e f q) =
      rw (e, first-find_variable name i.template.variables v f, q) refl
  HasValue-get_variable x (undeclared e h) =
      rw (e, none-find_variable name i.template.variables h) refl
