-- ===== src/Templates/Conforms.antt =====
-- merlya/templates/models.py: the values that a template's variables may have, as a relation.
use mathlib.Core.Path.{subst}
use merlya.Common.{
  sym, ◌≢◌, ℕ, ◌≡◌, refl, ◌⊎◌, inl, inr, ◌↔◌, String, Bool, true, false, Bool-cases, Option, none,
  some, if◌then◌else◌, List, [], ◌∷◌, ◌++◌, arith, All,
}
use merlya.Common.Value.{
  Number, Value, Items, Entries, none_value, bool, number, string, list, dict, of_bool, as_number,
  is_bool, is_list, is_dict, is_none, among,
}
use merlya.Templates.{
  VariableType, string_type, number_type, boolean_type, list_type, map_type, secret_type,
  TemplateVariable, TemplateInstance, get_variable,
}
use merlya.Templates.Values.{
  IsAtLeast, IsAtMost, is_below_lem, is_above_lem, HasValue, get_variable-HasValue,
  HasValue-get_variable,
}
use merlya.Templates.Matches.{IsMatch, match_lem}
use merlya.Templates.Validation.{
  Problem, not_set, check_number, check_type, check_allowed, check_regex, check_variable, check_all,
  validate_variables,
}

-- The number is not less than the minimum and not more than the maximum, where they are given.
abbrev pub IsInRange : Option Number → Option Number → Number → Type 0
IsInRange lo hi n = IsAtLeast lo n × IsAtMost hi n

-- A value of a type: of the type number also a Boolean, of the types string and secret any value.
pub data HasType (unit : ℕ) (lo hi : Option Number) : VariableType → Value → Type 0 where
  a_number : (n : Number) → IsInRange lo hi n → HasType unit lo hi number_type (number n)
  a_flag : (b : Bool) → IsInRange lo hi (of_bool unit b) → HasType unit lo hi number_type (bool b)
  a_bool : (b : Bool) → HasType unit lo hi boolean_type (bool b)
  a_list : (xs : Items) → HasType unit lo hi list_type (list xs)
  a_dict : (es : Entries) → HasType unit lo hi map_type (dict es)
  for_string : (x : Value) → HasType unit lo hi string_type x
  for_secret : (x : Value) → HasType unit lo hi secret_type x

abbrev pub IsAllowed : (unit : ℕ) → Option (List Value) → Value → Type 0
IsAllowed unit none x = Unit
IsAllowed unit (some []) x = Unit
IsAllowed unit (some (w ∷ ws)) x = among unit x (w ∷ ws) ≡ true

module _ (unit : ℕ) (re_match : String → String → Option Bool) where
  -- Of its type, allowed, and with a match.
  abbrev pub Fits : TemplateVariable → Value → Type 0
  Fits v x =
      HasType unit v.min_value v.max_value v.type x
      × IsAllowed unit v.allowed_values x
      × IsMatch re_match v.validation_regex x

  -- A variable has no value and needs none, or a value of its type that is allowed and matches.
  abbrev pub Conforms : TemplateVariable → Value → Type 0
  Conforms v x = ((x ≡ none_value) × (v.required ≡ false)) ⊎ ((x ≢ none_value) × Fits v x)

  number_lem :
      (v : TemplateVariable) (n : Number)
      → (check_number v (some n) ≡ []) ↔ IsInRange v.min_value v.max_value n
  unfolding check_number
  number_lem v n = (
    λ h. (
      (is_below_lem v.min_value n).0 (ground (arith, h)),
      (is_above_lem v.max_value n).0 (ground (arith, h)),
    ),
    λ h. rw ((is_below_lem v.min_value n).1 h.0, (is_above_lem v.max_value n).1 h.1) refl,
  )

  typed :
      (v : TemplateVariable) (t : VariableType) (x : Value)
      → check_type unit v t x ≡ []
      → HasType unit v.min_value v.max_value t x
  unfolding check_type as_number is_bool is_list is_dict check_number
  typed v number_type (number n) h = a_number n ((number_lem v n).0 h)
  typed v number_type (bool b) h = a_flag b ((number_lem v (of_bool unit b)).0 h)
  typed v number_type none_value h = absurd (ground arith)
  typed v number_type (string _) h = absurd (ground arith)
  typed v number_type (list _) h = absurd (ground arith)
  typed v number_type (dict _) h = absurd (ground arith)
  typed v boolean_type (bool b) h = a_bool b
  typed v boolean_type none_value h = absurd (ground arith)
  typed v boolean_type (number _) h = absurd (ground arith)
  typed v boolean_type (string _) h = absurd (ground arith)
  typed v boolean_type (list _) h = absurd (ground arith)
  typed v boolean_type (dict _) h = absurd (ground arith)
  typed v list_type (list xs) h = a_list xs
  typed v list_type none_value h = absurd (ground arith)
  typed v list_type (bool _) h = absurd (ground arith)
  typed v list_type (number _) h = absurd (ground arith)
  typed v list_type (string _) h = absurd (ground arith)
  typed v list_type (dict _) h = absurd (ground arith)
  typed v map_type (dict es) h = a_dict es
  typed v map_type none_value h = absurd (ground arith)
  typed v map_type (bool _) h = absurd (ground arith)
  typed v map_type (number _) h = absurd (ground arith)
  typed v map_type (string _) h = absurd (ground arith)
  typed v map_type (list _) h = absurd (ground arith)
  typed v string_type x h = for_string x
  typed v secret_type x h = for_secret x

  untyped :
      (v : TemplateVariable) (t : VariableType) (x : Value)
      → HasType unit v.min_value v.max_value t x
      → check_type unit v t x ≡ []
  unfolding check_type as_number is_bool is_list is_dict
  untyped v t x (a_number n r) = (number_lem v n).1 r
  untyped v t x (a_flag b r) = (number_lem v (of_bool unit b)).1 r
  untyped v t x (a_bool b) = refl
  untyped v t x (a_list xs) = refl
  untyped v t x (a_dict es) = refl
  untyped v t x (for_string y) = refl
  untyped v t x (for_secret y) = refl

  allowed_lem :
      (v : TemplateVariable) (x : Value)
      → (check_allowed unit v x ≡ []) ↔ IsAllowed unit v.allowed_values x
  unfolding check_allowed
  allowed_lem v x = cases v.allowed_values refl
    where
      cases :
          (o : Option (List Value))
          → v.allowed_values ≡ o
          → (check_allowed unit v x ≡ []) ↔ IsAllowed unit o x
      cases none e = (λ _. tt, λ _. ground (arith, e))
      cases (some []) e = (λ _. tt, λ _. ground (arith, e))
      cases (some (w ∷ ws)) e = ground (arith, e)

  both_empty : (ps qs : List Problem) → (ps ++ qs ≡ []) ↔ ((ps ≡ []) × (qs ≡ []))
  both_empty [] qs = (λ h. (refl, h), λ h. h.1)
  both_empty (p ∷ ps) qs = ground arith

  checks : TemplateVariable → Value → List Problem
  checks v x =
      check_type unit v v.type x ++ (check_allowed unit v x ++ check_regex unit re_match v x)

  fits_lem : (v : TemplateVariable) (x : Value) → (checks v x ≡ []) ↔ Fits v x
  unfolding checks check_regex
  fits_lem v x = (
    λ h.
        let p = (both_empty (check_type unit v v.type x) _).0 h in
        let q = (both_empty (check_allowed unit v x) _).0 p.1 in
        (
          typed v v.type x p.0,
          (allowed_lem v x).0 q.0,
          (match_lem unit re_match v.validation_regex x v.name).0 q.1,
        ),
    λ f. (both_empty (check_type unit v v.type x) _).1 (
      untyped v v.type x f.0,
      (both_empty (check_allowed unit v x) _).1
          ((allowed_lem v x).1 f.1, (match_lem unit re_match v.validation_regex x v.name).1 f.2),
    ),
  )

  none_lem : (x : Value) → (is_none x ≡ true) ↔ (x ≡ none_value)
  unfolding is_none
  none_lem none_value = (λ _. refl, λ _. refl)
  none_lem (bool _) = (λ h. absurd (ground (arith, h)), λ h. absurd (ground (arith, h)))
  none_lem (number _) = (λ h. absurd (ground (arith, h)), λ h. absurd (ground (arith, h)))
  none_lem (string _) = (λ h. absurd (ground (arith, h)), λ h. absurd (ground (arith, h)))
  none_lem (list _) = (λ h. absurd (ground (arith, h)), λ h. absurd (ground (arith, h)))
  none_lem (dict _) = (λ h. absurd (ground (arith, h)), λ h. absurd (ground (arith, h)))

  conforms_lem :
      (v : TemplateVariable) (x : Value) → (check_variable unit re_match v x ≡ []) ↔ Conforms v x
  unfolding check_variable checks
  conforms_lem v x = elim (Bool-cases (is_none x)) [
    | inl e ↦ rw e (λ h. inl ((none_lem x).0 e, ground (arith, h)), from_unset ((none_lem x).0 e))
    | inr e ↦
        let n : x ≢ none_value = λ q. absurd (ground (arith, e, (none_lem x).1 q)) in
        rw e (λ h. inr (n, (fits_lem v x).0 h), from_set n)
  ]
    where
      from_unset :
          {A : Type 0}
          → x ≡ none_value
          → (((x ≡ none_value) × (v.required ≡ false)) ⊎ ((x ≢ none_value) × A))
          → (if v.required then not_set v.name ∷ [] else []) ≡ []
      from_unset e (inl p) = ground (arith, p.1)
      from_unset e (inr p) = absurd (p.0 e)

      from_set :
          x ≢ none_value
          → (((x ≡ none_value) × (v.required ≡ false)) ⊎ ((x ≢ none_value) × Fits v x))
          → checks v x ≡ []
      from_set n (inl p) = absurd (n p.0)
      from_set n (inr p) = (fits_lem v x).1 p.1

  -- The instance has a value for the variable, and it conforms.
  abbrev pub HasConforming : TemplateInstance → TemplateVariable → Type 0
  HasConforming i v = (x : Value) × HasValue i v.name x × Conforms v x

  all_lem :
      (i : TemplateInstance) (vs : List TemplateVariable)
      → (check_all unit re_match i vs ≡ []) ↔ All (HasConforming i) vs
  unfolding check_all
  all_lem i [] = (λ _. tt, λ _. refl)
  all_lem i (v ∷ vs) = (
    λ h.
        let p = (both_empty (check_variable unit re_match v (get_variable i v.name)) _).0 h in
        (
          (
            get_variable i v.name,
            get_variable-HasValue i v.name,
            (conforms_lem v (get_variable i v.name)).0 p.0,
          ),
          (all_lem i vs).0 p.1,
        ),
    λ c.
        let (x, h, q) = c.0 in
        (both_empty (check_variable unit re_match v (get_variable i v.name)) _).1 (
          (conforms_lem v (get_variable i v.name)).1
              (subst (Conforms v) (sym (HasValue-get_variable i v.name x h)) q),
          (all_lem i vs).1 c.1,
        ),
  )

  -- The validation of an instance reports nothing just when every variable of the template has a
  -- value that conforms: the one that the instance gives, or else the default for its provider, or
  -- else the default; and it is none and the variable is not required, or it has the variable's
  -- type, does not precede the minimum nor come after the maximum, is allowed, and has a match of
  -- the pattern. A Boolean conforms to the type number, as a number, NaN is within all limits, and
  -- every value conforms to the types string and secret.
  pub validate_variables_iff :
      (i : TemplateInstance)
      → (validate_variables unit re_match i ≡ []) ↔ All (HasConforming i) i.template.variables
  unfolding validate_variables
  validate_variables_iff i = all_lem i i.template.variables
