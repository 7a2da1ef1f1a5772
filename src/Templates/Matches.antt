-- ===== src/Templates/Matches.antt =====
-- merlya/templates/models.py: the texts that a variable's pattern admits.
use mathlib.Core.Path.{subst}
use mathlib.Core.Option.{some-injective}
use merlya.Common.{
  sym, ◌≢◌, ◌∙◌, eq_iff, ℕ, ◌≡◌, refl, ◌↔◌, String, Bool, true, Option, none, some, [], arith,
}
use merlya.Common.Value.{Value, none_value, bool, number, string, list, dict}
use merlya.Templates.Validation.{match_problem, regex_text, match_text}

module _ (re_match : String → String → Option Bool) where
  -- A text, where there is a pattern that is not empty, has a match of it.
  abbrev pub IsMatch : Option String → Value → Type 0
  IsMatch o x = (p s : String) → o ≡ some p → p ≢ "" → x ≡ string s → re_match p s ≡ some true

module _ (unit : ℕ) (re_match : String → String → Option Bool) where
  text_lem :
      (p s name : String)
      → (match_text unit re_match (regex_text (some p) (string s)) name ≡ [])
        ↔ (p ≢ "" → re_match p s ≡ some true)
  unfolding match_text match_problem regex_text
  text_lem p s name = ground (arith, eq_iff p "")

  no_text :
      (x : Value) (o : Option String) (name : String)
      → ((s : String) → x ≢ string s)
      → (match_text unit re_match (regex_text o x) name ≡ []) ↔ IsMatch re_match o x
  unfolding match_text regex_text
  no_text none_value o name n = (λ _ p s e q h. absurd (n s h), λ _. ground arith)
  no_text (bool _) o name n = (λ _ p s e q h. absurd (n s h), λ _. ground arith)
  no_text (number _) o name n = (λ _ p s e q h. absurd (n s h), λ _. ground arith)
  no_text (list _) o name n = (λ _ p s e q h. absurd (n s h), λ _. ground arith)
  no_text (dict _) o name n = (λ _ p s e q h. absurd (n s h), λ _. ground arith)
  no_text (string t) o name n = absurd (n t refl)

  pub match_lem :
      (o : Option String) (x : Value) (name : String)
      → (match_text unit re_match (regex_text o x) name ≡ []) ↔ IsMatch re_match o x
  unfolding match_text regex_text
  match_lem none (string s) name = (λ _ p t e. absurd (ground (arith, e)), λ _. refl)
  match_lem (some p) (string s) name = (
    λ h q t e n z.
        subst (λ y. re_match y t ≡ some true) (some-injective _ _ e)
          (subst (λ y. re_match p y ≡ some true) (ground (arith, z))
            ((text_lem p s name).0 h (λ u. n (sym (some-injective _ _ e) ∙ u)))),
    λ h. (text_lem p s name).1 (λ n. h p s refl n refl),
  )
  match_lem o none_value name = no_text none_value o name (λ s h. absurd (ground (arith, h)))
  match_lem o (bool b) name = no_text (bool b) o name (λ s h. absurd (ground (arith, h)))
  match_lem o (number n) name = no_text (number n) o name (λ s h. absurd (ground (arith, h)))
  match_lem o (list l) name = no_text (list l) o name (λ s h. absurd (ground (arith, h)))
  match_lem o (dict d) name = no_text (dict d) o name (λ s h. absurd (ground (arith, h)))
