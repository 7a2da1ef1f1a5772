-- ===== src/Provisioners/State/Drift.antt =====
-- What a drift check reports.
use merlya.Common.{
  ◌≡◌, ◌↔◌, ◌⊎◌, refl, String, true, false, ◌||◌, Option, none, some, [], ◌∷◌, ◌++◌, eq_iff,
  eq_refl, if◌then◌else◌, arith, inl, inr, Bool-cases,
}
use merlya.Common.Dict.{Dict, lookup, has, lookup-insert, has-lookup}
use merlya.Provisioners.State.{
  Config, Value, value, value_eq, differences_at, compare_configs, judge, no_drift, drifted,
  drift_result, is_empty,
}

value_eq_sound : (a b : Value) → value_eq a b ≡ true → a ≡ b
value_eq_sound none none h = refl
value_eq_sound none (some b) h = absurd (ground (arith, h))
value_eq_sound (some a) none h = absurd (ground (arith, h))
value_eq_sound (some a) (some b) h = ground (arith, h, eq_iff a b)

value_eq_refl : (a : Value) → value_eq a a ≡ true
value_eq_refl none = refl
value_eq_refl (some a) = eq_refl a

abbrev pub difference : Value → Value → Option (Value × Value)
difference v w = if value_eq v w then none else some (v, w)

lookup-differences_at :
    (e a keys : Config) (k : String)
    → lookup k (differences_at e a keys)
      ≡ (if has k keys then difference (value k e) (value k a) else none)
unfolding differences_at has lookup
lookup-differences_at e a [] k = refl
lookup-differences_at e a ((j, v) ∷ keys) k = ground (
  arith,
  lookup-differences_at e a keys k,
  eq_iff j k,
  lookup-insert j k (value j e, value j a) (differences_at e a keys),
)

has-append : (e a : Config) (k : String) → has k (e ++ a) ≡ (has k e || has k a)
unfolding has
has-append [] a k = refl
has-append ((j, v) ∷ e) a k = ground (arith, has-append e a k)

value-missing : (d : Config) (k : String) → has k d ≡ false → value k d ≡ none
unfolding value
value-missing d k h = ground (arith, h, has-lookup k d)

-- The comparison reports for each field, in either configuration or in none, the two values where
-- they differ and nothing where they agree; a missing field counts as null.
pub lookup-compare_configs :
    (e a : Config) (k : String)
    → lookup k (compare_configs e a) ≡ difference (value k e) (value k a)
unfolding compare_configs
lookup-compare_configs e a k = ground (
  arith,
  lookup-differences_at e a (e ++ a) k,
  has-append e a k,
  value-missing e k,
  value-missing a k,
)

lookup-none-empty : {V : Type 0} (d : Dict V) → ((k : String) → lookup k d ≡ none) → d ≡ []
unfolding lookup
lookup-none-empty [] h = refl
lookup-none-empty ((k, v) ∷ d) h = absurd (ground (arith, h k, eq_refl k))

abbrev Agree : Config → Config → Type 0
Agree e a = (k : String) → value k e ≡ value k a

difference-none : (v w : Value) → difference v w ≡ none → v ≡ w
difference-none v w h = ground (arith, h, value_eq_sound v w)

Agree-compare : (e a : Config) → Agree e a → compare_configs e a ≡ []
Agree-compare e a h =
    lookup-none-empty (compare_configs e a)
      (λ k. ground (arith, h k, lookup-compare_configs e a k, value_eq_refl (value k a)))

compare-Agree : (e a : Config) → compare_configs e a ≡ [] → Agree e a
unfolding lookup
compare-Agree e a h k =
    difference-none (value k e) (value k a) (ground (arith, h, lookup-compare_configs e a k))

drift_result-status :
    (k : String) (d : Dict (Value × Value))
    → (((drift_result k d).status ≡ no_drift) → d ≡ [])
      × (((drift_result k d).status ≡ no_drift) ⊎ ((drift_result k d).status ≡ drifted))
drift_result-status k [] = (λ h. refl, inl refl)
drift_result-status k (d ∷ ds) = (λ h. absurd (ground (arith, h)), inr refl)

-- A drift check of a tracked resource reports no drift exactly if nothing is expected of the
-- resource or every field has its expected value, and drift otherwise.
pub judge_iff :
    (k : String) (e a : Config)
    → (((judge k e a).status ≡ no_drift) ↔ ((is_empty e ≡ true) ⊎ Agree e a))
      × (((judge k e a).status ≡ no_drift) ⊎ ((judge k e a).status ≡ drifted))
unfolding judge
judge_iff k e a = elim (Bool-cases (is_empty e)) [
  | inl h ↦ rw h ((λ _. inl refl, λ _. refl), inl refl)
  | inr h ↦
      let (f, g) = drift_result-status k (compare_configs e a) in
      rw h (
        (
          λ n. inr (compare-Agree e a (f n)),
          λ o. elim o [
            | inl t ↦ absurd (ground (arith, t))
            | inr t ↦ rw (Agree-compare e a t) refl
          ],
        ),
        g,
      )
]
