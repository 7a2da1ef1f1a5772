-- ===== src/Validation/Names.antt =====
-- The names that are accepted, as the shell reads them.
use merlya.Common.{
  ℕ, ◌≤◌, ◌≡◌, ◌⊎◌, inl, inr, refl, ap, Bool, true, Bool-cases, none, some, [], ◌∷◌, ◌++◌, length,
  arith,
}
use merlya.Common.Text.{Text}
use merlya.Elevation.Shell.{is_safe, all_safe}
use merlya.Validation.{
  is_service_char, is_user_char, rest_matches, whole_matches, validate_service_name,
  validate_username,
}

-- Characters that need no quotes, and perhaps a newline after them.
abbrev pub IsSafeLine : Text → Type 0
IsSafeLine s = (name : Text) × (all_safe name ≡ true) × ((s ≡ name) ⊎ (s ≡ name ++ (10 ∷ [])))

rest-IsSafeLine :
    (p : ℕ → Bool) (s : Text)
    → ((c : ℕ) → p c ≡ true → is_safe c ≡ true)
    → rest_matches p s ≡ true
    → IsSafeLine s
unfolding rest_matches all_safe
rest-IsSafeLine p [] f h = ([], refl, inl refl)
rest-IsSafeLine p (c ∷ []) f h = elim (Bool-cases (p c)) [
  | inl t ↦ (c ∷ [], ground (arith, f c t), inl refl)
  | inr t ↦ let e : c ≡ 10 = ground (arith, h, t) in ([], refl, inr (ap (λ x. x ∷ []) e))
]
rest-IsSafeLine p (c ∷ d ∷ s) f h =
    let t : p c ≡ true = ground (arith, h) in
    let r = rest-IsSafeLine p (d ∷ s) f (ground (arith, h)) in
    (c ∷ r.0, ground (arith, f c t, r.1), longer r.2)
  where
    longer :
        {x : Text}
        → ((d ∷ s ≡ x) ⊎ (d ∷ s ≡ x ++ (10 ∷ [])))
        → ((c ∷ d ∷ s ≡ c ∷ x) ⊎ (c ∷ d ∷ s ≡ (c ∷ x) ++ (10 ∷ [])))
    longer (inl e) = inl (ap (λ y. c ∷ y) e)
    longer (inr e) = inr (ap (λ y. c ∷ y) e)

service_char-safe : (c : ℕ) → is_service_char c ≡ true → is_safe c ≡ true
unfolding is_service_char is_safe
service_char-safe c h = ground (arith, h)

user_char-safe : (c : ℕ) → is_user_char c ≡ true → is_safe c ≡ true
unfolding is_user_char is_safe
user_char-safe c h = ground (arith, h)

whole-rest :
    (p : ℕ → Bool) (c : ℕ) (s : Text)
    → whole_matches p (c ∷ s) ≡ true
    → (p c ≡ true) × (rest_matches p s ≡ true)
unfolding whole_matches
whole-rest p c s h = (ground (arith, h), ground (arith, h))

whole-IsSafeLine :
    (p : ℕ → Bool) (c : ℕ) (s : Text)
    → ((k : ℕ) → p k ≡ true → is_safe k ≡ true)
    → whole_matches p (c ∷ s) ≡ true
    → (name : Text) × (all_safe (c ∷ name) ≡ true) × ((s ≡ name) ⊎ (s ≡ name ++ (10 ∷ [])))
unfolding all_safe
whole-IsSafeLine p c s f h =
    let w = whole-rest p c s h in
    let r = rest-IsSafeLine p s f w.1 in (r.0, ground (arith, f c w.0, r.1), r.2)

-- An accepted service name has at most 128 characters, and it is a name of one character at least
-- that the shell needs no quotes for, or such a name and a newline.
pub validate_service_name-IsSafe :
    (c : ℕ) (s : Text)
    → validate_service_name (c ∷ s) ≡ none
    → (length (c ∷ s) ≤ 128)
      × ((name : Text) × (all_safe (c ∷ name) ≡ true) × ((s ≡ name) ⊎ (s ≡ name ++ (10 ∷ []))))
unfolding validate_service_name
validate_service_name-IsSafe c s h =
    (ground (arith, h), whole-IsSafeLine is_service_char c s service_char-safe (ground (arith, h)))

-- An accepted user name, if it is given, has at most 32 characters, and it is a name of one
-- character at least that the shell needs no quotes for, or such a name and a newline.
pub validate_username-IsSafe :
    (c : ℕ) (s : Text)
    → validate_username (some (c ∷ s)) ≡ none
    → (length (c ∷ s) ≤ 32)
      × ((name : Text) × (all_safe (c ∷ name) ≡ true) × ((s ≡ name) ⊎ (s ≡ name ++ (10 ∷ []))))
unfolding validate_username
validate_username-IsSafe c s h =
    (ground (arith, h), whole-IsSafeLine is_user_char c s user_char-safe (ground (arith, h)))
