-- ===== src/References/Logging.antt =====
-- What the log shows of the secrets.
use merlya.Common.{
  ◌≡◌, refl, sym, ap, ◌∙◌, Bool, true, false, ◌||◌, Option, none, some, List, [], ◌∷◌,
  if◌then◌else◌, arith,
}
use merlya.Common.Text.{Text, lower, contains, one_of}
use merlya.References.{
  Match, SecretStore, replaced, replace_all, masked, or_else, first_stored, stored_value,
  find_legacy, legacy_patterns, find_secret_with_fallback, secret_of, references, resolve_secrets,
}

abbrev pub is_some : Option Text → Bool
is_some none = false
is_some (some _) = true

-- Two stores with secrets of the same names, whatever their values.
abbrev pub SameNames : SecretStore → SecretStore → Type 0
SameNames a b =
    (a.list_names ≡ b.list_names)
    × ((n : Text) → is_some (a.get_secret n) ≡ is_some (b.get_secret n))

is_some-or_else : (r q : Option Text) → is_some (or_else r q) ≡ (is_some r || is_some q)
is_some-or_else none q = refl
is_some-or_else (some v) q = refl

or_else-alike :
    (r q u v : Option Text)
    → is_some r ≡ is_some u
    → is_some q ≡ is_some v
    → is_some (or_else r q) ≡ is_some (or_else u v)
or_else-alike r q u v e f =
    is_some-or_else r q
    ∙ ap (λ x. x || is_some q) e
    ∙ ap (λ x. is_some u || x) f
    ∙ sym (is_some-or_else u v)

pub if-alike :
    (b : Bool) (r q u v : Option Text)
    → is_some r ≡ is_some u
    → is_some q ≡ is_some v
    → is_some (if b then r else q) ≡ is_some (if b then u else v)
if-alike true r q u v e f = e
if-alike false r q u v e f = f

masked-alike : (r q : Option Text) → is_some r ≡ is_some q → masked r ≡ masked q
masked-alike none none e = refl
masked-alike none (some v) e = absurd (ground arith)
masked-alike (some u) none e = absurd (ground arith)
masked-alike (some u) (some v) e = refl

module _ (a b : SecretStore) where
  stored-alike :
      (o : Option Text) → SameNames a b → is_some (stored_value a o) ≡ is_some (stored_value b o)
  stored-alike none h = refl
  stored-alike (some n) h = h.1 n

  legacy-alike :
      (ps : List (Text × Text)) (name : Text)
      → SameNames a b
      → is_some (find_legacy a ps name) ≡ is_some (find_legacy b ps name)
  unfolding find_legacy
  legacy-alike [] name h = refl
  legacy-alike ((l, service) ∷ ps) name h =
      if-alike (contains l name) _ _ _ _
        (or_else-alike (stored_value a (first_stored service a.list_names)) _
          (stored_value b (first_stored service b.list_names)) _
          (ap (λ ns. is_some (stored_value a (first_stored service ns))) h.0
            ∙ stored-alike (first_stored service b.list_names) h)
          (legacy-alike ps name h))
        (legacy-alike ps name h)

  secret_of-alike :
      (hosts : List Text) (name : Text)
      → SameNames a b
      → is_some (secret_of a hosts name) ≡ is_some (secret_of b hosts name)
  unfolding secret_of find_secret_with_fallback
  secret_of-alike hosts name h =
      if-alike (one_of name hosts || one_of (lower name) hosts) _ _ _ _ refl (
        or_else-alike (a.get_secret name) _ (b.get_secret name) _ (h.1 name)
          (legacy-alike legacy_patterns (lower name) h))

  masked_all-alike :
      (hosts : List Text) (ms : List Match) (s : Text)
      → SameNames a b
      → replace_all (λ n. masked (secret_of a hosts n)) ms s
        ≡ replace_all (λ n. masked (secret_of b hosts n)) ms s
  unfolding replace_all
  masked_all-alike hosts [] s h = refl
  masked_all-alike hosts (m ∷ ms) s h =
      ap (λ r. replaced m r (replace_all (λ n. masked (secret_of a hosts n)) ms s))
        (masked-alike _ _ (secret_of-alike hosts m.name h))
      ∙ ap (replaced m (masked (secret_of b hosts m.name))) (masked_all-alike hosts ms s h)

  -- If two stores have secrets of the same names, a command has the same text for the log with
  -- either: nothing of the value of a secret shows in it, with the legacy names too.
  pub logged_command-hides_values :
      (hosts : List Text) (command : Text)
      → SameNames a b
      → (resolve_secrets a hosts command).1 ≡ (resolve_secrets b hosts command).1
  unfolding resolve_secrets
  logged_command-hides_values hosts command h =
      masked_all-alike hosts (references command) command h
