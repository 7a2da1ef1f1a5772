-- ===== src/Elevation/Credentials.antt =====
-- What an elevated command comes with: its credential, and its base command as one word.
use merlya.Common.{
  ◌≡◌, refl, ap, ◌∙◌, ◌⊎◌, inl, inr, true, ◌||◌, Option, none, some, [], ◌∷◌, ◌++◌, arith,
  Bool-cases,
}
use merlya.Common.Text.{Text, codes}
use merlya.Common.Match.{first_of}
use merlya.Elevation.{
  ElevationMethod, no_elevation, sudo, sudo_password, doas, doas_password, su, other, Context,
  Prepared, is_given, if_given, secret_key, reference, fallback, with_password, or_ask, elevate,
  get_credential, host_method, prepare_host_elevation, strip_elevation_prefix, stored,
}
use merlya.Elevation.Shell.{quote, shell_word, shell_word-quote}

-- The service whose password a method needs.
abbrev pub service_of : ElevationMethod → Option Text
service_of no_elevation = none
service_of sudo = none
service_of sudo_password = some (codes "sudo")
service_of doas = none
service_of doas_password = some (codes "doas")
service_of su = some (codes "root")
service_of (other m) = none

-- Either nothing at all, or a command with a credential.
abbrev pub IsComplete : Prepared → Type 0
IsComplete p =
    (p ≡ (none, none))
    ⊎ ((command : Text) × ((ref : Text) × (p ≡ (some command, some ref))
          × (is_given (some ref) ≡ true)))

-- A command whose argument to `su -c` the shell reads as this text.
abbrev pub RunsAsRoot : Text → Option Text → Type 0
RunsAsRoot base none = Unit
RunsAsRoot base (some command) =
    (word : Text) × (command ≡ codes "su -c " ++ word) × (shell_word word ≡ some base)

abbrev IsGiven : Option Text → Type 0
IsGiven r = (r ≡ none) ⊎ ((ref : Text) × (r ≡ some ref) × (is_given (some ref) ≡ true))

if_given-IsGiven : (r : Option Text) → IsGiven (if_given r)
if_given-IsGiven none = inl refl
if_given-IsGiven (some []) = inl refl
if_given-IsGiven (some (c ∷ s)) = inr (c ∷ s, refl, refl)

with_password-IsComplete :
    (command : Text) (r : Option Text) → IsGiven r → IsComplete (with_password command r)
with_password-IsComplete command none h = inl refl
with_password-IsComplete command (some ref) (inl e) = absurd (ground arith)
with_password-IsComplete command (some ref) (inr (s, e, g)) =
    inr (command, (ref, refl, ap is_given e ∙ g))

with_password-RunsAsRoot :
    (base : Text) (r : Option Text)
    → RunsAsRoot base (with_password (codes "su -c " ++ quote base) r).0
with_password-RunsAsRoot base none = tt
with_password-RunsAsRoot base (some ref) = (quote base, refl, shell_word-quote base)

module _ {W : Type 0} (ctx : Context W) where
  or_ask-IsGiven :
      (service host : Text) (r : Option Text) (w : W)
      → IsGiven r
      → IsGiven (or_ask ctx service host r w).0
  or_ask-IsGiven service host none w h = if_given-IsGiven (ctx.request_credentials service host w).0
  or_ask-IsGiven service host (some ref) w h = h

  stored-IsGiven : (service host : Text) (w : W) → IsGiven (stored ctx service host w)
  stored-IsGiven service host w =
      elim (Bool-cases (is_given (ctx.get_secret (secret_key service host) w))) [
        | inl t ↦ rw t (inr (reference service host, refl, refl))
        | inr t ↦ rw t (inl refl)
      ]

  first_of-IsGiven : (r q : Option Text) → IsGiven r → IsGiven q → IsGiven (first_of r q)
  first_of-IsGiven none q h g = g
  first_of-IsGiven (some ref) q h g = h

  get_credential-IsGiven :
      (service host : Text) (w : W) → IsGiven (get_credential ctx service host w).0
  unfolding get_credential
  get_credential-IsGiven service host w = or_ask-IsGiven service host _ w (
      first_of-IsGiven _ _ (stored-IsGiven service host w)
        (stored-IsGiven (fallback service) host w))

  elevate-IsComplete :
      (m : ElevationMethod) (command host service : Text) (w : W)
      → service_of m ≡ some service
      → IsComplete (elevate ctx m command host w).0
  elevate-IsComplete no_elevation command host service w h = absurd (ground arith)
  elevate-IsComplete sudo command host service w h = absurd (ground arith)
  elevate-IsComplete sudo_password command host service w h =
      with_password-IsComplete _ _ (get_credential-IsGiven (codes "sudo") host w)
  elevate-IsComplete doas command host service w h = absurd (ground arith)
  elevate-IsComplete doas_password command host service w h =
      with_password-IsComplete _ _ (get_credential-IsGiven (codes "doas") host w)
  elevate-IsComplete su command host service w h =
      with_password-IsComplete _ _ (get_credential-IsGiven (codes "root") host w)
  elevate-IsComplete (other m) command host service w h = absurd (ground arith)

  -- On a host whose method needs a password, a command without an input of its own comes back
  -- either with a credential that is not empty, or not at all and without any.
  pub prepare_host_elevation-IsComplete :
      (command host service : Text) (w : W)
      → service_of (host_method ctx host w) ≡ some service
      → IsComplete (prepare_host_elevation ctx command host none w).0
  unfolding prepare_host_elevation
  prepare_host_elevation-IsComplete command host service w h =
      elevate-IsComplete (host_method ctx host w) command host service w h

  -- On a host with `su`, a command without an input of its own comes back, if at all, as `su -c`
  -- and a text that the shell reads as exactly one argument: the command as it is once a prefix of
  -- elevation and the quotes around it are stripped, whatever characters it has.
  pub su_elevation-RunsAsRoot :
      (command host : Text) (w : W)
      → host_method ctx host w ≡ su
      → RunsAsRoot
          (strip_elevation_prefix command)
          (prepare_host_elevation ctx command host none w).0.0
  unfolding prepare_host_elevation
  su_elevation-RunsAsRoot command host w h = rw h (
      with_password-RunsAsRoot (strip_elevation_prefix command)
        (get_credential ctx (codes "root") host w).0)

  -- If the password of a service or of its fallback is stored, the credential is one of the two
  -- references and the user is not asked.
  pub stored_credential-not_asked :
      (service host : Text) (w : W)
      → (is_given (ctx.get_secret (secret_key service host) w)
          || is_given (ctx.get_secret (secret_key (fallback service) host) w))
        ≡ true
      → (get_credential ctx service host w ≡ (some (reference service host), w))
        ⊎ (get_credential ctx service host w ≡ (some (reference (fallback service) host), w))
  unfolding get_credential
  stored_credential-not_asked service host w h =
      elim (Bool-cases (is_given (ctx.get_secret (secret_key service host) w))) [
        | inl t ↦ rw t (inl refl)
        | inr t ↦
            let u : is_given (ctx.get_secret (secret_key (fallback service) host) w) ≡ true =
              ground (arith, h, t) in
            rw (t, u) (inr refl)
      ]
