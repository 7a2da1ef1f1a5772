-- ===== src/Elevation.antt =====
-- merlya/agent/specialists/elevation.py: the elevation of a command as its host is configured, with
-- the stored or requested credential. The inventory and the secrets are read from a world `W`, on
-- which the request to the user acts. Child modules: Shell, the quoting and the words of a shell;
-- Manager, merlya/security/permissions.py.
pub mod Shell
pub mod Credentials
pub mod Prefix
pub mod Manager
pub mod Consent
mod Examples
use merlya.Common.{
  ℕ, ◌≡◌, Bool, true, false, ◌&&◌, ◌||◌, not, Option, none, some, List, [], ◌∷◌, ◌++◌, ◌==◌,
  if◌then◌else◌,
}
use merlya.Common.Text.{Text, codes, strip, text_eq}
use merlya.Common.Match.{after_word, after_spaces, then_match, first_of}
use mathlib.Core.List.{reverse}
use Shell.{quote}

-- `other` is a value that is none of the enumeration's.
pub data ElevationMethod : Type 0 where
  no_elevation : ElevationMethod
  sudo : ElevationMethod
  sudo_password : ElevationMethod
  doas : ElevationMethod
  doas_password : ElevationMethod
  su : ElevationMethod
  other : Text → ElevationMethod

-- sudo\s+(?:-[Ss]\s+)?
abbrev sudo_flag : Option Text → Option Text
sudo_flag none = none
sudo_flag (some s) = first_of (then_match (after_word (codes "-s") s) after_spaces) (some s)

abbrev sudo_prefix : Text → Option Text
sudo_prefix s = sudo_flag (then_match (after_word (codes "sudo") s) after_spaces)

-- doas\s+
abbrev doas_prefix : Text → Option Text
doas_prefix s = then_match (after_word (codes "doas") s) after_spaces

-- su\s+-c\s+
abbrev su_prefix : Text → Option Text
su_prefix s =
    then_match
      (then_match (then_match (after_word (codes "su") s) after_spaces) (after_word (codes "-c")))
      after_spaces

-- _ELEVATION_PREFIX_RE.sub("", s, count=1)
abbrev or_whole : Text → Option Text → Text
or_whole s none = s
or_whole s (some t) = t

unfoldable pub without_prefix : Text → Text
without_prefix s = or_whole s (first_of (sudo_prefix s) (first_of (doas_prefix s) (su_prefix s)))

-- s[1:-1] where s starts and ends with one and the same quote
abbrev without_last : Text → Text → Text
without_last whole [] = whole
without_last whole (c ∷ r) = reverse r

abbrev ends_with : ℕ → Text → Bool
ends_with q [] = false
ends_with q (c ∷ r) = c == q

unfoldable pub without_quotes : Text → Text
without_quotes [] = []
without_quotes (c ∷ s) =
    let last = reverse s in
    if (c == 39 || c == 34) && ends_with c last then without_last (c ∷ s) last else c ∷ s

unfoldable pub strip_elevation_prefix : Text → Text
unfolding without_prefix without_quotes
strip_elevation_prefix command = without_quotes (strip (without_prefix (strip command)))

-- The fields of a host that are read here.
pub record HostEntry : Type 0 where
  pub elevation_method : ElevationMethod

pub record Context (W : Type 0) : Type 0 where
  pub get_by_name : Text → W → Option HostEntry
  pub get_by_hostname : Text → W → Option HostEntry
  pub get_secret : Text → W → Option Text
  -- The service and the host: the reference to the password, if there was a result with data.
  pub request_credentials : Text → Text → W → Option Text × W

-- An `Option` of a text as a condition.
abbrev pub is_given : Option Text → Bool
is_given none = false
is_given (some []) = false
is_given (some (c ∷ s)) = true

abbrev pub secret_key : Text → Text → Text
secret_key service host = service ++ codes ":" ++ host ++ codes ":password"

abbrev pub reference : Text → Text → Text
reference service host = codes "@" ++ secret_key service host

abbrev pub fallback : Text → Text
fallback service =
    if text_eq service (codes "sudo") || text_eq service (codes "doas")
    then codes "root"
    else codes "sudo"

abbrev pub method_of : Option HostEntry → Option HostEntry → ElevationMethod
method_of none none = no_elevation
method_of none (some h) = h.elevation_method
method_of (some h) _ = h.elevation_method

-- The command and the reference for its standard input.
abbrev pub Prepared : Type 0
Prepared = Option Text × Option Text

-- A command that needs a password, once the credential was looked for.
abbrev pub with_password : Text → Option Text → Prepared
with_password command none = (none, none)
with_password command (some ref) = (some command, some ref)

abbrev pub if_given : Option Text → Option Text
if_given none = none
if_given (some []) = none
if_given (some (c ∷ s)) = some (c ∷ s)

module _ {W : Type 0} (ctx : Context W) where
  abbrev stored : Text → Text → W → Option Text
  stored service host w =
      if is_given (ctx.get_secret (secret_key service host) w)
      then some (reference service host)
      else none

  abbrev ask : Text → Text → W → Option Text × W
  ask service host w = let r = ctx.request_credentials service host w in (if_given r.0, r.1)

  abbrev or_ask : Text → Text → Option Text → W → Option Text × W
  or_ask service host (some ref) w = (some ref, w)
  or_ask service host none w = ask service host w

  unfoldable pub get_credential : Text → Text → W → Option Text × W
  get_credential service host w =
      or_ask service host (first_of (stored service host w) (stored (fallback service) host w)) w

  abbrev with_credential : Text → Text → Text → W → Prepared × W
  with_credential service host command w =
      let r = get_credential service host w in (with_password command r.0, r.1)

  abbrev elevate : ElevationMethod → Text → Text → W → Prepared × W
  elevate no_elevation command host w = ((some command, none), w)
  elevate sudo command host w = ((some (codes "sudo " ++ strip_elevation_prefix command), none), w)
  elevate sudo_password command host w =
      with_credential (codes "sudo") host (codes "sudo -S " ++ strip_elevation_prefix command) w
  elevate doas command host w = ((some (codes "doas " ++ strip_elevation_prefix command), none), w)
  elevate doas_password command host w =
      with_credential (codes "doas") host (codes "doas " ++ strip_elevation_prefix command) w
  elevate su command host w =
      with_credential (codes "root") host (codes "su -c " ++ quote (strip_elevation_prefix command))
        w
  elevate (other m) command host w = ((some command, none), w)

  unfoldable pub host_method : Text → W → ElevationMethod
  host_method host w = method_of (ctx.get_by_name host w) (ctx.get_by_hostname host w)

  unfoldable pub prepare_host_elevation : Text → Text → Option Text → W → Prepared × W
  prepare_host_elevation command host stdin w =
      if is_given stdin
      then ((some command, stdin), w)
      else elevate (host_method host w) command host w
