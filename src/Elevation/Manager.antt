-- ===== src/Elevation/Manager.antt =====
-- merlya/security/permissions.py, `ElevationManager`: the confirmation, the password and the command
-- of an elevation. The prompts of the user interface may raise; they and the keyring, reads of it too,
-- act on a world `W`. Methods are texts here, as the code compares them.
use merlya.Common.{
  Bool, true, false, ◌||◌, String, ◌<>◌, str_eq, Option, none, some, [], ◌∷◌, ◌++◌, take,
  if◌then◌else◌,
}
use merlya.Common.Text.{Text, codes}
use merlya.Common.Dict.{Dict, lookup, insert, delete}
use merlya.Common.Outcome.{returned, raised, Exec, ◌>>=◌, ◌>>◌, pure, modify, zoom}
use merlya.Elevation.Shell.{in_quotes}
use merlya.Elevation.Prefix.{strip_prefix}

pub data CenterMode : Type 0 where
  diagnostic : CenterMode
  change : CenterMode

pub record ElevationResult : Type 0 where
  pub command : Text
  pub input_data : Option Text
  pub method : Option String
  pub elevated : Bool

pub record Host : Type 0 where
  pub name : String
  pub elevation_method : String
  pub elevation_user : String

unfoldable pub password_key : String → String → String
password_key host_name method =
    if str_eq method "su"
    then "elevation:" <> host_name <> ":root:password"
    else "elevation:" <> host_name <> ":password"

unfoldable pub method_needs_password : String → Bool
method_needs_password method =
    str_eq method "sudo_password" || str_eq method "doas_password" || str_eq method "su"

-- What a yes or no is asked about.
pub data Question : Type 0 where
  read_only : Text → String → String → Question
  mutation : String → String → Text → String → Question
  keep_for_session : Question

pub record Services (W : Type 0) : Type 0 where
  -- The question and the default answer.
  pub prompt_confirm : Question → Bool → Exec W Bool
  pub prompt_secret : String → Exec W Text
  pub get_secret : String → W → Option Text × W
  pub set_secret : String → Text → W → W
  pub remove_secret : String → W → W

pub record Manager (W : Type 0) : Type 0 where
  pub session_passwords : Dict Text
  pub world : W

-- The truth of a password.
abbrev pub given : Option Text → Bool
given none = false
given (some []) = false
given (some (c ∷ s)) = true

abbrev line : Option Text → Option Text
line none = none
line (some p) = some (p ++ codes "\n")

abbrev input_of : Option Text → Option Text
input_of p = if given p then line p else none

abbrev build : Text → String → Option Text → Text × Option Text
build command method password =
    if str_eq method "sudo"
    then (codes "sudo -n " ++ command, none)
    else if str_eq method "sudo_password"
    then (if given password
        then (codes "sudo -S -p '' " ++ command, line password)
        else (codes "sudo -n " ++ command, none))
    else if str_eq method "doas"
    then (codes "doas " ++ command, none)
    else if str_eq method "doas_password"
    then (if given password
        then (codes "doas sh -c " ++ in_quotes command, line password)
        else (codes "doas " ++ command, none))
    else if str_eq method "su"
    then (codes "su -c " ++ in_quotes command, input_of password)
    else (command, none)

unfoldable pub build_elevated_command : Text → String → Option Text → Text × Option Text
build_elevated_command command method password = build (strip_prefix command) method password

module _ {W : Type 0} (io : Services W) where
  abbrev pub on_world : {A : Type 0} → Exec W A → Exec (Manager W) A
  on_world m = zoom (λ s. s.world) (λ w s. record s { world = w }) m

  unfoldable pub request_confirmation : Host → Text → CenterMode → Exec (Manager W) Bool
  request_confirmation host command diagnostic =
      on_world (io.prompt_confirm (read_only (take 50 command) host.elevation_user host.name) true)
  request_confirmation host command change = on_world (
      io.prompt_confirm (mutation host.elevation_user host.name command host.elevation_method)
        false)

  abbrev keep : String → Text → Bool → Exec (Manager W) (Option Text)
  keep name password agreed =
      modify (λ s.
        if agreed
        then record s { session_passwords = insert name password s.session_passwords }
        else s)
      >> pure (some password)

  abbrev pub prompted : String → Text → Exec (Manager W) (Option Text)
  prompted name [] = pure none
  prompted name (c ∷ p) = on_world (io.prompt_confirm keep_for_session false) >>= keep name (c ∷ p)

  abbrev pub or_prompt : Host → String → Option Text → Exec (Manager W) (Option Text)
  or_prompt host method stored =
      if given stored
      then pure stored
      else (on_world
            (io.prompt_secret ("Mot de passe pour " <> method <> " sur " <> host.name <> ":"))
          >>= prompted host.name)

  abbrev pub or_keyring : Host → String → Option Text → Exec (Manager W) (Option Text)
  or_keyring host method (some p) s = (returned (some p), s)
  or_keyring host method none s =
      let r = io.get_secret (password_key host.name method) s.world in
      or_prompt host method r.0 (record s { world = r.1 })

  unfoldable pub get_password : Host → String → Exec (Manager W) (Option Text)
  get_password host method s = or_keyring host method (lookup host.name s.session_passwords) s

  abbrev pub elevated_result : Text → String → Option Text → ElevationResult
  elevated_result command method password = record {
    command = (build_elevated_command command method password).0;
    input_data = (build_elevated_command command method password).1;
    method = some method;
    elevated = true;
  }

  abbrev pub confirmed : Host → Text → Bool → Exec (Manager W) ElevationResult
  confirmed host command agreed =
      if agreed
      then ((if method_needs_password host.elevation_method
            then get_password host host.elevation_method
            else pure none)
          >>= λ password. pure (elevated_result command host.elevation_method password))
      else λ s. (raised ("Elevation declined for " <> host.name), s)

  unfoldable pub prepare_command : Host → Text → CenterMode → Exec (Manager W) ElevationResult
  prepare_command host command center =
      if str_eq host.elevation_method "none"
      then pure (record { command = command; input_data = none; method = none; elevated = false })
      else (request_confirmation host command center >>= confirmed host command)

  unfoldable pub store_password : String → Text → String → Manager W → String × Manager W
  store_password host_name password method s = (
    "@" <> password_key host_name method,
    record s { world = io.set_secret (password_key host_name method) password s.world },
  )

  unfoldable pub clear_session_cache : Option String → Manager W → Manager W
  clear_session_cache none s = record s { session_passwords = [] }
  clear_session_cache (some name) s = record s {
    session_passwords = if str_eq name "" then [] else delete name s.session_passwords;
  }

  unfoldable pub clear_keyring : String → Manager W → Manager W
  clear_keyring host_name s = record s {
    world = io.remove_secret (password_key host_name "su") (
        io.remove_secret (password_key host_name "doas_password")
          (io.remove_secret (password_key host_name "sudo_password") s.world));
  }
