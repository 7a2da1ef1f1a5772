-- ===== src/Elevation/Consent.antt =====
-- What the manager does when the user does not agree, and the words of the commands that it builds.
use merlya.Common.{◌≡◌, refl, ◌≢◌, Bool, true, false, str_eq, Option, some, ◌++◌, take, arith}
use merlya.Common.Text.{Text, codes}
use merlya.Common.Outcome.{Outcome, continue, returned, raised, cancelled, ◌>>=◌}
use merlya.Elevation.Shell.{in_quotes, shell_word, shell_word-in_quotes}
use merlya.Elevation.Prefix.{strip_prefix}
use merlya.Elevation.Manager.{
  CenterMode, diagnostic, change, Host, Question, read_only, mutation, Services, Manager, given,
  build_elevated_command, prepare_command, confirmed, request_confirmation,
}

-- A command that is a prefix and a text that the shell reads as one argument.
abbrev pub PassesWord : Text → Text → Text → Type 0
PassesWord prefix argument command =
    (word : Text) × (command ≡ prefix ++ word) × (shell_word word ≡ some argument)

-- With a password, the commands for `su` and for `doas` are their prefix and a text that the shell
-- reads as exactly one argument: the command without its prefix, whatever characters it has.
pub build_elevated_command-PassesWord :
    (command : Text) (password : Option Text)
    → given password ≡ true
    → PassesWord
        (codes "su -c ")
        (strip_prefix command)
        (build_elevated_command command "su" password).0
      × PassesWord
          (codes "doas sh -c ")
          (strip_prefix command)
          (build_elevated_command command "doas_password" password).0
unfolding build_elevated_command
build_elevated_command-PassesWord command password h = rw h (
  (in_quotes (strip_prefix command), refl, shell_word-in_quotes (strip_prefix command)),
  (in_quotes (strip_prefix command), refl, shell_word-in_quotes (strip_prefix command)),
)

-- The question about an elevation and its default answer.
abbrev pub question : Host → Text → CenterMode → Question
question host command diagnostic = read_only (take 50 command) host.elevation_user host.name
question host command change = mutation host.elevation_user host.name command host.elevation_method

abbrev pub default_answer : CenterMode → Bool
default_answer diagnostic = true
default_answer change = false

abbrev pub NotReturned : {A : Type 0} → Outcome A → Type 0
NotReturned {A} o = (a : A) → o ≢ returned a

module _ {W : Type 0} (io : Services W) where
  declined :
      (host : Host) (command : Text) (o : Outcome Bool) (s : Manager W)
      → o ≢ returned true
      → NotReturned (continue o (confirmed io host command) s).0
        × ((continue o (confirmed io host command) s).1 ≡ s)
  declined host command (returned true) s h = absurd (h refl)
  declined host command (returned false) s h = (λ a e. ground arith, refl)
  declined host command (raised m) s h = (λ a e. ground arith, refl)
  declined host command cancelled s h = (λ a e. ground arith, refl)

  -- On a host with an elevation method, if the user does not agree to the question about the
  -- elevation, no command is returned, and nothing is done but to ask it: no password is read from
  -- the keyring or asked for, and those of the session stay.
  pub prepare_command-declined :
      (host : Host) (command : Text) (center : CenterMode) (s : Manager W)
      → str_eq host.elevation_method "none" ≡ false
      → (io.prompt_confirm (question host command center) (default_answer center) s.world).0
        ≢ returned true
      → NotReturned (prepare_command io host command center s).0
        × ((prepare_command io host command center s).1 ≡ record s {
          world =
              (io.prompt_confirm (question host command center) (default_answer center) s.world).1;
        })
  unfolding prepare_command request_confirmation ◌>>=◌
  prepare_command-declined host command diagnostic s n h = rw n (declined host command _ _ h)
  prepare_command-declined host command change s n h = rw n (declined host command _ _ h)
