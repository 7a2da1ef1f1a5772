-- ===== src/Elevation/Examples.antt =====
-- Elevated commands of a few hosts; the world counts the requests made to the user.
use merlya.Common.{ℕ, suc, ◌≡◌, refl, arith, Bool, true, false, none, some, [], ◌∷◌, if◌then◌else◌}
use merlya.Common.Text.{Text, codes, text_eq, strip, lstrip}
use merlya.Common.Dict.{lookup, insert}
use merlya.Common.Match.{after_word}
use merlya.Elevation.{
  ElevationMethod, sudo_password, su, Context, prepare_host_elevation, get_credential, host_method,
  strip_elevation_prefix,
}
use merlya.Elevation.Shell.{quote, all_safe, is_safe, in_quotes, replace_quotes}
use merlya.Elevation.Credentials.{RunsAsRoot, su_elevation-RunsAsRoot}
use merlya.Common.Outcome.{returned, ◌>>=◌}
use merlya.Elevation.Prefix.{strip_prefix, after_token}
use merlya.Elevation.Manager.{
  Services, Manager, Host, change, diagnostic, build_elevated_command, prepare_command,
  get_password, request_confirmation, method_needs_password,
}
use merlya.Elevation.Consent.{
  PassesWord, build_elevated_command-PassesWord, NotReturned, prepare_command-declined,
}

-- Every host has this method; the root password of db is stored; the user answers "@typed".
abbrev hosts : ElevationMethod → Context ℕ
hosts m = record {
  get_by_name = λ h w. none;
  get_by_hostname = λ h w. some (record { elevation_method = m });
  get_secret = λ k w. if text_eq k (codes "root:db:password") then some (codes "secret") else none;
  request_credentials = λ s h w. (some (codes "@typed"), suc w);
}

abbrev tricky : Text
tricky = codes "sudo echo 'a'; id"

su_elevation-RunsAsRoot_example :
    RunsAsRoot
      (codes "echo 'a'; id")
      (prepare_host_elevation (hosts su) tricky (codes "db") none 0).0.0
unfolding strip_elevation_prefix after_word strip host_method
su_elevation-RunsAsRoot_example = su_elevation-RunsAsRoot (hosts su) tricky (codes "db") 0 refl

asked_once :
    prepare_host_elevation (hosts sudo_password) tricky (codes "web") none 0
    ≡ ((some (codes "sudo -S echo 'a'; id"), some (codes "@typed")), 1)
unfolding prepare_host_elevation host_method get_credential strip_elevation_prefix after_word strip
    text_eq
asked_once = refl

stored_for_db :
    prepare_host_elevation (hosts su) tricky (codes "db") none 0
    ≡ ((some (codes "su -c 'echo '\"'\"'a'\"'\"'; id'"), some (codes "@root:db:password")), 0)
unfolding prepare_host_elevation host_method get_credential strip_elevation_prefix after_word strip
    text_eq quote all_safe is_safe in_quotes
stored_for_db = refl

-- The options of sudo become the command that su runs.
options_become_the_command :
    prepare_host_elevation (hosts su) (codes "sudo -u postgres psql") (codes "db") none 0
    ≡ ((some (codes "su -c '-u postgres psql'"), some (codes "@root:db:password")), 0)
unfolding prepare_host_elevation host_method get_credential strip_elevation_prefix after_word strip
    text_eq quote all_safe is_safe in_quotes
options_become_the_command = refl

-- Quotes that belong to the command are taken for quotes around it.
quotes_of_the_command :
    strip_elevation_prefix (codes "'/opt/my app/run' 'a b'") ≡ codes "/opt/my app/run' 'a b"
unfolding strip_elevation_prefix after_word strip
quotes_of_the_command = refl

build_elevated_command-PassesWord_example :
    PassesWord
      (codes "su -c ")
      (codes "cat 'a b'")
      (build_elevated_command (codes "sudo -n cat 'a b'") "su" (some (codes "p"))).0
    × PassesWord
        (codes "doas sh -c ")
        (codes "cat 'a b'")
        (build_elevated_command (codes "sudo -n cat 'a b'") "doas_password" (some (codes "p"))).0
unfolding strip_prefix after_word lstrip
build_elevated_command-PassesWord_example =
    build_elevated_command-PassesWord (codes "sudo -n cat 'a b'") (some (codes "p")) refl

-- The options of sudo are skipped, and taken for the command where nothing else follows.
prefix_with_options :
    (strip_prefix (codes "sudo -u root -n ls -l") ≡ codes "ls -l")
    × (strip_prefix (codes "sudo -n") ≡ codes "-n")
    × (strip_prefix (codes "pseudo -n ls") ≡ codes "pseudo -n ls")
unfolding strip_prefix after_word lstrip after_token
prefix_with_options = (refl, refl, refl)

-- A user with these answers to every question; the world counts the prompts.
abbrev services : Bool → Services ℕ
services answer = record {
  prompt_confirm = λ q d w. (returned answer, suc w);
  prompt_secret = λ m w. (returned (codes "typed"), suc w);
  get_secret = λ k w. (none, suc w);
  set_secret = λ k p w. w;
  remove_secret = λ k w. w;
}

abbrev database : Host
database = record { name = "db"; elevation_method = "su"; elevation_user = "root" }

abbrev fresh : Manager ℕ
fresh = record { session_passwords = []; world = 0 }

prepare_command-declined_example :
    NotReturned (prepare_command (services false) database tricky change fresh).0
    × ((prepare_command (services false) database tricky change fresh).1
        ≡ record { session_passwords = []; world = 1 })
prepare_command-declined_example =
    prepare_command-declined (services false) database tricky change fresh refl (λ e. ground arith)

agreed_and_kept : prepare_command (services true) database (codes "id") diagnostic fresh ≡ (
  returned (record {
    command = codes "su -c 'id'";
    input_data = some (codes "typed\n");
    method = some "su";
    elevated = true;
  }),
  record { session_passwords = ("db", codes "typed") ∷ []; world = 4 },
)
unfolding prepare_command request_confirmation method_needs_password get_password ◌>>=◌ lookup
    build_elevated_command insert in_quotes replace_quotes strip_prefix after_word lstrip
agreed_and_kept = refl
