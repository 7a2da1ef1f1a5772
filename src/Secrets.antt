-- ===== src/Secrets.antt =====
-- merlya/secrets/session.py, `SessionPasswordStore`: the passwords of a session and the prompts that
-- fill it. The terminal's getpass and the user interface's prompt act on a world `W`; an interrupted
-- getpass returns nothing. The store is one for the process, so its accessors are left out.
pub mod Session
mod Examples
use merlya.Common.{
  ◌≡◌, String, ◌<>◌, Bool, true, false, ◌&&◌, not, Option, none, some, List, [], ◌∷◌, str_eq,
  if◌then◌else◌,
}
use merlya.Common.Outcome.{Outcome, returned, raised, cancelled, Exec}
use merlya.Common.Dict.{Dict, lookup, has, insert, delete}

abbrev pub Passwords : Type 0
Passwords = Dict String

-- get, set, has, delete and clear, each under the lock.
unfoldable pub get : String → Passwords → Option String
get k d = lookup k d

unfoldable pub set : String → String → Passwords → Passwords
set k v d = insert k v d

unfoldable pub remove : String → Passwords → Passwords
remove k d = if has k d then delete k d else d

unfoldable pub clear : Passwords → Passwords
clear d = []

pub record Prompts (W : Type 0) : Type 0 where
  pub getpass : String → W → Option String × W
  pub prompt_secret : Option (String → Exec W String)

abbrev pub truthy : String → Bool
truthy s = not (str_eq s "")

abbrev host_part : Option String → String
host_part none = ""
host_part (some h) = if str_eq h "" then "" else "[" <> h <> "] "

unfoldable pub display_prompt : String → Option String → String
display_prompt prompt host = "🔐 " <> host_part host <> prompt

abbrev or_empty : Option String → String
or_empty none = ""
or_empty (some p) = p

module _ {W : Type 0} (io : Prompts W) where
  unfoldable pub prompt_password_sync : String → Option String → W → String × W
  prompt_password_sync prompt host w =
      let r = io.getpass (display_prompt prompt host <> ": ") w in (or_empty r.0, r.1)

  abbrev pub or_getpass : String → Option String → Outcome String → Exec W String
  or_getpass prompt host (returned p) w = (returned p, w)
  or_getpass prompt host (raised e) w =
      let r = prompt_password_sync prompt host w in (returned r.0, r.1)
  or_getpass prompt host cancelled w = (cancelled, w)

  abbrev ask_ui : String → Option String → Option (String → Exec W String) → Exec W String
  ask_ui prompt host none w = or_getpass prompt host (raised "") w
  ask_ui prompt host (some ui) w =
      let r = ui (display_prompt prompt host) w in or_getpass prompt host r.0 r.1

  unfoldable pub prompt_password_async : String → Option String → Exec W String
  prompt_password_async prompt host = ask_ui prompt host io.prompt_secret

  -- A new password is kept if that is asked for and it is not empty.
  abbrev pub keep : Bool → String → String → Passwords → Passwords
  keep store key password d = if store && truthy password then set key password d else d

  abbrev pub entered :
      Bool → String → Outcome String × W → Passwords → Outcome String × W × Passwords
  entered store key (returned p, w) d = (returned p, w, keep store key p d)
  entered store key (raised e, w) d = (raised e, w, d)
  entered store key (cancelled, w) d = (cancelled, w, d)

  abbrev pub cached_or :
      Option String
      → (Outcome String × W × Passwords)
      → W
      → Passwords
      → Outcome String × W × Passwords
  cached_or none r w d = r
  cached_or (some p) r w d = if truthy p then (returned p, w, d) else r

  unfoldable pub get_or_prompt_sync :
      String → String → Option String → Bool → W → Passwords → Outcome String × W × Passwords
  get_or_prompt_sync key prompt host store w d =
      let r = prompt_password_sync prompt host w in
      cached_or (get key d) (entered store key (returned r.0, r.1) d) w d

  unfoldable pub get_or_prompt_async :
      String → String → Option String → Bool → W → Passwords → Outcome String × W × Passwords
  get_or_prompt_async key prompt host store w d =
      cached_or (get key d) (entered store key (prompt_password_async prompt host w) d) w d
