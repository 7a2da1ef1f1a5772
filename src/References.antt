-- ===== src/References.antt =====
-- merlya/tools/core/resolve.py: the references @name to secrets in a command, and how a command is
-- resolved and made safe for the log. The store of secrets is a record of its two look-ups. The
-- resolution of references to hosts is not modelled.
pub mod Substitution
pub mod Logging
mod Examples
use merlya.Common.{
  ℕ, zero, suc, ◌+◌, ◌≡◌, Bool, true, false, not, ◌&&◌, ◌||◌, Option, none, some, List, [], ◌∷◌,
  ◌++◌, take, drop, length, leb, ◌==◌, if◌then◌else◌,
}
use mathlib.Core.List.{reverse}
use merlya.Common.Text.{Text, codes, lower, is_space, starts_with, contains, one_of}

pub record Match : Type 0 where
  pub name : Text
  pub start : ℕ
  pub end : ℕ

-- [\s;|&='"], which may stand before a reference
unfoldable pub is_boundary : ℕ → Bool
is_boundary c = is_space c || c == b';' || c == b'|' || c == b'&' || c == b'=' || c == 39 || c == 34

abbrev is_letter : ℕ → Bool
is_letter c = leb b'a' c && leb c b'z' || leb b'A' c && leb c b'Z'

-- [a-zA-Z0-9_:.-]
unfoldable pub is_name_char : ℕ → Bool
is_name_char c =
    is_letter c || leb b'0' c && leb c b'9' || c == b'_' || c == b':' || c == b'.' || c == b'-'

unfoldable pub starts_with_letter : Text → Bool
starts_with_letter [] = false
starts_with_letter (c ∷ s) = is_letter c

-- Where the search of the pattern is: outside a reference, where one may start or not, or in one,
-- with the characters of its name from the last one back.
pub data Place : Type 0 where
  outside : Bool → Place
  inside : ℕ → Text → Place

-- An @ at a place where a reference starts.
unfoldable pub opens : Bool → ℕ → Text → Bool
opens ok c s = c == 64 && ok && starts_with_letter s

abbrev pub next : ℕ → Place → ℕ → Text → Place
next at (outside ok) c s = if opens ok c s then inside at [] else outside (is_boundary c)
next at (inside start acc) c s =
    if is_name_char c then inside start (c ∷ acc) else outside (is_boundary c)

-- The reference that ends before this character.
abbrev pub closed : ℕ → Place → ℕ → List Match → List Match
closed at (outside ok) c ms = ms
closed at (inside start acc) c ms =
    if is_name_char c then ms else (record { name = reverse acc; start = start; end = at }) ∷ ms

-- REFERENCE_PATTERN.finditer, in the order of the matches
unfoldable pub find_from : ℕ → Place → Text → List Match
find_from at (outside ok) [] = []
find_from at (inside start acc) [] = (record { name = reverse acc; start = start; end = at }) ∷ []
find_from at (outside ok) (c ∷ s) =
    closed at (outside ok) c (find_from (at + 1) (next at (outside ok) c s) s)
find_from at (inside start acc) (c ∷ s) =
    closed at (inside start acc) c (find_from (at + 1) (next at (inside start acc) c s) s)

unfoldable pub references : Text → List Match
references command = find_from 0 (outside true) command

-- s[:start] + value + s[end:]
unfoldable pub splice : Match → Text → Text → Text
splice m value s = take m.start s ++ value ++ drop m.end s

abbrev pub replaced : Match → Option Text → Text → Text
replaced m none s = s
replaced m (some v) s = splice m v s

-- The loop over the matches from the last one to the first.
unfoldable pub replace_all : (Text → Option Text) → List Match → Text → Text
replace_all f [] s = s
replace_all f (m ∷ ms) s = replaced m (f m.name) (replace_all f ms s)

pub record SecretStore : Type 0 where
  pub get_secret : Text → Option Text
  pub list_names : List Text

abbrev ends_with : Text → Text → Bool
ends_with suffix s = starts_with (reverse suffix) (reverse s)

abbrev pub legacy_patterns : List (Text × Text)
legacy_patterns =
    (codes "secret-sudo", codes "sudo")
    ∷ (codes "secret-root", codes "root")
    ∷ (codes "sudo-password", codes "sudo")
    ∷ (codes "root-password", codes "root")
    ∷ (codes "secret-password", codes "sudo")
    ∷ []

-- The first of the names with the form service:...:password
unfoldable pub first_stored : Text → List Text → Option Text
first_stored service [] = none
first_stored service (n ∷ ns) =
    if starts_with (service ++ codes ":") n && ends_with (codes ":password") n
    then some n
    else first_stored service ns

abbrev pub or_else : Option Text → Option Text → Option Text
or_else none r = r
or_else (some v) r = some v

abbrev pub masked : Option Text → Option Text
masked none = none
masked (some v) = some (codes "***")

module _ (store : SecretStore) where
  abbrev pub stored_value : Option Text → Option Text
  stored_value none = none
  stored_value (some n) = store.get_secret n

  unfoldable pub find_legacy : List (Text × Text) → Text → Option Text
  find_legacy [] name = none
  find_legacy ((legacy, service) ∷ ps) name =
      let rest = find_legacy ps name in
      if contains legacy name
      then or_else (stored_value (first_stored service store.list_names)) rest
      else rest

  unfoldable pub find_secret_with_fallback : Text → Option Text
  find_secret_with_fallback name =
      or_else (store.get_secret name) (find_legacy legacy_patterns (lower name))

  -- The value for a reference that is not a host's.
  unfoldable pub secret_of : List Text → Text → Option Text
  secret_of resolved_hosts name =
      if one_of name resolved_hosts || one_of (lower name) resolved_hosts
      then none
      else find_secret_with_fallback name

  -- The resolved command and the one for the log.
  unfoldable pub resolve_secrets : List Text → Text → Text × Text
  resolve_secrets resolved_hosts command = (
    replace_all (secret_of resolved_hosts) (references command) command,
    replace_all (λ n. masked (secret_of resolved_hosts n)) (references command) command,
  )
