-- ===== src/Agent/Tracker/Fingerprint.antt =====
-- merlya/agent/tracker.py: the patterns and the fingerprint of a command. The patterns ignore case.
use merlya.Common.{
  ℕ, Bool, true, false, ◌||◌, Option, none, some, List, [], ◌∷◌, ◌++◌, take, ◌==◌, if◌then◌else◌,
}
use merlya.Common.Match.{after_word, after_spaces, then_match, first_of}
use merlya.Common.Text.{Text, codes, lower, strip}
use mathlib.Core.List.{reverse}

abbrev pub matched : Option Text → Bool
matched none = false
matched (some _) = true

-- (?:w1|w2|...)\s+
unfoldable pub any_word : List Text → Text → Bool
any_word [] s = false
any_word (w ∷ ws) s = matched (then_match (after_word w s) after_spaces) || any_word ws s

abbrev pub sudo : Text → Option Text
sudo s = then_match (after_word (codes "sudo") s) after_spaces

abbrev after : Option Text → List Text → Bool
after none ws = false
after (some s) ws = any_word ws s

-- ^(?:sudo\s+)?(?:w1|w2|...)\s+
unfoldable pub is_command : List Text → Text → Bool
is_command ws s = after (sudo s) ws || any_word ws s

abbrev command_categories : List (List Text × Text)
command_categories =
    (codes "systemctl" ∷ [], codes "systemctl")
    ∷ (codes "docker" ∷ codes "podman" ∷ [], codes "docker")
    ∷ (codes "kubectl" ∷ [], codes "kubectl")
    ∷ (codes "apt" ∷ codes "apt-get" ∷ codes "dpkg" ∷ [], codes "apt")
    ∷ (codes "yum" ∷ codes "dnf" ∷ codes "rpm" ∷ [], codes "yum")
    ∷ (codes "service" ∷ [], codes "service")
    ∷ []

unfoldable pub category_in : List (List Text × Text) → Text → Option Text
category_in [] s = none
category_in ((ws, c) ∷ cs) s = if is_command ws s then some c else category_in cs s

unfoldable pub get_command_category : Text → Option Text
get_command_category command = category_in command_categories (strip command)

-- ^sudo\s+-[sS]\s+
abbrev sudo_flag : Text → Option Text
sudo_flag s = then_match (then_match (sudo s) (after_word (codes "-s"))) after_spaces

-- ['\"]?
abbrev is_quote : ℕ → Bool
is_quote c = c == 34 || c == 39

abbrev optional_quote : Text → Option Text
optional_quote [] = some []
optional_quote (c ∷ s) = some (if is_quote c then s else c ∷ s)

-- ^su\s+-c\s+['\"]?
abbrev su : Text → Option Text
su s =
    then_match
      (then_match
        (then_match (then_match (after_word (codes "su") s) after_spaces) (after_word (codes "-c")))
        after_spaces)
      optional_quote

abbrev doas : Text → Option Text
doas s = then_match (after_word (codes "doas") s) after_spaces

unfoldable pub strip_quotes_left : Text → Text
strip_quotes_left [] = []
strip_quotes_left (c ∷ s) = let rest = strip_quotes_left s in if is_quote c then rest else c ∷ s

-- cmd.rstrip("'\"")
abbrev pub rstrip_quotes : Text → Text
rstrip_quotes s = reverse (strip_quotes_left (reverse s))

-- The text after the first pattern of ELEVATION_PATTERNS that matches.
abbrev pub elevated : Text → Option Text
elevated s = first_of (sudo_flag s) (first_of (sudo s) (first_of (su s) (doas s)))

abbrev pub replace_elevation : Text → Option Text → Text
replace_elevation cmd none = cmd
replace_elevation cmd (some s) = rstrip_quotes (codes "ELEV:" ++ s)

unfoldable pub normalize_command_for_fingerprint : Text → Text
normalize_command_for_fingerprint command =
    replace_elevation (strip command) (elevated (strip command))

unfoldable pub fingerprint : Text → Text → Text
fingerprint host command =
    lower host ++ codes ":" ++ lower (take 25 (normalize_command_for_fingerprint command))

unfoldable pub category_key : Text → Text → Text
category_key host category = lower host ++ codes ":" ++ category
