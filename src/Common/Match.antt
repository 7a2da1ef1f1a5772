-- ===== src/Common/Match.antt =====
-- Regular expressions that consume a text from its start, as functions to what is left of it. The
-- patterns of the program ignore case.
use mathlib.Core.Option.{Option, none, some}
use mathlib.Core.List.{[], ◌∷◌}
use merlya.Common.Tests.{◌==◌, if◌then◌else◌}
use merlya.Common.Text.{Text, lower_char, is_space, lstrip}

-- What is left of a text after a word, given in lower case.
unfoldable pub after_word : Text → Text → Option Text
unfolding lower_char
after_word [] s = some s
after_word (w ∷ ws) [] = none
after_word (w ∷ ws) (c ∷ s) = let rest = after_word ws s in if w == lower_char c then rest else none

-- \s+
abbrev pub after_spaces : Text → Option Text
after_spaces [] = none
after_spaces (c ∷ s) = if is_space c then some (lstrip s) else none

abbrev pub then_match : Option Text → (Text → Option Text) → Option Text
then_match none f = none
then_match (some s) f = f s

-- p|q
abbrev pub first_of : Option Text → Option Text → Option Text
first_of none m = m
first_of (some s) m = some s
