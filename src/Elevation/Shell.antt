-- ===== src/Elevation/Shell.antt =====
-- Python's shlex.quote, which agent/specialists/elevation.py uses, the quoting that
-- security/permissions.py writes out, and how a POSIX shell reads a word.
use merlya.Common.{
  ℕ, ◌≡◌, refl, Bool, true, ◌&&◌, ◌||◌, Option, none, some, [], ◌∷◌, ◌++◌, leb, ◌==◌, if◌then◌else◌,
  arith, Bool-cases, inl, inr,
}
use merlya.Common.Text.{Text}
use mathlib.Core.Option.{map}

-- What shlex leaves unquoted: [\w@%+=:,./-] in ASCII.
unfoldable pub is_safe : ℕ → Bool
is_safe c =
    leb b'a' c && leb c b'z'
    || leb b'A' c && leb c b'Z'
    || leb b'0' c && leb c b'9'
    || c == b'_'
    || c == b'@'
    || c == b'%'
    || c == b'+'
    || c == b'='
    || c == b':'
    || c == b','
    || c == b'.'
    || c == b'/'
    || c == b'-'

unfoldable pub all_safe : Text → Bool
all_safe [] = true
all_safe (c ∷ s) = is_safe c && all_safe s

-- s.replace("'", "'\"'\"'")
unfoldable pub replace_quotes : Text → Text
replace_quotes [] = []
replace_quotes (c ∷ s) =
    let rest = replace_quotes s in if c == 39 then 39 ∷ 34 ∷ 39 ∷ 34 ∷ 39 ∷ rest else c ∷ rest

-- f"'{escaped}'"
unfoldable pub in_quotes : Text → Text
unfolding replace_quotes
in_quotes s = 39 ∷ (replace_quotes s ++ (39 ∷ []))

-- shlex.quote(s)
unfoldable pub quote : Text → Text
quote [] = 39 ∷ 39 ∷ []
quote (c ∷ s) = if all_safe (c ∷ s) then c ∷ s else in_quotes (c ∷ s)

-- Where the shell is in a word: outside quotes, in single or double ones, or at something that ends
-- the word or is expanded.
pub data Mode : Type 0 where
  plain : Mode
  single : Mode
  double : Mode
  stuck : Mode

-- Within double quotes $ ` " and \ are special.
abbrev is_expanded : ℕ → Bool
is_expanded c = c == 36 || c == 96 || c == 92

-- The mode after a character, and what the character adds to the word.
abbrev pub read : Mode → ℕ → Mode × Text
read plain c =
    if c == 39
    then (single, [])
    else if c == 34
    then (double, [])
    else if is_safe c
    then (plain, c ∷ [])
    else (stuck, [])
read single c = if c == 39 then (plain, []) else (single, c ∷ [])
read double c =
    if c == 34 then (plain, []) else if is_expanded c then (stuck, []) else (double, c ∷ [])
read stuck c = (stuck, [])

unfoldable word_from : Mode → Text → Option Text
word_from plain [] = some []
word_from single [] = none
word_from double [] = none
word_from stuck [] = none
word_from plain (c ∷ s) = map (λ w. (read plain c).1 ++ w) (word_from (read plain c).0 s)
word_from single (c ∷ s) = map (λ w. (read single c).1 ++ w) (word_from (read single c).0 s)
word_from double (c ∷ s) = map (λ w. (read double c).1 ++ w) (word_from (read double c).0 s)
word_from stuck (c ∷ s) = none

-- The one argument that the shell reads from a text, or none where the text is not one word made of
-- quotes and characters that need none.
unfoldable pub shell_word : Text → Option Text
unfolding word_from is_safe
shell_word [] = none
shell_word (c ∷ s) = word_from plain (c ∷ s)

word-replaced : (s : Text) → word_from single (replace_quotes s ++ (39 ∷ [])) ≡ some s
unfolding word_from replace_quotes is_safe
word-replaced [] = refl
word-replaced (c ∷ s) = ground (arith, word-replaced s)

word-all_safe : (s : Text) → all_safe s ≡ true → word_from plain s ≡ some s
unfolding word_from all_safe is_safe
word-all_safe [] h = refl
word-all_safe (c ∷ s) h = ground (arith, word-all_safe s)

pub shell_word-in_quotes : (s : Text) → shell_word (in_quotes s) ≡ some s
unfolding shell_word in_quotes word_from
shell_word-in_quotes s = ground (arith, word-replaced s)

pub shell_word-quote : (s : Text) → shell_word (quote s) ≡ some s
unfolding quote shell_word
shell_word-quote [] = refl
shell_word-quote (c ∷ s) = elim (Bool-cases (all_safe (c ∷ s))) [
  | inl h ↦ rw h (word-all_safe (c ∷ s) h)
  | inr h ↦ rw h (shell_word-in_quotes (c ∷ s))
]
