-- ===== src/Delegation/Completion.antt =====
-- merlya/agent/orchestrator/completion.py: whether an output sounds as if the task were done. A
-- pattern \b(p|q)\b is a list of texts in lower case; letters are those of ASCII.
use merlya.Common.{
  ℕ, Bool, true, false, ◌&&◌, ◌||◌, not, Option, none, some, List, [], ◌∷◌, length, ltb, leb, ◌==◌,
  if◌then◌else◌,
}
use merlya.Common.Text.{Text, codes}
use merlya.Common.Match.{after_word}

-- \w
unfoldable pub is_word_char : ℕ → Bool
is_word_char c =
    leb b'a' c && leb c b'z' || leb b'A' c && leb c b'Z' || leb b'0' c && leb c b'9' || c == b'_'

-- The text does not go on with a word character.
unfoldable pub ends_word : Option Text → Bool
unfolding is_word_char
ends_word none = false
ends_word (some []) = true
ends_word (some (c ∷ _)) = not (is_word_char c)

-- (p|q)\b
unfoldable pub any_word : List Text → Text → Bool
unfolding ends_word after_word
any_word [] s = false
any_word (w ∷ ws) s = ends_word (after_word w s) || any_word ws s

-- \b(p|q)\b somewhere, where `inside` is whether a word character comes before the text.
unfoldable pub search_word : (inside : Bool) → List Text → Text → Bool
unfolding any_word is_word_char
search_word inside ws [] = false
search_word inside ws (c ∷ s) =
    not inside && any_word ws (c ∷ s) || search_word (is_word_char c) ws s

abbrev pub completion_words : List Text
completion_words =
    codes "done"
    ∷ codes "complete"
    ∷ codes "finished"
    ∷ codes "fixed"
    ∷ codes "resolved"
    ∷ codes "success"
    ∷ codes "resolu"
    ∷ codes "termine"
    ∷ codes "corrige"
    ∷ codes "succes"
    ∷ []

abbrev pub incomplete_words : List Text
incomplete_words =
    codes "incomplete"
    ∷ codes "partial"
    ∷ codes "pending"
    ∷ codes "todo"
    ∷ codes "still need"
    ∷ codes "incomplet"
    ∷ codes "en cours"
    ∷ codes "a faire"
    ∷ []

unfoldable pub task_seems_complete : Text → Bool
unfolding search_word
task_seems_complete [] = false
task_seems_complete (c ∷ s) =
    if search_word false completion_words (c ∷ s)
    then true
    else if search_word false incomplete_words (c ∷ s)
    then false
    else ltb 100 (length (c ∷ s))
