-- ===== src/Delegation/Sanitization.antt =====
-- merlya/agent/orchestrator/sanitization.py: the patterns that refuse an input of the user.
use merlya.Common.{Bool, false, ◌&&◌, ◌||◌, Option, none, some, List, [], ◌∷◌, ◌==◌, if◌then◌else◌}
use merlya.Common.Text.{Text, codes, lower, starts_with, contains}

-- The alternatives of the patterns without a wildcard, written out.
abbrev pub injection_phrases : List Text
injection_phrases =
    codes "ignore instructions"
    ∷ codes "ignore all instructions"
    ∷ codes "ignore previous instructions"
    ∷ codes "ignore your instructions"
    ∷ codes "you are now"
    ∷ codes "new instructions:"
    ∷ codes "system prompt"
    ∷ codes "forget everything"
    ∷ codes "forget all"
    ∷ codes "forget what"
    ∷ codes "disregard above"
    ∷ codes "disregard previous"
    ∷ []

-- .*\|> from here: no newline comes before.
unfoldable pub closes_token : Text → Bool
unfolding starts_with
closes_token [] = false
closes_token (c ∷ s) =
    starts_with (codes "|>") (c ∷ s) || (if c == 10 then false else closes_token s)

abbrev after_two : Text → Text
after_two (_ ∷ _ ∷ s) = s
after_two _ = []

-- <\|.*\|>
unfoldable pub has_special_token : Text → Bool
unfolding starts_with closes_token
has_special_token [] = false
has_special_token (c ∷ s) =
    starts_with (codes "<|") (c ∷ s) && closes_token (after_two (c ∷ s)) || has_special_token s

unfoldable pub has_phrase : List Text → Text → Bool
unfolding contains
has_phrase [] s = false
has_phrase (p ∷ ps) s = contains p s || has_phrase ps s

-- The input itself, or none where a SecurityError is raised.
unfoldable pub sanitize_user_input : Text → Option Text
unfolding has_phrase lower has_special_token
sanitize_user_input s =
    if has_phrase injection_phrases (lower s) || has_special_token s then none else some s
