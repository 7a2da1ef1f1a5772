-- ===== src/Agent/Confirmation.antt =====
-- merlya/agent/confirmation.py: asking the user before a command runs. What the user types at the
-- prompts is a list of texts; after its end the prompt raises (`EOFError`, `KeyboardInterrupt` or
-- another exception). The danger level decides only what is displayed, and is left out with the
-- display. A set of texts is a list of them.
pub mod Dialogue
pub mod Memory
pub mod Batch
use merlya.Common.{
  ℕ, suc, ◌+◌, ◌-◌, ◌≡◌, Bool, true, false, not, ◌&&◌, ◌||◌, Option, none, some, List, [], ◌∷◌,
  ◌++◌, length, take, drop, replicate, if◌then◌else◌,
}
use merlya.Common.Text.{Text, codes, lower, strip, one_of}

pub data ConfirmationResult : Type 0 where
  execute cancel always_yes : ConfirmationResult

pub record ConfirmationState : Type 0 where
  pub always_yes : Bool
  pub always_yes_patterns : List Text
  pub confirmed_commands : List Text

abbrev pub new : ConfirmationState
new = record { always_yes = false; always_yes_patterns = []; confirmed_commands = [] }

-- command.strip()[:25].lower()
unfoldable pub prefix : Text → Text
prefix command = lower (take 25 (strip command))

-- command.strip().lower()
unfoldable pub full_command : Text → Text
full_command command = lower (strip command)

unfoldable pub should_skip : Text → ConfirmationState → Bool
unfolding one_of
should_skip command s =
    s.always_yes
    || one_of (prefix command) s.always_yes_patterns
    || one_of (full_command command) s.confirmed_commands

unfoldable pub mark_confirmed : Text → ConfirmationState → ConfirmationState
mark_confirmed command s = record s {
  confirmed_commands = full_command command ∷ s.confirmed_commands;
}

unfoldable pub set_always_yes : Option Text → ConfirmationState → ConfirmationState
set_always_yes none s = record s { always_yes = true }
set_always_yes (some command) s = record s {
  always_yes_patterns = prefix command ∷ s.always_yes_patterns;
}

unfoldable pub reset : ConfirmationState → ConfirmationState
reset s = new

abbrev yes_words : List Text
yes_words = codes "y" ∷ codes "yes" ∷ codes "oui" ∷ codes "o" ∷ []

abbrev always_words : List Text
always_words = codes "a" ∷ codes "always" ∷ codes "toujours" ∷ []

abbrev no_words : List Text
no_words = codes "n" ∷ codes "no" ∷ codes "non" ∷ []

-- What an answer to the prompt decides, if it decides anything.
unfoldable pub choice : Text → Option ConfirmationResult
choice answer =
    let c = lower (strip answer) in
    if one_of c yes_words
    then some execute
    else if one_of c always_words
    then some ConfirmationResult.always_yes
    else if one_of c no_words
    then some cancel
    else none

abbrev pub on_state :
    (ConfirmationState → ConfirmationState) → Option ConfirmationState → Option ConfirmationState
on_state f none = none
on_state f (some s) = some (f s)

-- The state after a choice.
abbrev pub remember :
    Text → ConfirmationResult → Option ConfirmationState → Option ConfirmationState
remember command execute s = on_state (mark_confirmed command) s
remember command always_yes s = on_state (set_always_yes none) s
remember command cancel s = s

-- A result, the state and the answers that are left.
abbrev pub Reply : Type 0
Reply = ConfirmationResult × Option ConfirmationState × List Text

abbrev pub chosen :
    Text → Option ConfirmationState → List Text → Reply → Option ConfirmationResult → Reply
chosen command s answers rest none = rest
chosen command s answers rest (some r) = (r, remember command r s, answers)

-- The loop of prompts.
unfoldable pub ask : Text → Option ConfirmationState → List Text → Reply
ask command s [] = (cancel, s, [])
ask command s (answer ∷ answers) = chosen command s answers (ask command s answers) (choice answer)

abbrev pub skips : Text → Option ConfirmationState → Bool
skips command none = false
skips command (some s) = should_skip command s

-- `auto` is `auto_confirm or ui.auto_confirm`.
unfoldable pub confirm_command : Bool → Text → Option ConfirmationState → List Text → Reply
confirm_command auto command s answers =
    if auto
    then (execute, s, answers)
    else if skips command s
    then (execute, s, answers)
    else ask command s answers

abbrev pub Replies : Type 0
Replies = List ConfirmationResult × Option ConfirmationState × List Text

-- What a result means for the commands after it: `n` of them.
abbrev pub go_on : ℕ → Reply → Replies → Replies
go_on n (execute, s, answers) (rs, s', answers') = (execute ∷ rs, s', answers')
go_on n (cancel, s, answers) rest = (cancel ∷ replicate n cancel, s, answers)
go_on n (always_yes, s, answers) rest = (always_yes ∷ replicate n execute, s, answers)

unfoldable pub confirm_batch_commands :
    Bool → List Text → Option ConfirmationState → List Text → Replies
confirm_batch_commands auto [] s answers = ([], s, answers)
confirm_batch_commands auto (command ∷ commands) s answers =
    let r = confirm_command auto command s answers in
    go_on (length commands) r (confirm_batch_commands auto commands r.1 r.2)
