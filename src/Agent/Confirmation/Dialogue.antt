-- ===== src/Agent/Confirmation/Dialogue.antt =====
-- Which answer decides.
use merlya.Common.{
  ◌≡◌, ◌⊎◌, inl, inr, refl, ◌∙◌, false, Option, none, some, List, [], ◌∷◌, ◌++◌, All,
}
use merlya.Common.Text.{Text}
use merlya.Agent.Confirmation.{
  ConfirmationResult, cancel, ConfirmationState, choice, remember, ask, skips, confirm_command,
}

ask-undecided :
    (command : Text) (s : Option ConfirmationState) (pre answers : List Text)
    → All (λ a. choice a ≡ none) pre
    → ask command s (pre ++ answers) ≡ ask command s answers
unfolding ask
ask-undecided command s [] answers h = refl
ask-undecided command s (a ∷ pre) answers (e, h) = rw e (ask-undecided command s pre answers h)

ask-empty :
    (command : Text) (s : Option ConfirmationState) (answers : List Text)
    → All (λ a. choice a ≡ none) answers
    → ask command s answers ≡ (cancel, s, [])
unfolding ask
ask-empty command s [] h = refl
ask-empty command s (a ∷ answers) (e, h) = rw e (ask-empty command s answers h)

-- Where nothing skips the question, the first answer that is a choice is the result and decides what
-- is remembered, answers that are no choice are passed over, the answers after it are not read, and
-- without a choice before the prompt raises the command is cancelled.
pub confirm_command-first_choice :
    (command : Text) (s : Option ConfirmationState) (pre : List Text)
    → skips command s ≡ false
    → All (λ a. choice a ≡ none) pre
    → ((a : Text) (answers : List Text) (r : ConfirmationResult)
        → choice a ≡ some r
        → confirm_command false command s (pre ++ (a ∷ answers))
          ≡ (r, remember command r s, answers))
      × (confirm_command false command s pre ≡ (cancel, s, []))
unfolding confirm_command ask
confirm_command-first_choice command s pre h u = rw h (
  (λ a answers r e. ask-undecided command s pre (a ∷ answers) u ∙ first a answers r e),
  ask-empty command s pre u,
)
  where
    first :
        (a : Text) (answers : List Text) (r : ConfirmationResult)
        → choice a ≡ some r
        → ask command s (a ∷ answers) ≡ (r, remember command r s, answers)
    first a answers r e = rw e refl

-- Where nothing skips the question and no answer is a yes or an always, the command is cancelled and
-- the state stays as it was.
pub no_yes-cancels :
    (command : Text) (s : Option ConfirmationState) (answers : List Text)
    → skips command s ≡ false
    → All (λ a. (choice a ≡ none) ⊎ (choice a ≡ some cancel)) answers
    → ((confirm_command false command s answers).0 ≡ cancel)
      × ((confirm_command false command s answers).1 ≡ s)
unfolding confirm_command ask
no_yes-cancels command s answers h u = rw h (ask-no_yes answers u)
  where
    ask-no_yes :
        (answers : List Text)
        → All (λ a. (choice a ≡ none) ⊎ (choice a ≡ some cancel)) answers
        → ((ask command s answers).0 ≡ cancel) × ((ask command s answers).1 ≡ s)
    ask-no_yes [] u = (refl, refl)
    ask-no_yes (a ∷ answers) (inl e, u) = rw e (ask-no_yes answers u)
    ask-no_yes (a ∷ answers) (inr e, u) = rw e (refl, refl)
