-- ===== src/Agent/Confirmation/Batch.antt =====
-- Confirming commands in a batch and one by one.
use merlya.Common.{
  ℕ, ◌≡◌, refl, Bool, true, false, Option, some, List, [], ◌∷◌, length, replicate, length-replicate,
  arith, Option-cases, Bool-cases, inl, inr,
}
use merlya.Common.Text.{Text}
use merlya.Agent.Confirmation.{
  ConfirmationResult, execute, cancel, always_yes, ConfirmationState, Reply, Replies, ask, skips,
  confirm_command, confirm_batch_commands, go_on, should_skip, choice, chosen, set_always_yes,
}

-- Each command by `confirm_command`, with only the rule that a cancel cancels the rest.
abbrev pub until_cancel : ℕ → Reply → Replies → Replies
until_cancel n (execute, s, answers) (rs, s', answers') = (execute ∷ rs, s', answers')
until_cancel n (always_yes, s, answers) (rs, s', answers') = (always_yes ∷ rs, s', answers')
until_cancel n (cancel, s, answers) rest = (cancel ∷ replicate n cancel, s, answers)

unfoldable pub one_by_one : Bool → List Text → Option ConfirmationState → List Text → Replies
one_by_one auto [] s answers = ([], s, answers)
one_by_one auto (command ∷ commands) s answers =
    let r = confirm_command auto command s answers in
    until_cancel (length commands) r (one_by_one auto commands r.1 r.2)

confirm_command-always :
    (c : Text) (s : ConfirmationState) (answers : List Text)
    → s.always_yes ≡ true
    → confirm_command false c (some s) answers ≡ (execute, some s, answers)
unfolding confirm_command should_skip
confirm_command-always c s answers h = simp (h) refl

one_by_one-always :
    (commands : List Text) (s : ConfirmationState) (answers : List Text)
    → s.always_yes ≡ true
    → one_by_one false commands (some s) answers
      ≡ (replicate (length commands) execute, some s, answers)
unfolding one_by_one
one_by_one-always [] s answers h = refl
one_by_one-always (c ∷ commands) s answers h =
    rw (confirm_command-always c s answers h, one_by_one-always commands s answers h) refl

-- What holds of a reply to a question asked with a state: the state is still there, and after an
-- always it skips every question.
abbrev Sensible : Bool → Reply → Type 0
Sensible auto (r, s, answers) =
    (s' : ConfirmationState) × (s ≡ some s')
    × (r ≡ always_yes → (auto ≡ false) × (s'.always_yes ≡ true))

ask-Sensible :
    (c : Text) (s : ConfirmationState) (answers : List Text)
    → Sensible false (ask c (some s) answers)
unfolding ask set_always_yes
ask-Sensible c s [] = (s, refl, λ e. cc)
ask-Sensible c s (a ∷ answers) = elim (Option-cases (choice a)) [
  | inl e ↦ rw e (ask-Sensible c s answers)
  | inr (r, e) ↦ rw e (decided r)
]
  where
    decided :
        (r : ConfirmationResult)
        → Sensible false (chosen c (some s) answers (ask c (some s) answers) (some r))
    decided execute = (_, refl, λ e. cc)
    decided cancel = (_, refl, λ e. cc)
    decided always_yes = (_, refl, λ e. (refl, refl))

confirm_command-Sensible :
    (auto : Bool) (c : Text) (s : ConfirmationState) (answers : List Text)
    → Sensible auto (confirm_command auto c (some s) answers)
unfolding confirm_command
confirm_command-Sensible true c s answers = (s, refl, λ e. cc)
confirm_command-Sensible false c s answers = elim (Bool-cases (skips c (some s))) [
  | inl e ↦ rw e (s, refl, λ e. cc)
  | inr e ↦ rw e (ask-Sensible c s answers)
]

reply-same :
    (auto : Bool) (commands : List Text) (r : Reply)
    → Sensible auto r
    → ((s : ConfirmationState) (answers : List Text)
        → confirm_batch_commands auto commands (some s) answers
          ≡ one_by_one auto commands (some s) answers)
    → go_on (length commands) r (confirm_batch_commands auto commands r.1 r.2)
      ≡ until_cancel (length commands) r (one_by_one auto commands r.1 r.2)
reply-same auto commands (execute, s, answers) (s', e, h) f = rw (e, f s' answers) refl
reply-same auto commands (cancel, s, answers) (s', e, h) f = refl
reply-same auto commands (always_yes, s, answers) (s', e, h) f =
    let (a, y) = h refl in rw (e, a, one_by_one-always commands s' answers y) refl

-- With a session state, the results of a batch, the state after it and the answers read are those
-- of confirming its commands one by one until one is cancelled, the rest being cancelled with it:
-- executing the rest after an always without asking changes nothing.
pub confirm_batch_commands-one_by_one :
    (auto : Bool) (commands : List Text) (s : ConfirmationState) (answers : List Text)
    → confirm_batch_commands auto commands (some s) answers
      ≡ one_by_one auto commands (some s) answers
unfolding one_by_one confirm_batch_commands
confirm_batch_commands-one_by_one auto [] s answers = refl
confirm_batch_commands-one_by_one auto (c ∷ commands) s answers =
    reply-same auto commands (confirm_command auto c (some s) answers)
      (confirm_command-Sensible auto c s answers)
      (λ s' answers'. confirm_batch_commands-one_by_one auto commands s' answers')

-- A batch has one result for each command.
pub length-confirm_batch_commands :
    (auto : Bool) (commands : List Text) (s : Option ConfirmationState) (answers : List Text)
    → length (confirm_batch_commands auto commands s answers).0 ≡ length commands
unfolding confirm_batch_commands
length-confirm_batch_commands auto [] s answers = refl
length-confirm_batch_commands auto (c ∷ commands) s answers = ground (
  arith,
  length-replicate (length commands) cancel,
  length-replicate (length commands) execute,
  length-confirm_batch_commands auto commands (confirm_command auto c s answers).1
      (confirm_command auto c s answers).2,
)
