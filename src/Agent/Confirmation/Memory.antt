-- ===== src/Agent/Confirmation/Memory.antt =====
-- What a session remembers.
use merlya.Common.{
  ℕ, zero, suc, take, ◌≡◌, ◌≢◌, ◌⊎◌, inl, inr, refl, true, false, ◌||◌, Option, none, some, List,
  [], ◌∷◌, arith, Option-cases, Bool-cases,
}
use merlya.Common.Text.{Text, text_eq, text_eq_refl, one_of, lower, strip}
use merlya.Agent.Confirmation.{
  ConfirmationResult, execute, cancel, always_yes, ConfirmationState, choice, remember, ask, skips,
  confirm_command, should_skip, mark_confirmed, set_always_yes, full_command, prefix,
}

pub should_skip-mark_confirmed :
    (c d : Text) (s : ConfirmationState)
    → should_skip d (mark_confirmed c s)
      ≡ (should_skip d s || text_eq (full_command d) (full_command c))
unfolding should_skip mark_confirmed one_of
should_skip-mark_confirmed c d s = ground arith

pub should_skip-always :
    (d : Text) (s : ConfirmationState) → should_skip d (set_always_yes none s) ≡ true
unfolding should_skip set_always_yes
should_skip-always d s = refl

remember-skips :
    (c d : Text) (r : ConfirmationResult) (s : Option ConfirmationState)
    → skips d s ≡ true
    → skips d (remember c r s) ≡ true
remember-skips c d r none h = absurd (ground (arith, h))
remember-skips c d execute (some s) h = ground (arith, h, should_skip-mark_confirmed c d s)
remember-skips c d cancel (some s) h = h
remember-skips c d always_yes (some s) h = should_skip-always d s

ask-remembers :
    (c d : Text) (s : Option ConfirmationState) (answers : List Text)
    → (skips d s ≡ true → skips d (ask c s answers).1 ≡ true)
unfolding ask
ask-remembers c d s [] h = h
ask-remembers c d s (a ∷ answers) h = elim (Option-cases (choice a)) [
  | inl e ↦ rw e (ask-remembers c d s answers h)
  | inr (r, e) ↦ rw e (remember-skips c d r s h)
]

ask-confirms :
    (c d : Text) (s : ConfirmationState) (answers : List Text)
    → full_command d ≡ full_command c
    → (ask c (some s) answers).0 ≢ cancel
    → skips d (ask c (some s) answers).1 ≡ true
unfolding ask
ask-confirms c d s [] f h = absurd (h refl)
ask-confirms c d s (a ∷ answers) f h = elim (Option-cases (choice a)) [
  | inl e ↦ rw e (ask-confirms c d s answers f (rw e at h))
  | inr (r, e) ↦ rw e (chosen-skips r (rw e at h))
]
  where
    chosen-skips : (r : ConfirmationResult) → r ≢ cancel → skips d (remember c r (some s)) ≡ true
    chosen-skips execute h =
        ground (arith, f, should_skip-mark_confirmed c d s, text_eq_refl (full_command c))
    chosen-skips always_yes h = should_skip-always d s
    chosen-skips cancel h = absurd (h refl)

-- The commands asked for, each with the answers given to it.
abbrev pub Asked : Type 0
Asked = Text × List Text

-- The state after these commands are asked for, with the answers given to each.
pub asked : List Asked → Option ConfirmationState → Option ConfirmationState
asked [] s = s
asked ((c, answers) ∷ more) s = asked more (confirm_command false c s answers).1

confirm_command-remembers :
    (c d : Text) (s : Option ConfirmationState) (answers : List Text)
    → skips d s ≡ true
    → skips d (confirm_command false c s answers).1 ≡ true
unfolding confirm_command
confirm_command-remembers c d s answers h = elim (Bool-cases (skips c s)) [
  | inl e ↦ rw e h
  | inr e ↦ rw e (ask-remembers c d s answers h)
]

asked-remembers :
    (d : Text) (more : List Asked) (s : Option ConfirmationState)
    → skips d s ≡ true
    → skips d (asked more s) ≡ true
unfolding asked
asked-remembers d [] s h = h
asked-remembers d ((c, answers) ∷ more) s h =
    asked-remembers d more (confirm_command false c s answers).1
      (confirm_command-remembers c d s answers h)

lower-take : (n : ℕ) (t : Text) → lower (take n t) ≡ take n (lower t)
unfolding lower
lower-take zero t = refl
lower-take (suc n) [] = refl
lower-take (suc n) (x ∷ t) = rw (lower-take n t)

prefix-from_full : (c d : Text) → full_command d ≡ full_command c → prefix d ≡ prefix c
unfolding prefix full_command
prefix-from_full c d f = rw (lower-take 25 (strip d), lower-take 25 (strip c), f) refl

same-skips :
    (c d : Text) (s : ConfirmationState)
    → full_command d ≡ full_command c
    → should_skip c s ≡ true
    → should_skip d s ≡ true
unfolding should_skip
same-skips c d s f h = rw (f, prefix-from_full c d f) h

-- In a session with a state, once a command has been asked for and not cancelled, the same command,
-- in whatever case and with whatever white space around it, is executed again without a question
-- and without a change of the state, however many other commands are asked for in between.
pub confirmed-stays :
    (c d : Text) (s : ConfirmationState) (answers later : List Text) (more : List Asked)
    → full_command d ≡ full_command c
    → (confirm_command false c (some s) answers).0 ≢ cancel
    → let s' = asked more (confirm_command false c (some s) answers).1 in
      confirm_command false d s' later ≡ (execute, s', later)
unfolding confirm_command
confirmed-stays c d s answers later more f h =
    rw (asked-remembers d more _ (first (Bool-cases (skips c (some s))))) refl
  where
    first :
        (skips c (some s) ≡ true) ⊎ (skips c (some s) ≡ false)
        → skips d (confirm_command false c (some s) answers).1 ≡ true
    first (inl e) = rw e (same-skips c d s f e)
    first (inr e) = rw e (ask-confirms c d s answers f (rw e at h))
