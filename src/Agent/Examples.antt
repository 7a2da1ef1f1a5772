-- ===== src/Agent/Examples.antt =====
-- Runs of the agent's parts.
use merlya.Common.{
  ℕ, zero, suc, ◌≤◌, ◌≡◌, refl, String, true, false, none, some, List, [], ◌∷◌, arith, length, drop,
  eq_iff, str_eq, ◌&&◌,
}
use merlya.Common.Names.{member, difference, intersection, discard}
use merlya.Agent.History.{
  tool_call, tool_return, user_prompt, Message, response, request, calls, returns, call_ids,
  return_ids, validate_tool_pairing, limit_history, find_safe_truncation_point, move_back,
  all_orphans,
}
use merlya.Agent.History.Pairing.{NoOrphans, WellPaired}
use merlya.Agent.History.Limit.{CalledOnce, limit_history-NoOrphans, limit_history-bound}
use merlya.Common.Text.{Text, codes, lower, strip, lstrip, text_eq, one_of, is_space, lower_char}
use merlya.Agent.Tracker.Fingerprint.{
  fingerprint, normalize_command_for_fingerprint, get_command_category, category_in, is_command,
  any_word, strip_quotes_left,
}
use merlya.Common.Match.{after_word}
use merlya.Agent.Tracker
use merlya.Agent.Tracker.{
  ToolCallTracker, record_call, would_loop, is_looping, guarded_call, count, increment, Loop,
  over_count, texts_eq, same_command,
}
use merlya.Agent.Tracker.Guard.{Limited, allowed, guarded_run, guarded_run-never_loops}
use merlya.Agent.Confirmation
use merlya.Agent.Confirmation.{
  ConfirmationState, ConfirmationResult, execute, cancel, always_yes, confirm_command,
  confirm_batch_commands, choice, ask, should_skip, skips, remember, full_command, mark_confirmed,
  set_always_yes, prefix,
}
use merlya.Agent.Confirmation.Memory.{asked, confirmed-stays}

abbrev talk : List Message
talk =
    request (user_prompt ∷ [])
    ∷ response (tool_call "a" ∷ tool_call "b" ∷ [])
    ∷ request (tool_return "a" ∷ tool_return "b" ∷ [])
    ∷ response (tool_call "c" ∷ [])
    ∷ request (tool_return "c" ∷ [])
    ∷ []

talk-cut : limit_history talk 1 ≡ drop 3 talk
unfolding limit_history find_safe_truncation_point all_orphans move_back call_ids return_ids calls
    returns member difference intersection discard
talk-cut = refl

talk-WellPaired : WellPaired [] talk
unfolding returns calls member
talk-WellPaired = (λ k h. h, (λ k h. h, (λ k h. h, (λ k h. h, (λ k h. h, tt)))))

limit_history-NoOrphans_example : NoOrphans (limit_history talk 1)
limit_history-NoOrphans_example = limit_history-NoOrphans talk 1 talk-WellPaired

not_both : (i j k : String) → str_eq i j ≡ false → (str_eq i k && str_eq j k) ≡ false
not_both i j k h = ground (arith, h, eq_iff i j, eq_iff i k, eq_iff j k)

none_left : (n : ℕ) (k : String) → member k (call_ids (drop n [])) ≡ false
unfolding call_ids member
none_left zero k = refl
none_left (suc n) k = refl

talk-CalledOnce : CalledOnce talk
unfolding call_ids calls member
talk-CalledOnce zero k = refl
talk-CalledOnce (suc zero) k = refl
talk-CalledOnce (suc (suc zero)) k =
    ground (arith, not_both "a" "c" k refl, not_both "b" "c" k refl)
talk-CalledOnce (suc (suc (suc zero))) k =
    ground (arith, not_both "a" "c" k refl, not_both "b" "c" k refl)
talk-CalledOnce (suc (suc (suc (suc zero)))) k = ground arith
talk-CalledOnce (suc (suc (suc (suc (suc n))))) k = ground (arith, none_left n k)

limit_history-bound_example : length (limit_history talk 1) ≤ 2
limit_history-bound_example = limit_history-bound talk 1 talk-WellPaired talk-CalledOnce

-- Two responses in a row, answered together: the cut falls between a call and its return.
abbrev crossed : List Message
crossed =
    response (tool_call "a" ∷ [])
    ∷ response (tool_call "b" ∷ [])
    ∷ request (tool_return "a" ∷ tool_return "b" ∷ [])
    ∷ request (tool_return "b" ∷ [])
    ∷ []

crossed-cut :
    (validate_tool_pairing crossed ≡ true)
    × (validate_tool_pairing (limit_history crossed 1) ≡ false)
unfolding validate_tool_pairing limit_history find_safe_truncation_point all_orphans move_back
    call_ids return_ids calls returns member difference intersection discard
crossed-cut = (refl, refl)

elevations_alike :
    (normalize_command_for_fingerprint (codes "su -c 'cat /etc/shadow'")
      ≡ codes "ELEV:cat /etc/shadow")
    × (normalize_command_for_fingerprint (codes "SUDO -S cat /etc/shadow")
        ≡ codes "ELEV:cat /etc/shadow")
unfolding normalize_command_for_fingerprint strip lstrip is_space after_word lower_char
    strip_quotes_left
elevations_alike = (refl, refl)

category_of_apt : get_command_category (codes "sudo apt-get update") ≡ some (codes "apt")
unfolding get_command_category category_in is_command any_word strip lstrip is_space after_word
    lower_char
category_of_apt = refl

abbrev again : List (Text × Text)
again =
    (codes "web", codes "sudo ls")
    ∷ (codes "web", codes "doas ls")
    ∷ (codes "WEB", codes "sudo ls")
    ∷ (codes "web", codes "sudo ls")
    ∷ []

fourth_is_refused : (guarded_run again Tracker.new).total_calls ≡ 3
unfolding guarded_run guarded_call would_loop record_call Tracker.new fingerprint count increment
    text_eq lower normalize_command_for_fingerprint strip lstrip is_space after_word lower_char
    strip_quotes_left get_command_category category_in is_command any_word texts_eq
fourth_is_refused = refl

guarded_run-never_loops_example :
    Limited (allowed again Tracker.new) × (is_looping (guarded_run again Tracker.new) ≡ none)
guarded_run-never_loops_example = guarded_run-never_loops again

abbrev two_commands : List Text
two_commands = codes "rm -r tmp" ∷ codes "ls" ∷ []

batch_run :
    (confirm_batch_commands false two_commands
      (some Confirmation.new)
      (codes "maybe" ∷ codes " Y " ∷ codes "a" ∷ [])).0
    ≡ execute ∷ always_yes ∷ []
unfolding confirm_batch_commands confirm_command ask choice should_skip prefix full_command one_of
    text_eq lower strip lstrip is_space lower_char mark_confirmed set_always_yes
batch_run = refl

confirmed-stays_example :
    let s' =
      asked
        ((codes "df", codes "n" ∷ []) ∷ [])
        (confirm_command false (codes "ls") (some Confirmation.new) (codes "y" ∷ [])).1 in
    confirm_command false (codes " LS") s' [] ≡ (execute, s', [])
unfolding full_command confirm_command ask choice should_skip prefix one_of text_eq lower strip
    lstrip is_space lower_char
confirmed-stays_example =
    confirmed-stays (codes "ls") (codes " LS") Confirmation.new (codes "y" ∷ []) []
      ((codes "df", codes "n" ∷ []) ∷ []) refl (λ e. cc)
