-- ===== src/Delegation/Targets.antt =====
-- merlya/agent/orchestrator/target_normalization.py: the target of a delegation, and the tools of
-- specialist_tools.py that use it. The inventory is a parameter; that a name is also a secret is
-- only logged. Digits are those of ASCII.
use merlya.Common.{
  ℕ, Bool, true, false, ◌&&◌, ◌||◌, Option, none, some, List, [], ◌∷◌, leb, ◌==◌, length,
  if◌then◌else◌,
}
use merlya.Common.Text.{Text, codes, lower, one_of}
use merlya.Common.Outcome.{Exec}
use merlya.Hosts.{split_dots}
use merlya.Delegation.{
  diagnostic, execution, security, query, DelegationResult, State, Specialist,
  run_specialist_with_retry, run_specialist_once,
}

pub record Entry : Type 0 where
  pub hostname : Text
  pub username : Option Text

-- context.hosts.get_by_name and get_by_hostname
pub record Inventory : Type 0 where
  pub get_by_name : Text → Option Entry
  pub get_by_hostname : Text → Option Entry

abbrev pub local_names : List Text
local_names = codes "local" ∷ codes "localhost" ∷ codes "127.0.0.1" ∷ codes "::1" ∷ []

abbrev is_digit : ℕ → Bool
is_digit c = leb b'0' c && leb c b'9'

abbrev all_digits : Text → Bool
all_digits [] = true
all_digits (c ∷ s) = is_digit c && all_digits s

-- \d{1,3}
abbrev is_part : Text → Bool
is_part s = leb 1 (length s) && leb (length s) 3 && all_digits s

abbrev four_parts : List Text → Bool
four_parts (a ∷ b ∷ c ∷ d ∷ []) = is_part a && is_part b && is_part c && is_part d
four_parts _ = false

-- _IP_RE.fullmatch(target)
unfoldable pub is_ip : Text → Bool
unfolding split_dots
is_ip s = four_parts (split_dots s)

abbrev pub onto : ℕ → Option (Text × Text) → Option (Text × Text)
onto d none = none
onto d (some p) = some (d ∷ p.0, p.1)

-- What is before the first character c, and what is after it, if it is there.
unfoldable pub split_at : ℕ → Text → Option (Text × Text)
split_at c [] = none
split_at c (d ∷ s) = let rest = split_at c s in if d == c then some ([], s) else onto d rest

abbrev pub local_target : Text × Option Text
local_target = (codes "local", none)

-- username and host are not empty
abbrev pub user_and_host : Option (Text × Text) → Option (Text × Option Text)
user_and_host (some (c ∷ u, d ∷ h)) = some (d ∷ h, some (c ∷ u))
user_and_host _ = none

-- "user@host", if the text is that.
unfoldable pub user_at_host : Text → Option (Text × Option Text)
unfolding split_at
user_at_host s = user_and_host (split_at 64 s)

unfoldable pub has_char : ℕ → Text → Bool
has_char c [] = false
has_char c (d ∷ s) = d == c || has_char c s

abbrev pub entry_or_local : Option Entry → Text × Option Text
entry_or_local none = local_target
entry_or_local (some e) = (e.hostname, e.username)

abbrev pub or_else : Option Entry → Option Entry → Option Entry
or_else none o = o
or_else (some e) o = some e

unfoldable pub find_entry : Inventory → Text → Option Entry
find_entry i name = or_else (i.get_by_name name) (i.get_by_hostname name)

-- The name after the sign.
unfoldable pub resolve_name : Option Inventory → Text → Text × Option Text
unfolding has_char find_entry
resolve_name none name = local_target
resolve_name (some i) name =
    if has_char 58 name then local_target else entry_or_local (find_entry i name)

-- An address, a name after a sign, or neither.
unfoldable pub resolve_other : Option Inventory → Text → Text × Option Text
unfolding is_ip resolve_name
resolve_other i [] = local_target
resolve_other i (c ∷ s) =
    if is_ip (c ∷ s) then (c ∷ s, none) else if c == 64 then resolve_name i s else local_target

abbrev pub found_or : Option (Text × Option Text) → Text × Option Text → Text × Option Text
found_or (some r) other = r
found_or none other = other

unfoldable pub resolve_target : Option Inventory → Text → Text × Option Text
unfolding lower one_of user_at_host resolve_other
resolve_target i s =
    if one_of (lower s) local_names
    then local_target
    else found_or (user_at_host s) (resolve_other i s)

module _ {W : Type 0} (i : Inventory) (specialist : Specialist W) where
  unfoldable pub delegate_diagnostic : (target task : Text) → Exec (State W) DelegationResult
  unfolding resolve_target run_specialist_with_retry
  delegate_diagnostic target task =
      let r = resolve_target (some i) target in
      run_specialist_with_retry specialist diagnostic r.0 r.1 task

  unfoldable pub delegate_execution : (target task : Text) → Exec (State W) DelegationResult
  unfolding resolve_target run_specialist_with_retry
  delegate_execution target task =
      let r = resolve_target (some i) target in
      run_specialist_with_retry specialist execution r.0 r.1 task

-- The target is passed on as it is.
unfoldable pub delegate_security :
    {W : Type 0} → Specialist W → (target task : Text) → Exec (State W) DelegationResult
unfolding run_specialist_once
delegate_security specialist target task = run_specialist_once specialist security target none task

unfoldable pub delegate_query :
    {W : Type 0} → Specialist W → (question : Text) → Exec (State W) DelegationResult
unfolding run_specialist_once
delegate_query specialist question =
    run_specialist_once specialist query (codes "local") none question
