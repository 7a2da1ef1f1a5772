-- ===== src/Agent/History.antt =====
-- merlya/agent/history.py: which messages of a conversation are kept. A message is a
-- `ModelResponse` or a `ModelRequest` with its parts; of a part only its kind and its tool call id
-- are read, and an empty or missing id is the empty text.
pub mod Pairing
pub mod Cut
pub mod Limit
use merlya.Common.{
  ℕ, zero, suc, ◌+◌, ◌-◌, ◌≡◌, String, Bool, true, false, not, ◌&&◌, ◌||◌, Option, none, some, List,
  [], ◌∷◌, ◌++◌, length, take, drop, leb, ltb, str_eq, if◌then◌else◌,
}
use merlya.Common.Names.{Names, member, difference, intersection, discard, empty}

pub data Part : Type 0 where
  tool_call : String → Part
  tool_return : String → Part
  user_prompt : Part
  other_part : Part

pub data Message : Type 0 where
  response : List Part → Message
  request : List Part → Message

-- The ids of the parts that are calls and have an id.
abbrev cons_id : String → Names → Names
cons_id k ks = if str_eq k "" then ks else k ∷ ks

abbrev call_parts : List Part → Names
call_parts [] = []
call_parts (tool_call k ∷ ps) = cons_id k (call_parts ps)
call_parts (tool_return k ∷ ps) = call_parts ps
call_parts (user_prompt ∷ ps) = call_parts ps
call_parts (other_part ∷ ps) = call_parts ps

abbrev return_parts : List Part → Names
return_parts [] = []
return_parts (tool_call k ∷ ps) = return_parts ps
return_parts (tool_return k ∷ ps) = cons_id k (return_parts ps)
return_parts (user_prompt ∷ ps) = return_parts ps
return_parts (other_part ∷ ps) = return_parts ps

-- What one message adds to `call_ids` and to `return_ids`.
unfoldable pub calls : Message → Names
calls (response ps) = call_parts ps
calls (request ps) = []

unfoldable pub returns : Message → Names
returns (response ps) = []
returns (request ps) = return_parts ps

unfoldable pub call_ids : List Message → Names
call_ids [] = []
call_ids (m ∷ ms) = calls m ++ call_ids ms

unfoldable pub return_ids : List Message → Names
return_ids [] = []
return_ids (m ∷ ms) = returns m ++ return_ids ms

unfoldable pub validate_tool_pairing : List Message → Bool
validate_tool_pairing ms =
    empty (difference (call_ids ms) (return_ids ms))
    && empty (difference (return_ids ms) (call_ids ms))

-- The inner loop of the search: none once no orphan is left.
abbrev pub discard_calls : List Part → Names → Option Names
discard_calls [] orphans = some orphans
discard_calls (tool_return k ∷ ps) orphans = discard_calls ps orphans
discard_calls (user_prompt ∷ ps) orphans = discard_calls ps orphans
discard_calls (other_part ∷ ps) orphans = discard_calls ps orphans
discard_calls (tool_call k ∷ ps) orphans =
    let rest = discard_calls ps (discard k orphans) in
    let same = discard_calls ps orphans in
    if not (str_eq k "") && member k orphans
    then if empty (discard k orphans) then none else rest
    else same

abbrev pub discard_message : Option Message → Names → Option Names
discard_message none orphans = some orphans
discard_message (some (request ps)) orphans = some orphans
discard_message (some (response ps)) orphans = discard_calls ps orphans

-- messages[i]
abbrev pub get_elem? : List Message → ℕ → Option Message
get_elem? [] i = none
get_elem? (m ∷ ms) zero = some m
get_elem? (m ∷ ms) (suc i) = get_elem? ms i

abbrev pub found_at : ℕ → (Names → Option ℕ) → Option Names → Option ℕ
found_at i rest none = some i
found_at i rest (some orphans) = rest orphans

-- for i in range(n - 1, -1, -1): the index at which the last orphan is found.
unfoldable pub move_back : List Message → ℕ → Names → Option ℕ
move_back ms zero orphans = none
move_back ms (suc i) orphans =
    found_at i (move_back ms i) (discard_message (get_elem? ms i) orphans)

abbrev pub hard_max_history_messages : ℕ
hard_max_history_messages = 200

-- all_orphans, for a cut before message `start`.
unfoldable pub all_orphans : List Message → ℕ → Names
all_orphans ms start =
    intersection (call_ids (take start ms)) (return_ids (drop start ms))
    ++ difference (return_ids (drop start ms)) (call_ids (drop start ms))

abbrev pub or_hard_limit : List Message → Option ℕ → ℕ
or_hard_limit ms (some i) = i
or_hard_limit ms none =
    if ltb hard_max_history_messages (length ms) then length ms - hard_max_history_messages else 0

unfoldable pub find_safe_truncation_point : List Message → ℕ → ℕ
find_safe_truncation_point ms max_messages =
    if leb (length ms) max_messages
    then 0
    else let start = length ms - max_messages in
      if empty (all_orphans ms start)
      then start
      else or_hard_limit ms (move_back ms start (all_orphans ms start))

unfoldable pub limit_history : List Message → ℕ → List Message
limit_history ms max_messages =
    if leb (length ms) max_messages
    then ms
    else drop (find_safe_truncation_point ms max_messages) ms

abbrev count_calls : List Part → ℕ
count_calls [] = 0
count_calls (tool_call k ∷ ps) = suc (count_calls ps)
count_calls (tool_return k ∷ ps) = count_calls ps
count_calls (user_prompt ∷ ps) = count_calls ps
count_calls (other_part ∷ ps) = count_calls ps

unfoldable pub get_tool_call_count : List Message → ℕ
get_tool_call_count [] = 0
get_tool_call_count (response ps ∷ ms) = count_calls ps + get_tool_call_count ms
get_tool_call_count (request ps ∷ ms) = get_tool_call_count ms

abbrev count_prompts : List Part → ℕ
count_prompts [] = 0
count_prompts (user_prompt ∷ ps) = suc (count_prompts ps)
count_prompts (tool_call k ∷ ps) = count_prompts ps
count_prompts (tool_return k ∷ ps) = count_prompts ps
count_prompts (other_part ∷ ps) = count_prompts ps

unfoldable pub get_user_message_count : List Message → ℕ
get_user_message_count [] = 0
get_user_message_count (request ps ∷ ms) = count_prompts ps + get_user_message_count ms
get_user_message_count (response ps ∷ ms) = get_user_message_count ms
