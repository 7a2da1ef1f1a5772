-- ===== src/Agent/History/Limit.antt =====
-- What `limit_history` keeps.
use mathlib.Core.Option.{some-injective}
use merlya.Common.{
  ℕ, zero, suc, ◌-◌, ◌≤◌, ◌≡◌, refl, String, true, false, not, ◌&&◌, ◌||◌, some, List, [], ◌∷◌,
  length, take, drop, arith, leb, inl, inr, Option-cases, Bool-cases, length-drop,
}
use merlya.Common.Names.{
  Names, member, empty, difference, intersection, member-append, member-difference,
  member-intersection, empty-member,
}
use merlya.Agent.History.{
  Part, Message, response, calls, returns, call_ids, return_ids, get_elem?, move_back, all_orphans,
  hard_max_history_messages, find_safe_truncation_point, limit_history,
}
use merlya.Agent.History.Pairing.{
  Included, NoOrphans, WellPaired, WellPaired-returns, WellPaired-drop,
}
use merlya.Agent.History.Cut.{
  move_back-response, move_back-finds, get_elem?-drop, get_elem?-some, response-NoOrphans,
  move_back-at_once,
}

member-all_orphans :
    (ms : List Message) (start : ℕ) (k : String)
    → member k (all_orphans ms start) ≡ (
        member k (return_ids (drop start ms))
        && (member k (call_ids (take start ms)) || not (member k (call_ids (drop start ms)))))
unfolding all_orphans
member-all_orphans ms start k = ground (
  arith,
  member-append k (intersection (call_ids (take start ms)) (return_ids (drop start ms)))
      (difference (return_ids (drop start ms)) (call_ids (drop start ms))),
  member-intersection k (call_ids (take start ms)) (return_ids (drop start ms)),
  member-difference k (return_ids (drop start ms)) (call_ids (drop start ms)),
)

empty-NoOrphans :
    (ms : List Message) (start : ℕ)
    → empty (all_orphans ms start) ≡ true
    → NoOrphans (drop start ms)
empty-NoOrphans ms start h k r =
    ground (arith, r, empty-member (all_orphans ms start) h k, member-all_orphans ms start k)

call_ids-append_drop :
    (ms : List Message) (n : ℕ) (k : String)
    → member k (call_ids ms) ≡ (member k (call_ids (take n ms)) || member k (call_ids (drop n ms)))
unfolding call_ids member
call_ids-append_drop ms zero k = refl
call_ids-append_drop [] (suc n) k = refl
call_ids-append_drop (m ∷ ms) (suc n) k = ground (
  arith,
  member-append k (calls m) (call_ids ms),
  member-append k (calls m) (call_ids (take n ms)),
  call_ids-append_drop ms n k,
)

return_ids-drop :
    (ms : List Message) (n : ℕ) (k : String)
    → member k (return_ids (drop n ms)) ≡ true
    → member k (return_ids ms) ≡ true
unfolding return_ids
return_ids-drop ms zero k h = h
return_ids-drop [] (suc n) k h = h
return_ids-drop (m ∷ ms) (suc n) k h =
    ground (arith, member-append k (returns m) (return_ids ms), return_ids-drop ms n k h)

WellPaired-NoOrphans : (ms : List Message) → WellPaired [] ms → NoOrphans ms
unfolding member
WellPaired-NoOrphans ms w k h = ground (arith, WellPaired-returns [] ms k w h)

-- In a well paired conversation every orphan of a cut is called before it.
orphans-called :
    (ms : List Message) (start : ℕ)
    → WellPaired [] ms
    → Included (all_orphans ms start) (call_ids (take start ms))
orphans-called ms start w k h = ground (
  arith,
  h,
  member-all_orphans ms start k,
  call_ids-append_drop ms start k,
  return_ids-drop ms start k,
  WellPaired-NoOrphans ms w k,
)

response_cut-NoOrphans :
    (ms : List Message) (i : ℕ) (ps : List Part)
    → WellPaired [] ms
    → get_elem? ms i ≡ some (response ps)
    → NoOrphans (drop i ms)
response_cut-NoOrphans ms i ps w g =
    let (p, v) = WellPaired-drop [] i ms w in
    let e = get_elem?-drop ms i g in rw e (response-NoOrphans p ps (drop (suc i) ms) (rw e at v))

-- In a conversation where each message's returns answer calls of the message before it, what
-- limit_history keeps has no return without its call, whatever the limit and the length.
pub limit_history-NoOrphans :
    (ms : List Message) (max_messages : ℕ)
    → WellPaired [] ms
    → NoOrphans (limit_history ms max_messages)
unfolding limit_history find_safe_truncation_point
limit_history-NoOrphans ms max_messages w = elim (Bool-cases (leb (length ms) max_messages)) [
  | inl a ↦ rw a (WellPaired-NoOrphans ms w)
  | inr a ↦ elim (Bool-cases (empty (all_orphans ms (length ms - max_messages)))) [
    | inl b ↦ rw (a, b) (empty-NoOrphans ms (length ms - max_messages) b)
    | inr b ↦
        let (i, e) =
          move_back-finds ms (length ms - max_messages) _ (omega arith) b (orphans-called ms _ w) in
        let (l, (ps, g)) = move_back-response ms (length ms - max_messages) _ e in
        rw (a, b, e) (response_cut-NoOrphans ms i ps w g)
  ]
]

-- What limit_history keeps is a suffix of the conversation, and where the limit is at most the hard
-- limit, the suffix has at least `max_messages` messages or the whole conversation.
pub limit_history-suffix :
    (ms : List Message) (max_messages : ℕ)
    → max_messages ≤ hard_max_history_messages
    → (i : ℕ) × (limit_history ms max_messages ≡ drop i ms) × (i ≤ length ms - max_messages)
unfolding limit_history find_safe_truncation_point
limit_history-suffix ms max_messages h = elim (Bool-cases (leb (length ms) max_messages)) [
  | inl a ↦ rw a (0, refl, omega arith)
  | inr a ↦ elim (Bool-cases (empty (all_orphans ms (length ms - max_messages)))) [
    | inl b ↦ rw (a, b) (length ms - max_messages, refl, omega arith)
    | inr b ↦
        elim (Option-cases
          (move_back ms (length ms - max_messages) (all_orphans ms (length ms - max_messages)))) [
            | inl e ↦ rw (a, b, e) (_, refl, ground (arith, h, a))
            | inr (i, e) ↦
                let (l, _) = move_back-response ms (length ms - max_messages) _ e in
                rw (a, b, e) (i, refl, omega arith)
          ]
  ]
]

-- No id is called on both sides of any cut.
abbrev pub CalledOnce : List Message → Type 0
CalledOnce ms =
    (n : ℕ) (k : String)
    → (member k (call_ids (take n ms)) && member k (call_ids (drop n ms))) ≡ false

last_calls :
    (ms : List Message) (n : ℕ) (m : Message) (prev : Names)
    → WellPaired prev ms
    → get_elem? ms n ≡ some m
    → WellPaired (calls m) (drop (suc n) ms)
last_calls [] n m prev w g = absurd (ground (arith, g))
last_calls (x ∷ ms) zero m prev (_, w) g = rw (some-injective _ _ g) at w
last_calls (x ∷ ms) (suc n) m prev (_, w) g = last_calls ms n m (calls x) w g

orphans-last :
    (ms : List Message) (n : ℕ) (m : Message)
    → WellPaired [] ms
    → CalledOnce ms
    → get_elem? ms n ≡ some m
    → Included (all_orphans ms (suc n)) (calls m)
orphans-last ms n m w d g k h = ground (
  arith,
  h,
  member-all_orphans ms (suc n) k,
  d (suc n) k,
  WellPaired-returns (calls m) (drop (suc n) ms) k (last_calls ms n m [] w g),
)

move_back-last :
    (ms : List Message) (n : ℕ)
    → WellPaired [] ms
    → CalledOnce ms
    → n ≤ length ms
    → empty (all_orphans ms n) ≡ false
    → move_back ms n (all_orphans ms n) ≡ some (n - 1)
move_back-last ms zero w d l h =
    let (i, e) = move_back-finds ms 0 (all_orphans ms 0) l h (orphans-called ms 0 w) in
    let (j, _) = move_back-response ms 0 _ e in absurd (omega arith)
move_back-last ms (suc n) w d l h =
    let (m, g) = get_elem?-some ms n l in
    ground
      (arith, move_back-at_once ms n m (all_orphans ms (suc n)) g h (orphans-last ms n m w d g))

-- In a conversation where each message's returns answer calls of the message before it and no id is
-- called on both sides of a cut, limit_history keeps at most one message more than the limit.
pub limit_history-bound :
    (ms : List Message) (max_messages : ℕ)
    → WellPaired [] ms
    → CalledOnce ms
    → length (limit_history ms max_messages) ≤ suc max_messages
unfolding limit_history find_safe_truncation_point
limit_history-bound ms max_messages w d = elim (Bool-cases (leb (length ms) max_messages)) [
  | inl a ↦ rw a (ground (arith, a))
  | inr a ↦ elim (Bool-cases (empty (all_orphans ms (length ms - max_messages)))) [
    | inl b ↦ rw (a, b) (omega (arith, length-drop (length ms - max_messages) ms))
    | inr b ↦
        let e = move_back-last ms (length ms - max_messages) w d (omega arith) b in
        rw (a, b, e) (omega (arith, length-drop (length ms - max_messages - 1) ms))
  ]
]
