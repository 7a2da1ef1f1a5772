-- ===== src/Agent/History/Pairing.antt =====
-- When the calls and returns of a conversation fit together.
use merlya.Common.{ℕ, zero, suc, ◌≡◌, ◌↔◌, String, true, ◌||◌, List, [], ◌∷◌, drop, arith}
use merlya.Common.Names.{
  Names, member, difference, empty, member-append, member-difference, empty-member, witness-empty,
}
use merlya.Agent.History.{Message, calls, returns, call_ids, return_ids, validate_tool_pairing}

abbrev pub Included : Names → Names → Type 0
Included xs ys = (k : String) → member k xs ≡ true → member k ys ≡ true

-- No message returns a call that no message makes.
abbrev pub NoOrphans : List Message → Type 0
NoOrphans ms = Included (return_ids ms) (call_ids ms)

-- Each message's returns answer calls of the message before it; `prev` are the calls of the message
-- before the first.
abbrev pub WellPaired : Names → List Message → Type 0
WellPaired prev [] = Unit
WellPaired prev (m ∷ ms) = Included (returns m) prev × WellPaired (calls m) ms

difference-Included : (xs ys : Names) → (empty (difference xs ys) ≡ true) ↔ Included xs ys
difference-Included xs ys = (
  (λ h k m. ground (arith, member-difference k xs ys, empty-member (difference xs ys) h k, m)),
  λ f. witness-empty (difference xs ys) (λ k. ground (arith, member-difference k xs ys, f k)),
)

-- A conversation is accepted exactly if every call id has a return and every return a call.
pub validate_tool_pairing_iff :
    (ms : List Message)
    → (validate_tool_pairing ms ≡ true)
      ↔ (Included (call_ids ms) (return_ids ms) × Included (return_ids ms) (call_ids ms))
unfolding validate_tool_pairing
validate_tool_pairing_iff ms = ground (
  arith,
  difference-Included (call_ids ms) (return_ids ms),
  difference-Included (return_ids ms) (call_ids ms),
)

pub WellPaired-returns :
    (prev : Names) (ms : List Message) (k : String)
    → WellPaired prev ms
    → member k (return_ids ms) ≡ true
    → (member k prev || member k (call_ids ms)) ≡ true
unfolding return_ids call_ids
WellPaired-returns prev [] k w h = ground (arith, h)
WellPaired-returns prev (m ∷ ms) k (w, ws) h = ground (
  arith,
  member-append k (returns m) (return_ids ms),
  member-append k (calls m) (call_ids ms),
  WellPaired-returns (calls m) ms k ws,
  w k,
)

pub WellPaired-drop :
    (prev : Names) (i : ℕ) (ms : List Message)
    → WellPaired prev ms
    → (p : Names) × WellPaired p (drop i ms)
WellPaired-drop prev zero ms w = (prev, w)
WellPaired-drop prev (suc i) [] w = (prev, w)
WellPaired-drop prev (suc i) (m ∷ ms) (_, ws) = WellPaired-drop (calls m) i ms ws
