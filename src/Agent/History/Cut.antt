-- ===== src/Agent/History/Cut.antt =====
-- The search for the message to cut before.
use mathlib.Core.Path.{subst}
use mathlib.Core.Option.{some-injective}
use merlya.Common.{
  ℕ, zero, suc, ◌≤◌, ◌<◌, ◌≡◌, refl, String, false, not, ◌&&◌, ◌||◌, Option, none, some, List, [],
  ◌∷◌, length, take, drop, arith, eq_iff, eq_refl, inl, inr, Option-cases,
}
use merlya.Common.Names.{Names, member, discard, empty, member-append, member-discard}
use merlya.Agent.History.{
  Part, tool_call, tool_return, user_prompt, other_part, Message, response, request, calls, returns,
  call_ids, return_ids, discard_calls, discard_message, get_elem?, move_back,
}
use merlya.Agent.History.Pairing.{Included, NoOrphans, WellPaired, WellPaired-returns}

discard_message-response :
    (o : Option Message) (orphans : Names)
    → discard_message o orphans ≡ none
    → (ps : List Part) × (o ≡ some (response ps))
discard_message-response none orphans h = absurd (ground (arith, h))
discard_message-response (some (request ps)) orphans h = absurd (ground (arith, h))
discard_message-response (some (response ps)) orphans h = (ps, refl)

-- The search stops at a response before the cut.
pub move_back-response :
    (ms : List Message) (n : ℕ) (orphans : Names) {i : ℕ}
    → move_back ms n orphans ≡ some i
    → (i < n) × ((ps : List Part) × (get_elem? ms i ≡ some (response ps)))
unfolding move_back
move_back-response ms zero orphans h = absurd (ground (arith, h))
move_back-response ms (suc n) orphans {i} h =
    elim (Option-cases (discard_message (get_elem? ms n) orphans)) [
      | inl e ↦
          subst (λ j. (j < suc n) × ((ps : List Part) × (get_elem? ms j ≡ some (response ps))))
            (some-injective _ _ (rw e at h)) (omega arith, discard_message-response _ orphans e)
      | inr (o, e) ↦ let (l, p) = move_back-response ms n o (rw e at h) in (omega arith, p)
    ]

pub get_elem?-drop :
    (ms : List Message) (i : ℕ) {m : Message}
    → get_elem? ms i ≡ some m
    → drop i ms ≡ m ∷ drop (suc i) ms
get_elem?-drop [] i h = absurd (ground (arith, h))
get_elem?-drop (x ∷ ms) zero h = ground (arith, h)
get_elem?-drop (x ∷ ms) (suc i) h = get_elem?-drop ms i h

-- In a well paired conversation no suffix that begins with a response has an orphan.
pub response-NoOrphans :
    (prev : Names) (ps : List Part) (ms : List Message)
    → WellPaired prev (response ps ∷ ms)
    → NoOrphans (response ps ∷ ms)
unfolding return_ids call_ids returns
response-NoOrphans prev ps ms (_, w) k h = ground (
  arith,
  member-append k (calls (response ps)) (call_ids ms),
  WellPaired-returns (calls (response ps)) ms k w h,
)

-- What is left of the orphans is not called by the message.
discard_calls-left :
    (ps : List Part) (orphans : Names) (o : Names) (k : String)
    → discard_calls ps orphans ≡ some o
    → (member k o ≡ (member k orphans && not (member k (calls (response ps)))))
      × (empty o ≡ empty orphans)
unfolding calls member
discard_calls-left [] orphans o k h = ground (arith, h)
discard_calls-left (tool_return j ∷ ps) orphans o k h = discard_calls-left ps orphans o k h
discard_calls-left (user_prompt ∷ ps) orphans o k h = discard_calls-left ps orphans o k h
discard_calls-left (other_part ∷ ps) orphans o k h = discard_calls-left ps orphans o k h
discard_calls-left (tool_call j ∷ ps) orphans o k h = ground (
  arith,
  h,
  discard_calls-left ps orphans o k,
  discard_calls-left ps (discard j orphans) o k,
  member-discard k j orphans,
  eq_iff j k,
)

discard_message-left :
    (m : Message) (orphans o : Names) (k : String)
    → discard_message (some m) orphans ≡ some o
    → (member k o ≡ (member k orphans && not (member k (calls m)))) × (empty o ≡ empty orphans)
unfolding calls member
discard_message-left (request ps) orphans o k h = ground (arith, h)
discard_message-left (response ps) orphans o k h = discard_calls-left ps orphans o k h

call_ids-take-suc :
    (ms : List Message) (n : ℕ) (m : Message) (k : String)
    → get_elem? ms n ≡ some m
    → member k (call_ids (take (suc n) ms))
      ≡ (member k (call_ids (take n ms)) || member k (calls m))
unfolding call_ids member
call_ids-take-suc [] n m k h = absurd (ground (arith, h))
call_ids-take-suc (x ∷ ms) zero m k h = ground (arith, h, member-append k (calls x) [])
call_ids-take-suc (x ∷ ms) (suc n) m k h = ground (
  arith,
  member-append k (calls x) (call_ids (take (suc n) ms)),
  member-append k (calls x) (call_ids (take n ms)),
  call_ids-take-suc ms n m k h,
)

pub get_elem?-some :
    (ms : List Message) (n : ℕ) → n < length ms → (m : Message) × (get_elem? ms n ≡ some m)
get_elem?-some [] n l = absurd (omega arith)
get_elem?-some (m ∷ ms) zero l = (m, refl)
get_elem?-some (m ∷ ms) (suc n) l = get_elem?-some ms n (omega arith)

not_Included_nothing : (orphans : Names) → empty orphans ≡ false → Included orphans [] → ⊥
unfolding member
not_Included_nothing [] h f = ground (arith, h)
not_Included_nothing (x ∷ xs) h f = ground (arith, f x, eq_refl x)

-- The search finds the orphans where all of them are called before the cut.
pub move_back-finds :
    (ms : List Message) (n : ℕ) (orphans : Names)
    → n ≤ length ms
    → empty orphans ≡ false
    → Included orphans (call_ids (take n ms))
    → (i : ℕ) × (move_back ms n orphans ≡ some i)
unfolding move_back call_ids
move_back-finds ms zero orphans l h f = absurd (not_Included_nothing orphans h f)
move_back-finds ms (suc n) orphans l h f =
    let (m, g) = get_elem?-some ms n (omega arith) in
    rw g (elim (Option-cases (discard_message (some m) orphans)) [
      | inl e ↦ rw e (n, refl)
      | inr (o, e) ↦ rw e (
          move_back-finds ms n o (omega arith)
            (ground (arith, h, discard_message-left m orphans o "" e))
            (λ k q.
              ground (
                arith,
                q,
                f k,
                discard_message-left m orphans o k e,
                call_ids-take-suc ms n m k g,
              )))
    ])

-- The search stops at once where the message before the cut calls all the orphans.
pub move_back-at_once :
    (ms : List Message) (n : ℕ) (m : Message) (orphans : Names)
    → get_elem? ms n ≡ some m
    → empty orphans ≡ false
    → Included orphans (calls m)
    → move_back ms (suc n) orphans ≡ some n
unfolding move_back
move_back-at_once ms n m orphans g h f =
    rw g (elim (Option-cases (discard_message (some m) orphans)) [
      | inl e ↦ rw e refl
      | inr (o, e) ↦ absurd (
          not_Included_nothing o (ground (arith, h, discard_message-left m orphans o "" e))
            (λ k q. ground (arith, q, f k, discard_message-left m orphans o k e)))
    ])
