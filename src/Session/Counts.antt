-- ===== src/Session/Counts.antt =====
-- The counts of messages and tokens that a session keeps.
use merlya.Common.{
  ◌+◌, ◌≡◌, refl, Bool, true, false, Option, none, some, List, [], ◌∷◌, ◌++◌, length, length-append,
  leb, ◌==◌, if◌then◌else◌, arith,
}
use merlya.Session.{
  ContextTier, SessionState, Services, Manager, After, or_empty, estimate_tokens, tokens_of,
  new_session, summarized, trigger_summarization, make_room, max_messages_in_memory, append,
  adjusted, should_summarize, add, current, add_message,
}

-- A session that is there.
abbrev pub InSession : {M : Type 0} → (SessionState M → Type 0) → Option (SessionState M) → Type 0
InSession P none = Unit
InSession P (some s) = P s

module _ {M R W : Type 0} (io : Services M R W) where
  -- The counts are those of the messages and the summary.
  abbrev pub IsCounted : SessionState M → Type 0
  IsCounted s =
      (s.message_count ≡ length s.messages)
      × (s.token_count ≡ estimate_tokens io (or_empty s.summary) + tokens_of io s.messages)

  tokens_of-append :
      (ms : List M) (m : M)
      → tokens_of io (ms ++ (m ∷ [])) ≡ tokens_of io ms + estimate_tokens io (io.content m)
  unfolding tokens_of
  tokens_of-append [] m = omega arith
  tokens_of-append (x ∷ ms) m = omega (arith, tokens_of-append ms m)

  summarized-IsCounted :
      (xs ys : List M) (a : After M W) → IsCounted a.0 → IsCounted (summarized io xs ys a).0
  summarized-IsCounted [] ys (s, w) h = h
  summarized-IsCounted (x ∷ xs) ys (s, w) h = (refl, refl)

  trigger-IsCounted : (a : After M W) → IsCounted a.0 → IsCounted (trigger_summarization io a).0
  unfolding trigger_summarization
  trigger-IsCounted (s, w) h = summarized-IsCounted _ _ (s, w) h

  if-IsCounted :
      (b : Bool) (a c : After M W)
      → IsCounted a.0
      → IsCounted c.0
      → IsCounted (if b then a else c).0
  if-IsCounted true a c h g = h
  if-IsCounted false a c h g = g

  pub make_room-IsCounted : (a : After M W) → IsCounted a.0 → IsCounted (make_room io a).0
  unfolding make_room
  make_room-IsCounted (s, w) h =
      if-IsCounted (leb max_messages_in_memory (length s.messages)) _ _ (trigger-IsCounted (s, w) h)
        h

  pub append-IsCounted : (m : M) (s : SessionState M) → IsCounted s → IsCounted (append io m s)
  unfolding append
  append-IsCounted m s (h, g) = (
    omega (arith, h, length-append s.messages (m ∷ [])),
    omega (arith, g, tokens_of-append s.messages m),
  )

  pub adjusted-IsCounted :
      (m : M) (r : Option R) (a : After M W) → IsCounted a.0 → IsCounted (adjusted io m r a).0
  adjusted-IsCounted m none a h = h
  adjusted-IsCounted m (some r) (s, w) h = if-IsCounted (s.message_count == 1) _ _ h h

  pub add-IsCounted :
      (m : M) (r : Option R) (a : After M W) → IsCounted a.0 → IsCounted (add io m r a).0
  unfolding add
  add-IsCounted m r a h =
      let b = make_room io a in
      let c = adjusted io m r (append io m b.0, b.1) in
      let g =
        adjusted-IsCounted m r (append io m b.0, b.1)
          (append-IsCounted m b.0 (make_room-IsCounted a h)) in
      if-IsCounted (should_summarize c.0) _ _ (trigger-IsCounted c g) g

  -- The messages with what the router says of each.
  unfoldable pub add_all : List (M × Option R) → Manager M W → Manager M W
  add_all [] m = m
  add_all ((x, r) ∷ xs) m = add_all xs (add_message io x r m)

  new-IsCounted : (t : ContextTier) (u : Option ContextTier) → IsCounted (new_session t u)
  unfolding new_session estimate_tokens tokens_of
  new-IsCounted t u = (refl, refl)

  pub current-IsCounted :
      (o : Option (SessionState M)) (m : Manager M W)
      → InSession IsCounted o
      → IsCounted (current io o m).0
  current-IsCounted none m h = new-IsCounted m.default_tier none
  current-IsCounted (some s) m h = h

  -- If the counts of the current session, if there is one, are those of its messages and its
  -- summary, this holds after any messages are added, with the summaries and the changes of the tier
  -- that this brings.
  pub add_all-IsCounted :
      (xs : List (M × Option R)) (m : Manager M W)
      → InSession IsCounted m.session
      → InSession IsCounted (add_all xs m).session
  unfolding add_all add_message
  add_all-IsCounted [] m h = h
  add_all-IsCounted ((x, r) ∷ xs) m h =
      add_all-IsCounted xs (add_message io x r m)
        (add-IsCounted x r (current io m.session m) (current-IsCounted m.session m h))
