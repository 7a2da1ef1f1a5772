-- ===== src/Session/Recent.antt =====
-- Which messages a session keeps.
use mathlib.Core.Path.{subst}
use mathlib.Core.List.{append-nil, append_assoc}
use merlya.Common.{
  ◌⊎◌, ℕ, ◌+◌, ◌*◌, ◌≤◌, min, ◌≡◌, refl, sym, ap, ◌∙◌, Bool, true, false, Bool-cases, inl, inr,
  Option, none, some, List, [], ◌∷◌, ◌++◌, length, length-append, length-drop, length-take, take,
  drop, map, leb, ◌==◌, if◌then◌else◌, arith, drop-append, drop-drop,
}
use merlya.Session.{
  ContextTier, minimal, standard, extended, tier_config, SessionState, Services, Manager, After,
  new_session, summarized, trigger_summarization, cut_at, make_room, max_messages_in_memory, append,
  adjusted, summarized_if, should_summarize, add, current, add_message,
}
use merlya.Session.Counts.{
  IsCounted, InSession, add_all, add-IsCounted, current-IsCounted, adjusted-IsCounted,
  append-IsCounted, make_room-IsCounted,
}

module _ {M R W : Type 0} (io : Services M R W) where
  -- The messages are the last ones of those seen, in their order, five at least if there are five,
  -- and no more than the threshold of the tier.
  abbrev pub Keeps : List M → SessionState M → Type 0
  Keeps seen s =
      (k : ℕ) × (k ≤ length seen)
      × (s.messages ≡ drop k seen)
      × (min 5 (length seen) ≤ length s.messages)

  Keeps-nil : (s : SessionState M) → s.messages ≡ [] → Keeps [] s
  Keeps-nil s e = (0, omega arith, e, omega (arith, ap length e))

  cut-Keeps :
      (seen ms : List M) (k : ℕ)
      → k ≤ length seen
      → ms ≡ drop k seen
      → min 5 (length seen) ≤ length ms
      → (k + cut_at ms ≤ length seen)
        × (drop (cut_at ms) ms ≡ drop (k + cut_at ms) seen)
        × (min 5 (length seen) ≤ length (drop (cut_at ms) ms))
  cut-Keeps seen ms k h e g = (
    omega (arith, h, ap length e, length-drop k seen),
    ap (drop (cut_at ms)) e ∙ drop-drop (cut_at ms) k (k + cut_at ms) seen refl,
    omega (arith, g, length-drop (cut_at ms) ms),
  )

  summarized-Keeps :
      (seen xs ys : List M) (a : After M W) (k : ℕ)
      → Keeps seen a.0
      → (k ≤ length seen) × (ys ≡ drop k seen) × (min 5 (length seen) ≤ length ys)
      → Keeps seen (summarized io xs ys a).0
  summarized-Keeps seen [] ys (s, w) k h g = h
  summarized-Keeps seen (x ∷ xs) ys (s, w) k h g = (k, g.0, g.1, g.2)

  trigger-Keeps :
      (seen : List M) (a : After M W) → Keeps seen a.0 → Keeps seen (trigger_summarization io a).0
  unfolding trigger_summarization
  trigger-Keeps seen (s, w) h =
      summarized-Keeps seen _ _ (s, w) (h.0 + cut_at s.messages) h
        (cut-Keeps seen s.messages h.0 h.1 h.2 h.3)

  if-Keeps :
      (seen : List M) (b : Bool) (a c : After M W)
      → Keeps seen a.0
      → Keeps seen c.0
      → Keeps seen (if b then a else c).0
  if-Keeps seen true a c h g = h
  if-Keeps seen false a c h g = g

  make_room-Keeps : (seen : List M) (a : After M W) → Keeps seen a.0 → Keeps seen (make_room io a).0
  unfolding make_room
  make_room-Keeps seen (s, w) h =
      if-Keeps seen (leb max_messages_in_memory (length s.messages)) _ _
        (trigger-Keeps seen (s, w) h) h

  append-Keeps :
      (seen : List M) (m : M) (s : SessionState M)
      → Keeps seen s
      → Keeps (seen ++ (m ∷ [])) (append io m s)
  unfolding append
  append-Keeps seen m s (k, h, e, g) = (
    k,
    omega (arith, h, length-append seen (m ∷ [])),
    ap (λ xs. xs ++ (m ∷ [])) e ∙ sym (drop-append k seen (m ∷ []) h),
    omega (arith, g, length-append seen (m ∷ []), length-append s.messages (m ∷ [])),
  )

  adjusted-Keeps :
      (seen : List M) (m : M) (r : Option R) (a : After M W)
      → Keeps seen a.0
      → Keeps seen (adjusted io m r a).0
  adjusted-Keeps seen m none a h = h
  adjusted-Keeps seen m (some r) (s, w) h = if-Keeps seen (s.message_count == 1) _ _ h h

  add-Keeps :
      (seen : List M) (m : M) (r : Option R) (a : After M W)
      → Keeps seen a.0
      → Keeps (seen ++ (m ∷ [])) (add io m r a).0
  unfolding add
  add-Keeps seen m r a h =
      let b = make_room io a in
      let c = adjusted io m r (append io m b.0, b.1) in
      let g =
        adjusted-Keeps (seen ++ (m ∷ [])) m r (append io m b.0, b.1)
          (append-Keeps seen m b.0 (make_room-Keeps seen a h)) in
      if-Keeps (seen ++ (m ∷ [])) (should_summarize c.0) _ _ (trigger-Keeps (seen ++ (m ∷ [])) c g)
        g

  -- No more messages than the threshold of the tier allows, and no more tokens, unless the session
  -- has just been cut down to five messages at most.
  abbrev pub Small : SessionState M → Type 0
  Small s =
      (100 * length s.messages
        ≤ (tier_config s.tier).summarize_threshold * (tier_config s.tier).max_messages)
      × ((100 * s.token_count
            ≤ (tier_config s.tier).summarize_threshold * (tier_config s.tier).max_tokens)
          ⊎ (length s.messages ≤ 5))

  room_for_five :
      (t : ContextTier) → 500 ≤ (tier_config t).summarize_threshold * (tier_config t).max_messages
  room_for_five minimal = omega arith
  room_for_five standard = omega arith
  room_for_five extended = omega arith

  summarized-short :
      (xs ys : List M) (a : After M W)
      → length ys ≤ 5
      → (length xs ≡ 0 → length a.0.messages ≤ 5)
      → length (summarized io xs ys a).0.messages ≤ 5
  summarized-short [] ys (s, w) h g = g refl
  summarized-short (x ∷ xs) ys (s, w) h g = h

  trigger-short : (a : After M W) → length (trigger_summarization io a).0.messages ≤ 5
  unfolding trigger_summarization
  trigger-short (s, w) =
      summarized-short (take (cut_at s.messages) s.messages) (drop (cut_at s.messages) s.messages)
        (s, w) (omega (arith, length-drop (cut_at s.messages) s.messages))
        (λ e. omega (arith, e, length-take (cut_at s.messages) s.messages))

  summarized_if-Small :
      (a : After M W) → IsCounted io a.0 → Small (summarized_if io (should_summarize a.0) a).0
  unfolding should_summarize
  summarized_if-Small a h = elim (Bool-cases (should_summarize a.0)) [
    | inl t ↦ rw t (short-Small (trigger_summarization io a).0 (trigger-short a))
    | inr t ↦ rw t (fits t)
  ]
    where
      short-Small : (s : SessionState M) → length s.messages ≤ 5 → Small s
      short-Small s l = (omega (arith, l, room_for_five s.tier), inr l)

      fits : should_summarize a.0 ≡ false → Small a.0
      fits t = (ground (arith, t, h.0), inl (ground (arith, t)))

  add-Small : (m : M) (r : Option R) (a : After M W) → IsCounted io a.0 → Small (add io m r a).0
  unfolding add
  add-Small m r a h =
      summarized_if-Small (adjusted io m r (append io m (make_room io a).0, (make_room io a).1)) (
        adjusted-IsCounted io m r (append io m (make_room io a).0, (make_room io a).1)
          (append-IsCounted io m (make_room io a).0 (make_room-IsCounted io a h)))

  -- What is known of a session after these messages; there is none before the first one.
  HasSeen : List M → Option (SessionState M) → Type 0
  HasSeen seen none = seen ≡ []
  HasSeen seen (some s) = IsCounted io s × (Keeps seen s × Small s)

  current-HasSeen :
      (seen : List M) (o : Option (SessionState M)) (m : Manager M W)
      → HasSeen seen o
      → IsCounted io (current io o m).0 × Keeps seen (current io o m).0
  unfolding HasSeen new_session
  current-HasSeen seen none m e =
      (current-IsCounted io none m tt, (0, omega arith, sym e, omega (arith, ap length e)))
  current-HasSeen seen (some s) m (h, (g, l)) = (h, g)

  add_all-HasSeen :
      (xs : List (M × Option R)) (seen : List M) (m : Manager M W)
      → HasSeen seen m.session
      → HasSeen (seen ++ map (λ x. x.0) xs) (add_all io xs m).session
  unfolding add_all add_message HasSeen
  add_all-HasSeen [] seen m h = rw (append-nil seen) h
  add_all-HasSeen ((x, r) ∷ xs) seen m h =
      let c = current io m.session m in
      let g = current-HasSeen seen m.session m h in
      subst (λ ys. HasSeen ys (add_all io xs (add_message io x r m)).session)
        (append_assoc seen (x ∷ []) (map (λ x. x.0) xs))
        (add_all-HasSeen xs (seen ++ (x ∷ [])) (add_message io x r m)
          (add-IsCounted io x r c g.0, (add-Keeps seen x r c g.1, add-Small x r c g.0)))

  -- If there is no session at first, then after any messages are added the session, if there is one,
  -- keeps the last of them in their order, five at least if there were five; and it keeps no more
  -- than the share of the tier's messages at which it summarizes, and no more than that share of
  -- the tier's tokens unless it keeps five messages at most.
  pub add_all-Keeps :
      (xs : List (M × Option R)) (m : Manager M W)
      → m.session ≡ none
      → InSession (λ s. Keeps (map (λ x. x.0) xs) s × Small s) (add_all io xs m).session
  unfolding HasSeen
  add_all-Keeps xs m e =
      known (add_all io xs m).session
        (add_all-HasSeen xs [] m (subst (λ o. HasSeen [] o) (sym e) refl))
    where
      known :
          (o : Option (SessionState M))
          → HasSeen (map (λ x. x.0) xs) o
          → InSession (λ s. Keeps (map (λ x. x.0) xs) s × Small s) o
      known none h = tt
      known (some s) (h, g) = g
