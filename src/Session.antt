-- ===== src/Session.antt =====
-- merlya/session/manager.py, `SessionManager`, with the tiers of merlya/session/context_tier.py and
-- the token counts of merlya/session/token_estimator.py where tiktoken is there. The messages are
-- those of pydantic_ai; the encoder, the summarizer, the prediction of a tier and the database are
-- an interface (`Services`) over a world `W`. Thresholds are per cent. Identifiers and times are
-- left out.
pub mod Counts
pub mod Recent
mod Examples
use merlya.Common.{
  ℕ, zero, suc, ◌+◌, ◌-◌, ◌*◌, min, ◌≡◌, String, ◌<>◌, str_eq, Bool, true, false, ◌||◌, Option,
  none, some, List, [], ◌∷◌, ◌++◌, length, take, drop, ltb, leb, ◌==◌, if◌then◌else◌,
}

pub data ContextTier : Type 0 where
  minimal : ContextTier
  standard : ContextTier
  extended : ContextTier

pub record TierLimits : Type 0 where
  pub max_messages : ℕ
  pub max_tokens : ℕ
  pub summarize_threshold : ℕ

abbrev pub tier_config : ContextTier → TierLimits
tier_config minimal = record { max_messages = 10; max_tokens = 2000; summarize_threshold = 80 }
tier_config standard = record { max_messages = 30; max_tokens = 4000; summarize_threshold = 75 }
tier_config extended = record { max_messages = 100; max_tokens = 8000; summarize_threshold = 70 }

-- The available memory in gigabytes, rounded down.
unfoldable pub from_ram_gb : ℕ → ContextTier
from_ram_gb gb = if leb 8 gb then extended else if leb 4 gb then standard else minimal

abbrev pub max_messages_in_memory : ℕ
max_messages_in_memory = 1000

pub record SessionState (M : Type 0) : Type 0 where
  pub tier : ContextTier
  pub messages : List M
  pub summary : Option String
  pub token_count : ℕ
  pub message_count : ℕ

pub record Services (M R W : Type 0) : Type 0 where
  -- The text of a message.
  pub content : M → String
  -- len(encoder.encode(text))
  pub encode : String → ℕ
  pub summarize : List M → W → String × W
  -- The tier for a text and what the router says of it.
  pub predict : String → R → W → ContextTier × W
  -- The database, if there is one; its errors are logged.
  pub persist : Option (SessionState M → W → W)

pub record Manager (M W : Type 0) : Type 0 where
  pub default_tier : ContextTier
  pub session : Option (SessionState M)
  pub world : W

-- summary or ""
abbrev pub or_empty : Option String → String
or_empty none = ""
or_empty (some t) = t

abbrev or_default : ContextTier → Option ContextTier → ContextTier
or_default t none = t
or_default t (some u) = u

unfoldable pub new_session : {M : Type 0} → ContextTier → Option ContextTier → SessionState M
new_session default_tier tier = record {
  tier = or_default default_tier tier;
  messages = [];
  summary = none;
  token_count = 0;
  message_count = 0;
}

abbrev pub should_summarize_at : TierLimits → ℕ → ℕ → Bool
should_summarize_at l messages tokens =
    ltb (l.summarize_threshold * l.max_messages) (100 * messages)
    || ltb (l.summarize_threshold * l.max_tokens) (100 * tokens)

unfoldable pub should_summarize : {M : Type 0} → SessionState M → Bool
should_summarize s = should_summarize_at (tier_config s.tier) s.message_count s.token_count

abbrev appended : String → String → String
appended old new = if str_eq old "" then new else (old <> "\n\n" <> new)

-- messages[:-keep] and messages[-keep:], for the last five.
abbrev pub cut_at : {M : Type 0} → List M → ℕ
cut_at ms = length ms - min 5 (length ms)

-- The session and the world after an operation.
abbrev pub After : Type 0 → Type 0 → Type 0
After M W = SessionState M × W

module _ {M R W : Type 0} (io : Services M R W) where
  unfoldable pub estimate_tokens : String → ℕ
  estimate_tokens text = if str_eq text "" then 0 else io.encode text

  -- The sum over messages.
  unfoldable pub tokens_of : List M → ℕ
  unfolding estimate_tokens
  tokens_of [] = 0
  tokens_of (m ∷ ms) = estimate_tokens (io.content m) + tokens_of ms

  abbrev saved : Option (SessionState M → W → W) → SessionState M → W → W
  saved none s w = w
  saved (some f) s w = f s w

  unfoldable pub start_session : Option ContextTier → Manager M W → Manager M W
  start_session tier m =
      let s = new_session m.default_tier tier in
      record m { session = some s; world = saved io.persist s m.world }

  -- The session once `to_summarize` is summarized and `to_keep` is kept.
  abbrev pub compacted : String → List M → SessionState M → SessionState M
  compacted summary to_keep s = record s {
    summary = some summary;
    messages = to_keep;
    token_count = estimate_tokens summary + tokens_of to_keep;
    message_count = length to_keep;
  }

  abbrev pub summarized : List M → List M → After M W → After M W
  summarized [] to_keep (s, w) = (s, w)
  summarized (x ∷ xs) to_keep (s, w) =
      let r = io.summarize (x ∷ xs) w in
      let u = compacted (appended (or_empty s.summary) r.0) to_keep s in (u, saved io.persist u r.1)

  unfoldable pub trigger_summarization : After M W → After M W
  trigger_summarization (s, w) =
      summarized (take (cut_at s.messages) s.messages) (drop (cut_at s.messages) s.messages) (s, w)

  -- Room in memory before the message.
  unfoldable pub make_room : After M W → After M W
  make_room (s, w) =
      if leb max_messages_in_memory (length s.messages)
      then trigger_summarization (s, w)
      else (s, w)

  unfoldable pub append : M → SessionState M → SessionState M
  append m s = record s {
    messages = s.messages ++ (m ∷ []);
    message_count = s.message_count + 1;
    token_count = s.token_count + estimate_tokens (io.content m);
  }

  abbrev pub adjusted : M → Option R → After M W → After M W
  adjusted m none a = a
  adjusted m (some r) (s, w) =
      if s.message_count == 1
      then (let p = io.predict (io.content m) r w in (record s { tier = p.0 }, p.1))
      else (s, w)

  abbrev pub summarized_if : Bool → After M W → After M W
  summarized_if b a = if b then trigger_summarization a else a

  -- add_message, on the current session.
  unfoldable pub add : M → Option R → After M W → After M W
  add m r a =
      let b = make_room a in
      let c = adjusted m r (append m b.0, b.1) in summarized_if (should_summarize c.0) c

  abbrev current : Option (SessionState M) → Manager M W → After M W
  current (some s) m = (s, m.world)
  current none m = let s = new_session m.default_tier none in (s, saved io.persist s m.world)

  unfoldable pub add_message : M → Option R → Manager M W → Manager M W
  add_message x r m =
      let a = add x r (current m.session m) in record m { session = some a.0; world = a.1 }

  abbrev ended : Option (SessionState M) → W → Option String × W
  ended none w = (none, w)
  ended (some s) w = final s.messages s w
    where
      final : List M → SessionState M → W → Option String × W
      final [] s w = (none, w)
      final (x ∷ xs) s w =
          let r = io.summarize (x ∷ xs) w in
          (some r.0, saved io.persist (record s { summary = some r.0 }) r.1)

  unfoldable pub end_session : Manager M W → Option String × Manager M W
  end_session m = let r = ended m.session m.world in (r.0, record m { session = none; world = r.1 })
