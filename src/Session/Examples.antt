-- ===== src/Session/Examples.antt =====
-- A session whose messages are texts of one token each; the world is the list of what was summarized.
use merlya.Common.{◌≡◌, refl, String, ◌<>◌, Option, none, some, List, [], ◌∷◌, ◌++◌}
use merlya.Session.{
  minimal, standard, SessionState, Services, Manager, add_message, end_session, or_empty,
  estimate_tokens, tokens_of, new_session, add, make_room, append, should_summarize,
  trigger_summarization,
}
use merlya.Session.Counts.{IsCounted, InSession, add_all, add_all-IsCounted}
use merlya.Session.Recent.{Keeps, Small, add_all-Keeps}

abbrev services : Services String (Unit {0}) (List String)
services = record {
  content = λ m. m;
  encode = λ t. 1;
  summarize = λ ms w. ("summary", w ++ ms);
  predict = λ t r w. (minimal, w);
  persist = none;
}

abbrev idle : Manager String (List String)
idle = record { default_tier = standard; session = none; world = [] }

-- Ten messages, of which the first makes the tier minimal.
abbrev talk : List (String × Option (Unit {0}))
talk =
    ("a", some tt)
    ∷ ("b", none)
    ∷ ("c", none)
    ∷ ("d", none)
    ∷ ("e", none)
    ∷ ("f", none)
    ∷ ("g", none)
    ∷ ("h", none)
    ∷ ("i", none)
    ∷ ("j", none)
    ∷ []

abbrev after_talk : SessionState String
after_talk = record {
  tier = minimal;
  messages = "e" ∷ "f" ∷ "g" ∷ "h" ∷ "i" ∷ "j" ∷ [];
  summary = some "summary";
  token_count = 7;
  message_count = 6;
}

talked : (add_all services talk idle).session ≡ some after_talk
unfolding add_all add_message add should_summarize append make_room new_session estimate_tokens
    trigger_summarization tokens_of
talked = refl

add_all-IsCounted_example : InSession (IsCounted services) (add_all services talk idle).session
add_all-IsCounted_example = add_all-IsCounted services talk idle tt

add_all-Keeps_example :
    InSession
      (λ s.
        Keeps services ("a" ∷ "b" ∷ "c" ∷ "d" ∷ "e" ∷ "f" ∷ "g" ∷ "h" ∷ "i" ∷ "j" ∷ []) s
        × Small services s)
      (add_all services talk idle).session
add_all-Keeps_example = add_all-Keeps services talk idle refl

abbrev joined : List String → String
joined [] = ""
joined (m ∷ ms) = m <> joined ms

-- The summary is the text itself; the world is the summary that was last saved.
abbrev saving : Services String (Unit {0}) (List String)
saving = record services {
  summarize = λ ms w. (joined ms, w);
  persist = some (λ s w. or_empty s.summary ∷ []);
}

-- The summary saved while the session runs, and at its end, when it is replaced.
earlier_summary_is_lost :
    ((add_all saving talk idle).world ≡ "abcd" ∷ [])
    × ((end_session saving (add_all saving talk idle)).1.world ≡ "efghij" ∷ [])
unfolding end_session add_all add_message add should_summarize append make_room new_session
    estimate_tokens trigger_summarization tokens_of
earlier_summary_is_lost = (refl, refl)
