-- ===== src/Agent/Tracker.antt =====
-- merlya/agent/tracker.py: loop detection on the tool calls of a run. The regular expressions, all
-- of them prefixes of words and white space, are written out as functions on the text; the reason
-- that a check returns beside True is a value of `Loop`, and `none` stands for (False, ""). The
-- callback of the user interface and `get_summary` are left out.
pub mod Fingerprint
pub mod Counts
pub mod Guard
use merlya.Common.{
  ℕ, suc, ◌+◌, ◌-◌, ◌/◌, ◌≡◌, Bool, true, false, not, ◌&&◌, ◌||◌, Option, none, some, List, [], ◌∷◌,
  ◌++◌, length, take, drop, leb, ltb, ◌==◌, if◌then◌else◌,
}
use merlya.Common.Text.{Text, lower, strip, text_eq}
use merlya.Agent.Tracker.Fingerprint.{fingerprint, get_command_category, category_key}

abbrev pub max_same_fingerprint : ℕ
max_same_fingerprint = 3

abbrev pub pattern_window_size : ℕ
pattern_window_size = 6

abbrev pub max_category_commands : ℕ
max_category_commands = 5

abbrev pub max_total_calls_session : ℕ
max_total_calls_session = 50

abbrev pub Counts : Type 0
Counts = List (Text × ℕ)

-- counts.get(k, 0)
unfoldable pub count : Text → Counts → ℕ
count k [] = 0
count k ((j, n) ∷ d) = if text_eq j k then n else count k d

-- counts[k] = counts.get(k, 0) + 1
unfoldable pub increment : Text → Counts → Counts
increment k [] = (k, 1) ∷ []
increment k ((j, n) ∷ d) =
    let rest = increment k d in if text_eq j k then (j, n + 1) ∷ d else (j, n) ∷ rest

pub record ToolCallTracker : Type 0 where
  pub total_calls : ℕ
  pub fingerprints : List Text
  pub fingerprint_counts : Counts
  pub category_counts : Counts

unfoldable pub new : ToolCallTracker
new = record { total_calls = 0; fingerprints = []; fingerprint_counts = []; category_counts = [] }

abbrev pub count_category : Text → Option Text → Counts → Counts
count_category host none d = d
count_category host (some c) d = increment (category_key host c) d

unfoldable pub record_call : Text → Text → ToolCallTracker → ToolCallTracker
record_call host command t = record {
  total_calls = t.total_calls + 1;
  fingerprints = t.fingerprints ++ (fingerprint host command ∷ []);
  fingerprint_counts = increment (fingerprint host command) t.fingerprint_counts;
  category_counts = count_category host (get_command_category command) t.category_counts;
}

-- Why a check says True.
pub data Loop : Type 0 where
  session_limit : ℕ → Loop
  same_command : ℕ → Text → Loop
  same_category : Text → ℕ → Loop
  repeating_pattern : List Text → Loop

-- xs[-n:]
abbrev pub last : ℕ → List Text → List Text
last n xs = drop (length xs - n) xs

unfoldable pub texts_eq : List Text → List Text → Bool
texts_eq [] [] = true
texts_eq [] (_ ∷ _) = false
texts_eq (_ ∷ _) [] = false
texts_eq (s ∷ ss) (t ∷ ts) = text_eq s t && texts_eq ss ts

-- first_half == second_half
abbrev pub halves : List Text → Option Loop
halves window =
    if texts_eq (take (pattern_window_size / 2) window) (drop (pattern_window_size / 2) window)
    then some (repeating_pattern (take (pattern_window_size / 2) window))
    else none

-- The test that runs when the ones before it return nothing.
infixr 4 ◌orelse◌
abbrev pub ◌orelse◌ : Option Loop → Option Loop → Option Loop
(some l) orelse m = some l
none orelse m = m

abbrev pub category_overused : Text → Option Text → Counts → Option Loop
category_overused host none d = none
category_overused host (some c) d =
    if leb max_category_commands (count (category_key host c) d)
    then some (same_category c (count (category_key host c) d))
    else none

unfoldable pub would_loop : Text → Text → ToolCallTracker → Option Loop
would_loop host command t =
    (if leb max_total_calls_session t.total_calls then some (session_limit t.total_calls) else none)
    orelse (if leb max_same_fingerprint (count (fingerprint host command) t.fingerprint_counts)
        then some (
            same_command (count (fingerprint host command) t.fingerprint_counts)
              (fingerprint host command))
        else none)
    orelse category_overused host (get_command_category command) t.category_counts
    orelse (if leb (pattern_window_size - 1) (length t.fingerprints)
        then halves
            (last (pattern_window_size - 1) t.fingerprints ++ (fingerprint host command ∷ []))
        else none)

-- for fp, count in fingerprint_counts.items()
unfoldable pub over_count : Counts → Option Loop
over_count [] = none
over_count ((fp, n) ∷ d) =
    if ltb max_same_fingerprint n then some (same_command n fp) else over_count d

unfoldable pub is_looping : ToolCallTracker → Option Loop
is_looping t =
    (if ltb max_total_calls_session t.total_calls then some (session_limit t.total_calls) else none)
    orelse over_count t.fingerprint_counts
    orelse (if leb pattern_window_size (length t.fingerprints)
        then halves (last pattern_window_size t.fingerprints)
        else none)

abbrev pub record_unless : Option Loop → Text → Text → ToolCallTracker → ToolCallTracker
record_unless none host command t = record_call host command t
record_unless (some l) host command t = t

-- A tool asks `would_loop` first and records the call only if it may run, as `_execute_remote` in
-- merlya/agent/tools/core/ssh.py and the other tools do.
unfoldable pub guarded_call : Text × Text → ToolCallTracker → ToolCallTracker
guarded_call (host, command) t = record_unless (would_loop host command t) host command t

unfoldable pub reset : ToolCallTracker → ToolCallTracker
reset t = new
