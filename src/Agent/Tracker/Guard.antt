-- ===== src/Agent/Tracker/Guard.antt =====
-- What the check before each call keeps from happening.
use mathlib.Core.Path.{subst}
use mathlib.Core.List.{append-nil, append_assoc}
use merlya.Common.{
  ℕ, zero, suc, ◌-◌, ◌≤◌, ◌<◌, ◌≡◌, ◌≢◌, ◌∙◌, refl, sym, ap, Option, none, some, List, [], ◌∷◌,
  ◌++◌, length, drop, leb, if◌then◌else◌, arith, All, length-append, Option-cases, inl, inr,
}
use merlya.Common.Text.{Text, text_eq_refl}
use merlya.Agent.Tracker.Fingerprint.{fingerprint, get_command_category, category_key}
use merlya.Agent.Tracker.Counts.{
  occurrences, prints, category_keys, Agrees, record_call-Agrees, new-Agrees,
}
use merlya.Agent.Tracker.{
  texts_eq, Counts, count, increment, ToolCallTracker, new, record_call, Loop, last, halves,
  category_overused, would_loop, over_count, is_looping, guarded_call, max_same_fingerprint,
  max_category_commands, max_total_calls_session, pattern_window_size, count_category,
}

abbrev AtMost : ℕ → Counts → Type 0
AtMost n d = All (λ e. e.1 ≤ n) d

increment-AtMost :
    (n : ℕ) (k : Text) (d : Counts) → 1 ≤ n → AtMost n d → count k d < n → AtMost n (increment k d)
unfolding count increment
increment-AtMost n k [] p h l = (p, tt)
increment-AtMost n k ((j, m) ∷ d) p (a, h) l = ground (arith, a, h, l, increment-AtMost n k d p h)

over_count-AtMost : (d : Counts) → AtMost max_same_fingerprint d → over_count d ≡ none
unfolding over_count
over_count-AtMost [] h = refl
over_count-AtMost ((j, m) ∷ d) (a, h) = ground (arith, a, over_count-AtMost d h)

drop-append : (n : ℕ) (xs ys : List Text) → n ≤ length xs → drop n (xs ++ ys) ≡ drop n xs ++ ys
drop-append zero xs ys h = refl
drop-append (suc n) [] ys h = absurd (omega arith)
drop-append (suc n) (x ∷ xs) ys h = drop-append n xs ys (omega arith)

abbrev pattern_check : List Text → Option Loop
pattern_check fps =
    if leb pattern_window_size (length fps) then halves (last pattern_window_size fps) else none

-- What the tracker has counted is within the limits, and its last six calls make no pattern.
record WithinLimits (t : ToolCallTracker) : Type 0 where
  total : t.total_calls ≤ max_total_calls_session
  same : AtMost max_same_fingerprint t.fingerprint_counts
  category : AtMost max_category_commands t.category_counts
  pattern_free : pattern_check t.fingerprints ≡ none

not_looping : (t : ToolCallTracker) → WithinLimits t → is_looping t ≡ none
unfolding is_looping
not_looping t w =
    ground (arith, w.total, w.pattern_free, over_count-AtMost t.fingerprint_counts w.same)

category-AtMost :
    (host : Text) (c : Option Text) (d : Counts)
    → AtMost max_category_commands d
    → category_overused host c d ≡ none
    → AtMost max_category_commands (count_category host c d)
category-AtMost host none d h o = h
category-AtMost host (some c) d h o =
    increment-AtMost max_category_commands (category_key host c) d (omega arith) h
      (ground (arith, o))

last-append :
    (xs : List Text) (x : Text) → 5 ≤ length xs → last 6 (xs ++ (x ∷ [])) ≡ last 5 xs ++ (x ∷ [])
last-append xs x h =
    let e : length (xs ++ (x ∷ [])) - 6 ≡ length xs - 5 =
      omega (arith, length-append xs (x ∷ [])) in
    rw e (drop-append (length xs - 5) xs (x ∷ []) (omega arith))

record_call-WithinLimits :
    (host command : Text) (t : ToolCallTracker)
    → WithinLimits t
    → would_loop host command t ≡ none
    → WithinLimits (record_call host command t)
unfolding would_loop record_call
record_call-WithinLimits host command t w h = record {
  total = ground (arith, h);
  same =
      increment-AtMost max_same_fingerprint (fingerprint host command) t.fingerprint_counts
        (omega arith) w.same (ground (arith, h));
  category =
      category-AtMost host (get_command_category command) t.category_counts w.category
        (ground (arith, h));
  pattern_free = ground (
    arith,
    h,
    length-append t.fingerprints (fingerprint host command ∷ []),
    last-append t.fingerprints (fingerprint host command),
  );
}

guarded_call-WithinLimits :
    (call : Text × Text) (t : ToolCallTracker) → WithinLimits t → WithinLimits (guarded_call call t)
unfolding guarded_call
guarded_call-WithinLimits (host, command) t w = elim (Option-cases (would_loop host command t)) [
  | inl h ↦ rw h (record_call-WithinLimits host command t w h)
  | inr (l, h) ↦ rw h w
]

-- The calls of a run, each asked for first and recorded only if it may run.
unfoldable pub guarded_run : List (Text × Text) → ToolCallTracker → ToolCallTracker
guarded_run [] t = t
guarded_run (call ∷ calls) t = guarded_run calls (guarded_call call t)

new-WithinLimits : WithinLimits new
unfolding new
new-WithinLimits = record { total = omega arith; same = tt; category = tt; pattern_free = refl }

abbrev with_allowed : Option Loop → Text × Text → List (Text × Text) → List (Text × Text)
with_allowed none call rest = call ∷ rest
with_allowed (some l) call rest = rest

-- The calls that may run: the others are refused and leave the tracker as it is.
unfoldable pub allowed : List (Text × Text) → ToolCallTracker → List (Text × Text)
allowed [] t = []
allowed (call ∷ calls) t =
    with_allowed (would_loop call.0 call.1 t) call (allowed calls (guarded_call call t))

guarded_run-WithinLimits :
    (calls : List (Text × Text)) (t : ToolCallTracker)
    → WithinLimits t
    → WithinLimits (guarded_run calls t)
unfolding guarded_run
guarded_run-WithinLimits [] t w = w
guarded_run-WithinLimits (call ∷ calls) t w =
    guarded_run-WithinLimits calls (guarded_call call t) (guarded_call-WithinLimits call t w)

guarded_run-Agrees :
    (calls done : List (Text × Text)) (t : ToolCallTracker)
    → Agrees done t
    → Agrees (done ++ allowed calls t) (guarded_run calls t)
unfolding guarded_run allowed guarded_call
guarded_run-Agrees [] done t a = rw (append-nil done) a
guarded_run-Agrees ((host, command) ∷ calls) done t a =
    elim (Option-cases (would_loop host command t)) [
      | inl h ↦ rw h (
          subst (λ l. Agrees l (guarded_run calls (record_call host command t)))
            (append_assoc done ((host, command) ∷ []) _)
            (guarded_run-Agrees calls (done ++ ((host, command) ∷ [])) (record_call host command t)
              (record_call-Agrees host command done t a)))
      | inr (l, h) ↦ rw h (guarded_run-Agrees calls done t a)
    ]

count-AtMost : (n : ℕ) (k : Text) (d : Counts) → AtMost n d → count k d ≤ n
unfolding count
count-AtMost n k [] h = omega arith
count-AtMost n k ((j, m) ∷ d) h = ground (arith, h.0, count-AtMost n k d h.1)

drop-before : (xs ys : List Text) → drop (length xs) (xs ++ ys) ≡ ys
drop-before [] ys = refl
drop-before (x ∷ xs) ys = drop-before xs ys

-- Six last texts of which three repeat the three before are a pattern.
repeated_lem :
    (before : List Text) (a b c : Text)
    → pattern_check (before ++ (a ∷ b ∷ c ∷ a ∷ b ∷ c ∷ [])) ≢ none
unfolding texts_eq
repeated_lem before a b c h =
    let e : length (before ++ (a ∷ b ∷ c ∷ a ∷ b ∷ c ∷ [])) - 6 ≡ length before =
      omega (arith, length-append before (a ∷ b ∷ c ∷ a ∷ b ∷ c ∷ [])) in
    ground (
      arith,
      h,
      e,
      length-append before (a ∷ b ∷ c ∷ a ∷ b ∷ c ∷ []),
      drop-before before (a ∷ b ∷ c ∷ a ∷ b ∷ c ∷ []),
      text_eq_refl a,
      text_eq_refl b,
      text_eq_refl c,
    )

-- Calls of which there are at most 50, at most 3 with one fingerprint, at most 5 with one category
-- key, and whose last six fingerprints are not three and the same three again.
pub record Limited (done : List (Text × Text)) : Type 0 where
  pub total : length done ≤ 50
  pub same : (k : Text) → occurrences k (prints done) ≤ 3
  pub category : (k : Text) → occurrences k (category_keys done) ≤ 5
  pub no_repeat :
      (before : List Text) (a b c : Text) → prints done ≢ before ++ (a ∷ b ∷ c ∷ a ∷ b ∷ c ∷ [])

Agrees-Limited :
    (done : List (Text × Text)) (t : ToolCallTracker)
    → Agrees done t
    → WithinLimits t
    → Limited done
Agrees-Limited done t a w = record {
  total = omega (arith, a.total, w.total);
  same = λ k. omega (arith, a.counted k, count-AtMost 3 k t.fingerprint_counts w.same);
  category = λ k. omega (arith, a.categories k, count-AtMost 5 k t.category_counts w.category);
  no_repeat = λ before x y z e.
      repeated_lem before x y z (ap pattern_check (sym (a.listed ∙ e)) ∙ w.pattern_free);
}

-- A run from a new tracker that asks would_loop before each call, and records and makes the call
-- only when it may run, never loops: of the calls that are made there are at most 50, at most 3
-- with one fingerprint and at most 5 with one category key (host and category), the last six
-- fingerprints are not three texts and the same three again, and is_looping says False.
pub guarded_run-never_loops :
    (calls : List (Text × Text))
    → Limited (allowed calls new) × (is_looping (guarded_run calls new) ≡ none)
guarded_run-never_loops calls =
    let w = guarded_run-WithinLimits calls new new-WithinLimits in
    (
      Agrees-Limited (allowed calls new) (guarded_run calls new)
          (guarded_run-Agrees calls [] new new-Agrees) w,
      not_looping (guarded_run calls new) w,
    )
