-- ===== src/Agent/Tracker/Counts.antt =====
-- What the counts of the tracker say of the calls.
use mathlib.Core.List.{append-nil, append_assoc}
use merlya.Common.{
  ℕ, suc, ◌≡◌, refl, sym, ap, Option, none, some, List, [], ◌∷◌, ◌++◌, length, if◌then◌else◌, arith,
  length-append,
}
use merlya.Common.Text.{Text, text_eq, text_eq_sound, text_eq_refl}
use merlya.Agent.Tracker.Fingerprint.{fingerprint, get_command_category, category_key}
use merlya.Agent.Tracker.{
  Counts, count, increment, ToolCallTracker, new, record_call, count_category,
}

-- How often a text is in the list.
unfoldable pub occurrences : Text → List Text → ℕ
occurrences k [] = 0
occurrences k (x ∷ xs) = let rest = occurrences k xs in if text_eq x k then suc rest else rest

text_eq_swap : (s t : Text) → text_eq s t ≡ text_eq t s
unfolding text_eq
text_eq_swap [] [] = refl
text_eq_swap [] (b ∷ t) = refl
text_eq_swap (a ∷ s) [] = refl
text_eq_swap (a ∷ s) (b ∷ t) = ground (arith, text_eq_swap s t)

count-increment :
    (k j : Text) (d : Counts)
    → count k (increment j d) ≡ (if text_eq j k then suc (count k d) else count k d)
unfolding count increment
count-increment k j [] = ground arith
count-increment k j ((i, n) ∷ d) = ground (
  arith,
  count-increment k j d,
  text_eq_sound i j,
  text_eq_sound i k,
  text_eq_sound j k,
  text_eq_refl k,
)

occurrences-append :
    (k x : Text) (xs : List Text)
    → occurrences k (xs ++ (x ∷ []))
      ≡ (if text_eq x k then suc (occurrences k xs) else occurrences k xs)
unfolding occurrences
occurrences-append k x [] = refl
occurrences-append k x (y ∷ ys) = ground (arith, occurrences-append k x ys)

-- The fingerprints of calls, and their category keys.
unfoldable pub prints : List (Text × Text) → List Text
prints [] = []
prints ((host, command) ∷ calls) = fingerprint host command ∷ prints calls

abbrev keys_of : Text → Option Text → List Text
keys_of host none = []
keys_of host (some c) = category_key host c ∷ []

unfoldable pub category_keys : List (Text × Text) → List Text
category_keys [] = []
category_keys ((host, command) ∷ calls) =
    keys_of host (get_command_category command) ++ category_keys calls

prints-append :
    (host command : Text) (calls : List (Text × Text))
    → prints (calls ++ ((host, command) ∷ [])) ≡ prints calls ++ (fingerprint host command ∷ [])
unfolding prints
prints-append host command [] = refl
prints-append host command ((h, c) ∷ calls) =
    ap (λ l. fingerprint h c ∷ l) (prints-append host command calls)

keys-append :
    (host command : Text) (calls : List (Text × Text))
    → category_keys (calls ++ ((host, command) ∷ []))
      ≡ category_keys calls ++ keys_of host (get_command_category command)
unfolding category_keys
keys-append host command [] = append-nil (keys_of host (get_command_category command))
keys-append host command ((h, c) ∷ calls) = rw (keys-append host command calls) (
    sym (
      append_assoc (keys_of h (get_command_category c)) (category_keys calls)
        (keys_of host (get_command_category command))))

count_category-count :
    (k host : Text) (c : Option Text) (d : Counts) (keys : List Text)
    → count k d ≡ occurrences k keys
    → count k (count_category host c d) ≡ occurrences k (keys ++ keys_of host c)
count_category-count k host none d keys h = rw (append-nil keys) h
count_category-count k host (some c) d keys h = ground (
  arith,
  h,
  count-increment k (category_key host c) d,
  occurrences-append k (category_key host c) keys,
)

-- The tracker has recorded just these calls.
pub record Agrees (done : List (Text × Text)) (t : ToolCallTracker) : Type 0 where
  pub total : t.total_calls ≡ length done
  pub listed : t.fingerprints ≡ prints done
  pub counted : (k : Text) → count k t.fingerprint_counts ≡ occurrences k (prints done)
  pub categories : (k : Text) → count k t.category_counts ≡ occurrences k (category_keys done)

pub record_call-Agrees :
    (host command : Text) (done : List (Text × Text)) (t : ToolCallTracker)
    → Agrees done t
    → Agrees (done ++ ((host, command) ∷ [])) (record_call host command t)
unfolding record_call
record_call-Agrees host command done t a = record {
  total = ground (arith, a.total, length-append done ((host, command) ∷ []));
  listed =
      rw (prints-append host command done)
        (ap (λ l. l ++ (fingerprint host command ∷ [])) a.listed);
  counted = λ k. rw (prints-append host command done) (
      ground (
        arith,
        a.counted k,
        count-increment k (fingerprint host command) t.fingerprint_counts,
        occurrences-append k (fingerprint host command) (prints done),
      ));
  categories = λ k. rw (keys-append host command done) (
      count_category-count k host (get_command_category command) t.category_counts
        (category_keys done) (a.categories k));
}

pub new-Agrees : Agrees [] new
unfolding new count occurrences prints category_keys
new-Agrees = record { total = refl; listed = refl; counted = λ k. refl; categories = λ k. refl }
