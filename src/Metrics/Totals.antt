-- ===== src/Metrics/Totals.antt =====
-- What the counters count.
use merlya.Common.{
  ℕ, ◌+◌, ◌≡◌, refl, String, Bool, true, false, List, [], ◌∷◌, str_eq, eq_iff, if◌then◌else◌, arith,
}
use merlya.Common.Dict.{lookup-insert}
use merlya.Metrics.{
  Labels, Counter, label_key, count_at, inc, get, Registry, counter, count, time, track_command,
  track_ssh_duration, track_llm_call, track_pipeline_execution, Tracked, command, ssh, llm,
  pipeline, track, track_all,
}

-- The same counter of the same metric: both without labels, or with one label text.
abbrev pub same_labels : Labels → Labels → Bool
same_labels [] [] = true
same_labels [] (l ∷ ls) = false
same_labels (k ∷ ks) [] = false
same_labels (k ∷ ks) (l ∷ ls) = str_eq (label_key (k ∷ ks)) (label_key (l ∷ ls))

-- The sum of the amounts counted with these labels.
unfoldable pub total : Labels → List (ℕ × Labels) → ℕ
total ls [] = 0
total ls ((n, ks) ∷ is) = let rest = total ls is in if same_labels ks ls then n + rest else rest

unfoldable pub inc_all : List (ℕ × Labels) → Counter → Counter
inc_all [] c = c
inc_all ((n, ks) ∷ is) c = inc_all is (inc n ks c)

get-inc :
    (n : ℕ) (ks ls : Labels) (c : Counter)
    → get ls (inc n ks c) ≡ (if same_labels ks ls then n + get ls c else get ls c)
unfolding get inc
get-inc n [] [] c = omega arith
get-inc n [] (l ∷ ls) c = refl
get-inc n (k ∷ ks) [] c = refl
get-inc n (k ∷ ks) (l ∷ ls) c = ground (
  arith,
  eq_iff (label_key (k ∷ ks)) (label_key (l ∷ ls)),
  lookup-insert (label_key (k ∷ ks)) (label_key (l ∷ ls))
      (count_at (label_key (k ∷ ks)) c.labels + n) c.labels,
)

-- After any increments a counter reads, for each set of labels, what it read before and the sum of
-- the amounts whose labels have the same text; increments with labels leave its own value alone.
pub get-inc_all :
    (is : List (ℕ × Labels)) (ls : Labels) (c : Counter)
    → get ls (inc_all is c) ≡ get ls c + total ls is
unfolding inc_all total
get-inc_all [] ls c = omega arith
get-inc_all ((n, ks) ∷ is) ls c = ground (arith, get-inc_all is ls (inc n ks c), get-inc n ks ls c)

AllZero : Registry → Type 0
AllZero s = (name : String) → (counter name s).value ≡ 0

count-AllZero :
    (name : String) (l : String × String) (ls : Labels) (s : Registry)
    → AllZero s
    → AllZero (count name 1 (l ∷ ls) s)
unfolding AllZero count inc
count-AllZero name l ls s h k = ground (
  arith,
  h k,
  h name,
  eq_iff name k,
  lookup-insert name k (inc 1 (l ∷ ls) (counter name s)) s.counters,
)

time-AllZero : (name : String) (d : ℕ) (s : Registry) → AllZero s → AllZero (time name d s)
unfolding AllZero time
time-AllZero name d s h k = h k

track-AllZero : (t : Tracked) (s : Registry) → AllZero s → AllZero (track t s)
unfolding track track_command track_ssh_duration track_llm_call track_pipeline_execution
track-AllZero (command c st) s h = count-AllZero _ _ _ s h
track-AllZero (ssh d host st) s h = count-AllZero _ _ _ _ (time-AllZero _ d s h)
track-AllZero (llm p m d n st) s h =
    count-AllZero _ _ _ _ (time-AllZero _ d _ (count-AllZero _ _ _ s h))
track-AllZero (pipeline p d st) s h = time-AllZero _ d _ (count-AllZero _ _ _ s h)

-- If the value that each counter has without labels is 0, it stays 0 whatever the program records.
pub totals_stay_zero :
    (ts : List Tracked) (s : Registry)
    → ((name : String) → (counter name s).value ≡ 0)
    → (name : String) → (counter name (track_all ts s)).value ≡ 0
unfolding track_all AllZero
totals_stay_zero [] s h = h
totals_stay_zero (t ∷ ts) s h = totals_stay_zero ts (track t s) (track-AllZero t s h)
