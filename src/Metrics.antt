-- ===== src/Metrics.antt =====
-- merlya/core/metrics.py: counters with labels, histograms with a sliding window, and the registry.
-- Durations are naturals in one unit; the average and the gauges, which are floats, are left out,
-- and so is the printed summary. Each operation is a block under a lock.
pub mod Window
pub mod Totals
mod Examples
use Prim.Native.String.{compare}
use Prim.Native.Nat.{Ordering}
use merlya.Common.{
  ℕ, suc, ◌+◌, ◌-◌, ◌≡◌, String, ◌<>◌, Bool, true, false, Option, none, some, List, [], ◌∷◌, ◌++◌,
  map, length, drop, ltb, leb, if◌then◌else◌, min, max, str_eq,
}
use merlya.Common.Dict.{Dict, lookup, insert, get_or}

-- Keyword arguments.
abbrev pub Labels : Type 0
Labels = Dict String

pub record Counter : Type 0 where
  pub value : ℕ
  pub labels : Dict ℕ

abbrev pub new_counter : Counter
new_counter = record { value = 0; labels = [] }

abbrev before : String → String → Bool
before a b = elim (compare a b) [ Ordering.gt ↦ false | _ ↦ true ]

-- sorted(labels.items()), whose keys are distinct
unfoldable pub insert_sorted : String × String → Labels → Labels
insert_sorted e [] = e ∷ []
insert_sorted e (f ∷ ls) =
    let rest = insert_sorted e ls in if before e.0 f.0 then e ∷ f ∷ ls else f ∷ rest

unfoldable pub sorted : Labels → Labels
unfolding insert_sorted
sorted [] = []
sorted (e ∷ ls) = insert_sorted e (sorted ls)

-- ",".join(f"{k}={v}" ...)
unfoldable pub join_labels : Labels → String
join_labels [] = ""
join_labels ((k, v) ∷ []) = k <> "=" <> v
join_labels ((k, v) ∷ e ∷ ls) = k <> "=" <> v <> "," <> join_labels (e ∷ ls)

unfoldable pub label_key : Labels → String
unfolding sorted join_labels
label_key ls = join_labels (sorted ls)

abbrev pub count_at : String → Dict ℕ → ℕ
count_at k d = get_or 0 (lookup k d)

unfoldable pub inc : ℕ → Labels → Counter → Counter
inc amount [] c = record c { value = c.value + amount }
inc amount (l ∷ ls) c =
    let k = label_key (l ∷ ls) in
    record c { labels = insert k (count_at k c.labels + amount) c.labels }

unfoldable pub get : Labels → Counter → ℕ
get [] c = c.value
get (l ∷ ls) c = count_at (label_key (l ∷ ls)) c.labels

pub record Histogram : Type 0 where
  pub buckets : List ℕ
  pub observations : List ℕ
  pub max_observations : ℕ

-- xs[-n:], for a positive n
abbrev pub last : {A : Type 0} → ℕ → List A → List A
last n xs = drop (length xs - n) xs

unfoldable pub observe : ℕ → Histogram → Histogram
observe v h =
    let xs = h.observations ++ (v ∷ []) in
    record h {
      observations = if ltb h.max_observations (length xs) then last h.max_observations xs else xs;
    }

unfoldable pub sum : List ℕ → ℕ
sum [] = 0
sum (x ∷ xs) = x + sum xs

unfoldable pub minimum : ℕ → List ℕ → ℕ
minimum m [] = m
minimum m (x ∷ xs) = minimum (min m x) xs

unfoldable pub maximum : ℕ → List ℕ → ℕ
maximum m [] = m
maximum m (x ∷ xs) = maximum (max m x) xs

-- sum(1 for v in observations if v <= bucket)
unfoldable pub at_most : ℕ → List ℕ → ℕ
at_most b [] = 0
at_most b (x ∷ xs) = let rest = at_most b xs in if leb x b then suc rest else rest

pub record Stats : Type 0 where
  pub count : ℕ
  pub total : ℕ
  pub least : ℕ
  pub greatest : ℕ
  pub bucket_counts : List (ℕ × ℕ)

abbrev stats_of : List ℕ → List ℕ → Stats
stats_of buckets [] = record {
  count = 0;
  total = 0;
  least = 0;
  greatest = 0;
  bucket_counts = map (λ b. (b, 0)) buckets;
}
stats_of buckets (x ∷ xs) = record {
  count = length (x ∷ xs);
  total = sum (x ∷ xs);
  least = minimum x xs;
  greatest = maximum x xs;
  bucket_counts = map (λ b. (b, at_most b (x ∷ xs))) buckets;
}

unfoldable pub get_stats : Histogram → Stats
get_stats h = stats_of h.buckets h.observations

pub record Registry : Type 0 where
  pub counters : Dict Counter
  pub histograms : Dict Histogram

-- The default buckets, in hundredths of a second.
abbrev default_buckets : List ℕ
default_buckets = 1 ∷ 5 ∷ 10 ∷ 50 ∷ 100 ∷ 500 ∷ 1000 ∷ 3000 ∷ 6000 ∷ []

abbrev pub new_histogram : Histogram
new_histogram = record { buckets = default_buckets; observations = []; max_observations = 10000 }

-- counter(name) and histogram(name): what is there, or a new one.
abbrev pub counter : String → Registry → Counter
counter name s = get_or new_counter (lookup name s.counters)

abbrev pub histogram : String → Registry → Histogram
histogram name s = get_or new_histogram (lookup name s.histograms)

unfoldable pub count : String → ℕ → Labels → Registry → Registry
count name amount ls s = record s {
  counters = insert name (inc amount ls (counter name s)) s.counters;
}

unfoldable pub time : String → ℕ → Registry → Registry
time name duration s = record s {
  histograms = insert name (observe duration (histogram name s)) s.histograms;
}

unfoldable pub track_command : String → String → Registry → Registry
track_command command_type status =
    count "merlya_commands_total" 1 (("command_type", command_type) ∷ ("status", status) ∷ [])

unfoldable pub track_ssh_duration : ℕ → String → String → Registry → Registry
track_ssh_duration duration host status s =
    count "merlya_ssh_operations_total" 1 (("host", host) ∷ ("status", status) ∷ [])
      (time "merlya_ssh_duration_seconds" duration s)

-- The number of tokens is not used.
unfoldable pub track_llm_call : String → String → ℕ → ℕ → String → Registry → Registry
track_llm_call provider model duration tokens status s =
    count "merlya_llm_tokens_total" 1 (("provider", provider) ∷ ("model", model) ∷ []) (
      time "merlya_llm_duration_seconds" duration (
        count "merlya_llm_calls_total" 1
          (("provider", provider) ∷ ("model", model) ∷ ("status", status) ∷ []) s))

unfoldable pub track_pipeline_execution : String → ℕ → String → Registry → Registry
track_pipeline_execution pipeline_type duration status s =
    time "merlya_pipeline_duration_seconds" duration (
      count "merlya_pipeline_executions" 1
        (("pipeline_type", pipeline_type) ∷ ("status", status) ∷ []) s)

-- What the operations of the program record.
pub data Tracked : Type 0 where
  command : String → String → Tracked
  ssh : ℕ → String → String → Tracked
  llm : String → String → ℕ → ℕ → String → Tracked
  pipeline : String → ℕ → String → Tracked

unfoldable pub track : Tracked → Registry → Registry
track (command c status) = track_command c status
track (ssh d h status) = track_ssh_duration d h status
track (llm p m d n status) = track_llm_call p m d n status
track (pipeline p d status) = track_pipeline_execution p d status

unfoldable pub track_all : List Tracked → Registry → Registry
track_all [] s = s
track_all (t ∷ ts) s = track_all ts (track t s)
