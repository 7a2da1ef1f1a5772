-- ===== src/Metrics/Examples.antt =====
-- Runs of the counters and histograms.
use merlya.Common.{ℕ, ◌≡◌, refl, List, [], ◌∷◌}
use merlya.Common.Dict.{lookup}
use merlya.Metrics.{Labels, Histogram, counter, track_all, command, llm, label_key}
use merlya.Metrics.Totals.{totals_stay_zero}

abbrev small : Histogram
small = record { buckets = 5 ∷ []; observations = []; max_observations = 2 }

abbrev of_web : Labels
of_web = ("status", "error") ∷ ("host", "web") ∷ []

abbrev increments : List (ℕ × Labels)
increments = (2, of_web) ∷ (5, []) ∷ (1, ("host", "web") ∷ ("status", "error") ∷ []) ∷ []

label_key_sorted : label_key of_web ≡ "host=web,status=error"
unfolding label_key
label_key_sorted = refl

totals_stay_zero_example :
    (counter "merlya_commands_total" (
      track_all
        (command "ssh" "success" ∷ llm "p" "m" 3 100 "error" ∷ [])
        (record { counters = []; histograms = [] }))).value
    ≡ 0
unfolding lookup
totals_stay_zero_example =
    totals_stay_zero (command "ssh" "success" ∷ llm "p" "m" 3 100 "error" ∷ [])
      (record { counters = []; histograms = [] }) (λ name. refl) "merlya_commands_total"
