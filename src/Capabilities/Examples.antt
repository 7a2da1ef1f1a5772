-- ===== src/Capabilities/Examples.antt =====
-- Runs of the capability cache.
use merlya.Common.{ℕ, ◌≡◌, refl, String, none, some, List, [], ◌∷◌, arith}
use merlya.Common.Dict.{lookup, insert, delete}
use merlya.Capabilities.{
  HostCapabilities, Op, get, set, invalidate, cleanup, get_host, run, step, set_host, stamp,
  is_expired, new, cleanup_expired, drop_expired, invalidate_host,
}
use merlya.Capabilities.Refinement.{latest, fresh, run-Refines, new-Refines}

-- What was detected is a list of tools.
abbrev caps : String → ℕ → HostCapabilities (List String)
caps h ttl = record { host_name = h; detected = "docker" ∷ []; cached_at = 0; ttl_seconds = ttl }

abbrev ops : List (ℕ × Op (List String))
ops =
    (10, set (caps "web" 0))
    ∷ (20, set (caps "db" 5))
    ∷ (26, cleanup)
    ∷ (30, get "web")
    ∷ (40, invalidate "mail")
    ∷ []

default_ttl_used :
    (get_host "web" 110 (run ops (new 100))).0 ≡ some (record (caps "web" 100) { cached_at = 10 })
unfolding get_host run step set_host stamp is_expired cleanup_expired drop_expired invalidate_host
    lookup insert delete
default_ttl_used = refl

run-Refines_example :
    (get_host "db" 50 (run ops (new 100))).0 ≡ fresh 50 (latest 100 ops (λ j. none) "db")
run-Refines_example =
    run-Refines 0 50 ops (new 100) (λ j. none) "db"
      (omega arith, (omega arith, (omega arith, (omega arith, (omega arith, omega arith)))))
      (new-Refines 100 0)
