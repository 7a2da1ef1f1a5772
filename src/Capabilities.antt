-- ===== src/Capabilities.antt =====
-- merlya/capabilities/cache.py and the expiry in merlya/capabilities/models.py. What was detected on
-- a host is one value of a type `A`; times and times to live are naturals in one unit, and a
-- record stored in the future has age 0. Each operation is a block under the cache's lock.
pub mod Refinement
mod Examples
use merlya.Common.{
  ℕ, suc, ◌+◌, ◌-◌, ◌≡◌, String, Bool, true, false, Option, none, some, List, [], ◌∷◌, length, ltb,
  ◌==◌, if◌then◌else◌,
}
use merlya.Common.Dict.{Dict, lookup, insert, delete}

pub record HostCapabilities (A : Type 0) : Type 0 where
  pub host_name : String
  pub detected : A
  pub cached_at : ℕ
  pub ttl_seconds : ℕ

pub record LocalCapabilities (A : Type 0) : Type 0 where
  pub detected : A
  pub cached_at : ℕ
  pub ttl_seconds : ℕ

pub record CapabilityCache (A : Type 0) : Type 0 where
  pub host_cache : Dict (HostCapabilities A)
  pub local_cache : Option (LocalCapabilities A)
  pub default_ttl : ℕ

-- An operation on the hosts' part.
pub data Op (A : Type 0) : Type 0 where
  get : String → Op A
  set : HostCapabilities A → Op A
  invalidate : String → Op A
  invalidate_every : Op A
  cleanup : Op A

module _ {A : Type 0} where
  unfoldable pub is_expired : ℕ → HostCapabilities A → Bool
  is_expired now c = ltb c.ttl_seconds (now - c.cached_at)

  abbrev pub local_expired : ℕ → LocalCapabilities A → Bool
  local_expired now c = ltb c.ttl_seconds (now - c.cached_at)

  abbrev pub new : ℕ → CapabilityCache A
  new ttl = record { host_cache = []; local_cache = none; default_ttl = ttl }

  abbrev pub found_host :
      String
      → ℕ
      → Option (HostCapabilities A)
      → CapabilityCache A
      → Option (HostCapabilities A) × CapabilityCache A
  found_host k now none s = (none, s)
  found_host k now (some c) s =
      if is_expired now c
      then (none, record s { host_cache = delete k s.host_cache })
      else (some c, s)

  unfoldable pub get_host :
      String → ℕ → CapabilityCache A → Option (HostCapabilities A) × CapabilityCache A
  get_host k now s = found_host k now (lookup k s.host_cache) s

  -- The time of caching, and the default time to live in place of 0.
  unfoldable pub stamp : ℕ → ℕ → HostCapabilities A → HostCapabilities A
  stamp ttl now c = record c {
    cached_at = now;
    ttl_seconds = if c.ttl_seconds == 0 then ttl else c.ttl_seconds;
  }

  unfoldable pub set_host : ℕ → HostCapabilities A → CapabilityCache A → CapabilityCache A
  set_host now c s = record s {
    host_cache = insert c.host_name (stamp s.default_ttl now c) s.host_cache;
  }

  abbrev pub found_local :
      ℕ
      → Option (LocalCapabilities A)
      → CapabilityCache A
      → Option (LocalCapabilities A) × CapabilityCache A
  found_local now none s = (none, s)
  found_local now (some c) s =
      if local_expired now c then (none, record s { local_cache = none }) else (some c, s)

  unfoldable pub get_local :
      ℕ → CapabilityCache A → Option (LocalCapabilities A) × CapabilityCache A
  get_local now s = found_local now s.local_cache s

  unfoldable pub set_local : ℕ → LocalCapabilities A → CapabilityCache A → CapabilityCache A
  set_local now c s = record s { local_cache = some (record c { cached_at = now }) }

  unfoldable pub invalidate_host : String → CapabilityCache A → CapabilityCache A
  invalidate_host k s = record s { host_cache = delete k s.host_cache }

  unfoldable pub invalidate_all : CapabilityCache A → CapabilityCache A
  invalidate_all s = record s { host_cache = []; local_cache = none }

  unfoldable pub drop_expired : ℕ → Dict (HostCapabilities A) → Dict (HostCapabilities A)
  drop_expired now [] = []
  drop_expired now ((k, c) ∷ d) =
      let rest = drop_expired now d in if is_expired now c then rest else (k, c) ∷ rest

  abbrev pub drop_local : ℕ → Option (LocalCapabilities A) → Option (LocalCapabilities A)
  drop_local now none = none
  drop_local now (some c) = if local_expired now c then none else some c

  abbrev count_local : ℕ → Option (LocalCapabilities A) → ℕ
  count_local now none = 0
  count_local now (some c) = if local_expired now c then 1 else 0

  -- The number of entries removed, and the cache without them.
  unfoldable pub cleanup_expired : ℕ → CapabilityCache A → ℕ × CapabilityCache A
  cleanup_expired now s = (
    (length s.host_cache - length (drop_expired now s.host_cache)) + count_local now s.local_cache,
    record s {
      host_cache = drop_expired now s.host_cache;
      local_cache = drop_local now s.local_cache;
    },
  )

  unfoldable pub size : CapabilityCache A → ℕ
  size s = length s.host_cache

  unfoldable pub step : ℕ → Op A → CapabilityCache A → CapabilityCache A
  step now (get k) s = (get_host k now s).1
  step now (set c) s = set_host now c s
  step now (invalidate k) s = invalidate_host k s
  step now invalidate_every s = invalidate_all s
  step now cleanup s = (cleanup_expired now s).1

  -- Operations with the times at which they run.
  unfoldable pub run : List (ℕ × Op A) → CapabilityCache A → CapabilityCache A
  run [] s = s
  run ((now, o) ∷ ops) s = run ops (step now o s)
