-- ===== src/Capabilities/Refinement.antt =====
-- The cache as a map from names to what was last cached.
use merlya.Common.{
  ℕ, ◌≤◌, ◌≡◌, refl, String, false, Option, none, some, List, [], ◌∷◌, if◌then◌else◌, str_eq,
  eq_iff, arith, ◌∙◌, ap,
}
use merlya.Common.Dict.{
  Dict, lookup, has, insert, delete, lookup-insert, lookup-delete, has-insert, has-delete,
  has-lookup,
}
use merlya.Capabilities.{
  HostCapabilities, CapabilityCache, is_expired, get_host, stamp, set_host, new, invalidate_host,
  invalidate_all, drop_expired, cleanup_expired, Op, get, set, invalidate, invalidate_every,
  cleanup, step, run,
}

-- No key twice.
abbrev pub Unique : {V : Type 0} → Dict V → Type 0
Unique [] = Unit
Unique ((k, v) ∷ d) = (has k d ≡ false) × Unique d

-- The map from names to what was last cached and not invalidated, with no expiry and no cleaning.
abbrev pub Latest : Type 0 → Type 0
Latest A = String → Option (HostCapabilities A)

module _ {A : Type 0} where
  insert-Unique :
      (k : String) (v : HostCapabilities A) (d : Dict (HostCapabilities A))
      → Unique d
      → Unique (insert k v d)
  unfolding insert has
  insert-Unique k v [] u = (refl, tt)
  insert-Unique k v ((j, w) ∷ d) (n, u) =
      ground (arith, n, u, insert-Unique k v d u, has-insert k j v d, eq_iff j k, eq_iff k j)

  delete-Unique : (k : String) (d : Dict (HostCapabilities A)) → Unique d → Unique (delete k d)
  unfolding delete
  delete-Unique k [] u = tt
  delete-Unique k ((j, w) ∷ d) (n, u) = ground (arith, n, delete-Unique k d u, has-delete k j d)

  -- What is returned for an entry.
  abbrev pub fresh : ℕ → Option (HostCapabilities A) → Option (HostCapabilities A)
  fresh now none = none
  fresh now (some c) = if is_expired now c then none else some c

  lookup-drop_expired :
      (now : ℕ) (j : String) (d : Dict (HostCapabilities A))
      → Unique d
      → lookup j (drop_expired now d) ≡ fresh now (lookup j d)
  unfolding lookup drop_expired
  lookup-drop_expired now j [] u = refl
  lookup-drop_expired now j ((k, c) ∷ d) (n, u) =
      ground (arith, n, lookup-drop_expired now j d u, has-lookup k d, eq_iff k j)

  has-drop_expired :
      (now : ℕ) (j : String) (d : Dict (HostCapabilities A))
      → has j d ≡ false
      → has j (drop_expired now d) ≡ false
  unfolding has drop_expired
  has-drop_expired now j [] h = refl
  has-drop_expired now j ((k, c) ∷ d) h = ground (arith, h, has-drop_expired now j d)

  drop_expired-Unique :
      (now : ℕ) (d : Dict (HostCapabilities A)) → Unique d → Unique (drop_expired now d)
  unfolding drop_expired
  drop_expired-Unique now [] u = tt
  drop_expired-Unique now ((k, c) ∷ d) (n, u) =
      ground (arith, has-drop_expired now k d n, drop_expired-Unique now d u)

  -- What is no longer fresh stays so.
  fresh_later :
      (now later : ℕ) (o : Option (HostCapabilities A))
      → now ≤ later
      → fresh later (fresh now o) ≡ fresh later o
  unfolding is_expired
  fresh_later now later none l = refl
  fresh_later now later (some c) l = ground (arith, l)

  pub latest_step : ℕ → ℕ → Op A → Latest A → Latest A
  latest_step ttl now (get k) m j = m j
  latest_step ttl now (set c) m j = if str_eq c.host_name j then some (stamp ttl now c) else m j
  latest_step ttl now (invalidate k) m j = if str_eq k j then none else m j
  latest_step ttl now invalidate_every m j = none
  latest_step ttl now cleanup m j = m j

  unfoldable pub latest : ℕ → List (ℕ × Op A) → Latest A → Latest A
  latest ttl [] m = m
  latest ttl ((now, o) ∷ ops) m = latest ttl ops (latest_step ttl now o m)

  -- From time `t` on, the cache answers as the map does with what is fresh.
  pub record Refines (t : ℕ) (s : CapabilityCache A) (m : Latest A) : Type 0 where
    pub unique : Unique s.host_cache
    pub same :
        (j : String) (later : ℕ)
        → t ≤ later
        → fresh later (lookup j s.host_cache) ≡ fresh later (m j)

  get_host-fresh :
      (k : String) (now : ℕ) (s : CapabilityCache A)
      → (get_host k now s).0 ≡ fresh now (lookup k s.host_cache)
  unfolding get_host
  get_host-fresh k now s = ground arith

  get-Refines :
      (t now : ℕ) (k : String) (s : CapabilityCache A) (m : Latest A)
      → t ≤ now
      → Refines t s m
      → Refines now (get_host k now s).1 m
  unfolding get_host
  get-Refines t now k s m l r = record {
    unique = ground (arith, r.unique, delete-Unique k s.host_cache r.unique);
    same = λ j later g. ground (
      arith,
      r.same j later,
      lookup-delete k j s.host_cache,
      eq_iff k j,
      g,
      l,
      fresh_later now later (lookup k s.host_cache) g,
    );
  }

  step-Refines :
      (t now : ℕ) (o : Op A) (s : CapabilityCache A) (m : Latest A)
      → t ≤ now
      → Refines t s m
      → Refines now (step now o s) (latest_step s.default_ttl now o m)
        × ((step now o s).default_ttl ≡ s.default_ttl)
  unfolding step latest_step set_host invalidate_host invalidate_all cleanup_expired get_host
  step-Refines t now (get k) s m l r = (get-Refines t now k s m l r, ground arith)
  step-Refines t now (set c) s m l r = (
    record {
      unique = insert-Unique c.host_name _ s.host_cache r.unique;
      same = λ j later g. ground (
        arith,
        r.same j later,
        lookup-insert c.host_name j (stamp s.default_ttl now c) s.host_cache,
        g,
        l,
      );
    },
    refl,
  )
  step-Refines t now (invalidate k) s m l r = (
    record {
      unique = delete-Unique k s.host_cache r.unique;
      same = λ j later g. ground (arith, r.same j later, lookup-delete k j s.host_cache, g, l);
    },
    refl,
  )
  step-Refines t now invalidate_every s m l r =
      (record { unique = tt; same = λ j later g. unfold lookup in refl }, refl)
  step-Refines t now cleanup s m l r = (
    record {
      unique = drop_expired-Unique now s.host_cache r.unique;
      same = λ j later g. ground (
        arith,
        r.same j later,
        lookup-drop_expired now j s.host_cache r.unique,
        fresh_later now later (lookup j s.host_cache) g,
        g,
        l,
      );
    },
    refl,
  )

  -- The operations run one after the other, from `t` on, and the last before `now`.
  abbrev pub InOrder : ℕ → List (ℕ × Op A) → ℕ → Type 0
  InOrder t [] now = t ≤ now
  InOrder t ((n, o) ∷ ops) now = (t ≤ n) × InOrder n ops now

  -- After any operations in order of time, a look-up returns what was last cached for the name and
  -- not invalidated since, if its time to live is not over, and nothing otherwise: the look-ups and
  -- clean-ups in between, which remove entries, change no answer.
  pub run-Refines :
      (t now : ℕ) (ops : List (ℕ × Op A)) (s : CapabilityCache A) (m : Latest A) (k : String)
      → InOrder t ops now
      → Refines t s m
      → (get_host k now (run ops s)).0 ≡ fresh now (latest s.default_ttl ops m k)
  unfolding run latest
  run-Refines t now [] s m k l r = get_host-fresh k now s ∙ r.same k now l
  run-Refines t now ((n, o) ∷ ops) s m k (l, i) r =
      let (q, e) = step-Refines t n o s m l r in
      run-Refines n now ops (step n o s) (latest_step s.default_ttl n o m) k i q
      ∙ ap (λ ttl. fresh now (latest ttl ops (latest_step s.default_ttl n o m) k)) e

  pub new-Refines : (ttl t : ℕ) → Refines t (new ttl) (λ j. none)
  new-Refines ttl t = record { unique = tt; same = λ j later g. unfold lookup in refl }
