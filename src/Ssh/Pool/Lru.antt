-- ===== src/Ssh/Pool/Lru.antt =====
-- Which connection is evicted.
use mathlib.Core.Path.{subst}
use mathlib.Core.Option.{some-injective}
use merlya.Common.{
  ℕ, ◌≤◌, ◌≡◌, refl, String, true, none, some, [], ◌∷◌, arith, if◌then◌else◌, str_eq, eq_iff, ◌⊎◌,
  All, inl,
}
use merlya.Common.Dict.{Dict, lookup, has, lookup-delete}
use merlya.Ssh.Types.{SshConnection}
use merlya.Ssh.Pool.{Pool, older, lru_from, lru_key, evict_lru_connection}

older_cases : (e f : String × SshConnection) → ((older e f).0 ≡ e.0) ⊎ ((older e f).0 ≡ f.0)
unfolding older
older_cases e f = ground arith

older_least :
    (e f : String × SshConnection)
    → ((older e f).1.last_used ≤ e.1.last_used) × ((older e f).1.last_used ≤ f.1.last_used)
unfolding older
older_least e f = ground arith

has-lru_from :
    (e : String × SshConnection) (d : Dict SshConnection)
    → ((lru_from e d).0 ≡ e.0) ⊎ (has (lru_from e d).0 d ≡ true)
unfolding lru_from has
has-lru_from e [] = inl refl
has-lru_from e (f ∷ d) =
    ground
      (arith, has-lru_from (older e f) d, eq_iff f.0 (lru_from (older e f) d).0, older_cases e f)

has-lru_from_cons :
    (e : String × SshConnection) (d : Dict SshConnection) → has (lru_from e d).0 (e ∷ d) ≡ true
unfolding has
has-lru_from_cons e d = ground (arith, has-lru_from e d, eq_iff e.0 (lru_from e d).0)

-- The key to evict is in the pool.
pub has-lru_key : (d : Dict SshConnection) {k : String} → lru_key d ≡ some k → has k d ≡ true
unfolding lru_key
has-lru_key [] h = ground arith
has-lru_key (e ∷ d) h =
    subst (λ j. has j (e ∷ d) ≡ true) (some-injective _ _ h) (has-lru_from_cons e d)

abbrev pub NotOlder : ℕ → Dict SshConnection → Type 0
NotOlder t d = All (λ e. t ≤ e.1.last_used) d

lru_from-NotOlder :
    (e : String × SshConnection) (d : Dict SshConnection)
    → NotOlder (lru_from e d).1.last_used d × ((lru_from e d).1.last_used ≤ e.1.last_used)
unfolding lru_from
lru_from-NotOlder e [] = (tt, omega arith)
lru_from-NotOlder e (f ∷ d) =
    let (a, b) = lru_from-NotOlder (older e f) d in
    let (c, g) = older_least e f in ((omega arith, a), omega arith)

-- In a pool with connections the eviction takes one whose last use is no later than that of any
-- other, and it leaves every other key with the connection it had.
pub evict_lru-least :
    (s : Pool) {e : String × SshConnection} {d : Dict SshConnection}
    → s.connections ≡ e ∷ d
    → (k : String) × (t : ℕ) × (has k s.connections ≡ true)
      × NotOlder t s.connections
      × ((j : String)
          → lookup j (evict_lru_connection s).connections
            ≡ (if str_eq k j then none else lookup j s.connections))
unfolding evict_lru_connection lru_key
evict_lru-least s {e} {d} h =
    let (a, b) = lru_from-NotOlder e d in
    (
      (lru_from e d).0,
      (lru_from e d).1.last_used,
      rw h (has-lru_from_cons e d),
      rw h (b, a),
      λ j. rw h (lookup-delete (lru_from e d).0 j (e ∷ d)),
    )
