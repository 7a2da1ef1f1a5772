-- ===== src/Common/Dict.antt =====
-- Python's `dict` with text keys, as the list of its items in insertion order. A write to a key
-- that is there keeps its place; `delete` takes every entry of the key.
use Prim.Native.Nat.{suc, ◌≤◌, ◌<◌}
use Prim.Native.String.{String}
use mathlib.Core.Path.{◌≡◌, refl}
use mathlib.Core.Bool.{Bool, true, false}
use mathlib.Core.Option.{Option, none, some}
use mathlib.Core.List.{List, [], ◌∷◌}
use native.Mathlib.Omega.{arith}
use text.Mathlib.Text.{◌==◌}
use text.Mathlib.TextEquality.{eq_iff}
use merlya.Common.Tests.{if◌then◌else◌}
use merlya.Common.Lists.{length}

abbrev pub Dict : Type 0 → Type 0
Dict V = List (String × V)

module _ {V : Type 0} where
  -- d.get(k)
  unfoldable pub lookup : String → Dict V → Option V
  lookup k [] = none
  lookup k ((j, v) ∷ d) = if j == k then some v else lookup k d

  -- k in d
  unfoldable pub has : String → Dict V → Bool
  has k [] = false
  has k ((j, v) ∷ d) = if j == k then true else has k d

  -- d[k] = v
  unfoldable pub insert : String → V → Dict V → Dict V
  insert k v [] = (k, v) ∷ []
  insert k v ((j, w) ∷ d) = if j == k then (j, v) ∷ d else (j, w) ∷ insert k v d

  -- d.pop(k, None)
  unfoldable pub delete : String → Dict V → Dict V
  delete k [] = []
  delete k ((j, v) ∷ d) = let rest = delete k d in if j == k then rest else (j, v) ∷ rest

  -- d.get(k, v)
  abbrev pub get_or : V → Option V → V
  get_or v none = v
  get_or v (some w) = w

  pub lookup-insert :
      (k j : String) (v : V) (d : Dict V)
      → lookup j (insert k v d) ≡ (if k == j then some v else lookup j d)
  unfolding lookup insert
  lookup-insert k j v [] = refl
  lookup-insert k j v ((i, w) ∷ d) =
      ground (arith, eq_iff k j, eq_iff i k, eq_iff i j, lookup-insert k j v d)

  pub lookup-delete :
      (k j : String) (d : Dict V) → lookup j (delete k d) ≡ (if k == j then none else lookup j d)
  unfolding lookup delete
  lookup-delete k j [] = ground arith
  lookup-delete k j ((i, w) ∷ d) =
      ground (arith, eq_iff k j, eq_iff i k, eq_iff i j, lookup-delete k j d)

  pub has-insert :
      (k j : String) (v : V) (d : Dict V)
      → has j (insert k v d) ≡ (if k == j then true else has j d)
  unfolding has insert
  has-insert k j v [] = refl
  has-insert k j v ((i, w) ∷ d) =
      ground (arith, eq_iff k j, eq_iff i k, eq_iff i j, has-insert k j v d)

  pub has-delete :
      (k j : String) (d : Dict V) → has j (delete k d) ≡ (if k == j then false else has j d)
  unfolding has delete
  has-delete k j [] = ground arith
  has-delete k j ((i, w) ∷ d) = ground (arith, eq_iff k j, eq_iff i k, eq_iff i j, has-delete k j d)

  pub length-insert :
      (k : String) (v : V) (d : Dict V)
      → length (insert k v d) ≡ (if has k d then length d else suc (length d))
  unfolding has insert
  length-insert k v [] = refl
  length-insert k v ((j, w) ∷ d) = ground (arith, length-insert k v d)

  pub length-delete : (k : String) (d : Dict V) → length (delete k d) ≤ length d
  unfolding delete
  length-delete k [] = omega arith
  length-delete k ((j, v) ∷ d) = ground (arith, length-delete k d)

  pub length-delete-has :
      (k : String) (d : Dict V) → has k d ≡ true → length (delete k d) < length d
  unfolding delete has
  length-delete-has k [] h = ground arith
  length-delete-has k ((j, v) ∷ d) h = ground (arith, length-delete k d, length-delete-has k d)

  abbrev is_some : Option V → Bool
  is_some none = false
  is_some (some _) = true

  pub has-lookup : (k : String) (d : Dict V) → has k d ≡ is_some (lookup k d)
  unfolding lookup has
  has-lookup k [] = refl
  has-lookup k ((j, w) ∷ d) = ground (arith, has-lookup k d)

pub ruleset dict_laws = (lookup-insert, lookup-delete)
