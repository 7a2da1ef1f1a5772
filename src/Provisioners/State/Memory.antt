-- ===== src/Provisioners/State/Memory.antt =====
-- Tables in memory that keep the laws: the latest version of a resource comes first.
use merlya.Common.{
  ◌≡◌, refl, String, Option, none, some, List, [], ◌∷◌, All, str_eq, eq_iff, eq_refl, if◌then◌else◌,
  arith, Bool-cases, inl, inr,
}
use merlya.Common.Dict.{Dict, lookup, insert, lookup-insert}
use merlya.Provisioners.State.{ResourceState, SnapshotRow, Tables, IsLawful, stored}

pub record Memory : Type 0 where
  pub resources : List ResourceState
  pub rows : Dict SnapshotRow

unfoldable pub find : String → List ResourceState → Option ResourceState
find k [] = none
find k (r ∷ rs) = if str_eq r.resource_id k then some r else find k rs

unfoldable pub remove : String → List ResourceState → List ResourceState
remove k [] = []
remove k (r ∷ rs) = let rest = remove k rs in if str_eq r.resource_id k then rest else r ∷ rest

-- The latest version of each.
unfoldable pub latest : List ResourceState → List ResourceState
unfolding remove
latest [] = []
latest (r ∷ rs) = r ∷ remove r.resource_id (latest rs)

abbrev pub memory_tables : Tables Memory
memory_tables = record {
  save_resource = λ r m. record m { resources = stored r ∷ m.resources };
  get_resource = λ k m. find k m.resources;
  delete_resource = λ k m. record m { resources = remove k m.resources };
  all_resources = λ m. latest m.resources;
  save_row = λ k row m. record m { rows = insert k row m.rows };
  get_row = λ k m. lookup k m.rows;
  clear = λ m. record { resources = []; rows = [] };
}

find-remove :
    (j k : String) (rs : List ResourceState)
    → find k (remove j rs) ≡ (if str_eq j k then none else find k rs)
unfolding find remove
find-remove j k [] = ground arith
find-remove j k (r ∷ rs) =
    ground (arith, find-remove j k rs, eq_iff j k, eq_iff r.resource_id j, eq_iff r.resource_id k)

find-own_id :
    (k : String) (rs : List ResourceState) (r : ResourceState)
    → find k rs ≡ some r
    → r.resource_id ≡ k
unfolding find
find-own_id k [] r h = absurd (ground (arith, h))
find-own_id k (q ∷ rs) r h = ground (arith, h, find-own_id k rs r, eq_iff q.resource_id k)

-- What is in both lists and not removed is found past a new first element.
remove-All :
    (q : ResourceState) (rs ys : List ResourceState)
    → All (λ r. find r.resource_id rs ≡ some r) ys
    → All (λ r. find r.resource_id (q ∷ rs) ≡ some r) (remove q.resource_id ys)
unfolding find remove
remove-All q rs [] h = tt
remove-All q rs (y ∷ ys) (e, h) = elim (Bool-cases (str_eq y.resource_id q.resource_id)) [
  | inl t ↦ rw t (remove-All q rs ys h)
  | inr t ↦ rw t (
    ground (arith, e, t, eq_iff y.resource_id q.resource_id, eq_iff q.resource_id y.resource_id),
    remove-All q rs ys h,
  )
]

latest-find : (rs : List ResourceState) → All (λ r. find r.resource_id rs ≡ some r) (latest rs)
unfolding latest find
latest-find [] = tt
latest-find (r ∷ rs) =
    (ground (arith, eq_refl r.resource_id), remove-All r rs (latest rs) (latest-find rs))

pub memory_tables-IsLawful : IsLawful memory_tables
unfolding find stored
memory_tables-IsLawful = record {
  get-save = λ r k m. refl;
  get-delete = λ j k m. find-remove j k m.resources;
  row-save = λ r k m. refl;
  row-save_row = λ j row k m. lookup-insert j k row m.rows;
  get-save_row = λ j row k m. refl;
  all-get = λ m. latest-find m.resources;
  own_id = λ k m r. find-own_id k m.resources r;
}
