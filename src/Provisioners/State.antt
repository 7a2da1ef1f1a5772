-- ===== src/Provisioners/State.antt =====
-- merlya/provisioners/state: the models, the repository and the tracker of resources. The two tables
-- of the repository's database are of a type `Tables` with the operations that its SQL statements
-- ask for; a configuration is a dictionary of JSON values, each carried as its text, with `none` for
-- null. Times are naturals; the snapshot's random id and the clock are arguments.
pub mod Drift
pub mod Snapshots
pub mod Memory
use merlya.Common.{
  ℕ, ◌≡◌, String, ◌<>◌, Bool, true, false, ◌&&◌, ◌||◌, not, Option, none, some, List, [], ◌∷◌, ◌++◌,
  map, All, str_eq, if◌then◌else◌,
}
use merlya.Common.Dict.{Dict, lookup, has, insert, get_or}

pub data ResourceStatus : Type 0 where
  pending creating active updating deleting deleted failed unknown : ResourceStatus

pub data DriftStatus : Type 0 where
  no_drift drifted missing undetermined : DriftStatus

abbrev pub Value : Type 0
Value = Option String

abbrev pub Config : Type 0
Config = Dict Value

pub record ResourceState : Type 0 where
  pub resource_id : String
  pub resource_type : String
  pub name : String
  pub provider : String
  pub region : Option String
  pub status : ResourceStatus
  pub expected_config : Config
  pub actual_config : Config
  pub tags : Dict String
  pub outputs : Config
  pub created_at : ℕ
  pub updated_at : ℕ
  pub last_checked_at : Option ℕ
  pub previous_config : Option Config

pub record DriftResult : Type 0 where
  pub resource_id : String
  pub status : DriftStatus
  pub differences : Dict (Value × Value)
  pub error : Option String

-- A row of the table of snapshots: the resources by their ids.
pub record SnapshotRow : Type 0 where
  pub provider : Option String
  pub session_id : Option String
  pub resource_ids : List String
  pub created_at : ℕ
  pub description : Option String

pub record StateSnapshot : Type 0 where
  pub snapshot_id : String
  pub provider : Option String
  pub session_id : Option String
  pub resources : Dict ResourceState
  pub created_at : ℕ
  pub description : Option String

-- The statements on the two tables: INSERT OR REPLACE, SELECT by id, DELETE by id, SELECT of all.
pub record Tables (S : Type 0) : Type 0 where
  pub save_resource : ResourceState → S → S
  pub get_resource : String → S → Option ResourceState
  pub delete_resource : String → S → S
  pub all_resources : S → List ResourceState
  pub save_row : String → SnapshotRow → S → S
  pub get_row : String → S → Option SnapshotRow
  pub clear : S → S

abbrev or_null : Option Config → Option Config
or_null none = none
or_null (some []) = none
or_null (some (e ∷ c)) = some (e ∷ c)

-- A resource as it is read back: an empty previous configuration is stored as NULL.
unfoldable pub stored : ResourceState → ResourceState
stored r = record r { previous_config = or_null r.previous_config }

-- What the tracker relies on: the statements, and the conversions of a resource to a row and back.
pub record IsLawful {S : Type 0} (T : Tables S) : Type 0 where
  pub get-save :
      (r : ResourceState) (k : String) (s : S)
      → T.get_resource k (T.save_resource r s)
        ≡ (if str_eq r.resource_id k then some (stored r) else T.get_resource k s)
  pub get-delete :
      (j k : String) (s : S)
      → T.get_resource k (T.delete_resource j s) ≡ (if str_eq j k then none else T.get_resource k s)
  pub row-save :
      (r : ResourceState) (k : String) (s : S) → T.get_row k (T.save_resource r s) ≡ T.get_row k s
  pub row-save_row :
      (j : String) (row : SnapshotRow) (k : String) (s : S)
      → T.get_row k (T.save_row j row s) ≡ (if str_eq j k then some row else T.get_row k s)
  pub get-save_row :
      (j : String) (row : SnapshotRow) (k : String) (s : S)
      → T.get_resource k (T.save_row j row s) ≡ T.get_resource k s
  pub all-get : (s : S) → All (λ r. T.get_resource r.resource_id s ≡ some r) (T.all_resources s)
  pub own_id :
      (k : String) (s : S) (r : ResourceState) → T.get_resource k s ≡ some r → r.resource_id ≡ k

-- ResourceState.save_for_rollback, mark_updated and mark_checked
unfoldable pub save_for_rollback : ResourceState → ResourceState
save_for_rollback r = record r { previous_config = some r.actual_config }

unfoldable pub mark_updated : ℕ → ResourceState → ResourceState
mark_updated now r = record r { updated_at = now }

unfoldable pub mark_checked : ℕ → ResourceState → ResourceState
mark_checked now r = record r { last_checked_at = some now }

abbrev pub is_updating : ResourceStatus → Bool
is_updating updating = true
is_updating pending = false
is_updating creating = false
is_updating active = false
is_updating deleting = false
is_updating deleted = false
is_updating failed = false
is_updating unknown = false

abbrev pub is_active : ResourceStatus → Bool
is_active active = true
is_active pending = false
is_active creating = false
is_active updating = false
is_active deleting = false
is_active deleted = false
is_active failed = false
is_active unknown = false

-- d.get(k): a missing key reads as null.
unfoldable pub value : String → Config → Value
value k d = get_or none (lookup k d)

abbrev pub value_eq : Value → Value → Bool
value_eq none none = true
value_eq none (some b) = false
value_eq (some a) none = false
value_eq (some a) (some b) = str_eq a b

-- The differences at these keys.
unfoldable pub differences_at : Config → Config → Config → Dict (Value × Value)
unfolding value
differences_at e a [] = []
differences_at e a ((k, v) ∷ keys) =
    let rest = differences_at e a keys in
    if value_eq (value k e) (value k a) then rest else insert k (value k e, value k a) rest

-- _compare_configs(expected, actual), over the keys of both
unfoldable pub compare_configs : Config → Config → Dict (Value × Value)
compare_configs e a = differences_at e a (e ++ a)

abbrev pub is_empty : {V : Type 0} → Dict V → Bool
is_empty [] = true
is_empty (_ ∷ _) = false

abbrev pub no_drift_result : String → DriftResult
no_drift_result k = record { resource_id = k; status = no_drift; differences = []; error = none }

abbrev pub drift_result : String → Dict (Value × Value) → DriftResult
drift_result k [] = no_drift_result k
drift_result k (d ∷ ds) = record {
  resource_id = k;
  status = drifted;
  differences = d ∷ ds;
  error = none;
}

-- The part of `check_drift` after the look-up.
unfoldable pub judge : String → Config → Config → DriftResult
unfolding compare_configs
judge k expected actual =
    if is_empty expected
    then no_drift_result k
    else drift_result k (compare_configs expected actual)

abbrev pub with_config : Option Config → ResourceState → ResourceState
with_config none r = r
with_config (some c) r = record r { actual_config = c }

abbrev pub with_outputs : Option Config → ResourceState → ResourceState
with_outputs none r = r
with_outputs (some o) r = record r { outputs = o }

-- The new state of a resource, by the statements of `update_status` in their order.
abbrev pub updated :
    ResourceStatus → Option Config → Option Config → ℕ → ResourceState → ResourceState
updated status config outputs now r =
    let r1 = if is_updating status then save_for_rollback r else r in
    with_outputs outputs (with_config config (mark_updated now (record r1 { status = status })))

abbrev found : Option ResourceState → Bool
found none = false
found (some _) = true

abbrev missing_result : String → DriftResult
missing_result k = record { resource_id = k; status = missing; differences = []; error = none }

abbrev pub matches : Option String → String → Bool
matches none p = true
matches (some q) p = str_eq q p

unfoldable pub select : (ResourceState → Bool) → List ResourceState → List ResourceState
select p [] = []
select p (r ∷ rs) = let rest = select p rs in if p r then r ∷ rest else rest

abbrev pub add_loaded :
    String
    → Option ResourceState
    → Dict ResourceState × List String
    → Dict ResourceState × List String
add_loaded k none (rs, lost) = (rs, k ∷ lost)
add_loaded k (some r) (rs, lost) = ((k, r) ∷ rs, lost)

-- No snapshot, `MissingResourcesError`, or the snapshot.
pub data Loaded : Type 0 where
  no_snapshot : Loaded
  missing_resources : List String → Loaded
  snapshot : StateSnapshot → Loaded

abbrev pub assemble : String → SnapshotRow → Dict ResourceState × List String → Loaded
assemble id row (rs, k ∷ lost) = missing_resources (k ∷ lost)
assemble id row (rs, []) = snapshot (record {
  snapshot_id = id;
  provider = row.provider;
  session_id = row.session_id;
  resources = rs;
  created_at = row.created_at;
  description = row.description;
})

abbrev pub previous : Option ResourceState → Option Config
previous none = none
previous (some r) = r.previous_config

module _ {S : Type 0} (T : Tables S) where
  unfoldable pub track_resource : ResourceState → ℕ → S → ResourceState × S
  track_resource r now s =
      let r' = record r {
        status = pending;
        actual_config = [];
        outputs = [];
        created_at = now;
        updated_at = now;
        last_checked_at = none;
        previous_config = none;
      } in
      (r', T.save_resource r' s)

  abbrev pub save_found :
      Option ResourceState → (ResourceState → ResourceState) → S → Option ResourceState × S
  save_found none f s = (none, s)
  save_found (some r) f s = (some (f r), T.save_resource (f r) s)

  unfoldable pub update_status :
      String → ResourceStatus → Option Config → Option Config → ℕ → S → Option ResourceState × S
  update_status k status config outputs now s =
      save_found (T.get_resource k s) (updated status config outputs now) s

  unfoldable pub mark_created : String → Config → Option Config → ℕ → S → Option ResourceState × S
  mark_created k config outputs = update_status k active (some config) outputs

  unfoldable pub mark_deleted : String → ℕ → S → Option ResourceState × S
  mark_deleted k = update_status k deleted none none

  abbrev note_error : Option String → Option ResourceState × S → Option ResourceState × S
  note_error none (o, s) = (o, s)
  note_error (some e) (none, s) = (none, s)
  note_error (some e) (some r, s) =
      if str_eq e ""
      then (some r, s)
      else save_found (some r) (λ r. record r { outputs = insert "error" (some e) r.outputs }) s

  unfoldable pub mark_failed : String → Option String → ℕ → S → Option ResourceState × S
  mark_failed k error now s = note_error error (update_status k failed none none now s)

  unfoldable pub untrack_resource : String → S → Bool × S
  untrack_resource k s = (found (T.get_resource k s), T.delete_resource k s)

  abbrev pub judge_found : String → Config → ℕ → Option ResourceState → S → DriftResult × S
  judge_found k actual now none s = (
    record {
      resource_id = k;
      status = undetermined;
      differences = [];
      error = some "Resource not found in state";
    },
    s,
  )
  judge_found k actual now (some r) s = (
    judge k r.expected_config actual,
    T.save_resource (mark_checked now (record r { actual_config = actual })) s,
  )

  unfoldable pub check_drift : String → Config → ℕ → S → DriftResult × S
  check_drift k actual now s = judge_found k actual now (T.get_resource k s) s

  abbrev check_one : ℕ → ResourceState → Option Config → S → DriftResult × S
  check_one now r none s = (missing_result r.resource_id, s)
  check_one now r (some actual) s = check_drift r.resource_id actual now s

  unfoldable pub check_each : Dict Config → ℕ → List ResourceState → S → List DriftResult × S
  check_each configs now [] s = ([], s)
  check_each configs now (r ∷ rs) s =
      let (d, s1) = check_one now r (lookup r.resource_id configs) s in
      let (ds, s2) = check_each configs now rs s1 in (d ∷ ds, s2)

  unfoldable pub list_active_resources : Option String → S → List ResourceState
  list_active_resources provider s =
      select (λ r. matches provider r.provider && is_active r.status) (T.all_resources s)

  unfoldable pub check_all_drift : Option String → Dict Config → ℕ → S → List DriftResult × S
  check_all_drift provider configs now s =
      check_each configs now (list_active_resources provider s) s

  -- create_snapshot, which writes the ids of the resources alone
  unfoldable pub create_snapshot :
      Option String → Option String → Option String → String → ℕ → S → StateSnapshot × S
  create_snapshot provider session description id now s =
      let rs = select (λ r. matches provider r.provider) (T.all_resources s) in
      (
        record {
          snapshot_id = id;
          provider = provider;
          session_id = session;
          resources = map (λ r. (r.resource_id, r)) rs;
          created_at = now;
          description = description;
        },
        T.save_row id
            (record {
              provider = provider;
              session_id = session;
              resource_ids = map (λ r. r.resource_id) rs;
              created_at = now;
              description = description;
            })
            s,
      )

  -- The loop of `get_snapshot`: what is found and what is missing.
  unfoldable pub load : List String → S → Dict ResourceState × List String
  load [] s = ([], [])
  load (k ∷ ks) s = add_loaded k (T.get_resource k s) (load ks s)

  abbrev pub loaded_row : String → Option SnapshotRow → S → Loaded
  loaded_row id none s = no_snapshot
  loaded_row id (some row) s = assemble id row (load row.resource_ids s)

  unfoldable pub get_snapshot : String → S → Loaded
  get_snapshot id s = loaded_row id (T.get_row id s) s

  unfoldable pub save_all : ℕ → Dict ResourceState → S → S
  save_all now [] s = s
  save_all now ((k, r) ∷ rs) s = save_all now rs (T.save_resource (mark_updated now r) s)

  abbrev pub restored : ℕ → Loaded → S → Loaded × S
  restored now no_snapshot s = (no_snapshot, s)
  restored now (missing_resources ks) s = (missing_resources ks, s)
  restored now (snapshot snap) s = (snapshot snap, save_all now snap.resources s)

  unfoldable pub restore_snapshot : String → ℕ → S → Loaded × S
  restore_snapshot id now s = restored now (get_snapshot id s) s

  unfoldable pub get_rollback_config : String → S → Option Config
  get_rollback_config k s = previous (T.get_resource k s)

  unfoldable pub clear_all : S → S
  clear_all s = T.clear s
