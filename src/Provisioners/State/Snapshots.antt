-- ===== src/Provisioners/State/Snapshots.antt =====
-- What a snapshot brings back.
use merlya.Common.{
  ℕ, ◌≡◌, ◌⊎◌, refl, String, Bool, Option, none, some, List, [], ◌∷◌, map, All, eq_iff, eq_refl,
  arith, inl, inr, Bool-cases,
}
use merlya.Common.Dict.{Dict}
use merlya.Provisioners.State.{
  ResourceState, SnapshotRow, Tables, IsLawful, stored, mark_updated, matches, select,
  create_snapshot, add_loaded, load, snapshot, assemble, loaded_row, get_snapshot, save_all,
  restored, restore_snapshot,
}

-- A resource with a new time of update, stored, and otherwise as it is.
abbrev pub touch : ℕ → Option ResourceState → Option ResourceState
touch now none = none
touch now (some r) = some (stored (mark_updated now r))

module _ {S : Type 0} (T : Tables S) (L : IsLawful T) where
  -- The entries of a loaded snapshot are the table's.
  abbrev Current : S → Dict ResourceState → Type 0
  Current s rs = All (λ e. T.get_resource e.0 s ≡ some e.1) rs

  add_loaded-Current :
      (s : S) (k : String) (o : Option ResourceState) (p : Dict ResourceState × List String)
      → T.get_resource k s ≡ o
      → Current s p.0
      → Current s (add_loaded k o p).0
  add_loaded-Current s k none p e c = c
  add_loaded-Current s k (some r) p e c = (e, c)

  load-Current : (ks : List String) (s : S) → Current s (load T ks s).0
  unfolding load
  load-Current [] s = tt
  load-Current (k ∷ ks) s = add_loaded-Current s k _ (load T ks s) refl (load-Current ks s)

  -- Each resource is as in `s`, but for its time of update.
  abbrev pub SameButTime : ℕ → S → S → Type 0
  SameButTime now s t =
      (k : String)
      → (T.get_resource k t ≡ T.get_resource k s)
        ⊎ (T.get_resource k t ≡ touch now (T.get_resource k s))

  save-SameButTime :
      (now : ℕ) (k : String) (r : ResourceState) (s t : S)
      → T.get_resource k s ≡ some r
      → SameButTime now s t
      → SameButTime now s (T.save_resource (mark_updated now r) t)
  unfolding mark_updated stored
  save-SameButTime now k r s t e h j =
      ground (
        arith,
        e,
        h j,
        L.get-save (mark_updated now r) j t,
        L.own_id k s r e,
        eq_iff r.resource_id j,
      )

  save_all-SameButTime :
      (now : ℕ) (rs : Dict ResourceState) (s t : S)
      → Current s rs
      → SameButTime now s t
      → SameButTime now s (save_all T now rs t)
  unfolding save_all
  save_all-SameButTime now [] s t c h = h
  save_all-SameButTime now ((k, r) ∷ rs) s t (e, c) h =
      save_all-SameButTime now rs s _ c (save-SameButTime now k r s t e h)

  assemble-SameButTime :
      (now : ℕ) (id : String) (row : SnapshotRow) (p : Dict ResourceState × List String) (s : S)
      → Current s p.0
      → SameButTime now s (restored T now (assemble id row p) s).1
  assemble-SameButTime now id row (rs, k ∷ lost) s c = λ j. inl refl
  assemble-SameButTime now id row (rs, []) s c = save_all-SameButTime now rs s s c (λ j. inl refl)

  row-SameButTime :
      (now : ℕ) (id : String) (o : Option SnapshotRow) (s : S)
      → SameButTime now s (restored T now (loaded_row T id o s) s).1
  row-SameButTime now id none s = λ j. inl refl
  row-SameButTime now id (some row) s =
      assemble-SameButTime now id row (load T row.resource_ids s) s
        (load-Current row.resource_ids s)

  -- Restoring a snapshot, of whatever state and however old, leaves every resource with the status,
  -- the configurations and all else that it has at the time of the restoration; only the time of its
  -- last update may change, and a previous configuration that is empty is none once it is stored.
  pub restore_snapshot-SameButTime :
      (id : String) (now : ℕ) (s : S) → SameButTime now s (restore_snapshot T id now s).1
  unfolding restore_snapshot get_snapshot
  restore_snapshot-SameButTime id now s = row-SameButTime now id (T.get_row id s) s

  load-ids :
      (rs : List ResourceState) (s : S)
      → All (λ r. T.get_resource r.resource_id s ≡ some r) rs
      → load T (map (λ r. r.resource_id) rs) s ≡ (map (λ r. (r.resource_id, r)) rs, [])
  unfolding load
  load-ids [] s h = refl
  load-ids (r ∷ rs) s (e, h) = rw (e, load-ids rs s h) refl

  select-All :
      (P : ResourceState → Type 0) (p : ResourceState → Bool) (rs : List ResourceState)
      → All P rs
      → All P (select p rs)
  unfolding select
  select-All P p [] h = tt
  select-All P p (r ∷ rs) (e, h) = elim (Bool-cases (p r)) [
    | inl t ↦ rw t (e, select-All P p rs h)
    | inr t ↦ rw t (select-All P p rs h)
  ]

  load-save_row :
      (j : String) (row : SnapshotRow) (ks : List String) (s : S)
      → load T ks (T.save_row j row s) ≡ load T ks s
  unfolding load
  load-save_row j row [] s = refl
  load-save_row j row (k ∷ ks) s = rw (L.get-save_row j row k s, load-save_row j row ks s) refl

  -- Read back at once, a new snapshot is what its creation returned.
  pub get_snapshot-create_snapshot :
      (provider session description : Option String) (id : String) (now : ℕ) (s : S)
      → let r = create_snapshot T provider session description id now s in
        get_snapshot T id r.1 ≡ snapshot r.0
  unfolding get_snapshot create_snapshot
  get_snapshot-create_snapshot provider session description id now s =
      let rs = select (λ r. matches provider r.provider) (T.all_resources s) in
      let e =
        select-All (λ r. T.get_resource r.resource_id s ≡ some r) (λ r. matches provider r.provider)
          (T.all_resources s) (L.all-get s) in
      rw
        (
          L.row-save_row id _ id s,
          eq_refl id,
          load-save_row id _ (map (λ r. r.resource_id) rs) s,
          load-ids rs s e,
        )
        refl
