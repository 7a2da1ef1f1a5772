-- ===== src/Provisioners/Examples.antt =====
-- Runs of a small provisioner over a world with a clock and a count of the changes made.
use mathlib.Core.Path.{subst}
use mathlib.Core.Option.{some-injective}
use merlya.Common.{ℕ, ◌+◌, ◌≡◌, refl, ◌⊎◌, Bool, true, false, Option, none, some, [], ◌∷◌}
use merlya.Common.Outcome.{Outcome, returned, ◌>>=◌}
use merlya.Provisioners.{
  ProvisionerDeps, Provisioner, ApplyOutput, Approval, Run, create, validate, execute, try_stages,
  plan_stages, diff_stages, approval_stages, approved_stages, apply_stages, trigger_rollback,
  safe_rollback, recover_rollback, request_hitl, read_now, catch, finalize_result, new_result,
}
use merlya.Provisioners.Safety.{SaysYes, provision-guarded}
use merlya.Provisioners.State.{
  ResourceState, unknown, Config, value, judge, compare_configs, differences_at, drifted,
  track_resource, mark_created, update_status, get_rollback_config, stored, updating,
  create_snapshot, select, load, save_all, get_snapshot, restore_snapshot, check_drift,
  mark_updated, mark_checked, save_for_rollback,
}
use merlya.Provisioners.State.Memory.{
  Memory, memory_tables, memory_tables-IsLawful, find, latest, remove,
}
use merlya.Provisioners.State.Snapshots.{touch, restore_snapshot-SameButTime}
use merlya.Common.Dict.{lookup, insert}

record World : Type 0 where
  time : ℕ
  changes : ℕ

-- The provisioner, given the approval service, how `apply()` ends and whether the check passes.
abbrev demo : Option (Approval World) → Outcome ApplyOutput → Bool → Provisioner World
demo ask applied healthy = record {
  validate = λ w. (returned (true, []), w);
  plan = λ w. (
    returned (record {
      success = true;
      resources_to_create = 1;
      resources_to_update = 0;
      resources_to_delete = 0;
    }),
    w,
  );
  diff = λ w. (returned (record { success = true; diff_text = "+ web"; has_changes = true }), w);
  apply = λ w. (applied, record w { changes = w.changes + 1 });
  rollback = λ w. (
    returned (record { success = true; resources_rolled_back = "web" ∷ []; errors = [] }),
    record w { changes = 0 },
  );
  post_check =
      λ w. (returned (record { success = healthy; checks_passed = []; checks_failed = [] }), w);
  hitl = ask;
  now = λ w. (w.time, record w { time = w.time + 2 });
}

abbrev deps : ProvisionerDeps
deps = record { action = create; dry_run = false; auto_rollback = true }

abbrev applied : ApplyOutput
applied = record {
  success = true;
  resources_created = "web" ∷ [];
  resources_updated = [];
  resources_deleted = [];
  errors = [];
  rollback_data = some (("id", "web") ∷ []);
}

abbrev start : Run World
start = record {
  world = record { time = 10; changes = 0 };
  stage = validate;
  rollback_data = none;
  result = new_result create 0;
}

abbrev refuses : Option (Approval World)
refuses = some λ a d b w. (returned false, w)

unapproved_is_applied : (execute (demo none (returned applied) true) deps start).1.world.changes ≡ 1
unfolding execute try_stages plan_stages diff_stages approval_stages approved_stages apply_stages
    request_hitl read_now catch finalize_result ◌>>=◌
unapproved_is_applied = refl

failed_check_rolls_back :
    ((execute (demo none (returned applied) false) deps start).1.world.changes ≡ 0)
    × ((execute (demo none (returned applied) false) deps start).1.result.rollback_triggered ≡ true)
unfolding execute try_stages plan_stages diff_stages approval_stages approved_stages apply_stages
    request_hitl read_now catch finalize_result ◌>>=◌ trigger_rollback safe_rollback
    recover_rollback
failed_check_rolls_back = (refl, refl)

abbrev Unchanged : World → Type 0
Unchanged w = w.changes ≡ 0

provision-guarded_example :
    Unchanged (execute (demo refuses (returned applied) true) deps start).1.world
    ⊎ (SaysYes Unchanged (demo refuses (returned applied) true) deps
        × (((execute (demo refuses (returned applied) true) deps start).1.result.hitl_approved
              ≡ true)
            × (deps.dry_run ≡ false)))
provision-guarded_example =
    provision-guarded Unchanged (demo refuses (returned applied) true) deps
      (record {
        validate = λ w h. h;
        plan = λ w h. h;
        diff = λ w h. h;
        hitl = λ ask e a d b w h. subst (λ f. Unchanged (f a d b w).1) (some-injective _ _ e) h;
        now = λ w h. h;
      })
      start refl

-- A resource that is tracked, created, put in a snapshot and then changed by an update.
abbrev vm : ResourceState
vm = record {
  resource_id = "vm-1";
  resource_type = "aws_instance";
  name = "web";
  provider = "aws";
  region = none;
  status = unknown;
  expected_config = ("size", some "small") ∷ [];
  actual_config = [];
  tags = [];
  outputs = [];
  created_at = 0;
  updated_at = 0;
  last_checked_at = none;
  previous_config = none;
}

abbrev small : Config
small = ("size", some "small") ∷ []

abbrev large : Config
large = ("size", some "large") ∷ []

abbrev empty : Memory
empty = record { resources = []; rows = [] }

abbrev created : Memory
created =
    (mark_created memory_tables "vm-1" small none 2 (track_resource memory_tables vm 1 empty).1).1

abbrev snapped : Memory
snapped = (create_snapshot memory_tables none none none "s" 3 created).1

abbrev enlarged : Memory
enlarged = (mark_created memory_tables "vm-1" large none 4 snapped).1

abbrev actual : Option ResourceState → Option Config
actual none = none
actual (some r) = some r.actual_config

snapshot_brings_nothing_back :
    actual (find "vm-1" (restore_snapshot memory_tables "s" 5 enlarged).1.resources) ≡ some large
unfolding restore_snapshot get_snapshot load save_all mark_created update_status track_resource
    create_snapshot select find latest lookup insert mark_updated save_for_rollback remove stored
snapshot_brings_nothing_back = refl

drift_found : (check_drift memory_tables "vm-1" large 5 created).0.status ≡ drifted
unfolding check_drift judge compare_configs differences_at value mark_created update_status
    track_resource find lookup insert mark_updated save_for_rollback mark_checked stored
drift_found = refl

restore_snapshot-SameButTime_example :
    (memory_tables.get_resource "vm-1" (restore_snapshot memory_tables "s" 5 enlarged).1
      ≡ memory_tables.get_resource "vm-1" enlarged)
    ⊎ (memory_tables.get_resource "vm-1" (restore_snapshot memory_tables "s" 5 enlarged).1
        ≡ touch 5 (memory_tables.get_resource "vm-1" enlarged))
restore_snapshot-SameButTime_example =
    restore_snapshot-SameButTime memory_tables memory_tables-IsLawful "s" 5 enlarged "vm-1"

-- An empty configuration is no configuration to roll back to.
abbrev bare : Memory
bare = (mark_created memory_tables "vm-1" [] none 2 (track_resource memory_tables vm 1 empty).1).1

empty_rollback_config_is_lost :
    get_rollback_config memory_tables "vm-1"
      (update_status memory_tables "vm-1" updating none none 3 bare).1
    ≡ none
unfolding get_rollback_config mark_created update_status track_resource find lookup insert latest
    remove mark_updated save_for_rollback stored
empty_rollback_config_is_lost = refl
