-- ===== src/Provisioners.antt =====
-- merlya/provisioners/base.py: the provisioning workflow Validate -> Plan -> Diff -> HITL -> Apply ->
-- Post-check. What a subclass implements, the approval service of the context and the clock are the
-- fields of `Provisioner`, actions on a world `W`. The summary shown for the approval is a text made
-- of the plan and the diff, which the request gets instead; of the stages' outputs the fields that
-- the workflow reads or that say what was done are kept.
pub mod Safety
pub mod State
mod Examples
use merlya.Common.{
  ℕ, String, ◌<>◌, Bool, true, false, ◌&&◌, ◌||◌, Option, none, some, List, [], ◌∷◌, ◌==◌,
  if◌then◌else◌,
}
use merlya.Common.Outcome.{
  Outcome, returned, raised, cancelled, Exec, ◌>>=◌, ◌>>◌, pure, modify, zoom,
}

pub data ProvisionerAction : Type 0 where
  create update delete : ProvisionerAction

pub data ProvisionerStage : Type 0 where
  validate plan diff summary hitl apply post_check rollback : ProvisionerStage

pub record PlanOutput : Type 0 where
  pub success : Bool
  pub resources_to_create : ℕ
  pub resources_to_update : ℕ
  pub resources_to_delete : ℕ

pub record DiffOutput : Type 0 where
  pub success : Bool
  pub diff_text : String
  pub has_changes : Bool

abbrev pub RollbackData : Type 0
RollbackData = Option (List (String × String))

pub record ApplyOutput : Type 0 where
  pub success : Bool
  pub resources_created : List String
  pub resources_updated : List String
  pub resources_deleted : List String
  pub errors : List String
  pub rollback_data : RollbackData

pub record PostCheckOutput : Type 0 where
  pub success : Bool
  pub checks_passed : List String
  pub checks_failed : List String

pub record RollbackOutput : Type 0 where
  pub success : Bool
  pub resources_rolled_back : List String
  pub errors : List String

pub record ProvisionerDeps : Type 0 where
  pub action : ProvisionerAction
  pub dry_run : Bool
  pub auto_rollback : Bool

pub record ProvisionerResult : Type 0 where
  pub success : Bool
  pub action : ProvisionerAction
  pub started_at : ℕ
  pub completed_at : Option ℕ
  pub plan_output : Option PlanOutput
  pub diff_output : Option DiffOutput
  pub apply_output : Option ApplyOutput
  pub post_check_output : Option PostCheckOutput
  pub rollback_output : Option RollbackOutput
  pub hitl_approved : Bool
  pub hitl_approved_at : Option ℕ
  pub aborted : Bool
  pub aborted_at : Option ProvisionerStage
  pub aborted_reason : Option String
  pub rollback_triggered : Bool
  pub rollback_reason : Option String

-- What the approval service is asked: the plan, the diff, its text if it has changes, and whether
-- the action is destructive.
abbrev pub Approval : Type 0 → Type 0
Approval W = PlanOutput → Option String → Bool → Exec W Bool

pub record Provisioner (W : Type 0) : Type 0 where
  pub validate : Exec W (Bool × List String)
  pub plan : Exec W PlanOutput
  pub diff : Exec W DiffOutput
  pub apply : Exec W ApplyOutput
  pub rollback : Exec W RollbackOutput
  pub post_check : Exec W PostCheckOutput
  pub hitl : Option (Approval W)
  pub now : W → ℕ × W

-- The world, `_current_stage`, `_rollback_data` and the local `result`.
pub record Run (W : Type 0) : Type 0 where
  pub world : W
  pub stage : ProvisionerStage
  pub rollback_data : RollbackData
  pub result : ProvisionerResult

-- bool(self._rollback_data)
abbrev pub has_data : RollbackData → Bool
has_data none = false
has_data (some []) = false
has_data (some (_ ∷ _)) = true

abbrev pub new_result : ProvisionerAction → ℕ → ProvisionerResult
new_result action start = record {
  success = false;
  action = action;
  started_at = start;
  completed_at = none;
  plan_output = none;
  diff_output = none;
  apply_output = none;
  post_check_output = none;
  rollback_output = none;
  hitl_approved = false;
  hitl_approved_at = none;
  aborted = false;
  aborted_at = none;
  aborted_reason = none;
  rollback_triggered = false;
  rollback_reason = none;
}

abbrev pub applied_stage : ProvisionerStage → Bool
applied_stage apply = true
applied_stage post_check = true
applied_stage validate = false
applied_stage plan = false
applied_stage diff = false
applied_stage summary = false
applied_stage hitl = false
applied_stage rollback = false

unfoldable pub stage_value : ProvisionerStage → String
stage_value validate = "validate"
stage_value plan = "plan"
stage_value diff = "diff"
stage_value summary = "summary"
stage_value hitl = "hitl"
stage_value apply = "apply"
stage_value post_check = "post_check"
stage_value rollback = "rollback"

-- '; '.join(errors)
unfoldable pub join_errors : List String → String
join_errors [] = ""
join_errors (e ∷ []) = e
join_errors (e ∷ f ∷ es) = e <> "; " <> join_errors (f ∷ es)

abbrev pub is_delete : ProvisionerAction → Bool
is_delete create = false
is_delete update = false
is_delete delete = true

abbrev pub no_changes : PlanOutput → Bool
no_changes p =
    p.resources_to_create == 0 && p.resources_to_update == 0 && p.resources_to_delete == 0

module _ {W : Type 0} where
  abbrev pub enter : ProvisionerStage → Exec (Run W) (Unit {0})
  enter t = modify λ s. record s { stage = t }

  abbrev pub set : (ProvisionerResult → ProvisionerResult) → Exec (Run W) (Unit {0})
  set f = modify λ s. record s { result = f s.result }

  abbrev pub await : {A : Type 0} → Exec W A → Exec (Run W) A
  await = zoom (λ s. s.world) (λ w s. record s { world = w })

  abbrev pub abort : ProvisionerStage → String → Exec (Run W) (Unit {0})
  abort t reason =
      set λ r. record r { aborted = true; aborted_at = some t; aborted_reason = some reason }

module _ {W : Type 0} (p : Provisioner W) (deps : ProvisionerDeps) where
  unfoldable pub read_now : Exec (Run W) ℕ
  read_now s = let r = p.now s.world in (returned r.0, record s { world = r.1 })

  abbrev pub approve : Option (Approval W) → PlanOutput → DiffOutput → Exec (Run W) Bool
  approve none a d = pure true
  approve (some ask) a d =
      await (ask a (if d.has_changes then some d.diff_text else none) (is_delete deps.action))

  -- Without an approval service in the context the request is approved.
  unfoldable pub request_hitl : PlanOutput → DiffOutput → Exec (Run W) Bool
  request_hitl = approve p.hitl

  unfoldable pub recover_rollback : Outcome RollbackOutput → Outcome RollbackOutput
  recover_rollback (returned r) = returned r
  recover_rollback (raised e) =
      returned (record { success = false; resources_rolled_back = []; errors = e ∷ [] })
  recover_rollback cancelled = cancelled

  unfoldable pub safe_rollback : Exec (Run W) RollbackOutput
  unfolding recover_rollback
  safe_rollback s =
      let r = p.rollback s.world in
      (recover_rollback r.0, record s { world = r.1; stage = rollback })

  unfoldable pub trigger_rollback : String → Exec (Run W) (Unit {0})
  trigger_rollback reason = do
    set λ r. record r { rollback_triggered = true; rollback_reason = some reason }
    b ← safe_rollback
    set λ r. record r { rollback_output = some b }

  -- Stages 5 and 6. The data of the apply stage is what `_rollback_data` has from there on.
  unfoldable pub apply_stages : Exec (Run W) (Unit {0})
  apply_stages = do
    enter apply
    a ← await p.apply
    set λ r. record r { apply_output = some a }
    modify λ s. record s { rollback_data = a.rollback_data }
    if a.success
        then (do
          enter post_check
          c ← await p.post_check
          set λ r. record r { post_check_output = some c }
          if c.success
              then (set λ r. record r { success = true })
              else if deps.auto_rollback && has_data a.rollback_data
              then trigger_rollback "Post-check verification failed"
              else pure tt)
        else if deps.auto_rollback && has_data a.rollback_data
        then trigger_rollback "Apply stage failed"
        else pure tt

  unfoldable pub approved_stages : Exec (Run W) (Unit {0})
  approved_stages = do
    set λ r. record r { hitl_approved = true }
    t ← read_now
    set λ r. record r { hitl_approved_at = some t }
    if deps.dry_run
        then (do set λ r. record r { success = true }; abort apply "Dry-run mode: apply skipped")
        else apply_stages

  unfoldable pub approval_stages : PlanOutput → DiffOutput → Exec (Run W) (Unit {0})
  approval_stages a d = do
    enter hitl
    approved ← request_hitl a d
    if approved then approved_stages else abort hitl "User declined changes"

  unfoldable pub diff_stages : PlanOutput → Exec (Run W) (Unit {0})
  diff_stages a = do
    enter diff
    d ← await p.diff
    set λ r. record r { diff_output = some d }
    if d.success then approval_stages a d else abort diff "Diff generation failed"

  unfoldable pub plan_stages : Exec (Run W) (Unit {0})
  plan_stages = do
    enter plan
    a ← await p.plan
    set λ r. record r { plan_output = some a }
    if a.success
        then if no_changes a
          then (do set λ r. record r { success = true }; abort plan "No changes to apply")
          else diff_stages a
        else abort plan "Planning failed"

  -- The `try` block.
  unfoldable pub try_stages : Exec (Run W) (Unit {0})
  try_stages = do
    enter validate
    v ← await p.validate
    if v.0 then plan_stages else abort validate ("Validation failed: " <> join_errors v.1)

  -- The `except Exception` block.
  unfoldable pub handle_exception : String → Exec (Run W) (Unit {0})
  handle_exception e s =
      (set (λ r. record r {
        aborted = true;
        aborted_at = some s.stage;
        aborted_reason = some ("Exception: " <> e);
      })
          >> (if applied_stage s.stage && deps.auto_rollback && has_data s.rollback_data
              then trigger_rollback ("Exception during " <> stage_value s.stage)
              else pure tt))
        s

  unfoldable pub catch : Outcome (Unit {0}) → Exec (Run W) (Unit {0})
  catch (returned _) s = (returned tt, s)
  catch (raised e) s = handle_exception e s
  catch cancelled s = (cancelled, s)

  unfoldable pub finalize_result : Exec (Run W) ProvisionerResult
  finalize_result s =
      let t = p.now s.world in
      let r = record s.result { completed_at = some t.0 } in
      (returned r, record s { world = t.1; result = r })

  unfoldable pub execute : Exec (Run W) ProvisionerResult
  execute s =
      let t = p.now s.world in
      let b = try_stages (record s { world = t.1; result = new_result deps.action t.0 }) in
      (catch b.0 >>= λ _. finalize_result) b.1
