-- ===== src/Pipelines.antt =====
-- merlya/pipelines/base.py: the change pipeline Plan -> Diff -> Summary -> HITL -> Apply ->
-- Post-check -> Rollback. What a subclass implements, the prompt and the clock are the fields of
-- `Pipeline`, actions on a world `W` that may return, raise or be cancelled. The summary text goes
-- to the log alone and is left out, and so are the metadata fields that nothing reads.
mod Execute
pub mod Safety
pub mod Records
pub mod Traces
pub mod Rollback
pub mod Risk
pub mod Bash
mod Examples
use merlya.Common.{
  ℕ, String, ◌<>◌, Bool, true, false, ◌&&◌, ◌||◌, Option, none, some, List, [], ◌∷◌, ltb,
  if◌then◌else◌,
}
use merlya.Common.Outcome.{
  Outcome, returned, raised, cancelled, Exec, ◌>>=◌, ◌>>◌, pure, modify, zoom,
}
use merlya.Common.Clock.{ℤ, pos, ms_between}

pub data PipelineStage : Type 0 where
  plan diff summary hitl apply post_check rollback : PipelineStage

-- The value of the StrEnum, which is what an f-string prints.
unfoldable pub stage_value : PipelineStage → String
stage_value plan = "plan"
stage_value diff = "diff"
stage_value summary = "summary"
stage_value hitl = "hitl"
stage_value apply = "apply"
stage_value post_check = "post_check"
stage_value rollback = "rollback"

pub record PlanResult : Type 0 where
  pub success : Bool
  pub plan_output : String
  pub resources_affected : List String
  pub warnings : List String
  pub errors : List String

pub record DiffResult : Type 0 where
  pub success : Bool
  pub diff_output : String
  pub additions : ℕ
  pub modifications : ℕ
  pub deletions : ℕ
  pub unchanged : ℕ
  pub risk_assessment : String

-- The values of `rollback_data` are carried as text: only emptiness is ever tested.
abbrev pub RollbackData : Type 0
RollbackData = List (String × String)

pub record ApplyResult : Type 0 where
  pub success : Bool
  pub output : String
  pub resources_created : List String
  pub resources_modified : List String
  pub resources_deleted : List String
  pub duration_ms : ℕ
  pub rollback_data : RollbackData

pub record RollbackResult : Type 0 where
  pub success : Bool
  pub output : String
  pub resources_restored : List String
  pub partial : Bool
  pub errors : List String

pub record PostCheckResult : Type 0 where
  pub success : Bool
  pub checks_passed : List String
  pub checks_failed : List String
  pub warnings : List String

pub record PipelineResult : Type 0 where
  pub success : Bool
  pub aborted : Bool
  pub aborted_at : Option PipelineStage
  pub aborted_reason : Option String
  pub plan_result : Option PlanResult
  pub diff_result : Option DiffResult
  pub apply_result : Option ApplyResult
  pub post_check_result : Option PostCheckResult
  pub rollback_result : Option RollbackResult
  pub rollback_triggered : Bool
  pub rollback_reason : Option String
  pub started_at : ℕ
  pub completed_at : Option ℕ
  pub duration_ms : ℤ
  pub hitl_approved : Bool
  pub hitl_approved_at : Option ℕ

pub record PipelineDeps : Type 0 where
  pub target : String
  pub task : String
  pub dry_run : Bool
  pub auto_rollback : Bool

-- The abstract methods, `ctx.ui.prompt_confirm(message, default)` and `datetime.now(UTC)`.
pub record Pipeline (W : Type 0) : Type 0 where
  pub name : String
  pub plan : Exec W PlanResult
  pub diff : Exec W DiffResult
  pub apply : Exec W ApplyResult
  pub rollback : Exec W RollbackResult
  pub post_check : Exec W PostCheckResult
  pub prompt_confirm : String → Bool → Exec W Bool
  pub now : W → ℕ × W

-- The world, the object's fields `_current_stage` and `_rollback_data`, and the local `result`.
pub record Run (W : Type 0) : Type 0 where
  pub world : W
  pub stage : Option PipelineStage
  pub rollback_data : RollbackData
  pub result : PipelineResult

abbrev pub nonempty : RollbackData → Bool
nonempty [] = false
nonempty (_ ∷ _) = true

-- PipelineResult(success=False, started_at=start_time)
abbrev pub new_result : ℕ → PipelineResult
new_result start = record {
  success = false;
  aborted = false;
  aborted_at = none;
  aborted_reason = none;
  plan_result = none;
  diff_result = none;
  apply_result = none;
  post_check_result = none;
  rollback_result = none;
  rollback_triggered = false;
  rollback_reason = none;
  started_at = start;
  completed_at = none;
  duration_ms = pos 0;
  hitl_approved = false;
  hitl_approved_at = none;
}

pub data RiskLevel : Type 0 where
  low medium high critical : RiskLevel

unfoldable pub assess_risk_level : DiffResult → RiskLevel
assess_risk_level d =
    if ltb 5 d.deletions
    then critical
    else if ltb 0 d.deletions || ltb 10 d.modifications
    then high
    else if ltb 0 d.modifications
    then medium
    else low

-- The emoji and `risk_level.upper()`.
unfoldable pub risk_label : RiskLevel → String
risk_label low = "🟢 [LOW]"
risk_label medium = "🟡 [MEDIUM]"
risk_label high = "🟠 [HIGH]"
risk_label critical = "🔴 [CRITICAL]"

-- self._current_stage in (PipelineStage.APPLY, PipelineStage.POST_CHECK)
abbrev pub applied_stage : Option PipelineStage → Bool
applied_stage (some apply) = true
applied_stage (some post_check) = true
applied_stage _ = false

abbrev pub stage_text : Option PipelineStage → String
stage_text none = "None"
stage_text (some t) = stage_value t

module _ {W : Type 0} where
  abbrev pub enter : PipelineStage → Exec (Run W) (Unit {0})
  enter t = modify λ s. record s { stage = some t }

  abbrev pub set : (PipelineResult → PipelineResult) → Exec (Run W) (Unit {0})
  set f = modify λ s. record s { result = f s.result }

  -- `await` of an action on the world.
  abbrev pub await : {A : Type 0} → Exec W A → Exec (Run W) A
  await = zoom (λ s. s.world) (λ w s. record s { world = w })

  -- The three assignments that come before each early return of an aborted run.
  abbrev pub abort : PipelineStage → String → Exec (Run W) (Unit {0})
  abort t reason =
      set λ r. record r { aborted = true; aborted_at = some t; aborted_reason = some reason }

module _ {W : Type 0} (p : Pipeline W) (deps : PipelineDeps) where
  pub read_now : Exec (Run W) ℕ
  read_now s = let r = p.now s.world in (returned r.0, record s { world = r.1 })

  unfoldable pub request_hitl : DiffResult → Exec (Run W) Bool
  request_hitl d = await (
      p.prompt_confirm (risk_label (assess_risk_level d) <> " Approve " <> p.name <> " changes?")
        false)

  -- Only an `Exception` of `rollback()` is turned into a failed result.
  unfoldable pub recover_rollback : Outcome RollbackResult → Outcome RollbackResult
  recover_rollback (returned r) = returned r
  recover_rollback (raised e) = returned (record {
    success = false;
    output = "";
    resources_restored = [];
    partial = false;
    errors = ("Rollback failed: " <> e) ∷ [];
  })
  recover_rollback cancelled = cancelled

  unfoldable pub safe_rollback : Exec (Run W) RollbackResult
  unfolding recover_rollback
  safe_rollback s =
      let r = p.rollback s.world in
      (recover_rollback r.0, record s { world = r.1; stage = some rollback })

  -- rollback_triggered, rollback_reason and rollback are set in this order at three places.
  unfoldable pub trigger_rollback : String → Exec (Run W) (Unit {0})
  trigger_rollback reason = do
    set λ r. record r { rollback_triggered = true; rollback_reason = some reason }
    b ← safe_rollback
    set λ r. record r { rollback_result = some b }

  -- Stages 5 and 6, after the approval.
  unfoldable pub apply_stages : Exec (Run W) (Unit {0})
  apply_stages = do
    enter apply
    a ← await p.apply
    set λ r. record r { apply_result = some a }
    modify λ s. record s { rollback_data = a.rollback_data }
    if a.success
        then (do
          enter post_check
          c ← await p.post_check
          set λ r. record r { post_check_result = some c }
          if c.success
              then (set λ r. record r { success = true })
              else if deps.auto_rollback
              then trigger_rollback "Post-check verification failed"
              else pure tt)
        else if deps.auto_rollback
        then trigger_rollback "Apply stage failed"
        else pure tt

  -- What follows `if not approved`.
  unfoldable pub approved_stages : Exec (Run W) (Unit {0})
  approved_stages = do
    set λ r. record r { hitl_approved = true }
    t ← read_now
    set λ r. record r { hitl_approved_at = some t }
    if deps.dry_run
        then (do set λ r. record r { success = true }; abort apply "Dry-run mode: apply skipped")
        else apply_stages

  unfoldable pub approval_stages : DiffResult → Exec (Run W) (Unit {0})
  approval_stages d = do
    enter summary
    enter hitl
    approved ← request_hitl d
    if approved then approved_stages else abort hitl "HITL: User declined changes"

  -- The `try` block. Each early return ends it; the final result is completed by `execute`.
  unfoldable pub try_stages : Exec (Run W) (Unit {0})
  try_stages = do
    enter plan
    a ← await p.plan
    set λ r. record r { plan_result = some a }
    if a.success
        then (do
          enter diff
          d ← await p.diff
          set λ r. record r { diff_result = some d }
          if d.success then approval_stages d else abort diff "Diff generation failed")
        else abort plan "Planning failed"

  -- The `except Exception` block.
  unfoldable pub handle_exception : String → Exec (Run W) (Unit {0})
  handle_exception e s =
      (set (λ r. record r {
        aborted = true;
        aborted_at = s.stage;
        aborted_reason = some ("Exception: " <> e);
      })
          >> (if applied_stage s.stage && deps.auto_rollback && nonempty s.rollback_data
              then trigger_rollback ("Exception during " <> stage_text s.stage)
              else pure tt))
        s

  unfoldable pub catch : Outcome (Unit {0}) → Exec (Run W) (Unit {0})
  catch (returned _) s = (returned tt, s)
  catch (raised e) s = handle_exception e s
  catch cancelled s = (cancelled, s)

  unfoldable pub finalize_result : Exec (Run W) PipelineResult
  finalize_result s =
      let t = p.now s.world in
      let r = record s.result {
        completed_at = some t.0;
        duration_ms = ms_between s.result.started_at t.0;
      } in
      (returned r, record s { world = t.1; result = r })

  unfoldable pub execute : Exec (Run W) PipelineResult
  execute s =
      let t = p.now s.world in
      let b = try_stages (record s { world = t.1; result = new_result t.0 }) in
      (catch b.0 >>= λ _. finalize_result) b.1
