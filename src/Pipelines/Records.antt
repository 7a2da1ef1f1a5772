-- ===== src/Pipelines/Records.antt =====
-- What the final `PipelineResult` says about the run.
use merlya.Common.{String, ◌≡◌, refl, Bool, true, false, Option, none, some, arith, ◌⊎◌, ◌&&◌, not}
use merlya.Common.Outcome.{Outcome, Exec, returned, raised, cancelled, ◌>>=◌, ◌>>◌}
use merlya.Common.Outcome.Triple.{
  Triple, Ends, triple_rules, Triple-bind, Triple-seq, Triple-if, Triple-modify, Triple-zoom,
}
use merlya.Pipelines.{
  PipelineDeps, Pipeline, PipelineStage, PlanResult, DiffResult, applied_stage, abort, set, enter,
  await, new_result, Run, PipelineResult, ApplyResult, PostCheckResult, execute, try_stages,
  approval_stages, approved_stages, apply_stages, trigger_rollback, safe_rollback, request_hitl,
  read_now, catch, handle_exception, finalize_result,
}

abbrev pub applied : Option ApplyResult → Bool
applied none = false
applied (some a) = a.success

abbrev checked : Option PostCheckResult → Bool
checked none = false
checked (some c) = c.success

-- A result is there, and it is a failure.
abbrev apply_failed : Option ApplyResult → Bool
apply_failed none = false
apply_failed (some a) = not a.success

abbrev check_failed : Option PostCheckResult → Bool
check_failed none = false
check_failed (some c) = not c.success

abbrev pub is_some : {A : Type 0} → Option A → Bool
is_some none = false
is_some (some _) = true

pub record IsConsistent (deps : PipelineDeps) (r : PipelineResult) : Type 0 where
  pub complete :
      r.success ≡ true
      → r.aborted ≡ false
      → (applied r.apply_result ≡ true) × (checked r.post_check_result ≡ true)
  pub dry :
      r.success ≡ true → r.aborted ≡ true → (deps.dry_run ≡ true) × (is_some r.apply_result ≡ false)
  pub approved : r.success ≡ true → r.hitl_approved ≡ true
  pub failed :
      r.success ≡ false
      → r.aborted ≡ false
      → (apply_failed r.apply_result ≡ true)
        ⊎ ((applied r.apply_result ≡ true) × (check_failed r.post_check_result ≡ true))
  pub rolled_back :
      r.rollback_triggered ≡ true
      → (deps.auto_rollback ≡ true)
        × (r.success ≡ false)
        × (r.hitl_approved ≡ true)
        × (deps.dry_run ≡ false)
  pub live : is_some r.apply_result ≡ true → (r.hitl_approved ≡ true) × (deps.dry_run ≡ false)
  pub undone : r.aborted ≡ false → is_some r.rollback_result ≡ r.rollback_triggered
  pub rolled_back_exactly :
      r.aborted ≡ false → r.rollback_triggered ≡ (deps.auto_rollback && not r.success)

-- A result before the apply stage, and whether it is approved.
record Ready (approved : Bool) (r : PipelineResult) : Type 0 where
  success : r.success ≡ false
  aborted : r.aborted ≡ false
  asked : r.hitl_approved ≡ approved
  unapplied : r.apply_result ≡ none
  unchecked : r.post_check_result ≡ none
  untriggered : r.rollback_triggered ≡ false
  not_undone : r.rollback_result ≡ none

-- What an exception leaves behind.
record IsInterrupted {W : Type 0} (deps : PipelineDeps) (s : Run W) : Type 0 where
  success : s.result.success ≡ false
  staged : applied_stage s.stage ≡ true → (s.result.hitl_approved ≡ true) × (deps.dry_run ≡ false)
  live :
      is_some s.result.apply_result ≡ true
      → (s.result.hitl_approved ≡ true) × (deps.dry_run ≡ false)
  rolled_back :
      s.result.rollback_triggered ≡ true
      → (deps.auto_rollback ≡ true) × (s.result.hitl_approved ≡ true) × (deps.dry_run ≡ false)

-- Before the approval, and no change has begun.
record IsPending {W : Type 0} (approved : Bool) (s : Run W) : Type 0 where
  ready : Ready approved s.result
  unstaged : applied_stage s.stage ≡ false

module _ {W : Type 0} (p : Pipeline W) (deps : PipelineDeps) where
  abbrev Done : Run W → Type 0
  Done s = IsConsistent deps s.result

  apply_stages-Done :
      deps.dry_run ≡ false
      → Triple (IsPending true) (apply_stages p deps) (λ _. Done) (IsInterrupted deps)
  unfolding apply_stages trigger_rollback safe_rollback ◌>>=◌
  apply_stages-Done live = record { at = λ s h. ground arith }

  read_now-IsPending :
      Triple (IsPending true) (read_now p deps) (λ _. IsPending true) (IsInterrupted deps)
  unfolding read_now
  read_now-IsPending = record { at = λ s h. ground arith }

  abort-Done :
      (b : Bool) (t : PipelineStage) (m : String)
      → Triple (IsPending b) (abort t m) (λ _. Done) (IsInterrupted deps)
  abort-Done b t m = Triple-modify _ (λ s h. ground arith)

  dry-Done :
      (t : PipelineStage) (m : String)
      → deps.dry_run ≡ true
      → Triple
          (IsPending true)
          (set (λ r. record r { success = true }) >> abort t m)
          (λ _. Done)
          (IsInterrupted deps)
  unfolding ◌>>=◌
  dry-Done t m d = record { at = λ s h. ground arith }

  approved_stages-Done :
      Triple (IsPending false) (approved_stages p deps) (λ _. Done) (IsInterrupted deps)
  unfolding approved_stages
  approved_stages-Done =
      Triple-bind {R = λ _. IsPending true} _ _ (Triple-modify _ (λ s h. ground arith)) λ _.
        Triple-seq _ _ read_now-IsPending λ t.
          Triple-bind {R = λ _. IsPending true} _ _ (Triple-modify _ (λ s h. ground arith))
            λ _. Triple-if _ _ _ (dry-Done _ _) apply_stages-Done

  request_hitl-IsPending :
      (d : DiffResult)
      → Triple (IsPending false) (request_hitl p deps d) (λ _. IsPending false) (IsInterrupted deps)
  unfolding request_hitl
  request_hitl-IsPending d = Triple-zoom _ _ _ (λ s h a e. ground arith) (λ s h. ground arith)

  await-IsPending :
      {A : Type 0} (m : Exec W A)
      → Triple (IsPending false) (await m) (λ _. IsPending false) (IsInterrupted deps)
  await-IsPending m = Triple-zoom _ _ _ (λ s h a e. ground arith) (λ s h. ground arith)

  enter-IsPending :
      (t : PipelineStage)
      → applied_stage (some t) ≡ false
      → Triple {S = Run W} (IsPending false) (enter t) (λ _. IsPending false) (IsInterrupted deps)
  enter-IsPending t e = Triple-modify _ (λ s h. record { ready = h.ready; unstaged = e })

  approval_stages-Done :
      (d : DiffResult)
      → Triple (IsPending false) (approval_stages p deps d) (λ _. Done) (IsInterrupted deps)
  unfolding approval_stages
  approval_stages-Done d =
      search
        (triple_rules, approved_stages-Done, request_hitl-IsPending, enter-IsPending, abort-Done)
        depth 20

  set_plan-IsPending :
      (a : PlanResult)
      → Triple {S = Run W}
          (IsPending false)
          (set (λ r. record r { plan_result = some a }))
          (λ _. IsPending false)
          (IsInterrupted deps)
  set_plan-IsPending a = Triple-modify _ (λ s h. ground arith)

  set_diff-IsPending :
      (a : DiffResult)
      → Triple {S = Run W}
          (IsPending false)
          (set (λ r. record r { diff_result = some a }))
          (λ _. IsPending false)
          (IsInterrupted deps)
  set_diff-IsPending a = Triple-modify _ (λ s h. ground arith)

  try_stages-Done :
      Triple (λ s. Ready false s.result) (try_stages p deps) (λ _. Done) (IsInterrupted deps)
  unfolding try_stages
  try_stages-Done =
      Triple-bind {R = λ _. IsPending false} _ _
        (Triple-modify _ (λ s h. record { ready = h; unstaged = refl }))
        λ _.
          search
            (
              triple_rules, approval_stages-Done, await-IsPending, enter-IsPending, abort-Done,
              set_plan-IsPending, set_diff-IsPending,
            )
            depth 20

  handle_exception-Done :
      (e : String) → Triple (IsInterrupted deps) (handle_exception p deps e) (λ _. Done) (λ _. Unit)
  unfolding handle_exception trigger_rollback safe_rollback ◌>>=◌
  handle_exception-Done e = record { at = λ s h. ground arith }

  finalize_result-Done :
      Triple Done (finalize_result p deps) (λ r _. IsConsistent deps r) (λ _. Unit)
  unfolding finalize_result
  finalize_result-Done = record { at = λ s h. ground arith }

  completed :
      (o : Outcome (Unit {0})) (s : Run W)
      → Ends (λ _. Done) (IsInterrupted deps) o s
      → Ends
          (λ r _. IsConsistent deps r)
          (λ _. Unit {0})
          ((catch p deps o >>= λ _. finalize_result p deps) s).0
          ((catch p deps o >>= λ _. finalize_result p deps) s).1
  unfolding catch ◌>>=◌ finalize_result
  completed (returned _) s h = ground arith
  completed (raised e) s h =
      (Triple-bind _ _ (handle_exception-Done e) (λ _. finalize_result-Done)).at s h
  completed cancelled s h = tt

  -- Every result that `execute` returns is consistent in its fields.
  pub execute-IsConsistent :
      (s : Run W) {r : PipelineResult} → (execute p deps s).0 ≡ returned r → IsConsistent deps r
  unfolding execute
  execute-IsConsistent s e =
      let t = p.now s.world in
      let s' = record s { world = t.1; result = new_result t.0 } in
      let b = try_stages p deps s' in
      rw e at (completed b.0 b.1 (try_stages-Done.at s' (ground arith)))
