-- ===== src/Pipelines/Rollback.antt =====
-- An exception that `apply()` raises is not rolled back: `_rollback_data` is written only after
-- `apply()` has returned.
use merlya.Common.{String, ◌≡◌, refl, false, [], arith}
use merlya.Common.Outcome.{Outcome, raised, ◌>>=◌}
use merlya.Common.Outcome.Triple.{Triple, triple_rules, Triple-bind, Triple-seq, Triple-modify}
use merlya.Pipelines.Execute.{execute-state}
use merlya.Pipelines.{
  PipelineDeps, Pipeline, DiffResult, Run, execute, apply_stages, approval_stages, approved_stages,
  try_stages, request_hitl, read_now, catch, handle_exception, finalize_result, await,
}

abbrev NoRollback : {W : Type 0} → Run W → Type 0
NoRollback s = (s.rollback_data ≡ []) × (s.result.rollback_triggered ≡ false)

module _ {W : Type 0} (p : Pipeline W) (deps : PipelineDeps)
    (raises : (w : W) → (e : String) × ((p.apply w).0 ≡ raised e)) where
  abbrev Kept : Run W → Type 0
  Kept = NoRollback

  await_apply-raises : Triple Kept (await p.apply) (λ _ _. ⊥) Kept
  unfolding ◌>>=◌
  await_apply-raises = record { at = λ s h. rw ((raises s.world).1) h }

  apply_stages-Kept : Triple Kept (apply_stages p deps) (λ _. Kept) Kept
  unfolding apply_stages
  apply_stages-Kept =
      Triple-seq {P = Kept} _ _ (Triple-modify {Q = λ _. Kept} _ (λ s h. h))
        λ _. Triple-bind _ _ await_apply-raises (λ a. record { at = λ s h. absurd h })

  read_now-Kept : Triple Kept (read_now p deps) (λ _. Kept) Kept
  unfolding read_now
  read_now-Kept = record { at = λ s h. h }

  approved_stages-Kept : Triple Kept (approved_stages p deps) (λ _. Kept) Kept
  unfolding approved_stages
  approved_stages-Kept = search (triple_rules, read_now-Kept, apply_stages-Kept) depth 20

  request_hitl-Kept : (d : DiffResult) → Triple Kept (request_hitl p deps d) (λ _. Kept) Kept
  unfolding request_hitl
  request_hitl-Kept d = search triple_rules

  approval_stages-Kept : (d : DiffResult) → Triple Kept (approval_stages p deps d) (λ _. Kept) Kept
  unfolding approval_stages
  approval_stages-Kept d = search (triple_rules, approved_stages-Kept, request_hitl-Kept) depth 20

  try_stages-Kept : Triple Kept (try_stages p deps) (λ _. Kept) Kept
  unfolding try_stages
  try_stages-Kept = search (triple_rules, approval_stages-Kept) depth 20

  catch-Kept : (o : Outcome (Unit {0})) → Triple Kept (catch p deps o) (λ _. Kept) Kept
  unfolding catch handle_exception ◌>>=◌
  catch-Kept o = record { at = λ s h. ground arith }

  finalize_result-Kept : Triple Kept (finalize_result p deps) (λ _. Kept) Kept
  unfolding finalize_result
  finalize_result-Kept = record { at = λ s h. h }

  -- Where `apply()` raises an exception in every world, a pipeline object that holds no rollback
  -- data never triggers a rollback, whatever the other stages do and also with `auto_rollback`.
  pub raising_apply-no_rollback :
      (s : Run W) → s.rollback_data ≡ [] → (execute p deps s).1.result.rollback_triggered ≡ false
  raising_apply-no_rollback s h =
      (execute-state p deps Kept Kept try_stages-Kept catch-Kept finalize_result-Kept s (h, refl)).1
