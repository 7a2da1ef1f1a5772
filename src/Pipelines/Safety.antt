-- ===== src/Pipelines/Safety.antt =====
-- Nothing is applied without an approval.
use merlya.Common.{
  String, ◌≡◌, refl, ◌⊎◌, inl, inr, Bool, true, false, some, arith, ◌∙◌, ap, if◌then◌else◌,
}
use merlya.Common.Outcome.{Outcome, returned, raised, cancelled, pure, ◌>>=◌, ◌>>◌}
use merlya.Common.Outcome.Triple.{
  Triple, Ends, Triple-bind, Triple-if, Triple-modify, Triple-zoom, Triple-pre, Triple-post,
  Triple-seq, triple_rules,
}
use merlya.Pipelines.Execute.{execute-state}
use merlya.Pipelines.{
  PipelineStage, PipelineDeps, Pipeline, Run, apply_stages, approval_stages, request_hitl,
  DiffResult, try_stages, read_now, trigger_rollback, safe_rollback, applied_stage, approved_stages,
  handle_exception, catch, await, enter, abort, set, PipelineResult, execute, finalize_result,
}

-- The parts of a run that come before an approval, and the clock, keep `P`.
pub record KeepsBefore {W : Type 0} (P : W → Type 0) (p : Pipeline W) : Type 0 where
  pub plan : (w : W) → P w → P (p.plan w).1
  pub diff : (w : W) → P w → P (p.diff w).1
  pub confirm : (m : String) (d : Bool) (w : W) → P w → P (p.prompt_confirm m d w).1
  pub now : (w : W) → P w → P (p.now w).1

-- `P` holds and no change has begun.
abbrev Before : {W : Type 0} → (W → Type 0) → Run W → Type 0
Before P s = P s.world × (applied_stage s.stage ≡ false)

-- The run is approved and is no dry run.
abbrev Live : {W : Type 0} → PipelineDeps → Run W → Type 0
Live deps s = (s.result.hitl_approved ≡ true) × (deps.dry_run ≡ false)

-- The user, asked in a world with `P` with `False` as the default answer, says yes.
abbrev pub SaysYes : {W : Type 0} → (W → Type 0) → Pipeline W → Type 0
SaysYes {W} P p = (w : W) × (m : String) × P w × ((p.prompt_confirm m false w).0 ≡ returned true)

abbrev Guarded : {W : Type 0} → (W → Type 0) → Pipeline W → PipelineDeps → Run W → Type 0
Guarded P p deps s = Before P s ⊎ (SaysYes P p × Live deps s)

module _ {W : Type 0} (p : Pipeline W) (deps : PipelineDeps) where
  safe_rollback-Live : Triple (Live deps) (safe_rollback p deps) (λ _. Live deps) (Live deps)
  unfolding safe_rollback
  safe_rollback-Live = record { at = λ s h. ground arith }

  trigger_rollback-Live :
      (m : String) → Triple (Live deps) (trigger_rollback p deps m) (λ _. Live deps) (Live deps)
  unfolding trigger_rollback
  trigger_rollback-Live m = search (triple_rules, safe_rollback-Live)

  apply_stages-Live : Triple (Live deps) (apply_stages p deps) (λ _. Live deps) (Live deps)
  unfolding apply_stages
  apply_stages-Live = search (triple_rules, trigger_rollback-Live) depth 20

module _ {W : Type 0} (P : W → Type 0) (p : Pipeline W) (deps : PipelineDeps)
    (k : KeepsBefore P p) where
  abbrev Approved : Run W → Type 0
  Approved s = Before P s × (s.result.hitl_approved ≡ true)

  enter-keep :
      (t : PipelineStage)
      → applied_stage (some t) ≡ false
      → Triple (Before P) (enter t) (λ _. Before P) (Guarded P p deps)
  enter-keep t e = Triple-modify _ (λ s h. (h.0, e))

  abort-keep :
      (t : PipelineStage) (m : String)
      → Triple (Before P) (abort t m) (λ _. Guarded P p deps) (Guarded P p deps)
  abort-keep t m = Triple-modify _ (λ s h. inl h)

  plan-keep : Triple (Before P) (await p.plan) (λ _. Before P) (Guarded P p deps)
  plan-keep =
      Triple-zoom _ _ _ (λ s h a e. (k.plan s.world h.0, h.1))
        (λ s h. inl (k.plan s.world h.0, h.1))

  diff-keep : Triple (Before P) (await p.diff) (λ _. Before P) (Guarded P p deps)
  diff-keep =
      Triple-zoom _ _ _ (λ s h a e. (k.diff s.world h.0, h.1))
        (λ s h. inl (k.diff s.world h.0, h.1))

  request_hitl-keep :
      (d : DiffResult)
      → Triple
          (Before P)
          (request_hitl p deps d)
          (λ b s. Before P s × (b ≡ true → SaysYes P p))
          (Guarded P p deps)
  unfolding request_hitl
  request_hitl-keep d =
      Triple-zoom _ _ _
        (λ s h a e. ((k.confirm _ _ s.world h.0, h.1), λ y. (s.world, _, h.0, e ∙ ap returned y)))
        (λ s h. inl (k.confirm _ _ s.world h.0, h.1))

  read_now-Approved : Triple Approved (read_now p deps) (λ _. Approved) (Guarded P p deps)
  unfolding read_now
  read_now-Approved = record { at = λ s h. ((k.now s.world h.0.0, h.0.1), h.1) }

  abort-Approved :
      (t : PipelineStage) (m : String)
      → Triple Approved (abort t m) (λ _. Guarded P p deps) (Guarded P p deps)
  abort-Approved t m = Triple-modify _ (λ s h. inl h.0)

  apply-Approved :
      SaysYes P p
      → deps.dry_run ≡ false
      → Triple Approved (apply_stages p deps) (λ _. Guarded P p deps) (Guarded P p deps)
  apply-Approved y live =
      Triple-post _ (λ _ s l. inr (y, l)) (λ s l. inr (y, l))
        (Triple-pre _ (λ s h. (h.1, live)) (apply_stages-Live p deps))

  approved_stages-keep :
      SaysYes P p
      → Triple (Before P) (approved_stages p deps) (λ _. Guarded P p deps) (Guarded P p deps)
  unfolding approved_stages
  approved_stages-keep y =
      Triple-bind {R = λ _. Approved} _ _ (Triple-modify _ (λ s h. (h, refl)))
        λ _. search (triple_rules, read_now-Approved, abort-Approved, apply-Approved y) depth 20

  approval_stages-keep :
      (d : DiffResult)
      → Triple (Before P) (approval_stages p deps d) (λ _. Guarded P p deps) (Guarded P p deps)
  unfolding approval_stages
  approval_stages-keep d = Triple-seq _ _ (enter-keep _ refl) λ _.
      Triple-seq _ _ (enter-keep _ refl) λ _. Triple-bind _ _ (request_hitl-keep d) λ b.
        Triple-if _ _ _ (λ e. record { at = λ s h. (approved_stages-keep (h.1 e)).at s h.0 })
          (λ e. Triple-pre _ (λ s h. h.0) (abort-keep _ _))

  try_stages-keep :
      Triple (λ s. P s.world) (try_stages p deps) (λ _. Guarded P p deps) (Guarded P p deps)
  unfolding try_stages
  try_stages-keep = Triple-bind {R = λ _. Before P} _ _ (Triple-modify _ (λ s h. (h, refl))) λ _.
      search (triple_rules, approval_stages-keep, plan-keep, diff-keep, enter-keep, abort-keep)
        depth 20

  rollback_if-keep :
      SaysYes P p
      → (f : PipelineResult → PipelineResult) (b : Bool) (m : String)
      → ((r : PipelineResult) → (f r).hitl_approved ≡ r.hitl_approved)
      → Triple
          (Live deps)
          (set f >> (if b then trigger_rollback p deps m else pure tt))
          (λ _. Guarded P p deps)
          (Guarded P p deps)
  rollback_if-keep y f b m e =
      Triple-post _ (λ _ s l. inr (y, l)) (λ s l. inr (y, l))
        (Triple-seq _ _ (Triple-modify _ (λ s h. (e s.result ∙ h.0, h.1)))
          λ _. search (triple_rules, trigger_rollback-Live p deps))

  handle_exception-keep :
      (e : String)
      → Triple
          (Guarded P p deps)
          (handle_exception p deps e)
          (λ _. Guarded P p deps)
          (Guarded P p deps)
  unfolding handle_exception
  handle_exception-keep e = record { at = λ s h. guarded s h }
    where
      guarded :
          (s : Run W)
          → Guarded P p deps s
          → Ends
              (λ _. Guarded P p deps)
              (Guarded P p deps)
              (handle_exception p deps e s).0
              (handle_exception p deps e s).1
      guarded s (inl b) = unfold ◌>>=◌ in rw (b.1, handle_exception) (inl b)
      guarded s (inr l) = (rollback_if-keep l.0 _ _ _ (λ r. refl)).at s l.1

  catch-keep :
      (o : Outcome (Unit {0}))
      → Triple (Guarded P p deps) (catch p deps o) (λ _. Guarded P p deps) (Guarded P p deps)
  unfolding catch
  catch-keep (returned _) = record { at = λ s h. h }
  catch-keep (raised e) = handle_exception-keep e
  catch-keep cancelled = record { at = λ s h. h }

  finalize_result-keep :
      Triple (Guarded P p deps) (finalize_result p deps) (λ _. Guarded P p deps) (Guarded P p deps)
  unfolding finalize_result
  finalize_result-keep = record {
    at = λ s h. elim h [ inl b ↦ inl (k.now s.world b.0, b.1) | inr l ↦ inr l ];
  }

  forget : (s : Run W) → Guarded P p deps s → P s.world ⊎ (SaysYes P p × Live deps s)
  forget s (inl b) = inl b.0
  forget s (inr l) = inr l

  -- From a world with `P`, a property that planning, diffing, prompting and the clock keep, every
  -- execution, also one that raises or is cancelled, ends in a world with `P`, or else `dry_run` is
  -- off, the run is marked as approved, and the user, asked in some world with `P` with `False` as
  -- the default, says yes. So without that answer, or in a dry run, neither `apply` nor `rollback`
  -- acts on the world.
  pub execute-guarded :
      (s : Run W)
      → P s.world
      → P (execute p deps s).1.world
        ⊎ (SaysYes P p
            × (((execute p deps s).1.result.hitl_approved ≡ true) × (deps.dry_run ≡ false)))
  execute-guarded s h = forget (execute p deps s).1 (
      execute-state p deps (λ t. P t.world) (Guarded P p deps) try_stages-keep catch-keep
        finalize_result-keep s (k.now s.world h))
