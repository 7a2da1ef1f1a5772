-- ===== src/Provisioners/Safety.antt =====
-- What a provisioner may change without an approval.
use merlya.Common.{
  String, ◌≡◌, refl, ◌⊎◌, inl, inr, Bool, true, false, Option, some, none, arith, ◌∙◌, ap,
  if◌then◌else◌,
}
use merlya.Common.Outcome.{Outcome, Exec, returned, raised, cancelled, pure, ◌>>=◌, ◌>>◌}
use merlya.Common.Outcome.Triple.{
  Triple, Ends, Triple-bind, Triple-if, Triple-modify, Triple-zoom, Triple-pre, Triple-post,
  Triple-pure, Triple-seq, Triple-state, triple_rules,
}
use merlya.Provisioners.{
  ProvisionerStage, ProvisionerDeps, ProvisionerResult, Provisioner, PlanOutput, DiffOutput,
  Approval, Run, apply_stages, approval_stages, request_hitl, approve, diff_stages, plan_stages,
  try_stages, read_now, trigger_rollback, safe_rollback, applied_stage, approved_stages,
  handle_exception, catch, await, enter, abort, set, execute, finalize_result, is_delete,
  new_result,
}

-- The parts of a run that come before an approval, and the clock, keep `P`.
pub record KeepsBefore {W : Type 0} (P : W → Type 0) (p : Provisioner W) : Type 0 where
  pub validate : (w : W) → P w → P (p.validate w).1
  pub plan : (w : W) → P w → P (p.plan w).1
  pub diff : (w : W) → P w → P (p.diff w).1
  pub hitl :
      (ask : Approval W)
      → p.hitl ≡ some ask
      → (a : PlanOutput) (d : Option String) (b : Bool) (w : W) → P w
      → P (ask a d b w).1
  pub now : (w : W) → P w → P (p.now w).1

abbrev Before : {W : Type 0} → (W → Type 0) → Run W → Type 0
Before P s = P s.world × (applied_stage s.stage ≡ false)

abbrev Live : {W : Type 0} → ProvisionerDeps → Run W → Type 0
Live deps s = (s.result.hitl_approved ≡ true) × (deps.dry_run ≡ false)

-- There is no approval service, or the service, asked in a world with `P` about the run's action,
-- says yes.
abbrev pub SaysYes : {W : Type 0} → (W → Type 0) → Provisioner W → ProvisionerDeps → Type 0
SaysYes {W} P p deps =
    (p.hitl ≡ none)
    ⊎ ((ask : Approval W) × (w : W) × (a : PlanOutput) × (d : Option String) × (p.hitl ≡ some ask)
        × P w
        × ((ask a d (is_delete deps.action) w).0 ≡ returned true))

abbrev Guarded : {W : Type 0} → (W → Type 0) → Provisioner W → ProvisionerDeps → Run W → Type 0
Guarded P p deps s = Before P s ⊎ (SaysYes P p deps × Live deps s)

module _ {W : Type 0} (p : Provisioner W) (deps : ProvisionerDeps) where
  safe_rollback-Live : Triple (Live deps) (safe_rollback p deps) (λ _. Live deps) (Live deps)
  unfolding safe_rollback
  safe_rollback-Live = record { at = λ s h. ground arith }

  trigger_rollback-Live :
      (m : String) → Triple (Live deps) (trigger_rollback p deps m) (λ _. Live deps) (Live deps)
  unfolding trigger_rollback
  trigger_rollback-Live m = search (triple_rules, safe_rollback-Live)

  apply_stages-Live : Triple (Live deps) (apply_stages p deps) (λ _. Live deps) (Live deps)
  unfolding apply_stages
  apply_stages-Live = search (triple_rules, trigger_rollback-Live) depth 20

module _ {W : Type 0} (P : W → Type 0) (p : Provisioner W) (deps : ProvisionerDeps)
    (k : KeepsBefore P p) where
  abbrev Approved : Run W → Type 0
  Approved s = Before P s × (s.result.hitl_approved ≡ true)

  enter-keep :
      (t : ProvisionerStage)
      → applied_stage t ≡ false
      → Triple (Before P) (enter t) (λ _. Before P) (Guarded P p deps)
  enter-keep t e = Triple-modify _ (λ s h. (h.0, e))

  abort-keep :
      (t : ProvisionerStage) (m : String)
      → Triple (Before P) (abort t m) (λ _. Guarded P p deps) (Guarded P p deps)
  abort-keep t m = Triple-modify _ (λ s h. inl h)

  await-keep :
      {A : Type 0} (m : Exec W A)
      → ((w : W) → P w → P (m w).1)
      → Triple (Before P) (await m) (λ _. Before P) (Guarded P p deps)
  await-keep m f =
      Triple-zoom _ _ _ (λ s h a e. (f s.world h.0, h.1)) (λ s h. inl (f s.world h.0, h.1))

  approve-keep :
      (o : Option (Approval W)) (a : PlanOutput) (d : DiffOutput)
      → p.hitl ≡ o
      → Triple
          (Before P)
          (approve p deps o a d)
          (λ b s. Before P s × (b ≡ true → SaysYes P p deps))
          (Guarded P p deps)
  approve-keep none a d e = Triple-pure _ (λ s h. (h, λ _. inl e))
  approve-keep (some ask) a d e =
      Triple-zoom _ _ _
        (λ s h b r. (
          (k.hitl ask e _ _ _ s.world h.0, h.1),
          λ y. inr (ask, s.world, _, _, e, h.0, r ∙ ap returned y),
        ))
        (λ s h. inl (k.hitl ask e _ _ _ s.world h.0, h.1))

  read_now-Approved : Triple Approved (read_now p deps) (λ _. Approved) (Guarded P p deps)
  unfolding read_now
  read_now-Approved = record { at = λ s h. ((k.now s.world h.0.0, h.0.1), h.1) }

  abort-Approved :
      (t : ProvisionerStage) (m : String)
      → Triple Approved (abort t m) (λ _. Guarded P p deps) (Guarded P p deps)
  abort-Approved t m = Triple-modify _ (λ s h. inl h.0)

  apply-Approved :
      SaysYes P p deps
      → deps.dry_run ≡ false
      → Triple Approved (apply_stages p deps) (λ _. Guarded P p deps) (Guarded P p deps)
  apply-Approved y live =
      Triple-post _ (λ _ s l. inr (y, l)) (λ s l. inr (y, l))
        (Triple-pre _ (λ s h. (h.1, live)) (apply_stages-Live p deps))

  approved_stages-keep :
      SaysYes P p deps
      → Triple (Before P) (approved_stages p deps) (λ _. Guarded P p deps) (Guarded P p deps)
  unfolding approved_stages
  approved_stages-keep y =
      Triple-bind {R = λ _. Approved} _ _ (Triple-modify _ (λ s h. (h, refl)))
        λ _. search (triple_rules, read_now-Approved, abort-Approved, apply-Approved y) depth 20

  approval_stages-keep :
      (a : PlanOutput) (d : DiffOutput)
      → Triple (Before P) (approval_stages p deps a d) (λ _. Guarded P p deps) (Guarded P p deps)
  unfolding approval_stages request_hitl
  approval_stages-keep a d = Triple-seq _ _ (enter-keep _ refl) λ _.
      Triple-bind _ _ (approve-keep p.hitl a d refl) λ b.
        Triple-if _ _ _ (λ e. record { at = λ s h. (approved_stages-keep (h.1 e)).at s h.0 })
          (λ e. Triple-pre _ (λ s h. h.0) (abort-keep _ _))

  diff_stages-keep :
      (a : PlanOutput)
      → Triple (Before P) (diff_stages p deps a) (λ _. Guarded P p deps) (Guarded P p deps)
  unfolding diff_stages
  diff_stages-keep a = Triple-seq _ _ (enter-keep _ refl) λ _.
      Triple-seq _ _ (await-keep p.diff k.diff)
        λ d. search (triple_rules, approval_stages-keep, abort-keep) depth 20

  plan_stages-keep :
      Triple (Before P) (plan_stages p deps) (λ _. Guarded P p deps) (Guarded P p deps)
  unfolding plan_stages
  plan_stages-keep = Triple-seq _ _ (enter-keep _ refl) λ _.
      Triple-seq _ _ (await-keep p.plan k.plan)
        λ a. search (triple_rules, diff_stages-keep, abort-keep) depth 20

  try_stages-keep :
      Triple (λ s. P s.world) (try_stages p deps) (λ _. Guarded P p deps) (Guarded P p deps)
  unfolding try_stages
  try_stages-keep = Triple-bind {R = λ _. Before P} _ _ (Triple-modify _ (λ s h. (h, refl))) λ _.
      search (triple_rules, plan_stages-keep, await-keep p.validate k.validate, abort-keep) depth 20

  rollback_if-keep :
      SaysYes P p deps
      → (f : ProvisionerResult → ProvisionerResult) (b : Bool) (m : String)
      → ((r : ProvisionerResult) → (f r).hitl_approved ≡ r.hitl_approved)
      → Triple
          (Live deps)
          (set f >> (if b then trigger_rollback p deps m else pure tt))
          (λ _. Guarded P p deps)
          (Guarded P p deps)
  rollback_if-keep y f b m e =
      Triple-post _ (λ _ s l. inr (y, l)) (λ s l. inr (y, l))
        (Triple-seq _ _ (Triple-modify _ (λ s h. (e s.result ∙ h.0, h.1)))
          λ _. search (triple_rules, trigger_rollback-Live p deps))

  handle_exception-keep :
      (e : String)
      → Triple
          (Guarded P p deps)
          (handle_exception p deps e)
          (λ _. Guarded P p deps)
          (Guarded P p deps)
  unfolding handle_exception
  handle_exception-keep e = record { at = λ s h. guarded s h }
    where
      guarded :
          (s : Run W)
          → Guarded P p deps s
          → Ends
              (λ _. Guarded P p deps)
              (Guarded P p deps)
              (handle_exception p deps e s).0
              (handle_exception p deps e s).1
      guarded s (inl b) = unfold ◌>>=◌ in rw (b.1, handle_exception) (inl b)
      guarded s (inr l) = (rollback_if-keep l.0 _ _ _ (λ r. refl)).at s l.1

  catch-keep :
      (o : Outcome (Unit {0}))
      → Triple (Guarded P p deps) (catch p deps o) (λ _. Guarded P p deps) (Guarded P p deps)
  unfolding catch
  catch-keep (returned _) = record { at = λ s h. h }
  catch-keep (raised e) = handle_exception-keep e
  catch-keep cancelled = record { at = λ s h. h }

  finalize_result-keep :
      Triple (Guarded P p deps) (finalize_result p deps) (λ _. Guarded P p deps) (Guarded P p deps)
  unfolding finalize_result
  finalize_result-keep = record {
    at = λ s h. elim h [ inl b ↦ inl (k.now s.world b.0, b.1) | inr l ↦ inr l ];
  }

  execute-Guarded : (s : Run W) → P s.world → Guarded P p deps (execute p deps s).1
  unfolding execute
  execute-Guarded s h =
      let t = p.now s.world in
      let b = try_stages p deps (record s { world = t.1; result = new_result deps.action t.0 }) in
      Triple-state (Guarded P p deps) (catch p deps b.0 >>= λ _. finalize_result p deps)
        (Triple-bind _ _ (catch-keep b.0) (λ _. finalize_result-keep)) b.1
        (Triple-state (Guarded P p deps) _ try_stages-keep _ (k.now s.world h))

  -- From a world with `P`, a property that validating, planning, diffing, the approval service and
  -- the clock keep, every execution, also one that raises or is cancelled, ends in a world with `P`,
  -- or else `dry_run` is off, the run is marked as approved, and either the context has no approval
  -- service or the service, asked about the run's action in some world with `P`, says yes.
  pub provision-guarded :
      (s : Run W)
      → P s.world
      → P (execute p deps s).1.world
        ⊎ (SaysYes P p deps
            × (((execute p deps s).1.result.hitl_approved ≡ true) × (deps.dry_run ≡ false)))
  provision-guarded s h = forget (execute p deps s).1 (execute-Guarded s h)
    where
      forget : (s : Run W) → Guarded P p deps s → P s.world ⊎ (SaysYes P p deps × Live deps s)
      forget s (inl b) = inl b.0
      forget s (inr l) = inr l
