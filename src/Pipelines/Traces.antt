-- ===== src/Pipelines/Traces.antt =====
-- What the final `PipelineResult` says about the run, and what ran.
use mathlib.Core.Path.{subst}
use merlya.Common.{
  if◌then◌else◌, ◌≡◌, refl, sym, ap, ◌∙◌, String, Bool, true, false, Option, none, some, ◌⊎◌, inl,
  inr,
}
use merlya.Common.Outcome.{Outcome, Exec, returned, raised, cancelled, pure, ◌>>◌}
use merlya.Common.Outcome.Triple.{
  Triple, Ends, triple_rules, Triple-bind, Triple-if, Triple-modify, Triple-zoom, Triple-pure,
}
use merlya.Pipelines.{
  PipelineDeps, Pipeline, PipelineStage, PipelineResult, Run, DiffResult, ApplyResult,
  PostCheckResult, RollbackResult, await, set, abort, execute, try_stages, approval_stages,
  approved_stages, apply_stages, trigger_rollback, safe_rollback, recover_rollback, request_hitl,
  read_now, catch, handle_exception, finalize_result,
}
use merlya.Pipelines.Execute.{execute-state, execute-result}
use merlya.Pipelines.Records.{IsConsistent, execute-IsConsistent}

module _ {W : Type 0} (p : Pipeline W) where
  -- What apply() and then post_check() have returned: the post-check runs in the world that a
  -- successful apply() has left.
  abbrev pub HasRun : Option ApplyResult → Option PostCheckResult → Type 0
  HasRun none none = Unit
  HasRun none (some c) = ⊥
  HasRun (some a) none = (w : W) × ((p.apply w).0 ≡ returned a)
  HasRun (some a) (some c) =
      (w : W) × ((p.apply w).0 ≡ returned a)
      × (a.success ≡ true)
      × ((p.post_check (p.apply w).1).0 ≡ returned c)

  -- What rollback() has returned, or the failure that an exception of it is turned into.
  abbrev pub HasRolledBack : Option RollbackResult → Type 0
  HasRolledBack none = Unit
  HasRolledBack (some b) =
      (w : W) × (((p.rollback w).0 ≡ returned b)
        ⊎ ((e : String) × ((p.rollback w).0 ≡ raised e) × (b.success ≡ false)))

  -- The results in it are those of the methods that ran.
  abbrev pub IsTraced : PipelineResult → Type 0
  IsTraced r = HasRun r.apply_result r.post_check_result × HasRolledBack r.rollback_result

module _ {W : Type 0} (p : Pipeline W) (deps : PipelineDeps) where
  -- Nothing has run.
  abbrev Fresh : Run W → Type 0
  Fresh s =
      (s.result.apply_result ≡ none)
      × (s.result.post_check_result ≡ none)
      × (s.result.rollback_result ≡ none)

  abbrev Good : Run W → Type 0
  Good s = IsTraced p s.result

  Fresh-Good : (s : Run W) → Fresh s → Good s
  Fresh-Good s (a, c, b) = rw (a, c, b) (tt, tt)

  -- apply() has returned, and its result is not recorded yet, or is.
  abbrev Applied : ApplyResult → Run W → Type 0
  Applied a s =
      (w : W) × ((p.apply w).0 ≡ returned a)
      × (s.world ≡ (p.apply w).1)
      × (s.result.post_check_result ≡ none)
      × (s.result.rollback_result ≡ none)

  abbrev Held : ApplyResult → Run W → Type 0
  Held a s = (s.result.apply_result ≡ some a) × Applied a s

  Held-Good : (a : ApplyResult) (s : Run W) → Held a s → Good s
  Held-Good a s (e, (w, h, _, c, b)) = rw (e, c, b) ((w, h), tt)

  -- post_check() has returned after it.
  abbrev Checked : ApplyResult → PostCheckResult → Run W → Type 0
  Checked a c s =
      (s.result.apply_result ≡ some a)
      × (s.result.rollback_result ≡ none)
      × HasRun p (some a) (some c)

  safe_rollback-Good :
      Triple Good (safe_rollback p deps) (λ b s. Good s × HasRolledBack p (some b)) Good
  unfolding safe_rollback recover_rollback
  safe_rollback-Good = record { at = λ s g. ends s g s.world (p.rollback s.world).0 refl }
    where
      ends :
          (s : Run W)
          → Good s
          → (w : W) (o : Outcome RollbackResult) → (p.rollback w).0 ≡ o
          → Ends
              (λ b s. Good s × HasRolledBack p (some b))
              Good
              (recover_rollback p deps o)
              (record s { world = (p.rollback w).1; stage = some PipelineStage.rollback })
      ends s g w (returned b) e = (g, (w, inl e))
      ends s g w (raised m) e = (g, (w, inr (m, e, refl)))
      ends s g w cancelled e = g

  trigger_rollback-Good : (m : String) → Triple Good (trigger_rollback p deps m) (λ _. Good) Good
  unfolding trigger_rollback
  trigger_rollback-Good m =
      Triple-bind {R = λ _. Good} _ _ (Triple-modify _ (λ s g. g))
        λ _. Triple-bind _ _ safe_rollback-Good λ b. Triple-modify _ (λ s h. (h.0.0, h.1))

  apply-Applied : Triple Fresh (await p.apply) Applied Good
  apply-Applied = Triple-zoom _ _ _ (λ s f a e. (s.world, e, refl, f.1, f.2)) Fresh-Good

  check-Checked :
      (a : ApplyResult) → a.success ≡ true → Triple (Held a) (await p.post_check) (Checked a) Good
  check-Checked a t =
      Triple-zoom _ _ _
        (λ s (e, (w, h, x, n, b)) c q. (e, b, (w, h, t, ap (λ y. (p.post_check y).0) (sym x) ∙ q)))
        (Held-Good a)

  set_check-Good :
      (a : ApplyResult) (c : PostCheckResult)
      → Triple {S = Run W}
          (Checked a c)
          (set (λ r. record r { post_check_result = some c }))
          (λ _. Good)
          Good
  set_check-Good a c = Triple-modify _ (λ s (e, b, h). rw (e, b) (h, tt))

  finish-Good :
      (a : ApplyResult) (b : Bool) (m : String)
      → Triple (Held a) (if b then trigger_rollback p deps m else pure tt) (λ _. Good) Good
  finish-Good a b m = record { at = λ s h. rest.at s (Held-Good a s h) }
    where
      rest : Triple Good (if b then trigger_rollback p deps m else pure tt) (λ _. Good) Good
      rest = Triple-if b _ _ (λ _. trigger_rollback-Good m) (λ _. Triple-pure tt (λ s g. g))

  apply_stages-Good : Triple Fresh (apply_stages p deps) (λ _. Good) Good
  unfolding apply_stages
  apply_stages-Good = Triple-bind {R = λ _. Fresh} _ _ (Triple-modify _ (λ s f. f)) λ _.
      Triple-bind _ _ apply-Applied λ a.
        Triple-bind {R = λ _. Held a} _ _ (Triple-modify _ (λ s h. (refl, h))) λ _.
          Triple-bind {R = λ _. Held a} _ _ (Triple-modify _ (λ s h. h)) λ _.
            Triple-if a.success _ _
              (λ t. Triple-bind {R = λ _. Held a} _ _ (Triple-modify _ (λ s h. h)) λ _.
                Triple-bind _ _ (check-Checked a t) λ c.
                  Triple-bind _ _ (set_check-Good a c)
                    λ _. search (triple_rules, trigger_rollback-Good) depth 20)
              (λ _. finish-Good a deps.auto_rollback _)

  abort-Good :
      (t : PipelineStage) (m : String) → Triple {S = Run W} Fresh (abort t m) (λ _. Good) Good
  abort-Good t m = Triple-modify _ Fresh-Good

  dry-Good :
      (t : PipelineStage) (m : String)
      → Triple {S = Run W} Fresh
          (set (λ r. record r { success = true }) >> abort t m)
          (λ _. Good)
          Good
  dry-Good t m = Triple-bind {R = λ _. Fresh} _ _ (Triple-modify _ (λ s f. f)) λ _. abort-Good t m

  read_now-Fresh : Triple Fresh (read_now p deps) (λ _. Fresh) Good
  unfolding read_now
  read_now-Fresh = record { at = λ s f. f }

  approved_stages-Good : Triple Fresh (approved_stages p deps) (λ _. Good) Good
  unfolding approved_stages
  approved_stages-Good = Triple-bind {R = λ _. Fresh} _ _ (Triple-modify _ (λ s f. f)) λ _.
      Triple-bind {R = λ _. Fresh} _ _ read_now-Fresh λ t.
        Triple-bind {R = λ _. Fresh} _ _ (Triple-modify _ (λ s f. f))
          λ _. search (triple_rules, dry-Good, apply_stages-Good) depth 20

  await-Fresh : {A : Type 0} (m : Exec W A) → Triple Fresh (await m) (λ _. Fresh) Good
  await-Fresh m = Triple-zoom _ _ _ (λ s f a e. f) Fresh-Good

  request_hitl-Fresh : (d : DiffResult) → Triple Fresh (request_hitl p deps d) (λ _. Fresh) Good
  unfolding request_hitl
  request_hitl-Fresh d = await-Fresh _

  try_stages-Good : Triple Fresh (try_stages p deps) (λ _. Good) Good
  unfolding try_stages approval_stages
  try_stages-Good =
      search (triple_rules, await-Fresh, request_hitl-Fresh, abort-Good, approved_stages-Good) depth
        30

  rollback_if-Good :
      (r : PipelineResult → PipelineResult) (t : Bool) (m : String)
      → ((x : PipelineResult) → IsTraced p x → IsTraced p (r x))
      → Triple Good (set r >> (if t then trigger_rollback p deps m else pure tt)) (λ _. Good) Good
  rollback_if-Good r t m k =
      Triple-bind {R = λ _. Good} _ _ (Triple-modify _ (λ s g. k s.result g))
        λ _. Triple-if t _ _ (λ _. trigger_rollback-Good m) (λ _. Triple-pure tt (λ s g. g))

  handlers-Good : (o : Outcome (Unit {0})) → Triple Good (catch p deps o) (λ _. Good) Good
  unfolding catch handle_exception
  handlers-Good (returned _) = record { at = λ s g. g }
  handlers-Good (raised e) = record { at = λ s g. (rollback_if-Good _ _ _ (λ x h. h)).at s g }
  handlers-Good cancelled = record { at = λ s g. g }

  finalize_result-Good : Triple Good (finalize_result p deps) (λ _. Good) Good
  unfolding finalize_result
  finalize_result-Good = record { at = λ s g. g }

  -- Every result that `execute` returns agrees with what ran: the apply result in it is one that
  -- apply() returned, the post-check result one that post_check() returned in the world that this
  -- apply(), a success, had left, and the rollback result one that rollback() returned, or a failure
  -- in place of an exception that it raised. And it is consistent: without an abort, success means
  -- that apply and post-check succeeded, and failure that apply ran and failed, or succeeded and a
  -- post-check ran and failed; a success marked as aborted is a dry run that applied nothing;
  -- success, an apply result and a rollback each need the user's approval, the latter two outside a
  -- dry run; and a rollback needs `auto_rollback` and a run without success. A run that is not
  -- aborted rolls back exactly when it failed and `auto_rollback` is on, and then exactly it has a
  -- rollback result.
  pub execute-IsTraced :
      (s : Run W) {r : PipelineResult}
      → (execute p deps s).0 ≡ returned r
      → IsConsistent deps r × IsTraced p r
  execute-IsTraced s e = (
    execute-IsConsistent p deps s e,
    subst (IsTraced p) (execute-result p deps s e) (
        execute-state p deps Fresh Good try_stages-Good handlers-Good finalize_result-Good s
          (refl, refl, refl)),
  )
