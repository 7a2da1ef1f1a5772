-- ===== src/Pipelines/Execute.antt =====
-- `execute` by its parts: what the `try` block, the handlers and the completion keep, `execute`
-- establishes.
use merlya.Common.{◌≡◌, refl}
use merlya.Common.Outcome.{Outcome, returned, raised, cancelled, ◌>>=◌}
use merlya.Common.Outcome.Triple.{Ends, Triple, Triple-state, Triple-bind}
use merlya.Pipelines.{
  PipelineDeps, Pipeline, PipelineResult, Run, execute, try_stages, catch, finalize_result,
  new_result,
}

module _ {W : Type 0} (p : Pipeline W) (deps : PipelineDeps) where
  pub execute-state :
      (P G : Run W → Type 0)
      → Triple P (try_stages p deps) (λ _. G) G
      → ((o : Outcome (Unit {0})) → Triple G (catch p deps o) (λ _. G) G)
      → Triple G (finalize_result p deps) (λ _. G) G
      → (s : Run W)
      → P (record s { world = (p.now s.world).1; result = new_result (p.now s.world).0 })
      → G (execute p deps s).1
  unfolding execute
  execute-state P G body handlers end s h =
      let t = p.now s.world in
      let s' = record s { world = t.1; result = new_result t.0 } in
      let b = try_stages p deps s' in
      Triple-state G (catch p deps b.0 >>= λ _. finalize_result p deps)
        (Triple-bind _ _ (handlers b.0) (λ _. end)) b.1 (Triple-state G _ body s' h)

  ends_unit : {A : Type 0} (o : Outcome A) (s : Run W) → Ends (λ _ _. Unit {0}) (λ _. Unit {0}) o s
  ends_unit (returned a) s = tt
  ends_unit (raised e) s = tt
  ends_unit cancelled s = tt

  -- The result that is returned is the one of the last state.
  pub execute-result :
      (s : Run W) {r : PipelineResult}
      → (execute p deps s).0 ≡ returned r
      → (execute p deps s).1.result ≡ r
  unfolding execute finalize_result
  execute-result s e =
      let t = p.now s.world in
      let s' = record s { world = t.1; result = new_result t.0 } in
      let b = try_stages p deps s' in
      let f : Triple {S = Run W} (λ _. Unit {0}) (finalize_result p deps) (λ r x. x.result ≡ r)
          (λ _. Unit {0}) =
        record { at = λ x h. refl } in
      let c : Triple {S = Run W} (λ _. Unit {0}) (catch p deps b.0) (λ _ _. Unit {0})
          (λ _. Unit {0}) =
        record { at = λ x h. ends_unit (catch p deps b.0 x).0 (catch p deps b.0 x).1 } in
      rw e at ((Triple-bind (catch p deps b.0) (λ _. finalize_result p deps) c (λ _. f)).at b.1 tt)
