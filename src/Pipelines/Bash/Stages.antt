-- ===== src/Pipelines/Bash/Stages.antt =====
-- merlya/pipelines/bash.py: apply(), rollback() and post_check(). Each loop carries the locals that
-- the `except` block reads; `except Exception` turns what a command raises into a failed result.
use merlya.Common.{
  if◌then◌else◌, ℕ, ◌+◌, ◌-◌, ◌/◌, String, ◌<>◌, Bool, true, false, List, [], ◌∷◌, ◌++◌,
}
use merlya.Common.Clock.{ℤ, is_zero}
use merlya.Common.Decimal.{show, show_int}
use merlya.Common.Outcome.{returned, Exec, try_except}
use merlya.Ssh.Types.{SshResult}
use merlya.Pipelines.{ApplyResult, RollbackResult, PostCheckResult, Pipeline}
use merlya.Pipelines.Bash.{BashPipeline, join_lines, plan_result, diff_result, labelled, label}
use merlya.Pipelines.Bash.Tally.{
  Tally, empty_tally, tally_rollback, rollback_done, rollback_raised, no_rollback, tally_check,
  check_done, check_raised, no_checks,
}

-- ctx.get_ssh_pool(), pool.execute(target, command, timeout), ctx.ui.prompt_confirm and the clock.
pub record Shell (W : Type 0) : Type 0 where
  pub get_ssh_pool : Exec W (Unit {0})
  pub execute : (target command : String) (timeout : ℕ) → Exec W SshResult
  pub prompt_confirm : String → Bool → Exec W Bool
  pub now : W → ℕ × W

pub record Executed : Type 0 where
  pub command : String
  pub stdout : String
  pub stderr : String
  pub exit_code : ℤ

-- The world, and the field `_executed_commands` of the object.
pub record State (W : Type 0) : Type 0 where
  pub world : W
  pub executed : List Executed

-- The locals of apply(): output_lines and resources_modified.
pub record Applied : Type 0 where
  pub output_lines : List String
  pub resources_modified : List String

abbrev pub executed_of : String → SshResult → Executed
executed_of c r = record {
  command = c;
  stdout = r.stdout;
  stderr = r.stderr;
  exit_code = r.exit_code;
}

-- The lines that a command adds to the output.
unfoldable pub apply_lines : ℕ → String → SshResult → List String
unfolding show show_int
apply_lines i c r =
    ("--- Command " <> show i <> ": " <> c <> " ---")
    ∷ ("Exit code: " <> show_int r.exit_code)
    ∷ (labelled "Output:\n" r.stdout ++ (labelled "Stderr:\n" r.stderr ++ ("" ∷ [])))

-- Without commands the method returns at once.
unfoldable pub if_any : {W R : Type 0} → List String → R → Exec (State W) R → Exec (State W) R
if_any [] r run s = (returned r, s)
if_any (_ ∷ _) r run s = run s

module _ {W : Type 0} (b : BashPipeline) (sh : Shell W) where
  abbrev apply_result : Bool → String → List String → ℕ → ApplyResult
  apply_result ok output modified ms = record {
    success = ok;
    output = output;
    resources_created = [];
    resources_modified = modified;
    resources_deleted = [];
    duration_ms = ms;
    rollback_data = ("executed", "") ∷ [];
  }

  -- The result, with the time since the start.
  unfoldable pub finish_apply : ℕ → Bool → String → List String → Exec (State W) ApplyResult
  finish_apply start ok output modified s =
      let t = sh.now s.world in
      (returned (apply_result ok output modified ((t.0 - start) / 1000)), record s { world = t.1 })

  -- One command has ended with a result; `rest` goes on with the next.
  unfoldable pub after_command :
      ℕ
      → ℕ
      → String
      → Applied
      → SshResult
      → (Applied → Exec (State W) ApplyResult)
      → Exec (State W) ApplyResult
  unfolding finish_apply apply_lines join_lines show is_zero
  after_command start i c a r rest s =
      let out = a.output_lines ++ apply_lines i c r in
      let s2 = record s { executed = s.executed ++ (executed_of c r ∷ []) } in
      (if is_zero r.exit_code
          then rest (record {
            output_lines = out;
            resources_modified = a.resources_modified ++ (label "command:" i ∷ []);
          })
          else finish_apply start false (join_lines out) a.resources_modified)
        s2

  unfoldable pub except_apply : ℕ → List String → String → Exec (State W) ApplyResult
  unfolding finish_apply
  except_apply start modified e =
      finish_apply start false ("Exception during execution: " <> e) modified

  unfoldable pub apply_from : ℕ → ℕ → List String → Applied → Exec (State W) ApplyResult
  unfolding after_command except_apply finish_apply join_lines try_except
  apply_from start i [] a s =
      finish_apply start true (join_lines a.output_lines) a.resources_modified s
  apply_from start i (c ∷ cs) a s =
      let r = sh.execute b.target c 300 s.world in
      let s2 = record s { world = r.1 } in
      try_except r.0 (λ x. after_command start i c a x (apply_from start (i + 1) cs))
        (except_apply start a.resources_modified) s2

  unfoldable pub apply : Exec (State W) ApplyResult
  unfolding apply_from except_apply try_except
  apply s =
      let t = sh.now s.world in
      let p = sh.get_ssh_pool t.1 in
      let s2 = record s { world = p.1 } in
      try_except p.0
        (λ _. apply_from t.0 1 b.commands (record { output_lines = []; resources_modified = [] }))
        (except_apply t.0 []) s2

  -- The loop that rollback() and post_check() share: every command runs, whatever the ones before
  -- have returned, and one that raises ends the loop.
  unfoldable pub run_all :
      {R : Type 0} (timeout : ℕ)
      → (ℕ → String → SshResult → Tally → Tally)
      → (Tally → R)
      → (Tally → String → R)
      → ℕ
      → List String
      → Tally
      → Exec (State W) R
  run_all timeout tally done raised_result i [] t s = (returned (done t), s)
  run_all timeout tally done raised_result i (c ∷ cs) t s =
      let r = sh.execute b.target c timeout s.world in
      let s2 = record s { world = r.1 } in
      try_except r.0 (λ x. run_all timeout tally done raised_result (i + 1) cs (tally i c x t))
        (λ e s3. (returned (raised_result t e), s3)) s2

  -- The `try` block of both: the pool, then the loop.
  unfoldable pub with_pool :
      {R : Type 0} → (Tally → String → R) → Exec (State W) R → Exec (State W) R
  unfolding try_except
  with_pool raised_result run s =
      let p = sh.get_ssh_pool s.world in
      let s2 = record s { world = p.1 } in
      try_except p.0 (λ _. run) (λ e s3. (returned (raised_result empty_tally e), s3)) s2

  unfoldable pub rollback : Exec (State W) RollbackResult
  unfolding if_any run_all with_pool tally_rollback rollback_done rollback_raised
  rollback = if_any b.rollback_commands no_rollback (
      with_pool rollback_raised (
        run_all 300 tally_rollback rollback_done rollback_raised 1 b.rollback_commands empty_tally))

  unfoldable pub post_check : Exec (State W) PostCheckResult
  unfolding if_any run_all with_pool tally_check check_done check_raised
  post_check = if_any b.check_commands no_checks (
      with_pool check_raised
        (run_all 60 tally_check check_done check_raised 1 b.check_commands empty_tally))

  -- The object, as the pipeline that `execute` runs.
  unfoldable pub bash_pipeline : Pipeline (State W)
  unfolding apply rollback post_check plan_result diff_result
  bash_pipeline = record {
    name = "bash";
    plan = λ s. (returned (plan_result b), s);
    diff = λ s. (returned (diff_result b), s);
    apply = apply;
    rollback = rollback;
    post_check = post_check;
    prompt_confirm =
        λ m d s. let r = sh.prompt_confirm m d s.world in (r.0, record s { world = r.1 });
    now = λ s. let t = sh.now s.world in (t.0, record s { world = t.1 });
  }
