-- ===== src/Pipelines/Bash/Runs.antt =====
-- merlya/pipelines/bash.py: which commands apply() runs, as a relation on the list of commands.
use mathlib.Core.List.{append-nil, append_assoc}
use mathlib.Core.Path.{subst}
use merlya.Common.{
  ℕ, ◌+◌, ◌≡◌, ◌≢◌, ◌↔◌, ap, inl, inr, Bool-cases, ==_iff, refl, sym, ◌∙◌, String, Bool, true,
  false, if◌then◌else◌, List, [], ◌∷◌, ◌++◌, arith, length, length-append,
}
use merlya.Common.Clock.{ℤ, pos, negsuc, is_zero}
use merlya.Common.Outcome.{Outcome, returned, raised, cancelled, try_except}
use merlya.Ssh.Types.{SshResult}
use merlya.Pipelines.{ApplyResult}
use merlya.Pipelines.Bash.{BashPipeline}
use merlya.Pipelines.Bash.Stages.{
  Shell, State, Executed, Applied, apply, apply_from, after_command, except_apply, finish_apply,
}

-- What is kept of a command and of its result.
abbrev pub entry : String → SshResult → Executed
entry c x = record { command = c; stdout = x.stdout; stderr = x.stderr; exit_code = x.exit_code }

-- A run of commands on a target from a world: what was executed, whether all of it succeeded, and
-- the world after it. Each command runs in the world that the one before has left; the run goes on
-- after the exit code 0, and ends with another exit code or with an execution that returns nothing.
pub data Ran {W : Type 0} (sh : Shell W) (target : String)
    : List String → W → List Executed → Bool → W → Type 0 where
  all_ran : (w : W) → Ran sh target [] w [] true w
  ran :
      (c : String) (cs : List String) (w : W) (x : SshResult) (es : List Executed) (ok : Bool)
      (v : W)
      → (sh.execute target c 300 w).0 ≡ returned x
      → x.exit_code ≡ pos 0
      → Ran sh target cs (sh.execute target c 300 w).1 es ok v
      → Ran sh target (c ∷ cs) w (entry c x ∷ es) ok v
  stopped :
      (c : String) (cs : List String) (w : W) (x : SshResult)
      → (sh.execute target c 300 w).0 ≡ returned x
      → x.exit_code ≢ pos 0
      → Ran sh target (c ∷ cs) w (entry c x ∷ []) false (sh.execute target c 300 w).1
  interrupted :
      (c : String) (cs : List String) (w : W)
      → ((x : SshResult) → (sh.execute target c 300 w).0 ≢ returned x)
      → Ran sh target (c ∷ cs) w [] false (sh.execute target c 300 w).1

-- How many exited with 0.
abbrev pub count_ok : List Executed → ℕ
count_ok [] = 0
count_ok (e ∷ es) = let rest = count_ok es in if is_zero e.exit_code then rest + 1 else rest

is_zero_iff : (z : ℤ) → (is_zero z ≡ true) ↔ (z ≡ pos 0)
unfolding is_zero
is_zero_iff (pos n) =
    (λ h. ap pos ((==_iff n 0).0 h), λ h. subst (λ z. is_zero z ≡ true) (sym h) refl)
is_zero_iff (negsuc n) = (λ h. absurd (ground (arith, h)), λ h. absurd (ground (arith, h)))

module _ {W : Type 0} (b : BashPipeline) (sh : Shell W) where
  -- What a run of the commands from a world has left: it returns, after a look at the clock, or is
  -- cancelled, and has added what it executed.
  abbrev pub IsRun : List String → ℕ → List Executed → W → Outcome ApplyResult → State W → Type 0
  IsRun cs n before w (returned r) s =
      (es : List Executed) × (v : W) × (s.executed ≡ before ++ es)
      × Ran sh b.target cs w es r.success v
      × (s.world ≡ (sh.now v).1)
      × (length r.resources_modified ≡ n + count_ok es)
  IsRun cs n before w (raised _) s = ⊥
  IsRun cs n before w cancelled s =
      (es : List Executed) × (s.executed ≡ before ++ es) × Ran sh b.target cs w es false s.world

  -- The pool that is asked for decides: without it nothing is executed.
  abbrev pub IsApplied :
      Outcome (Unit {0}) → W → List Executed → Outcome ApplyResult → State W → Type 0
  IsApplied (returned _) w before o s = IsRun b.commands 0 before w o s
  IsApplied (raised e) w before o s =
      (r : ApplyResult) × (o ≡ returned r)
      × (r.success ≡ false)
      × (s ≡ record { world = (sh.now w).1; executed = before })
  IsApplied cancelled w before o s = (o ≡ cancelled) × (s ≡ record { world = w; executed = before })

  -- A command that succeeds comes before the run of the others.
  IsRun-later :
      (c : String) (x : SshResult) (cs : List String) (m : List String) (l : String)
      (before : List Executed) (w : W) (o : Outcome ApplyResult) (s : State W)
      → (sh.execute b.target c 300 w).0 ≡ returned x
      → is_zero x.exit_code ≡ true
      → IsRun cs
          (length (m ++ (l ∷ [])))
          (before ++ (entry c x ∷ []))
          (sh.execute b.target c 300 w).1
          o
          s
      → IsRun (c ∷ cs) (length m) before w o s
  IsRun-later c x cs m l before w (returned r) s e z (es, v, h, p, q, n) = (
    entry c x ∷ es,
    v,
    h ∙ append_assoc before (entry c x ∷ []) es,
    ran c cs w x es r.success v e ((is_zero_iff x.exit_code).0 z) p,
    q,
    ground (arith, n, z, length-append m (l ∷ [])),
  )
  IsRun-later c x cs m l before w (raised _) s e z h = h
  IsRun-later c x cs m l before w cancelled s e z (es, h, p) = (
    entry c x ∷ es,
    h ∙ append_assoc before (entry c x ∷ []) es,
    ran c cs w x es false s.world e ((is_zero_iff x.exit_code).0 z) p,
  )

  after_command-IsRun :
      (start i : ℕ) (c : String) (cs : List String) (a : Applied) (x : SshResult)
      (rest : Applied → State W → Outcome ApplyResult × State W) (before : List Executed) (w : W)
      → (sh.execute b.target c 300 w).0 ≡ returned x
      → ((a : Applied) (s : State W)
          → IsRun cs (length a.resources_modified) s.executed s.world (rest a s).0 (rest a s).1)
      → IsRun
          (c ∷ cs)
          (length a.resources_modified)
          before
          w
          (after_command b sh start i c a x rest
            (record { world = (sh.execute b.target c 300 w).1; executed = before })).0
          (after_command b sh start i c a x rest
            (record { world = (sh.execute b.target c 300 w).1; executed = before })).1
  unfolding after_command finish_apply
  after_command-IsRun start i c cs a x rest before w e k = elim (Bool-cases (is_zero x.exit_code)) [
    | inl z ↦ rw z (IsRun-later c x cs a.resources_modified _ before w _ _ e z (k _ _))
    | inr z ↦ rw z (
      entry c x ∷ [],
      (sh.execute b.target c 300 w).1,
      refl,
      stopped c cs w x e (λ q. absurd (ground (arith, z, (is_zero_iff x.exit_code).1 q))),
      refl,
      ground (arith, z),
    )
  ]

  apply_from-IsRun :
      (start i : ℕ) (cs : List String) (a : Applied) (s : State W)
      → IsRun cs
          (length a.resources_modified)
          s.executed
          s.world
          (apply_from b sh start i cs a s).0
          (apply_from b sh start i cs a s).1
  unfolding apply_from finish_apply except_apply try_except
  apply_from-IsRun start i [] a s =
      ([], s.world, sym (append-nil s.executed), all_ran s.world, refl, ground arith)
  apply_from-IsRun start i (c ∷ cs) a s =
      ends (sh.execute b.target c 300 s.world).0 refl (apply_from-IsRun start (i + 1) cs)
    where
      ends :
          (o : Outcome SshResult)
          → (sh.execute b.target c 300 s.world).0 ≡ o
          → ((a : Applied) (s : State W)
              → IsRun cs
                  (length a.resources_modified)
                  s.executed
                  s.world
                  (apply_from b sh start (i + 1) cs a s).0
                  (apply_from b sh start (i + 1) cs a s).1)
          → IsRun
              (c ∷ cs)
              (length a.resources_modified)
              s.executed
              s.world
              (apply_from b sh start i (c ∷ cs) a s).0
              (apply_from b sh start i (c ∷ cs) a s).1
      ends (returned x) e k = rw e (after_command-IsRun start i c cs a x _ s.executed s.world e k)
      ends (raised m) e k = rw e (
        [],
        (sh.execute b.target c 300 s.world).1,
        sym (append-nil s.executed),
        interrupted c cs s.world (λ x q. absurd (ground (arith, e, q))),
        refl,
        ground arith,
      )
      ends cancelled e k = rw e (
        [],
        sym (append-nil s.executed),
        interrupted c cs s.world (λ x q. absurd (ground (arith, e, q))),
      )

  -- apply() returns or is cancelled, and never raises. It asks for the pool after a look at the
  -- clock. Without a pool nothing is executed and the result is a failure. With it, the commands run
  -- on the target with the limit of 300 seconds, in their order and each in the world that the one
  -- before has left, until one exits with another code than 0 or its execution raises or is
  -- cancelled; the results that came back, and no others, are added to the record of executed
  -- commands in that order. The result is a success just when all commands ran and exited with 0,
  -- as many modified resources are reported as commands exited with 0, and after the last command
  -- the world is only asked for the time, and not even that when it was cancelled.
  pub apply-IsApplied :
      (s : State W)
      → IsApplied
          (sh.get_ssh_pool (sh.now s.world).1).0
          (sh.get_ssh_pool (sh.now s.world).1).1
          s.executed
          (apply b sh s).0
          (apply b sh s).1
  unfolding apply except_apply finish_apply try_except
  apply-IsApplied s = ends (sh.get_ssh_pool (sh.now s.world).1).0 refl
    where
      ends :
          (o : Outcome (Unit {0}))
          → (sh.get_ssh_pool (sh.now s.world).1).0 ≡ o
          → IsApplied o
              (sh.get_ssh_pool (sh.now s.world).1).1
              s.executed
              (apply b sh s).0
              (apply b sh s).1
      ends (returned _) e = rw e (
          apply_from-IsRun (sh.now s.world).0 1 b.commands
            (record { output_lines = []; resources_modified = [] })
            (record s { world = (sh.get_ssh_pool (sh.now s.world).1).1 }))
      ends (raised m) e = rw e (_, refl, refl, refl)
      ends cancelled e = rw e (refl, refl)
