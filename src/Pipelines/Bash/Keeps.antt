-- ===== src/Pipelines/Bash/Keeps.antt =====
-- merlya/pipelines/bash.py: rollback() and post_check() and the list of executed commands.
use merlya.Common.{ℕ, ◌+◌, ◌≡◌, refl, String, List, [], ◌∷◌}
use merlya.Common.Outcome.{Outcome, returned, raised, cancelled, try_except, Exec}
use merlya.Ssh.Types.{SshResult}
use merlya.Pipelines.Bash.{BashPipeline}
use merlya.Pipelines.Bash.Tally.{
  Tally, rollback_done, rollback_raised, tally_rollback, tally_check, check_done, check_raised,
}
use merlya.Pipelines.Bash.Stages.{Shell, State, run_all, with_pool, if_any, rollback, post_check}

module _ {W : Type 0} (b : BashPipeline) (sh : Shell W) where
  -- The action leaves the list of executed commands as it was.
  abbrev pub Keeps : {R : Type 0} → Exec (State W) R → Type 0
  Keeps m = (s : State W) → (m s).1.executed ≡ s.executed

  try_except-Keeps :
      {A R : Type 0} (o : Outcome A) (f : A → Exec (State W) R) (g : String → Exec (State W) R)
      → ((a : A) → Keeps (f a))
      → ((e : String) → Keeps (g e))
      → Keeps (try_except o f g)
  unfolding try_except
  try_except-Keeps (returned a) f g h k s = h a s
  try_except-Keeps (raised e) f g h k s = k e s
  try_except-Keeps cancelled f g h k s = refl

  run_all-Keeps :
      {R : Type 0} (timeout : ℕ) (tally : ℕ → String → SshResult → Tally → Tally) (done : Tally → R)
      (failed : Tally → String → R) (i : ℕ) (cs : List String) (t : Tally)
      → Keeps (run_all b sh timeout tally done failed i cs t)
  unfolding run_all
  run_all-Keeps timeout tally done failed i [] t s = refl
  run_all-Keeps timeout tally done failed i (c ∷ cs) t s =
      try_except-Keeps (sh.execute b.target c timeout s.world).0 _
        (λ e s3. (returned (failed t e), s3))
        (λ x. run_all-Keeps timeout tally done failed (i + 1) cs (tally i c x t)) (λ e s3. refl)
        (record s { world = (sh.execute b.target c timeout s.world).1 })

  with_pool-Keeps :
      {R : Type 0} (failed : Tally → String → R) (run : Exec (State W) R)
      → Keeps run
      → Keeps (with_pool b sh failed run)
  unfolding with_pool
  with_pool-Keeps failed run k s =
      try_except-Keeps (sh.get_ssh_pool s.world).0 (λ _. run) _ (λ _. k) (λ e s3. refl)
        (record s { world = (sh.get_ssh_pool s.world).1 })

  if_any-Keeps :
      {R : Type 0} (cs : List String) (r : R) (run : Exec (State W) R)
      → Keeps run
      → Keeps (if_any cs r run)
  unfolding if_any
  if_any-Keeps [] r run k s = refl
  if_any-Keeps (_ ∷ _) r run k s = k s

  pub rollback-Keeps : Keeps (rollback b sh)
  unfolding rollback
  rollback-Keeps = if_any-Keeps b.rollback_commands _ _ (
      with_pool-Keeps rollback_raised _
        (run_all-Keeps 300 tally_rollback rollback_done rollback_raised 1 _ _))

  pub post_check-Keeps : Keeps (post_check b sh)
  unfolding post_check
  post_check-Keeps =
      if_any-Keeps b.check_commands _ _ (
        with_pool-Keeps check_raised _ (run_all-Keeps 60 tally_check check_done check_raised 1 _ _))
