-- ===== src/Subagents/Timeout.antt =====
-- The end of every run, and the timeout of the tasks that do not end by themselves.
use merlya.Common.{
  ℕ, zero, suc, ◌+◌, ◌-◌, ◌*◌, ◌/◌, ◌≤◌, max, ◌≡◌, refl, ◌≢◌, Bool, true, false, Option, none, some,
  arith,
}
use merlya.Common.Outcome.{Outcome, returned, raised, cancelled, Exec}
use merlya.Subagents.{
  ActivityTimeout, new, min_idle_timeout, Reason, Task, Wake, finished, pending, interrupted, Ended,
  check_timeout, check_interval, touch, touched, checked, woken, after_cancel, loop, started, run,
  call_back, called_back,
}

check_interval-two : (t : ActivityTimeout) → 10000 ≤ t.idle_timeout → check_interval t ≡ 2000
unfolding check_interval
check_interval-two t h = omega arith

check_timeout-due :
    (now : ℕ) (t : ActivityTimeout)
    → (check_timeout now t).0 ≡ false
    → (now - t.start_time + 1 ≤ t.max_timeout) × (now - t.last_activity + 1 ≤ t.idle_timeout)
unfolding check_timeout
check_timeout-due now t h = ground (arith, h)

check_timeout-kept :
    (now : ℕ) (t : ActivityTimeout) → (check_timeout now t).0 ≡ false → (check_timeout now t).1 ≡ t
unfolding check_timeout
check_timeout-kept now t h = ground (arith, h)

check_timeout-marks :
    (now : ℕ) (t : ActivityTimeout)
    → (check_timeout now t).0 ≡ true
    → (check_timeout now t).1.is_cancelled ≡ true
unfolding check_timeout
check_timeout-marks now t h = ground (arith, h)

module _ {W A : Type 0} (task : Task W A) where
  -- A wait that ends without the task has lasted its time.
  abbrev pub TakesTime : Type 0
  TakesTime =
      (i : ℕ) (w : W) → (task.wait i w).0 ≡ pending → task.now w + i ≤ task.now (task.wait i w).2

  abbrev pub Returns : Option (Ended W A) → Type 0
  Returns o = (e : Ended W A) × (o ≡ some e)

  checked-Returns :
      (now : ℕ) (t : ActivityTimeout) (w : W) (rest : Option (Ended W A))
      → ((check_timeout now t).0 ≡ false → Returns rest)
      → Returns (checked task (check_timeout now t) w rest)
  checked-Returns now t w rest h = on_check (check_timeout now t) h
    where
      on_check :
          (c : Bool × ActivityTimeout)
          → (c.0 ≡ false → Returns rest)
          → Returns (checked task c w rest)
      on_check (true, u) g = (after_cancel task (task.cancel w) u, refl)
      on_check (false, u) g = g refl

  woken-Returns :
      (wake : Wake A) (t : ActivityTimeout) (w : W) (rest : Option (Ended W A))
      → (wake ≡ pending → (check_timeout (task.now w) t).0 ≡ false → Returns rest)
      → Returns (woken task wake t w rest)
  woken-Returns (finished o) t w rest h = (_, refl)
  woken-Returns pending t w rest h = checked-Returns (task.now w) t w rest (h refl)
  woken-Returns interrupted t w rest h = (_, refl)

  -- A touch changes the time of the last activity only.
  touched-kept :
      (r : Option ℕ) (t : ActivityTimeout)
      → ((touched r t).start_time ≡ t.start_time)
        × ((touched r t).max_timeout ≡ t.max_timeout)
        × ((touched r t).idle_timeout ≡ t.idle_timeout)
  unfolding touch
  touched-kept none t = (refl, refl, refl)
  touched-kept (some now) t = (refl, refl, refl)

  -- While the waits left are enough for the longest run, so are those left after a wait that ends
  -- with no timeout, and this was not the last.
  Enough : ℕ → ActivityTimeout → W → Type 0
  Enough n t w =
      (10000 ≤ t.idle_timeout)
      × (t.start_time ≤ task.now w)
      × (t.max_timeout ≤ task.now w + 2000 * n - t.start_time)

  Enough-wait :
      (n : ℕ) (t : ActivityTimeout) (w : W)
      → TakesTime
      → Enough (suc n) t w
      → (task.wait (check_interval t) w).0 ≡ pending
      → (check_timeout
          (task.now (task.wait (check_interval t) w).2)
          (touched (task.wait (check_interval t) w).1 t)).0
        ≡ false
      → Enough n (touched (task.wait (check_interval t) w).1 t) (task.wait (check_interval t) w).2
        × (1 ≤ n)
  unfolding Enough
  Enough-wait n t w takes (i, s, m) p c =
      let l = takes (check_interval t) w p in
      let d =
        check_timeout-due (task.now (task.wait (check_interval t) w).2)
          (touched (task.wait (check_interval t) w).1 t) c in
      let k = touched-kept (task.wait (check_interval t) w).1 t in
      let e = check_interval-two t i in
      (
        (omega (arith, k.2, i), omega (arith, k.0, s, l), omega (arith, k.0, k.1, l, m, e)),
        omega (arith, k.0, k.1, l, m, e, d.0),
      )

  loop-Returns :
      (n : ℕ) (t : ActivityTimeout) (w : W)
      → TakesTime
      → Enough (suc n) t w
      → Returns (loop task (suc n) t w)
  unfolding loop
  loop-Returns zero t w takes h =
      woken-Returns (task.wait (check_interval t) w).0
        (touched (task.wait (check_interval t) w).1 t) (task.wait (check_interval t) w).2 none
        (λ p c. let e = (Enough-wait zero t w takes h p c).1 in absurd (omega (arith, e)))
  loop-Returns (suc n) t w takes h =
      woken-Returns (task.wait (check_interval t) w).0
        (touched (task.wait (check_interval t) w).1 t) (task.wait (check_interval t) w).2 _
        (λ p c. loop-Returns n _ _ takes (Enough-wait (suc n) t w takes h p c).0)

  -- If every wait that ends without the task lasts its time, the run of a new tracker always ends,
  -- in no more waits than the loop is given: its longest time over two seconds and one.
  pub run-Returns : (idle most : ℕ) (w : W) → TakesTime → Returns (run task (new idle most) w)
  unfolding run new Enough
  run-Returns idle most w takes =
      loop-Returns _ (started (task.now w) (new idle most)) w takes
        (omega arith, omega arith, omega arith)

  -- The task does not end by itself and the run is not cancelled.
  abbrev pub Endless : Type 0
  Endless = (i : ℕ) (w : W) → (task.wait i w).0 ≡ pending

  abbrev NotReturned : Outcome A → Type 0
  NotReturned o = (a : A) → o ≢ returned a

  -- Ended by a timeout: the tracker says so, and there is no result.
  abbrev pub TimedOut : Option (Ended W A) → Type 0
  TimedOut o =
      (e : Ended W A) × (o ≡ some e)
      × (e.tracker.is_cancelled ≡ true)
      × ((a : A) → e.outcome ≢ returned a)

  called_back-NotReturned :
      (o : Outcome (Unit {0})) (r : Option Reason) → NotReturned (called_back task o r)
  called_back-NotReturned (returned x) r a e = ground arith
  called_back-NotReturned (raised m) r a e = ground arith
  called_back-NotReturned cancelled r a e = ground arith

  call_back-TimedOut :
      (f : Option (Exec W (Unit {0}))) (t : ActivityTimeout) (w : W)
      → t.is_cancelled ≡ true
      → TimedOut (some (call_back task f t w))
  call_back-TimedOut none t w h = (_, refl, h, λ a e. ground arith)
  call_back-TimedOut (some f) t w h = (_, refl, h, called_back-NotReturned (f w).0 t.timeout_reason)

  after_cancel-TimedOut :
      (r : Outcome (Unit {0}) × W) (t : ActivityTimeout)
      → t.is_cancelled ≡ true
      → TimedOut (some (after_cancel task r t))
  after_cancel-TimedOut (returned x, w) t h = call_back-TimedOut task.on_timeout t w h
  after_cancel-TimedOut (raised m, w) t h = (_, refl, h, λ a e. ground arith)
  after_cancel-TimedOut (cancelled, w) t h = call_back-TimedOut task.on_timeout t w h

  checked-TimedOut :
      (now : ℕ) (t : ActivityTimeout) (w : W) (rest : Option (Ended W A))
      → ((check_timeout now t).0 ≡ false → TimedOut rest)
      → TimedOut (checked task (check_timeout now t) w rest)
  checked-TimedOut now t w rest h = on_check (check_timeout now t) (check_timeout-marks now t) h
    where
      on_check :
          (c : Bool × ActivityTimeout)
          → (c.0 ≡ true → c.1.is_cancelled ≡ true)
          → (c.0 ≡ false → TimedOut rest)
          → TimedOut (checked task c w rest)
      on_check (true, u) m g = after_cancel-TimedOut (task.cancel w) u (m refl)
      on_check (false, u) m g = g refl

  -- A measure of the waits left: one wait with no timeout after it uses one up, and not the last.
  Step : (ℕ → ActivityTimeout → W → Type 0) → Type 0
  Step P =
      (n : ℕ) (t : ActivityTimeout) (w : W)
      → P (suc n) t w
      → (check_timeout (task.now (task.wait (check_interval t) w).2)
          (touched (task.wait (check_interval t) w).1 t)).0
        ≡ false
      → P n (touched (task.wait (check_interval t) w).1 t) (task.wait (check_interval t) w).2
        × (1 ≤ n)

  loop-TimedOut :
      (P : ℕ → ActivityTimeout → W → Type 0) (n : ℕ) (t : ActivityTimeout) (w : W)
      → Step P
      → Endless
      → P (suc n) t w
      → TimedOut (loop task (suc n) t w)
  unfolding loop Step
  loop-TimedOut P zero t w step endless h = rw (endless (check_interval t) w) (
      checked-TimedOut (task.now (task.wait (check_interval t) w).2)
        (touched (task.wait (check_interval t) w).1 t) _ none
        (λ c. let e = (step zero t w h c).1 in absurd (omega (arith, e))))
  loop-TimedOut P (suc n) t w step endless h = rw (endless (check_interval t) w) (
      checked-TimedOut (task.now (task.wait (check_interval t) w).2)
        (touched (task.wait (check_interval t) w).1 t) _ _
        (λ c. loop-TimedOut P n _ _ step endless (step (suc n) t w h c).0))

  -- If every wait that ends without the task lasts its time, the run of an endless task, touching
  -- the tracker or not, ends by a timeout and with no result.
  pub endless_task-TimedOut :
      (idle most : ℕ) (w : W) → TakesTime → Endless → TimedOut (run task (new idle most) w)
  unfolding run new Enough Step
  endless_task-TimedOut idle most w takes endless =
      loop-TimedOut Enough _ (started (task.now w) (new idle most)) w
        (λ n t v h c. Enough-wait n t v takes h (endless (check_interval t) v) c) endless
        (omega arith, omega arith, omega arith)

  -- The task never touches the tracker.
  abbrev pub Silent : Type 0
  Silent = (i : ℕ) (w : W) → (task.wait i w).1 ≡ none

  EnoughIdle : ℕ → ActivityTimeout → W → Type 0
  EnoughIdle n t w =
      (10000 ≤ t.idle_timeout)
      × (t.last_activity ≤ task.now w)
      × (t.idle_timeout ≤ task.now w + 2000 * n - t.last_activity)

  EnoughIdle-wait :
      (n : ℕ) (t : ActivityTimeout) (w : W) (r : Option ℕ) (v : W)
      → r ≡ none
      → task.now w + check_interval t ≤ task.now v
      → EnoughIdle (suc n) t w
      → (check_timeout (task.now v) (touched r t)).0 ≡ false
      → EnoughIdle n (touched r t) v × (1 ≤ n)
  unfolding EnoughIdle
  EnoughIdle-wait n t w (some k) v q l h c = absurd (ground arith)
  EnoughIdle-wait n t w none v q l (i, s, m) c =
      let d = check_timeout-due (task.now v) t c in
      let e = check_interval-two t i in
      ((i, omega (arith, s, l), omega (arith, l, m, e)), omega (arith, l, m, e, d.1))

  -- If every wait that ends without the task lasts its time, a task that is endless and silent is
  -- timed out after no more waits than the idle timeout (or its least value, if that is more) over
  -- two seconds, and one, however large the longest run is.
  pub silent_task-TimedOut :
      (idle most : ℕ) (w : W)
      → TakesTime
      → Endless
      → Silent
      → TimedOut (
          loop task
            (suc (max idle min_idle_timeout / 2000))
            (started (task.now w) (new idle most))
            w)
  unfolding new EnoughIdle Step
  silent_task-TimedOut idle most w takes endless silent =
      loop-TimedOut EnoughIdle _ (started (task.now w) (new idle most)) w
        (λ n t v h c.
          EnoughIdle-wait n t v _ _ (silent (check_interval t) v)
            (takes (check_interval t) v (endless (check_interval t) v)) h c)
        endless (omega arith, omega arith, omega arith)
