-- ===== src/Subagents.antt =====
-- merlya/subagents/timeout.py, `ActivityTimeout`: a task that is cancelled when it is idle for too
-- long or runs for too long. Times are in milliseconds, a quarter of a time is rounded down. The
-- task, its cancellation and the callback act on a world `W` with a clock; what touch_activity()
-- does during a wait is the time of its last call. The context variable that finds the tracker is
-- left out, and the wait for a task that was cancelled is taken to end.
pub mod Timeout
pub mod Results
pub mod Orchestrator
pub mod Reports
mod Examples
use merlya.Common.{
  ℕ, zero, suc, ◌+◌, ◌-◌, ◌*◌, ◌/◌, min, max, ◌≡◌, String, ◌<>◌, Bool, true, false, Option, none,
  some, ltb, leb, ◌==◌, ◌%◌, if◌then◌else◌,
}
use merlya.Common.Decimal.{show}
use merlya.Common.Outcome.{Outcome, returned, raised, cancelled, Exec}

-- The message of a timeout, without the prefix.
pub data Reason : Type 0 where
  max_reached : ℕ → Reason
  idle_for : ℕ → Reason

pub record ActivityTimeout : Type 0 where
  pub idle_timeout : ℕ
  pub max_timeout : ℕ
  pub start_time : ℕ
  pub last_activity : ℕ
  pub is_cancelled : Bool
  pub timeout_reason : Option Reason

abbrev pub min_idle_timeout : ℕ
min_idle_timeout = 10000

abbrev pub min_max_timeout : ℕ
min_max_timeout = 30000

abbrev default_max_timeout : ℕ
default_max_timeout = 600000

unfoldable pub new : ℕ → ℕ → ActivityTimeout
new idle most = record {
  idle_timeout = max idle min_idle_timeout;
  max_timeout = max most min_max_timeout;
  start_time = 0;
  last_activity = 0;
  is_cancelled = false;
  timeout_reason = none;
}

-- `skill_timeout or DEFAULT`, with the default ratio of a half.
abbrev or_default : Option ℕ → ℕ
or_default none = default_max_timeout
or_default (some zero) = default_max_timeout
or_default (some (suc n)) = suc n

unfoldable pub create_activity_timeout : Option ℕ → ℕ → ActivityTimeout
create_activity_timeout skill_timeout min_idle =
    new (max (or_default skill_timeout / 2) min_idle) (or_default skill_timeout)

unfoldable pub touch : ℕ → ActivityTimeout → ActivityTimeout
touch now t = record t { last_activity = now }

abbrev pub since : ℕ → ℕ → ℕ
since now zero = 0
since now (suc n) = now - suc n

unfoldable pub elapsed : ℕ → ActivityTimeout → ℕ
elapsed now t = since now t.start_time

unfoldable pub idle_time : ℕ → ActivityTimeout → ℕ
idle_time now t = since now t.last_activity

abbrev pub timed_out : Reason → ActivityTimeout → ActivityTimeout
timed_out r t = record t { is_cancelled = true; timeout_reason = some r }

unfoldable pub check_timeout : ℕ → ActivityTimeout → Bool × ActivityTimeout
check_timeout now t =
    if leb t.max_timeout (now - t.start_time)
    then (true, timed_out (max_reached t.max_timeout) t)
    else if leb t.idle_timeout (now - t.last_activity)
    then (true, timed_out (idle_for t.idle_timeout) t)
    else (false, t)

unfoldable pub check_interval : ActivityTimeout → ℕ
check_interval t = min (t.idle_timeout / 4) 2000

-- How a wait for the task ends: with the task, with the end of the interval, or with the
-- cancellation of the whole run.
pub data Wake (A : Type 0) : Type 0 where
  finished : Outcome A → Wake A
  pending : Wake A
  interrupted : Wake A

pub record Task (W A : Type 0) : Type 0 where
  pub now : W → ℕ
  -- How the wait of this length ends, and the time of the last touch() in it.
  pub wait : ℕ → W → Wake A × Option ℕ × W
  -- task.cancel() and the wait for its end
  pub cancel : Exec W (Unit {0})
  pub on_timeout : Option (Exec W (Unit {0}))

abbrev pub touched : Option ℕ → ActivityTimeout → ActivityTimeout
touched none t = t
touched (some now) t = touch now t

-- f"{seconds:.0f}", a half to the even neighbour
abbrev nearest : ℕ → ℕ → ℕ
nearest q r = if ltb r 500 then q else if r == 500 then q + q % 2 else q + 1

abbrev rounded : ℕ → String
rounded n = show (nearest (n / 1000) (n % 1000))

abbrev pub message : Option Reason → String
message none = "Activity timeout: None"
message (some (max_reached n)) = "Activity timeout: max timeout (" <> rounded n <> "s)"
message (some (idle_for n)) = "Activity timeout: idle timeout (" <> rounded n <> "s)"

abbrev pub started : ℕ → ActivityTimeout → ActivityTimeout
started now t = record t {
  start_time = now;
  last_activity = now;
  is_cancelled = false;
  timeout_reason = none;
}

-- How a run ends: its outcome, the tracker, and the world.
pub record Ended (W A : Type 0) : Type 0 where
  pub outcome : Outcome A
  pub tracker : ActivityTimeout
  pub world : W

module _ {W A : Type 0} (task : Task W A) where
  -- The callback's exceptions are logged.
  abbrev called_back : Outcome (Unit {0}) → Option Reason → Outcome A
  called_back (returned _) r = raised (message r)
  called_back (raised e) r = raised (message r)
  called_back cancelled r = cancelled

  abbrev call_back : Option (Exec W (Unit {0})) → ActivityTimeout → W → Ended W A
  call_back none t w = record {
    outcome = raised (message t.timeout_reason);
    tracker = t;
    world = w;
  }
  call_back (some f) t w = record {
    outcome = called_back (f w).0 t.timeout_reason;
    tracker = t;
    world = (f w).1;
  }

  -- An exception of the task as it is cancelled goes out of the run; a cancellation does not.
  abbrev pub after_cancel : Outcome (Unit {0}) × W → ActivityTimeout → Ended W A
  after_cancel (returned _, w) t = call_back task.on_timeout t w
  after_cancel (raised e, w) t = record { outcome = raised e; tracker = t; world = w }
  after_cancel (cancelled, w) t = call_back task.on_timeout t w

  abbrev interrupt : Outcome (Unit {0}) × W → ActivityTimeout → Ended W A
  interrupt (returned _, w) t = record { outcome = cancelled; tracker = t; world = w }
  interrupt (raised e, w) t = record { outcome = raised e; tracker = t; world = w }
  interrupt (cancelled, w) t = record { outcome = cancelled; tracker = t; world = w }

  -- The check while the task is not done, and what comes after it if there is no timeout.
  abbrev pub checked : Bool × ActivityTimeout → W → Option (Ended W A) → Option (Ended W A)
  checked (true, t) w rest = some (after_cancel (task.cancel w) t)
  checked (false, t) w rest = rest

  abbrev pub woken : Wake A → ActivityTimeout → W → Option (Ended W A) → Option (Ended W A)
  woken (finished o) t w rest = some (record { outcome = o; tracker = t; world = w })
  woken interrupted t w rest = some (interrupt (task.cancel w) t)
  woken pending t w rest = checked (check_timeout (task.now w) t) w rest

  -- The loop, for this number of waits at most; none where they were not enough.
  unfoldable pub loop : ℕ → ActivityTimeout → W → Option (Ended W A)
  loop zero t w = none
  loop (suc n) t w =
      let r = task.wait (check_interval t) w in
      let u = touched r.1 t in woken r.0 u r.2 (loop n u r.2)

  unfoldable pub run : ActivityTimeout → W → Option (Ended W A)
  run t w = loop (suc (t.max_timeout / 2000)) (started (task.now w) t) w
