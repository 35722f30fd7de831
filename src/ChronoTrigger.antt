-- ===== src/ChronoTrigger.antt =====
-- src/cpp/chronotrigger.cpp and chronotrigger.h: the timer thread and the threads that steer it.
pub mod Calls
pub mod Thread
pub mod Joining
pub mod Lost
pub mod Rounds
use nymph_mqtt.Common.{ℕ, ◌+◌, Bool, true, false, not, ◌&&◌, List, [], ◌∷◌, if◌then◌else◌}

-- The flags, how often the callback was called, and whether the thread is still in its loop.
pub record ChronoTrigger : Type 0 where
  pub running : Bool
  pub signaled : Bool
  pub restarting : Bool
  pub stopping : Bool
  pub calls : ℕ
  pub looping : Bool

-- The beginning of `run`.
unfoldable pub begin : ChronoTrigger
begin = record {
  running = true;
  signaled = false;
  restarting = false;
  stopping = false;
  calls = 0;
  looping = true;
}

-- What follows a wait: the checks of the flags, the callback, and the checks for another round.
abbrev pub check_flags : Bool → ChronoTrigger → ChronoTrigger
check_flags single t =
    if t.restarting
    then record t { running = true; signaled = false; restarting = false; stopping = false }
    else if t.stopping
    then record t { looping = false }
    else record t { calls = t.calls + 1; looping = not single && t.running }

-- The wait ends when its time is over, or when the thread wakes up and finds the signal. `stop` is
-- less the `join` that waits for the thread.
pub data Action : Type 0 where
  times_out wakes_up restart finish stop : Action

abbrev pub wake : Bool → ChronoTrigger → ChronoTrigger
wake single t = if t.signaled then check_flags single (record t { signaled = false }) else t

unfoldable pub act : Bool → ChronoTrigger → Action → ChronoTrigger
act single t times_out = if t.looping then check_flags single t else t
act single t wakes_up = if t.looping then wake single t else t
act single t restart = record t { restarting = true; signaled = true }
act single t finish = record t { running = false }
act single t stop = record t { signaled = true; stopping = true }

unfoldable pub acts : Bool → ChronoTrigger → List Action → ChronoTrigger
acts single t [] = t
acts single t (a ∷ more) = acts single (act single t a) more
