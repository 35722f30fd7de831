-- ===== src/ChronoTrigger/Thread.antt =====
-- src/cpp/chronotrigger.cpp: the thread object of a timer, with `setCallback`, `start`, and the callback and
-- the `join` of `stop` as steps that take time.
use nymph_mqtt.Common.{
  ℕ, ◌+◌, Bool, true, false, ◌||◌, not, List, [], ◌∷◌, Option, none, some, if◌then◌else◌,
}
use nymph_mqtt.ChronoTrigger.{ChronoTrigger, begin}

-- Where the thread is: there is none to join; it was made and has not come to the first line of `run`; it is in
-- the wait of `run`, or in the callback; or `run` has returned and it is still to be joined.
pub data Place : Type 0 where
  not_joinable created waiting calling finished : Place

-- The object, and what its callback acts on. In `timer`, `looping` is whether `run` has not returned.
pub record TimerThread (N : Type 0) : Type 0 where
  pub place : Place
  pub single : Bool
  pub callback : Option (ℕ → N → N)
  pub user_data : ℕ
  pub timer : ChronoTrigger
  pub net : N

-- What can happen next: the thread begins, its wait ends at the end of the interval or by a wake-up, its callback
-- returns; or another thread calls a method, or gets on in the `join` of `stop`.
pub data Event : Type 0 where
  begins times_out wakes_up returns : Event
  restart finish stop joins : Event
  start : Bool → Event

-- The program is terminated, since a `std::thread` that can be joined is assigned to or an exception leaves a
-- thread; or `join` throws, since there is no thread.
pub data State (N : Type 0) : Type 0 where
  alive : TimerThread N → State N
  terminated : State N
  join_threw : TimerThread N → State N

module _ {N : Type 0} where
  unfoldable pub set_callback : (ℕ → N → N) → ℕ → TimerThread N → TimerThread N
  set_callback cb user_data t = record t { callback = some cb; user_data = user_data }

  abbrev pub at_place : Place → ChronoTrigger → TimerThread N → State N
  at_place place c t = alive (record t { place = place; timer = c })

  abbrev pub leave_loop : TimerThread N → State N
  leave_loop t = at_place finished (record t.timer { looping = false }) t

  -- An empty `std::function` throws in the thread.
  abbrev pub call_back : Option (ℕ → N → N) → TimerThread N → State N
  call_back none t = terminated
  call_back (some f) t = alive (record t {
    place = calling;
    timer = record t.timer { calls = t.timer.calls + 1 };
    net = f t.user_data t.net;
  })

  -- Behind the wait, up to the call of the callback.
  abbrev pub behind_wait : TimerThread N → State N
  behind_wait t =
      if t.timer.restarting
      then at_place waiting
          (record t.timer {
            running = true;
            signaled = false;
            restarting = false;
            stopping = false;
          })
          t
      else if t.timer.stopping
      then leave_loop t
      else call_back t.callback t

  -- A thread that is woken goes on when it finds the signal, and waits again otherwise.
  abbrev pub behind_wake : TimerThread N → State N
  behind_wake t =
      if t.timer.signaled
      then behind_wait (record t { timer = record t.timer { signaled = false } })
      else alive t

  -- Behind the callback.
  abbrev pub behind_callback : TimerThread N → State N
  behind_callback t =
      if t.single || not t.timer.running then leave_loop t else at_place waiting t.timer t

  -- The step of the thread, where it is at the place that the event is about.
  abbrev pub thread_moves : Event → Place → TimerThread N → State N
  thread_moves begins created t = at_place waiting (record begin { calls = t.timer.calls }) t
  thread_moves times_out waiting t = behind_wait t
  thread_moves wakes_up waiting t = behind_wake t
  thread_moves returns calling t = behind_callback t
  thread_moves e place t = alive t

  -- `start` assigns a new thread.
  abbrev pub start_at : Place → Bool → TimerThread N → State N
  start_at not_joinable single t = alive (record t { place = created; single = single })
  start_at place single t = terminated

  -- `join` waits as long as `run` has not returned.
  abbrev pub join_at : Place → TimerThread N → State N
  join_at not_joinable t = join_threw t
  join_at finished t = alive (record t { place = not_joinable })
  join_at place t = alive t

  unfoldable pub timer_step : Event → TimerThread N → State N
  timer_step (start single) t = start_at t.place single t
  timer_step restart t =
      alive (record t { timer = record t.timer { restarting = true; signaled = true } })
  timer_step finish t = alive (record t { timer = record t.timer { running = false } })
  timer_step stop t =
      alive (record t { timer = record t.timer { signaled = true; stopping = true } })
  timer_step joins t = join_at t.place t
  timer_step e t = thread_moves e t.place t

  abbrev pub and_then : State N → (TimerThread N → State N) → State N
  and_then (alive t) f = f t
  and_then terminated f = terminated
  and_then (join_threw t) f = join_threw t

  unfoldable pub run_timer : List Event → TimerThread N → State N
  run_timer [] t = alive t
  run_timer (e ∷ more) t = and_then (timer_step e t) (run_timer more)
