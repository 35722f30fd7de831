-- ===== src/ChronoTrigger/Lost.antt =====
-- src/cpp/chronotrigger.cpp: when the timer takes a `stop` back.
use nymph_mqtt.Common.{ℕ, ◌+◌, ◌⊎◌, inl, inr, ◌≡◌, refl, Bool, true, false, List, [], ◌∷◌, some}
use nymph_mqtt.ChronoTrigger.{begin}
use nymph_mqtt.ChronoTrigger.Thread.{
  Place, not_joinable, waiting, calling, TimerThread, Event, begins, times_out, wakes_up, returns,
  restart, finish, stop, joins, start, State, alive, terminated, join_threw, timer_step, run_timer,
}

-- No `start`, and no further `stop` or `finish`.
abbrev pub NotToldAgain : List Event → Type 0
NotToldAgain [] = Unit {0}
NotToldAgain (finish ∷ more) = ⊥
NotToldAgain (stop ∷ more) = ⊥
NotToldAgain (start single ∷ more) = ⊥
NotToldAgain (begins ∷ more) = NotToldAgain more
NotToldAgain (times_out ∷ more) = NotToldAgain more
NotToldAgain (wakes_up ∷ more) = NotToldAgain more
NotToldAgain (returns ∷ more) = NotToldAgain more
NotToldAgain (restart ∷ more) = NotToldAgain more
NotToldAgain (joins ∷ more) = NotToldAgain more

module _ {N : Type 0} where
  -- In the loop: every `join` goes on waiting.
  abbrev pub GoesOn : State N → Type 0
  GoesOn (alive t) = (t.place ≡ waiting) ⊎ (t.place ≡ calling)
  GoesOn terminated = ⊥
  GoesOn (join_threw t) = ⊥

module _ {N : Type 0} (f : ℕ → N → N) (data_ : ℕ) where
  -- A periodic timer whose thread knows of no `stop`.
  abbrev periodic : Place → Bool → Bool → Bool → ℕ → N → TimerThread N
  periodic place signaled restarting looping calls net = record {
    place = place;
    single = false;
    callback = some f;
    user_data = data_;
    timer = record {
      running = true;
      signaled = signaled;
      restarting = restarting;
      stopping = false;
      calls = calls;
      looping = looping;
    };
    net = net;
  }

  mutual
    unfolding run_timer timer_step

    waiting-GoesOn :
        (more : List Event) (signaled restarting looping : Bool) (calls : ℕ) (net : N)
        → NotToldAgain more
        → GoesOn (run_timer more (periodic waiting signaled restarting looping calls net))
    waiting-GoesOn [] s r l c n h = inl refl
    waiting-GoesOn (finish ∷ more) s r l c n h = absurd h
    waiting-GoesOn (stop ∷ more) s r l c n h = absurd h
    waiting-GoesOn (start single ∷ more) s r l c n h = absurd h
    waiting-GoesOn (begins ∷ more) s r l c n h = waiting-GoesOn more s r l c n h
    waiting-GoesOn (times_out ∷ more) s true l c n h = waiting-GoesOn more false false l c n h
    waiting-GoesOn (times_out ∷ more) s false l c n h =
        calling-GoesOn more s false l (c + 1) (f data_ n) h
    waiting-GoesOn (wakes_up ∷ more) false r l c n h = waiting-GoesOn more false r l c n h
    waiting-GoesOn (wakes_up ∷ more) true true l c n h = waiting-GoesOn more false false l c n h
    waiting-GoesOn (wakes_up ∷ more) true false l c n h =
        calling-GoesOn more false false l (c + 1) (f data_ n) h
    waiting-GoesOn (returns ∷ more) s r l c n h = waiting-GoesOn more s r l c n h
    waiting-GoesOn (restart ∷ more) s r l c n h = waiting-GoesOn more true true l c n h
    waiting-GoesOn (joins ∷ more) s r l c n h = waiting-GoesOn more s r l c n h

    calling-GoesOn :
        (more : List Event) (signaled restarting looping : Bool) (calls : ℕ) (net : N)
        → NotToldAgain more
        → GoesOn (run_timer more (periodic calling signaled restarting looping calls net))
    calling-GoesOn [] s r l c n h = inr refl
    calling-GoesOn (finish ∷ more) s r l c n h = absurd h
    calling-GoesOn (stop ∷ more) s r l c n h = absurd h
    calling-GoesOn (start single ∷ more) s r l c n h = absurd h
    calling-GoesOn (begins ∷ more) s r l c n h = calling-GoesOn more s r l c n h
    calling-GoesOn (times_out ∷ more) s r l c n h = calling-GoesOn more s r l c n h
    calling-GoesOn (wakes_up ∷ more) s r l c n h = calling-GoesOn more s r l c n h
    calling-GoesOn (returns ∷ more) s r l c n h = waiting-GoesOn more s r l c n h
    calling-GoesOn (restart ∷ more) s r l c n h = calling-GoesOn more true true l c n h
    calling-GoesOn (joins ∷ more) s r l c n h = calling-GoesOn more s r l c n h

  -- The same with a restart and a `stop` pending.
  abbrev both : Place → Bool → Bool → ℕ → N → TimerThread N
  both place signaled looping calls net =
      let t : TimerThread N = periodic place signaled true looping calls net in
      record t { timer = record t.timer { stopping = true } }

  both_waiting :
      (more : List Event) (signaled looping : Bool) (calls : ℕ) (net : N)
      → NotToldAgain more
      → GoesOn (run_timer more (both waiting signaled looping calls net))
  unfolding run_timer timer_step
  both_waiting [] s l c n h = inl refl
  both_waiting (finish ∷ more) s l c n h = absurd h
  both_waiting (stop ∷ more) s l c n h = absurd h
  both_waiting (start single ∷ more) s l c n h = absurd h
  both_waiting (begins ∷ more) s l c n h = both_waiting more s l c n h
  both_waiting (times_out ∷ more) s l c n h = waiting-GoesOn more false false l c n h
  both_waiting (wakes_up ∷ more) false l c n h = both_waiting more false l c n h
  both_waiting (wakes_up ∷ more) true l c n h = waiting-GoesOn more false false l c n h
  both_waiting (returns ∷ more) s l c n h = both_waiting more s l c n h
  both_waiting (restart ∷ more) s l c n h = both_waiting more true l c n h
  both_waiting (joins ∷ more) s l c n h = both_waiting more s l c n h

  both_calling :
      (more : List Event) (signaled looping : Bool) (calls : ℕ) (net : N)
      → NotToldAgain more
      → GoesOn (run_timer more (both calling signaled looping calls net))
  unfolding run_timer timer_step
  both_calling [] s l c n h = inr refl
  both_calling (finish ∷ more) s l c n h = absurd h
  both_calling (stop ∷ more) s l c n h = absurd h
  both_calling (start single ∷ more) s l c n h = absurd h
  both_calling (begins ∷ more) s l c n h = both_calling more s l c n h
  both_calling (times_out ∷ more) s l c n h = both_calling more s l c n h
  both_calling (wakes_up ∷ more) s l c n h = both_calling more s l c n h
  both_calling (returns ∷ more) s l c n h = both_waiting more s l c n h
  both_calling (restart ∷ more) s l c n h = both_calling more true l c n h
  both_calling (joins ∷ more) s l c n h = both_calling more s l c n h

  both-GoesOn :
      (place : Place) (more : List Event) (looping : Bool) (calls : ℕ) (net : N)
      → (place ≡ waiting) ⊎ (place ≡ calling)
      → NotToldAgain more
      → GoesOn (run_timer more (both place true looping calls net))
  both-GoesOn place more l c n (inl e) h = rw e (both_waiting more true l c n h)
  both-GoesOn place more l c n (inr e) h = rw e (both_calling more true l c n h)

-- A periodic timer with a callback, in its loop, in the wait or in the callback, that was not told to finish: when `restart`
-- is called before or after `stop`, with no step of the thread between them, `stop` is lost: as long
-- as nobody calls `stop`, `finish` or `start`, and whatever else happens, the thread stays in its loop,
-- and the `join` waits.
pub run_timer-restart-stop :
    {N : Type 0} (t : TimerThread N) (f : ℕ → N → N) (more : List Event)
    → (t.place ≡ waiting) ⊎ (t.place ≡ calling)
    → t.single ≡ false
    → t.callback ≡ some f
    → t.timer.running ≡ true
    → NotToldAgain more
    → GoesOn (run_timer (stop ∷ restart ∷ more) t) × GoesOn (run_timer (restart ∷ stop ∷ more) t)
unfolding run_timer timer_step
run_timer-restart-stop t f more loops periodic_ set_ runs h =
    let lost = both-GoesOn f t.user_data t.place more t.timer.looping t.timer.calls t.net loops h in
    (rw (periodic_, set_, runs) lost, rw (periodic_, set_, runs) lost)

-- A timer with a callback and no thread, that is started as a periodic one and told to stop before its thread has come to the first lines of `run`,
-- which reset the flags: `stop` is lost. As long as nobody calls `stop`, `finish` or `start` behind those
-- lines, and whatever else happens, the thread stays in its loop, and the `join` waits.
pub run_timer-start-stop :
    {N : Type 0} (t : TimerThread N) (f : ℕ → N → N) (more : List Event)
    → t.place ≡ not_joinable
    → t.callback ≡ some f
    → NotToldAgain more
    → GoesOn (run_timer (start false ∷ stop ∷ begins ∷ more) t)
unfolding run_timer timer_step begin
run_timer-start-stop t f more idle set_ h =
    rw (idle, set_) (waiting-GoesOn f t.user_data more false false true t.timer.calls t.net h)
