-- ===== src/ChronoTrigger/Joining.antt =====
-- src/cpp/chronotrigger.cpp: `stop`, of a timer whose thread is in its loop.
use nymph_mqtt.Common.{
  ℕ, ◌≡◌, refl, sym, subst, Bool, Bool-cases, inl, inr, ◌||◌, not, true, false, List, [], ◌∷◌, ◌++◌,
  Option,
}
use nymph_mqtt.ChronoTrigger.Thread.{
  Place, not_joinable, created, waiting, calling, finished, TimerThread, Event, begins, times_out,
  wakes_up, returns, restart, finish, stop, joins, start, State, alive, behind_callback, timer_step,
  and_then, run_timer,
}

-- No other thread calls `restart` or `start`, and nobody else gets on in a `join`.
abbrev pub LeftAlone : List Event → Type 0
LeftAlone [] = Unit {0}
LeftAlone (begins ∷ more) = LeftAlone more
LeftAlone (times_out ∷ more) = LeftAlone more
LeftAlone (wakes_up ∷ more) = LeftAlone more
LeftAlone (returns ∷ more) = LeftAlone more
LeftAlone (restart ∷ more) = ⊥
LeftAlone (finish ∷ more) = LeftAlone more
LeftAlone (stop ∷ more) = LeftAlone more
LeftAlone (joins ∷ more) = ⊥
LeftAlone (start single ∷ more) = ⊥

-- The wait ends: by the end of the interval, or by a wake-up.
abbrev pub WaitEnds : List Event → Type 0
WaitEnds [] = ⊥
WaitEnds (times_out ∷ more) = Unit {0}
WaitEnds (wakes_up ∷ more) = Unit {0}
WaitEnds (e ∷ more) = WaitEnds more

-- The thread gets on, from the wait or from the callback.
abbrev pub GetsOn : Place → List Event → Type 0
GetsOn calling [] = ⊥
GetsOn calling (returns ∷ more) = WaitEnds more
GetsOn calling (e ∷ more) = GetsOn calling more
GetsOn waiting more = WaitEnds more
GetsOn place more = ⊥

module _ {N : Type 0} where
  -- Joined, after this number of calls, with this behind them.
  abbrev pub IsJoined : ℕ → N → State N → Type 0
  IsJoined calls net s =
      (u : TimerThread N) × (s ≡ alive u)
      × (u.place ≡ not_joinable)
      × (u.timer.calls ≡ calls)
      × (u.net ≡ net)

module _ {N : Type 0} (single : Bool) (cb : Option (ℕ → N → N)) (data_ calls : ℕ) (net : N) where
  -- A timer that was told to stop.
  abbrev told : Place → Bool → Bool → Bool → TimerThread N
  told place running signaled looping = record {
    place = place;
    single = single;
    callback = cb;
    user_data = data_;
    timer = record {
      running = running;
      signaled = signaled;
      restarting = false;
      stopping = true;
      calls = calls;
      looping = looping;
    };
    net = net;
  }

  join_finished :
      (more : List Event) (running signaled : Bool)
      → LeftAlone more
      → IsJoined calls net (run_timer (more ++ joins ∷ []) (told finished running signaled false))
  unfolding run_timer timer_step
  join_finished [] r s h = (told not_joinable r s false, refl, refl, refl, refl)
  join_finished (begins ∷ more) r s h = join_finished more r s h
  join_finished (times_out ∷ more) r s h = join_finished more r s h
  join_finished (wakes_up ∷ more) r s h = join_finished more r s h
  join_finished (returns ∷ more) r s h = join_finished more r s h
  join_finished (restart ∷ more) r s h = absurd h
  join_finished (finish ∷ more) r s h = join_finished more false s h
  join_finished (stop ∷ more) r s h = join_finished more r true h
  join_finished (joins ∷ more) r s h = absurd h
  join_finished (start again ∷ more) r s h = absurd h

  join_waiting :
      (more : List Event) (running looping : Bool)
      → LeftAlone more
      → WaitEnds more
      → IsJoined calls net (run_timer (more ++ joins ∷ []) (told waiting running true looping))
  unfolding run_timer timer_step
  join_waiting [] r l h w = absurd w
  join_waiting (begins ∷ more) r l h w = join_waiting more r l h w
  join_waiting (times_out ∷ more) r l h w = join_finished more r true h
  join_waiting (wakes_up ∷ more) r l h w = join_finished more r false h
  join_waiting (returns ∷ more) r l h w = join_waiting more r l h w
  join_waiting (restart ∷ more) r l h w = absurd h
  join_waiting (finish ∷ more) r l h w = join_waiting more false l h w
  join_waiting (stop ∷ more) r l h w = join_waiting more r l h w
  join_waiting (joins ∷ more) r l h w = absurd h
  join_waiting (start again ∷ more) r l h w = absurd h

  -- Behind the callback the thread leaves its loop, or waits again.
  join_returned :
      (more : List Event) (running looping : Bool)
      → LeftAlone more
      → WaitEnds more
      → IsJoined calls net (
          and_then
            (behind_callback (told calling running true looping))
            (run_timer (more ++ joins ∷ [])))
  join_returned more r l h w = elim (Bool-cases (single || not r)) [
    | inl e ↦ rw e (join_finished more r true h)
    | inr e ↦ rw e (join_waiting more r l h w)
  ]

  join_calling :
      (more : List Event) (running looping : Bool)
      → LeftAlone more
      → GetsOn calling more
      → IsJoined calls net (run_timer (more ++ joins ∷ []) (told calling running true looping))
  unfolding run_timer timer_step
  join_calling [] r l h w = absurd w
  join_calling (begins ∷ more) r l h w = join_calling more r l h w
  join_calling (times_out ∷ more) r l h w = join_calling more r l h w
  join_calling (wakes_up ∷ more) r l h w = join_calling more r l h w
  join_calling (returns ∷ more) r l h w = join_returned more r l h w
  join_calling (restart ∷ more) r l h w = absurd h
  join_calling (finish ∷ more) r l h w = join_calling more false l h w
  join_calling (stop ∷ more) r l h w = join_calling more r l h w
  join_calling (joins ∷ more) r l h w = absurd h
  join_calling (start again ∷ more) r l h w = absurd h

  join_told :
      (place : Place) (more : List Event) (running looping : Bool)
      → LeftAlone more
      → GetsOn place more
      → IsJoined calls net (run_timer (more ++ joins ∷ []) (told place running true looping))
  join_told waiting more r l h w = join_waiting more r l h w
  join_told calling more r l h w = join_calling more r l h w
  join_told not_joinable more r l h w = absurd w
  join_told created more r l h w = absurd w
  join_told finished more r l h w = absurd w

-- `stop` of a timer whose thread is in its loop, in the wait or in the callback, with no restart pending:
-- when the thread gets on, nobody, the callback included, calls `restart` or `start` meanwhile, and
-- nobody else joins the thread, the `join` comes through, no callback has been called since `stop`,
-- and the timer can be started again.
pub run_timer-stop :
    {N : Type 0} (t : TimerThread N) (more : List Event)
    → t.timer.restarting ≡ false
    → LeftAlone more
    → GetsOn t.place more
    → IsJoined t.timer.calls t.net (run_timer (stop ∷ more ++ joins ∷ []) t)
unfolding run_timer timer_step
run_timer-stop t more quiet h w =
    subst
      (λ b. IsJoined t.timer.calls t.net (
        run_timer (more ++ joins ∷ []) (record t {
          timer = record t.timer { signaled = true; restarting = b; stopping = true };
        })))
      (sym quiet)
      (join_told t.single t.callback t.user_data t.timer.calls t.net t.place more t.timer.running
        t.timer.looping h w)
