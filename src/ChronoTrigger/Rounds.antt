-- ===== src/ChronoTrigger/Rounds.antt =====
-- src/cpp/chronotrigger.cpp: the rounds of the flags, as steps of the thread.
use nymph_mqtt.Common.{ℕ, ◌+◌, ◌≡◌, refl, Bool, true, false, List, [], ◌∷◌, some}
use nymph_mqtt.ChronoTrigger.{ChronoTrigger, Action, act, acts}
use nymph_mqtt.ChronoTrigger.Thread.{
  Place, waiting, finished, TimerThread, Event, times_out, wakes_up, returns, restart, finish, stop,
  alive, timer_step, run_timer,
}

-- A round with its callback, with nothing in between; or a call of another thread.
abbrev pub events_of : List Action → List Event
events_of [] = []
events_of (Action.times_out ∷ more) = times_out ∷ returns ∷ events_of more
events_of (Action.wakes_up ∷ more) = wakes_up ∷ returns ∷ events_of more
events_of (Action.restart ∷ more) = restart ∷ events_of more
events_of (Action.finish ∷ more) = finish ∷ events_of more
events_of (Action.stop ∷ more) = stop ∷ events_of more

module _ {N : Type 0} (f : ℕ → N → N) (data_ : ℕ) where
  -- In the wait, or behind the loop.
  abbrev place_of : Bool → Place
  place_of true = waiting
  place_of false = finished

  abbrev between : Bool → ChronoTrigger → N → TimerThread N
  between single c net = record {
    place = place_of c.looping;
    single = single;
    callback = some f;
    user_data = data_;
    timer = c;
    net = net;
  }

  abbrev flags : Bool → Bool → Bool → Bool → ℕ → Bool → ChronoTrigger
  flags running signaled restarting stopping calls looping = record {
    running = running;
    signaled = signaled;
    restarting = restarting;
    stopping = stopping;
    calls = calls;
    looping = looping;
  }

  rounds_from :
      (single : Bool) (actions : List Action) (r s re st l : Bool) (calls : ℕ) (net : N)
      → (u : TimerThread N) × (run_timer
            (events_of actions)
            (between single (flags r s re st calls l) net)
          ≡ alive u)
        × (u.timer ≡ acts single (flags r s re st calls l) actions)
  unfolding run_timer timer_step acts act
  rounds_from k [] r s re st l calls net = (between k (flags r s re st calls l) net, refl, refl)
  rounds_from k (Action.restart ∷ more) r s re st l calls net =
      rounds_from k more r true true st l calls net
  rounds_from k (Action.finish ∷ more) r s re st l calls net =
      rounds_from k more false s re st l calls net
  rounds_from k (Action.stop ∷ more) r s re st l calls net =
      rounds_from k more r true re true l calls net
  rounds_from k (Action.times_out ∷ more) r s re st false calls net =
      rounds_from k more r s re st false calls net
  rounds_from k (Action.wakes_up ∷ more) r s re st false calls net =
      rounds_from k more r s re st false calls net
  rounds_from k (Action.times_out ∷ more) r s true st true calls net =
      rounds_from k more true false false false true calls net
  rounds_from k (Action.times_out ∷ more) r s false true true calls net =
      rounds_from k more r s false true false calls net
  rounds_from true (Action.times_out ∷ more) r s false false true calls net =
      rounds_from true more r s false false false (calls + 1) (f data_ net)
  rounds_from false (Action.times_out ∷ more) true s false false true calls net =
      rounds_from false more true s false false true (calls + 1) (f data_ net)
  rounds_from false (Action.times_out ∷ more) false s false false true calls net =
      rounds_from false more false s false false false (calls + 1) (f data_ net)
  rounds_from k (Action.wakes_up ∷ more) r false re st true calls net =
      rounds_from k more r false re st true calls net
  rounds_from k (Action.wakes_up ∷ more) r true true st true calls net =
      rounds_from k more true false false false true calls net
  rounds_from k (Action.wakes_up ∷ more) r true false true true calls net =
      rounds_from k more r false false true false calls net
  rounds_from true (Action.wakes_up ∷ more) r true false false true calls net =
      rounds_from true more r false false false false (calls + 1) (f data_ net)
  rounds_from false (Action.wakes_up ∷ more) true true false false true calls net =
      rounds_from false more true false false false true (calls + 1) (f data_ net)
  rounds_from false (Action.wakes_up ∷ more) false true false false true calls net =
      rounds_from false more false false false false false (calls + 1) (f data_ net)

-- The rounds of the flags, `acts`, are the runs of the thread in which every callback returns before anything else
-- happens: from the wait, they leave the same flags and the same number of calls, and the program is not
-- terminated.
pub run_timer-acts :
    {N : Type 0} (t : TimerThread N) (f : ℕ → N → N) (actions : List Action)
    → t.place ≡ waiting
    → t.timer.looping ≡ true
    → t.callback ≡ some f
    → (u : TimerThread N) × (run_timer (events_of actions) t ≡ alive u)
      × (u.timer ≡ acts t.single t.timer actions)
run_timer-acts t f actions waits loops set_ =
    let c : ChronoTrigger = t.timer in
    rw (waits, set_, loops)
      (rounds_from f t.user_data t.single actions c.running c.signaled c.restarting c.stopping true
        c.calls t.net)
