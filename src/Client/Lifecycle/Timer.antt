-- ===== src/Client/Lifecycle/Timer.antt =====
-- src/cpp/client.cpp and chronotrigger.cpp: the timer as `connect` and `disconnect` see it, and its thread.
use nymph_mqtt.Common.{
  ℕ, ◌≡◌, ◌≢◌, refl, sym, subst, true, false, List, [], ◌∷◌, ◌++◌, Option, none, some, ◌⊎◌, inl,
  inr,
}
use nymph_mqtt.ChronoTrigger.Thread.{
  Place, waiting, calling, TimerThread, Event, begins, times_out, wakes_up, returns, restart,
  finish, stop, joins, start, State, alive, join_threw, set_callback, timer_step, run_timer,
}
use nymph_mqtt.ChronoTrigger.Joining.{LeftAlone, GetsOn, IsJoined, run_timer-stop}
use nymph_mqtt.ChronoTrigger.Lost.{NotToldAgain, GoesOn, run_timer-restart-stop}
use nymph_mqtt.Client.{NmqttClient}
use nymph_mqtt.Client.World.{
  Ended, returned, crashed, blocked, not_joinable, terminated, start_timer, stop_timer,
}

module _ {N : Type 0} where
  -- No thread to join, or one in its loop that pings the handle.
  abbrev pub Represents : Option ℕ → TimerThread N → Type 0
  Represents none t = t.place ≡ Place.not_joinable
  Represents (some handle) t = ((t.place ≡ waiting) ⊎ (t.place ≡ calling)) × (t.user_data ≡ handle)

  -- The same end.
  abbrev pub Implements : Ended NmqttClient → State N → Type 0
  Implements (returned c) (alive t) = Represents c.ping_thread t
  Implements (crashed terminated) State.terminated = Unit {0}
  Implements (crashed not_joinable) (join_threw t) = Unit {0}
  Implements blocked s = GoesOn s
  Implements e s = ⊥

  start-Implements :
      (o : Option ℕ) (c : NmqttClient) (handle : ℕ) (t : TimerThread N) (f : ℕ → N → N)
      → Represents o t
      → Implements
          (start_timer o c handle)
          (run_timer (start false ∷ begins ∷ []) (set_callback f handle t))
  unfolding run_timer timer_step set_callback
  start-Implements none c handle t f r = rw r (inl refl, refl)
  start-Implements (some h) c handle t f (inl e, d) = rw e tt
  start-Implements (some h) c handle t f (inr e, d) = rw e tt

  nothing_to_join :
      (more : List Event) (t : TimerThread N)
      → LeftAlone more
      → (u : TimerThread N) × (run_timer
            (more ++ joins ∷ [])
            (record t { place = Place.not_joinable })
          ≡ join_threw u)
  unfolding run_timer timer_step
  nothing_to_join [] t h = (record t { place = Place.not_joinable }, refl)
  nothing_to_join (begins ∷ more) t h = nothing_to_join more t h
  nothing_to_join (times_out ∷ more) t h = nothing_to_join more t h
  nothing_to_join (wakes_up ∷ more) t h = nothing_to_join more t h
  nothing_to_join (returns ∷ more) t h = nothing_to_join more t h
  nothing_to_join (restart ∷ more) t h = absurd h
  nothing_to_join (finish ∷ more) t h =
      nothing_to_join more (record t { timer = record t.timer { running = false } }) h
  nothing_to_join (stop ∷ more) t h =
      nothing_to_join more
        (record t { timer = record t.timer { signaled = true; stopping = true } }) h
  nothing_to_join (joins ∷ more) t h = absurd h
  nothing_to_join (start single ∷ more) t h = absurd h

  joined_Implements :
      (c : NmqttClient) (calls : ℕ) (net : N) (s : State N)
      → IsJoined calls net s
      → Implements (returned (record c { ping_thread = none })) s
  joined_Implements c calls net s (u, e, place, calls_, net_) =
      subst (λ s'. Implements (returned (record c { ping_thread = none })) s') (sym e) place

  threw_Implements :
      (s : State N) → (u : TimerThread N) × (s ≡ join_threw u) → Implements (crashed not_joinable) s
  threw_Implements s (u, e) = subst (λ s'. Implements (crashed not_joinable) s') (sym e) tt

  stop-Implements :
      (o : Option ℕ) (c : NmqttClient) (t : TimerThread N) (more : List Event)
      → Represents o t
      → t.timer.restarting ≡ false
      → LeftAlone more
      → (t.place ≢ Place.not_joinable → GetsOn t.place more)
      → Implements (stop_timer true o c) (run_timer (stop ∷ more ++ joins ∷ []) t)
  unfolding run_timer timer_step
  stop-Implements none c t more r quiet alone on = rw r (
      threw_Implements _ (
        nothing_to_join more
          (record t { timer = record t.timer { signaled = true; stopping = true } }) alone))
  stop-Implements (some h) c t more (inl e, d) quiet alone on =
      joined_Implements c _ _ _ (run_timer-stop t more quiet alone (on (λ q. cc)))
  stop-Implements (some h) c t more (inr e, d) quiet alone on =
      joined_Implements c _ _ _ (run_timer-stop t more quiet alone (on (λ q. cc)))

  -- The `join` that waits for ever: a restart is asked for when the thread was told to stop.
  stop_timer-Implements_lost :
      (c : NmqttClient) (handle : ℕ) (t : TimerThread N) (f : ℕ → N → N) (more : List Event)
      → c.ping_thread ≡ some handle
      → Represents (some handle) t
      → t.single ≡ false
      → t.callback ≡ some f
      → t.timer.running ≡ true
      → NotToldAgain more
      → Implements (stop_timer false c.ping_thread c) (run_timer (stop ∷ restart ∷ more) t)
  stop_timer-Implements_lost c handle t f more has (loops, d) periodic_ set_ runs h =
      rw has (run_timer-restart-stop t f more loops periodic_ set_ runs h).0

  -- What `connect` and `disconnect` take the timer for is what its thread does: with no thread, `start` leaves
  -- one that pings the handle, and `stop` throws from `join`; with a thread in its loop, `start` terminates the
  -- program, and `stop` returns with no thread left, when no restart is pending, the thread gets on,
  -- nobody calls `restart` or `start` meanwhile, and nobody else joins it.
  pub start_timer-stop_timer-Implements :
      (c : NmqttClient) (handle : ℕ) (t : TimerThread N) (f : ℕ → N → N) (more : List Event)
      → Represents c.ping_thread t
      → t.timer.restarting ≡ false
      → LeftAlone more
      → (t.place ≢ Place.not_joinable → GetsOn t.place more)
      → Implements
          (start_timer c.ping_thread c handle)
          (run_timer (start false ∷ begins ∷ []) (set_callback f handle t))
        × Implements (stop_timer true c.ping_thread c) (run_timer (stop ∷ more ++ joins ∷ []) t)
  start_timer-stop_timer-Implements c handle t f more r quiet alone on = (
    start-Implements c.ping_thread c handle t f r,
    stop-Implements c.ping_thread c t more r quiet alone on,
  )
