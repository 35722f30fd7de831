-- ===== src/Tests/TimerThreads.antt =====
-- Runs of the thread of a timer, and instances of its theorems.
use nymph_mqtt.Common.{ℕ, ◌+◌, ◌≡◌, refl, inr, true, false, [], ◌∷◌, ◌++◌, none, some}
use nymph_mqtt.Common.Map.{find}
use nymph_mqtt.ChronoTrigger.{begin, Action, acts}
use nymph_mqtt.ChronoTrigger.Rounds.{events_of, run_timer-acts}
use nymph_mqtt.ChronoTrigger.Thread.{
  Place, waiting, calling, TimerThread, begins, times_out, wakes_up, returns, restart, stop, joins,
  start, alive, terminated, set_callback, and_then, timer_step, run_timer,
}
use nymph_mqtt.ChronoTrigger.Joining.{IsJoined, run_timer-stop}
use nymph_mqtt.ChronoTrigger.Lost.{GoesOn, run_timer-restart-stop, run_timer-start-stop}
use nymph_mqtt.Client.{NmqttClient, new_client}
use nymph_mqtt.Client.Pinging.{ping, pass_intervals, pinged, pass_intervals-pinged}
use nymph_mqtt.Client.World.{start_timer, stop_timer}
use nymph_mqtt.Client.Lifecycle.Timer.{Implements, start_timer-stop_timer-Implements}
use nymph_mqtt.Tests.Objects.{junk, x86}
use nymph_mqtt.Tests.Sessions.{Wire, send_all}
use nymph_mqtt.Tests.Clients.{client}

abbrev add : ℕ → ℕ → ℕ
add d n = d + n

-- A timer that was never started.
abbrev idle : TimerThread ℕ
idle = record {
  place = Place.not_joinable;
  single = false;
  callback = some add;
  user_data = 5;
  timer = begin;
  net = 0;
}

abbrev looping : Place → TimerThread ℕ
looping place = record idle { place = place }

two_calls :
    run_timer (start false ∷ begins ∷ times_out ∷ returns ∷ times_out ∷ []) idle
    ≡ alive (record idle { place = calling; timer = record begin { calls = 2 }; net = 10 })
unfolding run_timer timer_step begin
two_calls = refl

second_start : run_timer (start false ∷ begins ∷ start false ∷ []) idle ≡ terminated
unfolding run_timer timer_step
second_start = refl

comes_through :
    IsJoined 0 0 (run_timer (stop ∷ (returns ∷ wakes_up ∷ []) ++ joins ∷ []) (looping calling))
unfolding begin
comes_through = run_timer-stop (looping calling) (returns ∷ wakes_up ∷ []) refl tt tt

pending_wins :
    GoesOn (run_timer (stop ∷ restart ∷ returns ∷ times_out ∷ joins ∷ []) (looping calling))
    × GoesOn (run_timer (restart ∷ stop ∷ returns ∷ times_out ∷ joins ∷ []) (looping calling))
unfolding begin
pending_wins =
    run_timer-restart-stop (looping calling) add (returns ∷ times_out ∷ joins ∷ []) (inr refl) refl
      refl refl tt

stopped_too_early : GoesOn (run_timer (start false ∷ stop ∷ begins ∷ times_out ∷ joins ∷ []) idle)
stopped_too_early = run_timer-start-stop idle add (times_out ∷ joins ∷ []) refl refl tt

timer_taken_for :
    Implements
      (start_timer none client 5)
      (run_timer (start false ∷ begins ∷ []) (set_callback add 5 idle))
    × Implements (stop_timer true none client) (run_timer (stop ∷ [] ++ joins ∷ []) idle)
unfolding begin new_client
timer_taken_for =
    start_timer-stop_timer-Implements client 5 idle add [] refl refl tt (λ d. absurd (d refl))

abbrev pinging : TimerThread (NmqttClient × Wire)
pinging = record {
  place = Place.not_joinable;
  single = false;
  callback = none;
  user_data = 0;
  timer = begin;
  net = (client, []);
}

pinged_twice :
    (u : TimerThread (NmqttClient × Wire)) × (and_then
        (run_timer (start false ∷ begins ∷ []) (set_callback (ping send_all x86 junk) 0 pinging))
        (pass_intervals send_all x86 junk 4)
      ≡ alive u)
    × (u.place ≡ waiting)
    × (u.timer.calls ≡ pinging.timer.calls + 2)
    × (u.net.0 ≡ record client { restarts = client.restarts + 2 })
    × (u.net.1 ≡ pinged send_all x86 junk 4096 2 [])
unfolding find
pinged_twice = pass_intervals-pinged send_all x86 junk 2 0 4096 pinging refl refl (λ m. refl)

rounds_as_steps :
    (u : TimerThread ℕ) × (run_timer
        (events_of (Action.times_out ∷ Action.restart ∷ Action.wakes_up ∷ []))
        (looping waiting)
      ≡ alive u)
    × (u.timer ≡ acts false begin (Action.times_out ∷ Action.restart ∷ Action.wakes_up ∷ []))
unfolding begin
rounds_as_steps =
    run_timer-acts (looping waiting) add (Action.times_out ∷ Action.restart ∷ Action.wakes_up ∷ [])
      refl refl refl
