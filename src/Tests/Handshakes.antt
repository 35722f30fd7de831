-- ===== src/Tests/Handshakes.antt =====
-- Instances of the theorems on the answer to CONNECT and on the threads of listeners.
use nymph_mqtt.Common.{ℕ, ◌≡◌, ◌<◌, refl, arith, true, false, [], ◌∷◌, Option, none, some, List}
use nymph_mqtt.Common.Map.{find}
use nymph_mqtt.Server.{returned}
use nymph_mqtt.Client.Handshake
use nymph_mqtt.Client.Handshake.{
  Handshake, Place, waiting, woken, timed_out, NmqttBrokerConnection, Action, sets_broker_conn,
  begins_wait, time_over, clears_broker_conn, calls_handler, moves, State, alive, null_pointer_used,
}
use nymph_mqtt.Client.Handshake.Answers.{IsAnswer, run-IsAnswer}
use nymph_mqtt.Listener.{
  NymphSocket, Request, process_request, NmqttClientListener, listening, listener_round,
}
use nymph_mqtt.Listener.Thread.{
  readable, quiet, stop, in_loop, new_thread, run_thread, OneSignal, run_thread-OneSignal,
}
use nymph_mqtt.Listener.Acknowledged.{wake, process_request-connack}
use nymph_mqtt.Tests.Objects.{junk, x86}
use nymph_mqtt.Tests.Sessions.{by_twos}
use nymph_mqtt.Tests.Streams.{nines, nines-IsBuffer}

abbrev nowhere : NmqttBrokerConnection
nowhere = record { handle = 9; session_present = false; response_code = 9 }

-- Two workers: the second one writes behind the signal of the first one.
abbrev two_answers : List Action
two_answers =
    begins_wait
    ∷ calls_handler 0 0 true 0
    ∷ moves 0
    ∷ moves 0
    ∷ moves 0
    ∷ moves 0
    ∷ moves 0
    ∷ calls_handler 1 0 true 5
    ∷ moves 1
    ∷ moves 1
    ∷ moves 1
    ∷ moves 1
    ∷ []

answers_found :
    IsAnswer
      (λ h. h ≡ 0)
      (λ p. p ≡ true)
      (λ c. c < 6)
      (record { handle = 0; session_present = true; response_code = 5 })
unfolding Handshake.run Handshake.step
answers_found =
    run-IsAnswer (λ h. h ≡ 0) (λ p. p ≡ true) (λ c. c < 6) two_answers nowhere _
      ((refl, refl, omega arith), ((refl, refl, omega arith), tt)) refl refl

-- What `connect` sees of a run: its place, and the object.
abbrev seen : State → Option (Place × NmqttBrokerConnection)
seen (alive t) = some (t.shared.place, t.shared.conn)
seen null_pointer_used = none

abbrev answer : NmqttBrokerConnection
answer = record { handle = 0; session_present = true; response_code = 0 }

-- The answer is written before the wait begins: its signal is lost, and the time runs out.
signal_lost :
    seen (
      Handshake.run (alive (Handshake.start nowhere)) (
        sets_broker_conn
        ∷ calls_handler 0 0 true 0
        ∷ moves 0
        ∷ moves 0
        ∷ moves 0
        ∷ moves 0
        ∷ moves 0
        ∷ begins_wait
        ∷ time_over
        ∷ clears_broker_conn
        ∷ []))
    ≡ some (timed_out, answer)
unfolding Handshake.run Handshake.step
signal_lost = refl

-- The handler finds a null pointer and signals when the wait has begun: `connect` is woken, and its object was
-- not written.
woken_by_nothing :
    seen (
      Handshake.run
        (alive (Handshake.start nowhere))
        (calls_handler 0 0 true 0 ∷ moves 0 ∷ sets_broker_conn ∷ begins_wait ∷ moves 0 ∷ []))
    ≡ some (woken, nowhere)
unfolding Handshake.run Handshake.step
woken_by_nothing = refl

-- `brokerConn` is cleared between the handler's test and its first write.
cleared_in_between :
    seen (
      Handshake.run (alive (Handshake.start nowhere)) (
        sets_broker_conn
        ∷ begins_wait
        ∷ calls_handler 0 0 true 0
        ∷ moves 0
        ∷ time_over
        ∷ clears_broker_conn
        ∷ moves 0
        ∷ []))
    ≡ none
unfolding Handshake.run Handshake.step
cleared_in_between = refl

abbrev in_handshake : NymphSocket Handshake
in_handshake = record {
  handler = none;
  connack_handler = some wake;
  pingresp_handler = none;
  handle = 0;
  socket = 4096;
  semaphore = 4097;
}

abbrev answered_listener : NmqttClientListener (List ℕ)
answered_listener = record {
  socket = 0x20 ∷ 0x02 ∷ 0x00 ∷ 0x00 ∷ 0xD0 ∷ 0x00 ∷ [];
  header_buff = nines;
  requests = [];
}

woken_by_answer :
    (u : NmqttClientListener (List ℕ)) × (req : Request) × (listener_round by_twos x86 junk 0
        answered_listener
      ≡ listening u)
    × (u.requests ≡ req ∷ [])
    × ((conn : NmqttBrokerConnection)
        → process_request
            ((0, in_handshake) ∷ [])
            req
            (record { place = waiting; broker_conn = true; conn = conn })
          ≡ returned (record {
            place = woken;
            broker_conn = true;
            conn = record { handle = 0; session_present = false; response_code = 0 };
          }))
    × (u.socket ≡ 0xD0 ∷ 0x00 ∷ [])
unfolding find
woken_by_answer =
    process_request-connack by_twos x86 junk 0 (0xD0 ∷ 0x00 ∷ []) answered_listener
      ((0, in_handshake) ∷ []) in_handshake refl refl refl nines-IsBuffer refl refl

signalled-OneSignal : OneSignal by_twos x86 junk 0 (
    run_thread by_twos x86 junk 0
      (quiet ∷ readable ∷ stop ∷ quiet ∷ [])
      (in_loop (new_thread answered_listener)))
signalled-OneSignal =
    run_thread-OneSignal by_twos x86 junk 0 (quiet ∷ readable ∷ stop ∷ quiet ∷ []) answered_listener
