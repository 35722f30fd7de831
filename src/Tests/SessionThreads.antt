-- ===== src/Tests/SessionThreads.antt =====
-- Instances of the theorems on the threads of sessions.
use nymph_mqtt.Common.{ℕ, ◌≡◌, true, List, [], ◌∷◌, arith}
use nymph_mqtt.ServerConnections.{no_connections, add_socket}
use nymph_mqtt.ServerConnections.Validity.{no_connections-IsValid}
use nymph_mqtt.Session.{NmqttSession, run_loop}
use nymph_mqtt.Session.Thread.{readable, quiet, throws, stop, in_loop, run_session, started}
use nymph_mqtt.Session.Thread.Table.{Entry, run_session-Entry}
use nymph_mqtt.Session.Thread.Loop.{loop_end, readable_rounds, run_session-run_loop}
use nymph_mqtt.Tests.Objects.{junk, x86}
use nymph_mqtt.Tests.Sessions.{by_twos, blank, server}
use nymph_mqtt.Tests.Streams.{there, nines}

left_by_throw : Entry server there (
    run_session by_twos x86 junk
      (add_socket server there).1
      (readable ∷ quiet ∷ throws ∷ stop ∷ [])
      (started server there (0xC0 ∷ 0 ∷ []) nines))
unfolding no_connections
left_by_throw =
    run_session-Entry by_twos x86 junk (readable ∷ quiet ∷ throws ∷ stop ∷ []) server there
      (0xC0 ∷ 0 ∷ []) nines (no_connections-IsValid blank) (omega arith)

abbrev session : NmqttSession (List ℕ)
session = record {
  connections = server;
  socket = 0xC0 ∷ 0 ∷ [];
  header_buff = nines;
  requests = [];
}

two_rounds :
    run_session by_twos x86 junk 0
      (readable_rounds 2)
      (in_loop (record { session = session; listen = true }))
    ≡ loop_end by_twos x86 junk 0 (run_loop by_twos x86 junk 2 0 session)
two_rounds = run_session-run_loop by_twos x86 junk 0 2 session
