-- ===== src/Tests/Streams.antt =====
-- Instances of the theorems on whole sessions, and on the calls of the table of connections.
use nymph_mqtt.Common.{
  ℕ, min, ◌≡◌, refl, ap, ◌∙◌, sym, false, List, [], ◌∷◌, ◌++◌, length-take, none, some, arith, inl,
}
use nymph_mqtt.ByteBauble.Write.{encode_length}
use nymph_mqtt.Message.{NmqttMessage, mqtt_pingreq, message_of_type}
use nymph_mqtt.Message.Exec.{ok}
use nymph_mqtt.Message.Packet.{big16, packet}
use nymph_mqtt.Message.Parse.{parse_message}
use nymph_mqtt.Message.RoundTrip.Bare.{received_bare, parse_message-serialize_bare}
use nymph_mqtt.Message.Serialize.{serialize}
use nymph_mqtt.Message.Serialize.Short.{serialize_bare}
use nymph_mqtt.Server.{Handler, NmqttServerRequest, returned, server_init, process}
use nymph_mqtt.ServerConnections.{
  NmqttClientSocket, NmqttClientConnections, no_connections, merged, add_socket, get_socket,
  set_core_parameters,
}
use nymph_mqtt.ServerConnections.Validity.{IsValid, no_connections-IsValid}
use nymph_mqtt.ServerConnections.Refinement
use nymph_mqtt.ServerConnections.Refinement.{Operation, add, remove, set_core, Replays, run-Replays}
use nymph_mqtt.Client.{new_client, connect_message}
use nymph_mqtt.Session.{NmqttSession, listening, left, threw, round, run}
use nymph_mqtt.Session.Stream.{
  Parses, nothing, parsed, requests_of, InPairs, IsBuffer, run-bytes_of,
}
use nymph_mqtt.Session.Throws.{run-publish_overrun}
use nymph_mqtt.Session.Answers.{process-connect_message}
use nymph_mqtt.Tests.Objects.{junk, x86, receiver, ping}
use nymph_mqtt.Tests.Sessions.{Wire, by_twos, blank, server, send_all}
use nymph_mqtt.Tests.Clients.{client}

pub by_twos_pairs : InPairs by_twos
by_twos_pairs s two = omega (arith, length-take (min 2 2) s)

abbrev pub nines : List ℕ
nines = 9 ∷ 9 ∷ 9 ∷ 9 ∷ 9 ∷ []

pub nines-IsBuffer : IsBuffer nines
nines-IsBuffer = record {
  x0 = 9;
  x1 = 9;
  x2 = 9;
  x3 = 9;
  x4 = 9;
  same = refl;
  byte_2 = omega arith;
  byte_3 = omega arith;
  byte_4 = omega arith;
}

bare_ping : (serialize x86 ping).0 ≡ 0xC0 ∷ 0 ∷ []
unfolding message_of_type
bare_ping = serialize_bare x86 ping mqtt_pingreq refl tt refl

ping_read : parse_message x86 receiver (packet 0xC0 []) ≡ ok (received_bare receiver mqtt_pingreq)
unfolding message_of_type encode_length
ping_read =
    ap (parse_message x86 receiver) (sym bare_ping)
    ∙ parse_message-serialize_bare x86 x86 receiver ping mqtt_pingreq refl tt refl

abbrev two_pings : List (ℕ × List ℕ)
two_pings = (0xC0, []) ∷ (0xC0, []) ∷ []

abbrev pinged : NmqttMessage
pinged = received_bare receiver mqtt_pingreq

two_pings_parse : Parses x86 receiver two_pings (pinged ∷ pinged ∷ [])
two_pings_parse =
    parsed 0xC0 [] pinged ((0xC0, []) ∷ []) (pinged ∷ []) (omega arith) (inl ping_read)
      (parsed 0xC0 [] pinged [] [] (omega arith) (inl ping_read) nothing)

two_pings_requested :
    (u : NmqttSession (List ℕ)) × (run by_twos x86 junk 3 server
        (record blank { socket = 4096 })
        (0xC0 ∷ 0 ∷ 0xC0 ∷ 0 ∷ [])
        nines
      ≡ left u)
    × (u.requests
        ≡ requests_of (add_socket server (record blank { socket = 4096 })).1 (pinged ∷ pinged ∷ []))
    × IsValid u.connections
    × ((j : ℕ) → get_socket u.connections j ≡ get_socket server j)
unfolding no_connections encode_length
two_pings_requested =
    run-bytes_of by_twos x86 junk two_pings (pinged ∷ pinged ∷ []) 3 server
      (record blank { socket = 4096 }) (0xC0 ∷ 0 ∷ 0xC0 ∷ 0 ∷ []) nines two_pings_parse
      (omega arith) refl by_twos_pairs refl nines-IsBuffer (no_connections-IsValid blank)
      (omega arith)

-- Two clients, the first of which leaves, and a third one.
abbrev calls : List (Operation Handler)
calls =
    add (record blank { socket = 1 })
    ∷ add (record blank { socket = 2 })
    ∷ remove 0
    ∷ set_core (record blank { will_flag = false })
    ∷ add (record blank { socket = 3 })
    ∷ []

calls_replayed :
    let (s, handles) = Refinement.run calls (no_connections blank) in
    IsValid s × Replays calls handles blank (λ j. none) (get_socket s)
calls_replayed = run-Replays blank calls (omega arith)

abbrev pub there : NmqttClientSocket Handler
there = record blank { socket = 4096 }

abbrev stream : List ℕ
stream = (serialize x86 (connect_message x86 junk client)).0 ++ (0xC0 ∷ 0 ∷ [])

connected_and_answered :
    let table : NmqttClientConnections Handler = (add_socket (server_init server blank) there).0 in
    let handle : ℕ = (add_socket (server_init server blank) there).1 in
    let t : NmqttSession (List ℕ) = record {
      connections = table;
      socket = stream;
      header_buff = nines;
      requests = [];
    } in
    (u : NmqttSession (List ℕ)) × (req : NmqttServerRequest) × (round by_twos x86 junk handle t
      ≡ listening u)
    × (u.requests ≡ req ∷ [])
    × ((net : Wire)
        → process send_all x86 junk req u.connections net
          ≡ returned ((4096, 0x20 ∷ 0x02 ∷ 0x00 ∷ 0x00 ∷ []) ∷ net))
    × (u.socket ≡ 0xC0 ∷ 0 ∷ [])
unfolding add_socket no_connections server_init set_core_parameters new_client
connected_and_answered =
    process-connect_message by_twos send_all x86 x86 junk junk client (0xC0 ∷ 0 ∷ []) server blank
      there stream nines [] refl refl refl refl (omega arith) (no_connections-IsValid blank)
      (omega arith) by_twos_pairs nines-IsBuffer refl

abbrev overrun : List ℕ
overrun = packet 0x30 (big16 500 ++ (b'a' ∷ b'b' ∷ [])) ++ []

left_in_table :
    (u : NmqttSession (List ℕ)) × (run by_twos x86 junk 3 server there overrun nines ≡ threw u)
    × (u.requests ≡ [])
    × (get_socket u.connections (add_socket server there).1 ≡ some (merged server there))
left_in_table =
    run-publish_overrun by_twos x86 junk 2 500 (b'a' ∷ b'b' ∷ []) [] server there overrun nines refl
      (omega arith) (omega arith) (omega arith) by_twos_pairs refl nines-IsBuffer
      (no_connections-IsValid blank)
