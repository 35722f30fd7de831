-- ===== src/Tests/KeepAlives.antt =====
-- An instance of the theorem on the messages that keep a connection alive.
use nymph_mqtt.Common.{
  ℕ, ◌+◌, ◌≡◌, ◌==◌, refl, true, List, [], ◌∷◌, ◌++◌, length, none, some, if◌then◌else◌, arith,
}
use nymph_mqtt.Common.Map.{find}
use nymph_mqtt.Server.{Handler, Sent, sent, returned, NmqttServerRequest, server_init, process}
use nymph_mqtt.ServerConnections.{
  NmqttClientSocket, no_connections, add_socket, set_core_parameters,
}
use nymph_mqtt.ServerConnections.Validity.{no_connections-IsValid}
use nymph_mqtt.Session
use nymph_mqtt.Session.{NmqttSession, round}
use nymph_mqtt.Client.{client_pingreq_handler}
use nymph_mqtt.Listener
use nymph_mqtt.Listener.{NymphSocket, Request, process_request, NmqttClientListener, listener_round}
use nymph_mqtt.KeepAlive.{Duplex, client_pingreq_handler-process_request}
use nymph_mqtt.Tests.Objects.{junk, x86}
use nymph_mqtt.Tests.Sessions.{by_twos, blank, server}
use nymph_mqtt.Tests.Streams.{by_twos_pairs, nines, nines-IsBuffer}
use nymph_mqtt.Tests.Clients.{client}

-- What is under way to the server and to the client.
abbrev Cable : Type 0
Cable = List ℕ × List ℕ

abbrev plug : ℕ → List ℕ → Cable → Sent × Cable
plug socket bytes (up, down) =
    (sent (length bytes), if socket == 4096 then (up ++ bytes, down) else (up, down ++ bytes))

abbrev far_end : NmqttClientSocket Handler
far_end = record blank { socket = 8192 }

cable : Duplex by_twos plug 4096 8192
cable = record {
  to_server = λ c. c.0;
  to_client = λ c. c.1;
  all_taken = λ b c. refl;
  arrives = λ b c. refl;
  apart = λ b c. refl;
  returns = λ b c. refl;
}

-- `pingrespHandler` is noted.
abbrev note_pong : ℕ → Cable → Cable
note_pong handle (up, down) = (up, down ++ (handle ∷ []))

abbrev entry : NymphSocket Cable
entry = record {
  handler = none;
  connack_handler = none;
  pingresp_handler = some note_pong;
  handle = 0;
  socket = 4096;
  semaphore = 12288;
}

ping_and_pong :
    let r = client_pingreq_handler plug x86 junk client 0 ([], []) in
    (r.value ≡ true)
    × (r.client ≡ record client { restarts = client.restarts + 1 })
    × (u : NmqttSession (List ℕ)) × (req : NmqttServerRequest) × (round by_twos x86 junk
          (add_socket (server_init server blank) far_end).1
          (record {
            connections = (add_socket (server_init server blank) far_end).0;
            socket = r.net.0;
            header_buff = nines;
            requests = [];
          })
        ≡ Session.listening u)
    × (u.requests ≡ req ∷ [])
    × (net : Cable) × (process plug x86 junk req u.connections r.net ≡ returned net)
    × (v : NmqttClientListener (List ℕ)) × (pong : Request) × (listener_round by_twos x86 junk 0
          (record { socket = net.1; header_buff = nines; requests = [] })
        ≡ Listener.listening v)
    × (v.requests ≡ pong ∷ [])
    × (process_request ((0, entry) ∷ []) pong net ≡ returned (note_pong 0 net))
unfolding find add_socket no_connections server_init set_core_parameters cable
ping_and_pong =
    client_pingreq_handler-process_request by_twos plug x86 x86 junk junk client 0 4096 ([], [])
      server blank far_end nines nines ((0, entry) ∷ []) entry note_pong cable refl refl refl
      (no_connections-IsValid blank) (omega arith) by_twos_pairs nines-IsBuffer nines-IsBuffer refl
      refl refl refl
