-- ===== src/Tests/Connections.antt =====
-- Instances of the theorems on the table of client connections.
use nymph_mqtt.Common.{ℕ, ◌≡◌, ◌≢◌, true, false, some, none, arith}
use nymph_mqtt.ServerConnections.{
  NmqttClientSocket, NmqttClientConnections, no_connections, merged, add_socket, get_socket,
  remove_socket,
}
use nymph_mqtt.ServerConnections.Validity.{
  IsValid, no_connections-IsValid, add_socket-IsValid, remove_socket-IsValid,
}
use nymph_mqtt.ServerConnections.Lookup.{get_socket-add_socket, get_socket-remove_socket}

abbrev plain : NmqttClientSocket ℕ
plain = record {
  socket = 0;
  connect_handler = some 1;
  pingreq_handler = none;
  username = false;
  password = false;
  will_retain = false;
  qos = 0;
  will_flag = false;
  clean_session = true;
}

abbrev core : NmqttClientConnections ℕ
core = no_connections plain

abbrev connected : NmqttClientConnections ℕ
connected = (add_socket core (record plain { socket = 4096 })).0

core-IsValid : IsValid core
core-IsValid = no_connections-IsValid plain

connected-IsValid : IsValid connected
unfolding no_connections
connected-IsValid =
    add_socket-IsValid core (record plain { socket = 4096 }) (omega arith) core-IsValid

disconnected-IsValid : IsValid (remove_socket connected 0)
disconnected-IsValid = remove_socket-IsValid connected 0 connected-IsValid

first_client :
    let added = add_socket core (record plain { socket = 4096 }) in
    (get_socket core added.1 ≡ none)
    × (get_socket added.0 added.1 ≡ some (merged core (record plain { socket = 4096 })))
    × ((j : ℕ) → added.1 ≢ j → get_socket added.0 j ≡ get_socket core j)
first_client = get_socket-add_socket core (record plain { socket = 4096 }) core-IsValid

first_client_gone :
    (get_socket (remove_socket connected 0) 0 ≡ none)
    × ((j : ℕ) → 0 ≢ j → get_socket (remove_socket connected 0) j ≡ get_socket connected j)
first_client_gone = get_socket-remove_socket connected 0 connected-IsValid
