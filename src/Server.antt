-- ===== src/Server.antt =====
-- src/cpp/server.cpp and server.h, and src/cpp/server_request.h and server_request.cpp: what the server does
-- with the requests of its clients.
pub mod Replies
pub mod Running
use nymph_mqtt.Common.{
  ℕ, ◌+◌, ◌-◌, ◌%◌, ◌^◌, Bool, true, false, List, length, Option, none, some, if◌then◌else◌, ◌==◌,
  ltb,
}
use nymph_mqtt.ByteBauble.Endian.{BbEndianness}
use nymph_mqtt.Message.{
  NmqttMessage, MqttPacketType, mqtt_connect, mqtt_connack, mqtt_pingreq, mqtt_pingresp,
  message_of_type, same_type,
}
use nymph_mqtt.Message.Exec.{Platform}
use nymph_mqtt.Message.Serialize.{serialize}
use nymph_mqtt.ServerConnections.{
  NmqttClientSocket, NmqttClientConnections, get_socket, set_core_parameters,
}

-- The functions that the server installs.
pub data Handler : Type 0 where
  connect_handler pingreq_handler : Handler

-- What `sendBytes` of a socket does: it returns a number of bytes, or throws an exception of Poco.
pub data Sent : Type 0 where
  sent : ℕ → Sent
  thrown : Sent

-- A call returns, uses a null pointer, or calls an empty `std::function`.
pub data Call {ℓ} (A : Type ℓ) : Type ℓ where
  returned : A → Call A
  null_pointer bad_function_call : Call A

-- The part of `NmqttServer::init` that sets the core parameters; `ns` is not initialised.
unfoldable pub server_init :
    NmqttClientConnections Handler → NmqttClientSocket Handler → NmqttClientConnections Handler
server_init s ns =
    set_core_parameters s
      (record ns { connect_handler = some connect_handler; pingreq_handler = some pingreq_handler })

-- `int handle` from a `uint64_t`, and back where it is used.
abbrev pub int_handle : ℕ → ℕ
int_handle handle =
    let low = handle % 2 ^ 32 in if ltb low (2 ^ 31) then low else 2 ^ 64 - 2 ^ 32 + low

pub record NmqttServerRequest : Type 0 where
  pub handle : ℕ
  pub msg : NmqttMessage

unfoldable pub set_message : ℕ → NmqttMessage → NmqttServerRequest
set_message handle msg = record { handle = int_handle handle; msg = msg }

abbrev pub all_sent : {N : Type 0} → List ℕ → Sent × N → Bool × N
all_sent bin_msg (sent ret, net) = (ret == length bin_msg, net)
all_sent bin_msg (thrown, net) = (false, net)

abbrev pub forget : {N : Type 0} → Call (Bool × N) → Call N
forget (returned (good, net)) = returned net
forget null_pointer = null_pointer
forget bad_function_call = bad_function_call

-- The message that `connectHandler` and `pingreqHandler` make.
abbrev pub reply : Handler → MqttPacketType
reply connect_handler = mqtt_connack
reply pingreq_handler = mqtt_pingresp

-- `N` is the state of the network, and `send_bytes` sends bytes through a socket, by its address.
module _ {N : Type 0} (send_bytes : ℕ → List ℕ → N → Sent × N) where
  abbrev pub send_to : Option (NmqttClientSocket Handler) → List ℕ → N → Call (Bool × N)
  send_to none bin_msg net = null_pointer
  send_to (some client) bin_msg net =
      returned (all_sent bin_msg (send_bytes client.socket bin_msg net))

  unfoldable pub send_message : NmqttClientConnections Handler → ℕ → List ℕ → N → Call (Bool × N)
  send_message s handle bin_msg net = send_to (get_socket s handle) bin_msg net

  -- `connectHandler` and `pingreqHandler`; `junk` is the memory of the message.
  unfoldable pub handle_with :
      Platform → NmqttMessage → Handler → NmqttClientConnections Handler → ℕ → N → Call N
  handle_with p junk h s handle net =
      forget (send_message s handle (serialize p (message_of_type p.host junk (reply h))).0 net)

  abbrev pub call_handler :
      Platform → NmqttMessage → Option Handler → NmqttClientConnections Handler → ℕ → N → Call N
  call_handler p junk none s handle net = bad_function_call
  call_handler p junk (some h) s handle net = handle_with p junk h s handle net

  abbrev pub handler_of :
      (NmqttClientSocket Handler → Option Handler)
      → Platform
      → NmqttMessage
      → Option (NmqttClientSocket Handler)
      → NmqttClientConnections Handler
      → ℕ
      → N
      → Call N
  handler_of pick p junk none s handle net = null_pointer
  handler_of pick p junk (some client) s handle net = call_handler p junk (pick client) s handle net

  unfoldable pub process :
      Platform → NmqttMessage → NmqttServerRequest → NmqttClientConnections Handler → N → Call N
  process p junk req s net =
      let client_socket = get_socket s req.handle in
      if same_type req.msg.command mqtt_connect
      then handler_of (λ c. c.connect_handler) p junk client_socket s req.handle net
      else if same_type req.msg.command mqtt_pingreq
      then handler_of (λ c. c.pingreq_handler) p junk client_socket s req.handle net
      else returned net
