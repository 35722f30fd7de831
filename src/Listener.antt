-- ===== src/Listener.antt =====
-- src/cpp/client_listener.cpp, connections.h, connections.cpp, request.h and request.cpp: what a client
-- does with the bytes of its broker.
pub mod Delivery
pub mod Acknowledged
pub mod Thread
pub mod Rounds
pub mod Deliveries
use nymph_mqtt.Common.{
  ℕ, zero, suc, Bool, true, false, List, [], ◌∷◌, ◌++◌, Option, none, some, if◌then◌else◌,
}
use nymph_mqtt.Common.Map.{find, insert}
use nymph_mqtt.Message.{
  NmqttMessage, mqtt_publish, mqtt_connack, mqtt_pingresp, new_message, same_type,
}
use nymph_mqtt.Message.Exec.{Platform, Exec, ok, failed, out_of_range, undefined}
use nymph_mqtt.Message.Parse.{parse_message}
use nymph_mqtt.Framing.{
  Source, Round, closed, passed_over, endless, whole, overwrite, receive_message,
}
use nymph_mqtt.Server.{Call, returned, null_pointer, bad_function_call}

-- The members that the code uses; the handlers act on a state `N`, and `socket` and `semaphore` are
-- addresses.
pub record NymphSocket (N : Type 0) : Type 0 where
  pub handler : Option (ℕ → List ℕ → List ℕ → N → N)
  pub connack_handler : Option (ℕ → Bool → ℕ → N → N)
  pub pingresp_handler : Option (ℕ → N → N)
  pub handle : ℕ
  pub socket : ℕ
  pub semaphore : ℕ

-- `NmqttConnections`: the static map.
unfoldable pub connections_add_socket :
    {N : Type 0} → List (ℕ × NymphSocket N) → NymphSocket N → List (ℕ × NymphSocket N)
connections_add_socket sockets ns = insert ns.handle ns sockets

unfoldable pub connections_get_socket :
    {N : Type 0} → List (ℕ × NymphSocket N) → ℕ → Option (NymphSocket N)
connections_get_socket sockets handle = find handle sockets

pub record Request : Type 0 where
  pub handle : ℕ
  pub msg : NmqttMessage

-- A call of a `std::function`.
abbrev pub call : {F N : Type 0} → Option F → (F → N → N) → N → Call N
call none apply net = bad_function_call
call (some f) apply net = returned (apply f net)

abbrev pub with_socket : {N : Type 0} → Option (NymphSocket N) → (NymphSocket N → Call N) → Call N
with_socket none then_ = null_pointer
with_socket (some socket) then_ = then_ socket

unfoldable pub process_request : {N : Type 0} → List (ℕ × NymphSocket N) → Request → N → Call N
process_request sockets req net =
    let nymph_socket = connections_get_socket sockets req.handle in
    let msg = req.msg in
    if same_type msg.command mqtt_publish
    then with_socket nymph_socket
        (λ s. call s.handler (λ f. f req.handle msg.topic msg.payload) net)
    else if same_type msg.command mqtt_connack
    then with_socket nymph_socket
        (λ s. call s.connack_handler (λ f. f req.handle msg.session_present msg.reason_code) net)
    else if same_type msg.command mqtt_pingresp
    then with_socket nymph_socket (λ s. call s.pingresp_handler (λ f. f req.handle) net)
    else returned net

-- The listener of one connection: its socket, `headerBuff`, and the requests that were given to the
-- dispatcher.
pub record NmqttClientListener (S : Type 0) : Type 0 where
  pub socket : S
  pub header_buff : List ℕ
  pub requests : List Request

-- What comes behind a round, as in a session of the server.
pub data Outcome (S : Type 0) : Type 0 where
  listening : NmqttClientListener S → Outcome S
  left : NmqttClientListener S → Outcome S
  threw : NmqttClientListener S → Outcome S
  undefined_read stuck : Outcome S

module _ {S : Type 0} where
  abbrev pub hand_over : ℕ → NmqttClientListener S → Exec NmqttMessage → Outcome S
  hand_over handle t (ok msg) =
      listening (record t { requests = t.requests ++ (record { handle = handle; msg = msg } ∷ []) })
  hand_over handle t (failed msg) =
      listening (record t { requests = t.requests ++ (record { handle = handle; msg = msg } ∷ []) })
  hand_over handle t out_of_range = threw t
  hand_over handle t undefined = undefined_read

  abbrev pub use_round : Platform → NmqttMessage → ℕ → NmqttClientListener S → Round S → Outcome S
  use_round p junk handle t (closed s) = left (record t { socket = s })
  use_round p junk handle t (passed_over s) = listening (record t { socket = s })
  use_round p junk handle t endless = stuck
  use_round p junk handle t (whole bin_msg s) =
      hand_over handle (record t { socket = s }) (parse_message p (new_message p.host junk) bin_msg)

-- One round of `while (listen)`, when the socket has something to read.
unfoldable pub listener_round :
    {S : Type 0} → Source S → Platform → NmqttMessage → ℕ → NmqttClientListener S → Outcome S
listener_round src p junk handle t =
    use_round p junk handle
      (record t { header_buff = overwrite (src.receive t.socket 2).0 t.header_buff })
      (receive_message src p.host t.header_buff t.socket)
