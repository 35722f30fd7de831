-- ===== src/Tests/Clients.antt =====
-- Instances of the theorems on clients.
use nymph_mqtt.Common.{
  ℕ, ◌≡◌, refl, ap, true, false, List, [], ◌∷◌, ◌++◌, length, take, none, some, arith,
}
use nymph_mqtt.Common.Map.{find}
use nymph_mqtt.ByteBauble.Endian.{byte_bauble}
use nymph_mqtt.Message.{mqtt_qos_at_least_once, message_of_type}
use nymph_mqtt.Message.Serialize.{serialize}
use nymph_mqtt.Message.Packet.{packet, publish_byte, publish_body}
use nymph_mqtt.Message.{mqtt_protocol_version_4}
use nymph_mqtt.Server.{sent, returned}
use nymph_mqtt.Client.{NmqttClient, new_client, lock, after_send, client_send_message, publish}
use nymph_mqtt.Client.Sending.{publish-packet}
use nymph_mqtt.Listener.{
  NymphSocket, Request, process_request, NmqttClientListener, listening, listener_round,
}
use nymph_mqtt.Listener.Delivery.{process_request-listener_round}
use nymph_mqtt.Tests.Objects.{junk, x86, publisher}
use nymph_mqtt.Tests.Sessions.{by_twos, Wire, send_all, publish_bytes}

abbrev pub client : NmqttClient
client = record new_client { sockets = (0, 4096) ∷ []; client_id = b'm' ∷ b'e' ∷ [] }

publish_sent :
    let bytes = packet (publish_byte false mqtt_qos_at_least_once true) (
      publish_body mqtt_protocol_version_4 mqtt_qos_at_least_once
        (b't' ∷ [])
        7
        (b'h' ∷ b'i' ∷ [])) in
    publish send_all x86 junk client 0 (b't' ∷ []) (b'h' ∷ b'i' ∷ []) mqtt_qos_at_least_once true []
    ≡ after_send (lock client) bytes (send_all 4096 bytes [])
unfolding find
publish_sent =
    publish-packet send_all x86 junk client 0 4096 (b't' ∷ []) (b'h' ∷ b'i' ∷ [])
      mqtt_qos_at_least_once true [] refl refl (omega arith) (omega arith)
      (record {
        fits = omega arith;
        not_1 = λ e. omega arith;
        not_2 = λ e. omega arith;
        not_3 = λ e. omega arith;
      })

-- The first three of four bytes are sent: the lock is kept.
lock_kept :
    (client_send_message {N = Wire}
      (λ socket bytes wire. (sent 3, wire))
      client
      0
      (1 ∷ 2 ∷ 3 ∷ 4 ∷ [])
      []).client
    ≡ lock client
unfolding client_send_message find
lock_kept = refl

-- A handler that notes the topic and the payload.
abbrev pub note : ℕ → List ℕ → List ℕ → Wire → Wire
note handle topic payload wire = (handle, topic ++ payload) ∷ wire

abbrev pub broker : NymphSocket Wire
broker = record {
  handler = some note;
  connack_handler = none;
  pingresp_handler = none;
  handle = 0;
  socket = 4096;
  semaphore = 8192;
}

abbrev listener : NmqttClientListener (List ℕ)
listener = record {
  socket = (serialize x86 publisher).0 ++ (0xD0 ∷ 0 ∷ []);
  header_buff = 1 ∷ 2 ∷ 3 ∷ 4 ∷ 5 ∷ [];
  requests = [];
}

publish_delivered :
    (u : NmqttClientListener (List ℕ)) × (req : Request) × (listener_round by_twos x86 junk 0
        listener
      ≡ listening u)
    × (u.requests ≡ req ∷ [])
    × ((net : Wire)
        → process_request ((0, broker) ∷ []) req net
          ≡ returned ((0, b'a' ∷ b'h' ∷ b'i' ∷ []) ∷ net))
    × (u.socket ≡ 0xD0 ∷ 0 ∷ [])
unfolding message_of_type byte_bauble find
publish_delivered =
    process_request-listener_round by_twos x86 junk x86 publisher 0 1 2 3 4 5 (0xD0 ∷ 0 ∷ [])
      listener ((0, broker) ∷ []) broker note refl refl
      (record { command = refl; host = refl; topic_fits = omega arith; id_fits = omega arith }) refl
      (omega arith) refl (ap (λ xs. length (take 2 (xs ++ (0xD0 ∷ 0 ∷ [])))) publish_bytes) refl
      (omega arith) (omega arith) (omega arith) refl refl
