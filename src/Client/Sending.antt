-- ===== src/Client/Sending.antt =====
-- What the methods of a client send.
use nymph_mqtt.Common.{
  ℕ, ◌+◌, ◌<◌, ◌^◌, ◌≡◌, refl, ap, ◌∙◌, arith, Bool, true, false, List, length, some, eq→==,
}
use nymph_mqtt.Common.Map.{find}
use nymph_mqtt.ByteBauble.Endian.{bb_le}
use nymph_mqtt.ByteBauble.Endian.Layout.{byte_bauble_detects}
use nymph_mqtt.ByteBauble.Write.{IsEncodable}
use nymph_mqtt.Message.{NmqttMessage, MqttQos, mqtt_protocol_version_4, message_of_type}
use nymph_mqtt.Message.Exec.{Platform}
use nymph_mqtt.Message.Packet.{packet, publish_byte, publish_body}
use nymph_mqtt.Message.Serialize.{serialize}
use nymph_mqtt.Message.Serialize.Publish.{serialize-publish}
use nymph_mqtt.Server.{Sent, sent}
use nymph_mqtt.Client.{
  NmqttClient, lock, unlock, restart_timer, after_send, send_through, client_send_message,
  publish_message, publish,
}

publish_message_bytes :
    (p : Platform) (junk : NmqttMessage) (topic payload : List ℕ) (qos : MqttQos) (retain : Bool)
    → p.host ≡ bb_le
    → length topic < 2 ^ 16
    → junk.packet_id < 2 ^ 16
    → IsEncodable (length (publish_body mqtt_protocol_version_4 qos topic junk.packet_id payload))
    → (serialize p (publish_message p junk topic payload qos retain)).0
      ≡ packet
          (publish_byte false qos retain)
          (publish_body mqtt_protocol_version_4 qos topic junk.packet_id payload)
unfolding publish_message message_of_type
publish_message_bytes p junk topic payload qos retain le t i fits =
    serialize-publish p (publish_message p junk topic payload qos retain) le
      (record { command = refl; host = byte_bauble_detects p.host; topic_fits = t; id_fits = i })
      fits

unlock-lock : (c : NmqttClient) → unlock (lock c) ≡ c
unlock-lock c = ap (λ (n : ℕ). record c { locked = n }) (omega arith)

-- All bytes are sent: the lock is given back and the timer restarted.
pub after_send_all :
    {N : Type 0} (c : NmqttClient) (bytes : List ℕ) (r : Sent × N)
    → r.0 ≡ sent (length bytes)
    → after_send (lock c) bytes r
      ≡ record { value = true; client = record c { restarts = c.restarts + 1 }; net = r.1 }
after_send_all c bytes (s, net) e =
    ap (λ x. after_send (lock c) bytes (x, net)) e
    ∙ rw (eq→== (length bytes) (length bytes) refl)
        (ap (λ d. record { value = true; client = restart_timer d; net = net }) (unlock-lock c))

module _ {N : Type 0} (send_bytes : ℕ → List ℕ → N → Sent × N) where
  -- On a little-endian host `publish`, under a handle that has a socket, with a topic of less than 2^16
  -- bytes and a length that `writePackedInt` encodes as the standard says (not 128, 16384 or 2097152, and below 2^28),
  -- sends the packet of the standard, version 4, with its topic, payload, level and retain flag, once to
  -- that socket; at the levels 1 and 2 the packet identifier is what the memory of the message held.
  pub publish-packet :
      (p : Platform) (junk : NmqttMessage) (c : NmqttClient) (handle socket : ℕ)
      (topic payload : List ℕ) (qos : MqttQos) (retain : Bool) (net : N)
      → p.host ≡ bb_le
      → find handle c.sockets ≡ some socket
      → length topic < 2 ^ 16
      → junk.packet_id < 2 ^ 16
      → IsEncodable (length (publish_body mqtt_protocol_version_4 qos topic junk.packet_id payload))
      → let bytes =
          packet
            (publish_byte false qos retain)
            (publish_body mqtt_protocol_version_4 qos topic junk.packet_id payload) in
        publish send_bytes p junk c handle topic payload qos retain net
        ≡ after_send (lock c) bytes (send_bytes socket bytes net)
  unfolding publish client_send_message
  publish-packet p junk c handle socket topic payload qos retain net le known t i fits =
      ap (λ b. send_through send_bytes (find handle c.sockets) (lock c) b net)
        (publish_message_bytes p junk topic payload qos retain le t i fits)
      ∙ ap
          (λ o.
            send_through send_bytes o (lock c)
              (packet (publish_byte false qos retain)
                (publish_body mqtt_protocol_version_4 qos topic junk.packet_id payload))
              net)
          known
