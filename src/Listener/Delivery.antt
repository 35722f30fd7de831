-- ===== src/Listener/Delivery.antt =====
-- A PUBLISH message on its way from the socket to the message handler of the client.
use nymph_mqtt.Common.{ℕ, ◌<◌, ◌≡◌, refl, ap, ◌∙◌, sym, List, [], ◌∷◌, ◌++◌, length, some}
use nymph_mqtt.Common.Map.{find}
use nymph_mqtt.ByteBauble.Endian.{bb_le}
use nymph_mqtt.ByteBauble.Endian.Layout.{byte_bauble_detects}
use nymph_mqtt.ByteBauble.Read.{IsByte}
use nymph_mqtt.Message.{
  NmqttMessage, mqtt_protocol_version_4, new_message, same_type, packet_type_value,
}
use nymph_mqtt.Message.Exec.{Platform}
use nymph_mqtt.Message.Packet.{publish_byte, publish_body}
use nymph_mqtt.Message.Parse.Publish.{payload_after}
use nymph_mqtt.Message.Serialize.{serialize}
use nymph_mqtt.Message.Serialize.Publish.{IsPublish}
use nymph_mqtt.Message.RoundTrip.Publish.{received, serialize_then_parse}
use nymph_mqtt.Framing.{Source, overwrite}
use nymph_mqtt.Framing.Whole.{receive_message-packet}
use nymph_mqtt.Server.{returned}
use nymph_mqtt.Listener.{
  NymphSocket, connections_get_socket, Request, call, with_socket, process_request,
  NmqttClientListener, listening, hand_over, use_round, listener_round,
}

-- The request of a received PUBLISH message calls the message handler.
pub process_received :
    {N : Type 0} (sockets : List (ℕ × NymphSocket N)) (ns : NymphSocket N)
    (f : ℕ → List ℕ → List ℕ → N → N) (handle : ℕ) (m sent : NmqttMessage) (net : N)
    → find handle sockets ≡ some ns
    → ns.handler ≡ some f
    → process_request sockets (record { handle = handle; msg = received m sent }) net
      ≡ returned (f handle sent.topic (payload_after m.payload sent.payload) net)
unfolding process_request connections_get_socket same_type packet_type_value
process_received sockets ns f handle m sent net known has =
    let payload : List ℕ = payload_after m.payload sent.payload in
    ap (λ o. with_socket o (λ s. call s.handler (λ g. g handle sent.topic payload) net)) known
    ∙ ap (λ o. call o (λ g. g handle sent.topic payload) net) has

module _ {S N : Type 0} (src : Source S) (p : Platform) (junk : NmqttMessage) where
  -- When a PUBLISH message of version 4 that a little-endian broker serialized comes first in the
  -- stream, with less than 128 bytes behind its fixed header and its first two bytes together, a round
  -- of a listener on a little-endian host makes exactly one request, and when a worker processes it, the
  -- message handler of the connection is called once, with the handle, the topic and the payload that
  -- were sent (of a payload of one byte, nothing); the rest of the stream is left to the next round.
  pub process_request-listener_round :
      (q : Platform) (sent : NmqttMessage) (handle x0 x1 x2 x3 x4 : ℕ) (rest : List ℕ)
      (t : NmqttClientListener S) (sockets : List (ℕ × NymphSocket N)) (ns : NymphSocket N)
      (f : ℕ → List ℕ → List ℕ → N → N)
      → p.host ≡ bb_le
      → q.host ≡ bb_le
      → IsPublish q sent
      → sent.mqtt_version ≡ mqtt_protocol_version_4
      → length (publish_body sent.mqtt_version sent.qos sent.topic sent.packet_id sent.payload)
        < 128
      → src.stream t.socket ≡ (serialize q sent).0 ++ rest
      → length (src.receive t.socket 2).0 ≡ 2
      → t.header_buff ≡ x0 ∷ x1 ∷ x2 ∷ x3 ∷ x4 ∷ []
      → IsByte x2
      → IsByte x3
      → IsByte x4
      → find handle sockets ≡ some ns
      → ns.handler ≡ some f
      → (u : NmqttClientListener S) × (req : Request) × (listener_round src p junk handle t
          ≡ listening u)
        × (u.requests ≡ t.requests ++ (req ∷ []))
        × ((net : N)
            → process_request sockets req net
              ≡ returned (f handle sent.topic (payload_after [] sent.payload) net))
        × (src.stream u.socket ≡ rest)
  unfolding listener_round new_message
  process_request-listener_round q sent handle x0 x1 x2 x3 x4 rest t sockets ns f le le' is version
        short stream two buff h2 h3 h4 known has =
      let m : NmqttMessage = new_message p.host junk in
      let body : List ℕ =
        publish_body sent.mqtt_version sent.qos sent.topic sent.packet_id sent.payload in
      let b0 : ℕ = publish_byte sent.duplicate_message sent.qos sent.retain_message in
      let (bytes, parsed) =
        serialize_then_parse p q m sent le le' is (byte_bauble_detects p.host) (sym version)
          short in
      let (s', read, behind) =
        receive_message-packet src p.host b0 x0 x1 x2 x3 x4 body rest t.header_buff t.socket le
          (stream ∙ ap (λ xs. xs ++ rest) bytes) two short buff h2 h3 h4 in
      let t1 : NmqttClientListener S = record t {
        header_buff = overwrite (src.receive t.socket 2).0 t.header_buff;
      } in
      let t2 : NmqttClientListener S = record t1 { socket = s' } in
      let req : Request = record { handle = handle; msg = received m sent } in
      (
        record t2 { requests = t.requests ++ (req ∷ []) },
        req,
        ap (use_round p junk handle t1) read ∙ ap (hand_over handle t2) parsed,
        refl,
        λ net. process_received sockets ns f handle m sent net known has,
        behind,
      )
