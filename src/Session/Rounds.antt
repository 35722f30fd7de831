-- ===== src/Session/Rounds.antt =====
-- What a session makes of the bytes of its client.
use nymph_mqtt.Common.{
  ℕ, suc, ◌<◌, ◌≡◌, refl, ap, ◌∙◌, sym, List, [], ◌∷◌, ◌++◌, length, none, ◌≢◌, take,
}
use nymph_mqtt.ByteBauble.Endian.{bb_le}
use nymph_mqtt.ByteBauble.Endian.Layout.{byte_bauble_detects}
use nymph_mqtt.ByteBauble.Read.{IsByte}
use nymph_mqtt.Message.{NmqttMessage, mqtt_protocol_version_4, new_message}
use nymph_mqtt.Message.Exec.{Platform}
use nymph_mqtt.Message.Packet.{packet, publish_byte, publish_body}
use nymph_mqtt.Message.Parse.{parse_message}
use nymph_mqtt.Framing.Stream.{Reads-receive}
use nymph_mqtt.Message.Parse.Length.{short_packet}
use nymph_mqtt.Message.Serialize.{serialize}
use nymph_mqtt.Message.Serialize.Publish.{IsPublish}
use nymph_mqtt.Message.RoundTrip.Publish.{received, serialize_then_parse}
use nymph_mqtt.Framing.{Source, overwrite, receive_message}
use nymph_mqtt.Framing.Whole.{receive_message-packet}
use nymph_mqtt.Server.{set_message}
use nymph_mqtt.ServerConnections.{get_socket, remove_socket}
use nymph_mqtt.ServerConnections.Validity.{IsValid}
use nymph_mqtt.ServerConnections.Lookup.{get_socket-remove_socket}
use nymph_mqtt.Session.{NmqttSession, listening, left, dispatch, go_on, round, run_loop}

module _ {S : Type 0} (src : Source S) (p : Platform) (junk : NmqttMessage) where
  -- A packet of less than 128 bytes behind its fixed header, at the front of the stream.
  pub round-packet :
      (handle b0 x0 x1 x2 x3 x4 : ℕ) (body rest : List ℕ) (t : NmqttSession S)
      → p.host ≡ bb_le
      → src.stream t.socket ≡ packet b0 body ++ rest
      → length (src.receive t.socket 2).0 ≡ 2
      → length body < 128
      → t.header_buff ≡ x0 ∷ x1 ∷ x2 ∷ x3 ∷ x4 ∷ []
      → IsByte x2
      → IsByte x3
      → IsByte x4
      → (u : NmqttSession S) × (round src p junk handle t
          ≡ dispatch handle u (parse_message p (new_message p.host junk) (packet b0 body)))
        × (src.stream u.socket ≡ rest)
        × (u.requests ≡ t.requests)
        × (u.connections ≡ t.connections)
        × (u.header_buff ≡ b0 ∷ length body ∷ x2 ∷ x3 ∷ x4 ∷ [])
  unfolding round
  round-packet handle b0 x0 x1 x2 x3 x4 body rest t le sent two short buff h2 h3 h4 =
      let (s', read, behind) =
        receive_message-packet src p.host b0 x0 x1 x2 x3 x4 body rest t.header_buff t.socket le sent
          two short buff h2 h3 h4 in
      let t' : NmqttSession S = record t {
        header_buff = overwrite (src.receive t.socket 2).0 t.header_buff;
      } in
      let front : src.stream t.socket ≡ b0 ∷ length body ∷ (body ++ rest) =
        sent ∙ ap (λ xs. xs ++ rest) (short_packet b0 body short) in
      let got : (src.receive t.socket 2).0 ≡ b0 ∷ length body ∷ [] =
        (Reads-receive src 2 t.socket two).0 ∙ ap (take 2) front in
      (
        record t' { socket = s' },
        ap (go_on p junk handle t') read,
        behind,
        refl,
        refl,
        ap (λ g. overwrite g t.header_buff) got ∙ ap (overwrite (b0 ∷ length body ∷ [])) buff,
      )

  -- When a PUBLISH message that a client of version 4 serialized on a little-endian host comes first in
  -- the stream, with less than 128 bytes behind its fixed header and its first two bytes together, a
  -- round of a session on a little-endian host gives exactly one request to the dispatcher, with the
  -- handle of the client and the message as it is received, keeps the connections and leaves the
  -- stream behind the message.
  pub round-serialize_publish :
      (q : Platform) (sent : NmqttMessage) (handle x0 x1 x2 x3 x4 : ℕ) (rest : List ℕ)
      (t : NmqttSession S)
      → p.host ≡ bb_le
      → q.host ≡ bb_le
      → IsPublish q sent
      → sent.mqtt_version ≡ mqtt_protocol_version_4
      → length (publish_body sent.mqtt_version sent.qos sent.topic sent.packet_id sent.payload)
        < 128
      → src.stream t.socket ≡ (serialize q sent).0 ++ rest
      → length (src.receive t.socket 2).0 ≡ 2
      → t.header_buff ≡ x0 ∷ x1 ∷ x2 ∷ x3 ∷ x4 ∷ []
      → IsByte x2
      → IsByte x3
      → IsByte x4
      → (u : NmqttSession S) × (round src p junk handle t ≡ listening u)
        × (src.stream u.socket ≡ rest)
        × (u.requests
            ≡ t.requests ++ (set_message handle (received (new_message p.host junk) sent) ∷ []))
        × (u.connections ≡ t.connections)
  unfolding new_message
  round-serialize_publish q sent handle x0 x1 x2 x3 x4 rest t le le' is version short stream two
        buff h2 h3 h4 =
      let body : List ℕ =
        publish_body sent.mqtt_version sent.qos sent.topic sent.packet_id sent.payload in
      let b0 : ℕ = publish_byte sent.duplicate_message sent.qos sent.retain_message in
      let (bytes, parsed) =
        serialize_then_parse p q (new_message p.host junk) sent le le' is
          (byte_bauble_detects p.host) (sym version) short in
      let (u, done, behind, kept, table, buffer) =
        round-packet handle b0 x0 x1 x2 x3 x4 body rest t le (stream ∙ ap (λ xs. xs ++ rest) bytes)
          two short buff h2 h3 h4 in
      (
        record u {
          requests =
              u.requests ++ (set_message handle (received (new_message p.host junk) sent) ∷ []);
        },
        done ∙ ap (dispatch handle u) parsed,
        behind,
        ap (λ rs. rs ++ (set_message handle (received (new_message p.host junk) sent) ∷ [])) kept,
        table,
      )

  pub round_closed :
      (handle : ℕ) (t : NmqttSession S)
      → (src.receive t.socket 2).0 ≡ []
      → round src p junk handle t
        ≡ left (record t {
          socket = (src.receive t.socket 2).1;
          header_buff = overwrite (src.receive t.socket 2).0 t.header_buff;
        })
  unfolding round receive_message
  round_closed handle t over = rw over

  -- When the client has closed, the loop ends at once, and the clean-up takes the client, and no other,
  -- out of a valid table.
  pub run_loop_closed :
      (fuel handle : ℕ) (t : NmqttSession S)
      → IsValid t.connections
      → (src.receive t.socket 2).0 ≡ []
      → (u : NmqttSession S) × (run_loop src p junk (suc fuel) handle t ≡ left u)
        × (get_socket u.connections handle ≡ none)
        × ((j : ℕ) → handle ≢ j → get_socket u.connections j ≡ get_socket t.connections j)
        × (u.requests ≡ t.requests)
  unfolding run_loop
  run_loop_closed fuel handle t v over =
      let (gone, others) = get_socket-remove_socket t.connections handle v in
      (
        record t {
          connections = remove_socket t.connections handle;
          socket = (src.receive t.socket 2).1;
          header_buff = overwrite (src.receive t.socket 2).0 t.header_buff;
        },
        rw (run_loop, round_closed handle t over),
        gone,
        others,
        refl,
      )
