-- ===== src/Session/Answers.antt =====
-- A CONNECT message on its way from a client through the server, and its answer.
use nymph_mqtt.Common.{
  ℕ, ◌+◌, ◌^◌, ◌<◌, ◌≡◌, refl, ap, ◌∙◌, sym, false, List, [], ◌∷◌, ◌++◌, length, length-append,
  arith, inl,
}
use nymph_mqtt.ByteBauble.Endian.{bb_le}
use nymph_mqtt.ByteBauble.Endian.Layout.{byte_bauble_detects}
use nymph_mqtt.ByteBauble.Write.{IsEncodable}
use nymph_mqtt.Message.{NmqttMessage, mqtt_connect, message_of_type, new_message, set_client_id}
use nymph_mqtt.Message.Exec.{Platform, ok}
use nymph_mqtt.Message.Packet.{packet}
use nymph_mqtt.Message.Parse.{parse_message}
use nymph_mqtt.Message.Serialize.{serialize}
use nymph_mqtt.Message.Serialize.Connect.{connect_body, IsConnect, serialize-connect}
use nymph_mqtt.Message.RoundTrip.Connect.{received_connect, parse_message-serialize_connect}
use nymph_mqtt.Framing.{Source}
use nymph_mqtt.Client.{NmqttClient, connect_message}
use nymph_mqtt.Server.{
  Handler, Sent, returned, NmqttServerRequest, server_init, set_message, process,
}
use nymph_mqtt.Server.Replies.{process-set_message}
use nymph_mqtt.ServerConnections.{NmqttClientSocket, NmqttClientConnections, add_socket}
use nymph_mqtt.ServerConnections.Validity.{IsValid}
use nymph_mqtt.Session.{NmqttSession, listening, round}
use nymph_mqtt.Session.Stream.{InPairs, IsBuffer, one_packet}

plain_connect :
    (q : Platform) (junk : NmqttMessage) (c : NmqttClient)
    → c.will_flag ≡ false
    → c.username_flag ≡ false
    → connect_message q junk c
      ≡ set_client_id (message_of_type q.host junk mqtt_connect) c.client_id
unfolding connect_message
plain_connect q junk c w u = rw (w, u)

-- The packet of such a message, and what the parser of any platform makes of it.
plain_bytes :
    (p q : Platform) (m junk : NmqttMessage) (id : List ℕ)
    → q.host ≡ bb_le
    → length id < 116
    → let sent = set_client_id (message_of_type q.host junk mqtt_connect) id in
      ((serialize q sent).0 ≡ packet 0x10 (connect_body sent))
      × (parse_message p m (packet 0x10 (connect_body sent))
          ≡ ok (received_connect m sent (length id + 12)))
      × (length (connect_body sent) < 128)
unfolding message_of_type
plain_bytes p q m junk id le short =
    let sent : NmqttMessage = set_client_id (message_of_type q.host junk mqtt_connect) id in
    let is : IsConnect q sent = record {
      command = refl;
      version = refl;
      host = byte_bauble_detects q.host;
      fresh = refl;
      id_fits = omega arith;
      topic_fits = omega arith;
      will_fits = omega arith;
      password_fits = omega arith;
    } in
    let size : length (connect_body sent) ≡ length id + 12 = omega (arith, length-append id []) in
    let fits : IsEncodable (length (connect_body sent)) = record {
      fits = omega arith;
      not_1 = λ e. omega arith;
      not_2 = λ e. omega arith;
      not_3 = λ e. omega arith;
    } in
    let bytes = serialize-connect q sent le is fits in
    (
      bytes,
      ap (parse_message p m) (sym bytes)
          ∙ parse_message-serialize_connect q p m sent le is refl refl refl short,
      omega arith,
    )

module _ {S N : Type 0} (src : Source S) (send_bytes : ℕ → List ℕ → N → Sent × N) where
  -- When a client without will and credentials, with a client identifier of less than 116 bytes, on a
  -- little-endian host, sends its CONNECT message to a server on one, a round of its session makes
  -- exactly one request of it, reads no byte behind it, and a worker that processes this request sends the bytes of CONNACK,
  -- once and to the socket of that client, as long as its handle fits an int. Two bytes that are there
  -- must come together, and the table of connections is valid before.
  pub process-connect_message :
      (p q : Platform) (junk junk' : NmqttMessage) (c : NmqttClient) (rest : List ℕ)
      (s : NmqttClientConnections Handler) (core ns : NmqttClientSocket Handler) (socket : S)
      (buff : List ℕ) (before : List NmqttServerRequest)
      → p.host ≡ bb_le
      → q.host ≡ bb_le
      → c.will_flag ≡ false
      → c.username_flag ≡ false
      → length c.client_id < 116
      → IsValid s
      → (add_socket (server_init s core) ns).1 < 2 ^ 31
      → InPairs src
      → IsBuffer buff
      → src.stream socket ≡ (serialize q (connect_message q junk' c)).0 ++ rest
      → let table : NmqttClientConnections Handler = (add_socket (server_init s core) ns).0 in
        let handle : ℕ = (add_socket (server_init s core) ns).1 in
        let t : NmqttSession S = record {
          connections = table;
          socket = socket;
          header_buff = buff;
          requests = before;
        } in
        (u : NmqttSession S) × (req : NmqttServerRequest) × (round src p junk handle t
          ≡ listening u)
        × (u.requests ≡ before ++ (req ∷ []))
        × ((net : N)
            → process send_bytes p junk req u.connections net
              ≡ returned (send_bytes ns.socket (0x20 ∷ 0x02 ∷ 0x00 ∷ 0x00 ∷ []) net).1)
        × (src.stream u.socket ≡ rest)
  process-connect_message p q junk junk' c rest s core ns socket buff before le le' w un short v
        small pairs buffer sent =
      let msg : NmqttMessage =
        set_client_id (message_of_type q.host junk' mqtt_connect) c.client_id in
      let table : NmqttClientConnections Handler = (add_socket (server_init s core) ns).0 in
      let handle : ℕ = (add_socket (server_init s core) ns).1 in
      let t : NmqttSession S = record {
        connections = table;
        socket = socket;
        header_buff = buff;
        requests = before;
      } in
      let m : NmqttMessage =
        received_connect (new_message p.host junk) msg (length c.client_id + 12) in
      let (bytes, parses, few) =
        plain_bytes p q (new_message p.host junk) junk' c.client_id le' short in
      let (u, done, behind, grown, kept, buffer') =
        one_packet src p junk handle 0x10 (connect_body msg) rest m t le pairs
          (sent
            ∙ ap (λ x. (serialize q x).0 ++ rest) (plain_connect q junk' c w un)
            ∙ ap (λ xs. xs ++ rest) bytes)
          few buffer (inl parses) in
      (
        u,
        set_message handle m,
        done,
        grown,
        λ net.
            ap (λ k. process send_bytes p junk (set_message handle m) k net) kept
            ∙ process-set_message send_bytes p junk m s core ns net le v small,
        behind,
      )
