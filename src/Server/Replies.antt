-- ===== src/Server/Replies.antt =====
-- What the clients of the server receive.
use nymph_mqtt.Common.{
  ℕ, ◌^◌, ◌<◌, ◌≡◌, refl, ap, ◌∙◌, List, [], ◌∷◌, Option, none, some, arith, if◌then◌else◌,
}
use nymph_mqtt.ByteBauble.Endian.{bb_le}
use nymph_mqtt.Message.{
  NmqttMessage, MqttPacketType, mqtt_connect, mqtt_connack, mqtt_pingreq, mqtt_pingresp,
  message_of_type, same_type, packet_type_value,
}
use nymph_mqtt.Message.Exec.{Platform}
use nymph_mqtt.Message.Serialize.{serialize}
use nymph_mqtt.Message.Serialize.Short.{serialize_bare, serialize_connack}
use nymph_mqtt.ServerConnections.{
  remove_socket, NmqttClientSocket, NmqttClientConnections, merged, add_socket, get_socket,
  set_core_parameters,
}
use nymph_mqtt.ServerConnections.Validity.{IsValid}
use nymph_mqtt.ServerConnections.Lookup.{get_socket-add_socket, get_socket-remove_socket}
use nymph_mqtt.Server.{
  Handler, connect_handler, pingreq_handler, Sent, sent, thrown, Call, returned, null_pointer,
  server_init, int_handle, set_message, all_sent, send_to, send_message, forget, reply, handle_with,
  call_handler, handler_of, process,
}

connack_bytes :
    (p : Platform) (junk : NmqttMessage)
    → p.host ≡ bb_le
    → (serialize p (message_of_type p.host junk mqtt_connack)).0 ≡ 0x20 ∷ 0x02 ∷ 0x00 ∷ 0x00 ∷ []
unfolding message_of_type
connack_bytes p junk le =
    serialize_connack p (message_of_type p.host junk mqtt_connack) le refl refl

pingresp_bytes :
    (p : Platform) (junk : NmqttMessage)
    → (serialize p (message_of_type p.host junk mqtt_pingresp)).0 ≡ 0xD0 ∷ 0x00 ∷ []
unfolding message_of_type packet_type_value
pingresp_bytes p junk =
    serialize_bare p (message_of_type p.host junk mqtt_pingresp) mqtt_pingresp refl tt refl

-- The bytes of the answer to a command, as the standard has them.
abbrev pub answer : MqttPacketType → Option (List ℕ)
answer mqtt_connect = some (0x20 ∷ 0x02 ∷ 0x00 ∷ 0x00 ∷ [])
answer mqtt_pingreq = some (0xD0 ∷ 0x00 ∷ [])
answer _ = none

module _ {N : Type 0} (send_bytes : ℕ → List ℕ → N → Sent × N) where
  abbrev pub answered : ℕ → Option (List ℕ) → N → N
  answered socket none net = net
  answered socket (some bytes) net = (send_bytes socket bytes net).1

  forget_send :
      (client : NmqttClientSocket Handler) (bytes : List ℕ) (net : N)
      → forget (send_to send_bytes (some client) bytes net)
        ≡ returned (send_bytes client.socket bytes net).1
  forget_send client bytes net = result (send_bytes client.socket bytes net)
    where
      result : (r : Sent × N) → forget (returned (all_sent bytes r)) ≡ returned r.1
      result (sent k, net') = refl
      result (thrown, net') = refl

  handled :
      (p : Platform) (junk : NmqttMessage) (h : Handler) (s : NmqttClientConnections Handler)
      (handle : ℕ) (net : N) (client : NmqttClientSocket Handler) (bytes : List ℕ)
      → get_socket s handle ≡ some client
      → (serialize p (message_of_type p.host junk (reply h))).0 ≡ bytes
      → handle_with send_bytes p junk h s handle net
        ≡ returned (send_bytes client.socket bytes net).1
  unfolding handle_with send_message
  handled p junk h s handle net client bytes found made =
      ap
        (λ o.
          forget (send_to send_bytes o (serialize p (message_of_type p.host junk (reply h))).0 net))
        found
      ∙ ap (λ b. forget (send_to send_bytes (some client) b net)) made
      ∙ forget_send client bytes net

  -- A known client whose handlers are those of the server.
  process_known :
      (type : MqttPacketType) (p : Platform) (junk : NmqttMessage)
      (s : NmqttClientConnections Handler) (handle : ℕ) (net : N)
      (client : NmqttClientSocket Handler)
      → p.host ≡ bb_le
      → get_socket s handle ≡ some client
      → client.connect_handler ≡ some connect_handler
      → client.pingreq_handler ≡ some pingreq_handler
      → (if same_type type mqtt_connect
          then handler_of send_bytes
              (λ c. c.connect_handler)
              p
              junk
              (get_socket s handle)
              s
              handle
              net
          else if same_type type mqtt_pingreq
          then handler_of send_bytes
              (λ c. c.pingreq_handler)
              p
              junk
              (get_socket s handle)
              s
              handle
              net
          else returned net)
        ≡ returned (answered client.socket (answer type) net)
  unfolding same_type packet_type_value
  process_known mqtt_connect p junk s handle net client le found con ping =
      ap (λ o. handler_of send_bytes (λ c. c.connect_handler) p junk o s handle net) found
      ∙ ap (λ h. call_handler send_bytes p junk h s handle net) con
      ∙ handled p junk connect_handler s handle net client _ found (connack_bytes p junk le)
  process_known mqtt_pingreq p junk s handle net client le found con ping =
      ap (λ o. handler_of send_bytes (λ c. c.pingreq_handler) p junk o s handle net) found
      ∙ ap (λ h. call_handler send_bytes p junk h s handle net) ping
      ∙ handled p junk pingreq_handler s handle net client _ found (pingresp_bytes p junk)
  process_known _ p junk s handle net client le found con ping = refl

  int_handle_small : (h : ℕ) → h < 2 ^ 31 → int_handle h ≡ h
  int_handle_small h small = ground arith

  -- The server on a little-endian host answers a request of a client that it added to its table: a
  -- CONNECT message with the bytes of CONNACK and a PINGREQ message with those of PINGRESP, sent once
  -- to the socket of that client, every other message with nothing; as long as the handle fits an int.
  pub process-set_message :
      (p : Platform) (junk msg : NmqttMessage) (s : NmqttClientConnections Handler)
      (core ns : NmqttClientSocket Handler) (net : N)
      → p.host ≡ bb_le
      → IsValid s
      → (add_socket (server_init s core) ns).1 < 2 ^ 31
      → let (t, handle) = add_socket (server_init s core) ns in
        process send_bytes p junk (set_message handle msg) t net
        ≡ returned (answered ns.socket (answer msg.command) net)
  unfolding process set_message server_init set_core_parameters
  process-set_message p junk msg s core ns net le v small =
      let (t, handle) = add_socket (server_init s core) ns in
      let ready : IsValid (server_init s core) = record { split = v.split } in
      let found : get_socket t handle ≡ some (merged (server_init s core) ns) =
        (get_socket-add_socket (server_init s core) ns ready).1 in
      ap (λ h. process send_bytes p junk (record { handle = h; msg = msg }) t net)
        (int_handle_small handle small)
      ∙ process_known msg.command p junk t handle net (merged (server_init s core) ns) le found refl
          refl

  -- What a request comes to whose client is not in the table.
  abbrev pub gone : MqttPacketType → N → Call N
  gone mqtt_connect net = null_pointer
  gone mqtt_pingreq net = null_pointer
  gone _ net = returned net

  process_unknown :
      (type : MqttPacketType) (p : Platform) (junk : NmqttMessage)
      (s : NmqttClientConnections Handler) (handle : ℕ) (net : N)
      → get_socket s handle ≡ none
      → (if same_type type mqtt_connect
          then handler_of send_bytes
              (λ c. c.connect_handler)
              p
              junk
              (get_socket s handle)
              s
              handle
              net
          else if same_type type mqtt_pingreq
          then handler_of send_bytes
              (λ c. c.pingreq_handler)
              p
              junk
              (get_socket s handle)
              s
              handle
              net
          else returned net)
        ≡ gone type net
  unfolding same_type packet_type_value
  process_unknown mqtt_connect p junk s handle net missing =
      ap (λ o. handler_of send_bytes (λ c. c.connect_handler) p junk o s handle net) missing
  process_unknown mqtt_pingreq p junk s handle net missing =
      ap (λ o. handler_of send_bytes (λ c. c.pingreq_handler) p junk o s handle net) missing
  process_unknown _ p junk s handle net missing = refl

  -- When a worker comes to a request after the session has removed its client from a valid table, a
  -- CONNECT or PINGREQ message makes it use a null pointer, and every other message does nothing; for
  -- handles that fit an int.
  pub process-remove_socket :
      (p : Platform) (junk msg : NmqttMessage) (s : NmqttClientConnections Handler) (handle : ℕ)
      (net : N)
      → IsValid s
      → handle < 2 ^ 31
      → process send_bytes p junk (set_message handle msg) (remove_socket s handle) net
        ≡ gone msg.command net
  unfolding process set_message
  process-remove_socket p junk msg s handle net v small =
      let t : NmqttClientConnections Handler = remove_socket s handle in
      ap (λ h. process send_bytes p junk (record { handle = h; msg = msg }) t net)
        (int_handle_small handle small)
      ∙ process_unknown msg.command p junk t handle net (get_socket-remove_socket s handle v).0
