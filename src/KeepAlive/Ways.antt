-- ===== src/KeepAlive/Ways.antt =====
-- src/cpp/session.cpp, server_request.cpp, server.cpp, client_listener.cpp and request.cpp: the ways of PINGREQ
-- through the server and of PINGRESP through the client.
use nymph_mqtt.Common.{
  ℕ, ◌^◌, ◌<◌, ◌≡◌, refl, ap, ◌∙◌, sym, List, [], ◌∷◌, ◌++◌, length, some, arith, inl,
}
use nymph_mqtt.Common.Map.{find}
use nymph_mqtt.ByteBauble.Endian.{bb_le}
use nymph_mqtt.Message.{
  NmqttMessage, mqtt_pingreq, mqtt_pingresp, new_message, same_type, packet_type_value,
}
use nymph_mqtt.Message.Exec.{Platform, ok}
use nymph_mqtt.Message.Packet.{packet}
use nymph_mqtt.Message.Parse.{parse_message}
use nymph_mqtt.Message.Parse.Length.{short_packet}
use nymph_mqtt.Message.RoundTrip.Bare.{received_bare, read_bare}
use nymph_mqtt.Framing.{Source, overwrite}
use nymph_mqtt.Framing.Whole.{receive_message-packet}
use nymph_mqtt.Server.{
  Handler, Sent, returned, NmqttServerRequest, server_init, set_message, process,
}
use nymph_mqtt.Server.Replies.{process-set_message}
use nymph_mqtt.ServerConnections.{NmqttClientSocket, NmqttClientConnections, add_socket}
use nymph_mqtt.ServerConnections.Validity.{IsValid}
use nymph_mqtt.Session
use nymph_mqtt.Session.{NmqttSession, round}
use nymph_mqtt.Session.Stream.{InPairs, IsBuffer, one_packet}
use nymph_mqtt.Listener
use nymph_mqtt.Listener.{
  NymphSocket, connections_get_socket, Request, call, with_socket, process_request,
  NmqttClientListener, hand_over, use_round, listener_round,
}

abbrev pub pingreq : List ℕ
pingreq = 0xC0 ∷ 0x00 ∷ []

abbrev pub pingresp : List ℕ
pingresp = 0xD0 ∷ 0x00 ∷ []

ping_packet : packet 0xC0 [] ≡ pingreq
ping_packet = short_packet 0xC0 [] (omega arith)

pong_packet : packet 0xD0 [] ≡ pingresp
pong_packet = short_packet 0xD0 [] (omega arith)

read_pingreq :
    (p : Platform) (m : NmqttMessage)
    → parse_message p m (packet 0xC0 []) ≡ ok (received_bare m mqtt_pingreq)
unfolding packet_type_value
read_pingreq p m = ap (parse_message p m) ping_packet ∙ read_bare mqtt_pingreq p m tt

read_pingresp :
    (p : Platform) (m : NmqttMessage)
    → parse_message p m (packet 0xD0 []) ≡ ok (received_bare m mqtt_pingresp)
unfolding packet_type_value
read_pingresp p m = ap (parse_message p m) pong_packet ∙ read_bare mqtt_pingresp p m tt

module _ {S N : Type 0} (src : Source S) (send_bytes : ℕ → List ℕ → N → Sent × N) where
  -- The way through the server.
  pub process-pingreq :
      (p : Platform) (junk : NmqttMessage) (rest : List ℕ) (s : NmqttClientConnections Handler)
      (core ns : NmqttClientSocket Handler) (socket : S) (buff : List ℕ)
      (before : List NmqttServerRequest)
      → p.host ≡ bb_le
      → IsValid s
      → (add_socket (server_init s core) ns).1 < 2 ^ 31
      → InPairs src
      → IsBuffer buff
      → src.stream socket ≡ pingreq ++ rest
      → let handle : ℕ = (add_socket (server_init s core) ns).1 in
        let t : NmqttSession S = record {
          connections = (add_socket (server_init s core) ns).0;
          socket = socket;
          header_buff = buff;
          requests = before;
        } in
        (u : NmqttSession S) × (req : NmqttServerRequest) × (round src p junk handle t
          ≡ Session.listening u)
        × (u.requests ≡ before ++ (req ∷ []))
        × ((net : N)
            → process send_bytes p junk req u.connections net
              ≡ returned (send_bytes ns.socket pingresp net).1)
        × (src.stream u.socket ≡ rest)
  process-pingreq p junk rest s core ns socket buff before le v small pairs buffer front =
      let handle : ℕ = (add_socket (server_init s core) ns).1 in
      let t : NmqttSession S = record {
        connections = (add_socket (server_init s core) ns).0;
        socket = socket;
        header_buff = buff;
        requests = before;
      } in
      let m : NmqttMessage = received_bare (new_message p.host junk) mqtt_pingreq in
      let (u, done, behind, grown, kept, buffer') =
        one_packet src p junk handle 0xC0 [] rest m t le pairs
          (front ∙ ap (λ xs. xs ++ rest) (sym ping_packet)) (omega arith) buffer
          (inl (read_pingreq p (new_message p.host junk))) in
      (
        u,
        set_message handle m,
        done,
        grown,
        λ net.
            ap (λ k. process send_bytes p junk (set_message handle m) k net) kept
            ∙ process-set_message send_bytes p junk m s core ns net le v small,
        behind,
      )

process_pong :
    {N : Type 0} (sockets : List (ℕ × NymphSocket N)) (ns : NymphSocket N) (f : ℕ → N → N)
    (handle : ℕ) (m : NmqttMessage) (net : N)
    → find handle sockets ≡ some ns
    → ns.pingresp_handler ≡ some f
    → process_request sockets (record { handle = handle; msg = received_bare m mqtt_pingresp }) net
      ≡ returned (f handle net)
unfolding process_request connections_get_socket same_type packet_type_value
process_pong sockets ns f handle m net known has =
    ap (λ o. with_socket o (λ s. call s.pingresp_handler (λ g. g handle) net)) known
    ∙ ap (λ o. call o (λ g. g handle) net) has

module _ {S N : Type 0} (src : Source S) where
  -- The way through the client.
  pub process_request-pingresp :
      (p : Platform) (junk : NmqttMessage) (handle : ℕ) (rest : List ℕ) (t : NmqttClientListener S)
      (sockets : List (ℕ × NymphSocket N)) (ns : NymphSocket N) (f : ℕ → N → N)
      → p.host ≡ bb_le
      → InPairs src
      → IsBuffer t.header_buff
      → src.stream t.socket ≡ pingresp ++ rest
      → find handle sockets ≡ some ns
      → ns.pingresp_handler ≡ some f
      → (u : NmqttClientListener S) × (req : Request) × (listener_round src p junk handle t
          ≡ Listener.listening u)
        × (u.requests ≡ t.requests ++ (req ∷ []))
        × ((net : N) → process_request sockets req net ≡ returned (f handle net))
        × (src.stream u.socket ≡ rest)
  unfolding listener_round
  process_request-pingresp p junk handle rest t sockets ns f le pairs b front known has =
      let m : NmqttMessage = new_message p.host junk in
      let two : length (src.receive t.socket 2).0 ≡ 2 =
        pairs t.socket (omega (arith, ap (length {A = ℕ}) front)) in
      let (s', read, behind) =
        receive_message-packet src p.host 0xD0 b.x0 b.x1 b.x2 b.x3 b.x4 [] rest t.header_buff
          t.socket le (front ∙ ap (λ xs. xs ++ rest) (sym pong_packet)) two (omega arith) b.same
          b.byte_2 b.byte_3 b.byte_4 in
      let t1 : NmqttClientListener S = record t {
        header_buff = overwrite (src.receive t.socket 2).0 t.header_buff;
      } in
      let t2 : NmqttClientListener S = record t1 { socket = s' } in
      let req : Request = record { handle = handle; msg = received_bare m mqtt_pingresp } in
      (
        record t2 { requests = t.requests ++ (req ∷ []) },
        req,
        ap (use_round p junk handle t1) read ∙ ap (hand_over handle t2) (read_pingresp p m),
        refl,
        λ net. process_pong sockets ns f handle m net known has,
        behind,
      )
