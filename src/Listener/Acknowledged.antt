-- ===== src/Listener/Acknowledged.antt =====
-- The answer of the server on its way to a client that waits for it.
use nymph_mqtt.Common.{
  ℕ, ◌≡◌, refl, ap, ◌∙◌, sym, Bool, true, false, List, [], ◌∷◌, ◌++◌, length, some, arith,
}
use nymph_mqtt.Common.Map.{find}
use nymph_mqtt.ByteBauble.Endian.{bb_le}
use nymph_mqtt.Message.{NmqttMessage, mqtt_connack, new_message, same_type, packet_type_value}
use nymph_mqtt.Message.Exec.{Platform, ok}
use nymph_mqtt.Message.Packet.{packet}
use nymph_mqtt.Message.Parse.{parse_message}
use nymph_mqtt.Message.Parse.Length.{short_packet, widen_short}
use nymph_mqtt.Message.Parse.Malformed.{parse_message-connack}
use nymph_mqtt.Framing.{Source, overwrite}
use nymph_mqtt.Framing.Whole.{receive_message-packet}
use nymph_mqtt.Server.{returned}
use nymph_mqtt.Session.Stream.{IsBuffer}
use nymph_mqtt.Client.Handshake.{NmqttBrokerConnection, Handshake, waiting, woken, connack_handler}
use nymph_mqtt.Listener.{
  NymphSocket, connections_get_socket, Request, call, with_socket, process_request,
  NmqttClientListener, listening, hand_over, use_round, listener_round,
}

-- CONNACK as an object that receives it.
abbrev pub acknowledged : NmqttMessage → NmqttMessage
acknowledged m = record m {
  command = mqtt_connack;
  duplicate_message = false;
  retain_message = false;
  message_length = 2;
  session_present = false;
  reason_code = 0;
  parse_good = true;
}

parse_accepted :
    (p : Platform) (m : NmqttMessage)
    → parse_message p m (packet 0x20 (0x00 ∷ 0x00 ∷ [])) ≡ ok (acknowledged m)
parse_accepted p m =
    parse_message-connack p m (0x00 ∷ 0x00 ∷ []) (omega arith)
    ∙ ap (λ c. ok (record (acknowledged m) { reason_code = c })) (widen_short p 32 0 (omega arith))

-- `connackHandler`, as the function of a connection whose client is in its handshake.
abbrev pub wake : ℕ → Bool → ℕ → Handshake → Handshake
wake handle session_present code s = connack_handler s handle session_present code

process_accepted :
    (sockets : List (ℕ × NymphSocket Handshake)) (ns : NymphSocket Handshake) (handle : ℕ)
    (m : NmqttMessage) (conn : NmqttBrokerConnection)
    → find handle sockets ≡ some ns
    → ns.connack_handler ≡ some wake
    → process_request sockets
        (record { handle = handle; msg = acknowledged m })
        (record { place = waiting; broker_conn = true; conn = conn })
      ≡ returned (record {
        place = woken;
        broker_conn = true;
        conn = record { handle = handle; session_present = false; response_code = 0 };
      })
unfolding process_request connections_get_socket same_type packet_type_value connack_handler
process_accepted sockets ns handle m conn known has =
    let s : Handshake = record { place = waiting; broker_conn = true; conn = conn } in
    ap (λ o. with_socket o (λ n. call n.connack_handler (λ g. g handle false 0) s)) known
    ∙ ap (λ o. call o (λ g. g handle false 0) s) has

module _ {S : Type 0} (src : Source S) (p : Platform) (junk : NmqttMessage) where
  -- When the bytes of the server's CONNACK, 20 02 00 00, come first in the stream, their first two
  -- together, a round of a listener on a little-endian host makes exactly one request, and when a
  -- worker processes it while the client of this connection waits in `connect`, the client is woken,
  -- and the object of its caller says the handle, no session, and success; the rest of the stream is
  -- left to the next round.
  pub process_request-connack :
      (handle : ℕ) (rest : List ℕ) (t : NmqttClientListener S)
      (sockets : List (ℕ × NymphSocket Handshake)) (ns : NymphSocket Handshake)
      → p.host ≡ bb_le
      → src.stream t.socket ≡ 0x20 ∷ 0x02 ∷ 0x00 ∷ 0x00 ∷ rest
      → length (src.receive t.socket 2).0 ≡ 2
      → IsBuffer t.header_buff
      → find handle sockets ≡ some ns
      → ns.connack_handler ≡ some wake
      → (u : NmqttClientListener S) × (req : Request) × (listener_round src p junk handle t
          ≡ listening u)
        × (u.requests ≡ t.requests ++ (req ∷ []))
        × ((conn : NmqttBrokerConnection)
            → process_request sockets req
                (record { place = waiting; broker_conn = true; conn = conn })
              ≡ returned (record {
                place = woken;
                broker_conn = true;
                conn = record { handle = handle; session_present = false; response_code = 0 };
              }))
        × (src.stream u.socket ≡ rest)
  unfolding listener_round
  process_request-connack handle rest t sockets ns le sent two b known has =
      let m : NmqttMessage = new_message p.host junk in
      let body : List ℕ = 0x00 ∷ 0x00 ∷ [] in
      let (s', read, behind) =
        receive_message-packet src p.host 0x20 b.x0 b.x1 b.x2 b.x3 b.x4 body rest t.header_buff
          t.socket le (sent ∙ ap (λ xs. xs ++ rest) (sym (short_packet 0x20 body (omega arith))))
          two (omega arith) b.same b.byte_2 b.byte_3 b.byte_4 in
      let t1 : NmqttClientListener S = record t {
        header_buff = overwrite (src.receive t.socket 2).0 t.header_buff;
      } in
      let t2 : NmqttClientListener S = record t1 { socket = s' } in
      let req : Request = record { handle = handle; msg = acknowledged m } in
      (
        record t2 { requests = t.requests ++ (req ∷ []) },
        req,
        ap (use_round p junk handle t1) read ∙ ap (hand_over handle t2) (parse_accepted p m),
        refl,
        λ conn. process_accepted sockets ns handle m conn known has,
        behind,
      )
