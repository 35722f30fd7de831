-- ===== src/Session/Throws.antt =====
-- A session that an exception of the parser ends.
use nymph_mqtt.Common.{
  ℕ, suc, ◌^◌, ◌<◌, ◌≡◌, refl, ap, ◌∙◌, List, [], ◌∷◌, ◌++◌, length, some, arith,
}
use nymph_mqtt.ByteBauble.Endian.{bb_le}
use nymph_mqtt.ByteBauble.Endian.Layout.{byte_bauble_detects}
use nymph_mqtt.Message.{NmqttMessage, new_message}
use nymph_mqtt.Message.Exec.{Platform, out_of_range}
use nymph_mqtt.Message.Packet.{big16, packet}
use nymph_mqtt.Message.Parse.{parse_message}
use nymph_mqtt.Message.Parse.Length.{short_packet}
use nymph_mqtt.Message.Parse.Malformed.{parse_message-publish_overrun}
use nymph_mqtt.Framing.{Source}
use nymph_mqtt.Server.{Handler}
use nymph_mqtt.ServerConnections.{
  NmqttClientSocket, NmqttClientConnections, merged, add_socket, get_socket,
}
use nymph_mqtt.ServerConnections.Validity.{IsValid}
use nymph_mqtt.ServerConnections.Lookup.{get_socket-add_socket}
use nymph_mqtt.Session.{NmqttSession, threw, dispatch, round, run_loop, run}
use nymph_mqtt.Session.Rounds.{round-packet}
use nymph_mqtt.Session.Stream.{InPairs, IsBuffer}

module _ {S : Type 0} (src : Source S) (p : Platform) (junk : NmqttMessage) where
  round_throws :
      (handle b0 : ℕ) (body rest : List ℕ) (t : NmqttSession S)
      → p.host ≡ bb_le
      → InPairs src
      → src.stream t.socket ≡ packet b0 body ++ rest
      → length body < 128
      → IsBuffer t.header_buff
      → parse_message p (new_message p.host junk) (packet b0 body) ≡ out_of_range
      → (u : NmqttSession S) × (round src p junk handle t ≡ threw u)
        × (u.connections ≡ t.connections)
        × (u.requests ≡ t.requests)
  round_throws handle b0 body rest t le pairs sent short buffer throws =
      let front : src.stream t.socket ≡ b0 ∷ length body ∷ (body ++ rest) =
        sent ∙ ap (λ xs. xs ++ rest) (short_packet b0 body short) in
      let two : length (src.receive t.socket 2).0 ≡ 2 =
        pairs t.socket (omega (arith, ap (length {A = ℕ}) front)) in
      let (u, done, behind, kept, table, buff) =
        round-packet src p junk handle b0 buffer.x0 buffer.x1 buffer.x2 buffer.x3 buffer.x4 body
          rest t le sent two short buffer.same buffer.byte_2 buffer.byte_3 buffer.byte_4 in
      (u, done ∙ ap (dispatch handle u) throws, table, kept)

  loop_throws :
      (fuel handle : ℕ) (t u : NmqttSession S)
      → round src p junk handle t ≡ threw u
      → run_loop src p junk (suc fuel) handle t ≡ threw u
  unfolding run_loop
  loop_throws fuel handle t u done = rw (run_loop, done) refl

  -- When the first packet of a client is a PUBLISH packet of level 0 whose topic is announced longer than
  -- what follows, with less than 128 bytes behind its fixed header, on a little-endian host, its
  -- session ends with an exception and no request; `removeSocket` is not called: the table still has the
  -- client under its handle, with the socket that ends with the thread. Two bytes that are there must
  -- come together, and the table is valid before.
  pub run-publish_overrun :
      (fuel len : ℕ) (body rest : List ℕ) (s : NmqttClientConnections Handler)
      (ns : NmqttClientSocket Handler) (socket : S) (buff : List ℕ)
      → p.host ≡ bb_le
      → len < 2 ^ 16
      → length body < len
      → length body < 126
      → InPairs src
      → src.stream socket ≡ packet 0x30 (big16 len ++ body) ++ rest
      → IsBuffer buff
      → IsValid s
      → (u : NmqttSession S) × (run src p junk (suc fuel) s ns socket buff ≡ threw u)
        × (u.requests ≡ [])
        × (get_socket u.connections (add_socket s ns).1 ≡ some (merged s ns))
  unfolding run new_message
  run-publish_overrun fuel len body rest s ns socket buff le fits short few pairs sent buffer v =
      let handle : ℕ = (add_socket s ns).1 in
      let t : NmqttSession S = record {
        connections = (add_socket s ns).0;
        socket = socket;
        header_buff = buff;
        requests = [];
      } in
      let throws : parse_message p (new_message p.host junk) (packet 0x30 (big16 len ++ body))
          ≡ out_of_range =
        parse_message-publish_overrun p (new_message p.host junk) len body refl
          (byte_bauble_detects p.host) fits short few in
      let (u, done, table, kept) =
        round_throws handle 0x30 (big16 len ++ body) rest t le pairs sent (omega arith) buffer
          throws in
      (
        u,
        loop_throws fuel handle t u done,
        kept,
        ap (λ c. get_socket c handle) table ∙ (get_socket-add_socket s ns v).1,
      )
