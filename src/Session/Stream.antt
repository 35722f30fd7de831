-- ===== src/Session/Stream.antt =====
-- A whole session: the stream of a client, cut into its packets.
use nymph_mqtt.Common.{
  ℕ, zero, suc, ◌+◌, ◌≤◌, ◌<◌, ◌≡◌, refl, ap, ◌∙◌, sym, List, [], ◌∷◌, ◌++◌, append-nil,
  append_assoc, length, subst, ◌^◌, arith, ◌⊎◌, inl, inr,
}
use nymph_mqtt.ByteBauble.Endian.{bb_le}
use nymph_mqtt.ByteBauble.Read.{IsByte}
use nymph_mqtt.Message.{NmqttMessage, new_message}
use nymph_mqtt.Message.Exec.{Platform, ok, failed}
use nymph_mqtt.Message.Packet.{packet}
use nymph_mqtt.Message.Parse.{parse_message}
use nymph_mqtt.Message.Parse.Length.{short_packet}
use nymph_mqtt.Framing.{Source, overwrite}
use nymph_mqtt.Server.{Handler, NmqttServerRequest, set_message}
use nymph_mqtt.ServerConnections.{
  NmqttClientSocket, NmqttClientConnections, add_socket, get_socket, remove_socket,
}
use nymph_mqtt.ServerConnections.Validity.{IsValid, add_socket-IsValid, remove_socket-IsValid}
use nymph_mqtt.ServerConnections.Lookup.{get_socket-remove_add}
use nymph_mqtt.Session.{NmqttSession, listening, left, dispatch, round, run_loop, run}
use nymph_mqtt.Session.Rounds.{round-packet, round_closed}

-- The first byte and the body of each packet, and their bytes one behind the other.
abbrev pub bytes_of : List (ℕ × List ℕ) → List ℕ
bytes_of [] = []
bytes_of ((b0, body) ∷ packets) = packet b0 body ++ bytes_of packets

-- Each packet is parsed, well or not, into the message beside it; none makes the parser throw.
pub data Parses (p : Platform) (m : NmqttMessage)
    : List (ℕ × List ℕ) → List NmqttMessage → Type 0 where
  nothing : Parses p m [] []
  parsed :
      (b0 : ℕ) (body : List ℕ) (msg : NmqttMessage) (packets : List (ℕ × List ℕ))
      (msgs : List NmqttMessage)
      → length body < 128
      → (parse_message p m (packet b0 body) ≡ ok msg)
        ⊎ (parse_message p m (packet b0 body) ≡ failed msg)
      → Parses p m packets msgs
      → Parses p m ((b0, body) ∷ packets) (msg ∷ msgs)

abbrev pub requests_of : ℕ → List NmqttMessage → List NmqttServerRequest
requests_of handle [] = []
requests_of handle (msg ∷ msgs) = set_message handle msg ∷ requests_of handle msgs

-- Two bytes of the stream that are there come together.
abbrev pub InPairs : {S : Type 0} → Source S → Type 0
InPairs {S} src = (s : S) → 2 ≤ length (src.stream s) → length (src.receive s 2).0 ≡ 2

-- The five bytes of `headerBuff`.
pub record IsBuffer (b : List ℕ) : Type 0 where
  pub x0 : ℕ
  pub x1 : ℕ
  pub x2 : ℕ
  pub x3 : ℕ
  pub x4 : ℕ
  pub same : b ≡ x0 ∷ x1 ∷ x2 ∷ x3 ∷ x4 ∷ []
  pub byte_2 : IsByte x2
  pub byte_3 : IsByte x3
  pub byte_4 : IsByte x4

pub append_empty : (xs ys : List ℕ) → [] ≡ xs ++ ys → xs ≡ []
append_empty [] ys e = refl
append_empty (x ∷ xs) ys e = cc

module _ {S : Type 0} (src : Source S) (p : Platform) (junk : NmqttMessage) where
  pub one_packet :
      (handle b0 : ℕ) (body rest : List ℕ) (msg : NmqttMessage) (t : NmqttSession S)
      → p.host ≡ bb_le
      → InPairs src
      → src.stream t.socket ≡ packet b0 body ++ rest
      → length body < 128
      → IsBuffer t.header_buff
      → (parse_message p (new_message p.host junk) (packet b0 body) ≡ ok msg)
        ⊎ (parse_message p (new_message p.host junk) (packet b0 body) ≡ failed msg)
      → (u : NmqttSession S) × (round src p junk handle t ≡ listening u)
        × (src.stream u.socket ≡ rest)
        × (u.requests ≡ t.requests ++ (set_message handle msg ∷ []))
        × (u.connections ≡ t.connections)
        × IsBuffer u.header_buff
  one_packet handle b0 body rest msg t le pairs sent short buffer result =
      let front : src.stream t.socket ≡ b0 ∷ length body ∷ (body ++ rest) =
        sent ∙ ap (λ xs. xs ++ rest) (short_packet b0 body short) in
      let two : length (src.receive t.socket 2).0 ≡ 2 =
        pairs t.socket (omega (arith, ap (length {A = ℕ}) front)) in
      let (u, done, behind, kept, table, buff) =
        round-packet src p junk handle b0 buffer.x0 buffer.x1 buffer.x2 buffer.x3 buffer.x4 body
          rest t le sent two short buffer.same buffer.byte_2 buffer.byte_3 buffer.byte_4 in
      let w : NmqttSession S = record u {
        requests = u.requests ++ (set_message handle msg ∷ []);
      } in
      (
        w,
        elim result [
          | inl e ↦ done ∙ ap (dispatch handle u) e
          | inr e ↦ done ∙ ap (dispatch handle u) e
        ],
        behind,
        ap (λ rs. rs ++ (set_message handle msg ∷ [])) kept,
        table,
        record {
          x0 = b0;
          x1 = length body;
          x2 = buffer.x2;
          x3 = buffer.x3;
          x4 = buffer.x4;
          same = buff;
          byte_2 = buffer.byte_2;
          byte_3 = buffer.byte_3;
          byte_4 = buffer.byte_4;
        },
      )

  -- The loop reads one packet a round, and ends behind the last one.
  loop_packets :
      (packets : List (ℕ × List ℕ)) (msgs : List NmqttMessage) (fuel handle : ℕ)
      (t : NmqttSession S)
      → Parses p (new_message p.host junk) packets msgs
      → length packets < fuel
      → p.host ≡ bb_le
      → InPairs src
      → src.stream t.socket ≡ bytes_of packets
      → IsBuffer t.header_buff
      → (u : NmqttSession S) × (run_loop src p junk fuel handle t ≡ left u)
        × (u.requests ≡ t.requests ++ requests_of handle msgs)
        × (u.connections ≡ remove_socket t.connections handle)
  unfolding run_loop remove_socket
  loop_packets packets msgs zero handle t parses enough le pairs sent buffer = absurd (omega arith)
  loop_packets [] msgs (suc fuel) handle t nothing enough le pairs sent buffer =
      let over : (src.receive t.socket 2).0 ≡ [] =
        append_empty (src.receive t.socket 2).0 (src.stream (src.receive t.socket 2).1)
          (sym sent ∙ src.in_order t.socket 2) in
      (
        record t {
          connections = remove_socket t.connections handle;
          socket = (src.receive t.socket 2).1;
          header_buff = overwrite (src.receive t.socket 2).0 t.header_buff;
        },
        rw (run_loop, round_closed src p junk handle t over),
        sym (append-nil t.requests),
        refl,
      )
  loop_packets (k ∷ packets) msgs (suc fuel) handle t
        (parsed b0 body msg packets' msgs' short result more) enough le pairs sent buffer =
      let (w, done, behind, grown, table, buffer') =
        one_packet handle b0 body (bytes_of packets') msg t le pairs sent short buffer result in
      let (u, rest, requests, gone) =
        loop_packets packets msgs' fuel handle w more (omega arith) le pairs behind buffer' in
      (
        u,
        rw (run_loop, done) rest,
        requests
            ∙ ap (λ rs. rs ++ requests_of handle msgs') grown
            ∙ append_assoc t.requests (set_message handle msg ∷ []) (requests_of handle msgs'),
        gone ∙ ap (λ c. remove_socket c handle) table,
      )

  -- On a little-endian host, when a client sends any number of packets, each with less than 128 bytes
  -- behind its fixed header and none of them one of which `parseMessage` throws an exception or reads
  -- behind the end, and then closes, its session ends within one round more than packets, and
  -- has given the dispatcher exactly one request for each packet, in their order, with the message that
  -- `parseMessage` makes of it and the handle of the client; the table of connections is then valid
  -- and has every other client as before. Two bytes that are there must come together, and the table is valid before, with handles left.
  pub run-bytes_of :
      (packets : List (ℕ × List ℕ)) (msgs : List NmqttMessage) (fuel : ℕ)
      (s : NmqttClientConnections Handler) (ns : NmqttClientSocket Handler) (socket : S)
      (buff : List ℕ)
      → Parses p (new_message p.host junk) packets msgs
      → length packets < fuel
      → p.host ≡ bb_le
      → InPairs src
      → src.stream socket ≡ bytes_of packets
      → IsBuffer buff
      → IsValid s
      → s.last_handle + 1 < 2 ^ 64
      → (u : NmqttSession S) × (run src p junk fuel s ns socket buff ≡ left u)
        × (u.requests ≡ requests_of (add_socket s ns).1 msgs)
        × IsValid u.connections
        × ((j : ℕ) → get_socket u.connections j ≡ get_socket s j)
  unfolding run
  run-bytes_of packets msgs fuel s ns socket buff parses enough le pairs sent buffer v room =
      let t : NmqttSession S = record {
        connections = (add_socket s ns).0;
        socket = socket;
        header_buff = buff;
        requests = [];
      } in
      let (u, done, requests, gone) =
        loop_packets packets msgs fuel (add_socket s ns).1 t parses enough le pairs sent buffer in
      (
        u,
        done,
        requests,
        subst (λ c. IsValid c) (sym gone)
            (remove_socket-IsValid (add_socket s ns).0 (add_socket s ns).1
              (add_socket-IsValid s ns room v)),
        λ j. ap (λ c. get_socket c j) gone ∙ get_socket-remove_add s ns v room j,
      )
