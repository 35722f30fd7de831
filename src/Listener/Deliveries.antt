-- ===== src/Listener/Deliveries.antt =====
-- src/cpp/client_listener.cpp and request.cpp: all the PUBLISH messages of a broker, from the stream to the
-- message handler of the client.
use nymph_mqtt.Common.{
  ℕ, ◌<◌, ◌≡◌, refl, ap, ◌∙◌, sym, true, List, [], ◌∷◌, ◌++◌, append-nil, append_assoc, length,
  some,
}
use nymph_mqtt.Common.Map.{find}
use nymph_mqtt.ByteBauble.Endian.{bb_le}
use nymph_mqtt.ByteBauble.Endian.Layout.{byte_bauble_detects}
use nymph_mqtt.Message.{NmqttMessage, mqtt_protocol_version_4, new_message}
use nymph_mqtt.Message.Exec.{Platform}
use nymph_mqtt.Message.Packet.{publish_byte, publish_body}
use nymph_mqtt.Message.Parse.Publish.{payload_after}
use nymph_mqtt.Message.Serialize.{serialize}
use nymph_mqtt.Message.Serialize.Publish.{IsPublish}
use nymph_mqtt.Message.RoundTrip.Publish.{received, serialize_then_parse}
use nymph_mqtt.Framing.{Source}
use nymph_mqtt.Server.{Call, returned, null_pointer, bad_function_call}
use nymph_mqtt.Session.Stream.{InPairs, IsBuffer}
use nymph_mqtt.Listener.{NymphSocket, Request, process_request}
use nymph_mqtt.Listener.Delivery.{process_received}
use nymph_mqtt.Listener.Thread.{
  ListenerThread, in_loop, behind_loop, Event, readable, run_thread, new_thread,
}
use nymph_mqtt.Listener.Rounds.{packet_round, last_round}

-- A message of version 4 with less than 128 bytes behind its fixed header.
pub record IsShort (q : Platform) (sent : NmqttMessage) : Type 0 where
  pub is : IsPublish q sent
  pub version : sent.mqtt_version ≡ mqtt_protocol_version_4
  pub short :
      length (publish_body sent.mqtt_version sent.qos sent.topic sent.packet_id sent.payload) < 128

abbrev pub AllShort : Platform → List NmqttMessage → Type 0
AllShort q [] = Unit {0}
AllShort q (m ∷ ms) = IsShort q m × AllShort q ms

-- The bytes of the messages, one behind the other.
abbrev pub stream_of : Platform → List NmqttMessage → List ℕ
stream_of q [] = []
stream_of q (m ∷ ms) = (serialize q m).0 ++ stream_of q ms

-- A round for each message, and one for the end.
abbrev pub rounds_for : List NmqttMessage → List Event
rounds_for [] = readable ∷ []
rounds_for (m ∷ ms) = readable ∷ rounds_for ms

-- Requests that are processed one behind the other.
abbrev pub call_then : {N : Type 0} → Call N → (N → Call N) → Call N
call_then (returned net) f = f net
call_then null_pointer f = null_pointer
call_then bad_function_call f = bad_function_call

abbrev pub process_all : {N : Type 0} → List (ℕ × NymphSocket N) → List Request → N → Call N
process_all sockets [] net = returned net
process_all sockets (r ∷ more) net =
    call_then (process_request sockets r net) (process_all sockets more)

-- The calls of the message handler: of a payload of one byte, nothing arrives.
abbrev pub handled : {N : Type 0} → (ℕ → List ℕ → List ℕ → N → N) → ℕ → List NmqttMessage → N → N
handled f handle [] net = net
handled f handle (m ∷ ms) net =
    handled f handle ms (f handle m.topic (payload_after [] m.payload) net)

abbrev requests_for : NmqttMessage → ℕ → List NmqttMessage → List Request
requests_for m handle [] = []
requests_for m handle (sent ∷ more) =
    record { handle = handle; msg = received m sent } ∷ requests_for m handle more

module _ {S : Type 0} (src : Source S) (p : Platform) (junk : NmqttMessage) (handle : ℕ) where
  -- All rounds.
  all_rounds :
      (q : Platform) (sents : List NmqttMessage) (t : ListenerThread S)
      → p.host ≡ bb_le
      → q.host ≡ bb_le
      → AllShort q sents
      → InPairs src
      → src.stream t.listener.socket ≡ stream_of q sents
      → IsBuffer t.listener.header_buff
      → t.listen ≡ true
      → (u : ListenerThread S) × (run_thread src p junk handle (rounds_for sents) (in_loop t)
          ≡ behind_loop u)
        × (u.listener.requests
            ≡ t.listener.requests ++ requests_for (new_message p.host junk) handle sents)
  unfolding run_thread new_message
  all_rounds q [] t le le' all pairs front b on =
      let (u, done, kept) = last_round src p junk handle t front on in
      (u, done, kept ∙ sym (append-nil t.listener.requests))
  all_rounds q (sent ∷ more) t le le' all pairs front b on =
      let body : List ℕ =
        publish_body sent.mqtt_version sent.qos sent.topic sent.packet_id sent.payload in
      let b0 : ℕ = publish_byte sent.duplicate_message sent.qos sent.retain_message in
      let (bytes, parsed) =
        serialize_then_parse p q (new_message p.host junk) sent le le' all.0.is
          (byte_bauble_detects p.host) (sym all.0.version) all.0.short in
      let (u, done, rest, grown, listens, buffer) =
        packet_round src p junk handle b0 body (stream_of q more)
          (received (new_message p.host junk) sent) t le pairs
          (front ∙ ap (λ xs. xs ++ stream_of q more) bytes) all.0.short b on parsed in
      let (v, ended, requests) = all_rounds q more u le le' all.1 pairs rest buffer listens in
      (
        v,
        ap (run_thread src p junk handle (rounds_for more)) done ∙ ended,
        requests
            ∙ ap (λ rs. rs ++ requests_for (new_message p.host junk) handle more) grown
            ∙ append_assoc t.listener.requests
                (record { handle = handle; msg = received (new_message p.host junk) sent } ∷ [])
                (requests_for (new_message p.host junk) handle more),
      )

processed :
    {N : Type 0} (sockets : List (ℕ × NymphSocket N)) (ns : NymphSocket N)
    (f : ℕ → List ℕ → List ℕ → N → N) (handle : ℕ) (m : NmqttMessage) (sents : List NmqttMessage)
    (net : N)
    → m.payload ≡ []
    → find handle sockets ≡ some ns
    → ns.handler ≡ some f
    → process_all sockets (requests_for m handle sents) net ≡ returned (handled f handle sents net)
processed sockets ns f handle m [] net none_ known has = refl
processed sockets ns f handle m (sent ∷ more) net none_ known has =
    ap (λ c. call_then c (process_all sockets (requests_for m handle more)))
      (process_received sockets ns f handle m sent net known has
        ∙ ap (λ old. returned (f handle sent.topic (payload_after old sent.payload) net)) none_)
    ∙ processed sockets ns f handle m more (f handle sent.topic (payload_after [] sent.payload) net)
        none_ known has

-- When a little-endian broker serializes any number of PUBLISH messages of version 4, each with less than 128 bytes
-- behind its fixed header, and then closes, the thread of a new listener on a little-endian host is behind
-- its loop after one round more than messages, and when its requests are processed in their order, the
-- message handler of the connection is called once for each message, in their order, with the handle, the
-- topic and the payload (of a payload of one byte, nothing). Two bytes that are there must come together.
pub process_all-run_thread :
    {S N : Type 0} (src : Source S) (p q : Platform) (junk : NmqttMessage) (handle : ℕ)
    (sents : List NmqttMessage) (socket : S) (buff : List ℕ) (sockets : List (ℕ × NymphSocket N))
    (ns : NymphSocket N) (f : ℕ → List ℕ → List ℕ → N → N)
    → p.host ≡ bb_le
    → q.host ≡ bb_le
    → AllShort q sents
    → InPairs src
    → src.stream socket ≡ stream_of q sents
    → IsBuffer buff
    → find handle sockets ≡ some ns
    → ns.handler ≡ some f
    → (u : ListenerThread S) × (run_thread src p junk handle
          (rounds_for sents)
          (in_loop (new_thread (record { socket = socket; header_buff = buff; requests = [] })))
        ≡ behind_loop u)
      × ((net : N)
          → process_all sockets u.listener.requests net ≡ returned (handled f handle sents net))
unfolding new_message
process_all-run_thread src p q junk handle sents socket buff sockets ns f le le' all pairs front b
      known has =
    let t = new_thread (record { socket = socket; header_buff = buff; requests = [] }) in
    let (u, done, requests) =
      all_rounds src p junk handle q sents t le le' all pairs front b refl in
    (
      u,
      done,
      λ net.
          ap (λ rs. process_all sockets rs net) requests
          ∙ processed sockets ns f handle (new_message p.host junk) sents net refl known has,
    )
