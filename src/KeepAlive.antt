-- ===== src/KeepAlive.antt =====
-- src/cpp/client.cpp, session.cpp, server_request.cpp, server.cpp, client_listener.cpp and request.cpp: a PINGREQ
-- message and its answer, from the timer of a client to its handler.
mod Ways
use nymph_mqtt.Common.{
  ℕ, ◌+◌, ◌^◌, ◌<◌, ◌≡◌, refl, ap, ◌∙◌, sym, true, List, [], ◌∷◌, ◌++◌, length, some, arith, inl,
}
use nymph_mqtt.Common.Map.{find}
use nymph_mqtt.ByteBauble.Endian.{bb_le}
use nymph_mqtt.Message.{
  NmqttMessage, mqtt_pingreq, mqtt_pingresp, message_of_type, new_message, same_type,
  packet_type_value,
}
use nymph_mqtt.Message.Exec.{Platform, ok}
use nymph_mqtt.Message.Packet.{packet}
use nymph_mqtt.Message.Parse.{parse_message}
use nymph_mqtt.Message.Parse.Length.{short_packet}
use nymph_mqtt.Message.RoundTrip.Bare.{received_bare, read_bare}
use nymph_mqtt.Message.Serialize.{serialize}
use nymph_mqtt.Message.Serialize.Short.{serialize_bare}
use nymph_mqtt.Framing.{Source, overwrite}
use nymph_mqtt.Framing.Whole.{receive_message-packet}
use nymph_mqtt.Server.{
  Handler, Sent, sent, returned, NmqttServerRequest, server_init, set_message, process,
}
use nymph_mqtt.Server.Replies.{process-set_message}
use nymph_mqtt.ServerConnections.{NmqttClientSocket, NmqttClientConnections, add_socket}
use nymph_mqtt.ServerConnections.Validity.{IsValid}
use nymph_mqtt.Session
use nymph_mqtt.Session.{NmqttSession, round}
use nymph_mqtt.Session.Stream.{InPairs, IsBuffer, one_packet}
use nymph_mqtt.Client.{NmqttClient, Result, after_send, client_pingreq_handler}
use nymph_mqtt.Client.Pinging.{ping_sent}
use nymph_mqtt.Listener
use nymph_mqtt.Listener.{
  NymphSocket, connections_get_socket, Request, call, with_socket, process_request,
  NmqttClientListener, hand_over, use_round, listener_round,
}
use nymph_mqtt.KeepAlive.Ways.{pingreq, pingresp, process-pingreq, process_request-pingresp}

-- A connection between the socket of a client and one of the server: what is sent at one end is all taken, and
-- comes behind what is still to be received at the other.
pub record Duplex {S N : Type 0} (src : Source S) (send_bytes : ℕ → List ℕ → N → Sent × N)
    (near far : ℕ) : Type 0 where
  pub to_server : N → S
  pub to_client : N → S
  pub all_taken : (b : List ℕ) (net : N) → (send_bytes near b net).0 ≡ sent (length b)
  pub arrives :
      (b : List ℕ) (net : N)
      → src.stream (to_server (send_bytes near b net).1) ≡ src.stream (to_server net) ++ b
  pub apart :
      (b : List ℕ) (net : N)
      → src.stream (to_client (send_bytes near b net).1) ≡ src.stream (to_client net)
  pub returns :
      (b : List ℕ) (net : N)
      → src.stream (to_client (send_bytes far b net).1) ≡ src.stream (to_client net) ++ b

module _ {S N : Type 0} (src : Source S) (send_bytes : ℕ → List ℕ → N → Sent × N) where
  -- Over a connection on which nothing is under way, between little-endian hosts: `pingreqHandler`, which the timer of
  -- a client calls, sends its message and restarts the timer; a round of the client's session at the server
  -- makes exactly one request of it; a worker that processes this sends the answer; a round of the client's
  -- listener makes exactly one request of that; and processing this calls `pingrespHandler`, once and with
  -- the handle. Two bytes that are there must come together, the table of connections is valid before, and
  -- the client's handle at the server must fit an int.
  pub client_pingreq_handler-process_request :
      (p q : Platform) (junk junk' : NmqttMessage) (c : NmqttClient) (handle near : ℕ) (net : N)
      (s : NmqttClientConnections Handler) (core ns : NmqttClientSocket Handler)
      (buff buff' : List ℕ) (sockets : List (ℕ × NymphSocket N)) (entry : NymphSocket N)
      (f : ℕ → N → N) (d : Duplex src send_bytes near ns.socket)
      → p.host ≡ bb_le
      → q.host ≡ bb_le
      → find handle c.sockets ≡ some near
      → IsValid s
      → (add_socket (server_init s core) ns).1 < 2 ^ 31
      → InPairs src
      → IsBuffer buff
      → IsBuffer buff'
      → src.stream (d.to_server net) ≡ []
      → src.stream (d.to_client net) ≡ []
      → find handle sockets ≡ some entry
      → entry.pingresp_handler ≡ some f
      → let r = client_pingreq_handler send_bytes q junk' c handle net in
        (r.value ≡ true)
        × (r.client ≡ record c { restarts = c.restarts + 1 })
        × (u : NmqttSession S) × (req : NmqttServerRequest) × (round src p junk
              (add_socket (server_init s core) ns).1
              (record {
                connections = (add_socket (server_init s core) ns).0;
                socket = d.to_server r.net;
                header_buff = buff;
                requests = [];
              })
            ≡ Session.listening u)
        × (u.requests ≡ req ∷ [])
        × (net' : N) × (process send_bytes p junk req u.connections r.net ≡ returned net')
        × (v : NmqttClientListener S) × (req' : Request) × (listener_round src q junk' handle
              (record { socket = d.to_client net'; header_buff = buff'; requests = [] })
            ≡ Listener.listening v)
        × (v.requests ≡ req' ∷ [])
        × (process_request sockets req' net' ≡ returned (f handle net'))
  client_pingreq_handler-process_request p q junk junk' c handle near net s core ns buff buff'
        sockets entry f d le le' known v small pairs b b' quiet quiet' there has =
      let sent_ = ping_sent send_bytes q junk' c handle near net known (d.all_taken pingreq net) in
      let r = client_pingreq_handler send_bytes q junk' c handle net in
      let wire : r.net ≡ (send_bytes near pingreq net).1 = ap (λ (x : Result N). x.net) sent_ in
      let net' : N = (send_bytes ns.socket pingresp r.net).1 in
      let (u, req, done, made, answers, rest) =
        process-pingreq src send_bytes p junk [] s core ns (d.to_server r.net) buff [] le v small
          pairs b
          (ap (λ n. src.stream (d.to_server n)) wire
            ∙ d.arrives pingreq net
            ∙ ap (λ xs. xs ++ pingreq) quiet) in
      let (w, req', heard, made', calls, rest') =
        process_request-pingresp src q junk' handle []
          (record { socket = d.to_client net'; header_buff = buff'; requests = [] }) sockets entry f
          le' pairs b'
          (d.returns pingresp r.net
            ∙ ap (λ xs. xs ++ pingresp)
                (ap (λ n. src.stream (d.to_client n)) wire ∙ d.apart pingreq net ∙ quiet'))
          there has in
      (
        ap (λ (x : Result N). x.value) sent_,
        ap (λ (x : Result N). x.client) sent_,
        u,
        req,
        done,
        made,
        net',
        answers r.net,
        w,
        req',
        heard,
        made',
        calls net',
      )
