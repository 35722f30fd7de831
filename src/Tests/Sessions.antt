-- ===== src/Tests/Sessions.antt =====
-- Instances of the theorems on sessions and on the server.
use nymph_mqtt.Common.{
  ℕ, zero, suc, min, ◌<◌, ◌≡◌, ◌≢◌, refl, ap, false, List, [], ◌∷◌, ◌++◌, length, length-take, take,
  drop, none, some, arith,
}
use nymph_mqtt.ByteBauble.Endian.{bb_le, byte_bauble}
use nymph_mqtt.ByteBauble.Write.{encode_length}
use nymph_mqtt.Message.{message_of_type, new_message}
use nymph_mqtt.Message.Serialize.{serialize}
use nymph_mqtt.Message.Serialize.Publish.{serialize-publish}
use nymph_mqtt.Message.RoundTrip.Publish.{received}
use nymph_mqtt.ServerConnections.{
  remove_socket, NmqttClientSocket, NmqttClientConnections, no_connections, add_socket, get_socket,
  set_core_parameters,
}
use nymph_mqtt.ServerConnections.Validity.{no_connections-IsValid}
use nymph_mqtt.Framing.{Source, whole, read_rest, receive_message}
use nymph_mqtt.Framing.Stream.{Reads, read_rest_lem}
use nymph_mqtt.Framing.Whole.{receive_message_lem}
use nymph_mqtt.Server.{
  Handler, Sent, sent, returned, null_pointer, server_init, set_message, process,
}
use nymph_mqtt.Server.Replies.{process-set_message, process-remove_socket}
use nymph_mqtt.Session.{NmqttSession, listening, left, round, run_loop}
use nymph_mqtt.Session.Rounds.{round-serialize_publish, run_loop_closed}
use nymph_mqtt.Tests.Objects.{junk, x86, publisher, ping, joining}

pub take-drop : (n : ℕ) (xs : List ℕ) → xs ≡ take n xs ++ drop n xs
take-drop zero xs = refl
take-drop (suc n) [] = refl
take-drop (suc n) (x ∷ xs) = ap (◌∷◌ x) (take-drop n xs)

pub nothing_taken : (n : ℕ) (xs : List ℕ) → 0 < n → take n xs ≡ [] → xs ≡ []
nothing_taken zero xs pos e = absurd (omega arith)
nothing_taken (suc n) [] pos e = refl
nothing_taken (suc n) (x ∷ xs) pos e = cc

-- A socket that hands out at most two bytes at a time.
abbrev pub by_twos : Source (List ℕ)
by_twos = record {
  receive = λ s n. (take (min n 2) s, drop (min n 2) s);
  stream = λ s. s;
  in_order = λ s n. take-drop (min n 2) s;
  fits = λ s n. omega (arith, length-take (min n 2) s);
  empty_at_end = λ s n pos e. nothing_taken (min n 2) s (omega arith) e;
}

five_of_six :
    (r : List ℕ × List ℕ) × (read_rest by_twos 5 5 (1 ∷ 2 ∷ 3 ∷ 4 ∷ 5 ∷ 6 ∷ []) ≡ some r)
    × Reads by_twos 5 (1 ∷ 2 ∷ 3 ∷ 4 ∷ 5 ∷ 6 ∷ []) r
five_of_six = read_rest_lem by_twos 5 5 (1 ∷ 2 ∷ 3 ∷ 4 ∷ 5 ∷ 6 ∷ []) (omega arith) (omega arith)

one_message :
    (s : List ℕ) × (receive_message by_twos bb_le
        (9 ∷ 9 ∷ 9 ∷ 9 ∷ 9 ∷ [])
        (0x30 ∷ 3 ∷ 0 ∷ 1 ∷ b'a' ∷ 0xC0 ∷ 0 ∷ [])
      ≡ whole (0x30 ∷ 3 ∷ 0 ∷ 1 ∷ b'a' ∷ []) s)
    × (s ≡ 0xC0 ∷ 0 ∷ [])
one_message =
    receive_message_lem by_twos 0x30 3 9 9 9 9 9 (0 ∷ 1 ∷ b'a' ∷ 0xC0 ∷ 0 ∷ [])
      (0x30 ∷ 3 ∷ 0 ∷ 1 ∷ b'a' ∷ 0xC0 ∷ 0 ∷ []) refl refl (omega arith) (omega arith) (omega arith)
      (omega arith)

abbrev pub blank : NmqttClientSocket Handler
blank = record {
  socket = 0;
  connect_handler = none;
  pingreq_handler = none;
  username = false;
  password = false;
  will_retain = false;
  qos = 0;
  will_flag = false;
  clean_session = false;
}

abbrev pub server : NmqttClientConnections Handler
server = no_connections blank

abbrev opened : List ℕ → NmqttSession (List ℕ)
opened bytes = record {
  connections = server;
  socket = bytes;
  header_buff = 9 ∷ 9 ∷ 9 ∷ 9 ∷ 9 ∷ [];
  requests = [];
}

pub publish_bytes : (serialize x86 publisher).0 ≡ 0x30 ∷ 5 ∷ 0 ∷ 1 ∷ b'a' ∷ b'h' ∷ b'i' ∷ []
unfolding message_of_type byte_bauble encode_length
publish_bytes =
    serialize-publish x86 publisher refl
      (record { command = refl; host = refl; topic_fits = omega arith; id_fits = omega arith })
      (record {
        fits = omega arith;
        not_1 = λ e. omega arith;
        not_2 = λ e. omega arith;
        not_3 = λ e. omega arith;
      })

publish_requested :
    let t = opened ((serialize x86 publisher).0 ++ (0xC0 ∷ 0 ∷ [])) in
    (u : NmqttSession (List ℕ)) × (round by_twos x86 junk 0 t ≡ listening u)
    × (u.socket ≡ 0xC0 ∷ 0 ∷ [])
    × (u.requests ≡ set_message 0 (received (new_message bb_le junk) publisher) ∷ [])
    × (u.connections ≡ server)
unfolding message_of_type byte_bauble
publish_requested =
    round-serialize_publish by_twos x86 junk x86 publisher 0 9 9 9 9 9 (0xC0 ∷ 0 ∷ [])
      (opened ((serialize x86 publisher).0 ++ (0xC0 ∷ 0 ∷ []))) refl refl
      (record { command = refl; host = refl; topic_fits = omega arith; id_fits = omega arith }) refl
      (omega arith) refl (ap (λ xs. length (take 2 (xs ++ (0xC0 ∷ 0 ∷ [])))) publish_bytes) refl
      (omega arith) (omega arith) (omega arith)

closed_at_once :
    (u : NmqttSession (List ℕ)) × (run_loop by_twos x86 junk 1 0 (opened []) ≡ left u)
    × (get_socket u.connections 0 ≡ none)
    × ((j : ℕ) → 0 ≢ j → get_socket u.connections j ≡ get_socket server j)
    × (u.requests ≡ [])
closed_at_once =
    run_loop_closed by_twos x86 junk 0 0 (opened []) (no_connections-IsValid blank) refl

-- A network that keeps what was sent, the last first.
abbrev pub Wire : Type 0
Wire = List (ℕ × List ℕ)

abbrev pub send_all : ℕ → List ℕ → Wire → Sent × Wire
send_all socket bytes wire = (sent (length bytes), (socket, bytes) ∷ wire)

ping_answered :
    let (t, handle) = add_socket (server_init server blank) (record blank { socket = 4096 }) in
    process send_all x86 junk (set_message handle ping) t []
    ≡ returned ((4096, 0xD0 ∷ 0x00 ∷ []) ∷ [])
unfolding message_of_type add_socket no_connections server_init set_core_parameters
ping_answered =
    process-set_message send_all x86 junk ping server blank (record blank { socket = 4096 }) [] refl
      (no_connections-IsValid blank) (omega arith)

connect_after_close :
    process send_all x86 junk (set_message 0 joining) (remove_socket server 0) [] ≡ null_pointer
unfolding message_of_type
connect_after_close =
    process-remove_socket send_all x86 junk joining server 0 [] (no_connections-IsValid blank)
      (omega arith)
