-- ===== src/Listener/Rounds.antt =====
-- src/cpp/client_listener.cpp: a round of a listening thread, when there is a packet and at the end of the stream.
use nymph_mqtt.Common.{
  ℕ, ◌<◌, ◌≡◌, refl, ap, ◌∙◌, sym, Bool, Bool-cases, true, inl, inr, List, [], ◌∷◌, ◌++◌, length,
  take, if◌then◌else◌, arith,
}
use nymph_mqtt.ByteBauble.Endian.{bb_le}
use nymph_mqtt.Message.{NmqttMessage, new_message}
use nymph_mqtt.Message.Exec.{Platform, ok}
use nymph_mqtt.Message.Packet.{packet}
use nymph_mqtt.Message.Parse.{parse_message}
use nymph_mqtt.Message.Parse.Length.{short_packet}
use nymph_mqtt.Framing.{Source, closed, overwrite, receive_message}
use nymph_mqtt.Framing.Stream.{Reads-receive}
use nymph_mqtt.Framing.Whole.{receive_message-packet}
use nymph_mqtt.Session.Stream.{InPairs, IsBuffer, append_empty}
use nymph_mqtt.Listener.{NmqttClientListener, hand_over}
use nymph_mqtt.Listener.Thread.{
  ListenerThread, in_loop, behind_loop, readable, check_init, after_message, after_receive,
  thread_step,
}

then_taken : {A : Type 0} (b : Bool) (x y : A) → b ≡ true → (if b then x else y) ≡ x
then_taken b x y e = rw e refl

module _ {S : Type 0} where
  check_init_keeps :
      (t : ListenerThread S)
      → ((check_init t).listener ≡ t.listener) × ((check_init t).listen ≡ t.listen)
  check_init_keeps t = elim (Bool-cases t.init) [
    | inl e ↦ rw e (refl, refl)
    | inr e ↦ rw e (refl, refl)
  ]

module _ {S : Type 0} (src : Source S) (p : Platform) (junk : NmqttMessage) (handle : ℕ) where
  -- A round of a thread that listens, when a packet is at the front of the stream.
  pub packet_round :
      (b0 : ℕ) (body rest : List ℕ) (msg : NmqttMessage) (t : ListenerThread S)
      → p.host ≡ bb_le
      → InPairs src
      → src.stream t.listener.socket ≡ packet b0 body ++ rest
      → length body < 128
      → IsBuffer t.listener.header_buff
      → t.listen ≡ true
      → parse_message p (new_message p.host junk) (packet b0 body) ≡ ok msg
      → (u : ListenerThread S) × (thread_step src p junk handle readable (in_loop t) ≡ in_loop u)
        × (src.stream u.listener.socket ≡ rest)
        × (u.listener.requests
            ≡ t.listener.requests ++ (record { handle = handle; msg = msg } ∷ []))
        × (u.listen ≡ true)
        × IsBuffer u.listener.header_buff
  packet_round b0 body rest msg t le pairs front short b on parses =
      let first : src.stream t.listener.socket ≡ b0 ∷ length body ∷ (body ++ rest) =
        front ∙ ap (λ xs. xs ++ rest) (short_packet b0 body short) in
      let two : length (src.receive t.listener.socket 2).0 ≡ 2 =
        pairs t.listener.socket (omega (arith, ap (length {A = ℕ}) first)) in
      let (s', read, behind) =
        receive_message-packet src p.host b0 b.x0 b.x1 b.x2 b.x3 b.x4 body rest
          t.listener.header_buff t.listener.socket le front two short b.same b.byte_2 b.byte_3
          b.byte_4 in
      let got : (src.receive t.listener.socket 2).0 ≡ b0 ∷ length body ∷ [] =
        (Reads-receive src 2 t.listener.socket two).0 ∙ ap (take 2) first in
      let l : NmqttClientListener S = record t.listener {
        header_buff = overwrite (src.receive t.listener.socket 2).0 t.listener.header_buff;
      } in
      let l' : NmqttClientListener S = record l {
        socket = s';
        requests = t.listener.requests ++ (record { handle = handle; msg = msg } ∷ []);
      } in
      let u : ListenerThread S = record t { listener = l' } in
      let (same, listens) = check_init_keeps u in
      (
        check_init u,
        then_taken t.listen _ _ on
            ∙ ap (after_receive p junk handle t l) read
            ∙ ap (λ o. after_message t (hand_over handle (record l { socket = s' }) o)) parses,
        ap (λ (k : NmqttClientListener S). src.stream k.socket) same ∙ behind,
        ap (λ (k : NmqttClientListener S). k.requests) same,
        listens ∙ on,
        record {
          x0 = b0;
          x1 = length body;
          x2 = b.x2;
          x3 = b.x3;
          x4 = b.x4;
          same =
              ap (λ (k : NmqttClientListener S). k.header_buff) same
              ∙ ap (λ g. overwrite g t.listener.header_buff) got
              ∙ ap (overwrite (b0 ∷ length body ∷ [])) b.same;
          byte_2 = b.byte_2;
          byte_3 = b.byte_3;
          byte_4 = b.byte_4;
        },
      )

  -- The broker has closed.
  pub last_round :
      (t : ListenerThread S)
      → src.stream t.listener.socket ≡ []
      → t.listen ≡ true
      → (u : ListenerThread S) × (thread_step src p junk handle readable (in_loop t)
          ≡ behind_loop u)
        × (u.listener.requests ≡ t.listener.requests)
  unfolding receive_message
  last_round t over on =
      let got : (src.receive t.listener.socket 2).0 ≡ [] =
        append_empty (src.receive t.listener.socket 2).0
          (src.stream (src.receive t.listener.socket 2).1)
          (sym over ∙ src.in_order t.listener.socket 2) in
      let l : NmqttClientListener S = record t.listener {
        header_buff = overwrite (src.receive t.listener.socket 2).0 t.listener.header_buff;
      } in
      let read : receive_message src p.host t.listener.header_buff t.listener.socket
          ≡ closed (src.receive t.listener.socket 2).1 =
        rw got in
      (
        record t { listener = record l { socket = (src.receive t.listener.socket 2).1 } },
        then_taken t.listen _ _ on ∙ ap (after_receive p junk handle t l) read,
        refl,
      )
