-- ===== src/Message/RoundTrip/Connect.antt =====
-- A CONNECT message from `serialize` to `parseMessage`.
use nymph_mqtt.Common.{
  ℕ, ◌+◌, ◌*◌, ◌/◌, ◌%◌, ◌^◌, ◌<◌, ◌≡◌, ap, ◌∙◌, sym, Bool, true, false, List, [], ◌∷◌, length,
  arith, append-nil, eq→==, subst,
}
use nymph_mqtt.ByteBauble.{bit}
use nymph_mqtt.ByteBauble.Endian.{bb_le}
use nymph_mqtt.ByteBauble.Write.{IsEncodable}
use nymph_mqtt.Message.{NmqttMessage, mqtt_connect, mqtt_protocol_version_4}
use nymph_mqtt.Message.Exec.{Platform, ok}
use nymph_mqtt.Message.Packet.{flag, packet}
use nymph_mqtt.Message.Parse.{
  packet_type_of, qos_of, read_flags, same_bytes, read_connect_flags, set_level, parse_body,
  parse_message,
}
use nymph_mqtt.Message.Parse.Length.{
  opened, finished, parse_message_short, short_packet, widen_short,
}
use nymph_mqtt.Message.Parse.Connect.{connect_bytes, connect_tests, connect_fields_plain}
use nymph_mqtt.Message.Serialize.{serialize}
use nymph_mqtt.Message.Serialize.Connect.{connect_byte, connect_body, IsConnect, serialize-connect}

-- The weights of the flags take one bit each.
module _ (s : NmqttMessage) where
  flag-bit : (i : ℕ) (t : Bool) → connect_byte s / 2 ^ i % 2 ≡ flag t → bit (connect_byte s) i ≡ t
  flag-bit i true e = eq→== _ 1 e
  flag-bit i false e = ground arith

  flag_lt : (t : Bool) → flag t < 2
  flag_lt true = omega arith
  flag_lt false = omega arith

  bits :
      let c = connect_byte s in
      (c / 2 ^ 0 % 2 ≡ 0)
      × (c / 2 ^ 1 % 2 ≡ flag s.clean_session_flag)
      × (c / 2 ^ 2 % 2 ≡ flag s.will_flag)
      × (c / 2 ^ 3 % 2 ≡ flag s.will_qos1)
      × (c / 2 ^ 5 % 2 ≡ flag s.will_retain_flag)
      × (c / 2 ^ 6 % 2 ≡ flag s.password_flag)
      × (c / 2 ^ 7 % 2 ≡ flag s.username_flag)
  bits =
      let f1 = flag_lt s.clean_session_flag in
      let f2 = flag_lt s.will_flag in
      let f3 = flag_lt s.will_qos1 in
      let f4 = flag_lt s.will_qos2 in
      let f5 = flag_lt s.will_retain_flag in
      let f6 = flag_lt s.password_flag in
      let f7 = flag_lt s.username_flag in
      (omega arith, omega arith, omega arith, omega arith, omega arith, omega arith, omega arith)

  -- The receiver reads every flag of the sender, but of the level of the will only the lower bit.
  pub read_connect_flags-connect_byte :
      (m : NmqttMessage)
      → read_connect_flags m (connect_byte s) ≡ record m {
        clean_session_flag = s.clean_session_flag;
        will_flag = s.will_flag;
        will_retain_flag = s.will_retain_flag;
        username_flag = s.username_flag;
        password_flag = s.password_flag;
        will_qos = flag s.will_qos1;
      }
  unfolding read_connect_flags
  read_connect_flags-connect_byte m =
      let (b0, b1, b2, b3, b5, b6, b7) = bits in
      let level : (connect_byte s / 2 ^ 4 % 2 * 2 + connect_byte s / 2 ^ 3) % 2 ≡ flag s.will_qos1 =
        omega (arith, b3) in
      rw
        (flag-bit 1 _ b1, flag-bit 2 _ b2, flag-bit 5 _ b5, flag-bit 6 _ b6, flag-bit 7 _ b7, level)

  pub reserved_bit : bit (connect_byte s) 0 ≡ false
  reserved_bit = flag-bit 0 false bits.0

-- What an object becomes that reads the CONNECT message of the object `sent`, of `n` bytes.
abbrev pub received_connect : NmqttMessage → NmqttMessage → ℕ → NmqttMessage
received_connect m sent n = record m {
  mqtt_version = mqtt_protocol_version_4;
  command = mqtt_connect;
  duplicate_message = false;
  retain_message = false;
  message_length = n;
  clean_session_flag = sent.clean_session_flag;
  will_flag = false;
  will_retain_flag = sent.will_retain_flag;
  username_flag = false;
  password_flag = false;
  will_qos = flag sent.will_qos1;
  client_id = [];
  keep_alive = 0;
  parse_good = true;
}

plain_body :
    (sent : NmqttMessage)
    → sent.will_flag ≡ false
    → sent.username_flag ≡ false
    → sent.password_flag ≡ false
    → length sent.client_id < 256
    → connect_body sent
      ≡ connect_bytes 0x00 0x04 b'M' b'Q' b'T' b'T' 0x04
          (connect_byte sent)
          (0 ∷ 60 ∷ 0 ∷ (length sent.client_id % 256) ∷ sent.client_id)
plain_body sent w u s h =
    let high : length sent.client_id / 256 ≡ 0 = omega arith in rw (w, u, s, high, append-nil)

-- A CONNECT message of version 4 without will and credentials, with a client identifier of less than
-- 116 bytes, serialized on a little-endian host, is parsed well on every platform with its flags (of
-- the level of the will the lower bit); but the client identifier and the keep alive time that are
-- read are empty and 0, since one byte is read of each field of two.
pub parse_message-serialize_connect :
    (p q : Platform) (m sent : NmqttMessage)
    → p.host ≡ bb_le
    → IsConnect p sent
    → sent.will_flag ≡ false
    → sent.username_flag ≡ false
    → sent.password_flag ≡ false
    → length sent.client_id < 116
    → parse_message q m (serialize p sent).0
      ≡ ok (received_connect m sent (length sent.client_id + 12))
unfolding parse_body read_flags packet_type_of qos_of same_bytes set_level
parse_message-serialize_connect p q m sent le is w u s short =
    let k : ℕ = length sent.client_id in
    let tail : List ℕ = 0 ∷ 60 ∷ 0 ∷ (k % 256) ∷ sent.client_id in
    let body : List ℕ = connect_bytes 0x00 0x04 b'M' b'Q' b'T' b'T' 0x04 (connect_byte sent) tail in
    let plain : connect_body sent ≡ body = plain_body sent w u s (omega arith) in
    let n : ℕ = length body in
    let fits : IsEncodable (length (connect_body sent)) =
      subst (λ b. IsEncodable (length b)) (sym plain)
        (record {
          fits = omega arith;
          not_1 = λ e. omega arith;
          not_2 = λ e. omega arith;
          not_3 = λ e. omega arith;
        }) in
    let m' : NmqttMessage = opened m 0x10 n in
    let m'' : NmqttMessage = record m' {
      mqtt_version = mqtt_protocol_version_4;
      clean_session_flag = sent.clean_session_flag;
      will_flag = sent.will_flag;
      will_retain_flag = sent.will_retain_flag;
      username_flag = sent.username_flag;
      password_flag = sent.password_flag;
      will_qos = flag sent.will_qos1;
    } in
    ap (parse_message q m) (
      serialize-connect p sent le is fits
      ∙ ap (packet 0x10) plain
      ∙ short_packet 0x10 body (omega arith))
    ∙ parse_message_short q m 0x10 body (omega arith)
    ∙ rw
        (
          connect_tests q m' 0x10 n 0x00 0x04 b'M' b'Q' b'T' b'T' 0x04 (connect_byte sent) tail,
          reserved_bit sent,
          read_connect_flags-connect_byte sent (set_level m' 0x04),
        )
        (ap finished (
            connect_fields_plain q m'' 0x10 n 0x00 0x04 b'M' b'Q' b'T' b'T' 0x04 (connect_byte sent)
              0 60 (k % 256) sent.client_id w u s)
          ∙ rw (w, u, s, widen_short q 16 0 (omega arith))
              (ap (λ t. ok (received_connect m sent t)) (omega arith)))
