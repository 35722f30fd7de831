-- ===== src/Message/Serialize/Connect.antt =====
-- What `serialize` makes of a CONNECT message.
use nymph_mqtt.Common.{
  ℕ, ◌+◌, ◌*◌, ◌^◌, ◌<◌, ◌≤◌, ◌≡◌, refl, ap, ◌∙◌, Bool, true, false, List, [], ◌∷◌, ◌++◌, length,
  arith, if◌then◌else◌,
}
use native.Mathlib.Nat.{mod-eq_of_lt}
use nymph_mqtt.ByteBauble.Endian.{bb_le}
use nymph_mqtt.ByteBauble.Write.{IsEncodable}
use nymph_mqtt.Message.{NmqttMessage, mqtt_connect, mqtt_protocol_version_4}
use nymph_mqtt.Message.Exec.{Platform}
use nymph_mqtt.Message.Packet.{flag, utf8_string, packet}
use nymph_mqtt.Message.Serialize.{
  add_flag, connect_flags_of, connect_properties, level_of, connect_header, will_part,
  connect_payload, serialize_body, prepared, serialize,
}
use nymph_mqtt.Message.Serialize.Fields.{
  IsReady, u16_field-big16, size_t_field_zero, output_of-packet, serialize_as,
}

-- The connect flags of the standard, by weight.
abbrev pub connect_byte : NmqttMessage → ℕ
connect_byte m =
    0x02 * flag m.clean_session_flag
    + 0x04 * flag m.will_flag
    + 0x08 * flag m.will_qos1
    + 0x10 * flag m.will_qos2
    + 0x20 * flag m.will_retain_flag
    + 0x40 * flag m.password_flag
    + 0x80 * flag m.username_flag

add_flag_lem : (t : Bool) (w f : ℕ) → f + w < 256 → add_flag t w f ≡ f + w * flag t
add_flag_lem true w f h = mod-eq_of_lt h ∙ omega arith
add_flag_lem false w f h = omega arith

flag_le : (t : Bool) → flag t ≤ 1
flag_le true = omega arith
flag_le false = omega arith

connect_flags_of-connect_byte : (m : NmqttMessage) → connect_flags_of m ≡ connect_byte m
unfolding connect_flags_of
connect_flags_of-connect_byte m =
    let f1 = flag_le m.clean_session_flag in
    let f2 = flag_le m.will_flag in
    let f3 = flag_le m.will_qos1 in
    let f4 = flag_le m.will_qos2 in
    let f5 = flag_le m.will_retain_flag in
    let f6 = flag_le m.password_flag in
    let s1 : ℕ = 0 + 0x02 * flag m.clean_session_flag in
    let s2 : ℕ = s1 + 0x04 * flag m.will_flag in
    let s3 : ℕ = s2 + 0x08 * flag m.will_qos1 in
    let s4 : ℕ = s3 + 0x10 * flag m.will_qos2 in
    let s5 : ℕ = s4 + 0x20 * flag m.will_retain_flag in
    let s6 : ℕ = s5 + 0x40 * flag m.password_flag in
    rw
      (
        add_flag_lem m.clean_session_flag 0x02 0 (omega arith),
        add_flag_lem m.will_flag 0x04 s1 (omega arith),
        add_flag_lem m.will_qos1 0x08 s2 (omega arith),
        add_flag_lem m.will_qos2 0x10 s3 (omega arith),
        add_flag_lem m.will_retain_flag 0x20 s4 (omega arith),
        add_flag_lem m.password_flag 0x40 s5 (omega arith),
        add_flag_lem m.username_flag 0x80 s6 (omega arith),
      )
      (omega arith)

-- A string behind two zero bytes.
abbrev pub unmeasured : List ℕ → List ℕ
unmeasured s = 0 ∷ 0 ∷ s

-- The fixed header counts this: the variable header of version 4 with a keep alive of 60 seconds, the
-- client identifier, and the optional strings, each behind `0x0000` where its length should stand.
abbrev pub connect_body : NmqttMessage → List ℕ
connect_body m =
    0x00
    ∷ 0x04
    ∷ b'M'
    ∷ b'Q'
    ∷ b'T'
    ∷ b'T'
    ∷ 0x04
    ∷ connect_byte m
    ∷ 0x00
    ∷ 60
    ∷ (utf8_string m.client_id
        ++ ((if m.will_flag then unmeasured m.will_topic ++ unmeasured m.will else [])
            ++ ((if m.username_flag then unmeasured m.username else [])
                ++ (if m.password_flag then unmeasured m.password else []))))

-- A CONNECT message of version 4 on its host that was not serialized before.
pub record IsConnect (p : Platform) (m : NmqttMessage) : Type 0 where
  pub command : m.command ≡ mqtt_connect
  pub version : m.mqtt_version ≡ mqtt_protocol_version_4
  pub host : m.bytebauble.host_endian ≡ p.host
  pub fresh : m.payload ≡ []
  pub id_fits : length m.client_id < 2 ^ 16
  pub topic_fits : length m.will_topic < 2 ^ 48
  pub will_fits : length m.will < 2 ^ 48
  pub password_fits : length m.password < 2 ^ 48

parts_body :
    (p : Platform) (m : NmqttMessage)
    → p.host ≡ bb_le
    → IsConnect p m
    → connect_header p (prepared m) ++ connect_payload p (prepared m) ≡ connect_body m
unfolding connect_header connect_payload will_part level_of connect_properties
parts_body p m le is =
    let ready : IsReady p (prepared m) = record { global = refl; host = is.host } in
    let u = u16_field-big16 p (prepared m) in
    let z = size_t_field_zero p (prepared m) in
    rw (
      u 4 ready (omega arith),
      u 60 ready (omega arith),
      u (length m.client_id) ready is.id_fits,
      z (length m.will_topic) ready le is.topic_fits,
      z (length m.will) ready le is.will_fits,
      z (length m.password) ready le is.password_fits,
      connect_flags_of-connect_byte (prepared m),
      is.version,
      is.fresh,
    )

-- On a little-endian host a CONNECT message of version 4 that was made there, whose `payload` is still
-- empty, with a client identifier of less than 2^16 bytes and other texts of less than 2^48, and with
-- a length that `writePackedInt` encodes as the standard says (not 128, 16384 or 2097152, and below
-- 2^28), becomes the packet with `connect_body`: the client identifier has its length before it;
-- will topic, will, user name and password have zeros.
pub serialize-connect :
    (p : Platform) (m : NmqttMessage)
    → p.host ≡ bb_le
    → IsConnect p m
    → IsEncodable (length (connect_body m))
    → (serialize p m).0 ≡ packet 0x10 (connect_body m)
unfolding serialize_body
serialize-connect p m le is fits =
    let body = parts_body p m le is in
    serialize_as p m mqtt_connect is.command
    ∙ output_of-packet p (serialize_body mqtt_connect p (prepared m)) le (rw body fits)
    ∙ ap (packet 0x10) body
