-- ===== src/Message/Serialize/Short.antt =====
-- The messages without fields of their own, and the fixed header on a big-endian host.
use nymph_mqtt.Common.{
  ℕ, ◌+◌, ◌*◌, ◌/◌, ◌%◌, ◌^◌, ◌<◌, ◌≡◌, refl, ◌∙◌, [], ◌∷◌, ◌++◌, length, length-append, take,
  arith, lt→ltb,
}
use native.Mathlib.Nat.{mod-eq_of_lt}
use nymph_mqtt.ByteBauble.{write_packed_int, write_loop, copy_bits, set_bit}
use nymph_mqtt.ByteBauble.Endian.{BbEndianness, bb_be, bb_le, store}
use nymph_mqtt.ByteBauble.Write.{IsEncodable, encode_length, write_packed_int-encode_length}
use nymph_mqtt.Message.{
  NmqttMessage, MqttPacketType, mqtt_connect, mqtt_connack, mqtt_publish, mqtt_subscribe,
  mqtt_unsubscribe, packet_type_value,
}
use nymph_mqtt.Message.Exec.{Platform}
use nymph_mqtt.Message.Serialize.{Parts, serialize_body, output_of, prepared, serialize}
use nymph_mqtt.Message.Serialize.Fields.{serialize_as, output_of-packet}

-- The types that `serialize` writes no variable header for.
abbrev pub IsBare : MqttPacketType → Type 0
IsBare mqtt_connect = ⊥
IsBare mqtt_connack = ⊥
IsBare mqtt_publish = ⊥
IsBare mqtt_subscribe = ⊥
IsBare mqtt_unsubscribe = ⊥
IsBare _ = Unit

bare_parts :
    (type : MqttPacketType) (p : Platform) (m : NmqttMessage)
    → IsBare type
    → serialize_body type p m
      ≡ record { b0 = packet_type_value type; var_header = []; payload = m.payload }
unfolding serialize_body
bare_parts mqtt_connect p m h = elim h [ ]
bare_parts mqtt_connack p m h = elim h [ ]
bare_parts mqtt_publish p m h = elim h [ ]
bare_parts mqtt_subscribe p m h = elim h [ ]
bare_parts mqtt_unsubscribe p m h = elim h [ ]
bare_parts _ p m h = refl

nothing_behind :
    (p : Platform) (b0 : ℕ)
    → output_of p (record { b0 = b0; var_header = []; payload = [] }) ≡ b0 ∷ 0 ∷ []
unfolding output_of write_packed_int write_loop copy_bits set_bit
nothing_behind p b0 = on p.host
  where
    on : (host : BbEndianness) → (b0 ∷ (take 1 (store host 4 0) ++ [])) ≡ b0 ∷ 0 ∷ []
    on bb_be = refl
    on bb_le = refl

-- A message of such a type that carries no payload is its type and the length 0, on every host.
pub serialize_bare :
    (p : Platform) (m : NmqttMessage) (type : MqttPacketType)
    → m.command ≡ type
    → IsBare type
    → m.payload ≡ []
    → (serialize p m).0 ≡ packet_type_value type ∷ 0 ∷ []
serialize_bare p m type e bare none =
    serialize_as p m type e
    ∙ rw (bare_parts type p (prepared m) bare, none) (nothing_behind p (packet_type_value type))

-- On a little-endian host a CONNACK message without payload is accepted with no session.
pub serialize_connack :
    (p : Platform) (m : NmqttMessage)
    → p.host ≡ bb_le
    → m.command ≡ mqtt_connack
    → m.payload ≡ []
    → (serialize p m).0 ≡ 0x20 ∷ 0x02 ∷ 0x00 ∷ 0x00 ∷ []
unfolding serialize_body encode_length
serialize_connack p m le e none =
    serialize_as p m mqtt_connack e
    ∙ output_of-packet p (serialize_body mqtt_connack p (prepared m)) le (
        rw none (record {
          fits = omega arith;
          not_1 = λ h. omega arith;
          not_2 = λ h. omega arith;
          not_3 = λ h. omega arith;
        }))
    ∙ rw none

-- On a big-endian host the bytes of the packed length are copied from the wrong end: every length from
-- 1 to 127 is written as 0.
pub output_of_big_endian :
    (p : Platform) (parts : Parts)
    → p.host ≡ bb_be
    → length (parts.var_header ++ parts.payload) < 128
    → output_of p parts ≡ parts.b0 ∷ 0 ∷ (parts.var_header ++ parts.payload)
unfolding output_of
output_of_big_endian p parts e short =
    let n : ℕ = length (parts.var_header ++ parts.payload) in
    let fits : IsEncodable n = record {
      fits = omega arith;
      not_1 = λ h. omega arith;
      not_2 = λ h. omega arith;
      not_3 = λ h. omega arith;
    } in
    let one : encode_length 3 n ≡ n ∷ [] = unfold encode_length in rw (lt→ltb n 128 short) in
    let small : (n + 256 * 0) / 256 / 256 / 256 % 256 ≡ 0 = omega arith in
    rw (
      ← length-append parts.var_header parts.payload,
      mod-eq_of_lt {n = n} {m = 2 ^ 32} (omega arith),
      write_packed_int-encode_length n 0 fits,
      e,
      one,
      small,
    )
