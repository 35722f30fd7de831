-- ===== src/Tests/Serializing.antt =====
-- Instances of the theorems on serialized messages.
use nymph_mqtt.Common.{◌≡◌, refl, [], ◌∷◌, arith}
use nymph_mqtt.ByteBauble.Endian.{byte_bauble}
use nymph_mqtt.ByteBauble.Write.{encode_length}
use nymph_mqtt.Message.{mqtt_pingreq, message_of_type, set_will, set_credentials}
use nymph_mqtt.Message.Serialize.{output_of, serialize}
use nymph_mqtt.Message.Serialize.Publish.{serialize-publish}
use nymph_mqtt.Message.Serialize.Connect.{serialize-connect}
use nymph_mqtt.Message.Serialize.Short.{serialize_bare, serialize_connack, output_of_big_endian}
use nymph_mqtt.Tests.Objects.{x86, sparc, acknowledged, joining_with_will, ping, accepting}

publish_with_id :
    (serialize x86 acknowledged).0 ≡ 0x32 ∷ 7 ∷ 0 ∷ 1 ∷ b'a' ∷ 0 ∷ 7 ∷ b'h' ∷ b'i' ∷ []
unfolding message_of_type byte_bauble encode_length
publish_with_id =
    serialize-publish x86 acknowledged refl
      (record { command = refl; host = refl; topic_fits = omega arith; id_fits = omega arith })
      (record {
        fits = omega arith;
        not_1 = λ e. omega arith;
        not_2 = λ e. omega arith;
        not_3 = λ e. omega arith;
      })

connect_with_will :
    (serialize x86 joining_with_will).0
    ≡ 0x10 ∷ 26 ∷ 0 ∷ 4 ∷ b'M' ∷ b'Q' ∷ b'T' ∷ b'T' ∷ 4 ∷ 0xEE ∷ 0 ∷ 60 ∷ 0 ∷ 2 ∷ b'm' ∷ b'e' ∷ 0
      ∷ 0 ∷ b't' ∷ 0 ∷ 0 ∷ b'w' ∷ 0 ∷ 0 ∷ b'u' ∷ 0 ∷ 0 ∷ b'p' ∷ []
unfolding message_of_type set_will set_credentials byte_bauble encode_length
connect_with_will =
    serialize-connect x86 joining_with_will refl
      (record {
        command = refl;
        version = refl;
        host = refl;
        fresh = refl;
        id_fits = omega arith;
        topic_fits = omega arith;
        will_fits = omega arith;
        password_fits = omega arith;
      })
      (record {
        fits = omega arith;
        not_1 = λ e. omega arith;
        not_2 = λ e. omega arith;
        not_3 = λ e. omega arith;
      })

ping_bytes : (serialize sparc ping).0 ≡ 0xC0 ∷ 0 ∷ []
unfolding message_of_type
ping_bytes = serialize_bare sparc ping mqtt_pingreq refl tt refl

connack_bytes : (serialize x86 accepting).0 ≡ 0x20 ∷ 2 ∷ 0 ∷ 0 ∷ []
unfolding message_of_type
connack_bytes = serialize_connack x86 accepting refl refl refl

big_endian_length :
    output_of sparc (record { b0 = 0x30; var_header = 0 ∷ 1 ∷ b'a' ∷ []; payload = b'h' ∷ [] })
    ≡ 0x30 ∷ 0 ∷ 0 ∷ 1 ∷ b'a' ∷ b'h' ∷ []
big_endian_length =
    output_of_big_endian sparc
      (record { b0 = 0x30; var_header = 0 ∷ 1 ∷ b'a' ∷ []; payload = b'h' ∷ [] }) refl (omega arith)
