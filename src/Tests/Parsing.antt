-- ===== src/Tests/Parsing.antt =====
-- Instances of the theorems on parsed messages.
use nymph_mqtt.Common.{
  ℕ, ◌≡◌, refl, true, false, [], ◌∷◌, ◌++◌, length-replicate, replicate, inr, arith,
}
use nymph_mqtt.ByteBauble.Endian.{byte_bauble}
use nymph_mqtt.Message.{mqtt_connack, mqtt_pingreq, new_message, message_of_type}
use nymph_mqtt.Message.Exec.{ok, out_of_range, widen}
use nymph_mqtt.Message.Packet.{big16, packet, flag}
use nymph_mqtt.Message.Parse.{read_connect_flags, parse_message}
use nymph_mqtt.Message.Parse.Length.{Refused, parse_message-packet_long, parse_message_wrong_length}
use nymph_mqtt.Message.Parse.Connect.{connect_bytes, parse_message-connect-Refused}
use nymph_mqtt.Message.Parse.Marks.{Marked, parse_message-Marked}
use nymph_mqtt.Message.Parse.Malformed.{parse_message-publish_overrun, parse_message-connack}
use nymph_mqtt.Message.Serialize.{serialize}
use nymph_mqtt.Message.Serialize.Connect.{connect_byte}
use nymph_mqtt.Message.RoundTrip.Publish.{received, parse_message-serialize_publish}
use nymph_mqtt.Message.RoundTrip.Bare.{received_bare, parse_message-serialize_bare}
use nymph_mqtt.Message.RoundTrip.Connect.{
  read_connect_flags-connect_byte, received_connect, parse_message-serialize_connect,
}
use nymph_mqtt.Tests.Objects.{x86, sparc, receiver, acknowledged, joining, joining_with_will, ping}

publish_arrives :
    parse_message x86 receiver (serialize x86 acknowledged).0 ≡ ok (received receiver acknowledged)
unfolding new_message message_of_type byte_bauble
publish_arrives =
    parse_message-serialize_publish x86 receiver acknowledged refl
      (record { command = refl; host = refl; topic_fits = omega arith; id_fits = omega arith }) refl
      refl (omega arith)

connect_arrives :
    parse_message sparc receiver (serialize x86 joining).0
    ≡ ok (received_connect receiver joining 14)
unfolding new_message message_of_type byte_bauble
connect_arrives =
    parse_message-serialize_connect x86 sparc receiver joining refl
      (record {
        command = refl;
        version = refl;
        host = refl;
        fresh = refl;
        id_fits = omega arith;
        topic_fits = omega arith;
        will_fits = omega arith;
        password_fits = omega arith;
      })
      refl refl refl (omega arith)

ping_arrives :
    parse_message x86 receiver (serialize sparc ping).0 ≡ ok (received_bare receiver mqtt_pingreq)
unfolding message_of_type
ping_arrives = parse_message-serialize_bare sparc x86 receiver ping mqtt_pingreq refl tt refl

flags_arrive : read_connect_flags receiver (connect_byte joining_with_will) ≡ record receiver {
  clean_session_flag = joining_with_will.clean_session_flag;
  will_flag = joining_with_will.will_flag;
  will_retain_flag = joining_with_will.will_retain_flag;
  username_flag = joining_with_will.username_flag;
  password_flag = joining_with_will.password_flag;
  will_qos = flag joining_with_will.will_qos1;
}
flags_arrive = read_connect_flags-connect_byte joining_with_will receiver

long-Refused : Refused (parse_message x86 receiver (packet 0x30 (replicate 200 7)))
long-Refused =
    parse_message-packet_long x86 receiver 0x30 (replicate 200 7)
      (omega (arith, length-replicate {A = ℕ} 200 7))
      (omega (arith, length-replicate {A = ℕ} 200 7))

reserved_flag-Refused : Refused (
    parse_message x86 receiver
      (packet 0x10 (connect_bytes 0 4 b'M' b'Q' b'T' b'T' 4 3 (0 ∷ 60 ∷ 0 ∷ 0 ∷ []))))
reserved_flag-Refused =
    parse_message-connect-Refused x86 receiver 0 4 b'M' b'Q' b'T' b'T' 4 3 (0 ∷ 60 ∷ 0 ∷ 0 ∷ [])
      (omega arith) (inr (inr refl))

overrun_thrown :
    parse_message x86 receiver (packet 0x30 (big16 500 ++ (b'a' ∷ b'b' ∷ []))) ≡ out_of_range
unfolding new_message byte_bauble
overrun_thrown =
    parse_message-publish_overrun x86 receiver 500 (b'a' ∷ b'b' ∷ []) refl refl (omega arith)
      (omega arith) (omega arith)

connack_read :
    parse_message x86 receiver (packet 0x20 (0 ∷ 5 ∷ []))
    ≡ ok (record receiver {
      command = mqtt_connack;
      duplicate_message = false;
      retain_message = false;
      message_length = 2;
      parse_good = true;
      session_present = false;
      reason_code = 5;
    })
unfolding widen
connack_read = parse_message-connack x86 receiver (0 ∷ 5 ∷ []) (omega arith)

one_byte_too_many : Refused (parse_message x86 receiver (0xC0 ∷ 0 ∷ 1 ∷ []))
one_byte_too_many =
    parse_message_wrong_length x86 receiver 0xC0 0 (1 ∷ []) (omega arith) (λ e. omega arith)

cut_off-Marked : Marked (parse_message x86 receiver (0x10 ∷ 3 ∷ 0 ∷ 4 ∷ b'M' ∷ []))
cut_off-Marked = parse_message-Marked x86 receiver (0x10 ∷ 3 ∷ 0 ∷ 4 ∷ b'M' ∷ [])
