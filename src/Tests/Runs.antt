-- ===== src/Tests/Runs.antt =====
-- Runs of the message code.
use nymph_mqtt.Common.{ℕ, ◌≡◌, refl, Bool, true, false, List, [], ◌∷◌}
use nymph_mqtt.ByteBauble.{
  set_bit, copy_bits, read_loop, read_packed_int, write_loop, write_packed_int,
}
use nymph_mqtt.ByteBauble.Endian.{bb_le, byte_bauble, to_global, to_host, flip, bswap16}
use nymph_mqtt.Message.{NmqttMessage, new_message, message_of_type}
use nymph_mqtt.Message.Exec.{ok, failed, Exec, widen, read16, load16, char_at, substr, substr_from}
use nymph_mqtt.Tests.Objects.{junk, x86, publisher}
use nymph_mqtt.Message.Parse.{
  read_flags, packet_type_of, parse_publish_tail, qos_cnt, skip_properties, read_payload,
  parse_message, parse_rest, parse_body, parse_publish,
}
use nymph_mqtt.Message.Serialize.{
  serialize, output_of, serialize_body, publish_b0, publish_header, u16_field, publish_id,
  zero_property,
}

abbrev result_of : Exec NmqttMessage → List ℕ × List ℕ × Bool
result_of (ok m) = (m.topic, m.payload, m.parse_good)
result_of (failed m) = (1 ∷ [], [], m.parse_good)
result_of Exec.out_of_range = (2 ∷ [], [], false)
result_of Exec.undefined = (3 ∷ [], [], false)

hello : List ℕ
hello =
    0x30 ∷ 0x13 ∷ 0x00 ∷ 0x04 ∷ b'a' ∷ b'/' ∷ b'h' ∷ b'i' ∷ 0x00 ∷ b'H' ∷ b'e' ∷ b'l' ∷ b'l' ∷ b'o'
    ∷ b' ' ∷ b'W' ∷ b'o' ∷ b'r' ∷ b'l' ∷ b'd' ∷ b'!' ∷ []

parse_hello : result_of (parse_message x86 (new_message bb_le junk) hello) ≡ (
  b'a' ∷ b'/' ∷ b'h' ∷ b'i' ∷ [],
  0x00 ∷ b'H' ∷ b'e' ∷ b'l' ∷ b'l' ∷ b'o' ∷ b' ' ∷ b'W' ∷ b'o' ∷ b'r' ∷ b'l' ∷ b'd' ∷ b'!' ∷ [],
  true,
)
unfolding hello parse_message parse_rest parse_body parse_publish new_message byte_bauble to_host
    flip bswap16 read_packed_int read_loop copy_bits set_bit widen read_flags packet_type_of read16
    char_at substr parse_publish_tail qos_cnt skip_properties load16 read_payload substr_from
parse_hello = refl

publish_hi : (serialize x86 publisher).0 ≡ 0x30 ∷ 5 ∷ 0 ∷ 1 ∷ b'a' ∷ b'h' ∷ b'i' ∷ []
unfolding serialize message_of_type byte_bauble to_global flip bswap16 write_packed_int write_loop
    copy_bits set_bit output_of serialize_body publish_b0 publish_header u16_field publish_id
    zero_property
publish_hi = refl
