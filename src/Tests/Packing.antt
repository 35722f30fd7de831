-- ===== src/Tests/Packing.antt =====
-- Instances of the theorems on packed integers and byte orders.
use nymph_mqtt.Common.{◌≡◌, refl, [], ◌∷◌, inl, inr, arith}
use nymph_mqtt.ByteBauble.{read_packed_int, write_packed_int}
use nymph_mqtt.ByteBauble.Endian.{bb_be, bb_le, store, byte_bauble, to_global, to_host}
use nymph_mqtt.ByteBauble.Endian.Layout.{
  byte_bauble_detects, big_endian, store-to_global, to_host-to_global,
}
use nymph_mqtt.ByteBauble.Read.{word, decode_length, read_packed_int-decode_length}
use nymph_mqtt.ByteBauble.Write.{
  IsEncodable, encode_length, write_packed_int-encode_length, write_packed_int_out_of_range,
}
use nymph_mqtt.ByteBauble.RoundTrip.{
  read_packed_int-write_packed_int, read_packed_int-write_packed_int_boundary,
}
use nymph_mqtt.Message.Header.{parse_header}
use nymph_mqtt.Message.Header.Result.{header_of, parse_header-header_of}

abbrev encodable_321 : IsEncodable 321
encodable_321 = record {
  fits = omega arith;
  not_1 = λ e. omega arith;
  not_2 = λ e. omega arith;
  not_3 = λ e. omega arith;
}

read_321 : read_packed_int (word 0xC1 0x02 0 0) ≡ decode_length (0xC1 ∷ 0x02 ∷ 0 ∷ 0 ∷ [])
read_321 =
    read_packed_int-decode_length 0xC1 0x02 0 0 (omega arith) (omega arith) (omega arith)
      (omega arith)

write_321 : write_packed_int 321 0 ≡ (2, 0x02C1)
unfolding encode_length
write_321 = write_packed_int-encode_length 321 0 encodable_321

write_then_read_321 : read_packed_int (write_packed_int 321 5).1 ≡ ((write_packed_int 321 5).0, 321)
write_then_read_321 = read_packed_int-write_packed_int 321 5 encodable_321

lost_16384 : (read_packed_int (write_packed_int 0x4000 0).1).1 ≡ 0
lost_16384 = read_packed_int-write_packed_int_boundary 0x4000 0 (inr (inl refl))

not_written : write_packed_int 0x10000001 17 ≡ (0, 17)
not_written = write_packed_int_out_of_range 0x10000001 17 (omega arith)

topic_length_bytes :
    store bb_le 2 (to_global (big_endian bb_le) 2 0x0102 (big_endian bb_le).host_endian)
    ≡ 1 ∷ 2 ∷ []
topic_length_bytes = store-to_global bb_le 0x0102 (omega arith)

swapped_and_back :
    to_host
      (big_endian bb_le)
      4
      (to_global (big_endian bb_le) 4 0x01020304 (big_endian bb_le).host_endian)
      (big_endian bb_le).global_endian
    ≡ 0x01020304
swapped_and_back = to_host-to_global (big_endian bb_le) 4 0x01020304 (inr (inl refl)) (omega arith)

detects_big : (byte_bauble bb_be).host_endian ≡ bb_be
detects_big = byte_bauble_detects bb_be

header_321 :
    parse_header bb_le (0x30 ∷ 0xC1 ∷ 0x02 ∷ 0 ∷ 0 ∷ []) 5 0 0
    ≡ header_of 5 0 0 (decode_length (0xC1 ∷ 0x02 ∷ 0 ∷ 0 ∷ []))
header_321 =
    parse_header-header_of 0x30 0xC1 0x02 0 0 5 0 0 (omega arith) (omega arith) (omega arith)
      (omega arith)
