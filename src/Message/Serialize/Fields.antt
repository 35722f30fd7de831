-- ===== src/Message/Serialize/Fields.antt =====
-- The pieces that `serialize` puts together, against the standard's.
use nymph_mqtt.Common.{
  ℕ, ◌^◌, ◌≤◌, ◌<◌, ◌≡◌, refl, ap, List, [], ◌∷◌, ◌++◌, take, length, length-append, All, arith,
  if◌then◌else◌,
}
use native.Mathlib.Nat.{mod-eq_of_lt}
use nymph_mqtt.ByteBauble.Endian.{
  BbEndianness, bb_be, bb_le, store, low_bytes, same, to_global, flip, bswap16,
}
use nymph_mqtt.ByteBauble.Endian.Layout.{flip_size_t}
use nymph_mqtt.ByteBauble.Read.{IsByte}
use nymph_mqtt.ByteBauble.Write.{
  IsEncodable, from_bytes, encode_length, write_packed_int-encode_length,
}
use nymph_mqtt.ByteBauble.RoundTrip.{encode_length-IsByte, length-encode_length}
use nymph_mqtt.Message.{NmqttMessage, MqttPacketType}
use nymph_mqtt.Message.Exec.{Platform}
use nymph_mqtt.Message.Packet.{big16, packet}
use nymph_mqtt.Message.Serialize.{
  u16_field, size_t_field, Parts, serialize_body, output_of, prepared, serialize,
}

-- The object on its host, with the order set to big-endian.
pub record IsReady (p : Platform) (m : NmqttMessage) : Type 0 where
  pub global : m.bytebauble.global_endian ≡ bb_be
  pub host : m.bytebauble.host_endian ≡ p.host

swapped :
    (host : BbEndianness) (v : ℕ)
    → v < 2 ^ 16
    → store host 2 (if same host bb_be then v else flip 2 v) ≡ big16 v
unfolding flip bswap16
swapped bb_be v h = ground arith
swapped bb_le v h = ground arith

-- A field of a uint16_t is big-endian on every host.
pub u16_field-big16 :
    (p : Platform) (m : NmqttMessage) (v : ℕ) → IsReady p m → v < 2 ^ 16 → u16_field p m v ≡ big16 v
unfolding u16_field to_global
u16_field-big16 p m v ready h = rw (ready.global, ready.host, mod-eq_of_lt h) (swapped p.host v h)

-- A field of a size_t is zero on a little-endian host.
pub size_t_field_zero :
    (p : Platform) (m : NmqttMessage) (v : ℕ)
    → IsReady p m
    → p.host ≡ bb_le
    → v < 2 ^ 48
    → size_t_field p m v ≡ 0 ∷ 0 ∷ []
unfolding size_t_field to_global
size_t_field_zero p m v ready le h = rw (ready.global, ready.host, le, flip_size_t v h)

take-low_bytes :
    (bs : List ℕ)
    → All IsByte bs
    → length bs ≤ 4
    → take (length bs) (low_bytes 4 (from_bytes bs)) ≡ bs
take-low_bytes [] h k = refl
take-low_bytes (a ∷ []) h k = ground arith
take-low_bytes (a ∷ b ∷ []) h k = ground arith
take-low_bytes (a ∷ b ∷ c ∷ []) h k = ground arith
take-low_bytes (a ∷ b ∷ c ∷ d ∷ []) h k = ground arith
take-low_bytes (a ∷ b ∷ c ∷ d ∷ e ∷ r) h k = absurd (omega arith)

-- On a little-endian host the parts become a packet of the standard.
pub output_of-packet :
    (p : Platform) (parts : Parts)
    → p.host ≡ bb_le
    → IsEncodable (length (parts.var_header ++ parts.payload))
    → output_of p parts ≡ packet parts.b0 (parts.var_header ++ parts.payload)
unfolding output_of
output_of-packet p parts le fits =
    let body : List ℕ = parts.var_header ++ parts.payload in
    let n : ℕ = length body in
    let (_, few) = length-encode_length 3 n in
    rw (
      ← length-append parts.var_header parts.payload,
      mod-eq_of_lt {n = n} {m = 2 ^ 32} (omega (arith, fits.fits)),
      write_packed_int-encode_length n 0 fits,
      le,
      take-low_bytes (encode_length 3 n) (encode_length-IsByte 3 n (omega (arith, fits.fits))) few,
    )

pub serialize_as :
    (p : Platform) (m : NmqttMessage) (type : MqttPacketType)
    → m.command ≡ type
    → (serialize p m).0 ≡ output_of p (serialize_body type p (prepared m))
unfolding serialize
serialize_as p m type e = ap (λ t. output_of p (serialize_body t p (prepared m))) e
