-- ===== src/ByteBauble/Endian.antt =====
-- src/cpp/bytebauble.h, and `detectHostEndian` of src/cpp/bytebauble.cpp: byte order.
pub mod Layout
use mathlib.Core.List.{reverse}
use nymph_mqtt.Common.{
  ℕ, zero, suc, ◌+◌, ◌*◌, ◌/◌, ◌%◌, ◌^◌, Bool, true, false, ◌==◌, List, [], ◌∷◌, ◌++◌, get_or,
  if◌then◌else◌,
}

pub data BbEndianness : Type 0 where
  bb_be bb_le : BbEndianness

abbrev pub same : BbEndianness → BbEndianness → Bool
same bb_be bb_be = true
same bb_be bb_le = false
same bb_le bb_be = false
same bb_le bb_le = true

-- The lowest `n` bytes of a value, lowest first.
abbrev pub low_bytes : ℕ → ℕ → List ℕ
low_bytes zero v = []
low_bytes (suc n) v = (v % 256) ∷ low_bytes n (v / 256)

-- The memory of a host that holds an unsigned value of `n` bytes.
abbrev pub store : BbEndianness → ℕ → ℕ → List ℕ
store bb_le n v = low_bytes n v
store bb_be n v = reverse (low_bytes n v)

unfoldable pub bswap16 : ℕ → ℕ
bswap16 v = v % 256 * 256 + v / 256 % 256

unfoldable pub bswap32 : ℕ → ℕ
bswap32 v = bswap16 (v % 2 ^ 16) * 2 ^ 16 + bswap16 (v / 2 ^ 16)

unfoldable pub bswap64 : ℕ → ℕ
bswap64 v = bswap32 (v % 2 ^ 32) * 2 ^ 32 + bswap32 (v / 2 ^ 32)

pub record ByteBauble : Type 0 where
  pub global_endian : BbEndianness
  pub host_endian : BbEndianness

-- `bytes` is the memory that the host keeps the 16-bit 1 in.
abbrev pub detect_host_endian : List ℕ → BbEndianness
detect_host_endian bytes = if get_or bytes 0 0 == 1 then bb_le else bb_be

-- A new object on a host of the given byte order.
unfoldable pub byte_bauble : BbEndianness → ByteBauble
byte_bauble host = record {
  global_endian = bb_le;
  host_endian = detect_host_endian (store host 2 1);
}

abbrev pub set_global_endianness : ByteBauble → BbEndianness → ByteBauble
set_global_endianness b end = record b { global_endian = end }

-- The conversion by the size of the type, which both templates end in.
unfoldable pub flip : ℕ → ℕ → ℕ
flip bytesize v =
    if bytesize == 2
    then bswap16 v
    else if bytesize == 4
    then bswap32 v
    else if bytesize == 8
    then bswap64 v
    else 0

-- `toGlobal<T>` where T has `bytesize` bytes.
unfoldable pub to_global : ByteBauble → ℕ → ℕ → BbEndianness → ℕ
to_global b bytesize v end = if same end b.global_endian then v else flip bytesize v

unfoldable pub to_host : ByteBauble → ℕ → ℕ → BbEndianness → ℕ
to_host b bytesize v end = if same end b.host_endian then v else flip bytesize v
