-- ===== src/ByteBauble.antt =====
-- src/cpp/bytebauble.cpp: packed integers.
pub mod Endian
pub mod Copies
pub mod Write
pub mod Read
pub mod RoundTrip
use nymph_mqtt.Common.{
  ℕ, zero, suc, ◌+◌, ◌*◌, ◌/◌, ◌%◌, ◌^◌, Bool, true, false, bit_or, ltb, leb, ◌==◌, List, [], ◌∷◌,
  if◌then◌else◌,
}

-- `(value >> i) & 1UL`, as a condition.
abbrev pub bit : ℕ → ℕ → Bool
bit value i = value / 2 ^ i % 2 == 1

-- The locals of a copying loop: the result, the index into it, the index into the source.
pub record Copy : Type 0 where
  pub output : ℕ
  pub idx : ℕ
  pub src : ℕ

abbrev pub start : Copy
start = record { output = 0; idx = 0; src = 0 }

-- `output |= (1UL << idx++)` into a uint32_t.
unfoldable pub set_bit : Copy → Copy
set_bit c = record c { output = bit_or c.output (2 ^ c.idx) % 2 ^ 32; idx = c.idx + 1 }

-- The inner loop, with the rounds left: both functions have it.
unfoldable pub copy_bits : ℕ → ℕ → Copy → Copy
copy_bits zero value c = c
copy_bits (suc n) value c =
    let taken = record c { src = c.src + 1 } in
    copy_bits n value (if bit value c.src then set_bit taken else record taken { idx = c.idx + 1 })

-- The outer loop of `readPackedInt`, with the rounds left: `i` on leaving it, and `output`.
unfoldable pub read_loop : ℕ → ℕ → ℕ → Copy → ℕ × ℕ
read_loop zero packed i c = (i, c.output)
read_loop (suc n) packed i c =
    let d = copy_bits 7 packed c in
    let next = read_loop n packed (i + 1) (record d { src = d.src + 1 }) in
    if bit packed d.src then next else (i, d.output)

-- The number of bytes, and `output`.
unfoldable pub read_packed_int : ℕ → ℕ × ℕ
read_packed_int packed = let (i, output) = read_loop 4 packed 0 start in (i + 1, output)

unfoldable pub total_bytes : ℕ → ℕ
total_bytes integer =
    if leb integer 0x80
    then 1
    else if leb integer 0x4000
    then 2
    else if leb integer 0x200000
    then 3
    else if leb integer 0x10000000
    then 4
    else 0

unfoldable pub write_loop : ℕ → ℕ → ℕ → ℕ → Copy → ℕ
write_loop zero total integer i c = c.output
write_loop (suc n) total integer i c =
    let d = copy_bits 7 integer c in
    write_loop n total integer (i + 1) (if ltb (i + 1) total then set_bit d else d)

-- The number of bytes, and `output`, which an integer out of range leaves as it was.
unfoldable pub write_packed_int : ℕ → ℕ → ℕ × ℕ
unfolding total_bytes
write_packed_int integer output =
    let total = total_bytes integer in
    if total == 0 then (0, output) else (total, write_loop total total integer 0 start)
