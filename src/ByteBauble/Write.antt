-- ===== src/ByteBauble/Write.antt =====
-- `writePackedInt` against the encoding of an MQTT variable byte integer.
use nymph_mqtt.Common.{
  ℕ, zero, suc, ◌+◌, ◌*◌, ◌/◌, ◌%◌, ◌^◌, ◌≤◌, ◌<◌, ◌≡◌, arith, List, [], ◌∷◌, ltb, if◌then◌else◌,
  ◌≢◌, ◌∙◌, lt→ltb, length,
}
use nymph_mqtt.ByteBauble.{start, write_loop, write_packed_int}
use nymph_mqtt.ByteBauble.Copies.{copy_bits_lem, set_bit-add}

-- The encoding rule of the MQTT standard, for a value below 128 ^ (k + 1): seven bits to a byte,
-- lowest first, and the top bit on every byte but the last.
unfoldable pub encode_length : ℕ → ℕ → List ℕ
encode_length zero v = v ∷ []
encode_length (suc k) v =
    let rest = encode_length k (v / 128) in if ltb v 128 then v ∷ [] else (v % 128 + 128) ∷ rest

-- The number that a string of bytes is in memory, lowest byte first.
abbrev pub from_bytes : List ℕ → ℕ
from_bytes [] = 0
from_bytes (b ∷ bs) = b + 256 * from_bytes bs

-- The integers of 28 bits, less those at which the comparisons of `writePackedInt` take a byte too
-- few.
pub record IsEncodable (n : ℕ) : Type 0 where
  pub fits : n < 2 ^ 28
  pub not_1 : n ≢ 0x80
  pub not_2 : n ≢ 0x4000
  pub not_3 : n ≢ 0x200000

last_round :
    (total n i o j s : ℕ)
    → o < 2 ^ j
    → j + 7 ≤ 32
    → total ≤ i + 1
    → write_loop 1 total n i (record { output = o; idx = j; src = s })
      ≡ o + n / 2 ^ s % 2 ^ 7 * 2 ^ j
unfolding write_loop
last_round total n i o j s h hj last = rw (copy_bits_lem 7 n o j s h hj, write_loop) (ground arith)

inner_round :
    (total r n i o j s : ℕ)
    → o + n / 2 ^ s % 2 ^ 7 * 2 ^ j < 2 ^ (j + 7)
    → o < 2 ^ j
    → j + 7 < 32
    → i + 1 < total
    → write_loop (suc r) total n i (record { output = o; idx = j; src = s })
      ≡ write_loop r total n (i + 1) (record {
        output = o + n / 2 ^ s % 2 ^ 7 * 2 ^ j + 2 ^ (j + 7);
        idx = j + 7 + 1;
        src = s + 7;
      })
unfolding write_loop
inner_round total r n i o j s hh h hj more =
    rw (copy_bits_lem 7 n o j s h (omega arith), lt→ltb (i + 1) total more, write_loop)
      (rw (set_bit-add (o + n / 2 ^ s % 2 ^ 7 * 2 ^ j) (j + 7) (s + 7) hh hj))

abbrev group_of : ℕ → ℕ → ℕ
group_of n k = n / 2 ^ (7 * k) % 2 ^ 7

write_1 : (n : ℕ) → write_loop 1 1 n 0 start ≡ group_of n 0
write_1 n = last_round 1 n 0 0 0 0 (omega arith) (omega arith) (omega arith) ∙ omega arith

write_2 : (n : ℕ) → write_loop 2 2 n 0 start ≡ group_of n 0 + 128 + 256 * group_of n 1
write_2 n =
    inner_round 2 1 n 0 0 0 0 (omega arith) (omega arith) (omega arith) (omega arith)
    ∙ last_round 2 n 1 _ 8 7 (omega arith) (omega arith) (omega arith)
    ∙ omega arith

write_3 :
    (n : ℕ)
    → write_loop 3 3 n 0 start
      ≡ group_of n 0 + 128 + 256 * (group_of n 1 + 128 + 256 * group_of n 2)
write_3 n =
    inner_round 3 2 n 0 0 0 0 (omega arith) (omega arith) (omega arith) (omega arith)
    ∙ inner_round 3 1 n 1 _ 8 7 (omega arith) (omega arith) (omega arith) (omega arith)
    ∙ last_round 3 n 2 _ 16 14 (omega arith) (omega arith) (omega arith)
    ∙ omega arith

write_4 :
    (n : ℕ)
    → write_loop 4 4 n 0 start
      ≡ group_of n 0
        + 128
        + 256 * (group_of n 1 + 128 + 256 * (group_of n 2 + 128 + 256 * group_of n 3))
write_4 n =
    inner_round 4 3 n 0 0 0 0 (omega arith) (omega arith) (omega arith) (omega arith)
    ∙ inner_round 4 2 n 1 _ 8 7 (omega arith) (omega arith) (omega arith) (omega arith)
    ∙ inner_round 4 1 n 2 _ 16 14 (omega arith) (omega arith) (omega arith) (omega arith)
    ∙ last_round 4 n 3 _ 24 21 (omega arith) (omega arith) (omega arith)
    ∙ omega arith

-- For every integer of 28 bits but 0x80, 0x4000 and 0x200000, `writePackedInt` returns the number of
-- bytes of its MQTT encoding, and puts those bytes into `output`, lowest first.
pub write_packed_int-encode_length :
    (n output : ℕ)
    → IsEncodable n
    → write_packed_int n output ≡ (length (encode_length 3 n), from_bytes (encode_length 3 n))
unfolding write_packed_int encode_length
write_packed_int-encode_length n output h =
    ground (arith, write_1 n, write_2 n, write_3 n, write_4 n)

-- Beyond 0x10000000 no byte is written, and `output` is left alone.
pub write_packed_int_out_of_range :
    (n output : ℕ) → 0x10000000 < n → write_packed_int n output ≡ (0, output)
unfolding write_packed_int
write_packed_int_out_of_range n output h = ground arith
