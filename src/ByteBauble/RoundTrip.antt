-- ===== src/ByteBauble/RoundTrip.antt =====
-- `readPackedInt` after `writePackedInt`.
use nymph_mqtt.Common.{
  ℕ, zero, suc, ◌+◌, ◌/◌, ◌^◌, ◌≤◌, ◌<◌, ◌≡◌, arith, List, [], ◌∷◌, length, ◌⊎◌, inl, inr, ◌++◌, ap,
  ◌∙◌, All,
}
use nymph_mqtt.ByteBauble.{
  read_packed_int, write_packed_int, write_loop, read_loop, copy_bits, set_bit,
}
use nymph_mqtt.ByteBauble.Write.{
  IsEncodable, encode_length, from_bytes, write_packed_int-encode_length,
}
use nymph_mqtt.ByteBauble.Read.{IsByte, decode_length, read_packed_int-decode_length}

-- Decoding undoes encoding, whatever follows.
pub decode_length-encode_length :
    (k v : ℕ) (rest : List ℕ)
    → v < 128 ^ suc k
    → decode_length (encode_length k v ++ rest) ≡ (length (encode_length k v), v)
unfolding encode_length
decode_length-encode_length zero v rest h = ground arith
decode_length-encode_length (suc k) v rest h =
    ground (arith, decode_length-encode_length k (v / 128) rest (omega arith))

pub encode_length-IsByte : (k v : ℕ) → v < 128 ^ suc k → All IsByte (encode_length k v)
unfolding encode_length
encode_length-IsByte zero v h = omega arith
encode_length-IsByte (suc k) v h = ground (arith, encode_length-IsByte k (v / 128) (omega arith))

-- One to four bytes, filled up with zeros to a word.
read_bytes :
    (bs : List ℕ)
    → All IsByte bs
    → 0 < length bs
    → length bs ≤ 4
    → (zs : List ℕ) × (read_packed_int (from_bytes bs) ≡ decode_length (bs ++ zs))
read_bytes [] h p q = absurd (omega arith)
read_bytes (a ∷ []) h p q = (
  0 ∷ 0 ∷ 0 ∷ [],
  ap read_packed_int (omega arith)
      ∙ read_packed_int-decode_length a 0 0 0 (omega arith) (omega arith) (omega arith)
          (omega arith),
)
read_bytes (a ∷ b ∷ []) h p q = (
  0 ∷ 0 ∷ [],
  ap read_packed_int (omega arith)
      ∙ read_packed_int-decode_length a b 0 0 (omega arith) (omega arith) (omega arith)
          (omega arith),
)
read_bytes (a ∷ b ∷ c ∷ []) h p q = (
  0 ∷ [],
  ap read_packed_int (omega arith)
      ∙ read_packed_int-decode_length a b c 0 (omega arith) (omega arith) (omega arith)
          (omega arith),
)
read_bytes (a ∷ b ∷ c ∷ d ∷ []) h p q = (
  [],
  ap read_packed_int (omega arith)
      ∙ read_packed_int-decode_length a b c d (omega arith) (omega arith) (omega arith)
          (omega arith),
)
read_bytes (a ∷ b ∷ c ∷ d ∷ e ∷ r) h p q = absurd (omega arith)

pub length-encode_length :
    (k v : ℕ) → (0 < length (encode_length k v)) × (length (encode_length k v) ≤ k + 1)
unfolding encode_length
length-encode_length zero v = omega arith
length-encode_length (suc k) v = ground (arith, length-encode_length k (v / 128))

-- What `writePackedInt` made of an integer of 28 bits, other than 0x80, 0x4000 and 0x200000,
-- `readPackedInt` reads back, with the same number of bytes.
pub read_packed_int-write_packed_int :
    (n output : ℕ)
    → IsEncodable n
    → read_packed_int (write_packed_int n output).1 ≡ ((write_packed_int n output).0, n)
read_packed_int-write_packed_int n output h =
    let bs : List ℕ = encode_length 3 n in
    let (lo, hi) = length-encode_length 3 n in
    let (zs, e) = read_bytes bs (encode_length-IsByte 3 n (omega arith)) lo hi in
    rw (write_packed_int-encode_length n output h)
      (e ∙ decode_length-encode_length 3 n zs (omega arith))

-- At 0x80, 0x4000, 0x200000 and 0x10000000 the bits written do not hold the integer: it is read back
-- as 0.
pub read_packed_int-write_packed_int_boundary :
    (n output : ℕ)
    → (n ≡ 0x80) ⊎ (n ≡ 0x4000) ⊎ (n ≡ 0x200000) ⊎ (n ≡ 0x10000000)
    → (read_packed_int (write_packed_int n output).1).1 ≡ 0
unfolding read_packed_int write_packed_int write_loop read_loop copy_bits set_bit
read_packed_int-write_packed_int_boundary n output (inl e) = rw e
read_packed_int-write_packed_int_boundary n output (inr (inl e)) = rw e
read_packed_int-write_packed_int_boundary n output (inr (inr (inl e))) = rw e
read_packed_int-write_packed_int_boundary n output (inr (inr (inr e))) = rw e
