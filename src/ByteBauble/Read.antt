-- ===== src/ByteBauble/Read.antt =====
-- `readPackedInt` against the decoding of an MQTT variable byte integer.
use nymph_mqtt.Common.{
  ℕ, zero, suc, ◌+◌, ◌*◌, ◌/◌, ◌%◌, ◌^◌, ◌≤◌, ◌<◌, ◌≡◌, refl, arith, List, [], ◌∷◌, not, ltb,
  if◌then◌else◌, Bool-cases, inl, inr,
}
use nymph_mqtt.ByteBauble.{bit, start, read_loop, read_packed_int}
use nymph_mqtt.ByteBauble.Copies.{copy_bits_lem}

-- The bytes of a 32-bit word, lowest first.
abbrev pub word : ℕ → ℕ → ℕ → ℕ → ℕ
word b0 b1 b2 b3 = b0 + 256 * b1 + 65536 * b2 + 16777216 * b3

abbrev pub IsByte : ℕ → Type 0
IsByte b = b < 256

-- The decoding rule of the MQTT standard: seven bits from a byte, lowest first, and the top bit
-- announces another byte. The length counts the byte that is missing where the input ends too soon.
abbrev pub decode_length : List ℕ → ℕ × ℕ
decode_length [] = (1, 0)
decode_length (b ∷ bs) =
    let (n, v) = decode_length bs in if ltb b 128 then (1, b) else (n + 1, b % 128 + 128 * v)

-- One round of the outer loop.
read_round :
    (n packed i o j s : ℕ)
    → o < 2 ^ j
    → j + 7 ≤ 32
    → read_loop (suc n) packed i (record { output = o; idx = j; src = s }) ≡ (
        let o' = o + packed / 2 ^ s % 2 ^ 7 * 2 ^ j in
        if bit packed (s + 7)
        then read_loop n packed (i + 1) (record { output = o'; idx = j + 7; src = s + 7 + 1 })
        else (i, o'))
unfolding read_loop
read_round n packed i o j s h hj = rw (copy_bits_lem 7 packed o j s h hj)

-- The value that the first bytes of a word hold.
abbrev value_of : ℕ → ℕ → ℕ
value_of w zero = 0
value_of w (suc k) = value_of w k + w / 2 ^ (8 * k) % 2 ^ 7 * 2 ^ (7 * k)

read_rounds :
    (w : ℕ)
    → read_loop 4 w 0 start ≡ (
        if bit w 7
        then if bit w 15
          then if bit w 23
            then if bit w 31 then (4, value_of w 4) else (3, value_of w 4)
            else (2, value_of w 3)
          else (1, value_of w 2)
        else (0, value_of w 1))
read_rounds w =
    rw
      (
        read_round 3 w 0 0 0 0 (omega arith) (omega arith),
        read_round 2 w 1 (value_of w 1) 7 8 (omega arith) (omega arith),
        read_round 1 w 2 (value_of w 2) 14 16 (omega arith) (omega arith),
        read_round 0 w 3 (value_of w 3) 21 24 (omega arith) (omega arith),
      )
      (unfold read_loop in refl)

top_bits :
    (b0 b1 b2 b3 : ℕ)
    → IsByte b0
    → IsByte b1
    → IsByte b2
    → IsByte b3
    → let w = word b0 b1 b2 b3 in
      (bit w 7 ≡ not (ltb b0 128))
      × (bit w 15 ≡ not (ltb b1 128))
      × (bit w 23 ≡ not (ltb b2 128))
      × (bit w 31 ≡ not (ltb b3 128))
top_bits b0 b1 b2 b3 h0 h1 h2 h3 = (ground arith, ground arith, ground arith, ground arith)

values :
    (b0 b1 b2 b3 : ℕ)
    → IsByte b0
    → IsByte b1
    → IsByte b2
    → IsByte b3
    → let w = word b0 b1 b2 b3 in
      (value_of w 1 ≡ b0 % 128)
      × (value_of w 2 ≡ b0 % 128 + 128 * (b1 % 128))
      × (value_of w 3 ≡ b0 % 128 + 128 * (b1 % 128 + 128 * (b2 % 128)))
      × (value_of w 4 ≡ b0 % 128 + 128 * (b1 % 128 + 128 * (b2 % 128 + 128 * (b3 % 128))))
values b0 b1 b2 b3 h0 h1 h2 h3 = (omega arith, omega arith, omega arith, omega arith)

-- `readPackedInt` decodes the bytes of a 32-bit word, lowest first, by the standard's rule.
pub read_packed_int-decode_length :
    (b0 b1 b2 b3 : ℕ)
    → IsByte b0
    → IsByte b1
    → IsByte b2
    → IsByte b3
    → read_packed_int (word b0 b1 b2 b3) ≡ decode_length (b0 ∷ b1 ∷ b2 ∷ b3 ∷ [])
unfolding read_packed_int
read_packed_int-decode_length b0 b1 b2 b3 h0 h1 h2 h3 =
    let (t0, t1, t2, t3) = top_bits b0 b1 b2 b3 h0 h1 h2 h3 in
    let (v1, v2, v3, v4) = values b0 b1 b2 b3 h0 h1 h2 h3 in
    rw (read_rounds (word b0 b1 b2 b3), t0, t1, t2, t3, v4, v3, v2, v1)
      (elim (Bool-cases (ltb b0 128)) [
        | inl e0 ↦ rw e0 (ground arith)
        | inr e0 ↦ elim (Bool-cases (ltb b1 128)) [
          | inl e1 ↦ rw (e0, e1) (ground arith)
          | inr e1 ↦ elim (Bool-cases (ltb b2 128)) [
            | inl e2 ↦ rw (e0, e1, e2) (ground arith)
            | inr e2 ↦ elim (Bool-cases (ltb b3 128)) [
              | inl e3 ↦ rw (e0, e1, e2, e3) (ground arith)
              | inr e3 ↦ rw (e0, e1, e2, e3) (ground arith)
            ]
          ]
        ]
      ])
