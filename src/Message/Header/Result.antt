-- ===== src/Message/Header/Result.antt =====
-- What `parseHeader` reports of a buffer of five bytes.
use nymph_mqtt.Common.{
  ℕ, ◌+◌, ◌≡◌, min, not, [], ◌∷◌, ltb, ◌==◌, if◌then◌else◌, arith, Bool-cases, inl, inr,
}
use nymph_mqtt.ByteBauble.{bit}
use nymph_mqtt.ByteBauble.Endian.{bb_le}
use nymph_mqtt.ByteBauble.Read.{IsByte, decode_length, read_packed_int-decode_length}
use nymph_mqtt.Message.Header.{Header, corrupted, more_needed, parsed, load32, parse_header}

-- The report on the first `len` bytes, from the length and the value that the decoding rule gives to
-- the bytes behind the first.
abbrev pub header_of : ℕ → ℕ → ℕ → ℕ × ℕ → Header
header_of len msglen idx (n, v) =
    if ltb len 2
    then record { code = corrupted; msglen = msglen; idx = idx }
    else if ltb len (min n 4 + 1)
    then record { code = more_needed; msglen = msglen; idx = len }
    else if n == 5
    then record { code = corrupted; msglen = msglen; idx = 5 }
    else record { code = parsed; msglen = v; idx = n + 1 }

top_bit : (b : ℕ) → IsByte b → bit b 7 ≡ not (ltb b 128)
top_bit b h = ground arith

-- On a little-endian host `parseHeader` asks for more bytes exactly if the length that `len` bytes hold
-- goes on behind them, reports a fifth length byte as corrupted, and else gives the remaining length
-- and the index behind it.
pub parse_header-header_of :
    (h b1 b2 b3 b4 len msglen idx : ℕ)
    → IsByte b1
    → IsByte b2
    → IsByte b3
    → IsByte b4
    → parse_header bb_le (h ∷ b1 ∷ b2 ∷ b3 ∷ b4 ∷ []) len msglen idx
      ≡ header_of len msglen idx (decode_length (b1 ∷ b2 ∷ b3 ∷ b4 ∷ []))
unfolding parse_header load32
parse_header-header_of h b1 b2 b3 b4 len msglen idx h1 h2 h3 h4 =
    rw
      (
        read_packed_int-decode_length b1 b2 b3 b4 h1 h2 h3 h4,
        top_bit b1 h1,
        top_bit b2 h2,
        top_bit b3 h3,
        top_bit b4 h4,
      )
      (elim (Bool-cases (ltb b1 128)) [
        | inl e1 ↦ rw e1 (ground arith)
        | inr e1 ↦ elim (Bool-cases (ltb b2 128)) [
          | inl e2 ↦ rw (e1, e2) (ground arith)
          | inr e2 ↦ elim (Bool-cases (ltb b3 128)) [
            | inl e3 ↦ rw (e1, e2, e3) (ground arith)
            | inr e3 ↦ elim (Bool-cases (ltb b4 128)) [
              | inl e4 ↦ rw (e1, e2, e3, e4) (ground arith)
              | inr e4 ↦ rw (e1, e2, e3, e4) (ground arith)
            ]
          ]
        ]
      ])
