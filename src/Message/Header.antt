-- ===== src/Message/Header.antt =====
-- `parseHeader` of src/cpp/message.cpp.
pub mod Result
use nymph_mqtt.Common.{ℕ, ◌+◌, ◌*◌, Bool, ltb, List, get_or, if◌then◌else◌}
use nymph_mqtt.ByteBauble.{bit, read_packed_int}
use nymph_mqtt.ByteBauble.Endian.{BbEndianness, bb_be, bb_le}

-- The return codes -1, 0 and 1.
pub data HeaderCode : Type 0 where
  corrupted more_needed parsed : HeaderCode

-- What is returned, and the two arguments that are passed by reference.
pub record Header : Type 0 where
  pub code : HeaderCode
  pub msglen : ℕ
  pub idx : ℕ

-- `(buff[i] >> 7) & 1UL`.
abbrev pub follows : List ℕ → ℕ → Bool
follows buff i = bit (get_or buff i 0) 7

-- `*(uint32_t*) &buff[1]`.
unfoldable pub load32 : BbEndianness → List ℕ → ℕ
load32 bb_le buff =
    get_or buff 1 0 + 256 * get_or buff 2 0 + 65536 * get_or buff 3 0 + 16777216 * get_or buff 4 0
load32 bb_be buff =
    get_or buff 4 0 + 256 * get_or buff 3 0 + 65536 * get_or buff 2 0 + 16777216 * get_or buff 1 0

read_length : BbEndianness → List ℕ → Header
unfolding load32
read_length host buff =
    let (n, msglen) = read_packed_int (load32 host buff) in
    record { code = parsed; msglen = msglen; idx = n + 1 }

-- A buffer of five bytes, as both callers pass; `len` is what they say of it. `msglen` is the value
-- that comes in.
unfoldable pub parse_header : BbEndianness → List ℕ → ℕ → ℕ → ℕ → Header
unfolding read_length
parse_header host buff len msglen idx =
    let done : Header = read_length host buff in
    if ltb len 2
    then record { code = corrupted; msglen = msglen; idx = idx }
    else if follows buff 1
    then (if ltb len 3
        then record { code = more_needed; msglen = msglen; idx = 2 }
        else if follows buff 2
        then (if ltb len 4
            then record { code = more_needed; msglen = msglen; idx = 3 }
            else if follows buff 3
            then (if ltb len 5
                then record { code = more_needed; msglen = msglen; idx = 4 }
                else if follows buff 4
                then record { code = corrupted; msglen = msglen; idx = 5 }
                else done)
            else done)
        else done)
    else done
