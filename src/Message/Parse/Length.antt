-- ===== src/Message/Parse/Length.antt =====
-- How `parseMessage` reads the remaining length and tests it against the string.
use nymph_mqtt.Common.{
  ℕ, ◌+◌, ◌-◌, ◌/◌, ◌%◌, ◌^◌, ◌≤◌, ◌<◌, ◌≡◌, ◌≢◌, refl, ap, ◌∙◌, true, false, List, ◌∷◌, ◌++◌,
  length, length-append, arith, Bool-cases, inl, inr, ◌⊎◌, lt→ltb, le→ltb, le→leb, eq→==, ne→==,
}
use native.Mathlib.Nat.{mod-eq_of_lt}
use nymph_mqtt.ByteBauble.{read_packed_int}
use nymph_mqtt.ByteBauble.Read.{read_packed_int-decode_length}
use nymph_mqtt.ByteBauble.Write.{encode_length}
use nymph_mqtt.ByteBauble.RoundTrip.{length-encode_length}
use nymph_mqtt.Message.{NmqttMessage}
use nymph_mqtt.Message.Exec.{Platform, Exec, ok, failed, ◌>>=◌, widen}
use nymph_mqtt.Message.Packet.{packet}
use nymph_mqtt.Message.Parse.{read_flags, qos_cnt, parse_body, parse_rest, parse_message}

-- A length below 128 takes one byte.
pub read_packed_int_short : (n : ℕ) → n < 128 → read_packed_int n ≡ (1, n)
read_packed_int_short n h =
    ap read_packed_int (omega arith)
    ∙ read_packed_int-decode_length n 0 0 0 (omega arith) (omega arith) (omega arith) (omega arith)
    ∙ ground arith

pub widen_short : (p : Platform) (w n : ℕ) → n < 128 → widen p w n ≡ n
unfolding widen
widen_short p w n h = ground arith

abbrev pub finished : Exec NmqttMessage → Exec NmqttMessage
finished r = r >>= λ m. ok (record m { parse_good = true })

-- A string of the right length goes on to its variable header, at index 2.
pub parse_rest_short :
    (p : Platform) (m : NmqttMessage) (msg : List ℕ) (b0 n : ℕ)
    → n < 128
    → length msg ≡ n + 2
    → parse_rest p m msg b0 n
      ≡ finished (parse_body m.command p (record m { message_length = n }) msg 2 (qos_cnt b0))
unfolding parse_rest
parse_rest_short p m msg b0 n h e = rw (
  widen_short p 32 n h,
  read_packed_int_short n h,
  e,
  mod-eq_of_lt {n = 1 + 1 + n} {m = 2 ^ 32} (omega arith),
  eq→== (1 + 1 + n) (n + 2) (omega arith),
)

-- The object when its variable header is read: marked as not parsed, with the flags and the length.
abbrev pub opened : NmqttMessage → ℕ → ℕ → NmqttMessage
opened m b0 n = record (read_flags (record m { parse_good = false }) b0) { message_length = n }

pub parse_message_short :
    (p : Platform) (m : NmqttMessage) (b0 : ℕ) (body : List ℕ)
    → length body < 128
    → parse_message p m (b0 ∷ length body ∷ body)
      ≡ finished (
          parse_body
            (opened m b0 (length body)).command
            p
            (opened m b0 (length body))
            (b0 ∷ length body ∷ body)
            2
            (qos_cnt b0))
unfolding parse_message
parse_message_short p m b0 body h =
    rw (le→ltb (length (b0 ∷ length body ∷ body)) 2 (omega arith))
      (parse_rest_short p _ (b0 ∷ length body ∷ body) b0 (length body) h (omega arith))

pub short_packet :
    (b0 : ℕ) (body : List ℕ) → length body < 128 → packet b0 body ≡ b0 ∷ length body ∷ body
unfolding encode_length
short_packet b0 body h = rw (lt→ltb (length body) 128 h)

-- `return -1`: the object that is left is not marked as parsed.
abbrev pub Refused : Exec NmqttMessage → Type 0
Refused r = (m : NmqttMessage) × (r ≡ failed m) × (m.parse_good ≡ false)

parse_rest_mismatch :
    (p : Platform) (m : NmqttMessage) (msg : List ℕ) (b0 b1 k n : ℕ)
    → m.parse_good ≡ false
    → read_packed_int (widen p 32 b1) ≡ (k, n)
    → k + 1 + n < 2 ^ 32
    → length msg ≢ k + 1 + n
    → Refused (parse_rest p m msg b0 b1)
unfolding parse_rest
parse_rest_mismatch p m msg b0 b1 k n good e small ne = (
  record m { message_length = n },
  rw (
    e,
    mod-eq_of_lt {n = k + 1 + n} {m = 2 ^ 32} small,
    ne→== (k + 1 + n) (length msg) (λ h. ne (omega arith)),
  ),
  good,
)

-- The second byte alone, where it announces another: its sign is repeated, or zeros follow.
long_length :
    (p : Platform) (b1 : ℕ)
    → 128 ≤ b1
    → b1 < 256
    → (read_packed_int (widen p 32 b1) ≡ (5, 2 ^ 28 - 256 + b1))
      ⊎ (read_packed_int (widen p 32 b1) ≡ (2, b1 - 128))
unfolding widen
long_length p b1 lo hi = elim (Bool-cases p.char_signed) [
  | inl e ↦ inl (
      rw (e, le→leb 128 b1 lo)
        (ap read_packed_int (omega arith)
          ∙ read_packed_int-decode_length b1 255 255 255 hi (omega arith) (omega arith)
              (omega arith)
          ∙ ground arith))
  | inr e ↦ inr (
      rw e (
        ap read_packed_int (omega arith)
        ∙ read_packed_int-decode_length b1 0 0 0 hi (omega arith) (omega arith) (omega arith)
        ∙ ground arith))
]

-- A string whose second byte announces another length byte, and which is as long as such a packet is
-- but below 2 ^ 28 bytes, is refused on every platform.
parse_message_long :
    (p : Platform) (m : NmqttMessage) (b0 b1 : ℕ) (rest : List ℕ)
    → 128 ≤ b1
    → b1 < 256
    → 129 ≤ length rest
    → length rest < 2 ^ 28 - 256
    → Refused (parse_message p m (b0 ∷ b1 ∷ rest))
unfolding parse_message read_flags
parse_message_long p m b0 b1 rest lo hi long small =
    rw (le→ltb (length (b0 ∷ b1 ∷ rest)) 2 (omega arith)) (elim (long_length p b1 lo hi) [
      | inl e ↦
          parse_rest_mismatch p _ (b0 ∷ b1 ∷ rest) b0 b1 5 _ refl e (omega arith) (λ h. omega arith)
      | inr e ↦
          parse_rest_mismatch p _ (b0 ∷ b1 ∷ rest) b0 b1 2 _ refl e (omega arith) (λ h. omega arith)
    ])

-- `parseMessage` refuses every packet of the standard whose remaining length is 128 or more (below
-- 2 ^ 28 - 512), on every platform: it reads one byte of the length only.
pub parse_message-packet_long :
    (p : Platform) (m : NmqttMessage) (b0 : ℕ) (body : List ℕ)
    → 128 ≤ length body
    → length body < 2 ^ 28 - 512
    → Refused (parse_message p m (packet b0 body))
parse_message-packet_long p m b0 body lo hi =
    let n : ℕ = length body in
    let tail : List ℕ = encode_length 2 (n / 128) in
    let (some_bytes, few) = length-encode_length 2 (n / 128) in
    let first : encode_length 3 n ≡ (n % 128 + 128) ∷ tail =
      unfold encode_length in rw (le→ltb n 128 lo) in
    rw (first) (
      parse_message_long p m b0 (n % 128 + 128) (tail ++ body) (omega arith) (omega arith)
        (omega (arith, length-append tail body)) (omega (arith, length-append tail body)))

-- `parseMessage` refuses a string whose second byte is a length below 128 that is not the number of
-- bytes behind it.
pub parse_message_wrong_length :
    (p : Platform) (m : NmqttMessage) (b0 n : ℕ) (rest : List ℕ)
    → n < 128
    → length rest ≢ n
    → Refused (parse_message p m (b0 ∷ n ∷ rest))
unfolding parse_message read_flags
parse_message_wrong_length p m b0 n rest h ne =
    rw (le→ltb (length (b0 ∷ n ∷ rest)) 2 (omega arith)) (
      parse_rest_mismatch p _ (b0 ∷ n ∷ rest) b0 n 1 n refl
        (rw (widen_short p 32 n h) (read_packed_int_short n h)) (omega arith)
        (λ e. ne (omega arith)))
