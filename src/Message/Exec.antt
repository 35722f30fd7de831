-- ===== src/Message/Exec.antt =====
-- How a run of `parseMessage` can go on, and the reads that it is made of.
use nymph_mqtt.Common.{
  ℕ, ◌+◌, ◌*◌, ◌-◌, ◌^◌, Bool, true, false, ◌&&◌, ltb, leb, ◌==◌, List, length, get_or, take, drop,
  if◌then◌else◌,
}
use nymph_mqtt.ByteBauble.Endian.{BbEndianness, bb_be, bb_le}
use nymph_mqtt.Message.{NmqttMessage}

-- What the language leaves to the platform: the byte order, and whether `char` is signed.
pub record Platform : Type 0 where
  pub host : BbEndianness
  pub char_signed : Bool

-- `failed m` is `return -1` with the object as it is left; `out_of_range` is the exception of
-- `std::string::substr`; `undefined` is a read outside a string.
pub data Exec {ℓ} (A : Type ℓ) : Type ℓ where
  ok : A → Exec A
  failed : NmqttMessage → Exec A
  out_of_range undefined : Exec A

infixl 5 ◌>>=◌ ◌>>◌
abbrev pub ◌>>=◌ {ℓ κ} : {A : Type ℓ} {B : Type κ} → Exec A → (A → Exec B) → Exec B
ok a >>= f = f a
failed m >>= f = failed m
out_of_range >>= f = out_of_range
undefined >>= f = undefined

abbrev pub ◌>>◌ {ℓ} : {B : Type ℓ} → Exec (Unit {0}) → Exec B → Exec B
m >> k = m >>= λ _. k

-- `if (!test) { return -1; }`.
abbrev pub require : Bool → NmqttMessage → Exec (Unit {0})
require true m = ok tt
require false m = failed m

-- `msg[i]`: a string ends in a zero that may be read.
unfoldable pub char_at : List ℕ → ℕ → Exec ℕ
char_at msg i =
    if ltb i (length msg) then ok (get_or msg i 0) else if i == length msg then ok 0 else undefined

-- `msg.substr(pos, n)`.
unfoldable pub substr : List ℕ → ℕ → ℕ → Exec (List ℕ)
substr msg pos n = if leb pos (length msg) then ok (take n (drop pos msg)) else out_of_range

-- `msg.substr(pos)`.
unfoldable pub substr_from : List ℕ → ℕ → Exec (List ℕ)
substr_from msg pos = if leb pos (length msg) then ok (drop pos msg) else out_of_range

-- A `char` as an unsigned integer of `w` bits: where `char` is signed its top bit is repeated.
unfoldable pub widen : Platform → ℕ → ℕ → ℕ
widen p w b = if p.char_signed && leb 128 b then b + (2 ^ w - 256) else b

unfoldable pub load16 : BbEndianness → ℕ → ℕ → ℕ
load16 bb_le a b = a + 256 * b
load16 bb_be a b = 256 * a + b

-- `*((uint16_t*) &msg[idx])`.
unfoldable pub read16 : Platform → List ℕ → ℕ → Exec ℕ
read16 p msg idx = do a ← char_at msg idx; b ← char_at msg (idx + 1); ok (load16 p.host a b)
