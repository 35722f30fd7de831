-- ===== src/Message/Parse/Reads.antt =====
-- The reads of `parseMessage` at a place behind a known prefix.
use nymph_mqtt.Common.{
  ℕ, suc, ◌+◌, ◌*◌, ◌<◌, ◌≡◌, ap, ◌∙◌, List, [], ◌∷◌, ◌++◌, length, length-append, get_or, drop,
  take-append, le→leb, arith, if◌then◌else◌,
}
use nymph_mqtt.ByteBauble.Endian.{
  BbEndianness, ByteBauble, bb_be, bb_le, same, to_host, flip, bswap16,
}
use nymph_mqtt.Message.Exec.{Platform, ok, char_at, substr, substr_from, read16, load16}

get_or-append : (pre s : List ℕ) (i d : ℕ) → get_or (pre ++ s) (length pre + i) d ≡ get_or s i d
get_or-append [] s i d = ap (λ t. get_or s t d) (omega arith)
get_or-append (x ∷ pre) s i d =
    let next : suc (length pre) + i ≡ suc (length pre + i) = omega arith in
    ap (λ t. get_or (x ∷ (pre ++ s)) t d) next ∙ get_or-append pre s i d

drop-append_add : (pre s : List ℕ) (i : ℕ) → drop (length pre + i) (pre ++ s) ≡ drop i s
drop-append_add [] s i = ap (λ t. drop t s) (omega arith)
drop-append_add (x ∷ pre) s i =
    let next : suc (length pre) + i ≡ suc (length pre + i) = omega arith in
    ap (λ t. drop t (x ∷ (pre ++ s))) next ∙ drop-append_add pre s i

-- A read at an index behind a prefix is one in what follows it.
pub char_at-append : (pre s : List ℕ) (i : ℕ) → char_at (pre ++ s) (length pre + i) ≡ char_at s i
unfolding char_at
char_at-append pre s i = rw (length-append, get_or-append) (ground arith)

pub substr-append : (pre s : List ℕ) (i n : ℕ) → substr (pre ++ s) (length pre + i) n ≡ substr s i n
unfolding substr
substr-append pre s i n = rw (length-append, drop-append_add) (ground arith)

pub substr_from-append :
    (pre s : List ℕ) (i : ℕ) → substr_from (pre ++ s) (length pre + i) ≡ substr_from s i
unfolding substr_from
substr_from-append pre s i = rw (length-append, drop-append_add) (ground arith)

pub read16-append :
    (p : Platform) (pre s : List ℕ) (i : ℕ) → read16 p (pre ++ s) (length pre + i) ≡ read16 p s i
unfolding read16
read16-append p pre s i =
    let next : length pre + i + 1 ≡ length pre + (i + 1) = omega arith in
    rw (next, char_at-append pre s i, char_at-append pre s (i + 1))

-- A big-endian field of 16 bits is read and converted to its value on every host.
pub field_value :
    (p : Platform) (b : ByteBauble) (hi lo : ℕ)
    → b.host_endian ≡ p.host
    → hi < 256
    → lo < 256
    → to_host b 2 (load16 p.host hi lo) bb_be ≡ 256 * hi + lo
unfolding to_host flip bswap16 load16
field_value p b hi lo e h l = rw e (on p.host)
  where
    on :
        (t : BbEndianness)
        → (if same bb_be t then load16 t hi lo else flip 2 (load16 t hi lo)) ≡ 256 * hi + lo
    on bb_be = ground arith
    on bb_le = ground arith

-- The reads at the end of a prefix.
at_end : (pre : List ℕ) → length pre ≡ length pre + 0
at_end pre = omega arith

pub read16_front :
    (p : Platform) (pre s : List ℕ) (a b : ℕ)
    → read16 p (pre ++ (a ∷ b ∷ s)) (length pre) ≡ ok (load16 p.host a b)
unfolding read16 char_at
read16_front p pre s a b =
    ap (read16 p (pre ++ (a ∷ b ∷ s))) (at_end pre)
    ∙ read16-append p pre (a ∷ b ∷ s) 0
    ∙ ground arith

pub substr_second :
    (pre t s : List ℕ) (a b : ℕ)
    → substr (pre ++ (a ∷ b ∷ (t ++ s))) (length pre + 2) (length t) ≡ ok t
unfolding substr
substr_second pre t s a b =
    substr-append pre (a ∷ b ∷ (t ++ s)) 2 (length t)
    ∙ rw (le→leb 2 (length (a ∷ b ∷ (t ++ s))) (omega arith)) (ap ok (take-append t s))

pub substr_from_front : (pre s : List ℕ) → substr_from (pre ++ s) (length pre) ≡ ok s
unfolding substr_from
substr_from_front pre s =
    ap (substr_from (pre ++ s)) (at_end pre)
    ∙ substr_from-append pre s 0
    ∙ rw (le→leb 0 (length s) (omega arith))

pub char_at_front : (pre s : List ℕ) (a : ℕ) → char_at (pre ++ (a ∷ s)) (length pre) ≡ ok a
unfolding char_at
char_at_front pre s a =
    ap (char_at (pre ++ (a ∷ s))) (at_end pre) ∙ char_at-append pre (a ∷ s) 0 ∙ ground arith
