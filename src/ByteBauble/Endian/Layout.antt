-- ===== src/ByteBauble/Endian/Layout.antt =====
-- What the byte order functions do to the bytes in memory.
use native.Mathlib.Nat.{
  mul-add-mod_self_right, mul-add-div_right, mod-eq_of_lt, div-eq_of_lt, add-zero,
  div-lt_iff_lt-mul, mod-lt, div-add-mod',
}
use nymph_mqtt.Common.{
  ℕ, ◌+◌, ◌*◌, ◌/◌, ◌%◌, ◌^◌, ◌<◌, ◌≡◌, refl, arith, [], ◌∷◌, ◌⊎◌, inl, inr, if◌then◌else◌, ◌∙◌, ap,
}
use nymph_mqtt.ByteBauble.Endian.{
  BbEndianness, bb_be, bb_le, store, ByteBauble, byte_bauble, set_global_endianness, to_global,
  to_host, same, flip, bswap16, bswap32, bswap64,
}

-- A new object has found out the byte order of its host, whichever that is.
pub byte_bauble_detects : (host : BbEndianness) → (byte_bauble host).host_endian ≡ host
unfolding byte_bauble
byte_bauble_detects bb_be = refl
byte_bauble_detects bb_le = refl

-- An object on the host, with the big-endian order set as `serialize` does.
abbrev pub big_endian : BbEndianness → ByteBauble
big_endian host = set_global_endianness (byte_bauble host) bb_be

-- A 16-bit value that is converted to the big-endian order and copied from memory is the high byte
-- and then the low one, on every host.
pub store-to_global :
    (host : BbEndianness) (v : ℕ)
    → v < 2 ^ 16
    → store host 2 (to_global (big_endian host) 2 v (big_endian host).host_endian)
      ≡ (v / 256) ∷ (v % 256) ∷ []
unfolding byte_bauble to_global flip bswap16
store-to_global bb_be v h = ground arith
store-to_global bb_le v h = ground arith

bswap16_twice : (v : ℕ) → v < 2 ^ 16 → bswap16 (bswap16 v) ≡ v
unfolding bswap16
bswap16_twice v h = omega arith

bswap16_zero : bswap16 0 ≡ 0
unfolding bswap16
bswap16_zero = refl

bswap16_lt : (v : ℕ) → bswap16 v < 2 ^ 16
unfolding bswap16
bswap16_lt v = omega arith

-- To swap the halves of a value and each half, twice.
halves_twice :
    (f : ℕ → ℕ) (m : ℕ) (v : ℕ)
    → 0 < m
    → ((x : ℕ) → f x < m)
    → ((x : ℕ) → x < m → f (f x) ≡ x)
    → v < m * m
    → let w = f (v % m) * m + f (v / m) in f (w % m) * m + f (w / m) ≡ v
halves_twice f m v pos below twice h =
    rw
      (
        mul-add-mod_self_right (f (v % m)) m (f (v / m)) ∙ mod-eq_of_lt (below (v / m)),
        mul-add-div_right pos (f (v % m)) (f (v / m)),
        div-eq_of_lt (below (v / m)),
        add-zero,
        twice (v / m) ((div-lt_iff_lt-mul pos).1 h),
        twice (v % m) (mod-lt v pos),
      )
      (div-add-mod' v m)

bswap32_lt : (v : ℕ) → bswap32 v < 2 ^ 32
unfolding bswap32
bswap32_lt v = omega (arith, bswap16_lt (v % 2 ^ 16), bswap16_lt (v / 2 ^ 16))

bswap32_twice : (v : ℕ) → v < 2 ^ 32 → bswap32 (bswap32 v) ≡ v
unfolding bswap32
bswap32_twice v h = halves_twice bswap16 (2 ^ 16) v (omega arith) bswap16_lt bswap16_twice h

bswap64_twice : (v : ℕ) → v < 2 ^ 64 → bswap64 (bswap64 v) ≡ v
unfolding bswap64
bswap64_twice v h = halves_twice bswap32 (2 ^ 32) v (omega arith) bswap32_lt bswap32_twice h

flip_twice : (n v : ℕ) → (n ≡ 2) ⊎ (n ≡ 4) ⊎ (n ≡ 8) → v < 2 ^ (8 * n) → flip n (flip n v) ≡ v
unfolding flip
flip_twice n v (inl e) h = rw e (bswap16_twice v (rw e at h))
flip_twice n v (inr (inl e)) h = rw e (bswap32_twice v (rw e at h))
flip_twice n v (inr (inr e)) h = rw e (bswap64_twice v (rw e at h))

-- `toHost` undoes `toGlobal`, for unsigned values of 2, 4 and 8 bytes and any two byte orders.
pub to_host-to_global :
    (b : ByteBauble) (n v : ℕ)
    → (n ≡ 2) ⊎ (n ≡ 4) ⊎ (n ≡ 8)
    → v < 2 ^ (8 * n)
    → to_host b n (to_global b n v b.host_endian) b.global_endian ≡ v
unfolding to_host to_global
to_host-to_global b n v size h = orders b.global_endian b.host_endian
  where
    orders :
        (g t : BbEndianness)
        → (if same g t
            then if same t g then v else flip n v
            else flip n (if same t g then v else flip n v))
          ≡ v
    orders bb_be bb_be = refl
    orders bb_be bb_le = flip_twice n v size h
    orders bb_le bb_be = flip_twice n v size h
    orders bb_le bb_le = refl

-- The lowest 16 bits of a swapped 64-bit value are its highest ones.
pub flip_size_t : (v : ℕ) → v < 2 ^ 48 → flip 8 v % 2 ^ 16 ≡ 0
unfolding flip bswap64 bswap32
flip_size_t v h =
    let top : bswap16 (v / 2 ^ 32 / 2 ^ 16) ≡ 0 = ap bswap16 (omega arith) ∙ bswap16_zero in
    omega (arith, top)
