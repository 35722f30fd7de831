-- ===== src/ByteBauble/Copies.antt =====
-- The copying loop that src/cpp/bytebauble.cpp has in both of its functions.
use native.Mathlib.Nat.{
  pow-suc, one-le-pow, div-div-eq-div-mul, mod-lt, mod-one, div-add-mod, add-mul-mod_self_left,
  mod-eq_of_lt, pow-le-pow_right,
}
use native.Mathlib.Numerals.{add-one}
use nymph_mqtt.Common.{
  ℕ, zero, suc, ◌+◌, ◌*◌, ◌/◌, ◌%◌, ◌^◌, ◌≤◌, ◌<◌, ◌≡◌, sym, ap, ◌∙◌, arith, Bool-cases, inl, inr,
}
use nymph_mqtt.Common.Bits.{bit_or_high}
use nymph_mqtt.ByteBauble.{Copy, bit, set_bit, copy_bits}

-- The lowest bit of a remainder, and the others.
mod_double : (y m : ℕ) → 0 < m → y % (m * 2) ≡ y % 2 + 2 * (y / 2 % m)
mod_double y m h =
    let q : ℕ = y / 2 / m in
    let r : ℕ = y / 2 % m in
    let whole : y ≡ y % 2 + 2 * r + m * 2 * q = omega (arith, div-add-mod (y / 2) m) in
    ap (λ (t : ℕ). t % (m * 2)) whole
    ∙ add-mul-mod_self_left (y % 2 + 2 * r) (m * 2) q
    ∙ mod-eq_of_lt (omega (arith, mod-lt (y / 2) h))

next_bit : (v s : ℕ) → v / 2 ^ (s + 1) ≡ v / 2 ^ s / 2
next_bit v s = rw (add-one, pow-suc) (sym (div-div-eq-div-mul v (2 ^ s) 2))

below_word : (i : ℕ) → i < 32 → 2 ^ i ≤ 2 ^ 31
below_word i h = pow-le-pow_right {n = 2} (omega arith) {i = i} {j = 31} (omega arith)

pub set_bit-add :
    (o i s : ℕ)
    → o < 2 ^ i
    → i < 32
    → set_bit (record { output = o; idx = i; src = s })
      ≡ record { output = o + 2 ^ i; idx = i + 1; src = s }
unfolding set_bit
set_bit-add o i s h hi =
    ground (arith, bit_or_high i o h, below_word i hi, mod-eq_of_lt {n = o + 2 ^ i} {m = 2 ^ 32})

-- What one round and the rest of the rounds put into the output.
output_step :
    (n value o i s b : ℕ)
    → value / 2 ^ s % 2 ≡ b
    → o + b * 2 ^ i + value / 2 ^ (s + 1) % 2 ^ n * 2 ^ (i + 1)
      ≡ o + value / 2 ^ s % 2 ^ suc n * 2 ^ i
output_step n value o i s b e =
    let rest : ℕ = value / 2 ^ s / 2 % 2 ^ n in
    let low : value / 2 ^ s % 2 ^ suc n ≡ b + 2 * rest =
      rw pow-suc
        (omega (arith, mod_double (value / 2 ^ s) (2 ^ n) (one-le-pow n 2 (omega arith)))) in
    rw (next_bit, add-one i, pow-suc 2 i, low) (omega arith)

Copy_path :
    {o o' i i' s s' : ℕ}
    → o ≡ o'
    → i ≡ i'
    → s ≡ s'
    → ◌≡◌ {A = Copy}
        (record { output = o; idx = i; src = s })
        (record { output = o'; idx = i'; src = s' })
Copy_path p q r = cc

-- Into an output below bit `i`, the loop copies `n` bits of the source from bit `s` on.
pub copy_bits_lem :
    (n value o i s : ℕ)
    → o < 2 ^ i
    → i + n ≤ 32
    → copy_bits n value (record { output = o; idx = i; src = s })
      ≡ record { output = o + value / 2 ^ s % 2 ^ n * 2 ^ i; idx = i + n; src = s + n }
unfolding copy_bits
copy_bits_lem zero value o i s h hi =
    let nothing : value / 2 ^ s % 2 ^ 0 ≡ 0 = mod-one (value / 2 ^ s) in
    Copy_path (omega (arith, ap (λ (t : ℕ). t * 2 ^ i) nothing)) (omega arith) (omega arith)
copy_bits_lem (suc n) value o i s h hi = elim (Bool-cases (bit value s)) [
  | inl one ↦
      rw (one, set_bit-add o i (s + 1) h (omega arith))
        (copy_bits_lem n value (o + 2 ^ i) (i + 1) (s + 1) (higher (o + 2 ^ i) (omega arith))
            (omega arith)
          ∙ Copy_path (omega (arith, output_step n value o i s 1 (ground arith))) (omega arith)
              (omega arith))
  | inr none ↦ rw none (
      copy_bits_lem n value o (i + 1) (s + 1) (higher o (omega arith)) (omega arith)
      ∙ Copy_path (omega (arith, output_step n value o i s 0 (ground arith))) (omega arith)
          (omega arith))
]
  where
    higher : (t : ℕ) → t < 2 ^ i + 2 ^ i → t < 2 ^ (i + 1)
    higher t lt = rw (add-one i, pow-suc 2 i) (omega arith)
