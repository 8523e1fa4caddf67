-- ===== src/Serializer/Trim.antt =====
-- The masks and the byte counts of the two transfers, as arithmetic.
use native.Mathlib.Nat.{mod-eq_of_lt, mul-suc, add_comm, pow-suc, pow-le-pow_right}
use dev_essential.Base.{
  ℕ, zero, suc, ◌+◌, ◌-◌, ◌*◌, ◌/◌, ◌%◌, ◌^◌, ◌≤◌, ◌<◌, ◌≡◌, refl, sym, ap, ◌∙◌, arith, ltb,
  Bool-cases, inl, inr, false,
}
use dev_essential.Bits.{bit_and_mask}
use dev_essential.Bits.Powers.{pow_pos, pow-add, pow_sum, pred-mul, div-fields, mod-fields}
use dev_essential.Serializer.{all_ones, shr, shl64, cut_leading_bits, bytes_needed}

-- Bits `start` to `start + n` of a number.
abbrev pub field : ℕ → ℕ → ℕ → ℕ
field start n x = x / 2 ^ start % 2 ^ n

pub pow_256 : (n : ℕ) → 256 ^ n ≡ 2 ^ (8 * n)
pow_256 zero = refl
pow_256 (suc n) =
    rw (mul-suc 8 n, add_comm (8 * n) 8, pow-add 8 (8 * n))
      (omega (arith, pow-suc 256 n, pow_256 n))

-- ~0ULL >> (64 - n)
pub ones-shr : (n : ℕ) → n ≤ 64 → shr all_ones (64 - n) ≡ 2 ^ n - 1
ones-shr n h =
    ap (λ (t : ℕ). t / 2 ^ (64 - n)) whole
    ∙ div-fields (2 ^ (64 - n)) (2 ^ (64 - n) - 1) (2 ^ n - 1) (omega (arith, pow_pos (64 - n)))
  where
    product : 2 ^ 64 ≡ 2 ^ (64 - n) * 2 ^ n
    product = pow_sum (64 - n) n 64 (omega arith)

    whole : all_ones ≡ 2 ^ (64 - n) - 1 + 2 ^ (64 - n) * (2 ^ n - 1)
    whole = ap (λ (t : ℕ). t - 1) product ∙ pred-mul _ _ (pow_pos (64 - n)) (pow_pos n)

-- ~0ULL << n
pub ones-shl : (n : ℕ) → n ≤ 64 → shl64 all_ones n ≡ 2 ^ 64 - 2 ^ n
ones-shl n h =
    ap (λ (t : ℕ). t % 2 ^ 64) whole
    ∙ mod-fields (2 ^ 64) (2 ^ 64 - 2 ^ n) (2 ^ n - 1) (omega (arith, pow_pos n))
  where
    small : 2 ^ n ≤ 2 ^ 64
    small = pow-le-pow_right (omega arith) h

    whole : all_ones * 2 ^ n ≡ 2 ^ 64 - 2 ^ n + 2 ^ 64 * (2 ^ n - 1)
    whole = omega (arith, small, pow_pos n)

pub cut_leading_bits-mod : (n v : ℕ) → n ≤ 64 → v < 2 ^ 64 → cut_leading_bits v n ≡ v % 2 ^ n
unfolding cut_leading_bits
cut_leading_bits-mod n v h hv = elim (Bool-cases (ltb n 64)) [
  | inl short ↦ rw (short, ones-shr n h) (bit_and_mask n v)
  | inr full ↦ rw full (sym (mod-eq_of_lt (rw (is_64 full) hv)))
]
  where
    is_64 : ltb n 64 ≡ false → n ≡ 64
    is_64 full = ground arith

-- The bytes cover the field and start in its first byte.
pub bytes_needed_bounds :
    (start n : ℕ)
    → (n + start % 8 ≤ 8 * bytes_needed start n) × (8 * bytes_needed start n < n + start % 8 + 8)
unfolding bytes_needed
bytes_needed_bounds start n = ground arith
