-- ===== src/Bits.antt =====
-- Masks and fields of bits as arithmetic, at every width.
pub mod Powers
mod Digits
pub use Digits.{bit_or-zero}
use native.Mathlib.Nat.{pow-suc, mod-lt, div-lt_iff_lt-mul, mul_comm}
use mathlib.Core.Path.{ap₂}
use dev_essential.Base.{
  ℕ, zero, suc, ◌+◌, ◌-◌, ◌*◌, ◌/◌, ◌%◌, ◌^◌, ◌≤◌, ◌<◌, ◌≡◌, refl, ap, ◌∙◌, ◌≡⟨◌⟩◌, ◌∎, arith,
  bit_and, bit_or, min, max,
}
use Powers.{pow_pos, split_at}
use Digits.{bit_and-digit, bit_or-digit, bit_and-zero, zero-bit_or}

-- What `&` and `|` have in common: they work digit by digit.
module _ (op digit : ℕ → ℕ → ℕ)
    (op-digit : (a b : ℕ) → op a b ≡ op (a / 2) (b / 2) * 2 + digit (a % 2) (b % 2))
    (op-zero : op 0 0 ≡ 0) where
  zero_field : (p : ℕ) → 0 + 2 ^ 0 * p ≡ p
  zero_field p = omega arith

  halve : (n r p : ℕ) → (r + 2 ^ suc n * p) / 2 ≡ r / 2 + 2 ^ n * p
  halve n r p = omega (arith, pow-suc 2 n, ap (λ (t : ℕ). t * p) (pow-suc 2 n))

  last_bit : (n r p : ℕ) → (r + 2 ^ suc n * p) % 2 ≡ r % 2
  last_bit n r p = omega (arith, pow-suc 2 n, ap (λ (t : ℕ). t * p) (pow-suc 2 n))

  digitwise_fields :
      (n r s p q : ℕ)
      → r < 2 ^ n
      → s < 2 ^ n
      → op (r + 2 ^ n * p) (s + 2 ^ n * q) ≡ op r s + 2 ^ n * op p q
  digitwise_fields zero zero zero p q hr hs =
      rw (zero_field p, zero_field q) (omega (arith, op-zero))
  digitwise_fields zero zero (suc s) p q hr hs = absurd (omega arith)
  digitwise_fields zero (suc r) s p q hr hs = absurd (omega arith)
  digitwise_fields (suc n) r s p q hr hs =
      rw (op-digit (r + 2 ^ suc n * p), halve, halve, last_bit, last_bit)
        (omega (
          arith,
          op-digit r s,
          pow-suc 2 n,
          ap (λ (t : ℕ). t * op p q) (pow-suc 2 n),
          digitwise_fields n (r / 2) (s / 2) p q (omega (arith, pow-suc 2 n))
              (omega (arith, pow-suc 2 n)),
        ))

pub bit_and_fields :
    (n r s p q : ℕ)
    → r < 2 ^ n
    → s < 2 ^ n
    → bit_and (r + 2 ^ n * p) (s + 2 ^ n * q) ≡ bit_and r s + 2 ^ n * bit_and p q
bit_and_fields = digitwise_fields bit_and min bit_and-digit refl

pub bit_or_fields :
    (n r s p q : ℕ)
    → r < 2 ^ n
    → s < 2 ^ n
    → bit_or (r + 2 ^ n * p) (s + 2 ^ n * q) ≡ bit_or r s + 2 ^ n * bit_or p q
bit_or_fields = digitwise_fields bit_or max bit_or-digit refl

-- `n` ones keep a number that has no more digits.
bit_and_ones : (n r : ℕ) → r < 2 ^ n → bit_and r (2 ^ n - 1) ≡ r
bit_and_ones zero zero h = refl
bit_and_ones zero (suc r) h = absurd (omega arith)
bit_and_ones (suc n) r h =
    rw (bit_and-digit r, half_ones)
      (omega (arith, pow-suc 2 n, pow_pos n, bit_and_ones n (r / 2) (omega (arith, pow-suc 2 n))))
  where
    half_ones : (2 ^ suc n - 1) / 2 ≡ 2 ^ n - 1
    half_ones = omega (arith, pow-suc 2 n, pow_pos n)

-- A mask of `n` ones is the remainder by `2 ^ n`.
pub bit_and_mask : (n a : ℕ) → bit_and a (2 ^ n - 1) ≡ a % 2 ^ n
bit_and_mask n a =
    bit_and a (2 ^ n - 1)
    ≡⟨ ap₂ bit_and (split_at a (2 ^ n)) (omega arith) ⟩
      bit_and (a % 2 ^ n + 2 ^ n * (a / 2 ^ n)) (2 ^ n - 1 + 2 ^ n * 0)
    ≡⟨ bit_and_fields n _ _ _ 0 (mod-lt a (pow_pos n)) (omega (arith, pow_pos n)) ⟩
      bit_and (a % 2 ^ n) (2 ^ n - 1) + 2 ^ n * bit_and (a / 2 ^ n) 0
    ≡⟨ rw (bit_and-zero, bit_and_ones n (a % 2 ^ n) (mod-lt a (pow_pos n))) (omega arith) ⟩
      a % 2 ^ n ∎

-- A mask of ones from bit `n` up, over a number of at most `n + k` bits, clears the bits below.
pub bit_and_high_mask :
    (n k a : ℕ) → a < 2 ^ n * 2 ^ k → bit_and a (2 ^ n * (2 ^ k - 1)) ≡ 2 ^ n * (a / 2 ^ n)
bit_and_high_mask n k a h =
    bit_and a (2 ^ n * (2 ^ k - 1))
    ≡⟨ ap₂ bit_and (split_at a (2 ^ n)) (omega arith) ⟩
      bit_and (a % 2 ^ n + 2 ^ n * (a / 2 ^ n)) (0 + 2 ^ n * (2 ^ k - 1))
    ≡⟨ bit_and_fields n _ 0 _ _ (mod-lt a (pow_pos n)) (pow_pos n) ⟩
      bit_and (a % 2 ^ n) 0 + 2 ^ n * bit_and (a / 2 ^ n) (2 ^ k - 1)
    ≡⟨ rw (bit_and-zero, bit_and_ones k (a / 2 ^ n) high) (omega arith) ⟩ 2 ^ n * (a / 2 ^ n) ∎
  where
    high : a / 2 ^ n < 2 ^ k
    high = (div-lt_iff_lt-mul (pow_pos n)).1 (rw (mul_comm (2 ^ k)) h)

-- `|` of disjoint fields is a sum, in either order.
pub bit_or_low_high : (n r q : ℕ) → r < 2 ^ n → bit_or r (2 ^ n * q) ≡ r + 2 ^ n * q
bit_or_low_high n r q h =
    ap₂ bit_or (omega arith) (omega arith)
    ∙ bit_or_fields n r 0 0 q h (pow_pos n)
    ∙ rw (bit_or-zero r, zero-bit_or q)

pub bit_or_high_low : (n r q : ℕ) → r < 2 ^ n → bit_or (2 ^ n * q) r ≡ r + 2 ^ n * q
bit_or_high_low n r q h =
    ap₂ bit_or (omega arith) (omega arith)
    ∙ bit_or_fields n 0 r q 0 (pow_pos n) h
    ∙ rw (bit_or-zero q, zero-bit_or r)
