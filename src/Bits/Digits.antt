-- ===== src/Bits/Digits.antt =====
-- The lowest binary digit of `&` and `|`.
use Prim.Native.Nat.{digits, bitwise, bit_and-bitwise, bit_or-bitwise}
use dev_essential.Base.{
  ℕ, zero, suc, ◌+◌, ◌*◌, ◌/◌, ◌%◌, ◌≤◌, min, max, ◌≡◌, refl, arith, bit_and, bit_or,
}

module _ (base : ℕ → ℕ) (op : ℕ → ℕ → ℕ) where
  -- Any two amounts of fuel that are enough give the same digits.
  enough_fuel : (a b f g : ℕ) → a ≤ f → a ≤ g → digits base op f a b ≡ digits base op g a b
  enough_fuel zero b zero zero hf hg = refl
  enough_fuel zero b zero (suc g) hf hg = refl
  enough_fuel zero b (suc f) zero hf hg = refl
  enough_fuel zero b (suc f) (suc g) hf hg = refl
  enough_fuel (suc a) b zero g hf hg = absurd (omega arith)
  enough_fuel (suc a) b (suc f) zero hf hg = absurd (omega arith)
  enough_fuel (suc a) b (suc f) (suc g) hf hg =
      rw (enough_fuel (suc a / 2) (b / 2) f g (omega arith) (omega arith))

  lowest_digit :
      (a b : ℕ)
      → bitwise base op (suc a) b ≡ bitwise base op (suc a / 2) (b / 2) * 2 + op (suc a % 2) (b % 2)
  lowest_digit a b = rw (enough_fuel (suc a / 2) (b / 2) a (suc a / 2) (omega arith) (omega arith))

pub bit_and-digit : (a b : ℕ) → bit_and a b ≡ bit_and (a / 2) (b / 2) * 2 + min (a % 2) (b % 2)
bit_and-digit zero b = omega (arith, bit_and-bitwise 0 b, bit_and-bitwise 0 (b / 2))
bit_and-digit (suc a) b = omega (
  arith,
  bit_and-bitwise (suc a) b,
  bit_and-bitwise (suc a / 2) (b / 2),
  lowest_digit (λ _. 0) min a b,
)

pub bit_or-digit : (a b : ℕ) → bit_or a b ≡ bit_or (a / 2) (b / 2) * 2 + max (a % 2) (b % 2)
bit_or-digit zero b = omega (arith, bit_or-bitwise 0 b, bit_or-bitwise 0 (b / 2))
bit_or-digit (suc a) b = omega (
  arith,
  bit_or-bitwise (suc a) b,
  bit_or-bitwise (suc a / 2) (b / 2),
  lowest_digit (λ y. y) max a b,
)

-- By fuel, since the recursion is from `a / 2` to `a`.
below : (f a : ℕ) → a ≤ f → (bit_and a 0 ≡ 0) × (bit_or a 0 ≡ a)
below f zero h = (refl, refl)
below zero (suc a) h = absurd (omega arith)
below (suc f) (suc a) h =
    let half = below f (suc a / 2) (omega arith) in
    (omega (arith, bit_and-digit (suc a) 0), omega (arith, bit_or-digit (suc a) 0))

pub bit_and-zero : (a : ℕ) → bit_and a 0 ≡ 0
bit_and-zero a = (below a a (omega arith)).0

pub bit_or-zero : (a : ℕ) → bit_or a 0 ≡ a
bit_or-zero a = (below a a (omega arith)).1

pub zero-bit_or : (b : ℕ) → bit_or 0 b ≡ b
zero-bit_or b = bit_or-bitwise 0 b
