-- ===== src/Bits/Powers.antt =====
-- Powers of two, and division and remainder by their products.
use native.Mathlib.Nat.{
  pow-suc, one-le-pow, mod-lt, mod-add-div, mul-add-div, add-mul-mod_self_left, mod-eq_of_lt,
  div-eq_of_lt, suc-add, add_comm, pow-le-pow_right,
}
use dev_essential.Base.{
  ℕ, zero, suc, ◌+◌, ◌-◌, ◌*◌, ◌/◌, ◌%◌, ◌^◌, ◌≤◌, ◌<◌, ◌≡◌, sym, ap, ◌∙◌, ◌≡⟨◌⟩◌, ◌∎, arith,
}

pub pow_pos : (n : ℕ) → 1 ≤ 2 ^ n
pow_pos n = one-le-pow n 2 (omega arith)

pub pow-add : (m n : ℕ) → 2 ^ (m + n) ≡ 2 ^ m * 2 ^ n
pow-add zero n = ground arith
pow-add (suc m) n = rw (suc-add m n) (
    omega
      (arith, pow-suc 2 (m + n), pow-suc 2 m, ap (λ (t : ℕ). t * 2 ^ n) (pow-suc 2 m), pow-add m n))

pub pow_sum : (m n k : ℕ) → m + n ≡ k → 2 ^ k ≡ 2 ^ m * 2 ^ n
pow_sum m n k h = ap (λ (t : ℕ). 2 ^ t) (sym h) ∙ pow-add m n

pub pow_le : (m n : ℕ) → m ≤ n → 2 ^ m ≤ 2 ^ n
pow_le m n h = pow-le-pow_right (omega arith) h

-- A number given by its part below `p` and the part above.
pub div-fields : (p r q : ℕ) → r < p → (r + p * q) / p ≡ q
div-fields p r q h =
    rw (add_comm r, mul-add-div {m = p} (omega arith)) (omega (arith, div-eq_of_lt h))

pub mod-fields : (p r q : ℕ) → r < p → (r + p * q) % p ≡ r
mod-fields p r q h = rw (add-mul-mod_self_left r p q) (mod-eq_of_lt h)

pub split_at : (x p : ℕ) → x ≡ x % p + p * (x / p)
split_at x p = sym (mod-add-div x p)

pub fields-lt : (p q r s : ℕ) → r < p → s < q → r + p * s < p * q
fields-lt p q r s hr hs = grind arith

pub mod-mul : (x p q : ℕ) → 1 ≤ p → 1 ≤ q → x % (p * q) ≡ x % p + p * (x / p % q)
mod-mul x p q hp hq =
    x % (p * q)
    ≡⟨ ap (λ (t : ℕ). t % (p * q)) whole ⟩ (x % p + p * (x / p % q) + p * q * (x / p / q)) % (p * q)
    ≡⟨ mod-fields (p * q) _ _ (fields-lt p q _ _ (mod-lt x hp) (mod-lt (x / p) hq)) ⟩
      x % p + p * (x / p % q) ∎
  where
    whole : x ≡ x % p + p * (x / p % q) + p * q * (x / p / q)
    whole = omega (arith, split_at x p, ap (λ (t : ℕ). p * t) (split_at (x / p) q))

pub mod-mul-mod : (x p q : ℕ) → 1 ≤ p → 1 ≤ q → x % (p * q) % p ≡ x % p
mod-mul-mod x p q hp hq = rw (mod-mul x p q hp hq) (mod-fields p _ _ (mod-lt x hp))

pub mod-mul-div : (x p q : ℕ) → 1 ≤ p → 1 ≤ q → x % (p * q) / p ≡ x / p % q
mod-mul-div x p q hp hq = rw (mod-mul x p q hp hq) (div-fields p _ _ (mod-lt x hp))

suc-sub-one : (q : ℕ) → suc q - 1 ≡ q
suc-sub-one q = omega arith

pub pred-mul : (p q : ℕ) → 1 ≤ p → 1 ≤ q → p * q - 1 ≡ p - 1 + p * (q - 1)
pred-mul p zero hp hq = absurd (omega arith)
pred-mul p (suc q) hp hq = rw (suc-sub-one q) (omega arith)

pub scale-lt : (y a q : ℕ) → y < a → 1 ≤ q → q * y < q * a
scale-lt y a q h hq = grind arith

pub mul-pred : (p q : ℕ) → p * (q - 1) ≡ p * q - p
mul-pred p zero = omega arith
mul-pred p (suc q) = rw (suc-sub-one q) (omega arith)

pub scale-le : (y a q : ℕ) → a ≤ y → q * a ≤ q * y
scale-le y a q h = grind arith
