-- ===== src/Serializer/Put.antt =====
-- Replacing a field of a number.
use native.Mathlib.Nat.{mod-lt, div-div-eq-div-mul}
use dev_essential.Base.{ℕ, ◌+◌, ◌-◌, ◌*◌, ◌/◌, ◌%◌, ◌^◌, ◌≤◌, ◌<◌, ◌≡◌, refl, sym, ap, ◌∙◌, arith}
use dev_essential.Bits.Powers.{
  pow_pos, pow_sum, div-fields, mod-fields, split_at, fields-lt, mod-mul, mod-mul-mod, mod-mul-div,
}
use dev_essential.Serializer.Trim.{field}

-- `x` with the low `n` bits of `v` at bits `start` to `start + n`.
abbrev pub put : ℕ → ℕ → ℕ → ℕ → ℕ
put start n v x = x % 2 ^ start + 2 ^ start * (v % 2 ^ n + 2 ^ n * (x / 2 ^ start / 2 ^ n))

-- The number put is read back.
pub field-put : (start n v x : ℕ) → field start n (put start n v x) ≡ v % 2 ^ n
field-put start n v x =
    rw
      (div-fields (2 ^ start) _ (v % 2 ^ n + 2 ^ n * (x / 2 ^ start / 2 ^ n))
        (mod-lt x (pow_pos start)))
      (mod-fields (2 ^ n) _ _ (mod-lt v (pow_pos n)))

field_of_low : (y a k m : ℕ) → a + k ≤ m → field a k (y % 2 ^ m) ≡ field a k y
field_of_low y a k m h =
    rw
      (
        pow_sum a (m - a) m (omega arith),
        mod-mul-div y (2 ^ a) (2 ^ (m - a)) (pow_pos a) (pow_pos (m - a)),
      )
      (rw (pow_sum k (m - a - k) (m - a) (omega arith))
        (mod-mul-mod (y / 2 ^ a) _ _ (pow_pos k) (pow_pos (m - a - k))))

-- A field that ends below the one that is put stays.
pub field-put_below :
    (start n v x a k : ℕ) → a + k ≤ start → field a k (put start n v x) ≡ field a k x
field-put_below start n v x a k h =
    sym (field_of_low (put start n v x) a k start h)
    ∙ ap (field a k) (mod-fields (2 ^ start) _ _ (mod-lt x (pow_pos start)))
    ∙ field_of_low x a k start h

put_above : (start n v x : ℕ) → put start n v x / 2 ^ (start + n) ≡ x / 2 ^ (start + n)
put_above start n v x = rw (
  pow_sum start n (start + n) refl,
  ← div-div-eq-div-mul,
  div-fields (2 ^ start) _ (v % 2 ^ n + 2 ^ n * (x / 2 ^ start / 2 ^ n)) (mod-lt x (pow_pos start)),
  div-fields (2 ^ n) (v % 2 ^ n) (x / 2 ^ start / 2 ^ n) (mod-lt v (pow_pos n)),
  div-div-eq-div-mul,
)

-- A field that begins above the one that is put stays.
pub field-put_above :
    (start n v x a k : ℕ) → start + n ≤ a → field a k (put start n v x) ≡ field a k x
field-put_above start n v x a k h =
    ap (λ (t : ℕ). t % 2 ^ k)
      (above (put start n v x)
        ∙ ap (λ (t : ℕ). t / 2 ^ (a - (start + n))) (put_above start n v x)
        ∙ sym (above x))
  where
    above : (y : ℕ) → y / 2 ^ a ≡ y / 2 ^ (start + n) / 2 ^ (a - (start + n))
    above y =
        rw (pow_sum (start + n) (a - (start + n)) a (omega arith)) (sym (div-div-eq-div-mul y _ _))

-- Putting works on the number above bit `a`.
pub put_high : (a b n v x : ℕ) → x % 2 ^ a + 2 ^ a * put b n v (x / 2 ^ a) ≡ put (a + b) n v x
put_high a b n v x =
    rw (pow_sum a b (a + b) refl, mod-mul x _ _ (pow_pos a) (pow_pos b), ← div-div-eq-div-mul)
      (omega arith)

-- And on the number below bit `m`.
module _ (start n v x m : ℕ) (h : start + n ≤ m) where
  product : 2 ^ m ≡ 2 ^ start * (2 ^ n * 2 ^ (m - start - n))
  product =
      rw (← pow_sum n (m - start - n) (m - start) (omega arith))
        (pow_sum start (m - start) m (omega arith))

  pub high_part : x % 2 ^ m / 2 ^ start / 2 ^ n ≡ x / 2 ^ start / 2 ^ n % 2 ^ (m - start - n)
  high_part =
      rw
        (
          pow_sum start (m - start) m (omega arith),
          mod-mul-div x (2 ^ start) (2 ^ (m - start)) (pow_pos start) (pow_pos (m - start)),
        )
        (rw (pow_sum n (m - start - n) (m - start) (omega arith))
          (mod-mul-div (x / 2 ^ start) _ _ (pow_pos n) (pow_pos (m - start - n))))

  pub low_part : x % 2 ^ m % 2 ^ start ≡ x % 2 ^ start
  low_part =
      rw (pow_sum start (m - start) m (omega arith))
        (mod-mul-mod x _ _ (pow_pos start) (pow_pos (m - start)))

  pub put_low-lt : put start n v (x % 2 ^ m) < 2 ^ m
  put_low-lt =
      rw (high_part, product)
        (fields-lt _ _ _ _ (mod-lt _ (pow_pos start))
          (fields-lt _ _ _ _ (mod-lt v (pow_pos n)) (mod-lt _ (pow_pos (m - start - n)))))

  pub put_low : put start n v (x % 2 ^ m) + 2 ^ m * (x / 2 ^ m) ≡ put start n v x
  put_low =
      rw (high_part, low_part, product, ← div-div-eq-div-mul, ← div-div-eq-div-mul)
        (omega (
          arith,
          ap (λ (t : ℕ). 2 ^ start * (2 ^ n * t))
              (split_at (x / 2 ^ start / 2 ^ n) (2 ^ (m - start - n))),
        ))
