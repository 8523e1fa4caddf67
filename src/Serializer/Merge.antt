-- ===== src/Serializer/Merge.antt =====
-- The word and the ninth byte that `writeSignal` puts together: mask, signal and `|` as arithmetic.
use native.Mathlib.Nat.{
  mod-lt, mod-mod, mod-eq_of_lt, div-div-eq-div-mul, le_trans, mul_comm, div-lt_iff_lt-mul,
  mul-mod_right, mul-div_right,
}
use mathlib.Core.Path.{ap₂}
use dev_essential.Base.{
  ℕ, ◌+◌, ◌-◌, ◌*◌, ◌/◌, ◌%◌, ◌^◌, ◌≤◌, ◌<◌, bit_and, bit_or, ◌≡◌, refl, sym, ap, ◌∙◌, ◌≡⟨◌⟩◌, ◌∎,
  arith, leb, ltb, if◌then◌else◌, Bool-cases, inl, inr, true, lt→ltb,
}
use dev_essential.Bits.{
  bit_and_fields, bit_or_fields, bit_and_mask, bit_and_high_mask, bit_or_low_high, bit_or_high_low,
  bit_or-zero,
}
use dev_essential.Bits.Powers.{
  pow_pos, pow_sum, pow_le, mul-pred, mod-mul, mod-mul-div, split_at, scale-lt,
}
use dev_essential.Serializer.{
  shr, shl64, all_ones, complement64, offset_end, keep_mask, merge_into_ninth_byte,
}
use dev_essential.Serializer.Trim.{ones-shl}
use dev_essential.Serializer.Put.{put, low_part, high_part}

-- ones from bit `n` up to bit 64, as a product
ones_from : (n : ℕ) → n ≤ 64 → shl64 all_ones n ≡ 2 ^ n * (2 ^ (64 - n) - 1)
ones_from n h =
    ones-shl n h
    ∙ ap (λ (t : ℕ). t - 2 ^ n) (pow_sum n (64 - n) 64 (omega arith))
    ∙ sym (mul-pred (2 ^ n) (2 ^ (64 - n)))

low_ones : (n : ℕ) → n ≤ 64 → complement64 (shl64 all_ones n) ≡ 2 ^ n - 1
low_ones n h = rw (ones-shl n h) (omega (arith, pow_le n 64 h, pow_pos n))

module _ (os n : ℕ) (fits : os + n ≤ 64) where
  mask_left_short :
      (if leb 64 (n + os) then 0 else shl64 all_ones (n + os))
      ≡ 2 ^ os * (2 ^ n * (2 ^ (64 - (os + n)) - 1))
  mask_left_short = elim (Bool-cases (leb 64 (n + os))) [
    | inl full ↦ rw (full, empty full) (omega arith)
    | inr short ↦
        rw (short, ones_from (n + os) (omega arith), pow_sum os n (n + os) (omega arith), same)
          (omega arith)
  ]
    where
      empty : leb 64 (n + os) ≡ true → 64 - (os + n) ≡ 0
      empty full = ground arith

      same : 64 - (n + os) ≡ 64 - (os + n)
      same = omega arith

  keep_mask_short : keep_mask n os ≡ 2 ^ os - 1 + 2 ^ os * (2 ^ n * (2 ^ (64 - (os + n)) - 1))
  unfolding keep_mask
  keep_mask_short =
      rw (mask_left_short, low_ones os (omega arith))
        (bit_or_low_high os _ _ (omega (arith, pow_pos os)))

  kept_short :
      (v : ℕ)
      → v < 2 ^ 64
      → bit_and v (keep_mask n os) ≡ v % 2 ^ os + 2 ^ os * (2 ^ n * (v / 2 ^ os / 2 ^ n))
  kept_short v hv =
      bit_and v (keep_mask n os)
      ≡⟨ ap₂ bit_and (split_at v (2 ^ os)) keep_mask_short ⟩
        bit_and (v % 2 ^ os + 2 ^ os * (v / 2 ^ os))
          (2 ^ os - 1 + 2 ^ os * (2 ^ n * (2 ^ (64 - (os + n)) - 1)))
      ≡⟨ bit_and_fields os _ _ _ _ (mod-lt v (pow_pos os)) (omega (arith, pow_pos os)) ⟩
        bit_and (v % 2 ^ os) (2 ^ os - 1)
        + 2 ^ os * bit_and (v / 2 ^ os) (2 ^ n * (2 ^ (64 - (os + n)) - 1))
      ≡⟨ ap₂ (λ (s t : ℕ). s + 2 ^ os * t) (bit_and_mask os (v % 2 ^ os) ∙ mod-mod v (2 ^ os))
          (bit_and_high_mask n (64 - (os + n)) (v / 2 ^ os) above) ⟩
        v % 2 ^ os + 2 ^ os * (2 ^ n * (v / 2 ^ os / 2 ^ n)) ∎
    where
      whole : 2 ^ 64 ≡ 2 ^ n * 2 ^ (64 - (os + n)) * 2 ^ os
      whole =
          rw (← pow_sum n (64 - (os + n)) (64 - os) (omega arith))
            (pow_sum (64 - os) os 64 (omega arith))

      above : v / 2 ^ os < 2 ^ n * 2 ^ (64 - (os + n))
      above = (div-lt_iff_lt-mul (pow_pos os)).1 (rw whole at hv)

  shifted_short : (signal : ℕ) → signal < 2 ^ n → shl64 signal os ≡ 0 + 2 ^ os * signal
  shifted_short signal hs = rw (mul_comm signal) (mod-eq_of_lt below ∙ omega arith)
    where
      below : 2 ^ os * signal < 2 ^ 64
      below =
          le_trans (scale-lt signal (2 ^ n) (2 ^ os) hs (pow_pos os))
            (rw (← pow_sum os n (os + n) refl) (pow_le (os + n) 64 fits))

  -- The mask clears the field in the buffer's copy, and `|` puts the signal there.
  pub merge_short :
      (v signal : ℕ)
      → v < 2 ^ 64
      → signal < 2 ^ n
      → bit_or (bit_and v (keep_mask n os)) (shl64 signal os) ≡ put os n signal v
  merge_short v signal hv hs =
      bit_or (bit_and v (keep_mask n os)) (shl64 signal os)
      ≡⟨ ap₂ bit_or (kept_short v hv) (shifted_short signal hs) ⟩
        bit_or (v % 2 ^ os + 2 ^ os * (2 ^ n * (v / 2 ^ os / 2 ^ n))) (0 + 2 ^ os * signal)
      ≡⟨ bit_or_fields os _ 0 _ _ (mod-lt v (pow_pos os)) (pow_pos os) ⟩
        bit_or (v % 2 ^ os) 0 + 2 ^ os * bit_or (2 ^ n * (v / 2 ^ os / 2 ^ n)) signal
      ≡⟨ (rw (bit_or-zero, bit_or_high_low n signal (v / 2 ^ os / 2 ^ n) hs, mod-eq_of_lt hs)) ⟩
        put os n signal v ∎

-- A field that ends in the ninth byte, with `t` bits there.
module _ (os n t : ℕ) (hos : os ≤ 7) (hn : n ≤ 64) (e : os + n ≡ 64 + t) where
  keep_mask_nine : keep_mask n os ≡ 2 ^ os - 1
  unfolding keep_mask
  keep_mask_nine = rw (no_left, low_ones os (omega arith)) (bit_or-zero (2 ^ os - 1))
    where
      no_left : (if leb 64 (n + os) then 0 else shl64 all_ones (n + os)) ≡ 0
      no_left = ground arith

  pub merge_nine :
      (v signal : ℕ)
      → bit_or (bit_and v (keep_mask n os)) (shl64 signal os)
        ≡ v % 2 ^ os + 2 ^ os * (signal % 2 ^ (64 - os))
  merge_nine v signal =
      bit_or (bit_and v (keep_mask n os)) (shl64 signal os)
      ≡⟨ ap₂ bit_or (ap (bit_and v) keep_mask_nine ∙ bit_and_mask os v) shifted ⟩
        bit_or (v % 2 ^ os) (2 ^ os * (signal % 2 ^ (64 - os)))
      ≡⟨ bit_or_low_high os _ _ (mod-lt v (pow_pos os)) ⟩
        v % 2 ^ os + 2 ^ os * (signal % 2 ^ (64 - os)) ∎
    where
      shifted : shl64 signal os ≡ 2 ^ os * (signal % 2 ^ (64 - os))
      shifted =
          rw
            (
              mul_comm signal,
              pow_sum os (64 - os) 64 (omega arith),
              mod-mul (2 ^ os * signal) (2 ^ os) (2 ^ (64 - os)) (pow_pos os) (pow_pos (64 - os)),
              mul-mod_right (2 ^ os) signal,
              mul-div_right signal (pow_pos os),
            )
            (omega arith)

-- The ninth byte keeps its bits above the field.
pub merge_ninth :
    (start n t signal ninth : ℕ)
    → n ≤ 64
    → start % 8 + n ≡ 64 + t
    → 0 < t
    → signal < 2 ^ n
    → ninth < 256
    → merge_into_ninth_byte start n signal ninth
      ≡ signal / 2 ^ (64 - start % 8) + 2 ^ t * (ninth / 2 ^ t)
unfolding merge_into_ninth_byte
merge_ninth start n t signal ninth hn e ht hs hb =
    rw (reaches, width, ones_from t (omega arith), bit_and_high_mask t (64 - t) ninth in_word, top)
      (bit_or_high_low t _ _ top-lt)
  where
    reaches : ltb 64 (start % 8 + n) ≡ true
    reaches = lt→ltb _ _ (omega arith)

    width : 8 - offset_end start n ≡ t
    width = omega arith

    in_word : ninth < 2 ^ t * 2 ^ (64 - t)
    in_word = rw (← pow_sum t (64 - t) 64 (omega arith)) (omega arith)

    top : shr (shr signal 56) (8 - start % 8) ≡ signal / 2 ^ (64 - start % 8)
    top = rw (div-div-eq-div-mul, ← pow_sum 56 (8 - start % 8) (64 - start % 8) (omega arith))

    top-lt : signal / 2 ^ (64 - start % 8) < 2 ^ t
    top-lt =
        (div-lt_iff_lt-mul (pow_pos (64 - start % 8))).1
          (rw (← pow_sum t (64 - start % 8) n (omega arith)) hs)

-- The two parts of a field in nine bytes make up the number that is put.
pub nine_byte_put :
    (x os n t signal : ℕ)
    → os ≤ 7
    → n ≤ 64
    → os + n ≡ 64 + t
    → t ≤ 8
    → signal < 2 ^ n
    → x % 2 ^ os
        + 2 ^ os * (signal % 2 ^ (64 - os))
        + 2 ^ 64 * (signal / 2 ^ (64 - os) + 2 ^ t * (x / 2 ^ 64 % 256 / 2 ^ t))
      ≡ put os n signal (x % 2 ^ 72)
nine_byte_put x os n t signal hos hn e ht hs =
    x % 2 ^ os
      + 2 ^ os * (signal % 2 ^ (64 - os))
      + 2 ^ 64 * (signal / 2 ^ (64 - os) + 2 ^ t * (x / 2 ^ 64 % 256 / 2 ^ t))
    ≡⟨ ap₂
        (λ (w h : ℕ).
          x % 2 ^ os + 2 ^ os * (signal % 2 ^ (64 - os)) + w * (signal / 2 ^ (64 - os) + 2 ^ t * h))
        (pow_sum os (64 - os) 64 (omega arith)) above ⟩
      x % 2 ^ os
      + 2 ^ os * (signal % 2 ^ (64 - os))
      + 2 ^ os
        * 2 ^ (64 - os)
        * (signal / 2 ^ (64 - os) + 2 ^ t * (x / 2 ^ os / 2 ^ n % 2 ^ (8 - t)))
    ≡⟨ regroup (2 ^ os) (2 ^ (64 - os)) (2 ^ t) signal _ (x % 2 ^ os) ⟩
      x % 2 ^ os + 2 ^ os * (signal + 2 ^ (64 - os) * 2 ^ t * (x / 2 ^ os / 2 ^ n % 2 ^ (8 - t)))
    ≡⟨ ap₂ (λ (w s : ℕ). x % 2 ^ os + 2 ^ os * (s + w * (x / 2 ^ os / 2 ^ n % 2 ^ (8 - t))))
        (sym (pow_sum (64 - os) t n (omega arith))) (sym (mod-eq_of_lt hs)) ⟩
      x % 2 ^ os + 2 ^ os * (signal % 2 ^ n + 2 ^ n * (x / 2 ^ os / 2 ^ n % 2 ^ (8 - t)))
    ≡⟨ ap₂ (λ (l h : ℕ). l + 2 ^ os * (signal % 2 ^ n + 2 ^ n * h))
        (sym (low_part os n signal x 72 (omega arith))) (sym high) ⟩
      put os n signal (x % 2 ^ 72) ∎
  where
    regroup :
        (p q r s h l : ℕ) → l + p * (s % q) + p * q * (s / q + r * h) ≡ l + p * (s + q * r * h)
    regroup p q r s h l = omega (arith, ap (λ (t : ℕ). p * t) (split_at s q))

    above : x / 2 ^ 64 % 256 / 2 ^ t ≡ x / 2 ^ os / 2 ^ n % 2 ^ (8 - t)
    above = rw (
      pow_sum t (8 - t) 8 (omega arith),
      mod-mul-div (x / 2 ^ 64) (2 ^ t) (2 ^ (8 - t)) (pow_pos t) (pow_pos (8 - t)),
      div-div-eq-div-mul x (2 ^ 64) (2 ^ t),
      div-div-eq-div-mul x (2 ^ os) (2 ^ n),
      ← pow_sum 64 t (64 + t) refl,
      ← pow_sum os n (64 + t) e,
    )

    high : x % 2 ^ 72 / 2 ^ os / 2 ^ n ≡ x / 2 ^ os / 2 ^ n % 2 ^ (8 - t)
    high =
        high_part os n signal x 72 (omega arith)
        ∙ ap (λ (k : ℕ). x / 2 ^ os / 2 ^ n % 2 ^ k) (omega arith)
