-- ===== src/Serializer/Read.antt =====
-- Reading a LE signal: the result is the field of the buffer's number.
use native.Mathlib.Nat.{mod-eq_of_lt, div-div-eq-div-mul, mod-lt, mul_comm, zero-mod, le_trans}
use native.Mathlib.Decide.{dec_le}
use dev_essential.Base.{
  ℕ, ◌+◌, ◌-◌, ◌*◌, ◌/◌, ◌%◌, ◌^◌, ◌≤◌, ◌<◌, min, ◌≡◌, refl, sym, ap, ◌∙◌, ◌≡⟨◌⟩◌, ◌∎, arith, ltb,
  Bool-cases, inl, inr, true, false, lt→ltb,
}
use dev_essential.Bits.{bit_or_low_high}
use dev_essential.Bits.Powers.{
  pow_pos, pow_sum, pow_le, scale-lt, mod-mul, mod-mul-mod, mod-mul-div,
}
use dev_essential.Serializer.{
  Bytes, bit_little_endian, shr, shl64, cut_leading_bits, bytes_needed, offset_end,
  copy_bytes_from_buffer, merge_ninth_byte, read_signal, load,
}
use dev_essential.Serializer.Words.{IsBytes, load-slice}
use dev_essential.Serializer.Trim.{field, pow_256, cut_leading_bits-mod, bytes_needed_bounds}

-- The number whose lowest byte is the first that the signal touches.
abbrev pub from_byte : Bytes → ℕ → ℕ
from_byte buffer start = load buffer / 2 ^ (8 * (start / 8))

pub field-from_byte :
    (buffer : Bytes) (start n : ℕ)
    → field (start % 8) n (from_byte buffer start) ≡ field start n (load buffer)
field-from_byte buffer start n =
    rw (div-div-eq-div-mul, ← pow_sum (8 * (start / 8)) (start % 8) start (omega arith))

-- What `copyBytesFromBuffer` gives: up to eight bytes, or eight and the ninth.
pub copied-value :
    (buffer : Bytes) (start n : ℕ)
    → IsBytes buffer
    → (copy_bytes_from_buffer buffer start n).value
      ≡ from_byte buffer start % 2 ^ (8 * min (bytes_needed start n) 8)
unfolding copy_bytes_from_buffer
copied-value buffer start n h = elim (Bool-cases (ltb 8 (bytes_needed start n))) [
  | inl nine ↦ rw (nine, most nine) (load-slice (start / 8) 8 buffer h)
  | inr short ↦ rw (short, least short) (load-slice (start / 8) (bytes_needed start n) buffer h)
]
  where
    most : ltb 8 (bytes_needed start n) ≡ true → min (bytes_needed start n) 8 ≡ 8
    most nine = ground arith

    least :
        ltb 8 (bytes_needed start n) ≡ false → min (bytes_needed start n) 8 ≡ bytes_needed start n
    least short = ground arith

pub copied-ninth_byte :
    (buffer : Bytes) (start n : ℕ)
    → IsBytes buffer
    → 8 < bytes_needed start n
    → (copy_bytes_from_buffer buffer start n).ninth_byte ≡ from_byte buffer start / 2 ^ 64 % 256
unfolding copy_bytes_from_buffer
copied-ninth_byte buffer start n h nine = rw (
  lt→ltb _ _ nine,
  load-slice (start / 8 + 8) 1 buffer h,
  pow_sum (8 * (start / 8)) 64 (8 * (start / 8 + 8)) (omega arith),
  ← div-div-eq-div-mul,
)

-- The bits of the field among the first eight bytes, shifted to the lower end.
pub trim-field :
    (x bytes w os n : ℕ)
    → w ≡ os + n
    → w ≤ 8 * bytes
    → bytes ≤ 8
    → shr (cut_leading_bits (x % 2 ^ (8 * bytes)) w) os ≡ field os n x
trim-field x bytes w os n e hw hb =
    shr (cut_leading_bits (x % 2 ^ (8 * bytes)) w) os
    ≡⟨ ap (λ (t : ℕ). t / 2 ^ os) (cut_leading_bits-mod w _ (omega arith) below) ⟩
      x % 2 ^ (8 * bytes) % 2 ^ w / 2 ^ os
    ≡⟨ ap (λ (t : ℕ). t / 2 ^ os) narrow ⟩ x % 2 ^ w / 2 ^ os
    ≡⟨ rw (pow_sum os n w (omega arith)) (mod-mul-div x _ _ (pow_pos os) (pow_pos n)) ⟩
      field os n x ∎
  where
    narrow : x % 2 ^ (8 * bytes) % 2 ^ w ≡ x % 2 ^ w
    narrow =
        rw (pow_sum w (8 * bytes - w) (8 * bytes) (omega arith))
          (mod-mul-mod x _ _ (pow_pos w) (pow_pos (8 * bytes - w)))

    below : x % 2 ^ (8 * bytes) < 2 ^ 64
    below = le_trans (mod-lt x (pow_pos (8 * bytes))) (pow_le (8 * bytes) 64 (omega arith))

-- A field that reaches into the ninth byte, by its part below bit 64 and its `t` bits above.
pub nine_byte_field :
    (x os n t : ℕ)
    → os ≤ 64
    → os + n ≡ 64 + t
    → field os n x ≡ field os (64 - os) x + 2 ^ (64 - os) * (x / 2 ^ 64 % 2 ^ t)
nine_byte_field x os n t hos e = rw (pow_sum (64 - os) t n (omega arith)) (
    mod-mul (x / 2 ^ os) _ _ (pow_pos (64 - os)) (pow_pos t)
    ∙ rw (div-div-eq-div-mul, ← pow_sum os (64 - os) 64 (omega arith)))

trim_whole :
    (x w os : ℕ)
    → 64 < w
    → os ≤ 64
    → shr (cut_leading_bits (x % 2 ^ 64) w) os ≡ field os (64 - os) x
unfolding cut_leading_bits
trim_whole x w os hw hos = elim (Bool-cases (ltb w 64)) [
  | inl short ↦ absurd (ground arith)
  | inr long ↦
      rw (long, pow_sum os (64 - os) 64 (omega arith))
        (mod-mul-div x _ _ (pow_pos os) (pow_pos (64 - os)))
]

-- The bits of the ninth byte that belong to the field, moved above the others.
merge-field :
    (x start n t : ℕ)
    → n ≤ 64
    → start % 8 + n ≡ 64 + t
    → 0 < t
    → merge_ninth_byte start n (x / 2 ^ 64 % 256) (field (start % 8) (64 - start % 8) x)
      ≡ field (start % 8) n x
unfolding merge_ninth_byte
merge-field x start n t hn e ht = elim (Bool-cases (ltb 0 (x / 2 ^ 64 % 256))) [
  | inl some_bits ↦
      rw (some_bits, width, kept, moved)
        (bit_or_low_high (64 - start % 8) _ (x / 2 ^ 64 % 2 ^ t)
            (mod-lt _ (pow_pos (64 - start % 8)))
          ∙ sym (nine_byte_field x (start % 8) n t (omega arith) e))
  | inr no_bits ↦
      rw (no_bits, nine_byte_field x (start % 8) n t (omega arith) e)
        (rw (none_above no_bits) (omega arith))
]
  where
    width : 8 - offset_end start n ≡ t
    width = omega arith

    low_bits : x / 2 ^ 64 % 256 % 2 ^ t ≡ x / 2 ^ 64 % 2 ^ t
    low_bits =
        rw (pow_sum t (8 - t) 8 (omega arith))
          (mod-mul-mod (x / 2 ^ 64) _ _ (pow_pos t) (pow_pos (8 - t)))

    kept : cut_leading_bits (x / 2 ^ 64 % 256) t ≡ x / 2 ^ 64 % 2 ^ t
    kept = cut_leading_bits-mod t _ (omega arith) (omega arith) ∙ low_bits

    in_word : 2 ^ (64 - start % 8) * (x / 2 ^ 64 % 2 ^ t) < 2 ^ 64
    in_word =
        le_trans (scale-lt _ _ _ (mod-lt (x / 2 ^ 64) (pow_pos t)) (pow_pos (64 - start % 8)))
          (rw (← pow_sum (64 - start % 8) t n (omega arith)) (pow_le n 64 hn))

    moved :
        shl64 (x / 2 ^ 64 % 2 ^ t) (64 - start % 8) ≡ 2 ^ (64 - start % 8) * (x / 2 ^ 64 % 2 ^ t)
    moved = rw (mul_comm (x / 2 ^ 64 % 2 ^ t)) (mod-eq_of_lt in_word)

    none_above : ltb 0 (x / 2 ^ 64 % 256) ≡ false → x / 2 ^ 64 % 2 ^ t ≡ 0
    none_above no_bits = sym low_bits ∙ rw (all_clear no_bits) (zero-mod _)
      where
        all_clear : ltb 0 (x / 2 ^ 64 % 256) ≡ false → x / 2 ^ 64 % 256 ≡ 0
        all_clear h = ground arith

no-ninth_byte :
    (buffer : Bytes) (start n : ℕ)
    → bytes_needed start n ≤ 8
    → (copy_bytes_from_buffer buffer start n).ninth_byte ≡ 0
unfolding copy_bytes_from_buffer
no-ninth_byte buffer start n short = ground arith

merge-zero : (start n result : ℕ) → merge_ninth_byte start n 0 result ≡ result
unfolding merge_ninth_byte
merge-zero start n result = refl

-- The word of `readSignal` before the part for BE signals.
abbrev pub raw_signal : Bytes → ℕ → ℕ → ℕ
raw_signal buffer start n =
    let copied = copy_bytes_from_buffer buffer start n in
    merge_ninth_byte start n copied.ninth_byte
      (shr (cut_leading_bits copied.value (n + start % 8)) (start % 8))

module _ (buffer : Bytes) (start n : ℕ) (h : IsBytes buffer) (lo : 1 ≤ n) (hi : n ≤ 64) where
  raw_signal_short :
      bytes_needed start n ≤ 8 → raw_signal buffer start n ≡ field start n (load buffer)
  raw_signal_short short =
      rw (copied-value buffer start n h, least, no-ninth_byte buffer start n short, merge-zero)
        (trim-field (from_byte buffer start) (bytes_needed start n) (n + start % 8) (start % 8) n
            (omega arith) (omega (arith, bytes_needed_bounds start n)) short
          ∙ field-from_byte buffer start n)
    where
      least : min (bytes_needed start n) 8 ≡ bytes_needed start n
      least = omega arith

  raw_signal_nine :
      8 < bytes_needed start n → raw_signal buffer start n ≡ field start n (load buffer)
  raw_signal_nine nine =
      rw (copied-value buffer start n h, most, copied-ninth_byte buffer start n h nine)
        (rw
            (trim_whole (from_byte buffer start) (n + start % 8) (start % 8) (omega (arith, bounds))
              (omega arith))
            (merge-field (from_byte buffer start) start n (start % 8 + n - 64) hi
              (omega (arith, bounds)) (omega (arith, bounds)))
          ∙ field-from_byte buffer start n)
    where
      bounds :
          (n + start % 8 ≤ 8 * bytes_needed start n)
          × (8 * bytes_needed start n < n + start % 8 + 8)
      bounds = bytes_needed_bounds start n

      most : min (bytes_needed start n) 8 ≡ 8
      most = omega arith

  pub raw_signal-field : raw_signal buffer start n ≡ field start n (load buffer)
  raw_signal-field = elim (dec_le (bytes_needed start n) 8) [
    | yes short ↦ raw_signal_short short
    | no nine ↦ raw_signal_nine (omega arith)
  ]

-- Reading a LE signal of `n` bits gives bits `start` to `start + n` of the buffer.
pub read_signal-field :
    (buffer : Bytes) (start n size : ℕ)
    → IsBytes buffer
    → 1 ≤ n
    → n ≤ 8 * size
    → size ≤ 8
    → read_signal buffer start n size bit_little_endian ≡ field start n (load buffer)
unfolding read_signal
read_signal-field buffer start n size h lo hi hs =
    rw (raw_signal-field buffer start n h lo (omega arith), pow_256) (mod-eq_of_lt fits)
  where
    fits : field start n (load buffer) < 2 ^ (8 * min size 8)
    fits = le_trans (mod-lt _ (pow_pos n)) (pow_le n (8 * min size 8) (omega arith))
