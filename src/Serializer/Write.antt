-- ===== src/Serializer/Write.antt =====
-- Writing a LE signal: the field of the buffer's number is replaced, and no other bit changes.
use native.Mathlib.Nat.{mod-lt, mod-mod, le_trans, le_of_eq, div-lt_iff_lt-mul}
use native.Mathlib.Decide.{dec_le}
use dev_essential.Base.{
  ℕ, ◌+◌, ◌-◌, ◌*◌, ◌/◌, ◌%◌, ◌^◌, ◌≤◌, ◌<◌, min, bit_and, bit_or, ◌≡◌, refl, sym, ap, ◌∙◌, arith,
  ltb, false, length,
}
use dev_essential.Bits.Powers.{pow_pos, pow_le, pow_sum, fields-lt, mod-mul-mod}
use dev_essential.Serializer.{
  Bytes, Endianess, bit_little_endian, shl64, bytes_needed, copy_bytes_from_buffer, keep_mask,
  merge_into_ninth_byte, put_back, write_signal, load, arrange,
}
use dev_essential.Serializer.Words.{IsBytes}
use dev_essential.Serializer.Trim.{cut_leading_bits-mod, bytes_needed_bounds}
use dev_essential.Serializer.Read.{from_byte, copied-value, copied-ninth_byte}
use dev_essential.Serializer.Put.{put, put_high, put_low, put_low-lt}
use dev_essential.Serializer.Merge.{merge_short, merge_nine, merge_ninth, nine_byte_put}
use dev_essential.Serializer.PutBack.{
  put_back_short, put_back_nine, length-put_back, put_back-IsBytes,
}

-- The word that goes back for a LE signal.
abbrev merged_word : Bytes → ℕ → ℕ → ℕ → ℕ
merged_word buffer start n signal =
    bit_or (bit_and (copy_bytes_from_buffer buffer start n).value (keep_mask n (start % 8)))
      (shl64 signal (start % 8))

copied-bytes_to_read :
    (buffer : Bytes) (start n : ℕ)
    → (copy_bytes_from_buffer buffer start n).bytes_to_read ≡ bytes_needed start n
unfolding copy_bytes_from_buffer
copied-bytes_to_read buffer start n = refl

-- A LE signal needs no arranging and is shifted to the left.
write_signal-put_back :
    (buffer : Bytes) (start n memory : ℕ)
    → n ≤ 64
    → memory < 2 ^ 64
    → write_signal buffer start n memory bit_little_endian
      ≡ put_back buffer
          (start / 8)
          (bytes_needed start n)
          (merged_word buffer start n (memory % 2 ^ n))
          (merge_into_ninth_byte start n
            (memory % 2 ^ n)
            (copy_bytes_from_buffer buffer start n).ninth_byte)
unfolding write_signal arrange
write_signal-put_back buffer start n memory hn hm =
    rw (copied-bytes_to_read, cut_leading_bits-mod n memory hn hm, not_right, same) refl
  where
    not_right : ltb (start % 8) 0 ≡ false
    not_right = ground arith

    same : start % 8 - 0 ≡ start % 8
    same = omega arith

module _ (buffer : Bytes) (start n signal : ℕ) (h : IsBytes buffer) (hn : n ≤ 64)
    (fits : start + n ≤ 8 * length buffer) (hs : signal < 2 ^ n) where
  bounds :
      (n + start % 8 ≤ 8 * bytes_needed start n) × (8 * bytes_needed start n < n + start % 8 + 8)
  bounds = bytes_needed_bounds start n

  value-lt : (copy_bytes_from_buffer buffer start n).value < 2 ^ 64
  value-lt = rw (copied-value buffer start n h) (
      le_trans (mod-lt _ (pow_pos (8 * min (bytes_needed start n) 8)))
        (pow_le (8 * min (bytes_needed start n) 8) 64 (omega arith)))

  -- The number above the first byte, and then the whole.
  whole :
      load buffer % 2 ^ (8 * (start / 8))
        + 2 ^ (8 * (start / 8)) * put (start % 8) n signal (from_byte buffer start)
      ≡ put start n signal (load buffer)
  whole =
      put_high (8 * (start / 8)) (start % 8) n signal (load buffer)
      ∙ ap (λ (s : ℕ). put s n signal (load buffer)) (omega arith)

  put_signal_short :
      (ninth : ℕ)
      → bytes_needed start n ≤ 8
      → load (
          put_back buffer
            (start / 8)
            (bytes_needed start n)
            (merged_word buffer start n signal)
            ninth)
        ≡ put start n signal (load buffer)
  put_signal_short ninth short = rw merged (
      put_back_short buffer (start / 8) (bytes_needed start n) _ ninth h short
        (omega (arith, bounds)) (put_low-lt (start % 8) n signal _ _ (omega (arith, bounds)))
      ∙ ap (λ (t : ℕ). load buffer % 2 ^ (8 * (start / 8)) + 2 ^ (8 * (start / 8)) * t)
          (put_low (start % 8) n signal _ _ (omega (arith, bounds)))
      ∙ whole)
    where
      least : min (bytes_needed start n) 8 ≡ bytes_needed start n
      least = omega arith

      merged :
          merged_word buffer start n signal
          ≡ put (start % 8) n signal (from_byte buffer start % 2 ^ (8 * bytes_needed start n))
      merged =
          merge_short (start % 8) n (omega (arith, bounds))
            (copy_bytes_from_buffer buffer start n).value signal value-lt hs
          ∙ rw (copied-value buffer start n h, least)

  put_signal_nine :
      (t : ℕ)
      → start % 8 + n ≡ 64 + t
      → 0 < t
      → t ≤ 7
      → load (
          put_back buffer (start / 8) (bytes_needed start n) (merged_word buffer start n signal) (
            merge_into_ninth_byte start n signal
              (copy_bytes_from_buffer buffer start n).ninth_byte))
        ≡ put start n signal (load buffer)
  put_signal_nine t e ht ht' =
      rw (merged, ninth)
        (put_back_nine buffer (start / 8) (bytes_needed start n) _ _ h nine (omega (arith, bounds))
            word-lt ninth-lt
          ∙ ap
              (λ (w : ℕ).
                load buffer % 2 ^ (8 * (start / 8))
                + 2 ^ (8 * (start / 8)) * (w + 2 ^ 72 * (x / 2 ^ 72)))
              (nine_byte_put x (start % 8) n t signal (omega arith) hn e (omega arith) hs)
          ∙ ap (λ (w : ℕ). load buffer % 2 ^ (8 * (start / 8)) + 2 ^ (8 * (start / 8)) * w)
              (put_low (start % 8) n signal x 72 (omega arith))
          ∙ whole)
    where
      x : ℕ
      x = from_byte buffer start

      nine : bytes_needed start n ≡ 9
      nine = omega (arith, bounds)

      most : min (bytes_needed start n) 8 ≡ 8
      most = omega (arith, nine)

      low : (copy_bytes_from_buffer buffer start n).value % 2 ^ (start % 8) ≡ x % 2 ^ (start % 8)
      low =
          rw
            (
              copied-value buffer start n h,
              most,
              pow_sum (start % 8) (64 - start % 8) 64 (omega arith),
            )
            (mod-mul-mod x _ _ (pow_pos (start % 8)) (pow_pos (64 - start % 8)))

      merged :
          merged_word buffer start n signal
          ≡ x % 2 ^ (start % 8) + 2 ^ (start % 8) * (signal % 2 ^ (64 - start % 8))
      merged =
          merge_nine (start % 8) n t (omega arith) hn e
            (copy_bytes_from_buffer buffer start n).value signal
          ∙ rw low

      ninth :
          merge_into_ninth_byte start n signal (copy_bytes_from_buffer buffer start n).ninth_byte
          ≡ signal / 2 ^ (64 - start % 8) + 2 ^ t * (x / 2 ^ 64 % 256 / 2 ^ t)
      ninth =
          rw (copied-ninth_byte buffer start n h (omega (arith, nine)))
            (merge_ninth start n t signal (x / 2 ^ 64 % 256) hn e ht hs (omega arith))

      word-lt : x % 2 ^ (start % 8) + 2 ^ (start % 8) * (signal % 2 ^ (64 - start % 8)) < 2 ^ 64
      word-lt = rw (pow_sum (start % 8) (64 - start % 8) 64 (omega arith)) (
          fields-lt _ _ _ _ (mod-lt x (pow_pos (start % 8)))
            (mod-lt signal (pow_pos (64 - start % 8))))

      ninth-lt : signal / 2 ^ (64 - start % 8) + 2 ^ t * (x / 2 ^ 64 % 256 / 2 ^ t) < 256
      ninth-lt =
          le_trans
            (fields-lt (2 ^ t) (2 ^ (8 - t)) _ _
              ((div-lt_iff_lt-mul (pow_pos (64 - start % 8))).1
                (rw (← pow_sum t (64 - start % 8) n (omega arith)) hs))
              ((div-lt_iff_lt-mul (pow_pos t)).1
                (omega (arith, pow_sum (8 - t) t 8 (omega arith)))))
            (le_of_eq (sym (pow_sum t (8 - t) 8 (omega arith))))

put-mod : (start n v x : ℕ) → put start n (v % 2 ^ n) x ≡ put start n v x
put-mod start n v x = rw (mod-mod v (2 ^ n))

-- Writing a LE signal of `n` bits puts the low `n` bits of the value at bits `start` to
-- `start + n` of the buffer; what else the eight bytes at `&value` hold has no effect.
pub write_signal-put :
    (buffer : Bytes) (start n memory : ℕ)
    → IsBytes buffer
    → n ≤ 64
    → start + n ≤ 8 * length buffer
    → memory < 2 ^ 64
    → load (write_signal buffer start n memory bit_little_endian) ≡ put start n memory (load buffer)
write_signal-put buffer start n memory h hn fits hm =
    rw (write_signal-put_back buffer start n memory hn hm) (
      elim (dec_le (bytes_needed start n) 8) [
        | yes short ↦
            put_signal_short buffer start n _ h hn fits (mod-lt memory (pow_pos n)) _ short
        | no nine ↦
            put_signal_nine buffer start n _ h hn fits (mod-lt memory (pow_pos n))
              (start % 8 + n - 64) (omega (arith, bytes_needed_bounds start n))
              (omega (arith, bytes_needed_bounds start n)) (omega arith)
      ]
      ∙ put-mod start n memory (load buffer))

module _ (buffer : Bytes) (start n memory : ℕ) (endianess : Endianess) (hn : n ≤ 64)
    (fits : start + n ≤ 8 * length buffer) where
  at_most_nine :
      ((copy_bytes_from_buffer buffer start n).bytes_to_read ≤ 9)
      × (start / 8 + (copy_bytes_from_buffer buffer start n).bytes_to_read ≤ length buffer)
  at_most_nine = rw copied-bytes_to_read (omega (arith, bytes_needed_bounds start n))

  pub length-write_signal : length (write_signal buffer start n memory endianess) ≡ length buffer
  unfolding write_signal
  length-write_signal = length-put_back buffer (start / 8) _ _ _ at_most_nine.0 at_most_nine.1

  pub write_signal-IsBytes : IsBytes buffer → IsBytes (write_signal buffer start n memory endianess)
  unfolding write_signal
  write_signal-IsBytes = put_back-IsBytes buffer (start / 8) _ _ _ at_most_nine.0 at_most_nine.1
