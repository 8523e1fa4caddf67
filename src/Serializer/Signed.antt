-- ===== src/Serializer/Signed.antt =====
-- Signed values: the sign bit of the signal is replicated on reading.
use native.Mathlib.Nat.{mod-eq_of_lt, mul-div_cancel, mod-lt, mul_comm, le_trans}
use native.Mathlib.Decide.{dec_lt}
use dev_essential.Base.{
  ℕ, ◌+◌, ◌-◌, ◌*◌, ◌%◌, ◌^◌, ◌≤◌, ◌<◌, ◌≡◌, sym, ap, ◌∙◌, ◌⊎◌, inl, inr, arith, ltb, false,
  if◌then◌else◌, lt→ltb,
}
use dev_essential.Bits.Powers.{
  pow_pos, pow_sum, pow_le, scale-lt, scale-le, mod-fields, mul-pred, mod-mul-mod,
}
use dev_essential.Serializer.{
  Bytes, ok, bit_little_endian, signed_integer, BitSerializer, bit_serializer, read, write, load,
  replicate_sign_bit, shift_right_signed, converter_read,
}
use dev_essential.Serializer.Trim.{field}
use dev_essential.Serializer.Put.{field-put}
use dev_essential.Serializer.Read.{read_signal-field}
use dev_essential.Serializer.Access.{IsBuffer, InRange, check_range-InRange}
use dev_essential.Serializer.RoundTrip.{InRange-length, write-IsWritten}

-- `memory` is the pattern, in a variable of `w` bits, of a number that a signed `n`-bit integer holds.
abbrev pub FitsSigned : ℕ → ℕ → ℕ → Type 0
FitsSigned w n memory = (memory < 2 ^ (n - 1)) ⊎ ((2 ^ w ≤ memory + 2 ^ (n - 1)) × (memory < 2 ^ w))

le→not-ltb : (a b : ℕ) → b ≤ a → ltb a b ≡ false
le→not-ltb a b h = ground arith

module _ (size n : ℕ) (lo : 1 ≤ n) (hi : n ≤ size * 8) where
  top_half : 2 ^ n ≡ 2 * 2 ^ (n - 1)
  top_half = pow_sum 1 (n - 1) n (omega arith)

  word_size : 2 ^ (size * 8) ≡ 2 ^ (size * 8 - n) * 2 ^ n
  word_size = pow_sum (size * 8 - n) n (size * 8) (omega arith)

  sign_weight : 2 ^ (size * 8 - 1) ≡ 2 ^ (size * 8 - n) * 2 ^ (n - 1)
  sign_weight = pow_sum (size * 8 - n) (n - 1) (size * 8 - 1) (omega arith)

  in_variable :
      (v : ℕ) → v < 2 ^ n → v * 2 ^ (size * 8 - n) % 2 ^ (size * 8) ≡ v * 2 ^ (size * 8 - n)
  in_variable v hv = mod-eq_of_lt (
      rw (mul_comm v, word_size)
        (scale-lt v (2 ^ n) (2 ^ (size * 8 - n)) hv (pow_pos (size * 8 - n))))

  -- The sign bit of the shifted value is that of the signal.
  same_sign : (v : ℕ) → ltb (v * 2 ^ (size * 8 - n)) (2 ^ (size * 8 - 1)) ≡ ltb v (2 ^ (n - 1))
  same_sign v = elim (dec_lt v (2 ^ (n - 1))) [
    | yes below ↦ rw (lt→ltb v _ below) (
        lt→ltb _ _ (
          rw (mul_comm v, sign_weight)
            (scale-lt v (2 ^ (n - 1)) (2 ^ (size * 8 - n)) below (pow_pos (size * 8 - n)))))
    | no above ↦
        le→not-ltb _ _ (
          rw (mul_comm v, sign_weight)
            (scale-le v (2 ^ (n - 1)) (2 ^ (size * 8 - n)) (omega arith)))
        ∙ sym (le→not-ltb v _ (omega arith))
  ]

  -- The two shifts move the value to the top of the variable and back.
  replicate_sign_bit-eq :
      (v : ℕ)
      → v < 2 ^ n
      → replicate_sign_bit size n v
        ≡ (if ltb v (2 ^ (n - 1)) then v else v + (2 ^ (size * 8) - 2 ^ n))
  unfolding replicate_sign_bit shift_right_signed
  replicate_sign_bit-eq v hv =
      rw (in_variable v hv, same_sign v, mul-div_cancel v (pow_pos (size * 8 - n)), back)
    where
      back : size * 8 - (size * 8 - n) ≡ n
      back = omega arith

  -- A negative number, without the ones above its sign bit.
  negative_low :
      (memory : ℕ)
      → 2 ^ (size * 8) ≤ memory + 2 ^ (n - 1)
      → memory < 2 ^ (size * 8)
      → memory % 2 ^ n ≡ memory - (2 ^ (size * 8) - 2 ^ n)
  negative_low memory big in_word =
      ap (λ (t : ℕ). t % 2 ^ n) whole
      ∙ mod-fields (2 ^ n) (memory - (2 ^ (size * 8) - 2 ^ n)) (2 ^ (size * 8 - n) - 1)
          (omega (arith, top_half, pow_pos (n - 1)))
    where
      ones : 2 ^ n * (2 ^ (size * 8 - n) - 1) ≡ 2 ^ (size * 8) - 2 ^ n
      ones = rw word_size (mul-pred (2 ^ n) _ ∙ rw (mul_comm (2 ^ n)))

      whole : memory ≡ memory - (2 ^ (size * 8) - 2 ^ n) + 2 ^ n * (2 ^ (size * 8 - n) - 1)
      whole = omega (arith, ones, top_half)

  replicate_sign_bit-mod :
      (memory : ℕ)
      → FitsSigned (size * 8) n memory
      → replicate_sign_bit size n (memory % 2 ^ n) ≡ memory
  replicate_sign_bit-mod memory (inl small) =
      rw (mod-eq_of_lt (le_trans small (pow_le (n - 1) n (omega arith)))) (
        replicate_sign_bit-eq memory (le_trans small (pow_le (n - 1) n (omega arith)))
        ∙ rw (lt→ltb memory _ small))
  replicate_sign_bit-mod memory (inr (big, in_word)) =
      replicate_sign_bit-eq (memory % 2 ^ n) (mod-lt memory (pow_pos n))
      ∙ rw (negative_low memory big in_word, le→not-ltb (memory - (2 ^ (size * 8) - 2 ^ n)) _ high)
          (omega (arith, top_half))
    where
      high : 2 ^ (n - 1) ≤ memory - (2 ^ (size * 8) - 2 ^ n)
      high = omega (arith, top_half, pow_le n (size * 8) hi)

-- The low bits of a variable's pattern.
pub low_bits : (size n memory : ℕ) → n ≤ 8 * size → memory % 2 ^ (size * 8) % 2 ^ n ≡ memory % 2 ^ n
low_bits size n memory h =
    rw (pow_sum n (size * 8 - n) (size * 8) (omega arith))
      (mod-mul-mod memory _ _ (pow_pos n) (pow_pos (size * 8 - n)))

-- Reading a signed signal from a buffer that holds the low bits of a number that fits it.
pub read_signed :
    (bytes : Bytes) (start_bit bit_length size value : ℕ)
    → IsBuffer bytes
    → size ≤ 8
    → InRange bytes start_bit bit_length size
    → FitsSigned (size * 8) bit_length value
    → field start_bit bit_length (load bytes) ≡ value % 2 ^ bit_length
    → read (bit_serializer bytes) signed_integer start_bit bit_length size bit_little_endian
      ≡ ok value
unfolding read converter_read
read_signed bytes start_bit bit_length size value buffer hs r fits e =
    rw (check_range-InRange bytes start_bit bit_length size buffer hs r) (
      ap ok (
        ap (replicate_sign_bit size bit_length) (
          read_signal-field bytes start_bit bit_length size buffer.in_bytes r.not_empty
            r.fits_variable hs
          ∙ e)
        ∙ replicate_sign_bit-mod size bit_length r.not_empty (omega (arith, r.fits_variable)) value
            fits))

-- A signed value (the low `size` bytes of the word that is read at its address) that fits its LE
-- signal in range comes back as it was written, negative ones included.
pub read-write_signed :
    (bytes : Bytes) (start_bit bit_length size memory : ℕ)
    → IsBuffer bytes
    → size ≤ 8
    → InRange bytes start_bit bit_length size
    → memory < 2 ^ 64
    → FitsSigned (size * 8) bit_length (memory % 2 ^ (size * 8))
    → (s : BitSerializer) × (write
          (bit_serializer bytes)
          signed_integer
          start_bit
          bit_length
          size
          memory
          bit_little_endian
        ≡ ok s)
      × (read s signed_integer start_bit bit_length size bit_little_endian
          ≡ ok (memory % 2 ^ (size * 8)))
read-write_signed bytes start_bit bit_length size memory buffer hs r hm fits =
    let (bytes', done, w) =
      write-IsWritten bytes start_bit bit_length size memory signed_integer buffer hs r tt hm in
    (
      bit_serializer bytes',
      done,
      read_signed bytes' start_bit bit_length size (memory % 2 ^ (size * 8)) w.is_buffer hs
          (InRange-length w.same_length r) fits
          (ap (field start_bit bit_length) w.bits
            ∙ field-put start_bit bit_length memory _
            ∙ sym (low_bits size bit_length memory r.fits_variable)),
    )
