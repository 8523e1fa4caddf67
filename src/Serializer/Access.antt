-- ===== src/Serializer/Access.antt =====
-- `BitSerializer::read` and `write` with their checks, for LE signals.

use dev_essential.Base.{
  ℕ, ◌+◌, ◌*◌, ◌%◌, ◌^◌, ◌≤◌, ◌<◌, ◌≡◌, refl, ap, ◌↔◌, ◌⊎◌, inl, inr, arith, length, none, some,
}
use dev_essential.Serializer.{
  Bytes, err_invalid_arg, ok, failed, bit_little_endian, Endianess, Kind, unsigned_integer,
  signed_integer, floating_point, bit_serializer, check_range, converter_read, converter_write,
  read, write, load, write_signal,
}
use dev_essential.Serializer.Words.{IsBytes}
use dev_essential.Serializer.Trim.{field}
use dev_essential.Serializer.Read.{read_signal-field}
use dev_essential.Serializer.Write.{length-write_signal}

-- A buffer that fits the address space, counted in bits.
pub record IsBuffer (bytes : Bytes) : Type 0 where
  pub in_bytes : IsBytes bytes
  pub in_memory : length bytes < 2 ^ 60

-- The request lies in the buffer, and its value in a variable of `size` bytes.
pub record InRange (bytes : Bytes) (start_bit bit_length size : ℕ) : Type 0 where
  pub not_empty : 1 ≤ bit_length
  pub fits_variable : bit_length ≤ 8 * size
  pub fits_buffer : start_bit + bit_length ≤ 8 * length bytes

-- `Converter` for floats takes whole values only.
abbrev pub Converts : Kind → ℕ → ℕ → Type 0
Converts floating_point bit_length size = bit_length ≡ 8 * size
Converts _ bit_length size = Unit {0}

check_range-none :
    (bits start_bit bit_length size : ℕ)
    → bits < 2 ^ 63
    → size ≤ 8
    → (check_range bits start_bit bit_length size ≡ none)
      ↔ ((1 ≤ bit_length) × (bit_length ≤ 8 * size) × (start_bit + bit_length ≤ bits))
unfolding check_range
check_range-none bits start_bit bit_length size hb hs = ground arith

check_range_cases :
    (bits start_bit bit_length size : ℕ)
    → (check_range bits start_bit bit_length size ≡ none)
      ⊎ (check_range bits start_bit bit_length size ≡ some err_invalid_arg)
unfolding check_range
check_range_cases bits start_bit bit_length size = ground arith

module _ (bytes : Bytes) (start_bit bit_length size : ℕ) (buffer : IsBuffer bytes)
    (hs : size ≤ 8) where
  buffer_bits-eq : length bytes * 8 % 2 ^ 64 ≡ length bytes * 8
  buffer_bits-eq = omega (arith, buffer.in_memory)

  range :
      (check_range (length bytes * 8) start_bit bit_length size ≡ none)
      ↔ ((1 ≤ bit_length) × (bit_length ≤ 8 * size) × (start_bit + bit_length ≤ length bytes * 8))
  range =
      check_range-none (length bytes * 8) start_bit bit_length size
        (omega (arith, buffer.in_memory)) hs

  pub check_range-InRange :
      InRange bytes start_bit bit_length size
      → check_range (length bytes * 8 % 2 ^ 64) start_bit bit_length size ≡ none
  check_range-InRange r =
      rw buffer_bits-eq (range.1 (r.not_empty, r.fits_variable, omega (arith, r.fits_buffer)))

  InRange-check_range :
      check_range (length bytes * 8 % 2 ^ 64) start_bit bit_length size ≡ none
      → InRange bytes start_bit bit_length size
  InRange-check_range e =
      let (a, b, c) = range.0 (rw buffer_bits-eq at e) in
      record { not_empty = a; fits_variable = b; fits_buffer = omega arith }

  -- In range, reading an unsigned LE signal succeeds and gives the bits `start_bit` to
  -- `start_bit + bit_length` of the buffer, whose first bit is the lowest of its first byte.
  pub read-field :
      InRange bytes start_bit bit_length size
      → read (bit_serializer bytes) unsigned_integer start_bit bit_length size bit_little_endian
        ≡ ok (field start_bit bit_length (load bytes))
  unfolding read converter_read
  read-field r = rw (check_range-InRange r) (
      ap ok (
        read_signal-field bytes start_bit bit_length size buffer.in_bytes r.not_empty
          r.fits_variable hs))

  -- A request that is empty, does not fit the variable or leaves the buffer is refused with
  -- ERR_INVALID_ARG, by `read` and by `write`, whatever the kind and the byte order.
  pub access_refused :
      (kind : Kind) (memory : ℕ) (endianess : Endianess)
      → ¬ InRange bytes start_bit bit_length size
      → (read (bit_serializer bytes) kind start_bit bit_length size endianess
          ≡ failed err_invalid_arg)
        × (write (bit_serializer bytes) kind start_bit bit_length size memory endianess
            ≡ failed err_invalid_arg)
  unfolding read write
  access_refused kind memory endianess out =
      elim (check_range_cases (length bytes * 8 % 2 ^ 64) start_bit bit_length size) [
        | inl e ↦ absurd (out (InRange-check_range e))
        | inr e ↦ (rw e, rw e)
      ]

  converted :
      (kind : Kind) (memory : ℕ) (endianess : Endianess)
      → Converts kind bit_length size
      → converter_write kind bytes start_bit bit_length size memory endianess
        ≡ ok (write_signal bytes start_bit bit_length memory endianess)
  unfolding converter_write
  converted unsigned_integer memory endianess c = refl
  converted signed_integer memory endianess c = refl
  converted floating_point memory endianess c = ground arith

  pub write-write_signal :
      (kind : Kind) (memory : ℕ) (endianess : Endianess)
      → Converts kind bit_length size
      → InRange bytes start_bit bit_length size
      → write (bit_serializer bytes) kind start_bit bit_length size memory endianess
        ≡ ok (bit_serializer (write_signal bytes start_bit bit_length memory endianess))
  unfolding write
  write-write_signal kind memory endianess c r =
      rw (check_range-InRange r, converted kind memory endianess c, same_size)
    where
      same_size : length (write_signal bytes start_bit bit_length memory endianess) ≡ length bytes
      same_size =
          length-write_signal bytes start_bit bit_length memory endianess
            (omega (arith, r.fits_variable)) r.fits_buffer
