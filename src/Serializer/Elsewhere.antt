-- ===== src/Serializer/Elsewhere.antt =====
-- A write of a LE signal, and the reading of it and of a LE signal that it does not touch, with any
-- converter.
use dev_essential.Base.{
  ℕ, ◌+◌, ◌*◌, ◌%◌, ◌==◌, true, arith, ◌^◌, ◌≤◌, ◌<◌, ◌≡◌, refl, sym, ap, ◌∙◌, ◌⊎◌, inl, inr,
}
use dev_essential.Serializer.{
  Bytes, ok, bit_little_endian, Kind, unsigned_integer, signed_integer, floating_point,
  bit_serializer, read, write, load, converter_read, read_signal, replicate_sign_bit,
}
use dev_essential.Serializer.Trim.{field}
use dev_essential.Serializer.Put.{put, field-put, field-put_below, field-put_above}
use dev_essential.Serializer.Read.{read_signal-field}
use dev_essential.Serializer.Access.{IsBuffer, InRange, Converts, check_range-InRange, read-field}
use dev_essential.Serializer.RoundTrip.{IsWritten, write-IsWritten, InRange-length}
use dev_essential.Serializer.Signed.{FitsSigned, low_bits, read_signed}
use native.Mathlib.Nat.{mod-eq_of_lt}

module _ (bytes bytes' : Bytes) (start_bit bit_length size : ℕ) (buffer : IsBuffer bytes)
    (buffer' : IsBuffer bytes') (hs : size ≤ 8) (r : InRange bytes start_bit bit_length size)
    (r' : InRange bytes' start_bit bit_length size)
    (same : field start_bit bit_length (load bytes')
      ≡ field start_bit bit_length (load bytes)) where
  same_signal :
      read_signal bytes' start_bit bit_length size bit_little_endian
      ≡ read_signal bytes start_bit bit_length size bit_little_endian
  same_signal =
      read_signal-field bytes' start_bit bit_length size buffer'.in_bytes r'.not_empty
        r'.fits_variable hs
      ∙ same
      ∙ sym (
          read_signal-field bytes start_bit bit_length size buffer.in_bytes r.not_empty
            r.fits_variable hs)

  same_value :
      (kind : Kind)
      → converter_read kind bytes' start_bit bit_length size bit_little_endian
        ≡ converter_read kind bytes start_bit bit_length size bit_little_endian
  unfolding converter_read
  same_value unsigned_integer = ap ok same_signal
  same_value signed_integer = ap (λ v. ok (replicate_sign_bit size bit_length v)) same_signal
  same_value floating_point = rw same_signal refl

  -- Buffers with the same bits at a signal give the same reading of it.
  read-same :
      (kind : Kind)
      → read (bit_serializer bytes') kind start_bit bit_length size bit_little_endian
        ≡ read (bit_serializer bytes) kind start_bit bit_length size bit_little_endian
  unfolding read
  read-same kind =
      rw
        (
          check_range-InRange bytes' start_bit bit_length size buffer' hs r',
          check_range-InRange bytes start_bit bit_length size buffer hs r,
        )
        (same_value kind)

-- After a write in range, a signal that shares no bit with the one written reads as before, with any
-- converter.
pub read-write_apart :
    (bytes : Bytes) (start_bit bit_length size memory : ℕ) (kind : Kind)
    → IsBuffer bytes
    → size ≤ 8
    → InRange bytes start_bit bit_length size
    → Converts kind bit_length size
    → memory < 2 ^ 64
    → (start' bit_length' size' : ℕ) (kind' : Kind) → size' ≤ 8
    → InRange bytes start' bit_length' size'
    → (start' + bit_length' ≤ start_bit) ⊎ (start_bit + bit_length ≤ start')
    → (bytes' : Bytes) × (write
          (bit_serializer bytes)
          kind
          start_bit
          bit_length
          size
          memory
          bit_little_endian
        ≡ ok (bit_serializer bytes'))
      × IsWritten bytes start_bit bit_length memory bytes'
      × (read (bit_serializer bytes') kind' start' bit_length' size' bit_little_endian
          ≡ read (bit_serializer bytes) kind' start' bit_length' size' bit_little_endian)
read-write_apart bytes start_bit bit_length size memory kind buffer hs r c hm start' bit_length'
      size' kind' hs' r' apart =
    let (bytes', done, w) =
      write-IsWritten bytes start_bit bit_length size memory kind buffer hs r c hm in
    (
      bytes',
      done,
      w,
      read-same bytes bytes' start' bit_length' size' buffer w.is_buffer hs' r'
          (InRange-length w.same_length r') (ap (field start' bit_length') w.bits ∙ untouched apart)
          kind',
    )
  where
    untouched :
        (start' + bit_length' ≤ start_bit) ⊎ (start_bit + bit_length ≤ start')
        → field start' bit_length' (put start_bit bit_length memory (load bytes))
          ≡ field start' bit_length' (load bytes)
    untouched (inl below) =
        field-put_below start_bit bit_length memory (load bytes) start' bit_length' below
    untouched (inr above) =
        field-put_above start_bit bit_length memory (load bytes) start' bit_length' above

-- A pattern of `w` bits whose value the low `n` bits hold.
abbrev pub Fits : Kind → ℕ → ℕ → ℕ → Type 0
Fits signed_integer w n memory = FitsSigned w n memory
Fits _ w n memory = memory < 2 ^ n

module _ (bytes bytes' : Bytes) (start_bit bit_length size memory : ℕ) (hs : size ≤ 8)
    (r : InRange bytes start_bit bit_length size)
    (w : IsWritten bytes start_bit bit_length memory bytes') where
  written_field :
      field start_bit bit_length (load bytes') ≡ memory % 2 ^ (size * 8) % 2 ^ bit_length
  written_field =
      ap (field start_bit bit_length) w.bits
      ∙ field-put start_bit bit_length memory _
      ∙ sym (low_bits size bit_length memory r.fits_variable)

  read_unsigned :
      memory % 2 ^ (size * 8) < 2 ^ bit_length
      → read (bit_serializer bytes') unsigned_integer start_bit bit_length size bit_little_endian
        ≡ ok (memory % 2 ^ (size * 8))
  read_unsigned fits =
      read-field bytes' start_bit bit_length size w.is_buffer hs (InRange-length w.same_length r)
      ∙ ap ok (written_field ∙ mod-eq_of_lt fits)

  read_float :
      bit_length ≡ 8 * size
      → read (bit_serializer bytes') floating_point start_bit bit_length size bit_little_endian
        ≡ read (bit_serializer bytes') unsigned_integer start_bit bit_length size bit_little_endian
  unfolding read converter_read
  read_float whole = rw (same_size) refl
    where
      same_size : (size * 8 == bit_length) ≡ true
      same_size = ground arith

  -- What was written is read back, where it fits.
  pub read_written :
      (kind : Kind)
      → Converts kind bit_length size
      → Fits kind (size * 8) bit_length (memory % 2 ^ (size * 8))
      → read (bit_serializer bytes') kind start_bit bit_length size bit_little_endian
        ≡ ok (memory % 2 ^ (size * 8))
  read_written unsigned_integer c fits = read_unsigned fits
  read_written floating_point c fits = read_float c ∙ read_unsigned fits
  read_written signed_integer c fits =
      read_signed bytes' start_bit bit_length size _ w.is_buffer hs (InRange-length w.same_length r)
        fits written_field
