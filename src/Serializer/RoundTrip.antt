-- ===== src/Serializer/RoundTrip.antt =====
-- A write and the reads that come after it, for LE signals.
use dev_essential.Base.{ℕ, ◌+◌, ◌%◌, ◌^◌, ◌≤◌, ◌<◌, ◌≡◌, sym, ap, ◌∙◌, ◌⊎◌, inl, inr, arith, length}
use dev_essential.Serializer.{
  Bytes, ok, bit_little_endian, Kind, unsigned_integer, BitSerializer, bit_serializer, read, write,
  load, write_signal,
}
use dev_essential.Serializer.Trim.{field}
use dev_essential.Serializer.Put.{put, field-put, field-put_below, field-put_above}
use dev_essential.Serializer.Write.{write_signal-put, write_signal-IsBytes, length-write_signal}
use dev_essential.Serializer.Access.{IsBuffer, InRange, Converts, read-field, write-write_signal}

-- What a successful write of a LE signal leaves in the buffer.
pub record IsWritten (bytes : Bytes) (start_bit bit_length memory : ℕ) (bytes' : Bytes)
    : Type 0 where
  pub is_buffer : IsBuffer bytes'
  pub same_length : length bytes' ≡ length bytes
  pub bits : load bytes' ≡ put start_bit bit_length memory (load bytes)

pub InRange-length :
    {bytes bytes' : Bytes} {start_bit bit_length size : ℕ}
    → length bytes' ≡ length bytes
    → InRange bytes start_bit bit_length size
    → InRange bytes' start_bit bit_length size
InRange-length e r = record {
  not_empty = r.not_empty;
  fits_variable = r.fits_variable;
  fits_buffer = rw e r.fits_buffer;
}

module _ (bytes : Bytes) (start_bit bit_length size memory : ℕ) (kind : Kind)
    (buffer : IsBuffer bytes) (hs : size ≤ 8) (r : InRange bytes start_bit bit_length size)
    (c : Converts kind bit_length size) (hm : memory < 2 ^ 64) where
  -- A write of a LE signal in range (of its full width for a floating point value) succeeds, keeps the buffer's size, replaces the bits from `start_bit` to
  -- `start_bit + bit_length` by the low bits of the value, and changes no other bit. Of the eight
  -- bytes read at the value's address, those behind the value have no effect.
  pub write-IsWritten :
      (bytes' : Bytes) × (write
          (bit_serializer bytes)
          kind
          start_bit
          bit_length
          size
          memory
          bit_little_endian
        ≡ ok (bit_serializer bytes'))
      × IsWritten bytes start_bit bit_length memory bytes'
  write-IsWritten = (
    write_signal bytes start_bit bit_length memory bit_little_endian,
    write-write_signal bytes start_bit bit_length size buffer hs kind memory bit_little_endian c r,
    record {
      is_buffer = record {
        in_bytes =
            write_signal-IsBytes bytes start_bit bit_length memory bit_little_endian short
              r.fits_buffer buffer.in_bytes;
        in_memory = rw same_length buffer.in_memory;
      };
      same_length = same_length;
      bits =
          write_signal-put bytes start_bit bit_length memory buffer.in_bytes short r.fits_buffer hm;
    },
  )
    where
      short : bit_length ≤ 64
      short = omega (arith, r.fits_variable)

      same_length :
          length (write_signal bytes start_bit bit_length memory bit_little_endian) ≡ length bytes
      same_length =
          length-write_signal bytes start_bit bit_length memory bit_little_endian short
            r.fits_buffer

  -- After such a write, reading the signal, LE and unsigned, gives the low `bit_length` bits of the
  -- value.
  pub read-write :
      (s : BitSerializer) × (write
          (bit_serializer bytes)
          kind
          start_bit
          bit_length
          size
          memory
          bit_little_endian
        ≡ ok s)
      × (read s unsigned_integer start_bit bit_length size bit_little_endian
          ≡ ok (memory % 2 ^ bit_length))
  read-write =
      let (bytes', done, w) = write-IsWritten in
      (
        bit_serializer bytes',
        done,
        read-field bytes' start_bit bit_length size w.is_buffer hs (InRange-length w.same_length r)
            ∙ ap ok
                (ap (field start_bit bit_length) w.bits ∙ field-put start_bit bit_length memory _),
      )

  -- After such a write of a LE signal, an unsigned LE signal in range that shares no bit with the
  -- one written reads as before.
  pub read-write_elsewhere :
      (start' bit_length' size' : ℕ)
      → size' ≤ 8
      → InRange bytes start' bit_length' size'
      → (start' + bit_length' ≤ start_bit) ⊎ (start_bit + bit_length ≤ start')
      → (s : BitSerializer) × (write
            (bit_serializer bytes)
            kind
            start_bit
            bit_length
            size
            memory
            bit_little_endian
          ≡ ok s)
        × (read s unsigned_integer start' bit_length' size' bit_little_endian
            ≡ read
                (bit_serializer bytes)
                unsigned_integer
                start'
                bit_length'
                size'
                bit_little_endian)
  read-write_elsewhere start' bit_length' size' hs' r' apart =
      let (bytes', done, w) = write-IsWritten in
      (
        bit_serializer bytes',
        done,
        read-field bytes' start' bit_length' size' w.is_buffer hs' (InRange-length w.same_length r')
            ∙ ap ok (ap (field start' bit_length') w.bits ∙ untouched apart)
            ∙ sym (read-field bytes start' bit_length' size' buffer hs' r'),
      )
    where
      untouched :
          (start' + bit_length' ≤ start_bit) ⊎ (start_bit + bit_length ≤ start')
          → field start' bit_length' (put start_bit bit_length memory (load bytes))
            ≡ field start' bit_length' (load bytes)
      untouched (inl below) =
          field-put_below start_bit bit_length memory (load bytes) start' bit_length' below
      untouched (inr above) =
          field-put_above start_bit bit_length memory (load bytes) start' bit_length' above
