-- ===== src/Serializer/Tests.antt =====
-- Runs of the serializer, and the theorems at concrete signals.
use dev_essential.Base.{◌*◌, ◌-◌, ◌%◌, ◌^◌, ◌≡◌, refl, [], ◌∷◌, inr, arith}
use dev_essential.Serializer.{
  Bytes, BitSerializer, bit_serializer, null_serializer, ok, failed, err_pointer, err_invalid_arg,
  bit_little_endian, bit_big_endian, unsigned_integer, signed_integer, floating_point, read, write,
  load, store, slice, overwrite, cut_leading_bits, bytes_needed, copy_bytes_from_buffer,
  swap_endianess, swap_low_bytes, convert_signal_endianess, shift_first_byte_right,
  shift_first_byte_left, read_big_endian, merge_ninth_byte, read_signal, keep_mask,
  merge_into_ninth_byte, arrange, put_back, write_signal, shift_right_signed, replicate_sign_bit,
  converter_read, converter_write, check_range,
}
use dev_essential.Serializer.Trim.{field}
use dev_essential.Serializer.Access.{IsBuffer, InRange, read-field, access_refused}
use dev_essential.Serializer.RoundTrip.{
  IsWritten, write-IsWritten, read-write, read-write_elsewhere,
}
use dev_essential.Serializer.Signed.{read-write_signed}

-- All that a run unfolds.
methods : Unit {0}
unfolding load store slice overwrite cut_leading_bits bytes_needed copy_bytes_from_buffer
    swap_endianess swap_low_bytes convert_signal_endianess shift_first_byte_right
    shift_first_byte_left read_big_endian merge_ninth_byte read_signal keep_mask
    merge_into_ninth_byte arrange put_back write_signal shift_right_signed replicate_sign_bit
    converter_read converter_write check_range read write
methods = tt

abbrev nine_bytes : Bytes
nine_bytes = 0x11 ∷ 0x22 ∷ 0x33 ∷ 0x44 ∷ 0x55 ∷ 0x66 ∷ 0x77 ∷ 0x88 ∷ 0x99 ∷ []

abbrev zeros : Bytes
zeros = 0 ∷ 0 ∷ 0 ∷ 0 ∷ 0 ∷ 0 ∷ 0 ∷ 0 ∷ 0 ∷ []

-- A LE and a BE reading of the same twelve bits, and one of nine bytes.
reads :
    (read (bit_serializer nine_bytes) unsigned_integer 4 12 2 bit_little_endian ≡ ok 0x221)
    × (read (bit_serializer nine_bytes) unsigned_integer 8 16 2 bit_big_endian ≡ ok 0x2233)
    × (read (bit_serializer nine_bytes) unsigned_integer 4 64 8 bit_little_endian
        ≡ ok 0x9887_7665_5443_3221)
    × (read (bit_serializer nine_bytes) unsigned_integer 8 24 4 bit_big_endian ≡ ok 0x223344)
    × (read (bit_serializer nine_bytes) signed_integer 60 4 1 bit_little_endian ≡ ok 0xf8)
    × (read null_serializer unsigned_integer 0 1 1 bit_little_endian ≡ failed err_pointer)
    × (read (bit_serializer nine_bytes) floating_point 0 16 4 bit_little_endian
        ≡ failed err_invalid_arg)
unfolding methods
reads = (refl, refl, refl, refl, refl, refl, refl)

-- A BE signal of 60 bits from bit 7 on: bits 67 to 70, which follow it, are overwritten.
be_overrun :
    write_signal zeros 7 60 (2 ^ 60 - 1) bit_big_endian
    ≡ 0x80 ∷ 0xff ∷ 0xff ∷ 0xff ∷ 0xff ∷ 0xff ∷ 0xff ∷ 0xff ∷ 0x7f ∷ []
unfolding methods
be_overrun = refl

nine_bytes-IsBuffer : IsBuffer nine_bytes
nine_bytes-IsBuffer = omega arith

in_range : InRange nine_bytes 4 64 8
in_range = omega arith

read-field_example :
    read (bit_serializer nine_bytes) unsigned_integer 4 64 8 bit_little_endian
    ≡ ok (field 4 64 (load nine_bytes))
read-field_example = read-field nine_bytes 4 64 8 nine_bytes-IsBuffer (omega arith) in_range

access_refused_example :
    (read (bit_serializer nine_bytes) signed_integer 70 3 1 bit_big_endian ≡ failed err_invalid_arg)
    × (write (bit_serializer nine_bytes) signed_integer 70 3 1 5 bit_big_endian
        ≡ failed err_invalid_arg)
access_refused_example =
    access_refused nine_bytes 70 3 1 nine_bytes-IsBuffer (omega arith) signed_integer 5
      bit_big_endian (λ r. absurd (omega (arith, r.fits_buffer)))

write-IsWritten_example :
    (bytes' : Bytes) × (write
        (bit_serializer nine_bytes)
        unsigned_integer
        4
        64
        8
        0xdead_beef
        bit_little_endian
      ≡ ok (bit_serializer bytes'))
    × IsWritten nine_bytes 4 64 0xdead_beef bytes'
write-IsWritten_example =
    write-IsWritten nine_bytes 4 64 8 0xdead_beef unsigned_integer nine_bytes-IsBuffer (omega arith)
      in_range tt (omega arith)

read-write_example :
    (s : BitSerializer) × (write
        (bit_serializer nine_bytes)
        unsigned_integer
        4
        64
        8
        0xdead_beef
        bit_little_endian
      ≡ ok s)
    × (read s unsigned_integer 4 64 8 bit_little_endian ≡ ok (0xdead_beef % 2 ^ 64))
read-write_example =
    read-write nine_bytes 4 64 8 0xdead_beef unsigned_integer nine_bytes-IsBuffer (omega arith)
      in_range tt (omega arith)

read-write_elsewhere_example :
    (s : BitSerializer) × (write
        (bit_serializer nine_bytes)
        unsigned_integer
        4
        64
        8
        0xdead_beef
        bit_little_endian
      ≡ ok s)
    × (read s unsigned_integer 68 4 1 bit_little_endian
        ≡ read (bit_serializer nine_bytes) unsigned_integer 68 4 1 bit_little_endian)
read-write_elsewhere_example =
    read-write_elsewhere nine_bytes 4 64 8 0xdead_beef unsigned_integer nine_bytes-IsBuffer
      (omega arith) in_range tt (omega arith) 68 4 1 (omega arith) (omega arith) (inr (omega arith))

-- -3 as an int8_t in a signal of five bits.
read-write_signed_example :
    (s : BitSerializer) × (write
        (bit_serializer nine_bytes)
        signed_integer
        13
        5
        1
        0x7fd
        bit_little_endian
      ≡ ok s)
    × (read s signed_integer 13 5 1 bit_little_endian ≡ ok (0x7fd % 2 ^ (1 * 8)))
read-write_signed_example =
    read-write_signed nine_bytes 13 5 1 0x7fd nine_bytes-IsBuffer (omega arith) (omega arith)
      (omega arith) (inr (omega arith))
