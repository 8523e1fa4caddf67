-- ===== src/Serializer.antt =====
-- include/ddl/codec/bitserializer.h and src/ddl/codec/bitserializer.cpp: values of 1 to 64 bits in
-- a buffer of bytes, on a host that is little endian. A `uint64_t` is a number below 2 ^ 64, so
-- `<<` drops what leaves the word. A variable of type T is its bit pattern and its `sizeof`.
pub mod Words
pub mod Trim
pub mod Read
pub mod Put
pub mod Merge
pub mod PutBack
pub mod Write
pub mod Access
pub mod RoundTrip
pub mod Signed
pub mod Elsewhere
pub mod Slices
mod Tests
use dev_essential.Base.{
  ℕ, zero, suc, ◌+◌, ◌-◌, ◌*◌, ◌/◌, ◌%◌, ◌^◌, min, bit_and, bit_or, Bool, true, false, not, ◌&&◌,
  ◌||◌, Option, none, some, List, [], ◌∷◌, ◌++◌, reverse, take, drop, length, ltb, leb, ◌==◌,
  if◌then◌else◌,
}

abbrev pub Bytes : Type 0
Bytes = List ℕ

pub data Endianess : Type 0 where
  bit_little_endian bit_big_endian : Endianess

-- The result codes, beside success, of the serializer and of the accessors that use it.
pub data ErrorCode : Type 0 where
  err_pointer err_invalid_arg err_not_supported : ErrorCode

pub data Result {ℓ} (A : Type ℓ) : Type ℓ where
  ok : A → Result A
  failed : ErrorCode → Result A

-- The bytes of a word in memory on the host, and the word that bytes stand for.
pub load : Bytes → ℕ
load [] = 0
load (b ∷ bs) = b + 256 * load bs

pub store : ℕ → ℕ → Bytes
store zero v = []
store (suc n) v = (v % 256) ∷ store n (v / 256)

abbrev pub shl64 : ℕ → ℕ → ℕ
shl64 v k = v * 2 ^ k % 2 ^ 64

abbrev pub shr : ℕ → ℕ → ℕ
shr v k = v / 2 ^ k

-- ~0ULL
abbrev pub all_ones : ℕ
all_ones = 2 ^ 64 - 1

abbrev pub complement64 : ℕ → ℕ
complement64 v = all_ones - v

-- `memcpy` out of the buffer and back.
pub slice : ℕ → ℕ → Bytes → Bytes
slice off n buffer = take n (drop off buffer)

pub overwrite : ℕ → Bytes → Bytes → Bytes
overwrite off bytes buffer = take off buffer ++ (bytes ++ drop (off + length bytes) buffer)

pub cut_leading_bits : ℕ → ℕ → ℕ
cut_leading_bits value bit_length =
    if ltb bit_length 64 then bit_and value (shr all_ones (64 - bit_length)) else value

pub record Copied : Type 0 where
  pub value : ℕ
  pub ninth_byte : ℕ
  pub bytes_to_read : ℕ

pub bytes_needed : ℕ → ℕ → ℕ
bytes_needed start_bit bit_length =
    let bits = bit_length + start_bit % 8 in
    (if ltb 0 (bits % 8) then bits + (8 - bits % 8) else bits) / 8

pub copy_bytes_from_buffer : Bytes → ℕ → ℕ → Copied
copy_bytes_from_buffer buffer start_bit bit_length =
    let start_byte = start_bit / 8 in
    let bytes_to_read = bytes_needed start_bit bit_length in
    record {
      value =
          if ltb 8 bytes_to_read
          then load (slice start_byte 8 buffer)
          else load (slice start_byte bytes_to_read buffer);
      ninth_byte = if ltb 8 bytes_to_read then load (slice (start_byte + 8) 1 buffer) else 0;
      bytes_to_read = bytes_to_read;
    }

-- `swapEndianess` at a type of `n` bytes.
pub swap_endianess : ℕ → ℕ → ℕ
swap_endianess n v = load (reverse (store n v))

-- The low `n` bytes of a `uint64_t` are read, swapped and written back.
pub swap_low_bytes : ℕ → ℕ → ℕ
swap_low_bytes n v = swap_endianess n (v % 256 ^ n) + 256 ^ n * (v / 256 ^ n)

pub convert_signal_endianess : ℕ → Endianess → ℕ → ℕ
convert_signal_endianess signal bit_little_endian bit_length = signal
convert_signal_endianess signal bit_big_endian bit_length =
    if ltb 8 bit_length
    then (if ltb 32 bit_length
        then swap_low_bytes 8 (shl64 signal ((64 - bit_length) / 8 * 8))
        else if ltb 16 bit_length
        then swap_low_bytes 4 (shl64 signal ((32 - bit_length) / 8 * 8))
        else swap_low_bytes 2 signal)
    else signal

abbrev pub offset_end : ℕ → ℕ → ℕ
offset_end start_bit bit_length = (8 - (start_bit + bit_length) % 8) % 8

-- `ms_byte[0] >>= k`, on the byte at the word's address.
pub shift_first_byte_right : ℕ → ℕ → ℕ
shift_first_byte_right k v = shr (v % 256) k + 256 * (v / 256)

pub shift_first_byte_left : ℕ → ℕ → ℕ
shift_first_byte_left k v = v % 256 * 2 ^ k % 256 + 256 * (v / 256)

-- The part of a BE signal's reading that LE signals do not have.
pub read_big_endian : ℕ → ℕ → ℕ → ℕ
read_big_endian start_bit bit_length result =
    let gap = (offset_end start_bit bit_length + start_bit % 8) % 8 in
    let aligned =
      if bit_length % 8 == 0 then result else shift_first_byte_right gap (shl64 result gap) in
    convert_signal_endianess aligned bit_big_endian bit_length

pub merge_ninth_byte : ℕ → ℕ → ℕ → ℕ → ℕ
merge_ninth_byte start_bit bit_length ninth_byte result =
    if ltb 0 ninth_byte
    then bit_or result (
        shl64 (cut_leading_bits ninth_byte (8 - offset_end start_bit bit_length))
          (64 - start_bit % 8))
    else result

abbrev pub by_endianess {ℓ} : {A : Type ℓ} → Endianess → A → A → A
by_endianess bit_little_endian x y = x
by_endianess bit_big_endian x y = y

-- `size` is sizeof(T).
pub read_signal : Bytes → ℕ → ℕ → ℕ → Endianess → ℕ
read_signal buffer start_bit bit_length size endianess =
    let offset_start = start_bit % 8 in
    let copied = copy_bytes_from_buffer buffer start_bit bit_length in
    let trimmed = shr (cut_leading_bits copied.value (bit_length + offset_start)) offset_start in
    let result = merge_ninth_byte start_bit bit_length copied.ninth_byte trimmed in
    let converted = by_endianess endianess result (read_big_endian start_bit bit_length result) in
    converted % 256 ^ min size 8

-- The mask that keeps the bits of the buffer's copy around the signal.
pub keep_mask : ℕ → ℕ → ℕ
keep_mask bit_length offset_start =
    let mask_left =
      if leb 64 (bit_length + offset_start)
      then 0
      else shl64 all_ones (bit_length + offset_start) in
    bit_or (complement64 (shl64 all_ones offset_start)) mask_left

pub merge_into_ninth_byte : ℕ → ℕ → ℕ → ℕ → ℕ
merge_into_ninth_byte start_bit bit_length signal ninth_byte =
    let offset_start = start_bit % 8 in
    if ltb 64 (offset_start + bit_length)
    then bit_or (bit_and ninth_byte (shl64 all_ones (8 - offset_end start_bit bit_length)))
        (shr (shr signal 56) (8 - offset_start))
    else ninth_byte

-- `ms_shift` of a BE signal, by which `shift_amount` is less than `offset_start`.
abbrev pub ms_shift : Endianess → ℕ → ℕ
ms_shift bit_little_endian bit_length = 0
ms_shift bit_big_endian bit_length = (8 - bit_length % 8) % 8

pub arrange : Endianess → ℕ → ℕ → ℕ
arrange bit_little_endian bit_length signal = signal
arrange bit_big_endian bit_length signal =
    shift_first_byte_left (ms_shift bit_big_endian bit_length)
      (convert_signal_endianess signal bit_big_endian bit_length)

-- The last copies, of eight bytes at most and then of the ninth.
pub put_back : Bytes → ℕ → ℕ → ℕ → ℕ → Bytes
put_back buffer start_byte bytes_to_read word ninth_byte =
    let written = overwrite start_byte (store (min bytes_to_read 8) word) buffer in
    if ltb 8 bytes_to_read then overwrite (start_byte + 8) (store 1 ninth_byte) written else written

-- `memory` is the word that the eight bytes at `&value` hold.
pub write_signal : Bytes → ℕ → ℕ → ℕ → Endianess → Bytes
write_signal buffer start_bit bit_length memory endianess =
    let offset_start = start_bit % 8 in
    let copied = copy_bytes_from_buffer buffer start_bit bit_length in
    let buffer_copy = bit_and copied.value (keep_mask bit_length offset_start) in
    let signal = arrange endianess bit_length (cut_leading_bits memory bit_length) in
    let gap = ms_shift endianess bit_length in
    let ninth_byte = merge_into_ninth_byte start_bit bit_length signal copied.ninth_byte in
    let shifted =
      if ltb offset_start gap
      then shr signal (gap - offset_start)
      else shl64 signal (offset_start - gap) in
    put_back buffer (start_bit / 8) copied.bytes_to_read (bit_or buffer_copy shifted) ninth_byte

-- The three specialisations of `Converter`.
pub data Kind : Type 0 where
  unsigned_integer signed_integer floating_point : Kind

-- `v >>= k` for a signed type of `w` bits, on bit patterns.
pub shift_right_signed : ℕ → ℕ → ℕ → ℕ
shift_right_signed w v k = if ltb v (2 ^ (w - 1)) then shr v k else shr v k + (2 ^ w - 2 ^ (w - k))

pub replicate_sign_bit : ℕ → ℕ → ℕ → ℕ
replicate_sign_bit size bit_length value =
    let w = size * 8 in shift_right_signed w (value * 2 ^ (w - bit_length) % 2 ^ w) (w - bit_length)

pub converter_read : Kind → Bytes → ℕ → ℕ → ℕ → Endianess → Result ℕ
converter_read unsigned_integer buffer start_bit bit_length size endianess =
    ok (read_signal buffer start_bit bit_length size endianess)
converter_read signed_integer buffer start_bit bit_length size endianess =
    ok (replicate_sign_bit size bit_length (read_signal buffer start_bit bit_length size endianess))
converter_read floating_point buffer start_bit bit_length size endianess =
    if size * 8 == bit_length
    then ok (read_signal buffer start_bit bit_length size endianess)
    else failed err_invalid_arg

pub converter_write : Kind → Bytes → ℕ → ℕ → ℕ → ℕ → Endianess → Result Bytes
converter_write floating_point buffer start_bit bit_length size memory endianess =
    if size * 8 == bit_length
    then ok (write_signal buffer start_bit bit_length memory endianess)
    else failed err_invalid_arg
converter_write unsigned_integer buffer start_bit bit_length size memory endianess =
    ok (write_signal buffer start_bit bit_length memory endianess)
converter_write signed_integer buffer start_bit bit_length size memory endianess =
    ok (write_signal buffer start_bit bit_length memory endianess)

-- `none` is the null pointer.
pub record BitSerializer : Type 0 where
  pub buffer : Option Bytes
  pub buffer_bytes : ℕ
  pub buffer_bits : ℕ

-- The constructor: `size_t` is 64 bits wide.
abbrev pub bit_serializer : Bytes → BitSerializer
bit_serializer bytes = record {
  buffer = some bytes;
  buffer_bytes = length bytes;
  buffer_bits = length bytes * 8 % 2 ^ 64;
}

abbrev pub null_serializer : BitSerializer
null_serializer = record { buffer = none; buffer_bytes = 0; buffer_bits = 0 }

-- The checks behind the null test; the sum of the two arguments may wrap.
pub check_range : ℕ → ℕ → ℕ → ℕ → Option ErrorCode
check_range buffer_bits start_bit bit_length size_variable =
    if leb buffer_bits start_bit
    then some err_invalid_arg
    else if ltb bit_length 1 || ltb buffer_bits ((start_bit + bit_length) % 2 ^ 64)
    then some err_invalid_arg
    else if ltb (size_variable * 8) bit_length
    then some err_invalid_arg
    else none

abbrev unless_failed {ℓ} : {A : Type ℓ} → Option ErrorCode → Result A → Result A
unless_failed (some e) r = failed e
unless_failed none r = r

pub read : BitSerializer → Kind → ℕ → ℕ → ℕ → Endianess → Result ℕ
read s kind start_bit bit_length size endianess = elim s.buffer [
  | none ↦ failed err_pointer
  | some bytes ↦
      unless_failed (check_range s.buffer_bits start_bit bit_length size)
        (converter_read kind bytes start_bit bit_length size endianess)
]

-- A write changes the bytes that the serializer points to.
pub write : BitSerializer → Kind → ℕ → ℕ → ℕ → ℕ → Endianess → Result BitSerializer
write s kind start_bit bit_length size memory endianess = elim s.buffer [
  | none ↦ failed err_pointer
  | some bytes ↦
      unless_failed (check_range s.buffer_bits start_bit bit_length size)
        (elim (converter_write kind bytes start_bit bit_length size memory endianess) [
          | ok bytes' ↦ ok (record s { buffer = some bytes' })
          | failed e ↦ failed e
        ])
]
