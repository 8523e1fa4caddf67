-- ===== src/Codec/Tests.antt =====
-- Runs of the codec and its accessors, and the theorems at concrete elements and buffers.
use dev_essential.Base.{
  ℕ, ◌-◌, ◌%◌, ◌*◌, ◌+◌, ◌^◌, ◌≤◌, ◌≡◌, refl, arith, true, inl, inr, none, some, [], ◌∷◌, length,
}
use dev_essential.Version.{version}
use dev_essential.Serializer.{Bytes, ok, failed, err_invalid_arg, unsigned_integer, signed_integer}
use dev_essential.Serializer.Access.{IsBuffer}
use dev_essential.Layout.Tests.{
  uint8, element_of, unsized, byte_and_word, elements, uint8-IsFree, elements-AllFree,
  bits_in_range, bytes_in_range, update_byte_and_word,
}
use dev_essential.Codec.{codec_element, no_more, add_sub_elements, cet_int32}
use dev_essential.Serializer.Elsewhere.{Fits}
use dev_essential.Codec.Accessor.{
  serialized, value_type, serialized_get_value, serialized_set_value, deserialized_get_value,
  deserialized_set_value, get_address,
}
use dev_essential.Codec.Sound.{IsLaidOut, IsItem, here}
use dev_essential.Codec.Distinct.{other_element, AreFoundApart, find_codec_layout-AreFoundApart}
use dev_essential.Codec.Writing.{
  IsValue, IsAssigned, serialized_set_value-get, serialized_set_value-others,
}
use dev_essential.Codec.Refused.{serialized_refused}
use dev_essential.Codec.Deserialized.{
  IsInside, deserialized_set_value-get, deserialized_set_value-apart, get_address-inside,
}
use dev_essential.Codec.Whole.{update_struct-IsLaidOut, update_struct-others}
use dev_essential.Codec.Samples.{
  codec_methods, members, elements-AllHold, at, item, byte_base, word_base, byte_found, word_found,
  byte_element, codec, codec-IsLaidOut, first_path, second_path, first-IsItem, second-IsItem,
  paths-ArePart, first_found, second_found,
}

abbrev eleven_bytes : Bytes
eleven_bytes = 1 ∷ 2 ∷ 3 ∷ 4 ∷ 5 ∷ 6 ∷ 7 ∷ 8 ∷ 9 ∷ 10 ∷ 11 ∷ []

eleven_bytes-IsBuffer : IsBuffer eleven_bytes
eleven_bytes-IsBuffer = omega arith

word-IsValue : (bits bytes : ℕ) → IsValue (item bits bytes word_base)
unfolding value_type
word-IsValue bits bytes = record {
  typed = record { kind = signed_integer; size = 4 };
  has_type = refl;
  little_endian = refl;
  not_empty = omega arith;
  fits_type = omega arith;
  converts = tt;
}

byte-IsValue : IsValue (item 0 0 byte_base)
unfolding value_type
byte-IsValue = record {
  typed = record { kind = unsigned_integer; size = 1 };
  has_type = refl;
  little_endian = refl;
  not_empty = omega arith;
  fits_type = omega arith;
  converts = tt;
}

byte-IsItem : IsItem (add_sub_elements members) (at 0 0 ∷ [])
unfolding codec_methods
byte-IsItem = here byte_element refl (omega arith)

word-IsItem : IsItem (add_sub_elements members) (at 1 0 ∷ [])
unfolding codec_methods
word-IsItem = here (codec_element word_base true no_more) refl (omega arith)

-- Minus two.
abbrev minus_two : ℕ
minus_two = 2 ^ 32 - 2

serialized_set_value-others_example :
    (bytes' : Bytes) × IsAssigned (item 16 96 word_base) eleven_bytes minus_two bytes'
    × (serialized_get_value (item 56 160 word_base) bytes' 4
        ≡ serialized_get_value (item 56 160 word_base) eleven_bytes 4)
serialized_set_value-others_example =
    serialized_set_value-others codec 88 codec-IsLaidOut eleven_bytes eleven_bytes-IsBuffer
      (omega arith) first_path second_path first-IsItem second-IsItem paths-ArePart
      (item 16 96 word_base) (item 56 160 word_base) first_found second_found (word-IsValue 16 96)
      (word-IsValue 56 160) minus_two (omega arith) 4

update_struct-others_example :
    (bytes' : Bytes) × IsAssigned (item 0 0 byte_base) eleven_bytes 255 bytes'
    × (serialized_get_value (item 8 32 word_base) bytes' 4
        ≡ serialized_get_value (item 8 32 word_base) eleven_bytes 4)
update_struct-others_example =
    update_struct-others (version 3 0) (version 3 0) 8 unsized (element_of uint8) elements
      uint8-IsFree elements-AllFree bits_in_range bytes_in_range elements-AllHold byte_and_word
      members update_byte_and_word eleven_bytes eleven_bytes-IsBuffer (omega arith) (at 0 0 ∷ [])
      (at 1 0 ∷ []) byte-IsItem word-IsItem (other_element (λ e. absurd (omega (arith, e))))
      (item 0 0 byte_base) (item 8 32 word_base) byte_found word_found byte-IsValue
      (word-IsValue 8 32) 255 (omega arith) 4

minus_two-Fits : Fits signed_integer 32 32 (minus_two % 2 ^ 32)
minus_two-Fits = inr (omega arith, omega arith)

serialized_set_value-get_example :
    (bytes' : Bytes) × IsAssigned (item 16 96 word_base) eleven_bytes minus_two bytes'
    × (serialized_get_value (item 16 96 word_base) bytes' 4 ≡ ok (minus_two % 2 ^ 32))
unfolding word-IsValue
serialized_set_value-get_example =
    serialized_set_value-get (item 16 96 word_base) (word-IsValue 16 96) eleven_bytes minus_two
      eleven_bytes-IsBuffer (omega arith) (omega arith) minus_two-Fits 4 (inr (omega arith))

word_type : value_type cet_int32 ≡ some (record { kind = signed_integer; size = 4 })
unfolding value_type
word_type = refl

serialized_refused_example :
    (serialized_get_value (item 64 32 word_base) eleven_bytes 4 ≡ failed err_invalid_arg)
    × (serialized_set_value (item 64 32 word_base) eleven_bytes 7 ≡ failed err_invalid_arg)
serialized_refused_example =
    serialized_refused (item 64 32 word_base) eleven_bytes 4 7 eleven_bytes-IsBuffer
      (record { kind = signed_integer; size = 4 }) word_type
      (λ r. absurd (omega (arith, r.fits_buffer)))

word-IsInside : IsInside (item 8 32 word_base) (length eleven_bytes)
word-IsInside = (omega arith, omega arith)

abbrev four_bytes : Bytes
four_bytes = 21 ∷ 22 ∷ 23 ∷ 24 ∷ []

deserialized_set_value-get_example :
    (bytes' : Bytes) × (deserialized_set_value (item 8 32 word_base) eleven_bytes four_bytes
      ≡ ok bytes')
    × (length bytes' ≡ 11)
    × (deserialized_get_value (item 8 32 word_base) bytes' 4 ≡ ok four_bytes)
deserialized_set_value-get_example =
    deserialized_set_value-get (item 8 32 word_base) eleven_bytes four_bytes word-IsInside
      (omega arith) 4 (inr (omega arith))

deserialized_set_value-apart_example :
    (bytes' : Bytes) × (deserialized_set_value (item 8 32 word_base) eleven_bytes four_bytes
      ≡ ok bytes')
    × (deserialized_get_value (item 0 0 byte_base) bytes' 1
        ≡ deserialized_get_value (item 0 0 byte_base) eleven_bytes 1)
deserialized_set_value-apart_example =
    deserialized_set_value-apart (item 8 32 word_base) eleven_bytes four_bytes word-IsInside
      (omega arith) (item 0 0 byte_base) 1 (omega arith, omega arith) (inr (omega arith))
      (inl (omega arith))

word_address : get_address serialized (item 8 32 word_base) 11 ≡ some 1
unfolding codec_methods
word_address = refl

get_address-inside_example : (8 ≡ 8 * 1) × (8 * 1 + 32 ≤ 8 * 11)
get_address-inside_example =
    get_address-inside serialized (item 8 32 word_base) 11 1 (omega arith) word_address

odd_address : get_address serialized (item 12 32 word_base) 11 ≡ none
unfolding codec_methods
odd_address = refl

update_struct-IsLaidOut_example : IsLaidOut 40 (add_sub_elements members)
update_struct-IsLaidOut_example =
    update_struct-IsLaidOut (version 3 0) (version 3 0) 8 unsized (element_of uint8) elements
      uint8-IsFree elements-AllFree bits_in_range bytes_in_range elements-AllHold byte_and_word
      members update_byte_and_word

find_codec_layout-AreFoundApart_example : AreFoundApart codec first_path second_path 88
find_codec_layout-AreFoundApart_example =
    find_codec_layout-AreFoundApart codec first_path second_path 88 (omega arith) codec-IsLaidOut
      first-IsItem second-IsItem paths-ArePart
