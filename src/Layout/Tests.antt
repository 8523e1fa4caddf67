-- ===== src/Layout/Tests.antt =====
-- Runs of the layout, and the theorems at concrete elements.
use dev_essential.Base.{
  ℕ, ◌≤◌, ◌<◌, ◌+◌, ◌^◌, ◌≡◌, refl, arith, true, false, inr, Option, none, some, List, [], ◌∷◌, max,
}
use dev_essential.Version.{version}
use dev_essential.Version.{equals, is_at_least, is_less}
use dev_essential.Layout.{
  end_bit, ElementTypeInfo, absent, given, TypeInfo, Element, Placed, e_invalid,
  calculate_aligned_size, calculate_serialized_bit_size, type_info_of_data_type,
  serialized_pos_behind, serialized_pos_of_type, calculate_serialized_pos_size,
}
use dev_essential.Layout.Elements.{
  alignment_of_element, move_to_alignment, deserialized_pos_behind, relevant_version,
  deserialized_size, calculate_deserialized_pos_size, place, update_element,
  deserialized_byte_pos_at, serialized_byte_pos_at, serialized_bit_offset_at,
}
use dev_essential.Layout.Struct.{
  serialized_highest_bit, discover, update_elements, finish_struct, update_struct,
}
use dev_essential.Layout.Align.{IsAligned, calculate_aligned_size-IsAligned}
use dev_essential.Layout.Sized.{IsStatic, IsKnown, start_bit, start_byte, end_byte}
use dev_essential.Layout.Chain.{
  IsFree, AllFree, none_left, one_more, bits_of, bytes_of, all_bits, all_bytes,
}
use dev_essential.Layout.Items.{items_apart}
use dev_essential.Layout.Whole.{IsPlaced, update_struct-IsPlaced, elements_apart, elements_inside}

layout_methods : Unit {0}
unfolding equals is_less is_at_least calculate_aligned_size calculate_serialized_bit_size
    type_info_of_data_type serialized_pos_behind serialized_pos_of_type
    calculate_serialized_pos_size alignment_of_element move_to_alignment deserialized_pos_behind
    relevant_version deserialized_size calculate_deserialized_pos_size place update_element
    deserialized_byte_pos_at serialized_byte_pos_at serialized_bit_offset_at serialized_highest_bit
    discover update_elements finish_struct update_struct
layout_methods = tt

abbrev pub uint8 : TypeInfo
uint8 = record {
  type_bit_size = 8;
  type_alignment = 1;
  type_byte_size = 1;
  type_aligned_byte_size = 1;
  type_unaligned_byte_size = 1;
  is_dynamic = false;
  is_valid = true;
}

abbrev pub uint32 : TypeInfo
uint32 = record {
  type_bit_size = 32;
  type_alignment = 4;
  type_byte_size = 4;
  type_aligned_byte_size = 4;
  type_unaligned_byte_size = 4;
  is_dynamic = false;
  is_valid = true;
}

abbrev pub element_of : TypeInfo → Element
element_of t = record {
  byte_pos = absent;
  bit_pos = absent;
  num_bits = absent;
  array_size = 1;
  is_dynamic_array = false;
  alignment = e_invalid;
  type_info = some t;
}

abbrev pub unsized : TypeInfo
unsized = record {
  type_bit_size = 0;
  type_alignment = 0;
  type_byte_size = 0;
  type_aligned_byte_size = 0;
  type_unaligned_byte_size = 0;
  is_dynamic = false;
  is_valid = false;
}

data_types :
    (type_info_of_data_type 8 absent absent ≡ uint8)
    × (type_info_of_data_type 32 absent (given 4) ≡ uint32)
unfolding layout_methods
data_types = (refl, refl)

-- The sizes of the structure of a byte and a word of 32 bits, aligned to 8.
abbrev sizes : Option (TypeInfo × List Placed) → ℕ × ℕ × ℕ
sizes none = (0, 0, 0)
sizes (some (t, _)) = (t.type_bit_size, t.type_byte_size, t.type_unaligned_byte_size)

two_elements :
    sizes (
      update_struct
        (version 3 0)
        (version 3 0)
        8
        unsized
        (element_of uint8 ∷ element_of uint32 ∷ []))
    ≡ (40, 8, 8)
unfolding layout_methods
two_elements = refl

-- A byte at the start of its structure.
abbrev pub first_byte : Placed
first_byte = record {
  element = record (element_of uint8) { byte_pos = given 0 };
  info = record {
    serialized_byte_pos = given 0;
    serialized_absolute_bit_offset = given 0;
    serialized_bit_size = given 8;
    serialized_type_bit_size = 8;
    deserialized_byte_pos = given 0;
    deserialized_byte_size = given 1;
    deserialized_type_byte_size = 1;
    deserialized_type_aligned_byte_size = 1;
    is_dynamic = false;
    is_after_dynamic = false;
    is_valid = true;
  };
}

update_first_byte :
    update_element (version 3 0) (version 3 0) (element_of uint8) none ≡ some first_byte
unfolding layout_methods
update_first_byte = refl

pub uint32-IsStatic : IsStatic (element_of uint32) uint32
uint32-IsStatic = record { typed = refl; fixed_array = refl; fixed_type = refl }

first_byte-IsKnown : IsKnown first_byte
first_byte-IsKnown = record { known = refl; not_dynamic = refl; not_after_dynamic = refl }

room_in_memory : 1 + alignment_of_element (element_of uint32) uint32 < 2 ^ 64
unfolding layout_methods
room_in_memory = omega arith

room_for_13 : 13 + max 1 8 < 2 ^ 64
room_for_13 = omega arith

calculate_aligned_size-IsAligned_example : IsAligned (max 1 8) 13 (calculate_aligned_size 13 8)
calculate_aligned_size-IsAligned_example = calculate_aligned_size-IsAligned 13 8 room_for_13

abbrev pub second_word : Placed
second_word = record {
  element = record (element_of uint32) { byte_pos = given 1 };
  info = record {
    serialized_byte_pos = given 1;
    serialized_absolute_bit_offset = given 8;
    serialized_bit_size = given 32;
    serialized_type_bit_size = 32;
    deserialized_byte_pos = given 4;
    deserialized_byte_size = given 4;
    deserialized_type_byte_size = 4;
    deserialized_type_aligned_byte_size = 4;
    is_dynamic = false;
    is_after_dynamic = false;
    is_valid = true;
  };
}

abbrev pub byte_and_word : TypeInfo
byte_and_word = record {
  type_bit_size = 40;
  type_alignment = 8;
  type_byte_size = 8;
  type_aligned_byte_size = 8;
  type_unaligned_byte_size = 8;
  is_dynamic = false;
  is_valid = true;
}

abbrev pub elements : List Element
elements = element_of uint32 ∷ []

pub update_byte_and_word :
    update_struct (version 3 0) (version 3 0) 8 unsized (element_of uint8 ∷ elements)
    ≡ some (byte_and_word, first_byte ∷ second_word ∷ [])
unfolding layout_methods
update_byte_and_word = refl

abbrev pub uint8-IsFree : IsFree (element_of uint8)
uint8-IsFree = record {
  type_info = uint8;
  static = record { typed = refl; fixed_array = refl; fixed_type = refl };
  no_position = refl;
  fresh = inr refl;
}

abbrev uint32-IsFree : IsFree (element_of uint32)
uint32-IsFree = record {
  type_info = uint32;
  static = uint32-IsStatic;
  no_position = refl;
  fresh = inr refl;
}

abbrev pub elements-AllFree : AllFree elements
elements-AllFree = one_more uint32-IsFree none_left

pub bits_in_range : all_bits (one_more uint8-IsFree elements-AllFree) ≤ 2 ^ 64
unfolding layout_methods all_bits bits_of
bits_in_range = omega arith

pub bytes_in_range :
    all_bytes (version 3 0) (version 3 0) (one_more uint8-IsFree elements-AllFree) < 2 ^ 64
unfolding layout_methods all_bytes bytes_of
bytes_in_range = omega arith

update_struct-IsPlaced_example :
    (info : TypeInfo) × (q : Placed) × (qs : List Placed) × (update_struct
        (version 3 0)
        (version 3 0)
        8
        unsized
        (element_of uint8 ∷ elements)
      ≡ some (info, q ∷ qs))
    × IsPlaced (version 3 0) (version 3 0) 8 (element_of uint8) elements info q qs
update_struct-IsPlaced_example =
    update_struct-IsPlaced (version 3 0) (version 3 0) 8 unsized (element_of uint8) elements
      uint8-IsFree elements-AllFree bits_in_range bytes_in_range

elements_apart_example :
    (end_bit first_byte ≤ start_bit second_word) × (end_byte first_byte ≤ start_byte second_word)
elements_apart_example =
    elements_apart (version 3 0) (version 3 0) 8 unsized (element_of uint8) elements uint8-IsFree
      elements-AllFree bits_in_range bytes_in_range byte_and_word (first_byte ∷ second_word ∷ [])
      update_byte_and_word 0 1 first_byte second_word (omega arith) refl refl

elements_inside_example : (end_bit second_word ≤ 40) × (end_byte second_word ≤ 8)
elements_inside_example =
    elements_inside (version 3 0) (version 3 0) 8 unsized (element_of uint8) elements uint8-IsFree
      elements-AllFree bits_in_range bytes_in_range byte_and_word (first_byte ∷ second_word ∷ [])
      update_byte_and_word (omega arith) 1 second_word refl

-- The info of an array of three words behind a byte.
abbrev three_words : ElementTypeInfo
three_words = record second_word.info {
  serialized_bit_size = given 96;
  deserialized_byte_size = given 12;
}

items_apart_example :
    ((deserialized_byte_pos_at three_words 0).value + 4
      ≤ (deserialized_byte_pos_at three_words 2).value)
    × ((serialized_bit_offset_at three_words 0).value + 32
        ≤ (serialized_bit_offset_at three_words 2).value)
items_apart_example =
    items_apart three_words refl refl 3 (omega arith) (omega arith) 0 2 (omega arith) (omega arith)
