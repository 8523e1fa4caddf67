-- ===== src/Layout/Elements.antt =====
-- calculateDeserializedPosSize, and `update` of ElementTypeInfo.
use dev_essential.Base.{
  ℕ, ◌+◌, ◌-◌, ◌*◌, ◌/◌, ◌%◌, Bool, true, false, not, ◌&&◌, Option, none, some, ltb, ◌==◌,
  if◌then◌else◌,
}
use dev_essential.Version.{
  Version, version, ddl_version_30, ddl_version_current, equals, is_at_least,
}
use dev_essential.Layout.{
  size_t, OptionalSize, absent, given, same_optional, TypeInfo, Element, ElementTypeInfo, e_invalid,
  CalculatedSerializedPos, Placed, follows_dynamic, dynamic_with, calculate_serialized_pos_size,
}

pub record CalculatedDeserializedPos : Type 0 where
  pub deserialized_byte_pos : OptionalSize
  pub deserialized_byte_size : OptionalSize
  pub deserialized_type_byte_size : ℕ
  pub deserialized_type_aligned_byte_size : ℕ
  pub valid : Bool
  pub is_dynamic : Bool
  pub is_after_dynamic : Bool

-- The alignment of an element, of its type where the element sets none.
unfoldable pub alignment_of_element : Element → TypeInfo → ℕ
alignment_of_element current type_info =
    let alignment =
      if current.alignment == e_invalid then type_info.type_alignment else current.alignment in
    if alignment == 0 then 1 else alignment

unfoldable pub move_to_alignment : ℕ → ℕ → ℕ
move_to_alignment alignment pos =
    if not (pos % alignment == 0) then size_t (pos + (alignment - pos % alignment)) else pos

unfoldable pub deserialized_pos_behind : ℕ → Option Placed → ℕ
deserialized_pos_behind alignment none = 0
deserialized_pos_behind alignment (some p) =
    move_to_alignment alignment
      (size_t (p.info.deserialized_byte_pos.value + p.info.deserialized_byte_size.value))

-- The version of the structure, else of the file, else the latest.
unfoldable pub relevant_version : Version → Version → Version
relevant_version struct_ddl_version file_ddl_version =
    let chosen =
      if not (equals struct_ddl_version (version 0 0))
      then struct_ddl_version
      else file_ddl_version in
    if equals chosen (version 0 0) then ddl_version_current else chosen

-- From 3.0 on each item of an array has the aligned size; before, the last one has not.
unfoldable pub deserialized_size : Version → ℕ → TypeInfo → ℕ
deserialized_size relevant array_size type_info =
    let array_size_used = if array_size == 0 then 1 else array_size in
    if is_at_least relevant ddl_version_30
    then size_t (array_size_used * type_info.type_aligned_byte_size)
    else size_t
        (1 * type_info.type_byte_size + (array_size_used - 1) * type_info.type_aligned_byte_size)

unfoldable pub calculate_deserialized_pos_size :
    Element → Option Placed → Version → Version → CalculatedDeserializedPos
calculate_deserialized_pos_size current previous struct_ddl_version file_ddl_version =
    elim current.type_info [
      | none ↦ record {
        deserialized_byte_pos = absent;
        deserialized_byte_size = absent;
        deserialized_type_byte_size = 0;
        deserialized_type_aligned_byte_size = 0;
        valid = false;
        is_dynamic = false;
        is_after_dynamic = false;
      }
      | some type_info ↦ record {
        deserialized_byte_pos =
            if follows_dynamic previous
            then absent
            else given (deserialized_pos_behind (alignment_of_element current type_info) previous);
        deserialized_byte_size = given (
            deserialized_size (relevant_version struct_ddl_version file_ddl_version)
              current.array_size type_info);
        deserialized_type_byte_size = type_info.type_byte_size;
        deserialized_type_aligned_byte_size = type_info.type_aligned_byte_size;
        valid = true;
        is_dynamic = dynamic_with current type_info;
        is_after_dynamic = follows_dynamic previous;
      }
    ]

-- setBytePos and setBitPos change a position only if it differs.
abbrev set_position : OptionalSize → OptionalSize → OptionalSize
set_position old new = if same_optional old new then old else new

abbrev reset_positions : Element → CalculatedSerializedPos → Element
reset_positions e pos =
    if pos.reset_allowed
    then record e {
      byte_pos = set_position e.byte_pos pos.serialized_byte_pos;
      bit_pos = set_position e.bit_pos pos.serialized_bit_pos;
    }
    else e

-- What `update` leaves in the element and its info, once the serialized position is known.
unfoldable pub place :
    Version → Version → Element → Option Placed → CalculatedSerializedPos → Placed
place struct_ddl_version file_ddl_version e previous ser =
    let des = calculate_deserialized_pos_size e previous struct_ddl_version file_ddl_version in
    record {
      element = reset_positions e ser;
      info = record {
        serialized_byte_pos = ser.serialized_byte_pos;
        serialized_absolute_bit_offset =
            given (size_t (ser.serialized_byte_pos.value * 8 + ser.serialized_bit_pos.value));
        serialized_bit_size = ser.serialized_bit_size;
        serialized_type_bit_size = ser.serialized_type_bit_size.value;
        deserialized_byte_pos = des.deserialized_byte_pos;
        deserialized_byte_size = des.deserialized_byte_size;
        deserialized_type_byte_size = des.deserialized_type_byte_size;
        deserialized_type_aligned_byte_size = des.deserialized_type_aligned_byte_size;
        is_dynamic = des.is_dynamic;
        is_after_dynamic = des.is_after_dynamic;
        is_valid = des.valid && ser.valid;
      };
    }

unfoldable pub update_element : Version → Version → Element → Option Placed → Option Placed
update_element struct_ddl_version file_ddl_version e previous =
    elim (calculate_serialized_pos_size e previous) [
      | none ↦ none
      | some ser ↦ some (place struct_ddl_version file_ddl_version e previous ser)
    ]

-- Positions within an array: `array_pos` items further on.
unfoldable pub deserialized_byte_pos_at : ElementTypeInfo → ℕ → OptionalSize
deserialized_byte_pos_at info array_pos =
    if info.deserialized_byte_pos.valid && ltb 0 array_pos
    then given (
        size_t
          (info.deserialized_byte_pos.value + array_pos * info.deserialized_type_aligned_byte_size))
    else info.deserialized_byte_pos

unfoldable pub serialized_byte_pos_at : ElementTypeInfo → ℕ → OptionalSize
serialized_byte_pos_at info array_pos =
    if info.serialized_byte_pos.valid && ltb 0 array_pos
    then (let bit_offset = size_t (array_pos * info.serialized_type_bit_size) in
        if bit_offset % 8 == 0
        then given (size_t (info.serialized_byte_pos.value + bit_offset / 8))
        else given (size_t (info.serialized_byte_pos.value + bit_offset / 8 + 1)))
    else info.serialized_byte_pos

unfoldable pub serialized_bit_offset_at : ElementTypeInfo → ℕ → OptionalSize
serialized_bit_offset_at info array_pos =
    if info.serialized_absolute_bit_offset.valid && ltb 0 array_pos
    then given (
        size_t
          (info.serialized_absolute_bit_offset.value + array_pos * info.serialized_type_bit_size))
    else info.serialized_absolute_bit_offset
