-- ===== src/Layout.antt =====
-- src/ddl/dd/dd_offset_calculation.cpp and src/ddl/dd/dd_typeinfomodel.cpp: the positions and sizes
-- of the elements of a structure, in the serialized bits and in memory. The type of an element is
-- given by its `TypeInfo`, `none` where the type does not exist; an exception is `none` too.
pub mod Elements
pub mod Struct
pub mod Align
pub mod Sized
pub mod Behind
pub mod Chain
pub mod Order
pub mod Whole
pub mod Each
pub mod Items
pub mod Tests
use dev_essential.Base.{
  ℕ, ◌+◌, ◌-◌, ◌*◌, ◌/◌, ◌%◌, ◌^◌, Bool, true, false, ◌&&◌, ◌||◌, Option, none, some, List, [], ◌∷◌,
  ltb, ◌==◌, if◌then◌else◌,
}
use dev_essential.Version.{
  Version, version, ddl_version_30, ddl_version_current, equals, is_at_least,
}

-- size_t
abbrev pub size_t : ℕ → ℕ
size_t n = n % 2 ^ 64

-- `utility::Optional<size_t>`: one that is not valid still has a value.
pub record OptionalSize : Type 0 where
  pub valid : Bool
  pub value : ℕ

abbrev pub absent : OptionalSize
absent = record { valid = false; value = 0 }

abbrev pub given : ℕ → OptionalSize
given n = record { valid = true; value = n }

abbrev pub same_optional : OptionalSize → OptionalSize → Bool
same_optional a b =
    if a.valid then b.valid && a.value == b.value else if b.valid then false else true

pub record TypeInfo : Type 0 where
  pub type_bit_size : ℕ
  pub type_alignment : ℕ
  pub type_byte_size : ℕ
  pub type_aligned_byte_size : ℕ
  pub type_unaligned_byte_size : ℕ
  pub is_dynamic : Bool
  pub is_valid : Bool

-- An element of a structure, as its author wrote it. `is_dynamic_array` is isDynamicArraySize.
pub record Element : Type 0 where
  pub byte_pos : OptionalSize
  pub bit_pos : OptionalSize
  pub num_bits : OptionalSize
  pub array_size : ℕ
  pub is_dynamic_array : Bool
  pub alignment : ℕ
  pub type_info : Option TypeInfo

pub record ElementTypeInfo : Type 0 where
  pub serialized_byte_pos : OptionalSize
  pub serialized_absolute_bit_offset : OptionalSize
  pub serialized_bit_size : OptionalSize
  pub serialized_type_bit_size : ℕ
  pub deserialized_byte_pos : OptionalSize
  pub deserialized_byte_size : OptionalSize
  pub deserialized_type_byte_size : ℕ
  pub deserialized_type_aligned_byte_size : ℕ
  pub is_dynamic : Bool
  pub is_after_dynamic : Bool
  pub is_valid : Bool

abbrev pub e_invalid : ℕ
e_invalid = 255

pub calculate_aligned_size : ℕ → ℕ → ℕ
calculate_aligned_size unaligned_byte_size alignment =
    let alignment' = if alignment == 0 then 1 else alignment in
    let rest_bytes = unaligned_byte_size % alignment' in
    if ltb 0 rest_bytes
    then size_t (unaligned_byte_size + (alignment' - rest_bytes))
    else unaligned_byte_size

pub calculate_serialized_bit_size : ℕ → ℕ → OptionalSize → ℕ
calculate_serialized_bit_size array_size type_bit_size num_bits =
    let array_size_to_use = if array_size == 0 then 1 else array_size in
    if num_bits.valid
    then (if ltb type_bit_size num_bits.value then type_bit_size else num_bits.value)
    else size_t (type_bit_size * array_size_to_use)

-- `update` of a data type; `predefined` is the alignment that PredefinedDataTypes has for its name.
pub type_info_of_data_type : ℕ → OptionalSize → OptionalSize → TypeInfo
type_info_of_data_type bit_size default_alignment predefined =
    let byte_size = if bit_size % 8 == 0 then bit_size / 8 else bit_size / 8 + 1 in
    let found = if default_alignment.valid then default_alignment else predefined in
    let alignment = if found.valid then found.value else byte_size in
    record {
      type_bit_size = bit_size;
      type_alignment = alignment;
      type_byte_size = byte_size;
      type_aligned_byte_size = calculate_aligned_size byte_size alignment;
      type_unaligned_byte_size = byte_size;
      is_dynamic = false;
      is_valid = true;
    }

pub record CalculatedSerializedPos : Type 0 where
  pub serialized_byte_pos : OptionalSize
  pub serialized_bit_pos : OptionalSize
  pub serialized_bit_size : OptionalSize
  pub serialized_type_bit_size : OptionalSize
  pub valid : Bool
  pub is_dynamic : Bool
  pub is_after_dynamic : Bool
  pub reset_allowed : Bool

abbrev unknown_serialized : CalculatedSerializedPos
unknown_serialized = record {
  serialized_byte_pos = absent;
  serialized_bit_pos = absent;
  serialized_bit_size = absent;
  serialized_type_bit_size = absent;
  valid = true;
  is_dynamic = false;
  is_after_dynamic = false;
  reset_allowed = true;
}

-- An element that is laid out, with its info.
pub record Placed : Type 0 where
  pub element : Element
  pub info : ElementTypeInfo

abbrev pub follows_dynamic : Option Placed → Bool
follows_dynamic none = false
follows_dynamic (some p) = p.info.is_dynamic || p.info.is_after_dynamic

-- The bit behind the previous element.
abbrev pub end_bit : Placed → ℕ
end_bit p = size_t (
    p.info.serialized_byte_pos.value * 8
    + p.element.bit_pos.value
    + p.info.serialized_bit_size.value)

-- The last part of calculateSerializedPosSize, where the position is calculated.
pub serialized_pos_behind :
    Element → Option Placed → CalculatedSerializedPos → Option CalculatedSerializedPos
serialized_pos_behind current none result = some (record result { serialized_byte_pos = given 0 })
serialized_pos_behind current (some p) result =
    if p.info.serialized_byte_pos.valid
    then (if p.element.bit_pos.valid && current.bit_pos.valid
        then some (record result {
          serialized_bit_pos = given (end_bit p % 8);
          serialized_byte_pos = given (end_bit p / 8);
        })
        else some (record result {
          serialized_byte_pos =
              given (if ltb 0 (end_bit p % 8) then end_bit p / 8 + 1 else end_bit p / 8);
        }))
    else none

abbrev pub dynamic_with : Element → TypeInfo → Bool
dynamic_with current type_info = current.is_dynamic_array || type_info.is_dynamic

pub serialized_pos_of_type : Element → Option Placed → TypeInfo → Option CalculatedSerializedPos
serialized_pos_of_type current previous type_info =
    let dynamic = dynamic_with current type_info in
    let result : CalculatedSerializedPos = record unknown_serialized {
      serialized_type_bit_size = given type_info.type_bit_size;
      is_dynamic = dynamic;
      serialized_bit_size =
          if dynamic
          then absent
          else given (
              calculate_serialized_bit_size current.array_size type_info.type_bit_size
                current.num_bits);
      is_after_dynamic = follows_dynamic previous;
    } in
    if follows_dynamic previous
    then some result
    else if current.byte_pos.valid
    then some (record result {
      serialized_byte_pos = given current.byte_pos.value;
      serialized_bit_pos = given current.bit_pos.value;
      reset_allowed = false;
    })
    else serialized_pos_behind current previous result

pub calculate_serialized_pos_size : Element → Option Placed → Option CalculatedSerializedPos
calculate_serialized_pos_size current previous = elim current.type_info [
  | none ↦ some (record unknown_serialized { valid = false })
  | some type_info ↦ serialized_pos_of_type current previous type_info
]
