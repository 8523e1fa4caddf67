-- ===== src/Codec.antt =====
-- src/ddl/codec/codec_elements.cpp, include/ddl/codec/codec_index.h and
-- include/ddl/codec/codec_type_info.h: the tree of the elements of a codec, and the layout of the
-- element that an index leads to. Left out of a layout are the constants, the default values and
-- the number of children, which nothing here reads. A `size_t` is a number below 2 ^ 64, an
-- exception is `none`.
pub mod Accessor
pub mod Sound
pub mod Distinct
pub mod Writing
pub mod Refused
pub mod Deserialized
pub mod LeafSearch
pub mod LeafFound
pub mod Members
pub mod Built
pub mod Whole
mod Samples
mod Tests
mod LeafTests
use dev_essential.Base.{
  ℕ, suc, zero, ◌+◌, ◌-◌, ◌*◌, ◌^◌, Bool, true, ◌&&◌, ◌||◌, Option, none, some, List, [], ◌∷◌, ltb,
  ◌==◌, if◌then◌else◌,
}
use dev_essential.Serializer.{Endianess, bit_little_endian}
use dev_essential.Layout.{size_t, OptionalSize, given, Placed, TypeInfo}
use dev_essential.Layout.Elements.{deserialized_byte_pos_at, serialized_bit_offset_at}
use dev_essential.CodecIndex.{ElementIndex}

pub data ElementType : Type 0 where
  cet_empty cet_bool cet_int8 cet_uint8 cet_int16 cet_uint16 cet_int32 cet_uint32 : ElementType
  cet_int64 cet_uint64 cet_float cet_double cet_sub_codec cet_user_type : ElementType

pub record PositionWithAlignedTypeSize : Type 0 where
  pub bit_offset : ℕ
  pub bit_size : ℕ
  pub type_bit_size : ℕ
  pub type_bit_size_aligned : ℕ

pub record PositionWithUsedBitsTypeSize : Type 0 where
  pub bit_offset : ℕ
  pub bit_size : ℕ
  pub type_bit_size : ℕ
  pub type_bit_size_used : ℕ

-- `type` stands for the element type in `type_info`.
pub record ElementLayoutBase : Type 0 where
  pub deserialized : PositionWithAlignedTypeSize
  pub serialized : PositionWithUsedBitsTypeSize
  pub byte_order : Endianess
  pub array_size : ℕ
  pub type : ElementType

-- `ElementLayout`: that of one item of the array.
pub record ItemLayout : Type 0 where
  pub base : ElementLayoutBase
  pub array_pos : ℕ

-- An element with its layout, whether its position is static, and its own elements.
mutual
  pub data CodecElement : Type 0 where
    codec_element : ElementLayoutBase → Bool → SubElements → CodecElement

  pub data SubElements : Type 0 where
    no_more : SubElements
    sub_element : CodecElement → SubElements → SubElements

abbrev pub layout_of : CodecElement → ElementLayoutBase
layout_of (codec_element base known children) = base

abbrev pub has_static_position : CodecElement → Bool
has_static_position (codec_element base known children) = known

abbrev pub children_of : CodecElement → SubElements
children_of (codec_element base known children) = children

abbrev pub invalid_codec_index_pos : ℕ
invalid_codec_index_pos = 2 ^ 64 - 1

-- `_codec_elements_vector[index]`, `none` behind its end.
pub nth_element : SubElements → ℕ → Option CodecElement
nth_element no_more i = none
nth_element (sub_element e es) zero = some e
nth_element (sub_element e es) (suc i) = nth_element es i

pub get_element : SubElements → ℕ → Option CodecElement
get_element es index = if index == invalid_codec_index_pos then none else nth_element es index

-- The members of a layout that is not filled yet; all but the offsets are set before any is read.
abbrev pub unset_layout : ItemLayout
unset_layout = record {
  base = record {
    deserialized = record {
      bit_offset = 0;
      bit_size = 0;
      type_bit_size = 0;
      type_bit_size_aligned = 0;
    };
    serialized = record { bit_offset = 0; bit_size = 0; type_bit_size = 0; type_bit_size_used = 0 };
    byte_order = bit_little_endian;
    array_size = 0;
    type = cet_empty;
  };
  array_pos = 0;
}

pub add_offsets : ElementLayoutBase → ℕ → ItemLayout → ItemLayout
add_offsets b array_pos l = record l {
  base = record (l.base) {
    deserialized = record (l.base.deserialized) {
      bit_offset = size_t (
          l.base.deserialized.bit_offset
          + (b.deserialized.bit_offset + array_pos * b.deserialized.type_bit_size_aligned));
    };
    serialized = record (l.base.serialized) {
      bit_offset = size_t (
          l.base.serialized.bit_offset
          + (b.serialized.bit_offset + array_pos * b.serialized.type_bit_size));
    };
  };
}

-- All members but the offsets are those of the element.
abbrev pub copy_base : ElementLayoutBase → ℕ → ItemLayout → ItemLayout
copy_base b array_pos l = record {
  base = record b {
    deserialized = record (b.deserialized) { bit_offset = l.base.deserialized.bit_offset };
    serialized = record (b.serialized) { bit_offset = l.base.serialized.bit_offset };
  };
  array_pos = array_pos;
}

pub add_base_layout : ElementLayoutBase → ℕ → Bool → ItemLayout → Option ItemLayout
add_base_layout b array_pos known_position l =
    if ltb array_pos b.array_size || (array_pos == 0 && b.array_size == 0 && known_position)
    then some (copy_base b array_pos (add_offsets b array_pos l))
    else none

-- The rest of the index, from `index_pos` on.
pub find_codec_layout : SubElements → List ElementIndex → Option ItemLayout
find_codec_layout es [] = none
find_codec_layout es (x ∷ []) = elim (get_element es x.element_index) [
  | none ↦ none
  | some e ↦ add_base_layout (layout_of e) x.array_pos (has_static_position e) unset_layout
]
find_codec_layout es (x ∷ y ∷ rest) = elim (get_element es x.element_index) [
  | none ↦ none
  | some e ↦ elim (find_codec_layout (children_of e) (y ∷ rest)) [
    | none ↦ none
    | some l ↦ some (add_offsets (layout_of e) x.array_pos l)
  ]
]

-- `getSerializedBitOffset` and `getDeserializedBytePos` of an element in a structure: 0 where one
-- of the two positions is not known.
abbrev within_struct : OptionalSize → OptionalSize → ℕ
within_struct of_struct of_element =
    if of_struct.valid && of_element.valid then size_t (of_struct.value + of_element.value) else 0

abbrev leaf_type_bit_size : TypeInfo → ℕ
leaf_type_bit_size type_info = size_t (type_info.type_byte_size * 8)

abbrev leaf_type_bit_size_aligned : TypeInfo → ℕ
leaf_type_bit_size_aligned type_info = size_t (type_info.type_aligned_byte_size * 8)

-- What `initializeStatic` makes of an element of a simple type, in a structure that starts at 0.
pub initialize_static : Placed → TypeInfo → Endianess → ElementType → ElementLayoutBase
initialize_static p type_info byte_order type =
    let bit_size = p.info.serialized_bit_size.value in
    let type_bit_size = p.info.serialized_type_bit_size in
    record {
      deserialized = record {
        bit_offset = size_t (within_struct (given 0) (deserialized_byte_pos_at p.info 0) * 8);
        bit_size = size_t (p.info.deserialized_byte_size.value * 8);
        type_bit_size = leaf_type_bit_size type_info;
        type_bit_size_aligned = leaf_type_bit_size_aligned type_info;
      };
      serialized = record {
        bit_offset = within_struct (given 0) (serialized_bit_offset_at p.info 0);
        bit_size = bit_size;
        type_bit_size = type_bit_size;
        type_bit_size_used = if ltb bit_size type_bit_size then bit_size else type_bit_size;
      };
      byte_order = byte_order;
      array_size =
          if p.element.array_size == 0
          then (if p.element.is_dynamic_array then 0 else 1)
          else p.element.array_size;
      type = type;
    }

-- What an element of a simple type has for `initializeStatic`.
pub record Member : Type 0 where
  pub placed : Placed
  pub type_info : TypeInfo
  pub byte_order : Endianess
  pub type : ElementType

-- `addSubElement` for each element of a structure whose elements are static and of simple types.
pub add_sub_elements : List Member → SubElements
add_sub_elements [] = no_more
add_sub_elements (m ∷ ms) =
    sub_element
      (codec_element (initialize_static m.placed m.type_info m.byte_order m.type) true no_more)
      (add_sub_elements ms)
