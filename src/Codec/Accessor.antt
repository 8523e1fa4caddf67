-- ===== src/Codec/Accessor.antt =====
-- src/ddl/codec/element_accessor.cpp: the value of an element in the bytes of a buffer, serialized or
-- as the host keeps it, and the raw values of src/ddl/codec/static_codec.cpp and
-- src/ddl/codec/codec.cpp. A value is the bit pattern of a variable.
use dev_essential.Base.{
  ℕ, ◌+◌, ◌*◌, ◌/◌, ◌%◌, Bool, not, ◌&&◌, Option, none, some, ltb, ◌==◌, if◌then◌else◌, length,
}
use dev_essential.Serializer.{
  Bytes, Result, ok, failed, err_invalid_arg, err_not_supported, Kind, unsigned_integer,
  signed_integer, floating_point, BitSerializer, bit_serializer, read, write, slice, overwrite,
}
use dev_essential.Layout.{size_t}
use dev_essential.Codec.{
  ElementType, cet_bool, cet_int8, cet_uint8, cet_int16, cet_uint16, cet_int32, cet_uint32,
  cet_int64, cet_uint64, cet_float, cet_double, ItemLayout,
}

pub data DataRepresentation : Type 0 where
  deserialized serialized : DataRepresentation

-- The C++ type of the values of an element type: its converter and its `sizeof`.
pub record Typed : Type 0 where
  pub kind : Kind
  pub size : ℕ

unfoldable pub value_type : ElementType → Option Typed
value_type cet_bool = some (record { kind = unsigned_integer; size = 1 })
value_type cet_int8 = some (record { kind = signed_integer; size = 1 })
value_type cet_uint8 = some (record { kind = unsigned_integer; size = 1 })
value_type cet_int16 = some (record { kind = signed_integer; size = 2 })
value_type cet_uint16 = some (record { kind = unsigned_integer; size = 2 })
value_type cet_int32 = some (record { kind = signed_integer; size = 4 })
value_type cet_uint32 = some (record { kind = unsigned_integer; size = 4 })
value_type cet_int64 = some (record { kind = signed_integer; size = 8 })
value_type cet_uint64 = some (record { kind = unsigned_integer; size = 8 })
value_type cet_float = some (record { kind = floating_point; size = 4 })
value_type cet_double = some (record { kind = floating_point; size = 8 })
value_type _ = none

abbrev too_small : ℕ → ℕ → Bool
too_small element_value_size size = not (element_value_size == 0) && ltb element_value_size size

-- `read_typed_bits`; an `element_value_size` of 0 is not checked.
unfoldable pub read_typed_bits : Typed → ItemLayout → Bytes → ℕ → Result ℕ
read_typed_bits t l bytes element_value_size =
    if too_small element_value_size t.size
    then failed err_invalid_arg
    else read (bit_serializer bytes) t.kind l.base.serialized.bit_offset
        l.base.serialized.type_bit_size_used t.size l.base.byte_order

-- The bytes that a serializer on `bytes` has left there.
unfoldable pub written_to : Bytes → Result BitSerializer → Result Bytes
written_to bytes (failed e) = failed e
written_to bytes (ok s) = elim s.buffer [ none ↦ ok bytes | some bytes' ↦ ok bytes' ]

-- `write_typed_bits`; `memory` is the word that the eight bytes at `element_value` hold.
unfoldable pub write_typed_bits : Typed → ItemLayout → Bytes → ℕ → Result Bytes
write_typed_bits t l bytes memory = written_to bytes (
    write (bit_serializer bytes) t.kind l.base.serialized.bit_offset
      l.base.serialized.type_bit_size_used t.size memory l.base.byte_order)

unfoldable pub serialized_get_value : ItemLayout → Bytes → ℕ → Result ℕ
serialized_get_value l bytes element_value_size = elim (value_type l.base.type) [
  | none ↦ failed err_not_supported
  | some t ↦ read_typed_bits t l bytes element_value_size
]

unfoldable pub serialized_set_value : ItemLayout → Bytes → ℕ → Result Bytes
serialized_set_value l bytes memory = elim (value_type l.base.type) [
  | none ↦ failed err_not_supported
  | some t ↦ write_typed_bits t l bytes memory
]

-- The accessor of the host's layout, without its asserts (debug builds only) that offset and size are
-- whole bytes: both are rounded down. The value is the `byte_size` bytes that are copied to
-- `element_value`.
unfoldable pub deserialized_get_value : ItemLayout → Bytes → ℕ → Result Bytes
deserialized_get_value l bytes element_value_size =
    let byte_offset = l.base.deserialized.bit_offset / 8 in
    let byte_size = l.base.deserialized.type_bit_size / 8 in
    if ltb (length bytes) (size_t (byte_offset + byte_size))
    then failed err_invalid_arg
    else if too_small element_value_size byte_size
    then failed err_invalid_arg
    else ok (slice byte_offset byte_size bytes)

-- The asserts are left out here too. `element_value` gives `byte_size` bytes at least.
unfoldable pub deserialized_set_value : ItemLayout → Bytes → Bytes → Result Bytes
deserialized_set_value l bytes element_value =
    let byte_offset = l.base.deserialized.bit_offset / 8 in
    let byte_size = l.base.deserialized.type_bit_size / 8 in
    if ltb (length bytes) (size_t (byte_offset + byte_size))
    then failed err_invalid_arg
    else ok (overwrite byte_offset (slice 0 byte_size element_value) bytes)

-- `getAddress`: the byte at which the item starts, `none` for the null pointer.
unfoldable pub get_address : DataRepresentation → ItemLayout → ℕ → Option ℕ
get_address representation l data_size =
    let bit_pos : ℕ = elim representation [
      | deserialized ↦ l.base.deserialized.bit_offset
      | serialized ↦ l.base.serialized.bit_offset
    ] in
    let type_bit_size : ℕ = elim representation [
      | deserialized ↦ l.base.deserialized.type_bit_size
      | serialized ↦ l.base.serialized.type_bit_size
    ] in
    if not (bit_pos % 8 == 0)
    then none
    else if ltb data_size
        (size_t (bit_pos / 8 + type_bit_size / 8 + (if type_bit_size % 8 == 0 then 0 else 1)))
    then none
    else some (bit_pos / 8)

-- `setElementRawValue` of a serialized codec; an exception is `none`.
unfoldable pub set_element_raw_value : ItemLayout → Bytes → ℕ → ℕ → Option Bytes
set_element_raw_value l bytes memory value_size =
    if not (value_size == 0) && ltb (size_t (value_size * 8)) l.base.serialized.type_bit_size
    then none
    else elim (serialized_set_value l bytes memory) [ ok bytes' ↦ some bytes' | failed e ↦ none ]
