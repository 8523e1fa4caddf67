-- ===== src/Codec/Refused.antt =====
-- What the accessors refuse.
use dev_essential.Base.{if_same, ℕ, not, ◌&&◌, ltb, ◌==◌, ◌≡◌, refl, some}
use dev_essential.Serializer.{Bytes, failed, err_invalid_arg}
use dev_essential.Serializer.Access.{IsBuffer, InRange, access_refused}
use dev_essential.Codec.{ItemLayout}
use dev_essential.Codec.Accessor.{
  Typed, value_type, read_typed_bits, write_typed_bits, written_to, serialized_get_value,
  serialized_set_value,
}
use dev_essential.Codec.Writing.{value_type-size}

-- An access to a value of a simple type whose bits are none, leave the buffer or do not fit the type
-- is refused with ERR_INVALID_ARG, whatever the byte order, the room for the value and the value.
pub serialized_refused :
    (l : ItemLayout) (bytes : Bytes) (n memory : ℕ)
    → IsBuffer bytes
    → (t : Typed) → value_type l.base.type ≡ some t
    → ¬ InRange bytes l.base.serialized.bit_offset l.base.serialized.type_bit_size_used t.size
    → (serialized_get_value l bytes n ≡ failed err_invalid_arg)
      × (serialized_set_value l bytes memory ≡ failed err_invalid_arg)
unfolding serialized_get_value serialized_set_value read_typed_bits write_typed_bits written_to
serialized_refused l bytes n memory buffer t e out =
    let (no_read, no_write) =
      access_refused bytes l.base.serialized.bit_offset l.base.serialized.type_bit_size_used t.size
        buffer (value_type-size l.base.type t e) t.kind memory l.base.byte_order out in
    (
      rw (serialized_get_value, e, no_read) (if_same (not (n == 0) && ltb n t.size) _),
      rw (serialized_set_value, e, no_write) refl,
    )
