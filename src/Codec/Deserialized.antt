-- ===== src/Codec/Deserialized.antt =====
-- The accessor of values as the host keeps them, and the address of an item.
use dev_essential.Base.{
  ℕ, ◌+◌, ◌*◌, ◌/◌, ◌^◌, ◌≤◌, ◌<◌, ◌≡◌, false, refl, sym, ap, ◌∙◌, ◌⊎◌, inl, inr, arith, some,
  length, take, ltb,
}
use native.Mathlib.Nat.{mod-eq_of_lt}
use dev_essential.Serializer.{Bytes, ok, failed, slice, overwrite, err_invalid_arg}
use dev_essential.Serializer.Words.{length-overwrite}
use dev_essential.Serializer.Slices.{
  slice-overwrite, slice-overwrite_below, slice-overwrite_above, length-slice, slice_start,
}
use dev_essential.Layout.{size_t}
use dev_essential.Codec.{ItemLayout}
use dev_essential.Codec.Accessor.{
  DataRepresentation, deserialized, serialized, deserialized_get_value, deserialized_set_value,
  get_address,
}
use dev_essential.Codec.Writing.{HasRoom, large_enough}

abbrev pub byte_offset : ItemLayout → ℕ
byte_offset l = l.base.deserialized.bit_offset / 8

abbrev pub byte_size : ItemLayout → ℕ
byte_size l = l.base.deserialized.type_bit_size / 8

-- The item lies in `size` bytes.
abbrev pub IsInside : ItemLayout → ℕ → Type 0
IsInside l size = (byte_offset l + byte_size l ≤ size) × (size < 2 ^ 64)

abbrev pub position_of : DataRepresentation → ItemLayout → ℕ
position_of deserialized l = l.base.deserialized.bit_offset
position_of serialized l = l.base.serialized.bit_offset

abbrev pub type_size_of : DataRepresentation → ItemLayout → ℕ
type_size_of deserialized l = l.base.deserialized.type_bit_size
type_size_of serialized l = l.base.serialized.type_bit_size

module _ (l : ItemLayout) (bytes : Bytes) (inside : IsInside l (length bytes)) where
  passes_check : ltb (length bytes) (size_t (byte_offset l + byte_size l)) ≡ false
  passes_check = rw (mod-eq_of_lt no_wrap) (not_above inside.0)
    where
      no_wrap : byte_offset l + byte_size l < 2 ^ 64
      no_wrap = omega (arith, inside.0, inside.1)

      not_above : {m n : ℕ} → m ≤ n → ltb n m ≡ false
      not_above h = ground arith

  deserialized_set_value-overwrite :
      (value : Bytes)
      → deserialized_set_value l bytes value
        ≡ ok (overwrite (byte_offset l) (slice 0 (byte_size l) value) bytes)
  unfolding deserialized_set_value
  deserialized_set_value-overwrite value = rw passes_check refl

  deserialized_get_value-slice :
      (n : ℕ)
      → HasRoom n (byte_size l)
      → deserialized_get_value l bytes n ≡ ok (slice (byte_offset l) (byte_size l) bytes)
  unfolding deserialized_get_value
  deserialized_get_value-slice n room =
      rw passes_check (large_enough n (byte_size l) (failed err_invalid_arg) _ room)

module _ (l : ItemLayout) (bytes value : Bytes) (inside : IsInside l (length bytes))
    (enough : byte_size l ≤ length value) where
  abbrev new : Bytes
  new = slice 0 (byte_size l) value

  abbrev after : Bytes
  after = overwrite (byte_offset l) new bytes

  new-length : length new ≡ byte_size l
  new-length = length-slice (byte_size l) value enough

  fits : byte_offset l + length new ≤ length bytes
  fits = omega (arith, new-length, inside.0)

  same_length : length after ≡ length bytes
  same_length = length-overwrite (byte_offset l) new bytes fits

  IsInside-after : (k : ItemLayout) → IsInside k (length bytes) → IsInside k (length after)
  IsInside-after k h = (omega (arith, same_length, h.0), omega (arith, same_length, h.1))

  own_bytes : slice (byte_offset l) (byte_size l) after ≡ take (byte_size l) value
  own_bytes =
      ap (λ n. slice (byte_offset l) n after) (sym new-length)
      ∙ slice-overwrite (byte_offset l) new bytes fits
      ∙ slice_start (byte_size l) value

  -- Setting an item inside the buffer succeeds, keeps the buffer's size and gives the bytes of the
  -- value back to a reader with room for them.
  pub deserialized_set_value-get :
      (n : ℕ)
      → HasRoom n (byte_size l)
      → (bytes' : Bytes) × (deserialized_set_value l bytes value ≡ ok bytes')
        × (length bytes' ≡ length bytes)
        × (deserialized_get_value l bytes' n ≡ ok (take (byte_size l) value))
  deserialized_set_value-get n room = (
    after,
    deserialized_set_value-overwrite l bytes inside value,
    same_length,
    deserialized_get_value-slice l after (IsInside-after l inside) n room ∙ ap ok own_bytes,
  )

  -- Setting an item inside the buffer leaves the value of every item inside it that shares no byte
  -- with that one as it was, for a reader with room.
  pub deserialized_set_value-apart :
      (k : ItemLayout) (n : ℕ)
      → IsInside k (length bytes)
      → HasRoom n (byte_size k)
      → (byte_offset k + byte_size k ≤ byte_offset l)
        ⊎ (byte_offset l + byte_size l ≤ byte_offset k)
      → (bytes' : Bytes) × (deserialized_set_value l bytes value ≡ ok bytes')
        × (deserialized_get_value k bytes' n ≡ deserialized_get_value k bytes n)
  deserialized_set_value-apart k n k_in room apart = (
    after,
    deserialized_set_value-overwrite l bytes inside value,
    deserialized_get_value-slice k after (IsInside-after k k_in) n room
        ∙ ap ok (other apart)
        ∙ sym (deserialized_get_value-slice k bytes k_in n room),
  )
    where
      other :
          (byte_offset k + byte_size k ≤ byte_offset l)
            ⊎ (byte_offset l + byte_size l ≤ byte_offset k)
          → slice (byte_offset k) (byte_size k) after ≡ slice (byte_offset k) (byte_size k) bytes
      other (inl h) =
          slice-overwrite_below (byte_offset l) new bytes fits (byte_offset k) (byte_size k) h
      other (inr h) =
          slice-overwrite_above (byte_offset l) new bytes fits (byte_offset k) (byte_size k)
            (omega (arith, new-length, h))

-- Behind a start and a size that do not wrap, an item's address is that of its first bit, which
-- starts a byte, and the item ends within the data.
pub get_address-inside :
    (representation : DataRepresentation) (l : ItemLayout) (size address : ℕ)
    → position_of representation l + type_size_of representation l < 2 ^ 64
    → get_address representation l size ≡ some address
    → (position_of representation l ≡ 8 * address)
      × (8 * address + type_size_of representation l ≤ 8 * size)
unfolding get_address
get_address-inside deserialized l size address small e = ground arith
get_address-inside serialized l size address small e = ground arith
