-- ===== src/Layout/Sized.antt =====
-- An element with a static type and no position of its own, wherever it is placed: what `place`
-- makes of it.
use dev_essential.Base.{ℕ, ◌+◌, ◌*◌, ◌^◌, ◌<◌, ◌≡◌, refl, ◌⊎◌, arith, true, false, Option, some}
use native.Mathlib.Nat.{mod-lt}
use dev_essential.Version.{Version}
use dev_essential.Layout.{
  size_t, OptionalSize, given, TypeInfo, Element, Placed, CalculatedSerializedPos, follows_dynamic,
  end_bit, calculate_serialized_bit_size,
}
use dev_essential.Layout.Elements.{
  place, calculate_deserialized_pos_size, deserialized_size, relevant_version,
}
use dev_essential.Layout.Struct.{serialized_highest_bit}

-- The type is there, and neither it nor the element's array is dynamic.
pub record IsStatic (e : Element) (type_info : TypeInfo) : Type 0 where
  pub typed : e.type_info ≡ some type_info
  pub fixed_array : e.is_dynamic_array ≡ false
  pub fixed_type : type_info.is_dynamic ≡ false

-- A position that is not set was never set.
abbrev pub IsClean : OptionalSize → Type 0
IsClean o = (o.valid ≡ true) ⊎ (o.value ≡ 0)

-- The position and the sizes of the element are known.
pub record IsKnown (p : Placed) : Type 0 where
  pub known : p.info.serialized_byte_pos.valid ≡ true
  pub not_dynamic : p.info.is_dynamic ≡ false
  pub not_after_dynamic : p.info.is_after_dynamic ≡ false

abbrev pub start_bit : Placed → ℕ
start_bit p = p.info.serialized_absolute_bit_offset.value

abbrev pub start_byte : Placed → ℕ
start_byte p = p.info.deserialized_byte_pos.value

abbrev pub end_byte : Placed → ℕ
end_byte p = size_t (start_byte p + p.info.deserialized_byte_size.value)

-- `q` has the type and the array of `e`, and starts at a known bit.
pub record IsTyped (e : Element) (type_info : TypeInfo) (q : Placed) : Type 0 where
  pub typed : e.type_info ≡ some type_info
  pub type_bits : q.info.serialized_type_bit_size ≡ type_info.type_bit_size
  pub start_known : q.info.serialized_absolute_bit_offset.valid ≡ true
  pub start_in_word : start_bit q < 2 ^ 64
  pub same_array : q.element.array_size ≡ e.array_size
  pub fixed_array : q.element.is_dynamic_array ≡ false

-- `q` was made from `e`, and has the sizes of its type and array.
pub record IsSized (sv fv : Version) (e : Element) (type_info : TypeInfo) (q : Placed)
    : Type 0 where
  pub is_known : IsKnown q
  pub is_typed : IsTyped e type_info q
  pub is_valid : q.info.is_valid ≡ true
  pub bit_size :
      q.info.serialized_bit_size.value
      ≡ calculate_serialized_bit_size e.array_size type_info.type_bit_size e.num_bits
  pub bits_end : end_bit q ≡ size_t (start_bit q + q.info.serialized_bit_size.value)
  pub highest_bit : serialized_highest_bit q ≡ end_bit q
  pub byte_size :
      q.info.deserialized_byte_size.value
      ≡ deserialized_size (relevant_version sv fv) e.array_size type_info

-- The serialized position at a byte and a bit.
abbrev pub pos_at : Element → TypeInfo → ℕ → OptionalSize → CalculatedSerializedPos
pos_at e type_info byte bit = record {
  serialized_byte_pos = given byte;
  serialized_bit_pos = bit;
  serialized_bit_size =
      given (calculate_serialized_bit_size e.array_size type_info.type_bit_size e.num_bits);
  serialized_type_bit_size = given type_info.type_bit_size;
  valid = true;
  is_dynamic = false;
  is_after_dynamic = false;
  reset_allowed = true;
}

module _ (sv fv : Version) (e : Element) (type_info : TypeInfo) (previous : Option Placed)
    (byte : ℕ) (bit : OptionalSize) (static : IsStatic e type_info)
    (no_position : e.byte_pos.valid ≡ false)
    (not_following : follows_dynamic previous ≡ false) where
  unfoldable pub placed_at : Placed
  placed_at = place sv fv e previous (pos_at e type_info byte bit)

  placed_at-IsKnown : IsKnown placed_at
  unfolding placed_at place calculate_deserialized_pos_size
  placed_at-IsKnown = ground arith

  placed_at-IsTyped : IsTyped e type_info placed_at
  unfolding placed_at place
  placed_at-IsTyped = record {
    typed = static.typed;
    type_bits = refl;
    start_known = refl;
    start_in_word = mod-lt _ (omega arith);
    same_array = refl;
    fixed_array = static.fixed_array;
  }

  placed_at-is_valid : placed_at.info.is_valid ≡ true
  unfolding placed_at place calculate_deserialized_pos_size
  placed_at-is_valid = rw static.typed

  placed_at-bit_size :
      placed_at.info.serialized_bit_size.value
      ≡ calculate_serialized_bit_size e.array_size type_info.type_bit_size e.num_bits
  unfolding placed_at place
  placed_at-bit_size = refl

  placed_at-byte_size :
      placed_at.info.deserialized_byte_size.value
      ≡ deserialized_size (relevant_version sv fv) e.array_size type_info
  unfolding placed_at place calculate_deserialized_pos_size
  placed_at-byte_size = ground arith

  placed_at-bits_end :
      IsClean e.bit_pos
      → IsClean bit
      → byte * 8 + bit.value < 2 ^ 64
      → end_bit placed_at ≡ size_t (start_bit placed_at + placed_at.info.serialized_bit_size.value)
  unfolding placed_at place
  placed_at-bits_end fresh clean fits = ground arith

  placed_at-highest_bit :
      IsClean e.bit_pos → IsClean bit → serialized_highest_bit placed_at ≡ end_bit placed_at
  unfolding placed_at place serialized_highest_bit calculate_deserialized_pos_size
  placed_at-highest_bit fresh clean = ground arith

  pub placed_at-IsSized :
      IsClean e.bit_pos
      → IsClean bit
      → byte * 8 + bit.value < 2 ^ 64
      → IsSized sv fv e type_info placed_at
  placed_at-IsSized fresh clean fits = record {
    is_known = placed_at-IsKnown;
    is_typed = placed_at-IsTyped;
    is_valid = placed_at-is_valid;
    bit_size = placed_at-bit_size;
    bits_end = placed_at-bits_end fresh clean fits;
    highest_bit = placed_at-highest_bit fresh clean;
    byte_size = placed_at-byte_size;
  }
