-- ===== src/Layout/Items.antt =====
-- The items of an array: their places in memory and in the serialized bits.
use dev_essential.Base.{
  ℕ, zero, suc, ◌+◌, ◌*◌, ◌^◌, ◌≤◌, ◌<◌, ◌≡◌, arith, true, false, lt→ltb, ◌==◌,
}
use native.Mathlib.Nat.{mul-le-mul_right, mod-eq_of_lt, add-mul}
use dev_essential.Layout.{ElementTypeInfo, OptionalSize, calculate_serialized_bit_size}
use dev_essential.Layout.Elements.{deserialized_byte_pos_at, serialized_bit_offset_at}

abbrev byte_of_item : ElementTypeInfo → ℕ → ℕ
byte_of_item info i =
    info.deserialized_byte_pos.value + i * info.deserialized_type_aligned_byte_size

abbrev bit_of_item : ElementTypeInfo → ℕ → ℕ
bit_of_item info i = info.serialized_absolute_bit_offset.value + i * info.serialized_type_bit_size

module _ (info : ElementTypeInfo) where
  byte_at :
      info.deserialized_byte_pos.valid ≡ true
      → (i : ℕ) → byte_of_item info i < 2 ^ 64
      → (deserialized_byte_pos_at info i).value ≡ byte_of_item info i
  unfolding deserialized_byte_pos_at
  byte_at known zero fits = ground arith
  byte_at known (suc i) fits = rw (known, lt→ltb 0 (suc i) (omega arith)) (mod-eq_of_lt fits)

  bit_at :
      info.serialized_absolute_bit_offset.valid ≡ true
      → (i : ℕ) → bit_of_item info i < 2 ^ 64
      → (serialized_bit_offset_at info i).value ≡ bit_of_item info i
  unfolding serialized_bit_offset_at
  bit_at known zero fits = ground arith
  bit_at known (suc i) fits = rw (known, lt→ltb 0 (suc i) (omega arith)) (mod-eq_of_lt fits)

item_before : (o s i j : ℕ) → i < j → (o + i * s) + s ≤ o + j * s
item_before o s i j h =
    omega (arith, mul-le-mul_right {m = 1 + i} {n = j} s (omega arith), add-mul 1 i s)

-- Where the places of an element are known and the end of its array of `n` items lies below 2 ^ 64,
-- each item ends, in memory and in the serialized bits, before any later one starts.
pub items_apart :
    (info : ElementTypeInfo)
    → info.deserialized_byte_pos.valid ≡ true
    → info.serialized_absolute_bit_offset.valid ≡ true
    → (n : ℕ) → byte_of_item info n < 2 ^ 64
    → bit_of_item info n < 2 ^ 64
    → (i j : ℕ) → i < j
    → j < n
    → ((deserialized_byte_pos_at info i).value + info.deserialized_type_aligned_byte_size
        ≤ (deserialized_byte_pos_at info j).value)
      × ((serialized_bit_offset_at info i).value + info.serialized_type_bit_size
          ≤ (serialized_bit_offset_at info j).value)
items_apart info known_byte known_bit n bytes bits i j i<j j<n =
    rw
      (
        byte_at info known_byte i byte_i,
        byte_at info known_byte j byte_j,
        bit_at info known_bit i bit_i,
        bit_at info known_bit j bit_j,
      )
      (item_before _ _ i j i<j, item_before _ _ i j i<j)
  where
    below : (o s k : ℕ) → k < n → o + n * s < 2 ^ 64 → o + k * s < 2 ^ 64
    below o s k h fits = omega (arith, item_before o s k n h)

    byte_i : byte_of_item info i < 2 ^ 64
    byte_i = below _ _ i (omega arith) bytes

    byte_j : byte_of_item info j < 2 ^ 64
    byte_j = below _ _ j j<n bytes

    bit_i : bit_of_item info i < 2 ^ 64
    bit_i = below _ _ i (omega arith) bits

    bit_j : bit_of_item info j < 2 ^ 64
    bit_j = below _ _ j j<n bits

-- An array with no bit size of its own takes the bits of all its items, where they are below 2 ^ 64.
pub calculate_serialized_bit_size-items :
    (array_size type_bit_size : ℕ) (num_bits : OptionalSize)
    → num_bits.valid ≡ false
    → 1 ≤ array_size
    → type_bit_size * array_size < 2 ^ 64
    → calculate_serialized_bit_size array_size type_bit_size num_bits ≡ type_bit_size * array_size
unfolding calculate_serialized_bit_size
calculate_serialized_bit_size-items array_size type_bit_size num_bits none_given h fits =
    rw (none_given, not_zero h) (mod-eq_of_lt fits)
  where
    not_zero : {n : ℕ} → 1 ≤ n → (n == 0) ≡ false
    not_zero h = ground arith
