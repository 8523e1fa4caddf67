-- ===== src/CodecIndex.antt =====
-- `CodecIndex` of include/ddl/codec/codec_index.h and src/ddl/codec/codec_index.cpp: the index of an
-- element, a path of element indices, with the layout of that element. The members of the layout
-- that no operation of the index reads are left out. An exception is `none`.
pub mod Moves
pub mod Equality
mod Tests
use dev_essential.Base.{
  ℕ, suc, ◌+◌, ◌-◌, ◌*◌, ◌%◌, ◌^◌, Bool, true, false, not, ◌&&◌, Option, none, some, List, [], ◌∷◌,
  ltb, ◌==◌, if◌then◌else◌, length, take, ◌++◌, min,
}

pub record ElementIndex : Type 0 where
  pub element_index : ℕ
  pub array_pos : ℕ

abbrev pub invalid_element_index : ℕ
invalid_element_index = 2 ^ 64 - 1

abbrev pub invalid_array_pos : ℕ
invalid_array_pos = 2 ^ 64 - 1

abbrev pub no_element : ElementIndex
no_element = record { element_index = invalid_element_index; array_pos = invalid_array_pos }

pub record ElementLayout : Type 0 where
  pub deserialized_bit_offset : ℕ
  pub deserialized_type_bit_size_aligned : ℕ
  pub serialized_bit_offset : ℕ
  pub serialized_type_bit_size : ℕ
  pub array_size : ℕ
  pub array_pos : ℕ

pub record CodecIndex : Type 0 where
  pub indices : List ElementIndex
  pub layout : ElementLayout
  pub layout_valid : Bool

unfoldable pub same_element : ElementIndex → ElementIndex → Bool
same_element a b = a.element_index == b.element_index && a.array_pos == b.array_pos

unfoldable pub back : List ElementIndex → ElementIndex
back [] = no_element
back (x ∷ []) = x
back (x ∷ y ∷ xs) = back (y ∷ xs)

unfoldable pub set_back : List ElementIndex → ElementIndex → List ElementIndex
set_back [] new = []
set_back (x ∷ []) new = new ∷ []
set_back (x ∷ y ∷ xs) new = x ∷ set_back (y ∷ xs) new

-- The offset, `array_pos - old_array_pos` items further on, all in size_t.
unfoldable pub move_offset : ℕ → ℕ → ℕ → ℕ → ℕ
move_offset offset old_array_pos array_pos item_size =
    (offset + (array_pos + 2 ^ 64 - old_array_pos) % 2 ^ 64 * item_size) % 2 ^ 64

unfoldable pub move_layout : ElementLayout → ℕ → ℕ → ElementLayout
move_layout l old_array_pos new_array_pos = record l {
  deserialized_bit_offset =
      move_offset l.deserialized_bit_offset old_array_pos new_array_pos
        l.deserialized_type_bit_size_aligned;
  serialized_bit_offset =
      move_offset l.serialized_bit_offset old_array_pos new_array_pos l.serialized_type_bit_size;
  array_pos = new_array_pos;
}

unfoldable pub get_index_for_array_pos : CodecIndex → ℕ → Option CodecIndex
get_index_for_array_pos index new_array_pos =
    let old_array_pos = (back index.indices).array_pos in
    if old_array_pos == new_array_pos
    then some index
    else if index.layout_valid
        && ltb 0 (length index.indices)
        && ltb new_array_pos index.layout.array_size
    then some (record index {
      indices = set_back index.indices (record (back index.indices) { array_pos = new_array_pos });
      layout = move_layout index.layout old_array_pos new_array_pos;
    })
    else none

-- `operator==`: the sizes, then each position.
unfoldable pub same_elements : List ElementIndex → List ElementIndex → Bool
same_elements [] [] = true
same_elements [] (b ∷ bs) = true
same_elements (a ∷ more) [] = true
same_elements (a ∷ more) (b ∷ bs) =
    let rest = same_elements more bs in if not (same_element a b) then false else rest

unfoldable pub same_index : CodecIndex → CodecIndex → Bool
same_index a b =
    if length b.indices == length a.indices then same_elements a.indices b.indices else false
