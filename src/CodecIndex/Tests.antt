-- ===== src/CodecIndex/Tests.antt =====
-- Runs of the index, and the theorems at a concrete one.
use dev_essential.Base.{ℕ, true, false, none, some, [], ◌∷◌, ◌≡◌, ◌↔◌, refl, arith}
use dev_essential.CodecIndex.{
  ElementIndex, CodecIndex, same_element, back, set_back, move_offset, move_layout,
  get_index_for_array_pos, same_elements, same_index,
}
use dev_essential.CodecIndex.Moves.{IsAtItem, get_index_via}
use dev_essential.CodecIndex.Equality.{same_index_iff}

methods : Unit {0}
unfolding same_element back set_back move_offset move_layout get_index_for_array_pos same_elements
    same_index
methods = tt

abbrev item : ℕ → ElementIndex
item n = record { element_index = 2; array_pos = n }

-- The index of item `n` of an array of four words, at bit `serialized` and bit `deserialized`.
abbrev words : ℕ → ℕ → ℕ → CodecIndex
words n deserialized serialized = record {
  indices = record { element_index = 0; array_pos = 0 } ∷ item n ∷ [];
  layout = record {
    deserialized_bit_offset = deserialized;
    deserialized_type_bit_size_aligned = 32;
    serialized_bit_offset = serialized;
    serialized_type_bit_size = 20;
    array_size = 4;
    array_pos = n;
  };
  layout_valid = true;
}

moves :
    (get_index_for_array_pos (words 1 96 28) 3 ≡ some (words 3 160 68))
    × (get_index_for_array_pos (words 3 160 68) 0 ≡ some (words 0 64 8))
    × (get_index_for_array_pos (words 1 96 28) 4 ≡ none)
    × (same_index (words 1 96 28) (words 3 160 68) ≡ false)
unfolding methods
moves = (refl, refl, refl, refl)

words-IsAtItem : IsAtItem (words 1 96 28)
unfolding methods
words-IsAtItem = record {
  has_element = omega arith;
  has_layout = refl;
  same_pos = refl;
  in_array = omega arith;
  array_fits = omega arith;
  deserialized_fits = omega arith;
  serialized_fits = omega arith;
}

first_move : get_index_for_array_pos (words 1 96 28) 3 ≡ some (words 3 160 68)
unfolding methods
first_move = refl

get_index_via_example :
    get_index_for_array_pos (words 3 160 68) 0 ≡ get_index_for_array_pos (words 1 96 28) 0
get_index_via_example =
    get_index_via (words 1 96 28) (words 3 160 68) words-IsAtItem 3 0 (omega arith) (omega arith)
      first_move

same_index_iff_example :
    (same_index (words 1 96 28) (words 3 160 68) ≡ true)
    ↔ ((words 1 96 28).indices ≡ (words 3 160 68).indices)
same_index_iff_example = same_index_iff (words 1 96 28) (words 3 160 68)
