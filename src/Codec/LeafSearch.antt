-- ===== src/Codec/LeafSearch.antt =====
-- `binaryLeafSearch` of src/ddl/codec/codec_elements.cpp: the sub element that holds a leaf. Its
-- index `mid_search_index` is written with `1 / 2`, which is 0.
use dev_essential.Base.{
  ℕ, zero, suc, ◌+◌, ◌-◌, ◌/◌, ◌^◌, Bool, true, false, not, ◌&&◌, Option, none, some, List, ltb,
  leb, if◌then◌else◌, get_elem?,
}
use dev_essential.Layout.{size_t}

-- What the search reads of a sub element.
pub record LeafRange : Type 0 where
  pub has_static_position : Bool
  pub begin_leaf_index : ℕ
  pub array_leaf_count : ℕ

-- The index of the element, the null pointer, or the exception of `operator[]`.
pub data LeafSearch : Type 0 where
  element_at : ℕ → LeafSearch
  null_element thrown : LeafSearch

-- The range of the element and the leaf.
pub data Side : Type 0 where
  not_static inside before behind : Side

unfoldable pub side_of : LeafRange → ℕ → Side
side_of r leaf_index =
    if not r.has_static_position
    then not_static
    else if leb r.begin_leaf_index leaf_index
        && ltb leaf_index (size_t (r.begin_leaf_index + r.array_leaf_count))
    then inside
    else if ltb leaf_index r.begin_leaf_index
    then before
    else behind

unfoldable pub mid_of : ℕ → ℕ → ℕ
mid_of begin end = if ltb begin end then size_t (begin + (end - 1 / 2)) else begin

unfoldable pub is_dynamic_at : List LeafRange → ℕ → Bool
is_dynamic_at es i = elim (get_elem? es i) [ none ↦ false | some r ↦ not r.has_static_position ]

-- The `while` loop.
unfoldable pub back_to_static : List LeafRange → ℕ → ℕ → ℕ
back_to_static es begin zero = zero
back_to_static es begin (suc mid) =
    let rest = back_to_static es begin mid in
    if is_dynamic_at es (suc mid) && ltb begin (suc mid) then rest else suc mid

-- `none` where the fuel is used up.
unfoldable pub binary_leaf_search : ℕ → List LeafRange → ℕ → ℕ → ℕ → Option LeafSearch
binary_leaf_search zero es leaf_index begin end = none
binary_leaf_search (suc fuel) es leaf_index begin end = elim (ltb end begin) [
  | true ↦ some null_element
  | false ↦ elim (get_elem? es (mid_of begin end)) [
    | none ↦ some thrown
    | some _ ↦ elim (get_elem? es (back_to_static es begin (mid_of begin end))) [
      | none ↦ some thrown
      | some r ↦ elim (side_of r leaf_index) [
        | not_static ↦ some null_element
        | inside ↦ some (element_at (back_to_static es begin (mid_of begin end)))
        | before ↦
            binary_leaf_search fuel es leaf_index begin
              (size_t (back_to_static es begin (mid_of begin end) + (2 ^ 64 - 1)))
        | behind ↦
            binary_leaf_search fuel es leaf_index
              (size_t (back_to_static es begin (mid_of begin end) + 1)) end
      ]
    ]
  ]
]
