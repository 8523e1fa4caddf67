-- ===== src/Codec/Sound.antt =====
-- The elements of a codec lie apart and inside of what holds them: what that means, and where the
-- layout that an index leads to lies.
use dev_essential.Base.{
  ℕ, ◌+◌, ◌*◌, ◌%◌, ◌^◌, ◌≤◌, ◌<◌, ◌≡◌, refl, arith, Bool, some, List, [], ◌∷◌, lt→ltb,
}
use native.Mathlib.Nat.{mod-eq_of_lt}
use dev_essential.CodecIndex.{ElementIndex}
use dev_essential.Codec.{
  ElementLayoutBase, ItemLayout, CodecElement, SubElements, layout_of, children_of, get_element,
  add_offsets, add_base_layout, find_codec_layout, copy_base, unset_layout, has_static_position,
}

-- The serialized bits of an element: from `bit_offset` on for all items of its array, of which each
-- starts `type_bit_size` behind the one before.
pub record FitsItself (b : ElementLayoutBase) : Type 0 where
  pub used_in_type : b.serialized.type_bit_size_used ≤ b.serialized.type_bit_size
  pub items_inside :
      (k : ℕ)
      → k < b.array_size
      → k * b.serialized.type_bit_size + b.serialized.type_bit_size_used ≤ b.serialized.bit_size

abbrev pub element_start : ElementLayoutBase → ℕ
element_start b = b.serialized.bit_offset

abbrev pub element_end : ElementLayoutBase → ℕ
element_end b = b.serialized.bit_offset + b.serialized.bit_size

-- Elements in `size` bits, each behind the ones before it.
pub record FitsTogether (size : ℕ) (es : SubElements) : Type 0 where
  pub each :
      (i : ℕ) (e : CodecElement)
      → get_element es i ≡ some e
      → FitsItself (layout_of e) × (element_end (layout_of e) ≤ size)
  pub apart :
      (i j : ℕ) (e f : CodecElement)
      → i < j
      → get_element es i ≡ some e
      → get_element es j ≡ some f
      → element_end (layout_of e) ≤ element_start (layout_of f)

-- The elements of each element lie so, too, in one item of it.
pub data IsLaidOut : ℕ → SubElements → Type 0 where
  laid_out :
      {size : ℕ} {es : SubElements}
      → FitsTogether size es
      → ((i : ℕ) (e : CodecElement)
          → get_element es i ≡ some e
          → IsLaidOut (layout_of e).serialized.type_bit_size_used (children_of e))
      → IsLaidOut size es

-- The index leads to an item: each of its elements is there, and its array as long.
pub data IsItem : SubElements → List ElementIndex → Type 0 where
  here :
      {es : SubElements} {x : ElementIndex} (e : CodecElement)
      → get_element es x.element_index ≡ some e
      → x.array_pos < (layout_of e).array_size
      → IsItem es (x ∷ [])
  deeper :
      {es : SubElements} {x y : ElementIndex} {ys : List ElementIndex} (e : CodecElement)
      → get_element es x.element_index ≡ some e
      → x.array_pos < (layout_of e).array_size
      → IsItem (children_of e) (y ∷ ys)
      → IsItem es (x ∷ y ∷ ys)

abbrev pub offset_of : ItemLayout → ℕ
offset_of l = l.base.serialized.bit_offset

abbrev pub end_of : ItemLayout → ℕ
end_of l = l.base.serialized.bit_offset + l.base.serialized.type_bit_size_used

-- The first bit of an item of an element.
abbrev pub item_bit : ElementLayoutBase → ℕ → ℕ
item_bit b k = b.serialized.bit_offset + k * b.serialized.type_bit_size

-- The layout lies in the item `k` of the element.
pub record IsInItem (b : ElementLayoutBase) (k : ℕ) (l : ItemLayout) : Type 0 where
  pub not_before : item_bit b k ≤ offset_of l
  pub not_behind : end_of l ≤ item_bit b k + b.serialized.type_bit_size_used

pub item_bit-fits :
    (b : ElementLayoutBase) (k : ℕ)
    → FitsItself b
    → k < b.array_size
    → item_bit b k + b.serialized.type_bit_size_used ≤ element_end b
item_bit-fits b k fits h = omega (arith, fits.items_inside k h)

pub add_offsets-IsInItem :
    (b : ElementLayoutBase) (k : ℕ) (l : ItemLayout)
    → end_of l ≤ b.serialized.type_bit_size_used
    → item_bit b k + b.serialized.type_bit_size_used < 2 ^ 64
    → (offset_of (add_offsets b k l) ≡ offset_of l + item_bit b k)
      × IsInItem b k (add_offsets b k l)
unfolding add_offsets
add_offsets-IsInItem b k l inside small =
    let same = offset_sum (omega arith) in
    (same, record { not_before = omega (arith, same); not_behind = omega (arith, same) })
  where
    offset_sum :
        offset_of l + item_bit b k < 2 ^ 64
        → (offset_of l + item_bit b k) % 2 ^ 64 ≡ offset_of l + item_bit b k
    offset_sum h = mod-eq_of_lt h

add_base_layout-some :
    (b : ElementLayoutBase) (k : ℕ) (known : Bool) (l : ItemLayout)
    → k < b.array_size
    → add_base_layout b k known l ≡ some (copy_base b k (add_offsets b k l))
unfolding add_base_layout
add_base_layout-some b k known l h = rw (lt→ltb k b.array_size h) refl

copy_base-IsInItem :
    (b : ElementLayoutBase) (k : ℕ)
    → item_bit b k < 2 ^ 64
    → IsInItem b k (copy_base b k (add_offsets b k unset_layout))
unfolding add_offsets
copy_base-IsInItem b k small =
    let same : item_bit b k % 2 ^ 64 ≡ item_bit b k = mod-eq_of_lt small in
    record { not_before = omega (arith, same); not_behind = omega (arith, same) }

-- What the index leads to, in a structure of `size` bits.
pub record IsFound (es : SubElements) (x : ElementIndex) (xs : List ElementIndex) (size : ℕ)
    : Type 0 where
  pub element : CodecElement
  pub layout : ItemLayout
  pub is_there : get_element es x.element_index ≡ some element
  pub in_array : x.array_pos < (layout_of element).array_size
  pub found : find_codec_layout es (x ∷ xs) ≡ some layout
  pub in_item : IsInItem (layout_of element) x.array_pos layout
  pub in_structure : end_of layout ≤ size

module _ (es : SubElements) (size : ℕ) (small : size < 2 ^ 64) (x : ElementIndex) (e : CodecElement)
    (is_there : get_element es x.element_index ≡ some e)
    (in_array : x.array_pos < (layout_of e).array_size) (fits : FitsTogether size es) where
  abbrev b : ElementLayoutBase
  b = layout_of e

  pub item_in_structure : item_bit b x.array_pos + b.serialized.type_bit_size_used ≤ size
  item_in_structure =
      let (own, inside) = fits.each x.element_index e is_there in
      omega (arith, item_bit-fits b x.array_pos own in_array, inside)

  last-IsFound : IsFound es x [] size
  unfolding find_codec_layout
  last-IsFound =
      let in_item = copy_base-IsInItem b x.array_pos (omega (arith, item_in_structure)) in
      record {
        element = e;
        layout = copy_base b x.array_pos (add_offsets b x.array_pos unset_layout);
        is_there = is_there;
        in_array = in_array;
        found =
            rw (find_codec_layout, is_there)
              (add_base_layout-some b x.array_pos (has_static_position e) unset_layout in_array);
        in_item = in_item;
        in_structure = omega (arith, in_item.not_behind, item_in_structure);
      }

  pub find_codec_layout-add_offsets :
      (y : ElementIndex) (ys : List ElementIndex) (l : ItemLayout)
      → find_codec_layout (children_of e) (y ∷ ys) ≡ some l
      → find_codec_layout es (x ∷ y ∷ ys) ≡ some (add_offsets b x.array_pos l)
  unfolding find_codec_layout
  find_codec_layout-add_offsets y ys l found = rw (find_codec_layout, is_there, found) refl

  deeper-IsFound :
      (y : ElementIndex) (ys : List ElementIndex)
      → IsFound (children_of e) y ys b.serialized.type_bit_size_used
      → IsFound es x (y ∷ ys) size
  deeper-IsFound y ys below =
      let (same, in_item) =
        add_offsets-IsInItem b x.array_pos below.layout below.in_structure
          (omega (arith, item_in_structure)) in
      record {
        element = e;
        layout = add_offsets b x.array_pos below.layout;
        is_there = is_there;
        in_array = in_array;
        found = find_codec_layout-add_offsets y ys below.layout below.found;
        in_item = in_item;
        in_structure = omega (arith, in_item.not_behind, item_in_structure);
      }

-- An index that leads to an item finds the layout of that item.
pub find_codec_layout-IsFound :
    (es : SubElements) (x : ElementIndex) (xs : List ElementIndex) (size : ℕ)
    → size < 2 ^ 64
    → IsLaidOut size es
    → IsItem es (x ∷ xs)
    → IsFound es x xs size
find_codec_layout-IsFound es x [] size small (laid_out fits below) (here e there in_array) =
    last-IsFound es size small x e there in_array fits
find_codec_layout-IsFound es x (y ∷ ys) size small (laid_out fits below)
      (deeper e there in_array inner) =
    deeper-IsFound es size small x e there in_array fits y ys (
      find_codec_layout-IsFound (children_of e) y ys (layout_of e).serialized.type_bit_size_used
        (omega (arith, item_in_structure es size small x e there in_array fits))
        (below x.element_index e there) inner)
