-- ===== src/Codec/Distinct.antt =====
-- Two indices that part somewhere lead to different bits.
use dev_essential.Base.{
  ℕ, ◌+◌, ◌*◌, ◌^◌, ◌≤◌, ◌<◌, ◌≡◌, ◌≢◌, sym, ap, ◌∙◌, ◌⊎◌, inl, inr, arith, some, List, [], ◌∷◌,
}
use mathlib.Core.Path.{subst}
use mathlib.Core.Option.{some-injective}
use native.Mathlib.Nat.{mul-le-mul_right, add-mul}
use dev_essential.CodecIndex.{ElementIndex}
use dev_essential.Codec.{
  ElementLayoutBase, ItemLayout, CodecElement, SubElements, layout_of, children_of, get_element,
  find_codec_layout, add_offsets,
}
use dev_essential.Codec.Sound.{
  FitsTogether, IsLaidOut, laid_out, IsItem, deeper, offset_of, end_of, item_bit, IsFound,
  find_codec_layout-IsFound, item_bit-fits, add_offsets-IsInItem, find_codec_layout-add_offsets,
  item_in_structure,
}

-- The indices part at an element or an item of its array, so that neither continues the other.
pub data ArePart : List ElementIndex → List ElementIndex → Type 0 where
  other_element :
      {x y : ElementIndex} {xs ys : List ElementIndex}
      → x.element_index ≢ y.element_index
      → ArePart (x ∷ xs) (y ∷ ys)
  other_item :
      {x y : ElementIndex} {xs ys : List ElementIndex}
      → x.element_index ≡ y.element_index
      → x.array_pos ≢ y.array_pos
      → ArePart (x ∷ xs) (y ∷ ys)
  part_later :
      {x : ElementIndex} {xs ys : List ElementIndex} → ArePart xs ys → ArePart (x ∷ xs) (x ∷ ys)

-- No bit is in both.
abbrev pub AreApart : ItemLayout → ItemLayout → Type 0
AreApart k l = (end_of k ≤ offset_of l) ⊎ (end_of l ≤ offset_of k)

≢_cases : (m n : ℕ) → m ≢ n → (m < n) ⊎ (n < m)
≢_cases m n differ = ground arith

item_before : (o s u i j : ℕ) → u ≤ s → i < j → (o + i * s) + u ≤ o + j * s
item_before o s u i j small h =
    omega (arith, mul-le-mul_right {m = 1 + i} {n = j} s (omega arith), add-mul 1 i s)

-- An item of an element lies before every later element and every later item of the same element.
module _ {es : SubElements} {size : ℕ} (fits : FitsTogether size es) {x y : ElementIndex}
    {xs ys : List ElementIndex} (p : IsFound es x xs size) (q : IsFound es y ys size) where
  element_before : x.element_index < y.element_index → end_of p.layout ≤ offset_of q.layout
  element_before h = omega (
    arith,
    p.in_item.not_behind,
    q.in_item.not_before,
    item_bit-fits (layout_of p.element) x.array_pos
        (fits.each x.element_index p.element p.is_there).0 p.in_array,
    fits.apart x.element_index y.element_index p.element q.element h p.is_there q.is_there,
  )

  item_before_item :
      x.element_index ≡ y.element_index
      → x.array_pos < y.array_pos
      → end_of p.layout ≤ offset_of q.layout
  item_before_item same h = omega (
    arith,
    p.in_item.not_behind,
    before_q,
    item_before (layout_of p.element).serialized.bit_offset
        (layout_of p.element).serialized.type_bit_size
        (layout_of p.element).serialized.type_bit_size_used x.array_pos y.array_pos
        (fits.each x.element_index p.element p.is_there).0.used_in_type h,
  )
    where
      same_element : q.element ≡ p.element
      same_element =
          some-injective _ _ (sym q.is_there ∙ ap (get_element es) (sym same) ∙ p.is_there)

      before_q : item_bit (layout_of p.element) y.array_pos ≤ offset_of q.layout
      before_q =
          subst (λ e. item_bit (layout_of e) y.array_pos ≤ offset_of q.layout) same_element
            q.in_item.not_before

found_apart :
    {es : SubElements} {x y : ElementIndex} {xs ys : List ElementIndex} {size : ℕ}
    → FitsTogether size es
    → (p : IsFound es x xs size) (q : IsFound es y ys size)
    → (x.element_index ≢ y.element_index)
      ⊎ ((x.element_index ≡ y.element_index) × (x.array_pos ≢ y.array_pos))
    → AreApart p.layout q.layout
found_apart {x = x} {y = y} fits p q (inl differ) =
    elim (≢_cases x.element_index y.element_index differ) [
      | inl h ↦ inl (element_before fits p q h)
      | inr h ↦ inr (element_before fits q p h)
    ]
found_apart {x = x} {y = y} fits p q (inr (same, differ)) =
    elim (≢_cases x.array_pos y.array_pos differ) [
      | inl h ↦ inl (item_before_item fits p q same h)
      | inr h ↦ inr (item_before_item fits q p (sym same) h)
    ]

add_offsets-AreApart :
    (b : ElementLayoutBase) (i : ℕ) (k l : ItemLayout)
    → end_of k ≤ b.serialized.type_bit_size_used
    → end_of l ≤ b.serialized.type_bit_size_used
    → item_bit b i + b.serialized.type_bit_size_used < 2 ^ 64
    → AreApart k l
    → AreApart (add_offsets b i k) (add_offsets b i l)
unfolding add_offsets
add_offsets-AreApart b i k l k_in l_in small apart =
    let (at_k, _) = add_offsets-IsInItem b i k k_in small in
    let (at_l, _) = add_offsets-IsInItem b i l l_in small in
    elim apart [ inl h ↦ inl (omega (arith, at_k, at_l)) | inr h ↦ inr (omega (arith, at_k, at_l)) ]

-- The two indices lead to layouts inside the structure that share no bit.
pub record AreFoundApart (es : SubElements) (xs ys : List ElementIndex) (size : ℕ) : Type 0 where
  pub one : ItemLayout
  pub other : ItemLayout
  pub one_found : find_codec_layout es xs ≡ some one
  pub other_found : find_codec_layout es ys ≡ some other
  pub one_inside : end_of one ≤ size
  pub other_inside : end_of other ≤ size
  pub are_apart : AreApart one other

both_found :
    {es : SubElements} {x y : ElementIndex} {xs ys : List ElementIndex} {size : ℕ}
    → FitsTogether size es
    → IsFound es x xs size
    → IsFound es y ys size
    → (x.element_index ≢ y.element_index)
      ⊎ ((x.element_index ≡ y.element_index) × (x.array_pos ≢ y.array_pos))
    → AreFoundApart es (x ∷ xs) (y ∷ ys) size
both_found fits p q differ = record {
  one = p.layout;
  other = q.layout;
  one_found = p.found;
  other_found = q.found;
  one_inside = p.in_structure;
  other_inside = q.in_structure;
  are_apart = found_apart fits p q differ;
}

module _ (es : SubElements) (size : ℕ) (small : size < 2 ^ 64) (x : ElementIndex) (e : CodecElement)
    (is_there : get_element es x.element_index ≡ some e)
    (in_array : x.array_pos < (layout_of e).array_size) (fits : FitsTogether size es) where
  both_deeper :
      (y z : ElementIndex) (ys zs : List ElementIndex)
      → AreFoundApart (children_of e) (y ∷ ys) (z ∷ zs) (layout_of e).serialized.type_bit_size_used
      → AreFoundApart es (x ∷ y ∷ ys) (x ∷ z ∷ zs) size
  both_deeper y z ys zs below =
      let b = layout_of e in
      let i = x.array_pos in
      let room = item_in_structure es size small x e is_there in_array fits in
      let (_, k_in) = add_offsets-IsInItem b i below.one below.one_inside (omega (arith, room)) in
      let (_, l_in) =
        add_offsets-IsInItem b i below.other below.other_inside (omega (arith, room)) in
      record {
        one = add_offsets b i below.one;
        other = add_offsets b i below.other;
        one_found =
            find_codec_layout-add_offsets es size small x e is_there in_array fits y ys below.one
              below.one_found;
        other_found =
            find_codec_layout-add_offsets es size small x e is_there in_array fits z zs below.other
              below.other_found;
        one_inside = omega (arith, k_in.not_behind, room);
        other_inside = omega (arith, l_in.not_behind, room);
        are_apart =
            add_offsets-AreApart b i below.one below.other below.one_inside below.other_inside
              (omega (arith, room)) below.are_apart;
      }

-- Of elements that are laid out in less than 2 ^ 64 bits, two items whose indices part have layouts
-- inside the structure that share no bit.
pub find_codec_layout-AreFoundApart :
    (es : SubElements) (xs ys : List ElementIndex) (size : ℕ)
    → size < 2 ^ 64
    → IsLaidOut size es
    → IsItem es xs
    → IsItem es ys
    → ArePart xs ys
    → AreFoundApart es xs ys size
find_codec_layout-AreFoundApart es (x ∷ xs) (y ∷ ys) size small (laid_out fits below) at_x at_y
      (other_element differ) =
    both_found fits (find_codec_layout-IsFound es x xs size small (laid_out fits below) at_x)
      (find_codec_layout-IsFound es y ys size small (laid_out fits below) at_y) (inl differ)
find_codec_layout-AreFoundApart es (x ∷ xs) (y ∷ ys) size small (laid_out fits below) at_x at_y
      (other_item same differ) =
    both_found fits (find_codec_layout-IsFound es x xs size small (laid_out fits below) at_x)
      (find_codec_layout-IsFound es y ys size small (laid_out fits below) at_y) (inr (same, differ))
find_codec_layout-AreFoundApart es (x ∷ y ∷ ys) (_ ∷ z ∷ zs) size small (laid_out fits below)
      (deeper e there in_array at_y) (deeper f there' in_array' at_z) (part_later parts) =
    both_deeper es size small x e there in_array fits y z ys zs (
      find_codec_layout-AreFoundApart (children_of e) (y ∷ ys) (z ∷ zs)
        (layout_of e).serialized.type_bit_size_used
        (omega (arith, item_in_structure es size small x e there in_array fits))
        (below x.element_index e there) at_y
        (subst (λ g. IsItem (children_of g) (z ∷ zs)) (some-injective _ _ (sym there' ∙ there))
          at_z)
        parts)
find_codec_layout-AreFoundApart es [] ys size small laid at_x at_y _ = elim at_x [ ]
find_codec_layout-AreFoundApart es (x ∷ xs) [] size small laid at_x at_y _ = elim at_y [ ]
find_codec_layout-AreFoundApart es (x ∷ []) (_ ∷ ys) size small laid at_x at_y (part_later parts) =
    elim parts [ ]
find_codec_layout-AreFoundApart es (x ∷ (y ∷ ys)) (_ ∷ []) size small laid at_x at_y
      (part_later parts) =
    elim parts [ ]
