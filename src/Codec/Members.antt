-- ===== src/Codec/Members.antt =====
-- The codec element that is made of an element of a structure.
use dev_essential.Base.{
  ℕ, zero, suc, ◌+◌, ◌*◌, ◌%◌, ◌^◌, ◌≤◌, ◌<◌, ◌≡◌, refl, sym, ap, ◌∙◌, ◌⊎◌, inl, inr, arith, Bool,
  true, false, none, some, List, [], ◌∷◌, map, get_elem?, ◌==◌, if◌then◌else◌, Bool-cases,
}
use mathlib.Core.Option.{some-injective, none-ne-some}
use native.Mathlib.Nat.{mod-eq_of_lt, mul-le-mul_right, add-mul, mul_comm}
use dev_essential.Version.{Version}
use dev_essential.Layout
use dev_essential.Layout.{TypeInfo, Element, Placed, calculate_serialized_bit_size}
use dev_essential.Layout.Elements.{serialized_bit_offset_at}
use dev_essential.Layout.Items.{calculate_serialized_bit_size-items}
use dev_essential.Layout.Sized.{IsSized, start_bit}
use dev_essential.Codec.{
  CodecElement, codec_element, SubElements, no_more, layout_of, nth_element, get_element,
  initialize_static, Member, add_sub_elements, PositionWithUsedBitsTypeSize,
  invalid_codec_index_pos,
}
use dev_essential.Codec.Sound.{FitsItself, element_start, element_end}

-- An array of items that all lie in the element's bits: each item takes all bits of its type, and
-- their sum is below 2 ^ 64. With a bit size of its own, an element has one item.
abbrev pub HoldsItems : Element → TypeInfo → Type 0
HoldsItems e t =
    ((e.num_bits.valid ≡ false) × (t.type_bit_size * e.array_size < 2 ^ 64)) ⊎ (e.array_size ≤ 1)

abbrev pub base_of : Member → CodecElement
base_of m = codec_element (initialize_static m.placed m.type_info m.byte_order m.type) true no_more

nth_element-base_of :
    (ms : List Member) (i : ℕ) (e : CodecElement)
    → nth_element (add_sub_elements ms) i ≡ some e
    → (m : Member) × (get_elem? ms i ≡ some m) × (e ≡ base_of m)
unfolding nth_element add_sub_elements
nth_element-base_of [] i e found = absurd (none-ne-some _ found)
nth_element-base_of (m ∷ ms) zero e found = (m, refl, sym (some-injective _ _ found))
nth_element-base_of (m ∷ ms) (suc i) e found = nth_element-base_of ms i e found

pub get_element-nth :
    (es : SubElements) (i : ℕ) (e : CodecElement)
    → get_element es i ≡ some e
    → nth_element es i ≡ some e
unfolding get_element
get_element-nth es i e found = elim (Bool-cases (i == invalid_codec_index_pos)) [
  | inl at_invalid ↦ absurd (none-ne-some _ (rw (get_element, at_invalid) at found))
  | inr other ↦ rw (get_element, other) at found
]

pub get_element-base_of :
    (ms : List Member) (i : ℕ) (e : CodecElement)
    → get_element (add_sub_elements ms) i ≡ some e
    → (m : Member) × (get_elem? ms i ≡ some m) × (e ≡ base_of m)
get_element-base_of ms i e found =
    nth_element-base_of ms i e (get_element-nth (add_sub_elements ms) i e found)

pub get_elem?-map :
    (ms : List Member) (i : ℕ) (m : Member)
    → get_elem? ms i ≡ some m
    → get_elem? (map (λ k. k.placed) ms) i ≡ some m.placed
get_elem?-map [] i m found = absurd (none-ne-some _ found)
get_elem?-map (k ∷ ms) zero m found = ap (λ k. some k.placed) (some-injective _ _ found)
get_elem?-map (k ∷ ms) (suc i) m found = get_elem?-map ms i m found

from_zero : (n : ℕ) → n < 2 ^ 64 → (0 + n) % 2 ^ 64 ≡ n
from_zero n h = mod-eq_of_lt (omega arith) ∙ omega arith

no_wrap :
    (start size end : ℕ)
    → start < 2 ^ 64
    → size < 2 ^ 64
    → end ≡ (start + size) % 2 ^ 64
    → start ≤ end
    → end ≡ start + size
no_wrap start size end small_start small_size e ordered = omega arith

module _ (m : Member) (sv fv : Version) (e : Element) (t : TypeInfo)
    (sized : IsSized sv fv e t m.placed) where
  pub initialize_static-first_bit : element_start (layout_of (base_of m)) ≡ start_bit m.placed
  unfolding initialize_static serialized_bit_offset_at
  initialize_static-first_bit =
      rw (sized.is_typed.start_known) (from_zero _ sized.is_typed.start_in_word)

  abbrev serialized_of : PositionWithUsedBitsTypeSize
  serialized_of = (layout_of (base_of m)).serialized

  used_in_type : serialized_of.type_bit_size_used ≤ serialized_of.type_bit_size
  unfolding initialize_static
  used_in_type = ground arith

  used_in_element : serialized_of.type_bit_size_used ≤ serialized_of.bit_size
  unfolding initialize_static
  used_in_element = ground arith

  more_items : (k : ℕ) → suc k < (layout_of (base_of m)).array_size → suc k < e.array_size
  unfolding initialize_static
  more_items k h = omega (
    arith,
    longer m.placed.element.array_size m.placed.element.is_dynamic_array h,
    sized.is_typed.same_array,
  )
    where
      longer : (a : ℕ) (d : Bool) → suc k < (if a == 0 then (if d then 0 else 1) else a) → suc k < a
      longer a d h = ground arith

  bits_of_items :
      HoldsItems e t
      → 2 ≤ e.array_size
      → serialized_of.bit_size ≡ serialized_of.type_bit_size * e.array_size
  unfolding initialize_static
  bits_of_items (inr one) h = absurd (omega arith)
  bits_of_items (inl (no_size, fits)) h =
      rw (sized.bit_size, sized.is_typed.type_bits)
        (calculate_serialized_bit_size-items e.array_size t.type_bit_size e.num_bits no_size
          (omega arith) fits)

  items_inside :
      HoldsItems e t
      → (k : ℕ) → k < (layout_of (base_of m)).array_size
      → k * serialized_of.type_bit_size + serialized_of.type_bit_size_used ≤ serialized_of.bit_size
  items_inside holds zero small = omega (arith, used_in_element)
  items_inside holds (suc k) small =
      let longer = more_items k small in
      let all = bits_of_items holds (omega arith) in
      omega (
        arith,
        used_in_type,
        all,
        mul-le-mul_right {m = 2 + k} {n = e.array_size} serialized_of.type_bit_size (omega arith),
        add-mul 1 (suc k) serialized_of.type_bit_size,
        mul_comm serialized_of.type_bit_size e.array_size,
      )

  pub initialize_static-FitsItself : HoldsItems e t → FitsItself (layout_of (base_of m))
  initialize_static-FitsItself holds = record {
    used_in_type = used_in_type;
    items_inside = items_inside holds;
  }

  -- An element that does not end before it starts has its bits where the layout says.
  pub initialize_static-end_bit :
      m.placed.info.serialized_bit_size.value < 2 ^ 64
      → start_bit m.placed ≤ Layout.end_bit m.placed
      → element_end (layout_of (base_of m)) ≡ Layout.end_bit m.placed
  unfolding initialize_static
  initialize_static-end_bit small ordered = omega (
    arith,
    initialize_static-first_bit,
    no_wrap (start_bit m.placed) m.placed.info.serialized_bit_size.value (Layout.end_bit m.placed)
        sized.is_typed.start_in_word small sized.bits_end ordered,
  )

pub get_element-no_more : (i : ℕ) → get_element no_more i ≡ none
unfolding get_element nth_element
get_element-no_more i = ground arith
