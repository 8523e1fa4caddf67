-- ===== src/Codec/Built.antt =====
-- The elements of a codec that is built for a structure that was laid out lie apart and inside of it.
use dev_essential.Base.{ℕ, ◌^◌, ◌≤◌, ◌<◌, ◌≡◌, sym, ap, ◌∙◌, arith, some, List, ◌∷◌, map, get_elem?}
use mathlib.Core.Path.{subst}
use mathlib.Core.Option.{none-ne-some}
use dev_essential.Version.{Version}
use dev_essential.Layout
use dev_essential.Layout.{TypeInfo, Element, Placed, calculate_serialized_bit_size}
use dev_essential.Layout.Sized.{start_bit}
use dev_essential.Layout.Chain.{IsFree, AllFree, one_more, all_bits}
use dev_essential.Layout.Order.{AllBehind-IsApart, AllBehind-IsWithin}
use dev_essential.Layout.Whole.{IsPlaced}
use dev_essential.Layout.Each.{IsPlaced-IsAt, AllFree-bits}
use dev_essential.Codec.{
  CodecElement, no_more, layout_of, children_of, get_element, Member, add_sub_elements,
}
use dev_essential.Codec.Sound.{FitsItself, IsLaidOut, laid_out, element_start, element_end}
use dev_essential.Codec.Members.{
  get_element-no_more, HoldsItems, base_of, get_element-base_of, get_elem?-map,
  initialize_static-first_bit, initialize_static-FitsItself, initialize_static-end_bit,
}

pub leaf-IsLaidOut : (size : ℕ) → IsLaidOut size no_more
leaf-IsLaidOut size =
    laid_out
      (record {
        each = λ i e found. absurd (nothing i e found);
        apart = λ i j e f i<j found_e found_f. absurd (nothing i e found_e);
      })
      (λ i e found. absurd (nothing i e found))
  where
    nothing : (i : ℕ) (e : CodecElement) → ¬ get_element no_more i ≡ some e
    nothing i e found = none-ne-some _ (sym (get_element-no_more i) ∙ found)

-- Arrays in the elements that are laid out hold their items.
abbrev pub AllHold : List Element → Type 0
AllHold es =
    (i : ℕ) (e : Element) (t : TypeInfo)
    → get_elem? es i ≡ some e
    → e.type_info ≡ some t
    → HoldsItems e t

module _ (sv fv : Version) (alignment : ℕ) (e : Element) (es : List Element) (f : IsFree e)
    (fs : AllFree es) (bits : all_bits (one_more f fs) ≤ 2 ^ 64) (hold : AllHold (e ∷ es))
    (info : TypeInfo) (q : Placed) (qs : List Placed)
    (whole : IsPlaced sv fv alignment e es info q qs) (ms : List Member)
    (same : map (λ m. m.placed) ms ≡ q ∷ qs) where
  at_member : (i : ℕ) (m : Member) → get_elem? ms i ≡ some m → get_elem? (q ∷ qs) i ≡ some m.placed
  at_member i m found = ap (λ ps. get_elem? ps i) (sym same) ∙ get_elem?-map ms i m found

  member_sound :
      (i : ℕ) (m : Member)
      → get_elem? ms i ≡ some m
      → FitsItself (layout_of (base_of m))
        × (element_end (layout_of (base_of m)) ≡ Layout.end_bit m.placed)
        × (element_start (layout_of (base_of m)) ≡ start_bit m.placed)
  member_sound i m found =
      let a = IsPlaced-IsAt whole i m.placed (at_member i m found) in
      let typed = a.is_sized.is_typed.typed in
      let room = AllFree-bits (one_more f fs) i a.element a.type_info a.is_there typed in
      (
        initialize_static-FitsItself m sv fv a.element a.type_info a.is_sized
            (hold i a.element a.type_info a.is_there typed),
        initialize_static-end_bit m sv fv a.element a.type_info a.is_sized
            (omega (arith, room, bits, a.is_sized.bit_size)) a.ordered,
        initialize_static-first_bit m sv fv a.element a.type_info a.is_sized,
      )

  pub built-IsLaidOut : IsLaidOut info.type_bit_size (add_sub_elements ms)
  built-IsLaidOut =
      laid_out (record { each = each; apart = apart })
        (λ i x found.
          let (m, at_m, is) = get_element-base_of ms i x found in
          subst (λ y. IsLaidOut (layout_of y).serialized.type_bit_size_used (children_of y))
            (sym is) (leaf-IsLaidOut _))
    where
      each :
          (i : ℕ) (x : CodecElement)
          → get_element (add_sub_elements ms) i ≡ some x
          → FitsItself (layout_of x) × (element_end (layout_of x) ≤ info.type_bit_size)
      each i x found =
          let (m, at_m, is) = get_element-base_of ms i x found in
          let (own, end, _) = member_sound i m at_m in
          let within = AllBehind-IsWithin whole.behind i m.placed (at_member i m at_m) in
          subst (λ y. FitsItself (layout_of y) × (element_end (layout_of y) ≤ info.type_bit_size))
            (sym is) (own, omega (arith, end, within.0, whole.sizes.bit_size))

      apart :
          (i j : ℕ) (x y : CodecElement)
          → i < j
          → get_element (add_sub_elements ms) i ≡ some x
          → get_element (add_sub_elements ms) j ≡ some y
          → element_end (layout_of x) ≤ element_start (layout_of y)
      apart i j x y i<j found_x found_y =
          let (m, at_m, is_m) = get_element-base_of ms i x found_x in
          let (n, at_n, is_n) = get_element-base_of ms j y found_y in
          let (_, end, _) = member_sound i m at_m in
          let (_, _, start) = member_sound j n at_n in
          let behind =
            AllBehind-IsApart whole.behind i j m.placed n.placed i<j (at_member i m at_m)
              (at_member j n at_n) in
          subst (λ z. element_end (layout_of z) ≤ element_start (layout_of y)) (sym is_m)
            (subst (λ z. element_end (layout_of (base_of m)) ≤ element_start (layout_of z))
              (sym is_n) (omega (arith, end, start, behind.0)))
