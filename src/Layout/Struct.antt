-- ===== src/Layout/Struct.antt =====
-- `update` of a structure's TypeInfo: the loop over all elements and the sizes behind it.
use dev_essential.Base.{
  ℕ, ◌+◌, ◌*◌, Bool, true, false, not, ◌||◌, Option, none, some, List, [], ◌∷◌, ltb, if◌then◌else◌,
}
use dev_essential.Version.{Version, ddl_version_30, is_at_least}
use dev_essential.Layout.{size_t, TypeInfo, Element, Placed, calculate_aligned_size}
use dev_essential.Layout.Elements.{update_element, relevant_version}

-- getSerializedHighestBit; what it does not know reads as 0.
unfoldable pub serialized_highest_bit : Placed → ℕ
serialized_highest_bit p =
    if p.info.is_dynamic || p.info.is_after_dynamic
    then 0
    else (let used_bit_pos = if p.element.bit_pos.valid then p.element.bit_pos.value else 0 in
        size_t (p.element.byte_pos.value * 8 + used_bit_pos + p.info.serialized_bit_size.value))

-- What the loop keeps of the elements that it has passed.
pub record Totals : Type 0 where
  pub is_dynamic : Bool
  pub is_valid : Bool
  pub discovered_type_bit_size : ℕ
  pub discovered_last_static_byte_offset : ℕ

abbrev pub nothing_discovered : Totals
nothing_discovered = record {
  is_dynamic = false;
  is_valid = true;
  discovered_type_bit_size = 0;
  discovered_last_static_byte_offset = 0;
}

unfoldable pub discover : Totals → Placed → Totals
discover t p = record {
  is_dynamic = if p.info.is_dynamic then true else t.is_dynamic;
  is_valid = if not p.info.is_valid then false else t.is_valid;
  discovered_type_bit_size =
      if ltb t.discovered_type_bit_size (serialized_highest_bit p)
      then serialized_highest_bit p
      else t.discovered_type_bit_size;
  discovered_last_static_byte_offset =
      if p.info.is_dynamic
      then t.discovered_last_static_byte_offset
      else if not p.info.is_after_dynamic
      then size_t (p.info.deserialized_byte_pos.value + p.info.deserialized_byte_size.value)
      else t.discovered_last_static_byte_offset;
}

-- The elements as the loop leaves them, and the totals behind it.
pub record Laid : Type 0 where
  pub placed : List Placed
  pub totals : Totals

abbrev pub add_placed : Placed → Option Laid → Option Laid
add_placed p none = none
add_placed p (some l) = some (record l { placed = p ∷ l.placed })

unfoldable pub update_elements :
    Version → Version → Option Placed → Totals → List Element → Option Laid
update_elements sv fv previous t [] = some (record { placed = []; totals = t })
update_elements sv fv previous t (e ∷ es) = elim (update_element sv fv e previous) [
  | none ↦ none
  | some p ↦ add_placed p (update_elements sv fv (some p) (discover t p) es)
]

-- The sizes behind the loop; `old` is the info before, whose other sizes stay.
unfoldable pub finish_struct : Version → Version → ℕ → TypeInfo → Laid → TypeInfo
finish_struct sv fv alignment old l =
    let t = l.totals in
    let known : TypeInfo = record old {
      type_bit_size = t.discovered_type_bit_size;
      type_alignment = alignment;
      is_dynamic = t.is_dynamic;
      is_valid = t.is_valid;
    } in
    let last = t.discovered_last_static_byte_offset in
    let aligned = calculate_aligned_size last alignment in
    if t.is_dynamic then record known { type_byte_size = last } else elim l.placed [
      | [] ↦ record known { type_byte_size = 0 }
      | p ∷ ps ↦ record known {
        type_byte_size =
            if is_at_least (relevant_version sv fv) ddl_version_30 then aligned else last;
        type_aligned_byte_size = aligned;
        type_unaligned_byte_size = last;
      }
    ]

unfoldable pub update_struct :
    Version → Version → ℕ → TypeInfo → List Element → Option (TypeInfo × List Placed)
update_struct sv fv alignment old es = elim (update_elements sv fv none nothing_discovered es) [
  | none ↦ none
  | some l ↦ some (finish_struct sv fv alignment old l, l.placed)
]
