-- ===== src/Codec/Whole.antt =====
-- From the description of a structure to the values in its buffer.
use dev_essential.Base.{ℕ, ◌*◌, ◌^◌, ◌≤◌, ◌<◌, ◌≡◌, sym, ap, ◌∙◌, some, List, ◌∷◌, map, length}
use mathlib.Core.Path.{subst}
use mathlib.Core.Option.{some-injective}
use dev_essential.Version.{Version}
use dev_essential.Layout.{TypeInfo, Element}
use dev_essential.Layout.Struct.{update_struct}
use dev_essential.Layout.Chain.{IsFree, AllFree, one_more, all_bits, all_bytes}
use dev_essential.Layout.Whole.{update_struct-IsPlaced}
use dev_essential.Serializer.{Bytes}
use dev_essential.Serializer.Access.{IsBuffer}
use dev_essential.CodecIndex.{ElementIndex}
use dev_essential.Codec.{ItemLayout, Member, add_sub_elements, find_codec_layout}
use dev_essential.Codec.Accessor.{serialized_get_value}
use dev_essential.Codec.Sound.{IsLaidOut, IsItem}
use dev_essential.Codec.Distinct.{ArePart}
use dev_essential.Codec.Writing.{IsValue, IsAssigned, serialized_set_value-others}
use dev_essential.Codec.Built.{AllHold, built-IsLaidOut}

module _ (sv fv : Version) (alignment : ℕ) (old : TypeInfo) (e : Element) (es : List Element)
    (f : IsFree e) (fs : AllFree es) (bits : all_bits (one_more f fs) ≤ 2 ^ 64)
    (bytes : all_bytes sv fv (one_more f fs) < 2 ^ 64) (hold : AllHold (e ∷ es)) (info : TypeInfo)
    (ms : List Member)
    (made : update_struct sv fv alignment old (e ∷ es) ≡ some (info, map (λ m. m.placed) ms)) where
  -- The codec elements built for a structure of free elements of simple types, for which there is
  -- room below 2 ^ 64 and whose arrays hold their items, lie in the structure's bits, each behind the
  -- ones before it, and so do the items of each array in the bits of their element.
  pub update_struct-IsLaidOut : IsLaidOut info.type_bit_size (add_sub_elements ms)
  update_struct-IsLaidOut =
      let (info', q, qs, made', whole) =
        update_struct-IsPlaced sv fv alignment old e es f fs bits bytes in
      let same = some-injective _ _ (sym made' ∙ made) in
      subst (λ i. IsLaidOut i.type_bit_size (add_sub_elements ms)) (ap (λ r. r.0) same)
        (built-IsLaidOut sv fv alignment e es f fs bits hold info' q qs whole ms
          (sym (ap (λ r. r.1) same)))

  -- In a buffer that holds such a structure, setting one LE item leaves the values of all other LE
  -- items as they were.
  pub update_struct-others :
      (buffer : Bytes)
      → IsBuffer buffer
      → info.type_bit_size ≤ 8 * length buffer
      → (xs ys : List ElementIndex) → IsItem (add_sub_elements ms) xs
      → IsItem (add_sub_elements ms) ys
      → ArePart xs ys
      → (k l : ItemLayout) → find_codec_layout (add_sub_elements ms) xs ≡ some k
      → find_codec_layout (add_sub_elements ms) ys ≡ some l
      → IsValue k
      → IsValue l
      → (memory : ℕ) → memory < 2 ^ 64
      → (n : ℕ)
      → (buffer' : Bytes) × IsAssigned k buffer memory buffer'
        × (serialized_get_value l buffer' n ≡ serialized_get_value l buffer n)
  update_struct-others buffer is_buffer covers xs ys at_x at_y parts k l found_k found_l u v memory
        hm n =
      serialized_set_value-others (add_sub_elements ms) info.type_bit_size update_struct-IsLaidOut
        buffer is_buffer covers xs ys at_x at_y parts k l found_k found_l u v memory hm n
