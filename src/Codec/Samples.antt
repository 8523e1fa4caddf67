-- ===== src/Codec/Samples.antt =====
-- A codec for the tests: elements, indices and the layouts that they lead to.
use dev_essential.Base.{
  ℕ, zero, suc, ◌+◌, ◌≤◌, ◌<◌, ◌≡◌, refl, arith, true, inr, some, List, [], ◌∷◌,
}
use mathlib.Core.Path.{subst}
use mathlib.Core.Option.{some-injective, none-ne-some}
use dev_essential.Version.{version}
use dev_essential.Serializer.{bit_little_endian}
use dev_essential.Layout.Elements.{deserialized_byte_pos_at, serialized_bit_offset_at}
use dev_essential.Layout.Tests.{
  uint8, uint32, element_of, unsized, first_byte, second_word, byte_and_word, elements,
  uint8-IsFree, elements-AllFree, bits_in_range, bytes_in_range, update_byte_and_word,
}
use dev_essential.CodecIndex.{ElementIndex}
use dev_essential.Codec.{
  ElementLayoutBase, ItemLayout, CodecElement, codec_element, SubElements, no_more, sub_element,
  layout_of, children_of, nth_element, get_element, add_offsets, add_base_layout, find_codec_layout,
  initialize_static, Member, add_sub_elements, cet_uint8, cet_int32, cet_sub_codec,
}
use dev_essential.Codec.Accessor.{
  value_type, read_typed_bits, write_typed_bits, written_to, serialized_get_value,
  serialized_set_value, deserialized_get_value, deserialized_set_value, get_address,
  set_element_raw_value,
}
use dev_essential.Codec.Sound.{FitsItself, IsLaidOut, laid_out, IsItem, here, deeper}
use dev_essential.Codec.Distinct.{ArePart, other_item}
use dev_essential.Codec.Members.{get_element-nth}
use dev_essential.Codec.Built.{AllHold, leaf-IsLaidOut}
use dev_essential.Codec.Whole.{update_struct-IsLaidOut}

unfoldable pub codec_methods : Unit {0}
unfolding nth_element get_element add_offsets add_base_layout find_codec_layout initialize_static
    add_sub_elements deserialized_byte_pos_at serialized_bit_offset_at value_type read_typed_bits
    write_typed_bits written_to serialized_get_value serialized_set_value deserialized_get_value
    deserialized_set_value get_address set_element_raw_value
codec_methods = tt

-- The codec of a byte and a word behind it.
abbrev byte_member : Member
byte_member = record {
  placed = first_byte;
  type_info = uint8;
  byte_order = bit_little_endian;
  type = cet_uint8;
}

abbrev word_member : Member
word_member = record {
  placed = second_word;
  type_info = uint32;
  byte_order = bit_little_endian;
  type = cet_int32;
}

abbrev pub members : List Member
members = byte_member ∷ word_member ∷ []

pub elements-AllHold : AllHold (element_of uint8 ∷ elements)
elements-AllHold zero e t found typed =
    inr (subst (λ x. x.array_size ≤ 1) (some-injective _ _ found) (omega arith))
elements-AllHold (suc zero) e t found typed =
    inr (subst (λ x. x.array_size ≤ 1) (some-injective _ _ found) (omega arith))
elements-AllHold (suc (suc i)) e t found typed = absurd (none-ne-some _ found)

members-IsLaidOut : IsLaidOut 40 (add_sub_elements members)
members-IsLaidOut =
    update_struct-IsLaidOut (version 3 0) (version 3 0) 8 unsized (element_of uint8) elements
      uint8-IsFree elements-AllFree bits_in_range bytes_in_range elements-AllHold byte_and_word
      members update_byte_and_word

abbrev pub at : ℕ → ℕ → ElementIndex
at i k = record { element_index = i; array_pos = k }

abbrev pub item : ℕ → ℕ → ElementLayoutBase → ItemLayout
item bits bytes b = record {
  base = record b {
    serialized = record (b.serialized) { bit_offset = bits };
    deserialized = record (b.deserialized) { bit_offset = bytes };
  };
  array_pos = 0;
}

abbrev pub byte_base : ElementLayoutBase
byte_base = record {
  deserialized = record {
    bit_offset = 0;
    bit_size = 8;
    type_bit_size = 8;
    type_bit_size_aligned = 8;
  };
  serialized = record { bit_offset = 0; bit_size = 8; type_bit_size = 8; type_bit_size_used = 8 };
  byte_order = bit_little_endian;
  array_size = 1;
  type = cet_uint8;
}

abbrev pub word_base : ElementLayoutBase
word_base = record {
  deserialized = record {
    bit_offset = 32;
    bit_size = 32;
    type_bit_size = 32;
    type_bit_size_aligned = 32;
  };
  serialized = record {
    bit_offset = 8;
    bit_size = 32;
    type_bit_size = 32;
    type_bit_size_used = 32;
  };
  byte_order = bit_little_endian;
  array_size = 1;
  type = cet_int32;
}

pub byte_found :
    find_codec_layout (add_sub_elements members) (at 0 0 ∷ []) ≡ some (item 0 0 byte_base)
unfolding codec_methods
byte_found = refl

pub word_found :
    find_codec_layout (add_sub_elements members) (at 1 0 ∷ []) ≡ some (item 8 32 word_base)
unfolding codec_methods
word_found = refl

-- A byte, and behind it an array of two such structures.
abbrev pair_base : ElementLayoutBase
pair_base = record {
  deserialized = record {
    bit_offset = 64;
    bit_size = 128;
    type_bit_size = 64;
    type_bit_size_aligned = 64;
  };
  serialized = record {
    bit_offset = 8;
    bit_size = 80;
    type_bit_size = 40;
    type_bit_size_used = 40;
  };
  byte_order = bit_little_endian;
  array_size = 2;
  type = cet_sub_codec;
}

abbrev pub byte_element : CodecElement
byte_element = codec_element byte_base true no_more

abbrev pairs : CodecElement
pairs = codec_element pair_base true (add_sub_elements members)

abbrev pub codec : SubElements
codec = sub_element byte_element (sub_element pairs no_more)

byte-FitsItself : FitsItself byte_base
byte-FitsItself = record { used_in_type = omega arith; items_inside = λ k h. omega arith }

pairs-FitsItself : FitsItself pair_base
pairs-FitsItself = record { used_in_type = omega arith; items_inside = λ k h. omega arith }

each_fits :
    (i : ℕ) (e : CodecElement)
    → nth_element codec i ≡ some e
    → FitsItself (layout_of e)
      × ((layout_of e).serialized.bit_offset + (layout_of e).serialized.bit_size ≤ 88)
      × IsLaidOut (layout_of e).serialized.type_bit_size_used (children_of e)
unfolding nth_element
each_fits zero e found =
    subst
      (λ x.
        FitsItself (layout_of x)
        × ((layout_of x).serialized.bit_offset + (layout_of x).serialized.bit_size ≤ 88)
        × IsLaidOut (layout_of x).serialized.type_bit_size_used (children_of x))
      (some-injective _ _ found) (byte-FitsItself, omega arith, leaf-IsLaidOut 8)
each_fits (suc zero) e found =
    subst
      (λ x.
        FitsItself (layout_of x)
        × ((layout_of x).serialized.bit_offset + (layout_of x).serialized.bit_size ≤ 88)
        × IsLaidOut (layout_of x).serialized.type_bit_size_used (children_of x))
      (some-injective _ _ found) (pairs-FitsItself, omega arith, members-IsLaidOut)
each_fits (suc (suc i)) e found = absurd (none-ne-some _ found)

pairs_apart :
    (i j : ℕ) (e f : CodecElement)
    → i < j
    → nth_element codec i ≡ some e
    → nth_element codec j ≡ some f
    → (layout_of e).serialized.bit_offset + (layout_of e).serialized.bit_size
      ≤ (layout_of f).serialized.bit_offset
unfolding nth_element
pairs_apart zero (suc zero) e f i<j at_i at_j =
    subst
      (λ x.
        (layout_of x).serialized.bit_offset + (layout_of x).serialized.bit_size
        ≤ (layout_of f).serialized.bit_offset)
      (some-injective _ _ at_i)
      (subst (λ x. 8 ≤ (layout_of x).serialized.bit_offset) (some-injective _ _ at_j) (omega arith))
pairs_apart zero (suc (suc j)) e f i<j at_i at_j = absurd (none-ne-some _ at_j)
pairs_apart (suc i) (suc (suc j)) e f i<j at_i at_j = absurd (none-ne-some _ at_j)
pairs_apart i zero e f i<j at_i at_j = absurd (omega arith)
pairs_apart (suc i) (suc zero) e f i<j at_i at_j = absurd (omega arith)

pub codec-IsLaidOut : IsLaidOut 88 codec
codec-IsLaidOut =
    laid_out
      (record {
        each = λ i e found.
            let (own, inside, _) = each_fits i e (get_element-nth codec i e found) in (own, inside);
        apart = λ i j e f i<j at_i at_j.
            pairs_apart i j e f i<j (get_element-nth codec i e at_i)
              (get_element-nth codec j f at_j);
      })
      (λ i e found. let (_, _, below) = each_fits i e (get_element-nth codec i e found) in below)

-- The words of the two items of the array.
abbrev pub first_path : List ElementIndex
first_path = at 1 0 ∷ at 1 0 ∷ []

abbrev pub second_path : List ElementIndex
second_path = at 1 1 ∷ at 1 0 ∷ []

pub first-IsItem : IsItem codec first_path
unfolding codec_methods
first-IsItem =
    deeper pairs refl (omega arith) (here (codec_element word_base true no_more) refl (omega arith))

pub second-IsItem : IsItem codec second_path
unfolding codec_methods
second-IsItem =
    deeper pairs refl (omega arith) (here (codec_element word_base true no_more) refl (omega arith))

pub paths-ArePart : ArePart first_path second_path
paths-ArePart = other_item refl (λ e. absurd (omega (arith, e)))

pub first_found : find_codec_layout codec first_path ≡ some (item 16 96 word_base)
unfolding codec_methods
first_found = refl

pub second_found : find_codec_layout codec second_path ≡ some (item 56 160 word_base)
unfolding codec_methods
second_found = refl
