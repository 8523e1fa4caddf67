-- ===== src/Layout/Behind.antt =====
-- An element without a position of its own is placed right behind the element before it, the first
-- one at the start.
use dev_essential.Base.{
  ℕ, ◌+◌, ◌*◌, ◌/◌, ◌%◌, ◌^◌, ◌≤◌, ◌<◌, ◌≡◌, refl, inl, inr, arith, Bool, false, ◌&&◌, none, some,
  ltb, if◌then◌else◌, Bool-cases,
}
use dev_essential.Version.{Version}
use dev_essential.Layout.{
  OptionalSize, absent, given, TypeInfo, Element, Placed, follows_dynamic, end_bit,
  serialized_pos_behind, serialized_pos_of_type, calculate_serialized_pos_size, dynamic_with,
}
use dev_essential.Layout.Elements.{
  update_element, place, calculate_deserialized_pos_size, deserialized_pos_behind,
  move_to_alignment, alignment_of_element,
}
use dev_essential.Layout.Align.{IsAligned, move_to_alignment-IsAligned}
use dev_essential.Layout.Sized.{
  IsStatic, IsClean, IsKnown, IsSized, start_bit, start_byte, end_byte, pos_at, placed_at,
  placed_at-IsSized,
}

-- `q` was made from `e` and lies behind `p`: in the serialized form less than a byte away, in memory
-- at the first place that has the element's alignment.
pub record IsBehind (sv fv : Version) (e : Element) (type_info : TypeInfo) (p q : Placed)
    : Type 0 where
  pub is_sized : IsSized sv fv e type_info q
  pub bits_behind : end_bit p ≤ start_bit q
  pub bits_near : start_bit q < end_bit p + 8
  pub bytes_aligned : IsAligned (alignment_of_element e type_info) (end_byte p) (start_byte q)

-- `q` was made from `e` and lies at the start.
pub record IsFirst (sv fv : Version) (e : Element) (type_info : TypeInfo) (q : Placed)
    : Type 0 where
  pub is_sized : IsSized sv fv e type_info q
  pub first_bit : start_bit q ≡ 0
  pub first_byte : start_byte q ≡ 0

-- The bits of `e` go on in the byte where `p` ends.
abbrev in_bit_field : Element → Placed → Bool
in_bit_field e p = p.element.bit_pos.valid && e.bit_pos.valid

abbrev byte_behind : Element → Placed → ℕ
byte_behind e p =
    if in_bit_field e p
    then end_bit p / 8
    else if ltb 0 (end_bit p % 8)
    then end_bit p / 8 + 1
    else end_bit p / 8

abbrev bit_behind : Element → Placed → OptionalSize
bit_behind e p = if in_bit_field e p then given (end_bit p % 8) else absent

bit_behind-IsClean : (e : Element) (p : Placed) → IsClean (bit_behind e p)
bit_behind-IsClean e p = elim (Bool-cases (in_bit_field e p)) [
  | inl both ↦ rw both (inl refl)
  | inr apart ↦ rw apart (inr refl)
]

behind_fits :
    (e : Element) (p : Placed)
    → end_bit p + 8 ≤ 2 ^ 64
    → byte_behind e p * 8 + (bit_behind e p).value < 2 ^ 64
behind_fits e p fits = ground arith

not_dynamic_with :
    (e : Element) (type_info : TypeInfo) → IsStatic e type_info → dynamic_with e type_info ≡ false
not_dynamic_with e type_info static = rw (static.fixed_array, static.fixed_type)

alignment_pos : (e : Element) (type_info : TypeInfo) → 1 ≤ alignment_of_element e type_info
unfolding alignment_of_element
alignment_pos e type_info = ground arith

module _ (sv fv : Version) (e : Element) (type_info : TypeInfo) (static : IsStatic e type_info)
    (no_position : e.byte_pos.valid ≡ false) where
  calculate_serialized_pos_size-first :
      calculate_serialized_pos_size e none ≡ some (pos_at e type_info 0 absent)
  unfolding calculate_serialized_pos_size serialized_pos_of_type serialized_pos_behind
  calculate_serialized_pos_size-first = ground arith

  first : Placed
  first = placed_at sv fv e type_info none 0 absent static no_position refl

  update_element-first : update_element sv fv e none ≡ some first
  unfolding update_element first placed_at
  update_element-first = rw (calculate_serialized_pos_size-first, update_element)

  start_of_first : (start_bit first ≡ 0) × (start_byte first ≡ 0)
  unfolding first placed_at place calculate_deserialized_pos_size deserialized_pos_behind
  start_of_first = ground arith

  -- The first element is placed at the start.
  pub update_element-IsFirst :
      IsClean e.bit_pos
      → (q : Placed) × (update_element sv fv e none ≡ some q) × IsFirst sv fv e type_info q
  unfolding first
  update_element-IsFirst fresh = (
    first,
    update_element-first,
    record {
      is_sized =
          placed_at-IsSized sv fv e type_info none 0 absent static no_position refl fresh (inr refl)
            (omega arith);
      first_bit = start_of_first.0;
      first_byte = start_of_first.1;
    },
  )

  module _ (p : Placed) (k : IsKnown p) where
    not_following : follows_dynamic (some p) ≡ false
    not_following = rw (k.not_dynamic, k.not_after_dynamic)

    calculate_serialized_pos_size-behind :
        calculate_serialized_pos_size e (some p)
        ≡ some (pos_at e type_info (byte_behind e p) (bit_behind e p))
    unfolding calculate_serialized_pos_size serialized_pos_of_type serialized_pos_behind
    calculate_serialized_pos_size-behind = ground arith

    after : Placed
    after =
        placed_at sv fv e type_info (some p) (byte_behind e p) (bit_behind e p) static no_position
          not_following

    update_element-after : update_element sv fv e (some p) ≡ some after
    unfolding update_element after placed_at
    update_element-after = rw (calculate_serialized_pos_size-behind, update_element)

    bits_of_after :
        end_bit p + 8 ≤ 2 ^ 64 → (end_bit p ≤ start_bit after) × (start_bit after < end_bit p + 8)
    unfolding after placed_at place
    bits_of_after bits_fit = ground arith

    byte_of_after :
        start_byte after ≡ move_to_alignment (alignment_of_element e type_info) (end_byte p)
    unfolding after placed_at place calculate_deserialized_pos_size deserialized_pos_behind
    byte_of_after = ground arith

    -- An element whose type and array are static, without a byte position of its own and with a bit
    -- position that was never set or is valid, is placed behind an element whose position is known,
    -- where neither position comes near 2 ^ 64.
    pub update_element-IsBehind :
        end_bit p + 8 ≤ 2 ^ 64
        → end_byte p + alignment_of_element e type_info < 2 ^ 64
        → IsClean e.bit_pos
        → (q : Placed) × (update_element sv fv e (some p) ≡ some q) × IsBehind sv fv e type_info p q
    unfolding after
    update_element-IsBehind bits_fit bytes_fit fresh = (
      after,
      update_element-after,
      record {
        is_sized =
            placed_at-IsSized sv fv e type_info (some p) (byte_behind e p) (bit_behind e p) static
              no_position not_following fresh (bit_behind-IsClean e p) (behind_fits e p bits_fit);
        bits_behind = (bits_of_after bits_fit).0;
        bits_near = (bits_of_after bits_fit).1;
        bytes_aligned =
            rw byte_of_after
              (move_to_alignment-IsAligned _ _ (alignment_pos e type_info) bytes_fit);
      },
    )
