-- ===== src/Layout/Chain.antt =====
-- The elements of a structure in their order: each lies behind the one before it, and the sizes of
-- the structure are where the last one ends.
use dev_essential.Base.{
  ℕ, ◌+◌, ◌^◌, ◌≤◌, ◌<◌, ◌≡◌, refl, arith, true, false, Option, some, List, [], ◌∷◌, ltb,
  if◌then◌else◌,
}
use native.Mathlib.Nat.{mod-eq_of_lt}
use dev_essential.Version.{Version}
use dev_essential.Layout.{TypeInfo, Element, Placed, end_bit, calculate_serialized_bit_size}
use dev_essential.Layout.Elements.{
  update_element, alignment_of_element, deserialized_size, relevant_version,
}
use dev_essential.Layout.Struct.{Totals, discover, Laid, update_elements}
use dev_essential.Layout.Sized.{
  IsStatic, IsClean, IsKnown, IsSized, start_bit, start_byte, end_byte,
}
use dev_essential.Layout.Behind.{IsBehind, update_element-IsBehind}

-- An element with a static type and no byte position of its own, whose bit position was never set
-- or is valid.
pub record IsFree (e : Element) : Type 0 where
  pub type_info : TypeInfo
  pub static : IsStatic e type_info
  pub no_position : e.byte_pos.valid ≡ false
  pub fresh : IsClean e.bit_pos

pub data AllFree : List Element → Type 0 where
  none_left : AllFree []
  one_more : {e : Element} {es : List Element} → IsFree e → AllFree es → AllFree (e ∷ es)

-- The bits and bytes that a free element takes, and those that may be left out before it.
unfoldable pub bits_of : {e : Element} → IsFree e → ℕ
bits_of {e} f = calculate_serialized_bit_size e.array_size f.type_info.type_bit_size e.num_bits + 8

unfoldable pub bytes_of : {e : Element} → Version → Version → IsFree e → ℕ
bytes_of {e} sv fv f =
    alignment_of_element e f.type_info
    + deserialized_size (relevant_version sv fv) e.array_size f.type_info

unfoldable pub all_bits : {es : List Element} → AllFree es → ℕ
all_bits none_left = 0
all_bits (one_more f fs) = bits_of f + all_bits fs

unfoldable pub all_bytes : {es : List Element} → Version → Version → AllFree es → ℕ
all_bytes sv fv none_left = 0
all_bytes sv fv (one_more f fs) = bytes_of sv fv f + all_bytes sv fv fs

-- Each element lies behind the one before it, the first behind `p`, and none ends before it starts.
pub data AllBehind (sv fv : Version) : Placed → List Element → List Placed → Type 0 where
  at_end : {p : Placed} → AllBehind sv fv p [] []
  next :
      {p q : Placed} {e : Element} {es : List Element} {qs : List Placed} {type_info : TypeInfo}
      → IsBehind sv fv e type_info p q
      → start_bit q ≤ end_bit q
      → start_byte q ≤ end_byte q
      → AllBehind sv fv q es qs
      → AllBehind sv fv p (e ∷ es) (q ∷ qs)

unfoldable pub last_of : Placed → List Placed → Placed
last_of p [] = p
last_of p (q ∷ qs) = last_of q qs

-- The totals are those of a structure that ends with `p`.
pub record EndsWith (p : Placed) (t : Totals) : Type 0 where
  pub static : t.is_dynamic ≡ false
  pub valid : t.is_valid ≡ true
  pub bits : t.discovered_type_bit_size ≡ end_bit p
  pub bytes : t.discovered_last_static_byte_offset ≡ end_byte p

-- The bits and the bytes of an element end where its start and its sizes say.
bits_fit_behind :
    (sv fv : Version) (e : Element) (f : IsFree e) (p q : Placed) (n : ℕ)
    → IsBehind sv fv e f.type_info p q
    → end_bit p + (bits_of f + n) ≤ 2 ^ 64
    → (start_bit q ≤ end_bit q) × (end_bit q + n ≤ 2 ^ 64)
unfolding bits_of
bits_fit_behind sv fv e f p q n b fits =
    rw (b.is_sized.bits_end, b.is_sized.bit_size, mod-eq_of_lt small)
      (omega (arith, b.bits_near), omega (arith, b.bits_near))
  where
    small :
        start_bit q
          + calculate_serialized_bit_size e.array_size f.type_info.type_bit_size e.num_bits
        < 2 ^ 64
    small = omega (arith, b.bits_near)

bytes_fit_behind :
    (sv fv : Version) (e : Element) (f : IsFree e) (p q : Placed) (n : ℕ)
    → IsBehind sv fv e f.type_info p q
    → end_byte p + (bytes_of sv fv f + n) < 2 ^ 64
    → (start_byte q ≤ end_byte q) × (end_byte q + n < 2 ^ 64)
unfolding bytes_of
bytes_fit_behind sv fv e f p q n b fits =
    rw (b.is_sized.byte_size, mod-eq_of_lt small)
      (omega (arith, b.bytes_aligned.is_first), omega (arith, b.bytes_aligned.is_first))
  where
    small :
        start_byte q + deserialized_size (relevant_version sv fv) e.array_size f.type_info < 2 ^ 64
    small = omega (arith, b.bytes_aligned.is_first)

room_for_bits :
    {e : Element} (f : IsFree e) (a n : ℕ) → a + (bits_of f + n) ≤ 2 ^ 64 → a + 8 ≤ 2 ^ 64
unfolding bits_of
room_for_bits f a n fits = omega arith

room_for_bytes :
    {e : Element} (sv fv : Version) (f : IsFree e) (a n : ℕ)
    → a + (bytes_of sv fv f + n) < 2 ^ 64
    → a + alignment_of_element e f.type_info < 2 ^ 64
unfolding bytes_of
room_for_bytes sv fv f a n fits = omega arith

-- An element that ends behind all that was discovered becomes the end.
pub discover-EndsWith :
    (q : Placed) (t : Totals) (sv fv : Version) (e : Element) (type_info : TypeInfo)
    → t.is_dynamic ≡ false
    → t.is_valid ≡ true
    → IsSized sv fv e type_info q
    → t.discovered_type_bit_size ≤ end_bit q
    → EndsWith q (discover t q)
unfolding discover
discover-EndsWith q t sv fv e type_info static valid s grows = record {
  static = rw (s.is_known.not_dynamic) static;
  valid = rw (s.is_valid) valid;
  bits = rw (s.highest_bit) (larger _ _ grows);
  bytes = rw (s.is_known.not_dynamic, s.is_known.not_after_dynamic) refl;
}
  where
    larger : (m n : ℕ) → m ≤ n → (if ltb m n then n else m) ≡ n
    larger m n h = ground arith

pub update_elements-next :
    (sv fv : Version) (previous : Option Placed) (q : Placed) (t : Totals) (e : Element)
    (es : List Element) (l : Laid)
    → update_element sv fv e previous ≡ some q
    → update_elements sv fv (some q) (discover t q) es ≡ some l
    → update_elements sv fv previous t (e ∷ es) ≡ some (record l { placed = q ∷ l.placed })
unfolding update_elements
update_elements-next sv fv previous q t e es l made rest = rw (update_elements, made, rest) refl

-- What an update of the elements behind `p` gives.
pub record IsLaid (sv fv : Version) (p : Placed) (es : List Element) (l : Laid) : Type 0 where
  pub all_behind : AllBehind sv fv p es l.placed
  pub ends_with : EndsWith (last_of p l.placed) l.totals

-- An update of free elements behind an element whose position is known succeeds, where there is
-- room for all.
pub update_elements-IsLaid :
    (sv fv : Version) (p : Placed) (t : Totals) (es : List Element) (fs : AllFree es)
    → IsKnown p
    → EndsWith p t
    → end_bit p + all_bits fs ≤ 2 ^ 64
    → end_byte p + all_bytes sv fv fs < 2 ^ 64
    → (l : Laid) × (update_elements sv fv (some p) t es ≡ some l) × IsLaid sv fv p es l
unfolding update_elements all_bits all_bytes last_of
update_elements-IsLaid sv fv p t [] none_left k ends bits bytes =
    (_, refl, record { all_behind = at_end; ends_with = ends })
update_elements-IsLaid sv fv p t (e ∷ es) (one_more f fs) k ends bits bytes =
    let (q, made, behind) =
      update_element-IsBehind sv fv e f.type_info f.static f.no_position p k
        (room_for_bits f _ _ bits) (room_for_bytes sv fv f _ _ bytes) f.fresh in
    let bits_fit = bits_fit_behind sv fv e f p q (all_bits fs) behind bits in
    let bytes_fit = bytes_fit_behind sv fv e f p q (all_bytes sv fv fs) behind bytes in
    let grows : t.discovered_type_bit_size ≤ end_bit q =
      omega (arith, ends.bits, behind.bits_behind, bits_fit.0) in
    let (l, rest, laid) =
      update_elements-IsLaid sv fv q (discover t q) es fs behind.is_sized.is_known
        (discover-EndsWith q t sv fv e f.type_info ends.static ends.valid behind.is_sized grows)
        bits_fit.1 bytes_fit.1 in
    (
      record l { placed = q ∷ l.placed },
      update_elements-next sv fv (some p) q t e es l made rest,
      record {
        all_behind = next behind bits_fit.0 bytes_fit.0 laid.all_behind;
        ends_with = laid.ends_with;
      },
    )
