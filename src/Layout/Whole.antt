-- ===== src/Layout/Whole.antt =====
-- The update of a whole structure: its elements lie apart, and within its sizes.
use dev_essential.Base.{
  ℕ, ◌+◌, ◌^◌, ◌≤◌, ◌<◌, max, ◌≡◌, refl, sym, ap, ◌∙◌, arith, true, false, none, some, List, ◌∷◌,
  get_elem?, if◌then◌else◌, Bool-cases, inl, inr,
}
use mathlib.Core.Option.{some-injective}
use mathlib.Core.Path.{subst}
use native.Mathlib.Nat.{mod-eq_of_lt}
use dev_essential.Version.{Version, ddl_version_30, is_at_least}
use dev_essential.Layout.{
  TypeInfo, Element, Placed, end_bit, calculate_aligned_size, calculate_serialized_bit_size,
}
use dev_essential.Layout.Elements.{relevant_version, deserialized_size}
use dev_essential.Layout.Struct.{
  discover, nothing_discovered, Laid, update_elements, finish_struct, update_struct,
}
use dev_essential.Layout.Align.{IsAligned, calculate_aligned_size-IsAligned}
use dev_essential.Layout.Sized.{start_bit, start_byte, end_byte}
use dev_essential.Layout.Behind.{IsFirst, update_element-IsFirst}
use dev_essential.Layout.Order.{AllBehind-IsApart, AllBehind-IsWithin}
use dev_essential.Layout.Chain.{
  IsFree, AllFree, one_more, bits_of, bytes_of, all_bits, all_bytes, discover-EndsWith, AllBehind,
  last_of, EndsWith, update_elements-next, update_elements-IsLaid,
}

-- The sizes of a structure that ends with `last`.
pub record HasSizes (sv fv : Version) (alignment : ℕ) (last : Placed) (info : TypeInfo)
    : Type 0 where
  pub is_static : info.is_dynamic ≡ false
  pub is_valid : info.is_valid ≡ true
  pub bit_size : info.type_bit_size ≡ end_bit last
  pub unaligned : info.type_unaligned_byte_size ≡ end_byte last
  pub aligned : info.type_aligned_byte_size ≡ calculate_aligned_size (end_byte last) alignment
  pub byte_size : info.type_byte_size ≡ (
      if is_at_least (relevant_version sv fv) ddl_version_30
      then info.type_aligned_byte_size
      else info.type_unaligned_byte_size)

first_fits :
    (sv fv : Version) (e : Element) (f : IsFree e) (q : Placed) (m n : ℕ)
    → IsFirst sv fv e f.type_info q
    → bits_of f + m ≤ 2 ^ 64
    → bytes_of sv fv f + n < 2 ^ 64
    → (end_bit q + m ≤ 2 ^ 64) × (end_byte q + n < 2 ^ 64)
unfolding bits_of bytes_of
first_fits sv fv e f q m n first bits bytes =
    rw
      (
        first.is_sized.bits_end,
        first.is_sized.bit_size,
        first.is_sized.byte_size,
        first.first_bit,
        first.first_byte,
        mod-eq_of_lt small_bits,
        mod-eq_of_lt small_bytes,
      )
      (omega arith, omega arith)
  where
    small_bits :
        0 + calculate_serialized_bit_size e.array_size f.type_info.type_bit_size e.num_bits < 2 ^ 64
    small_bits = omega arith

    small_bytes : 0 + deserialized_size (relevant_version sv fv) e.array_size f.type_info < 2 ^ 64
    small_bytes = omega arith

finish_struct-HasSizes :
    (sv fv : Version) (alignment : ℕ) (old : TypeInfo) (q last : Placed) (l : Laid)
    → EndsWith last l.totals
    → HasSizes sv fv alignment last
        (finish_struct sv fv alignment old (record l { placed = q ∷ l.placed }))
unfolding finish_struct
finish_struct-HasSizes sv fv alignment old q last l ends = rw (ends.static) record {
  is_static = refl;
  is_valid = ends.valid;
  bit_size = ends.bits;
  unaligned = ends.bytes;
  aligned = rw (ends.bytes) refl;
  byte_size = refl;
}

-- What the update of a structure gives, with its first element `q` and the others `qs`.
pub record IsPlaced (sv fv : Version) (alignment : ℕ) (e : Element) (es : List Element)
    (info : TypeInfo) (q : Placed) (qs : List Placed) : Type 0 where
  pub type_info : TypeInfo
  pub first : IsFirst sv fv e type_info q
  pub behind : AllBehind sv fv q es qs
  pub sizes : HasSizes sv fv alignment (last_of q qs) info

update_struct-of :
    (sv fv : Version) (alignment : ℕ) (old : TypeInfo) (es : List Element) (l : Laid)
    → update_elements sv fv none nothing_discovered es ≡ some l
    → update_struct sv fv alignment old es ≡ some (finish_struct sv fv alignment old l, l.placed)
unfolding update_struct
update_struct-of sv fv alignment old es l laid = rw (update_struct, laid) refl

-- The update of a structure of free elements succeeds, where there is room for all: the first
-- element lies at the start, each other one behind the one before it, and the sizes of the structure
-- are where the last one ends, the byte size aligned from version 3.0 on.
pub update_struct-IsPlaced :
    (sv fv : Version) (alignment : ℕ) (old : TypeInfo) (e : Element) (es : List Element)
    (f : IsFree e) (fs : AllFree es)
    → all_bits (one_more f fs) ≤ 2 ^ 64
    → all_bytes sv fv (one_more f fs) < 2 ^ 64
    → (info : TypeInfo) × (q : Placed) × (qs : List Placed) × (update_struct sv fv alignment old
          (e ∷ es)
        ≡ some (info, q ∷ qs))
      × IsPlaced sv fv alignment e es info q qs
unfolding all_bits all_bytes
update_struct-IsPlaced sv fv alignment old e es f fs bits bytes =
    let (q, made, first) =
      update_element-IsFirst sv fv e f.type_info f.static f.no_position f.fresh in
    let fits = first_fits sv fv e f q (all_bits fs) (all_bytes sv fv fs) first bits bytes in
    let (l, rest, laid) =
      update_elements-IsLaid sv fv q (discover nothing_discovered q) es fs first.is_sized.is_known
        (discover-EndsWith q nothing_discovered sv fv e f.type_info refl refl first.is_sized
          (omega arith))
        fits.0 fits.1 in
    (
      finish_struct sv fv alignment old (record l { placed = q ∷ l.placed }),
      q,
      l.placed,
      update_struct-of sv fv alignment old (e ∷ es) (record l { placed = q ∷ l.placed })
          (update_elements-next sv fv none q nothing_discovered e es l made rest),
      record {
        type_info = f.type_info;
        first = first;
        behind = laid.all_behind;
        sizes = finish_struct-HasSizes sv fv alignment old q (last_of q l.placed) l laid.ends_with;
      },
    )

size_covers :
    (sv fv : Version) (alignment : ℕ) (last : Placed) (info : TypeInfo)
    → HasSizes sv fv alignment last info
    → info.type_unaligned_byte_size + max 1 alignment < 2 ^ 64
    → end_byte last ≤ info.type_byte_size
size_covers sv fv alignment last info sizes fits =
    elim (Bool-cases (is_at_least (relevant_version sv fv) ddl_version_30)) [
      | inl from_30 ↦ rw (sizes.byte_size, from_30, sizes.aligned) aligned.not_below
      | inr before ↦ rw (sizes.byte_size, before, sizes.unaligned) (omega arith)
    ]
  where
    aligned :
        IsAligned
          (max 1 alignment)
          (end_byte last)
          (calculate_aligned_size (end_byte last) alignment)
    aligned =
        calculate_aligned_size-IsAligned (end_byte last) alignment
          (omega (arith, fits, sizes.unaligned))

module _ (sv fv : Version) (alignment : ℕ) (old : TypeInfo) (e : Element) (es : List Element)
    (f : IsFree e) (fs : AllFree es) (bits : all_bits (one_more f fs) ≤ 2 ^ 64)
    (bytes : all_bytes sv fv (one_more f fs) < 2 ^ 64) (info : TypeInfo) (placed : List Placed)
    (made : update_struct sv fv alignment old (e ∷ es) ≡ some (info, placed)) where
  -- Of two elements of a structure of free elements, for which there is room below 2 ^ 64, the later
  -- one starts behind the end of the earlier one, in the serialized bits and in memory.
  pub elements_apart :
      (i j : ℕ) (a b : Placed)
      → i < j
      → get_elem? placed i ≡ some a
      → get_elem? placed j ≡ some b
      → (end_bit a ≤ start_bit b) × (end_byte a ≤ start_byte b)
  elements_apart i j a b i<j at_i at_j =
      let (_, q, qs, made', whole) =
        update_struct-IsPlaced sv fv alignment old e es f fs bits bytes in
      let same : placed ≡ q ∷ qs = ap (λ r. r.1) (some-injective _ _ (sym made ∙ made')) in
      AllBehind-IsApart whole.behind i j a b i<j (ap (λ ps. get_elem? ps i) (sym same) ∙ at_i)
        (ap (λ ps. get_elem? ps j) (sym same) ∙ at_j)

  -- Each element of a structure of free elements, for which there is room below 2 ^ 64, ends within
  -- the structure's sizes, where its unaligned size plus the alignment (at least 1) is below 2 ^ 64.
  pub elements_inside :
      info.type_unaligned_byte_size + max 1 alignment < 2 ^ 64
      → (i : ℕ) (a : Placed) → get_elem? placed i ≡ some a
      → (end_bit a ≤ info.type_bit_size) × (end_byte a ≤ info.type_byte_size)
  elements_inside fits i a at_i =
      let (info', q, qs, made', whole) =
        update_struct-IsPlaced sv fv alignment old e es f fs bits bytes in
      let same = some-injective _ _ (sym made ∙ made') in
      let sizes : HasSizes sv fv alignment (last_of q qs) info =
        subst (HasSizes sv fv alignment (last_of q qs)) (sym (ap (λ r. r.0) same)) whole.sizes in
      let inside =
        AllBehind-IsWithin whole.behind i a (ap (λ r. get_elem? r.1 i) (sym same) ∙ at_i) in
      let covers = size_covers sv fv alignment (last_of q qs) info sizes fits in
      (omega (arith, sizes.bit_size, inside.0), omega (arith, inside.1, covers))
