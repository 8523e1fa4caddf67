-- ===== src/Codec/Writing.antt =====
-- A value that an accessor writes into serialized bytes: what is read back, and what the other
-- elements read.
use dev_essential.Base.{
  ℕ, ◌*◌, ◌%◌, ◌^◌, ◌≤◌, ◌<◌, ◌≡◌, refl, sym, ◌∙◌, ◌⊎◌, inl, inr, arith, length, some, List,
  if◌then◌else◌, not, ◌&&◌, ltb, ◌==◌,
}
use mathlib.Core.Path.{subst}
use mathlib.Core.Option.{some-injective}
use dev_essential.Serializer.{
  Bytes, ok, failed, bit_little_endian, bit_serializer, read, write, err_invalid_arg,
}
use dev_essential.Serializer.Access.{IsBuffer, InRange, Converts}
use dev_essential.Serializer.RoundTrip.{IsWritten, write-IsWritten}
use dev_essential.Serializer.Elsewhere.{read-write_apart, Fits, read_written}
use dev_essential.CodecIndex.{ElementIndex}
use dev_essential.Codec.{ElementType, ItemLayout, SubElements, find_codec_layout}
use dev_essential.Codec.Accessor.{
  Typed, value_type, read_typed_bits, write_typed_bits, written_to, serialized_get_value,
  serialized_set_value,
}
use dev_essential.Codec.Sound.{IsLaidOut, IsItem, offset_of, end_of}
use dev_essential.Codec.Distinct.{ArePart, AreApart, find_codec_layout-AreFoundApart}

-- A layout of a simple type and LE byte order, whose bits fit the type.
pub record IsValue (l : ItemLayout) : Type 0 where
  pub typed : Typed
  pub has_type : value_type l.base.type ≡ some typed
  pub little_endian : l.base.byte_order ≡ bit_little_endian
  pub not_empty : 1 ≤ l.base.serialized.type_bit_size_used
  pub fits_type : l.base.serialized.type_bit_size_used ≤ 8 * typed.size
  pub converts : Converts typed.kind l.base.serialized.type_bit_size_used typed.size

pub value_type-size : (type : ElementType) (t : Typed) → value_type type ≡ some t → t.size ≤ 8
unfolding value_type
value_type-size type t e = ground arith

-- The room for a value that the caller gives, 0 where it is not checked.
abbrev pub HasRoom : ℕ → ℕ → Type 0
HasRoom n size = (n ≡ 0) ⊎ (size ≤ n)

-- With room for the value, the check of the room lets the access through.
pub large_enough {ℓ} :
    {A : Type ℓ} (n size : ℕ) (x r : A)
    → HasRoom n size
    → (if not (n == 0) && ltb n size then x else r) ≡ r
large_enough n size x r (inl e) = ground arith
large_enough n size x r (inr h) = ground arith

abbrev in_range :
    (l : ItemLayout) (v : IsValue l) (bytes : Bytes)
    → end_of l ≤ 8 * length bytes
    → InRange bytes (offset_of l) l.base.serialized.type_bit_size_used v.typed.size
in_range l v bytes inside = record {
  not_empty = v.not_empty;
  fits_variable = v.fits_type;
  fits_buffer = inside;
}

module _ (l : ItemLayout) (v : IsValue l) (bytes : Bytes) (memory : ℕ) where
  serialized_set_value-write :
      (bytes' : Bytes)
      → write
          (bit_serializer bytes)
          v.typed.kind
          (offset_of l)
          l.base.serialized.type_bit_size_used
          v.typed.size
          memory
          bit_little_endian
        ≡ ok (bit_serializer bytes')
      → serialized_set_value l bytes memory ≡ ok bytes'
  unfolding serialized_set_value write_typed_bits written_to
  serialized_set_value-write bytes' done =
      rw (serialized_set_value, v.has_type, v.little_endian, done) refl

  serialized_get_value-read :
      (n : ℕ)
      → HasRoom n v.typed.size
      → serialized_get_value l bytes n
        ≡ read
            (bit_serializer bytes)
            v.typed.kind
            (offset_of l)
            l.base.serialized.type_bit_size_used
            v.typed.size
            bit_little_endian
  unfolding serialized_get_value read_typed_bits
  serialized_get_value-read n room =
      rw (serialized_get_value, v.has_type, v.little_endian)
        (large_enough n v.typed.size (failed err_invalid_arg) _ room)

  serialized_get_value-same :
      (bytes' : Bytes)
      → read
          (bit_serializer bytes')
          v.typed.kind
          (offset_of l)
          l.base.serialized.type_bit_size_used
          v.typed.size
          bit_little_endian
        ≡ read
            (bit_serializer bytes)
            v.typed.kind
            (offset_of l)
            l.base.serialized.type_bit_size_used
            v.typed.size
            bit_little_endian
      → (n : ℕ) → serialized_get_value l bytes' n ≡ serialized_get_value l bytes n
  unfolding serialized_get_value read_typed_bits
  serialized_get_value-same bytes' same n =
      rw (serialized_get_value, v.has_type, v.little_endian, same) refl

-- The bytes after a value was set: as many, and changed in the element's bits only.
abbrev pub IsAssigned : ItemLayout → Bytes → ℕ → Bytes → Type 0
IsAssigned l bytes memory bytes' =
    (serialized_set_value l bytes memory ≡ ok bytes')
    × IsWritten bytes (offset_of l) l.base.serialized.type_bit_size_used memory bytes'

-- Setting a LE element that lies in the buffer to a value that fits the element's bits succeeds,
-- keeps the buffer's size and changes no bit outside of the element, and the value, a negative one of
-- a signed type included, comes back into a variable large enough.
pub serialized_set_value-get :
    (l : ItemLayout) (v : IsValue l) (bytes : Bytes) (memory : ℕ)
    → IsBuffer bytes
    → end_of l ≤ 8 * length bytes
    → memory < 2 ^ 64
    → Fits v.typed.kind
        (v.typed.size * 8)
        l.base.serialized.type_bit_size_used
        (memory % 2 ^ (v.typed.size * 8))
    → (n : ℕ) → HasRoom n v.typed.size
    → (bytes' : Bytes) × IsAssigned l bytes memory bytes'
      × (serialized_get_value l bytes' n ≡ ok (memory % 2 ^ (v.typed.size * 8)))
serialized_set_value-get l v bytes memory buffer inside hm fits n room =
    let small = value_type-size l.base.type v.typed v.has_type in
    let r = in_range l v bytes inside in
    let (bytes', done, w) =
      write-IsWritten bytes (offset_of l) l.base.serialized.type_bit_size_used v.typed.size memory
        v.typed.kind buffer small r v.converts hm in
    (
      bytes',
      (serialized_set_value-write l v bytes memory bytes' done, w),
      serialized_get_value-read l v bytes' memory n room
          ∙ read_written bytes bytes' (offset_of l) l.base.serialized.type_bit_size_used
              v.typed.size memory small r w v.typed.kind v.converts fits,
    )

-- Setting a LE element leaves the value of every LE element as it was that shares no bit with it.
pub serialized_set_value-apart :
    (k l : ItemLayout) (u : IsValue k) (v : IsValue l) (bytes : Bytes) (memory : ℕ)
    → IsBuffer bytes
    → end_of k ≤ 8 * length bytes
    → end_of l ≤ 8 * length bytes
    → AreApart k l
    → memory < 2 ^ 64
    → (n : ℕ)
    → (bytes' : Bytes) × IsAssigned k bytes memory bytes'
      × (serialized_get_value l bytes' n ≡ serialized_get_value l bytes n)
serialized_set_value-apart k l u v bytes memory buffer k_in l_in apart hm n =
    let (bytes', done, w, same) =
      read-write_apart bytes (offset_of k) k.base.serialized.type_bit_size_used u.typed.size memory
        u.typed.kind buffer (value_type-size k.base.type u.typed u.has_type)
        (in_range k u bytes k_in) u.converts hm (offset_of l) l.base.serialized.type_bit_size_used
        v.typed.size v.typed.kind (value_type-size l.base.type v.typed v.has_type)
        (in_range l v bytes l_in) (swap apart) in
    (
      bytes',
      (serialized_set_value-write k u bytes memory bytes' done, w),
      serialized_get_value-same l v bytes memory bytes' same n,
    )
  where
    swap : AreApart k l → (end_of l ≤ offset_of k) ⊎ (end_of k ≤ offset_of l)
    swap (inl h) = inr h
    swap (inr h) = inl h

-- In a codec whose elements are laid out in the bits of the buffer, setting one item leaves the
-- values of all other items as they were, where both are LE values and their indices part.
pub serialized_set_value-others :
    (es : SubElements) (size : ℕ)
    → IsLaidOut size es
    → (bytes : Bytes) → IsBuffer bytes
    → size ≤ 8 * length bytes
    → (xs ys : List ElementIndex) → IsItem es xs
    → IsItem es ys
    → ArePart xs ys
    → (k l : ItemLayout) → find_codec_layout es xs ≡ some k
    → find_codec_layout es ys ≡ some l
    → IsValue k
    → IsValue l
    → (memory : ℕ) → memory < 2 ^ 64
    → (n : ℕ)
    → (bytes' : Bytes) × IsAssigned k bytes memory bytes'
      × (serialized_get_value l bytes' n ≡ serialized_get_value l bytes n)
serialized_set_value-others es size laid bytes buffer covers xs ys at_x at_y parts k l found_k
      found_l u v memory hm n =
    let a =
      find_codec_layout-AreFoundApart es xs ys size (omega (arith, buffer.in_memory)) laid at_x at_y
        parts in
    let same_k : a.one ≡ k = some-injective _ _ (sym a.one_found ∙ found_k) in
    let same_l : a.other ≡ l = some-injective _ _ (sym a.other_found ∙ found_l) in
    serialized_set_value-apart k l u v bytes memory buffer
      (subst (λ m. end_of m ≤ 8 * length bytes) same_k (omega (arith, a.one_inside)))
      (subst (λ m. end_of m ≤ 8 * length bytes) same_l (omega (arith, a.other_inside)))
      (subst (λ m. AreApart m l) same_k (subst (AreApart a.one) same_l a.are_apart)) hm n
