-- ===== src/CodecIndex/Moves.antt =====
-- Moves of an index within its array, and equality of indices.
use dev_essential.Base.{
  ℕ, ◌+◌, ◌-◌, ◌*◌, ◌%◌, ◌^◌, ◌≤◌, ◌<◌, true, some, List, [], ◌∷◌, ◌==◌, length, ◌≡◌, refl, sym, ap,
  ◌∙◌, ◌⊎◌, inl, inr, arith, Bool-cases, lt→ltb, ==_iff,
}
use mathlib.Core.Option.{some-injective}
use native.Mathlib.Nat.{add-mul, mod-add-mod, add-mul-mod_self_left, mod-eq_of_lt, mod-lt}
use dev_essential.CodecIndex.{
  ElementIndex, ElementLayout, CodecIndex, back, set_back, move_offset, move_layout,
  get_index_for_array_pos,
}

abbrev distance : ℕ → ℕ → ℕ
distance old new = (new + 2 ^ 64 - old) % 2 ^ 64

distances :
    (a b c : ℕ)
    → a < 2 ^ 64
    → b < 2 ^ 64
    → c < 2 ^ 64
    → (distance a b + distance b c ≡ distance a c)
      ⊎ (distance a b + distance b c ≡ distance a c + 2 ^ 64)
distances a b c ha hb hc = ground arith

wrapped_sum :
    (o x y z s w : ℕ)
    → (x + y ≡ z) ⊎ (x + y ≡ z + w)
    → ((o + x * s) % w + y * s) % w ≡ (o + z * s) % w
wrapped_sum o x y z s w total = mod-add-mod (o + x * s) w (y * s) ∙ elim total [
  | inl same ↦ ap (λ n. n % w) (omega (arith, add-mul x y s, ap (λ n. n * s) same))
  | inr over ↦
      ap (λ n. n % w) (omega (arith, add-mul x y s, add-mul z w s, ap (λ n. n * s) over))
      ∙ add-mul-mod_self_left (o + z * s) w s
]

two_moves :
    (o a b c s : ℕ)
    → a < 2 ^ 64
    → b < 2 ^ 64
    → c < 2 ^ 64
    → move_offset (move_offset o a b s) b c s ≡ move_offset o a c s
unfolding move_offset
two_moves o a b c s ha hb hc =
    wrapped_sum o (distance a b) (distance b c) (distance a c) s (2 ^ 64) (distances a b c ha hb hc)

no_move : (o a s : ℕ) → o < 2 ^ 64 → a < 2 ^ 64 → move_offset o a a s ≡ o
unfolding move_offset
no_move o a s ho ha = rw here (mod-eq_of_lt (omega arith) ∙ omega arith)
  where
    here : distance a a ≡ 0
    here = omega arith

back-set_back :
    (xs : List ElementIndex) (x : ElementIndex) → 0 < length xs → back (set_back xs x) ≡ x
unfolding back set_back
back-set_back [] x some_left = ground arith
back-set_back (y ∷ []) x some_left = refl
back-set_back (y ∷ z ∷ []) x some_left = refl
back-set_back (y ∷ z ∷ w ∷ xs) x some_left = back-set_back (z ∷ w ∷ xs) x (omega arith)

set_back_twice :
    (xs : List ElementIndex) (x y : ElementIndex) → set_back (set_back xs x) y ≡ set_back xs y
unfolding set_back
set_back_twice [] x y = refl
set_back_twice (z ∷ []) x y = refl
set_back_twice (z ∷ w ∷ []) x y = refl
set_back_twice (z ∷ w ∷ v ∷ xs) x y = ap (λ r. z ∷ r) (set_back_twice (w ∷ v ∷ xs) x y)

set_back-back : (xs : List ElementIndex) → set_back xs (back xs) ≡ xs
unfolding set_back back
set_back-back [] = refl
set_back-back (x ∷ []) = refl
set_back-back (x ∷ y ∷ xs) = ap (λ r. x ∷ r) (set_back-back (y ∷ xs))

length-set_back : (xs : List ElementIndex) (x : ElementIndex) → length (set_back xs x) ≡ length xs
unfolding set_back
length-set_back [] x = refl
length-set_back (y ∷ []) x = refl
length-set_back (y ∷ z ∷ xs) x = omega (arith, length-set_back (z ∷ xs) x)

-- An index with a layout, at an item of the element's array.
pub record IsAtItem (i : CodecIndex) : Type 0 where
  pub has_element : 0 < length i.indices
  pub has_layout : i.layout_valid ≡ true
  pub same_pos : i.layout.array_pos ≡ (back i.indices).array_pos
  pub in_array : (back i.indices).array_pos < i.layout.array_size
  pub array_fits : i.layout.array_size ≤ 2 ^ 64
  pub deserialized_fits : i.layout.deserialized_bit_offset < 2 ^ 64
  pub serialized_fits : i.layout.serialized_bit_offset < 2 ^ 64

abbrev moved : CodecIndex → ℕ → CodecIndex
moved i a = record i {
  indices = set_back i.indices (record (back i.indices) { array_pos = a });
  layout = move_layout i.layout (back i.indices).array_pos a;
}

layout-here :
    (i : CodecIndex)
    → IsAtItem i
    → move_layout i.layout (back i.indices).array_pos (back i.indices).array_pos ≡ i.layout
unfolding move_layout
layout-here i h =
    ap
      (λ (o, o', n). record i.layout {
        deserialized_bit_offset = o;
        serialized_bit_offset = o';
        array_pos = n;
      })
      same
  where
    fits : (back i.indices).array_pos < 2 ^ 64
    fits = omega (arith, h.in_array, h.array_fits)

    same :
        ◌≡◌ {A = ℕ × ℕ × ℕ}
          (
            move_offset i.layout.deserialized_bit_offset
                (back i.indices).array_pos
                (back i.indices).array_pos
                i.layout.deserialized_type_bit_size_aligned,
            move_offset i.layout.serialized_bit_offset
                (back i.indices).array_pos
                (back i.indices).array_pos
                i.layout.serialized_type_bit_size,
            (back i.indices).array_pos,
          )
          (i.layout.deserialized_bit_offset, i.layout.serialized_bit_offset, i.layout.array_pos)
    same =
        rw
          (
            no_move i.layout.deserialized_bit_offset _ i.layout.deserialized_type_bit_size_aligned
                h.deserialized_fits fits,
            no_move i.layout.serialized_bit_offset _ i.layout.serialized_type_bit_size
                h.serialized_fits fits,
            h.same_pos,
          )
          refl

moved-here : (i : CodecIndex) → IsAtItem i → moved i (back i.indices).array_pos ≡ i
moved-here i h =
    ap (λ xs. record (moved i (back i.indices).array_pos) { indices = xs })
      (set_back-back i.indices)
    ∙ ap (λ l. record i { layout = l }) (layout-here i h)

get_index-moved :
    (i : CodecIndex)
    → IsAtItem i
    → (a : ℕ) → a < i.layout.array_size
    → get_index_for_array_pos i a ≡ some (moved i a)
unfolding get_index_for_array_pos
get_index-moved i h a inside = elim (Bool-cases ((back i.indices).array_pos == a)) [
  | inl same ↦ rw same (
      ap some (sym (moved-here i h))
      ∙ ap (λ n. some (moved i n)) ((==_iff (back i.indices).array_pos a).0 same))
  | inr other ↦
      rw (other, h.has_layout, lt→ltb 0 (length i.indices) h.has_element, lt→ltb a _ inside) refl
]

moved-IsAtItem :
    (i : CodecIndex) → IsAtItem i → (a : ℕ) → a < i.layout.array_size → IsAtItem (moved i a)
unfolding move_layout move_offset
moved-IsAtItem i h a inside = record {
  has_element = rw (length-set_back i.indices) h.has_element;
  has_layout = h.has_layout;
  same_pos = rw (back-set_back i.indices _ h.has_element) refl;
  in_array = rw (back-set_back i.indices _ h.has_element) inside;
  array_fits = h.array_fits;
  deserialized_fits = mod-lt _ (omega arith);
  serialized_fits = mod-lt _ (omega arith);
}

layout_twice :
    (l : ElementLayout) (p a b : ℕ)
    → p < 2 ^ 64
    → a < 2 ^ 64
    → b < 2 ^ 64
    → move_layout (move_layout l p a) a b ≡ move_layout l p b
unfolding move_layout
layout_twice l p a b hp ha hb =
    rw
      (
        two_moves l.deserialized_bit_offset p a b l.deserialized_type_bit_size_aligned hp ha hb,
        two_moves l.serialized_bit_offset p a b l.serialized_type_bit_size hp ha hb,
      )
      refl

moved_twice :
    (i : CodecIndex)
    → IsAtItem i
    → (a b : ℕ) → a < i.layout.array_size
    → b < i.layout.array_size
    → moved (moved i a) b ≡ moved i b
moved_twice i h a b at_a at_b =
    rw
      (
        back-set_back i.indices (record (back i.indices) { array_pos = a }) h.has_element,
        set_back_twice i.indices,
        layout_twice i.layout (back i.indices).array_pos a b (small h.in_array) (small at_a)
            (small at_b),
      )
      refl
  where
    small : {n : ℕ} → n < i.layout.array_size → n < 2 ^ 64
    small below = omega (arith, below, h.array_fits)

-- For an index with a layout at an item of its array, whose array has at most 2 ^ 64 items: moving
-- it to an item and then to another gives the index that moving it to the other at once does.
pub get_index_via :
    (i j : CodecIndex)
    → IsAtItem i
    → (a b : ℕ) → a < i.layout.array_size
    → b < i.layout.array_size
    → get_index_for_array_pos i a ≡ some j
    → get_index_for_array_pos j b ≡ get_index_for_array_pos i b
unfolding move_layout
get_index_via i j h a b at_a at_b made =
    let same : moved i a ≡ j = some-injective _ _ (sym (get_index-moved i h a at_a) ∙ made) in
    ap (λ k. get_index_for_array_pos k b) (sym same)
    ∙ get_index-moved (moved i a) (moved-IsAtItem i h a at_a) b at_b
    ∙ ap some (moved_twice i h a b at_a at_b)
    ∙ sym (get_index-moved i h b at_b)
