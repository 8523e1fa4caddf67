-- ===== src/Layout/Align.antt =====
-- Aligned sizes and positions.
use dev_essential.Base.{
  ℕ, ◌+◌, ◌-◌, ◌*◌, ◌/◌, ◌%◌, ◌^◌, ◌≤◌, ◌<◌, max, ◌≡◌, ap, ◌∙◌, arith, ==_iff, ltb, ◌==◌,
  if◌then◌else◌, true, false, Bool-cases, inl, inr,
}
use mathlib.Core.Path.{subst}
use native.Mathlib.Nat.{mul-mod_right, mod-lt, mod-add-div, mod-eq_of_lt}
use dev_essential.Layout.{size_t, calculate_aligned_size}
use dev_essential.Layout.Elements.{move_to_alignment}

-- `n` is the first multiple of `alignment` that is not below `size`.
pub record IsAligned (alignment size n : ℕ) : Type 0 where
  pub is_multiple : n % alignment ≡ 0
  pub not_below : size ≤ n
  pub is_first : n < size + alignment

no_need : (size a : ℕ) → 1 ≤ a → size % a ≡ 0 → IsAligned a size size
no_need size a ha h = omega arith

round_up : (size a : ℕ) → 1 ≤ a → 0 < size % a → IsAligned a size (size + (a - size % a))
round_up size a ha h = record {
  is_multiple = ap (λ (n : ℕ). n % a) whole ∙ mul-mod_right a (1 + size / a);
  not_below = omega (arith, mod-lt size ha);
  is_first = omega (arith, mod-lt size ha);
}
  where
    whole : size + (a - size % a) ≡ a * (1 + size / a)
    whole = omega (arith, mod-add-div size a, mod-lt size ha)

-- What both functions do with a positive alignment.
raised :
    (size a : ℕ)
    → 1 ≤ a
    → size + a < 2 ^ 64
    → IsAligned a size (if size % a == 0 then size else size_t (size + (a - size % a)))
raised size a ha fits = elim (Bool-cases (size % a == 0)) [
  | inl done ↦ rw done (no_need size a ha ((==_iff _ 0).0 done))
  | inr rest ↦ rw (rest, no_wrap) (round_up size a ha (pos_rest rest))
]
  where
    no_wrap : size_t (size + (a - size % a)) ≡ size + (a - size % a)
    no_wrap = mod-eq_of_lt (omega arith)

    pos_rest : (size % a == 0) ≡ false → 0 < size % a
    pos_rest rest = ground arith

-- The aligned size is the first multiple of the alignment that holds the size, an alignment of 0
-- counting as 1, where their sum is below 2 ^ 64.
pub calculate_aligned_size-IsAligned :
    (size alignment : ℕ)
    → size + max 1 alignment < 2 ^ 64
    → IsAligned (max 1 alignment) size (calculate_aligned_size size alignment)
unfolding calculate_aligned_size
calculate_aligned_size-IsAligned size alignment fits = elim (Bool-cases (alignment == 0)) [
  | inl unset ↦ rw (unset, (==_iff alignment 0).0 unset) (branches 1 (omega arith) (room unset))
  | inr set ↦ rw (set, kept set) (branches alignment (positive set) (whole set))
]
  where
    room : (alignment == 0) ≡ true → size + 1 < 2 ^ 64
    room unset = ground arith

    kept : (alignment == 0) ≡ false → max 1 alignment ≡ alignment
    kept set = ground arith

    positive : (alignment == 0) ≡ false → 1 ≤ alignment
    positive set = ground arith

    whole : (alignment == 0) ≡ false → size + alignment < 2 ^ 64
    whole set = ground arith

    branches :
        (a : ℕ)
        → 1 ≤ a
        → size + a < 2 ^ 64
        → IsAligned a size (if ltb 0 (size % a) then size_t (size + (a - size % a)) else size)
    branches a ha fits = subst (IsAligned a size) (ground arith) (raised size a ha fits)

pub move_to_alignment-IsAligned :
    (alignment pos : ℕ)
    → 1 ≤ alignment
    → pos + alignment < 2 ^ 64
    → IsAligned alignment pos (move_to_alignment alignment pos)
unfolding move_to_alignment
move_to_alignment-IsAligned alignment pos ha fits =
    subst (IsAligned alignment pos) (ground arith) (raised pos alignment ha fits)
