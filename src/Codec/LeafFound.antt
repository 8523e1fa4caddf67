-- ===== src/Codec/LeafFound.antt =====
-- The search for a leaf finds the element that holds it.
use dev_essential.Base.{
  ℕ, zero, suc, ◌+◌, ◌-◌, ◌%◌, ◌^◌, ◌≤◌, ◌<◌, ◌≡◌, refl, ap, ◌∙◌, ◌⊎◌, inl, inr, arith, true, false,
  some, List, [], ◌∷◌, ltb, length, get_elem?,
}
use mathlib.Core.Option.{none-ne-some}
use dev_essential.Codec.LeafSearch.{
  LeafRange, element_at, null_element, Side, not_static, inside, before, behind, side_of, mid_of,
  back_to_static, is_dynamic_at, binary_leaf_search,
}

-- Static elements whose leaves follow each other from 0 on, all below 2 ^ 64.
pub record AreConsecutive (es : List LeafRange) : Type 0 where
  pub all_static : (i : ℕ) (r : LeafRange) → get_elem? es i ≡ some r → r.has_static_position ≡ true
  pub in_word :
      (i : ℕ) (r : LeafRange)
      → get_elem? es i ≡ some r
      → r.begin_leaf_index + r.array_leaf_count < 2 ^ 64
  pub from_zero : (r : LeafRange) → get_elem? es 0 ≡ some r → r.begin_leaf_index ≡ 0
  pub follow :
      (i : ℕ) (r s : LeafRange)
      → get_elem? es i ≡ some r
      → get_elem? es (suc i) ≡ some s
      → s.begin_leaf_index ≡ r.begin_leaf_index + r.array_leaf_count

-- The element at `i` holds the leaf.
pub record Holds (es : List LeafRange) (leaf_index i : ℕ) : Type 0 where
  pub range : LeafRange
  pub is_there : get_elem? es i ≡ some range
  pub not_before : range.begin_leaf_index ≤ leaf_index
  pub not_behind : leaf_index < range.begin_leaf_index + range.array_leaf_count

mid_of-zero : (end : ℕ) → end < 2 ^ 64 → mid_of 0 end ≡ end
unfolding mid_of
mid_of-zero end h = ground arith

not_below_zero : (end : ℕ) → ltb end 0 ≡ false
not_below_zero end = ground arith

side_cases :
    (r : LeafRange) (leaf_index : ℕ)
    → r.has_static_position ≡ true
    → r.begin_leaf_index + r.array_leaf_count < 2 ^ 64
    → ((side_of r leaf_index ≡ inside)
        × (r.begin_leaf_index ≤ leaf_index)
        × (leaf_index < r.begin_leaf_index + r.array_leaf_count))
      ⊎ ((side_of r leaf_index ≡ before) × (leaf_index < r.begin_leaf_index))
      ⊎ ((side_of r leaf_index ≡ behind) × (r.begin_leaf_index + r.array_leaf_count ≤ leaf_index))
unfolding side_of
side_cases r leaf_index static small = ground arith

is_dynamic_at-static :
    (es : List LeafRange) (i : ℕ) (r : LeafRange)
    → get_elem? es i ≡ some r
    → r.has_static_position ≡ true
    → is_dynamic_at es i ≡ false
unfolding is_dynamic_at
is_dynamic_at-static es i r found static = rw (is_dynamic_at, found, static) refl

back_to_static-static :
    (es : List LeafRange) (i : ℕ) (r : LeafRange)
    → get_elem? es i ≡ some r
    → r.has_static_position ≡ true
    → back_to_static es 0 i ≡ i
unfolding back_to_static
back_to_static-static es zero r found static = refl
back_to_static-static es (suc i) r found static =
    rw (is_dynamic_at-static es (suc i) r found static) refl

-- One round, at a static element that is there.
module _ (es : List LeafRange) (leaf_index fuel end : ℕ) (r : LeafRange) (small : end < 2 ^ 64)
    (found : get_elem? es end ≡ some r) (static : r.has_static_position ≡ true) where
  mid_is_end : back_to_static es 0 (mid_of 0 end) ≡ end
  mid_is_end =
      ap (back_to_static es 0) (mid_of-zero end small) ∙ back_to_static-static es end r found static

  round :
      (side : Side)
      → side_of r leaf_index ≡ side
      → binary_leaf_search (suc fuel) es leaf_index 0 end ≡ (elim side [
        | not_static ↦ some null_element
        | inside ↦ some (element_at end)
        | before ↦ binary_leaf_search fuel es leaf_index 0 ((end + (2 ^ 64 - 1)) % 2 ^ 64)
        | behind ↦ binary_leaf_search fuel es leaf_index ((end + 1) % 2 ^ 64) end
      ])
  unfolding binary_leaf_search
  round not_static at_side =
      rw
        (
          binary_leaf_search,
          not_below_zero end,
          mid_of-zero end small,
          found,
          mid_is_end,
          found,
          at_side,
        )
        refl
  round inside at_side =
      rw
        (
          binary_leaf_search,
          not_below_zero end,
          mid_of-zero end small,
          found,
          mid_is_end,
          found,
          at_side,
          mid_is_end,
        )
        refl
  round before at_side =
      rw
        (
          binary_leaf_search,
          not_below_zero end,
          mid_of-zero end small,
          found,
          mid_is_end,
          found,
          at_side,
          mid_is_end,
        )
        refl
  round behind at_side =
      rw
        (
          binary_leaf_search,
          not_below_zero end,
          mid_of-zero end small,
          found,
          mid_is_end,
          found,
          at_side,
          mid_is_end,
        )
        refl

empty_search :
    (es : List LeafRange) (leaf_index fuel end : ℕ)
    → end + 1 < 2 ^ 64
    → 1 ≤ fuel
    → binary_leaf_search fuel es leaf_index ((end + 1) % 2 ^ 64) end ≡ some null_element
unfolding binary_leaf_search
empty_search es leaf_index zero end small enough = absurd (omega arith)
empty_search es leaf_index (suc fuel) end small enough = rw (binary_leaf_search, above small) refl
  where
    above : end + 1 < 2 ^ 64 → ltb end ((end + 1) % 2 ^ 64) ≡ true
    above h = ground arith

get_elem?-before :
    (es : List LeafRange) (i : ℕ) (s : LeafRange)
    → get_elem? es (suc i) ≡ some s
    → (r : LeafRange) × (get_elem? es i ≡ some r)
get_elem?-before [] i s found = absurd (none-ne-some _ found)
get_elem?-before (e ∷ es) zero s found = (e, refl)
get_elem?-before (e ∷ es) (suc i) s found = get_elem?-before es i s found

-- What a search up to `end` gives: the element that holds the leaf, or the null pointer where the
-- leaf lies behind the last one.
abbrev pub Finds : List LeafRange → ℕ → ℕ → ℕ → LeafRange → Type 0
Finds es leaf_index fuel end last =
    ((i : ℕ) × (binary_leaf_search fuel es leaf_index 0 end ≡ some (element_at i))
      × Holds es leaf_index i)
    ⊎ ((binary_leaf_search fuel es leaf_index 0 end ≡ some null_element)
        × (last.begin_leaf_index + last.array_leaf_count ≤ leaf_index))

module _ (es : List LeafRange) (leaf_index : ℕ) (consecutive : AreConsecutive es) where
  search_before :
      (fuel end : ℕ) (last : LeafRange)
      → end + 1 < 2 ^ 64
      → get_elem? es end ≡ some last
      → side_of last leaf_index ≡ before
      → leaf_index < last.begin_leaf_index
      → ((e : ℕ) (r : LeafRange)
          → end ≡ suc e
          → get_elem? es e ≡ some r
          → Finds es leaf_index fuel e r)
      → Finds es leaf_index (suc fuel) end last
  search_before fuel zero last small found at_side low shorter =
      absurd (omega (arith, consecutive.from_zero last found))
  search_before fuel (suc e) last small found at_side low shorter =
      let (r, at_e) = get_elem?-before es e last found in
      let step =
        round es leaf_index fuel (suc e) last (omega arith) found
          (consecutive.all_static (suc e) last found) before at_side in
      elim (shorter e r refl at_e) [
        | inl (i, done, holds) ↦
            inl (i, step ∙ ap (binary_leaf_search fuel es leaf_index 0) (lower small) ∙ done, holds)
        | inr (done, behind_r) ↦
            absurd (omega (arith, behind_r, consecutive.follow e r last at_e found))
      ]
    where
      lower : suc e + 1 < 2 ^ 64 → (suc e + (2 ^ 64 - 1)) % 2 ^ 64 ≡ e
      lower h = omega arith

  search-Finds :
      (fuel end : ℕ) (last : LeafRange)
      → end + 1 < 2 ^ 64
      → get_elem? es end ≡ some last
      → end + 2 ≤ fuel
      → Finds es leaf_index fuel end last
  search-Finds zero end last small found enough = absurd (omega arith)
  search-Finds (suc fuel) end last small found enough =
      elim (side_cases last leaf_index (consecutive.all_static end last found)
        (consecutive.in_word end last found)) [
          | inl (here, low, high) ↦ inl (
            end,
            round es leaf_index fuel end last (omega arith) found
                (consecutive.all_static end last found) inside here,
            record { range = last; is_there = found; not_before = low; not_behind = high },
          )
          | inr (inl (left, low)) ↦
              search_before fuel end last small found left low
                (λ e r is_suc at_e. search-Finds fuel e r (omega arith) at_e (omega arith))
          | inr (inr (right, high)) ↦ inr (
            round es leaf_index fuel end last (omega arith) found
                  (consecutive.all_static end last found) behind right
                ∙ empty_search es leaf_index fuel end small (omega arith),
            high,
          )
        ]

-- The search of static elements whose leaves follow each other returns, with fuel of one round for
-- each element and one more: the element that holds the leaf, or the null pointer where the leaf lies
-- behind them all.
pub binary_leaf_search-Finds :
    (es : List LeafRange) (leaf_index end : ℕ) (last : LeafRange)
    → AreConsecutive es
    → end + 1 < 2 ^ 64
    → length es ≡ end + 1
    → get_elem? es end ≡ some last
    → Finds es leaf_index (length es + 1) end last
binary_leaf_search-Finds es leaf_index end last consecutive small all found =
    search-Finds es leaf_index consecutive (length es + 1) end last small found (omega (arith, all))
