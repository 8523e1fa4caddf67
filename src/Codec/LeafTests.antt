-- ===== src/Codec/LeafTests.antt =====
-- Runs of the search for a leaf.
use dev_essential.Base.{
  ℕ, zero, suc, ◌+◌, ◌^◌, ◌<◌, ◌≡◌, refl, arith, true, false, some, List, [], ◌∷◌, get_elem?,
}
use mathlib.Core.Path.{subst}
use mathlib.Core.Option.{some-injective, none-ne-some}
use dev_essential.Codec.LeafSearch.{
  LeafRange, element_at, null_element, thrown, is_dynamic_at, side_of, mid_of, back_to_static,
  binary_leaf_search,
}
use dev_essential.Codec.LeafFound.{AreConsecutive, Finds, binary_leaf_search-Finds}

search_methods : Unit {0}
unfolding is_dynamic_at side_of mid_of back_to_static binary_leaf_search
search_methods = tt

-- A leaf, and behind it an array of two structures of two leaves.
abbrev one_leaf : LeafRange
one_leaf = record { has_static_position = true; begin_leaf_index = 0; array_leaf_count = 1 }

abbrev four_leaves : LeafRange
four_leaves = record { has_static_position = true; begin_leaf_index = 1; array_leaf_count = 4 }

abbrev ranges : List LeafRange
ranges = one_leaf ∷ four_leaves ∷ []

leaf_three : binary_leaf_search 3 ranges 3 0 1 ≡ some (element_at 1)
unfolding search_methods
leaf_three = refl

leaf_zero : binary_leaf_search 3 ranges 0 0 1 ≡ some (element_at 0)
unfolding search_methods
leaf_zero = refl

leaf_nine : binary_leaf_search 3 ranges 9 0 1 ≡ some null_element
unfolding search_methods
leaf_nine = refl

-- Before two elements with no static position, the search for a leaf that is not there goes on at an
-- index that no element has.
abbrev dynamic_leaf : LeafRange
dynamic_leaf = record { has_static_position = false; begin_leaf_index = 0; array_leaf_count = 0 }

past_dynamic :
    binary_leaf_search 9 (one_leaf ∷ four_leaves ∷ dynamic_leaf ∷ dynamic_leaf ∷ []) 9 0 3
    ≡ some thrown
unfolding search_methods
past_dynamic = refl

ranges-AreConsecutive : AreConsecutive ranges
ranges-AreConsecutive = record {
  all_static = all_static;
  in_word = in_word;
  from_zero = from_zero;
  follow = follow;
}
  where
    all_static :
        (i : ℕ) (r : LeafRange) → get_elem? ranges i ≡ some r → r.has_static_position ≡ true
    all_static zero r e = subst (λ s. s.has_static_position ≡ true) (some-injective _ _ e) refl
    all_static (suc zero) r e =
        subst (λ s. s.has_static_position ≡ true) (some-injective _ _ e) refl
    all_static (suc (suc i)) r e = absurd (none-ne-some _ e)

    in_word :
        (i : ℕ) (r : LeafRange)
        → get_elem? ranges i ≡ some r
        → r.begin_leaf_index + r.array_leaf_count < 2 ^ 64
    in_word zero r e =
        subst (λ s. s.begin_leaf_index + s.array_leaf_count < 2 ^ 64) (some-injective _ _ e)
          (omega arith)
    in_word (suc zero) r e =
        subst (λ s. s.begin_leaf_index + s.array_leaf_count < 2 ^ 64) (some-injective _ _ e)
          (omega arith)
    in_word (suc (suc i)) r e = absurd (none-ne-some _ e)

    from_zero : (r : LeafRange) → get_elem? ranges 0 ≡ some r → r.begin_leaf_index ≡ 0
    from_zero r e = subst (λ s. s.begin_leaf_index ≡ 0) (some-injective _ _ e) refl

    follow :
        (i : ℕ) (r s : LeafRange)
        → get_elem? ranges i ≡ some r
        → get_elem? ranges (suc i) ≡ some s
        → s.begin_leaf_index ≡ r.begin_leaf_index + r.array_leaf_count
    follow zero r s e f =
        subst (λ t. s.begin_leaf_index ≡ t.begin_leaf_index + t.array_leaf_count)
          (some-injective _ _ e) (subst (λ t. t.begin_leaf_index ≡ 1) (some-injective _ _ f) refl)
    follow (suc i) r s e f = absurd (none-ne-some _ f)

binary_leaf_search-Finds_example : Finds ranges 3 3 1 four_leaves
binary_leaf_search-Finds_example =
    binary_leaf_search-Finds ranges 3 1 four_leaves ranges-AreConsecutive (omega arith) refl refl
