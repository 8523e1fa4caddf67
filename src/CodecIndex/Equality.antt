-- ===== src/CodecIndex/Equality.antt =====
-- Equality of indices.
use dev_essential.Base.{
  true, List, [], ◌∷◌, ◌==◌, length, ◌≡◌, refl, sym, ap, ◌∙◌, inl, inr, ◌↔◌, arith, Bool-cases,
  ==_iff,
}
use dev_essential.CodecIndex.{ElementIndex, CodecIndex, same_element, same_elements, same_index}

same_element-eq : (a b : ElementIndex) → (same_element a b ≡ true) ↔ (a ≡ b)
unfolding same_element
same_element-eq a b = ground arith

same_elements-eq :
    (xs ys : List ElementIndex) → length ys ≡ length xs → (same_elements xs ys ≡ true) ↔ (xs ≡ ys)
unfolding same_elements
same_elements-eq [] [] sizes = (λ _. refl, λ _. refl)
same_elements-eq [] (y ∷ ys) sizes = ground arith
same_elements-eq (x ∷ xs) [] sizes = ground arith
same_elements-eq (x ∷ xs) (y ∷ ys) sizes =
    let rest = same_elements-eq xs ys (omega arith) in let one = same_element-eq x y in ground arith

-- Two indices are equal by `==` exactly if they have the same elements.
pub same_index_iff : (a b : CodecIndex) → (same_index a b ≡ true) ↔ (a.indices ≡ b.indices)
unfolding same_index
same_index_iff a b = elim (Bool-cases (length b.indices == length a.indices)) [
  | inl sizes ↦ rw sizes (
      same_elements-eq a.indices b.indices ((==_iff (length b.indices) (length a.indices)).0 sizes))
  | inr other ↦ rw other (
    λ wrong. ground arith,
    λ same. sym other ∙ (==_iff (length b.indices) (length a.indices)).1 (ap length (sym same)),
  )
]
