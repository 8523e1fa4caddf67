-- ===== src/Layout/Each.antt =====
-- The elements of a structure that was laid out, one by one.
use dev_essential.Base.{
  ℕ, zero, suc, ◌+◌, ◌≤◌, ◌≡◌, refl, sym, ◌∙◌, arith, some, List, ◌∷◌, get_elem?,
}
use mathlib.Core.Path.{subst}
use mathlib.Core.Option.{some-injective, none-ne-some}
use dev_essential.Version.{Version}
use dev_essential.Layout.{TypeInfo, Element, Placed, end_bit, calculate_serialized_bit_size}
use dev_essential.Layout.Sized.{IsSized, start_bit}
use dev_essential.Layout.Chain.{
  IsFree, AllFree, none_left, one_more, bits_of, all_bits, AllBehind, at_end, next,
}
use dev_essential.Layout.Whole.{IsPlaced}

-- What the layout of a structure gives for its element `i`.
pub record IsAt (sv fv : Version) (es : List Element) (i : ℕ) (a : Placed) : Type 0 where
  pub element : Element
  pub type_info : TypeInfo
  pub is_there : get_elem? es i ≡ some element
  pub is_sized : IsSized sv fv element type_info a
  pub ordered : start_bit a ≤ end_bit a

AllBehind-IsAt :
    {sv fv : Version} {p : Placed} {es : List Element} {qs : List Placed}
    → AllBehind sv fv p es qs
    → (i : ℕ) (a : Placed) → get_elem? qs i ≡ some a
    → IsAt sv fv es i a
AllBehind-IsAt at_end i a found = absurd (none-ne-some _ found)
AllBehind-IsAt {sv} {fv} {es = e ∷ es} (next {type_info} b bits bytes rest) zero a found =
    subst (IsAt sv fv (e ∷ es) 0) (some-injective _ _ found) (record {
      element = e;
      type_info = type_info;
      is_there = refl;
      is_sized = b.is_sized;
      ordered = bits;
    })
AllBehind-IsAt (next b bits bytes rest) (suc i) a found =
    let r = AllBehind-IsAt rest i a found in
    record {
      element = r.element;
      type_info = r.type_info;
      is_there = r.is_there;
      is_sized = r.is_sized;
      ordered = r.ordered;
    }

pub IsPlaced-IsAt :
    {sv fv : Version} {alignment : ℕ} {e : Element} {es : List Element} {info : TypeInfo}
    {q : Placed} {qs : List Placed}
    → IsPlaced sv fv alignment e es info q qs
    → (i : ℕ) (a : Placed) → get_elem? (q ∷ qs) i ≡ some a
    → IsAt sv fv (e ∷ es) i a
IsPlaced-IsAt {sv} {fv} {e = e} {es = es} whole zero a found =
    subst (IsAt sv fv (e ∷ es) 0) (some-injective _ _ found) (record {
      element = e;
      type_info = whole.type_info;
      is_there = refl;
      is_sized = whole.first.is_sized;
      ordered = omega (arith, whole.first.first_bit);
    })
IsPlaced-IsAt whole (suc i) a found =
    let r = AllBehind-IsAt whole.behind i a found in
    record {
      element = r.element;
      type_info = r.type_info;
      is_there = r.is_there;
      is_sized = r.is_sized;
      ordered = r.ordered;
    }

free-bits :
    {e : Element} (f : IsFree e) (t : TypeInfo)
    → e.type_info ≡ some t
    → (n : ℕ)
    → calculate_serialized_bit_size e.array_size t.type_bit_size e.num_bits + 8 ≤ bits_of f + n
unfolding bits_of
free-bits {e} f t typed n =
    subst
      (λ u.
        calculate_serialized_bit_size e.array_size u.type_bit_size e.num_bits + 8 ≤ bits_of f + n)
      (some-injective _ _ (sym f.static.typed ∙ typed)) (omega arith)

-- Each element's bits are among all bits.
pub AllFree-bits :
    {es : List Element} (fs : AllFree es) (i : ℕ) (e : Element) (t : TypeInfo)
    → get_elem? es i ≡ some e
    → e.type_info ≡ some t
    → calculate_serialized_bit_size e.array_size t.type_bit_size e.num_bits + 8 ≤ all_bits fs
unfolding all_bits
AllFree-bits none_left i e t found typed = absurd (none-ne-some _ found)
AllFree-bits (one_more f fs) zero e t found typed =
    subst
      (λ x.
        x.type_info ≡ some t
        → calculate_serialized_bit_size x.array_size t.type_bit_size x.num_bits + 8
          ≤ bits_of f + all_bits fs)
      (some-injective _ _ found) (λ same. free-bits f t same (all_bits fs)) typed
AllFree-bits (one_more f fs) (suc i) e t found typed =
    omega (arith, AllFree-bits fs i e t found typed)
