-- ===== src/Layout/Order.antt =====
-- Elements that lie one behind the other, as pairs at any distance.
use dev_essential.Base.{ℕ, zero, suc, ◌≤◌, ◌<◌, ◌≡◌, arith, some, List, ◌∷◌, get_elem?}
use mathlib.Core.Option.{none-ne-some, some-injective}
use mathlib.Core.Path.{subst}
use dev_essential.Version.{Version}
use dev_essential.Layout.{Element, Placed, end_bit}
use dev_essential.Layout.Sized.{start_bit, start_byte, end_byte}
use dev_essential.Layout.Chain.{AllBehind, at_end, next, last_of}

-- `q` lies behind `p`, in the serialized bits and in memory.
abbrev pub IsApart : Placed → Placed → Type 0
IsApart p q = (end_bit p ≤ start_bit q) × (end_byte p ≤ start_byte q)

-- `p` ends where `last` does, or before.
abbrev pub IsWithin : Placed → Placed → Type 0
IsWithin last p = (end_bit p ≤ end_bit last) × (end_byte p ≤ end_byte last)

module _ {sv fv : Version} where
  behind_all :
      {p : Placed} {es : List Element} {qs : List Placed}
      → AllBehind sv fv p es qs
      → (j : ℕ) (r : Placed) → get_elem? qs j ≡ some r
      → IsApart p r
  behind_all at_end j r found = absurd (none-ne-some _ found)
  behind_all {p} (next b bits bytes rest) zero r found =
      subst (IsApart p) (some-injective _ _ found) (b.bits_behind, b.bytes_aligned.not_below)
  behind_all (next b bits bytes rest) (suc j) r found =
      let further = behind_all rest j r found in
      (
        omega (arith, b.bits_behind, bits, further.0),
        omega (arith, b.bytes_aligned.not_below, bytes, further.1),
      )

  pub AllBehind-IsApart :
      {p : Placed} {es : List Element} {qs : List Placed}
      → AllBehind sv fv p es qs
      → (i j : ℕ) (a b : Placed) → i < j
      → get_elem? (p ∷ qs) i ≡ some a
      → get_elem? (p ∷ qs) j ≡ some b
      → IsApart a b
  AllBehind-IsApart all i zero a b i<j at_i at_j = omega arith
  AllBehind-IsApart all zero (suc j) a b i<j at_i at_j =
      subst (λ x. IsApart x b) (some-injective _ _ at_i) (behind_all all j b at_j)
  AllBehind-IsApart at_end (suc i) (suc j) a b i<j at_i at_j = absurd (none-ne-some _ at_i)
  AllBehind-IsApart (next h bits bytes rest) (suc i) (suc j) a b i<j at_i at_j =
      AllBehind-IsApart rest i j a b (omega arith) at_i at_j

  first-IsWithin :
      {p : Placed} {es : List Element} {qs : List Placed}
      → AllBehind sv fv p es qs
      → IsWithin (last_of p qs) p
  unfolding last_of
  first-IsWithin at_end = omega arith
  first-IsWithin (next b bits bytes rest) =
      let further = first-IsWithin rest in
      (
        omega (arith, b.bits_behind, bits, further.0),
        omega (arith, b.bytes_aligned.not_below, bytes, further.1),
      )

  pub AllBehind-IsWithin :
      {p : Placed} {es : List Element} {qs : List Placed}
      → AllBehind sv fv p es qs
      → (i : ℕ) (a : Placed) → get_elem? (p ∷ qs) i ≡ some a
      → IsWithin (last_of p qs) a
  unfolding last_of
  AllBehind-IsWithin {p} {es} {qs} all zero a at_i =
      subst (IsWithin (last_of p qs)) (some-injective _ _ at_i) (first-IsWithin all)
  AllBehind-IsWithin at_end (suc i) a at_i = absurd (none-ne-some _ at_i)
  AllBehind-IsWithin (next b bits bytes rest) (suc i) a at_i = AllBehind-IsWithin rest i a at_i
