-- ===== src/Strings/Compare.antt =====
-- The `compare` and `compareNoCase` of src/strings/strings.cpp. A C string is the list of its
-- characters before the NUL, `none` is a null pointer; of the int that they return, the sign.
use dev_essential.Base.{
  ℕ, ◌+◌, ◌-◌, ◌<◌, Bool, true, false, ◌&&◌, ◌||◌, Option, none, some, [], ◌∷◌, length, min, max,
  take, drop, map, ltb, leb, ◌==◌, if◌then◌else◌, ◌≡◌, refl, arith, ◌↔◌,
}
use dev_essential.Strings.{Text}

pub data Sign : Type 0 where
  negative : Sign
  null : Sign
  positive : Sign

-- `strcmp`
unfoldable pub strcmp : Text → Text → Sign
strcmp [] [] = null
strcmp [] (d ∷ t) = negative
strcmp (c ∷ s) [] = positive
strcmp (c ∷ s) (d ∷ t) = if ltb c d then negative else if ltb d c then positive else strcmp s t

-- The lower case of an ASCII character.
abbrev pub to_lower : ℕ → ℕ
to_lower c = if leb 65 c && leb c 90 then c + 32 else c

-- `strcasecmp`
unfoldable pub strcasecmp : Text → Text → Sign
unfolding strcmp
strcasecmp s t = strcmp (map to_lower s) (map to_lower t)

abbrev pub by_length : ℕ → ℕ → Sign
by_length len1 len2 = if len1 == len2 then null else if ltb len2 len1 then positive else negative

-- What follows the test for equal whole strings in `compare` and in `compareNoCase`; `whole` is the
-- comparison of the C library, `again` the call of the function itself for a position alone. A
-- `length_` of `none` is npos.
unfoldable pub compare_part : (Text → Text → Sign) → (ℕ → Sign) → Text → Text → ℕ → Option ℕ → Sign
compare_part whole again left right pos length_ =
    let len1 = length left in
    let len2 = length right in
    let windows : ℕ → Sign = λ n. whole (take n (drop pos left)) (take n (drop pos right)) in
    let in_both : Option ℕ → Sign = λ l. elim l [
      | none ↦ windows (max (len1 - pos) (len2 - pos))
      | some n ↦
          if ltb (len1 - pos) n || ltb (len2 - pos) n
          then elim (again (min (len1 - pos) (len2 - pos))) [
            | null ↦ by_length len1 len2
            | negative ↦ negative
            | positive ↦ positive
          ]
          else windows n
    ] in
    if elim length_ [ none ↦ false | some n ↦ n == 0 ]
    then (if leb pos len1 && leb pos len2 then null else negative)
    else if 0 == len1
    then (if 0 == len2 then null else negative)
    else if 0 == len2
    then positive
    else if ltb len1 pos
    then by_length len1 len2
    else if ltb len2 pos
    then positive
    else in_both length_

abbrev pub is_npos : Option ℕ → Bool
is_npos none = true
is_npos (some n) = false

-- With npos as its length the function does not call itself.
unfoldable pub compare_texts : (Text → Text → Sign) → Text → Text → ℕ → Option ℕ → Sign
unfolding compare_part
compare_texts whole left right pos length_ =
    if pos == 0 && is_npos length_
    then whole left right
    else compare_part whole
        (λ from.
          if from == 0
          then whole left right
          else compare_part whole (λ _. null) left right from none)
        left right pos length_

unfoldable pub compare : Option Text → Option Text → ℕ → Option ℕ → Sign
compare none right pos length_ = negative
compare (some left) none pos length_ = positive
compare (some left) (some right) pos length_ = compare_texts strcmp left right pos length_

-- Of strings that are there.
unfoldable pub compare_no_case : Text → Text → ℕ → Option ℕ → Sign
compare_no_case left right pos length_ = compare_texts strcasecmp left right pos length_

unfoldable pub is_equal : Option Text → Option Text → ℕ → Option ℕ → Bool
unfolding compare
is_equal left right pos length_ = elim (compare left right pos length_) [
  | null ↦ true
  | negative ↦ false
  | positive ↦ false
]

strcmp_iff : (s t : Text) → (strcmp s t ≡ null) ↔ (s ≡ t)
unfolding strcmp
strcmp_iff [] [] = (λ _. refl, λ _. refl)
strcmp_iff [] (d ∷ t) = ground arith
strcmp_iff (c ∷ s) [] = ground arith
strcmp_iff (c ∷ s) (d ∷ t) = ground (arith, strcmp_iff s t)

-- Strings that are there are equal from the start on exactly if they are the same.
pub is_equal_iff : (s t : Text) → (is_equal (some s) (some t) 0 none ≡ true) ↔ (s ≡ t)
unfolding is_equal compare compare_texts
is_equal_iff s t = ground (arith, strcmp_iff s t)

-- From the end of two strings of one length on, there is no difference.
from_end :
    (s t : Text) (again : ℕ → Sign)
    → 0 < length s
    → length s ≡ length t
    → compare_part strcmp again s t (length s) none ≡ null
unfolding compare_part strcmp
from_end s t again nonempty same = ground (arith, at_end, same_end)
  where
    at_end : max (length s - length s) (length t - length s) ≡ 0
    at_end = omega arith

    same_end : strcmp (take 0 (drop (length s) s)) (take 0 (drop (length s) t)) ≡ null
    same_end = refl

-- Two strings of one length, not empty, are taken to be equal up to any length beyond theirs,
-- whatever their characters.
pub compare_beyond :
    (s t : Text) (n : ℕ)
    → 0 < length s
    → length s ≡ length t
    → length s < n
    → compare (some s) (some t) 0 (some n) ≡ null
unfolding compare compare_texts compare_part
compare_beyond s t n nonempty same beyond =
    ground (arith, from_end s t (λ _. null), least, no_shift s, no_shift t)
  where
    least : min (length s - 0) (length t - 0) ≡ length s
    least = omega arith

    no_shift : (r : Text) → length r - 0 ≡ length r
    no_shift r = omega arith
