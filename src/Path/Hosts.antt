-- ===== src/Path/Hosts.antt =====
-- Where the special case for //host of src/filesystem/path.cpp holds.
use dev_essential.Base.{
  ℕ, suc, ◌+◌, ◌-◌, ◌≡◌, refl, sym, ap, ◌∙◌, arith, Bool, true, false, not, ◌&&◌, ◌||◌, Option,
  none, some, [], ◌∷◌, ◌++◌, length, ◌==◌, if◌then◌else◌, Bool-cases, inl, inr,
}
use dev_essential.Strings.{Text, find_first, starts_with, find, shift}
use dev_essential.Path.{slash, double_slash, ends_in, is_at, network_host}

-- Two slashes follow each other.
pub double_in : Text → Bool
double_in [] = false
double_in (c ∷ []) = false
double_in (c ∷ d ∷ s) = (c == slash && d == slash) || double_in (d ∷ s)

abbrev ends_at : ℕ → Option ℕ → Bool
ends_at n none = false
ends_at n (some l) = l + 1 == n

ends_at-shift : (n : ℕ) (o : Option ℕ) → ends_at (suc n) (shift 1 o) ≡ ends_at n o
ends_at-shift n none = refl
ends_at-shift n (some l) = ground arith

one_slash :
    (c : ℕ) (o : Option ℕ)
    → ends_at 1 (if (slash == c) && true then some 0 else shift 1 o) ≡ (c == slash) && true
one_slash c none = ground arith
one_slash c (some l) = ground arith

one_more :
    (c d n : ℕ) (o : Option ℕ) (x y : Bool)
    → ends_at (suc n) o ≡ x && not y
    → ends_at (suc (suc n)) (if (slash == c) && ((slash == d) && true) then some 0 else shift 1 o)
      ≡ x && not ((c == slash && d == slash) || y)
one_more c d n o x y rest = elim (Bool-cases (slash == c && slash == d)) [
  | inl both ↦ first both x
  | inr not_both ↦ rw (skipped not_both, turned not_both) (ends_at-shift (suc n) o ∙ rest)
]
  where
    first :
        slash == c && slash == d ≡ true
        → (x : Bool)
        → ends_at
            (suc (suc n))
            (if (slash == c) && ((slash == d) && true) then some 0 else shift 1 o)
          ≡ x && not ((c == slash && d == slash) || y)
    first both true = ground arith
    first both false = ground arith

    skipped : slash == c && slash == d ≡ false → (slash == c) && ((slash == d) && true) ≡ false
    skipped h = ground arith

    turned : slash == c && slash == d ≡ false → c == slash && d == slash ≡ false
    turned h = ground arith

-- The first two slashes of a path end at `length p`.
first-below :
    (p e : Text)
    → ends_at (length p) (find_first double_slash (p ++ slash ∷ e))
      ≡ ends_in p slash && not (double_in p)
unfolding find_first starts_with double_in ends_in
first-below [] e = nowhere (find_first double_slash (slash ∷ e))
  where
    nowhere : (o : Option ℕ) → ends_at 0 o ≡ false
    nowhere none = refl
    nowhere (some l) = ground arith
first-below (c ∷ []) e = one_slash c (find_first double_slash (slash ∷ e))
first-below (c ∷ d ∷ p) e =
    one_more c d (length p) (find_first double_slash (d ∷ p ++ slash ∷ e)) (ends_in (d ∷ p) slash)
      (double_in (d ∷ p)) (first-below (d ∷ p) e)
    ∙ ap (λ k. is_at (c ∷ d ∷ p) k slash && not (double_in (c ∷ d ∷ p))) (sym (last (length p)))
  where
    last : (n : ℕ) → suc (suc n) - 1 ≡ suc (suc n - 1)
    last n = omega arith

-- The last slash of `p / e` is the second of the first two where `p` ends in a slash and has no two.
pub network_host-below :
    (p e : Text) → network_host (p ++ slash ∷ e) (length p) ≡ ends_in p slash && not (double_in p)
unfolding network_host find
network_host-below p e = from_start (find_first double_slash (p ++ slash ∷ e)) ∙ first-below p e
  where
    from_start :
        (o : Option ℕ)
        → (elim (shift 0 o) [ none ↦ false | some l ↦ l + 1 == length p ]) ≡ ends_at (length p) o
    from_start none = refl
    from_start (some l) = ap (λ k. k + 1 == length p) (zero_add l)
      where
        zero_add : (l : ℕ) → 0 + l ≡ l
        zero_add l = omega arith
