-- ===== src/AccessList/Counted.antt =====
-- How often a name is counted before and after a renaming.
use dev_essential.Base.{
  ℕ, zero, suc, ◌<◌, ◌≡◌, refl, sym, ap, ◌∙◌, arith, Bool, true, false, List, [], ◌∷◌, length, ◌==◌,
  ==_iff, if◌then◌else◌, Bool-cases, inl, inr,
}
use mathlib.Core.Path.{subst}
use dev_essential.Strings.{Text}
use dev_essential.AccessList.{
  same_text, Value, lookup, name_at, has, set_name_at, count_contains, is_some,
}
use dev_essential.AccessList.Assoc.{same_text_refl, same_text-eq, UniqueKeys}
use dev_essential.AccessList.Keyed.{keyed, name_at-set_name_at, name_at-set_name_elsewhere}
use dev_essential.AccessList.Renamed.{not-has}

-- How often a name is there: once or not at all.
pub count-lookup :
    (store : List Value) (types : List ℕ) (n : Text)
    → UniqueKeys (keyed store types)
    → count_contains store types n ≡ (if is_some (lookup n (keyed store types)) then 1 else 0)
unfolding count_contains lookup
count-lookup store [] n unique = refl
count-lookup store (k ∷ types) n (fresh, unique) =
    elim (Bool-cases (same_text (name_at store k) n)) [
      | inl same ↦
          rw
            (
              same,
              count-lookup store types n unique,
              ap (λ x. lookup x (keyed store types)) (sym (same_text-eq _ _ same)) ∙ fresh,
            )
            refl
      | inr differ ↦ rw differ (count-lookup store types n unique)
    ]

-- The renamed object counts too.
pub count-renamed :
    (store : List Value) (types : List ℕ) (i : ℕ) (new : Text)
    → i < length store
    → UniqueKeys (keyed store types)
    → same_text (name_at store i) new ≡ false
    → count_contains (set_name_at store i new) types new ≡ (
        if has i types
        then suc (count_contains store types new)
        else count_contains store types new)
unfolding count_contains has
count-renamed store [] i new inside unique differ = refl
count-renamed store (k ∷ types) i new inside (fresh, unique) differ =
    let rest = count-renamed store types i new inside unique differ in
    elim (Bool-cases (i == k)) [
      | inl same ↦
          let e = (==_iff i k).0 same in
          subst
            (λ x. count_contains (set_name_at store i new) (x ∷ types) new ≡ (
              if has i (x ∷ types)
              then suc (count_contains store (x ∷ types) new)
              else count_contains store (x ∷ types) new))
            e
            (rw (name_at-set_name_at store i new inside, same_text_refl new, at_same i, differ)
              (ap suc (rest ∙ rw (unseen e) refl)))
      | inr other ↦
          rw (name_at-set_name_elsewhere store i k new other, rest, other)
            (regroup (count_contains store types new) (same_text (name_at store k) new)
              (has i types))
    ]
  where
    at_same : (j : ℕ) → j == j ≡ true
    at_same j = ground arith

    unseen : i ≡ k → has i types ≡ false
    unseen e =
        not-has store types i (ap (λ x. lookup (name_at store x) (keyed store types)) e ∙ fresh)
          unique

    regroup :
        (c : ℕ) (a b : Bool)
        → (if a then suc (if b then suc c else c) else (if b then suc c else c))
          ≡ (if b then suc (if a then suc c else c) else (if a then suc c else c))
    regroup c true true = refl
    regroup c true false = refl
    regroup c false true = refl
    regroup c false false = refl

pub set_name_back :
    (store : List Value) (i : ℕ) (n : Text)
    → set_name_at (set_name_at store i n) i (name_at store i) ≡ store
unfolding set_name_at name_at
set_name_back [] i n = refl
set_name_back (v ∷ store) zero n = refl
set_name_back (v ∷ store) (suc i) n = ap (λ xs. v ∷ xs) (set_name_back store i n)
