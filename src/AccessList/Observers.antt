-- ===== src/AccessList/Observers.antt =====
-- Which objects have the list as their observer, and which pointers it holds.
use dev_essential.Base.{
  ℕ, zero, suc, ◌≡◌, refl, sym, ap, ◌∙◌, arith, Bool, true, false, ◌||◌, some, List, [], ◌∷◌, ◌++◌,
  take, drop, ◌==◌, ==_iff, if◌then◌else◌, Bool-cases, if_same, inl, inr,
}
use mathlib.Core.Bool.{false≢true}
use mathlib.Core.Path.{subst}
use mathlib.Core.Option.{none-ne-some, some-injective}
use dev_essential.Strings.{Text}
use dev_essential.AccessList.{
  same_text, Value, name_at, has, attach, detach, first_named, erase_first,
}
use dev_essential.AccessList.Assoc.{UniqueKeys}
use dev_essential.AccessList.Keyed.{keyed, first_named-lookup, has-lookup}
use dev_essential.AccessList.Renamed.{not-has}

abbrev pub AllSingle : List ℕ → Type 0
AllSingle [] = Unit {0}
AllSingle (j ∷ js) = (has j js ≡ false) × AllSingle js

pub has-attach :
    (j i : ℕ) (observed : List ℕ) → has j (attach i observed) ≡ (j == i) || has j observed
unfolding attach has
has-attach j i observed = elim (Bool-cases (has i observed)) [
  | inl h ↦ rw (attach, h) (known h)
  | inr h ↦ rw (attach, h, has) refl
]
  where
    known : has i observed ≡ true → has j observed ≡ (j == i) || has j observed
    known h = elim (Bool-cases (j == i)) [
      | inl same ↦ rw same (ap (λ x. has x observed) ((==_iff j i).0 same) ∙ h)
      | inr differ ↦ rw differ refl
    ]

pub attach-AllSingle :
    (i : ℕ) (observed : List ℕ) → AllSingle observed → AllSingle (attach i observed)
unfolding attach
attach-AllSingle i observed single = elim (Bool-cases (has i observed)) [
  | inl h ↦ rw (attach, h) single
  | inr h ↦ rw (attach, h) (h, single)
]

at_same : (i : ℕ) → i == i ≡ true
at_same i = ground arith

-- What is left of a list without `i`, whose first pointer was it.
left_at :
    (j i : ℕ) (js : List ℕ)
    → has i js ≡ false
    → has j js ≡ (if j == i then false else (j == i) || has j js)
left_at j i js fresh = elim (Bool-cases (j == i)) [
  | inl same ↦ rw same (ap (λ x. has x js) ((==_iff j i).0 same) ∙ fresh)
  | inr differ ↦ rw differ refl
]

-- What is left of a list without `i`, whose first pointer `k` was another one.
left_behind :
    (j i k : ℕ) (b : Bool)
    → i == k ≡ false
    → (j == k) || (if j == i then false else b) ≡ (if j == i then false else (j == k) || b)
left_behind j i k true differ = ground arith
left_behind j i k false differ = ground arith

pub has-detach :
    (j i : ℕ) (observed : List ℕ)
    → AllSingle observed
    → has j (detach i observed) ≡ (if j == i then false else has j observed)
unfolding detach has
has-detach j i [] single = sym (if_same (j == i) false)
has-detach j i (k ∷ ks) (fresh, single) = elim (Bool-cases (i == k)) [
  | inl same ↦
      subst (λ x. has j (detach i (x ∷ ks)) ≡ (if j == i then false else has j (x ∷ ks)))
        ((==_iff i k).0 same)
        (rw (detach, at_same i) (left_at j i ks (ap (λ x. has x ks) ((==_iff i k).0 same) ∙ fresh)))
  | inr differ ↦
      rw (detach, differ, has, has-detach j i ks single) (left_behind j i k (has j ks) differ)
]

pub detach-AllSingle :
    (i : ℕ) (observed : List ℕ) → AllSingle observed → AllSingle (detach i observed)
unfolding detach
detach-AllSingle i [] single = tt
detach-AllSingle i (k ∷ ks) (fresh, single) = elim (Bool-cases (i == k)) [
  | inl same ↦ rw (detach, same) single
  | inr differ ↦
      rw (detach, differ)
        (has-detach k i ks single ∙ rw fresh (if_same (k == i) false), detach-AllSingle i ks single)
]

pub has-insert :
    (j i pos : ℕ) (types : List ℕ)
    → has j (take pos types ++ i ∷ drop pos types) ≡ (j == i) || has j types
unfolding has
has-insert j i zero types = refl
has-insert j i (suc pos) [] = refl
has-insert j i (suc pos) (k ∷ types) = rw (has-insert j i pos types) (swap (j == k) (j == i))
  where
    swap : (a b : Bool) → a || (b || has j types) ≡ b || (a || has j types)
    swap true true = refl
    swap true false = refl
    swap false true = refl
    swap false false = refl

pub has-erase_first :
    (store : List Value) (types : List ℕ) (n : Text) (i j : ℕ)
    → UniqueKeys (keyed store types)
    → first_named store types n ≡ some i
    → has j (erase_first store types n) ≡ (if j == i then false else has j types)
unfolding has erase_first first_named
has-erase_first store [] n i j unique found = absurd (none-ne-some i found)
has-erase_first store (k ∷ types) n i j (fresh, unique) found =
    elim (Bool-cases (same_text (name_at store k) n)) [
      | inl same ↦
          let e = some-injective k i (sym (first same) ∙ found) in
          subst
            (λ x.
              has j (erase_first store (k ∷ types) n)
              ≡ (if j == x then false else has j (k ∷ types)))
            e (rw (erase_first, same, has) (left_at j k types (not-has store types k fresh unique)))
      | inr differ ↦
          let below = sym (later differ) ∙ found in
          rw (erase_first, differ, has, has-erase_first store types n i j unique below)
            (left_behind j i k (has j types) (apart below))
    ]
  where
    first : same_text (name_at store k) n ≡ true → first_named store (k ∷ types) n ≡ some k
    first same = rw (first_named, same) refl

    later :
        same_text (name_at store k) n ≡ false
        → first_named store (k ∷ types) n ≡ first_named store types n
    later differ = rw (first_named, differ) refl

    found_inside : first_named store types n ≡ some i → has i types ≡ true
    found_inside below =
        (has-lookup store types n i (sym (first_named-lookup store types n) ∙ below)).0

    apart : first_named store types n ≡ some i → i == k ≡ false
    apart below = elim (Bool-cases (i == k)) [
      | inl same ↦ absurd (
          false≢true (
            sym (not-has store types k fresh unique)
            ∙ ap (λ x. has x types) (sym ((==_iff i k).0 same))
            ∙ found_inside below))
      | inr differ ↦ differ
    ]
