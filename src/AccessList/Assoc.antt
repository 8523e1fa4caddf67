-- ===== src/AccessList/Assoc.antt =====
-- The laws of the named items: what `lookup` finds after a change.
use dev_essential.Base.{
  ℕ, zero, suc, ◌≡◌, refl, sym, ap, ◌∙◌, arith, Bool, true, false, none, some, [], ◌∷◌, ◌++◌, take,
  drop, ◌==◌, ==_iff, if◌then◌else◌, if_same, Bool-cases, inl, inr, ◌⊎◌, ◌&&◌,
}
use mathlib.Core.Bool.{false≢true}
use mathlib.Core.Path.{ap₂}
use mathlib.Core.Option.{none-ne-some}
use dev_essential.Strings.{Text}
use dev_essential.AccessList.{same_text, NamedItems, lookup, put, erase}

pub same_text_refl : (s : Text) → same_text s s ≡ true
unfolding same_text
same_text_refl [] = refl
same_text_refl (c ∷ s) = ground (arith, same_text_refl s)

both : (a b : Bool) → a && b ≡ true → (a ≡ true) × (b ≡ true)
both true b h = (refl, h)
both false b h = absurd (false≢true h)

pub same_text-eq : (s t : Text) → same_text s t ≡ true → s ≡ t
unfolding same_text
same_text-eq [] [] h = refl
same_text-eq [] (d ∷ t) h = absurd (false≢true h)
same_text-eq (c ∷ s) [] h = absurd (false≢true h)
same_text-eq (c ∷ s) (d ∷ t) h =
    let (head, tail) = both (c == d) (same_text s t) h in
    ap₂ (λ x xs. x ∷ xs) ((==_iff c d).0 head) (same_text-eq s t tail)

-- Texts that agree with a third one agree.
pub same_text-same : (s t u : Text) → same_text s t ≡ true → same_text s u ≡ same_text t u
same_text-same s t u h = ap (λ x. same_text x u) (same_text-eq s t h)

pub same_text_sym : (s t : Text) → same_text s t ≡ true → same_text t s ≡ true
same_text_sym s t h = rw (same_text-eq s t h) (same_text_refl t)

pub same_text_sym_false : (s t : Text) → same_text s t ≡ false → same_text t s ≡ false
same_text_sym_false s t h = elim (Bool-cases (same_text t s)) [
  | inl e ↦ absurd (false≢true (sym h ∙ same_text_sym t s e))
  | inr e ↦ e
]

-- A text that is one of two different ones is not the other.
pub same_text-other :
    (a k n : Text) → same_text a k ≡ false → same_text a n ≡ true → same_text k n ≡ false
same_text-other a k n differ h =
    ap (same_text k) (sym (same_text-eq a n h)) ∙ same_text_sym_false a k differ

pub lookup-put :
    (n k : Text) (i : ℕ) (items : NamedItems)
    → lookup n (put k i items) ≡ (if same_text k n then some i else lookup n items)
unfolding lookup put
lookup-put n k i [] = refl
lookup-put n k i ((a, j) ∷ items) = elim (Bool-cases (same_text a k)) [
  | inl same ↦ rw (same, sym (same_text-same a k n same)) (either_way (same_text a n))
  | inr differ ↦ rw (differ, lookup-put n k i items) (swap_tests differ)
]
  where
    swap_tests :
        same_text a k ≡ false
        → (if same_text a n then some j else (if same_text k n then some i else lookup n items))
          ≡ (if same_text k n then some i else (if same_text a n then some j else lookup n items))
    swap_tests differ = ground (arith, same_text-other a k n differ)

    either_way :
        (b : Bool)
        → (if b then some i else lookup n items)
          ≡ (if b then some i else (if b then some j else lookup n items))
    either_way true = refl
    either_way false = refl

pub lookup-erase :
    (n k : Text) (items : NamedItems)
    → lookup n (erase k items) ≡ (if same_text k n then none else lookup n items)
unfolding lookup erase
lookup-erase n k [] = sym (if_same (same_text k n) none)
lookup-erase n k ((a, j) ∷ items) = elim (Bool-cases (same_text a k)) [
  | inl same ↦
      rw (same, lookup-erase n k items, sym (same_text-same a k n same)) (skip (same_text a n))
  | inr differ ↦ rw (differ, lookup-erase n k items) (swap_tests differ)
]
  where
    swap_tests :
        same_text a k ≡ false
        → (if same_text a n then some j else (if same_text k n then none else lookup n items))
          ≡ (if same_text k n then none else (if same_text a n then some j else lookup n items))
    swap_tests differ = ground (arith, same_text-other a k n differ)

    skip :
        (b : Bool)
        → (if b then none else lookup n items)
          ≡ (if b then none else (if b then some j else lookup n items))
    skip true = refl
    skip false = refl

abbrev pub UniqueKeys : NamedItems → Type 0
UniqueKeys [] = Unit {0}
UniqueKeys ((k, i) ∷ items) = (lookup k items ≡ none) × UniqueKeys items

pub swap_tests {ℓ} :
    {A : Type ℓ} (a k n : Text) (x y z : A)
    → same_text a k ≡ false
    → (if same_text a n then x else (if same_text k n then y else z))
      ≡ (if same_text k n then y else (if same_text a n then x else z))
swap_tests a k n x y z differ = ground (arith, same_text-other a k n differ)

-- A key that is not found is not the first one, and not found behind it.
pub lookup-none :
    (k a : Text) (j : ℕ) (items : NamedItems)
    → lookup k ((a, j) ∷ items) ≡ none
    → (same_text a k ≡ false) × (lookup k items ≡ none)
unfolding lookup
lookup-none k a j items h = elim (Bool-cases (same_text a k)) [
  | inl same ↦ absurd (none-ne-some j (sym h ∙ found same))
  | inr differ ↦ (differ, sym (skipped differ) ∙ h)
]
  where
    found : same_text a k ≡ true → lookup k ((a, j) ∷ items) ≡ some j
    found same = rw same refl

    skipped : same_text a k ≡ false → lookup k ((a, j) ∷ items) ≡ lookup k items
    skipped differ = rw differ refl

-- A new key at a position.
pub lookup-insert :
    (n k : Text) (i pos : ℕ) (items : NamedItems)
    → lookup k items ≡ none
    → lookup n (take pos items ++ (k, i) ∷ drop pos items)
      ≡ (if same_text k n then some i else lookup n items)
unfolding lookup
lookup-insert n k i zero items new = refl
lookup-insert n k i (suc pos) [] new = refl
lookup-insert n k i (suc pos) ((a, j) ∷ items) new =
    let (differ, below) = lookup-none k a j items new in
    rw (lookup-insert n k i pos items below)
      (swap_tests a k n (some j) (some i) (lookup n items) differ)

pub insert-UniqueKeys :
    (k : Text) (i pos : ℕ) (items : NamedItems)
    → lookup k items ≡ none
    → UniqueKeys items
    → UniqueKeys (take pos items ++ (k, i) ∷ drop pos items)
unfolding lookup
insert-UniqueKeys k i zero items new unique = (new, unique)
insert-UniqueKeys k i (suc pos) [] new unique = (refl, tt)
insert-UniqueKeys k i (suc pos) ((a, j) ∷ items) new (fresh, unique) =
    let (differ, below) = lookup-none k a j items new in
    (
      lookup-insert a k i pos items below ∙ rw (same_text_sym_false a k differ) fresh,
      insert-UniqueKeys k i pos items below unique,
    )

pub put-UniqueKeys :
    (k : Text) (i : ℕ) (items : NamedItems) → UniqueKeys items → UniqueKeys (put k i items)
unfolding put lookup
put-UniqueKeys k i [] unique = (refl, tt)
put-UniqueKeys k i ((a, j) ∷ items) (fresh, unique) = elim (Bool-cases (same_text a k)) [
  | inl same ↦ rw (put, same) (fresh, unique)
  | inr differ ↦
      rw (put, differ)
        (
          lookup-put a k i items ∙ rw (same_text_sym_false a k differ) fresh,
          put-UniqueKeys k i items unique,
        )
]

pub erase-UniqueKeys :
    (k : Text) (items : NamedItems) → UniqueKeys items → UniqueKeys (erase k items)
unfolding erase
erase-UniqueKeys k [] unique = tt
erase-UniqueKeys k ((a, j) ∷ items) (fresh, unique) = elim (Bool-cases (same_text a k)) [
  | inl same ↦ rw (erase, same) (erase-UniqueKeys k items unique)
  | inr differ ↦
      rw (erase, differ)
        (
          lookup-erase a k items ∙ rw fresh (if_same (same_text k a) none),
          erase-UniqueKeys k items unique,
        )
]

-- The items without the first one of a key.
abbrev pub drop_key : Text → NamedItems → NamedItems
drop_key k [] = []
drop_key k ((a, i) ∷ items) = if same_text a k then items else (a, i) ∷ drop_key k items

pub lookup-drop_key :
    (n k : Text) (items : NamedItems)
    → UniqueKeys items
    → lookup n (drop_key k items) ≡ (if same_text k n then none else lookup n items)
unfolding lookup
lookup-drop_key n k [] unique = sym (if_same (same_text k n) none)
lookup-drop_key n k ((a, j) ∷ items) (fresh, unique) = elim (Bool-cases (same_text a k)) [
  | inl same ↦ rw (drop_key, same) (at_first same (Bool-cases (same_text a n)))
  | inr differ ↦
      rw (drop_key, differ, lookup, lookup-drop_key n k items unique)
        (swap_tests a k n (some j) none (lookup n items) differ)
]
  where
    at_first :
        same_text a k ≡ true
        → (same_text a n ≡ true) ⊎ (same_text a n ≡ false)
        → lookup n items
          ≡ (if same_text k n then none else (if same_text a n then some j else lookup n items))
    at_first same (inl here) =
        rw (sym (same_text-same a k n same), here)
          (ap (λ x. lookup x items) (sym (same_text-eq a n here)) ∙ fresh)
    at_first same (inr differ) = rw (sym (same_text-same a k n same), differ) refl

pub drop_key-UniqueKeys :
    (k : Text) (items : NamedItems) → UniqueKeys items → UniqueKeys (drop_key k items)
drop_key-UniqueKeys k [] unique = tt
drop_key-UniqueKeys k ((a, j) ∷ items) (fresh, unique) = elim (Bool-cases (same_text a k)) [
  | inl same ↦ rw (drop_key, same) unique
  | inr differ ↦
      rw (drop_key, differ)
        (
          lookup-drop_key a k items unique ∙ rw fresh (if_same (same_text k a) none),
          drop_key-UniqueKeys k items unique,
        )
]
