-- ===== src/AccessList/Keyed.antt =====
-- The pointers of the list under the names of their objects.
use dev_essential.Base.{
  ℕ, zero, suc, ◌<◌, ◌≡◌, refl, sym, ap, ◌∙◌, arith, true, false, ◌||◌, none, some, List, [], ◌∷◌,
  ◌++◌, take, drop, length, ◌==◌, ==_iff, if◌then◌else◌, Bool-cases, inl, inr,
}
use mathlib.Core.Bool.{false≢true}
use mathlib.Core.Path.{ap₂, subst}
use mathlib.Core.Option.{none-ne-some, some-injective}
use dev_essential.Strings.{Text}
use dev_essential.AccessList.{
  same_text, Value, NamedItems, lookup, name_at, first_named, erase_first, has, set_name_at,
}
use dev_essential.AccessList.Assoc.{same_text_refl, same_text-eq, UniqueKeys, drop_key}

abbrev pub keyed : List Value → List ℕ → NamedItems
keyed store [] = []
keyed store (i ∷ types) = (name_at store i, i) ∷ keyed store types

pub first_named-lookup :
    (store : List Value) (types : List ℕ) (n : Text)
    → first_named store types n ≡ lookup n (keyed store types)
unfolding first_named lookup
first_named-lookup store [] n = refl
first_named-lookup store (i ∷ types) n = rw (first_named-lookup store types n) refl

pub keyed-take :
    (store : List Value) (pos : ℕ) (types : List ℕ)
    → keyed store (take pos types) ≡ take pos (keyed store types)
keyed-take store zero types = refl
keyed-take store (suc pos) [] = refl
keyed-take store (suc pos) (i ∷ types) =
    ap (λ xs. (name_at store i, i) ∷ xs) (keyed-take store pos types)

pub keyed-drop :
    (store : List Value) (pos : ℕ) (types : List ℕ)
    → keyed store (drop pos types) ≡ drop pos (keyed store types)
keyed-drop store zero types = refl
keyed-drop store (suc pos) [] = refl
keyed-drop store (suc pos) (i ∷ types) = keyed-drop store pos types

pub keyed-append :
    (store : List Value) (xs ys : List ℕ)
    → keyed store (xs ++ ys) ≡ keyed store xs ++ keyed store ys
keyed-append store [] ys = refl
keyed-append store (i ∷ xs) ys = ap (λ zs. (name_at store i, i) ∷ zs) (keyed-append store xs ys)

pub keyed-erase_first :
    (store : List Value) (types : List ℕ) (n : Text)
    → keyed store (erase_first store types n) ≡ drop_key n (keyed store types)
unfolding erase_first
keyed-erase_first store [] n = refl
keyed-erase_first store (i ∷ types) n = elim (Bool-cases (same_text (name_at store i) n)) [
  | inl same ↦ rw (erase_first, same) refl
  | inr differ ↦
      rw (erase_first, differ)
        (ap (λ xs. (name_at store i, i) ∷ xs) (keyed-erase_first store types n))
]

-- Stores that give the pointers the same names.
pub keyed-same :
    (store store' : List Value) (types : List ℕ)
    → ((i : ℕ) → has i types ≡ true → name_at store' i ≡ name_at store i)
    → keyed store' types ≡ keyed store types
unfolding has
keyed-same store store' [] same = refl
keyed-same store store' (i ∷ types) same =
    ap₂ (λ x xs. (x, i) ∷ xs) (same i (has_first i types))
      (keyed-same store store' types (λ j h. same j (has_later j i types h)))
  where
    has_first : (i : ℕ) (js : List ℕ) → (i == i) || has i js ≡ true
    has_first i js = ground arith

    has_later : (j i : ℕ) (js : List ℕ) → has j js ≡ true → (j == i) || has j js ≡ true
    has_later j i js h = ground arith

pub name_at-append :
    (store : List Value) (v : Value) (i : ℕ)
    → i < length store
    → name_at (store ++ v ∷ []) i ≡ name_at store i
unfolding name_at
name_at-append [] v i h = absurd (omega arith)
name_at-append (w ∷ store) v zero h = refl
name_at-append (w ∷ store) v (suc i) h = name_at-append store v i (omega arith)

pub name_at-last :
    (store : List Value) (v : Value) → name_at (store ++ v ∷ []) (length store) ≡ v.name
unfolding name_at
name_at-last [] v = refl
name_at-last (w ∷ store) v = name_at-last store v

pub name_at-set_name_at :
    (store : List Value) (i : ℕ) (n : Text)
    → i < length store
    → name_at (set_name_at store i n) i ≡ n
unfolding name_at set_name_at
name_at-set_name_at [] i n h = absurd (omega arith)
name_at-set_name_at (v ∷ store) zero n h = refl
name_at-set_name_at (v ∷ store) (suc i) n h = name_at-set_name_at store i n (omega arith)

pub name_at-set_name_elsewhere :
    (store : List Value) (i j : ℕ) (n : Text)
    → i == j ≡ false
    → name_at (set_name_at store i n) j ≡ name_at store j
unfolding name_at set_name_at
name_at-set_name_elsewhere [] i j n h = refl
name_at-set_name_elsewhere (v ∷ store) zero zero n h = absurd (false≢true (sym h))
name_at-set_name_elsewhere (v ∷ store) zero (suc j) n h = refl
name_at-set_name_elsewhere (v ∷ store) (suc i) zero n h = refl
name_at-set_name_elsewhere (v ∷ store) (suc i) (suc j) n h =
    name_at-set_name_elsewhere store i j n (ground arith)

pub names_differ :
    (store : List Value) (types : List ℕ) (i j : ℕ)
    → lookup (name_at store i) (keyed store types) ≡ some i
    → lookup (name_at store j) (keyed store types) ≡ none
    → same_text (name_at store j) (name_at store i) ≡ false
names_differ store types i j found fresh =
    elim (Bool-cases (same_text (name_at store j) (name_at store i))) [
      | inl same ↦ absurd (
          none-ne-some i
            (sym fresh ∙ ap (λ x. lookup x (keyed store types)) (same_text-eq _ _ same) ∙ found))
      | inr differ ↦ differ
    ]

-- A pointer of the list is found under the name of its object.
pub lookup-has :
    (store : List Value) (types : List ℕ) (i : ℕ)
    → has i types ≡ true
    → UniqueKeys (keyed store types)
    → lookup (name_at store i) (keyed store types) ≡ some i
unfolding has lookup
lookup-has store [] i h unique = absurd (false≢true h)
lookup-has store (j ∷ types) i h (fresh, unique) = elim (Bool-cases (i == j)) [
  | inl here ↦
      subst
        (λ x.
          (if same_text (name_at store j) (name_at store x)
            then some j
            else lookup (name_at store x) (keyed store types))
          ≡ some x)
        (sym ((==_iff i j).0 here)) (rw (same_text_refl (name_at store j)) refl)
  | inr later ↦
      let below = lookup-has store types i (sym (skipped later) ∙ h) unique in
      rw (names_differ store types i j below fresh) below
]
  where
    skipped : i == j ≡ false → has i (j ∷ types) ≡ has i types
    skipped later = rw (has, later) refl

pub has-lookup :
    (store : List Value) (types : List ℕ) (n : Text) (i : ℕ)
    → lookup n (keyed store types) ≡ some i
    → (has i types ≡ true) × (name_at store i ≡ n)
unfolding has lookup
has-lookup store [] n i found = absurd (none-ne-some i found)
has-lookup store (j ∷ types) n i found = elim (Bool-cases (same_text (name_at store j) n)) [
  | inl same ↦
      let e = some-injective _ _ (sym (first same) ∙ found) in
      (at_first e, ap (name_at store) (sym e) ∙ same_text-eq _ _ same)
  | inr differ ↦
      let (at, named) = has-lookup store types n i (sym (later differ) ∙ found) in
      (further at, named)
]
  where
    first : same_text (name_at store j) n ≡ true → lookup n (keyed store (j ∷ types)) ≡ some j
    first same = rw (lookup, same) refl

    later :
        same_text (name_at store j) n ≡ false
        → lookup n (keyed store (j ∷ types)) ≡ lookup n (keyed store types)
    later differ = rw (lookup, differ) refl

    at_first : j ≡ i → (i == j) || has i types ≡ true
    at_first e = ground arith

    further : has i types ≡ true → (i == j) || has i types ≡ true
    further h = ground arith
