-- ===== src/AccessList/Renamed.antt =====
-- Renaming an object of the list: what is found under which name.
use dev_essential.Base.{
  ℕ, ◌<◌, ◌≡◌, refl, sym, ap, ◌∙◌, Bool, true, false, Option, none, some, List, [], ◌∷◌, length,
  ◌==◌, ==_iff, if◌then◌else◌, Bool-cases, inl, inr, ◌⊎◌,
}
use mathlib.Core.Bool.{false≢true}
use mathlib.Core.Path.{subst}
use mathlib.Core.Option.{none-ne-some}
use dev_essential.Strings.{Text}
use dev_essential.AccessList.{same_text, Value, lookup, name_at, has, set_name_at}
use dev_essential.AccessList.Assoc.{
  same_text-eq, same_text_sym_false, swap_tests, UniqueKeys, lookup-none,
}
use dev_essential.AccessList.Keyed.{
  keyed, keyed-same, name_at-set_name_at, name_at-set_name_elsewhere, names_differ, lookup-has,
}

pub has-later : (types : List ℕ) (i j : ℕ) → i == j ≡ false → has i (j ∷ types) ≡ has i types
unfolding has
has-later types i j later = rw (has, later) refl

-- A pointer that is not in the list is renamed unseen.
pub keyed-set_name_unseen :
    (store : List Value) (types : List ℕ) (i : ℕ) (new : Text)
    → has i types ≡ false
    → keyed (set_name_at store i new) types ≡ keyed store types
keyed-set_name_unseen store types i new unseen =
    keyed-same store (set_name_at store i new) types
      (λ k h. name_at-set_name_elsewhere store i k new (other k h))
  where
    other : (k : ℕ) → has k types ≡ true → i == k ≡ false
    other k h = elim (Bool-cases (i == k)) [
      | inl same ↦
          absurd (false≢true (sym unseen ∙ ap (λ x. has x types) ((==_iff i k).0 same) ∙ h))
      | inr differ ↦ differ
    ]

-- A pointer whose name is not found is not in the list.
pub not-has :
    (store : List Value) (types : List ℕ) (i : ℕ)
    → lookup (name_at store i) (keyed store types) ≡ none
    → UniqueKeys (keyed store types)
    → has i types ≡ false
not-has store types i fresh unique = elim (Bool-cases (has i types)) [
  | inl h ↦ absurd (none-ne-some i (sym fresh ∙ lookup-has store types i h unique))
  | inr h ↦ h
]

-- What is found under `n` when `i` has its new name.
abbrev pub renamed : List Value → ℕ → Text → Text → Option ℕ → Option ℕ
renamed store i new n found =
    if same_text new n then some i else (if same_text (name_at store i) n then none else found)

module _ (store : List Value) (types : List ℕ) (i : ℕ) (new n : Text) (inside : i < length store)
    (unique : UniqueKeys (keyed store types)) where
  lookup-renamed_here :
      lookup (name_at store i) (keyed store types) ≡ none
      → lookup n (keyed (set_name_at store i new) (i ∷ types))
        ≡ renamed store i new n (lookup n (keyed store (i ∷ types)))
  unfolding lookup
  lookup-renamed_here fresh =
      rw
        (
          name_at-set_name_at store i new inside,
          keyed-set_name_unseen store types i new (not-has store types i fresh unique),
        )
        (ap (λ x. if same_text new n then some i else x)
          (unnamed (Bool-cases (same_text (name_at store i) n))))
    where
      unnamed :
          (same_text (name_at store i) n ≡ true) ⊎ (same_text (name_at store i) n ≡ false)
          → lookup n (keyed store types) ≡ (
              if same_text (name_at store i) n
              then none
              else (if same_text (name_at store i) n then some i else lookup n (keyed store types)))
      unnamed (inl same) =
          rw same (ap (λ x. lookup x (keyed store types)) (sym (same_text-eq _ _ same)) ∙ fresh)
      unnamed (inr differ) = rw differ refl

  lookup-renamed_later :
      (j : ℕ)
      → i == j ≡ false
      → has i types ≡ true
      → lookup (name_at store j) (keyed store types) ≡ none
      → same_text (name_at store j) new ≡ false
      → lookup n (keyed (set_name_at store i new) types)
        ≡ renamed store i new n (lookup n (keyed store types))
      → lookup n (keyed (set_name_at store i new) (j ∷ types))
        ≡ renamed store i new n (lookup n (keyed store (j ∷ types)))
  unfolding lookup
  lookup-renamed_later j later h fresh differ below =
      rw (name_at-set_name_elsewhere store i j new later, below)
        (swap_tests (name_at store j) new n (some j) (some i)
            (if same_text (name_at store i) n then none else lookup n (keyed store types)) differ
          ∙ ap (λ x. if same_text new n then some i else x)
              (swap_tests (name_at store j) (name_at store i) n (some j) none
                (lookup n (keyed store types))
                (names_differ store types i j (lookup-has store types i h unique) fresh)))

-- Renaming a pointer of the list to a name that is not there.
pub lookup-set_name_at :
    (store : List Value) (types : List ℕ) (i : ℕ) (new n : Text)
    → has i types ≡ true
    → i < length store
    → UniqueKeys (keyed store types)
    → lookup new (keyed store types) ≡ none
    → lookup n (keyed (set_name_at store i new) types)
      ≡ renamed store i new n (lookup n (keyed store types))
unfolding has
lookup-set_name_at store [] i new n h inside unique free = absurd (false≢true h)
lookup-set_name_at store (j ∷ types) i new n h inside (fresh, unique) free =
    elim (Bool-cases (i == j)) [
      | inl here ↦
          let e = (==_iff i j).0 here in
          subst
            (λ x.
              lookup n (keyed (set_name_at store i new) (x ∷ types))
              ≡ renamed store i new n (lookup n (keyed store (x ∷ types))))
            e
            (lookup-renamed_here store types i new n inside unique
              (ap (λ x. lookup (name_at store x) (keyed store types)) e ∙ fresh))
      | inr later ↦
          let at = sym (has-later types i j later) ∙ h in
          let (differ, below) = lookup-none new (name_at store j) j (keyed store types) free in
          lookup-renamed_later store types i new n inside unique j later at fresh differ
            (lookup-set_name_at store types i new n at inside unique below)
    ]

pub set_name_at-UniqueKeys :
    (store : List Value) (types : List ℕ) (i : ℕ) (new : Text)
    → has i types ≡ true
    → i < length store
    → UniqueKeys (keyed store types)
    → lookup new (keyed store types) ≡ none
    → UniqueKeys (keyed (set_name_at store i new) types)
unfolding has
set_name_at-UniqueKeys store [] i new h inside unique free = tt
set_name_at-UniqueKeys store (j ∷ types) i new h inside (fresh, unique) free =
    let (differ, below) = lookup-none new (name_at store j) j (keyed store types) free in
    elim (Bool-cases (i == j)) [
      | inl here ↦
          let e = (==_iff i j).0 here in
          let unseen =
            not-has store types i (ap (λ x. lookup (name_at store x) (keyed store types)) e ∙ fresh)
              unique in
          subst (λ x. UniqueKeys (keyed (set_name_at store i new) (x ∷ types))) e
            (rw
              (
                name_at-set_name_at store i new inside,
                keyed-set_name_unseen store types i new unseen,
              )
              (below, unique))
      | inr later ↦
          let at = sym (has-later types i j later) ∙ h in
          let apart =
            same_text_sym_false _ _
              (names_differ store types i j (lookup-has store types i at unique) fresh) in
          (
            rw (name_at-set_name_elsewhere store i j new later) (
                lookup-set_name_at store types i new (name_at store j) at inside unique below
                ∙ rw (same_text_sym_false _ _ differ) (skip apart ∙ fresh)),
            set_name_at-UniqueKeys store types i new at inside unique below,
          )
    ]
  where
    skip : {b : Bool} {x : Option ℕ} → b ≡ false → (if b then none else x) ≡ x
    skip e = rw e refl
