-- ===== src/AccessList/Views.antt =====
-- src/ddl/datamodel/datamodel_types.cpp: `setName` where the keys of the validator's items are views of
-- the names.
use dev_essential.Base.{
  ℕ, ◌≡◌, refl, sym, ap, ◌∙◌, arith, Bool, true, false, not, ◌&&◌, ◌||◌, Option, none, some, [],
  ◌∷◌, ◌==◌, ==_iff, if◌then◌else◌, Bool-cases, inl, inr,
}
use mathlib.Core.Bool.{false≢true}
use mathlib.Core.Path.{subst}
use mathlib.Core.Option.{none-ne-some, some-injective}
use dev_essential.Strings.{Text}
use dev_essential.AccessList.{
  same_text, NamedItems, lookup, name_at, has, AccessList, Done, returned, undefined, KeyType,
  string_keys, view_keys, holds_pointer, changes_key, set_name, is_some,
}
use dev_essential.AccessList.Assoc.{same_text_refl, same_text-eq, UniqueKeys}
use dev_essential.AccessList.Keyed.{lookup-has, has-lookup}
use dev_essential.AccessList.Sound.{IsSound, IsIndexed, keys_of}

-- What is found is a pointer of the items, and a pointer of the items is found.
holds_pointer-lookup :
    (n : Text) (i : ℕ) (items : NamedItems) → lookup n items ≡ some i → holds_pointer i items ≡ true
unfolding lookup holds_pointer
holds_pointer-lookup n i [] found = absurd (none-ne-some i found)
holds_pointer-lookup n i ((k, j) ∷ items) found = elim (Bool-cases (same_text k n)) [
  | inl same ↦ here (holds_pointer i items) (some-injective j i (sym (at_key same) ∙ found))
  | inr differ ↦ behind (i == j) (holds_pointer-lookup n i items (sym (passed differ) ∙ found))
]
  where
    at_key : same_text k n ≡ true → lookup n ((k, j) ∷ items) ≡ some j
    at_key same = rw (lookup, same) refl

    passed : same_text k n ≡ false → lookup n ((k, j) ∷ items) ≡ lookup n items
    passed differ = rw (lookup, differ) refl

    here : (b : Bool) → j ≡ i → (i == j) || b ≡ true
    here b e = ground arith

    behind : (b : Bool) → holds_pointer i items ≡ true → b || holds_pointer i items ≡ true
    behind true h = refl
    behind false h = h

lookup-holds_pointer :
    (i : ℕ) (items : NamedItems)
    → UniqueKeys items
    → holds_pointer i items ≡ true
    → (n : Text) × (lookup n items ≡ some i)
unfolding lookup holds_pointer
lookup-holds_pointer i [] unique held = absurd (false≢true held)
lookup-holds_pointer i ((k, j) ∷ items) (fresh, unique) held = elim (Bool-cases (i == j)) [
  | inl same ↦ (k, rw (lookup, same_text_refl k) (ap (λ x. some x) (sym ((==_iff i j).0 same))))
  | inr other ↦
      let (n, found) = lookup-holds_pointer i items unique (sym (later other) ∙ held) in
      (n, rw (lookup, apart n found) found)
]
  where
    later : i == j ≡ false → (i == j) || holds_pointer i items ≡ holds_pointer i items
    later other = rw other refl

    apart : (n : Text) → lookup n items ≡ some i → same_text k n ≡ false
    apart n found = elim (Bool-cases (same_text k n)) [
      | inl same ↦
          absurd
            (none-ne-some i (sym fresh ∙ ap (λ x. lookup x items) (same_text-eq k n same) ∙ found))
      | inr differ ↦ differ
    ]

-- The validator's items hold the pointers of the list.
holds_pointer-has :
    (l : AccessList) (items : NamedItems) (i : ℕ)
    → IsSound l
    → l.named ≡ some items
    → holds_pointer i items ≡ has i l.types
holds_pointer-has l items i sound e =
    let (unique, same) = subst (IsIndexed (keys_of l)) e sound.indexed in
    elim (Bool-cases (has i l.types)) [
      | inl h ↦
          holds_pointer-lookup (name_at l.store i) i items
            (same (name_at l.store i) ∙ lookup-has l.store l.types i h sound.unique)
          ∙ sym h
      | inr unseen ↦ elim (Bool-cases (holds_pointer i items)) [
        | inl held ↦
            let (n, found) = lookup-holds_pointer i items unique held in
            absurd
              (false≢true (sym unseen ∙ (has-lookup l.store l.types n i (sym (same n) ∙ found)).0))
        | inr free ↦ free ∙ sym unseen
      ]
    ]

-- An object of the list gets another name while the list has a validator whose keys are views.
abbrev pub changes_view : KeyType → AccessList → ℕ → Text → Bool
changes_view string_keys l i new = false
changes_view view_keys l i new =
    is_some l.named && (has i l.types && not (same_text (name_at l.store i) new))

changes_key-has :
    (l : AccessList) (i : ℕ)
    → IsSound l
    → changes_key view_keys l.named i ≡ is_some l.named && has i l.types
changes_key-has l i sound = go l.named refl
  where
    go :
        (named : Option NamedItems)
        → l.named ≡ named
        → changes_key view_keys named i ≡ is_some named && has i l.types
    go none e = refl
    go (some items) e = holds_pointer-has l items i sound e

same_name :
    (keys : KeyType) (l : AccessList) (i : ℕ) (new : Text)
    → same_text (name_at l.store i) new ≡ true
    → set_name keys l i new ≡ returned l
unfolding set_name
same_name keys l i new same = rw (set_name, same) refl

other_name :
    (keys : KeyType) (l : AccessList) (i : ℕ) (new : Text)
    → same_text (name_at l.store i) new ≡ false
    → set_name keys l i new
      ≡ (if changes_key keys l.named i then undefined else set_name string_keys l i new)
unfolding set_name
other_name keys l i new differ = rw (set_name, differ) refl

abbrev chosen : AccessList → ℕ → Text → Bool → Done AccessList
chosen l i new b = if b then undefined else set_name string_keys l i new

-- Only then do views make a difference.
pub set_name-changes_view :
    (keys : KeyType) (l : AccessList) (i : ℕ) (new : Text)
    → IsSound l
    → set_name keys l i new
      ≡ (if changes_view keys l i new then undefined else set_name string_keys l i new)
set_name-changes_view string_keys l i new sound = refl
set_name-changes_view view_keys l i new sound =
    elim (Bool-cases (same_text (name_at l.store i) new)) [
      | inl same ↦
          same_name view_keys l i new same
          ∙ sym (same_name string_keys l i new same)
          ∙ rw (changes_view, same)
              (ap (chosen l i new) (sym (never (is_some l.named) (has i l.types))))
      | inr differ ↦
          other_name view_keys l i new differ
          ∙ ap (chosen l i new)
              (changes_key-has l i sound ∙ always (is_some l.named) (has i l.types))
          ∙ rw (changes_view, differ) refl
    ]
  where
    never : (a b : Bool) → a && (b && false) ≡ false
    never true true = refl
    never true false = refl
    never false b = refl

    always : (a b : Bool) → a && b ≡ a && (b && true)
    always true true = refl
    always true false = refl
    always false b = refl
