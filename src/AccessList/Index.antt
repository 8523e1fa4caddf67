-- ===== src/AccessList/Index.antt =====
-- The key of a renamed object is set again.
use dev_essential.Base.{
  ℕ, ◌<◌, ◌≡◌, refl, sym, ap, ◌∙◌, true, false, none, some, List, [], ◌∷◌, length, ◌==◌, ==_iff,
  Bool-cases, Option-cases, inl, inr,
}
use mathlib.Core.Bool.{false≢true}
use mathlib.Core.Path.{ap₂, subst}
use mathlib.Core.Option.{none-ne-some, some-injective}
use dev_essential.Strings.{Text}
use dev_essential.AccessList.{
  same_text, Value, NamedItems, lookup, put, erase, name_at, has, set_name_at, key_of, reset_key,
}
use dev_essential.AccessList.Assoc.{
  same_text_refl, same_text-eq, UniqueKeys, lookup-put, lookup-erase, put-UniqueKeys,
  erase-UniqueKeys,
}
use dev_essential.AccessList.Keyed.{
  keyed, name_at-set_name_at, name_at-set_name_elsewhere, lookup-has, has-lookup,
}
use dev_essential.AccessList.Renamed.{renamed}

key_of-lookup :
    (store : List Value) (items : NamedItems) (n k : Text) (j : ℕ)
    → UniqueKeys items
    → key_of store items n ≡ some (k, j)
    → (lookup k items ≡ some j) × (same_text (name_at store j) n ≡ true)
unfolding key_of lookup
key_of-lookup store [] n k j unique found = absurd (none-ne-some _ found)
key_of-lookup store ((a, b) ∷ items) n k j (fresh, unique) found =
    elim (Bool-cases (same_text (name_at store b) n)) [
      | inl same ↦
          subst
            (λ x.
              (lookup x.0 ((a, b) ∷ items) ≡ some x.1) × (same_text (name_at store x.1) n ≡ true))
            (some-injective _ _ (sym (first same) ∙ found)) (rw (same_text_refl a) refl, same)
      | inr differ ↦
          let (at, named) = key_of-lookup store items n k j unique (sym (later differ) ∙ found) in
          (rw (other at) at, named)
    ]
  where
    first : same_text (name_at store b) n ≡ true → key_of store ((a, b) ∷ items) n ≡ some (a, b)
    first same = rw (key_of, same) refl

    later :
        same_text (name_at store b) n ≡ false
        → key_of store ((a, b) ∷ items) n ≡ key_of store items n
    later differ = rw (key_of, differ) refl

    other : lookup k items ≡ some j → same_text a k ≡ false
    other at = elim (Bool-cases (same_text a k)) [
      | inl same ↦
          absurd
            (none-ne-some j (sym fresh ∙ ap (λ x. lookup x items) (same_text-eq a k same) ∙ at))
      | inr differ ↦ differ
    ]

key_of-none :
    (store : List Value) (items : NamedItems) (n k : Text) (j : ℕ)
    → lookup k items ≡ some j
    → same_text (name_at store j) n ≡ true
    → ¬ key_of store items n ≡ none
unfolding key_of lookup
key_of-none store [] n k j found named nothing = none-ne-some j found
key_of-none store ((a, b) ∷ items) n k j found named nothing =
    elim (Bool-cases (same_text (name_at store b) n)) [
      | inl same ↦ none-ne-some (a, b) (sym nothing ∙ first same)
      | inr differ ↦ elim (Bool-cases (same_text a k)) [
        | inl same ↦
            let e = some-injective _ _ (sym (at_key same) ∙ found) in
            false≢true (sym differ ∙ ap (λ x. same_text (name_at store x) n) e ∙ named)
        | inr other ↦
            key_of-none store items n k j (sym (behind other) ∙ found) named
              (sym (later differ) ∙ nothing)
      ]
    ]
  where
    first : same_text (name_at store b) n ≡ true → key_of store ((a, b) ∷ items) n ≡ some (a, b)
    first same = rw (key_of, same) refl

    later :
        same_text (name_at store b) n ≡ false
        → key_of store ((a, b) ∷ items) n ≡ key_of store items n
    later differ = rw (key_of, differ) refl

    at_key : same_text a k ≡ true → lookup k ((a, b) ∷ items) ≡ some b
    at_key same = rw (lookup, same) refl

    behind : same_text a k ≡ false → lookup k ((a, b) ∷ items) ≡ lookup k items
    behind other = rw (lookup, other) refl

module _ (store : List Value) (types : List ℕ) (items : NamedItems) (i : ℕ) (new : Text)
    (unique : UniqueKeys (keyed store types)) (unique_items : UniqueKeys items)
    (indexed : (n : Text) → lookup n items ≡ lookup n (keyed store types)) (h : has i types ≡ true)
    (inside : i < length store) (free : lookup new (keyed store types) ≡ none) where
  abbrev after : List Value
  after = set_name_at store i new

  key_of-renamed : key_of after items new ≡ some (name_at store i, i)
  key_of-renamed = elim (Option-cases (key_of after items new)) [
    | inl nothing ↦ absurd (
        key_of-none after items new (name_at store i) i
          (indexed (name_at store i) ∙ lookup-has store types i h unique)
          (rw (name_at-set_name_at store i new inside) (same_text_refl new)) nothing)
    | inr ((k, j), found) ↦
        let (at, named) = key_of-lookup after items new k j unique_items found in
        let (_, key) = has-lookup store types k j (sym (indexed k) ∙ at) in
        elim (Bool-cases (i == j)) [
          | inl same ↦
              let e = (==_iff i j).0 same in
              found
              ∙ ap (λ x. some x)
                  (ap₂ (λ x y. (x, y)) (sym key ∙ ap (name_at store) (sym e)) (sym e))
          | inr differ ↦ absurd (
              none-ne-some j (
                sym free
                ∙ sym (indexed new)
                ∙ ap (λ x. lookup x items) (sym (is_new k j key differ named))
                ∙ at))
        ]
  ]
    where
      is_new :
          (k : Text) (j : ℕ)
          → name_at store j ≡ k
          → i == j ≡ false
          → same_text (name_at after j) new ≡ true
          → k ≡ new
      is_new k j key differ named =
          sym key ∙ sym (name_at-set_name_elsewhere store i j new differ) ∙ same_text-eq _ _ named

  reset_key-put : reset_key after new items ≡ put new i (erase (name_at store i) items)
  unfolding reset_key
  reset_key-put = rw (reset_key, key_of-renamed, name_at-set_name_at store i new inside) refl

  pub lookup-reset_key :
      (n : Text) → lookup n (reset_key after new items) ≡ renamed store i new n (lookup n items)
  lookup-reset_key n =
      ap (lookup n) reset_key-put
      ∙ lookup-put n new i (erase (name_at store i) items)
      ∙ rw (lookup-erase n (name_at store i) items) refl

  pub reset_key-UniqueKeys : UniqueKeys (reset_key after new items)
  reset_key-UniqueKeys =
      subst UniqueKeys (sym reset_key-put)
        (put-UniqueKeys new i _ (erase-UniqueKeys (name_at store i) items unique_items))
