-- ===== src/AccessList/Validated.antt =====
-- `setValidator` of the named list: the validator's items are set anew.
use dev_essential.Base.{
  ℕ, ◌≡◌, refl, sym, ap, ◌∙◌, Bool, true, false, Option, none, some, List, [], ◌∷◌, if◌then◌else◌,
  Bool-cases, inl, inr,
}
use dev_essential.Strings.{Text}
use dev_essential.AccessList.{
  same_text, Value, NamedItems, lookup, put, name_at, AccessList, returned, set_items,
  set_validator, get,
}
use dev_essential.AccessList.Assoc.{same_text-eq, UniqueKeys, lookup-put, put-UniqueKeys}
use dev_essential.AccessList.Keyed.{keyed}
use dev_essential.AccessList.Sound.{IsSound, IsIndexed, keys_of, Meets, get-lookup}

abbrev or_else : Option ℕ → Option ℕ → Option ℕ
or_else none other = other
or_else (some i) other = some i

set_items-UniqueKeys :
    (store : List Value) (types : List ℕ) (items : NamedItems)
    → UniqueKeys items
    → UniqueKeys (set_items store types items)
unfolding set_items
set_items-UniqueKeys store [] items unique = unique
set_items-UniqueKeys store (i ∷ types) items unique =
    set_items-UniqueKeys store types _ (put-UniqueKeys (name_at store i) i items unique)

lookup-set_items :
    (store : List Value) (types : List ℕ) (items : NamedItems) (n : Text)
    → UniqueKeys (keyed store types)
    → lookup n (set_items store types items)
      ≡ or_else (lookup n (keyed store types)) (lookup n items)
unfolding set_items lookup
lookup-set_items store [] items n unique = refl
lookup-set_items store (i ∷ types) items n (fresh, unique) =
    lookup-set_items store types (put (name_at store i) i items) n unique
    ∙ ap (or_else (lookup n (keyed store types))) (lookup-put n (name_at store i) i items)
    ∙ elim (Bool-cases (same_text (name_at store i) n)) [
      | inl same ↦
          rw (same, ap (λ x. lookup x (keyed store types)) (sym (same_text-eq _ _ same)) ∙ fresh)
            refl
      | inr differ ↦ rw differ refl
    ]

pub set_validator-Meets :
    (l : AccessList) (given : Bool)
    → IsSound l
    → Meets l false (get l) (returned (set_validator l given))
unfolding set_validator lookup
set_validator-Meets l given sound =
    (after, refl, λ n. get-lookup _ after n ∙ sym (get-lookup l sound n))
  where
    indexed :
        (b : Bool) → IsIndexed (keys_of l) (if b then some (set_items l.store l.types []) else none)
    indexed true = (
      set_items-UniqueKeys l.store l.types [] tt,
      λ n. lookup-set_items l.store l.types [] n sound.unique ∙ at_end (lookup n (keys_of l)),
    )
      where
        at_end : (o : Option ℕ) → or_else o none ≡ o
        at_end none = refl
        at_end (some i) = refl
    indexed false = tt

    after : IsSound (set_validator l given)
    after = record {
      inside = sound.inside;
      unique = sound.unique;
      watched = sound.watched;
      single = sound.single;
      indexed = indexed given;
    }
