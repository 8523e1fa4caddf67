-- ===== src/AccessList/NewName.antt =====
-- The list with an object that has a new name, and with the key of it set again.
use dev_essential.Base.{
  ℕ, zero, suc, ◌<◌, ◌≡◌, refl, sym, ap, ◌∙◌, true, false, none, List, [], ◌∷◌, length,
}
use mathlib.Core.Path.{subst}
use dev_essential.Strings.{Text}
use dev_essential.AccessList.{Value, lookup, has, AccessList, on_items, set_name_at, reset_key}
use dev_essential.AccessList.Assoc.{UniqueKeys}
use dev_essential.AccessList.Renamed.{
  renamed, lookup-set_name_at, set_name_at-UniqueKeys, keyed-set_name_unseen,
}
use dev_essential.AccessList.Index.{lookup-reset_key, reset_key-UniqueKeys}
use dev_essential.AccessList.Sound.{IsSound, IsIndexed, keys_of, on_items-IsIndexed}

pub length-set_name_at :
    (store : List Value) (i : ℕ) (n : Text) → length (set_name_at store i n) ≡ length store
unfolding set_name_at
length-set_name_at [] i n = refl
length-set_name_at (v ∷ store) zero n = refl
length-set_name_at (v ∷ store) (suc i) n = ap suc (length-set_name_at store i n)

-- The list after an object has its new name, before it is notified and after.
abbrev pub with_name : AccessList → ℕ → Text → AccessList
with_name l i n = record l { store = set_name_at l.store i n }

abbrev pub reset : AccessList → Text → AccessList
reset l n = record l { named = on_items (reset_key l.store n) l.named }

module _ (l : AccessList) (i : ℕ) (new : Text) (sound : IsSound l) where
  abbrev after : List Value
  after = set_name_at l.store i new

  still_inside : (j : ℕ) → has j l.types ≡ true → j < length after
  still_inside j h = subst (λ x. j < x) (sym (length-set_name_at l.store i new)) (sound.inside j h)

  -- An object that is not in the list.
  pub unseen-IsSound : has i l.types ≡ false → IsSound (with_name l i new)
  unseen-IsSound unseen =
      let same = keyed-set_name_unseen l.store l.types i new unseen in
      record {
        inside = still_inside;
        unique = subst UniqueKeys (sym same) sound.unique;
        watched = sound.watched;
        single = sound.single;
        indexed = subst (λ x. IsIndexed x l.named) (sym same) sound.indexed;
      }

  module _ (h : has i l.types ≡ true) (free : lookup new (keys_of l) ≡ none) where
    pub lookup-renamed :
        (n : Text)
        → lookup n (keys_of (reset (with_name l i new) new))
          ≡ renamed l.store i new n (lookup n (keys_of l))
    lookup-renamed n =
        lookup-set_name_at l.store l.types i new n h (sound.inside i h) sound.unique free

    pub reset-IsSound : IsSound (reset (with_name l i new) new)
    reset-IsSound = record {
      inside = still_inside;
      unique = set_name_at-UniqueKeys l.store l.types i new h (sound.inside i h) sound.unique free;
      watched = sound.watched;
      single = sound.single;
      indexed =
          on_items-IsIndexed (reset_key after new) (keys_of l) _ l.named sound.indexed
            (λ items unique same. (
              reset_key-UniqueKeys l.store l.types items i new sound.unique unique same h
                  (sound.inside i h) free,
              λ n.
                  lookup-reset_key l.store l.types items i new sound.unique unique same h
                    (sound.inside i h) free n
                  ∙ ap (renamed l.store i new n) (same n)
                  ∙ sym (lookup-renamed n),
            ));
    }
