-- ===== src/AccessList/Sound.antt =====
-- The state of the list, and what a call leaves of it.
use dev_essential.Base.{
  ℕ, ◌<◌, ◌≡◌, Bool, true, false, Option, none, some, length, Option-cases, inl, inr,
}
use mathlib.Core.Path.{subst}
use dev_essential.Strings.{Text}
use dev_essential.AccessList.{
  NamedItems, lookup, has, AccessList, Done, returned, thrown, undefined, get, on_items,
}
use dev_essential.AccessList.Assoc.{UniqueKeys}
use dev_essential.AccessList.Observers.{AllSingle}
use dev_essential.AccessList.Keyed.{keyed, first_named-lookup}

-- The validator's items, where there is one, are those of the list.
abbrev pub IsIndexed : NamedItems → Option NamedItems → Type 0
IsIndexed keys none = Unit {0}
IsIndexed keys (some items) = UniqueKeys items × ((n : Text) → lookup n items ≡ lookup n keys)

-- A change of the items that follows the one of the list.
pub on_items-IsIndexed :
    (f : NamedItems → NamedItems) (keys keys' : NamedItems) (named : Option NamedItems)
    → IsIndexed keys named
    → ((items : NamedItems)
        → UniqueKeys items
        → ((n : Text) → lookup n items ≡ lookup n keys)
        → UniqueKeys (f items) × ((n : Text) → lookup n (f items) ≡ lookup n keys'))
    → IsIndexed keys' (on_items f named)
on_items-IsIndexed f keys keys' none indexed follows = tt
on_items-IsIndexed f keys keys' (some items) (unique, same) follows = follows items unique same

abbrev pub keys_of : AccessList → NamedItems
keys_of l = keyed l.store l.types

-- No two objects of the list have the same name, all of them exist and have the list as their
-- observer once, no other object has, and the validator's items are up to date.
pub record IsSound (l : AccessList) : Type 0 where
  pub inside : (i : ℕ) → has i l.types ≡ true → i < length l.store
  pub unique : UniqueKeys (keys_of l)
  pub watched : (i : ℕ) → has i l.observed ≡ has i l.types
  pub single : AllSingle l.observed
  pub indexed : IsIndexed (keys_of l) l.named

-- With a validator or without, `get` finds the same object.
pub get-lookup : (l : AccessList) → IsSound l → (n : Text) → get l n ≡ lookup n (keys_of l)
unfolding get
get-lookup l sound n = elim (Option-cases l.named) [
  | inl e ↦ rw e (first_named-lookup l.store l.types n)
  | inr (items, e) ↦ rw e ((subst (IsIndexed (keys_of l)) e sound.indexed).1 n)
]

-- What a call does: it throws and leaves the list as it is, or it returns a sound list that finds
-- what `finds` says.
abbrev pub Meets : AccessList → Bool → (Text → Option ℕ) → Done AccessList → Type 0
Meets l throws finds (returned l') =
    IsSound l' × (throws ≡ false) × ((n : Text) → get l' n ≡ finds n)
Meets l throws finds (thrown l') = (throws ≡ true) × (l' ≡ l)
Meets l throws finds undefined = true ≡ false
