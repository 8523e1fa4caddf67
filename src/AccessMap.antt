-- ===== src/AccessMap.antt =====
-- include/ddl/utilities/dd_access_map.h: `TypeAccessMap`, the unordered named map of the data model,
-- with the observers of include/ddl/utilities/dd_access_observer.h and the renaming of a type in
-- src/ddl/datamodel/datamodel_types.cpp. As for the named list, pointers are places in a store.
-- `elsewhere` is what the validator's `validateContains` says of the other maps, false without one.
pub mod Sound
pub mod Rename
pub mod Runs
mod Tests
use dev_essential.Base.{
  ℕ, Bool, true, false, ◌||◌, Option, none, some, List, [], ◌∷◌, ◌++◌, length, get_elem?,
  if◌then◌else◌,
}
use dev_essential.Strings.{Text}
use dev_essential.AccessList.{
  Value, NamedItems, same_text, same_value, lookup, put, erase, name_at, has, attach, detach,
  detach_all, set_name_at, is_some,
}

pub record AccessMap : Type 0 where
  pub types : NamedItems
  pub store : List Value
  pub observed : List ℕ

-- The map after a call that returns or throws; the third one follows the end iterator of the map.
pub data Ended : Type 0 where
  returns throws : AccessMap → Ended
  follows_end : Ended

abbrev pub value_at : List Value → ℕ → Value → Bool
value_at store i v = elim (get_elem? store i) [ none ↦ false | some w ↦ same_value w v ]

pub put_new : AccessMap → Value → AccessMap
put_new m v =
    let i = length m.store in
    record {
      types = put v.name i m.types;
      store = m.store ++ v ∷ [];
      observed = attach i m.observed;
    }

pub add : (Text → Bool) → AccessMap → Value → Ended
add elsewhere m v = elim (lookup v.name m.types) [
  | some i ↦ if value_at m.store i v then returns m else throws m
  | none ↦ if elsewhere v.name then throws m else returns (put_new m v)
]

-- Unlike `add`, `emplace` goes on where an equal value is there.
pub emplace : (Text → Bool) → AccessMap → Value → Ended
emplace elsewhere m v = elim (lookup v.name m.types) [
  | some i ↦ if value_at m.store i v then returns (put_new m v) else throws m
  | none ↦ if elsewhere v.name then throws m else returns (put_new m v)
]

pub remove : AccessMap → Text → Ended
remove m n = elim (lookup n m.types) [
  | none ↦ throws m
  | some i ↦ returns (record m { types = erase n m.types; observed = detach i m.observed })
]

abbrev pub pointers : NamedItems → List ℕ
pointers [] = []
pointers ((n, i) ∷ types) = i ∷ pointers types

pub clear : AccessMap → AccessMap
clear m = record m { types = []; observed = detach_all (pointers m.types) m.observed }

-- `modelChanged` of an object that had the name `old` and has `new` by now.
pub model_changed : (Text → Bool) → AccessMap → Text → Text → Ended
model_changed elsewhere m old new =
    if is_some (lookup new m.types) || elsewhere new then throws m else elim (lookup old m.types) [
      | none ↦ follows_end
      | some i ↦ returns (record m { types = put (name_at m.store i) i (erase old m.types) })
    ]

abbrev restore_name : ℕ → Text → Ended → Ended
restore_name i old (returns m) = returns m
restore_name i old (throws m) = throws (record m { store = set_name_at m.store i old })
restore_name i old follows_end = follows_end

-- `setName` of the object at `i`, which notifies its observers.
pub set_name : (Text → Bool) → AccessMap → ℕ → Text → Ended
set_name elsewhere m i n =
    let renamed : AccessMap = record m { store = set_name_at m.store i n } in
    if same_text (name_at m.store i) n
    then returns m
    else (if has i m.observed
        then restore_name i (name_at m.store i)
            (model_changed elsewhere renamed (name_at m.store i) n)
        else returns renamed)
