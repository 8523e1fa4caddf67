-- ===== src/AccessList.antt =====
-- include/ddl/utilities/dd_access_list.h: `TypeAccessList`, the named list of the data model, with
-- the observers of include/ddl/utilities/dd_access_observer.h and the renaming of an element in
-- src/ddl/datamodel/datamodel_types.cpp. `store` holds the objects that the shared pointers point
-- to, a pointer is a place in it. The events that go on to the validator are left out.
pub mod Assoc
pub mod Keyed
pub mod Renamed
pub mod Index
pub mod Observers
pub mod Sound
pub mod Insert
pub mod Remove
pub mod Counted
pub mod NewName
pub mod Rename
pub mod Views
pub mod Validated
pub mod Calls
pub mod Runs
pub mod Unvalidated
mod Tests
use dev_essential.Base.{
  ℕ, zero, suc, ◌+◌, ◌-◌, Bool, true, false, not, ◌&&◌, ◌||◌, Option, none, some, List, [], ◌∷◌,
  ◌++◌, map, length, take, drop, get_elem?, ltb, ◌==◌, if◌then◌else◌,
}
use dev_essential.Strings.{Text}

unfoldable pub same_text : Text → Text → Bool
same_text [] [] = true
same_text [] (d ∷ t) = false
same_text (c ∷ s) [] = false
same_text (c ∷ s) (d ∷ t) = c == d && same_text s t

-- An object of the list; `content` stands for all members but the name.
pub record Value : Type 0 where
  pub name : Text
  pub content : ℕ

unfoldable pub same_value : Value → Value → Bool
same_value v w = same_text v.name w.name && v.content == w.content

abbrev pub NamedItems : Type 0
NamedItems = List (Text × ℕ)

-- `find`, `operator[] =` and `erase` of the unordered map.
unfoldable pub lookup : Text → NamedItems → Option ℕ
lookup n [] = none
lookup n ((k, i) ∷ items) = if same_text k n then some i else lookup n items

unfoldable pub put : Text → ℕ → NamedItems → NamedItems
put n i [] = (n, i) ∷ []
put n i ((k, j) ∷ items) = if same_text k n then (k, i) ∷ items else (k, j) ∷ put n i items

unfoldable pub erase : Text → NamedItems → NamedItems
erase n [] = []
erase n ((k, i) ∷ items) = if same_text k n then erase n items else (k, i) ∷ erase n items

-- `named` is the validator's `getNamedItemList`, `none` without a validator. `observed` are the
-- objects that have the list among their observers.
pub record AccessList : Type 0 where
  pub types : List ℕ
  pub store : List Value
  pub named : Option NamedItems
  pub observed : List ℕ

-- The list after a call, which returns or throws, or does what a map of the library does not allow.
pub data Done {ℓ} (A : Type ℓ) : Type ℓ where
  returned thrown : A → Done A
  undefined : Done A

unfoldable pub name_at : List Value → ℕ → Text
name_at store i = elim (get_elem? store i) [ none ↦ [] | some v ↦ v.name ]

-- The first pointer whose object has the name.
pub first_named : List Value → List ℕ → Text → Option ℕ
first_named store [] n = none
first_named store (i ∷ types) n =
    if same_text (name_at store i) n then some i else first_named store types n

pub get : AccessList → Text → Option ℕ
get l n = elim l.named [ none ↦ first_named l.store l.types n | some items ↦ lookup n items ]

pub get_pos_of : List Value → List ℕ → Text → Option ℕ
get_pos_of store [] n = none
get_pos_of store (i ∷ types) n =
    if same_text (name_at store i) n
    then some 0
    else elim (get_pos_of store types n) [ none ↦ none | some p ↦ some (suc p) ]

abbrev pub is_some {ℓ} : {A : Type ℓ} → Option A → Bool
is_some none = false
is_some (some a) = true

-- `contains` of a name, which is the structure's `validateContains` too.
pub contains : AccessList → Text → Bool
contains l n = is_some (get l n)

pub data Existence : Type 0 where
  is_new is_equal is_other : Existence

pub check_existence_and_equality : AccessList → Value → Existence
check_existence_and_equality l v =
    if contains l v.name
    then elim (get l v.name) [
      | none ↦ is_other
      | some i ↦ elim (get_elem? l.store i) [
        | none ↦ is_other
        | some w ↦ if same_value w v then is_equal else is_other
      ]
    ]
    else is_new

-- `attachObserver` and `detachObserver` of the list to and from an object.
unfoldable pub has : ℕ → List ℕ → Bool
has i [] = false
has i (j ∷ js) = i == j || has i js

unfoldable pub attach : ℕ → List ℕ → List ℕ
attach i observed = if has i observed then observed else i ∷ observed

unfoldable pub detach : ℕ → List ℕ → List ℕ
detach i [] = []
detach i (j ∷ js) = if i == j then js else j ∷ detach i js

abbrev pub on_items : (NamedItems → NamedItems) → Option NamedItems → Option NamedItems
on_items f none = none
on_items f (some items) = some (f items)

-- A new object at a position of the list.
pub insert_new : AccessList → ℕ → Value → AccessList
insert_new l pos v =
    let i = length l.store in
    record {
      types = take pos l.types ++ i ∷ drop pos l.types;
      store = l.store ++ v ∷ [];
      named = on_items (put v.name i) l.named;
      observed = attach i l.observed;
    }

-- `add`, and `emplace` of a temporary.
pub add : AccessList → Value → Done AccessList
add l v = elim (check_existence_and_equality l v) [
  | is_equal ↦ returned l
  | is_other ↦ thrown l
  | is_new ↦ returned (insert_new l (length l.types) v)
]

pub insert : AccessList → ℕ → Value → Done AccessList
insert l pos v =
    if ltb (length l.types) pos
    then thrown l
    else if pos == length l.types
    then add l v
    else elim (check_existence_and_equality l v) [
      | is_equal ↦ returned l
      | is_other ↦ thrown l
      | is_new ↦ returned (insert_new l pos v)
    ]

-- `_types.erase` at the first object with the name.
pub erase_first : List Value → List ℕ → Text → List ℕ
erase_first store [] n = []
erase_first store (i ∷ types) n =
    if same_text (name_at store i) n then types else i ∷ erase_first store types n

pub remove : AccessList → Text → Done AccessList
remove l n = elim (first_named l.store l.types n) [
  | none ↦ thrown l
  | some i ↦ returned (record l {
    types = erase_first l.store l.types n;
    named = on_items (erase n) l.named;
    observed = detach i l.observed;
  })
]

pub last : List ℕ → Option ℕ
last [] = none
last (i ∷ []) = some i
last (i ∷ j ∷ is) = last (j ∷ is)

pub pop_back : AccessList → Done AccessList
pop_back l = elim (last l.types) [
  | none ↦ thrown l
  | some i ↦ returned (record l {
    types = take (length l.types - 1) l.types;
    named = on_items (erase (name_at l.store i)) l.named;
    observed = detach i l.observed;
  })
]

unfoldable pub detach_all : List ℕ → List ℕ → List ℕ
detach_all [] observed = observed
detach_all (i ∷ types) observed = detach_all types (detach i observed)

pub clear : AccessList → AccessList
clear l = record l {
  types = [];
  named = on_items (λ items. []) l.named;
  observed = detach_all l.types l.observed;
}

unfoldable pub set_name_at : List Value → ℕ → Text → List Value
set_name_at [] i n = []
set_name_at (v ∷ store) zero n = record v { name = n } ∷ store
set_name_at (v ∷ store) (suc i) n = v ∷ set_name_at store i n

pub count_contains : List Value → List ℕ → Text → ℕ
count_contains store [] n = 0
count_contains store (i ∷ types) n =
    if same_text (name_at store i) n
    then suc (count_contains store types n)
    else count_contains store types n

-- The first key whose object has the name now.
pub key_of : List Value → NamedItems → Text → Option (Text × ℕ)
key_of store [] n = none
key_of store ((k, i) ∷ items) n =
    if same_text (name_at store i) n then some (k, i) else key_of store items n

pub reset_key : List Value → Text → NamedItems → NamedItems
reset_key store n items = elim (key_of store items n) [
  | none ↦ items
  | some (k, i) ↦ put (name_at store i) i (erase k items)
]

-- `modelChanged` of a renamed object, whose name is `n` by now.
pub model_changed : AccessList → Text → Done AccessList
model_changed l n =
    if (elim l.named [
      | none ↦ ltb 1 (count_contains l.store l.types n)
      | some items ↦ contains l n
    ])
    then thrown l
    else returned (record l { named = on_items (reset_key l.store n) l.named })

abbrev restore_name : ℕ → Text → Done AccessList → Done AccessList
restore_name i old (returned l) = returned l
restore_name i old (thrown l) = thrown (record l { store = set_name_at l.store i old })
restore_name i old undefined = undefined

-- The key type of the validator's items: with HAS_STRING_VIEW, which C++17 has, the keys are views of
-- the objects' names.
pub data KeyType : Type 0 where
  string_keys view_keys : KeyType

pub holds_pointer : ℕ → NamedItems → Bool
holds_pointer i [] = false
holds_pointer i ((k, j) ∷ items) = i == j || holds_pointer i items

-- A change of the object's name changes a key in place, while the map holds it.
abbrev pub changes_key : KeyType → Option NamedItems → ℕ → Bool
changes_key string_keys named i = false
changes_key view_keys none i = false
changes_key view_keys (some items) i = holds_pointer i items

-- `setName` of the object at `i`, which notifies its observers.
pub set_name : KeyType → AccessList → ℕ → Text → Done AccessList
set_name keys l i n =
    let renamed : AccessList = record l { store = set_name_at l.store i n } in
    if same_text (name_at l.store i) n
    then returned l
    else if changes_key keys l.named i
    then undefined
    else if has i l.observed
    then restore_name i (name_at l.store i) (model_changed renamed n)
    else returned renamed

-- `operator==`: `none` where it reads behind the end of `other`.
pub equals : List Value → List Value → Option Bool
equals [] other = some true
equals (v ∷ vs) [] = none
equals (v ∷ vs) (w ∷ ws) = elim (same_value v w) [ true ↦ equals vs ws | false ↦ some false ]

pub set_items : List Value → List ℕ → NamedItems → NamedItems
set_items store [] items = items
set_items store (i ∷ types) items = set_items store types (put (name_at store i) i items)

-- `setValidator` of a validator, or of the null pointer.
pub set_validator : AccessList → Bool → AccessList
set_validator l given = record l {
  named = if given then some (set_items l.store l.types []) else none;
}

-- `contains` of a value, and of another list.
pub contains_value : AccessList → Value → Bool
contains_value l v = elim (get l v.name) [
  | none ↦ false
  | some i ↦ elim (get_elem? l.store i) [ none ↦ false | some w ↦ same_value v w ]
]

pub contains_all : AccessList → List Value → Bool
contains_all l [] = true
contains_all l (v ∷ vs) = contains_value l v && contains_all l vs
