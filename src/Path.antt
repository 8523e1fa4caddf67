-- ===== src/Path.antt =====
-- src/filesystem/path.cpp where the native slash is the forward one. A path is its characters;
-- `none` is a PathException, a position npos, or for makeCanonical a read before the string.
pub mod Search
pub mod Hosts
pub mod Elements
pub mod Forms
pub mod Extension
pub mod Canonical
mod Tests
use dev_essential.Base.{
  ℕ, zero, suc, ◌+◌, ◌-◌, Bool, true, false, not, ◌&&◌, ◌||◌, Option, none, some, List, [], ◌∷◌,
  ◌++◌, length, take, drop, get_elem?, ltb, ◌==◌, if◌then◌else◌,
}
use dev_essential.Strings.{Text, is_empty, starts_with, find}

abbrev pub slash : ℕ
slash = 47

abbrev pub backslash : ℕ
backslash = 92

abbrev pub dot : ℕ
dot = 46

abbrev pub colon : ℕ
colon = 58

abbrev pub double_slash : Text
double_slash = slash ∷ slash ∷ []

-- `rfind` of a character.
pub find_last : ℕ → Text → Option ℕ
find_last c [] = none
find_last c (d ∷ s) = elim (find_last c s) [
  | some r ↦ some (suc r)
  | none ↦ if d == c then some 0 else none
]

-- `path[i] == c`
abbrev pub is_at : Text → ℕ → ℕ → Bool
is_at path i c = elim (get_elem? path i) [ none ↦ false | some d ↦ d == c ]

pub ends_in : Text → ℕ → Bool
ends_in path c = is_at path (length path - 1) c

pub replace_char : ℕ → ℕ → Text → Text
replace_char old new [] = []
replace_char old new (c ∷ s) = (if c == old then new else c) ∷ replace_char old new s

-- The enumerator that a character is compared with, `Path::PS_ForwardSlash`.
abbrev native_separator : ℕ
native_separator = 0

pub slash_predicate : ℕ → ℕ → Bool
slash_predicate left right = left == native_separator && left == right

-- `std::unique`, behind an element that stays.
pub unique_behind : ℕ → Text → Text
unique_behind kept [] = kept ∷ []
unique_behind kept (c ∷ s) = elim (slash_predicate kept c) [
  | true ↦ unique_behind kept s
  | false ↦ kept ∷ unique_behind c s
]

pub unique : Text → Text
unique [] = []
unique (c ∷ s) = unique_behind c s

pub collapse : Text → Text
collapse path =
    let begin : ℕ = if starts_with double_slash path then 2 else 0 in
    take begin path ++ unique (drop begin path)

pub normalize_path : Text → Text
normalize_path path =
    let collapsed = collapse (replace_char backslash slash path) in
    if ltb 1 (length collapsed) && ends_in collapsed slash
    then take (length collapsed - 1) collapsed
    else collapsed

pub data KeepTrailingSlash : Type 0 where
  no yes : KeepTrailingSlash

pub add_trailing_slash : KeepTrailingSlash → Text → ℕ → ℕ → Text
add_trailing_slash no path name_end root_end = normalize_path (take name_end path)
add_trailing_slash yes path name_end root_end = normalize_path (take root_end path) ++ slash ∷ []

-- The end of `getRootNode`, where no drive and no host was found.
pub own_root : Text → Text
own_root path = if is_at path 0 slash then slash ∷ [] else []

pub get_root_node : KeepTrailingSlash → Text → Text
get_root_node keep path = if is_empty path then [] else elim (find path (colon ∷ []) 0) [
  | some pos ↦ add_trailing_slash keep path (pos + 1) (pos + 2)
  | none ↦
      if starts_with double_slash path
      then elim (find path (slash ∷ []) 2) [
        | some end_ ↦ add_trailing_slash keep path end_ (end_ + 1)
        | none ↦ own_root path
      ]
      else own_root path
]

pub is_absolute : Text → Option Bool
is_absolute path = if is_empty path then none else some (not (is_empty (get_root_node no path)))

pub is_root : Text → Bool
is_root path = is_at path 0 slash && length path == 1

pub append : Text → Text → Option Text
append path other = if is_empty other then some path else elim (is_absolute other) [
  | none ↦ none
  | some true ↦ none
  | some false ↦
      some
        ((if not (is_empty path) && not (is_root path) then path ++ slash ∷ [] else path) ++ other)
]

-- The special case for //host: the last slash, at `pos_r`, is the second of two.
pub network_host : Text → ℕ → Bool
network_host path pos_r = elim (find path double_slash 0) [
  | none ↦ false
  | some pos_l ↦ pos_l + 1 == pos_r
]

pub get_parent : Text → Text
get_parent path = elim (find_last slash path) [
  | some pos_r ↦ if network_host path pos_r || is_root path then path else take pos_r path
  | none ↦ elim (find_last colon path) [ some pos ↦ path | none ↦ [] ]
]

pub get_last_element : Text → Text
get_last_element path = elim (find_last slash path) [
  | some pos_r ↦ if network_host path pos_r || is_root path then [] else drop (pos_r + 1) path
  | none ↦ elim (find_last colon path) [ some pos ↦ [] | none ↦ path ]
]

pub remove_last_element : Text → Text
remove_last_element path = elim (find_last slash path) [
  | some pos_slash ↦
      if is_root path || network_host path pos_slash then path else take pos_slash path
  | none ↦ if ends_in path colon then path else []
]

-- The last dot, where it is behind the last slash.
pub extension_at : Text → Option ℕ
extension_at path = elim (find_last dot path) [
  | none ↦ none
  | some pos_r ↦ elim (find_last slash path) [
    | none ↦ some pos_r
    | some pos_slash ↦ if ltb pos_slash pos_r then some pos_r else none
  ]
]

pub get_extension : Text → Text
get_extension path = elim (extension_at path) [ none ↦ [] | some pos_r ↦ drop (pos_r + 1) path ]

-- The special cases: the root, a drive and a host stay as they are.
pub stays : Text → Bool
stays path =
    is_root path
    || (ends_in path colon || (elim (find_last slash path) [
      | none ↦ false
      | some pos_slash ↦ network_host path pos_slash
    ]))

pub append_to_basename : Text → Text → Text
append_to_basename path str = if is_empty path then path ++ str else elim (extension_at path) [
  | some pos_r ↦ take pos_r path ++ str ++ drop pos_r path
  | none ↦ if stays path then path else path ++ str
]

pub replace_extension : Text → Text → Text
replace_extension path extension = if is_empty path then path else elim (extension_at path) [
  | some pos_r ↦ take (pos_r + 1) path ++ extension
  | none ↦ if stays path then path else (path ++ dot ∷ []) ++ extension
]
