-- ===== src/Path/Tests.antt =====
-- The theorems on paths at concrete paths, and paths that the code treats in a way of its own.
use dev_essential.Base.{◌≡◌, refl, none, some, [], ◌∷◌, ◌++◌, length, ◌≤◌}
use dev_essential.Strings.{Text, starts_with, find, find_first}
use dev_essential.Path.{
  slash, find_last, ends_in, replace_char, slash_predicate, unique_behind, unique, collapse,
  normalize_path, append, get_parent, get_last_element, remove_last_element, extension_at,
  get_extension, append_to_basename, replace_extension, network_host, is_root,
}
use dev_essential.Path.Elements.{append-elements}
use dev_essential.Path.Extension.{replace_extension-get}
use dev_essential.Path.Canonical.{
  make_canonical, canonical_from, canonical_step, ends_part, scan, scan_step,
}
use dev_essential.Path.Canonical.Ends.{make_canonical-ends}

-- dir/sub
abbrev dir_sub : Text
dir_sub = 100 ∷ 105 ∷ 114 ∷ 47 ∷ 115 ∷ 117 ∷ 98 ∷ []

-- file.txt
abbrev file_txt : Text
file_txt = 102 ∷ 105 ∷ 108 ∷ 101 ∷ 46 ∷ 116 ∷ 120 ∷ 116 ∷ []

-- so
abbrev so_text : Text
so_text = 115 ∷ 111 ∷ []

append-elements_example :
    (append dir_sub file_txt ≡ some (dir_sub ++ slash ∷ file_txt))
    × (get_parent (dir_sub ++ slash ∷ file_txt) ≡ dir_sub)
    × (get_last_element (dir_sub ++ slash ∷ file_txt) ≡ file_txt)
    × (remove_last_element (dir_sub ++ slash ∷ file_txt) ≡ dir_sub)
unfolding find_last ends_in
append-elements_example = append-elements dir_sub file_txt refl refl refl refl refl

-- a//b is its own parent and has no last element, as a host is.
double_slash_inside :
    (get_parent (97 ∷ 47 ∷ 47 ∷ 98 ∷ []) ≡ 97 ∷ 47 ∷ 47 ∷ 98 ∷ [])
    × (get_last_element (97 ∷ 47 ∷ 47 ∷ 98 ∷ []) ≡ [])
unfolding get_parent get_last_element find_last network_host is_root find find_first
double_slash_inside = (refl, refl)

replace_extension-get_example :
    (get_extension (replace_extension file_txt so_text) ≡ so_text)
    × (replace_extension (replace_extension file_txt so_text) [] ≡ replace_extension file_txt [])
    × (get_extension (append_to_basename (replace_extension file_txt so_text) dir_sub) ≡ so_text)
unfolding find_last extension_at
replace_extension-get_example = replace_extension-get file_txt so_text [] dir_sub refl refl refl

-- dir/../sub/.
abbrev with_dots : Text
with_dots = 100 ∷ 105 ∷ 114 ∷ 47 ∷ 46 ∷ 46 ∷ 47 ∷ 115 ∷ 117 ∷ 98 ∷ 47 ∷ 46 ∷ []

make_canonical-ends_example :
    (path : Text) × ((make_canonical with_dots ≡ some path) × (length path ≤ length with_dots))
make_canonical-ends_example = make_canonical-ends with_dots refl

-- The documented /./dir/../dir/file.txt becomes /dir/file.txt.
documented_path :
    make_canonical (
      47 ∷ 46 ∷ 47 ∷ 100 ∷ 105 ∷ 114 ∷ 47 ∷ 46 ∷ 46 ∷ 47 ∷ 100 ∷ 105 ∷ 114 ∷ 47 ∷ 102 ∷ 105 ∷ 108
      ∷ 101 ∷ 46 ∷ 116 ∷ 120 ∷ 116 ∷ [])
    ≡ some (47 ∷ 100 ∷ 105 ∷ 114 ∷ 47 ∷ 102 ∷ 105 ∷ 108 ∷ 101 ∷ 46 ∷ 116 ∷ 120 ∷ 116 ∷ [])
unfolding make_canonical canonical_from canonical_step ends_part scan scan_step
documented_path = refl

-- In .a/.. the loop looks before the first character.
dot_first : make_canonical (46 ∷ 97 ∷ 47 ∷ 46 ∷ 46 ∷ []) ≡ none
unfolding make_canonical canonical_from canonical_step ends_part scan scan_step
dot_first = refl

-- a//b stays as it is, and a// keeps a slash.
double_slash_stays : normalize_path (97 ∷ 47 ∷ 47 ∷ 98 ∷ []) ≡ 97 ∷ 47 ∷ 47 ∷ 98 ∷ []
unfolding normalize_path collapse unique unique_behind slash_predicate replace_char ends_in
    starts_with
double_slash_stays = refl

slash_left : normalize_path (97 ∷ 47 ∷ 47 ∷ []) ≡ 97 ∷ 47 ∷ []
unfolding normalize_path collapse unique unique_behind slash_predicate replace_char ends_in
    starts_with
slash_left = refl

-- The parent of /usr is the empty path.
parent_of_usr : get_parent (47 ∷ 117 ∷ 115 ∷ 114 ∷ []) ≡ []
unfolding get_parent find_last network_host is_root find find_first
parent_of_usr = refl
