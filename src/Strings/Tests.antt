-- ===== src/Strings/Tests.antt =====
-- Runs of the string functions, and the theorems at concrete strings.
use dev_essential.Base.{
  ◌+◌, true, false, none, some, [], ◌∷◌, ◌++◌, ◌≡◌, refl, arith, length, min, take, drop,
}
use dev_essential.Strings.{
  Text, starts_with, one_of, find_first, find, first_of, find_first_of, split_from, split,
  split_token_from, split_token, join_from, join, replace_from, replace, c_str, find_first_not_of,
  find_last_not_of, trim,
}
use dev_essential.Strings.Compare.{
  negative, null, positive, strcmp, strcasecmp, compare_part, compare_texts, compare,
  compare_no_case, is_equal,
}
use dev_essential.Strings.Split.{join-split}
use dev_essential.Strings.Replace.{replace-join}
use dev_essential.Strings.Token.{split_token-split, split_token-AllFreeOf, AllFreeOf}
use dev_essential.Strings.Trim.{trim-IsTrimmed, IsTrimmed}
use dev_essential.Strings.Copy.{store_at, terminate, copy_from, copy, copy_count, copy_lem}

methods : Unit {0}
unfolding starts_with one_of find_first find first_of find_first_of split_from split
    split_token_from split_token join_from join replace_from replace c_str find_first_not_of
    find_last_not_of trim strcmp strcasecmp compare_part compare_texts compare compare_no_case
    is_equal store_at terminate copy_from copy copy_count
methods = tt

-- "a,,b"
abbrev list : Text
list = b'a' ∷ b',' ∷ b',' ∷ b'b' ∷ []

abbrev comma : Text
comma = b',' ∷ []

splits :
    (split list comma true ≡ (b'a' ∷ []) ∷ [] ∷ (b'b' ∷ []) ∷ [])
    × (split list comma false ≡ (b'a' ∷ []) ∷ (b'b' ∷ []) ∷ [])
    × (split [] comma true ≡ [] ∷ [])
    × (split [] comma false ≡ [])
    × (split list [] true ≡ [])
    × (split_token list (b'b' ∷ b',' ∷ []) false ≡ (b'a' ∷ []) ∷ [])
    × (join ((b'a' ∷ []) ∷ [] ∷ (b'b' ∷ []) ∷ []) comma ≡ list)
    × (replace list comma (b'-' ∷ b',' ∷ []) ≡ b'a' ∷ b'-' ∷ b',' ∷ b'-' ∷ b',' ∷ b'b' ∷ [])
    × (trim (b' ' ∷ b'a' ∷ b' ' ∷ b'b' ∷ b' ' ∷ b' ' ∷ []) (b' ' ∷ []) ≡ b'a' ∷ b' ' ∷ b'b' ∷ [])
    × (trim (b' ' ∷ []) (b' ' ∷ []) ≡ [])
unfolding methods
splits = (refl, refl, refl, refl, refl, refl, refl, refl, refl, refl)

compares :
    (compare (some list) (some comma) 0 none ≡ positive)
    × (compare (some list) (some list) 1 (some 2) ≡ null)
    × (compare none (some list) 0 none ≡ negative)
    × (compare_no_case (b'A' ∷ []) (b'a' ∷ []) 0 none ≡ null)
    × (compare (some (b'b' ∷ [])) (some (b'a' ∷ [])) 0 (some 2) ≡ null)
unfolding methods
compares = (refl, refl, refl, refl, refl)

-- A size of 0 has `copy` write into a buffer of no bytes.
copies :
    (copy (9 ∷ 9 ∷ 9 ∷ []) 3 list ≡ some (b'a' ∷ b',' ∷ 0 ∷ [], 2))
    × (copy_count (9 ∷ 9 ∷ 9 ∷ []) 3 list 1 ≡ some (b'a' ∷ 0 ∷ 9 ∷ [], 1))
    × (copy [] 0 list ≡ none)
unfolding methods
copies = (refl, refl, refl)

join-split_example : join (split list comma true) comma ≡ list
join-split_example = join-split list comma refl

replace-join_example : replace list comma (b'-' ∷ []) ≡ join (split list comma true) (b'-' ∷ [])
replace-join_example = replace-join list comma (b'-' ∷ []) refl

split_token-split_example : split_token list comma true ≡ split list comma true
split_token-split_example = split_token-split list b',' true

split_token-AllFreeOf_example : AllFreeOf comma (split_token list comma true)
split_token-AllFreeOf_example = split_token-AllFreeOf list comma true

trim-IsTrimmed_example : IsTrimmed (c_str comma) list (trim list comma)
trim-IsTrimmed_example = trim-IsTrimmed list comma

copy_lem_example :
    let n = min (length list) 2 in
    copy (9 ∷ 9 ∷ 9 ∷ []) 3 list ≡ some (take n list ++ 0 ∷ drop (n + 1) (9 ∷ 9 ∷ 9 ∷ []), n)
copy_lem_example = copy_lem (9 ∷ 9 ∷ 9 ∷ []) list 3 (omega arith) (omega arith) (omega arith)
