-- ===== src/Strings.antt =====
-- src/strings/strings.cpp. A string is the list of its characters, a position that the source has as
-- npos is `none`.
pub mod Compare
pub mod Find
pub mod Split
pub mod Replace
pub mod Token
pub mod Trim
pub mod Copy
mod Tests
use dev_essential.Base.{
  ℕ, zero, suc, ◌+◌, ◌-◌, ◌%◌, ◌^◌, Bool, true, false, not, ◌&&◌, ◌||◌, Option, none, some, List,
  [], ◌∷◌, ◌++◌, length, take, drop, ltb, ◌==◌, if◌then◌else◌, max, min, reverse,
}

abbrev pub Text : Type 0
Text = List ℕ

abbrev pub is_empty : Text → Bool
is_empty [] = true
is_empty (c ∷ s) = false

unfoldable pub starts_with : Text → Text → Bool
starts_with [] s = true
starts_with (c ∷ p) [] = false
starts_with (c ∷ p) (d ∷ s) = c == d && starts_with p s

unfoldable pub one_of : Text → ℕ → Bool
one_of [] c = false
one_of (d ∷ set) c = c == d || one_of set c

abbrev pub shift : ℕ → Option ℕ → Option ℕ
shift n none = none
shift n (some k) = some (n + k)

-- Where `p` stands first.
unfoldable pub find_first : Text → Text → Option ℕ
unfolding starts_with
find_first p [] = if starts_with p [] then some 0 else none
find_first p (c ∷ s) = if starts_with p (c ∷ s) then some 0 else shift 1 (find_first p s)

-- `str.find(p, begin)`
unfoldable pub find : Text → Text → ℕ → Option ℕ
find str p begin = shift begin (find_first p (drop begin str))

unfoldable pub first_of : Text → Text → Option ℕ
unfolding one_of
first_of set [] = none
first_of set (c ∷ s) = if one_of set c then some 0 else shift 1 (first_of set s)

-- `str.find_first_of(set, begin)`
unfoldable pub find_first_of : Text → Text → ℕ → Option ℕ
find_first_of str set begin = shift begin (first_of set (drop begin str))

-- `str.substr(begin, count)`
abbrev pub substr : Text → ℕ → ℕ → Text
substr str begin count = take count (drop begin str)

abbrev pub push_front_if : Bool → Text → List Text → List Text
push_front_if b x xs = if b then x ∷ xs else xs

-- The loop of `split`, which adds to `vecResults`; each round finds one separator.
unfoldable pub split_from : ℕ → Text → Text → Bool → ℕ → List Text
split_from zero str separator keep_empty begin = []
split_from (suc fuel) str separator keep_empty begin = elim (find str separator begin) [
  | none ↦ push_front_if (ltb 0 (length str - begin) || keep_empty) (drop begin str) []
  | some end_ ↦
      push_front_if (ltb 0 (end_ - begin) || keep_empty) (substr str begin (end_ - begin))
        (split_from fuel str separator keep_empty (end_ + length separator))
]

unfoldable pub split : Text → Text → Bool → List Text
split str separator keep_empty =
    if is_empty separator then [] else split_from (suc (length str)) str separator keep_empty 0

-- The loop of `splitToken`.
unfoldable pub split_token_from : ℕ → Text → Text → Bool → ℕ → List Text
split_token_from zero str separators keep_empty begin = []
split_token_from (suc fuel) str separators keep_empty begin =
    elim (find_first_of str separators begin) [
      | none ↦
          let count = length str - min begin (length str) in
          push_front_if (ltb 0 count || keep_empty) (substr str begin count) []
      | some end_ ↦
          push_front_if (ltb 0 (end_ - begin) || keep_empty) (substr str begin (end_ - begin))
            (split_token_from fuel str separators keep_empty (end_ + 1))
    ]

unfoldable pub split_token : Text → Text → Bool → List Text
split_token str separators keep_empty =
    split_token_from (suc (length str)) str separators keep_empty 0

-- The loop of `join`; `first` is `it == strings.begin()`.
unfoldable pub join_from : Text → Bool → List Text → Text → Text
join_from str first [] delimiter = str
join_from str first (x ∷ xs) delimiter =
    join_from ((if first then str else str ++ delimiter) ++ x) false xs delimiter

unfoldable pub join : List Text → Text → Text
join strings delimiter = join_from [] true strings delimiter

-- The loop of `replace`: `erase` and `insert` at each place found.
unfoldable pub replace_from : ℕ → Text → Text → Text → ℕ → Text
replace_from zero str subject replacement pos = str
replace_from (suc fuel) str subject replacement pos = elim (find str subject pos) [
  | none ↦ str
  | some at ↦
      replace_from fuel (take at str ++ replacement ++ drop (at + length subject) str) subject
        replacement (at + length replacement)
]

unfoldable pub replace : Text → Text → Text → Text
replace str subject replacement =
    if is_empty subject then str else replace_from (suc (length str)) str subject replacement 0

-- `c_str()`, up to the first NUL
unfoldable pub c_str : Text → Text
c_str [] = []
c_str (c ∷ s) = if c == 0 then [] else c ∷ c_str s

unfoldable pub find_first_not_of : Text → Text → Option ℕ
unfolding one_of
find_first_not_of [] set = none
find_first_not_of (c ∷ s) set = if one_of set c then shift 1 (find_first_not_of s set) else some 0

unfoldable pub find_last_not_of : Text → Text → Option ℕ
unfolding one_of
find_last_not_of [] set = none
find_last_not_of (c ∷ s) set = elim (find_last_not_of s set) [
  | some k ↦ some (suc k)
  | none ↦ if one_of set c then none else some 0
]

unfoldable pub trim : Text → Text → Text
trim str trimmed_chars = elim (find_last_not_of str (c_str trimmed_chars)) [
  | some offset ↦
      let kept = take (offset + 1) str in
      elim (find_first_not_of kept (c_str trimmed_chars)) [
        | some offset' ↦ drop offset' kept
        | none ↦ kept
      ]
  | none ↦ []
]
