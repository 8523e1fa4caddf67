-- ===== src/Path/Canonical.antt =====
-- `Path::makeCanonical`: its two loops, with a round of fuel for each position.
pub mod Ends
use dev_essential.Base.{
  ℕ, zero, suc, ◌+◌, ◌-◌, Bool, true, false, ◌&&◌, ◌||◌, Option, none, some, ◌++◌, length, take,
  drop, get_elem?, ltb, ◌==◌, if◌then◌else◌,
}
use dev_essential.Strings.{Text, is_empty}
use dev_essential.Path.{slash, dot, is_at, is_absolute, append, normalize_path}

-- A round of the loop that looks for the slash where the skipped parts begin: it breaks, goes on with
-- `cur`, `parts_to_skip` and `was_dotdot`, or reads outside of the path.
pub data Scan : Type 0 where
  breaks : Option ℕ → Scan
  goes_on : ℕ → ℕ → Bool → Scan
  reads_outside : Scan

-- The label `next`.
abbrev pub next : ℕ → ℕ → Bool → Scan
next cur parts_to_skip was_dotdot =
    if cur == 0 then breaks none else goes_on (cur - 1) parts_to_skip was_dotdot

unfoldable pub scan_step : Text → ℕ → ℕ → Bool → Scan
scan_step path cur parts_to_skip was_dotdot = elim (get_elem? path cur) [
  | none ↦ reads_outside
  | some c ↦
      if c == slash
      then (if was_dotdot
          then next cur parts_to_skip false
          else (if ltb 0 parts_to_skip
              then next cur (parts_to_skip - 1) was_dotdot
              else breaks (some (if cur == 1 && is_at path 0 slash then 0 else cur))))
      else (if c == dot
          then (if cur == 0
              then reads_outside
              else (if is_at path (cur - 1) dot
                  then next (cur - 1) (parts_to_skip + 1) true
                  else next cur parts_to_skip was_dotdot))
          else next cur parts_to_skip was_dotdot)
]

unfoldable pub scan : ℕ → Text → ℕ → ℕ → Bool → Option (Option ℕ)
scan zero path cur parts_to_skip was_dotdot = none
scan (suc fuel) path cur parts_to_skip was_dotdot =
    elim (scan_step path cur parts_to_skip was_dotdot) [
      | breaks end_ ↦ some end_
      | goes_on cur' parts_to_skip' was_dotdot' ↦ scan fuel path cur' parts_to_skip' was_dotdot'
      | reads_outside ↦ none
    ]

-- A round of the outer loop.
pub data Round : Type 0 where
  done : Text → Round
  again : Text → ℕ → Round
  outside : Round

abbrev pub back : Text → ℕ → Round
back path idx = if ltb 0 idx then again path (idx - 1) else done path

abbrev pub or_begin : Option ℕ → ℕ
or_begin none = 0
or_begin (some end_) = end_

-- `erase` from `end` to `idx`, which goes on at `end`.
abbrev pub cut : Text → ℕ → Option (Option ℕ) → Round
cut path idx none = outside
cut path idx (some end_) = back (take (or_begin end_) path ++ drop (idx + 1) path) (or_begin end_)

-- A dot that is not the first character and ends a part.
unfoldable pub ends_part : Text → ℕ → Bool
ends_part path idx =
    is_at path idx dot && (ltb 0 idx && (idx + 1 == length path || is_at path (idx + 1) slash))

unfoldable pub canonical_step : Text → ℕ → Round
canonical_step path idx =
    if ltb idx (length path)
    then (if ends_part path idx
        then (if is_at path (idx - 1) dot
            then (if idx - 1 == 0
                then done path
                else cut path idx (scan idx path (idx - 1) 1 false))
            else cut path idx (scan idx path (idx - 1) 0 false))
        else back path idx)
    else outside

unfoldable pub canonical_from : ℕ → Text → ℕ → Option Text
canonical_from zero path idx = none
canonical_from (suc fuel) path idx = elim (canonical_step path idx) [
  | done path' ↦ some path'
  | again path' idx' ↦ canonical_from fuel path' idx'
  | outside ↦ none
]

unfoldable pub make_canonical : Text → Option Text
make_canonical path =
    if is_empty path then some path else canonical_from (length path) path (length path - 1)

-- `makeAbsolute` of a base path; a path that is no PathException is made canonical.
pub make_absolute : Text → Text → Option Text
make_absolute path base_path =
    let start : Text = if is_empty path then normalize_path base_path else path in
    elim (is_absolute start) [
      | none ↦ none
      | some true ↦ make_canonical start
      | some false ↦ elim (append base_path start) [
        | none ↦ none
        | some joined ↦ make_canonical (normalize_path joined)
      ]
    ]
