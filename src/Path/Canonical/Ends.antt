-- ===== src/Path/Canonical/Ends.antt =====
-- `makeCanonical` ends, and reads inside the path, where the path does not begin with a dot.
use dev_essential.Base.{
  ℕ, zero, suc, ◌+◌, ◌-◌, ◌≤◌, ◌<◌, ◌≡◌, refl, sym, ap, ◌∙◌, arith, Bool, true, false, ◌&&◌, Option,
  some, [], ◌∷◌, ◌++◌, take, drop, length, length-append, length-take, length-drop, get_elem?, ltb,
  lt→ltb, ltb→lt, ◌==◌, ==_iff, if◌then◌else◌, Bool-cases, inl, inr,
}
use mathlib.Core.Bool.{false≢true}
use dev_essential.Strings.{Text}
use dev_essential.Path.{slash, dot, is_at}
use dev_essential.Path.Canonical.{
  Scan, breaks, goes_on, reads_outside, next, scan_step, scan, Round, done, again, outside, back,
  or_begin, cut, ends_part, canonical_step, canonical_from, make_canonical,
}

-- A round that breaks at `cur` or before, or goes on before `cur`.
abbrev Nears : ℕ → Scan → Type 0
Nears cur (breaks end_) = or_begin end_ ≤ cur
Nears cur (goes_on cur' skip dotdot) = cur' < cur
Nears cur reads_outside = 1 ≤ 0

above_zero : (n : ℕ) → n == 0 ≡ false → 0 < n
above_zero n h = ground arith

next-Nears : (cur cur' skip : ℕ) (dotdot : Bool) → cur' ≤ cur → Nears cur (next cur' skip dotdot)
next-Nears cur cur' skip dotdot h = elim (Bool-cases (cur' == 0)) [
  | inl first ↦ rw (next, first) (omega arith)
  | inr later ↦ let positive = above_zero cur' later in rw (next, later) (omega arith)
]

in_path : (path : Text) (i : ℕ) → i < length path → (c : ℕ) × (get_elem? path i ≡ some c)
in_path [] i h = absurd (omega arith)
in_path (c ∷ path) zero h = (c, refl)
in_path (d ∷ path) (suc i) h = in_path path i (omega arith)

scan_step-Nears :
    (path : Text) (cur skip : ℕ) (dotdot : Bool)
    → cur < length path
    → is_at path 0 dot ≡ false
    → Nears cur (scan_step path cur skip dotdot)
unfolding scan_step
scan_step-Nears path cur skip dotdot inside first =
    let (c, here) = in_path path cur inside in
    elim (Bool-cases (c == slash)) [
      | inl at_slash ↦ elim (Bool-cases dotdot) [
        | inl dots ↦
            rw (scan_step, here, at_slash, dots) (next-Nears cur cur skip false (omega arith))
        | inr no_dots ↦ elim (Bool-cases (ltb 0 skip)) [
          | inl skips ↦
              rw (scan_step, here, at_slash, no_dots, skips)
                (next-Nears cur cur (skip - 1) _ (omega arith))
          | inr ends ↦
              rw (scan_step, here, at_slash, no_dots, ends)
                (not_behind (cur == 1 && is_at path 0 slash))
        ]
      ]
      | inr no_slash ↦ elim (Bool-cases (c == dot)) [
        | inl at_dot ↦ elim (Bool-cases (cur == 0)) [
          | inl start ↦ absurd (false≢true (sym first ∙ dot_first c here at_dot start))
          | inr later ↦ elim (Bool-cases (is_at path (cur - 1) dot)) [
            | inl two ↦
                rw (scan_step, here, no_slash, at_dot, later, two)
                  (next-Nears cur (cur - 1) (skip + 1) true (omega arith))
            | inr one ↦
                rw (scan_step, here, no_slash, at_dot, later, one)
                  (let positive = above_zero cur later in omega arith)
          ]
        ]
        | inr other ↦
            rw (scan_step, here, no_slash, other) (next-Nears cur cur skip dotdot (omega arith))
      ]
    ]
  where
    not_behind : (b : Bool) → (if b then 0 else cur) ≤ cur
    not_behind true = omega arith
    not_behind false = omega arith

    dot_first :
        (c : ℕ)
        → get_elem? path cur ≡ some c
        → c == dot ≡ true
        → cur == 0 ≡ true
        → is_at path 0 dot ≡ true
    dot_first c here at_dot start =
        ap (λ i. is_at path i dot) (sym ((==_iff cur 0).0 start)) ∙ rw (is_at, here) at_dot

-- With a round of fuel for each position the inner loop breaks, at its start or before.
scan-Nears :
    (fuel : ℕ) (path : Text) (cur skip : ℕ) (dotdot : Bool)
    → cur < fuel
    → cur < length path
    → is_at path 0 dot ≡ false
    → (end_ : Option ℕ) × ((scan fuel path cur skip dotdot ≡ some end_) × (or_begin end_ ≤ cur))
unfolding scan
scan-Nears zero path cur skip dotdot enough inside first = absurd (omega arith)
scan-Nears (suc fuel) path cur skip dotdot enough inside first =
    go (scan_step path cur skip dotdot) refl (scan_step-Nears path cur skip dotdot inside first)
      (λ cur' skip' dotdot' near.
        scan-Nears fuel path cur' skip' dotdot' (omega arith) (omega arith) first)
  where
    go :
        (step : Scan)
        → scan_step path cur skip dotdot ≡ step
        → Nears cur step
        → ((cur' skip' : ℕ) (dotdot' : Bool)
            → cur' < cur
            → (end_ : Option ℕ) × ((scan fuel path cur' skip' dotdot' ≡ some end_)
                × (or_begin end_ ≤ cur')))
        → (end_ : Option ℕ) × ((scan (suc fuel) path cur skip dotdot ≡ some end_)
            × (or_begin end_ ≤ cur))
    go (breaks end_) e near rest = (end_, (rw (scan, e) refl, near))
    go (goes_on cur' skip' dotdot') e near rest =
        let (end_, (found, below)) = rest cur' skip' dotdot' near in
        (end_, (rw (scan, e) found, omega arith))
    go reads_outside e near rest = absurd (omega arith)

-- A round that is done, or goes on before `idx` in a path that begins as it did.
abbrev Continues : Text → ℕ → Round → Type 0
Continues path idx (done path') = length path' ≤ length path
Continues path idx (again path' idx') =
    (idx' < idx)
    × (idx' < length path')
    × (length path' ≤ length path)
    × (is_at path' 0 dot ≡ false)
Continues path idx outside = 1 ≤ 0

back-Continues :
    (path path' : Text) (idx at : ℕ)
    → at ≤ idx
    → at ≤ length path'
    → length path' ≤ length path
    → (0 < at → is_at path' 0 dot ≡ false)
    → Continues path idx (back path' at)
back-Continues path path' idx at near inside shorter first = elim (Bool-cases (ltb 0 at)) [
  | inl further ↦
      let positive = ltb→lt 0 at further in
      rw (back, further) (omega arith, omega arith, shorter, first positive)
  | inr over ↦ rw (back, over) shorter
]

length-cut :
    (path : Text) (end_ idx : ℕ)
    → end_ ≤ idx
    → idx < length path
    → (end_ ≤ length (take end_ path ++ drop (idx + 1) path))
      × (length (take end_ path ++ drop (idx + 1) path) ≤ length path)
length-cut path end_ idx near inside =
    let n = length-append (take end_ path) (drop (idx + 1) path) in
    let m = length-take end_ path in
    let k = length-drop (idx + 1) path in (omega arith, omega arith)

first-cut :
    (path tail : Text) (end_ : ℕ)
    → 0 < end_
    → is_at path 0 dot ≡ false
    → end_ ≤ length path
    → is_at (take end_ path ++ tail) 0 dot ≡ false
first-cut path tail zero h first inside = absurd (omega arith)
first-cut [] tail (suc end_) h first inside = absurd (omega arith)
first-cut (c ∷ path) tail (suc end_) h first inside = first

cut-Continues :
    (path : Text) (idx skip : ℕ)
    → 0 < idx
    → idx < length path
    → is_at path 0 dot ≡ false
    → Continues path idx (cut path idx (scan idx path (idx - 1) skip false))
cut-Continues path idx skip later inside first =
    let (end_, (found, near)) =
      scan-Nears idx path (idx - 1) skip false (omega arith) (omega arith) first in
    let (long, short) = length-cut path (or_begin end_) idx (omega arith) inside in
    rw (found, cut)
      (back-Continues path _ idx (or_begin end_) (omega arith) long short
        (λ h. first-cut path _ (or_begin end_) h first (omega arith)))

canonical_step-Continues :
    (path : Text) (idx : ℕ)
    → idx < length path
    → is_at path 0 dot ≡ false
    → Continues path idx (canonical_step path idx)
unfolding canonical_step ends_part
canonical_step-Continues path idx inside first = elim (Bool-cases (ends_part path idx)) [
  | inl ends ↦
      let later = behind_first ends in
      elim (Bool-cases (is_at path (idx - 1) dot)) [
        | inl two ↦ elim (Bool-cases (idx - 1 == 0)) [
          | inl start ↦
              rw (canonical_step, lt→ltb idx (length path) inside, ends, two, start) (omega arith)
          | inr further ↦
              rw (canonical_step, lt→ltb idx (length path) inside, ends, two, further)
                (cut-Continues path idx 1 later inside first)
        ]
        | inr one ↦
            rw (canonical_step, lt→ltb idx (length path) inside, ends, one)
              (cut-Continues path idx 0 later inside first)
      ]
  | inr apart ↦
      rw (canonical_step, lt→ltb idx (length path) inside, apart)
        (back-Continues path path idx idx (omega arith) (omega arith) (omega arith) (λ h. first))
]
  where
    behind_first : ends_part path idx ≡ true → 0 < idx
    behind_first ends = ltb→lt 0 idx (second (is_at path idx dot) (ltb 0 idx) _ ends)
      where
        second : (a b c : Bool) → a && (b && c) ≡ true → b ≡ true
        second a b c h = ground arith

canonical_from-ends :
    (fuel : ℕ) (path : Text) (idx : ℕ)
    → idx < fuel
    → idx < length path
    → is_at path 0 dot ≡ false
    → (path' : Text) × ((canonical_from fuel path idx ≡ some path') × (length path' ≤ length path))
unfolding canonical_from
canonical_from-ends zero path idx enough inside first = absurd (omega arith)
canonical_from-ends (suc fuel) path idx enough inside first =
    go (canonical_step path idx) refl (canonical_step-Continues path idx inside first)
      (λ path' idx' near inside' first'.
        canonical_from-ends fuel path' idx' (omega arith) inside' first')
  where
    go :
        (step : Round)
        → canonical_step path idx ≡ step
        → Continues path idx step
        → ((path' : Text) (idx' : ℕ)
            → idx' < idx
            → idx' < length path'
            → is_at path' 0 dot ≡ false
            → (path'' : Text) × ((canonical_from fuel path' idx' ≡ some path'')
                × (length path'' ≤ length path')))
        → (path'' : Text) × ((canonical_from (suc fuel) path idx ≡ some path'')
            × (length path'' ≤ length path))
    go (done path') e shorter rest = (path', (rw (canonical_from, e) refl, shorter))
    go (again path' idx') e (near, inside', shorter, first') rest =
        let (path'', (found, below)) = rest path' idx' near inside' first' in
        (path'', (rw (canonical_from, e) found, omega arith))
    go outside e never rest = absurd (omega arith)

-- On a path that does not begin with a dot makeCanonical ends, reads inside of the path only, and
-- leaves a path that is not longer.
pub make_canonical-ends :
    (path : Text)
    → is_at path 0 dot ≡ false
    → (path' : Text) × ((make_canonical path ≡ some path') × (length path' ≤ length path))
unfolding make_canonical
make_canonical-ends [] first = ([], (refl, omega arith))
make_canonical-ends (c ∷ path) first =
    canonical_from-ends (suc (length path)) (c ∷ path) (suc (length path) - 1) (omega arith)
      (omega arith) first
