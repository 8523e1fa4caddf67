-- ===== src/Strings/Copy.antt =====
-- The two `copy` of src/strings/strings.cpp. The destination is the buffer behind the pointer, `none`
-- a write outside of it; a null pointer is not modelled (it throws).
use dev_essential.Base.{
  ℕ, zero, suc, ◌+◌, ◌-◌, ◌%◌, ◌^◌, ◌≤◌, ◌<◌, Bool, true, false, ◌&&◌, Option, none, some, [], ◌∷◌,
  ◌++◌, length, take, drop, ltb, if◌then◌else◌, ◌≡◌, refl, ap, ◌∙◌, arith, min, length-append,
  lt→ltb,
}
use mathlib.Core.List.{append_assoc}
use dev_essential.Strings.{Text}
use dev_essential.Strings.Find.{drop_at}

-- `buffer[i] = c`
unfoldable pub store_at : Text → ℕ → ℕ → Option Text
store_at [] i c = none
store_at (d ∷ buffer) zero c = some (c ∷ buffer)
store_at (d ∷ buffer) (suc i) c = elim (store_at buffer i c) [
  | none ↦ none
  | some buffer' ↦ some (d ∷ buffer')
]

-- `dest[length] = '\0'; return length`
unfoldable pub terminate : Text → ℕ → Option (Text × ℕ)
unfolding store_at
terminate dest length_ = elim (store_at dest length_ 0) [
  | none ↦ none
  | some dest' ↦ some (dest', length_)
]

-- The loop: while there is room for a NUL, `more` allows it, and the source has not ended.
unfoldable pub copy_from : (ℕ → Bool) → ℕ → Text → ℕ → Text → Option (Text × ℕ)
unfolding terminate
copy_from more room dest length_ [] = terminate dest length_
copy_from more room dest length_ (c ∷ source) =
    let next : Option (Text × ℕ) = elim (store_at dest length_ c) [
      | none ↦ none
      | some dest' ↦ copy_from more room dest' (length_ + 1) source
    ] in
    if ltb length_ room && more length_ then next else terminate dest length_

-- `dest_size - 1` in size_t
abbrev pub room_of : ℕ → ℕ
room_of dest_size = (dest_size + 2 ^ 64 - 1) % 2 ^ 64

unfoldable pub copy : Text → ℕ → Text → Option (Text × ℕ)
copy dest dest_size source = copy_from (λ _. true) (room_of dest_size) dest 0 source

unfoldable pub copy_count : Text → ℕ → Text → ℕ → Option (Text × ℕ)
copy_count dest dest_size source count =
    copy_from (λ n. ltb n count) (room_of dest_size) dest 0 source

store_at-append :
    (before after : Text) (d c : ℕ)
    → store_at (before ++ d ∷ after) (length before) c ≡ some (before ++ c ∷ after)
unfolding store_at
store_at-append [] after d c = refl
store_at-append (b ∷ before) after d c = ground (arith, store_at-append before after d c)

-- What `copy` leaves behind `before` when it copies `n` characters.
abbrev copied : Text → Text → ℕ → Text → Text
copied before source n free = before ++ (take n source ++ 0 ∷ drop (n + 1) free)

terminate_lem :
    (before : Text) (d : ℕ) (free : Text)
    → terminate (before ++ d ∷ free) (length before) ≡ some (before ++ 0 ∷ free, length before)
unfolding terminate
terminate_lem before d free = ground (arith, store_at-append before free d 0)

copy_from_stop :
    (more : ℕ → Bool) (room c : ℕ) (before source : Text) (d : ℕ) (free : Text)
    → (ltb (length before) room && more (length before)) ≡ false
    → copy_from more room (before ++ d ∷ free) (length before) (c ∷ source)
      ≡ some (before ++ 0 ∷ free, length before)
unfolding copy_from
copy_from_stop more room c before source d free stop = rw stop (terminate_lem before d free)

copy_from_next :
    (more : ℕ → Bool) (room c : ℕ) (before source : Text) (d : ℕ) (free : Text)
    → (ltb (length before) room && more (length before)) ≡ true
    → copy_from more room (before ++ d ∷ free) (length before) (c ∷ source)
      ≡ copy_from more room (before ++ c ∷ free) (length before + 1) source
unfolding copy_from
copy_from_next more room c before source d free go = ground (arith, store_at-append before free d c)

copied_next :
    (before source : Text) (c d m : ℕ) (free : Text)
    → copied (before ++ c ∷ []) source m free ≡ copied before (c ∷ source) (suc m) (d ∷ free)
copied_next before source c d m free =
    append_assoc before (c ∷ []) (take m source ++ 0 ∷ drop (m + 1) free)
    ∙ ap (λ r. before ++ (c ∷ take m source ++ 0 ∷ r))
        (drop_at (suc (m + 1)) (suc m + 1) (d ∷ free) (omega arith))

copy_from_lem :
    (more : ℕ → Bool) (room limit : ℕ)
    → ((n : ℕ) → (ltb n room && more n) ≡ ltb n limit)
    → (before free source : Text) (m : ℕ) → m ≡ min (length source) (limit - length before)
    → m < length free
    → copy_from more room (before ++ free) (length before) source
      ≡ some (copied before source m free, length before + m)
unfolding copy_from
copy_from_lem more room limit agree before [] source m is_min fits = absurd (omega arith)
copy_from_lem more room limit agree before (d ∷ free) [] zero is_min fits =
    ground (arith, terminate_lem before d free)
copy_from_lem more room limit agree before (d ∷ free) [] (suc m) is_min fits = absurd (omega arith)
copy_from_lem more room limit agree before (d ∷ free) (c ∷ source) zero is_min fits =
    copy_from_stop more room c before source d free (agree (length before) ∙ stopped (omega arith))
    ∙ ap (λ n. some (before ++ 0 ∷ free, n)) plus_zero
  where
    stopped : limit ≤ length before → ltb (length before) limit ≡ false
    stopped h = ground arith

    plus_zero : length before ≡ length before + 0
    plus_zero = omega arith
copy_from_lem more room limit agree before (d ∷ free) (c ∷ source) (suc m) is_min fits =
    copy_from_next more room c before source d free
      (agree (length before) ∙ lt→ltb (length before) limit (omega arith))
    ∙ (rw
        (
          append_assoc before (c ∷ []) free,
          length-append before (c ∷ []),
          copied_next before source c d m free,
          one_more,
        )
        at
        (copy_from_lem more room limit agree (before ++ c ∷ []) free source m
          (omega (arith, length-append before (c ∷ []))) (omega arith)))
  where
    one_more : length before + 1 + m ≡ length before + suc m
    one_more = omega arith

room_of_lem :
    (dest_size : ℕ) → 1 ≤ dest_size → dest_size < 2 ^ 64 → room_of dest_size ≡ dest_size - 1
room_of_lem dest_size pos small = omega arith

-- The loop from the start, with as many characters as the source, the room and `more` allow.
from_start :
    (more : ℕ → Bool) (room limit : ℕ)
    → ((n : ℕ) → (ltb n room && more n) ≡ ltb n limit)
    → (dest source : Text) (n : ℕ) → n ≡ min (length source) limit
    → n < length dest
    → copy_from more room dest 0 source ≡ some (take n source ++ 0 ∷ drop (n + 1) dest, n)
from_start more room limit agree dest source n is_min fits =
    copy_from_lem more room limit agree [] dest source n (omega arith) fits
    ∙ ap (λ k. some (take n source ++ 0 ∷ drop (n + 1) dest, k)) zero_plus
  where
    zero_plus : 0 + n ≡ n
    zero_plus = omega arith

module _ (dest source : Text) (dest_size : ℕ) (pos : 1 ≤ dest_size)
    (inside : dest_size ≤ length dest) (small : dest_size < 2 ^ 64) where
  -- With a destination of `dest_size` bytes, at least one, `copy` writes within them: as much of the
  -- source as fits before a NUL, and the NUL. It returns the number of characters copied.
  pub copy_lem :
      let n = min (length source) (dest_size - 1) in
      copy dest dest_size source ≡ some (take n source ++ 0 ∷ drop (n + 1) dest, n)
  unfolding copy
  copy_lem =
      ap (λ room. copy_from (λ _. true) room dest 0 source) (room_of_lem dest_size pos small)
      ∙ from_start (λ _. true) (dest_size - 1) (dest_size - 1) (λ n. ground arith) dest source _
          refl (omega arith)

  -- With a destination of `dest_size` bytes, at least one, and a count, it copies as much of the source
  -- as fits before a NUL, but at most `count` characters, then the NUL.
  pub copy_count_lem :
      (count : ℕ)
      → let n = min (length source) (min (dest_size - 1) count) in
        copy_count dest dest_size source count ≡ some (take n source ++ 0 ∷ drop (n + 1) dest, n)
  unfolding copy_count
  copy_count_lem count =
      ap (λ room. copy_from (λ n. ltb n count) room dest 0 source) (room_of_lem dest_size pos small)
      ∙ from_start (λ n. ltb n count) (dest_size - 1) (min (dest_size - 1) count)
          (λ n. ground arith) dest source _ refl (omega arith)
