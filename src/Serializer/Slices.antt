-- ===== src/Serializer/Slices.antt =====
-- `memcpy` into a buffer, seen by a `memcpy` out of it.
use dev_essential.Base.{
  ℕ, zero, suc, ◌+◌, ◌-◌, ◌≤◌, ◌≡◌, refl, sym, ap, ◌∙◌, arith, [], ◌∷◌, ◌++◌, length, take, drop,
  take-append-drop, length-take,
}
use dev_essential.Serializer.{Bytes, slice, overwrite}

slice-append_within : (o n : ℕ) (s t : Bytes) → o + n ≤ length s → slice o n (s ++ t) ≡ slice o n s
unfolding slice
slice-append_within zero zero s t h = refl
slice-append_within zero (suc n) [] t h = absurd (omega arith)
slice-append_within zero (suc n) (b ∷ s) t h =
    ap (λ r. b ∷ r) (slice-append_within zero n s t (omega arith))
slice-append_within (suc o) zero [] t h = absurd (omega arith)
slice-append_within (suc o) (suc n) [] t h = absurd (omega arith)
slice-append_within (suc o) n (b ∷ s) t h = slice-append_within o n s t (omega arith)

drop-append_behind : (o k : ℕ) (s t : Bytes) → o ≡ length s + k → drop o (s ++ t) ≡ drop k t
drop-append_behind o k [] t e = ap (λ m. drop m t) same
  where
    same : o ≡ k
    same = omega arith
drop-append_behind zero k (b ∷ s) t e = absurd (omega arith)
drop-append_behind (suc o) k (b ∷ s) t e = drop-append_behind o k s t (omega arith)

take-append_all : (s t : Bytes) → take (length s) (s ++ t) ≡ s
take-append_all [] t = refl
take-append_all (b ∷ s) t = ap (λ r. b ∷ r) (take-append_all s t)

pub length-slice : (n : ℕ) (value : Bytes) → n ≤ length value → length (slice 0 n value) ≡ n
unfolding slice
length-slice n value h = omega (arith, length-take n value)

pub slice_start : (n : ℕ) (value : Bytes) → slice 0 n value ≡ take n value
unfolding slice
slice_start n value = refl

module _ (off : ℕ) (xs buffer : Bytes) (fits : off + length xs ≤ length buffer) where
  length-front : length (take off buffer) ≡ off
  length-front = omega (arith, length-take off buffer)

  pub slice-overwrite : slice off (length xs) (overwrite off xs buffer) ≡ xs
  unfolding slice overwrite
  slice-overwrite =
      ap (take (length xs)) (
        drop-append_behind off 0 (take off buffer) (xs ++ drop (off + length xs) buffer)
          (omega (arith, length-front)))
      ∙ take-append_all xs (drop (off + length xs) buffer)

  pub slice-overwrite_below :
      (o n : ℕ) → o + n ≤ off → slice o n (overwrite off xs buffer) ≡ slice o n buffer
  unfolding overwrite
  slice-overwrite_below o n h =
      slice-append_within o n (take off buffer) (xs ++ drop (off + length xs) buffer)
        (omega (arith, length-front))
      ∙ sym (
          slice-append_within o n (take off buffer) (drop off buffer) (omega (arith, length-front)))
      ∙ ap (slice o n) (take-append-drop off buffer)

  pub slice-overwrite_above :
      (o n : ℕ) → off + length xs ≤ o → slice o n (overwrite off xs buffer) ≡ slice o n buffer
  unfolding overwrite slice
  slice-overwrite_above o n h = ap (take n) (
      drop-append_behind o (o - off) (take off buffer) (xs ++ rest) (omega (arith, length-front))
      ∙ drop-append_behind (o - off) (o - end) xs rest (omega arith)
      ∙ sym (
          drop-append_behind o (o - end) (take end buffer) rest
            (omega (arith, length-take end buffer)))
      ∙ ap (drop o) (take-append-drop end buffer))
    where
      end : ℕ
      end = off + length xs

      rest : Bytes
      rest = drop end buffer
