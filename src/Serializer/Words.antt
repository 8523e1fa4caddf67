-- ===== src/Serializer/Words.antt =====
-- Words and buffers as numbers: what `load`, `store`, `slice` and `overwrite` do to the bits.
use native.Mathlib.Nat.{mod-lt, mul-suc, add_comm, div-div-eq-div-mul, zero-div, zero-mod, mul-add}
use dev_essential.Base.{
  ℕ, zero, suc, ◌+◌, ◌*◌, ◌/◌, ◌%◌, ◌^◌, ◌≤◌, ◌<◌, ◌≡◌, refl, sym, ap, ◌∙◌, arith, [], ◌∷◌, ◌++◌,
  take, drop, length, length-append, length-take, length-drop,
}
use dev_essential.Bits.Powers.{pow_pos, pow-add, div-fields, mod-fields, mod-mul}
use dev_essential.Serializer.{Bytes, load, store, slice, overwrite}

abbrev pub IsBytes : Bytes → Type 0
IsBytes [] = Unit {0}
IsBytes (b ∷ bs) = (b < 256) × IsBytes bs

-- 2 ^ (8 * n) is the weight of byte `n`.
byte_weight-suc : (n : ℕ) → 2 ^ (8 * suc n) ≡ 256 * 2 ^ (8 * n)
byte_weight-suc n = rw (mul-suc 8 n, add_comm (8 * n) 8) (pow-add 8 (8 * n))

pub load-append : (xs ys : Bytes) → load (xs ++ ys) ≡ load xs + 2 ^ (8 * length xs) * load ys
unfolding load
load-append [] ys = omega arith
load-append (x ∷ xs) ys = omega (
  arith,
  load-append xs ys,
  byte_weight-suc (length xs),
  ap (λ (t : ℕ). t * load ys) (byte_weight-suc (length xs)),
)

pub load-drop : (n : ℕ) (bs : Bytes) → IsBytes bs → load (drop n bs) ≡ load bs / 2 ^ (8 * n)
unfolding load
load-drop zero bs h = omega arith
load-drop (suc n) [] h = sym (zero-div _)
load-drop (suc n) (b ∷ bs) (hb, h) =
    rw (byte_weight-suc n, ← div-div-eq-div-mul, div-fields 256 b (load bs) hb) (load-drop n bs h)

pub load-take : (n : ℕ) (bs : Bytes) → IsBytes bs → load (take n bs) ≡ load bs % 2 ^ (8 * n)
unfolding load
load-take zero bs h = omega arith
load-take (suc n) [] h = sym (zero-mod _)
load-take (suc n) (b ∷ bs) (hb, h) =
    rw
      (
        byte_weight-suc n,
        mod-mul (b + 256 * load bs) 256 (2 ^ (8 * n)) (omega arith) (pow_pos (8 * n)),
        mod-fields 256 b (load bs) hb,
        div-fields 256 b (load bs) hb,
      )
      (ap (λ (t : ℕ). b + 256 * t) (load-take n bs h))

pub load-store : (n v : ℕ) → load (store n v) ≡ v % 2 ^ (8 * n)
unfolding load store
load-store zero v = omega arith
load-store (suc n) v =
    rw (byte_weight-suc n, mod-mul v 256 (2 ^ (8 * n)) (omega arith) (pow_pos (8 * n)))
      (ap (λ (t : ℕ). v % 256 + 256 * t) (load-store n (v / 256)))

pub length-store : (n v : ℕ) → length (store n v) ≡ n
unfolding store
length-store zero v = refl
length-store (suc n) v = ap suc (length-store n (v / 256))

pub store-IsBytes : (n v : ℕ) → IsBytes (store n v)
unfolding store
store-IsBytes zero v = tt
store-IsBytes (suc n) v = (mod-lt v (omega arith), store-IsBytes n (v / 256))

IsBytes-append : (xs ys : Bytes) → IsBytes xs → IsBytes ys → IsBytes (xs ++ ys)
IsBytes-append [] ys hx hy = hy
IsBytes-append (x ∷ xs) ys (h, hx) hy = (h, IsBytes-append xs ys hx hy)

IsBytes-take : (n : ℕ) (bs : Bytes) → IsBytes bs → IsBytes (take n bs)
IsBytes-take zero bs h = tt
IsBytes-take (suc n) [] h = tt
IsBytes-take (suc n) (b ∷ bs) (hb, h) = (hb, IsBytes-take n bs h)

pub IsBytes-drop : (n : ℕ) (bs : Bytes) → IsBytes bs → IsBytes (drop n bs)
IsBytes-drop zero bs h = h
IsBytes-drop (suc n) [] h = tt
IsBytes-drop (suc n) (b ∷ bs) (hb, h) = IsBytes-drop n bs h

pub load-lt : (bs : Bytes) → IsBytes bs → load bs < 2 ^ (8 * length bs)
unfolding load
load-lt [] h = omega arith
load-lt (b ∷ bs) (hb, h) = omega (arith, load-lt bs h, byte_weight-suc (length bs))

pub load-slice :
    (off n : ℕ) (bs : Bytes)
    → IsBytes bs
    → load (slice off n bs) ≡ load bs / 2 ^ (8 * off) % 2 ^ (8 * n)
unfolding slice
load-slice off n bs h =
    load-take n (drop off bs) (IsBytes-drop off bs h)
    ∙ ap (λ (t : ℕ). t % 2 ^ (8 * n)) (load-drop off bs h)

module _ (off : ℕ) (new bs : Bytes) (fits : off + length new ≤ length bs) where
  pub length-overwrite : length (overwrite off new bs) ≡ length bs
  unfolding overwrite
  length-overwrite = omega (
    arith,
    length-append (take off bs) (new ++ drop (off + length new) bs),
    length-append new (drop (off + length new) bs),
    length-take off bs,
    length-drop (off + length new) bs,
  )

  pub overwrite-IsBytes : IsBytes new → IsBytes bs → IsBytes (overwrite off new bs)
  unfolding overwrite
  overwrite-IsBytes hn h =
      IsBytes-append _ _ (IsBytes-take off bs h)
        (IsBytes-append _ _ hn (IsBytes-drop (off + length new) bs h))

  -- The bits below and above the bytes that are written stay.
  pub load-overwrite :
      IsBytes bs
      → load (overwrite off new bs)
        ≡ load bs % 2 ^ (8 * off)
          + 2 ^ (8 * off)
            * (load new + 2 ^ (8 * length new) * (load bs / 2 ^ (8 * off) / 2 ^ (8 * length new)))
  unfolding overwrite
  load-overwrite h =
      load-append (take off bs) _
      ∙ rw (load-append new, before, load-take off bs h, load-drop (off + length new) bs h, weight)
          (rw (← div-div-eq-div-mul))
    where
      before : length (take off bs) ≡ off
      before = omega (arith, length-take off bs)

      weight : 2 ^ (8 * (off + length new)) ≡ 2 ^ (8 * off) * 2 ^ (8 * length new)
      weight = rw mul-add (pow-add (8 * off) (8 * length new))
