-- ===== src/Serializer/PutBack.antt =====
-- The last step of `writeSignal`: the bytes that go back into the buffer.
use native.Mathlib.Nat.{mod-lt, mod-eq_of_lt, div-div-eq-div-mul}
use dev_essential.Base.{
  ℕ, ◌+◌, ◌*◌, ◌/◌, ◌%◌, ◌^◌, ◌≤◌, ◌<◌, min, ◌≡◌, ◌∙◌, arith, ltb, true, false, length, ltb→lt,
  Bool-cases, inl, inr,
}
use dev_essential.Bits.Powers.{pow_pos, pow_sum, fields-lt, mod-fields, div-fields}
use dev_essential.Serializer.{Bytes, put_back, load, store, overwrite}
use dev_essential.Serializer.Words.{
  IsBytes, load-overwrite, load-store, length-store, length-overwrite, overwrite-IsBytes,
  store-IsBytes,
}

-- A word of `k` bytes written at byte `off`.
module _ (off k word : ℕ) (buffer : Bytes) (fits : off + k ≤ length buffer) where
  room_for_store : off + length (store k word) ≤ length buffer
  room_for_store = rw (length-store k word) fits

  load-overwrite-store :
      IsBytes buffer
      → word < 2 ^ (8 * k)
      → load (overwrite off (store k word) buffer)
        ≡ load buffer % 2 ^ (8 * off)
          + 2 ^ (8 * off) * (word + 2 ^ (8 * k) * (load buffer / 2 ^ (8 * off) / 2 ^ (8 * k)))
  load-overwrite-store h small =
      load-overwrite off (store k word) buffer room_for_store h
      ∙ rw (length-store k word, load-store k word, mod-eq_of_lt small)

  overwrite-store-IsBytes : IsBytes buffer → IsBytes (overwrite off (store k word) buffer)
  overwrite-store-IsBytes =
      overwrite-IsBytes off (store k word) buffer room_for_store (store-IsBytes k word)

  length-overwrite-store : length (overwrite off (store k word) buffer) ≡ length buffer
  length-overwrite-store = length-overwrite off (store k word) buffer room_for_store

-- The number after a write of eight bytes and then of one behind them, at a weight `a`.
two_writes :
    (a lo word x ninth y : ℕ)
    → lo < a
    → word < 2 ^ 64
    → y ≡ lo + a * (word + 2 ^ 64 * (x / 2 ^ 64))
    → y % (a * 2 ^ 64) + a * 2 ^ 64 * (ninth + 2 ^ 8 * (y / (a * 2 ^ 64) / 2 ^ 8))
      ≡ lo + a * (word + 2 ^ 64 * ninth + 2 ^ 72 * (x / 2 ^ 72))
two_writes a lo word x ninth y hl hw e =
    rw
      (
        regroup,
        mod-fields (a * 2 ^ 64) (lo + a * word) (x / 2 ^ 64) (fields-lt a (2 ^ 64) lo word hl hw),
        div-fields (a * 2 ^ 64) (lo + a * word) (x / 2 ^ 64) (fields-lt a (2 ^ 64) lo word hl hw),
        div-div-eq-div-mul x (2 ^ 64) (2 ^ 8),
      )
      (omega arith)
  where
    regroup : y ≡ lo + a * word + a * 2 ^ 64 * (x / 2 ^ 64)
    regroup = omega arith

module _ (buffer : Bytes) (off bytes word ninth : ℕ) (h : IsBytes buffer) where
  -- Up to eight bytes are one write.
  pub put_back_short :
      bytes ≤ 8
      → off + bytes ≤ length buffer
      → word < 2 ^ (8 * bytes)
      → load (put_back buffer off bytes word ninth)
        ≡ load buffer % 2 ^ (8 * off)
          + 2 ^ (8 * off)
            * (word + 2 ^ (8 * bytes) * (load buffer / 2 ^ (8 * off) / 2 ^ (8 * bytes)))
  unfolding put_back
  put_back_short short fits small =
      rw (one_write, least) (load-overwrite-store off bytes word buffer fits h small)
    where
      one_write : ltb 8 bytes ≡ false
      one_write = ground arith

      least : min bytes 8 ≡ bytes
      least = omega arith

  -- Nine bytes are a write of eight and one of the last.
  pub put_back_nine :
      bytes ≡ 9
      → off + 9 ≤ length buffer
      → word < 2 ^ 64
      → ninth < 256
      → load (put_back buffer off bytes word ninth)
        ≡ load buffer % 2 ^ (8 * off)
          + 2 ^ (8 * off)
            * (word + 2 ^ 64 * ninth + 2 ^ 72 * (load buffer / 2 ^ (8 * off) / 2 ^ 72))
  unfolding put_back
  put_back_nine nine fits small small' =
      rw (nine, load-overwrite-store (off + 8) 1 ninth _ room bytes_first small', weight)
        (two_writes (2 ^ (8 * off)) _ word (load buffer / 2 ^ (8 * off)) ninth _
          (mod-lt (load buffer) (pow_pos (8 * off))) small
          (load-overwrite-store off 8 word buffer (omega arith) h small))
    where
      bytes_first : IsBytes (overwrite off (store 8 word) buffer)
      bytes_first = overwrite-store-IsBytes off 8 word buffer (omega arith) h

      room : off + 8 + 1 ≤ length (overwrite off (store 8 word) buffer)
      room = omega (arith, length-overwrite-store off 8 word buffer (omega arith))

      weight : 2 ^ (8 * (off + 8)) ≡ 2 ^ (8 * off) * 2 ^ 64
      weight = pow_sum (8 * off) 64 (8 * (off + 8)) (omega arith)

-- Whatever is written, the buffer keeps its size and holds bytes.
module _ (buffer : Bytes) (off bytes word ninth : ℕ) (hb : bytes ≤ 9)
    (fits : off + bytes ≤ length buffer) where
  pub length-put_back : length (put_back buffer off bytes word ninth) ≡ length buffer
  unfolding put_back
  length-put_back = elim (Bool-cases (ltb 8 bytes)) [
    | inl nine ↦ rw nine (length-overwrite-store (off + 8) 1 ninth _ (room nine) ∙ first)
    | inr short ↦ rw short first
  ]
    where
      first : length (overwrite off (store (min bytes 8) word) buffer) ≡ length buffer
      first = length-overwrite-store off (min bytes 8) word buffer (omega arith)

      room :
          ltb 8 bytes ≡ true
          → off + 8 + 1 ≤ length (overwrite off (store (min bytes 8) word) buffer)
      room nine = omega (arith, first, ltb→lt 8 bytes nine)

  pub put_back-IsBytes : IsBytes buffer → IsBytes (put_back buffer off bytes word ninth)
  unfolding put_back
  put_back-IsBytes h = elim (Bool-cases (ltb 8 bytes)) [
    | inl nine ↦ rw nine (overwrite-store-IsBytes (off + 8) 1 ninth _ (room nine) first)
    | inr short ↦ rw short first
  ]
    where
      first : IsBytes (overwrite off (store (min bytes 8) word) buffer)
      first = overwrite-store-IsBytes off (min bytes 8) word buffer (omega arith) h

      room :
          ltb 8 bytes ≡ true
          → off + 8 + 1 ≤ length (overwrite off (store (min bytes 8) word) buffer)
      room nine = omega (
        arith,
        length-overwrite-store off (min bytes 8) word buffer (omega arith),
        ltb→lt 8 bytes nine,
      )
