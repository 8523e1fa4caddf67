-- ===== src/Strings/Replace.antt =====
-- `replace` as a split and a join.
use dev_essential.Base.{
  ℕ, zero, suc, ◌+◌, ◌≤◌, ◌<◌, true, false, none, some, [], ◌∷◌, ◌++◌, length, take, drop, ltb, ◌≡◌,
  refl, sym, ap, ◌∙◌, arith, inl, inr, Option-cases, length-drop, length-append, length-take,
  take-append-drop,
}
use mathlib.Core.List.{append_assoc, append-nil}
use dev_essential.Strings.{Text, is_empty, find_first, find, split, join, replace_from, replace}
use dev_essential.Strings.Find.{
  find_first-append, split_rest, split_rest-none, split_rest-some, drop-drop, drop_at,
}
use dev_essential.Strings.Split.{
  each_after, joined, join-joined, split_rest-first, split-rest, rest_shorter, or_true,
}

take-append_self : (s t : Text) → take (length s) (s ++ t) ≡ s
take-append_self [] t = refl
take-append_self (c ∷ s) t = ap (λ r. c ∷ r) (take-append_self s t)

drop-append_self : (s t : Text) → drop (length s) (s ++ t) ≡ t
drop-append_self [] t = refl
drop-append_self (c ∷ s) t = drop-append_self s t

take_at : (m n : ℕ) (s : Text) → m ≡ n → take m s ≡ take n s
take_at m n s e = ap (λ k. take k s) e

take-nil : (n : ℕ) → take {A = ℕ} n [] ≡ []
take-nil zero = refl
take-nil (suc n) = refl

take-take-drop : (m n : ℕ) (s : Text) → take m s ++ take n (drop m s) ≡ take (m + n) s
take-take-drop zero n s = take_at n (0 + n) s (omega arith)
take-take-drop (suc m) n [] = take-nil n ∙ sym (take-nil (suc m + n))
take-take-drop (suc m) n (c ∷ s) =
    ap (λ r. c ∷ r) (take-take-drop m n s) ∙ take_at (suc (m + n)) (suc m + n) (c ∷ s) (omega arith)

each_after-joined :
    (delimiter : Text) (fuel : ℕ) (rest separator : Text)
    → 0 < fuel
    → each_after delimiter (split_rest fuel rest separator true)
      ≡ delimiter ++ joined delimiter (split_rest fuel rest separator true)
unfolding each_after joined
each_after-joined delimiter zero rest separator pos = absurd (omega arith)
each_after-joined delimiter (suc fuel) rest separator pos =
    let (x, xs, parts) = split_rest-first fuel rest separator in rw parts

replace_none :
    (fuel : ℕ) (str subject replacement : Text) (pos : ℕ)
    → find_first subject (drop pos str) ≡ none
    → replace_from (suc fuel) str subject replacement pos ≡ str
unfolding replace_from find
replace_none fuel str subject replacement pos nowhere = ground arith

replace_some :
    (fuel : ℕ) (str subject replacement : Text) (pos k : ℕ)
    → find_first subject (drop pos str) ≡ some k
    → replace_from (suc fuel) str subject replacement pos
      ≡ replace_from fuel
          (take (pos + k) str ++ replacement ++ drop (pos + k + length subject) str)
          subject
          replacement
          (pos + k + length replacement)
unfolding replace_from find
replace_some fuel str subject replacement pos k at_k = ground arith

-- The state behind one round: all before `pos'` is done, and `rest'` is left.
module _ (str subject replacement : Text) (pos k : ℕ) where
  front : Text
  front = take (pos + k) str ++ replacement

  rest' : Text
  rest' = drop (pos + k + length subject) str

  length-front : pos + k ≤ length str → length front ≡ pos + k + length replacement
  unfolding front
  length-front inside =
      omega (arith, length-append (take (pos + k) str) replacement, length-take (pos + k) str)

  rest'-drop : rest' ≡ drop (k + length subject) (drop pos str)
  unfolding rest'
  rest'-drop =
      drop_at (pos + k + length subject) (pos + (k + length subject)) str (omega arith)
      ∙ sym (drop-drop (k + length subject) pos str)

  rearranged :
      (s : Text) → front ++ s ≡ take pos str ++ (take k (drop pos str) ++ (replacement ++ s))
  unfolding front
  rearranged s = rw (sym (take-take-drop pos k str)) (simp append_assoc)

replace_from-joined :
    (fuel : ℕ) (str subject replacement : Text) (pos : ℕ)
    → is_empty subject ≡ false
    → pos ≤ length str
    → length str < fuel + pos
    → replace_from fuel str subject replacement pos
      ≡ take pos str ++ joined replacement (split_rest fuel (drop pos str) subject true)
unfolding joined front rest' each_after
replace_from-joined zero str subject replacement pos nonempty inside enough = absurd (omega arith)
replace_from-joined (suc fuel) str subject replacement pos nonempty inside enough =
    elim (Option-cases (find_first subject (drop pos str))) [
      | inl nowhere ↦
          rw
            (
              replace_none fuel str subject replacement pos nowhere,
              split_rest-none fuel (drop pos str) subject true nowhere,
              or_true (ltb 0 (length (drop pos str))),
              append-nil,
            )
            (sym (take-append-drop pos str))
      | inr (k, at_k) ↦
          (let left : Text = rest' str subject replacement pos k in
            let done : Text = front str subject replacement pos k in
            let found = (find_first-append subject (drop pos str) k at_k).1 in
            let shorter = rest_shorter (drop pos str) subject k nonempty at_k in
            let long : length done ≡ pos + k + length replacement =
              length-front str subject replacement pos k
                (omega (arith, found, length-drop pos str)) in
            let left_at : length left ≡ length (drop (k + length subject) (drop pos str)) =
              ap length (rest'-drop str subject replacement pos k) in
            let small : length left < fuel = omega (arith, shorter, left_at, length-drop pos str) in
            let again =
              replace_from-joined fuel (done ++ left) subject replacement
                (pos + k + length replacement) nonempty
                (omega (arith, long, length-append done left))
                (omega (arith, long, small, length-append done left)) in
            let taken : take (pos + k + length replacement) (done ++ left) ≡ done =
              take_at _ _ (done ++ left) (sym long) ∙ take-append_self done left in
            let dropped : drop (pos + k + length replacement) (done ++ left) ≡ left =
              drop_at _ _ (done ++ left) (sym long) ∙ drop-append_self done left in
            replace_some fuel str subject replacement pos k at_k
            ∙ again
            ∙ rw
                (
                  taken,
                  dropped,
                  split_rest-some fuel (drop pos str) subject true k at_k,
                  or_true (ltb 0 k),
                  sym (rest'-drop str subject replacement pos k),
                  each_after-joined replacement fuel left subject (omega (arith, small)),
                )
                (rearranged str subject replacement pos k
                  (joined replacement (split_rest fuel left subject true))))
    ]

-- Replacing is splitting at the subject and joining with the replacement, where the subject is not
-- empty.
pub replace-join :
    (str subject replacement : Text)
    → is_empty subject ≡ false
    → replace str subject replacement ≡ join (split str subject true) replacement
unfolding replace
replace-join str subject replacement nonempty =
    rw (nonempty, split-rest str subject true nonempty, join-joined)
      (replace_from-joined (suc (length str)) str subject replacement 0 nonempty (omega arith)
        (omega arith))
