-- ===== src/Strings/Token.antt =====
-- `splitToken`.
use dev_essential.Base.{
  ℕ, zero, suc, ◌+◌, ◌-◌, ◌≤◌, Bool, true, false, ◌||◌, none, some, List, [], ◌∷◌, length, min,
  take, drop, ltb, ◌≡◌, refl, sym, ap, ◌∙◌, arith, inl, inr, Option-cases, length-drop,
}
use dev_essential.Strings.{
  Text, starts_with, one_of, find_first, first_of, find, find_first_of, push_front_if, split_from,
  split, split_token_from, split_token,
}
use dev_essential.Strings.Find.{find_first-append}

first_of-one : (c : ℕ) (s : Text) → first_of (c ∷ []) s ≡ find_first (c ∷ []) s
unfolding first_of find_first starts_with one_of
first_of-one c [] = refl
first_of-one c (d ∷ s) = ground (arith, first_of-one c s)

take-length : (s : Text) → take (length s) s ≡ s
take-length [] = refl
take-length (c ∷ s) = ap (λ r. c ∷ r) (take-length s)

split_token_from-split_from :
    (fuel : ℕ) (str : Text) (c : ℕ) (keep : Bool) (begin : ℕ)
    → begin ≤ length str
    → split_token_from fuel str (c ∷ []) keep begin ≡ split_from fuel str (c ∷ []) keep begin
unfolding split_token_from split_from find find_first_of
split_token_from-split_from zero str c keep begin inside = refl
split_token_from-split_from (suc fuel) str c keep begin inside =
    elim (Option-cases (find_first (c ∷ []) (drop begin str))) [
      | inl nowhere ↦
          (let least : min begin (length str) ≡ begin = omega arith in
            let whole : take (length str - begin) (drop begin str) ≡ drop begin str =
              ap (λ n. take n (drop begin str)) (sym (length-drop begin str))
              ∙ take-length (drop begin str) in
            ground (arith, least, whole, first_of-one c (drop begin str)))
      | inr (k, at_k) ↦ ground (
        arith,
        first_of-one c (drop begin str),
        split_token_from-split_from fuel str c keep (begin + k + 1) (
            omega (
              arith,
              length-drop begin str,
              (find_first-append (c ∷ []) (drop begin str) k at_k).1,
            )),
      )
    ]

-- With one separator, `splitToken` does what `split` does.
pub split_token-split :
    (str : Text) (c : ℕ) (keep : Bool) → split_token str (c ∷ []) keep ≡ split str (c ∷ []) keep
unfolding split_token split
split_token-split str c keep =
    split_token_from-split_from (suc (length str)) str c keep 0 (omega arith)

-- No character of the text is one of the set.
abbrev pub FreeOf : Text → Text → Type 0
FreeOf set [] = Unit
FreeOf set (c ∷ s) = (one_of set c ≡ false) × FreeOf set s

abbrev pub AllFreeOf : Text → List Text → Type 0
AllFreeOf set [] = Unit
AllFreeOf set (x ∷ xs) = FreeOf set x × AllFreeOf set xs

take-FreeOf : (set s : Text) (k : ℕ) → first_of set s ≡ some k → FreeOf set (take k s)
unfolding first_of
take-FreeOf set [] k h = ground arith
take-FreeOf set (c ∷ s) zero h = tt
take-FreeOf set (c ∷ s) (suc k) h = ground (arith, take-FreeOf set s k)

first_of-none : (set s : Text) → first_of set s ≡ none → FreeOf set s
unfolding first_of
first_of-none set [] h = tt
first_of-none set (c ∷ s) h = ground (arith, first_of-none set s)

push_front_if-AllFreeOf :
    (set x : Text) (b : Bool) (xs : List Text)
    → FreeOf set x
    → AllFreeOf set xs
    → AllFreeOf set (push_front_if b x xs)
push_front_if-AllFreeOf set x true xs h hs = (h, hs)
push_front_if-AllFreeOf set x false xs h hs = hs

take-FreeOf_any : (set s : Text) (n : ℕ) → FreeOf set s → FreeOf set (take n s)
take-FreeOf_any set s zero h = tt
take-FreeOf_any set [] (suc n) h = tt
take-FreeOf_any set (c ∷ s) (suc n) h = (h.0, take-FreeOf_any set s n h.1)

token_none :
    (fuel : ℕ) (str set : Text) (keep : Bool) (begin : ℕ)
    → first_of set (drop begin str) ≡ none
    → split_token_from (suc fuel) str set keep begin
      ≡ push_front_if
          (ltb 0 (length str - min begin (length str)) || keep)
          (take (length str - min begin (length str)) (drop begin str))
          []
unfolding split_token_from find_first_of
token_none fuel str set keep begin nowhere = ground arith

token_some :
    (fuel : ℕ) (str set : Text) (keep : Bool) (begin k : ℕ)
    → first_of set (drop begin str) ≡ some k
    → split_token_from (suc fuel) str set keep begin
      ≡ push_front_if
          (ltb 0 k || keep)
          (take k (drop begin str))
          (split_token_from fuel str set keep (begin + k + 1))
unfolding split_token_from find_first_of
token_some fuel str set keep begin k at_k =
    let same : begin + k - begin ≡ k = omega arith in ground (arith, same)

token_zero :
    (str set : Text) (keep : Bool) (begin : ℕ) → split_token_from zero str set keep begin ≡ []
unfolding split_token_from
token_zero str set keep begin = refl

split_token_from-AllFreeOf :
    (fuel : ℕ) (str set : Text) (keep : Bool) (begin : ℕ)
    → AllFreeOf set (split_token_from fuel str set keep begin)
split_token_from-AllFreeOf zero str set keep begin = rw (token_zero str set keep begin) tt
split_token_from-AllFreeOf (suc fuel) str set keep begin =
    elim (Option-cases (first_of set (drop begin str))) [
      | inl nowhere ↦ rw (token_none fuel str set keep begin nowhere) (
          push_front_if-AllFreeOf set _ _ []
            (take-FreeOf_any set (drop begin str) _ (first_of-none set (drop begin str) nowhere))
            tt)
      | inr (k, at_k) ↦ rw (token_some fuel str set keep begin k at_k) (
          push_front_if-AllFreeOf set _ _ _ (take-FreeOf set (drop begin str) k at_k)
            (split_token_from-AllFreeOf fuel str set keep (begin + k + 1)))
    ]

-- No token that `splitToken` gives has a separator in it.
pub split_token-AllFreeOf :
    (str separators : Text) (keep : Bool) → AllFreeOf separators (split_token str separators keep)
unfolding split_token
split_token-AllFreeOf str separators keep =
    split_token_from-AllFreeOf (suc (length str)) str separators keep 0
