-- ===== src/Strings/Find.antt =====
-- What the searches find, and the loops of split and replace as recursions on the rest of the string.
use dev_essential.Base.{
  ℕ, zero, suc, ◌+◌, ◌-◌, ◌≤◌, Bool, true, ◌||◌, none, some, List, [], ◌∷◌, ◌++◌, length, take,
  drop, ltb, ◌≡◌, refl, sym, ap, ◌∙◌, arith, inl, inr, Option-cases, length-drop,
}
use dev_essential.Strings.{Text, starts_with, find_first, find, push_front_if, split_from}

pub starts_with-append :
    (p s : Text) → starts_with p s ≡ true → (s ≡ p ++ drop (length p) s) × (length p ≤ length s)
unfolding starts_with
starts_with-append [] s h = (refl, omega arith)
starts_with-append (c ∷ p) [] h = ground arith
starts_with-append (c ∷ p) (d ∷ s) h = ground (arith, starts_with-append p s)

pub drop-nil {ℓ} : {A : Type ℓ} (n : ℕ) → drop {A = A} n [] ≡ []
drop-nil zero = refl
drop-nil (suc n) = refl

pub drop_at {ℓ} : {A : Type ℓ} (m n : ℕ) (s : List A) → m ≡ n → drop m s ≡ drop n s
drop_at m n s e = ap (λ k. drop k s) e

pub drop-drop {ℓ} : {A : Type ℓ} (m n : ℕ) (s : List A) → drop m (drop n s) ≡ drop (n + m) s
drop-drop m zero s = drop_at m (0 + m) s (omega arith)
drop-drop m (suc n) [] = drop-nil m ∙ sym (drop-nil (suc n + m))
drop-drop m (suc n) (x ∷ s) =
    drop-drop m n s ∙ drop_at (suc (n + m)) (suc n + m) (x ∷ s) (omega arith)

drop-suc : (k n c : ℕ) (s : Text) → drop (suc k + n) (c ∷ s) ≡ drop (k + n) s
drop-suc k n c s = drop_at (suc k + n) (suc (k + n)) (c ∷ s) (omega arith)

drop_zero : (n : ℕ) (s : Text) → drop (0 + n) s ≡ drop n s
drop_zero n s = drop_at (0 + n) n s (omega arith)

-- What is found is there.
pub find_first-append :
    (p s : Text) (k : ℕ)
    → find_first p s ≡ some k
    → (s ≡ take k s ++ (p ++ drop (k + length p) s)) × (k + length p ≤ length s)
unfolding find_first starts_with
find_first-append [] [] zero h = (sym (drop-nil (0 + 0)), omega arith)
find_first-append [] [] (suc k) h = ground arith
find_first-append (d ∷ p) [] k h = ground arith
find_first-append p (c ∷ s) zero h =
    ground (arith, starts_with-append p (c ∷ s), drop_zero (length p) (c ∷ s))
find_first-append p (c ∷ s) (suc k) h =
    ground (arith, find_first-append p s k, drop-suc k (length p) c s)

-- The rest of the string decides what the loops do.
unfoldable pub split_rest : ℕ → Text → Text → Bool → List Text
split_rest zero rest separator keep_empty = []
split_rest (suc fuel) rest separator keep_empty = elim (find_first separator rest) [
  | none ↦ push_front_if (ltb 0 (length rest) || keep_empty) rest []
  | some k ↦
      push_front_if (ltb 0 k || keep_empty) (take k rest)
        (split_rest fuel (drop (k + length separator) rest) separator keep_empty)
]

pub split_from-rest :
    (fuel : ℕ) (str separator : Text) (keep : Bool) (begin : ℕ)
    → split_from fuel str separator keep begin ≡ split_rest fuel (drop begin str) separator keep
unfolding split_from split_rest find
split_from-rest zero str separator keep begin = refl
split_from-rest (suc fuel) str separator keep begin =
    elim (Option-cases (find_first separator (drop begin str))) [
      | inl nowhere ↦ ground (arith, length-drop begin str)
      | inr (k, at_k) ↦ ground (
        arith,
        same k,
        split_from-rest fuel str separator keep (begin + k + length separator),
        further k,
      )
    ]
  where
    same : (k : ℕ) → begin + k - begin ≡ k
    same k = omega arith

    further :
        (k : ℕ)
        → drop (begin + k + length separator) str ≡ drop (k + length separator) (drop begin str)
    further k =
        drop_at (begin + k + length separator) (begin + (k + length separator)) str (omega arith)
        ∙ sym (drop-drop (k + length separator) begin str)

pub split_rest-none :
    (fuel : ℕ) (rest separator : Text) (keep : Bool)
    → find_first separator rest ≡ none
    → split_rest (suc fuel) rest separator keep
      ≡ push_front_if (ltb 0 (length rest) || keep) rest []
unfolding split_rest
split_rest-none fuel rest separator keep nowhere = ground arith

pub split_rest-some :
    (fuel : ℕ) (rest separator : Text) (keep : Bool) (k : ℕ)
    → find_first separator rest ≡ some k
    → split_rest (suc fuel) rest separator keep
      ≡ push_front_if
          (ltb 0 k || keep)
          (take k rest)
          (split_rest fuel (drop (k + length separator) rest) separator keep)
unfolding split_rest
split_rest-some fuel rest separator keep k at_k = ground arith

pub split_rest-zero :
    (rest separator : Text) (keep : Bool) → split_rest zero rest separator keep ≡ []
unfolding split_rest
split_rest-zero rest separator keep = refl
