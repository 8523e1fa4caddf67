-- ===== src/Strings/Split.antt =====
-- `split`, `join` and `replace`.
use dev_essential.Base.{
  ℕ, zero, suc, ◌+◌, ◌≤◌, ◌<◌, Bool, true, false, ◌||◌, some, List, [], ◌∷◌, ◌++◌, length, take,
  drop, ltb, if◌then◌else◌, ◌≡◌, refl, sym, ap, ◌∙◌, arith, inl, inr, Option-cases, length-drop,
}
use mathlib.Core.List.{append_assoc, append-nil}
use dev_essential.Strings.{Text, is_empty, find_first, push_front_if, split, join_from, join}
use dev_essential.Strings.Find.{
  find_first-append, split_rest, split_from-rest, split_rest-none, split_rest-some, split_rest-zero,
}

-- The strings with the delimiter before each.
unfoldable pub each_after : Text → List Text → Text
each_after delimiter [] = []
each_after delimiter (x ∷ xs) = delimiter ++ (x ++ each_after delimiter xs)

unfoldable pub joined : Text → List Text → Text
joined delimiter [] = []
joined delimiter (x ∷ xs) = x ++ each_after delimiter xs

join_from-rest :
    (str delimiter : Text) (xs : List Text)
    → join_from str false xs delimiter ≡ str ++ each_after delimiter xs
unfolding join_from each_after
join_from-rest str delimiter [] = simp append-nil
join_from-rest str delimiter (x ∷ xs) =
    join_from-rest ((str ++ delimiter) ++ x) delimiter xs ∙ simp append_assoc

pub join-joined : (xs : List Text) (delimiter : Text) → join xs delimiter ≡ joined delimiter xs
unfolding join join_from joined
join-joined [] delimiter = refl
join-joined (x ∷ xs) delimiter = join_from-rest x delimiter xs

-- What is left after a separator is shorter.
pub rest_shorter :
    (rest separator : Text) (k : ℕ)
    → is_empty separator ≡ false
    → find_first separator rest ≡ some k
    → length (drop (k + length separator) rest) < length rest
rest_shorter rest [] k nonempty at_k = ground arith
rest_shorter rest (c ∷ separator) k nonempty at_k = omega (
  arith,
  length-drop (k + length (c ∷ separator)) rest,
  (find_first-append (c ∷ separator) rest k at_k).1,
)

pub or_true : (b : Bool) → (b || true) ≡ true
or_true true = refl
or_true false = refl

each_after-split_rest :
    (fuel : ℕ) (rest separator : Text)
    → length rest < fuel
    → is_empty separator ≡ false
    → each_after separator (split_rest fuel rest separator true) ≡ separator ++ rest
unfolding each_after
each_after-split_rest zero rest separator enough nonempty = absurd (omega arith)
each_after-split_rest (suc fuel) rest separator enough nonempty =
    elim (Option-cases (find_first separator rest)) [
      | inl nowhere ↦
          rw (split_rest-none fuel rest separator true nowhere, or_true (ltb 0 (length rest)))
            (simp append-nil)
      | inr (k, at_k) ↦
          rw
            (
              split_rest-some fuel rest separator true k at_k,
              or_true (ltb 0 k),
              each_after-split_rest fuel (drop (k + length separator) rest) separator
                  (omega (arith, rest_shorter rest separator k nonempty at_k)) nonempty,
            )
            (ap (λ s. separator ++ s) (sym (find_first-append separator rest k at_k).0))
    ]

-- A round yields a first part.
pub split_rest-first :
    (fuel : ℕ) (rest separator : Text)
    → (x : Text) × (xs : List Text) × (split_rest (suc fuel) rest separator true ≡ x ∷ xs)
split_rest-first fuel rest separator = elim (Option-cases (find_first separator rest)) [
  | inl nowhere ↦ (
    rest,
    [],
    split_rest-none fuel rest separator true nowhere
        ∙ ap (λ b. push_front_if b rest []) (or_true (ltb 0 (length rest))),
  )
  | inr (k, at_k) ↦ (
    take k rest,
    split_rest fuel (drop (k + length separator) rest) separator true,
    split_rest-some fuel rest separator true k at_k
        ∙ ap
            (λ b.
              push_front_if b (take k rest)
                (split_rest fuel (drop (k + length separator) rest) separator true))
            (or_true (ltb 0 k)),
  )
]

append_cancel : (s t u : Text) → s ++ t ≡ s ++ u → t ≡ u
append_cancel [] t u e = e
append_cancel (c ∷ s) t u e = append_cancel s t u (cc)

pub split-rest :
    (str separator : Text) (keep : Bool)
    → is_empty separator ≡ false
    → split str separator keep ≡ split_rest (suc (length str)) str separator keep
unfolding split
split-rest str separator keep nonempty =
    rw nonempty (split_from-rest (suc (length str)) str separator keep 0)

-- Joining all parts of a string, the empty ones too, with the separator gives the string, where the
-- separator is not empty.
pub join-split :
    (str separator : Text)
    → is_empty separator ≡ false
    → join (split str separator true) separator ≡ str
unfolding joined each_after
join-split str separator nonempty =
    let (x, xs, parts) = split_rest-first (length str) str separator in
    let whole = each_after-split_rest (suc (length str)) str separator (omega arith) nonempty in
    rw (split-rest str separator true nonempty, join-joined, parts)
      (append_cancel separator (x ++ each_after separator xs) str
        (sym (ap (each_after separator) parts) ∙ whole))

-- The strings that are not empty.
unfoldable pub non_empty : List Text → List Text
non_empty [] = []
non_empty (x ∷ xs) = if is_empty x then non_empty xs else x ∷ non_empty xs

is_empty-take :
    (k : ℕ) (s : Text) → k ≤ length s → is_empty (take k s) ≡ (if ltb 0 k then false else true)
is_empty-take zero s h = refl
is_empty-take (suc k) [] h = absurd (omega arith)
is_empty-take (suc k) (c ∷ s) h = ground arith

push_front_if-non_empty :
    (k : ℕ) (s : Text) (xs ys : List Text)
    → k ≤ length s
    → xs ≡ non_empty ys
    → push_front_if (ltb 0 k || false) (take k s) xs
      ≡ non_empty (push_front_if (ltb 0 k || true) (take k s) ys)
unfolding non_empty
push_front_if-non_empty k s xs ys h e = ground (arith, is_empty-take k s h)

is_empty-length : (s : Text) → is_empty s ≡ (if ltb 0 (length s) then false else true)
is_empty-length [] = refl
is_empty-length (c ∷ s) = ground arith

split_rest-non_empty :
    (fuel : ℕ) (rest separator : Text)
    → split_rest fuel rest separator false ≡ non_empty (split_rest fuel rest separator true)
unfolding non_empty
split_rest-non_empty zero rest separator =
    split_rest-zero rest separator false ∙ ap non_empty (sym (split_rest-zero rest separator true))
split_rest-non_empty (suc fuel) rest separator = elim (Option-cases (find_first separator rest)) [
  | inl nowhere ↦
      rw
        (
          split_rest-none fuel rest separator true nowhere,
          split_rest-none fuel rest separator false nowhere,
        )
        (ground (arith, is_empty-length rest))
  | inr (k, at_k) ↦
      rw
        (
          split_rest-some fuel rest separator true k at_k,
          split_rest-some fuel rest separator false k at_k,
        )
        (push_front_if-non_empty k rest _ _
          (omega (arith, (find_first-append separator rest k at_k).1))
          (split_rest-non_empty fuel (drop (k + length separator) rest) separator))
]

-- Without the empty parts, `split` gives the parts that are not empty.
pub split-non_empty :
    (str separator : Text) → split str separator false ≡ non_empty (split str separator true)
unfolding split non_empty
split-non_empty str [] = refl
split-non_empty str (c ∷ separator) =
    split-rest str (c ∷ separator) false refl
    ∙ split_rest-non_empty (suc (length str)) str (c ∷ separator)
    ∙ ap non_empty (sym (split-rest str (c ∷ separator) true refl))
