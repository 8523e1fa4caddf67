-- ===== src/Path/Search.antt =====
-- src/filesystem/path.cpp: where a character stands last.
use dev_essential.Base.{
  ℕ, suc, ◌<◌, ◌≡◌, refl, sym, ap, ◌∙◌, arith, true, false, none, some, [], ◌∷◌, ◌++◌, take, drop,
  length, ◌==◌, ==_iff, Bool-cases, Option-cases, inl, inr,
}
use mathlib.Core.Path.{subst}
use mathlib.Core.Option.{none-ne-some, some-injective}
use dev_essential.Strings.{Text, find_first, starts_with}
use dev_essential.Path.{find_last}

-- The last one splits the text.
abbrev pub Splits : ℕ → Text → ℕ → Type 0
Splits c s r =
    (s ≡ take r s ++ c ∷ drop (suc r) s) × (find_last c (drop (suc r) s) ≡ none) × (r < length s)

pub find_last-Splits : (c : ℕ) (s : Text) (r : ℕ) → find_last c s ≡ some r → Splits c s r
unfolding find_last
find_last-Splits c [] r found = absurd (none-ne-some r found)
find_last-Splits c (d ∷ s) r found = elim (Option-cases (find_last c s)) [
  | inl absent ↦ elim (Bool-cases (d == c)) [
    | inl same ↦
        subst (Splits c (d ∷ s)) (some-injective 0 r (sym (here absent same) ∙ found))
          (ap (λ x. x ∷ s) ((==_iff d c).0 same), absent, omega arith)
    | inr differ ↦ absurd (none-ne-some r (sym (nowhere absent differ) ∙ found))
  ]
  | inr (r', later) ↦
      let (splits, absent, inside) = find_last-Splits c s r' later in
      subst (Splits c (d ∷ s)) (some-injective (suc r') r (sym (behind r' later) ∙ found))
        (ap (λ x. d ∷ x) splits, absent, omega arith)
]
  where
    here : find_last c s ≡ none → d == c ≡ true → find_last c (d ∷ s) ≡ some 0
    here absent same = rw (find_last, absent, same) refl

    nowhere : find_last c s ≡ none → d == c ≡ false → find_last c (d ∷ s) ≡ none
    nowhere absent differ = rw (find_last, absent, differ) refl

    behind : (r' : ℕ) → find_last c s ≡ some r' → find_last c (d ∷ s) ≡ some (suc r')
    behind r' later = rw (find_last, later) refl

pub find_last-append :
    (c : ℕ) (s t : Text) → find_last c t ≡ none → find_last c (s ++ c ∷ t) ≡ some (length s)
unfolding find_last
find_last-append c [] t absent = rw (absent, at_same c) refl
  where
    at_same : (j : ℕ) → j == j ≡ true
    at_same j = ground arith
find_last-append c (d ∷ s) t absent = rw (find_last-append c s t absent) refl

-- A text without the character, behind another one.
pub find_last-absent :
    (c : ℕ) (s t : Text) → find_last c t ≡ none → find_last c (s ++ t) ≡ find_last c s
unfolding find_last
find_last-absent c [] t absent = absent
find_last-absent c (d ∷ s) t absent = rw (find_last-absent c s t absent) refl

pub find_last-other :
    (c d : ℕ) (t : Text) → d == c ≡ false → find_last c t ≡ none → find_last c (d ∷ t) ≡ none
unfolding find_last
find_last-other c d t differ absent = rw (absent, differ) refl

pub find_last-inside : (c : ℕ) (s : Text) (r : ℕ) → find_last c s ≡ some r → r < length s
find_last-inside c s r found = (find_last-Splits c s r found).2

-- A text without the character: its first one, and the search from the front.
pub absent-first :
    (c d : ℕ) (s : Text) → find_last c (d ∷ s) ≡ none → (d == c ≡ false) × (find_last c s ≡ none)
unfolding find_last
absent-first c d s absent = elim (Option-cases (find_last c s)) [
  | inl below ↦ elim (Bool-cases (d == c)) [
    | inl same ↦ absurd (none-ne-some 0 (sym absent ∙ here below same))
    | inr differ ↦ (differ, below)
  ]
  | inr (r, later) ↦ absurd (none-ne-some (suc r) (sym absent ∙ behind r later))
]
  where
    here : find_last c s ≡ none → d == c ≡ true → find_last c (d ∷ s) ≡ some 0
    here below same = rw (find_last, below, same) refl

    behind : (r : ℕ) → find_last c s ≡ some r → find_last c (d ∷ s) ≡ some (suc r)
    behind r later = rw (find_last, later) refl

pub absent-find_first : (c : ℕ) (s : Text) → find_last c s ≡ none → find_first (c ∷ []) s ≡ none
unfolding find_first starts_with
absent-find_first c [] absent = refl
absent-find_first c (d ∷ s) absent =
    let (differ, below) = absent-first c d s absent in ground (arith, absent-find_first c s below)
