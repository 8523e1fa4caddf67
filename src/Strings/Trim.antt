-- ===== src/Strings/Trim.antt =====
-- `trim`.
use dev_essential.Base.{
  ℕ, zero, suc, ◌+◌, true, false, none, some, [], ◌∷◌, ◌++◌, take, drop, ◌≡◌, refl, sym, ap, ◌∙◌,
  arith, inl, inr, Option-cases, take-append-drop,
}
use mathlib.Core.List.{append_assoc, append-nil}
use dev_essential.Strings.{Text, one_of, c_str, find_first_not_of, find_last_not_of, trim}

-- Each character is one of the set.
abbrev pub AllOf : Text → Text → Type 0
AllOf set [] = Unit
AllOf set (c ∷ s) = (one_of set c ≡ true) × AllOf set s

-- The first character, if there is one, is not of the set; nor is the last.
abbrev pub StartsOff : Text → Text → Type 0
StartsOff set [] = Unit
StartsOff set (c ∷ s) = one_of set c ≡ false

abbrev pub EndsOff : Text → Text → Type 0
EndsOff set [] = Unit
EndsOff set (c ∷ []) = one_of set c ≡ false
EndsOff set (c ∷ d ∷ s) = EndsOff set (d ∷ s)

find_first_not_of-some :
    (s set : Text) (k : ℕ)
    → find_first_not_of s set ≡ some k
    → AllOf set (take k s) × StartsOff set (drop k s)
unfolding find_first_not_of
find_first_not_of-some [] set k h = ground arith
find_first_not_of-some (c ∷ s) set zero h = ground arith
find_first_not_of-some (c ∷ s) set (suc k) h = ground (arith, find_first_not_of-some s set k)

find_first_not_of-none : (s set : Text) → find_first_not_of s set ≡ none → AllOf set s
unfolding find_first_not_of
find_first_not_of-none [] set h = tt
find_first_not_of-none (c ∷ s) set h = ground (arith, find_first_not_of-none s set)

find_last_not_of-none : (s set : Text) → find_last_not_of s set ≡ none → AllOf set s
unfolding find_last_not_of
find_last_not_of-none [] set h = tt
find_last_not_of-none (c ∷ s) set h = ground (arith, find_last_not_of-none s set)

find_last_not_of-some :
    (s set : Text) (k : ℕ)
    → find_last_not_of s set ≡ some k
    → EndsOff set (take (suc k) s) × AllOf set (drop (suc k) s)
unfolding find_last_not_of
find_last_not_of-some [] set k h = ground arith
find_last_not_of-some (c ∷ []) set zero h = ground arith
find_last_not_of-some (c ∷ []) set (suc k) h = ground arith
find_last_not_of-some (c ∷ d ∷ s) set zero h = ground (arith, find_last_not_of-none (d ∷ s) set)
find_last_not_of-some (c ∷ d ∷ s) set (suc k) h =
    ground (arith, find_last_not_of-some (d ∷ s) set k)

EndsOff-drop : (set s : Text) (k : ℕ) → EndsOff set s → EndsOff set (drop k s)
EndsOff-drop set s zero h = h
EndsOff-drop set [] (suc k) h = tt
EndsOff-drop set (c ∷ []) (suc zero) h = tt
EndsOff-drop set (c ∷ []) (suc (suc k)) h = tt
EndsOff-drop set (c ∷ d ∷ s) (suc k) h = EndsOff-drop set (d ∷ s) k h

-- A text that is all of the set and does not end off it is empty.
all_and_off : (set s : Text) → AllOf set s → EndsOff set s → s ≡ []
all_and_off set [] all off = refl
all_and_off set (c ∷ []) all off = ground arith
all_and_off set (c ∷ d ∷ s) all off = ground (arith, all_and_off set (d ∷ s))

-- What is left of `str` when characters of the set are taken off both ends, as far as they go.
pub record IsTrimmed (set str trimmed : Text) : Type 0 where
  pub before : Text
  pub after : Text
  pub whole : str ≡ before ++ (trimmed ++ after)
  pub before_of : AllOf set before
  pub after_of : AllOf set after
  pub starts_off : StartsOff set trimmed
  pub ends_off : EndsOff set trimmed

trim-none : (str chars : Text) → find_last_not_of str (c_str chars) ≡ none → trim str chars ≡ []
unfolding trim
trim-none str chars none_off = ground arith

trim_front :
    (str chars : Text) (k j : ℕ)
    → find_last_not_of str (c_str chars) ≡ some k
    → find_first_not_of (take (suc k) str) (c_str chars) ≡ some j
    → trim str chars ≡ drop j (take (suc k) str)
unfolding trim
trim_front str chars k j last first =
    let plus_one : k + 1 ≡ suc k = omega arith in ground (arith, plus_one)

trim_all :
    (str chars : Text) (k : ℕ)
    → find_last_not_of str (c_str chars) ≡ some k
    → find_first_not_of (take (suc k) str) (c_str chars) ≡ none
    → trim str chars ≡ take (suc k) str
unfolding trim
trim_all str chars k last first =
    let plus_one : k + 1 ≡ suc k = omega arith in ground (arith, plus_one)

-- `trim` takes the characters of the set, up to the set's first NUL, off both ends as far as they go,
-- and nothing else.
pub trim-IsTrimmed : (str chars : Text) → IsTrimmed (c_str chars) str (trim str chars)
trim-IsTrimmed str chars = elim (Option-cases (find_last_not_of str (c_str chars))) [
  | inl none_off ↦ rw (trim-none str chars none_off) record {
    before = str;
    after = [];
    whole = sym (append-nil str);
    before_of = find_last_not_of-none str (c_str chars) none_off;
    after_of = tt;
    starts_off = tt;
    ends_off = tt;
  }
  | inr (k, last) ↦
      (let ends = find_last_not_of-some str (c_str chars) k last in
        elim (Option-cases (find_first_not_of (take (suc k) str) (c_str chars))) [
          | inl all ↦
              (let gone : take (suc k) str ≡ [] =
                  all_and_off (c_str chars) (take (suc k) str)
                    (find_first_not_of-none (take (suc k) str) (c_str chars) all) ends.0 in
                rw (trim_all str chars k last all, gone)
                  record {
                    before = [];
                    after = drop (suc k) str;
                    whole =
                        sym (take-append-drop (suc k) str) ∙ ap (λ r. r ++ drop (suc k) str) gone;
                    before_of = tt;
                    after_of = ends.1;
                    starts_off = tt;
                    ends_off = tt;
                  })
          | inr (j, first) ↦
              (let starts = find_first_not_of-some (take (suc k) str) (c_str chars) j first in
                rw (trim_front str chars k j last first) record {
                  before = take j (take (suc k) str);
                  after = drop (suc k) str;
                  whole =
                      sym (take-append-drop (suc k) str)
                      ∙ ap (λ r. r ++ drop (suc k) str)
                          (sym (take-append-drop j (take (suc k) str)))
                      ∙ append_assoc (take j (take (suc k) str)) (drop j (take (suc k) str))
                          (drop (suc k) str);
                  before_of = starts.0;
                  after_of = ends.1;
                  starts_off = starts.1;
                  ends_off = EndsOff-drop (c_str chars) (take (suc k) str) j ends.0;
                })
        ])
]
