-- ===== src/AccessList/Unvalidated.antt =====
-- include/ddl/utilities/dd_access_list.h: the named list with a validator against the same one without.
use dev_essential.Base.{
  ℕ, ◌≡◌, refl, sym, ap, ◌∙◌, Bool, true, false, none, some, List, [], ◌∷◌, length, ltb, ◌==◌,
  if◌then◌else◌, Bool-cases, Option-cases, inl, inr,
}
use mathlib.Core.Path.{ap₂}
use dev_essential.Strings.{Text}
use dev_essential.AccessList.{
  same_text, Value, AccessList, Done, returned, thrown, undefined, KeyType, string_keys, get,
  is_some, add, insert, remove, last, pop_back, clear, set_name, set_validator, has, contains,
  check_existence_and_equality, Existence, is_new, is_equal, is_other, insert_new, first_named,
  name_at, restore_name,
}
use dev_essential.AccessList.Sound.{IsSound, get-lookup}
use dev_essential.AccessList.Rename.{model_changed-get}
use dev_essential.AccessList.NewName.{with_name, reset}
use dev_essential.AccessList.Calls.{
  Call, adds, inserts, removes, pops, clears, renames, validates, call, breaks_key,
}
use dev_essential.AccessList.Runs.{
  run, left_by, has_thrown, Outcome, noting, keeps_keys, both_kept, unbroken-call, call-Leaves,
}

abbrev pub strip : AccessList → AccessList
strip l = record l { named = none }

abbrev pub strip_done : Done AccessList → Done AccessList
strip_done (returned l) = returned (strip l)
strip_done (thrown l) = thrown (strip l)
strip_done undefined = undefined

strip-IsSound : (l : AccessList) → IsSound l → IsSound (strip l)
strip-IsSound l sound = record {
  inside = sound.inside;
  unique = sound.unique;
  watched = sound.watched;
  single = sound.single;
  indexed = tt;
}

module _ (l : AccessList) (sound : IsSound l) where
  get-strip : (n : Text) → get (strip l) n ≡ get l n
  get-strip n = get-lookup (strip l) (strip-IsSound l sound) n ∙ sym (get-lookup l sound n)

  check-strip :
      (v : Value) → check_existence_and_equality (strip l) v ≡ check_existence_and_equality l v
  unfolding check_existence_and_equality contains
  check-strip v = rw (check_existence_and_equality, contains, get-strip v.name) refl

  abbrev place : AccessList → ℕ → Value → Existence → Done AccessList
  place m pos v is_equal = returned m
  place m pos v is_other = thrown m
  place m pos v is_new = returned (insert_new m pos v)

  place-strip :
      (pos : ℕ) (v : Value) (e : Existence)
      → strip_done (place (strip l) pos v e) ≡ strip_done (place l pos v e)
  unfolding insert_new
  place-strip pos v is_equal = refl
  place-strip pos v is_other = refl
  place-strip pos v is_new = refl

  add-strip : (v : Value) → strip_done (add (strip l) v) ≡ strip_done (add l v)
  unfolding add
  add-strip v =
      ap (λ e. strip_done (place (strip l) (length l.types) v e)) (check-strip v)
      ∙ place-strip (length l.types) v (check_existence_and_equality l v)

  insert-strip :
      (pos : ℕ) (v : Value) → strip_done (insert (strip l) pos v) ≡ strip_done (insert l pos v)
  unfolding insert
  insert-strip pos v = elim (Bool-cases (ltb (length l.types) pos)) [
    | inl behind ↦ rw (insert, behind) refl
    | inr inside ↦ elim (Bool-cases (pos == length l.types)) [
      | inl at_end ↦ rw (insert, inside, at_end) (add-strip v)
      | inr before ↦
          rw (insert, inside, before)
            (ap (λ e. strip_done (place (strip l) pos v e)) (check-strip v)
              ∙ place-strip pos v (check_existence_and_equality l v))
    ]
  ]

  remove-strip : (n : Text) → strip_done (remove (strip l) n) ≡ strip_done (remove l n)
  unfolding remove
  remove-strip n = elim (Option-cases (first_named l.store l.types n)) [
    | inl missing ↦ rw (remove, missing) refl
    | inr (i, found) ↦ rw (remove, found) refl
  ]

  pop_back-strip : strip_done (pop_back (strip l)) ≡ strip_done (pop_back l)
  unfolding pop_back
  pop_back-strip = elim (Option-cases (last l.types)) [
    | inl empty ↦ rw (pop_back, empty) refl
    | inr (i, ends) ↦ rw (pop_back, ends) refl
  ]

  set_name-strip :
      (i : ℕ) (n : Text)
      → strip_done (set_name string_keys (strip l) i n) ≡ strip_done (set_name string_keys l i n)
  unfolding set_name
  set_name-strip i n = elim (Bool-cases (same_text (name_at l.store i) n)) [
    | inl same ↦ rw (set_name, same) refl
    | inr differ ↦ elim (Bool-cases (has i l.types)) [
      | inl h ↦
          rw (set_name, differ, sound.watched i, h)
            (ap (λ d. strip_done (restore_name i (name_at l.store i) d))
                (model_changed-get (strip l) i n (strip-IsSound l sound) h differ)
              ∙ rw (get-strip n) (either i n (is_some (get l n)))
              ∙ ap (λ d. strip_done (restore_name i (name_at l.store i) d))
                  (sym (model_changed-get l i n sound h differ)))
      | inr unseen ↦ rw (set_name, differ, sound.watched i, unseen) refl
    ]
  ]
    where
      either :
          (i : ℕ) (n : Text) (b : Bool)
          → strip_done (
              restore_name i (name_at l.store i) (
                if b
                then thrown (with_name (strip l) i n)
                else returned (reset (with_name (strip l) i n) n)))
            ≡ strip_done (
                restore_name i
                  (name_at l.store i)
                  (if b then thrown (with_name l i n) else returned (reset (with_name l i n) n)))
      either i n true = refl
      either i n false = refl

  call-strip :
      (c : Call) → strip_done (call string_keys (strip l) c) ≡ strip_done (call string_keys l c)
  unfolding clear set_validator
  call-strip (adds v) = add-strip v
  call-strip (inserts pos v) = insert-strip pos v
  call-strip (removes n) = remove-strip n
  call-strip pops = pop_back-strip
  call-strip clears = refl
  call-strip (renames i n) = set_name-strip i n
  call-strip (validates given) = refl

thrown-strip : (d : Done AccessList) → has_thrown (strip_done d) ≡ has_thrown d
thrown-strip (returned l) = refl
thrown-strip (thrown l) = refl
thrown-strip undefined = refl

left_by-strip :
    (l : AccessList) (d : Done AccessList) → left_by (strip l) (strip_done d) ≡ strip (left_by l d)
left_by-strip l (returned l') = refl
left_by-strip l (thrown l') = refl
left_by-strip l undefined = refl

-- Two outcomes of calls that differ in the validators alone.
abbrev pub SameRuns : Outcome → Outcome → Type 0
SameRuns o o' =
    (m : AccessList) × (m' : AccessList) × (ts : List Bool) × (o ≡ some (m, ts))
    × (o' ≡ some (m', ts))
    × (strip m ≡ strip m')

-- Two sound lists that differ in their validators alone go on to do so, whatever is called without
-- changing a key in place, and the same calls throw.
pub run-strip :
    (keys : KeyType) (calls : List Call) (l l' : AccessList)
    → IsSound l
    → IsSound l'
    → strip l ≡ strip l'
    → keeps_keys keys l calls ≡ true
    → keeps_keys keys l' calls ≡ true
    → SameRuns (run keys l calls) (run keys l' calls)
run-strip keys [] l l' sound sound' same kept kept' = (l, l', [], refl, refl, same)
run-strip keys (c ∷ cs) l l' sound sound' same kept kept' =
    let (unbroken, later) = both_kept _ _ kept in
    let (unbroken', later') = both_kept _ _ kept' in
    let (after, goes_on) = call-Leaves keys l c sound unbroken in
    let (after', goes_on') = call-Leaves keys l' c sound' unbroken' in
    let done = same_call unbroken unbroken' in
    let thrown =
      sym (thrown-strip (call keys l c)) ∙ ap has_thrown done ∙ thrown-strip (call keys l' c) in
    let (m, m', ts, runs, runs', lists) =
      run-strip keys cs (left_by l (call keys l c)) (left_by l' (call keys l' c)) after after'
        (sym (left_by-strip l (call keys l c))
          ∙ ap₂ left_by same done
          ∙ left_by-strip l' (call keys l' c))
        later later' in
    (
      m,
      m',
      has_thrown (call keys l c) ∷ ts,
      goes_on (λ x. run keys x cs) ∙ ap (noting (has_thrown (call keys l c))) runs,
      goes_on' (λ x. run keys x cs) ∙ ap₂ noting (sym thrown) runs',
      lists,
    )
  where
    same_call :
        breaks_key keys l c ≡ false
        → breaks_key keys l' c ≡ false
        → strip_done (call keys l c) ≡ strip_done (call keys l' c)
    same_call unbroken unbroken' =
        ap strip_done (unbroken-call keys l c sound unbroken)
        ∙ sym (call-strip l sound c)
        ∙ ap (λ x. strip_done (call string_keys x c)) same
        ∙ call-strip l' sound' c
        ∙ ap strip_done (sym (unbroken-call keys l' c sound' unbroken'))
