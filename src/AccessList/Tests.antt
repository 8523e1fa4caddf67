-- ===== src/AccessList/Tests.antt =====
-- The theorems on the named list at concrete lists and calls.
use dev_essential.Base.{ℕ, ◌≡◌, refl, sym, ap, Bool, true, false, none, some, List, [], ◌∷◌}
use dev_essential.Strings.{Text}
use dev_essential.AccessList.{
  Value, AccessList, get, same_text, same_value, lookup, put, erase, name_at, first_named, contains,
  check_existence_and_equality, has, attach, insert_new, add, insert, set_name_at, count_contains,
  model_changed, set_name, string_keys, view_keys, holds_pointer, equals, set_items, set_validator,
}
use mathlib.Core.Path.{subst}
use dev_essential.AccessList.Sound.{IsSound}
use dev_essential.AccessList.Calls.{
  Call, adds, inserts, removes, renames, validates, call, throws, finds, breaks_key,
}
use dev_essential.AccessList.Runs.{
  MeetsUnless, Outcome, run, keeps_keys, keeps_keys-string, empty_list, call-Meets, run-IsSound,
}
use dev_essential.AccessList.Unvalidated.{strip, SameRuns, run-strip}

abbrev speed_text : Text
speed_text = 115 ∷ 112 ∷ 101 ∷ 101 ∷ 100 ∷ []

abbrev angle_text : Text
angle_text = 97 ∷ 110 ∷ 103 ∷ 108 ∷ 101 ∷ []

abbrev named_value : Text → ℕ → Value
named_value n c = record { name = n; content = c }

-- Two elements with a validator, one of them renamed in vain.
abbrev two_elements : List Call
two_elements =
    validates true
    ∷ adds (named_value speed_text 1)
    ∷ inserts 0 (named_value angle_text 2)
    ∷ renames 0 angle_text
    ∷ []

abbrev list_of : Outcome → AccessList
list_of none = empty_list
list_of (some (l, ts)) = l

abbrev after_two : AccessList
after_two = list_of (run string_keys empty_list two_elements)

two_elements-keeps : keeps_keys string_keys empty_list two_elements ≡ true
two_elements-keeps = keeps_keys-string two_elements empty_list

after_two-IsSound : IsSound after_two
after_two-IsSound =
    let (l, ts, done, sound) = run-IsSound string_keys two_elements two_elements-keeps in
    subst IsSound (sym (ap list_of done)) sound

-- The same calls where the keys are views, the renaming left out.
abbrev two_added : List Call
two_added =
    validates true ∷ adds (named_value speed_text 1) ∷ inserts 0 (named_value angle_text 2) ∷ []

run-IsSound_example :
    (l : AccessList) × (ts : List Bool) × (run view_keys empty_list two_added ≡ some (l, ts))
    × IsSound l
run-IsSound_example = run-IsSound view_keys two_added refl

call-Meets_example :
    MeetsUnless
      (breaks_key string_keys after_two (renames 0 angle_text))
      after_two
      (throws after_two (renames 0 angle_text))
      (finds after_two (renames 0 angle_text))
      (call string_keys after_two (renames 0 angle_text))
call-Meets_example = call-Meets string_keys after_two (renames 0 angle_text) after_two-IsSound

-- The calls on a list with a validator and on the same one without.
run-strip_example :
    SameRuns
      (run view_keys after_two (removes speed_text ∷ []))
      (run view_keys (strip after_two) (removes speed_text ∷ []))
run-strip_example =
    run-strip view_keys (removes speed_text ∷ []) after_two (strip after_two) after_two-IsSound
      without_validator-IsSound refl refl refl
  where
    without_validator-IsSound : IsSound (strip after_two)
    without_validator-IsSound = record {
      inside = after_two-IsSound.inside;
      unique = after_two-IsSound.unique;
      watched = after_two-IsSound.watched;
      single = after_two-IsSound.single;
      indexed = tt;
    }

-- Which calls of an outcome threw.
abbrev thrown_of : Outcome → List Bool
thrown_of none = []
thrown_of (some (l, ts)) = ts

-- Renaming to a taken name throws, and both objects keep their names.
two_elements_throw :
    thrown_of (run string_keys empty_list two_elements) ≡ false ∷ false ∷ false ∷ true ∷ []
unfolding add insert set_name model_changed set_validator set_items check_existence_and_equality
    contains get first_named lookup put erase name_at has attach insert_new set_name_at same_text
    same_value count_contains
two_elements_throw = refl

-- Where the keys are views, the renaming changes a key of the map in place.
view_renamed : run view_keys empty_list two_elements ≡ none
unfolding add insert set_name model_changed set_validator set_items check_existence_and_equality
    contains get first_named lookup put erase name_at has attach insert_new set_name_at same_text
    same_value count_contains holds_pointer
view_renamed = refl

after_two-get : get after_two angle_text ≡ some 1
unfolding add insert set_name model_changed set_validator set_items check_existence_and_equality
    contains get first_named lookup put erase name_at has attach insert_new set_name_at same_text
    same_value count_contains
after_two-get = refl

-- `operator==` takes a list for equal to a longer one that begins with it, and reads behind the
-- end of a shorter one.
equal_to_longer :
    equals
      (named_value speed_text 1 ∷ [])
      (named_value speed_text 1 ∷ named_value angle_text 2 ∷ [])
    ≡ some true
unfolding equals same_value same_text
equal_to_longer = refl

behind_shorter : equals (named_value speed_text 1 ∷ []) [] ≡ none
unfolding equals
behind_shorter = refl
