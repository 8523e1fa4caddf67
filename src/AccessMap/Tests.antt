-- ===== src/AccessMap/Tests.antt =====
-- The theorem on the named map at concrete calls, and an object that `emplace` leaves behind.
use dev_essential.Base.{◌≡◌, refl, Bool, false, some, List, [], ◌∷◌}
use dev_essential.Strings.{Text}
use dev_essential.AccessList.{
  Value, lookup, put, erase, name_at, has, attach, detach, set_name_at, same_text, same_value,
}
use dev_essential.AccessMap.{
  AccessMap, Ended, returns, throws, follows_end, add, emplace, remove, set_name, put_new,
  model_changed,
}
use dev_essential.AccessMap.Sound.{IsSound}
use dev_essential.AccessMap.Runs.{Call, adds, removes, renames, run, empty_map, run-keeps}

abbrev unit_text : Text
unit_text = 117 ∷ 110 ∷ 105 ∷ 116 ∷ []

abbrev prefix_text : Text
prefix_text = 112 ∷ 114 ∷ 101 ∷ []

abbrev unit_value : Value
unit_value = record { name = unit_text; content = 1 }

abbrev no_others : Text → Bool
no_others n = false

abbrev some_calls : List ((Text → Bool) × Call)
some_calls =
    (no_others, adds unit_value)
    ∷ (no_others, renames 0 prefix_text)
    ∷ (no_others, removes unit_text)
    ∷ []

run-keeps_example : (m : AccessMap) × ((run empty_map some_calls ≡ some m) × IsSound m)
run-keeps_example = run-keeps some_calls

-- The calls of a map with `emplace`, as long as none follows the end iterator.
abbrev after : Ended → (AccessMap → Ended) → Ended
after (returns m) rest = rest m
after (throws m) rest = rest m
after follows_end rest = follows_end

-- `emplace` of an equal value leaves the first object its observer. The map then forgets the name,
-- and renaming the first object follows the end iterator.
left_behind :
    after (add no_others empty_map unit_value) (λ m.
      after
        (emplace no_others m unit_value)
        (λ m'. after (remove m' unit_text) (λ m''. set_name no_others m'' 0 prefix_text)))
    ≡ follows_end
unfolding add emplace remove set_name model_changed put_new lookup put erase name_at has attach
    detach set_name_at same_text same_value
left_behind = refl
