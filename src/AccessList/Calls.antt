-- ===== src/AccessList/Calls.antt =====
-- The calls of the named list of include/ddl/utilities/dd_access_list.h and of the objects it holds.
use dev_essential.Base.{
  ℕ, ◌≡◌, refl, Bool, false, not, ◌||◌, Option, none, if◌then◌else◌, length, ltb,
}
use dev_essential.Strings.{Text}
use dev_essential.AccessList.{
  Value, AccessList, Done, returned, undefined, KeyType, string_keys, get, is_some, add, insert,
  remove, last, pop_back, clear, set_name, set_validator,
}
use dev_essential.AccessList.Sound.{IsSound, Meets}
use dev_essential.AccessList.Insert.{clash, finds_added, add-Meets, insert-Meets}
use dev_essential.AccessList.Remove.{
  finds_without, finds_popped, remove-Meets, pop_back-Meets, clear-Meets,
}
use dev_essential.AccessList.Rename.{clashes, finds_renamed, set_name-Meets}
use dev_essential.AccessList.Views.{changes_view, set_name-changes_view}
use dev_essential.AccessList.Validated.{set_validator-Meets}

pub data Call : Type 0 where
  adds : Value → Call
  inserts : ℕ → Value → Call
  removes : Text → Call
  pops clears : Call
  renames : ℕ → Text → Call
  validates : Bool → Call

abbrev pub call : KeyType → AccessList → Call → Done AccessList
call keys l (adds v) = add l v
call keys l (inserts pos v) = insert l pos v
call keys l (removes n) = remove l n
call keys l pops = pop_back l
call keys l clears = returned (clear l)
call keys l (renames i n) = set_name keys l i n
call keys l (validates given) = returned (set_validator l given)

-- When a call throws, in terms of what `get` finds before it.
abbrev pub throws : AccessList → Call → Bool
throws l (adds v) = clash l v
throws l (inserts pos v) = ltb (length l.types) pos || clash l v
throws l (removes n) = not (is_some (get l n))
throws l pops = not (is_some (last l.types))
throws l clears = false
throws l (renames i n) = clashes l i n
throws l (validates given) = false

-- What `get` finds after a call that returns, in terms of what it finds before.
abbrev pub finds : AccessList → Call → Text → Option ℕ
finds l (adds v) n = finds_added l v n
finds l (inserts pos v) n = finds_added l v n
finds l (removes k) n = finds_without l k n
finds l pops n = finds_popped l n
finds l clears n = none
finds l (renames i k) n = finds_renamed l i k n
finds l (validates given) n = get l n

-- A call that changes a key of the validator's items in place.
abbrev pub breaks_key : KeyType → AccessList → Call → Bool
breaks_key keys l (adds v) = false
breaks_key keys l (inserts pos v) = false
breaks_key keys l (removes n) = false
breaks_key keys l pops = false
breaks_key keys l clears = false
breaks_key keys l (renames i n) = changes_view keys l i n
breaks_key keys l (validates given) = false

abbrev pub or_undefined : Bool → Done AccessList → Done AccessList
or_undefined b d = if b then undefined else d

-- Where no key is changed in place, views of the names do what strings do.
pub call-breaks_key :
    (keys : KeyType) (l : AccessList) (c : Call)
    → IsSound l
    → call keys l c ≡ or_undefined (breaks_key keys l c) (call string_keys l c)
call-breaks_key keys l (adds v) sound = refl
call-breaks_key keys l (inserts pos v) sound = refl
call-breaks_key keys l (removes n) sound = refl
call-breaks_key keys l pops sound = refl
call-breaks_key keys l clears sound = refl
call-breaks_key keys l (renames i n) sound = set_name-changes_view keys l i n sound
call-breaks_key keys l (validates given) sound = refl

pub string_call-Meets :
    (l : AccessList) (c : Call)
    → IsSound l
    → Meets l (throws l c) (finds l c) (call string_keys l c)
string_call-Meets l (adds v) sound = add-Meets l v sound
string_call-Meets l (inserts pos v) sound = insert-Meets l pos v sound
string_call-Meets l (removes n) sound = remove-Meets l n sound
string_call-Meets l pops sound = pop_back-Meets l sound
string_call-Meets l clears sound = clear-Meets l sound
string_call-Meets l (renames i n) sound = set_name-Meets l i n sound
string_call-Meets l (validates given) sound = set_validator-Meets l given sound
