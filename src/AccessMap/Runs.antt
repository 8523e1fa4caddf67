-- ===== src/AccessMap/Runs.antt =====
-- Any sequence of the calls of a named map and of the objects it holds.
use dev_essential.Base.{
  ℕ, ◌≡◌, refl, sym, ◌∙◌, arith, Bool, true, false, ◌||◌, Option, none, some, List, [], ◌∷◌, ◌==◌,
  if◌then◌else◌, Bool-cases, Option-cases, inl, inr,
}
use mathlib.Core.Bool.{false≢true}
use mathlib.Core.Path.{subst}
use mathlib.Core.Option.{none-ne-some, some-injective}
use dev_essential.Strings.{Text}
use dev_essential.AccessList.{Value, NamedItems, same_text, lookup, name_at, has, detach_all}
use dev_essential.AccessList.Remove.{has-detach_all}
use dev_essential.AccessMap.{
  AccessMap, Ended, returns, throws, follows_end, value_at, put_new, add, remove, pointers, clear,
  set_name,
}
use dev_essential.AccessMap.Sound.{IsSound, put_new-IsSound, without, without-IsSound}
use dev_essential.AccessMap.Rename.{Keeps, set_name-Keeps}

has-pointers :
    (n : Text) (j : ℕ) (types : NamedItems)
    → lookup n types ≡ some j
    → has j (pointers types) ≡ true
unfolding lookup has
has-pointers n j [] found = absurd (none-ne-some j found)
has-pointers n j ((k, i) ∷ types) found = elim (Bool-cases (same_text k n)) [
  | inl same ↦ first j i (pointers types) (some-injective i j (sym (here same) ∙ found))
  | inr differ ↦ later j i (pointers types) (has-pointers n j types (sym (there differ) ∙ found))
]
  where
    here : same_text k n ≡ true → lookup n ((k, i) ∷ types) ≡ some i
    here same = rw (lookup, same) refl

    there : same_text k n ≡ false → lookup n ((k, i) ∷ types) ≡ lookup n types
    there differ = rw (lookup, differ) refl

    first : (j i : ℕ) (is : List ℕ) → i ≡ j → (j == i) || has j is ≡ true
    first j i is e = ground arith

    later : (j i : ℕ) (is : List ℕ) → has j is ≡ true → (j == i) || has j is ≡ true
    later j i is h = ground arith

clear-IsSound : (m : AccessMap) → IsSound m → IsSound (clear m)
unfolding clear lookup
clear-IsSound m sound = record {
  named = λ n i found. absurd (none-ne-some i found);
  watched = λ i h. absurd (false≢true (sym (gone i) ∙ h));
  single = (has-detach_all (pointers m.types) m.observed 0 sound.single).0;
}
  where
    gone : (i : ℕ) → has i (detach_all (pointers m.types) m.observed) ≡ false
    gone i =
        (has-detach_all (pointers m.types) m.observed i sound.single).1
        ∙ none_left (has i m.observed) (has i (pointers m.types))
            (λ seen. has-pointers (name_at m.store i) i m.types (sound.watched i seen))
      where
        none_left : (a b : Bool) → (a ≡ true → b ≡ true) → (if b then false else a) ≡ false
        none_left a true h = refl
        none_left true false h = absurd (false≢true (h refl))
        none_left false false h = refl

add-Keeps :
    (elsewhere : Text → Bool) (m : AccessMap) (v : Value) → IsSound m → Keeps m (add elsewhere m v)
unfolding add
add-Keeps elsewhere m v sound = elim (Option-cases (lookup v.name m.types)) [
  | inl new ↦ elim (Bool-cases (elsewhere v.name)) [
    | inl there ↦ subst (Keeps m) {x = throws m} (sym (rw (add, new, there) refl)) refl
    | inr nowhere ↦
        subst (Keeps m) {x = returns (put_new m v)} (sym (rw (add, new, nowhere) refl))
          (put_new-IsSound m v sound new)
  ]
  | inr (i, old) ↦ elim (Bool-cases (value_at m.store i v)) [
    | inl same ↦ subst (Keeps m) {x = returns m} (sym (rw (add, old, same) refl)) sound
    | inr differ ↦ subst (Keeps m) {x = throws m} (sym (rw (add, old, differ) refl)) refl
  ]
]

remove-Keeps : (m : AccessMap) (n : Text) → IsSound m → Keeps m (remove m n)
unfolding remove
remove-Keeps m n sound = elim (Option-cases (lookup n m.types)) [
  | inl missing ↦ subst (Keeps m) {x = throws m} (sym (rw (remove, missing) refl)) refl
  | inr (i, found) ↦
      subst (Keeps m) {x = returns (without m n i)} (sym (rw (remove, found) refl))
        (without-IsSound m n i sound found)
]

pub data Call : Type 0 where
  adds : Value → Call
  removes : Text → Call
  clears : Call
  renames : ℕ → Text → Call

abbrev pub call : (Text → Bool) → AccessMap → Call → Ended
call elsewhere m (adds v) = add elsewhere m v
call elsewhere m (removes n) = remove m n
call elsewhere m clears = returns (clear m)
call elsewhere m (renames i n) = set_name elsewhere m i n

pub call-Keeps :
    (elsewhere : Text → Bool) (m : AccessMap) (c : Call) → IsSound m → Keeps m (call elsewhere m c)
call-Keeps elsewhere m (adds v) sound = add-Keeps elsewhere m v sound
call-Keeps elsewhere m (removes n) sound = remove-Keeps m n sound
call-Keeps elsewhere m clears sound = clear-IsSound m sound
call-Keeps elsewhere m (renames i n) sound = set_name-Keeps m i n sound elsewhere

-- The map after some calls, exceptions caught, unless one follows the end iterator. What the
-- validator says may change from call to call.
abbrev pub go_on : Ended → (AccessMap → Option AccessMap) → Option AccessMap
go_on (returns m) rest = rest m
go_on (throws m) rest = rest m
go_on follows_end rest = none

abbrev pub run : AccessMap → List ((Text → Bool) × Call) → Option AccessMap
run m [] = some m
run m ((elsewhere, c) ∷ cs) = go_on (call elsewhere m c) (λ m'. run m' cs)

abbrev pub empty_map : AccessMap
empty_map = record { types = []; store = []; observed = [] }

empty_map-IsSound : IsSound empty_map
unfolding lookup has
empty_map-IsSound = record {
  named = λ n i found. absurd (none-ne-some i found);
  watched = λ i h. absurd (false≢true h);
  single = tt;
}

run-from :
    (calls : List ((Text → Bool) × Call)) (m : AccessMap)
    → IsSound m
    → (m' : AccessMap) × ((run m calls ≡ some m') × IsSound m')
run-from [] m sound = (m, (refl, sound))
run-from ((elsewhere, c) ∷ cs) m sound =
    kept (call elsewhere m c) (call-Keeps elsewhere m c sound) (λ m' sound'. run-from cs m' sound')
  where
    kept :
        (d : Ended)
        → Keeps m d
        → ((m' : AccessMap)
            → IsSound m'
            → (m'' : AccessMap) × ((run m' cs ≡ some m'') × IsSound m''))
        → (m'' : AccessMap) × ((go_on d (λ m'. run m' cs) ≡ some m'') × IsSound m'')
    kept (returns m') after rest = rest m' after
    kept (throws m') same rest = rest m' (subst IsSound (sym same) sound)
    kept follows_end never rest = absurd (omega arith)

-- Whatever is called on an empty map but `emplace`, in any order, exceptions caught: no call follows
-- the end iterator, each name leads to an object of that name, and the objects that have the map as
-- an observer, once each, are those that the map has.
pub run-keeps :
    (calls : List ((Text → Bool) × Call))
    → (m : AccessMap) × ((run empty_map calls ≡ some m) × IsSound m)
run-keeps calls = run-from calls empty_map empty_map-IsSound
