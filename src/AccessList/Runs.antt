-- ===== src/AccessList/Runs.antt =====
-- Any sequence of the calls of the named list and of the objects it holds.
use dev_essential.Base.{
  ℕ, ◌≡◌, refl, sym, ap, ◌∙◌, Bool, true, false, not, ◌&&◌, Option, none, some, List, [], ◌∷◌,
}
use mathlib.Core.Bool.{false≢true}
use mathlib.Core.Path.{subst}
use dev_essential.Strings.{Text}
use dev_essential.AccessList.{
  AccessList, Done, returned, thrown, undefined, KeyType, string_keys, has,
}
use dev_essential.AccessList.Sound.{IsSound, Meets}
use dev_essential.AccessList.Calls.{
  Call, adds, inserts, removes, pops, clears, renames, validates, call, throws, finds, breaks_key,
  or_undefined, call-breaks_key, string_call-Meets,
}

abbrev pub MeetsUnless : Bool → AccessList → Bool → (Text → Option ℕ) → Done AccessList → Type 0
MeetsUnless true l throws finds d = d ≡ undefined
MeetsUnless false l throws finds d = Meets l throws finds d

-- On a list that is sound, a call is undefined exactly if it gives an object of the list another
-- name while the list has a validator whose keys are views. Each other call throws exactly when it
-- should and leaves the list as it is then; else the list stays sound, and `get` finds what the call
-- says.
pub call-Meets :
    (keys : KeyType) (l : AccessList) (c : Call)
    → IsSound l
    → MeetsUnless (breaks_key keys l c) l (throws l c) (finds l c) (call keys l c)
call-Meets keys l c sound = go (breaks_key keys l c) (call-breaks_key keys l c sound)
  where
    go :
        (b : Bool)
        → call keys l c ≡ or_undefined b (call string_keys l c)
        → MeetsUnless b l (throws l c) (finds l c) (call keys l c)
    go true e = e
    go false e = subst (Meets l (throws l c) (finds l c)) (sym e) (string_call-Meets l c sound)

abbrev pub has_thrown : Done AccessList → Bool
has_thrown (returned l) = false
has_thrown (thrown l) = true
has_thrown undefined = false

-- The list after some calls, exceptions caught, and which ones threw; `none` after an undefined one.
abbrev pub Outcome : Type 0
Outcome = Option (AccessList × List Bool)

abbrev pub noting : Bool → Outcome → Outcome
noting b none = none
noting b (some (l, ts)) = some (l, b ∷ ts)

abbrev pub go_on : Done AccessList → (AccessList → Outcome) → Outcome
go_on (returned l) rest = noting false (rest l)
go_on (thrown l) rest = noting true (rest l)
go_on undefined rest = none

abbrev pub run : KeyType → AccessList → List Call → Outcome
run keys l [] = some (l, [])
run keys l (c ∷ cs) = go_on (call keys l c) (λ l'. run keys l' cs)

abbrev pub left_by : AccessList → Done AccessList → AccessList
left_by l (returned l') = l'
left_by l (thrown l') = l'
left_by l undefined = l

-- No call changes a key in place.
abbrev pub keeps_keys : KeyType → AccessList → List Call → Bool
keeps_keys keys l [] = true
keeps_keys keys l (c ∷ cs) =
    not (breaks_key keys l c) && keeps_keys keys (left_by l (call keys l c)) cs

-- Strings are never changed in place.
pub keeps_keys-string : (calls : List Call) (l : AccessList) → keeps_keys string_keys l calls ≡ true
keeps_keys-string [] l = refl
keeps_keys-string (c ∷ cs) l =
    rw (unbroken c) (keeps_keys-string cs (left_by l (call string_keys l c)))
  where
    unbroken : (c : Call) → breaks_key string_keys l c ≡ false
    unbroken (adds v) = refl
    unbroken (inserts pos v) = refl
    unbroken (removes n) = refl
    unbroken pops = refl
    unbroken clears = refl
    unbroken (renames i n) = refl
    unbroken (validates given) = refl

abbrev pub empty_list : AccessList
empty_list = record { types = []; store = []; named = none; observed = [] }

empty_list-IsSound : IsSound empty_list
unfolding has
empty_list-IsSound = record {
  inside = λ i h. absurd (false≢true h);
  unique = tt;
  watched = λ i. refl;
  single = tt;
  indexed = tt;
}

-- A call that breaks no key.
pub both_kept : (a b : Bool) → not a && b ≡ true → (a ≡ false) × (b ≡ true)
both_kept true b h = absurd (false≢true h)
both_kept false b h = (refl, h)

pub unbroken-call :
    (keys : KeyType) (l : AccessList) (c : Call)
    → IsSound l
    → breaks_key keys l c ≡ false
    → call keys l c ≡ call string_keys l c
unbroken-call keys l c sound kept =
    call-breaks_key keys l c sound ∙ ap (λ b. or_undefined b (call string_keys l c)) kept

-- What is left of a list after a call that breaks no key: the next list, sound, and where the run
-- goes on.
abbrev pub Leaves : AccessList → Done AccessList → Type 0
Leaves l d =
    IsSound (left_by l d)
    × ((rest : AccessList → Outcome) → go_on d rest ≡ noting (has_thrown d) (rest (left_by l d)))

pub call-Leaves :
    (keys : KeyType) (l : AccessList) (c : Call)
    → IsSound l
    → breaks_key keys l c ≡ false
    → Leaves l (call keys l c)
call-Leaves keys l c sound kept =
    subst (Leaves l) (sym (unbroken-call keys l c sound kept))
      (left (call string_keys l c) (string_call-Meets l c sound))
  where
    left : (d : Done AccessList) → Meets l (throws l c) (finds l c) d → Leaves l d
    left (returned l') (after, _, _) = (after, λ rest. refl)
    left (thrown l') (_, same) = (subst IsSound (sym same) sound, λ rest. refl)
    left undefined never = absurd (false≢true (sym never))

run-from :
    (keys : KeyType) (calls : List Call) (l : AccessList)
    → IsSound l
    → keeps_keys keys l calls ≡ true
    → (l' : AccessList) × (ts : List Bool) × (run keys l calls ≡ some (l', ts)) × IsSound l'
run-from keys [] l sound kept = (l, [], refl, sound)
run-from keys (c ∷ cs) l sound kept =
    let (unbroken, later) = both_kept _ _ kept in
    let (after, goes_on) = call-Leaves keys l c sound unbroken in
    let (l', ts, done, sound') = run-from keys cs (left_by l (call keys l c)) after later in
    (
      l',
      has_thrown (call keys l c) ∷ ts,
      goes_on (λ l''. run keys l'' cs) ∙ ap (noting (has_thrown (call keys l c))) done,
      sound',
    )

-- Calls on an empty list, in any order, with a validator or without, of which none changes a key in
-- place, are never undefined and, whether they throw or not, leave a sound list.
pub run-IsSound :
    (keys : KeyType) (calls : List Call)
    → keeps_keys keys empty_list calls ≡ true
    → (l : AccessList) × (ts : List Bool) × (run keys empty_list calls ≡ some (l, ts)) × IsSound l
run-IsSound keys calls kept = run-from keys calls empty_list empty_list-IsSound kept
