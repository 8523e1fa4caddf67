-- ===== src/AccessList/Remove.antt =====
-- `remove`, `popBack` and `clear` of the named list.
use dev_essential.Base.{
  ℕ, suc, ◌-◌, ◌≡◌, refl, sym, ap, ◌∙◌, arith, Bool, true, false, ◌||◌, Option, none, some, List,
  [], ◌∷◌, take, length, not, ◌==◌, if◌then◌else◌, Option-cases, inl, inr,
}
use mathlib.Core.Bool.{false≢true}
use mathlib.Core.Path.{subst}
use mathlib.Core.Option.{none-ne-some, some-injective}
use dev_essential.Strings.{Text}
use dev_essential.AccessList.{
  same_text, Value, lookup, erase, name_at, has, detach, detach_all, AccessList, first_named,
  erase_first, on_items, last, pop_back, clear, remove, returned, get, is_some,
}
use dev_essential.AccessList.Assoc.{
  same_text_refl, UniqueKeys, lookup-erase, erase-UniqueKeys, lookup-drop_key, drop_key-UniqueKeys,
}
use dev_essential.AccessList.Observers.{AllSingle, has-detach, detach-AllSingle, has-erase_first}
use dev_essential.AccessList.Keyed.{keyed, keyed-erase_first, first_named-lookup, names_differ}
use dev_essential.AccessList.Sound.{IsSound, keys_of, on_items-IsIndexed, Meets, get-lookup}

-- The list without the first object with a name.
abbrev pub without : AccessList → Text → ℕ → AccessList
without l n i = record l {
  types = erase_first l.store l.types n;
  named = on_items (erase n) l.named;
  observed = detach i l.observed;
}

module _ (l : AccessList) (k : Text) (i : ℕ) (sound : IsSound l)
    (found : first_named l.store l.types k ≡ some i) where
  pub lookup-without :
      (n : Text)
      → lookup n (keys_of (without l k i)) ≡ (if same_text k n then none else lookup n (keys_of l))
  lookup-without n =
      ap (lookup n) (keyed-erase_first l.store l.types k)
      ∙ lookup-drop_key n k (keys_of l) sound.unique

  left : (j : ℕ) → has j (erase_first l.store l.types k) ≡ (if j == i then false else has j l.types)
  left j = has-erase_first l.store l.types k i j sound.unique found

  was_there : (j : ℕ) → (if j == i then false else has j l.types) ≡ true → has j l.types ≡ true
  was_there j h = ground arith

  pub without-IsSound : IsSound (without l k i)
  without-IsSound = record {
    inside = λ j h. sound.inside j (was_there j (sym (left j) ∙ h));
    unique =
        subst UniqueKeys (sym (keyed-erase_first l.store l.types k))
          (drop_key-UniqueKeys k (keys_of l) sound.unique);
    watched = λ j.
        has-detach j i l.observed sound.single
        ∙ ap (λ x. if j == i then false else x) (sound.watched j)
        ∙ sym (left j);
    single = detach-AllSingle i l.observed sound.single;
    indexed = on_items-IsIndexed (erase k) (keys_of l) _ l.named sound.indexed (λ items unique same.
        (
          erase-UniqueKeys k items unique,
          λ n.
              lookup-erase n k items
              ∙ ap (λ x. if same_text k n then none else x) (same n)
              ∙ sym (lookup-without n),
        ));
  }

take-shorter :
    (k j : ℕ) (types : List ℕ)
    → take (length (k ∷ j ∷ types) - 1) (k ∷ j ∷ types)
      ≡ k ∷ take (length (j ∷ types) - 1) (j ∷ types)
take-shorter k j types = ap (λ x. take x (k ∷ j ∷ types)) two ∙ ap (λ x. k ∷ take x (j ∷ types)) one
  where
    two : suc (suc (length types)) - 1 ≡ suc (length types)
    two = omega arith

    one : length types ≡ suc (length types) - 1
    one = omega arith

-- The last object is the first one with its name.
take-erase_first :
    (store : List Value) (types : List ℕ) (i : ℕ)
    → UniqueKeys (keyed store types)
    → last types ≡ some i
    → (take (length types - 1) types ≡ erase_first store types (name_at store i))
      × (first_named store types (name_at store i) ≡ some i)
unfolding last erase_first first_named
take-erase_first store [] i unique ends = absurd (none-ne-some i ends)
take-erase_first store (k ∷ []) i unique ends =
    let e = some-injective k i ends in
    subst
      (λ x.
        ([] ≡ erase_first store (k ∷ []) (name_at store x))
        × (first_named store (k ∷ []) (name_at store x) ≡ some x))
      e (rw same_text_refl (refl, refl))
take-erase_first store (k ∷ j ∷ types) i (fresh, unique) ends =
    let (below, found) = take-erase_first store (j ∷ types) i unique ends in
    let differ =
      names_differ store (j ∷ types) i k
        (sym (first_named-lookup store (j ∷ types) (name_at store i)) ∙ found) fresh in
    (
      take-shorter k j types ∙ ap (λ xs. k ∷ xs) below ∙ rw (erase_first, differ) refl,
      rw (first_named, differ) found,
    )

pub pop_back-without :
    (l : AccessList) (i : ℕ)
    → IsSound l
    → last l.types ≡ some i
    → (pop_back l ≡ returned (without l (name_at l.store i) i))
      × (first_named l.store l.types (name_at l.store i) ≡ some i)
unfolding pop_back
pop_back-without l i sound ends =
    let (shorter, found) = take-erase_first l.store l.types i sound.unique ends in
    (rw (pop_back, ends, shorter) refl, found)

pub has-detach_all :
    (types observed : List ℕ) (j : ℕ)
    → AllSingle observed
    → AllSingle (detach_all types observed)
      × (has j (detach_all types observed) ≡ (if has j types then false else has j observed))
unfolding detach_all has
has-detach_all [] observed j single = (single, refl)
has-detach_all (i ∷ types) observed j single =
    let (after, left) =
      has-detach_all types (detach i observed) j (detach-AllSingle i observed single) in
    (after, left ∙ rw (has-detach j i observed single) (regroup (j == i) (has j types)))
  where
    regroup :
        (a b : Bool)
        → (if b then false else (if a then false else has j observed))
          ≡ (if a || b then false else has j observed)
    regroup true true = refl
    regroup true false = refl
    regroup false true = refl
    regroup false false = refl

none_left : (a b : Bool) → a ≡ b → (if b then false else a) ≡ false
none_left true true h = refl
none_left true false h = h
none_left false true h = refl
none_left false false h = refl

clear-IsSound : (l : AccessList) → IsSound l → IsSound (clear l)
unfolding clear has
clear-IsSound l sound = record {
  inside = λ j h. absurd (false≢true h);
  unique = tt;
  watched = λ j.
      (has-detach_all l.types l.observed j sound.single).1
      ∙ none_left (has j l.observed) (has j l.types) (sound.watched j);
  single = (has-detach_all l.types l.observed 0 sound.single).0;
  indexed =
      on_items-IsIndexed (λ items. []) (keys_of l) [] l.named sound.indexed
        (λ items unique same. (tt, λ n. refl));
}

abbrev pub finds_without : AccessList → Text → Text → Option ℕ
finds_without l k n = if same_text k n then none else get l n

without-Meets :
    (l : AccessList) (k : Text) (i : ℕ)
    → IsSound l
    → first_named l.store l.types k ≡ some i
    → Meets l false (finds_without l k) (returned (without l k i))
without-Meets l k i sound found =
    let after = without-IsSound l k i sound found in
    (
      after,
      refl,
      λ n.
          get-lookup _ after n
          ∙ lookup-without l k i sound found n
          ∙ rw (get-lookup l sound n) refl,
    )

pub remove-Meets :
    (l : AccessList) (k : Text)
    → IsSound l
    → Meets l (not (is_some (get l k))) (finds_without l k) (remove l k)
unfolding remove
remove-Meets l k sound =
    let same = get-lookup l sound k ∙ sym (first_named-lookup l.store l.types k) in
    elim (Option-cases (first_named l.store l.types k)) [
      | inl missing ↦ rw (remove, missing, same, missing) (refl, refl)
      | inr (i, found) ↦ rw (remove, found, same, found) (without-Meets l k i sound found)
    ]

-- What is found after the last object has gone.
abbrev pub finds_popped : AccessList → Text → Option ℕ
finds_popped l n = elim (last l.types) [
  | none ↦ get l n
  | some i ↦ if same_text (name_at l.store i) n then none else get l n
]

pub pop_back-Meets :
    (l : AccessList)
    → IsSound l
    → Meets l (not (is_some (last l.types))) (finds_popped l) (pop_back l)
unfolding pop_back
pop_back-Meets l sound = elim (Option-cases (last l.types)) [
  | inl empty ↦ rw (pop_back, empty) (refl, refl)
  | inr (i, ends) ↦
      let (shorter, found) = pop_back-without l i sound ends in
      let (after, _, finds) = without-Meets l (name_at l.store i) i sound found in
      subst (Meets l _ (finds_popped l)) (sym shorter)
        (after, rw ends refl, λ n. finds n ∙ sym (popped i n ends))
]
  where
    popped :
        (i : ℕ) (n : Text)
        → last l.types ≡ some i
        → finds_popped l n ≡ finds_without l (name_at l.store i) n
    popped i n ends = rw (finds_popped, ends) refl

pub clear-Meets : (l : AccessList) → IsSound l → Meets l false (λ n. none) (returned (clear l))
unfolding clear lookup
clear-Meets l sound = let after = clear-IsSound l sound in (after, refl, λ n. get-lookup _ after n)
