-- ===== src/AccessList/Insert.antt =====
-- `add`, `emplace` and `insert` of the named list.
use dev_essential.Base.{
  ℕ, ◌<◌, ◌≡◌, refl, sym, ap, ◌∙◌, arith, Bool, true, false, ◌||◌, Option, none, some, List, [],
  ◌∷◌, ◌++◌, take, drop, length, length-append, not, get_elem?, ltb, ◌==◌, ==_iff, if◌then◌else◌,
  Bool-cases, Option-cases, inl, inr,
}
use mathlib.Core.Path.{subst, ap₂}
use dev_essential.Strings.{Text}
use dev_essential.AccessList.{
  same_text, Value, lookup, put, has, AccessList, insert_new, Done, returned, thrown, is_new,
  is_equal, is_other, check_existence_and_equality, add, insert, get, contains, same_value,
}
use dev_essential.AccessList.Assoc.{
  UniqueKeys, lookup-put, put-UniqueKeys, lookup-insert, insert-UniqueKeys,
}
use dev_essential.AccessList.Observers.{has-attach, attach-AllSingle, has-insert}
use dev_essential.AccessList.Keyed.{
  keyed, keyed-take, keyed-drop, keyed-append, keyed-same, name_at-append, name_at-last,
}
use dev_essential.AccessList.Sound.{IsSound, keys_of, on_items-IsIndexed, Meets, get-lookup}

module _ (l : AccessList) (pos : ℕ) (v : Value) (sound : IsSound l)
    (new : lookup v.name (keys_of l) ≡ none) where
  abbrev fresh : ℕ
  fresh = length l.store

  abbrev store' : List Value
  store' = l.store ++ v ∷ []

  still_inside : (i : ℕ) → (i == fresh) || has i l.types ≡ true → i < length store'
  still_inside i h = elim (Bool-cases (i == fresh)) [
    | inl same ↦
        let e = (==_iff i fresh).0 same in let n = length-append l.store (v ∷ []) in omega arith
    | inr differ ↦
        let below = sound.inside i (sym (later differ) ∙ h) in
        let n = length-append l.store (v ∷ []) in omega arith
  ]
    where
      later : i == fresh ≡ false → (i == fresh) || has i l.types ≡ has i l.types
      later differ = rw differ refl

  keys-insert_new :
      keys_of (insert_new l pos v) ≡ take pos (keys_of l) ++ (v.name, fresh) ∷ drop pos (keys_of l)
  unfolding insert_new
  keys-insert_new =
      keyed-append store' (take pos l.types) (fresh ∷ drop pos l.types)
      ∙ ap₂ (λ xs ys. xs ++ ys) (keyed-take store' pos l.types ∙ ap (take pos) unseen)
          (ap₂ (λ x ys. (x, fresh) ∷ ys) (name_at-last l.store v)
            (keyed-drop store' pos l.types ∙ ap (drop pos) unseen))
    where
      unseen : keyed store' l.types ≡ keys_of l
      unseen =
          keyed-same l.store store' l.types (λ i h. name_at-append l.store v i (sound.inside i h))

  pub lookup-insert_new :
      (n : Text)
      → lookup n (keys_of (insert_new l pos v))
        ≡ (if same_text v.name n then some fresh else lookup n (keys_of l))
  lookup-insert_new n =
      ap (lookup n) keys-insert_new ∙ lookup-insert n v.name fresh pos (keys_of l) new

  pub insert_new-IsSound : IsSound (insert_new l pos v)
  unfolding insert_new
  insert_new-IsSound = record {
    inside = λ i h. still_inside i (sym (has-insert i fresh pos l.types) ∙ h);
    unique =
        subst UniqueKeys (sym keys-insert_new)
          (insert-UniqueKeys v.name fresh pos (keys_of l) new sound.unique);
    watched = λ i.
        has-attach i fresh l.observed
        ∙ ap (λ x. (i == fresh) || x) (sound.watched i)
        ∙ sym (has-insert i fresh pos l.types);
    single = attach-AllSingle fresh l.observed sound.single;
    indexed =
        on_items-IsIndexed (put v.name fresh) (keys_of l) _ l.named sound.indexed
          (λ items unique same. (
            put-UniqueKeys v.name fresh items unique,
            λ n.
                lookup-put n v.name fresh items
                ∙ ap (λ x. if same_text v.name n then some fresh else x) (same n)
                ∙ sym (lookup-insert_new n),
          ));
  }

-- The object at `i` is equal to `v`.
abbrev pub holds : AccessList → ℕ → Value → Bool
holds l i v = elim (get_elem? l.store i) [ none ↦ false | some w ↦ same_value w v ]

-- There is another value with the name.
abbrev pub clash : AccessList → Value → Bool
clash l v = elim (get l v.name) [ none ↦ false | some i ↦ not (holds l i v) ]

abbrev pub finds_added : AccessList → Value → Text → Option ℕ
finds_added l v n = elim (get l v.name) [
  | none ↦ if same_text v.name n then some (length l.store) else get l n
  | some i ↦ get l n
]

check-new :
    (l : AccessList) (v : Value) → get l v.name ≡ none → check_existence_and_equality l v ≡ is_new
unfolding check_existence_and_equality contains
check-new l v new = rw (check_existence_and_equality, contains, new) refl

check-old :
    (l : AccessList) (v : Value) (i : ℕ)
    → get l v.name ≡ some i
    → check_existence_and_equality l v ≡ (if holds l i v then is_equal else is_other)
unfolding check_existence_and_equality contains
check-old l v i old =
    rw (check_existence_and_equality, contains, old) (either (get_elem? l.store i))
  where
    either :
        (o : Option Value)
        → (elim o [ none ↦ is_other | some w ↦ if same_value w v then is_equal else is_other ])
          ≡ (if elim o [ none ↦ false | some w ↦ same_value w v ] then is_equal else is_other)
    either none = refl
    either (some w) = refl

-- A value goes to a position.
abbrev placed : AccessList → ℕ → Value → Done AccessList
placed l pos v = elim (check_existence_and_equality l v) [
  | is_equal ↦ returned l
  | is_other ↦ thrown l
  | is_new ↦ returned (insert_new l pos v)
]

placed-Meets :
    (l : AccessList) (pos : ℕ) (v : Value)
    → IsSound l
    → Meets l (clash l v) (finds_added l v) (placed l pos v)
placed-Meets l pos v sound = elim (Option-cases (get l v.name)) [
  | inl new ↦
      let unseen = sym (get-lookup l sound v.name) ∙ new in
      let after = insert_new-IsSound l pos v sound unseen in
      subst (Meets l (clash l v) (finds_added l v)) (sym (done_new new)) (
        after,
        rw (clash, new) refl,
        λ n.
            get-lookup _ after n
            ∙ lookup-insert_new l pos v sound unseen n
            ∙ rw (finds_added, new, get-lookup l sound n) refl,
      )
  | inr (i, old) ↦ elim (Bool-cases (holds l i v)) [
    | inl same ↦
        subst (Meets l (clash l v) (finds_added l v)) (sym (done_same i old same))
          (sound, rw (clash, old, same) refl, λ n. rw (finds_added, old) refl)
    | inr differ ↦
        subst (Meets l (clash l v) (finds_added l v)) (sym (done_differ i old differ))
          (rw (clash, old, differ) refl, refl)
  ]
]
  where
    done_new : get l v.name ≡ none → placed l pos v ≡ returned (insert_new l pos v)
    done_new new = rw (placed, check-new l v new) refl

    done_old :
        (i : ℕ)
        → get l v.name ≡ some i
        → placed l pos v ≡ (if holds l i v then returned l else thrown l)
    done_old i old = rw (placed, check-old l v i old) (either (holds l i v))
      where
        either :
            (b : Bool)
            → (elim (if b then is_equal else is_other) [
              | is_equal ↦ returned l
              | is_other ↦ thrown l
              | is_new ↦ returned (insert_new l pos v)
            ])
              ≡ (if b then returned l else thrown l)
        either true = refl
        either false = refl

    done_same : (i : ℕ) → get l v.name ≡ some i → holds l i v ≡ true → placed l pos v ≡ returned l
    done_same i old same = done_old i old ∙ rw same refl

    done_differ : (i : ℕ) → get l v.name ≡ some i → holds l i v ≡ false → placed l pos v ≡ thrown l
    done_differ i old differ = done_old i old ∙ rw differ refl

pub add-Meets :
    (l : AccessList) (v : Value) → IsSound l → Meets l (clash l v) (finds_added l v) (add l v)
unfolding add
add-Meets l v sound = placed-Meets l (length l.types) v sound

pub insert-Meets :
    (l : AccessList) (pos : ℕ) (v : Value)
    → IsSound l
    → Meets l (ltb (length l.types) pos || clash l v) (finds_added l v) (insert l pos v)
unfolding insert
insert-Meets l pos v sound = elim (Bool-cases (ltb (length l.types) pos)) [
  | inl behind ↦ rw (insert, behind) (refl, refl)
  | inr inside ↦ elim (Bool-cases (pos == length l.types)) [
    | inl at_end ↦ rw (insert, inside, at_end) (add-Meets l v sound)
    | inr before ↦ rw (insert, inside, before) (placed-Meets l pos v sound)
  ]
]
