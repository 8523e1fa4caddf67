-- ===== src/AccessList/Rename.antt =====
-- `setName` of an object that a named list may hold, with keys that are strings of their own.
use dev_essential.Base.{
  ℕ, suc, ◌≡◌, refl, sym, ap, ◌∙◌, Bool, true, false, Option, none, some, List, ltb, not, ◌&&◌,
  if◌then◌else◌, Bool-cases, Option-cases, inl, inr,
}
use mathlib.Core.Path.{subst}
use dev_essential.Strings.{Text}
use dev_essential.AccessList.{
  same_text, Value, NamedItems, lookup, name_at, has, AccessList, Done, returned, thrown,
  set_name_at, count_contains, model_changed, restore_name, set_name, string_keys, get, contains,
  is_some, first_named,
}
use dev_essential.AccessList.Assoc.{same_text-eq, same_text-same}
use dev_essential.AccessList.Keyed.{lookup-has, first_named-lookup}
use dev_essential.AccessList.Renamed.{renamed, keyed-set_name_unseen}
use dev_essential.AccessList.Counted.{count-lookup, count-renamed, set_name_back}
use dev_essential.AccessList.Sound.{IsSound, keys_of, Meets, get-lookup}
use dev_essential.AccessList.NewName.{
  with_name, reset, unseen-IsSound, reset-IsSound, lookup-renamed,
}

-- `contains`, in terms of the validator's items.
abbrev finds_with : List Value → List ℕ → Text → Option NamedItems → Bool
finds_with store types n named =
    is_some (elim named [ none ↦ first_named store types n | some items ↦ lookup n items ])

-- The new name is there already.
abbrev pub clashes : AccessList → ℕ → Text → Bool
clashes l i new = has i l.types && (not (same_text (name_at l.store i) new) && is_some (get l new))

abbrev pub finds_renamed : AccessList → ℕ → Text → Text → Option ℕ
finds_renamed l i new n = if has i l.types then renamed l.store i new n (get l n) else get l n

module _ (l : AccessList) (i : ℕ) (new : Text) (sound : IsSound l) where
  -- The test of `modelChanged` is whether the name was there before.
  pub model_changed-get :
      has i l.types ≡ true
      → same_text (name_at l.store i) new ≡ false
      → model_changed (with_name l i new) new ≡ (
          if is_some (get l new)
          then thrown (with_name l i new)
          else returned (reset (with_name l i new) new))
  unfolding model_changed contains get
  model_changed-get h differ =
      ap (λ b. if b then thrown (with_name l i new) else returned (reset (with_name l i new) new))
        (tested l.named refl)
    where
      more_than_one : (b : Bool) → ltb 1 (suc (if b then 1 else 0)) ≡ b
      more_than_one true = refl
      more_than_one false = refl

      counted :
          ltb 1 (count_contains (set_name_at l.store i new) l.types new)
          ≡ is_some (lookup new (keys_of l))
      counted =
          rw
            (
              count-renamed l.store l.types i new (sound.inside i h) sound.unique differ,
              h,
              count-lookup l.store l.types new sound.unique,
            )
            (more_than_one (is_some (lookup new (keys_of l))))

      tested :
          (named : Option NamedItems)
          → l.named ≡ named
          → (elim named [
            | none ↦ ltb 1 (count_contains (set_name_at l.store i new) l.types new)
            | some items ↦ contains (with_name l i new) new
          ])
            ≡ is_some (get l new)
      tested none e =
          counted
          ∙ ap is_some (sym (first_named-lookup l.store l.types new))
          ∙ sym (ap (finds_with l.store l.types new) e)
      tested (some items) e =
          ap (finds_with (set_name_at l.store i new) l.types new) e
          ∙ sym (ap (finds_with l.store l.types new) e)

  unchanged :
      same_text (name_at l.store i) new ≡ true → (n : Text) → get l n ≡ finds_renamed l i new n
  unchanged same n = elim (Bool-cases (has i l.types)) [
    | inl h ↦ elim (Bool-cases (same_text new n)) [
      | inl here ↦ rw (finds_renamed, h, renamed, here) (get-lookup l sound n ∙ at h here)
      | inr elsewhere ↦
          rw (finds_renamed, h, renamed, elsewhere, same_text-same _ _ n same, elsewhere) refl
    ]
    | inr unseen ↦ rw (finds_renamed, unseen) refl
  ]
    where
      at : has i l.types ≡ true → same_text new n ≡ true → lookup n (keys_of l) ≡ some i
      at h here =
          ap (λ x. lookup x (keys_of l)) (sym (same_text-eq _ _ here) ∙ sym (same_text-eq _ _ same))
          ∙ lookup-has l.store l.types i h sound.unique

  free-Meets :
      has i l.types ≡ true
      → get l new ≡ none
      → Meets l (clashes l i new) (finds_renamed l i new) (returned (reset (with_name l i new) new))
  free-Meets h free =
      let unseen = sym (get-lookup l sound new) ∙ free in
      let after = reset-IsSound l i new sound h unseen in
      (
        after,
        rw (clashes, h, free) (no_clash (same_text (name_at l.store i) new)),
        λ n.
            get-lookup _ after n
            ∙ lookup-renamed l i new sound h unseen n
            ∙ rw (finds_renamed, h, get-lookup l sound n) refl,
      )
    where
      no_clash : (b : Bool) → (not b && false) ≡ false
      no_clash true = refl
      no_clash false = refl

  taken-Meets :
      (j : ℕ)
      → has i l.types ≡ true
      → same_text (name_at l.store i) new ≡ false
      → get l new ≡ some j
      → Meets l
          (clashes l i new)
          (finds_renamed l i new)
          (thrown (with_name (with_name l i new) i (name_at l.store i)))
  taken-Meets j h differ taken = (
    rw (clashes, h, differ, taken) refl,
    ap (λ x. record l { store = x }) (set_name_back l.store i new),
  )

  unseen-Meets :
      has i l.types ≡ false
      → Meets l (clashes l i new) (finds_renamed l i new) (returned (with_name l i new))
  unseen-Meets unseen =
      let after = unseen-IsSound l i new sound unseen in
      (
        after,
        rw (clashes, unseen) refl,
        λ n.
            get-lookup _ after n
            ∙ ap (lookup n) (keyed-set_name_unseen l.store l.types i new unseen)
            ∙ sym (get-lookup l sound n)
            ∙ rw (finds_renamed, unseen) refl,
      )

  abbrev Does : Done AccessList → Type 0
  Does = Meets l (clashes l i new) (finds_renamed l i new)

  pub set_name-Meets :
      Meets l (clashes l i new) (finds_renamed l i new) (set_name string_keys l i new)
  unfolding set_name
  set_name-Meets = elim (Bool-cases (same_text (name_at l.store i) new)) [
    | inl same ↦
        subst Does (sym (as_it_is same))
          (sound, rw (clashes, same) (no_clash (has i l.types)), unchanged same)
    | inr differ ↦ elim (Bool-cases (has i l.types)) [
      | inl h ↦ elim (Option-cases (get l new)) [
        | inl free ↦ subst Does (sym (renamed_free differ h free)) (free-Meets h free)
        | inr (j, taken) ↦
            subst Does (sym (renamed_taken differ h j taken)) (taken-Meets j h differ taken)
      ]
      | inr unseen ↦ subst Does (sym (unnoticed differ unseen)) (unseen-Meets unseen)
    ]
  ]
    where
      no_clash : (b : Bool) → b && false ≡ false
      no_clash true = refl
      no_clash false = refl

      as_it_is :
          same_text (name_at l.store i) new ≡ true → set_name string_keys l i new ≡ returned l
      as_it_is same = rw (set_name, same) refl

      noticed :
          same_text (name_at l.store i) new ≡ false
          → has i l.types ≡ true
          → set_name string_keys l i new
            ≡ restore_name i (name_at l.store i) (
                if is_some (get l new)
                then thrown (with_name l i new)
                else returned (reset (with_name l i new) new))
      noticed differ h =
          rw (set_name, differ, sound.watched i, h)
            (ap (restore_name i (name_at l.store i)) (model_changed-get h differ))

      renamed_free :
          same_text (name_at l.store i) new ≡ false
          → has i l.types ≡ true
          → get l new ≡ none
          → set_name string_keys l i new ≡ returned (reset (with_name l i new) new)
      renamed_free differ h free = noticed differ h ∙ rw free refl

      renamed_taken :
          same_text (name_at l.store i) new ≡ false
          → has i l.types ≡ true
          → (j : ℕ) → get l new ≡ some j
          → set_name string_keys l i new
            ≡ thrown (with_name (with_name l i new) i (name_at l.store i))
      renamed_taken differ h j taken = noticed differ h ∙ rw taken refl

      unnoticed :
          same_text (name_at l.store i) new ≡ false
          → has i l.types ≡ false
          → set_name string_keys l i new ≡ returned (with_name l i new)
      unnoticed differ unseen = rw (set_name, differ, sound.watched i, unseen) refl
