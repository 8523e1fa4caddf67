-- ===== src/AccessMap/Rename.antt =====
-- `setName` of an object that a named map may hold.
use dev_essential.Base.{
  ℕ, ◌≤◌, ◌<◌, ◌≡◌, refl, sym, ap, ◌∙◌, arith, Bool, true, false, none, some, List, length, ◌==◌,
  ==_iff, Bool-cases, Option-cases, inl, inr,
}
use mathlib.Core.Bool.{false≢true}
use mathlib.Core.Path.{subst}
use dev_essential.Strings.{Text}
use dev_essential.AccessList.{Value, same_text, lookup, put, erase, name_at, has, set_name_at}
use dev_essential.AccessList.Assoc.{same_text_refl, same_text-eq, lookup-put, lookup-erase}
use dev_essential.AccessList.Keyed.{name_at-set_name_at, name_at-set_name_elsewhere}
use dev_essential.AccessList.Counted.{set_name_back}
use dev_essential.AccessList.NewName.{length-set_name_at}
use dev_essential.AccessMap.{
  AccessMap, Ended, returns, throws, follows_end, model_changed, set_name,
}
use dev_essential.AccessMap.Sound.{IsSound, found-put, found-erase, apart, other_object, other_name}

-- A call that keeps the map sound: it returns a sound map, or throws and leaves the map as it is.
abbrev pub Keeps : AccessMap → Ended → Type 0
Keeps m (returns m') = IsSound m'
Keeps m (throws m') = m' ≡ m
Keeps m follows_end = 1 ≤ 0

abbrev with_name : AccessMap → ℕ → Text → AccessMap
with_name m i n = record m { store = set_name_at m.store i n }

flipped : (i j : ℕ) → j == i ≡ false → i == j ≡ false
flipped i j h = ground arith

module _ (m : AccessMap) (i : ℕ) (new : Text) (sound : IsSound m) where
  abbrev after : List Value
  after = set_name_at m.store i new

  stored : (j : ℕ) → j < length m.store → j < length after
  stored j h = subst (λ x. j < x) (sym (length-set_name_at m.store i new)) h

  others : (j : ℕ) → j == i ≡ false → name_at after j ≡ name_at m.store j
  others j other = name_at-set_name_elsewhere m.store i j new (flipped i j other)

  unseen : (j : ℕ) → has i m.observed ≡ false → has j m.observed ≡ true → j == i ≡ false
  unseen j absent seen = elim (Bool-cases (j == i)) [
    | inl same ↦
        absurd
          (false≢true (sym absent ∙ ap (λ x. has x m.observed) (sym ((==_iff j i).0 same)) ∙ seen))
    | inr other ↦ other
  ]

  unseen-IsSound : has i m.observed ≡ false → IsSound (with_name m i new)
  unseen-IsSound absent = record {
    named = λ n j found.
        let (at, below, seen) = sound.named n j found in
        (others j (unseen j absent seen) ∙ at, stored j below, seen);
    watched = λ j h. ap (λ x. lookup x m.types) (others j (unseen j absent h)) ∙ sound.watched j h;
    single = sound.single;
  }

  module _ (h : has i m.observed ≡ true) (free : lookup new m.types ≡ none) where
    abbrev old : Text
    old = name_at m.store i

    found_old : lookup old m.types ≡ some i
    found_old = sound.watched i h

    below : i < length m.store
    below = (sound.named old i found_old).1

    abbrev renamed : AccessMap
    renamed = record {
      types = put (name_at after i) i (erase old m.types);
      store = after;
      observed = m.observed;
    }

    renamed-IsSound : IsSound renamed
    renamed-IsSound = record {
      named = λ n j found. elim (found-put n (name_at after i) i j (erase old m.types) found) [
        | inl (same, here) ↦
            subst (λ x. (name_at after x ≡ n) × (x < length after) × (has x m.observed ≡ true)) here
              (same_text-eq (name_at after i) n same, stored i below, h)
        | inr (differ, left) ↦
            let (apart_old, there) = found-erase n old j m.types left in
            let (at, inside, seen) = sound.named n j there in
            (
              others j (other_object m old i sound found_old n j there apart_old) ∙ at,
              stored j inside,
              seen,
            )
      ];
      watched = λ j seen. elim (Bool-cases (j == i)) [
        | inl here ↦
            subst
              (λ x. lookup (name_at after x) (put (name_at after i) i (erase old m.types)) ≡ some x)
              (sym ((==_iff j i).0 here))
              (lookup-put (name_at after i) (name_at after i) i (erase old m.types)
                ∙ rw (same_text_refl (name_at after i)) refl)
        | inr other ↦
            let found = sound.watched j seen in
            ap (λ x. lookup x (put (name_at after i) i (erase old m.types))) (others j other)
            ∙ lookup-put (name_at m.store j) (name_at after i) i (erase old m.types)
            ∙ rw
                (
                  name_at-set_name_at m.store i new below,
                  apart new (name_at m.store j) j m.types free found,
                )
                (lookup-erase (name_at m.store j) old m.types
                  ∙ rw (other_name m old i sound found_old j other seen) found)
      ];
      single = sound.single;
    }

  -- Renaming keeps the map sound, and finds the object's old name.
  pub set_name-Keeps : (elsewhere : Text → Bool) → Keeps m (set_name elsewhere m i new)
  unfolding set_name model_changed
  set_name-Keeps elsewhere = elim (Bool-cases (same_text (name_at m.store i) new)) [
    | inl same ↦ subst (Keeps m) {x = returns m} (sym (rw (set_name, same) refl)) sound
    | inr differ ↦ elim (Bool-cases (has i m.observed)) [
      | inl h ↦ elim (Option-cases (lookup new m.types)) [
        | inl free ↦ elim (Bool-cases (elsewhere new)) [
          | inl there ↦
              subst (Keeps m) {x = throws (with_name (with_name m i new) i (name_at m.store i))}
                (sym (rw (set_name, differ, h, model_changed, free, there) refl))
                (ap (λ x. record m { store = x }) (set_name_back m.store i new))
          | inr nowhere ↦
              subst (Keeps m) {x = returns (renamed h free)}
                (sym
                  (rw (set_name, differ, h, model_changed, free, nowhere, sound.watched i h) refl))
                (renamed-IsSound h free)
        ]
        | inr (j, taken) ↦
            subst (Keeps m) {x = throws (with_name (with_name m i new) i (name_at m.store i))}
              (sym (rw (set_name, differ, h, model_changed, taken) refl))
              (ap (λ x. record m { store = x }) (set_name_back m.store i new))
      ]
      | inr absent ↦
          subst (Keeps m) {x = returns (with_name m i new)}
            (sym (rw (set_name, differ, absent) refl)) (unseen-IsSound absent)
    ]
  ]
