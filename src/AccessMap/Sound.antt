-- ===== src/AccessMap/Sound.antt =====
-- The state of the map, and what adding and removing leave of it.
use dev_essential.Base.{
  ℕ, ◌<◌, ◌≡◌, refl, sym, ap, ◌∙◌, arith, Bool, true, false, ◌||◌, none, some, [], ◌∷◌, ◌++◌,
  length, length-append, ◌==◌, ==_iff, if◌then◌else◌, Bool-cases, inl, inr, ◌⊎◌,
}
use mathlib.Core.Bool.{false≢true}
use mathlib.Core.Path.{subst}
use mathlib.Core.Option.{none-ne-some, some-injective}
use dev_essential.Strings.{Text}
use dev_essential.AccessList.{
  Value, NamedItems, same_text, lookup, put, erase, name_at, has, attach, detach,
}
use dev_essential.AccessList.Assoc.{same_text_refl, same_text-eq, lookup-put, lookup-erase}
use dev_essential.AccessList.Keyed.{name_at-append, name_at-last}
use dev_essential.AccessList.Observers.{
  AllSingle, has-attach, attach-AllSingle, has-detach, detach-AllSingle,
}
use dev_essential.AccessMap.{AccessMap, put_new}

-- Each name leads to an object of that name, and the objects that have the map as an observer, once
-- each, are those that the map has.
pub record IsSound (m : AccessMap) : Type 0 where
  pub named :
      (n : Text) (i : ℕ)
      → lookup n m.types ≡ some i
      → (name_at m.store i ≡ n) × (i < length m.store) × (has i m.observed ≡ true)
  pub watched : (i : ℕ) → has i m.observed ≡ true → lookup (name_at m.store i) m.types ≡ some i
  pub single : AllSingle m.observed

-- What is found after `put` and after `erase`.
pub found-put :
    (n k : Text) (i j : ℕ) (items : NamedItems)
    → lookup n (put k i items) ≡ some j
    → ((same_text k n ≡ true) × (i ≡ j)) ⊎ ((same_text k n ≡ false) × (lookup n items ≡ some j))
found-put n k i j items found = elim (Bool-cases (same_text k n)) [
  | inl same ↦ inl (same, some-injective i j (sym (lookup-put n k i items ∙ rw same refl) ∙ found))
  | inr differ ↦ inr (differ, sym (lookup-put n k i items ∙ rw differ refl) ∙ found)
]

pub found-erase :
    (n k : Text) (j : ℕ) (items : NamedItems)
    → lookup n (erase k items) ≡ some j
    → (same_text k n ≡ false) × (lookup n items ≡ some j)
found-erase n k j items found = elim (Bool-cases (same_text k n)) [
  | inl same ↦ absurd (none-ne-some j (sym (lookup-erase n k items ∙ rw same refl) ∙ found))
  | inr differ ↦ (differ, sym (lookup-erase n k items ∙ rw differ refl) ∙ found)
]

-- A name that is not found is not the name of one that is.
pub apart :
    (k n : Text) (j : ℕ) (items : NamedItems)
    → lookup k items ≡ none
    → lookup n items ≡ some j
    → same_text k n ≡ false
apart k n j items missing found = elim (Bool-cases (same_text k n)) [
  | inl same ↦
      absurd
        (none-ne-some j (sym missing ∙ ap (λ x. lookup x items) (same_text-eq k n same) ∙ found))
  | inr differ ↦ differ
]

module _ (m : AccessMap) (v : Value) (sound : IsSound m) (new : lookup v.name m.types ≡ none) where
  abbrev fresh : ℕ
  fresh = length m.store

  inside : (i : ℕ) → has i m.observed ≡ true → i < fresh
  inside i h = (sound.named _ i (sound.watched i h)).1

  attached :
      (i : ℕ) → (i == fresh) || has i m.observed ≡ true → has i (attach fresh m.observed) ≡ true
  attached i h = has-attach i fresh m.observed ∙ h

  either : (a b : Bool) → b ≡ true → a || b ≡ true
  either true b h = refl
  either false b h = h

  longer : (i : ℕ) → i < fresh → i < length (m.store ++ v ∷ [])
  longer i h = let n = length-append m.store (v ∷ []) in omega arith

  pub put_new-IsSound : IsSound (put_new m v)
  unfolding put_new
  put_new-IsSound = record {
    named = λ n i found. elim (found-put n v.name fresh i m.types found) [
      | inl (same, here) ↦
          subst
            (λ x.
              (name_at (m.store ++ v ∷ []) x ≡ n)
              × (x < length (m.store ++ v ∷ []))
              × (has x (attach fresh m.observed) ≡ true))
            here
            (
              name_at-last m.store v ∙ same_text-eq v.name n same,
              (let k = length-append m.store (v ∷ []) in omega arith),
              attached fresh (at_same fresh (has fresh m.observed)),
            )
      | inr (differ, old) ↦
          let (at, below, seen) = sound.named n i old in
          (
            name_at-append m.store v i below ∙ at,
            longer i below,
            attached i (either (i == fresh) (has i m.observed) seen),
          )
    ];
    watched = λ i h. elim (Bool-cases (i == fresh)) [
      | inl here ↦
          subst (λ x. lookup (name_at (m.store ++ v ∷ []) x) (put v.name fresh m.types) ≡ some x)
            (sym ((==_iff i fresh).0 here))
            (ap (λ x. lookup x (put v.name fresh m.types)) (name_at-last m.store v)
              ∙ lookup-put v.name v.name fresh m.types
              ∙ rw (same_text_refl v.name) refl)
      | inr older ↦
          let seen = sym (second i older) ∙ sym (has-attach i fresh m.observed) ∙ h in
          let found = sound.watched i seen in
          ap (λ x. lookup x (put v.name fresh m.types)) (name_at-append m.store v i (inside i seen))
          ∙ lookup-put (name_at m.store i) v.name fresh m.types
          ∙ rw (apart v.name (name_at m.store i) i m.types new found) found
    ];
    single = attach-AllSingle fresh m.observed sound.single;
  }
    where
      at_same : (j : ℕ) (b : Bool) → (j == j) || b ≡ true
      at_same j b = ground arith

      second : (i : ℕ) → i == fresh ≡ false → (i == fresh) || has i m.observed ≡ has i m.observed
      second i older = rw older refl

abbrev pub without : AccessMap → Text → ℕ → AccessMap
without m n i = record m { types = erase n m.types; observed = detach i m.observed }

module _ (m : AccessMap) (k : Text) (i : ℕ) (sound : IsSound m)
    (found : lookup k m.types ≡ some i) where
  kept : (j : ℕ) → j == i ≡ false → has j m.observed ≡ true → has j (detach i m.observed) ≡ true
  kept j other seen = has-detach j i m.observed sound.single ∙ rw other seen

  -- Another name leads to another object.
  pub other_object :
      (n : Text) (j : ℕ) → lookup n m.types ≡ some j → same_text k n ≡ false → j == i ≡ false
  other_object n j there differ = elim (Bool-cases (j == i)) [
    | inl same ↦ absurd (
        false≢true (
          sym differ
          ∙ ap (same_text k) (
              sym (sound.named n j there).0
              ∙ ap (name_at m.store) ((==_iff j i).0 same)
              ∙ (sound.named k i found).0)
          ∙ same_text_refl k))
    | inr differs ↦ differs
  ]

  -- Another object has another name.
  pub other_name :
      (j : ℕ) → j == i ≡ false → has j m.observed ≡ true → same_text k (name_at m.store j) ≡ false
  other_name j other seen = elim (Bool-cases (same_text k (name_at m.store j))) [
    | inl same ↦
        let e =
          some-injective i j (
            sym found
            ∙ ap (λ x. lookup x m.types) (same_text-eq _ _ same)
            ∙ sound.watched j seen) in
        absurd (false≢true (sym other ∙ itself e))
    | inr differ ↦ differ
  ]
    where
      itself : i ≡ j → j == i ≡ true
      itself e = ground arith

  not_detached :
      (j : ℕ) → has j (detach i m.observed) ≡ true → (j == i ≡ false) × (has j m.observed ≡ true)
  not_detached j h = go (j == i) (sym (has-detach j i m.observed sound.single) ∙ h)
    where
      go :
          (b : Bool)
          → (if b then false else has j m.observed) ≡ true
          → (b ≡ false) × (has j m.observed ≡ true)
      go true h = absurd (false≢true h)
      go false h = (refl, h)

  pub without-IsSound : IsSound (without m k i)
  without-IsSound = record {
    named = λ n j h.
        let (differ, there) = found-erase n k j m.types h in
        let (at, below, seen) = sound.named n j there in
        (at, below, kept j (other_object n j there differ) seen);
    watched = λ j h.
        let (other, seen) = not_detached j h in
        lookup-erase (name_at m.store j) k m.types
        ∙ rw (other_name j other seen) (sound.watched j seen);
    single = detach-AllSingle i m.observed sound.single;
  }
