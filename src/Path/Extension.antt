-- ===== src/Path/Extension.antt =====
-- The extension of a path and its replacement.
use dev_essential.Base.{
  ℕ, suc, ◌+◌, ◌<◌, ◌≡◌, refl, sym, ap, ◌∙◌, arith, Bool, true, false, not, ◌&&◌, Option, none,
  some, [], ◌∷◌, ◌++◌, take, drop, length, length-take, ltb, lt→ltb, if◌then◌else◌, Bool-cases,
  Option-cases, inl, inr,
}
use mathlib.Core.Bool.{false≢true}
use mathlib.Core.List.{append_assoc}
use mathlib.Core.Option.{none-ne-some}
use dev_essential.Strings.{Text, is_empty}
use dev_essential.Path.{
  slash, dot, find_last, extension_at, get_extension, stays, append_to_basename, replace_extension,
}
use dev_essential.Path.Search.{
  find_last-Splits, find_last-append, find_last-absent, find_last-other, find_last-inside,
}
use dev_essential.Path.Elements.{take-append, drop-append}

-- The dot before a text without dots and slashes.
extension_at-append :
    (p e : Text)
    → find_last dot e ≡ none
    → find_last slash e ≡ none
    → extension_at (p ++ dot ∷ e) ≡ some (length p)
unfolding extension_at
extension_at-append p e no_dot no_slash =
    rw
      (
        extension_at,
        find_last-append dot p e no_dot,
        find_last-absent slash p (dot ∷ e) (find_last-other slash dot e refl no_slash),
      )
      (before (find_last slash p) refl)
  where
    before :
        (o : Option ℕ)
        → find_last slash p ≡ o
        → (elim o [
          | none ↦ some (length p)
          | some r ↦ if ltb r (length p) then some (length p) else none
        ])
          ≡ some (length p)
    before none h = refl
    before (some r) h = rw (lt→ltb r (length p) (find_last-inside slash p r h)) refl

-- The path before its extension, or the whole path where it has none.
abbrev pub stem : Text → Text
stem path = elim (extension_at path) [ none ↦ path | some r ↦ take r path ]

-- A path that can have an extension.
abbrev pub takes_extension : Text → Bool
takes_extension path =
    not (is_empty path) && (elim (extension_at path) [ none ↦ not (stays path) | some r ↦ true ])

extension_at-dot : (path : Text) (r : ℕ) → extension_at path ≡ some r → find_last dot path ≡ some r
unfolding extension_at
extension_at-dot path r found = elim (Option-cases (find_last dot path)) [
  | inl missing ↦ absurd (none-ne-some r (sym (rw (extension_at, missing) refl) ∙ found))
  | inr (r', there) ↦
      there ∙ at r' (find_last slash path) (sym (rw (extension_at, there) refl) ∙ found)
]
  where
    at :
        (r' : ℕ) (o : Option ℕ)
        → (elim o [ none ↦ some r' | some k ↦ if ltb k r' then some r' else none ]) ≡ some r
        → some r' ≡ some r
    at r' none h = h
    at r' (some k) h = kept (ltb k r') h
      where
        kept : (b : Bool) → (if b then some r' else none) ≡ some r → some r' ≡ some r
        kept true h = h
        kept false h = absurd (none-ne-some r h)

take-one_more : (c : ℕ) (s t : Text) → take (length s + 1) (s ++ c ∷ t) ≡ s ++ c ∷ []
take-one_more c s t = ap (λ k. take k (s ++ c ∷ t)) (plus_one (length s)) ∙ more s
  where
    plus_one : (n : ℕ) → n + 1 ≡ suc n
    plus_one n = omega arith

    more : (s : Text) → take (suc (length s)) (s ++ c ∷ t) ≡ s ++ c ∷ []
    more [] = refl
    more (d ∷ s) = ap (λ x. d ∷ x) (more s)

-- The last dot goes with what is before it.
take-dot :
    (path : Text) (r : ℕ)
    → find_last dot path ≡ some r
    → take (r + 1) path ≡ take r path ++ dot ∷ []
take-dot path r found =
    let (splits, _, inside) = find_last-Splits dot path r found in
    ap (take (r + 1)) splits
    ∙ ap (λ k. take (k + 1) (take r path ++ dot ∷ drop (suc r) path)) (r_long inside)
    ∙ take-one_more dot (take r path) (drop (suc r) path)
  where
    r_long : r < length path → r ≡ length (take r path)
    r_long inside = let n = length-take r path in omega arith

replace_extension-stem :
    (path e : Text) → takes_extension path ≡ true → replace_extension path e ≡ stem path ++ dot ∷ e
unfolding replace_extension
replace_extension-stem path e h = elim (Bool-cases (is_empty path)) [
  | inl empty ↦ absurd (false≢true (sym (rw (takes_extension, empty) refl) ∙ h))
  | inr there ↦ elim (Option-cases (extension_at path)) [
    | inl none_there ↦ elim (Bool-cases (stays path)) [
      | inl fixed ↦
          absurd (false≢true (sym (rw (takes_extension, there, none_there, fixed) refl) ∙ h))
      | inr free ↦
          rw (replace_extension, stem, there, none_there, free) (append_assoc path (dot ∷ []) e)
    ]
    | inr (r, found) ↦
        rw (replace_extension, stem, there, found, take-dot path r (extension_at-dot path r found))
          (append_assoc (take r path) (dot ∷ []) e)
  ]
]

-- What comes of a path with an extension that has no dot and no slash.
module _ (p e : Text) (no_dot : find_last dot e ≡ none) (no_slash : find_last slash e ≡ none) where
  at : extension_at (p ++ dot ∷ e) ≡ some (length p)
  at = extension_at-append p e no_dot no_slash

  get_extension-append : get_extension (p ++ dot ∷ e) ≡ e
  unfolding get_extension
  get_extension-append = rw (get_extension, at) (drop-append p e dot)

  not_empty : (p : Text) → is_empty (p ++ dot ∷ e) ≡ false
  not_empty [] = refl
  not_empty (c ∷ p) = refl

  takes_extension-append : takes_extension (p ++ dot ∷ e) ≡ true
  takes_extension-append = rw (takes_extension, not_empty p, at) refl

  stem-append : stem (p ++ dot ∷ e) ≡ p
  stem-append = rw (stem, at) (take-append p (dot ∷ e))

  append_to_basename-append :
      (str : Text) → append_to_basename (p ++ dot ∷ e) str ≡ (p ++ str) ++ dot ∷ e
  unfolding append_to_basename
  append_to_basename-append str =
      rw (append_to_basename, not_empty p, at, take-append p (dot ∷ e), behind p) refl
    where
      behind : (p : Text) → drop (length p) (p ++ dot ∷ e) ≡ dot ∷ e
      behind [] = refl
      behind (c ∷ p) = behind p

-- After a replacement the extension is the new one, a second replacement forgets the first, and a
-- text put behind the base name leaves the extension as it is.
pub replace_extension-get :
    (path e e' str : Text)
    → takes_extension path ≡ true
    → find_last dot e ≡ none
    → find_last slash e ≡ none
    → (get_extension (replace_extension path e) ≡ e)
      × (replace_extension (replace_extension path e) e' ≡ replace_extension path e')
      × (get_extension (append_to_basename (replace_extension path e) str) ≡ e)
replace_extension-get path e e' str h no_dot no_slash =
    let new = replace_extension-stem path e h in
    (
      ap get_extension new ∙ get_extension-append (stem path) e no_dot no_slash,
      ap (λ x. replace_extension x e') new
          ∙ replace_extension-stem _ e' (takes_extension-append (stem path) e no_dot no_slash)
          ∙ ap (λ x. x ++ dot ∷ e') (stem-append (stem path) e no_dot no_slash)
          ∙ sym (replace_extension-stem path e' h),
      ap (λ x. get_extension (append_to_basename x str)) new
          ∙ ap get_extension (append_to_basename-append (stem path) e no_dot no_slash str)
          ∙ get_extension-append (stem path ++ str) e no_dot no_slash,
    )
