-- ===== src/Path/Forms.antt =====
-- src/filesystem/path.cpp: the parent and the last element of every path, by its form.
use dev_essential.Base.{
  suc, ◌≡◌, refl, sym, ◌∙◌, Bool, true, false, not, ◌&&◌, none, some, [], ◌∷◌, ◌++◌, take, drop,
  Bool-cases, Option-cases, inl, inr,
}
use mathlib.Core.Bool.{false≢true}
use dev_essential.Strings.{Text, is_empty}
use dev_essential.Path.{
  slash, colon, find_last, ends_in, get_parent, get_last_element, remove_last_element,
}
use dev_essential.Path.Search.{find_last-Splits}
use dev_essential.Path.Hosts.{double_in}

-- A path: the root, one without a slash, or what is before its last slash and what is behind it.
pub data Form : Type 0 where
  root : Form
  bare : Text → Form
  below : Text → Text → Form

abbrev pub text_of : Form → Text
text_of root = slash ∷ []
text_of (bare s) = s
text_of (below p e) = p ++ slash ∷ e

abbrev pub IsForm : Form → Type 0
IsForm root = Unit {0}
IsForm (bare s) = find_last slash s ≡ none
IsForm (below p e) = (find_last slash e ≡ none) × (is_empty p && is_empty e ≡ false)

-- The path is its own parent, or it is divided into a parent and a last element.
abbrev pub SelfParent : Text → Type 0
SelfParent path = (get_parent path ≡ path) × (get_last_element path ≡ [])

abbrev pub Divides : Text → Text → Text → Type 0
Divides path p e =
    (get_parent path ≡ p) × (get_last_element path ≡ e) × (remove_last_element path ≡ p)

abbrev pub has_colon : Text → Bool
has_colon s = elim (find_last colon s) [ none ↦ false | some r ↦ true ]

-- What getParent, getLastElement and removeLastElement make of a path without a slash: with a colon
-- it is a drive.
abbrev pub BareActs : Bool → Text → Type 0
BareActs true s = SelfParent s
BareActs false s = Divides s [] s

abbrev pub BelowActs : Bool → Text → Text → Type 0
BelowActs true p e =
    SelfParent (p ++ slash ∷ e) × (remove_last_element (p ++ slash ∷ e) ≡ p ++ slash ∷ e)
BelowActs false p e = Divides (p ++ slash ∷ e) p e

abbrev pub Acts : Form → Type 0
Acts root = SelfParent (slash ∷ []) × (remove_last_element (slash ∷ []) ≡ slash ∷ [])
Acts (bare s) = BareActs (has_colon s) s
Acts (below p e) = BelowActs (ends_in p slash && not (double_in p)) p e

-- Every path has a form.
form_of : (path : Text) → (f : Form) × (text_of f ≡ path) × IsForm f
form_of path = elim (Option-cases (find_last slash path)) [
  | inl no_slash ↦ (bare path, refl, no_slash)
  | inr (r, found) ↦
      let (splits, no_slash, _) = find_last-Splits slash path r found in
      elim (Bool-cases (is_empty (take r path) && is_empty (drop (suc r) path))) [
        | inl alone ↦ (root, only_slash _ _ alone ∙ sym splits, tt)
        | inr there ↦ (below (take r path) (drop (suc r) path), sym splits, (no_slash, there))
      ]
]
  where
    only_slash : (p e : Text) → is_empty p && is_empty e ≡ true → slash ∷ [] ≡ p ++ slash ∷ e
    only_slash [] [] h = refl
    only_slash [] (c ∷ e) h = absurd (false≢true h)
    only_slash (c ∷ p) e h = absurd (false≢true h)
