-- ===== src/Path/Elements.antt =====
-- src/filesystem/path.cpp: the parent and the last element of a path, and `append`.
use dev_essential.Base.{
  ℕ, suc, ◌+◌, ◌<◌, ◌≡◌, refl, sym, ap, ◌∙◌, arith, Bool, false, not, ◌&&◌, ◌||◌, none, some, [],
  ◌∷◌, ◌++◌, take, drop, length, length-append, ◌==◌,
}
use mathlib.Core.Bool.{false≢true}
use mathlib.Core.List.{append_assoc}
use dev_essential.Strings.{Text, starts_with, find, is_empty}
use dev_essential.Path.{
  slash, colon, double_slash, find_last, ends_in, get_root_node, own_root, is_absolute, is_root,
  append, network_host, get_parent, get_last_element, remove_last_element, no,
}
use dev_essential.Path.Hosts.{network_host-below}
use dev_essential.Path.Search.{find_last-append, absent-first, absent-find_first}

pub take-append : (s t : Text) → take (length s) (s ++ t) ≡ s
take-append [] t = refl
take-append (c ∷ s) t = ap (λ x. c ∷ x) (take-append s t)

pub drop-append : (s t : Text) (c : ℕ) → drop (length s + 1) (s ++ c ∷ t) ≡ t
drop-append s t c = ap (λ k. drop k (s ++ c ∷ t)) (plus_one (length s)) ∙ behind s
  where
    plus_one : (n : ℕ) → n + 1 ≡ suc n
    plus_one n = omega arith

    behind : (s : Text) → drop (suc (length s)) (s ++ c ∷ t) ≡ t
    behind [] = refl
    behind (d ∷ s) = behind s

-- `//` does not end where a path that ends in another character goes on.
no_host : (p e : Text) → ends_in p slash ≡ false → network_host (p ++ slash ∷ e) (length p) ≡ false
no_host p e ends = network_host-below p e ∙ rw ends refl

pub not_root : (p e : Text) → is_empty p ≡ false → is_root (p ++ slash ∷ e) ≡ false
unfolding is_root
not_root [] e h = absurd (false≢true (sym h))
not_root (c ∷ p) e h =
    longer (c == slash) (length (p ++ slash ∷ e))
      (let n = length-append p (slash ∷ e) in omega arith)
  where
    longer : (b : Bool) (n : ℕ) → 0 < n → b && (suc n == 1) ≡ false
    longer b n h = ground arith

-- An element is no absolute path.
element_is_relative :
    (e : Text)
    → is_empty e ≡ false
    → find_last slash e ≡ none
    → find_last colon e ≡ none
    → is_absolute e ≡ some false
unfolding is_absolute get_root_node own_root starts_with find
element_is_relative [] there no_slash no_colon = absurd (false≢true (sym there))
element_is_relative (c ∷ e) there no_slash no_colon =
    ap (λ path. some (not (is_empty path))) (no_root_found (absent-first slash c e no_slash).0)
  where
    head_apart : c == slash ≡ false → starts_with double_slash (c ∷ e) ≡ false
    head_apart differ = ground arith

    no_root_found : c == slash ≡ false → get_root_node no (c ∷ e) ≡ []
    no_root_found differ =
        rw
          (
            get_root_node,
            find,
            absent-find_first colon (c ∷ e) no_colon,
            head_apart differ,
            own_root,
            differ,
          )
          refl

-- What the functions give where the last slash is inside.
module _ (path : Text) (r : ℕ) (found : find_last slash path ≡ some r)
    (inner : network_host path r || is_root path ≡ false) where
  pub get_parent-found : get_parent path ≡ take r path
  unfolding get_parent
  get_parent-found = rw (get_parent, found, inner) refl

  pub get_last_element-found : get_last_element path ≡ drop (r + 1) path
  unfolding get_last_element
  get_last_element-found = rw (get_last_element, found, inner) refl

  pub remove_last_element-found : remove_last_element path ≡ take r path
  unfolding remove_last_element
  remove_last_element-found =
      rw (remove_last_element, found, turned (network_host path r) (is_root path) inner) refl
    where
      turned : (a b : Bool) → a || b ≡ false → b || a ≡ false
      turned a b h = ground arith

-- An element that is appended to a path is its last element, and the path the parent.
pub append-elements :
    (p e : Text)
    → is_empty p ≡ false
    → ends_in p slash ≡ false
    → is_empty e ≡ false
    → find_last slash e ≡ none
    → find_last colon e ≡ none
    → (append p e ≡ some (p ++ slash ∷ e))
      × (get_parent (p ++ slash ∷ e) ≡ p)
      × (get_last_element (p ++ slash ∷ e) ≡ e)
      × (remove_last_element (p ++ slash ∷ e) ≡ p)
unfolding append is_root ends_in
append-elements p e there ends element no_slash no_colon = (
  rw
      (
        append,
        element,
        element_is_relative e element no_slash no_colon,
        there,
        own_not_root p there ends,
      )
      (after_slash p),
  get_parent-found _ _ found inner ∙ take-append p (slash ∷ e),
  get_last_element-found _ _ found inner ∙ drop-append p e slash,
  remove_last_element-found _ _ found inner ∙ take-append p (slash ∷ e),
)
  where
    found : find_last slash (p ++ slash ∷ e) ≡ some (length p)
    found = find_last-append slash p e no_slash

    inner : network_host (p ++ slash ∷ e) (length p) || is_root (p ++ slash ∷ e) ≡ false
    inner = rw (no_host p e ends, not_root p e there) refl

    longer : (b : Bool) (n : ℕ) → b && (suc (suc n) == 1) ≡ false
    longer b n = ground arith

    own_not_root : (p : Text) → is_empty p ≡ false → ends_in p slash ≡ false → is_root p ≡ false
    own_not_root [] there ends = refl
    own_not_root (c ∷ []) there ends = ground arith
    own_not_root (c ∷ d ∷ p) there ends = longer (c == slash) (length p)

    after_slash : (p : Text) → some ((p ++ slash ∷ []) ++ e) ≡ some (p ++ slash ∷ e)
    after_slash p = ap (λ x. some x) (append_assoc p (slash ∷ []) e)
