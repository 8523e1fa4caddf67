-- ===== src/Version/Order.antt =====
-- The operators of `Version` are one total order.
use dev_essential.Base.{◌<◌, ◌≡◌, ◌⊎◌, ◌↔◌, arith, true}
use dev_essential.Version.{Version, equals, is_greater, is_less, is_at_most, is_at_least}

-- By major, then by minor.
abbrev pub Before : Version → Version → Type 0
Before a b = (a.major < b.major) ⊎ ((a.major ≡ b.major) × (a.minor < b.minor))

is_less-Before : (a b : Version) → (is_less a b ≡ true) ↔ Before a b
unfolding is_less
is_less-Before a b = ground arith

-- `<` and `>` are the lexicographic order and its converse, `<=` and `>=` hold where these fail,
-- and `==` holds where neither `<` nor `>` does.
pub operators_agree :
    (a b : Version)
    → ((is_less a b ≡ true) ↔ Before a b)
      × ((is_greater a b ≡ true) ↔ Before b a)
      × ((is_at_most a b ≡ true) ↔ (Before a b ⊎ (a ≡ b)))
      × ((is_at_least a b ≡ true) ↔ (Before b a ⊎ (a ≡ b)))
      × ((equals a b ≡ true) ↔ (a ≡ b))
unfolding is_less is_greater is_at_most is_at_least equals
operators_agree a b = (ground arith, ground arith, ground arith, ground arith, ground arith)

-- `<` is transitive.
pub is_less_trans : (a b c : Version) → is_less a b ≡ true → is_less b c ≡ true → is_less a c ≡ true
unfolding is_less
is_less_trans a b c p q = ground arith
