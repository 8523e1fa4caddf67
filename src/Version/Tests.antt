-- ===== src/Version/Tests.antt =====
-- Runs of the operators of `Version`, and the theorems at concrete versions.
use dev_essential.Base.{◌≡◌, ◌↔◌, refl, true, false}
use dev_essential.Version.{
  version, equals, is_greater, is_less, is_at_most, is_at_least, is_valid_version,
}
use dev_essential.Version.Order.{Before, operators_agree}

methods : Unit {0}
unfolding equals is_greater is_less is_at_most is_at_least is_valid_version
methods = tt

compares :
    (is_less (version 2 9) (version 3 0) ≡ true)
    × (is_greater (version 3 1) (version 3 0) ≡ true)
    × (is_at_least (version 3 0) (version 3 0) ≡ true)
    × (is_valid_version (version 4 1) ≡ true)
    × (is_valid_version (version 4 2) ≡ false)
    × (is_valid_version (version 0 9) ≡ false)
unfolding methods
compares = (refl, refl, refl, refl, refl, refl)

operators_agree_example :
    (is_less (version 2 9) (version 3 0) ≡ true) ↔ Before (version 2 9) (version 3 0)
operators_agree_example = (operators_agree (version 2 9) (version 3 0)).0
