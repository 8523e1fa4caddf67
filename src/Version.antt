-- ===== src/Version.antt =====
-- `Version` of include/ddl/dd/dd_common_types.h and src/ddl/dd/dd_common_types.cpp.
pub mod Order
mod Tests
use dev_essential.Base.{ℕ, Bool, true, false, not, ◌&&◌, ltb, ◌==◌, if◌then◌else◌}

pub record Version : Type 0 where
  pub major : ℕ
  pub minor : ℕ

abbrev pub version : ℕ → ℕ → Version
version major minor = record { major = major; minor = minor }

abbrev pub ddl_version_30 : Version
ddl_version_30 = version 3 0

abbrev pub ddl_version_current : Version
ddl_version_current = version 4 1

unfoldable pub equals : Version → Version → Bool
equals a b = if a.major == b.major && a.minor == b.minor then true else false

unfoldable pub is_greater : Version → Version → Bool
is_greater a b =
    if ltb b.major a.major
    then true
    else if ltb a.major b.major
    then false
    else if ltb b.minor a.minor
    then true
    else false

unfoldable pub is_less : Version → Version → Bool
is_less a b =
    if ltb a.major b.major
    then true
    else if ltb b.major a.major
    then false
    else if ltb a.minor b.minor
    then true
    else false

unfoldable pub is_at_most : Version → Version → Bool
is_at_most a b = not (is_greater a b)

unfoldable pub is_at_least : Version → Version → Bool
is_at_least a b = not (is_less a b)

pub is_valid_version : Version → Bool
is_valid_version v =
    if is_less v (version 1 0)
    then false
    else if is_greater v ddl_version_current
    then false
    else true
