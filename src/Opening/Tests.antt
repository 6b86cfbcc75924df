-- ===== src/Opening/Tests.antt =====
-- The upgrade theorem at a file of the first version.
use tinydb_cc_comet.Prelude.{
  ◌≡◌, refl, true, false, [], ◌∷◌, ◌++◌, take, drop, replicate, get_elem?,
}
use tinydb_cc_comet.Errors.{ok}
use tinydb_cc_comet.Bytes.{Bytes, bytes_eq}
use tinydb_cc_comet.Pager.{file_write}
use tinydb_cc_comet.Opening.{magic_prefix, upgrade, upgrade_version}
use tinydb_cc_comet.Opening.Accepted.{Upgraded, IsCurrent}
use tinydb_cc_comet.Opening.Upgrade.{upgrade-upgrade}

abbrev first_version : Bytes
first_version = magic_prefix ++ (1 ∷ 1 ∷ 9 ∷ 9 ∷ 9 ∷ 9 ∷ 5 ∷ [])

abbrev third_version : Bytes
third_version = magic_prefix ++ (3 ∷ 3 ∷ 0 ∷ 0 ∷ 0 ∷ 0 ∷ 5 ∷ [])

upgrade-first_version : upgrade false first_version ≡ ok third_version
unfolding upgrade upgrade_version take drop replicate get_elem? bytes_eq file_write
upgrade-first_version = refl

upgrade-upgrade_example :
    Upgraded false first_version third_version
    × IsCurrent third_version
    × (upgrade true third_version ≡ ok third_version)
upgrade-upgrade_example =
    upgrade-upgrade false true first_version third_version upgrade-first_version
