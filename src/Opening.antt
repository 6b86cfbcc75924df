-- ===== src/Opening.antt =====
-- `_open_file` and `_init_wal` of src/tinydb/pager.py: opening a database file, with the upgrades of
-- older headers, and its log. `file` and `wal` are what stands on the disk, `none` for no log.
pub mod Accepted
pub mod Upgrade
pub mod Tests
use tinydb_cc_comet.Prelude.{
  ℕ, ◌+◌, ◌/◌, max, Bool, true, false, not, Option, none, some, List, [], ◌∷◌, ◌==◌, if◌then◌else◌,
  length, get_elem?, take,
}
use tinydb_cc_comet.Errors.{
  Error, Result, ok, err, ◌>>=◌, or_error, index_error, invalid_database_file,
  unsupported_schema_version, schema_mismatch,
}
use tinydb_cc_comet.Bytes.{Bytes, bytes_eq}
use tinydb_cc_comet.Wal.{open_wal}
use tinydb_cc_comet.Pager.{Pager, page_size, create_file, file_write}
use tinydb_cc_comet.Recovery.{Outcome, replay}

-- MAGIC_PREFIX
abbrev pub magic_prefix : Bytes
magic_prefix = b'T' ∷ b'I' ∷ b'N' ∷ b'Y' ∷ b'D' ∷ b'B' ∷ 0 ∷ []

abbrev pub schema_version : ℕ
schema_version = 3

-- The file of a header with version byte 2: schema byte 2 is set to 3, unless there is a log.
unfoldable pub upgrade_v2 : Bool → ℕ → Bytes → Result Bytes
upgrade_v2 wal_exists schema file =
    if schema == schema_version
    then ok file
    else if schema == 2
    then (if wal_exists then err schema_mismatch else ok (file_write 8 (schema_version ∷ []) file))
    else err unsupported_schema_version

unfoldable pub check_v3 : ℕ → Bytes → Result Bytes
check_v3 schema file = if schema == schema_version then ok file else err unsupported_schema_version

-- By the version byte; a header with version byte 1 gets both bytes and an empty free list.
unfoldable pub upgrade_version : Bool → ℕ → Bytes → Bytes → Result Bytes
upgrade_version wal_exists version header file =
    if version == 1
    then ok (file_write 7 (3 ∷ schema_version ∷ 0 ∷ 0 ∷ 0 ∷ 0 ∷ []) file)
    else if version == 2
    then (or_error index_error (get_elem? header 8) >>= λ schema. upgrade_v2 wal_exists schema file)
    else if version == 3
    then (or_error index_error (get_elem? header 8) >>= λ schema. check_v3 schema file)
    else err unsupported_schema_version

-- An existing file: its header is tested, and brought up to date.
unfoldable pub upgrade : Bool → Bytes → Result Bytes
upgrade wal_exists file =
    let header = take 9 file in
    if bytes_eq (take 7 header) magic_prefix
    then (or_error index_error (get_elem? header 7) >>= λ version.
        upgrade_version wal_exists version header file)
    else err invalid_database_file

abbrev pub is_some {ℓ} : {A : Type ℓ} → Option A → Bool
is_some none = false
is_some (some a) = true

-- The map has the size that the file had before an upgrade.
unfoldable pub open_file : Bytes → Option Bytes → Result Pager
open_file [] wal = ok create_file
open_file (b ∷ bs) wal = do
  file ← upgrade (is_some wal) (b ∷ bs)
  ok (record {
    is_memory = false;
    mem_pages = [];
    file = file;
    mmap_size = length (b ∷ bs);
    next_page_id = max 2 (length (b ∷ bs) / page_size);
    wal = none;
  })

-- What replay leaves; an exception of it is raised on.
abbrev pub recovered : Pager → Option Outcome → Option (Result Pager)
recovered p none = none
recovered p (some out) = elim out.raised [
  | none ↦ some (ok (record p { file = out.main; wal = some out.log }))
  | some x ↦ some (err x)
]

module _ (crc32 : Bytes → ℕ) where
  abbrev pub recover_log : Pager → Result Bytes → Option (Result Pager)
  recover_log p (err x) = some (err x)
  recover_log p (ok w) = recovered p (replay crc32 p.file w)

  -- `_init_wal` on a file; `none` means that the fuel of the scan ran out.
  unfoldable pub init_wal : Option Bytes → Pager → Option (Result Pager)
  init_wal none p = some (ok p)
  init_wal (some w) p = recover_log p (open_wal w)

  unfoldable pub open_pager : Bytes → Option Bytes → Option (Result Pager)
  open_pager file wal = elim (open_file file wal) [ err x ↦ some (err x) | ok p ↦ init_wal wal p ]
