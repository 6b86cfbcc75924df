-- ===== src/Transaction/Tests.antt =====
-- The log theorem at a transaction that writes two pages of a fresh file.
use tinydb_cc_comet.Prelude.{ℕ, ◌≡◌, refl, List, [], ◌∷◌, arith, append-nil, sym}
use tinydb_cc_comet.Errors.{ok}
use tinydb_cc_comet.Bytes.{Bytes}
use tinydb_cc_comet.Pager.{Pager, create_file, get_or_open_wal}
use tinydb_cc_comet.Wal.{make_header}
use tinydb_cc_comet.Wal.Fields.{AllFit}
use tinydb_cc_comet.Wal.Tests.{sum_crc}
use tinydb_cc_comet.Transaction.{Transaction, start}
use tinydb_cc_comet.Transaction.Logged.{log_of, HasLog, write_pages, Logged, write_pages-Logged}

abbrev pub two_pages : List (ℕ × Bytes)
two_pages = (1, 5 ∷ 6 ∷ []) ∷ (2, 7 ∷ []) ∷ []

pub two_pages-AllFit : AllFit (log_of 9 two_pages)
two_pages-AllFit = (
  record {
    txn_fits = omega arith;
    kind_fits = omega arith;
    page_fits = omega arith;
    payload_fits = omega arith;
  },
  (
    record {
      txn_fits = omega arith;
      kind_fits = omega arith;
      page_fits = omega arith;
      payload_fits = omega arith;
    },
    tt,
  ),
)

create_file-HasLog : HasLog sum_crc [] create_file
unfolding get_or_open_wal create_file
create_file-HasLog = sym (append-nil make_header)

write_pages-Logged_example :
    (t : Transaction) × (p : Pager) × (write_pages sum_crc two_pages (start 9) create_file
      ≡ ok (t, p))
    × Logged sum_crc [] (start 9) create_file t p two_pages
unfolding start
write_pages-Logged_example =
    write_pages-Logged sum_crc two_pages [] (start 9) create_file refl create_file-HasLog
      two_pages-AllFit
