-- ===== src/Lib.antt =====
-- tinydb: a small SQL database in Python. This library models its storage
-- engine, its tokenizer, its parser, the joins and the transactions of its
-- executor.
--
-- A database is a file of 4 KB pages with a write-ahead log beside it. `Pager` hands out pages and
-- keeps the free list in page 0; a `SlottedPage` holds the rows of a table within one page; the row
-- codec turns a list of values into the bytes of a row by the codecs of the column types. A
-- `Transaction` logs each page that it writes and keeps it pending; `commit` appends a COMMIT record
-- to the log, writes the pending pages to the main file and truncates the log. `Recovery.replay`
-- reads the log when a database is opened and applies the transactions that are committed. A text
-- of SQL becomes tokens, these become statements, and a SELECT over several tables is run as nested
-- loops over their rows.
--
-- The files and the code (src/tinydb/ in the repository):
--   SlottedPage, with Image (the page image), Rows (rows under the operations), Room (free space) and
--     Updates: slotted_page.py
--   Wal, with Fields, Reading, Torn and Truncate: wal.py
--   Pager, with FreeList and Files: pager.py
--   Opening, with Accepted and Upgrade: _open_file and _init_wal of pager.py
--   Transaction, with Logged: transaction.py
--   Recovery, with Replay, Ended (the log of one transaction), Keys, Noted and Serial (any whole log), Atomic,
--     Effects and Crash: recovery.py
--   TypeSystem, with Signed, Fields and RoundTrip: type_system.py
--   RowCodec, with Bitmap and RoundTrip: row_codec.py and col_type_and_params of _schema.py
--   BTree, with Bisect, Leaf, Overflow and Tree (the walks over pages): btree.py
--   Tokenizer, with Position: tokenizer.py and the literals of type_system.py
--   Parser: the cursor and expressions of parser.py, with Statements, Tables (CREATE TABLE), Joins,
--     Select and Program (the dispatch); Printer and RoundTrip relate expressions to their spelling, Fuel
--     and the modules Total* show that all readers end
--   JoinExecutor: the joins of _join_executor.py, with Loops (INNER), Full (FULL),
--     Widths, Typed and Keys (the widths of the rows), and Positions
--   Executor: the transactions of executor.py with _executor_snapshot.py, with Pages (what is read within a
--     transaction) and Rollback
--   Errors: errors.py and the exceptions of the other modules. Bytes and Dict: Python's bytes, int
--     and struct conversions, and dict. Prelude: numbers, lists and slices that all parts share.
--   A function has the name of the Python function, and a helper is named for the lines it stands
--   for. Each component has a module Tests with its theorems at concrete inputs.
--
-- State is passed explicitly: a method takes its object and returns the new one, in `Result` where it
-- may raise. The effects of `commit` are a list, so that a crash is a run of the first few of them;
-- each append to the log and each page write counts as one step. A file is its bytes, and a mapped
-- file shows a prefix of them. Python's integers are natural numbers where no negative one can arise,
-- and integers in the bookkeeping of free space and in the codecs.
--
-- Fuel: the scan of a log takes one round for each byte and one more, and a round passes at least 21
-- bytes. A bisection takes a round for each key at most, since each round narrows its bounds. The
-- tokenizer takes a round for each character at most and one for the end. The walks of
-- the B+tree have a parameter for their fuel. A level of the expression grammar costs one unit, and
-- sixteen for each token and eight more are given; the other loops of the parser take a token in each
-- round, and get one round more than there are tokens. Every other loop is structural.
--
-- Parameters: `zlib.crc32`, UTF-8, which refuses some texts, the codecs over floats and datetimes, and for the
-- tokenizer Python's character classes, `upper`, `int` and `float`; for the parser also `lower` and the
-- parsers of ISO dates; for the joins Python's comparisons of two values.
--
-- Not modelled: the resolver and the plan, the statements of the executor, which
-- are arbitrary functions of its state here, what the join executor
-- does above the joins (projection, sorting, limits, aggregation), the catalog, the index
-- manager above the B+tree, the file lock and the REPL.
mod Prelude
pub mod Errors
pub mod Bytes
pub mod Dict
pub mod SlottedPage
pub mod Wal
pub mod TypeSystem
pub mod RowCodec
pub mod Pager
pub mod Transaction
pub mod Recovery
pub mod Opening
pub mod BTree
pub mod Tokenizer
pub mod Parser
pub mod JoinExecutor
pub mod Executor
