-- ===== src/Errors.antt =====
-- errors.py and the exceptions of wal.py, transaction.py and type_system.py, with the built-in ones
-- that the code raises or lets through. Messages are dropped; fields that callers read are kept.
use tinydb_cc_comet.Prelude.{ℕ, ◌≡◌, refl, Option, none, some}

-- transaction.py, the values of the enum
pub data TxnState : Type 0 where
  active committed rolled_back : TxnState

pub data Error : Type 0 where
  -- Python's own
  value_error overflow_error index_error key_error type_error runtime_error attribute_error : Error
  assertion_error struct_error : Error
  -- errors.py
  page_full invalid_database_file : Error
  token_error : ℕ → ℕ → Error
  unsupported_schema_version schema_mismatch : Error
  parse_error : ℕ → ℕ → Error
  execution_error constraint_violation catalog_corrupt : Error
  -- type_system.py
  codec_error : Error
  -- wal.py; the offset of the bad record
  wal_corruption : ℕ → Error
  invalid_wal_file : Error
  -- transaction.py
  invalid_txn_state : ℕ → TxnState → Error
  -- The model's own: a recursion that is bounded by fuel ran out of it.
  out_of_fuel : Error

-- A call returns a value or raises.
pub data Result {ℓ} (A : Type ℓ) : Type ℓ where
  ok : A → Result A
  err : Error → Result A

infixl 5 ◌>>=◌
abbrev pub ◌>>=◌ {ℓ κ} : {A : Type ℓ} {B : Type κ} → Result A → (A → Result B) → Result B
ok a >>= f = f a
err e >>= f = err e

-- `xs[i]` on a list: IndexError out of range.
abbrev pub or_error {ℓ} : {A : Type ℓ} → Error → Option A → Result A
or_error e none = err e
or_error e (some a) = ok a

-- What a successful chain says of its parts: the first call returned, and the second on its value.
pub first-ok {ℓ κ} :
    {A : Type ℓ} {B : Type κ} {b : B} (call : Result A) (next : A → Result B)
    → (call >>= next) ≡ ok b
    → (a : A) × (call ≡ ok a) × (next a ≡ ok b)
first-ok (err x) next raised = cc
first-ok (ok a) next returned = (a, refl, returned)
