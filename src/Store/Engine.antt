-- ===== src/Store/Engine.antt =====
-- The connection: the database, and the engine's choice, call by call, of whether it fails. A list
-- of faults that has run out means no more failures. An action is a function of src/store.rs that
-- uses the connection; `?` is the bind of its `do` block.
use quote_ledger.Common.{Bool, true, false, Option, none, some, List, [], ◌∷◌, Result, ok, err}
use quote_ledger.Wire.{StoreError, SqliteError, sqlite}
use quote_ledger.Store.Tables.{Db}

pub record Connection : Type 0 where
  pub db : Db
  pub faults : List Bool

abbrev pub StoreM : Type 0 → Type 0
StoreM A = Connection → Result A StoreError × Connection

module _ {A : Type 0} where
  abbrev pub pure : A → StoreM A
  pure a conn = (ok a, conn)

  abbrev pub fail : StoreError → StoreM A
  fail e conn = (err e, conn)

  abbrev pub lift : Result A StoreError → StoreM A
  lift r conn = (r, conn)

  -- what a statement reads
  abbrev pub query : (Db → A) → StoreM A
  query f conn = (ok (f conn.db), conn)

-- What follows an action, on how the action ended.
abbrev pub continue :
    {A B : Type 0}
    → (A → StoreM B)
    → Result A StoreError × Connection
    → Result B StoreError × Connection
continue f (ok a, conn) = f a conn
continue f (err e, conn) = (err e, conn)

infixl 5 ◌>>=◌ ◌>>◌
abbrev pub ◌>>=◌ : {A B : Type 0} → StoreM A → (A → StoreM B) → StoreM B
◌>>=◌ m f conn = continue f (m conn)

abbrev pub ◌>>◌ : {A B : Type 0} → StoreM A → StoreM B → StoreM B
m >> k = m >>= λ _. k

abbrev pub engine_fault : StoreError
engine_fault = sqlite SqliteError.engine

-- One call of the engine: it succeeds, or it fails and the database is as it was.
abbrev pub call_engine : StoreM (Unit {0})
call_engine conn = elim conn.faults [
  | [] ↦ (ok tt, conn)
  | true ∷ faults ↦ (err engine_fault, record conn { faults = faults })
  | false ∷ faults ↦ (ok tt, record conn { faults = faults })
]

-- `execute` of an `INSERT`
abbrev pub apply_insert : (Db → Option Db) → StoreM (Unit {0})
apply_insert insert conn = elim (insert conn.db) [
  | none ↦ (err (sqlite SqliteError.constraint_violation), conn)
  | some db ↦ (ok tt, record conn { db = db })
]

-- A `tx` that is dropped before `commit` has returned rolls back to the database that it began with.
abbrev pub close_transaction :
    {A : Type 0} → Db → Result A StoreError × Connection → Result A StoreError × Connection
close_transaction before (ok a, conn) = (ok a, conn)
close_transaction before (err e, conn) = (err e, record conn { db = before })

-- What stands between `transaction_with_behavior` and `commit`, both included.
abbrev pub transaction : {A : Type 0} → StoreM A → StoreM A
transaction body conn =
    close_transaction conn.db ((do call_engine; a ← body; call_engine; pure a) conn)
