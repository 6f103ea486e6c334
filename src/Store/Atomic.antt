-- ===== src/Store/Atomic.antt =====
-- A failing append leaves the database as it was, wherever the engine fails (src/store.rs).
use quote_ledger.Common.{
  ℕ, ◌≡◌, refl, ◌∙◌, String, Bool, true, false, Option, none, some, List, [], ◌∷◌, Result, ok, err,
  is_ok, arith, if◌then◌else◌, leb,
}
use quote_ledger.Wire.{QuoteEvent, StoredEvent, StoreError}
use quote_ledger.Store.Tables.{Db, EventRow}
use quote_ledger.Store.Codec.{Codec}
use quote_ledger.Store.Engine.{
  Connection, StoreM, pure, fail, lift, query, continue, ◌>>=◌, call_engine, transaction,
  close_transaction,
}
use quote_ledger.Store.Append.{
  idempotency_lookup, read_rows, run_select, load_stored_events, load_events_in_seq_range,
  load_stored_events_between, replay_command, answer_replay, append_rows, append_found,
  append_command_events, row_to_stored,
}

-- The action never changes the database.
pub record ReadsOnly {A : Type 0} (m : StoreM A) : Type 0 where
  pub same : (conn : Connection) → (m conn).1.db ≡ conn.db

-- The action leaves the database as it was if it ends with an error.
pub record IsAtomic {A : Type 0} (m : StoreM A) : Type 0 where
  pub undone : (conn : Connection) → is_ok (m conn).0 ≡ false → (m conn).1.db ≡ conn.db

module _ {A : Type 0} where
  pub ReadsOnly-pure : (a : A) → ReadsOnly (pure a)
  ReadsOnly-pure a = record { same = λ conn. refl }

  pub ReadsOnly-fail : (e : StoreError) → ReadsOnly (fail {A = A} e)
  ReadsOnly-fail e = record { same = λ conn. refl }

  pub ReadsOnly-lift : (r : Result A StoreError) → ReadsOnly (lift r)
  ReadsOnly-lift r = record { same = λ conn. refl }

  pub ReadsOnly-query : (f : Db → A) → ReadsOnly (query f)
  ReadsOnly-query f = record { same = λ conn. refl }

  pub ReadsOnly-if :
      (b : Bool) (m n : StoreM A) → ReadsOnly m → ReadsOnly n → ReadsOnly (if b then m else n)
  ReadsOnly-if true m n rm rn = rm
  ReadsOnly-if false m n rm rn = rn

  pub ReadsOnly-IsAtomic : (m : StoreM A) → ReadsOnly m → IsAtomic m
  ReadsOnly-IsAtomic m r = record { undone = λ conn failed. r.same conn }

pub ReadsOnly-call_engine : ReadsOnly call_engine
ReadsOnly-call_engine = record { same = λ conn. choose conn conn.faults refl }
  where
    choose :
        (conn : Connection) (fs : List Bool) → conn.faults ≡ fs → (call_engine conn).1.db ≡ conn.db
    choose conn [] h = ground arith
    choose conn (true ∷ fs) h = ground arith
    choose conn (false ∷ fs) h = ground arith

module _ {A B : Type 0} where
  continue-same :
      (f : A → StoreM B) (p : Result A StoreError × Connection)
      → ((a : A) → ReadsOnly (f a))
      → (continue f p).1.db ≡ p.1.db
  continue-same f (ok a, conn) reads = (reads a).same conn
  continue-same f (err e, conn) reads = refl

  pub ReadsOnly-bind :
      (m : StoreM A) (f : A → StoreM B)
      → ReadsOnly m
      → ((a : A) → ReadsOnly (f a))
      → ReadsOnly (m >>= f)
  ReadsOnly-bind m f first next = record {
    same = λ conn. continue-same f (m conn) next ∙ first.same conn;
  }

  continue-undone :
      (f : A → StoreM B) (p : Result A StoreError × Connection)
      → ((a : A) → IsAtomic (f a))
      → is_ok (continue f p).0 ≡ false
      → (continue f p).1.db ≡ p.1.db
  continue-undone f (ok a, conn) atomic failed = (atomic a).undone conn failed
  continue-undone f (err e, conn) atomic failed = refl

  -- Reading first keeps an action atomic.
  pub IsAtomic-bind :
      (m : StoreM A) (f : A → StoreM B)
      → ReadsOnly m
      → ((a : A) → IsAtomic (f a))
      → IsAtomic (m >>= f)
  IsAtomic-bind m f first next = record {
    undone = λ conn failed. continue-undone f (m conn) next failed ∙ first.same conn;
  }

close_transaction-undone :
    {A : Type 0} (before : Db) (p : Result A StoreError × Connection)
    → is_ok (close_transaction before p).0 ≡ false
    → (close_transaction before p).1.db ≡ before
close_transaction-undone before (ok a, conn) failed = cc
close_transaction-undone before (err e, conn) failed = refl

pub IsAtomic-transaction : {A : Type 0} (body : StoreM A) → IsAtomic (transaction body)
IsAtomic-transaction body = record {
  undone = λ conn failed. close_transaction-undone conn.db _ failed;
}

pub ruleset reads_only = (
  ReadsOnly-pure, ReadsOnly-fail, ReadsOnly-lift, ReadsOnly-query, ReadsOnly-call_engine,
  ReadsOnly-bind,
)

pub idempotency_lookup-ReadsOnly : (q c : String) → ReadsOnly (idempotency_lookup q c)
unfolding idempotency_lookup
idempotency_lookup-ReadsOnly q c = search reads_only

module _ (codec : Codec) where
  read_rows-ReadsOnly : (rows : List EventRow) → ReadsOnly (read_rows codec rows)
  unfolding read_rows
  read_rows-ReadsOnly [] = search reads_only
  read_rows-ReadsOnly (row ∷ rows) = ReadsOnly-bind _ _ ReadsOnly-call_engine (λ _.
      ReadsOnly-bind _ _ (ReadsOnly-lift (row_to_stored codec row))
        (λ stored. ReadsOnly-bind _ _ (read_rows-ReadsOnly rows) (λ rest. ReadsOnly-pure _)))

  run_select-ReadsOnly : (select : Db → List EventRow) → ReadsOnly (run_select codec select)
  unfolding run_select
  run_select-ReadsOnly select = search (reads_only, read_rows-ReadsOnly)

  pub load_stored_events-ReadsOnly : (q : String) → ReadsOnly (load_stored_events codec q)
  unfolding load_stored_events
  load_stored_events-ReadsOnly q = run_select-ReadsOnly _

  pub load_between-ReadsOnly :
      (q : String) (after upto : ℕ) → ReadsOnly (load_stored_events_between codec q after upto)
  unfolding load_stored_events_between
  load_between-ReadsOnly q after upto =
      ReadsOnly-if (leb upto after) _ _ (ReadsOnly-pure _) (run_select-ReadsOnly _)

  replay_command-ReadsOnly :
      (q c : String) (range : ℕ × ℕ) (events : List QuoteEvent)
      → ReadsOnly (replay_command codec q c range events)
  unfolding replay_command load_events_in_seq_range
  replay_command-ReadsOnly q c range events =
      ReadsOnly-bind _ _ (run_select-ReadsOnly _)
        (λ existing. ReadsOnly-bind _ _ (ReadsOnly-lift _) (λ same. choose existing same))
    where
      choose :
          (existing : List StoredEvent) (same : Bool) → ReadsOnly (answer_replay q c existing same)
      choose existing true = ReadsOnly-pure existing
      choose existing false = ReadsOnly-fail _

  append_found-IsAtomic :
      (q c : String) (events : List QuoteEvent) (found : Option (ℕ × ℕ))
      → IsAtomic (append_found codec q c events found)
  unfolding append_found
  append_found-IsAtomic q c events (some range) =
      ReadsOnly-IsAtomic _ (replay_command-ReadsOnly q c range events)
  append_found-IsAtomic q c [] none = ReadsOnly-IsAtomic _ (ReadsOnly-fail _)
  append_found-IsAtomic q c (ev ∷ events) none =
      IsAtomic-transaction (append_rows codec q c (ev ∷ events))

  pub append_command_events-IsAtomic :
      (q c : String) (events : List QuoteEvent) → IsAtomic (append_command_events codec q c events)
  unfolding append_command_events
  append_command_events-IsAtomic q c events =
      IsAtomic-bind _ _ (idempotency_lookup-ReadsOnly q c) (append_found-IsAtomic q c events)

  -- Whatever the events, the key, the database and the points at which the engine fails, a call of
  -- append_command_events that ends with an error has left the database as it was.
  pub append_command_events-undone :
      (q c : String) (events : List QuoteEvent) (conn : Connection)
      → is_ok (append_command_events codec q c events conn).0 ≡ false
      → (append_command_events codec q c events conn).1.db ≡ conn.db
  append_command_events-undone q c events = (append_command_events-IsAtomic q c events).undone
