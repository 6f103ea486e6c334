-- ===== src/Store/Runs.antt =====
-- What an action of the store does when the engine does not fail, and that nothing but an engine
-- failure can stop it from doing so.
use quote_ledger.Common.{
  sym, subst, arith, ◌≡◌, refl, ap, ◌∙◌, ◌⊎◌, inl, inr, Bool, true, false, List, [], ◌∷◌, Option,
  some, Result, ok, err,
}
use quote_ledger.Wire.{StoreError}
use quote_ledger.Store.Tables.{Db}
use quote_ledger.Store.Engine.{
  Connection, StoreM, pure, fail, lift, query, continue, ◌>>=◌, ◌>>◌, call_engine, engine_fault,
  apply_insert, transaction, close_transaction,
}

abbrev pub quiet : Db → Connection
quiet db = record { db = db; faults = [] }

-- The action has ended with `r` and left `db'`, or the engine has failed.
abbrev pub Ends :
    {A : Type 0} → Result A StoreError → Db → Result A StoreError × Connection → Type 0
Ends r db' (out, conn') = (out ≡ r) × (conn'.db ≡ db') ⊎ (out ≡ err engine_fault)

-- From `db` the action `m` returns `r` and leaves `db'`, unless the engine fails; with no faults it does.
pub record Runs {A : Type 0} (m : StoreM A) (db : Db) (r : Result A StoreError) (db' : Db)
    : Type 0 where
  pub ends_from : (faults : List Bool) → Ends r db' (m (record { db = db; faults = faults }))
  pub clean : m (quiet db) ≡ (r, quiet db')

module _ {A : Type 0} {m : StoreM A} {db db' : Db} {r : Result A StoreError} where
  pub Ends-at : Runs m db r db' → (conn : Connection) → conn.db ≡ db → Ends r db' (m conn)
  Ends-at run conn e =
      subst (λ d. Ends r db' (m (record { db = d; faults = conn.faults }))) (sym e)
        (run.ends_from conn.faults)

  pub Runs-of :
      ((conn : Connection) → conn.db ≡ db → Ends r db' (m conn))
      → m (quiet db) ≡ (r, quiet db')
      → Runs m db r db'
  Runs-of ends clean = record {
    ends_from = λ faults. ends (record { db = db; faults = faults }) refl;
    clean = clean;
  }

module _ {A : Type 0} where
  pub Runs-pure : (a : A) (db : Db) → Runs (pure a) db (ok a) db
  Runs-pure a db = Runs-of (λ conn e. inl (refl, e)) (refl)

  pub Runs-fail : (e : StoreError) (db : Db) → Runs (fail {A = A} e) db (err e) db
  Runs-fail x db = Runs-of (λ conn e. inl (refl, e)) (refl)

  pub Runs-lift : (r : Result A StoreError) (db : Db) → Runs (lift r) db r db
  Runs-lift r db = Runs-of (λ conn e. inl (refl, e)) (refl)

  pub Runs-lift_eq : {r r' : Result A StoreError} → r ≡ r' → (db : Db) → Runs (lift r) db r' db
  Runs-lift_eq h db = Runs-of (λ conn e. inl (h, e)) (ap (λ r. (r, quiet db)) h)

  pub Runs-query : (f : Db → A) (db : Db) → Runs (query f) db (ok (f db)) db
  Runs-query f db = Runs-of (λ conn e. inl (ap (λ d. ok (f d)) e, e)) (refl)

pub Runs-call_engine : (db : Db) → Runs call_engine db (ok tt) db
Runs-call_engine db = Runs-of (λ conn e. choose conn.faults conn e refl) (refl)
  where
    choose :
        (fs : List Bool) (conn : Connection)
        → conn.db ≡ db
        → conn.faults ≡ fs
        → Ends (ok tt) db (call_engine conn)
    choose [] conn e h = ground arith
    choose (true ∷ fs) conn e h = ground arith
    choose (false ∷ fs) conn e h = ground arith

pub Runs-insert :
    (insert : Db → Option Db) {db db' : Db}
    → insert db ≡ some db'
    → Runs (apply_insert insert) db (ok tt) db'
Runs-insert insert {db} {db'} h =
    Runs-of (λ conn e. inl (ground (arith, ap insert e))) (rw (h, apply_insert) refl)

module _ {A B : Type 0} (f : A → StoreM B) where
  bind-Ends :
      {a : A} {db1 : Db} {r : Result B StoreError} {db2 : Db} (p : Result A StoreError × Connection)
      → Ends (ok a) db1 p
      → ((conn : Connection) → conn.db ≡ db1 → Ends r db2 (f a conn))
      → Ends r db2 (continue f p)
  bind-Ends {a} (ok x, conn) (inl (same, e)) next = let x_is : x ≡ a = cc in rw x_is (next conn e)
  bind-Ends (err x, conn) (inl (same, e)) next = cc
  bind-Ends (ok x, conn) (inr fault) next = cc
  bind-Ends (err x, conn) (inr fault) next = inr (cc fault)

  pub Runs-bind :
      {m : StoreM A} {a : A} {db db1 db2 : Db} {r : Result B StoreError}
      → Runs m db (ok a) db1
      → Runs (f a) db1 r db2
      → Runs (m >>= f) db r db2
  Runs-bind {m} first next =
      Runs-of (λ conn e. bind-Ends (m conn) (Ends-at first conn e) (Ends-at next))
        (ap (continue f) first.clean ∙ next.clean)

  bind_fails :
      {x : StoreError} {db1 : Db} (p : Result A StoreError × Connection)
      → Ends (err x) db1 p
      → Ends (err x) db1 (continue f p)
  bind_fails (ok a, conn) (inl (same, e)) = cc
  bind_fails (err y, conn) (inl (same, e)) = inl (cc same, e)
  bind_fails (ok a, conn) (inr fault) = cc
  bind_fails (err y, conn) (inr fault) = inr (cc fault)

  pub Runs-bind_err :
      {m : StoreM A} {x : StoreError} {db db1 : Db}
      → Runs m db (err x) db1
      → Runs (m >>= f) db (err x) db1
  Runs-bind_err {m} first =
      Runs-of (λ conn e. bind_fails (m conn) (Ends-at first conn e)) (ap (continue f) first.clean)

module _ {A : Type 0} where
  close-Ends :
      {a : A} {db' : Db} (before : Db) (p : Result A StoreError × Connection)
      → Ends (ok a) db' p
      → Ends (ok a) db' (close_transaction before p)
  close-Ends before (ok x, conn) h = h
  close-Ends before (err x, conn) (inl (same, e)) = cc
  close-Ends before (err x, conn) (inr fault) = inr (cc fault)

  -- A body that ends well is committed.
  pub Runs-transaction :
      {body : StoreM A} {a : A} {db db' : Db}
      → Runs body db (ok a) db'
      → Runs (transaction body) db (ok a) db'
  Runs-transaction {body} {a} {db} {db'} run =
      Runs-of (λ conn e. close-Ends conn.db _ (Ends-at steps conn e))
        (ap (close_transaction db) steps.clean)
    where
      steps : Runs (call_engine >> (body >>= λ x. call_engine >> pure x)) db (ok a) db'
      steps =
          Runs-bind _ (Runs-call_engine db)
            (Runs-bind _ run (Runs-bind _ (Runs-call_engine db') (Runs-pure a db')))
