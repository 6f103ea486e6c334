-- ===== src/Store/Append.antt =====
-- The functions of src/store.rs, over a codec.
use quote_ledger.Common.{
  ℕ, suc, ◌+◌, ◌-◌, leb, ◌==◌, String, Bool, true, false, not, ◌&&◌, Option, none, some, List, [],
  ◌∷◌, length, Result, ok, err, map_err, ok_or, if◌then◌else◌,
}
use quote_ledger.Common
use quote_ledger.Common.Int.{ℤ, fits_i64}
use quote_ledger.Wire.{
  EventKind, QuoteEvent, StoredEvent, StoreError, SqliteError, sqlite, corrupt, empty_append,
  idempotency_conflict,
}
use quote_ledger.Store.Tables.{
  Bytes, EventRow, Db, as_i64, as_u64, select_events, select_seq_range, select_after, find_key,
  next_seq_of, insert_event, insert_key,
}
use quote_ledger.Store.Codec.{Codec}
use quote_ledger.Store.Engine.{
  StoreM, pure, fail, lift, query, ◌>>=◌, ◌>>◌, call_engine, apply_insert, transaction,
}

unfoldable pub event_type_for : QuoteEvent → String
event_type_for ev = elim ev.kind [
  | some (EventKind.quote_created _ _) ↦ "quote_created"
  | some (EventKind.line_item_added _ _ _ _ _) ↦ "line_item_added"
  | some EventKind.quote_finalized ↦ "quote_finalized"
  | none ↦ "unknown"
]

unfoldable pub bytes_eq : Bytes → Bytes → Bool
bytes_eq [] [] = true
bytes_eq (x ∷ xs) (y ∷ ys) = x == y && bytes_eq xs ys
bytes_eq _ _ = false

-- The two columns of a row, if there is one.
abbrev pub as_range : Option (ℤ × ℤ) → Option (ℕ × ℕ)
as_range none = none
as_range (some (first, last)) = some (as_u64 first, as_u64 last)

-- `SELECT first_seq, last_seq …` with `optional()`
unfoldable pub idempotency_lookup : String → String → StoreM (Option (ℕ × ℕ))
idempotency_lookup quote_id client_command_id = do
  call_engine
  row ← query (λ db. find_key db.keys quote_id client_command_id)
  pure (as_range row)

-- `r.get::<_, i64>(0)?` refuses a sum that SQLite had to make a REAL.
unfoldable pub column_as_u64 : ℤ → StoreM ℕ
column_as_u64 z =
    if fits_i64 z then pure (as_u64 z) else fail (sqlite SqliteError.invalid_column_type)

unfoldable pub read_next_seq : String → StoreM ℕ
read_next_seq quote_id = do
  call_engine
  next ← query (λ db. next_seq_of db quote_id)
  column_as_u64 next

-- The stored events, or a conflict if the payloads differ.
abbrev pub answer_replay : String → String → List StoredEvent → Bool → StoreM (List StoredEvent)
answer_replay quote_id client_command_id existing true = pure existing
answer_replay quote_id client_command_id existing false =
    fail (idempotency_conflict quote_id client_command_id)

-- `events.is_empty()`
abbrev pub no_events : List QuoteEvent → Bool
no_events [] = true
no_events (ev ∷ events) = false

module _ (codec : Codec) where
  unfoldable pub row_to_stored : EventRow → Result StoredEvent StoreError
  row_to_stored row = elim (codec.decode row.payload) [
    | ok event ↦ ok (record { seq = as_u64 row.seq; quote_id = row.quote_id; event = some event })
    | err why ↦ err (corrupt why)
  ]

  -- `while let Some(row) = rows.next()? { … out.push(row_to_stored(…)?); }`
  unfoldable pub read_rows : List EventRow → StoreM (List StoredEvent)
  read_rows [] = do call_engine; pure []
  read_rows (row ∷ rows) = do
    call_engine
    stored ← lift (row_to_stored row)
    rest ← read_rows rows
    pure (stored ∷ rest)

  -- `prepare`, `query` and the loop over the rows
  unfoldable pub run_select : (Db → List EventRow) → StoreM (List StoredEvent)
  run_select select = do call_engine; call_engine; rows ← query select; read_rows rows

  unfoldable pub load_stored_events : String → StoreM (List StoredEvent)
  load_stored_events quote_id = run_select (λ db. select_events db quote_id)

  unfoldable pub load_events_in_seq_range : String → ℕ → ℕ → StoreM (List StoredEvent)
  load_events_in_seq_range quote_id first_seq last_seq =
      run_select (λ db. select_seq_range db quote_id (as_i64 first_seq) (as_i64 last_seq))

  unfoldable pub load_stored_events_between : String → ℕ → ℕ → StoreM (List StoredEvent)
  load_stored_events_between quote_id after_seq_exclusive upto_seq_inclusive =
      if leb upto_seq_inclusive after_seq_exclusive
      then pure []
      else run_select
          (λ db. select_after db quote_id (as_i64 after_seq_exclusive) (as_i64 upto_seq_inclusive))

  unfoldable pub encode_quote_event : QuoteEvent → Result Bytes StoreError
  encode_quote_event ev = map_err corrupt (codec.encode ev)

  -- The loop over the zipped lists, which stops at the end of the shorter one.
  unfoldable pub same_payloads : List StoredEvent → List QuoteEvent → Result Bool StoreError
  same_payloads (stored ∷ existing) (new_ev ∷ incoming) =
      Common.◌>>=◌ (ok_or (corrupt "stored event missing payload") stored.event) λ old_ev.
        Common.◌>>=◌ (encode_quote_event old_ev) λ old_bytes.
          Common.◌>>=◌ (encode_quote_event new_ev) λ new_bytes.
            let rest = same_payloads existing incoming in
            if bytes_eq old_bytes new_bytes then rest else ok false
  same_payloads _ _ = ok true

  unfoldable pub same_command_payloads : List StoredEvent → List QuoteEvent → Result Bool StoreError
  same_command_payloads existing incoming =
      if length existing == length incoming then same_payloads existing incoming else ok false

  -- One round of the insertion loop.
  unfoldable pub insert_one : String → ℕ → QuoteEvent → StoreM StoredEvent
  insert_one quote_id seq ev = do
    payload ← lift (encode_quote_event ev)
    call_engine
    apply_insert (
        insert_event (record {
          quote_id = quote_id;
          seq = as_i64 seq;
          event_type = event_type_for ev;
          payload = payload;
        }))
    pure (record { seq = seq; quote_id = quote_id; event = some ev })

  -- `for ev in events { …; seq_cursor += 1; }`: the stored events, and the cursor after the loop.
  unfoldable pub insert_events : String → ℕ → List QuoteEvent → StoreM (List StoredEvent × ℕ)
  insert_events quote_id seq_cursor [] = pure ([], seq_cursor)
  insert_events quote_id seq_cursor (ev ∷ events) = do
    stored ← insert_one quote_id seq_cursor ev
    rest ← insert_events quote_id (suc seq_cursor) events
    pure (stored ∷ rest.0, rest.1)

  -- The body of the transaction.
  unfoldable pub append_rows : String → String → List QuoteEvent → StoreM (List StoredEvent)
  append_rows quote_id client_command_id events = do
    first_seq ← read_next_seq quote_id
    (stored, seq_cursor) ← insert_events quote_id first_seq events
    call_engine
    apply_insert (
        insert_key (record {
          quote_id = quote_id;
          client_command_id = client_command_id;
          first_seq = as_i64 first_seq;
          last_seq = as_i64 (seq_cursor - 1);
        }))
    pure stored

  -- The branch of `append_command_events` on a key that is already there.
  unfoldable pub replay_command :
      String → String → ℕ × ℕ → List QuoteEvent → StoreM (List StoredEvent)
  replay_command quote_id client_command_id range events = do
    existing ← load_events_in_seq_range quote_id range.0 range.1
    same ← lift (same_command_payloads existing events)
    answer_replay quote_id client_command_id existing same

  -- `append_command_events` after the lookup.
  unfoldable pub append_found :
      String → String → List QuoteEvent → Option (ℕ × ℕ) → StoreM (List StoredEvent)
  append_found quote_id client_command_id events (some range) =
      replay_command quote_id client_command_id range events
  append_found quote_id client_command_id events none =
      if no_events events
      then fail empty_append
      else transaction (append_rows quote_id client_command_id events)

  unfoldable pub append_command_events :
      String → String → List QuoteEvent → StoreM (List StoredEvent)
  append_command_events quote_id client_command_id events = do
    found ← idempotency_lookup quote_id client_command_id
    append_found quote_id client_command_id events found
