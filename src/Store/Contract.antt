-- ===== src/Store/Contract.antt =====
-- `append_command_events` of src/store.rs against the abstract view of the store.
use mathlib.Core.List.{append-nil}
use quote_ledger.Common.{
  Result, suc, ◌+◌, ◌<◌, ◌≡◌, ◌≢◌, refl, sym, ap, String, Bool, Option, none, some, List, [], ◌∷◌,
  ◌++◌, length, eq_iff, inl, inr, ok, err, subst,
}
use quote_ledger.Common.Int.{ℤ, i64_limit}
use quote_ledger.Wire.{QuoteEvent, StoredEvent, StoreError, idempotency_conflict}
use quote_ledger.Mapping.RoundTrip.{stored_from}
use quote_ledger.Store.Tables.{EventRow, Db, find_key}
use quote_ledger.Store.Codec.{Codec, IsLossless}
use quote_ledger.Store.Engine.{pure}
use quote_ledger.Store.Runs.{
  Runs, Runs-bind, Runs-pure, Runs-fail, Runs-lift_eq, Runs-query, Runs-call_engine,
  Runs-transaction,
}
use quote_ledger.Store.Match.{RowsMatch}
use quote_ledger.Store.Select.{rows_of, Runs-load_range}
use quote_ledger.Store.Insert.{key_row, Runs-append_rows}
use quote_ledger.Store.Payloads.{same_command_payloads_self, same_command_payloads-other}
use quote_ledger.Store.History.{
  History, extend, extend-Extends, Recorded, Represents, Grows, Recorded-grow, find_key-append_old,
  find_key-append_new, find_key-append_other, extended_rows,
}
use quote_ledger.Store.Append.{
  same_command_payloads, load_events_in_seq_range, idempotency_lookup, append_rows, replay_command,
  append_found, append_command_events, answer_replay, as_range,
}

pub Runs-idempotency_lookup :
    (db : Db) (q c : String) {found : Option (ℤ × ℤ)}
    → find_key db.keys q c ≡ found
    → Runs (idempotency_lookup q c) db (ok (as_range found)) db
unfolding idempotency_lookup
Runs-idempotency_lookup db q c e = rw (← e) (
    Runs-bind _ (Runs-call_engine db) (
      Runs-bind (λ row. pure (as_range row)) (Runs-query (λ d. find_key d.keys q c) db)
        (Runs-pure _ db)))

module _ (codec : Codec) (lossless : IsLossless codec) (db : Db) (h : History) (q c : String)
    (pre : List QuoteEvent) (ev : QuoteEvent) (more : List QuoteEvent)
    (sound : Represents codec db h) (r : Recorded db h q c pre (ev ∷ more))
    (small : length (h q) < i64_limit) where
  -- The stored events of a recorded command are read back as they were.
  Runs-load_recorded :
      Runs
        (load_events_in_seq_range codec q (suc (length pre)) (length pre + suc (length more)))
        db
        (ok (stored_from q (suc (length pre)) (ev ∷ more)))
        db
  Runs-load_recorded =
      Runs-load_range codec lossless q db pre ev more r.post
        (subst (λ l. RowsMatch codec q 1 (rows_of db q) l) r.history (sound.rows q))
        (subst (λ (l : List QuoteEvent). length l < i64_limit) r.history small)

  Runs-replay_command :
      (events : List QuoteEvent) {same : Bool} {answer : Result (List StoredEvent) StoreError}
      → same_command_payloads codec (stored_from q (suc (length pre)) (ev ∷ more)) events ≡ ok same
      → Runs (answer_replay q c (stored_from q (suc (length pre)) (ev ∷ more)) same) db answer db
      → Runs (append_command_events codec q c events) db answer db
  unfolding append_command_events append_found replay_command
  Runs-replay_command events compared finish =
      Runs-bind (append_found codec q c events) (Runs-idempotency_lookup db q c r.key) (
        Runs-bind _ Runs-load_recorded (
          Runs-bind (answer_replay q c (stored_from q (suc (length pre)) (ev ∷ more)))
            (Runs-lift_eq compared db) finish))

  -- With a lossless encoding of events: append_command_events with a recorded key and the recorded
  -- events, on a database that represents a history: unless the engine fails, the answer is the
  -- events as they were stored, and the database is as it was; the quote's head fits into an i64.
  pub append_again :
      Runs
        (append_command_events codec q c (ev ∷ more))
        db
        (ok (stored_from q (suc (length pre)) (ev ∷ more)))
        db
  append_again =
      Runs-replay_command (ev ∷ more)
        (same_command_payloads_self codec lossless q (suc (length pre)) (ev ∷ more))
        (Runs-pure _ db)

  -- With a lossless encoding of events: append_command_events with a recorded key and other
  -- events, on a database that represents a history: unless the engine fails, the answer is a
  -- conflict, and the database is as it was; the quote's head fits into an i64.
  pub append_conflict :
      (other : List QuoteEvent)
      → ev ∷ more ≢ other
      → Runs (append_command_events codec q c other) db (err (idempotency_conflict q c)) db
  append_conflict other ne =
      Runs-replay_command other
        (same_command_payloads-other codec lossless q (suc (length pre)) (ev ∷ more) other ne)
        (Runs-fail _ db)

module _ (codec : Codec) (lossless : IsLossless codec) (db : Db) (h : History) (q c : String)
    (ev : QuoteEvent) (more : List QuoteEvent) (sound : Represents codec db h)
    (unused : find_key db.keys q c ≡ none)
    (small : suc (length (h q)) + length (ev ∷ more) < i64_limit) where
  abbrev appended_db : List EventRow → Db
  appended_db new = record {
    events = db.events ++ new;
    keys = db.keys ++ key_row q c (suc (length (h q))) (length (h q) + length (ev ∷ more)) ∷ [];
  }

  appended_rows :
      (new : List EventRow) × RowsMatch codec q (suc (length (h q))) new (ev ∷ more)
      × Runs
          (append_rows codec q c (ev ∷ more))
          db
          (ok (stored_from q (suc (length (h q))) (ev ∷ more)))
          (appended_db new)
  appended_rows =
      Runs-append_rows codec lossless q c db (h q) (ev ∷ more) (sound.rows q) unused small

  abbrev extended : History
  extended = extend h q (ev ∷ more)

  Recorded-new : (new : List EventRow) → Recorded (appended_db new) extended q c (h q) (ev ∷ more)
  Recorded-new new = record {
    key = find_key-append_new db.keys q c _ _ unused;
    post = [];
    history = rw ((eq_iff q q).1 refl) (ap (λ l. h q ++ l) (sym (append-nil (ev ∷ more))));
  }

  appended-Grows : (new : List EventRow) → Grows db h (appended_db new) extended
  appended-Grows new = record {
    kept = λ q' c' range found. find_key-append_old db.keys _ q' c' found;
    longer = extend-Extends h q (ev ∷ more);
  }

  appended_keys :
      (new : List EventRow) (q' c' : String) (range : ℤ × ℤ)
      → find_key (appended_db new).keys q' c' ≡ some range
      → (pre : List QuoteEvent) × (e : QuoteEvent) × (rest : List QuoteEvent) × Recorded
          (appended_db new)
          extended
          q'
          c'
          pre
          (e ∷ rest)
  appended_keys new q' c' range found = elim (find_key-append_other db.keys q c q' c' _ _ found) [
    | inl old ↦
        let (pre, e, rest, r) = sound.keys q' c' range old in
        (pre, e, rest, Recorded-grow q' c' pre (e ∷ rest) (appended-Grows new) r)
    | inr (same_q, same_c) ↦ (
      h q,
      ev,
      more,
      subst (λ x. Recorded (appended_db new) extended x c' (h q) (ev ∷ more)) same_q
          (subst (λ y. Recorded (appended_db new) extended q y (h q) (ev ∷ more)) same_c
            (Recorded-new new)),
    )
  ]

  -- With a lossless encoding of events: append_command_events with an unused key, on a database
  -- that represents a history, where there is room for the events: unless the engine fails, the
  -- answer is the events numbered from the head of the quote on, the database represents the
  -- history extended by them, earlier events and keys stay, and the key is recorded for exactly
  -- these events.
  pub append_new :
      (db' : Db) × Runs
        (append_command_events codec q c (ev ∷ more))
        db
        (ok (stored_from q (suc (length (h q))) (ev ∷ more)))
        db'
      × Represents codec db' (extend h q (ev ∷ more))
      × Recorded db' (extend h q (ev ∷ more)) q c (h q) (ev ∷ more)
      × Grows db h db' (extend h q (ev ∷ more))
  unfolding append_command_events append_found
  append_new =
      let (new, matches, run) = appended_rows in
      (
        appended_db new,
        Runs-bind (append_found codec q c (ev ∷ more)) (Runs-idempotency_lookup db q c unused)
            (Runs-transaction run),
        record {
          rows =
              extended_rows codec db h q new (ev ∷ more) (appended_db new).keys sound.rows matches;
          keys = appended_keys new;
        },
        Recorded-new new,
        appended-Grows new,
      )
