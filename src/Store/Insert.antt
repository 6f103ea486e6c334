-- ===== src/Store/Insert.antt =====
-- What the INSERT functions of src/store.rs write.
use mathlib.Core.List.{append-nil, append_assoc}
use native.Mathlib.Nat.{add-zero}
use quote_ledger.Common.{
  ℕ, suc, ◌+◌, ◌-◌, ◌≤◌, ◌<◌, ◌≡◌, refl, ap, ◌∙◌, String, true, false, List, [], ◌∷◌, ◌++◌, length,
  ok, none, some, arith,
}
use quote_ledger.Common.Int.{pos, i64_limit, fits_i64, ◌+ℤ◌}
use quote_ledger.Wire.{QuoteEvent}
use quote_ledger.Mapping.RoundTrip.{stored_event, stored_from}
use quote_ledger.Store.Tables.{
  Bytes, EventRow, KeyRow, Db, as_i64, as_i64_small, find_key, next_seq_of, has_key_row,
  insert_event, insert_key,
}
use quote_ledger.Store.Codec.{Codec, IsLossless}
use quote_ledger.Store.Engine.{pure}
use quote_ledger.Store.Runs.{
  Runs, Runs-bind, Runs-pure, Runs-lift_eq, Runs-query, Runs-call_engine, Runs-insert,
}
use quote_ledger.Store.Match.{RowsMatch, coalesce_max_seq-match}
use quote_ledger.Store.Select.{rows_of}
use quote_ledger.Store.Append.{
  column_as_u64, encode_quote_event, insert_one, insert_events, read_next_seq, append_rows,
}
use quote_ledger.Store.Fresh.{FreshFrom, new_row, FreshFrom-history, FreshFrom-insert}

module _ (codec : Codec) (lossless : IsLossless codec) (q : String) where
  Runs-insert_one :
      (db : Db) (n : ℕ) (ev : QuoteEvent) (b : Bytes)
      → codec.encode ev ≡ ok b
      → n < i64_limit
      → FreshFrom db.events q n
      → Runs
          (insert_one codec q n ev)
          db
          (ok (stored_event q n ev))
          (record db { events = db.events ++ new_row q n ev b ∷ [] })
  unfolding insert_one
  Runs-insert_one db n ev b enc small fresh = Runs-bind _ (Runs-lift_eq encoded db) (
      Runs-bind _ (Runs-call_engine db)
        (Runs-bind _ (Runs-insert (insert_event (new_row q n ev b)) inserted) (Runs-pure _ _)))
    where
      encoded : encode_quote_event codec ev ≡ ok b
      encoded = unfold encode_quote_event in rw enc refl

      inserted :
          insert_event (new_row q n ev b) db
          ≡ some (record db { events = db.events ++ new_row q n ev b ∷ [] })
      inserted = unfold insert_event in rw (as_i64_small n small, fresh n (omega arith)) refl

  -- The loop writes one row for each event, and nothing else.
  Runs-insert_events :
      (db : Db) (n : ℕ) (events : List QuoteEvent)
      → n + length events ≤ i64_limit
      → FreshFrom db.events q n
      → (new : List EventRow) × RowsMatch codec q n new events
        × Runs
            (insert_events codec q n events)
            db
            (ok (stored_from q n events, n + length events))
            (record db { events = db.events ++ new })
  unfolding insert_events
  Runs-insert_events db n [] small fresh =
      ([], tt, rw (append-nil db.events, add-zero n) (Runs-pure ([], n) db))
  Runs-insert_events db n (ev ∷ events) small fresh =
      let (b, enc) = lossless.encodes ev in
      let row = new_row q n ev b in
      let db1 : Db = record db { events = db.events ++ row ∷ [] } in
      let (new, matches, run) =
        Runs-insert_events db1 (suc n) events (omega arith)
          (FreshFrom-insert codec q db.events n ev b (omega arith) fresh) in
      (
        row ∷ new,
        (refl, as_i64_small n (omega arith), enc, matches),
        rw (← shift, ← append_assoc db.events (row ∷ []) new)
            (Runs-bind _ (Runs-insert_one db n ev b enc (omega arith) fresh)
              (Runs-bind _ run (Runs-pure _ _))),
      )
    where
      shift : suc n + length events ≡ n + suc (length events)
      shift = omega arith

  pub Runs-read_next_seq :
      (db : Db) (events : List QuoteEvent)
      → RowsMatch codec q 1 (rows_of db q) events
      → suc (length events) < i64_limit
      → Runs (read_next_seq q) db (ok (suc (length events))) db
  unfolding read_next_seq
  Runs-read_next_seq db events h small =
      Runs-bind _ (Runs-call_engine db)
        (Runs-bind column_as_u64 (Runs-query (λ d. next_seq_of d q) db) (rw next checked))
    where
      next : next_seq_of db q ≡ pos (suc (length events))
      next =
          unfold next_seq_of in
          ap (λ z. z +ℤ pos 1) (coalesce_max_seq-match codec q (rows_of db q) events h)
          ∙ ap pos (omega arith)

      in_range : fits_i64 (pos (suc (length events))) ≡ true
      in_range = ground arith

      checked : Runs (column_as_u64 (pos (suc (length events)))) db (ok (suc (length events))) db
      checked = unfold column_as_u64 in rw in_range (Runs-pure _ db)

find_key-has_key_row :
    (keys : List KeyRow) (q c : String) → find_key keys q c ≡ none → has_key_row keys q c ≡ false
unfolding find_key has_key_row
find_key-has_key_row [] q c h = refl
find_key-has_key_row (key ∷ keys) q c h = ground (arith, find_key-has_key_row keys q c)

abbrev pub key_row : String → String → ℕ → ℕ → KeyRow
key_row q c first last = record {
  quote_id = q;
  client_command_id = c;
  first_seq = pos first;
  last_seq = pos last;
}

abbrev cast_key_row : String → String → ℕ → ℕ → KeyRow
cast_key_row q c first last = record {
  quote_id = q;
  client_command_id = c;
  first_seq = as_i64 first;
  last_seq = as_i64 last;
}

module _ (codec : Codec) (lossless : IsLossless codec) (q c : String) where
  -- The transaction's body writes a row for each event, numbered on from the head, and the key.
  pub Runs-append_rows :
      (db : Db) (old events : List QuoteEvent)
      → RowsMatch codec q 1 (rows_of db q) old
      → find_key db.keys q c ≡ none
      → suc (length old) + length events < i64_limit
      → (new : List EventRow) × RowsMatch codec q (suc (length old)) new events
        × Runs
            (append_rows codec q c events)
            db
            (ok (stored_from q (suc (length old)) events))
            (record {
              events = db.events ++ new;
              keys = db.keys ++ key_row q c (suc (length old)) (length old + length events) ∷ [];
            })
  unfolding append_rows
  Runs-append_rows db old events h unused small =
      let (new, matches, run) =
        Runs-insert_events codec lossless q db (suc (length old)) events (omega arith)
          (FreshFrom-history codec q db old h) in
      (
        new,
        matches,
        Runs-bind _ (Runs-read_next_seq codec lossless q db old h (omega arith)) (
            Runs-bind _ run (
              Runs-bind _ (Runs-call_engine _) (
                Runs-bind (λ _. pure (stored_from q (suc (length old)) events))
                  (Runs-insert
                    (insert_key
                      (cast_key_row q c (suc (length old)) (suc (length old) + length events - 1)))
                    (inserted new))
                  (Runs-pure _ _)))),
      )
    where
      last_seq : suc (length old) + length events - 1 ≡ length old + length events
      last_seq = omega arith

      inserted :
          (new : List EventRow)
          → insert_key
              (cast_key_row q c (suc (length old)) (suc (length old) + length events - 1))
              (record db { events = db.events ++ new })
            ≡ some (record {
              events = db.events ++ new;
              keys = db.keys ++ key_row q c (suc (length old)) (length old + length events) ∷ [];
            })
      inserted new =
          unfold insert_key in
          rw
            (
              last_seq,
              find_key-has_key_row db.keys q c unused,
              as_i64_small (suc (length old)) (omega arith),
              as_i64_small (length old + length events) (omega arith),
            )
            refl
