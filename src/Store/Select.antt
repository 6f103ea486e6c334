-- ===== src/Store/Select.antt =====
-- What the SELECT functions of src/store.rs read from a quote whose rows match its events.
use mathlib.Core.List.{append-nil}
use quote_ledger.Common.{
  ap₂, ℕ, suc, ◌+◌, ◌≤◌, ◌<◌, ◌≡◌, refl, ap, ◌∙◌, String, Bool, true, false, ◌&&◌, List, [], ◌∷◌,
  ◌++◌, length, length-append, ok, arith, leb,
}
use quote_ledger.Common.Int.{ℤ, pos, leb_ℤ, ltb_ℤ, i64_limit}
use quote_ledger.Wire.{QuoteEvent}
use quote_ledger.Mapping.RoundTrip.{stored_event, stored_from}
use quote_ledger.Store.Tables.{
  EventRow, Db, as_i64_small, where_rows, of_quote, order_by_seq, select_events, select_seq_range,
  select_after,
}
use quote_ledger.Store.Codec.{Codec, IsLossless}
use quote_ledger.Store.Runs.{Runs, Runs-bind, Runs-pure, Runs-lift_eq, Runs-query, Runs-call_engine}
use quote_ledger.Store.Match.{
  RowsMatch, RowsMatch-split, where_rows-append, where_rows-and, order_by_seq-match, where_rows_all,
  where_rows_none,
}
use quote_ledger.Store.Append.{
  row_to_stored, read_rows, run_select, load_stored_events, load_events_in_seq_range,
  load_stored_events_between,
}

-- The rows of a quote, in the order of the table.
abbrev pub rows_of : Db → String → List EventRow
rows_of db q = where_rows (of_quote q) db.events

module _ (codec : Codec) (lossless : IsLossless codec) (q : String) where
  row_to_stored-match :
      (n : ℕ) (row : EventRow) (ev : QuoteEvent)
      → row.quote_id ≡ q
      → row.seq ≡ pos n
      → codec.encode ev ≡ ok row.payload
      → row_to_stored codec row ≡ ok (stored_event q n ev)
  unfolding row_to_stored
  row_to_stored-match n row ev is_q is_n enc =
      rw (lossless.decodes ev row.payload enc, row_to_stored) (rw (is_q, is_n) refl)

  Runs-read_rows :
      (db : Db) (n : ℕ) (rows : List EventRow) (events : List QuoteEvent)
      → RowsMatch codec q n rows events
      → Runs (read_rows codec rows) db (ok (stored_from q n events)) db
  unfolding read_rows
  Runs-read_rows db n [] [] h = Runs-bind _ (Runs-call_engine db) (Runs-pure _ db)
  Runs-read_rows db n [] (ev ∷ events) h = absurd h
  Runs-read_rows db n (row ∷ rows) [] h = absurd h
  Runs-read_rows db n (row ∷ rows) (ev ∷ events) (is_q, is_n, enc, h) =
      Runs-bind _ (Runs-call_engine db) (
        Runs-bind _ (Runs-lift_eq (row_to_stored-match n row ev is_q is_n enc) db)
          (Runs-bind _ (Runs-read_rows db (suc n) rows events h) (Runs-pure _ db)))

  -- A SELECT that finds the rows of some events reads those events.
  Runs-run_select :
      (db : Db) (select : Db → List EventRow) (n : ℕ) (events : List QuoteEvent)
      → RowsMatch codec q n (select db) events
      → Runs (run_select codec select) db (ok (stored_from q n events)) db
  unfolding run_select
  Runs-run_select db select n events h = Runs-bind _ (Runs-call_engine db) (
      Runs-bind _ (Runs-call_engine db) (
        Runs-bind (read_rows codec) (Runs-query select db)
          (Runs-read_rows db n (select db) events h)))

  -- With a lossless encoding of events: where the rows of a quote match a history,
  -- load_stored_events reads all of it in order, numbered from 1, and changes nothing, unless the
  -- engine fails.
  pub Runs-load_stored_events :
      (db : Db) (events : List QuoteEvent)
      → RowsMatch codec q 1 (rows_of db q) events
      → Runs (load_stored_events codec q) db (ok (stored_from q 1 events)) db
  unfolding load_stored_events select_events
  Runs-load_stored_events db events h =
      Runs-run_select db _ 1 events (rw (order_by_seq-match codec q 1 (rows_of db q) events h) h)

  -- Filtering by a test on the seq that holds in the middle of the history alone.
  select_middle :
      (t : ℤ → Bool) (rows : List EventRow) (pre mid post : List QuoteEvent)
      → RowsMatch codec q 1 rows (pre ++ (mid ++ post))
      → ((k : ℕ) → k < suc (length pre) → t (pos k) ≡ false)
      → ((k : ℕ) → suc (length pre) ≤ k → k < suc (length pre) + length mid → t (pos k) ≡ true)
      → ((k : ℕ)
          → suc (length pre) + length mid ≤ k
          → k < suc (length pre) + length mid + length post
          → t (pos k) ≡ false)
      → RowsMatch codec q (suc (length pre)) (order_by_seq (where_rows (λ row. t row.seq) rows)) mid
  select_middle t rows pre mid post h low within high =
      let (r1, r23, e, h1, h23) = RowsMatch-split codec q 1 rows pre (mid ++ post) h in
      let (r2, r3, e', h2, h3) =
        RowsMatch-split codec q (suc (length pre)) r23 mid post (rw one at h23) in
      let test = λ (row : EventRow). t row.seq in
      let found : where_rows test rows ≡ r2 =
        ap (where_rows test) (e ∙ ap (λ r. r1 ++ r) e')
        ∙ where_rows-append test r1 (r2 ++ r3)
        ∙ ap₂ ◌++◌ (where_rows_none codec q t 1 r1 pre h1 (λ k least most. low k (omega arith))) (
            where_rows-append test r2 r3
            ∙ ap₂ ◌++◌ (where_rows_all codec q t (suc (length pre)) r2 mid h2 within)
                (where_rows_none codec q t (suc (length pre) + length mid) r3 post h3 high)
            ∙ append-nil r2) in
      rw found (rw (order_by_seq-match codec q (suc (length pre)) r2 mid h2) h2)
    where
      one : 1 + length pre ≡ suc (length pre)
      one = omega arith

  after_middle :
      (db : Db) (pre mid post : List QuoteEvent)
      → RowsMatch codec q 1 (rows_of db q) (pre ++ (mid ++ post))
      → RowsMatch codec q
          (suc (length pre))
          (select_after db q (pos (length pre)) (pos (length pre + length mid)))
          mid
  unfolding select_after
  after_middle db pre mid post h =
      let t = λ (z : ℤ). ltb_ℤ (pos (length pre)) z && leb_ℤ z (pos (length pre + length mid)) in
      rw (where_rows-and (of_quote q) (λ row. t row.seq) db.events) (
        select_middle t (rows_of db q) pre mid post h (λ k high. ground arith)
          (λ k low high. ground arith) (λ k low high. ground arith))

  range_middle :
      (db : Db) (pre mid post : List QuoteEvent)
      → RowsMatch codec q 1 (rows_of db q) (pre ++ (mid ++ post))
      → RowsMatch codec q
          (suc (length pre))
          (select_seq_range db q (pos (suc (length pre))) (pos (length pre + length mid)))
          mid
  unfolding select_seq_range
  range_middle db pre mid post h =
      let t =
        λ (z : ℤ). leb_ℤ (pos (suc (length pre))) z && leb_ℤ z (pos (length pre + length mid)) in
      rw (where_rows-and (of_quote q) (λ row. t row.seq) db.events) (
        select_middle t (rows_of db q) pre mid post h (λ k high. ground arith)
          (λ k low high. ground arith) (λ k low high. ground arith))

  length_parts :
      (pre mid post : List QuoteEvent)
      → length (pre ++ (mid ++ post)) ≡ length pre + (length mid + length post)
  length_parts pre mid post =
      omega (arith, length-append {0} pre (mid ++ post), length-append {0} mid post)

  -- With a lossless encoding of events: where the rows of a quote match a history whose length
  -- fits into an i64, load_stored_events_between reads exactly the events after one seq and up to
  -- another, in order and under their seqs, and changes nothing, unless the engine fails.
  pub Runs-load_between :
      (db : Db) (pre mid post : List QuoteEvent)
      → RowsMatch codec q 1 (rows_of db q) (pre ++ (mid ++ post))
      → length (pre ++ (mid ++ post)) < i64_limit
      → Runs
          (load_stored_events_between codec q (length pre) (length pre + length mid))
          db
          (ok (stored_from q (suc (length pre)) mid))
          db
  unfolding load_stored_events_between
  Runs-load_between db pre [] post h small =
      let nothing : leb (length pre + 0) (length pre) ≡ true = ground arith in
      rw nothing (Runs-pure _ db)
  Runs-load_between db pre (m ∷ mid) post h small =
      let something : leb (length pre + suc (length mid)) (length pre) ≡ false = ground arith in
      let bound = length_parts pre (m ∷ mid) post in
      rw something (
        Runs-run_select db _ (suc (length pre)) (m ∷ mid) (
          rw
            (
              as_i64_small (length pre) (omega arith),
              as_i64_small (length pre + suc (length mid)) (omega arith),
            )
            (after_middle db pre (m ∷ mid) post h)))

  -- `load_events_in_seq_range` reads the events between two seqs, both included.
  pub Runs-load_range :
      (db : Db) (pre : List QuoteEvent) (m : QuoteEvent) (mid post : List QuoteEvent)
      → RowsMatch codec q 1 (rows_of db q) (pre ++ (m ∷ (mid ++ post)))
      → length (pre ++ (m ∷ (mid ++ post))) < i64_limit
      → Runs
          (load_events_in_seq_range codec q (suc (length pre)) (length pre + suc (length mid)))
          db
          (ok (stored_from q (suc (length pre)) (m ∷ mid)))
          db
  unfolding load_events_in_seq_range
  Runs-load_range db pre m mid post h small =
      let bound = length_parts pre (m ∷ mid) post in
      Runs-run_select db _ (suc (length pre)) (m ∷ mid) (
        rw
          (
            as_i64_small (suc (length pre)) (omega arith),
            as_i64_small (length pre + suc (length mid)) (omega arith),
          )
          (range_middle db pre (m ∷ mid) post h))
