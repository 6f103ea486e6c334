-- ===== src/Store/Fresh.antt =====
-- The seqs that the rows of a quote leave free (src/store.rs).
use quote_ledger.Common.{
  ℕ, suc, ◌+◌, ◌≤◌, ◌<◌, ◌≡◌, refl, ◌∙◌, String, false, ◌||◌, List, [], ◌∷◌, ◌++◌, length, arith,
  Bool-cases, inl, inr, str_eq,
}
use quote_ledger.Common.Int.{ℤ, pos, i64_limit}
use quote_ledger.Wire.{QuoteEvent}
use quote_ledger.Store.Tables.{
  Bytes, EventRow, Db, as_i64, as_i64_small, where_rows, of_quote, has_event_row,
}
use quote_ledger.Store.Codec.{Codec}
use quote_ledger.Store.Match.{RowsMatch}
use quote_ledger.Store.Select.{rows_of}
use quote_ledger.Store.Append.{event_type_for}

-- No row of the quote has a seq of `n` or more.
abbrev pub FreshFrom : List EventRow → String → ℕ → Type 0
FreshFrom rows q n = (k : ℕ) → n ≤ k → has_event_row rows q (pos k) ≡ false

has_event_row-of_quote :
    (rows : List EventRow) (q : String) (z : ℤ)
    → has_event_row rows q z ≡ has_event_row (where_rows (of_quote q) rows) q z
unfolding has_event_row where_rows
has_event_row-of_quote [] q z = refl
has_event_row-of_quote (row ∷ rows) q z = elim (Bool-cases (str_eq row.quote_id q)) [
  | inl e ↦ rw (e, has_event_row-of_quote rows q z) (rw e refl)
  | inr e ↦ rw (e, has_event_row-of_quote rows q z) refl
]

has_event_row-append :
    (rows : List EventRow) (row : EventRow) (q : String) (z : ℤ)
    → has_event_row (rows ++ row ∷ []) q z
      ≡ (has_event_row rows q z || has_event_row (row ∷ []) q z)
unfolding has_event_row
has_event_row-append [] row q z = refl
has_event_row-append (r ∷ rows) row q z = ground (arith, has_event_row-append rows row q z)

abbrev pub new_row : String → ℕ → QuoteEvent → Bytes → EventRow
new_row q n ev payload = record {
  quote_id = q;
  seq = as_i64 n;
  event_type = event_type_for ev;
  payload = payload;
}

module _ (codec : Codec) (q : String) where
  FreshFrom-match :
      (n : ℕ) (rows : List EventRow) (events : List QuoteEvent)
      → RowsMatch codec q n rows events
      → FreshFrom rows q (n + length events)
  unfolding has_event_row
  FreshFrom-match n [] events h k high = refl
  FreshFrom-match n (row ∷ rows) [] h k high = absurd h
  FreshFrom-match n (row ∷ rows) (ev ∷ events) (is_q, is_n, enc, h) k high =
      rw is_n (ground (arith, FreshFrom-match (suc n) rows events h k (omega arith)))

  pub FreshFrom-history :
      (db : Db) (events : List QuoteEvent)
      → RowsMatch codec q 1 (rows_of db q) events
      → FreshFrom db.events q (suc (length events))
  FreshFrom-history db events h k high =
      has_event_row-of_quote db.events q (pos k)
      ∙ FreshFrom-match 1 (rows_of db q) events h k (omega arith)

  pub FreshFrom-insert :
      (rows : List EventRow) (n : ℕ) (ev : QuoteEvent) (b : Bytes)
      → n < i64_limit
      → FreshFrom rows q n
      → FreshFrom (rows ++ new_row q n ev b ∷ []) q (suc n)
  FreshFrom-insert rows n ev b small fresh k high =
      has_event_row-append rows (new_row q n ev b) q (pos k)
      ∙ rw (fresh k (omega arith), as_i64_small n small) (unfold has_event_row in ground arith)
