-- ===== src/Store/Match.antt =====
-- The rows of one quote against the events that they hold: seqs count up without a gap, and each
-- payload is the encoding of its event.
use quote_ledger.Common.{
  ℕ, suc, ◌+◌, ◌≤◌, ◌<◌, ◌≡◌, refl, ap, ◌∙◌, String, Bool, true, false, ◌&&◌, List, [], ◌∷◌, ◌++◌,
  length, ok, arith, if◌then◌else◌, Bool-cases, inl, inr,
}
use quote_ledger.Common.Int.{ℤ, pos, ltb_ℤ}
use native.Mathlib.Nat.{add-zero}
use quote_ledger.Wire.{QuoteEvent}
use quote_ledger.Store.Tables.{
  EventRow, where_rows, insert_by_seq, order_by_seq, max_seq_above, coalesce_max_seq,
}
use quote_ledger.Store.Codec.{Codec}

abbrev pub RowsMatch : Codec → String → ℕ → List EventRow → List QuoteEvent → Type 0
RowsMatch codec q n [] [] = Unit
RowsMatch codec q n (row ∷ rows) (ev ∷ events) =
    (row.quote_id ≡ q)
    × (row.seq ≡ pos n)
    × (codec.encode ev ≡ ok row.payload)
    × RowsMatch codec q (suc n) rows events
RowsMatch codec q n _ _ = ⊥

pub where_rows-append :
    (test : EventRow → Bool) (xs ys : List EventRow)
    → where_rows test (xs ++ ys) ≡ where_rows test xs ++ where_rows test ys
unfolding where_rows
where_rows-append test [] ys = refl
where_rows-append test (x ∷ xs) ys =
    rw (where_rows-append test xs ys)
      (elim (Bool-cases (test x)) [ inl e ↦ rw e refl | inr e ↦ rw e refl ])

-- Two tests at once are one test after the other.
pub where_rows-and :
    (p t : EventRow → Bool) (rows : List EventRow)
    → where_rows (λ row. p row && t row) rows ≡ where_rows t (where_rows p rows)
unfolding where_rows
where_rows-and p t [] = refl
where_rows-and p t (x ∷ rows) =
    rw (where_rows-and p t rows) (elim (Bool-cases (p x)) [ inl e ↦ rw e refl | inr e ↦ rw e refl ])

module _ (codec : Codec) (q : String) where
  pub RowsMatch-append :
      (n : ℕ) (rows : List EventRow) (events : List QuoteEvent) (rows' : List EventRow)
      (events' : List QuoteEvent)
      → RowsMatch codec q n rows events
      → RowsMatch codec q (n + length events) rows' events'
      → RowsMatch codec q n (rows ++ rows') (events ++ events')
  RowsMatch-append n [] [] rows' events' h h' = rw (add-zero n) at h'
  RowsMatch-append n [] (ev ∷ events) rows' events' h h' = absurd h
  RowsMatch-append n (row ∷ rows) [] rows' events' h h' = absurd h
  RowsMatch-append n (row ∷ rows) (ev ∷ events) rows' events' (is_q, is_n, enc, h) h' =
      (is_q, is_n, enc, RowsMatch-append (suc n) rows events rows' events' h (rw shift at h'))
    where
      shift : n + suc (length events) ≡ suc n + length events
      shift = omega arith

  pub RowsMatch-split :
      (n : ℕ) (rows : List EventRow) (xs ys : List QuoteEvent)
      → RowsMatch codec q n rows (xs ++ ys)
      → (front back : List EventRow) × (rows ≡ front ++ back)
        × RowsMatch codec q n front xs
        × RowsMatch codec q (n + length xs) back ys
  RowsMatch-split n rows [] ys h = ([], rows, refl, tt, rw (add-zero n) h)
  RowsMatch-split n [] (x ∷ xs) ys h = absurd h
  RowsMatch-split n (row ∷ rows) (x ∷ xs) ys (is_q, is_n, enc, h) =
      let (front, back, e, hf, hb) = RowsMatch-split (suc n) rows xs ys h in
      (row ∷ front, back, ap (λ r. row ∷ r) e, (is_q, is_n, enc, hf), rw shift hb)
    where
      shift : n + suc (length xs) ≡ suc n + length xs
      shift = omega arith

  insert_first :
      (n : ℕ) (row : EventRow) (rows : List EventRow) (events : List QuoteEvent)
      → row.seq ≡ pos n
      → RowsMatch codec q (suc n) rows events
      → insert_by_seq row rows ≡ row ∷ rows
  unfolding insert_by_seq
  insert_first n row [] events is_n h = refl
  insert_first n row (r ∷ rows) [] is_n h = absurd h
  insert_first n row (r ∷ rows) (ev ∷ events) is_n h = ground (arith, is_n, h.1)

  -- The rows are in order already.
  pub order_by_seq-match :
      (n : ℕ) (rows : List EventRow) (events : List QuoteEvent)
      → RowsMatch codec q n rows events
      → order_by_seq rows ≡ rows
  unfolding order_by_seq
  order_by_seq-match n [] events h = refl
  order_by_seq-match n (row ∷ rows) [] h = absurd h
  order_by_seq-match n (row ∷ rows) (ev ∷ events) h =
      rw (order_by_seq-match (suc n) rows events h.3) (insert_first n row rows events h.1 h.3)

  max_seq_above-match :
      (n : ℕ) (rows : List EventRow) (events : List QuoteEvent)
      → RowsMatch codec q (suc n) rows events
      → max_seq_above (pos n) rows ≡ pos (n + length events)
  unfolding max_seq_above
  max_seq_above-match n [] [] h = ap pos (omega arith)
  max_seq_above-match n [] (ev ∷ events) h = absurd h
  max_seq_above-match n (row ∷ rows) [] h = absurd h
  max_seq_above-match n (row ∷ rows) (ev ∷ events) (is_q, is_n, enc, h) =
      rw (higher row.seq is_n) (max_seq_above-match (suc n) rows events h ∙ ap pos (omega arith))
    where
      higher : (z : ℤ) → z ≡ pos (suc n) → (if ltb_ℤ (pos n) z then z else pos n) ≡ pos (suc n)
      higher z e = ground arith

  -- The greatest seq is the number of events.
  pub coalesce_max_seq-match :
      (rows : List EventRow) (events : List QuoteEvent)
      → RowsMatch codec q 1 rows events
      → coalesce_max_seq rows ≡ pos (length events)
  unfolding coalesce_max_seq
  coalesce_max_seq-match [] [] h = refl
  coalesce_max_seq-match [] (ev ∷ events) h = absurd h
  coalesce_max_seq-match (row ∷ rows) [] h = absurd h
  coalesce_max_seq-match (row ∷ rows) (ev ∷ events) (is_q, is_n, enc, h) =
      rw is_n (max_seq_above-match 1 rows events h ∙ ap pos (omega arith))

  -- A test on the seq that every row passes, or none.
  pub where_rows_all :
      (t : ℤ → Bool) (n : ℕ) (rows : List EventRow) (events : List QuoteEvent)
      → RowsMatch codec q n rows events
      → ((k : ℕ) → n ≤ k → k < n + length events → t (pos k) ≡ true)
      → where_rows (λ row. t row.seq) rows ≡ rows
  unfolding where_rows
  where_rows_all t n [] events h passes = refl
  where_rows_all t n (row ∷ rows) [] h passes = absurd h
  where_rows_all t n (row ∷ rows) (ev ∷ events) (is_q, is_n, enc, h) passes =
      let first : t row.seq ≡ true = rw is_n (passes n (omega arith) (omega arith)) in
      rw first (
        ap (λ r. row ∷ r)
          (where_rows_all t (suc n) rows events h
            (λ k low high. passes k (omega arith) (omega arith))))

  pub where_rows_none :
      (t : ℤ → Bool) (n : ℕ) (rows : List EventRow) (events : List QuoteEvent)
      → RowsMatch codec q n rows events
      → ((k : ℕ) → n ≤ k → k < n + length events → t (pos k) ≡ false)
      → where_rows (λ row. t row.seq) rows ≡ []
  unfolding where_rows
  where_rows_none t n [] events h fails = refl
  where_rows_none t n (row ∷ rows) [] h fails = absurd h
  where_rows_none t n (row ∷ rows) (ev ∷ events) (is_q, is_n, enc, h) fails =
      let first : t row.seq ≡ false = rw is_n (fails n (omega arith) (omega arith)) in
      rw first (
        where_rows_none t (suc n) rows events h (λ k low high. fails k (omega arith) (omega arith)))
