-- ===== src/Ledger/SubscribeLoad/Retried.antt =====
-- What the repeated reads of a subscription come to (src/ledger.rs).
use quote_ledger.Common.{
  ◌*◌, if◌then◌else◌, ltb, sym, subst, ℕ, zero, suc, ◌+◌, ◌<◌, ◌≤◌, ◌≡◌, refl, ap, ◌∙◌, ◌⊎◌, inl,
  inr, String, some, List, [], ◌∷◌, ◌++◌, length, Result, ok, err, map_err, arith,
}
use quote_ledger.Common.Int.{i64_limit}
use quote_ledger.Wire.{QuoteEvent, StoredEvent, Status}
use quote_ledger.Mapping.{store_error_to_status}
use quote_ledger.Mapping.RoundTrip.{stored_from}
use quote_ledger.Store.Tables.{Db}
use quote_ledger.Store.Codec.{Codec, IsLossless}
use quote_ledger.Store.Engine.{engine_fault}
use quote_ledger.Store.Runs.{Runs, Ends-at}
use quote_ledger.Store.Match.{RowsMatch}
use quote_ledger.Store.Select.{rows_of, Runs-load_between}
use quote_ledger.Store.Append.{load_stored_events_between}
use quote_ledger.Store.Atomic.{load_between-ReadsOnly}
use quote_ledger.Ledger.State.{Ledger, Metric, db}
use quote_ledger.Ledger.SubscribeLoad.{
  next_backoff, Waiting, Loaded, wait, count, count_retry, attempt_load, or_again, load_attempts,
  subscribe_load_between,
}

-- The answer of an engine that fails.
abbrev pub fault_status : Status
fault_status = store_error_to_status engine_fault

-- Ten milliseconds, doubled `k` times, and the waits of this kind up to half a second.
unfoldable pub doubled : ℕ → ℕ
doubled zero = 10
doubled (suc k) = doubled k * 2

abbrev pub backoff : ℕ → ℕ
backoff k = if ltb (doubled k) 500 then doubled k else 500

-- The first `k` waits.
unfoldable pub waits : ℕ → List ℕ
waits zero = []
waits (suc k) = waits k ++ backoff k ∷ []

-- The events have been read after at most `n` waits, or the engine has failed and all the `n` waits
-- have been taken; either way they are the first of the doubled ones, and the database is as it was.
abbrev pub IsLoaded : Db → List StoredEvent → ℕ → Loaded → Type 0
IsLoaded rows events n (answer, w, ledger) =
    (((answer ≡ ok events) × (k : ℕ) × (k ≤ n) × (w.slept ≡ waits k))
      ⊎ ((answer ≡ err fault_status) × (w.slept ≡ waits n)))
    × (ledger.conn.db ≡ rows)

-- The variables of the loop after `k` waits.
abbrev waited : ℕ → Waiting
waited k = record { backoff_ms = backoff k; slept = waits k }

next_backoff-backoff : (k : ℕ) → next_backoff (backoff k) ≡ backoff (suc k)
unfolding doubled
next_backoff-backoff k = ground arith

wait-waited : (k : ℕ) → wait (suc k) (waited k) ≡ waited (suc k)
unfolding waits
wait-waited k =
    ap (λ ms. record { backoff_ms = ms; slept = waits k ++ backoff k ∷ [] })
      (next_backoff-backoff k)

pub count_retry_conn :
    (attempt : ℕ) (ledger : Ledger) → (count_retry attempt ledger).conn ≡ ledger.conn
count_retry_conn zero ledger = refl
count_retry_conn (suc attempt) ledger = refl

module _ (codec : Codec) (q : String) (after upto : ℕ) (rows : Db) (events : List StoredEvent)
    (run : Runs (load_stored_events_between codec q after upto) rows (ok events) rows) where
  abbrev pub IsAnswered : Result (List StoredEvent) Status × Ledger → Type 0
  IsAnswered (answer, ledger) =
      ((answer ≡ ok events) ⊎ (answer ≡ err fault_status)) × (ledger.conn.db ≡ rows)

  pub attempt-IsAnswered :
      (ledger : Ledger)
      → ledger.conn.db ≡ rows
      → IsAnswered (attempt_load codec q after upto ledger)
  unfolding db
  attempt-IsAnswered ledger here = elim (Ends-at run ledger.conn here) [
    | inl (same, kept) ↦ (inl (ap (map_err store_error_to_status) same), kept)
    | inr fault ↦ (
      inr (ap (map_err store_error_to_status) fault),
      (load_between-ReadsOnly codec q after upto).same ledger.conn ∙ here,
    )
  ]

  or_again-IsLoaded :
      (k n : ℕ) (again : Status → Ledger → Loaded) (p : Result (List StoredEvent) Status × Ledger)
      → k ≤ n
      → ((ledger : Ledger)
          → ledger.conn.db ≡ rows
          → IsLoaded rows events n (again fault_status ledger))
      → IsAnswered p
      → IsLoaded rows events n (or_again codec q after upto again (waited k) p)
  or_again-IsLoaded k n again (ok found, ledger) few next (inl good, kept) =
      (inl (good, k, few, refl), kept)
  or_again-IsLoaded k n again (ok found, ledger) few next (inr fault, kept) = absurd (cc fault)
  or_again-IsLoaded k n again (err e, ledger) few next (inl good, kept) = absurd (cc good)
  or_again-IsLoaded k n again (err e, ledger) few next (inr fault, kept) =
      let same : e ≡ fault_status = cc fault in
      rw same (next (count Metric.subscribe_db_load_failures ledger) kept)

  -- After `suc k` attempts.
  attempts-IsLoaded :
      (left k n : ℕ) (ledger : Ledger)
      → k + left ≡ n
      → ledger.conn.db ≡ rows
      → IsLoaded rows events n
          (load_attempts codec q after upto left (suc k) (waited k) (some fault_status) ledger)
  unfolding load_attempts
  attempts-IsLoaded zero k n ledger total here =
      let same : k ≡ n = omega (arith, total) in (inr (refl, ap waits same), here)
  attempts-IsLoaded (suc left) k n ledger total here =
      subst
        (λ w. IsLoaded rows events n (
          or_again codec q after upto
            (λ e. load_attempts codec q after upto left (suc (suc k)) w (some e)) w
            (attempt_load codec q after upto (count_retry (suc k) ledger))))
        (sym (wait-waited k))
        (or_again-IsLoaded (suc k) n
          (λ e. load_attempts codec q after upto left (suc (suc k)) (waited (suc k)) (some e))
          (attempt_load codec q after upto (count_retry (suc k) ledger)) (omega (arith, total))
          (λ ledger' kept. attempts-IsLoaded left (suc k) n ledger' (omega (arith, total)) kept)
          (attempt-IsAnswered (count_retry (suc k) ledger) here))

  reads-IsLoaded :
      (ledger : Ledger)
      → ledger.conn.db ≡ rows
      → IsLoaded rows events 7 (subscribe_load_between codec q after upto ledger)
  unfolding subscribe_load_between load_attempts waits doubled
  reads-IsLoaded ledger here =
      or_again-IsLoaded 0 7 (λ e. load_attempts codec q after upto 7 1 (waited 0) (some e))
        (attempt_load codec q after upto ledger) (omega arith)
        (λ ledger' kept. attempts-IsLoaded 7 0 7 ledger' (omega arith) kept)
        (attempt-IsAnswered ledger here)

-- With a lossless encoding of events: where the rows of a quote match the history pre, mid, post,
-- whose length fits into an i64, subscribe_load_between, called for the events after pre up to the
-- end of mid, answers with exactly the events of mid under their seqs, after at most 7 waits, or
-- with the status of an engine failure, after all the 7 waits, and so after 8 attempts; the waits
-- are 10 ms, doubled each time, up to 500 ms; it never leaves out an event, and it leaves the
-- database as it was.
pub subscribe_load_between_lem :
    (codec : Codec) (lossless : IsLossless codec) (q : String) (pre mid post : List QuoteEvent)
    (ledger : Ledger)
    → RowsMatch codec q 1 (rows_of ledger.conn.db q) (pre ++ (mid ++ post))
    → length (pre ++ (mid ++ post)) < i64_limit
    → IsLoaded ledger.conn.db
        (stored_from q (suc (length pre)) mid)
        7
        (subscribe_load_between codec q (length pre) (length pre + length mid) ledger)
subscribe_load_between_lem codec lossless q pre mid post ledger matches small =
    reads-IsLoaded codec q (length pre) (length pre + length mid) ledger.conn.db
      (stored_from q (suc (length pre)) mid)
      (Runs-load_between codec lossless q ledger.conn.db pre mid post matches small) ledger refl
