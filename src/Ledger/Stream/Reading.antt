-- ===== src/Ledger/Stream/Reading.antt =====
-- A turn of the subscriber's task that reads a chunk keeps the promise of the stream (src/ledger.rs).
use quote_ledger.Common.{
  ◌⊎◌, ℕ, zero, suc, ◌+◌, ◌-◌, ◌<◌, ◌≤◌, ◌≡◌, refl, sym, ap, ◌∙◌, subst, String, Bool, true, false,
  Option, none, some, List, [], ◌∷◌, ◌++◌, length, length-append, split_at, Result, ok, err, inl,
  inr, arith,
}
use mathlib.Core.List.{append_assoc}
use quote_ledger.Common.Int.{i64_limit}
use quote_ledger.Wire.{QuoteEvent, StoredEvent, Status}
use quote_ledger.Mapping.RoundTrip.{stored_from}
use quote_ledger.Store.Tables.{Db}
use quote_ledger.Store.Append.{load_stored_events_between}
use quote_ledger.Store.Codec.{Codec, IsLossless}
use quote_ledger.Store.Match.{RowsMatch}
use quote_ledger.Store.Runs.{Runs}
use quote_ledger.Store.Select.{rows_of, Runs-load_between}
use quote_ledger.Ledger.State.{Ledger, db}
use quote_ledger.Ledger.SubscribeLoad.{Waiting, count_retry, attempt_load, last_or_internal}
use quote_ledger.Ledger.SubscribeLoad.Retried.{fault_status, attempt-IsAnswered, count_retry_conn}
use quote_ledger.Ledger.Stream.{Pump, push_error, deliver, take_answer, read_chunk}
use quote_ledger.Ledger.Stream.Follows.{tail_message, live, extended, failed, Delivered}
use quote_ledger.Ledger.Stream.Invariant.{IsFaultOnly, PumpOk}
use quote_ledger.Ledger.Stream.Turns.{tail_from-stored_from, Delivered-ended}

-- What a turn keeps besides the stream.
pub record Keeps (ledger ledger' : Ledger) : Type 0 where
  pub db : ledger'.conn.db ≡ ledger.conn.db
  pub bus : ledger'.bus ≡ ledger.bus

module _ (q : String) (events : List QuoteEvent) (after : ℕ) where
  error_sent :
      (there : Bool) (pump : Pump) (last_err : Option Status)
      → IsFaultOnly zero last_err
      → Delivered q events after live pump.sent pump.watermark
      → PumpOk q events after (push_error there (last_or_internal last_err) pump)
  error_sent there pump none nothing r = absurd nothing
  error_sent true pump (some e) fault r = rw fault (
      Delivered-ended q events after pump.watermark (record {
        pre = r.pre;
        mid = r.mid;
        post = r.post;
        parts = r.parts;
        start = r.start;
        reach = r.reach;
        follows = failed r.follows;
      }))
  error_sent false pump (some e) fault r = Delivered-ended q events after pump.watermark r

  -- The events of the quote from the watermark to a head.
  record Chunk (pre mid post : List QuoteEvent) (watermark head : ℕ) : Type 0 where
    pub first : QuoteEvent
    pub more : List QuoteEvent
    pub rest : List QuoteEvent
    pub parts : post ≡ (first ∷ more) ++ rest
    pub reach : head ≡ watermark + suc (length more)

  parts-Chunk :
      (pre mid post : List QuoteEvent) (watermark head : ℕ)
      → watermark ≡ length (pre ++ mid)
      → watermark < head
      → head ≤ length (pre ++ (mid ++ post))
      → Chunk pre mid post watermark head
  parts-Chunk pre mid post watermark head reach ahead within =
      let (front, back, parts, long) = split_at (head - watermark) post (
        omega (
          arith,
          length-append {0} pre mid,
          length-append {0} pre (mid ++ post),
          length-append {0} mid post,
        )) in
      pack front back parts long
    where
      pack :
          (front back : List QuoteEvent)
          → post ≡ front ++ back
          → head - watermark ≡ length front
          → Chunk pre mid post watermark head
      pack [] back parts long = absurd (omega (arith, ahead))
      pack (ev ∷ more) back parts long = record {
        first = ev;
        more = more;
        rest = back;
        parts = parts;
        reach = omega (arith, ahead);
      }

  module _ (pump : Pump) (head : ℕ) (r : Delivered q events after live pump.sent pump.watermark)
      (c : Chunk r.pre r.mid r.post pump.watermark head) where
    whole : events ≡ (r.pre ++ r.mid) ++ ((c.first ∷ c.more) ++ c.rest)
    whole =
        r.parts
        ∙ ap (λ l. r.pre ++ (r.mid ++ l)) c.parts
        ∙ sym (append_assoc r.pre r.mid ((c.first ∷ c.more) ++ c.rest))

    abbrev chunk : List StoredEvent
    chunk = stored_from q (suc (length (r.pre ++ r.mid))) (c.first ∷ c.more)

    longer :
        Delivered q events after live
          (ok (tail_message q (r.pre ++ r.mid) (c.first ∷ c.more)) ∷ pump.sent)
          head
    longer = record {
      pre = r.pre;
      mid = r.mid ++ (c.first ∷ c.more);
      post = c.rest;
      parts =
          r.parts
          ∙ ap (λ l. r.pre ++ (r.mid ++ l)) c.parts
          ∙ ap (λ l. r.pre ++ l) (sym (append_assoc r.mid (c.first ∷ c.more) c.rest));
      start = r.start;
      reach = omega (
        arith,
        c.reach,
        r.reach,
        length-append {0} r.pre r.mid,
        length-append {0} r.pre (r.mid ++ (c.first ∷ c.more)),
        length-append {0} r.mid (c.first ∷ c.more),
      );
      follows = extended (c.first ∷ c.more) (λ nothing. cc nothing) r.follows;
    }

    chunk_sent : (there : Bool) → PumpOk q events after (deliver there head chunk pump)
    chunk_sent true =
        rw (tail_from-stored_from q pump.watermark (r.pre ++ r.mid) c.first c.more r.reach) longer
    chunk_sent false = Delivered-ended q events after head r

    module _ (codec : Codec) (lossless : IsLossless codec) (db : Db)
        (matches : RowsMatch codec q 1 (rows_of db q) events)
        (small : length events < i64_limit) where
      Runs-chunk : Runs (load_stored_events_between codec q pump.watermark head) db (ok chunk) db
      Runs-chunk =
          rw (c.reach, r.reach)
            (Runs-load_between codec lossless q db (r.pre ++ r.mid) (c.first ∷ c.more) c.rest
              (subst (λ l. RowsMatch codec q 1 (rows_of db q) l) whole matches)
              (subst (λ (l : List QuoteEvent). length l < i64_limit) whole small))

  module _ (head : ℕ) (pump : Pump) (r : Delivered q events after live pump.sent pump.watermark)
      (ahead : pump.watermark < head) (within : head ≤ length events) where
    answer_taken :
        (c : Chunk r.pre r.mid r.post pump.watermark head) (there : Bool) (left attempt : ℕ)
        (w : Waiting) (p : Result (List StoredEvent) Status × Ledger)
        → (p.0 ≡ ok (chunk pump head r c)) ⊎ (p.0 ≡ err fault_status)
        → PumpOk q events after (take_answer there head left attempt w pump p).0
    answer_taken c there left attempt w (ok found, ledger) (inl good) =
        let same : found ≡ chunk pump head r c = cc good in rw same (chunk_sent pump head r c there)
    answer_taken c there left attempt w (ok found, ledger) (inr fault) = absurd (cc fault)
    answer_taken c there left attempt w (err e, ledger) (inl good) = absurd (cc good)
    answer_taken c there zero attempt w (err e, ledger) (inr fault) =
        let same : e ≡ fault_status = cc fault in (r, ahead, within, same)
    answer_taken c there (suc left) attempt w (err e, ledger) (inr fault) =
        let same : e ≡ fault_status = cc fault in (r, ahead, within, same)

take_answer-Keeps :
    (there : Bool) (head left attempt : ℕ) (w : Waiting) (pump : Pump)
    (p : Result (List StoredEvent) Status × Ledger)
    → Keeps p.1 (take_answer there head left attempt w pump p).1
take_answer-Keeps there head left attempt w pump (ok found, ledger) = record {
  db = refl;
  bus = refl;
}
take_answer-Keeps there head left attempt w pump (err e, ledger) = record { db = refl; bus = refl }

pub attempt_bus :
    (codec : Codec) (q : String) (from upto attempt : ℕ) (ledger : Ledger)
    → (attempt_load codec q from upto (count_retry attempt ledger)).1.bus ≡ ledger.bus
unfolding db
attempt_bus codec q from upto zero ledger = refl
attempt_bus codec q from upto (suc attempt) ledger = refl

-- Wherever the engine fails, a turn that reads keeps the promise, the database and the bus.
pub read_chunk-PumpOk :
    (codec : Codec) (lossless : IsLossless codec) (q : String) (events : List QuoteEvent)
    (after : ℕ) (there : Bool) (head left attempt : ℕ) (w : Waiting) (last_err : Option Status)
    (pump : Pump) (ledger : Ledger)
    → RowsMatch codec q 1 (rows_of ledger.conn.db q) events
    → length events < i64_limit
    → Delivered q events after live pump.sent pump.watermark
    → pump.watermark < head
    → head ≤ length events
    → IsFaultOnly left last_err
    → PumpOk q events after
        (read_chunk codec q after there head left attempt w last_err pump ledger).0
      × Keeps ledger (read_chunk codec q after there head left attempt w last_err pump ledger).1
unfolding read_chunk
read_chunk-PumpOk codec lossless q events after there head zero attempt w last_err pump ledger
      matches small r ahead within fault =
    (error_sent q events after there pump last_err fault r, record { db = refl; bus = refl })
read_chunk-PumpOk codec lossless q events after there head (suc left) attempt w last_err pump ledger
      matches small r ahead within fault =
    let c =
      parts-Chunk q events after r.pre r.mid r.post pump.watermark head r.reach ahead
        (subst (λ (l : List QuoteEvent). head ≤ length l) r.parts within) in
    let here = ap (λ conn. conn.db) (count_retry_conn attempt ledger) in
    let (answer, kept) =
      attempt-IsAnswered codec q pump.watermark head ledger.conn.db
        (chunk q events after pump head r c)
        (Runs-chunk q events after pump head r c codec lossless ledger.conn.db matches small)
        (count_retry attempt ledger) here in
    let p = attempt_load codec q pump.watermark head (count_retry attempt ledger) in
    let keeps = take_answer-Keeps there head left attempt w pump p in
    (
      answer_taken q events after head pump r ahead within c there left attempt w p answer,
      record {
        db = keeps.db ∙ kept;
        bus = keeps.bus ∙ attempt_bus codec q pump.watermark head attempt ledger;
      },
    )
