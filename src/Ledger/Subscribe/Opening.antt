-- ===== src/Ledger/Subscribe/Opening.antt =====
-- What a subscription opens with (src/ledger.rs).
use quote_ledger.Common.{
  ℕ, suc, ◌+◌, ◌<◌, ◌≡◌, refl, sym, ap, ◌∙◌, subst, String, true, false, List, [], ◌∷◌, ◌++◌, last,
  length, length-append, Result, ok, err, map_err, arith, ltb, if◌then◌else◌,
}
use mathlib.Core.List.{append-nil}
use quote_ledger.Common.Int.{i64_limit}
use quote_ledger.Domain.Model.{QuoteState}
use quote_ledger.Domain.Reducer.{replay}
use quote_ledger.Wire.{QuoteEvent, StoreError, invalid_after_seq, QuoteView}
use quote_ledger.Mapping.{replay_stored_to_state, quote_state_to_view}
use quote_ledger.Mapping.RoundTrip.{stored_from, replay_stored-eq-replay}
use quote_ledger.Mapping.View.{view_of_valid}
use quote_ledger.Store.Tables.{Db}
use quote_ledger.Store.Append.{load_stored_events_between}
use quote_ledger.Store.Engine.{pure}
use quote_ledger.Store.Codec.{Codec, IsLossless}
use quote_ledger.Store.Runs.{Runs, Runs-pure, Runs-fail, Runs-bind, Runs-lift_eq}
use quote_ledger.Store.Match.{RowsMatch}
use quote_ledger.Store.Select.{rows_of, Runs-load_stored_events, Runs-load_between}
use quote_ledger.Store.History.{History}
use quote_ledger.Ledger.Sound.{DomainHistory, IsSound}
use quote_ledger.Ledger.Subscribe.{
  Init, seq_or_zero, load_catchup, open_at, open_from, open_subscription,
}

-- The last of the events numbered from `n` has the seq of the head.
last-stored_from :
    (q : String) (n : ℕ) (ev : QuoteEvent) (events : List QuoteEvent)
    → seq_or_zero (last (stored_from q n (ev ∷ events))) ≡ n + length events
last-stored_from q n ev [] = omega arith
last-stored_from q n ev (e ∷ events) = last-stored_from q (suc n) e events ∙ omega arith

head_seq :
    (q : String) (events : List QuoteEvent)
    → seq_or_zero (last (stored_from q 1 events)) ≡ length events
head_seq q [] = refl
head_seq q (ev ∷ events) = last-stored_from q 1 ev events ∙ omega arith

module _ (codec : Codec) (lossless : IsLossless codec) (db : Db) (h : History) (d : DomainHistory)
    (sound : IsSound codec db h d) (q : String) where
  Runs-open :
      (after : ℕ) {answer : Result Init StoreError}
      → Runs (open_from codec q after (stored_from q 1 (h q)) (length (h q))) db answer db
      → Runs (open_subscription codec q after) db answer db
  unfolding open_subscription
  Runs-open after run =
      Runs-bind (λ all. open_from codec q after all (seq_or_zero (last all)))
        (Runs-load_stored_events codec lossless q db (h q) (sound.represents.rows q))
        (rw (head_seq q (h q)) run)

  -- With a lossless encoding of events: on a sound database, opening a subscription after a seq
  -- that is ahead of the head is refused with both seqs and changes nothing, unless the engine
  -- fails.
  pub open_subscription_ahead :
      (after : ℕ)
      → length (h q) < after
      → Runs (open_subscription codec q after) db (err (invalid_after_seq after (length (h q)))) db
  unfolding open_from
  open_subscription_ahead after ahead =
      Runs-open after
        (let over : ltb (length (h q)) after ≡ true = ground arith in rw over (Runs-fail _ db))

  module _ (pre mid : List QuoteEvent) (parts : h q ≡ pre ++ mid)
      (small : length (h q) < i64_limit) where
    parts_length : length (h q) ≡ length pre + length mid
    parts_length = ap length parts ∙ length-append {0} pre mid

    Runs-load_catchup :
        Runs
          (load_catchup codec q (length pre) (length (h q)))
          db
          (ok (stored_from q (suc (length pre)) mid))
          db
    unfolding load_catchup
    Runs-load_catchup = rw parts_length (choose mid parts parts_length)
      where
        choose :
            (m : List QuoteEvent)
            → h q ≡ pre ++ m
            → length (h q) ≡ length pre + length m
            → Runs
                (if ltb (length pre) (length pre + length m)
                  then load_stored_events_between codec q (length pre) (length pre + length m)
                  else pure [])
                db
                (ok (stored_from q (suc (length pre)) m))
                db
        choose [] whole long =
            let none_new : ltb (length pre) (length pre + 0) ≡ false = ground arith in
            rw none_new (Runs-pure _ db)
        choose (ev ∷ more) whole long =
            let some_new : ltb (length pre) (length pre + suc (length more)) ≡ true =
              ground arith in
            rw some_new (
              Runs-load_between codec lossless q db pre (ev ∷ more) []
                (subst (λ l. RowsMatch codec q 1 (rows_of db q) l)
                  (whole ∙ ap (λ l. pre ++ l) (sym (append-nil (ev ∷ more))))
                  (sound.represents.rows q))
                (subst (λ (l : List QuoteEvent). length l < i64_limit)
                  (whole ∙ ap (λ l. pre ++ l) (sym (append-nil (ev ∷ more)))) small))

    pub replayed :
        {s : QuoteState}
        → replay (d q) ≡ ok s
        → replay_stored_to_state (stored_from q 1 (h q)) ≡ ok s
    replayed reached =
        ap (λ l. replay_stored_to_state (stored_from q 1 l)) (sound.events q)
        ∙ replay_stored-eq-replay q 1 (d q)
        ∙ ap (map_err StoreError.domain) reached

    -- With a lossless encoding of events: on a sound database, when a quote's history has the
    -- parts pre and mid and its length fits into an i64, opening a subscription after the last
    -- event of pre reads, unless the engine fails, the seq of the head, the view of the state that
    -- the history replays to, and exactly the events of mid under their seqs; the database is as
    -- it was.
    pub open_subscription_reads :
        (s : QuoteState) × (view : QuoteView) × (replay (d q) ≡ ok s)
        × (quote_state_to_view q s ≡ ok view)
        × Runs
            (open_subscription codec q (length pre))
            db
            (ok (record {
              last_seq = length (h q);
              view = view;
              catchup = stored_from q (suc (length pre)) mid;
            }))
            db
    unfolding open_from open_at
    open_subscription_reads =
        let (s, reached, valid) = sound.replays q in
        let (view, viewed, _, _, _, _, _, _, _) = view_of_valid q s valid in
        let reached_head : ltb (length (h q)) (length pre) ≡ false = ground (arith, parts_length) in
        (
          s,
          view,
          reached,
          viewed,
          Runs-open (length pre) (
              rw reached_head (
                Runs-bind _ (Runs-lift_eq (replayed reached) db) (
                  Runs-bind _ (Runs-lift_eq (ap (map_err StoreError.domain) viewed) db)
                    (Runs-bind _ Runs-load_catchup (Runs-pure _ db))))),
        )
