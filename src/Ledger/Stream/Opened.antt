-- ===== src/Ledger/Stream/Opened.antt =====
-- What the first read of `subscribe_quote` leaves behind (src/ledger.rs).
use quote_ledger.Common.{
  split_at, Bool-cases, last, ℕ, ◌<◌, ◌≡◌, refl, sym, ap, ◌∙◌, subst, String, List, [], ◌++◌,
  length, Result, Result-cases, inl, inr, ok, map_err, map_err-eq-ok, arith, ltb,
}
use mathlib.Core.List.{append-nil}
use quote_ledger.Common.Int.{i64_limit}
use quote_ledger.Wire.{QuoteEvent, StoredEvent, StoreError, Status}
use quote_ledger.Mapping.{quote_state_to_view, replay_stored_to_state, store_error_to_status}
use quote_ledger.Mapping.RoundTrip.{stored_from}
use quote_ledger.Store.Codec.{Codec, IsLossless}
use quote_ledger.Store.Engine.{lift as store_lift}
use quote_ledger.Store.Append.{load_stored_events}
use quote_ledger.Store.Runs.{Ends-at}
use quote_ledger.Store.Atomic.{
  ReadsOnly-fail, ReadsOnly-pure, ReadsOnly, ReadsOnly-bind, ReadsOnly-lift, ReadsOnly-if,
  load_stored_events-ReadsOnly, load_between-ReadsOnly,
}
use quote_ledger.Store.History.{History}
use quote_ledger.Ledger.State.{Ledger, db}
use quote_ledger.Ledger.Sound.{DomainHistory, IsSound}
use quote_ledger.Ledger.Identifier.{validate_identifier}
use quote_ledger.Ledger.Subscribe.{
  Init, load_catchup, open_at, open_from, open_subscription, seq_or_zero,
}
use quote_ledger.Ledger.Subscribe.Opening.{
  replayed, open_subscription_ahead, open_subscription_reads,
}
use quote_ledger.Ledger.Stream.{open_read}
use quote_ledger.Ledger.Stream.Follows.{Opens}

same_init : {a b : Init} (x y : Result Init StoreError) → x ≡ ok a → y ≡ ok b → x ≡ y → a ≡ b
same_init x y xa yb same = cc (xa, yb, same)

module _ (codec : Codec) (q : String) (after : ℕ) where
  load_catchup-ReadsOnly : (head : ℕ) → ReadsOnly (load_catchup codec q after head)
  unfolding load_catchup
  load_catchup-ReadsOnly head =
      ReadsOnly-if (ltb after head) _ _ (load_between-ReadsOnly codec q after head)
        (ReadsOnly-pure [])

  open_at-ReadsOnly :
      (all : List StoredEvent) (head : ℕ) → ReadsOnly (open_at codec q after all head)
  unfolding open_at
  open_at-ReadsOnly all head =
      ReadsOnly-bind (store_lift (replay_stored_to_state all)) _ (ReadsOnly-lift _) (λ state.
        ReadsOnly-bind (store_lift (map_err StoreError.domain (quote_state_to_view q state))) _
          (ReadsOnly-lift _)
          (λ view.
            ReadsOnly-bind (load_catchup codec q after head) _ (load_catchup-ReadsOnly head)
              (λ catchup. ReadsOnly-pure _)))

  open-ReadsOnly : ReadsOnly (open_subscription codec q after)
  unfolding open_subscription open_from
  open-ReadsOnly =
      ReadsOnly-bind (load_stored_events codec q)
        (λ all. open_from codec q after all (seq_or_zero (last all)))
        (load_stored_events-ReadsOnly codec q)
        (λ all.
          ReadsOnly-if (ltb (seq_or_zero (last all)) after) _ _ (ReadsOnly-fail _)
            (open_at-ReadsOnly all (seq_or_zero (last all))))

  -- The read's answer and the connection it leaves.
  pub record IsOpened (ledger : Ledger) (events : List QuoteEvent) (p : Result Init Status × Ledger)
      : Type 0 where
    pub kept : p.1.conn.db ≡ ledger.conn.db
    pub bus : p.1.bus ≡ ledger.bus
    pub opens : (init : Init) → p.0 ≡ ok init → Opens q events after init

  module _ (lossless : IsLossless codec) (ledger : Ledger) (h : History) (d : DomainHistory)
      (sound : IsSound codec ledger.conn.db h d) (small : length (h q) < i64_limit) where
    within-Opens :
        (pre mid : List QuoteEvent) (init : Init)
        → h q ≡ pre ++ mid
        → after ≡ length pre
        → (open_subscription codec q after ledger.conn).0 ≡ ok init
        → Opens q (h q) after init
    within-Opens pre mid init parts long answer =
        let (s, view, reached, viewed, run) =
          open_subscription_reads codec lossless ledger.conn.db h d sound q pre mid parts small in
        let answered =
          subst (λ n. (open_subscription codec q n ledger.conn).0 ≡ ok init) long answer in
        elim (Ends-at run ledger.conn refl) [
          | inl (same, _) ↦
              let whole = same_init _ _ same answered refl in
              record {
                pre = pre;
                mid = mid;
                post = [];
                parts = parts ∙ ap (λ l. pre ++ l) (sym (append-nil mid));
                start = long;
                reach = sym (ap (λ (i : Init). i.last_seq) whole) ∙ ap length parts;
                catchup = sym (ap (λ (i : Init). i.catchup) whole);
                viewed = (
                  s,
                  ap (λ l. replay_stored_to_state (stored_from q 1 l)) (sym parts)
                      ∙ replayed codec lossless ledger.conn.db h d sound q pre mid parts small
                          reached,
                  viewed ∙ ap ok (ap (λ (i : Init). i.view) whole),
                );
              }
          | inr fault ↦ absurd (cc (fault, answered))
        ]

    answer-Opens :
        (init : Init)
        → (open_subscription codec q after ledger.conn).0 ≡ ok init
        → Opens q (h q) after init
    answer-Opens init answer = elim (Bool-cases (ltb (length (h q)) after)) [
      | inl ahead ↦
          let run =
            open_subscription_ahead codec lossless ledger.conn.db h d sound q after
              (ground arith) in
          elim (Ends-at run ledger.conn refl) [
            | inl (same, _) ↦ absurd (cc (same, answer))
            | inr fault ↦ absurd (cc (fault, answer))
          ]
      | inr within ↦
          let (pre, mid, parts, long) = split_at after (h q) (ground arith) in
          within-Opens pre mid init parts long answer
    ]

    -- Wherever the engine fails, the read leaves the database and the bus as they were, and a good
    -- answer is what a subscription opens with.
    pub open_read-IsOpened : IsOpened ledger (h q) (open_read codec q after ledger)
    unfolding open_read db
    open_read-IsOpened = elim (Result-cases (validate_identifier "quote_id" q)) [
      | inl (_, valid) ↦ rw valid (record {
        kept = open-ReadsOnly.same ledger.conn;
        bus = refl;
        opens = λ init answer. answer-Opens init (map_err-eq-ok store_error_to_status _ answer);
      })
      | inr (e, refused) ↦
          rw refused (record { kept = refl; bus = refl; opens = λ init answer. absurd (cc answer) })
    ]
