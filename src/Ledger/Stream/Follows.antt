-- ===== src/Ledger/Stream/Follows.antt =====
-- What a subscriber of `subscribe_quote` is promised (src/ledger.rs): a specification of the stream
-- that does not mention how it is made.
use quote_ledger.Common.{
  ℕ, suc, ◌+◌, ◌≤◌, ◌≡◌, ◌≢◌, refl, sym, ap, ◌∙◌, String, List, [], ◌∷◌, ◌++◌, length,
  length-append, Result, ok, err, arith,
}
use mathlib.Core.List.{append_assoc}
use quote_ledger.Domain.Model.{QuoteState}
use quote_ledger.Wire.{QuoteUpdate, snapshot, tail, QuoteEvent, StoredEvent, QuoteView, Status}
use quote_ledger.Mapping.{replay_stored_to_state, quote_state_to_view}
use quote_ledger.Mapping.RoundTrip.{stored_from}
use quote_ledger.Ledger.Subscribe.{Init}
use quote_ledger.Ledger.SubscribeLoad.Retried.{fault_status}

-- Before the snapshot, after it, and after an error.
pub data Stage : Type 0 where
  fresh live over : Stage

-- The view of the state that the events replay to.
abbrev pub IsViewOf : String → List QuoteEvent → QuoteView → Type 0
IsViewOf q events view =
    (s : QuoteState) × (replay_stored_to_state (stored_from q 1 events) ≡ ok s)
    × (quote_state_to_view q s ≡ ok view)

-- The message with the events of `chunk` after those of `before`.
abbrev pub tail_message : String → (before chunk : List QuoteEvent) → QuoteUpdate
tail_message q before chunk =
    tail (length before) (length before + length chunk) (stored_from q (suc (length before)) chunk)

-- `Follows q pre mid stage sent`: to a subscriber who has the events `pre`, what has been sent, the
-- latest first, delivers the events `mid`: at most one tail that catches up, one snapshot of just
-- that point, then tails with at least one event, each from where the last one ended; an error is
-- the engine's and the last of all.
pub data Follows (q : String) (pre : List QuoteEvent)
    : List QuoteEvent → Stage → List (Result QuoteUpdate Status) → Type 0 where
  nothing_yet : Follows q pre [] fresh []
  caught_up : (mid : List QuoteEvent) → Follows q pre mid fresh (ok (tail_message q pre mid) ∷ [])
  shown :
      {mid : List QuoteEvent} {sent : List (Result QuoteUpdate Status)} (view : QuoteView)
      → IsViewOf q (pre ++ mid) view
      → Follows q pre mid fresh sent
      → Follows q pre mid live (ok (snapshot (length (pre ++ mid)) view) ∷ sent)
  extended :
      {mid : List QuoteEvent} {sent : List (Result QuoteUpdate Status)} (chunk : List QuoteEvent)
      → chunk ≢ []
      → Follows q pre mid live sent
      → Follows q pre (mid ++ chunk) live (ok (tail_message q (pre ++ mid) chunk) ∷ sent)
  failed :
      {mid : List QuoteEvent} {sent : List (Result QuoteUpdate Status)}
      → Follows q pre mid live sent
      → Follows q pre mid over (err fault_status ∷ sent)

-- The events that the tails carry, in the order of sending.
abbrev pub events_of : List (Result QuoteUpdate Status) → List StoredEvent
events_of [] = []
events_of (ok (snapshot last_seq view) ∷ sent) = events_of sent
events_of (ok (tail from to events) ∷ sent) = events_of sent ++ events
events_of (err e ∷ sent) = events_of sent

pub stored_from-append :
    (q : String) (n : ℕ) (xs ys : List QuoteEvent)
    → stored_from q n (xs ++ ys) ≡ stored_from q n xs ++ stored_from q (n + length xs) ys
stored_from-append q n [] ys = ap (λ m. stored_from q m ys) (omega arith)
stored_from-append q n (x ∷ xs) ys =
    let rest = stored_from-append q (suc n) xs ys in
    let shift : suc n + length xs ≡ n + suc (length xs) = omega arith in rw (← shift) (rw rest refl)

-- Whatever the stage, the tails of a stream that follows a position carry exactly the events it
-- delivers, in their order and under their seqs.
pub events_of-Follows :
    (q : String) (pre mid : List QuoteEvent) (stage : Stage)
    (sent : List (Result QuoteUpdate Status))
    → Follows q pre mid stage sent
    → events_of sent ≡ stored_from q (suc (length pre)) mid
events_of-Follows q pre mid stage sent nothing_yet = refl
events_of-Follows q pre mid stage sent (caught_up _) = refl
events_of-Follows q pre mid stage sent (shown view viewed before) =
    events_of-Follows q pre mid fresh _ before
events_of-Follows q pre mid stage sent
      (extended {mid = old} {sent = older} chunk some_event before) =
    let start : suc (length pre) + length old ≡ suc (length (pre ++ old)) =
      omega (arith, length-append {0} pre old) in
    ap (λ l. l ++ stored_from q (suc (length (pre ++ old))) chunk)
      (events_of-Follows q pre old live older before)
    ∙ ap (λ n. stored_from q (suc (length pre)) old ++ stored_from q n chunk) (sym start)
    ∙ sym (stored_from-append q (suc (length pre)) old chunk)
events_of-Follows q pre mid stage sent (failed before) = events_of-Follows q pre mid live _ before

-- A stream for `after` that has got to `to`, of a quote whose events are `events`.
pub record Delivered (q : String) (events : List QuoteEvent) (after : ℕ) (stage : Stage)
    (sent : List (Result QuoteUpdate Status)) (to : ℕ) : Type 0 where
  pub pre : List QuoteEvent
  pub mid : List QuoteEvent
  pub post : List QuoteEvent
  pub parts : events ≡ pre ++ (mid ++ post)
  pub start : after ≡ length pre
  pub reach : to ≡ length (pre ++ mid)
  pub follows : Follows q pre mid stage sent

-- What a subscription for `after` opens with.
pub record Opens (q : String) (events : List QuoteEvent) (after : ℕ) (init : Init) : Type 0 where
  pub pre : List QuoteEvent
  pub mid : List QuoteEvent
  pub post : List QuoteEvent
  pub parts : events ≡ pre ++ (mid ++ post)
  pub start : after ≡ length pre
  pub reach : init.last_seq ≡ length (pre ++ mid)
  pub catchup : init.catchup ≡ stored_from q (suc (length pre)) mid
  pub viewed : IsViewOf q (pre ++ mid) init.view

pub more_parts :
    (pre mid post new : List QuoteEvent)
    → (pre ++ (mid ++ post)) ++ new ≡ pre ++ (mid ++ (post ++ new))
more_parts pre mid post new =
    append_assoc pre (mid ++ post) new ∙ ap (λ l. pre ++ l) (append_assoc mid post new)

module _ {q : String} {events : List QuoteEvent} (new : List QuoteEvent) {after : ℕ} where
  pub Delivered-grow :
      {stage : Stage} {sent : List (Result QuoteUpdate Status)} {to : ℕ}
      → Delivered q events after stage sent to
      → Delivered q (events ++ new) after stage sent to
  Delivered-grow r = record {
    pre = r.pre;
    mid = r.mid;
    post = r.post ++ new;
    parts = ap (λ l. l ++ new) r.parts ∙ more_parts r.pre r.mid r.post new;
    start = r.start;
    reach = r.reach;
    follows = r.follows;
  }

  pub Opens-grow : {init : Init} → Opens q events after init → Opens q (events ++ new) after init
  Opens-grow r = record {
    pre = r.pre;
    mid = r.mid;
    post = r.post ++ new;
    parts = ap (λ l. l ++ new) r.parts ∙ more_parts r.pre r.mid r.post new;
    start = r.start;
    reach = r.reach;
    catchup = r.catchup;
    viewed = r.viewed;
  }

-- A part of a list is no longer than the list.
pub parts_bound :
    (pre mid post : List QuoteEvent) → length (pre ++ mid) ≤ length (pre ++ (mid ++ post))
parts_bound pre mid post = omega (
  arith,
  length-append {0} pre mid,
  length-append {0} pre (mid ++ post),
  length-append {0} mid post,
)

pub Opens-bound :
    {q : String} {events : List QuoteEvent} {after : ℕ} {init : Init}
    → Opens q events after init
    → init.last_seq ≤ length events
Opens-bound r = rw (r.reach, r.parts) (parts_bound r.pre r.mid r.post)
