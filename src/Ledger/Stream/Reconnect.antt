-- ===== src/Ledger/Stream/Reconnect.antt =====
-- A client of src/ledger.rs that subscribes again with the last seq that it has processed.
use quote_ledger.Common.{
  ℕ, suc, ◌+◌, ◌≡◌, refl, sym, ap, ap₂, ◌∙◌, subst, String, Option, none, some, List, [], ◌∷◌, ◌++◌,
  length, length-append, Result, ok, err, inl, inr, arith,
}
use mathlib.Core.List.{append-nil, append_assoc}
use quote_ledger.Wire.{QuoteUpdate, snapshot, tail, QuoteEvent, StoredEvent, Status}
use quote_ledger.Mapping.RoundTrip.{stored_from}
use quote_ledger.Store.Codec.{Codec, IsLossless}
use quote_ledger.Store.History.{History, Extends}
use quote_ledger.Ledger.State.{Ledger}
use quote_ledger.Ledger.Sound.{DomainHistory, IsSound}
use quote_ledger.Ledger.Safe.{HasRoom}
use quote_ledger.Ledger.Stream.World.{World, subscribing, Move, run}
use quote_ledger.Ledger.Stream.Follows.{
  Stage, Follows, nothing_yet, caught_up, shown, extended, failed, events_of, stored_from-append,
  more_parts,
}
use quote_ledger.Ledger.Stream.Invariant.{HeadsOk}
use quote_ledger.Ledger.Stream.Delivery.{IsStream, Streams, moved, phase-IsStream, run-Streams}

-- The last processed seq, from the latest tail or snapshot.
abbrev pub position : List (Result QuoteUpdate Status) → Option ℕ
position [] = none
position (ok (snapshot last_seq view) ∷ sent) = some last_seq
position (ok (tail from to events) ∷ sent) = some to
position (err e ∷ sent) = position sent

position-Follows :
    (q : String) (pre mid : List QuoteEvent) (stage : Stage)
    (sent : List (Result QuoteUpdate Status)) {p : ℕ}
    → Follows q pre mid stage sent
    → position sent ≡ some p
    → p ≡ length (pre ++ mid)
position-Follows q pre mid stage sent nothing_yet at = absurd (cc at)
position-Follows q pre mid stage sent {p} (caught_up _) at =
    let to : length pre + length mid ≡ p = cc at in omega (arith, to, length-append {0} pre mid)
position-Follows q pre mid stage sent (shown view viewed before) at = sym (cc at)
position-Follows q pre mid stage sent {p} (extended {mid = old} chunk some_event before) at =
    let to : length (pre ++ old) + length chunk ≡ p = cc at in
    omega (
      arith,
      to,
      length-append {0} pre old,
      length-append {0} old chunk,
      length-append {0} pre (old ++ chunk),
    )
position-Follows q pre mid stage sent (failed before) at = position-Follows q pre mid _ _ before at

-- Beginnings of one length of one list are one.
same_beginning :
    (xs ys more rest : List QuoteEvent) → xs ++ more ≡ ys ++ rest → length xs ≡ length ys → xs ≡ ys
same_beginning [] [] more rest whole long = refl
same_beginning [] (y ∷ ys) more rest whole long = absurd (omega (arith, long))
same_beginning (x ∷ xs) [] more rest whole long = absurd (omega (arith, long))
same_beginning (x ∷ xs) (y ∷ ys) more rest whole long =
    let first : x ≡ y = cc whole in
    ap₂ ◌∷◌ first (same_beginning xs ys more rest (cc whole) (omega (arith, long)))

-- What both streams have delivered is a stretch of the history.
pub record Resumed (q : String) (events : List QuoteEvent) (after : ℕ)
    (delivered : List StoredEvent) : Type 0 where
  pub pre : List QuoteEvent
  pub mid : List QuoteEvent
  pub post : List QuoteEvent
  pub parts : events ≡ pre ++ (mid ++ post)
  pub start : after ≡ length pre
  pub seqs : delivered ≡ stored_from q (suc after) mid

module _ (q : String) (old new : List QuoteEvent) (after p : ℕ)
    (first second : List (Result QuoteUpdate Status)) (at : position first ≡ some p) where
  IsStream-Resumed_nothing :
      IsStream q old after first
      → second ≡ []
      → Resumed q (old ++ new) after (events_of first ++ events_of second)
  IsStream-Resumed_nothing (inl nothing) empty = absurd (cc (at, ap position nothing))
  IsStream-Resumed_nothing (inr (stage, to, r, seqs)) empty = record {
    pre = r.pre;
    mid = r.mid;
    post = r.post ++ new;
    parts = ap (λ l. l ++ new) r.parts ∙ more_parts r.pre r.mid r.post new;
    start = r.start;
    seqs = ap (λ l. events_of first ++ events_of l) empty ∙ append-nil (events_of first) ∙ seqs;
  }

  IsStream-Resumed :
      IsStream q old after first
      → IsStream q (old ++ new) p second
      → Resumed q (old ++ new) after (events_of first ++ events_of second)
  IsStream-Resumed one (inl nothing) = IsStream-Resumed_nothing one nothing
  IsStream-Resumed (inl nothing) (inr later) = absurd (cc (at, ap position nothing))
  IsStream-Resumed (inr (stage, to, r, seqs)) (inr (stage', to', r', seqs')) =
      let long = position-Follows q r.pre r.mid stage first r.follows at in
      let whole : (r.pre ++ r.mid) ++ (r.post ++ new) ≡ r'.pre ++ (r'.mid ++ r'.post) =
        append_assoc r.pre r.mid (r.post ++ new)
        ∙ sym (more_parts r.pre r.mid r.post new)
        ∙ sym (ap (λ l. l ++ new) r.parts)
        ∙ r'.parts in
      let next : suc after + length r.mid ≡ suc p =
        omega (arith, long, r.start, length-append {0} r.pre r.mid) in
      let here = same_beginning (r.pre ++ r.mid) r'.pre _ _ whole (sym long ∙ r'.start) in
      record {
        pre = r.pre;
        mid = r.mid ++ r'.mid;
        post = r'.post;
        parts =
            r'.parts
            ∙ ap (λ l. l ++ (r'.mid ++ r'.post)) (sym here)
            ∙ append_assoc r.pre r.mid (r'.mid ++ r'.post)
            ∙ ap (λ l. r.pre ++ l) (sym (append_assoc r.mid r'.mid r'.post));
        start = r.start;
        seqs =
            ap₂ (λ xs ys. xs ++ ys) seqs seqs'
            ∙ ap (λ n. stored_from q (suc after) r.mid ++ stored_from q n r'.mid) (sym next)
            ∙ sym (stored_from-append q (suc after) r.mid r'.mid);
      }

pub Extends-trans : (h h' h2 : History) → Extends h h' → Extends h' h2 → Extends h h2
Extends-trans h h' h2 one next q =
    let (new, e) = one q in
    let (more, e') = next q in
    (new ++ more, e' ∙ ap (λ l. l ++ more) e ∙ append_assoc (h q) new more)

-- The world after a second subscription of the client, in the world that the first has left.
abbrev pub resumed_world : Codec → String → ℕ → World → List Move → World
resumed_world codec q p world moves = run codec q p (subscribing world.ledger world.pending) moves

-- The histories that the second world stores, with a stretch of the quote's delivered.
pub record Resumes (codec : Codec) (q : String) (after : ℕ) (h : History) (first second : World)
    : Type 0 where
  pub h' : History
  pub d' : DomainHistory
  pub sound : IsSound codec second.ledger.conn.db h' d'
  pub longer : Extends h h'
  pub resumed : Resumed q (h' q) after (events_of first.pump.sent ++ events_of second.pump.sent)

-- A second stream that goes on where the first one's position is.
pub resume :
    (codec : Codec) (q : String) (after p : ℕ) (h h1 : History) (first second : World)
    → Extends h h1
    → IsStream q (h1 q) after first.pump.sent
    → position first.pump.sent ≡ some p
    → Streams codec q p h1 second
    → Resumes codec q after h first second
resume codec q after p h h1 first second longer stream at next =
    let (new, e) = next.longer q in
    record {
      h' = next.h';
      d' = next.d';
      sound = next.sound;
      longer = λ j. Extends-trans _ _ _ longer next.longer j;
      resumed = rw e (
          IsStream-Resumed q (h1 q) new after p first.pump.sent second.pump.sent at stream
            (subst (λ l. IsStream q l p second.pump.sent) e next.stream));
    }

module _ (codec : Codec) (lossless : IsLossless codec) (q : String) (after : ℕ) (ledger : Ledger)
    (h : History) (d : DomainHistory) (moves later : List Move)
    (sound : IsSound codec ledger.conn.db h d) (heads : HeadsOk h ledger.bus)
    (room : HasRoom h (length moves + length later)) where
  abbrev first_world : World
  first_world = run codec q after (subscribing ledger []) moves

  -- With a lossless encoding of events: when a client has followed a quote under any schedule from
  -- a sound ledger with room for the events to come, however the stream has ended, and subscribes
  -- again with the seq of the last tail or snapshot it has been sent, under any further schedule,
  -- the tails of both streams together carry exactly the events of a stretch of the quote's
  -- history from the first subscription's seq on, each once, in order and under its seq; the
  -- database is sound afterwards.
  run-Resumes :
      (p : ℕ)
      → position first_world.pump.sent ≡ some p
      → Resumes codec q after h first_world (resumed_world codec q p first_world later)
  run-Resumes p at =
      let fits : HasRoom h (length moves) = λ j. omega (arith, room j) in
      let one = moved codec lossless q after ledger [] h d moves sound heads tt fits in
      resume codec q after p h one.moves.h' first_world (resumed_world codec q p first_world later)
        one.moves.grows.longer (phase-IsStream q (one.moves.h' q) after _ _ _ one.in_order.pump) at
        (run-Streams codec lossless q p first_world.ledger first_world.pending one.moves.h'
          one.moves.d' later one.moves.sound one.in_order.heads one.in_order.pending
          (λ j. omega (arith, room j, one.moves.few j)))
