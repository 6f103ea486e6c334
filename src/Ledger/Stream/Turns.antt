-- ===== src/Ledger/Stream/Turns.antt =====
-- Every turn of the subscriber's task keeps the promise of its stream (src/ledger.rs).
use quote_ledger.Common.{
  ap₂, ℕ, suc, ◌+◌, ◌≤◌, ◌≡◌, refl, ◌∙◌, String, Bool, true, false, List, [], ◌∷◌, ◌++◌, length,
  last, Result, ok, inl, inr, Bool-cases, ltb, arith,
}
use quote_ledger.Wire.{QuoteUpdate, snapshot, tail, QuoteEvent, Status}
use quote_ledger.Mapping.RoundTrip.{stored_from}
use quote_ledger.Ledger.Subscribe.{Init}
use quote_ledger.Ledger.Stream.{ended, Pump, seq_or, tail_from, send_catchup, send_snapshot, look}
use quote_ledger.Ledger.Stream.Follows.{
  fresh, live, tail_message, Follows, nothing_yet, caught_up, shown, Delivered, Opens,
}
use quote_ledger.Ledger.Stream.Invariant.{IsCaught, PhaseOk, PumpOk}

seq_or-stored_from :
    (q : String) (from n : ℕ) (ev : QuoteEvent) (events : List QuoteEvent)
    → seq_or from (last (stored_from q n (ev ∷ events))) ≡ n + length events
seq_or-stored_from q from n ev [] = omega arith
seq_or-stored_from q from n ev (e ∷ events) =
    seq_or-stored_from q from (suc n) e events ∙ omega arith

-- The message for events that are numbered from where the stream has got to.
pub tail_from-stored_from :
    (q : String) (from : ℕ) (before : List QuoteEvent) (ev : QuoteEvent) (chunk : List QuoteEvent)
    → from ≡ length before
    → tail_from from (stored_from q (suc (length before)) (ev ∷ chunk))
      ≡ tail_message q before (ev ∷ chunk)
tail_from-stored_from q from before ev chunk start =
    let to : seq_or from (last (stored_from q (suc (length before)) (ev ∷ chunk)))
        ≡ length before + suc (length chunk) =
      seq_or-stored_from q from (suc (length before)) ev chunk ∙ omega arith in
    ap₂ (λ m n. tail m n (stored_from q (suc (length before)) (ev ∷ chunk))) start to

module _ (q : String) (events : List QuoteEvent) (after : ℕ) where
  Follows-IsCaught :
      {init : Init} {sent : List (Result QuoteUpdate Status)} (o : Opens q events after init)
      → Follows q o.pre o.mid fresh sent
      → IsCaught q events after init sent
  Follows-IsCaught {init} {sent} o follows =
      let shown_too : Follows q o.pre o.mid live (ok (snapshot init.last_seq init.view) ∷ sent) =
        rw o.reach (shown init.view o.viewed follows) in
      (
        record {
          pre = o.pre;
          mid = o.mid;
          post = o.post;
          parts = o.parts;
          start = o.start;
          reach = o.reach;
          follows = follows;
        },
        record {
          pre = o.pre;
          mid = o.mid;
          post = o.post;
          parts = o.parts;
          start = o.start;
          reach = o.reach;
          follows = shown_too;
        },
      )

  pub Delivered-ended :
      {stage : _} {sent : List (Result QuoteUpdate Status)} {to : ℕ} (watermark : ℕ)
      → Delivered q events after stage sent to
      → PhaseOk q events after ended watermark sent
  Delivered-ended watermark delivered = (_, _, delivered)

  nothing_of :
      {init : Init} (o : Opens q events after init)
      → Delivered q events after fresh [] (length (o.pre ++ []))
  nothing_of o = record {
    pre = o.pre;
    mid = [];
    post = o.mid ++ o.post;
    parts = o.parts;
    start = o.start;
    reach = refl;
    follows = nothing_yet;
  }

  pub catchup_sent :
      (there : Bool) (init : Init) (pump : Pump) (o : Opens q events after init)
      → pump.sent ≡ []
      → (mid : List QuoteEvent) → o.mid ≡ mid
      → PumpOk q events after
          (send_catchup there after init (stored_from q (suc (length o.pre)) mid) pump)
  catchup_sent there init pump o nothing [] empty =
      rw nothing (Follows-IsCaught o (rw empty nothing_yet))
  catchup_sent true init pump o nothing (ev ∷ more) some_new =
      let sent = Follows-IsCaught o (rw some_new (caught_up (ev ∷ more))) in
      rw (nothing, tail_from-stored_from q after o.pre ev more o.start) sent
  catchup_sent false init pump o nothing (ev ∷ more) some_new =
      rw nothing (Delivered-ended pump.watermark (nothing_of o))

  pub snapshot_sent :
      (there : Bool) (init : Init) (pump : Pump)
      → IsCaught q events after init pump.sent
      → PumpOk q events after (send_snapshot there init pump)
  snapshot_sent true init pump c = c.1
  snapshot_sent false init pump c = Delivered-ended init.last_seq c.0

  pub look-PumpOk :
      (head : ℕ) (pump : Pump)
      → head ≤ length events
      → Delivered q events after live pump.sent pump.watermark
      → PumpOk q events after (look head pump)
  look-PumpOk head pump within delivered = elim (Bool-cases (ltb pump.watermark head)) [
    | inl more ↦ rw more (delivered, ground arith, within, tt)
    | inr nothing ↦ rw nothing delivered
  ]
