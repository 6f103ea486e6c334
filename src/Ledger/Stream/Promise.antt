-- ===== src/Ledger/Stream/Promise.antt =====
-- Every turn of the subscriber, and every head that is sent, keeps the invariant (src/ledger.rs).
use quote_ledger.Common.{
  ℕ, zero, suc, ◌<◌, ◌≤◌, ◌≡◌, refl, sym, ◌∙◌, subst, String, Bool, List, [], ◌∷◌, length, last,
  All, Result, Option-cases, ok, err, inl, inr, Bool-cases, ltb, str_eq, eq_iff,
}
use quote_ledger.Common.Int.{i64_limit}
use quote_ledger.Wire.{QuoteEvent, StoredEvent, Status}
use quote_ledger.Store.Codec.{Codec, IsLossless}
use quote_ledger.Store.History.{History}
use quote_ledger.Ledger.State.{Ledger, Bus, send_head, publish_head, leave}
use quote_ledger.Ledger.Sound.{DomainHistory, IsSound}
use quote_ledger.Ledger.Subscribe.{Init}
use quote_ledger.Ledger.Stream.{
  Phase, opening, refused, opened, joined, caught, looking, waiting, reading, ended, Pump,
  send_catchup, wake, take_opening, join_bus, open_read, turn_at, take_turn,
}
use quote_ledger.Ledger.Stream.World.{
  Pending, entered, leaving, appended, opened as opened_other, finish, complete, complete_all,
  take_pending,
}
use quote_ledger.Ledger.Stream.Follows.{live, Delivered, Opens-bound}
use quote_ledger.Ledger.Stream.Channels.{channel_of-send_head, channel_of-send_head_other}
use quote_ledger.Ledger.Stream.Opened.{IsOpened, open_read-IsOpened}
use quote_ledger.Ledger.Stream.Invariant.{PhaseOk, PumpOk, PendingOk, HeadsOk}
use quote_ledger.Ledger.Stream.Turns.{catchup_sent, snapshot_sent, look-PumpOk}
use quote_ledger.Ledger.Stream.Reading.{read_chunk-PumpOk}

pub HeadsOk-send_head :
    (h : History) (bus : Bus) (q : String) (n : ℕ)
    → HeadsOk h bus
    → n ≤ length (h q)
    → HeadsOk h (send_head bus q n)
HeadsOk-send_head h bus q n heads bound j = elim (Bool-cases (str_eq q j)) [
  | inl same ↦ rw (← (eq_iff q j).0 same, (channel_of-send_head bus q n).0) bound
  | inr other ↦ rw (channel_of-send_head_other bus q j n other) (heads j)
]

-- The heads are in order and the database is as it was.
pub record IsKept (h : History) (ledger ledger' : Ledger) : Type 0 where
  pub db : ledger'.conn.db ≡ ledger.conn.db
  pub heads : HeadsOk h ledger'.bus

module _ (h : History) where
  pub finish-IsKept :
      (q : String) (committed : List StoredEvent) (ledger : Ledger)
      → PendingOk h (appended q committed)
      → HeadsOk h ledger.bus
      → IsKept h ledger (finish q committed ledger)
  unfolding finish publish_head
  finish-IsKept q committed ledger bound heads = elim (Option-cases (last committed)) [
    | inl nothing ↦ rw (finish, nothing) (record { db = refl; heads = heads })
    | inr (e, newest) ↦
        rw (finish, newest)
          (record {
            db = refl;
            heads = HeadsOk-send_head h ledger.bus q e.seq heads (bound e newest);
          })
  ]

  complete-IsKept :
      (p : Pending) (ledger : Ledger)
      → PendingOk h p
      → HeadsOk h ledger.bus
      → IsKept h ledger (complete p ledger)
  unfolding publish_head leave
  complete-IsKept entered ledger bound heads = record { db = refl; heads = heads }
  complete-IsKept leaving ledger bound heads = record { db = refl; heads = heads }
  complete-IsKept (appended q committed) ledger bound heads =
      finish-IsKept q committed ledger bound heads
  complete-IsKept (opened_other q init) ledger bound heads = record {
    db = refl;
    heads = HeadsOk-send_head h ledger.bus q init.last_seq heads bound;
  }

  pub complete_all-IsKept :
      (pending : List Pending) (ledger : Ledger)
      → All (PendingOk h) pending
      → HeadsOk h ledger.bus
      → IsKept h ledger (complete_all pending ledger)
  complete_all-IsKept [] ledger bounds heads = record { db = refl; heads = heads }
  complete_all-IsKept (p ∷ pending) ledger (bound, bounds) heads =
      let one = complete-IsKept p ledger bound heads in
      let others = complete_all-IsKept pending (complete p ledger) bounds one.heads in
      record { db = others.db ∙ one.db; heads = others.heads }

  pub take_pending-All :
      (i : ℕ) (pending : List Pending)
      → All (PendingOk h) pending
      → All (PendingOk h) (take_pending i pending).0 × All (PendingOk h) (take_pending i pending).1
  take_pending-All i [] bounds = (tt, tt)
  take_pending-All zero (p ∷ pending) (bound, bounds) = ((bound, tt), bounds)
  take_pending-All (suc i) (p ∷ pending) (bound, bounds) =
      let (taken, others) = take_pending-All i pending bounds in (taken, (bound, others))

wake-PumpOk :
    (q : String) (events : List QuoteEvent) (after : ℕ) (sent : List ℕ) (pump : Pump)
    → pump.phase ≡ waiting
    → Delivered q events after live pump.sent pump.watermark
    → PumpOk q events after (wake sent pump)
wake-PumpOk q events after sent pump at delivered =
    elim (Bool-cases (ltb pump.seen (length sent))) [
      | inl new ↦ rw new delivered
      | inr old ↦ rw old (rw at delivered)
    ]

module _ (codec : Codec) (lossless : IsLossless codec) (q : String) (after : ℕ) (ledger : Ledger)
    (h : History) (d : DomainHistory) (sound : IsSound codec ledger.conn.db h d)
    (small : length (h q) < i64_limit) (heads : HeadsOk h ledger.bus) where
  pub record Turned (p : Pump × Ledger) : Type 0 where
    pub kept : IsKept h ledger p.1
    pub pump : PumpOk q (h q) after p.0

  still : IsKept h ledger ledger
  still = record { db = refl; heads = heads }

  opening-Turned :
      (pump : Pump) (p : Result Init Status × Ledger)
      → pump.sent ≡ []
      → IsOpened codec q after ledger (h q) p
      → Turned (take_opening pump p)
  opening-Turned pump (ok init, ledger') nothing o = record {
    kept = record { db = o.kept; heads = rw o.bus heads };
    pump = (nothing, o.opens init refl);
  }
  opening-Turned pump (err e, ledger') nothing o = record {
    kept = record { db = o.kept; heads = rw o.bus heads };
    pump = nothing;
  }

  turn_at-Turned :
      (phase : Phase) (there : Bool) (pump : Pump)
      → pump.phase ≡ phase
      → PhaseOk q (h q) after phase pump.watermark pump.sent
      → Turned (turn_at codec q after phase there pump ledger)
  unfolding turn_at join_bus
  turn_at-Turned opening there pump at holds =
      opening-Turned pump (open_read codec q after ledger) holds
        (open_read-IsOpened codec q after lossless ledger h d sound small)
  turn_at-Turned (refused e) there pump at holds = record { kept = still; pump = rw at holds }
  turn_at-Turned (opened init) there pump at (nothing, opens) = record {
    kept = record {
      db = refl;
      heads = HeadsOk-send_head h ledger.bus q init.last_seq heads (Opens-bound opens);
    };
    pump = (nothing, opens);
  }
  turn_at-Turned (joined init) there pump at (nothing, opens) = record {
    kept = still;
    pump =
        subst (λ l. PumpOk q (h q) after (send_catchup there after init l pump)) (sym opens.catchup)
          (catchup_sent q (h q) after there init pump opens nothing opens.mid refl);
  }
  turn_at-Turned (caught init) there pump at holds = record {
    kept = still;
    pump = snapshot_sent q (h q) after there init pump holds;
  }
  turn_at-Turned looking there pump at holds = record {
    kept = still;
    pump = look-PumpOk q (h q) after _ pump (heads q) holds;
  }
  turn_at-Turned waiting there pump at holds = record {
    kept = still;
    pump = wake-PumpOk q (h q) after _ pump at holds;
  }
  turn_at-Turned (reading head left attempt w e) there pump at (delivered, ahead, within, faults) =
      let (good, keeps) =
        read_chunk-PumpOk codec lossless q (h q) after there head left attempt w e pump ledger
          (sound.represents.rows q) small delivered ahead within faults in
      record { kept = record { db = keeps.db; heads = rw keeps.bus heads }; pump = good }
  turn_at-Turned ended there pump at holds = record { kept = still; pump = rw at holds }

  pub take_turn-Turned :
      (there : Bool) (pump : Pump)
      → PumpOk q (h q) after pump
      → Turned (take_turn codec q after there pump ledger)
  unfolding take_turn
  take_turn-Turned there pump holds = turn_at-Turned pump.phase there pump refl holds
