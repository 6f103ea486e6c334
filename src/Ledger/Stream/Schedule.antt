-- ===== src/Ledger/Stream/Schedule.antt =====
-- What a subscriber gets under any schedule of the calls of src/ledger.rs.
use quote_ledger.Common.{
  ℕ, suc, ◌≡◌, refl, sym, ap, ◌∙◌, String, some, List, [], ◌∷◌, length, length-append, last,
  All-append, Result, Result-cases, ok, err, inl, inr, map_err, arith, map, length-map,
}
use quote_ledger.Domain.Model.{DomainCommand}
use quote_ledger.Wire.{QuoteCommand, StoredEvent, StoreError, Status}
use quote_ledger.Mapping.{proto_command_to_domain, store_error_to_status, domain_event_to_proto}
use quote_ledger.Mapping.RoundTrip.{stored_event}
use quote_ledger.Store.Tables.{Db}
use quote_ledger.Store.Codec.{Codec, IsLossless}
use quote_ledger.Store.History.{History}
use quote_ledger.Ledger.State.{Ledger, db, enter}
use quote_ledger.Ledger.Sound.{wire_event, DomainHistory, IsSound}
use quote_ledger.Ledger.Known.{Answered, Answers}
use quote_ledger.Store.Engine.{Connection}
use quote_ledger.Ledger.Outcome.{Grows-refl, Grows-trans, Moves, stays, closure-Moves}
use quote_ledger.Ledger.Safe.{HasRoom}
use quote_ledger.Ledger.Subscribe.{Init}
use quote_ledger.Ledger.Stream.{open_read}
use quote_ledger.Ledger.Stream.World.{
  arrive, leaving, without_entered, after_steps, entered, at_connection, appended, opened, World,
  Move, commit, open_other, publish, turn, take_pending, committing, committed_world, opened_world,
  step, run,
}
use quote_ledger.Ledger.Stream.Follows.{Opens-bound}
use quote_ledger.Ledger.Stream.Opened.{IsOpened, open_read-IsOpened}
use quote_ledger.Ledger.Stream.Invariant.{
  without_entered-All, after_steps-All, PendingOk, InOrder, PumpOk-grow, pending-grow, HeadsOk-grow,
}
use quote_ledger.Ledger.Stream.Promise.{complete_all-IsKept, take_pending-All, take_turn-Turned}

-- The new event's seq is not past the history that it is recorded in.
pub Answered-bound :
    (db' : Db) (h : History) (q c : String) (cmd : DomainCommand) (stored : List StoredEvent)
    → Answered db' h q c cmd stored
    → PendingOk h (appended q stored)
Answered-bound db' h q c cmd stored a e newest =
    let one : some (stored_event q (suc (length a.before)) (wire_event cmd)) ≡ some e =
      ap last (sym a.is_stored) ∙ newest in
    let seq : suc (length a.before) ≡ e.seq = cc one in
    rw (← seq, a.recorded.history)
      (omega (
        arith,
        length-append {0} (map domain_event_to_proto a.before) (wire_event cmd ∷ a.recorded.post),
        length-map domain_event_to_proto a.before,
      ))

module _ (codec : Codec) (lossless : IsLossless codec) (q : String) (after : ℕ) where
  -- From the old world to the new one, by at most `n` events for each quote.
  pub record WorldMoves (db : Db) (h : History) (n : ℕ) (world : World) : Type 0 where
    pub moves : Moves codec db h n world.ledger.conn.db
    pub in_order : InOrder q after moves.h' world

  -- A move that keeps the database.
  kept_move :
      (db : Db) (h : History) (d : DomainHistory) (world : World)
      → IsSound codec db h d
      → world.ledger.conn.db ≡ db
      → InOrder q after h world
      → WorldMoves db h 1 world
  kept_move db h d world sound same in_order = record {
    moves = record {
      h' = h;
      d' = d;
      sound = rw same sound;
      grows = rw same (Grows-refl db h);
      few = λ j. omega arith;
    };
    in_order = in_order;
  }

  pub committed_world-InOrder :
      (j c : String) (cmd : DomainCommand) (db : Db) (h : History) (world : World)
      (r : Result (List StoredEvent) StoreError) (conn : Connection)
      (m : Moves codec db h 1 conn.db)
      → Answers conn.db m.h' j c cmd r
      → InOrder q after h world
      → InOrder q after m.h' (
          committed_world j world (
            map_err store_error_to_status r,
            record (at_connection world.pending world.ledger) { conn = conn },
          ))
  unfolding at_connection
  committed_world-InOrder j c cmd db h world (ok stored) conn m answers in_order = record {
    heads = HeadsOk-grow h m.h' m.grows.longer world.ledger.bus in_order.heads;
    pending =
        All-append (PendingOk m.h') (without_entered world.pending) (appended j stored ∷ [])
          (without_entered-All m.h' world.pending
            (pending-grow h m.h' m.grows.longer world.pending in_order.pending))
          (Answered-bound conn.db m.h' j c cmd stored answers, tt);
    pump = PumpOk-grow h m.h' m.grows.longer q after world.pump in_order.pump;
  }
  committed_world-InOrder j c cmd db h world (err e) conn m answers in_order = record {
    heads = HeadsOk-grow h m.h' m.grows.longer world.ledger.bus in_order.heads;
    pending =
        All-append (PendingOk m.h') (without_entered world.pending) (leaving ∷ [])
          (without_entered-All m.h' world.pending
            (pending-grow h m.h' m.grows.longer world.pending in_order.pending))
          (tt, tt);
    pump = PumpOk-grow h m.h' m.grows.longer q after world.pump in_order.pump;
  }

  committed_moves :
      (j c : String) (cmd : DomainCommand) (db : Db) (h : History) (world : World)
      (r : Result (List StoredEvent) StoreError) (conn : Connection)
      (m : Moves codec db h 1 conn.db)
      → Answers conn.db m.h' j c cmd r
      → InOrder q after h world
      → WorldMoves db h 1 (
          committed_world j world (
            map_err store_error_to_status r,
            record (at_connection world.pending world.ledger) { conn = conn },
          ))
  unfolding at_connection
  committed_moves j c cmd db h world (ok stored) conn m answers in_order = record {
    moves = m;
    in_order = committed_world-InOrder j c cmd db h world (ok stored) conn m answers in_order;
  }
  committed_moves j c cmd db h world (err e) conn m answers in_order = record {
    moves = m;
    in_order = committed_world-InOrder j c cmd db h world (err e) conn m answers in_order;
  }

  module _ (world : World) (h : History) (d : DomainHistory)
      (sound : IsSound codec world.ledger.conn.db h d) (room : HasRoom h 1)
      (in_order : InOrder q after h world) where
    commit-moves :
        (j c : String) (cmd : QuoteCommand)
        → WorldMoves world.ledger.conn.db h 1 (
            committed_world j world
              (committing codec j c cmd (at_connection world.pending world.ledger)))
    unfolding committing at_connection db
    commit-moves j c cmd = elim (Result-cases (proto_command_to_domain cmd)) [
      | inl (dcmd, parsed) ↦
          let (m, answers) =
            closure-Moves codec lossless world.ledger.conn.db h d sound j c dcmd world.ledger.conn
              refl (room j) in
          rw parsed (committed_moves j c dcmd world.ledger.conn.db h world _ _ m answers in_order)
      | inr (status, refused) ↦ rw refused (
          kept_move world.ledger.conn.db h d _ sound refl (record {
            heads = in_order.heads;
            pending =
                All-append (PendingOk h) (without_entered world.pending) (leaving ∷ [])
                  (without_entered-All h world.pending in_order.pending) (tt, tt);
            pump = in_order.pump;
          }))
    ]

    opened_moves :
        (j : String) (from : ℕ) (p : Result Init Status × Ledger)
        → IsOpened codec j from world.ledger (h j) p
        → WorldMoves world.ledger.conn.db h 1 (opened_world j world p)
    opened_moves j from (ok init, ledger) o =
        kept_move world.ledger.conn.db h d _ sound o.kept (record {
          heads = rw o.bus in_order.heads;
          pending =
              All-append (PendingOk h) world.pending (opened j init ∷ []) in_order.pending
                (Opens-bound (o.opens init refl), tt);
          pump = in_order.pump;
        })
    opened_moves j from (err e, ledger) o =
        kept_move world.ledger.conn.db h d _ sound o.kept (record {
          heads = rw o.bus in_order.heads;
          pending = in_order.pending;
          pump = in_order.pump;
        })

    pub step-WorldMoves :
        (move : Move) → WorldMoves world.ledger.conn.db h 1 (step codec q after world move)
    unfolding step enter
    step-WorldMoves arrive = kept_move world.ledger.conn.db h d _ sound refl (record {
      heads = in_order.heads;
      pending = All-append (PendingOk h) world.pending (entered ∷ []) in_order.pending (tt, tt);
      pump = in_order.pump;
    })
    step-WorldMoves (commit j c cmd) = commit-moves j c cmd
    step-WorldMoves (open_other j from) =
        opened_moves j from (open_read codec j from world.ledger)
          (open_read-IsOpened codec j from lossless world.ledger h d sound (omega (arith, room j)))
    step-WorldMoves (publish i) =
        let (taken, others) = take_pending-All h i world.pending in_order.pending in
        let kept =
          complete_all-IsKept h (take_pending i world.pending).0 world.ledger taken
            in_order.heads in
        kept_move world.ledger.conn.db h d _ sound kept.db (record {
          heads = kept.heads;
          pending =
              All-append (PendingOk h) (take_pending i world.pending).1
                (after_steps (take_pending i world.pending).0) others
                (after_steps-All h (take_pending i world.pending).0);
          pump = in_order.pump;
        })
    step-WorldMoves (turn there) =
        let turned =
          take_turn-Turned codec lossless q after world.ledger h d sound (omega (arith, room q))
            in_order.heads there world.pump in_order.pump in
        kept_move world.ledger.conn.db h d _ sound turned.kept.db
          (record { heads = turned.kept.heads; pending = in_order.pending; pump = turned.pump })

  pub run-WorldMoves :
      (moves : List Move) (world : World) (h : History) (d : DomainHistory)
      → IsSound codec world.ledger.conn.db h d
      → HasRoom h (length moves)
      → InOrder q after h world
      → WorldMoves world.ledger.conn.db h (length moves) (run codec q after world moves)
  unfolding run
  run-WorldMoves [] world h d sound room in_order = record {
    moves = stays codec lossless world.ledger.conn.db h d sound 0;
    in_order = in_order;
  }
  run-WorldMoves (move ∷ moves) world h d sound room in_order =
      let one = step-WorldMoves world h d sound (λ j. omega (arith, room j)) in_order move in
      let next =
        run-WorldMoves moves (step codec q after world move) one.moves.h' one.moves.d'
          one.moves.sound (λ j. omega (arith, room j, one.moves.few j)) one.in_order in
      record {
        moves = record {
          h' = next.moves.h';
          d' = next.moves.d';
          sound = next.moves.sound;
          grows = Grows-trans one.moves.grows next.moves.grows;
          few = λ j. omega (arith, one.moves.few j, next.moves.few j);
        };
        in_order = next.in_order;
      }
