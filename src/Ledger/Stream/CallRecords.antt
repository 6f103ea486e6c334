-- ===== src/Ledger/Stream/CallRecords.antt =====
-- Every move of a call of `append_commands` of src/ledger.rs keeps what it has done so far, and so
-- does every move of the calls that come between.
use quote_ledger.Common.{
  ℕ, ◌+◌, ◌≤◌, ◌<◌, ◌≡◌, refl, sym, ap, ◌∙◌, subst, String, List, [], ◌∷◌, length, Result,
  Result-cases, Option-cases, ok, err, inl, inr, map_err, arith,
}
use mathlib.Core.List.{append-nil}
use quote_ledger.Domain.Model.{DomainCommand}
use quote_ledger.Wire.{AppendCommandRequest, QuoteCommand, StoredEvent, Status, StoreError}
use quote_ledger.Mapping.{proto_command_to_domain, store_error_to_status}
use quote_ledger.Store.Tables.{Db}
use quote_ledger.Store.Codec.{Codec, IsLossless}
use quote_ledger.Store.Engine.{Connection}
use quote_ledger.Store.History.{History}
use quote_ledger.Ledger.State.{Ledger, db, enter, leave, fetch_sub-fetch_add}
use quote_ledger.Ledger.Sound.{DomainHistory, IsSound}
use quote_ledger.Ledger.Known.{Answers}
use quote_ledger.Ledger.Outcome.{Moves, Grows-refl, closure-Moves}
use quote_ledger.Ledger.Safe.{HasRoom}
use quote_ledger.Ledger.AppendCommands.{
  Frame, message, transport_error, idle_timeout, Progress, check_message, respond,
}
use quote_ledger.Ledger.AppendCommands.Served.{Sends, Agrees, check_message-Sends}
use quote_ledger.Ledger.AppendCommands.Again.{AllAnswered}
use quote_ledger.Ledger.AppendCommands.Moving.{
  RecordsOnly, metrics-RecordsOnly, check_message-RecordsOnly, respond-RecordsOnly,
}
use quote_ledger.Ledger.Stream.World.{World, appended, committing, finish, leave_scope}
use quote_ledger.Ledger.Stream.Invariant.{HeadsOk, InOrder, HeadsOk-grow, pending-grow, PumpOk-grow}
use quote_ledger.Ledger.Stream.Promise.{complete_all-IsKept}
use quote_ledger.Ledger.Stream.Schedule.{WorldMoves, Answered-bound}
use quote_ledger.Ledger.Stream.Call.{
  CallPhase, receiving, sending, finished, Call, committed_call, checked_call, take_frame, receive,
  advance_at,
}
use quote_ledger.Ledger.Stream.CallSoFar.{SoFar, CallHolds, PhaseHolds, PhaseHolds-grow, SoFar-next}

module _ (codec : Codec) (lossless : IsLossless codec) (cap : ℕ) (watched : String) (from : ℕ)
    (frames : List Frame) where
  -- From the old database by at most `n` events for each quote, to a world and a call in order.
  pub record Holds (db0 : Db) (h : History) (n : ℕ) (state : World × Call) : Type 0 where
    pub moves : WorldMoves codec lossless watched from db0 h n state.0
    pub call : CallHolds codec cap frames state.0.ledger.conn.db moves.moves.h' state.1

  module _ (world : World) (h : History) (d : DomainHistory)
      (sound : IsSound codec world.ledger.conn.db h d) (room : HasRoom h 1)
      (in_order : InOrder watched from h world) where
    -- A move that keeps the database, and no head past its history.
    kept :
        (call : Call) (l : Ledger)
        → l.conn.db ≡ world.ledger.conn.db
        → HeadsOk h l.bus
        → CallHolds codec cap frames world.ledger.conn.db h call
        → Holds world.ledger.conn.db h 1 (record world { ledger = l }, call)
    kept call l same heads holds = record {
      moves = record {
        moves = record {
          h' = h;
          d' = d;
          sound = rw same sound;
          grows = rw same (Grows-refl world.ledger.conn.db h);
          few = λ j. omega arith;
        };
        in_order = record { heads = heads; pending = in_order.pending; pump = in_order.pump };
      };
      call = rw same holds;
    }

    quiet :
        (call : Call) (l : Ledger)
        → RecordsOnly world.ledger l
        → CallHolds codec cap frames world.ledger.conn.db h call
        → Holds world.ledger.conn.db h 1 (record world { ledger = l }, call)
    quiet call l only holds =
        kept call l (ap (λ conn. conn.db) only.conn) (rw only.bus in_order.heads) holds

    grown :
        {db' : Db} (m : Moves codec world.ledger.conn.db h 1 db') (l : Ledger)
        → l.bus ≡ world.ledger.bus
        → InOrder watched from m.h' (record world { ledger = l })
    grown m l same = record {
      heads = rw same (HeadsOk-grow h m.h' m.grows.longer world.ledger.bus in_order.heads);
      pending = pending-grow h m.h' m.grows.longer world.pending in_order.pending;
      pump = PumpOk-grow h m.h' m.grows.longer watched from world.pump in_order.pump;
    }

    committed_call-Holds :
        (q : String) (msg : AppendCommandRequest) (cmd : QuoteCommand) (dcmd : DomainCommand)
        (p : Progress) (rest : List Frame)
        → SoFar world.ledger.conn.db h frames cap p (message msg ∷ rest)
        → Sends q msg cmd
        → Agrees p.quote_id q
        → p.command_count + 1 ≤ cap
        → proto_command_to_domain cmd ≡ ok dcmd
        → (r : Result (List StoredEvent) StoreError) (conn : Connection)
          (m : Moves codec world.ledger.conn.db h 1 conn.db)
        → Answers conn.db m.h' q msg.client_command_id dcmd r
        → Holds world.ledger.conn.db h 1 (
            committed_call
              (record { rest = rest; progress = p; phase = receiving })
              q
              world
              (map_err store_error_to_status r, record (enter world.ledger) { conn = conn }))
    unfolding enter leave
    committed_call-Holds q msg cmd dcmd p rest s sends agrees within parsed (ok stored) conn m
          answers =
        record {
          moves = record { moves = m; in_order = grown m _ refl };
          call = (
            SoFar-next codec cap frames conn.db m.h' p rest q msg cmd dcmd stored
                (PhaseHolds-grow codec cap frames m.grows receiving p (message msg ∷ rest) s) sends
                agrees within parsed answers,
            Answered-bound conn.db m.h' q msg.client_command_id dcmd stored answers,
          );
        }
    committed_call-Holds q msg cmd dcmd p rest s sends agrees within parsed (err e) conn m answers =
        record { moves = record { moves = m; in_order = grown m _ refl }; call = tt }

    -- A command that has passed the tests.
    commit_call-Holds :
        (q : String) (msg : AppendCommandRequest) (cmd : QuoteCommand) (p : Progress)
        (rest : List Frame)
        → SoFar world.ledger.conn.db h frames cap p (message msg ∷ rest)
        → Sends q msg cmd
        → Agrees p.quote_id q
        → p.command_count + 1 ≤ cap
        → Holds world.ledger.conn.db h 1 (
            committed_call
              (record { rest = rest; progress = p; phase = receiving })
              q
              world
              (committing codec q msg.client_command_id cmd (enter world.ledger)))
    unfolding committing enter leave db
    commit_call-Holds q msg cmd p rest s sends agrees within =
        elim (Result-cases (proto_command_to_domain cmd)) [
          | inl (dcmd, parsed) ↦
              let (m, answers) =
                closure-Moves codec lossless world.ledger.conn.db h d sound q msg.client_command_id
                  dcmd world.ledger.conn refl (room q) in
              rw parsed (
                committed_call-Holds q msg cmd dcmd p rest s sends agrees within parsed _ _ m
                  answers)
          | inr (status, refused) ↦ rw refused (
              quiet _ _
                (record {
                  conn = refl;
                  bus = refl;
                  in_flight = fetch_sub-fetch_add world.ledger.in_flight;
                })
                tt)
        ]

    checked_call-Holds :
        (p : Progress) (rest : List Frame) (msg : AppendCommandRequest)
        → SoFar world.ledger.conn.db h frames cap p (message msg ∷ rest)
        → (r : Result (String × QuoteCommand) Status × Ledger)
        → check_message codec cap p msg world.ledger ≡ r
        → Holds world.ledger.conn.db h 1 (
            checked_call codec cap
              (record { rest = rest; progress = p; phase = receiving })
              msg
              world
              r)
    checked_call-Holds p rest msg s (ok (q, cmd), l) checked =
        let (sends, agrees, within, still) =
          check_message-Sends codec cap p msg world.ledger checked in
        subst
          (λ l. Holds world.ledger.conn.db h 1 (
            committed_call (record { rest = rest; progress = p; phase = receiving }) q world
              (committing codec q msg.client_command_id cmd (enter l))))
          still (commit_call-Holds q msg cmd p rest s sends agrees within)
    checked_call-Holds p rest msg s (err e, l) checked =
        quiet _ l
          (subst (λ r. RecordsOnly world.ledger r.1) checked
            (check_message-RecordsOnly codec cap p msg world.ledger))
          tt

    take_frame-Holds :
        (p : Progress) (rest : List Frame) (frame : Frame)
        → SoFar world.ledger.conn.db h frames cap p (frame ∷ rest)
        → Holds world.ledger.conn.db h 1 (
            take_frame codec cap
              (record { rest = rest; progress = p; phase = receiving })
              frame
              world)
    take_frame-Holds p rest (message msg) s =
        checked_call-Holds p rest msg s (check_message codec cap p msg world.ledger) refl
    take_frame-Holds p rest (transport_error e) s =
        quiet _ _ (metrics-RecordsOnly world.ledger _) tt
    take_frame-Holds p rest idle_timeout s = quiet _ _ (metrics-RecordsOnly world.ledger _) tt

    -- The end of the stream.
    respond-IsBacked :
        (p : Progress)
        → SoFar world.ledger.conn.db h frames cap p []
        → PhaseHolds codec cap frames world.ledger.conn.db h
            (finished (respond codec cap p world.ledger).0)
            p
            []
    unfolding respond
    respond-IsBacked p s = elim (Option-cases p.quote_id) [
      | inl nothing ↦ rw nothing tt
      | inr (q, named) ↦
          let all : s.done ≡ frames = sym (append-nil s.done) ∙ s.parts in
          rw named (record {
            q = q;
            answered =
                subst (λ l. AllAnswered world.ledger.conn.db h q l p.all_committed) all
                  (s.answered q (rw named refl));
            newest = s.newest;
            some_frame = subst (λ l. 0 < length l) all (s.named q named);
            within = subst (λ l. length l ≤ cap) all s.within;
          })
    ]

    receive-Holds :
        (p : Progress) (rest : List Frame)
        → SoFar world.ledger.conn.db h frames cap p rest
        → Holds world.ledger.conn.db h 1
            (receive codec cap (record { rest = rest; progress = p; phase = receiving }) rest world)
    receive-Holds p [] s =
        quiet _ _ (respond-RecordsOnly codec cap p world.ledger) (respond-IsBacked p s)
    receive-Holds p (frame ∷ rest) s = take_frame-Holds p rest frame s

    pub advance_at-Holds :
        (phase : CallPhase) (call : Call)
        → PhaseHolds codec cap frames world.ledger.conn.db h phase call.progress call.rest
        → Holds world.ledger.conn.db h 1
            (advance_at codec cap phase (record call { phase = phase }) world)
    unfolding leave
    advance_at-Holds receiving call s = receive-Holds call.progress call.rest s
    advance_at-Holds (sending q stored) call (s, bound) =
        let sent =
          complete_all-IsKept h (appended q stored ∷ []) world.ledger (bound, tt) in_order.heads in
        kept _ (leave_scope (finish q stored world.ledger)) sent.db sent.heads s
    advance_at-Holds (finished r) call holds =
        quiet (record call { phase = finished r }) world.ledger
          (metrics-RecordsOnly world.ledger world.ledger.metrics) holds
