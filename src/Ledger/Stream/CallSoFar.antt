-- ===== src/Ledger/Stream/CallSoFar.antt =====
-- What a call of `append_commands` of src/ledger.rs has done so far, whatever calls come between.
use mathlib.Core.List.{append_assoc, append-nil}
use quote_ledger.Common.{
  ℕ, ◌+◌, ◌≤◌, ◌<◌, ◌≡◌, refl, sym, ap, ◌∙◌, subst, String, some, List, [], ◌∷◌, ◌++◌, length,
  length-append, last, ok, err, arith,
}
use quote_ledger.Domain.Model.{DomainCommand}
use quote_ledger.Wire.{AppendCommandRequest, AppendCommandsResponse, QuoteCommand, StoredEvent}
use quote_ledger.Mapping.{proto_command_to_domain}
use quote_ledger.Store.Tables.{Db}
use quote_ledger.Store.Codec.{Codec}
use quote_ledger.Store.History.{History, Grows}
use quote_ledger.Ledger.Known.{Answered}
use quote_ledger.Ledger.AppendCommands.{Frame, message, Progress, start, progress_after, seq_after}
use quote_ledger.Ledger.AppendCommands.Served.{Sends, Agrees}
use quote_ledger.Ledger.AppendCommands.Rounds.{seq_after-++}
use quote_ledger.Ledger.AppendCommands.Again.{AllAnswered, none_left, one_more, AllAnswered-grow}
use quote_ledger.Ledger.Stream.Invariant.{PendingOk, PendingOk-grow}
use quote_ledger.Ledger.Stream.World.{appended}
use quote_ledger.Ledger.Stream.Call.{CallPhase, receiving, sending, finished, Call}

-- One more answer at the end.
AllAnswered-snoc :
    {db : Db} {h : History} {q : String} {done : List Frame} {committed stored : List StoredEvent}
    (msg : AppendCommandRequest) (cmd : QuoteCommand) (dcmd : DomainCommand)
    → Sends q msg cmd
    → proto_command_to_domain cmd ≡ ok dcmd
    → Answered db h q msg.client_command_id dcmd stored
    → AllAnswered db h q done committed
    → AllAnswered db h q (done ++ message msg ∷ []) (committed ++ stored)
AllAnswered-snoc {db} {h} {q} {stored = stored} msg cmd dcmd sends parsed answered none_left =
    subst (λ l. AllAnswered db h q (message msg ∷ []) l) (append-nil stored)
      (one_more msg cmd dcmd sends parsed answered none_left)
AllAnswered-snoc {db} {h} {q} {stored = stored} msg cmd dcmd sends parsed answered
      (one_more {frames} {stored = first} {rest} m c d s p a more) =
    subst (λ l. AllAnswered db h q (message m ∷ (frames ++ message msg ∷ [])) l)
      (sym (append_assoc first rest stored))
      (one_more m c d s p a (AllAnswered-snoc msg cmd dcmd sends parsed answered more))

-- The frames that have been handled have all been answered, and the variables of the loop hold the
-- answers.
pub record SoFar (db : Db) (h : History) (frames : List Frame) (cap : ℕ) (p : Progress)
    (rest : List Frame) : Type 0 where
  pub done : List Frame
  pub parts : done ++ rest ≡ frames
  pub answered : (q : String) → Agrees p.quote_id q → AllAnswered db h q done p.all_committed
  pub newest : p.last_committed_seq ≡ seq_after 0 (last p.all_committed)
  pub counted : p.command_count ≡ length done
  pub within : length done ≤ cap
  pub named : (q : String) → p.quote_id ≡ some q → 0 < length done

pub start-SoFar :
    (db : Db) (h : History) (frames : List Frame) (cap : ℕ) → SoFar db h frames cap start frames
start-SoFar db h frames cap = record {
  done = [];
  parts = refl;
  answered = λ q _. none_left;
  newest = refl;
  counted = refl;
  within = omega arith;
  named = λ q named. absurd (cc named);
}

-- A response is backed when the database has recorded the command of every frame with just its events.
pub record IsBacked (db : Db) (h : History) (frames : List Frame) (cap : ℕ)
    (response : AppendCommandsResponse) : Type 0 where
  pub q : String
  pub answered : AllAnswered db h q frames response.committed
  pub newest : response.last_committed_seq ≡ seq_after 0 (last response.committed)
  pub some_frame : 0 < length frames
  pub within : length frames ≤ cap

module _ (codec : Codec) (cap : ℕ) (frames : List Frame) where
  abbrev pub PhaseHolds : Db → History → CallPhase → Progress → List Frame → Type 0
  PhaseHolds db h receiving p rest = SoFar db h frames cap p rest
  PhaseHolds db h (sending q stored) p rest =
      SoFar db h frames cap (progress_after codec cap p q stored) rest
      × PendingOk h (appended q stored)
  PhaseHolds db h (finished (ok response)) p rest = IsBacked db h frames cap response
  PhaseHolds db h (finished (err e)) p rest = Unit

  abbrev pub CallHolds : Db → History → Call → Type 0
  CallHolds db h call = PhaseHolds db h call.phase call.progress call.rest

  module _ {db db' : Db} {h h' : History} (grows : Grows db h db' h') where
    SoFar-grow :
        (p : Progress) (rest : List Frame)
        → SoFar db h frames cap p rest
        → SoFar db' h' frames cap p rest
    SoFar-grow p rest s = record {
      done = s.done;
      parts = s.parts;
      answered = λ q agrees. AllAnswered-grow grows (s.answered q agrees);
      newest = s.newest;
      counted = s.counted;
      within = s.within;
      named = s.named;
    }

    pub PhaseHolds-grow :
        (phase : CallPhase) (p : Progress) (rest : List Frame)
        → PhaseHolds db h phase p rest
        → PhaseHolds db' h' phase p rest
    PhaseHolds-grow receiving p rest s = SoFar-grow p rest s
    PhaseHolds-grow (sending q stored) p rest (s, bound) = (
      SoFar-grow (progress_after codec cap p q stored) rest s,
      PendingOk-grow h h' grows.longer (appended q stored) bound,
    )
    PhaseHolds-grow (finished (ok response)) p rest b = record {
      q = b.q;
      answered = AllAnswered-grow grows b.answered;
      newest = b.newest;
      some_frame = b.some_frame;
      within = b.within;
    }
    PhaseHolds-grow (finished (err e)) p rest _ = tt

  -- One frame further.
  pub SoFar-next :
      (db : Db) (h : History) (p : Progress) (rest : List Frame) (q : String)
      (msg : AppendCommandRequest) (cmd : QuoteCommand) (dcmd : DomainCommand)
      (stored : List StoredEvent)
      → SoFar db h frames cap p (message msg ∷ rest)
      → Sends q msg cmd
      → Agrees p.quote_id q
      → p.command_count + 1 ≤ cap
      → proto_command_to_domain cmd ≡ ok dcmd
      → Answered db h q msg.client_command_id dcmd stored
      → SoFar db h frames cap (progress_after codec cap p q stored) rest
  SoFar-next db h p rest q msg cmd dcmd stored s sends agrees within parsed answered = record {
    done = s.done ++ message msg ∷ [];
    parts = append_assoc s.done (message msg ∷ []) rest ∙ s.parts;
    answered = λ j same.
        subst (λ j. AllAnswered db h j (s.done ++ message msg ∷ []) (p.all_committed ++ stored))
          same (AllAnswered-snoc msg cmd dcmd sends parsed answered (s.answered q agrees));
    newest = ap (λ n. seq_after n (last stored)) s.newest ∙ seq_after-++ 0 p.all_committed stored;
    counted = omega (arith, s.counted, length-append {0} s.done (message msg ∷ []));
    within = omega (arith, s.counted, within, length-append {0} s.done (message msg ∷ []));
    named = λ j _. omega (arith, length-append {0} s.done (message msg ∷ []));
  }
