-- ===== src/Ledger/AppendCommands/Resumed.antt =====
-- A stream that has stopped on the way and is sent again to `append_commands` of src/ledger.rs.
use mathlib.Core.List.{append_assoc}
use quote_ledger.Common.{
  ◌⊎◌, ℕ, ◌≤◌, ◌<◌, ◌≡◌, refl, sym, ap, ap₂, ◌∙◌, subst, String, List, ◌∷◌, ◌++◌, length, ok, err,
  inl, inr, arith,
}
use quote_ledger.Common.Int.{i64_limit}
use quote_ledger.Wire.{AppendCommandsResponse, QuoteCommand, StoredEvent, Status}
use quote_ledger.Mapping.{store_error_to_status}
use quote_ledger.Store.Tables.{Db}
use quote_ledger.Store.Codec.{Codec, IsLossless}
use quote_ledger.Store.Engine.{engine_fault}
use quote_ledger.Store.History.{History}
use quote_ledger.Ledger.State.{Ledger}
use quote_ledger.Ledger.Sound.{DomainHistory, IsSound}
use quote_ledger.Ledger.Known.{Answered}
use quote_ledger.Ledger.Safe.{HasRoom}
use quote_ledger.Ledger.AppendOne.{append_one}
use quote_ledger.Ledger.AppendCommands.{Frame, append_commands}
use quote_ledger.Ledger.AppendCommands.Served.{Served}
use quote_ledger.Ledger.AppendCommands.Answer.{append_commands_answers}
use quote_ledger.Ledger.AppendCommands.Halts.{HaltsAt, HaltsAt-db, append_commands_halts}
use quote_ledger.Ledger.AppendCommands.Again.{AllAnswered, none_left, one_more, settle_all}
use quote_ledger.Ledger.AppendCommands.Retry.{append_one_again}

module _ (codec : Codec) (lossless : IsLossless codec) (q : String) where
  -- A stream in two parts, the first of them with these answers on a database that it leaves alone.
  pub record SplitAt (committed : List StoredEvent) (frames2 : List Frame) (ledger : Ledger)
      (answered : List StoredEvent) (after : Ledger) : Type 0 where
    pub rest : List StoredEvent
    pub between : Ledger
    pub kept : between.conn.db ≡ ledger.conn.db
    pub whole : answered ≡ committed ++ rest
    pub served : Served codec q between frames2 rest after

  one_answer :
      (ledger between : Ledger) (c : String) (cmd : QuoteCommand) (stored now : List StoredEvent)
      → append_one codec q c cmd ledger ≡ (ok now, between)
      → (((append_one codec q c cmd ledger).0 ≡ ok stored)
          ⊎ ((append_one codec q c cmd ledger).0 ≡ err (store_error_to_status engine_fault)))
        × ((append_one codec q c cmd ledger).1.conn.db ≡ ledger.conn.db)
      → (now ≡ stored) × (between.conn.db ≡ ledger.conn.db)
  one_answer ledger between c cmd stored now answer (outcome, kept) = (
    elim outcome [
      | inl good ↦ cc (sym (ap (λ p. p.0) answer) ∙ good)
      | inr fault ↦ absurd (cc (sym (ap (λ p. p.0) answer) ∙ fault))
    ],
    sym (ap (λ p. p.1.conn.db) answer) ∙ kept,
  )

  split :
      {db : Db} {h : History} {frames : List Frame} {committed : List StoredEvent}
      (all : AllAnswered db h q frames committed) (frames2 : List Frame) (ledger after : Ledger)
      (answered : List StoredEvent) (d : DomainHistory)
      → ledger.conn.db ≡ db
      → IsSound codec db h d
      → length (h q) < i64_limit
      → Served codec q ledger (frames ++ frames2) answered after
      → SplitAt committed frames2 ledger answered after
  split none_left frames2 ledger after answered d here sound small served = record {
    rest = answered;
    between = ledger;
    kept = refl;
    whole = refl;
    served = served;
  }
  split {db} {h} (one_more {frames} {stored} {rest} msg cmd dcmd sends parsed before more) frames2
        ledger after answered d here sound small
        (Served.next {between} {stored = now} {rest = others} m cmd2 sends2 answer served) =
      let same : cmd2 ≡ cmd = cc (sym sends2.command ∙ sends.command) in
      let (once, kept) =
        one_answer ledger between msg.client_command_id cmd stored now
          (subst (λ k. append_one codec q msg.client_command_id k ledger ≡ (ok now, between)) same
            answer)
          (append_one_again codec lossless q msg.client_command_id cmd ledger h d dcmd parsed
            (subst (λ x. IsSound codec x h d) (sym here) sound)
            (subst (λ x. Answered x h q msg.client_command_id dcmd stored) (sym here) before)
            small) in
      let s = split more frames2 between after others d (kept ∙ here) sound small served in
      record {
        rest = s.rest;
        between = s.between;
        kept = s.kept ∙ kept;
        whole = ap₂ (λ xs ys. xs ++ ys) once s.whole ∙ sym (append_assoc stored rest s.rest);
        served = s.served;
      }

same_quote :
    {codec : Codec} {q j : String} {ledger after ledger2 after2 : Ledger} {frames : List Frame}
    (frames2 : List Frame) {committed answered : List StoredEvent}
    → Served codec q ledger frames committed after
    → Served codec j ledger2 (frames ++ frames2) answered after2
    → 0 < length frames
    → j ≡ q
same_quote frames2 Served.done served some_frame = absurd (omega (arith, some_frame))
same_quote frames2 (Served.next msg cmd sends answer more) (Served.next m cmd2 sends2 answer2 more2)
      some_frame =
    sym sends2.same ∙ sends.same

module _ (codec : Codec) (lossless : IsLossless codec) (cap : ℕ) where
  -- With a lossless encoding of events: when append_commands has served the frames of a stream, at
  -- least one, on a sound ledger with room for their events up to a frame at which it stopped (on
  -- a timeout, an error of the transport, the cap, another quote, an identifier that is not valid,
  -- a missing command, or a command that append_one refused or that the engine failed to store),
  -- and the frames up to there are sent again to the ledger that this has left, with any others
  -- after them, then an answer holds for them exactly the events that the first call committed,
  -- and the further frames are served from a database that they have left as it was: nothing is
  -- appended twice, and nothing is lost.
  pub append_commands_resumes :
      (q : String) (frames : List Frame) (committed : List StoredEvent) (ledger after : Ledger)
      (frame : Frame) (rest : List Frame) (e : Status) (ledger' : Ledger) (h : History)
      (d : DomainHistory) (frames2 : List Frame) (response : AppendCommandsResponse)
      → IsSound codec ledger.conn.db h d
      → HasRoom h (length frames)
      → 0 < length frames
      → Served codec q ledger frames committed after
      → length frames ≤ cap
      → HaltsAt codec cap q (length frames) after frame e ledger'
      → (append_commands codec cap
          (frames ++ frames2)
          (append_commands codec cap (frames ++ frame ∷ rest) ledger).1).0
        ≡ ok response
      → (last : Ledger) × SplitAt codec lossless q committed frames2
          (append_commands codec cap (frames ++ frame ∷ rest) ledger).1
          response.committed
          last
  append_commands_resumes q frames committed ledger after frame rest e ledger' h d frames2 response
        sound room some_frame served within stop answer =
      let second = append_commands codec cap (frames ++ frames2) in
      let stopped =
        ap (λ p. p.1)
          (append_commands_halts codec cap q frames committed ledger after frame rest e ledger'
            served within stop) in
      let all = settle_all codec lossless q h d served sound room in
      let s =
        (append_commands_answers codec cap (frames ++ frames2) ledger' response
            (second ledger').1).0
          (ap (λ r. (r, (second ledger').1)) (sym (ap (λ l. (second l).0) stopped) ∙ answer)) in
      let again =
        subst (λ j. Served codec j ledger' (frames ++ frames2) response.committed s.after)
          (same_quote frames2 served s.served some_frame) s.served in
      (
        s.after,
        subst (λ l. SplitAt codec lossless q committed frames2 l response.committed s.after)
            (sym stopped)
            (split codec lossless q all.answered frames2 ledger' s.after response.committed
              all.moves.d' (HaltsAt-db codec stop) all.moves.sound
              (omega (arith, room q, all.moves.few q)) again),
      )
