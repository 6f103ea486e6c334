-- ===== src/Ledger/AppendCommands/Rounds.antt =====
-- The loop of `append_commands` of src/ledger.rs ends well on the served streams, and on no others.
use native.Mathlib.Nat.{add-zero}
use mathlib.Core.List.{append_assoc, append-nil}
use quote_ledger.Common.{
  ℕ, ◌+◌, ◌≤◌, ◌<◌, ◌≡◌, refl, sym, ap, ◌∙◌, subst, String, some, List, [], ◌∷◌, ◌++◌, length, last,
  Result, ok, err, arith,
}
use quote_ledger.Wire.{AppendCommandRequest, QuoteCommand, StoredEvent, Status}
use quote_ledger.Store.Codec.{Codec}
use quote_ledger.Ledger.State.{Ledger, pure, continue}
use quote_ledger.Ledger.AppendOne.{append_one}
use quote_ledger.Ledger.AppendCommands.{
  Frame, message, Progress, handle_message, handle_frame, handle_frames, progress_after, seq_after,
}
use quote_ledger.Ledger.AppendCommands.Served.{
  Sends, Served, done, next, Agrees, progress_by, continue-eq-ok, check_message_passes,
  handle_frame-Round, Round,
}

-- A list that is not empty has a last event.
seq_after-cons :
    (n m : ℕ) (e : StoredEvent) (rest : List StoredEvent)
    → seq_after n (last (e ∷ rest)) ≡ seq_after m (last (e ∷ rest))
seq_after-cons n m e [] = refl
seq_after-cons n m e (f ∷ rest) = seq_after-cons n m f rest

-- The seq of the last event so far, over two stretches.
pub seq_after-++ :
    (seq : ℕ) (stored rest : List StoredEvent)
    → seq_after (seq_after seq (last stored)) (last rest) ≡ seq_after seq (last (stored ++ rest))
seq_after-++ seq [] rest = refl
seq_after-++ seq (e ∷ []) [] = refl
seq_after-++ seq (e ∷ []) (f ∷ rest) = seq_after-cons e.seq seq f rest
seq_after-++ seq (e ∷ f ∷ stored) rest = seq_after-++ seq (f ∷ stored) rest

continue-pure : {A : Type 0} (p : Result A Status × Ledger) → continue pure p ≡ p
continue-pure (ok a, ledger) = refl
continue-pure (err e, ledger) = refl

module _ (codec : Codec) (cap : ℕ) where
  -- Two stretches of a stream in a row.
  progress_by_both :
      (p : Progress) (q : String) (n m : ℕ) (stored rest : List StoredEvent)
      → n + 1 ≡ m
      → progress_by (progress_after codec cap p q stored) q n rest
        ≡ progress_by p q m (stored ++ rest)
  progress_by_both p q n m stored rest more =
      rw (seq_after-++ p.last_committed_seq stored rest, append_assoc, ← more)
        (ap
          (λ count. record {
            quote_id = some q;
            last_committed_seq = seq_after p.last_committed_seq (last (stored ++ rest));
            all_committed = p.all_committed ++ (stored ++ rest);
            command_count = count;
          })
          count)
    where
      count : p.command_count + 1 + n ≡ p.command_count + (n + 1)
      count = omega arith

  -- A round on a message that is answered.
  pub handle_frame_answers :
      (p : Progress) (q : String) (msg : AppendCommandRequest) (cmd : QuoteCommand)
      (ledger between : Ledger) (stored : List StoredEvent)
      → Agrees p.quote_id q
      → p.command_count + 1 ≤ cap
      → Sends q msg cmd
      → append_one codec q msg.client_command_id cmd ledger ≡ (ok stored, between)
      → handle_frame codec cap p (message msg) ledger
        ≡ (ok (progress_after codec cap p q stored), between)
  unfolding handle_frame handle_message
  handle_frame_answers p q msg cmd ledger between stored agrees within sends answer =
      rw (check_message_passes codec cap p q msg cmd ledger agrees within sends) (rw answer refl)

  -- Served frames, one at least.
  pub rounds :
      (q : String) (p : Progress) {ledger after : Ledger} {frames : List Frame}
      {committed : List StoredEvent}
      → Agrees p.quote_id q
      → Served codec q ledger frames committed after
      → 0 < length frames
      → p.command_count + length frames ≤ cap
      → handle_frames codec cap p frames ledger
        ≡ (ok (progress_by p q (length frames) committed), after)
  unfolding handle_frames
  rounds q p agrees done some_frame within = absurd (omega (arith, some_frame))
  rounds q p agrees (next {stored} msg cmd sends answer done) some_frame within =
      rw (handle_frame_answers p q msg cmd _ _ stored agrees (omega (arith, within)) sends answer)
        (rw append-nil refl)
  rounds q p {after} agrees
        (next {frames} {stored} {rest} msg cmd sends answer (next m2 c2 s2 a2 more)) some_frame
        within =
      rw (handle_frame_answers p q msg cmd _ _ stored agrees (omega (arith, within)) sends answer) (
        rounds q (progress_after codec cap p q stored) refl (next m2 c2 s2 a2 more) (omega arith)
          (omega (arith, within))
        ∙ ap (λ r. (ok r, after))
            (progress_by_both p q (length frames) _ stored rest (omega arith)))

  -- What a stream has been when the loop ends well on it.
  pub record Rounds (p : Progress) (frames : List Frame) (ledger : Ledger) (p' : Progress)
      (after : Ledger) : Type 0 where
    pub q : String
    pub committed : List StoredEvent
    pub served : Served codec q ledger frames committed after
    pub agrees : Agrees p.quote_id q
    pub within : p.command_count + length frames ≤ cap
    pub progress : progress_by p q (length frames) committed ≡ p'

  -- A round, and those after it.
  Rounds-cons :
      (p : Progress) (frame : Frame) (ledger between : Ledger) (p1 : Progress) (frames : List Frame)
      {p' : Progress} {after : Ledger} (round : Round codec cap p frame ledger p1 between)
      → Rounds (progress_after codec cap p round.q round.stored) frames between p' after
      → Rounds p (frame ∷ frames) ledger p' after
  Rounds-cons p frame ledger between p1 frames {p'} {after} round rs = record {
    q = round.q;
    committed = round.stored ++ rs.committed;
    served =
        subst (λ f. Served codec round.q ledger (f ∷ frames) (round.stored ++ rs.committed) after)
          (sym round.is_message)
          (next round.msg round.cmd round.sends round.answer (
            subst (λ j. Served codec j between frames rs.committed after) (sym rs.agrees)
              rs.served));
    agrees = round.agrees;
    within = omega (arith, rs.within);
    progress =
        sym (progress_by_both p round.q (length frames) _ round.stored rs.committed (omega arith))
        ∙ ap
            (λ j.
              progress_by (progress_after codec cap p round.q round.stored) j (length frames)
                rs.committed)
            rs.agrees
        ∙ rs.progress;
  }

  -- No further frames.
  Rounds-nil :
      (p : Progress) (q : String) (stored : List StoredEvent) (ledger : Ledger)
      → p.command_count + 1 ≤ cap
      → Rounds
          (progress_after codec cap p q stored)
          []
          ledger
          (progress_after codec cap p q stored)
          ledger
  Rounds-nil p q stored ledger within = record {
    q = q;
    committed = [];
    served = done;
    agrees = refl;
    within = omega (arith, within);
    progress = rw (append-nil, add-zero) refl;
  }

  pub handle_frames-Rounds :
      (p : Progress) (frame : Frame) (frames : List Frame) (ledger : Ledger) {p' : Progress}
      {after : Ledger}
      → handle_frames codec cap p (frame ∷ frames) ledger ≡ (ok p', after)
      → Rounds p (frame ∷ frames) ledger p' after
  unfolding handle_frames
  handle_frames-Rounds p frame [] ledger {p'} {after} reached =
      let round =
        handle_frame-Round codec cap p frame ledger
          (sym (continue-pure (handle_frame codec cap p frame ledger)) ∙ reached) in
      Rounds-cons p frame ledger after p' [] round (
        subst (λ p1. Rounds (progress_after codec cap p round.q round.stored) [] after p1 after)
          round.progress (Rounds-nil p round.q round.stored after round.within))
  handle_frames-Rounds p frame (f2 ∷ frames) ledger {p'} {after} reached =
      let (p1, first, then1) = continue-eq-ok _ (handle_frame codec cap p frame ledger) reached in
      let between = (handle_frame codec cap p frame ledger).1 in
      let round = handle_frame-Round codec cap p frame ledger (ap (λ r. (r, between)) first) in
      Rounds-cons p frame ledger between p1 (f2 ∷ frames) round (
        subst (λ p2. Rounds p2 (f2 ∷ frames) between p' after) (sym round.progress)
          (handle_frames-Rounds p1 f2 frames between then1))
