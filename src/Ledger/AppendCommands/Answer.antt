-- ===== src/Ledger/AppendCommands/Answer.antt =====
-- What a call of `append_commands` answers (src/ledger.rs).
use quote_ledger.Common.{
  subst, ℕ, ◌≤◌, ◌<◌, ◌≡◌, ◌↔◌, refl, sym, ap, ◌∙◌, String, List, [], ◌∷◌, length, last, ok, err,
  arith,
}
use quote_ledger.Wire.{AppendCommandsResponse, StoredEvent}
use quote_ledger.Store.Codec.{Codec}
use quote_ledger.Ledger.State.{Ledger, append_commands_streams, append_commands_stream_duration}
use quote_ledger.Ledger.AppendCommands.{
  Frame, start, handle_frames, seq_after, respond, append_commands,
}
use quote_ledger.Ledger.AppendCommands.Served.{Served, continue-eq-ok, progress_by}
use quote_ledger.Ledger.AppendCommands.Rounds.{rounds, handle_frames-Rounds}

err-ne-ok : {A E : Type 0} {e : E} {a : A} → err e ≡ ok a → ⊥
err-ne-ok h = cc

-- The ledger once a served stream has been answered.
abbrev pub counted : Ledger → Ledger
counted ledger = record ledger {
  metrics = append_commands_stream_duration ∷ append_commands_streams "ok" ∷ ledger.metrics;
}

-- The answer of a served stream of at least one frame and at most `cap`.
pub record IsServed (codec : Codec) (cap : ℕ) (frames : List Frame) (ledger : Ledger)
    (response : AppendCommandsResponse) (ledger' : Ledger) : Type 0 where
  pub q : String
  pub after : Ledger
  pub some_frame : 0 < length frames
  pub within : length frames ≤ cap
  pub served : Served codec q ledger frames response.committed after
  pub newest : response.last_committed_seq ≡ seq_after 0 (last response.committed)
  pub counts : ledger' ≡ counted after

-- The response to these events.
abbrev pub response_of : List StoredEvent → AppendCommandsResponse
response_of committed = record {
  last_committed_seq = seq_after 0 (last committed);
  committed = committed;
}

module _ (codec : Codec) (cap : ℕ) where
  respond_by :
      (q : String) (n : ℕ) (committed : List StoredEvent) (ledger : Ledger)
      → respond codec cap (progress_by start q n committed) ledger
        ≡ (ok (response_of committed), counted ledger)
  unfolding respond
  respond_by q n committed ledger = refl

  answered_frames :
      (frame : Frame) (frames : List Frame) (ledger : Ledger) (response : AppendCommandsResponse)
      (ledger' : Ledger)
      → append_commands codec cap (frame ∷ frames) ledger ≡ (ok response, ledger')
      → IsServed codec cap (frame ∷ frames) ledger response ledger'
  unfolding append_commands
  answered_frames frame frames ledger response ledger' reached =
      let (p, looped, responded) =
        continue-eq-ok _ (handle_frames codec cap start (frame ∷ frames) ledger) reached in
      let after = (handle_frames codec cap start (frame ∷ frames) ledger).1 in
      let rs =
        handle_frames-Rounds codec cap start frame frames ledger (ap (λ r. (r, after)) looped) in
      let both =
        sym (respond_by rs.q (length (frame ∷ frames)) rs.committed after)
        ∙ ap (λ p. respond codec cap p after) rs.progress
        ∙ responded in
      let whole : response_of rs.committed ≡ response = cc (ap (λ p. p.0) both) in
      subst (λ r. IsServed codec cap (frame ∷ frames) ledger r ledger') whole
        (record {
          q = rs.q;
          after = after;
          some_frame = omega arith;
          within = omega (arith, rs.within);
          served = rs.served;
          newest = refl;
          counts = sym (ap (λ p. p.1) both);
        })

  -- A call of append_commands answers with a response just when its stream is of at least one and
  -- at most append_max_commands frames, all of them messages with valid identifiers, one quote and
  -- a command, whose calls of append_one, one after the other, all answer; the response holds the
  -- events of these answers in their order, and the seq of the last one.
  pub append_commands_answers :
      (frames : List Frame) (ledger : Ledger) (response : AppendCommandsResponse) (ledger' : Ledger)
      → (append_commands codec cap frames ledger ≡ (ok response, ledger'))
        ↔ IsServed codec cap frames ledger response ledger'
  unfolding append_commands handle_frames respond
  append_commands_answers [] ledger response ledger' = (
    λ reached. absurd (err-ne-ok (ap (λ p. p.0) reached)),
    λ s. absurd (omega (arith, s.some_frame)),
  )
  append_commands_answers (frame ∷ frames) ledger response ledger' = (
    answered_frames frame frames ledger response ledger',
    λ s. rw (rounds codec cap s.q start tt s.served s.some_frame (omega (arith, s.within))) (
        respond_by s.q (length (frame ∷ frames)) response.committed s.after
        ∙ ap (λ r. (ok r, counted s.after))
            (ap (λ n. record { last_committed_seq = n; committed = response.committed })
              (sym s.newest))
        ∙ ap (λ l. (ok response, l)) (sym s.counts)),
  )
