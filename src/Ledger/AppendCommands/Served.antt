-- ===== src/Ledger/AppendCommands/Served.antt =====
-- What it is for a stream of frames to be served, and the rounds of the loop of `append_commands`
-- (src/ledger.rs) on such a stream.
use quote_ledger.Common.{
  subst, ℕ, ◌+◌, ◌≤◌, ◌≡◌, refl, sym, ap, ◌∙◌, false, String, str_eq, eq_iff, Bool-cases, ltb,
  Option, none, some, List, [], ◌∷◌, ◌++◌, last, Result, ok, err, ok_or, inl, inr, arith,
}
use quote_ledger.Wire.{AppendCommandRequest, QuoteCommand, StoredEvent, Status}
use quote_ledger.Store.Codec.{Codec}
use quote_ledger.Ledger.State.{Ledger, LedgerM, continue, lift}
use quote_ledger.Ledger.Identifier.{validate_identifier}
use quote_ledger.Ledger.AppendOne.{append_one}
use quote_ledger.Ledger.AppendCommands.{
  Frame, message, transport_error, idle_timeout, Progress, count_command, stream_quote,
  check_message, handle_message, handle_frame, progress_after, seq_after,
}

-- A message of the stream of `q` that carries a command and passes the tests of the loop.
pub record Sends (q : String) (msg : AppendCommandRequest) (cmd : QuoteCommand) : Type 0 where
  pub client_id : validate_identifier "client_command_id" msg.client_command_id ≡ ok tt
  pub valid_quote : validate_identifier "quote_id" msg.quote_id ≡ ok tt
  pub same : msg.quote_id ≡ q
  pub command : msg.command ≡ some cmd

-- Every frame is a message for `q`, and the calls of `append_one`, one after the other, lead from
-- the first ledger to the last and answer with these events.
pub data Served (codec : Codec) (q : String)
    : Ledger → List Frame → List StoredEvent → Ledger → Type 0 where
  done : {ledger : Ledger} → Served codec q ledger [] [] ledger
  next :
      {ledger between after : Ledger} {frames : List Frame} {stored rest : List StoredEvent}
      (msg : AppendCommandRequest) (cmd : QuoteCommand)
      → Sends q msg cmd
      → append_one codec q msg.client_command_id cmd ledger ≡ (ok stored, between)
      → Served codec q between frames rest after
      → Served codec q ledger (message msg ∷ frames) (stored ++ rest) after

-- The stream has no quote yet, or this one.
abbrev pub Agrees : Option String → String → Type 0
Agrees none q = Unit
Agrees (some p) q = p ≡ q

-- The variables of the loop after a served stream.
abbrev pub progress_by : Progress → String → ℕ → List StoredEvent → Progress
progress_by p q n committed = record {
  quote_id = some q;
  last_committed_seq = seq_after p.last_committed_seq (last committed);
  all_committed = p.all_committed ++ committed;
  command_count = p.command_count + n;
}

-- A chain that ends well goes on from the good end of its first action.
pub continue-eq-ok :
    {A B : Type 0} (f : A → LedgerM B) (p : Result A Status × Ledger) {b : B} {ledger : Ledger}
    → continue f p ≡ (ok b, ledger)
    → (a : A) × (p.0 ≡ ok a) × (f a p.1 ≡ (ok b, ledger))
continue-eq-ok f (ok a, l) reached = (a, refl, reached)
continue-eq-ok f (err e, l) reached = absurd (cc (ap (λ p. p.0) reached))

ok_or-eq-ok : {A E : Type 0} (e : E) (o : Option A) {a : A} → ok_or e o ≡ ok a → o ≡ some a
ok_or-eq-ok e none there = cc
ok_or-eq-ok e (some a) there = cc

pub stream_quote_repeats :
    (p : Option String) (q : String) (ledger : Ledger)
    → Agrees p q
    → stream_quote p q ledger ≡ (ok q, ledger)
unfolding stream_quote
stream_quote_repeats none q ledger agrees = refl
stream_quote_repeats (some p) q ledger agrees = rw ((eq_iff p q).1 agrees) (rw agrees refl)

stream_quote_other :
    (p q : String) (ledger : Ledger) {j : String}
    → str_eq p q ≡ false
    → (stream_quote (some p) q ledger).0 ≡ ok j
    → ⊥
unfolding stream_quote
stream_quote_other p q ledger other reached = cc (rw other at reached)

stream_quote-Agrees :
    (p : Option String) (q : String) (ledger : Ledger) {j : String}
    → (stream_quote p q ledger).0 ≡ ok j
    → Agrees p j × (q ≡ j) × ((stream_quote p q ledger).1 ≡ ledger)
stream_quote-Agrees none q ledger {j} reached =
    let agrees = stream_quote_repeats none q ledger tt in
    (tt, cc (sym (ap (λ p. p.0) agrees) ∙ reached), ap (λ p. p.1) agrees)
stream_quote-Agrees (some p) q ledger {j} reached = elim (Bool-cases (str_eq p q)) [
  | inl equal ↦
      let same = (eq_iff p q).0 equal in
      let agrees = stream_quote_repeats (some p) q ledger same in
      let this : q ≡ j = cc (sym (ap (λ p. p.0) agrees) ∙ reached) in
      (same ∙ this, this, ap (λ p. p.1) agrees)
  | inr other ↦ absurd (stream_quote_other p q ledger other reached)
]

module _ (codec : Codec) (cap : ℕ) where
  pub count_command_within :
      (n : ℕ) (ledger : Ledger) → n ≤ cap → count_command codec cap n ledger ≡ (ok tt, ledger)
  unfolding count_command
  count_command_within n ledger within = elim (Bool-cases (ltb cap n)) [
    | inl over ↦ absurd (ground (arith, over, within))
    | inr under ↦ rw under refl
  ]

  count_command-eq-ok :
      (n : ℕ) (ledger : Ledger) {u : Unit {0}}
      → (count_command codec cap n ledger).0 ≡ ok u
      → (n ≤ cap) × ((count_command codec cap n ledger).1 ≡ ledger)
  unfolding count_command
  count_command-eq-ok n ledger reached = elim (Bool-cases (ltb cap n)) [
    | inl over ↦ absurd (cc (rw over at reached))
    | inr under ↦ (ground (arith, under), rw under refl)
  ]

  -- The tests of the loop pass exactly these messages, and touch nothing.
  pub check_message_passes :
      (p : Progress) (q : String) (msg : AppendCommandRequest) (cmd : QuoteCommand)
      (ledger : Ledger)
      → Agrees p.quote_id q
      → p.command_count + 1 ≤ cap
      → Sends q msg cmd
      → check_message codec cap p msg ledger ≡ (ok (q, cmd), ledger)
  unfolding check_message
  check_message_passes p q msg cmd ledger agrees within sends =
      rw
        (
          count_command_within (p.command_count + 1) ledger within,
          sends.client_id,
          sends.valid_quote,
          sends.same,
          stream_quote_repeats p.quote_id q ledger agrees,
          sends.command,
        )
        refl

  pub check_message-Sends :
      (p : Progress) (msg : AppendCommandRequest) (ledger : Ledger) {x : String × QuoteCommand}
      {l : Ledger}
      → check_message codec cap p msg ledger ≡ (ok x, l)
      → Sends x.0 msg x.1 × Agrees p.quote_id x.0 × (p.command_count + 1 ≤ cap) × (ledger ≡ l)
  unfolding check_message
  check_message-Sends p msg ledger {x} {l} reached =
      let (_, counted, then1) =
        continue-eq-ok _ (count_command codec cap (p.command_count + 1) ledger) reached in
      let (_, client_id, then2) =
        continue-eq-ok _ (lift (validate_identifier "client_command_id" msg.client_command_id) _)
          then1 in
      let (_, valid_quote, then3) =
        continue-eq-ok _ (lift (validate_identifier "quote_id" msg.quote_id) _) then2 in
      let (qid, named, then4) = continue-eq-ok _ (stream_quote p.quote_id msg.quote_id _) then3 in
      let (cmd, there, then5) = continue-eq-ok _ (lift (ok_or _ msg.command) _) then4 in
      let (within, counting) = count_command-eq-ok (p.command_count + 1) ledger counted in
      let (agrees, same, naming) = stream_quote-Agrees p.quote_id msg.quote_id _ named in
      let pair : (qid, cmd) ≡ x = cc (ap (λ p. p.0) then5) in
      subst
        (λ y.
          Sends y.0 msg y.1 × Agrees p.quote_id y.0 × (p.command_count + 1 ≤ cap) × (ledger ≡ l))
        pair
        (
          record {
            client_id = client_id;
            valid_quote = valid_quote;
            same = same;
            command = ok_or-eq-ok _ msg.command there;
          },
          agrees,
          within,
          sym counting ∙ sym naming ∙ ap (λ p. p.1) then5,
        )

  -- A round that ends well has handled a message, by one call of `append_one`.
  pub record Round (p : Progress) (frame : Frame) (ledger : Ledger) (p' : Progress)
      (between : Ledger) : Type 0 where
    pub msg : AppendCommandRequest
    pub cmd : QuoteCommand
    pub q : String
    pub stored : List StoredEvent
    pub is_message : frame ≡ message msg
    pub sends : Sends q msg cmd
    pub agrees : Agrees p.quote_id q
    pub within : p.command_count + 1 ≤ cap
    pub answer : append_one codec q msg.client_command_id cmd ledger ≡ (ok stored, between)
    pub progress : progress_after codec cap p q stored ≡ p'

  handle_message-Round :
      (p : Progress) (msg : AppendCommandRequest) (ledger : Ledger) {p' : Progress} {l : Ledger}
      → handle_message codec cap p msg ledger ≡ (ok p', l)
      → Round p (message msg) ledger p' l
  unfolding handle_message
  handle_message-Round p msg ledger reached =
      let ((q, cmd), checked, then1) =
        continue-eq-ok _ (check_message codec cap p msg ledger) reached in
      let (stored, answer, then2) =
        continue-eq-ok _
          (append_one codec q msg.client_command_id cmd (check_message codec cap p msg ledger).1)
          then1 in
      let tested = (check_message codec cap p msg ledger).1 in
      let (sends, agrees, within, still) =
        check_message-Sends p msg ledger (ap (λ r. (r, tested)) checked) in
      record {
        msg = msg;
        cmd = cmd;
        q = q;
        stored = stored;
        is_message = refl;
        sends = sends;
        agrees = agrees;
        within = within;
        answer =
            ap (append_one codec q msg.client_command_id cmd) still
            ∙ ap (λ r. (r, (append_one codec q msg.client_command_id cmd tested).1)) answer
            ∙ ap (λ l. (ok stored, l)) (ap (λ p. p.1) then2);
        progress = cc (ap (λ p. p.0) then2);
      }

  pub handle_frame-Round :
      (p : Progress) (frame : Frame) (ledger : Ledger) {p' : Progress} {l : Ledger}
      → handle_frame codec cap p frame ledger ≡ (ok p', l)
      → Round p frame ledger p' l
  unfolding handle_frame
  handle_frame-Round p (message msg) ledger reached = handle_message-Round p msg ledger reached
  handle_frame-Round p (transport_error e) ledger reached = absurd (cc (ap (λ p. p.0) reached))
  handle_frame-Round p idle_timeout ledger reached = absurd (cc (ap (λ p. p.0) reached))
