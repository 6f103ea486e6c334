-- ===== src/Ledger/Outcome.antt =====
-- Every call of the closure of `append_one` keeps the invariant of the database (src/ledger.rs).
use mathlib.Core.List.{append-nil, append_assoc}
use quote_ledger.Common.{
  ap₂, length-map, ℕ, suc, ◌+◌, ◌-◌, ◌<◌, ◌≤◌, ◌≡◌, refl, sym, ap, ◌∙◌, subst, String, Option, none,
  some, List, [], ◌∷◌, ◌++◌, map, length, length-append, arith, Result, Result-cases, Option-cases,
  Bool-cases, str_eq, inl, inr, ok, err, is_ok, >>=-eq-ok,
}
use quote_ledger.Common.Int.{i64_limit}
use quote_ledger.Domain.Model.{QuoteState, DomainEvent, DomainCommand}
use quote_ledger.Domain.Reducer.{command_to_events, replay, replay_from}
use quote_ledger.Domain.Reducer.Replay.{replay-append}
use quote_ledger.Wire.{QuoteEvent, StoredEvent, StoreError}
use quote_ledger.Mapping.{domain_event_to_proto}
use quote_ledger.Mapping.RoundTrip.{stored_event}
use quote_ledger.Store.Tables.{Db, find_key}
use quote_ledger.Store.Codec.{Codec, IsLossless}
use quote_ledger.Store.Engine.{Connection}
use quote_ledger.Store.Runs.{Ends-at, Runs}
use quote_ledger.Store.Atomic.{
  IsAtomic, IsAtomic-bind, ReadsOnly-lift, idempotency_lookup-ReadsOnly,
  load_stored_events-ReadsOnly, load_between-ReadsOnly, append_command_events-IsAtomic,
}
use quote_ledger.Store.History.{History, Recorded, Grows, extend}
use quote_ledger.Ledger.Closure.{append_at, append_closure}
use quote_ledger.Ledger.Sound.{
  DomainHistory, IsSound, wire_event, closure_refused, closure_accepted,
}
use quote_ledger.Ledger.Known.{Answers, known_outcome}

-- A list that maps to a list in two parts is in two parts.
map-split :
    {A B : Type 0} (f : A → B) (xs : List A) (ys zs : List B)
    → map f xs ≡ ys ++ zs
    → (front back : List A) × (xs ≡ front ++ back) × (map f front ≡ ys)
map-split f xs [] zs e = ([], xs, refl, refl)
map-split f [] (y ∷ ys) zs e = absurd (cc e)
map-split f (x ∷ xs) (y ∷ ys) zs e =
    let (front, back, split, mapped) = map-split f xs ys zs (cc e) in
    let head : f x ≡ y = cc e in (x ∷ front, back, ap (λ l. x ∷ l) split, ap₂ ◌∷◌ head mapped)

-- The beginning of a history that replays, replays.
prefix_replays :
    (front back : List DomainEvent) {s : QuoteState}
    → replay (front ++ back) ≡ ok s
    → (s0 : QuoteState) × (replay front ≡ ok s0)
prefix_replays front back e =
    let (s0, reached, _) =
      >>=-eq-ok (λ s. replay_from s back) (replay front) (sym (replay-append front back) ∙ e) in
    (s0, reached)

-- The invariant holds of histories that go on from the old ones, each by at most `n` events.
pub record Moves (codec : Codec) (db : Db) (h : History) (n : ℕ) (db' : Db) : Type 0 where
  pub h' : History
  pub d' : DomainHistory
  pub sound : IsSound codec db' h' d'
  pub grows : Grows db h db' h'
  pub few : (q : String) → length (h' q) ≤ length (h q) + n

pub Grows-refl : (db : Db) (h : History) → Grows db h db h
Grows-refl db h = record { kept = λ q c range e. e; longer = λ q. ([], sym (append-nil (h q))) }

pub Grows-trans :
    {db db' db2 : Db} {h h' h2 : History}
    → Grows db h db' h'
    → Grows db' h' db2 h2
    → Grows db h db2 h2
Grows-trans {h = h} g g' = record {
  kept = λ q c range e. g'.kept q c range (g.kept q c range e);
  longer = λ q.
      let (new, e) = g.longer q in
      let (new', e') = g'.longer q in
      (new ++ new', e' ∙ ap (λ l. l ++ new') e ∙ append_assoc (h q) new new');
}

module _ (codec : Codec) where
  -- Whatever the engine does, the closure ends well or leaves the database as it was.
  pub closure-IsAtomic :
      (q c : String) (cmd : DomainCommand) → IsAtomic (append_closure codec q c cmd)
  unfolding append_closure append_at
  closure-IsAtomic q c cmd = IsAtomic-bind _ _ (idempotency_lookup-ReadsOnly q c) at
    where
      at : (found : Option (ℕ × ℕ)) → IsAtomic (append_at codec q c cmd found)
      at none = IsAtomic-bind _ _ (load_stored_events-ReadsOnly codec q) (λ all.
          IsAtomic-bind _ _ (ReadsOnly-lift _)
            (λ events. append_command_events-IsAtomic codec q c events))
      at (some range) =
          IsAtomic-bind _ _ (load_between-ReadsOnly codec q 0 (range.0 - 1)) (λ before.
            IsAtomic-bind _ _ (ReadsOnly-lift _)
              (λ events. append_command_events-IsAtomic codec q c events))

module _ (codec : Codec) (lossless : IsLossless codec) (db : Db) (h : History) (d : DomainHistory)
    (sound : IsSound codec db h d) where
  abbrev pub stays : (n : ℕ) → Moves codec db h n db
  stays n = record {
    h' = h;
    d' = d;
    sound = sound;
    grows = Grows-refl db h;
    few = λ q. omega arith;
  }

  extend_one : (q j : String) (ev : QuoteEvent) → length (extend h q (ev ∷ []) j) ≤ length (h j) + 1
  extend_one q j ev = elim (Bool-cases (str_eq q j)) [
    | inl e ↦ rw e (omega (arith, length-append {0} (h j) (ev ∷ [])))
    | inr e ↦ rw e (omega arith)
  ]

  -- A new key: the quote's state accepts the command or refuses it.
  new_outcome :
      (q c : String) (cmd : DomainCommand)
      → find_key db.keys q c ≡ none
      → suc (length (h q)) + 1 < i64_limit
      → (answer : Result (List StoredEvent) StoreError) × (db' : Db) × Runs
          (append_closure codec q c cmd)
          db
          answer
          db'
        × (m : Moves codec db h 1 db') × Answers db' m.h' q c cmd answer
  new_outcome q c cmd unused small =
      let (s, reached, valid) = sound.replays q in
      elim (Result-cases (command_to_events s cmd)) [
        | inl (emitted, accepted) ↦
            let (db', run, sound', recorded, grows) =
              closure_accepted codec lossless db h d q c cmd sound s unused reached valid accepted
                small in
            (
              ok (stored_event q (suc (length (h q))) (wire_event cmd) ∷ []),
              db',
              run,
              record {
                h' = extend h q (wire_event cmd ∷ []);
                d' = _;
                sound = sound';
                grows = grows;
                few = λ j. extend_one q j (wire_event cmd);
              },
              record {
                before = d q;
                state = s;
                reached = reached;
                emitted = emitted;
                accepted = accepted;
                recorded =
                    subst
                      (λ l.
                        Recorded db' (extend h q (wire_event cmd ∷ [])) q c l (wire_event cmd ∷ []))
                      (sound.events q) recorded;
                is_stored =
                    ap (λ n. stored_event q (suc n) (wire_event cmd) ∷ [])
                      (ap length (sound.events q) ∙ length-map domain_event_to_proto (d q));
              },
            )
        | inr (e, refused) ↦ (
          err (StoreError.domain e),
          db,
          closure_refused codec lossless db h d q c cmd sound s unused reached refused,
          stays 1,
          tt,
        )
      ]

  -- From a sound database the closure has one outcome, which moves to a sound database.
  pub closure_outcome :
      (q c : String) (cmd : DomainCommand)
      → suc (length (h q)) + 1 < i64_limit
      → (answer : Result (List StoredEvent) StoreError) × (db' : Db) × Runs
          (append_closure codec q c cmd)
          db
          answer
          db'
        × (m : Moves codec db h 1 db') × Answers db' m.h' q c cmd answer
  closure_outcome q c cmd small = elim (Option-cases (find_key db.keys q c)) [
    | inl unused ↦ new_outcome q c cmd unused small
    | inr (range, found) ↦
        let (pre, ev, more, r) = sound.represents.keys q c range found in
        let (front, back, split, mapped) =
          map-split domain_event_to_proto (d q) pre (ev ∷ (more ++ r.post))
            (sym (sound.events q) ∙ r.history) in
        let (s0, reached) =
          prefix_replays front back (ap replay (sym split) ∙ (sound.replays q).1) in
        let (answer, run, answers) =
          known_outcome codec lossless db h q c front s0 ev more sound.represents
            (subst (λ l. Recorded db h q c l (ev ∷ more)) (sym mapped) r) reached (omega arith)
            cmd in
        (answer, db, run, stays 1, answers)
  ]

  -- With a lossless encoding of events: on a sound database with room for one more event of the
  -- quote, wherever the engine fails, the closure of append_one leaves a sound database that keeps
  -- every event and key and has at most one more event for each quote; a good answer is the one
  -- event that the command stands for, stored after a history whose state accepts the command, and
  -- recorded under the key.
  pub closure-Moves :
      (q c : String) (cmd : DomainCommand) (conn : Connection)
      → conn.db ≡ db
      → suc (length (h q)) + 1 < i64_limit
      → (m : Moves codec db h 1 (append_closure codec q c cmd conn).1.db) × Answers
          (append_closure codec q c cmd conn).1.db
          m.h'
          q
          c
          cmd
          (append_closure codec q c cmd conn).0
  closure-Moves q c cmd conn here small =
      let (answer, db', run, moves, answers) = closure_outcome q c cmd small in
      elim (Ends-at run conn here) [
        | inl (same, ended) ↦ rw (same, ended) (moves, answers)
        | inr fault ↦
            rw (fault, (closure-IsAtomic codec q c cmd).undone conn (ap is_ok fault) ∙ here)
              (stays 1, tt)
      ]
