-- ===== src/Examples/Database.antt =====
-- A database that holds the quote q-1 of two events, and what it stands for (src/store.rs).
use quote_ledger.Common.{
  ◌^◌, ℕ, suc, ◌+◌, ◌<◌, arith, ◌≡◌, refl, subst, String, some, List, [], ◌∷◌, length, str_eq,
  eq_iff, if◌then◌else◌, Bool-cases, inl, inr,
}
use quote_ledger.Common.Int.{ℤ, pos}
use quote_ledger.Domain.Model.{default_state}
use quote_ledger.Domain.Reducer.{replay, replay_from}
use quote_ledger.Domain.Reducer.Invariant.{default-IsValid}
use quote_ledger.Wire.{QuoteEvent}
use quote_ledger.Mapping.{domain_event_to_proto}
use quote_ledger.Store.Tables.{Db, where_rows, find_key}
use quote_ledger.Store.Select.{rows_of}
use quote_ledger.Store.Match.{RowsMatch}
use quote_ledger.Store.History.{History, Recorded, Represents}
use quote_ledger.Ledger.Sound.{DomainHistory, IsSound, ReplaysValid}
use quote_ledger.Examples.PlainCodec.{plain_codec, payload, payload_lem}
use quote_ledger.Examples.Quotes.{
  created, added_desk, open_quote, open_quote-IsValid, open_quote_replayed,
}

abbrev pub created_event : QuoteEvent
created_event = domain_event_to_proto created

abbrev pub added_event : QuoteEvent
added_event = domain_event_to_proto added_desk

abbrev pub two_events : Db
two_events = record {
  events =
      record {
        quote_id = "q-1";
        seq = pos 1;
        event_type = "quote_created";
        payload = payload created_event;
      }
      ∷ record {
        quote_id = "q-1";
        seq = pos 2;
        event_type = "line_item_added";
        payload = payload added_event;
      }
      ∷ [];
  keys =
      record { quote_id = "q-1"; client_command_id = "c-1"; first_seq = pos 1; last_seq = pos 1 }
      ∷ record { quote_id = "q-1"; client_command_id = "c-2"; first_seq = pos 2; last_seq = pos 2 }
      ∷ [];
}

abbrev pub two_domain : DomainHistory
two_domain q = if str_eq "q-1" q then created ∷ added_desk ∷ [] else []

abbrev pub two_history : History
two_history q = if str_eq "q-1" q then created_event ∷ added_event ∷ [] else []

pub two_rows : (q : String) → RowsMatch plain_codec q 1 (rows_of two_events q) (two_history q)
unfolding where_rows
two_rows q = elim (Bool-cases (str_eq "q-1" q)) [
  | inl same ↦ rw same (
    (eq_iff "q-1" q).0 same,
    refl,
    payload_lem created_event,
    ((eq_iff "q-1" q).0 same, refl, payload_lem added_event, tt),
  )
  | inr other ↦ rw other tt
]

pub Recorded-created : Recorded two_events two_history "q-1" "c-1" [] (created_event ∷ [])
unfolding find_key
Recorded-created = record { key = refl; post = added_event ∷ []; history = refl }

pub Recorded-added :
    Recorded two_events two_history "q-1" "c-2" (created_event ∷ []) (added_event ∷ [])
unfolding find_key
Recorded-added = record { key = refl; post = []; history = refl }

two_keys :
    (q c : String) (range : ℤ × ℤ)
    → find_key two_events.keys q c ≡ some range
    → (pre : List QuoteEvent) × (ev : QuoteEvent) × (more : List QuoteEvent) × Recorded two_events
        two_history q c pre
        (ev ∷ more)
unfolding find_key
two_keys q c range found = elim (Bool-cases (str_eq "q-1" q)) [
  | inl same ↦ elim (Bool-cases (str_eq "c-1" c)) [
    | inl first ↦ (
      [],
      created_event,
      [],
      subst (λ x. Recorded two_events two_history x c [] (created_event ∷ []))
          ((eq_iff "q-1" q).0 same)
          (subst (λ x. Recorded two_events two_history "q-1" x [] (created_event ∷ []))
            ((eq_iff "c-1" c).0 first) Recorded-created),
    )
    | inr later ↦ elim (Bool-cases (str_eq "c-2" c)) [
      | inl second ↦ (
        created_event ∷ [],
        added_event,
        [],
        subst (λ x. Recorded two_events two_history x c (created_event ∷ []) (added_event ∷ []))
            ((eq_iff "q-1" q).0 same)
            (subst
              (λ x. Recorded two_events two_history "q-1" x (created_event ∷ []) (added_event ∷ []))
              ((eq_iff "c-2" c).0 second) Recorded-added),
      )
      | inr neither ↦ absurd (ground (arith, same, later, neither, found))
    ]
  ]
  | inr other ↦ absurd (ground (arith, other, found))
]

pub two_events-Represents : Represents plain_codec two_events two_history
two_events-Represents = record { rows = two_rows; keys = two_keys }

two_replays : (q : String) → ReplaysValid (two_domain q)
unfolding replay replay_from
two_replays q = elim (Bool-cases (str_eq "q-1" q)) [
  | inl same ↦ rw same (open_quote, open_quote_replayed, open_quote-IsValid)
  | inr other ↦ rw other (default_state, refl, default-IsValid)
]

pub two_events-IsSound : IsSound plain_codec two_events two_history two_domain
two_events-IsSound = record {
  represents = two_events-Represents;
  events = λ q. ground arith;
  replays = two_replays;
}

-- There is room for `n` more events.
pub two_history_small :
    (q : String) (n : ℕ) → n < 1_000_000 → suc (length (two_history q)) + n < 2 ^ 63
two_history_small q n few = ground arith
