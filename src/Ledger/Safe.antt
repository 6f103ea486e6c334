-- ===== src/Ledger/Safe.antt =====
-- Actions on the ledger that keep the invariant of the database, and how they compose (src/ledger.rs).
use quote_ledger.Common.{
  ℕ, suc, ◌+◌, ◌<◌, ◌≤◌, ◌≡◌, refl, String, length, arith, Result, Result-cases, inl, inr, ok, err,
}
use quote_ledger.Common.Int.{i64_limit}
use quote_ledger.Wire.{QuoteCommand, Status}
use quote_ledger.Mapping.{proto_command_to_domain}
use quote_ledger.Store.Tables.{Db}
use quote_ledger.Store.Codec.{Codec, IsLossless}
use quote_ledger.Store.History.{History}
use quote_ledger.Ledger.State.{Ledger, LedgerM, continue, ◌>>=◌}
use quote_ledger.Ledger.Sound.{DomainHistory, IsSound}
use quote_ledger.Ledger.Outcome.{Moves, Grows-trans, stays, closure-Moves}
use quote_ledger.Ledger.AppendOne.{append_one}
use quote_ledger.Ledger.AppendOne.Effects.{append_one_malformed, append_one_answer}

-- Every quote has room for `n` more events.
abbrev pub HasRoom : History → ℕ → Type 0
HasRoom h n = (q : String) → suc (length (h q)) + n < i64_limit

module _ (codec : Codec) (lossless : IsLossless codec) where
  -- The action keeps the invariant and appends at most `n` events to any quote.
  pub record IsSafe {A : Type 0} (n : ℕ) (m : LedgerM A) : Type 0 where
    pub moves :
        (ledger : Ledger) (h : History) (d : DomainHistory)
        → IsSound codec ledger.conn.db h d
        → HasRoom h n
        → Moves codec ledger.conn.db h n (m ledger).1.conn.db

  pub Moves-trans :
      {db db' db2 : Db} {h : History} {n m : ℕ} (first : Moves codec db h n db')
      → Moves codec db' first.h' m db2
      → Moves codec db h (n + m) db2
  Moves-trans first next = record {
    h' = next.h';
    d' = next.d';
    sound = next.sound;
    grows = Grows-trans first.grows next.grows;
    few = λ q. omega (arith, first.few q, next.few q);
  }

  pub Moves-weaken :
      {db db' : Db} {h : History} {n : ℕ} (m : ℕ)
      → n ≤ m
      → Moves codec db h n db'
      → Moves codec db h m db'
  Moves-weaken m le moves = record {
    h' = moves.h';
    d' = moves.d';
    sound = moves.sound;
    grows = moves.grows;
    few = λ q. omega (arith, moves.few q);
  }

  -- An action that leaves the database alone.
  pub IsSafe-still :
      {A : Type 0} (m : LedgerM A)
      → ((ledger : Ledger) → (m ledger).1.conn ≡ ledger.conn)
      → IsSafe 0 m
  IsSafe-still m still = record {
    moves = λ ledger h d sound room.
        rw (still ledger) (stays codec lossless ledger.conn.db h d sound 0);
  }

  module _ {A B : Type 0} where
    continue-moves :
        (f : A → LedgerM B) (p : Result A Status × Ledger) (n : ℕ) (h : History) (d : DomainHistory)
        → ((a : A) → IsSafe n (f a))
        → IsSound codec p.1.conn.db h d
        → HasRoom h n
        → Moves codec p.1.conn.db h n (continue f p).1.conn.db
    continue-moves f (ok a, ledger) n h d safe sound room = (safe a).moves ledger h d sound room
    continue-moves f (err e, ledger) n h d safe sound room =
        stays codec lossless ledger.conn.db h d sound n

    pub IsSafe-bind :
        (n k : ℕ) (m : LedgerM A) (f : A → LedgerM B)
        → IsSafe n m
        → ((a : A) → IsSafe k (f a))
        → IsSafe (n + k) (m >>= f)
    IsSafe-bind n k m f first next = record {
      moves = λ ledger h d sound room.
          let one = first.moves ledger h d sound (λ q. omega (arith, room q)) in
          Moves-trans one (
            continue-moves f (m ledger) k one.h' one.d' next one.sound
              (λ q. omega (arith, room q, one.few q)));
    }

  pub append_one-IsSafe : (q c : String) (cmd : QuoteCommand) → IsSafe 1 (append_one codec q c cmd)
  append_one-IsSafe q c cmd = record {
    moves = λ ledger h d sound room. elim (Result-cases (proto_command_to_domain cmd)) [
      | inl (dcmd, parsed) ↦
          rw ((append_one_answer codec q c cmd ledger parsed _ _ refl).1)
            (closure-Moves codec lossless ledger.conn.db h d sound q c dcmd ledger.conn refl
              (room q)).0
      | inr (status, refused) ↦
          rw ((append_one_malformed codec q c cmd ledger refused).1)
            (stays codec lossless ledger.conn.db h d sound 1)
    ];
  }

  pub still_bind :
      {A B : Type 0} (n : ℕ) (m : LedgerM A) (f : A → LedgerM B)
      → ((ledger : Ledger) → (m ledger).1.conn ≡ ledger.conn)
      → ((a : A) → IsSafe n (f a))
      → IsSafe n (m >>= f)
  still_bind n m f still next = record {
    moves = λ ledger h d sound room. Moves-weaken n (omega arith) (
        (IsSafe-bind 0 n m f (IsSafe-still m still) next).moves ledger h d sound
          (λ q. omega (arith, room q)));
  }
