-- ===== src/Ledger/Stream/Lives.antt =====
-- The service of src/ledger.rs over several runs of the process on one database. A run may stop
-- between any two moves, or in the middle of a write that the engine then undoes.
use quote_ledger.Common.{ℕ, ◌+◌, refl, String, Bool, List, [], ◌∷◌, length, arith}
use quote_ledger.Domain.Model.{default_state}
use quote_ledger.Domain.Reducer.{replay, replay_from}
use quote_ledger.Domain.Reducer.Invariant.{default-IsValid}
use quote_ledger.Store.Tables.{Db, find_key, where_rows, order_by_seq, select_events}
use quote_ledger.Store.Codec.{Codec, IsLossless}
use quote_ledger.Store.History.{History}
use quote_ledger.Ledger.Service.{new_inner}
use quote_ledger.Ledger.Sound.{DomainHistory, IsSound}
use quote_ledger.Ledger.Outcome.{Moves, stays}
use quote_ledger.Ledger.Safe.{HasRoom, Moves-trans}
use quote_ledger.Ledger.Stream.{channel_of}
use quote_ledger.Ledger.Stream.World.{World, subscribing, Move, run}
use quote_ledger.Ledger.Stream.Invariant.{InOrder}
use quote_ledger.Ledger.Stream.Schedule.{WorldMoves, run-WorldMoves}

-- A run of the process: which calls of the engine fail in it, the subscription that is watched, and
-- the schedule.
pub record Life : Type 0 where
  pub faults : List Bool
  pub quote_id : String
  pub after : ℕ
  pub moves : List Move

-- The process has stopped and is started again: the database is what it was, and the bus, the
-- counter and the calls that were under way are gone.
abbrev pub restart : List Bool → World → World
restart faults world = subscribing (new_inner (record world.ledger.conn { faults = faults })) []

abbrev pub lead : Codec → World → Life → World
lead codec world life = run codec life.quote_id life.after (restart life.faults world) life.moves

abbrev pub live : Codec → World → List Life → World
live codec world [] = world
live codec world (life ∷ lives) = live codec (lead codec world life) lives

abbrev pub all_moves : List Life → ℕ
all_moves [] = 0
all_moves (life ∷ lives) = length life.moves + all_moves lives

restart-InOrder :
    (q : String) (after : ℕ) (h : History) (faults : List Bool) (world : World)
    → InOrder q after h (restart faults world)
unfolding channel_of
restart-InOrder q after h faults world = record {
  heads = λ j. omega arith;
  pending = tt;
  pump = refl;
}

-- The database as the migration leaves it, and its histories.
abbrev pub empty_db : Db
empty_db = record { events = []; keys = [] }

abbrev pub no_events : History
no_events q = []

abbrev pub no_domain_events : DomainHistory
no_domain_events q = []

pub empty_db-IsSound : (codec : Codec) → IsSound codec empty_db no_events no_domain_events
unfolding replay replay_from find_key where_rows order_by_seq select_events
empty_db-IsSound codec = record {
  represents = record { rows = λ q. tt; keys = λ q c range found. absurd (cc found) };
  events = λ q. refl;
  replays = λ q. (default_state, refl, default-IsValid);
}

module _ (codec : Codec) (lossless : IsLossless codec) where
  pub lead-WorldMoves :
      (life : Life) (world : World) (h : History) (d : DomainHistory)
      → IsSound codec world.ledger.conn.db h d
      → HasRoom h (length life.moves)
      → WorldMoves codec lossless life.quote_id life.after world.ledger.conn.db h
          (length life.moves)
          (lead codec world life)
  lead-WorldMoves life world h d sound room =
      run-WorldMoves codec lossless life.quote_id life.after life.moves (restart life.faults world)
        h d sound room (restart-InOrder life.quote_id life.after h life.faults world)

  pub live-Moves :
      (lives : List Life) (world : World) (h : History) (d : DomainHistory)
      → IsSound codec world.ledger.conn.db h d
      → HasRoom h (all_moves lives)
      → Moves codec world.ledger.conn.db h (all_moves lives) (live codec world lives).ledger.conn.db
  live-Moves [] world h d sound room = stays codec lossless world.ledger.conn.db h d sound 0
  live-Moves (life ∷ lives) world h d sound room =
      let one = lead-WorldMoves life world h d sound (λ j. omega (arith, room j)) in
      Moves-trans codec lossless one.moves (
        live-Moves lives (lead codec world life) one.moves.h' one.moves.d' one.moves.sound
          (λ j. omega (arith, room j, one.moves.few j)))
