-- ===== src/Lib.antt =====
-- Quote ledger: the event-sourced core of the quote ledger service.
--
-- The service keeps quotes as append-only histories of events. A client streams commands; each
-- command is validated against the state that its quote's stored events replay to, and its event is
-- appended under the next seq of the quote in one SQLite transaction with the client's idempotency
-- key; the new head is then published to subscribers, whose streams catch up and follow it. This
-- library models that path from the configuration and the requests down to the rows of the database
-- and back.
--
-- Which file models what:
--  * Common: results and chains of them, tests, lists, signed integers with the range of `i64`, and
--    the methods of `str`.
--  * Domain/Model: the data of src/domain/model.rs and src/domain/error.rs. Domain/Money: the
--    totals. Domain/Reducer: `reduce`, `command_to_events`, `require_non_blank`, and `replay` of
--    src/domain/mod.rs. Below them: Money/Exact, Money/Positive, Money/Width, Reducer/Accepted,
--    Reducer/Invariant, Reducer/Lifecycle and Reducer/Replay hold the theorems.
--  * Wire: the messages of proto/quote_ledger/v1/quote_ledger.proto, the errors of src/error.rs,
--    and statuses. The text of a status is kept as a value that says how it is put together.
--  * Mapping: src/mapping.rs, with Mapping/RoundTrip and Mapping/View.
--  * Store/Tables: the tables of migrations/001_initial.sql and the SQL statements of src/store.rs
--    as operations on lists of rows. Store/Engine: the connection and its transactions.
--    Store/Append: the functions of src/store.rs. Store/Codec: the protobuf encoding, a parameter.
--    Store/Runs, Match, Select, Fresh, Insert, Payloads, History, Contract and Atomic: the abstract
--    view of the store, a history for each quote and the stretch that each key has recorded, and
--    the theorems over it.
--  * Ledger/State: the state behind `LedgerInner` of src/ledger.rs, with `db`, `publish_head` and
--    the in-flight guard. Ledger/Identifier: `validate_identifier`, with Identifier/Accepts.
--    Ledger/Closure: what `append_one` runs on the connection. Ledger/AppendOne: `append_one`.
--    Ledger/AppendCommands: the client-streaming call, on the frames that its stream yields; below
--    it Served says which streams are served, Rounds, Answer, Stops and Halts what the loop does on
--    them and on others, and Again, Repeated and Resumed what happens when a stream is sent again.
--    Ledger/Service: how the service and its limits are made. Ledger/Subscribe: what
--    `subscribe_quote` reads when it opens, with Subscribe/Opening. Ledger/SubscribeLoad:
--    `subscribe_load_between`, with SubscribeLoad/Retried. Ledger/Stream: the rest of
--    `subscribe_quote` and the task that it spawns, as a machine that takes one turn at a time.
--    Stream/World: schedules of appends, subscriptions and turns. Stream/Follows: what a subscriber
--    is promised, with Invariant, Channels, Opened, Turns, Reading, Promise, Schedule, Noticed and
--    CaughtUp on the way to Delivery and Reconnect; Stream/Settles: progress. Ledger/Sound, Known,
--    Outcome, Safe, AppendOne/Effects, AppendOne/Head, AppendCommands/Moving and
--    AppendCommands/Retry: the theorems on appends. Stream/InFlight: the in-flight counter over a
--    schedule; Stream/Drains: the wait at shutdown while calls go on; Stream/CommitAgain: a command
--    that is sent again; Stream/Lives and Restarts: several runs of the process on one database.
--    Stream/Call: a call of `append_commands` in moves, between which other calls take theirs;
--    CallSoFar, CallRecords and CallAgain: what it answers and records.
--  * Auth: src/auth.rs, with Auth/Bearer. Interceptor: src/grpc_interceptor.rs. The environment,
--    the header of a request, the comparison of tokens and the rate limiter are parameters.
--  * Config: src/config.rs. Config/Env: variables, numbers, switches, paths and strict mode;
--    Config/Service: `ServiceConfig::from_env_and_args`, with Config/Strict, Bounds, Sections and
--    Accepted; Config/Says: what a variable or an argument says, whatever reads it.
--  * Startup: `main` of src/main.rs up to the call that serves, and src/sqlite.rs, with
--    Startup/Guards. Shutdown: `shutdown_signal` of src/main.rs.
--  * Examples: a lossless encoding, a database of two events, and every theorem at concrete inputs.
--
-- How state and failure are modelled:
--  * An action of the store takes a connection, which is the database and a list of choices, one
--    for each call of the engine, whether that call fails; when the list has run out no call fails.
--    A failed call changes nothing by itself, and a transaction that does not commit is rolled
--    back. The connection's mutex makes a closure run alone, so that actions follow each other.
--  * The encoding of events is a record of two functions. Theorems that need it assume that every
--    event is encoded and that decoding gives the event back.
--  * Integers are unbounded with the conversions to `i64` written out, and a field of type `i64` is
--    any integer, so that theorems hold for more values than the source has; the `i128`
--    intermediates are shown to stay inside 128 bits. The in-flight counter wraps around as an
--    `AtomicUsize` of 64 bits does. The casts between `u64` and `i64` keep the 64 bits, and
--    theorems on seqs assume histories shorter than 2^63.
--  * A sound database holds every quote's rows without a gap, numbered from 1, every key names a
--    stretch of its quote's history, and every history replays to a valid quote.
--  * Calls that run at once are interleaved where they take a lock: an append is a step that enters
--    the counter, one that commits, one that sends its head and one that drops its guards, a
--    subscription one that reads and one that joins the bus, and the subscriber's task takes its
--    turns one at a time between them, one attempt of a read to a turn. A call of append_commands
--    that is followed takes a frame up to its commit in one move, and sends the head and drops its
--    guards in the next, as nothing that is said of it reads the counter. A schedule is any list of
--    such steps. A send to a client who is gone ends the task; the bound of the stream's buffer
--    only delays turns.
--  * A run of the process is a schedule from a bus without channels, a counter of zero and no call
--    under way, on the database that the run before it has left; it may stop after any step, and a
--    write that has not been committed by then is undone by the engine.
--  * Loops are recursion on the list that they go through, and the retries of a read on the number
--    of attempts that are left. The wait at shutdown is recursion on fuel, with 151 turns shown to
--    be enough: 30 s in ticks of 200 ms, and the first turn.
--  * The process's environment is a list of names and values that may be no UTF-8, and the parser
--    of socket addresses a parameter. What main calls of libraries and of the file system is a
--    record of functions, each with any answer. A request is taken to go to the service that it is
--    for: the ledger's, behind the interceptor, or the reflection service, which has none.
--
-- Not modelled: the metrics endpoint, the logging and the registration of the service
-- (`grpc_server`) of src/main.rs and src/ledger.rs, which only call libraries; a panic of a
-- blocking task; the column `created_at`, which is never read; and the times that metrics record.
pub mod Common
pub mod Domain
pub mod Wire
pub mod Mapping
pub mod Store
pub mod Ledger
pub mod Auth
pub mod Interceptor
pub mod Config
pub mod Startup
pub mod Shutdown
pub mod Examples
