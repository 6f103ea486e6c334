-- ===== src/Store/Tables.antt =====
-- The two tables of migrations/001_initial.sql and the SQL statements of src/store.rs over them. A
-- table is its rows in the order of insertion; the column `created_at` is never read and is left out.
use quote_ledger.Common.{
  ℕ, ◌-◌, ◌^◌, ◌<◌, arith, ◌≡◌, String, Bool, false, ◌&&◌, ◌||◌, Option, none, some, List, [], ◌∷◌,
  ◌++◌, ltb, str_eq, if◌then◌else◌,
}
use quote_ledger.Common.Int.{ℤ, pos, negsuc, ◌+ℤ◌, leb_ℤ, ltb_ℤ, i64_limit}

abbrev pub Bytes : Type 0
Bytes = List ℕ

pub record EventRow : Type 0 where
  pub quote_id : String
  pub seq : ℤ
  pub event_type : String
  pub payload : Bytes

pub record KeyRow : Type 0 where
  pub quote_id : String
  pub client_command_id : String
  pub first_seq : ℤ
  pub last_seq : ℤ

pub record Db : Type 0 where
  pub events : List EventRow
  pub keys : List KeyRow

-- `seq as i64` and `seq as u64`: the same 64 bits.
abbrev pub as_i64 : ℕ → ℤ
as_i64 n = if ltb n i64_limit then pos n else negsuc (2 ^ 64 - 1 - n)

abbrev pub as_u64 : ℤ → ℕ
as_u64 (pos n) = n
as_u64 (negsuc n) = 2 ^ 64 - 1 - n

pub as_i64_small : (n : ℕ) → n < i64_limit → as_i64 n ≡ pos n
as_i64_small n h = ground arith

-- `WHERE test`
unfoldable pub where_rows : (EventRow → Bool) → List EventRow → List EventRow
where_rows test [] = []
where_rows test (row ∷ rows) =
    let rest = where_rows test rows in if test row then row ∷ rest else rest

-- `ORDER BY seq ASC`
unfoldable pub insert_by_seq : EventRow → List EventRow → List EventRow
insert_by_seq row [] = row ∷ []
insert_by_seq row (r ∷ rows) =
    if leb_ℤ row.seq r.seq then row ∷ r ∷ rows else r ∷ insert_by_seq row rows

unfoldable pub order_by_seq : List EventRow → List EventRow
order_by_seq [] = []
order_by_seq (row ∷ rows) = insert_by_seq row (order_by_seq rows)

abbrev pub of_quote : String → EventRow → Bool
of_quote quote_id row = str_eq row.quote_id quote_id

-- `SELECT … FROM events WHERE quote_id = ?1 ORDER BY seq ASC`
unfoldable pub select_events : Db → String → List EventRow
select_events db quote_id = order_by_seq (where_rows (of_quote quote_id) db.events)

-- `… AND seq BETWEEN ?2 AND ?3 …`
unfoldable pub select_seq_range : Db → String → ℤ → ℤ → List EventRow
select_seq_range db quote_id first last = order_by_seq (
    where_rows (λ row. of_quote quote_id row && (leb_ℤ first row.seq && leb_ℤ row.seq last))
      db.events)

-- `… AND seq > ?2 AND seq <= ?3 …`
unfoldable pub select_after : Db → String → ℤ → ℤ → List EventRow
select_after db quote_id after upto = order_by_seq (
    where_rows (λ row. of_quote quote_id row && (ltb_ℤ after row.seq && leb_ℤ row.seq upto))
      db.events)

abbrev pub is_key : String → String → KeyRow → Bool
is_key quote_id client_command_id key =
    str_eq key.quote_id quote_id && str_eq key.client_command_id client_command_id

-- `SELECT first_seq, last_seq FROM idempotency_keys WHERE quote_id = ?1 AND client_command_id = ?2`;
-- the primary key lets one row match.
unfoldable pub find_key : List KeyRow → String → String → Option (ℤ × ℤ)
find_key [] quote_id client_command_id = none
find_key (key ∷ keys) quote_id client_command_id =
    if is_key quote_id client_command_id key
    then some (key.first_seq, key.last_seq)
    else find_key keys quote_id client_command_id

-- `MAX(seq)`, and 0 for no row.
abbrev max_ℤ : ℤ → ℤ → ℤ
max_ℤ a b = if ltb_ℤ a b then b else a

unfoldable pub max_seq_above : ℤ → List EventRow → ℤ
max_seq_above best [] = best
max_seq_above best (row ∷ rows) = max_seq_above (max_ℤ best row.seq) rows

unfoldable pub coalesce_max_seq : List EventRow → ℤ
coalesce_max_seq [] = pos 0
coalesce_max_seq (row ∷ rows) = max_seq_above row.seq rows

-- `SELECT COALESCE(MAX(seq), 0) + 1 FROM events WHERE quote_id = ?1`
unfoldable pub next_seq_of : Db → String → ℤ
next_seq_of db quote_id = coalesce_max_seq (where_rows (of_quote quote_id) db.events) +ℤ pos 1

-- `PRIMARY KEY (quote_id, seq)` and `PRIMARY KEY (quote_id, client_command_id)`
unfoldable pub has_event_row : List EventRow → String → ℤ → Bool
has_event_row [] quote_id seq = false
has_event_row (row ∷ rows) quote_id seq =
    (str_eq row.quote_id quote_id && (leb_ℤ row.seq seq && leb_ℤ seq row.seq))
    || has_event_row rows quote_id seq

unfoldable pub has_key_row : List KeyRow → String → String → Bool
has_key_row [] quote_id client_command_id = false
has_key_row (key ∷ keys) quote_id client_command_id =
    is_key quote_id client_command_id key || has_key_row keys quote_id client_command_id

-- `INSERT INTO events …` and `INSERT INTO idempotency_keys …`; `none` is a refused row.
unfoldable pub insert_event : EventRow → Db → Option Db
insert_event row db =
    if has_event_row db.events row.quote_id row.seq
    then none
    else some (record db { events = db.events ++ row ∷ [] })

unfoldable pub insert_key : KeyRow → Db → Option Db
insert_key key db =
    if has_key_row db.keys key.quote_id key.client_command_id
    then none
    else some (record db { keys = db.keys ++ key ∷ [] })
