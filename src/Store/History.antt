-- ===== src/Store/History.antt =====
-- The abstract view of the store: for each quote the list of its events, and for each client
-- command the stretch of it that the command appended.
use mathlib.Core.List.{append-nil, append_assoc}
use quote_ledger.Common.{
  subst, sym, ◌⊎◌, ℕ, suc, ◌+◌, ◌≡◌, refl, ap, ◌∙◌, String, none, some, List, [], ◌∷◌, ◌++◌, length,
  arith, str_eq, eq_iff, if◌then◌else◌, Bool-cases, inl, inr,
}
use quote_ledger.Common.Int.{ℤ, pos}
use quote_ledger.Wire.{QuoteEvent}
use quote_ledger.Store.Tables.{EventRow, KeyRow, Db, where_rows, of_quote, find_key}
use quote_ledger.Store.Codec.{Codec}
use quote_ledger.Store.Match.{RowsMatch, RowsMatch-append, where_rows-append}
use quote_ledger.Store.Select.{rows_of}
use quote_ledger.Store.Insert.{key_row}

abbrev pub History : Type 0
History = String → List QuoteEvent

-- The history with events appended to one quote's.
abbrev pub extend : History → String → List QuoteEvent → History
extend h q events j = if str_eq q j then h j ++ events else h j

-- The command `c` of quote `q` has appended `events` after `pre`.
pub record Recorded (db : Db) (h : History) (q c : String) (pre events : List QuoteEvent)
    : Type 0 where
  pub key : find_key db.keys q c ≡ some (pos (suc (length pre)), pos (length pre + length events))
  pub post : List QuoteEvent
  pub history : h q ≡ pre ++ (events ++ post)

-- The database holds the histories without a gap, and every key names a stretch of one.
pub record Represents (codec : Codec) (db : Db) (h : History) : Type 0 where
  pub rows : (q : String) → RowsMatch codec q 1 (rows_of db q) (h q)
  pub keys :
      (q c : String) (range : ℤ × ℤ)
      → find_key db.keys q c ≡ some range
      → (pre : List QuoteEvent) × (ev : QuoteEvent) × (more : List QuoteEvent) × Recorded db h q c
          pre
          (ev ∷ more)

-- Each quote's history is a beginning of its history in `h'`.
abbrev pub Extends : History → History → Type 0
Extends h h' = (q : String) → (new : List QuoteEvent) × (h' q ≡ h q ++ new)

-- Keys stay and histories grow.
pub record Grows (db : Db) (h : History) (db' : Db) (h' : History) : Type 0 where
  pub kept :
      (q c : String) (range : ℤ × ℤ)
      → find_key db.keys q c ≡ some range
      → find_key db'.keys q c ≡ some range
  pub longer : Extends h h'

-- What a command has recorded stays recorded.
pub Recorded-grow :
    {db db' : Db} {h h' : History} (q c : String) (pre events : List QuoteEvent)
    → Grows db h db' h'
    → Recorded db h q c pre events
    → Recorded db' h' q c pre events
Recorded-grow q c pre events g r =
    let (new, e) = g.longer q in
    record {
      key = g.kept q c _ r.key;
      post = r.post ++ new;
      history =
          e
          ∙ ap (λ l. l ++ new) r.history
          ∙ append_assoc pre (events ++ r.post) new
          ∙ ap (λ l. pre ++ l) (append_assoc events r.post new);
    }

pub extend-Extends :
    (h : History) (q : String) (events : List QuoteEvent) → Extends h (extend h q events)
extend-Extends h q events j = elim (Bool-cases (str_eq q j)) [
  | inl e ↦ (events, rw e refl)
  | inr e ↦ ([], rw e (sym (append-nil (h j))))
]

pub find_key-append_old :
    (keys : List KeyRow) (key : KeyRow) (q c : String) {range : ℤ × ℤ}
    → find_key keys q c ≡ some range
    → find_key (keys ++ key ∷ []) q c ≡ some range
unfolding find_key
find_key-append_old [] key q c h = cc
find_key-append_old (k ∷ keys) key q c {range} h =
    ground (arith, find_key-append_old keys key q c {range = range})

pub find_key-append_new :
    (keys : List KeyRow) (q c : String) (first last : ℕ)
    → find_key keys q c ≡ none
    → find_key (keys ++ key_row q c first last ∷ []) q c ≡ some (pos first, pos last)
unfolding find_key
find_key-append_new [] q c first last h = ground (arith, eq_iff q q, eq_iff c c)
find_key-append_new (k ∷ keys) q c first last h =
    ground (arith, find_key-append_new keys q c first last)

-- What another key's insertion leaves to be found.
pub find_key-append_other :
    (keys : List KeyRow) (q c q' c' : String) (first last : ℕ) {range : ℤ × ℤ}
    → find_key (keys ++ key_row q c first last ∷ []) q' c' ≡ some range
    → (find_key keys q' c' ≡ some range) ⊎ ((q ≡ q') × (c ≡ c'))
unfolding find_key
find_key-append_other [] q c q' c' first last h = ground (arith, eq_iff q q', eq_iff c c')
find_key-append_other (k ∷ keys) q c q' c' first last {range} h =
    ground (arith, find_key-append_other keys q c q' c' first last {range = range})

rows_of-matching :
    (codec : Codec) (q j : String) (n : ℕ) (new : List EventRow) (events : List QuoteEvent)
    → RowsMatch codec q n new events
    → where_rows (of_quote j) new ≡ (if str_eq q j then new else [])
unfolding where_rows
rows_of-matching codec q j n [] [] h = ground arith
rows_of-matching codec q j n [] (ev ∷ events) h = absurd h
rows_of-matching codec q j n (row ∷ new) [] h = absurd h
rows_of-matching codec q j n (row ∷ new) (ev ∷ events) (is_q, is_n, enc, h) =
    rw (is_q, rows_of-matching codec q j (suc n) new events h)
      (elim (Bool-cases (str_eq q j)) [ inl e ↦ rw e refl | inr e ↦ rw e refl ])

-- Rows that continue one quote's history extend it, and leave the other quotes alone.
pub extended_rows :
    (codec : Codec) (db : Db) (h : History) (q : String) (new : List EventRow)
    (events : List QuoteEvent) (keys : List KeyRow)
    → ((j : String) → RowsMatch codec j 1 (rows_of db j) (h j))
    → RowsMatch codec q (suc (length (h q))) new events
    → (j : String)
    → RowsMatch codec j 1
        (rows_of (record { events = db.events ++ new; keys = keys }) j)
        (extend h q events j)
extended_rows codec db h q new events keys old matches j =
    rw
      (
        where_rows-append (of_quote j) db.events new,
        rows_of-matching codec q j (suc (length (h q))) new events matches,
      )
      (elim (Bool-cases (str_eq q j)) [
        | inl e ↦ rw e (
            RowsMatch-append codec j 1 (rows_of db j) (h j) new events (old j) (
              subst (λ x. RowsMatch codec x (1 + length (h x)) new events) ((eq_iff q j).0 e)
                (rw one matches)))
        | inr e ↦ rw (e, append-nil (where_rows (of_quote j) db.events)) (old j)
      ])
  where
    one : 1 + length (h q) ≡ suc (length (h q))
    one = omega arith
