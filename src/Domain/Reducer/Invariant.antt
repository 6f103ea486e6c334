-- ===== src/Domain/Reducer/Invariant.antt =====
-- What holds of every quote that commands build (src/domain/model.rs).
use quote_ledger.Common.{
  ◌≡◌, refl, String, Bool, true, false, ◌||◌, List, [], ◌∷◌, ◌++◌, All, All-append, ok, is_ok,
  str_eq, eq_iff, arith, Option, some, none,
}
use quote_ledger.Common.Int.{try_i64}
use quote_ledger.Domain.Model.{
  LineItemState, new_line, QuoteState, default_state, is_created, currency_code, jurisdiction_id,
  DomainEvent, DomainCommand, create_quote, add_line_item, finalize_quote,
}
use quote_ledger.Domain.Money.{
  total_minor, tax_minor, subtotal_minor, add_line_totals, tax_rate_bps,
}
use quote_ledger.Domain.Reducer.Accepted.{
  is_blank, LineIsValid, event_of, create_guards, create_reduces, add_reduces, add_line_valid,
  add_priced, add_fresh, finalize_guards, finalize_reduces,
}
use quote_ledger.Domain.Reducer.{has_line_id, push_line, reduce, no_lines, command_to_events}

-- No two lines share their id.
abbrev pub HasDistinctIds : List LineItemState → Type 0
HasDistinctIds [] = Unit
HasDistinctIds (l ∷ lines) = (has_line_id lines l.line_id ≡ false) × HasDistinctIds lines

pub record IsValid (state : QuoteState) : Type 0 where
  pub untouched :
      is_created state ≡ false
      → (state.jurisdiction_id ≡ none) × (state.finalized ≡ false) × (state.lines ≡ [])
  pub named :
      is_created state ≡ true
      → (is_blank (currency_code state) ≡ false) × (is_blank (jurisdiction_id state) ≡ false)
  pub lines : All LineIsValid state.lines
  pub distinct : HasDistinctIds state.lines
  pub closed_with_lines : state.finalized ≡ true → no_lines state.lines ≡ false
  pub priced : is_ok (total_minor state) ≡ true

total_minor-default : is_ok (total_minor default_state) ≡ true
unfolding total_minor tax_minor subtotal_minor add_line_totals tax_rate_bps try_i64
total_minor-default = refl

pub default-IsValid : IsValid default_state
unfolding total_minor
default-IsValid = record {
  untouched = λ _. (refl, refl, refl);
  named = λ created. cc;
  lines = tt;
  distinct = tt;
  closed_with_lines = λ closed. cc;
  priced = total_minor-default;
}

has_line_id-push :
    (lines : List LineItemState) (l : LineItemState) (id : String)
    → has_line_id (lines ++ l ∷ []) id ≡ (has_line_id lines id || str_eq l.line_id id)
unfolding has_line_id
has_line_id-push [] l id = ground arith
has_line_id-push (m ∷ lines) l id = ground (arith, has_line_id-push lines l id)

push-HasDistinctIds :
    (lines : List LineItemState) (l : LineItemState)
    → HasDistinctIds lines
    → has_line_id lines l.line_id ≡ false
    → HasDistinctIds (lines ++ l ∷ [])
unfolding has_line_id
push-HasDistinctIds [] l h fresh = (refl, tt)
push-HasDistinctIds (m ∷ lines) l h fresh = ground (
  arith,
  push-HasDistinctIds lines l h.1,
  has_line_id-push lines l m.line_id,
  eq_iff m.line_id l.line_id,
  eq_iff l.line_id m.line_id,
)

no_lines-push :
    (lines : List LineItemState) (l : LineItemState) → no_lines (lines ++ l ∷ []) ≡ false
no_lines-push [] l = refl
no_lines-push (m ∷ lines) l = refl

push-IsValid :
    (s : QuoteState) (l : LineItemState)
    → IsValid s
    → LineIsValid l
    → (has_line_id s.lines l.line_id ≡ false) × (is_created s ≡ true) × (s.finalized ≡ false)
    → is_ok (total_minor (push_line s l)) ≡ true
    → IsValid (push_line s l)
push-IsValid s l v line fresh priced = record {
  untouched = λ missing. cc (missing, fresh.1);
  named = λ created. v.named created;
  lines = All-append LineIsValid s.lines (l ∷ []) v.lines (line, tt);
  distinct = push-HasDistinctIds s.lines l v.distinct fresh.0;
  closed_with_lines = λ _. no_lines-push s.lines l;
  priced = priced;
}

-- The total does not look at the flag.
total_minor-finalize :
    (s : QuoteState) → total_minor (record s { finalized = true }) ≡ total_minor s
unfolding total_minor tax_minor subtotal_minor tax_rate_bps
total_minor-finalize s = refl

finalize-IsValid :
    (s : QuoteState)
    → IsValid s
    → is_created s ≡ true
    → no_lines s.lines ≡ false
    → IsValid (record s { finalized = true })
finalize-IsValid s v created some_line = record {
  untouched = λ missing. cc (missing, created);
  named = v.named;
  lines = v.lines;
  distinct = v.distinct;
  closed_with_lines = λ _. some_line;
  priced = rw (total_minor-finalize s) v.priced;
}

-- A total over no lines is zero, whatever the tax rate.
total_minor-no_lines :
    (cur jur : Option String) (closed : Bool)
    → is_ok (
        total_minor
          (record { currency_code = cur; jurisdiction_id = jur; finalized = closed; lines = [] }))
      ≡ true
unfolding total_minor tax_minor subtotal_minor add_line_totals tax_rate_bps try_i64
total_minor-no_lines cur jur closed = ground arith

create-IsValid :
    (s : QuoteState) (cur jur : String)
    → IsValid s
    → is_created s ≡ false
    → is_blank cur ≡ false
    → is_blank jur ≡ false
    → IsValid (record {
      currency_code = some cur;
      jurisdiction_id = some jur;
      finalized = s.finalized;
      lines = [];
    })
create-IsValid s cur jur v missing named_cur named_jur = record {
  untouched = λ gone. cc gone;
  named = λ _. (named_cur, named_jur);
  lines = tt;
  distinct = tt;
  closed_with_lines = λ closed. cc (closed, (v.untouched missing).1);
  priced = total_minor-no_lines (some cur) (some jur) s.finalized;
}

-- On a valid state, the event of an accepted command is reduced to a state that is valid again.
pub accepted-IsValid :
    (s : QuoteState) (command : DomainCommand) {events : List DomainEvent}
    → IsValid s
    → command_to_events s command ≡ ok events
    → (s' : QuoteState) × (reduce s (event_of command) ≡ ok s') × IsValid s'
unfolding event_of
accepted-IsValid s (create_quote cur jur) v h =
    let (missing, named_cur, named_jur) = create_guards s cur jur h in
    (_, create_reduces s cur jur h, create-IsValid s cur jur v missing named_cur named_jur)
accepted-IsValid s (add_line_item id sku desc q u) v h = (
  _,
  add_reduces s id sku desc q u h,
  push-IsValid s (new_line id sku desc q u) v (add_line_valid s id sku desc q u h)
      (add_fresh s id sku desc q u h) (add_priced s id sku desc q u h),
)
accepted-IsValid s finalize_quote v h =
    let (created, still_open, some_line) = finalize_guards s h in
    (_, finalize_reduces s h, finalize-IsValid s v created some_line)
