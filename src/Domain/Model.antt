-- ===== src/Domain/Model.antt =====
-- The data of src/domain/model.rs and src/domain/error.rs: quote state, events, commands, errors.
-- Texts are native; an `i64` is an integer ℤ.
use quote_ledger.Common.{String, Bool, true, false, Option, none, some, List, []}
use quote_ledger.Common.Int.{ℤ}

pub data DomainError : Type 0 where
  quote_already_created duplicate_create_quote : DomainError
  invalid_field : String → DomainError
  quote_not_created quote_already_finalized duplicate_line_id : DomainError
  invalid_quantity invalid_unit_minor integer_overflow : DomainError
  cannot_finalize_without_lines : DomainError

pub record LineItemState : Type 0 where
  pub line_id : String
  pub sku : String
  pub description : String
  pub quantity : ℤ
  pub unit_minor : ℤ

-- The struct literal of a line, which the source writes out at each use.
abbrev pub new_line : String → String → String → ℤ → ℤ → LineItemState
new_line line_id sku description quantity unit_minor = record {
  line_id = line_id;
  sku = sku;
  description = description;
  quantity = quantity;
  unit_minor = unit_minor;
}

pub record QuoteState : Type 0 where
  pub currency_code : Option String
  pub jurisdiction_id : Option String
  pub finalized : Bool
  pub lines : List LineItemState

-- `QuoteState::default()`
abbrev pub default_state : QuoteState
default_state = record {
  currency_code = none;
  jurisdiction_id = none;
  finalized = false;
  lines = [];
}

abbrev pub is_created : QuoteState → Bool
is_created state = elim state.currency_code [ none ↦ false | some _ ↦ true ]

-- `as_deref().unwrap_or("")`
abbrev pub or_blank : Option String → String
or_blank none = ""
or_blank (some s) = s

abbrev pub currency_code : QuoteState → String
currency_code state = or_blank state.currency_code

abbrev pub jurisdiction_id : QuoteState → String
jurisdiction_id state = or_blank state.jurisdiction_id

-- The fields of an event or command stand in the source's order.
pub data DomainEvent : Type 0 where
  quote_created : String → String → DomainEvent
  line_item_added : String → String → String → ℤ → ℤ → DomainEvent
  quote_finalized : DomainEvent

pub data DomainCommand : Type 0 where
  create_quote : String → String → DomainCommand
  add_line_item : String → String → String → ℤ → ℤ → DomainCommand
  finalize_quote : DomainCommand
