-- ===== src/Processor/Events.antt =====
-- libs/event_contracts/product_observation.py (the events), services/processor/polars_transform.py
-- and services/processor/schema_normalization.py (their rows).
use mathlib.Core.Option
use agentic_data_engineering.Processor.Columns.{Polars, Row}
use agentic_data_engineering.Base.Texts.{append}
use agentic_data_engineering.Processor.Validation.{Availability, availability_value}
use agentic_data_engineering.Base.{ℕ, String, Option, none, some, List, [], ◌∷◌, if◌then◌else◌}
use agentic_data_engineering.Base.Equality.{nat_eq, string_eq, option_eq}

module _ (P : Polars) where
  open P use {Decimal, Price, Time, takes_prices, to_float, strip_chars, to_lowercase}

  pub record Payload : Type 0 where
    pub external_id : String
    pub name : String
    pub url : String
    pub price : Option Decimal
    pub currency : String
    pub availability : Availability
    pub category : String
    pub listing_id : Option String
    pub seller_id : Option String
    pub collected_at : Time

  pub record Event : Type 0 where
    pub event_id : String
    pub event_type : String
    pub schema_version : ℕ
    pub source : String
    pub produced_at : Time
    pub payload : Payload

  -- `partition_key`
  unfoldable pub partition_key : Event → String
  unfolding append
  partition_key e = append e.source (append ":" e.payload.external_id)

  unfoldable pub event_to_row : Event → Row P
  unfolding availability_value
  event_to_row e = record {
    event_id = some e.event_id;
    event_type = some e.event_type;
    schema_version = some e.schema_version;
    source = some e.source;
    produced_at = some e.produced_at;
    external_id = some e.payload.external_id;
    name = some e.payload.name;
    url = some e.payload.url;
    price = Option.map to_float e.payload.price;
    currency = some e.payload.currency;
    availability = some (availability_value e.payload.availability);
    category = some e.payload.category;
    collected_at = some e.payload.collected_at;
  }

  -- `[_event_to_row(event) for event in events]`
  unfoldable pub event_rows : List Event → List (Row P)
  unfolding event_to_row
  event_rows [] = []
  event_rows (e ∷ es) = event_to_row e ∷ event_rows es

  unfoldable pub prices : List (Row P) → List (Option Price)
  prices [] = []
  prices (r ∷ df) = r.price ∷ prices df

  -- nothing where `from_dicts` raises; without events the frame is made without it
  unfoldable pub events_to_polars : List Event → Option (List (Row P))
  unfolding event_rows prices
  events_to_polars [] = some []
  events_to_polars (e ∷ es) =
      let df = event_rows (e ∷ es) in if takes_prices (prices df) then some df else none

  -- The columns of `events_to_polars` have their types already, so that the casts of `normalize`
  -- keep every value; what is left is the stripping and the lower case.
  unfoldable pub normalize_row : Row P → Row P
  normalize_row r = record r {
    name = Option.map strip_chars r.name;
    category = Option.map strip_chars r.category;
    currency = Option.map strip_chars r.currency;
    source = Option.map strip_chars r.source;
    event_type = Option.map strip_chars r.event_type;
    availability = Option.map (λ a. to_lowercase (strip_chars a)) r.availability;
  }

  unfoldable pub normalize : List (Row P) → List (Row P)
  unfolding normalize_row
  normalize [] = []
  normalize (r ∷ df) = normalize_row r ∷ normalize df
