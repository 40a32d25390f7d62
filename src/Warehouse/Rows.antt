-- ===== src/Warehouse/Rows.antt =====
-- warehouse/loader/models.py, and `_map_row` of warehouse/loader/batch_loader.py.
use agentic_data_engineering.Marketplace.Identity.{is_empty}
use agentic_data_engineering.Base.{String, Option, none, some, List, [], ◌∷◌, if◌then◌else◌}
use agentic_data_engineering.Base.Equality.{Eq, nat_eq, string_eq, option_eq}
use agentic_data_engineering.Base.Exec.{Result, ok, err}

-- What the loader takes from Python: decimals and times, how they are read from a text, and `==`.
pub record Values : Type 1 where
  pub Decimal : Type 0
  pub Time : Type 0
  pub decimal_eq : Eq Decimal
  pub time_eq : Eq Time
  pub parse_decimal : String → Option Decimal
  pub fromisoformat : String → Option Time

-- the exceptions of a load
pub data LoadError : Type 0 where
  missing_required_field : String → LoadError
  invalid_price invalid_time : String → LoadError
  conflicting_observation : String → LoadError
  database_error bad_batch_size : LoadError

module _ (V : Values) where
  open V use {Decimal, Time, parse_decimal, fromisoformat}

  -- `collected_at` as a text, or as a time already
  pub data Stamp : Type 0 where
    text : String → Stamp
    time : Time → Stamp

  -- a row of a Silver file; a missing key is a null
  pub record SilverRow : Type 0 where
    pub source : Option String
    pub external_id : Option String
    pub availability : Option String
    pub collected_at : Option Stamp
    pub event_id : Option String
    pub price : Option String
    pub name : Option String
    pub category : Option String
    pub url : Option String
    pub currency : Option String

  -- `MappedRow` with its four records, which `_map_row` always fills; the ids that it leaves for later
  -- are left out
  pub record MappedRow : Type 0 where
    pub source_name : String
    pub canonical_name : Option String
    pub category : Option String
    pub external_id : String
    pub url : Option String
    pub availability : String
    pub collected_at : Time
    pub event_id : String
    pub price : Option Decimal
    pub currency : Option String

  -- a field that is there and not empty, or the `ValueError`
  unfoldable pub required : String → Option String → Result LoadError String
  unfolding is_empty
  required field none = err (missing_required_field field)
  required field (some value) =
      if is_empty value then err (missing_required_field field) else ok value

  unfoldable pub required_stamp : Option Stamp → Result LoadError Stamp
  unfolding is_empty
  required_stamp none = err (missing_required_field "collected_at")
  required_stamp (some (text s)) =
      if is_empty s then err (missing_required_field "collected_at") else ok (text s)
  required_stamp (some (time t)) = ok (time t)

  or_invalid : {A : Type 0} → LoadError → Option A → Result LoadError A
  or_invalid e none = err e
  or_invalid e (some a) = ok a

  unfoldable pub read_price : Option String → Result LoadError (Option Decimal)
  unfolding is_empty
  read_price none = ok none
  read_price (some s) =
      if is_empty s
      then ok none
      else elim (parse_decimal s) [ none ↦ err (invalid_price s) | some d ↦ ok (some d) ]

  unfoldable pub read_time : Stamp → Result LoadError Time
  unfolding or_invalid
  read_time (text s) = or_invalid (invalid_time s) (fromisoformat s)
  read_time (time t) = ok t

  unfoldable pub then_do :
      {A B : Type 0} → Result LoadError A → (A → Result LoadError B) → Result LoadError B
  then_do (ok a) f = f a
  then_do (err e) f = err e

  -- `_map_row`: the fields are tested in the order of the source
  unfoldable pub map_row : SilverRow → Result LoadError MappedRow
  unfolding required required_stamp read_price read_time then_do
  map_row row = then_do (required "source" row.source) λ source_name.
      then_do (required "external_id" row.external_id) λ external_id.
        then_do (required "availability" row.availability) λ availability.
          then_do (required_stamp row.collected_at) λ stamp.
            then_do (required "event_id" row.event_id) λ event_id.
              then_do (read_price row.price) λ price. then_do (read_time stamp) λ collected_at.
                ok (record {
                  source_name = source_name;
                  canonical_name = row.name;
                  category = row.category;
                  external_id = external_id;
                  url = row.url;
                  availability = availability;
                  collected_at = collected_at;
                  event_id = event_id;
                  price = price;
                  currency = row.currency;
                })

  unfoldable pub map_rows : List SilverRow → Result LoadError (List MappedRow)
  unfolding map_row then_do
  map_rows [] = ok []
  map_rows (row ∷ rows) =
      let rest = map_rows rows in
      then_do (map_row row) λ mapped. then_do rest λ others. ok (mapped ∷ others)
