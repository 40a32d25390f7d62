-- ===== src/Lake/Writer/Files.antt =====
-- The files that the writers make of events.
use agentic_data_engineering.Processor.Columns.{Polars}
use agentic_data_engineering.Processor.Events.{Event}
use agentic_data_engineering.Lake.PartitionKey.{LakeLayer, bronze, silver}
use agentic_data_engineering.Lake.Storage.{S3}
use agentic_data_engineering.Lake.Schema.{
  bronze_schema, silver_schema, validate_row_against_schema, schema_fields, row_errors,
  missing_errors, value_errors, check_type_compatible, is_none, is_str,
}
use agentic_data_engineering.Lake.Writer.{
  price_value, Formats, layer_schema, event_to_row, event_key,
}
use agentic_data_engineering.Base.{
  String, ◌≡◌, refl, sym, ◌∙◌, inl, inr, Bool, true, false, ◌||◌, Option, none, some, List, [], ◌∷◌,
  arith, Bool-cases,
}
use agentic_data_engineering.Base.Equality.{◌==◌, nat_eq, string_eq, option_eq}
use agentic_data_engineering.Base.Dict.{Dict, get, put, get-put}

module _ (P : Polars) (s3 : S3) (F : Formats P s3.Bytes) (layer : LakeLayer) where
  open s3 use {Bytes, State, contents}
  open F use {parquet_of_row}

  -- The row of every event fits the schema of each layer.
  pub event_to_row_valid :
      (l : LakeLayer) (event : Event P)
      → validate_row_against_schema (event_to_row P s3 F layer event) (layer_schema l) ≡ []
  unfolding event_to_row price_value validate_row_against_schema schema_fields row_errors
      missing_errors value_errors check_type_compatible is_none is_str layer_schema bronze_schema
      silver_schema get put
  event_to_row_valid l event = by_price l event.payload.price
    where
      by_price :
          (l : LakeLayer) (price : Option P.Decimal)
          → validate_row_against_schema
              (event_to_row P s3 F layer
                (record event { payload = record event.payload { price = price } }))
              (layer_schema l)
            ≡ []
      by_price bronze none = refl
      by_price bronze (some price) = refl
      by_price silver none = refl
      by_price silver (some price) = refl

  abbrev pub file : Event P → Bytes
  file event = parquet_of_row (event_to_row P s3 F layer event)

  -- A bucket with the files of the events put in, one after the other.
  unfoldable pub put_all : List (Event P) → Dict String Bytes → Dict String Bytes
  unfolding put
  put_all [] d = d
  put_all (event ∷ events) d = put_all events (put (event_key P s3 F layer event) (file event) d)

  -- some file has the key
  overwritten : String → List (Event P) → Bool
  overwritten k [] = false
  overwritten k (event ∷ events) = event_key P s3 F layer event == k || overwritten k events

  get-put_all_other :
      (k : String) (events : List (Event P)) (d : Dict String Bytes)
      → overwritten k events ≡ false
      → get k (put_all events d) ≡ get k d
  unfolding put_all overwritten
  get-put_all_other k [] d h = refl
  get-put_all_other k (event ∷ events) d h =
      get-put_all_other k events _ (ground arith)
      ∙ ground (arith, get-put (event_key P s3 F layer event) k (file event) d)

  get-put_all_same :
      (k : String) (events : List (Event P)) (d e : Dict String Bytes)
      → overwritten k events ≡ true
      → get k (put_all events d) ≡ get k (put_all events e)
  unfolding put_all overwritten
  get-put_all_same k [] d e h = absurd (ground arith)
  get-put_all_same k (event ∷ events) d e h = elim (Bool-cases (overwritten k events)) [
    | inl later ↦ get-put_all_same k events _ _ later
    | inr last ↦
        get-put_all_other k events _ last
        ∙ ground (
          arith,
          get-put (event_key P s3 F layer event) k (file event) d,
          get-put (event_key P s3 F layer event) k (file event) e,
        )
        ∙ sym (get-put_all_other k events _ last)
  ]

  -- The files of events that are there already change no file when they are put in again.
  pub put_all_again :
      (k : String) (events : List (Event P)) (d : Dict String Bytes)
      → get k (put_all events (put_all events d)) ≡ get k (put_all events d)
  put_all_again k events d = elim (Bool-cases (overwritten k events)) [
    | inl e ↦ get-put_all_same k events _ _ e
    | inr e ↦ get-put_all_other k events _ e
  ]
