-- ===== src/Lake/Writer.antt =====
-- libs/raw_writer/bronze_writer.py and libs/lake_writer/silver_writer.py: events become files. The two
-- differ in the layer and its schema only.
pub mod Files
pub mod Writes
use agentic_data_engineering.Processor.Columns.{Polars}
use agentic_data_engineering.Processor.Events.{Event}
use agentic_data_engineering.Processor.Validation.{availability_value}
use agentic_data_engineering.Lake.PartitionKey.{LakeLayer, bronze, silver, build_partition_key}
use agentic_data_engineering.Lake.Storage.{S3, StorageError, Storage, put_object}
use agentic_data_engineering.Lake.Schema.{
  PyValue, none_value, str_value, Field, SchemaError, bronze_schema, silver_schema,
  validate_row_against_schema,
}
use agentic_data_engineering.Base.{
  ℕ, zero, suc, ◌+◌, ◌-◌, ◌*◌, ◌≤◌, ◌<◌, min, String, ◌≡◌, refl, sym, ap, ◌∙◌, ◌≢◌, ◌↔◌, ◌⊎◌, inl,
  inr, Bool, true, false, not, ◌&&◌, ◌||◌, Option, none, some, List, [], ◌∷◌, ◌++◌, map, append-nil,
  append_assoc, arith, ltb, leb, ==_iff, if◌then◌else◌, Bool-cases, Option-cases, is_some, length,
  drop, take, select, exists, count_if, length-append, length-drop, length-select, All, All-append,
  All_map_of,
}
use agentic_data_engineering.Base.Equality.{
  Eq, ◌==◌, nat_eq, string_eq, option_eq, beq_refl, beq-eq, beq_false, beq_sym, beq_cases,
}
use agentic_data_engineering.Base.Dict.{Dict, get, put, remove, get-put, get-remove, dict_laws}
use agentic_data_engineering.Base.Exec.{
  Result, ok, err, Exec, map_err, pure, raise, gets, lift, modify, continue, ◌>>=◌, ◌>>◌,
}

-- What the writers take from Python and polars: how a version, a price and a time are written, the
-- parts of a date, and the Parquet file of one row.
pub record Formats (P : Polars) (Bytes : Type 0) : Type 0 where
  pub str_version : ℕ → String
  pub str_price : P.Decimal → String
  pub isoformat : P.Time → String
  pub year : P.Time → String
  pub month : P.Time → String
  pub day : P.Time → String
  pub parquet_of_row : Dict String PyValue → Bytes

-- a failed write: the `ValueError` of a row that does not fit the schema, or the storage's error
pub data WriteError : Type 0 where
  schema_violations : List SchemaError → WriteError
  write_failed : StorageError → WriteError
  flush_failed : ℕ → List String → WriteError

unfoldable pub layer_schema : LakeLayer → List Field
unfolding bronze_schema silver_schema
layer_schema bronze = bronze_schema
layer_schema silver = silver_schema

module _ (P : Polars) (s3 : S3) (F : Formats P s3.Bytes) (layer : LakeLayer) where
  open F use {str_version, str_price, isoformat, year, month, day, parquet_of_row}

  unfoldable pub price_value : Option P.Decimal → PyValue
  price_value none = none_value
  price_value (some price) = str_value (str_price price)

  -- `event_to_row` and `validated_event_to_row`
  unfoldable pub event_to_row : Event P → Dict String PyValue
  unfolding availability_value price_value
  event_to_row event =
      ("event_id", str_value event.event_id)
      ∷ ("event_type", str_value event.event_type)
      ∷ ("schema_version", str_value (str_version event.schema_version))
      ∷ ("source", str_value event.source)
      ∷ ("produced_at", str_value (isoformat event.produced_at))
      ∷ ("external_id", str_value event.payload.external_id)
      ∷ ("name", str_value event.payload.name)
      ∷ ("url", str_value event.payload.url)
      ∷ ("price", price_value event.payload.price)
      ∷ ("currency", str_value event.payload.currency)
      ∷ ("availability", str_value (availability_value event.payload.availability))
      ∷ ("category", str_value event.payload.category)
      ∷ ("collected_at", str_value (isoformat event.payload.collected_at))
      ∷ []

  unfoldable pub event_key : Event P → String
  unfolding build_partition_key
  event_key event =
      build_partition_key
        (record {
          source = event.source;
          event_id = event.event_id;
          year = year event.payload.collected_at;
          month = month event.payload.collected_at;
          day = day event.payload.collected_at;
        })
        layer

  -- `BronzeBatch` and `SilverBatch`
  pub record Batch : Type 0 where
    pub events : List (Event P)
    pub max_size : ℕ

  -- `BronzeWriter` and `SilverWriter`
  pub record Writer : Type 0 where
    pub storage : Storage s3
    pub batch : Batch

  unfoldable pub add : Event P → Batch → Bool × Batch
  add event b =
      let events = b.events ++ event ∷ [] in
      (leb b.max_size (length events), record b { events = events })

  unfoldable pub clear : Batch → Batch
  clear b = record b { events = [] }

  unfoldable pub add_event : Event P → Writer → Bool × Writer
  unfolding add
  add_event event w = let (full, b) = add event w.batch in (full, record w { batch = b })

  -- behind the check of the row
  unfoldable pub upload : Event P → List SchemaError → Exec (Storage s3) WriteError Unit
  unfolding event_to_row event_key put_object
  upload event (v ∷ violations) s = (err (schema_violations (v ∷ violations)), s)
  upload event [] s =
      let (r, t) = put_object s3 (event_key event) (parquet_of_row (event_to_row event)) s in
      (map_err write_failed r, t)

  unfoldable pub write_single : Event P → Exec (Storage s3) WriteError Unit
  unfolding event_to_row layer_schema validate_row_against_schema upload
  write_single event =
      upload event (validate_row_against_schema (event_to_row event) (layer_schema layer))

  unfoldable pub write_event : Event P → Exec Writer WriteError Unit
  unfolding write_single
  write_event event w =
      let (r, storage) = write_single event w.storage in (r, record w { storage = storage })

  -- what an iteration of `flush_batch` does with the outcome of a write: a `StorageError` is noted, and
  -- another exception leaves the loop
  unfoldable pub note_failure :
      Event P → List String → Result WriteError Unit → Result WriteError (List String)
  note_failure event errors (ok done) = ok errors
  note_failure event errors (err (write_failed e)) = ok (errors ++ event.event_id ∷ [])
  note_failure event errors (err e) = err e

  -- the loop of `flush_batch`, with the event ids of the writes that failed
  unfoldable pub write_all :
      List (Event P) → List String → Exec (Storage s3) WriteError (List String)
  unfolding write_single note_failure
  write_all [] errors s = (ok errors, s)
  write_all (event ∷ events) errors s =
      let (r, t) = write_single event s in
      continue (note_failure event errors r) (λ noted. write_all events noted) t

  -- behind the loop
  unfoldable pub raise_failures : List String → Result WriteError Unit
  raise_failures [] = ok tt
  raise_failures (id ∷ ids) = err (flush_failed (length (id ∷ ids)) (take 5 (id ∷ ids)))

  unfoldable pub settle_flush :
      Writer → Result WriteError (List String) × Storage s3 → Result WriteError Unit × Writer
  unfolding raise_failures clear
  settle_flush w (err e, storage) = (err e, record w { storage = storage })
  settle_flush w (ok errors, storage) =
      (raise_failures errors, record w { storage = storage; batch = clear w.batch })

  unfoldable pub flush_batch : Exec Writer WriteError Unit
  unfolding write_all settle_flush
  flush_batch w = elim w.batch.events [
    | [] ↦ (ok tt, w)
    | event ∷ events ↦ settle_flush w (write_all (event ∷ events) [] w.storage)
  ]
