-- ===== src/Warehouse/Loader.antt =====
-- warehouse/loader/batch_loader.py: `WarehouseLoader`, from the rows that were read to the committed batches.
pub mod Counts
pub mod History
use agentic_data_engineering.Marketplace.Identity.{is_empty}
use agentic_data_engineering.Warehouse.Rows.{
  Values, LoadError, conflicting_observation, database_error, bad_batch_size, SilverRow, MappedRow,
  map_rows,
}
use agentic_data_engineering.Warehouse.Database.{
  SourceRow, ObservationRow, Database, insert_source, insert_product, insert_source_product,
  insert_observation, count_sources, source_id_of, product_id_of, source_product_id_of,
}
use agentic_data_engineering.Warehouse.Upserts.{
  Server, Connection, execute, upsert_sources, upsert_products, upsert_source_products,
  insert_observations,
}
use agentic_data_engineering.Base.{
  ℕ, zero, suc, ◌+◌, ◌-◌, ◌*◌, ◌≤◌, ◌<◌, min, String, ◌≡◌, refl, sym, ap, ◌∙◌, ◌≢◌, ◌↔◌, ◌⊎◌, inl,
  inr, Bool, true, false, not, ◌&&◌, ◌||◌, Option, none, some, List, [], ◌∷◌, ◌++◌, map, append-nil,
  append_assoc, arith, ltb, leb, ==_iff, if◌then◌else◌, Bool-cases, Option-cases, is_some, length,
  drop, take, select, exists, count_if, length-append, length-drop, length-select, All, All-append,
  All_map_of,
}
use agentic_data_engineering.Base.Equality.{
  Eq, ◌==◌, nat_eq, string_eq, option_eq, beq_refl, beq-eq, beq_false, beq_sym, beq_cases,
}
use agentic_data_engineering.Base.Dict.{Dict, get, put, remove, get-put, get-remove, dict_laws}
use agentic_data_engineering.Base.Exec.{
  Result, ok, err, Exec, map_ok, pure, raise, gets, lift, modify, continue, ◌>>=◌, ◌>>◌,
}

-- `LoadResult`, without its times
pub record LoadResult : Type 0 where
  pub rows_read : ℕ
  pub rows_loaded : ℕ
  pub rows_failed : ℕ
  pub sources_created : ℕ
  pub products_created : ℕ
  pub source_products_created : ℕ
  pub observations_created : ℕ
  pub errors : List LoadError

-- `result.<field> += n`
abbrev pub add_sources : ℕ → LoadResult → LoadResult
add_sources n r = record r { sources_created = r.sources_created + n }

abbrev pub add_products : ℕ → LoadResult → LoadResult
add_products n r = record r { products_created = r.products_created + n }

abbrev pub add_source_products : ℕ → LoadResult → LoadResult
add_source_products n r = record r { source_products_created = r.source_products_created + n }

abbrev pub add_observations : ℕ → LoadResult → LoadResult
add_observations n r = record r { observations_created = r.observations_created + n }

module _ (V : Values) where
  module _ (server : Server V) where
    -- the database's tables and the result that is filled
    pub record Job : Type 0 where
      pub connection : Connection V
      pub result : LoadResult

    unfoldable pub counting :
        Exec (Connection V) LoadError ℕ → (ℕ → LoadResult → LoadResult) → Exec Job LoadError Unit
    counting m add j =
        let (r, c) = m j.connection in
        (
          map_ok (λ n. tt) r,
          record j { connection = c; result = elim r [ ok n ↦ add n j.result | err e ↦ j.result ] },
        )

    unfoldable pub load_mapped : List (MappedRow V) → Exec Job LoadError Unit
    unfolding counting upsert_sources upsert_products upsert_source_products insert_observations
        execute
    load_mapped rows =
        counting (upsert_sources V server rows) add_sources
        >> counting (upsert_products V server rows) add_products
        >> counting (upsert_source_products V server rows) add_source_products
        >> counting (insert_observations V server rows) add_observations
        >> counting (execute V server (λ d. (0, d))) (λ n r. r)

    -- a rollback gives the tables back, and no serial number
    unfoldable pub rollback : Database V → Connection V → Connection V
    rollback before c = record c { database = record before { serials = c.database.serials } }

    unfoldable pub end_batch : Job → Result LoadError Unit × Job → Result LoadError Unit × Job
    unfolding rollback
    end_batch before (ok done, j) = (ok done, j)
    end_batch before (err e, j) =
        (err e, record j { connection = rollback before.connection.database j.connection })

    unfoldable pub load_batch : List (SilverRow V) → Exec Job LoadError Unit
    unfolding map_rows load_mapped end_batch
    load_batch rows j = end_batch j ((lift (map_rows V rows) >>= λ mapped. load_mapped mapped) j)

    unfoldable pub count_batch :
        List (SilverRow V) → Result LoadError Unit × Job → Result LoadError Unit × Job
    count_batch batch (ok done, j) = (
      ok done,
      record j { result = record j.result { rows_loaded = j.result.rows_loaded + length batch } },
    )
    count_batch batch (err e, j) = (
      err e,
      record j {
        result = record j.result {
          rows_failed = j.result.rows_failed + length batch;
          errors = j.result.errors ++ e ∷ [];
        };
      },
    )

    module _ (batch_size : ℕ) where
      -- the loop over the batches, for at most so many
      unfoldable pub process_batches : ℕ → List (SilverRow V) → Exec Job LoadError Unit
      unfolding load_batch count_batch
      process_batches rounds [] j = (ok tt, j)
      process_batches zero (row ∷ rows) j = (ok tt, j)
      process_batches (suc rounds) (row ∷ rows) j =
          let batch = take batch_size (row ∷ rows) in
          let (r, k) = count_batch batch (load_batch batch j) in
          continue r (λ done. process_batches rounds (drop batch_size (row ∷ rows))) k

      -- `_process_dataframe`: `range` refuses a step of 0, and each batch has a row
      unfoldable pub process_dataframe : List (SilverRow V) → Exec Job LoadError Unit
      unfolding process_batches
      process_dataframe rows =
          if batch_size == 0 then raise bad_batch_size else process_batches (length rows) rows

      -- `load_from_lake`, behind the reading of the files: without rows it returns before the batches
      unfoldable pub load_frame : List (SilverRow V) → Exec Job LoadError Unit
      unfolding process_dataframe
      load_frame [] j = (ok tt, record j { result = record j.result { rows_read = 0 } })
      load_frame (row ∷ rows) j =
          let (r, k) =
            process_dataframe (row ∷ rows)
              (record j { result = record j.result { rows_read = length (row ∷ rows) } }) in
          (
            r,
            elim r [
              | ok done ↦ k
              | err e ↦ record k { result = record k.result { errors = k.result.errors ++ e ∷ [] } }
            ],
          )
