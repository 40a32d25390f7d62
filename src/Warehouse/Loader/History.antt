-- ===== src/Warehouse/Loader/History.antt =====
-- The observations before and behind a load of warehouse/loader/batch_loader.py.
use agentic_data_engineering.Warehouse.Rows.{Values, LoadError, SilverRow, MappedRow, map_rows}
use agentic_data_engineering.Warehouse.Database.{ObservationRow}
use agentic_data_engineering.Warehouse.Upserts.{
  Server, Connection, execute, upsert_sources, upsert_products, upsert_source_products,
  insert_observations,
}
use agentic_data_engineering.Warehouse.Upserts.Growth.{
  one_each, Follows, Follows-refl, Follows-trans, bind-Follows,
}
use agentic_data_engineering.Warehouse.Upserts.Safe.{
  IsSafe, execute-IsSafe, upsert_sources-IsSafe, upsert_products-IsSafe,
  upsert_source_products-IsSafe, insert_observations-IsSafe,
}
use agentic_data_engineering.Warehouse.Loader.{
  LoadResult, Job, add_sources, add_products, add_source_products, add_observations, counting,
  load_mapped, rollback, end_batch, load_batch, count_batch, process_batches, process_dataframe,
  load_frame,
}
use agentic_data_engineering.Base.{
  ℕ, zero, suc, ◌≡◌, refl, inl, inr, true, List, [], ◌∷◌, ◌++◌, Bool-cases, length, drop, take,
}
use agentic_data_engineering.Base.Equality.{◌==◌, nat_eq}
use agentic_data_engineering.Base.Exec.{Result, ok, err, Exec, lift, ◌>>◌}

module _ (V : Values) (server : Server V) where
  abbrev observations : Job V server → List (ObservationRow V)
  observations j = j.connection.database.observations

  abbrev IsKept : {A : Type 0} → Exec (Job V server) LoadError A → Type 0
  IsKept m = (j : Job V server) → Follows V (observations j) (observations (m j).1)

  counting-IsKept :
      (m : Exec (Connection V) LoadError ℕ) (add : ℕ → LoadResult → LoadResult)
      → IsSafe V server m
      → IsKept (counting V server m add)
  unfolding counting
  counting-IsKept m add h j = h j.connection

  then-IsKept :
      {A : Type 0} (m n : Exec (Job V server) LoadError A) → IsKept m → IsKept n → IsKept (m >> n)
  then-IsKept m n hm hn = bind-Follows V observations m (λ a. n) hm (λ a. hn)

  load_mapped-IsKept : (rows : List (MappedRow V)) → IsKept (load_mapped V server rows)
  unfolding load_mapped
  load_mapped-IsKept rows =
      let sources = counting V server (upsert_sources V server rows) add_sources in
      let products = counting V server (upsert_products V server rows) add_products in
      let source_products =
        counting V server (upsert_source_products V server rows) add_source_products in
      let observed = counting V server (insert_observations V server rows) add_observations in
      let commit = counting V server (execute V server (λ d. (0, d))) (λ n r. r) in
      then-IsKept (sources >> products >> source_products >> observed) commit
        (then-IsKept (sources >> products >> source_products) observed
          (then-IsKept (sources >> products) source_products
            (then-IsKept sources products
              (counting-IsKept (upsert_sources V server rows) add_sources
                (upsert_sources-IsSafe V server rows))
              (counting-IsKept (upsert_products V server rows) add_products
                (upsert_products-IsSafe V server rows)))
            (counting-IsKept (upsert_source_products V server rows) add_source_products
              (upsert_source_products-IsSafe V server rows)))
          (counting-IsKept (insert_observations V server rows) add_observations
            (insert_observations-IsSafe V server rows)))
        (counting-IsKept (execute V server (λ d. (0, d))) (λ n r. r)
          (execute-IsSafe V server (λ d. (0, d)) (λ d. Follows-refl V _ _ refl)))

  end_batch-Follows :
      (j : Job V server) (x : Result LoadError Unit × Job V server)
      → Follows V (observations j) (observations x.1)
      → Follows V (observations j) (observations (end_batch V server j x).1)
  unfolding end_batch rollback
  end_batch-Follows j (ok done, k) h = h
  end_batch-Follows j (err e, k) h = Follows-refl V _ _ refl

  lift-IsKept : {A : Type 0} (r : Result LoadError A) → IsKept (lift r)
  lift-IsKept r j = Follows-refl V _ _ refl

  load_batch-IsKept : (rows : List (SilverRow V)) → IsKept (load_batch V server rows)
  unfolding load_batch
  load_batch-IsKept rows j = end_batch-Follows j _ (
      bind-Follows V observations (lift (map_rows V rows)) (λ mapped. load_mapped V server mapped)
        (lift-IsKept (map_rows V rows)) (λ mapped. load_mapped-IsKept mapped) j)

  count_batch-same :
      (batch : List (SilverRow V)) (x : Result LoadError Unit × Job V server)
      → observations (count_batch V server batch x).1 ≡ observations x.1
  unfolding count_batch
  count_batch-same batch (ok done, k) = refl
  count_batch-same batch (err e, k) = refl

  batch-IsKept :
      (batch : List (SilverRow V))
      → IsKept (λ j. count_batch V server batch (load_batch V server batch j))
  batch-IsKept batch j =
      Follows-trans V (observations j) (observations (load_batch V server batch j).1) _
        (load_batch-IsKept batch j)
        (Follows-refl V _ _ (count_batch-same batch (load_batch V server batch j)))

  module _ (batch_size : ℕ) where
    process_batches-IsKept :
        (rounds : ℕ) (rows : List (SilverRow V))
        → IsKept (process_batches V server batch_size rounds rows)
    unfolding process_batches
    process_batches-IsKept rounds [] j = Follows-refl V _ _ refl
    process_batches-IsKept zero (row ∷ rows) j = Follows-refl V _ _ refl
    process_batches-IsKept (suc rounds) (row ∷ rows) j =
        let batch = take batch_size (row ∷ rows) in
        bind-Follows V observations (λ j. count_batch V server batch (load_batch V server batch j))
          (λ done. process_batches V server batch_size rounds (drop batch_size (row ∷ rows)))
          (batch-IsKept batch)
          (λ done. process_batches-IsKept rounds (drop batch_size (row ∷ rows))) j

    process_dataframe-IsKept :
        (rows : List (SilverRow V)) → IsKept (process_dataframe V server batch_size rows)
    unfolding process_dataframe
    process_dataframe-IsKept rows j = elim (Bool-cases (batch_size == 0)) [
      | inl e ↦ rw e (Follows-refl V (observations j) (observations j) refl)
      | inr e ↦ rw e (process_batches-IsKept (length rows) rows j)
    ]

    load_frame-IsKept : (rows : List (SilverRow V)) → IsKept (load_frame V server batch_size rows)
    unfolding load_frame
    load_frame-IsKept [] j = Follows-refl V (observations j) (observations j) refl
    load_frame-IsKept (row ∷ rows) j =
        let first = record j { result = record j.result { rows_read = length (row ∷ rows) } } in
        noted (process_dataframe V server batch_size (row ∷ rows) first)
          (process_dataframe-IsKept (row ∷ rows) first)
      where
        noted :
            (x : Result LoadError Unit × Job V server)
            → Follows V (observations j) (observations x.1)
            → Follows V (observations j) (
                observations (elim x.0 as (λ y. Job V server) [
                  | ok done ↦ x.1
                  | err e ↦ record x.1 {
                    result = record x.1.result { errors = x.1.result.errors ++ e ∷ [] };
                  }
                ]))
        noted (ok done, k) h = h
        noted (err e, k) h = h

    -- Whatever rows are loaded, whatever the batch size is and whatever statements the database refuses,
    -- the observations that were there are there behind the load, unchanged and in their order, and the
    -- load only adds new ones behind them.
    pub load_frame_appends :
        (rows : List (SilverRow V)) (j : Job V server)
        → ((new : List (ObservationRow V)) × (observations (load_frame V server batch_size rows j).1
              ≡ observations j ++ new))
    load_frame_appends rows j = (load_frame-IsKept rows j).0

    -- Whatever rows are loaded, whatever the batch size is and whatever statements the database refuses: when
    -- no two observations have one event id, no two have one behind the load either.
    pub load_frame-one_each :
        (rows : List (SilverRow V)) (j : Job V server)
        → one_each V (observations j) ≡ true
        → one_each V (observations (load_frame V server batch_size rows j).1) ≡ true
    load_frame-one_each rows j h = (load_frame-IsKept rows j).1 h
