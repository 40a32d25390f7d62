-- ===== src/Warehouse/Loader/Counts.antt =====
-- The rows that a load of warehouse/loader/batch_loader.py counts.
use agentic_data_engineering.Warehouse.Rows.{Values, LoadError, SilverRow, MappedRow, map_rows}
use agentic_data_engineering.Warehouse.Upserts.{
  Server, Connection, execute, upsert_sources, upsert_products, upsert_source_products,
  insert_observations,
}
use agentic_data_engineering.Warehouse.Loader.{
  LoadResult, Job, add_sources, add_products, add_source_products, add_observations, counting,
  load_mapped, end_batch, load_batch, count_batch, process_batches, process_dataframe, load_frame,
}
use mathlib.Core.Path.{subst}
use agentic_data_engineering.Base.{
  ℕ, zero, suc, ◌+◌, ◌≤◌, ◌≡◌, refl, sym, ap, ◌∙◌, inl, inr, false, List, [], ◌∷◌, ◌++◌, arith,
  Bool-cases, length, drop, take, length-drop,
}
use agentic_data_engineering.Base.Equality.{◌==◌, nat_eq}
use agentic_data_engineering.Base.Exec.{
  Result, ok, err, Exec, bind_rule, lift, continue, ◌>>=◌, ◌>>◌,
}

parts_together :
    {A : Type 0} (n : ℕ) (xs : List A) → length (take n xs) + length (drop n xs) ≡ length xs
parts_together zero xs = omega arith
parts_together (suc n) [] = refl
parts_together (suc n) (x ∷ xs) = ground (arith, parts_together n xs)

module _ (V : Values) (server : Server V) where
  abbrev counts : Job V server → ℕ × ℕ
  counts j = (j.result.rows_loaded, j.result.rows_failed)

  -- a step that counts no rows
  abbrev IsQuiet : {A : Type 0} → Exec (Job V server) LoadError A → Type 0
  IsQuiet m = (j : Job V server) → counts (m j).1 ≡ counts j

  counting-IsQuiet :
      (m : Exec (Connection V) LoadError ℕ) (add : ℕ → LoadResult → LoadResult)
      → ((n : ℕ) (r : LoadResult) → (add n r).rows_loaded ≡ r.rows_loaded)
      → ((n : ℕ) (r : LoadResult) → (add n r).rows_failed ≡ r.rows_failed)
      → IsQuiet (counting V server m add)
  unfolding counting
  counting-IsQuiet m add h k j = by_answer (m j.connection)
    where
      by_answer :
          (x : Result LoadError ℕ × Connection V)
          → counts (record j {
            connection = x.1;
            result = elim x.0 as (λ y. LoadResult) [ ok n ↦ add n j.result | err e ↦ j.result ];
          })
            ≡ counts j
      by_answer (ok n, c) =
          ap (λ x. (x, (add n j.result).rows_failed)) (h n j.result)
          ∙ ap (λ x. (j.result.rows_loaded, x)) (k n j.result)
      by_answer (err e, c) = refl

  bind-IsQuiet :
      {A B : Type 0} (m : Exec (Job V server) LoadError A) (k : A → Exec (Job V server) LoadError B)
      → IsQuiet m
      → ((a : A) → IsQuiet (k a))
      → IsQuiet (m >>= k)
  bind-IsQuiet m k hm hk j =
      bind_rule m k j (λ x. counts x.1 ≡ counts j) (λ e t h. sym (ap (λ x. counts x.1) h) ∙ hm j)
        (λ a t h. hk a t ∙ sym (ap (λ x. counts x.1) h) ∙ hm j)

  load_mapped-IsQuiet : (rows : List (MappedRow V)) → IsQuiet (load_mapped V server rows)
  unfolding load_mapped
  load_mapped-IsQuiet rows =
      let sources = counting V server (upsert_sources V server rows) add_sources in
      let products = counting V server (upsert_products V server rows) add_products in
      let links = counting V server (upsert_source_products V server rows) add_source_products in
      let observed = counting V server (insert_observations V server rows) add_observations in
      let commit = counting V server (execute V server (λ d. (0, d))) (λ n r. r) in
      bind-IsQuiet (sources >> products >> links >> observed) (λ x. commit)
        (bind-IsQuiet (sources >> products >> links) (λ x. observed)
          (bind-IsQuiet (sources >> products) (λ x. links)
            (bind-IsQuiet sources (λ x. products)
              (quiet (upsert_sources V server rows) add_sources (λ n r. refl) (λ n r. refl))
              (λ x. quiet (upsert_products V server rows) add_products (λ n r. refl) (λ n r. refl)))
            (λ x.
              quiet (upsert_source_products V server rows) add_source_products (λ n r. refl)
                (λ n r. refl)))
          (λ x.
            quiet (insert_observations V server rows) add_observations (λ n r. refl) (λ n r. refl)))
        (λ x. quiet (execute V server (λ d. (0, d))) (λ n r. r) (λ n r. refl) (λ n r. refl))
    where
      quiet :
          (m : Exec (Connection V) LoadError ℕ) (add : ℕ → LoadResult → LoadResult)
          → ((n : ℕ) (r : LoadResult) → (add n r).rows_loaded ≡ r.rows_loaded)
          → ((n : ℕ) (r : LoadResult) → (add n r).rows_failed ≡ r.rows_failed)
          → IsQuiet (counting V server m add)
      quiet = counting-IsQuiet

  end_batch-quiet :
      (j : Job V server) (x : Result LoadError Unit × Job V server)
      → counts (end_batch V server j x).1 ≡ counts x.1
  unfolding end_batch
  end_batch-quiet j (ok done, k) = refl
  end_batch-quiet j (err e, k) = refl

  load_batch-IsQuiet : (rows : List (SilverRow V)) → IsQuiet (load_batch V server rows)
  unfolding load_batch
  load_batch-IsQuiet rows j =
      end_batch-quiet j _
      ∙ bind-IsQuiet (lift (map_rows V rows)) (λ mapped. load_mapped V server mapped) (λ j. refl)
          (λ mapped. load_mapped-IsQuiet mapped) j

  -- What has been counted of so many rows, of a load that came to its end or failed.
  unfoldable pub Counted : ℕ → Job V server → Result LoadError Unit × Job V server → Type 0
  Counted n j (ok done, k) =
      (k.result.rows_loaded ≡ j.result.rows_loaded + n)
      × (k.result.rows_failed ≡ j.result.rows_failed)
  Counted n j (err e, k) =
      k.result.rows_loaded + k.result.rows_failed ≤ j.result.rows_loaded + j.result.rows_failed + n

  Counted-later :
      (m n : ℕ) (j k : Job V server) (x : Result LoadError Unit × Job V server)
      → k.result.rows_loaded ≡ j.result.rows_loaded + m
      → k.result.rows_failed ≡ j.result.rows_failed
      → Counted n k x
      → Counted (m + n) j x
  unfolding Counted
  Counted-later m n j k (ok done, l) h g (a, b) = (omega arith, omega arith)
  Counted-later m n j k (err e, l) h g a = omega arith

  -- a batch and the rest of the loop
  batch-Counted :
      (batch : List (SilverRow V)) (n : ℕ) (next : Exec (Job V server) LoadError Unit)
      (j : Job V server)
      → ((k : Job V server) → Counted n k (next k))
      → (x : Result LoadError Unit × Job V server) → counts x.1 ≡ counts j
      → Counted (length batch + n) j (
          continue (count_batch V server batch x).0 (λ done. next) (count_batch V server batch x).1)
  unfolding count_batch Counted
  batch-Counted batch n next j h (err e, k) q =
      let a = ap (λ x. x.0) q in let b = ap (λ x. x.1) q in omega arith
  batch-Counted batch n next j h (ok done, k) q =
      let l = (count_batch V server batch (ok done, k)).1 in
      Counted-later (length batch) n j l (next l) (ap (λ x. x.0 + length batch) q) (ap (λ x. x.1) q)
        (h l)

  drop_shorter :
      (n rounds : ℕ) (row : SilverRow V) (rows : List (SilverRow V))
      → (n == 0) ≡ false
      → length (row ∷ rows) ≤ suc rounds
      → length (drop n (row ∷ rows)) ≤ rounds
  drop_shorter zero rounds row rows b h = absurd (cc)
  drop_shorter (suc n) rounds row rows b h = let c = length-drop n rows in omega arith

  module _ (batch_size : ℕ) where
    process_batches-Counted :
        (rounds : ℕ) (rows : List (SilverRow V)) (j : Job V server)
        → (batch_size == 0) ≡ false
        → length rows ≤ rounds
        → Counted (length rows) j (process_batches V server batch_size rounds rows j)
    unfolding process_batches Counted
    process_batches-Counted rounds [] j b h = (omega arith, refl)
    process_batches-Counted zero (row ∷ rows) j b h = absurd (omega arith)
    process_batches-Counted (suc rounds) (row ∷ rows) j b h =
        let batch = take batch_size (row ∷ rows) in
        let rest = drop batch_size (row ∷ rows) in
        subst (λ n. Counted n j (process_batches V server batch_size (suc rounds) (row ∷ rows) j))
          (parts_together batch_size (row ∷ rows))
          (batch-Counted batch (length rest) (process_batches V server batch_size rounds rest) j
            (λ k.
              process_batches-Counted rounds rest k b (drop_shorter batch_size rounds row rows b h))
            (load_batch V server batch j) (load_batch-IsQuiet batch j))

    process_dataframe-Counted :
        (rows : List (SilverRow V)) (j : Job V server)
        → Counted (length rows) j (process_dataframe V server batch_size rows j)
    unfolding process_dataframe Counted
    process_dataframe-Counted rows j = elim (Bool-cases (batch_size == 0)) [
      | inl e ↦ rw e (omega arith)
      | inr e ↦ rw e (process_batches-Counted (length rows) rows j e (omega arith))
    ]

    -- Whatever rows are loaded, whatever the batch size is and whatever statements the database refuses: a
    -- load that succeeds has counted each row as loaded and none as failed, and one that fails has
    -- counted at most as many rows as there are.
    pub load_frame-Counted :
        (rows : List (SilverRow V)) (j : Job V server)
        → Counted (length rows) j (load_frame V server batch_size rows j)
    unfolding load_frame Counted
    load_frame-Counted [] j = (omega arith, refl)
    load_frame-Counted (row ∷ rows) j =
        let first = record j { result = record j.result { rows_read = length (row ∷ rows) } } in
        noted (process_dataframe V server batch_size (row ∷ rows) first)
          (process_dataframe-Counted (row ∷ rows) first)
      where
        noted :
            (x : Result LoadError Unit × Job V server)
            → Counted (length (row ∷ rows)) j x
            → Counted (length (row ∷ rows)) j (
              x.0,
              elim x.0 as (λ y. Job V server) [
                | ok done ↦ x.1
                | err e ↦ record x.1 {
                  result = record x.1.result { errors = x.1.result.errors ++ e ∷ [] };
                }
              ],
            )
        noted (ok done, k) h = h
        noted (err e, k) h = h
