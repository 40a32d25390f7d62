-- ===== src/Warehouse/Upserts/Safe.antt =====
-- The observations before and behind each step of a batch in warehouse/loader/batch_loader.py.
use agentic_data_engineering.Warehouse.Rows.{Values, LoadError, MappedRow}
use agentic_data_engineering.Warehouse.Database.{
  Observation, Database, insert_source, insert_product, insert_source_product, insert_observation,
  count_sources, source_id_of,
}
use agentic_data_engineering.Warehouse.Upserts.{
  unique, truthy_id, Server, Connection, execute, insert_sources, upsert_sources, insert_products,
  product_keys, upsert_products, obs_values, conflict, insert_all, raise_conflict, insert_values,
  insert_observations, known_product, product_for, source_product_values, unique_values,
  insert_source_products, insert_found, upsert_source_products,
}
use agentic_data_engineering.Base.{
  ℕ, ◌-◌, String, ◌≡◌, refl, ◌∙◌, inl, inr, Option, none, some, List, [], ◌∷◌, map, arith,
  Bool-cases, length,
}
use agentic_data_engineering.Base.Equality.{nat_eq, string_eq, option_eq}
use agentic_data_engineering.Base.Exec.{Exec, pure, ◌>>=◌}
use agentic_data_engineering.Warehouse.Upserts.Growth.{
  Follows, Follows-refl, Follows-trans, insert_observation-Follows, bind-Follows,
}

module _ (V : Values) where
  module _ (server : Server V) where
    abbrev pub IsSafe : {A : Type 0} → Exec (Connection V) LoadError A → Type 0
    IsSafe m = (c : Connection V) → Follows V c.database.observations (m c).1.database.observations

    pure-IsSafe : {A : Type 0} (a : A) → IsSafe (pure a)
    pure-IsSafe a c = Follows-refl V _ _ refl

    bind-IsSafe :
        {A B : Type 0} (m : Exec (Connection V) LoadError A)
        (k : A → Exec (Connection V) LoadError B)
        → IsSafe m
        → ((a : A) → IsSafe (k a))
        → IsSafe (m >>= k)
    bind-IsSafe m k hm hk = bind-Follows V (λ c. c.database.observations) m k hm hk

    pub execute-IsSafe :
        {A : Type 0} (f : Database V → A × Database V)
        → ((d : Database V) → Follows V d.observations (f d).1.observations)
        → IsSafe (execute V server f)
    unfolding execute
    execute-IsSafe f h c = elim (Bool-cases (server.fails c.statements)) [
      | inl e ↦ rw e (Follows-refl V _ _ refl)
      | inr e ↦ rw e (h c.database)
    ]

    -- a statement and what follows it
    step-IsSafe :
        {A B : Type 0} (f : Database V → A × Database V) (k : A → Exec (Connection V) LoadError B)
        → ((d : Database V) → Follows V d.observations (f d).1.observations)
        → ((a : A) → IsSafe (k a))
        → IsSafe (execute V server f >>= k)
    step-IsSafe f k hf hk = bind-IsSafe (execute V server f) k (execute-IsSafe f hf) hk

    pub select-IsSafe :
        {A B : Type 0} (f : Database V → A) (k : A → Exec (Connection V) LoadError B)
        → ((a : A) → IsSafe (k a))
        → IsSafe (execute V server (λ d. (f d, d)) >>= k)
    select-IsSafe f k hk = step-IsSafe (λ d. (f d, d)) k (λ d. Follows-refl V _ _ refl) hk

    insert_sources-same :
        (names : List String) (d : Database V)
        → (insert_sources V server names d).observations ≡ d.observations
    unfolding insert_sources insert_source
    insert_sources-same [] d = refl
    insert_sources-same (name ∷ names) d =
        insert_sources-same names (insert_source V name none d) ∙ ground arith

    pub upsert_sources-IsSafe : (rows : List (MappedRow V)) → IsSafe (upsert_sources V server rows)
    unfolding upsert_sources
    upsert_sources-IsSafe [] = pure-IsSafe {A = ℕ} 0
    upsert_sources-IsSafe (r ∷ rows) =
        let names = unique (map (λ r. r.source_name) (r ∷ rows)) in
        step-IsSafe (λ d. (tt, insert_sources V server names d)) _
          (λ d. Follows-refl V _ _ (insert_sources-same names d))
          (λ done.
            select-IsSafe (λ d. count_sources V names d) _ (λ n. pure-IsSafe (length names - n)))

    insert_products-same :
        (products : List (Option String × Option String)) (d : Database V)
        → (insert_products V server products d).observations ≡ d.observations
    unfolding insert_products insert_product
    insert_products-same [] d = refl
    insert_products-same ((name, category) ∷ products) d =
        insert_products-same products (insert_product V name category d).1

    pub upsert_products-IsSafe :
        (rows : List (MappedRow V)) → IsSafe (upsert_products V server rows)
    unfolding upsert_products
    upsert_products-IsSafe [] = pure-IsSafe {A = ℕ} 0
    upsert_products-IsSafe (r ∷ rows) =
        let products = product_keys V server (r ∷ rows) in
        step-IsSafe (λ d. (tt, insert_products V server products d)) _
          (λ d. Follows-refl V _ _ (insert_products-same products d))
          (λ done. pure-IsSafe (length products))

    insert_source_products-same :
        (xs : List (ℕ × ℕ × String × Option String)) (d : Database V)
        → (insert_source_products V server xs d).observations ≡ d.observations
    unfolding insert_source_products insert_source_product
    insert_source_products-same [] d = refl
    insert_source_products-same (x ∷ xs) d =
        insert_source_products-same xs (insert_source_product V x d) ∙ ground arith

    insert_found-IsSafe :
        (xs : List (ℕ × ℕ × String × Option String)) → IsSafe (insert_found V server xs)
    unfolding insert_found
    insert_found-IsSafe [] = pure-IsSafe {A = ℕ} 0
    insert_found-IsSafe (x ∷ xs) =
        let values = unique_values V server (x ∷ xs) in
        step-IsSafe (λ d. (tt, insert_source_products V server values d)) _
          (λ d. Follows-refl V _ _ (insert_source_products-same values d))
          (λ done. pure-IsSafe (length values))

    product_for-IsSafe : (d : Database V) (r : MappedRow V) → IsSafe (product_for V server d r)
    unfolding product_for insert_product
    product_for-IsSafe d r = by_known (known_product V server d r.canonical_name)
      where
        by_known :
            (o : Option ℕ)
            → IsSafe (elim o as (λ x. Exec (Connection V) LoadError ℕ) [
              | some id ↦ pure id
              | none ↦ execute V server (insert_product V r.canonical_name r.category)
            ])
        by_known none =
            execute-IsSafe (insert_product V r.canonical_name r.category)
              (λ d. Follows-refl V _ _ refl)
        by_known (some id) = pure-IsSafe id

    source_product_values-IsSafe :
        (d : Database V) (rows : List (MappedRow V))
        → IsSafe (source_product_values V server d rows)
    unfolding source_product_values
    source_product_values-IsSafe d [] = λ c. Follows-refl V _ _ refl
    source_product_values-IsSafe d (r ∷ rows) =
        by_source (truthy_id (source_id_of V r.source_name d)) (source_product_values-IsSafe d rows)
      where
        by_source :
            (o : Option ℕ)
            → IsSafe (source_product_values V server d rows)
            → IsSafe
                (elim o
                  as (λ x. Exec (Connection V) LoadError (List (ℕ × ℕ × String × Option String))) [
                    | none ↦ source_product_values V server d rows
                    | some source_id ↦ product_for V server d r >>= λ product_id.
                        source_product_values V server d rows >>= λ others.
                        pure ((source_id, product_id, r.external_id, r.url) ∷ others)
                  ])
        by_source none rest = rest
        by_source (some source_id) rest =
            bind-IsSafe (product_for V server d r) _ (product_for-IsSafe d r) (λ product_id.
              bind-IsSafe (source_product_values V server d rows) _ rest
                (λ others. pure-IsSafe ((source_id, product_id, r.external_id, r.url) ∷ others)))

    pub upsert_source_products-IsSafe :
        (rows : List (MappedRow V)) → IsSafe (upsert_source_products V server rows)
    unfolding upsert_source_products
    upsert_source_products-IsSafe [] = pure-IsSafe {A = ℕ} 0
    upsert_source_products-IsSafe (r ∷ rows) =
        select-IsSafe (λ d. d) _
          (λ selected.
            bind-IsSafe (source_product_values V server selected (r ∷ rows)) _
              (source_product_values-IsSafe selected (r ∷ rows))
              (λ values. insert_found-IsSafe values))

    insert_all-Follows :
        (os : List (Observation V)) (d : Database V)
        → Follows V d.observations (insert_all V server os d).observations
    unfolding insert_all
    insert_all-Follows [] d = Follows-refl V _ _ refl
    insert_all-Follows (o ∷ os) d =
        Follows-trans V d.observations (insert_observation V o d).observations _
          (insert_observation-Follows V o d) (insert_all-Follows os (insert_observation V o d))

    raise_conflict-IsSafe : (o : Option String) → IsSafe (raise_conflict V server o)
    unfolding raise_conflict
    raise_conflict-IsSafe none c = Follows-refl V _ _ refl
    raise_conflict-IsSafe (some id) c = Follows-refl V _ _ refl

    insert_values-IsSafe : (os : List (Observation V)) → IsSafe (insert_values V server os)
    unfolding insert_values
    insert_values-IsSafe [] = pure-IsSafe {A = ℕ} 0
    insert_values-IsSafe (o ∷ os) =
        select-IsSafe (λ d. conflict V server d.observations (o ∷ os)) _
          (λ found.
            bind-IsSafe (raise_conflict V server found) _ (raise_conflict-IsSafe found) (λ passed.
              select-IsSafe (λ d. length d.observations) _
                (λ before.
                  step-IsSafe (λ d. (tt, insert_all V server (o ∷ os) d)) _
                    (λ d. insert_all-Follows (o ∷ os) d)
                    (λ done.
                      select-IsSafe (λ d. length d.observations) _
                        (λ after. pure-IsSafe (after - before))))))

    pub insert_observations-IsSafe :
        (rows : List (MappedRow V)) → IsSafe (insert_observations V server rows)
    unfolding insert_observations
    insert_observations-IsSafe [] = pure-IsSafe {A = ℕ} 0
    insert_observations-IsSafe (r ∷ rows) =
        select-IsSafe (λ d. obs_values V server d (r ∷ rows)) _
          (λ values. insert_values-IsSafe values)
