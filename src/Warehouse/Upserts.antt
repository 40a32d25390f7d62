-- ===== src/Warehouse/Upserts.antt =====
-- warehouse/loader/batch_loader.py: the statements of a batch. A set is the list of its elements, in the order of
-- their first occurrence, which decides nothing but the serial numbers.
pub mod Growth
pub mod Safe
use agentic_data_engineering.Marketplace.Identity.{is_empty}
use agentic_data_engineering.Warehouse.Rows.{
  Values, LoadError, conflicting_observation, database_error, bad_batch_size, SilverRow, MappedRow,
  map_rows,
}
use agentic_data_engineering.Warehouse.Database.{
  SourceRow, Observation, ObservationRow, Database, insert_source, insert_product,
  insert_source_product, insert_observation, count_sources, source_id_of, product_id_of,
  source_product_id_of,
}
use agentic_data_engineering.Base.{
  ℕ, zero, suc, ◌+◌, ◌-◌, ◌*◌, ◌≤◌, ◌<◌, min, String, ◌≡◌, refl, sym, ap, ◌∙◌, ◌≢◌, ◌↔◌, ◌⊎◌, inl,
  inr, Bool, true, false, not, ◌&&◌, ◌||◌, Option, none, some, List, [], ◌∷◌, ◌++◌, map, append-nil,
  append_assoc, arith, ltb, leb, ==_iff, if◌then◌else◌, Bool-cases, Option-cases, is_some, length,
  drop, take, select, exists, count_if, length-append, length-drop, length-select, All, All-append,
  All_map_of,
}
use agentic_data_engineering.Base.Equality.{
  Eq, ◌==◌, nat_eq, string_eq, option_eq, beq_refl, beq-eq, beq_false, beq_sym, beq_cases,
}
use agentic_data_engineering.Base.Dict.{Dict, get, put, remove, get-put, get-remove, dict_laws}
use agentic_data_engineering.Base.Exec.{
  Result, ok, err, Exec, map_ok, pure, raise, gets, lift, modify, continue, ◌>>=◌, ◌>>◌,
}

-- the keys of a dictionary or the elements of a set
unfoldable pub unique : {A : Type 0} ⦃e : Eq A⦄ → List A → List A
unique [] = []
unique (x ∷ xs) = x ∷ select (λ y. not (x == y)) (unique xs)

-- an id that a dictionary holds and that is not 0
unfoldable pub truthy_id : Option ℕ → Option ℕ
truthy_id none = none
truthy_id (some zero) = none
truthy_id (some (suc n)) = some (suc n)

module _ (V : Values) where
  -- the requests whose number fails, as the database decides
  pub record Server : Type 0 where
    pub fails : ℕ → Bool

  -- the connection of a batch: the tables as the transaction sees them
  pub record Connection : Type 0 where
    pub database : Database V
    pub statements : ℕ

  module _ (server : Server) where
    unfoldable pub execute :
        {A : Type 0} → (Database V → A × Database V) → Exec Connection LoadError A
    execute f c =
        if server.fails c.statements
        then (err database_error, record c { statements = c.statements + 1 })
        else let (a, d) = f c.database in
          (ok a, record c { database = d; statements = c.statements + 1 })

    unfoldable pub insert_sources : List String → Database V → Database V
    unfolding insert_source
    insert_sources [] d = d
    insert_sources (name ∷ names) d = insert_sources names (insert_source V name none d)

    unfoldable pub upsert_sources : List (MappedRow V) → Exec Connection LoadError ℕ
    unfolding execute insert_sources count_sources unique
    upsert_sources [] = pure 0
    upsert_sources (row ∷ rows) =
        let names = unique (map (λ r. r.source_name) (row ∷ rows)) in
        execute (λ d. (tt, insert_sources names d)) >>= λ done.
        execute (λ d. (count_sources V names d, d)) >>= λ existing. pure (length names - existing)

    unfoldable pub insert_products : List (Option String × Option String) → Database V → Database V
    unfolding insert_product
    insert_products [] d = d
    insert_products ((name, category) ∷ products) d =
        insert_products products (insert_product V name category d).1

    product_keys : List (MappedRow V) → List (Option String × Option String)
    product_keys [] = []
    product_keys (r ∷ rows) =
        (r.canonical_name, r.category)
        ∷ select (λ k. not (k.0 == r.canonical_name && k.1 == r.category)) (product_keys rows)

    unfoldable pub upsert_products : List (MappedRow V) → Exec Connection LoadError ℕ
    unfolding execute insert_products product_keys
    upsert_products [] = pure 0
    upsert_products (row ∷ rows) =
        let products = product_keys (row ∷ rows) in
        execute (λ d. (tt, insert_products products d)) >>= λ done. pure (length products)

    -- an observation as it is inserted, where the row's source product has an id
    unfoldable pub observation_of : Database V → MappedRow V → Option (Observation V)
    unfolding source_product_id_of truthy_id
    observation_of d r = elim (truthy_id (source_product_id_of V r.source_name r.external_id d)) [
      | none ↦ none
      | some sp_id ↦ some (record {
        source_product_id = sp_id;
        name = r.canonical_name;
        price = r.price;
        currency = r.currency;
        availability = r.availability;
        collected_at = r.collected_at;
        event_id = r.event_id;
      })
    ]

    unfoldable pub obs_values : Database V → List (MappedRow V) → List (Observation V)
    unfolding observation_of
    obs_values d [] = []
    obs_values d (r ∷ rows) = elim (observation_of d r) [
      | none ↦ obs_values d rows
      | some o ↦ o ∷ obs_values d rows
    ]

    -- `new_payload != existing_payload`, of the columns that are compared
    unfoldable pub same_payload : Observation V → Observation V → Bool
    same_payload o x =
        let same_price = option_beq_at V.decimal_eq o.price x.price in
        o.name == x.name
        && same_price
        && o.currency == x.currency
        && o.availability == x.availability
        && V.time_eq.beq o.collected_at x.collected_at
      where
        option_beq_at : {A : Type 0} → Eq A → Option A → Option A → Bool
        option_beq_at e none none = true
        option_beq_at e (some a) (some b) = e.beq a b
        option_beq_at e _ _ = false

    -- the first observation whose event id is there with another payload
    unfoldable pub conflict : List (ObservationRow V) → List (Observation V) → Option String
    unfolding same_payload
    conflict existing [] = none
    conflict existing (o ∷ os) =
        let rest = conflict existing os in
        if exists (λ x. x.values.event_id == o.event_id && not (same_payload o x.values)) existing
        then some o.event_id
        else rest

    unfoldable pub insert_all : List (Observation V) → Database V → Database V
    unfolding insert_observation
    insert_all [] d = d
    insert_all (o ∷ os) d = insert_all os (insert_observation V o d)

    unfoldable pub raise_conflict : Option String → Exec Connection LoadError Unit
    raise_conflict none = pure tt
    raise_conflict (some event_id) = raise (conflicting_observation event_id)

    -- behind the selection of the source products
    unfoldable pub insert_values : List (Observation V) → Exec Connection LoadError ℕ
    unfolding execute insert_all conflict raise_conflict
    insert_values [] = pure 0
    insert_values (o ∷ os) = execute (λ d. (conflict d.observations (o ∷ os), d)) >>= λ found.
        raise_conflict found >>= λ passed. execute (λ d. (length d.observations, d)) >>= λ before.
        execute (λ d. (tt, insert_all (o ∷ os) d)) >>= λ done.
        execute (λ d. (length d.observations, d)) >>= λ after. pure (after - before)

    unfoldable pub insert_observations : List (MappedRow V) → Exec Connection LoadError ℕ
    unfolding execute obs_values insert_values
    insert_observations [] = pure 0
    insert_observations (r ∷ rows) =
        execute (λ d. (obs_values d (r ∷ rows), d)) >>= λ values. insert_values values

    -- the names that are looked up among the products: those that are there and not empty
    unfoldable pub known_product : Database V → Option String → Option ℕ
    unfolding product_id_of is_empty truthy_id
    known_product d none = none
    known_product d (some name) = if is_empty name then none else truthy_id (product_id_of V name d)

    abbrev SourceProductValue : Type 0
    SourceProductValue = ℕ × ℕ × String × Option String

    -- the product of a row: a known one, or a minimal one that is made for the row
    unfoldable pub product_for : Database V → MappedRow V → Exec Connection LoadError ℕ
    unfolding known_product execute insert_product
    product_for selected r = elim (known_product selected r.canonical_name) [
      | some id ↦ pure id
      | none ↦ execute (insert_product V r.canonical_name r.category)
    ]

    -- the values of the source products, by what was selected before
    unfoldable pub source_product_values :
        Database V → List (MappedRow V) → Exec Connection LoadError (List SourceProductValue)
    unfolding source_id_of truthy_id product_for
    source_product_values selected [] = pure []
    source_product_values selected (r ∷ rows) =
        let rest = source_product_values selected rows in
        elim (truthy_id (source_id_of V r.source_name selected)) [
          | none ↦ rest
          | some source_id ↦ product_for selected r >>= λ product_id.
              rest >>= λ others. pure ((source_id, product_id, r.external_id, r.url) ∷ others)
        ]

    same_value : SourceProductValue → SourceProductValue → Bool
    same_value x y = x.0 == y.0 && x.1 == y.1 && x.2 == y.2 && x.3 == y.3

    unfoldable pub unique_values : List SourceProductValue → List SourceProductValue
    unfolding same_value
    unique_values [] = []
    unique_values (x ∷ xs) = x ∷ select (λ y. not (same_value x y)) (unique_values xs)

    unfoldable pub insert_source_products : List SourceProductValue → Database V → Database V
    unfolding insert_source_product
    insert_source_products [] d = d
    insert_source_products (x ∷ xs) d = insert_source_products xs (insert_source_product V x d)

    unfoldable pub insert_found : List SourceProductValue → Exec Connection LoadError ℕ
    unfolding execute unique_values insert_source_products
    insert_found [] = pure 0
    insert_found (x ∷ xs) =
        let values = unique_values (x ∷ xs) in
        execute (λ d. (tt, insert_source_products values d)) >>= λ done. pure (length values)

    unfoldable pub upsert_source_products : List (MappedRow V) → Exec Connection LoadError ℕ
    unfolding execute source_product_values insert_found
    upsert_source_products [] = pure 0
    upsert_source_products (r ∷ rows) = execute (λ d. (d, d)) >>= λ selected.
        source_product_values selected (r ∷ rows) >>= λ values. insert_found values
