-- ===== src/Warehouse/Database.antt =====
-- The tables of warehouse/schema/init.sql, with the unique event id of
-- warehouse/migrations/versions/002_add_event_id_unique.py, and the statements of warehouse/loader/batch_loader.py on them. A serial
-- number that is drawn is not given back, by a conflict or by a rollback.
use agentic_data_engineering.Warehouse.Rows.{Values}
use agentic_data_engineering.Base.{
  ℕ, ◌+◌, String, Bool, ◌&&◌, Option, none, some, List, [], ◌∷◌, ◌++◌, if◌then◌else◌, exists,
  count_if,
}
use agentic_data_engineering.Base.Equality.{◌==◌, nat_eq, string_eq, option_eq}

pub record SourceRow : Type 0 where
  pub id : ℕ
  pub name : String
  pub description : Option String

pub record ProductRow : Type 0 where
  pub id : ℕ
  pub canonical_name : Option String
  pub category : Option String

pub record SourceProductRow : Type 0 where
  pub id : ℕ
  pub source_id : ℕ
  pub product_id : ℕ
  pub external_id : String
  pub url : Option String

pub record Serials : Type 0 where
  pub source : ℕ
  pub product : ℕ
  pub source_product : ℕ
  pub observation : ℕ

module _ (V : Values) where
  open V use {Decimal, Time}

  -- an observation as it is inserted, before it has an id
  pub record Observation : Type 0 where
    pub source_product_id : ℕ
    pub name : Option String
    pub price : Option Decimal
    pub currency : Option String
    pub availability : String
    pub collected_at : Time
    pub event_id : String

  pub record ObservationRow : Type 0 where
    pub id : ℕ
    pub values : Observation

  pub record Database : Type 0 where
    pub sources : List SourceRow
    pub products : List ProductRow
    pub source_products : List SourceProductRow
    pub observations : List ObservationRow
    pub serials : Serials

  -- INSERT INTO sources ... ON CONFLICT (name) DO NOTHING
  unfoldable pub insert_source : String → Option String → Database → Database
  insert_source name description d =
      let drawn = record d { serials = record d.serials { source = d.serials.source + 1 } } in
      if exists (λ s. s.name == name) d.sources then drawn else record drawn {
        sources =
            d.sources
            ++ record { id = d.serials.source; name = name; description = description } ∷ [];
      }

  -- INSERT INTO products ... ON CONFLICT DO NOTHING, where no constraint can conflict; the id
  unfoldable pub insert_product : Option String → Option String → Database → ℕ × Database
  insert_product name category d = (
    d.serials.product,
    record d {
      serials = record d.serials { product = d.serials.product + 1 };
      products =
          d.products
          ++ record { id = d.serials.product; canonical_name = name; category = category } ∷ [];
    },
  )

  -- INSERT INTO source_products ... ON CONFLICT (source_id, external_id) DO NOTHING
  unfoldable pub insert_source_product : ℕ × ℕ × String × Option String → Database → Database
  insert_source_product (source_id, product_id, external_id, url) d =
      let drawn = record d {
        serials = record d.serials { source_product = d.serials.source_product + 1 };
      } in
      if exists (λ s. s.source_id == source_id && s.external_id == external_id) d.source_products
      then drawn
      else record drawn {
        source_products =
            d.source_products
            ++ record {
              id = d.serials.source_product;
              source_id = source_id;
              product_id = product_id;
              external_id = external_id;
              url = url;
            }
              ∷ [];
      }

  -- INSERT INTO product_observations ... ON CONFLICT (event_id) DO NOTHING
  unfoldable pub insert_observation : Observation → Database → Database
  insert_observation o d =
      let drawn = record d {
        serials = record d.serials { observation = d.serials.observation + 1 };
      } in
      if exists (λ x. x.values.event_id == o.event_id) d.observations then drawn else record drawn {
        observations = d.observations ++ record { id = d.serials.observation; values = o } ∷ [];
      }

  -- SELECT COUNT(*) FROM sources WHERE name IN ...
  unfoldable pub count_sources : List String → Database → ℕ
  count_sources names d = count_if (λ s. exists (λ n. n == s.name) names) d.sources

  -- the ids in a dictionary that is made of selected rows: for a name that several rows have, the last
  -- one stays
  unfoldable pub last_id : {A : Type 0} → (A → Bool) → (A → ℕ) → List A → Option ℕ
  last_id p id [] = none
  last_id p id (x ∷ xs) = elim (last_id p id xs) [
    | some i ↦ some i
    | none ↦ (if p x then some (id x) else none)
  ]

  -- SELECT id, name FROM sources WHERE name IN ...
  unfoldable pub source_id_of : String → Database → Option ℕ
  unfolding last_id
  source_id_of name d = last_id (λ s. s.name == name) (λ s. s.id) d.sources

  -- SELECT id, canonical_name FROM products WHERE canonical_name IN ...
  unfoldable pub product_id_of : String → Database → Option ℕ
  unfolding last_id
  product_id_of name d = last_id (λ p. p.canonical_name == some name) (λ p. p.id) d.products

  -- SELECT sp.id, s.name, sp.external_id FROM source_products sp JOIN sources s ... WHERE ... IN ...
  unfoldable pub source_product_id_of : String → String → Database → Option ℕ
  unfolding last_id
  source_product_id_of name external_id d =
      last_id
        (λ sp.
          sp.external_id == external_id
          && exists (λ s. s.id == sp.source_id && s.name == name) d.sources)
        (λ sp. sp.id) d.source_products
