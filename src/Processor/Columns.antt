-- ===== src/Processor/Columns.antt =====
-- The rows of services/processor/schema_normalization.py (`NORMALIZED_SCHEMA`), and what the
-- processor takes from Polars and from Python's numbers.
use agentic_data_engineering.Base.{ℕ, zero, suc, ◌+◌, ◌<◌, String, ◌≡◌, Bool, Option, List, [], ◌∷◌}
use agentic_data_engineering.Base.Equality.{Eq, nat_eq, string_eq, option_eq}

abbrev pub replicate {ℓ} : {A : Type ℓ} → ℕ → A → List A
replicate zero a = []
replicate (suc n) a = a ∷ replicate n a

-- A data frame is the list of its rows, and a null is `none`; an expression over the columns of
-- one row is a function of the row. What follows cannot be read off a row, or computes with
-- values of Python and Polars that the processor only passes on.
pub record Polars : Type 1 where
  -- Python's `Decimal`, Polars's `Float64`, `Datetime("us", "UTC")`, and a hash as a text
  pub Decimal : Type 0
  pub Price : Type 0
  pub Time : Type 0
  pub Hash : Type 0
  pub hash_eq : Eq Hash
  pub to_float : Decimal → Price
  -- `col("price") < 0`
  pub is_negative : Price → Bool
  -- `cast(pl.Utf8)` of the columns that are no texts
  pub price_text : Price → String
  pub time_text : Time → String
  pub version_text : ℕ → String
  -- `str.strip_chars()`, `str.to_lowercase()`
  pub strip_chars : String → String
  pub to_lowercase : String → String
  -- `.hash()`, of a null too
  pub hash : Option String → Hash
  -- whether `from_dicts`, which infers the type of a column from the first rows only, takes this column
  -- of prices; without nulls, as the other columns are, a column is always taken
  pub takes_prices : List (Option Price) → Bool
  -- `rank("ordinal")`: the rank, from 1, of the value at a place in a column
  pub rank_ordinal : List Hash → ℕ → ℕ
  -- equal values are ranked in the order in which they occur
  pub rank_ordinal_equal : (h : Hash) (n i : ℕ) → i < n → rank_ordinal (replicate n h) i ≡ i + 1

pub record Row (P : Polars) : Type 0 where
  pub event_id : Option String
  pub event_type : Option String
  pub schema_version : Option ℕ
  pub source : Option String
  pub produced_at : Option P.Time
  pub external_id : Option String
  pub name : Option String
  pub url : Option String
  pub price : Option P.Price
  pub currency : Option String
  pub availability : Option String
  pub category : Option String
  pub collected_at : Option P.Time
