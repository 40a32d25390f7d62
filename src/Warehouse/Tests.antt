-- ===== src/Warehouse/Tests.antt =====
-- Two rows of one product are loaded in batches of one row, by a database that answers and by one that
-- refuses its seventh statement.
use agentic_data_engineering.Warehouse.Rows.{Values, LoadError, text, SilverRow}
use agentic_data_engineering.Warehouse.Database.{ObservationRow}
use agentic_data_engineering.Warehouse.Upserts.{Server}
use agentic_data_engineering.Warehouse.Upserts.Growth.{one_each}
use agentic_data_engineering.Warehouse.Loader.{Job, load_frame}
use agentic_data_engineering.Warehouse.Loader.History.{load_frame_appends, load_frame-one_each}
use agentic_data_engineering.Warehouse.Loader.Counts.{Counted, load_frame-Counted}
use agentic_data_engineering.Base.{
  ℕ, String, ◌≡◌, refl, true, false, none, some, List, [], ◌∷◌, ◌++◌, if◌then◌else◌, map,
}
use agentic_data_engineering.Base.Equality.{◌==◌, nat_eq, string_eq}
use agentic_data_engineering.Base.Exec.{Result}

abbrev values : Values
values = record {
  Decimal = ℕ;
  Time = ℕ;
  decimal_eq = nat_eq;
  time_eq = nat_eq;
  parse_decimal = λ s. if s == "12.50" then some 1250 else none;
  fromisoformat = λ s. if s == "2026-01-01" then some 1 else none;
}

abbrev answers : Server values
answers = record { fails = λ n. false }

abbrev fails_seventh : Server values
fails_seventh = record { fails = λ n. n == 6 }

abbrev row : String → SilverRow values
row event_id = record {
  source = some "shop";
  external_id = some "sku-1";
  availability = some "in_stock";
  collected_at = some (text "2026-01-01");
  event_id = some event_id;
  price = some "12.50";
  name = some "Lamp";
  category = none;
  url = none;
  currency = some "EUR";
}

abbrev rows : List (SilverRow values)
rows = row "e-1" ∷ row "e-2" ∷ []

abbrev job : (server : Server values) → Job values server
job server = record {
  connection = record {
    database = record {
      sources = [];
      products = [];
      source_products = [];
      observations = [];
      serials = record { source = 1; product = 1; source_product = 1; observation = 1 };
    };
    statements = 0;
  };
  result = record {
    rows_read = 0;
    rows_loaded = 0;
    rows_failed = 0;
    sources_created = 0;
    products_created = 0;
    source_products_created = 0;
    observations_created = 0;
    errors = [];
  };
}

abbrev loaded : (server : Server values) → Result LoadError Unit × Job values server
loaded server = load_frame values server 1 rows (job server)

load_both :
    map (λ o. o.values.event_id) (loaded answers).1.connection.database.observations
    ≡ "e-1" ∷ "e-2" ∷ []
unfolding load_frame
load_both = refl

load_none : (loaded fails_seventh).1.connection.database.observations ≡ []
unfolding load_frame
load_none = refl

load_frame_appends_example :
    (new : List (ObservationRow values)) × ((loaded answers).1.connection.database.observations
      ≡ [] ++ new)
load_frame_appends_example = load_frame_appends values answers 1 rows (job answers)

load_frame-one_each_example :
    one_each values (loaded answers).1.connection.database.observations ≡ true
unfolding one_each
load_frame-one_each_example = load_frame-one_each values answers 1 rows (job answers) refl

load_frame-Counted_example : Counted values answers 2 (job answers) (loaded answers)
load_frame-Counted_example = load_frame-Counted values answers 1 rows (job answers)
