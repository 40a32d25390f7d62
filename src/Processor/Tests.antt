-- ===== src/Processor/Tests.antt =====
-- The processor at concrete batches: a small `Polars`, some events, and the theorems applied.
use agentic_data_engineering.Processor.Columns.{Polars, Row}
use agentic_data_engineering.Processor.Events.{Event, Payload, prices, event_rows, normalize}
use agentic_data_engineering.Processor.Validation.{in_stock, validate, has_errors}
use agentic_data_engineering.Processor.Validation.Rules.{
  MeetsRules, accepted_iff, IsRejected, validate_partition,
}
use agentic_data_engineering.Processor.Dedup.{Seen, total_input_count, row_hash, deduplicate}
use agentic_data_engineering.Processor.Dedup.Marks.{clash}
use agentic_data_engineering.Processor.Dedup.Outputs.{
  first_rows, repeated_rows, conflicts-deduplicate, deduplicate_without_state,
  total_input_count-deduplicate, Distinct, deduplicated-Distinct,
}
use agentic_data_engineering.Processor.Dedup.Replay.{
  deduplicate_replay, deduplicate_new_payload, counted_twice,
}
use agentic_data_engineering.Processor.Dedup.Nulls.{deduplicate_null_price}
use agentic_data_engineering.Processor.Pipeline.{World, Sinks, empty_result, process_batch}
use agentic_data_engineering.Processor.Pipeline.Accounts.{Accounted, process_batch-Accounted}
use agentic_data_engineering.Processor.Pipeline.Retry.{Stands, valid_rows, process_batch-Remembered}
use agentic_data_engineering.Processor.Pipeline.Acknowledged.{process_batch-outcome}
use agentic_data_engineering.Base.{
  ℕ, ◌+◌, String, ◌≡◌, refl, ◌↔◌, Bool, true, false, ◌&&◌, ◌||◌, not, exists, is_some, take, Option,
  none, some, List, [], ◌∷◌, ltb, if◌then◌else◌, length, select, All,
}
use agentic_data_engineering.Base.Equality.{nat_eq, string_eq, option_eq}
use agentic_data_engineering.Base.Dict.{Dict, get}

-- prices with a sign, times as numbers, and the hash of a text the text itself
abbrev pub polars : Polars
polars = record {
  Decimal = Bool × ℕ;
  Price = Bool × ℕ;
  Time = ℕ;
  Hash = Option String;
  hash_eq = option_eq;
  to_float = λ d. d;
  is_negative = λ p. p.0 && ltb 0 p.1;
  price_text = λ p. if p.0 then "-1.0" else "1.0";
  time_text = λ t. "2026-01-01";
  version_text = λ v. "1";
  strip_chars = λ s. s;
  to_lowercase = λ s. s;
  hash = λ s. s;
  takes_prices = λ ps. exists is_some (take 100 ps) || not (exists is_some ps);
  rank_ordinal = λ hs i. i + 1;
  rank_ordinal_equal = λ h n i l. refl;
}

abbrev payload : String → Option (Bool × ℕ) → Payload polars
payload name price = record {
  external_id = "7";
  name = name;
  url = "u";
  price = price;
  currency = "USD";
  availability = in_stock;
  category = "c";
  listing_id = none;
  seller_id = none;
  collected_at = 0;
}

abbrev pub event : String → String → Option (Bool × ℕ) → Event polars
event id name price = record {
  event_id = id;
  event_type = "product.raw";
  schema_version = 1;
  source = "shop";
  produced_at = 0;
  payload = payload name price;
}

abbrev pub lamp : Event polars
lamp = event "e1" "lamp" (some (false, 1))

abbrev lamp_again : Event polars
lamp_again = event "e1" "lamp" (some (false, 1))

abbrev chair : Event polars
chair = event "e1" "chair" (some (false, 1))

abbrev negative : Event polars
negative = event "e2" "desk" (some (true, 1))

abbrev row : Event polars → Row polars
row e = record {
  event_id = some e.event_id;
  event_type = some e.event_type;
  schema_version = some e.schema_version;
  source = some e.source;
  produced_at = some e.produced_at;
  external_id = some e.payload.external_id;
  name = some e.payload.name;
  url = some e.payload.url;
  price = e.payload.price;
  currency = some e.payload.currency;
  availability = some "in_stock";
  category = some e.payload.category;
  collected_at = some e.payload.collected_at;
}

row_of_lamp : normalize polars (event_rows polars (lamp ∷ [])) ≡ row lamp ∷ []
unfolding normalize event_rows
row_of_lamp = refl

abbrev pub world : Option (Seen polars) → World polars
world seen = record {
  validated = [];
  invalid = [];
  seen = seen;
  metrics = none;
  result = empty_result;
}

abbrev pub taking : Sinks polars
taking = record { validated_sink = λ w e. true; invalid_sink = λ w e. true }

abbrev pub refusing : Sinks polars
refusing = record { validated_sink = λ w e. false; invalid_sink = λ w e. true }

abbrev lamp_hash : Option String
lamp_hash = some "product.raw|1|shop|2026-01-01|7|lamp|u|1.0|USD|in_stock|c|2026-01-01"

lamp_is_hashed : row_hash polars (row lamp) ≡ lamp_hash
unfolding row_hash
lamp_is_hashed = refl

abbrev rows : List (Row polars)
rows = row lamp ∷ row lamp_again ∷ row negative ∷ []

abbrev pub seen_lamp : Seen polars
seen_lamp = (some "e1", lamp_hash) ∷ []

process_batch-Accounted_example :
    Accounted polars 3
      (world none)
      (process_batch polars taking (lamp ∷ lamp_again ∷ negative ∷ []) (world none)).1
unfolding prices event_rows
process_batch-Accounted_example =
    process_batch-Accounted polars taking (lamp ∷ lamp_again ∷ negative ∷ []) (world none) refl (
      process_batch-outcome polars taking (lamp ∷ lamp_again ∷ negative ∷ []) (world none)
        (λ w e. refl, λ w e. refl))

process_batch-Remembered_example :
    Stands polars []
      (some seen_lamp)
      (process_batch polars taking (lamp ∷ []) (world (some seen_lamp))).1
unfolding row_hash valid_rows validate normalize event_rows get
process_batch-Remembered_example =
    process_batch-Remembered polars taking (lamp ∷ []) (world (some seen_lamp)) seen_lamp refl
      (refl, tt)

deduplicate_without_state_example : deduplicate polars rows none ≡ (
  record {
    deduplicated = first_rows polars rows [] rows;
    duplicates = repeated_rows polars rows [] rows;
    conflicts = select (clash polars rows) rows;
  },
  none,
)
deduplicate_without_state_example = deduplicate_without_state polars rows

total_input_count-deduplicate_example :
    total_input_count polars (deduplicate polars rows none).0 ≡ 3
total_input_count-deduplicate_example = total_input_count-deduplicate polars rows

deduplicated-Distinct_example :
    Distinct polars (deduplicate polars rows (some seen_lamp)).0.deduplicated
deduplicated-Distinct_example = deduplicated-Distinct polars rows (some seen_lamp)

conflicts-deduplicate_example :
    (deduplicate polars (row lamp ∷ row chair ∷ []) (some seen_lamp)).0.conflicts
    ≡ select (clash polars (row lamp ∷ row chair ∷ [])) (row lamp ∷ row chair ∷ [])
conflicts-deduplicate_example =
    conflicts-deduplicate polars (row lamp ∷ row chair ∷ []) (some seen_lamp)

abbrev two_hashes : List (String × ℕ)
two_hashes = ("e1", 5) ∷ ("e1", 6) ∷ []

abbrev no_hashes : Dict String ℕ
no_hashes = []

deduplicate_replay_example :
    let state = (deduplicate polars rows (some [])).1 in
    ((deduplicate polars rows state).0.deduplicated ≡ [])
    × ((deduplicate polars rows state).1 ≡ state)
unfolding row_hash get
deduplicate_replay_example = deduplicate_replay polars rows [] (refl, (refl, (refl, tt)))

deduplicate_new_payload_example :
    (deduplicate polars (row chair ∷ []) (some seen_lamp)).0.deduplicated ≡ row chair ∷ []
unfolding row_hash get
deduplicate_new_payload_example =
    deduplicate_new_payload polars (row chair) seen_lamp lamp_hash refl refl

counted_twice_example :
    total_input_count polars (deduplicate polars (row lamp ∷ row chair ∷ row lamp ∷ []) (some [])).0
    ≡ 4
unfolding row_hash
counted_twice_example = counted_twice polars (row lamp) (row chair) (row lamp) refl refl refl refl

deduplicate_null_price_example :
    (deduplicate polars (row (event "e1" "lamp" none) ∷ row (event "e1" "chair" none) ∷ []) none).0
    ≡ record {
      deduplicated = row (event "e1" "lamp" none) ∷ [];
      duplicates = row (event "e1" "chair" none) ∷ [];
      conflicts = [];
    }
deduplicate_null_price_example =
    deduplicate_null_price polars (row (event "e1" "lamp" none)) (row (event "e1" "chair" none))
      refl refl refl

accepted_iff_example : (has_errors polars (row negative) ≡ false) ↔ MeetsRules polars (row negative)
accepted_iff_example = accepted_iff polars (row negative)

validate_partition_example :
    All (MeetsRules polars) (validate polars rows).valid
    × All (IsRejected polars) (validate polars rows).invalid
    × (length (validate polars rows).valid + length (validate polars rows).invalid ≡ 3)
validate_partition_example = validate_partition polars rows
