-- ===== src/Processor/Pipeline/Tests.antt =====
-- A batch whose first run ends in an error behind the deduplication, and its second run.
use agentic_data_engineering.Processor.Events.{events_to_polars, prices, event_rows, normalize}
use agentic_data_engineering.Processor.Validation.{validate}
use agentic_data_engineering.Processor.Dedup.{
  deduplicate, row_hash, mark_cross_batch_duplicates, status,
}
use agentic_data_engineering.Processor.Pipeline.{
  publish_error, process_batch, start, bump, run_pipeline, process_rows, finish_batch,
  publish_invalid_records, route_valid, publish_conflict_records, publish_valid_records, valid_row,
  send_validated, event_index, event_of_row,
}
use agentic_data_engineering.Processor.Tests.{polars, lamp, world, refusing}
use agentic_data_engineering.Base.{◌≡◌, refl, some, [], ◌∷◌}
use agentic_data_engineering.Base.Equality.{string_eq, option_eq}
use agentic_data_engineering.Base.Dict.{get, put}
use agentic_data_engineering.Base.Exec.{err}

-- the first run ends in an error: the sink of the valid events refuses
first_run_failed :
    (process_batch polars refusing (lamp ∷ []) (world (some []))).0 ≡ err publish_error
unfolding process_batch start bump run_pipeline process_rows finish_batch events_to_polars prices
    event_rows normalize validate publish_invalid_records route_valid deduplicate
    publish_conflict_records publish_valid_records valid_row send_validated event_index event_of_row
    get put row_hash mark_cross_batch_duplicates status
first_run_failed = refl
