-- ===== src/Processor/Pipeline.antt =====
-- services/processor/pipeline.py: `ProcessorPipeline` and its sinks, with the counters of
-- libs/observability/processor_metrics.py. The time stamps of the envelopes and the latencies are
-- readings of the clock and are left out.
pub mod Progress
pub mod Routing
pub mod Accounts
pub mod Retry
pub mod Again
mod Tests
pub mod Acknowledged
use mathlib.Core.Option
use agentic_data_engineering.Processor.Columns.{Polars, Row}
use agentic_data_engineering.Processor.Events.{Event, events_to_polars, normalize}
use agentic_data_engineering.Processor.Validation.{validate}
use agentic_data_engineering.Processor.Dedup.{Seen, deduplicate}
use agentic_data_engineering.Base.{
  ℕ, zero, suc, ◌+◌, ◌-◌, ◌*◌, ◌≤◌, ◌<◌, min, String, ◌≡◌, refl, sym, ap, ◌∙◌, ◌≢◌, ◌↔◌, ◌⊎◌, inl,
  inr, Bool, true, false, not, ◌&&◌, ◌||◌, Option, none, some, List, [], ◌∷◌, ◌++◌, map, append-nil,
  append_assoc, arith, ltb, leb, ==_iff, if◌then◌else◌, Bool-cases, Option-cases, is_some, length,
  drop, take, select, exists, count_if, length-append, length-drop, length-select, All, All-append,
  All_map_of,
}
use agentic_data_engineering.Base.Equality.{
  Eq, ◌==◌, nat_eq, string_eq, option_eq, beq_refl, beq-eq, beq_false, beq_sym, beq_cases,
}
use agentic_data_engineering.Base.Dict.{Dict, get, put, remove, get-put, get-remove, dict_laws}
use agentic_data_engineering.Base.Exec.{
  Result, ok, err, Exec, pure, raise, gets, lift, modify, continue, ◌>>=◌, ◌>>◌,
}

pub record PipelineResult : Type 0 where
  pub published_valid : ℕ
  pub published_invalid : ℕ
  pub duplicates_skipped : ℕ
  pub conflicts : ℕ

abbrev pub empty_result : PipelineResult
empty_result = record {
  published_valid = 0;
  published_invalid = 0;
  duplicates_skipped = 0;
  conflicts = 0;
}

-- `PipelineResult.total`
unfoldable pub total : PipelineResult → ℕ
total r = r.published_valid + r.published_invalid + r.duplicates_skipped + r.conflicts

-- The counters of `ProcessorMetrics`.
pub record ProcessorMetrics : Type 0 where
  pub events_processed : ℕ
  pub events_valid : ℕ
  pub events_invalid : ℕ
  pub events_duplicate : ℕ
  pub events_failed : ℕ
  pub batches_total : ℕ
  pub batch_records_total : ℕ

-- `PublishError`, from a sink, and the exception of `from_dicts`
pub data PipelineError : Type 0 where
  publish_error inference_error : PipelineError

-- `payload.reason` of an envelope for the invalid topic
pub data Reason : Type 0 where
  validation_failure : String → Reason
  dedup_conflict : Reason

-- `_event_context`
pub record EventContext : Type 0 where
  pub external_id : String
  pub name : String
  pub url : String
  pub category : String
  pub source : String
  pub schema_version : ℕ

-- `validation_envelope`, `conflict_envelope`
pub record Envelope : Type 0 where
  pub event_id : String
  pub source : String
  pub reason : Reason
  pub context : EventContext

module _ (P : Polars) where
  -- What the sinks have acknowledged, the deduplication state, the counters, and the result that
  -- the batch in progress has built.
  pub record World : Type 0 where
    pub validated : List (Event P)
    pub invalid : List Envelope
    pub seen : Option (Seen P)
    pub metrics : Option ProcessorMetrics
    pub result : PipelineResult

  -- A sink acknowledges a message or raises `PipelineError`; it may look at all that happened.
  pub record Sinks : Type 0 where
    pub validated_sink : World → Event P → Bool
    pub invalid_sink : World → Envelope → Bool

  abbrev pub Step : Type 0
  Step = Exec World PipelineError Unit

  unfoldable pub event_context : Event P → EventContext
  event_context e = record {
    external_id = e.payload.external_id;
    name = e.payload.name;
    url = e.payload.url;
    category = e.payload.category;
    source = e.source;
    schema_version = e.schema_version;
  }

  -- `event_index`: the last event of the batch with an event id; the messages enter by their events
  unfoldable pub event_index : List (Event P) → Dict String (Event P) → Dict String (Event P)
  event_index [] index = index
  event_index (e ∷ es) index = event_index es (put e.event_id e index)

  -- `event_index.get(row["event_id"])`
  unfoldable pub event_of_row : Dict String (Event P) → Row P → Option (Event P)
  event_of_row index r = elim r.event_id [ none ↦ none | some eid ↦ get eid index ]

  module _ (S : Sinks) where
    pub send_invalid : Envelope → Step
    send_invalid e w =
        if S.invalid_sink w e
        then (ok tt, record w { invalid = w.invalid ++ e ∷ [] })
        else (err publish_error, w)

    pub send_validated : Event P → Step
    send_validated e w =
        if S.validated_sink w e
        then (ok tt, record w { validated = w.validated ++ e ∷ [] })
        else (err publish_error, w)

    abbrev pub count : (PipelineResult → PipelineResult) → Step
    count f = modify (λ w. record w { result = f w.result })

    pub envelope : Event P → Reason → Envelope
    unfolding event_context
    envelope e reason = record {
      event_id = e.event_id;
      source = e.source;
      reason = reason;
      context = event_context e;
    }

    -- one round of `_publish_invalid_records`; a row that is not found is skipped
    pub invalid_row : Dict String (Event P) → Row P × String → Step
    invalid_row index (r, errors) = elim (event_of_row index r) [
      | none ↦ pure tt
      | some e ↦ (do
        send_invalid (envelope e (validation_failure errors))
        count (λ n. record n { published_invalid = n.published_invalid + 1 }))
    ]

    pub publish_invalid_records : List (Row P × String) → Dict String (Event P) → Step
    publish_invalid_records [] index = pure tt
    publish_invalid_records (r ∷ df) index = do
      invalid_row index r
      publish_invalid_records df index

    -- one round of `_publish_conflict_records`
    pub conflict_row : Dict String (Event P) → Row P → Step
    conflict_row index r = elim (event_of_row index r) [
      | none ↦ pure tt
      | some e ↦ (do
        send_invalid (envelope e dedup_conflict)
        count (λ n. record n {
          published_invalid = n.published_invalid + 1;
          conflicts = n.conflicts + 1;
        }))
    ]

    pub publish_conflict_records : List (Row P) → Dict String (Event P) → Step
    publish_conflict_records [] index = pure tt
    publish_conflict_records (r ∷ df) index = do
      conflict_row index r
      publish_conflict_records df index

    -- one round of `_publish_valid_records`
    pub valid_row : Dict String (Event P) → Row P → Step
    valid_row index r = elim (event_of_row index r) [ none ↦ pure tt | some e ↦ send_validated e ]

    pub publish_valid_records : List (Row P) → Dict String (Event P) → Step
    publish_valid_records [] index = pure tt
    publish_valid_records (r ∷ df) index = do valid_row index r; publish_valid_records df index

    -- the second half of `_run_pipeline`, on the valid rows
    pub route_valid : List (Row P) → Dict String (Event P) → Step
    route_valid valid index w =
        let (out, seen) = deduplicate P valid w.seen in
        (do
          publish_conflict_records out.conflicts index
          count
              (λ n. record n { duplicates_skipped = n.duplicates_skipped + length out.duplicates })
          publish_valid_records out.deduplicated index
          count (λ n. record n { published_valid = n.published_valid + length out.deduplicated }))
          (record w { seen = seen })

    -- `_run_pipeline` behind `events_to_polars`; what it returns is left in `result`
    pub process_rows : List (Row P) → List (Event P) → Step
    process_rows df events =
        let index = event_index events [] in
        let outcome = validate P (normalize P df) in
        (do
          modify (λ w. record w { result = empty_result })
          publish_invalid_records outcome.invalid index
          if ltb 0 (length outcome.valid) then route_valid outcome.valid index else pure tt)

    -- `_run_pipeline`
    pub run_pipeline : List (Event P) → Step
    unfolding process_rows
    run_pipeline events = elim (events_to_polars P events) [
      | none ↦ raise inference_error
      | some df ↦ process_rows df events
    ]

    pub bump : (ProcessorMetrics → ProcessorMetrics) → World → World
    bump f w = record w { metrics = Option.map f w.metrics }

    -- the `try` of `process_batch`, on a batch of `n` messages
    pub finish_batch : ℕ → Result PipelineError Unit × World → Result PipelineError Unit × World
    unfolding bump
    finish_batch n (err e, w) =
        (err e, bump (λ m. record m { events_failed = m.events_failed + n }) w)
    finish_batch n (ok _, w) = (
      ok tt,
      bump
          (λ m. record m {
            events_processed = m.events_processed + n;
            events_valid = m.events_valid + w.result.published_valid;
            events_invalid = m.events_invalid + w.result.published_invalid;
            events_duplicate = m.events_duplicate + w.result.duplicates_skipped;
          })
          w,
    )

    -- the counters of a batch that begins
    pub start : ℕ → World → World
    unfolding bump
    start n = bump (λ m. record m {
      batches_total = m.batches_total + 1;
      batch_records_total = m.batch_records_total + n;
    })

    pub process_batch : List (Event P) → Step
    process_batch [] w = (ok tt, record w { result = empty_result })
    process_batch events w =
        finish_batch (length events) (run_pipeline events (start (length events) w))
