-- ===== src/Ingestion/Runner.antt =====
-- services/ingestion/runner.py: `IngestionRunner`.
pub mod Statuses
pub mod Effects
pub mod Totals
pub mod Calls
use agentic_data_engineering.Base.{
  ℕ, zero, suc, ◌+◌, ◌-◌, ◌*◌, ◌≤◌, ◌<◌, min, String, ◌≡◌, refl, sym, ap, ◌∙◌, ◌≢◌, ◌↔◌, ◌⊎◌, inl,
  inr, Bool, true, false, not, ◌&&◌, ◌||◌, Option, none, some, List, [], ◌∷◌, ◌++◌, map, append-nil,
  append_assoc, arith, ltb, leb, ==_iff, if◌then◌else◌, Bool-cases, Option-cases, is_some, length,
  drop, take, select, exists, count_if, length-append, length-drop, length-select, All, All-append,
  All_map_of,
}
use agentic_data_engineering.Base.Equality.{
  Eq, ◌==◌, nat_eq, string_eq, option_eq, beq_refl, beq-eq, beq_false, beq_sym, beq_cases,
}
use agentic_data_engineering.Base.Dict.{Dict, get, put, remove, get-put, get-remove, dict_laws}
use agentic_data_engineering.Base.Exec.{
  Result, ok, err, Exec, pure, raise, gets, lift, modify, continue, ◌>>=◌, ◌>>◌,
}

-- `SourceStatus`, without the time of the last fetch
pub record SourceStatus : Type 0 where
  pub source_name : String
  pub last_fetch_success : Bool
  pub events_published : ℕ
  pub malformed_count : ℕ
  pub errors : List String

-- `IngestionStats`
pub record IngestionStats : Type 0 where
  pub total_events_published : ℕ
  pub total_malformed : ℕ
  pub total_errors : ℕ
  pub sources : Dict String SourceStatus

-- the counters of `KafkaMetrics`, one object that the producer and the runner both increment
pub record ProducerMetrics : Type 0 where
  pub invalid : ℕ
  pub produced : ℕ
  pub producer_errors : ℕ

unfoldable pub new_status : String → SourceStatus
new_status name = record {
  source_name = name;
  last_fetch_success = true;
  events_published = 0;
  malformed_count = 0;
  errors = [];
}

-- a change of the status object that is behind a name
unfoldable pub update_status :
    String → (SourceStatus → SourceStatus) → Dict String SourceStatus → Dict String SourceStatus
update_status name f [] = []
update_status name f ((k, s) ∷ d) =
    let rest = update_status name f d in if k == name then (k, f s) ∷ d else (k, s) ∷ rest

-- the statuses that `__init__` makes, one for each name
unfoldable pub new_sources : List String → Dict String SourceStatus → Dict String SourceStatus
unfolding put new_status
new_sources [] d = d
new_sources (name ∷ names) d = new_sources names (put name (new_status name) d)

module _ (Event : Type 0) (Record : Type 0) where
  -- what an adapter's `fetch` comes to: `FetchResult`, a `SourceFetchError`, or another exception
  pub data FetchAnswer : Type 0 where
    fetched : List Event → List Record → FetchAnswer
    source_fetch_error : String → FetchAnswer
    unexpected_error : String → FetchAnswer

  -- how the producer's `publish` goes (libs/common/kafka_producer.py): it is closed; the event does not
  -- come through `serialize_event` and back; the client library raises, reports a failed delivery or
  -- does not confirm one; a receipt; or an exception that it does not catch
  pub data PublishAnswer : Type 0 where
    producer_closed not_serializable : PublishAnswer
    client_raises delivery_failed unconfirmed : PublishAnswer
    receipt : PublishAnswer
    other_exception : String → PublishAnswer

  -- the answers of the adapters and of the producer, one for each call
  pub record Environment : Type 0 where
    pub fetch : String → ℕ → FetchAnswer
    pub publish : Event → ℕ → PublishAnswer

  -- `IngestionRunner`, with what it did: the calls of `fetch` and of `publish`, the events whose receipt
  -- came, the numbers of `EventSerializationError` and of `PublishError`, and the seconds slept between
  -- attempts
  pub record Runner : Type 0 where
    pub max_retries : ℕ
    pub stats : IngestionStats
    pub metrics : ProducerMetrics
    pub fetches : ℕ
    pub publishes : ℕ
    pub received : List Event
    pub unserialized : ℕ
    pub unpublished : ℕ
    pub slept : List ℕ

  unfoldable pub new_runner : List String → ℕ → Runner
  unfolding new_sources
  new_runner names max_retries = record {
    max_retries = max_retries;
    stats = record {
      total_events_published = 0;
      total_malformed = 0;
      total_errors = 0;
      sources = new_sources names [];
    };
    metrics = record { invalid = 0; produced = 0; producer_errors = 0 };
    fetches = 0;
    publishes = 0;
    received = [];
    unserialized = 0;
    unpublished = 0;
    slept = [];
  }

  -- what both `except` clauses do
  unfoldable pub note_error : String → String → Runner → Runner
  unfolding update_status
  note_error name message r = record r {
    stats = record r.stats {
      total_errors = r.stats.total_errors + 1;
      sources =
          update_status name
            (λ s. record s { last_fetch_success = false; errors = s.errors ++ message ∷ [] })
            r.stats.sources;
    };
    metrics = record r.metrics { producer_errors = r.metrics.producer_errors + 1 };
  }

  unfoldable pub note_fetched : String → Runner → Runner
  unfolding update_status
  note_fetched name r = record r {
    stats = record r.stats {
      sources = update_status name (λ s. record s { last_fetch_success = true }) r.stats.sources;
    };
  }

  unfoldable pub note_malformed : String → ℕ → Runner → Runner
  unfolding update_status
  note_malformed name n r =
      if ltb 0 n
      then record r {
        stats = record r.stats {
          total_malformed = r.stats.total_malformed + n;
          sources =
              update_status name (λ s. record s { malformed_count = s.malformed_count + n })
                r.stats.sources;
        };
        metrics = record r.metrics { invalid = r.metrics.invalid + n };
      }
      else r

  unfoldable pub note_published : String → ℕ → Runner → Runner
  unfolding update_status
  note_published name n r = record r {
    stats = record r.stats {
      total_events_published = r.stats.total_events_published + n;
      sources =
          update_status name (λ s. record s { events_published = s.events_published + n })
            r.stats.sources;
    };
    metrics = record r.metrics { produced = r.metrics.produced + n };
  }

  module _ (env : Environment) where
    unfoldable pub called : Runner → Runner
    called r = record r { publishes = r.publishes + 1 }

    -- the exceptions of the producer, with the counters that it increments before it raises them
    unfoldable pub raise_serialization_error : Runner → Runner
    raise_serialization_error r = record r {
      unserialized = r.unserialized + 1;
      metrics = record r.metrics {
        invalid = r.metrics.invalid + 1;
        producer_errors = r.metrics.producer_errors + 1;
      };
    }

    unfoldable pub raise_publish_error : Runner → Runner
    raise_publish_error r = record r {
      unpublished = r.unpublished + 1;
      metrics = record r.metrics { producer_errors = r.metrics.producer_errors + 1 };
    }

    unfoldable pub return_receipt : Event → Runner → Runner
    return_receipt event r = record r {
      received = r.received ++ event ∷ [];
      metrics = record r.metrics { produced = r.metrics.produced + 1 };
    }

    -- `_publish_event` with the producer's `publish`: whether a receipt came, or an exception that
    -- neither catches
    unfoldable pub publish_event : Event → Exec Runner String Bool
    unfolding called raise_serialization_error raise_publish_error return_receipt
    publish_event event r = elim (env.publish event r.publishes) [
      | producer_closed ↦ (ok false, raise_publish_error (called r))
      | not_serializable ↦ (ok false, raise_serialization_error (called r))
      | client_raises ↦ (ok false, raise_publish_error (called r))
      | delivery_failed ↦ (ok false, raise_publish_error (called r))
      | unconfirmed ↦ (ok false, raise_publish_error (called r))
      | receipt ↦ (ok true, return_receipt event (called r))
      | other_exception message ↦ (err message, called r)
    ]

    -- the loop over the events, with the number of receipts so far
    unfoldable pub publish_all : List Event → ℕ → Exec Runner String ℕ
    unfolding publish_event
    publish_all [] published = pure published
    publish_all (event ∷ events) published = publish_event event >>= λ came.
        publish_all events (if came then published + 1 else published)

    -- the end of an attempt whose fetch returned
    unfoldable pub finish_publish : String → Result String ℕ × Runner → Runner
    unfolding note_published note_error
    finish_publish name (ok published, r) = note_published name published r
    finish_publish name (err message, r) = note_error name message r

    unfoldable pub deliver : String → List Event → List Record → Runner → Runner
    unfolding note_fetched note_malformed publish_all finish_publish
    deliver name events malformed r =
        finish_publish name
          (publish_all events 0 (note_malformed name (length malformed) (note_fetched name r)))

    -- `2 ** n`
    unfoldable pub power_of_two : ℕ → ℕ
    power_of_two zero = 1
    power_of_two (suc n) = 2 * power_of_two n

    unfoldable pub back_off : ℕ → Runner → Runner
    unfolding power_of_two
    back_off attempt r =
        if leb attempt r.max_retries
        then record r { slept = r.slept ++ power_of_two (attempt - 1) ∷ [] }
        else r

    unfoldable pub fetch_call : Runner → Runner
    fetch_call r = record r { fetches = r.fetches + 1 }

    -- the `while` loop, with the rounds that are left and the attempts that failed
    unfoldable pub attempts : String → ℕ → ℕ → Runner → Runner
    unfolding deliver note_error back_off fetch_call
    attempts name zero attempt r = r
    attempts name (suc rounds) attempt r = elim (env.fetch name r.fetches) [
      | fetched events malformed ↦ deliver name events malformed (fetch_call r)
      | source_fetch_error message ↦
          attempts name rounds (attempt + 1)
            (back_off (attempt + 1) (note_error name message (fetch_call r)))
      | unexpected_error message ↦ note_error name message (fetch_call r)
    ]

    -- while attempt <= max_retries, from attempt 0: max_retries + 1 rounds
    unfoldable pub fetch_and_publish : String → Runner → Runner
    unfolding attempts
    fetch_and_publish name r = attempts name (suc r.max_retries) 0 r

    unfoldable pub run_once : List String → Runner → Runner
    unfolding fetch_and_publish
    run_once [] r = r
    run_once (name ∷ names) r = run_once names (fetch_and_publish name r)

    -- `run_continuous`, for so many cycles
    unfoldable pub run_cycles : ℕ → List String → Runner → Runner
    unfolding run_once
    run_cycles zero names r = r
    run_cycles (suc n) names r = run_cycles n names (run_once names r)
