-- ===== src/Kafka/Tests.antt =====
-- The consumer at concrete messages, and the theorems on `process_next` applied.
use agentic_data_engineering.Kafka.Broker.{
  message, commit_raises, replied, processed, transient_error, RetryPolicy, transient,
  kafka_exception, poll_raises,
}
use agentic_data_engineering.Kafka.Client.{
  KafkaMetrics, ConsumerMessage, Environment, Consumer, poll, close,
}
use agentic_data_engineering.Kafka.Consumer.{
  message_place, diagnostic_envelope, process_polled, process_next, run, process_body, on_exception,
}
use agentic_data_engineering.Kafka.Consumer.Commits.{Report, process_next-Report, run_after_error}
use agentic_data_engineering.Kafka.Consumer.Recovery.{
  Committed, process_polled_recovers, process_polled_exhausted,
}
use agentic_data_engineering.Base.{
  ℕ, ◌+◌, String, ◌≡◌, refl, true, false, some, [], ◌∷◌, arith, ltb, if◌then◌else◌,
}
use agentic_data_engineering.Base.Equality.{nat_eq, string_eq, option_eq}

abbrev metrics : KafkaMetrics
metrics = record {
  consumed = 0;
  processed_count = 0;
  invalid = 0;
  consumer_errors = 0;
  processing_errors = 0;
  dead_lettered = 0;
}

abbrev fresh : Consumer String
fresh = record {
  closed = false;
  shutdown_requested = false;
  looks = 0;
  metrics = metrics;
  calls = 0;
  handled = [];
  dead_letters = [];
  commits = [];
  slept = 0;
}

abbrev closed_one : Consumer String
closed_one = record fresh { closed = true }

-- a broker with one message, and a `process` that fails before its attempt `k + 1`
abbrev failing : ℕ → Environment String
failing k = record {
  group_id = "g";
  signal = λ i. false;
  broker_poll = message (record {
    topic = some "t";
    partition = some 0;
    offset = some 4;
    value = some [];
    headers = [];
  });
  broker_commit = λ offsets. replied [];
  taken_anyway = λ offset. false;
  broker_close_raises = false;
  deserialize = λ bytes. some "event";
  process = λ m attempt. if ltb k attempt then processed else transient_error;
  dead_letter = λ letter. true;
  record_id = λ g t p o. "id";
}

-- a broker whose `poll` raises
abbrev broken : Environment String
broken = record (failing 0) { broker_poll = poll_raises }

abbrev message_4 : ConsumerMessage String
message_4 = record {
  event = "event";
  topic = "t";
  partition = 0;
  offset = 4;
  raw_value = some [];
  headers = [];
}

abbrev thrice : RetryPolicy
thrice = record { max_attempts = 3; backoff = 100 }

-- a broker whose commit raises, having taken the offset
abbrev uncertain : Environment String
uncertain = record (failing 1) {
  broker_commit = λ offsets. commit_raises;
  taken_anyway = λ offset. true;
}

process_next-Report_example :
    Report String uncertain fresh (process_next String uncertain thrice fresh)
process_next-Report_example = process_next-Report String uncertain thrice fresh (omega arith)

-- the consumer that the broken broker leaves
abbrev stopped : Consumer String
stopped = record fresh {
  closed = true;
  looks = 1;
  metrics = record metrics { consumer_errors = 1 };
}

run_after_error_example : run String thrice (broken ∷ failing 0 ∷ []) fresh ≡ stopped
unfolding process_next process_body on_exception poll close
run_after_error_example =
    run_after_error String thrice broken (failing 0 ∷ []) fresh stopped kafka_exception refl

process_polled_recovers_example :
    let y = process_polled String (failing 1) thrice (message_4 ∷ []) [] fresh in
    Committed String (failing 1) (message_place message_4) fresh (1 + 1) y
    × (y.1.handled ≡ message_4 ∷ [])
process_polled_recovers_example =
    process_polled_recovers String (failing 1) thrice message_4 1 fresh
      (λ i. refl, λ o. refl, λ l. refl) (refl, refl) (omega arith) (λ i l. ground arith) refl

process_polled_exhausted_example :
    let y = process_polled String (failing 5) thrice (message_4 ∷ []) [] fresh in
    Committed String (failing 5) (message_place message_4) fresh 3 y
    × (y.1.dead_letters
        ≡ diagnostic_envelope String (failing 5) (message_place message_4) transient 3 ∷ [])
process_polled_exhausted_example =
    process_polled_exhausted String (failing 5) thrice message_4 fresh
      (λ i. refl, λ o. refl, λ l. refl) (refl, refl) (omega arith) (λ i l. ground arith)
