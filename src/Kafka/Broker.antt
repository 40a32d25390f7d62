-- ===== src/Kafka/Broker.antt =====
-- What the Kafka consumer meets outside of it: the client library, the callbacks of the caller, and
-- the signals. Times are in milliseconds.
use agentic_data_engineering.Base.{ℕ, String, Bool, ◌&&◌, Option, List, leb}
use agentic_data_engineering.Base.Equality.{nat_eq, string_eq, option_eq}

-- A message as the client library hands it over; the metadata and the value may be missing.
pub record BrokerMessage : Type 0 where
  pub topic : Option String
  pub partition : Option ℕ
  pub offset : Option ℕ
  pub value : Option (List ℕ)
  pub headers : List (String × List ℕ)

-- `self._consumer.poll`: `KafkaException`, nothing, an error event, or a message.
pub data Polled : Type 0 where
  poll_raises : Polled
  nothing partition_eof transport_error other_error : Polled
  message : BrokerMessage → Polled

-- `self._consumer.commit`: `KafkaException`, or a reply with an error mark for each partition.
pub data CommitReply : Type 0 where
  commit_raises : CommitReply
  replied : List Bool → CommitReply

-- How a call of `process` ends.
pub data Outcome : Type 0 where
  processed transient_error processing_error unexpected_error : Outcome

-- `TopicPartition`, with the next offset to read
pub record TopicPartition : Type 0 where
  pub topic : String
  pub partition : ℕ
  pub offset : ℕ

-- `RetryPolicy`, of libs/common/kafka_errors.py
pub record RetryPolicy : Type 0 where
  pub max_attempts : ℕ
  pub backoff : ℕ

-- `__post_init__`
unfoldable pub is_policy : RetryPolicy → Bool
is_policy r = leb 1 r.max_attempts && leb r.max_attempts 10 && leb r.backoff 5000

-- The failure of a record that goes to the dead-letter topic.
pub data Failure : Type 0 where
  no_value not_an_event transient permanent : Failure

-- `diagnostic_envelope`, without the time stamp
pub record DeadLetter : Type 0 where
  pub event_id : String
  pub group_id : String
  pub topic : String
  pub partition : ℕ
  pub offset : ℕ
  pub raw_value : Option (List ℕ)
  pub error : Failure
  pub attempts : ℕ

-- What raises out of the consumer.
pub data Exception : Type 0 where
  consumer_closed kafka_exception missing_metadata handler_failed dead_letter_failed : Exception
