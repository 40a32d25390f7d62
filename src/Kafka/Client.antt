-- ===== src/Kafka/Client.antt =====
-- `KafkaConsumer` of libs/common/kafka_consumer.py: the object, `poll`, the commits and `close`.
-- Logging is left out.
use agentic_data_engineering.Kafka.Broker.{
  BrokerMessage, Polled, poll_raises, nothing, partition_eof, transport_error, other_error, message,
  CommitReply, commit_raises, replied, Outcome, TopicPartition, Failure, no_value, not_an_event,
  DeadLetter, Exception, consumer_closed, kafka_exception, missing_metadata,
}
use agentic_data_engineering.Base.{
  ℕ, ◌+◌, String, Bool, true, ◌||◌, Option, none, some, List, [], ◌∷◌, ◌++◌, if◌then◌else◌, exists,
  select,
}
use agentic_data_engineering.Base.Equality.{nat_eq, string_eq, option_eq}
use agentic_data_engineering.Base.Exec.{Result, ok, err, Exec, pure, raise, modify, ◌>>=◌, ◌>>◌}

-- The counters of `KafkaMetrics` that the consumer raises.
pub record KafkaMetrics : Type 0 where
  pub consumed : ℕ
  pub processed_count : ℕ
  pub invalid : ℕ
  pub consumer_errors : ℕ
  pub processing_errors : ℕ
  pub dead_lettered : ℕ

-- `ConsumerMessage`
pub record ConsumerMessage (Event : Type 0) : Type 0 where
  pub event : Event
  pub topic : String
  pub partition : ℕ
  pub offset : ℕ
  pub raw_value : Option (List ℕ)
  pub headers : List (String × List ℕ)

-- `DeserializationError`
pub record DeserializationError : Type 0 where
  pub topic : String
  pub partition : ℕ
  pub offset : ℕ
  pub error : Failure
  pub raw_value : Option (List ℕ)

module _ (Event : Type 0) where
  -- What is outside of the consumer: whether a signal comes before the nth look at the flag, the
  -- client library's answers, the decoding of a value into an event (`deserialize_event`), the
  -- caller's `process` at each attempt, its `dead_letter` (which returns after an acknowledgement,
  -- or raises), and `uuid5` of a record's place.
  pub record Environment : Type 0 where
    pub group_id : String
    pub signal : ℕ → Bool
    pub broker_poll : Polled
    pub broker_commit : List TopicPartition → CommitReply
    -- of a commit that failed, the offsets that the broker took nevertheless: nothing is known of them
    pub taken_anyway : TopicPartition → Bool
    pub broker_close_raises : Bool
    pub deserialize : List ℕ → Option Event
    pub process : ConsumerMessage Event → ℕ → Outcome
    pub dead_letter : DeadLetter → Bool
    pub record_id : String → String → ℕ → ℕ → String

  -- The consumer object, with what it has done: the looks at the flag, the calls of `process` that
  -- succeeded and all calls, the acknowledged dead letters, the commits that the broker took, and
  -- the time slept.
  pub record Consumer : Type 0 where
    pub closed : Bool
    pub shutdown_requested : Bool
    pub looks : ℕ
    pub metrics : KafkaMetrics
    pub calls : ℕ
    pub handled : List (ConsumerMessage Event)
    pub dead_letters : List DeadLetter
    pub commits : List TopicPartition
    pub slept : ℕ

  abbrev pub Action : Type 0 → Type 0
  Action A = Exec Consumer Exception A

  abbrev pub update_metrics : (KafkaMetrics → KafkaMetrics) → Action Unit
  update_metrics f = modify (λ c. record c { metrics = f c.metrics })

  abbrev pub consumer_error : KafkaMetrics → KafkaMetrics
  consumer_error m = record m { consumer_errors = m.consumer_errors + 1 }

  module _ (env : Environment) where
    -- `is_shutdown_requested`; a signal may have come since the last look
    unfoldable pub is_shutdown_requested : Action Bool
    is_shutdown_requested c =
        let requested = c.shutdown_requested || env.signal c.looks in
        (ok requested, record c { shutdown_requested = requested; looks = c.looks + 1 })

    -- `close`; an exception of the client library is counted and swallowed
    unfoldable pub close : Action Unit
    close c = (
      ok tt,
      if c.closed then c else record c {
        closed = true;
        metrics = if env.broker_close_raises then consumer_error c.metrics else c.metrics;
      },
    )

    -- the `try` of `poll` around the deserialization
    unfoldable pub decode : Option (List ℕ) → Result Failure Event
    decode none = err no_value
    decode (some value) = elim (env.deserialize value) [ none ↦ err not_an_event | some e ↦ ok e ]

    -- the end of `poll`: a message with its metadata
    unfoldable pub receive :
        String
        → ℕ
        → ℕ
        → BrokerMessage
        → Action (List (ConsumerMessage Event) × List DeserializationError)
    unfolding decode
    receive topic partition offset msg c = elim (decode msg.value) [
      | ok e ↦ (
        ok (
          record {
            event = e;
            topic = topic;
            partition = partition;
            offset = offset;
            raw_value = msg.value;
            headers = msg.headers;
          }
              ∷ [],
          [],
        ),
        c,
      )
      | err f ↦ (
        ok (
          [],
          record {
            topic = topic;
            partition = partition;
            offset = offset;
            error = f;
            raw_value = msg.value;
          }
              ∷ [],
        ),
        record c { metrics = record c.metrics { invalid = c.metrics.invalid + 1 } },
      )
    ]

    -- the metadata test of `poll`
    unfoldable pub check_metadata :
        Option String
        → Option ℕ
        → Option ℕ
        → BrokerMessage
        → Action (List (ConsumerMessage Event) × List DeserializationError)
    unfolding receive
    check_metadata (some topic) (some partition) (some offset) msg =
        receive topic partition offset msg
    check_metadata _ _ _ msg = update_metrics consumer_error >> raise missing_metadata

    -- the answer of the client library, as `poll` reads it
    unfoldable pub read_broker :
        Polled → Action (List (ConsumerMessage Event) × List DeserializationError)
    unfolding check_metadata
    read_broker poll_raises = update_metrics consumer_error >> raise kafka_exception
    read_broker nothing = pure ([], [])
    read_broker partition_eof = pure ([], [])
    read_broker transport_error = update_metrics consumer_error >> pure ([], [])
    read_broker other_error = update_metrics consumer_error >> raise kafka_exception
    read_broker (message msg) = do
      update_metrics (λ m. record m { consumed = m.consumed + 1 })
      check_metadata msg.topic msg.partition msg.offset msg

    unfoldable pub poll : Action (List (ConsumerMessage Event) × List DeserializationError)
    unfolding read_broker is_shutdown_requested
    poll c =
        if c.closed
        then (err consumer_closed, c)
        else (do
          stop ← is_shutdown_requested
          if stop then pure ([], []) else read_broker env.broker_poll)
            c

    -- the `except` clause of `commit_offsets`
    unfoldable pub commit_failed : List TopicPartition → Action Unit
    commit_failed offsets c =
        (update_metrics consumer_error >> raise kafka_exception)
          (record c { commits = c.commits ++ select env.taken_anyway offsets })

    unfoldable pub commit_offsets : List TopicPartition → Action Unit
    unfolding commit_failed
    commit_offsets offsets c =
        if c.closed then (err consumer_closed, c) else elim (env.broker_commit offsets) [
          | commit_raises ↦ commit_failed offsets c
          | replied marks ↦
              (if exists (λ b. b) marks
                then commit_failed offsets c
                else (ok tt, record c { commits = c.commits ++ offsets }))
        ]

    -- `commit_message`
    unfoldable pub commit_message : ConsumerMessage Event → Action Unit
    unfolding commit_offsets
    commit_message m =
        commit_offsets
          (record { topic = m.topic; partition = m.partition; offset = m.offset + 1 } ∷ [])
