-- ===== src/Kafka/Consumer.antt =====
-- `process_next` of libs/common/kafka_consumer.py, and `diagnostic_envelope` of
-- libs/common/kafka_errors.py. Logging is left out.
pub mod Commits
pub mod Attempts
pub mod Settling
pub mod Retries
pub mod Recovery
use agentic_data_engineering.Kafka.Broker.{
  BrokerMessage, Polled, poll_raises, nothing, partition_eof, transport_error, other_error, message,
  CommitReply, commit_raises, replied, Outcome, processed, transient_error, processing_error,
  unexpected_error, TopicPartition, RetryPolicy, Failure, no_value, not_an_event, transient,
  permanent, DeadLetter, Exception, consumer_closed, kafka_exception, missing_metadata,
  handler_failed, dead_letter_failed,
}
use agentic_data_engineering.Base.{
  ℕ, zero, suc, ◌+◌, ◌-◌, ◌*◌, ◌≤◌, ◌<◌, min, String, ◌≡◌, refl, sym, ap, ◌∙◌, ◌≢◌, ◌↔◌, ◌⊎◌, inl,
  inr, Bool, true, false, not, ◌&&◌, ◌||◌, Option, none, some, List, [], ◌∷◌, ◌++◌, map, append-nil,
  append_assoc, arith, ltb, leb, ==_iff, if◌then◌else◌, Bool-cases, Option-cases, is_some, length,
  drop, take, select, exists, count_if, length-append, length-drop, length-select, All, All-append,
  All_map_of,
}
use agentic_data_engineering.Base.Equality.{
  Eq, ◌==◌, nat_eq, string_eq, option_eq, beq_refl, beq-eq, beq_false, beq_sym, beq_cases,
}
use agentic_data_engineering.Base.Dict.{Dict, get, put, remove, get-put, get-remove, dict_laws}
use agentic_data_engineering.Base.Exec.{
  Result, ok, err, Exec, pure, raise, gets, lift, modify, continue, ◌>>=◌, ◌>>◌,
}
use agentic_data_engineering.Kafka.Client.{
  KafkaMetrics, ConsumerMessage, DeserializationError, Environment, Consumer, Action,
  update_metrics, is_shutdown_requested, close, poll, commit_offsets,
}

-- How the loop over the attempts of `process_next` ends.
pub data LoopEnd : Type 0 where
  shut_down : LoopEnd
  settled : Option Failure → ℕ → LoopEnd

-- The place and the bytes of the record that is processed.
pub record Place : Type 0 where
  pub topic : String
  pub partition : ℕ
  pub offset : ℕ
  pub raw_value : Option (List ℕ)

pub message_place : {Event : Type 0} → ConsumerMessage Event → Place
message_place m = record {
  topic = m.topic;
  partition = m.partition;
  offset = m.offset;
  raw_value = m.raw_value;
}

pub error_place : DeserializationError → Place
error_place e = record {
  topic = e.topic;
  partition = e.partition;
  offset = e.offset;
  raw_value = e.raw_value;
}

pub next_offset : Place → TopicPartition
next_offset p = record { topic = p.topic; partition = p.partition; offset = p.offset + 1 }

module _ (Event : Type 0) (env : Environment Event) where
  pub processing_failed : Action Event Unit
  processing_failed =
      update_metrics Event (λ m. record m { processing_errors = m.processing_errors + 1 })

  -- one call of `process`
  pub call_process : ConsumerMessage Event → ℕ → Action Event Outcome
  call_process m attempt c =
      let outcome = env.process m attempt in
      (
        ok outcome,
        record c {
          calls = c.calls + 1;
          handled = elim outcome [ processed ↦ c.handled ++ m ∷ [] | _ ↦ c.handled ];
        },
      )

  -- `time.sleep`, unless the attempts are used up
  pub back_off : RetryPolicy → ℕ → Action Event Unit
  back_off policy attempt c = (
    ok tt,
    record c {
      slept =
          if ltb attempt policy.max_attempts then c.slept + policy.backoff * attempt else c.slept;
    },
  )

  -- the loop over the attempts: the rounds left, the attempts made, and the failure so far
  pub attempt_loop :
      RetryPolicy → ConsumerMessage Event → ℕ → ℕ → Option Failure → Action Event LoopEnd
  unfolding is_shutdown_requested close call_process processing_failed back_off
  attempt_loop policy m zero attempts failure c = (ok (settled failure attempts), c)
  attempt_loop policy m (suc rounds) attempts failure c =
      (do
        stop ← is_shutdown_requested Event env
        if stop then (close Event env >> pure shut_down) else (do
          outcome ← call_process m (attempts + 1)
          elim outcome [
            | processed ↦ pure (settled none (attempts + 1))
            | transient_error ↦ (do
              processing_failed
              back_off policy (attempts + 1)
              attempt_loop policy m rounds (attempts + 1) (some transient))
            | processing_error ↦ processing_failed >> pure (settled (some permanent) (attempts + 1))
            | unexpected_error ↦ processing_failed >> raise handler_failed
          ]))
        c

  pub diagnostic_envelope : Place → Failure → ℕ → DeadLetter
  diagnostic_envelope p f attempts = record {
    event_id = env.record_id env.group_id p.topic p.partition p.offset;
    group_id = env.group_id;
    topic = p.topic;
    partition = p.partition;
    offset = p.offset;
    raw_value = p.raw_value;
    error = f;
    attempts = attempts;
  }

  -- the dead letter of a failed record; the count follows the acknowledgement
  pub deliver : Place → Option Failure → ℕ → Action Event Unit
  unfolding diagnostic_envelope
  deliver p none attempts c = (ok tt, c)
  deliver p (some f) attempts c =
      let letter = diagnostic_envelope p f attempts in
      if env.dead_letter letter
      then (
        ok tt,
        record c {
          dead_letters = c.dead_letters ++ letter ∷ [];
          metrics = record c.metrics { dead_lettered = c.metrics.dead_lettered + 1 };
        },
      )
      else (err dead_letter_failed, c)

  -- the end of `process_next`, once the record is settled
  pub finish : Place → Option Failure → ℕ → Action Event Bool
  finish p failure attempts = do
    stop ← is_shutdown_requested Event env
    if stop then (close Event env >> pure false) else (do
      deliver p failure attempts
      commit_offsets Event env (next_offset p ∷ [])
      update_metrics Event (λ m. record m {
        processed_count = if is_some failure then m.processed_count else m.processed_count + 1;
      })
      pure true)

  pub finish_loop : Place → LoopEnd → Action Event Bool
  finish_loop p shut_down = pure false
  finish_loop p (settled failure attempts) = finish p failure attempts

  -- the body of `process_next` after `poll`
  pub process_polled :
      RetryPolicy → List (ConsumerMessage Event) → List DeserializationError → Action Event Bool
  process_polled policy [] [] = pure false
  process_polled policy [] (e ∷ es) = finish (error_place e) (some e.error) 0
  process_polled policy (m ∷ ms) [] = do
    end ← attempt_loop policy m policy.max_attempts 0 none
    finish_loop (message_place m) end
  process_polled policy (m ∷ ms) (e ∷ es) = do
    end ← attempt_loop policy m policy.max_attempts 0 (some e.error)
    finish_loop (error_place e) end

  unfoldable pub process_body : RetryPolicy → Action Event Bool
  process_body policy = do
    (messages, errors) ← poll Event env
    process_polled policy messages errors

  -- `except BaseException: self.close(); raise`
  unfoldable pub on_exception :
      Result Exception Bool × Consumer Event → Result Exception Bool × Consumer Event
  on_exception (ok b, c) = (ok b, c)
  on_exception (err e, c) = (err e, (close Event env c).1)

  unfoldable pub process_next : RetryPolicy → Action Event Bool
  process_next policy c = on_exception (process_body policy c)

-- A consumer at work: one call of `process_next` after another, each in its own environment.
pub run :
    (Event : Type 0) → RetryPolicy → List (Environment Event) → Consumer Event → Consumer Event
run Event policy [] c = c
run Event policy (env ∷ envs) c = run Event policy envs (process_next Event env policy c).1
