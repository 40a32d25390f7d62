-- ===== src/Kafka/Consumer/Commits.antt =====
-- What one call of `process_next` commits, on every path.
use agentic_data_engineering.Kafka.Consumer.Attempts.{
  Quiet, LoopReport, close-Quiet, attempt_loop-LoopReport,
}
use agentic_data_engineering.Kafka.Consumer.Settling.{FinishReport, looked, finish-FinishReport}
use agentic_data_engineering.Kafka.Broker.{
  BrokerMessage, consumer_closed, RetryPolicy, Failure, Exception, Polled, message, poll_raises,
  nothing, partition_eof, transport_error, other_error,
}
use agentic_data_engineering.Kafka.Client.{
  ConsumerMessage, DeserializationError, Environment, Consumer, close, poll, is_shutdown_requested,
  read_broker, check_metadata, receive, decode,
}
use agentic_data_engineering.Kafka.Consumer.{
  LoopEnd, shut_down, settled, Place, message_place, error_place, next_offset, diagnostic_envelope,
  finish_loop, process_polled, process_body, on_exception, process_next, run,
}
use agentic_data_engineering.Base.{
  ℕ, ◌+◌, ◌≤◌, String, ◌≡◌, refl, ap, ◌∙◌, ◌⊎◌, inl, inr, Bool, true, false, ◌||◌, Option, none,
  some, List, [], ◌∷◌, ◌++◌, arith, Bool-cases,
}
use agentic_data_engineering.Base.Equality.{nat_eq, string_eq, option_eq}
use agentic_data_engineering.Base.Exec.{Result, ok, err, continue}

module _ (Event : Type 0) where
  module _ (env : Environment Event) where
    -- The state behind a step that failed or not, for the metrics and the flag only.
    abbrev PollShape :
        Consumer Event
        → Result Exception (List (ConsumerMessage Event) × List DeserializationError)
          × Consumer Event
        → Type 0
    PollShape c (err e, c') = Quiet Event c c'
    PollShape c (ok ([], []), c') = Quiet Event c c'
    PollShape c (ok (m ∷ [], []), c') = Quiet Event c c' × (c'.handled ≡ c.handled)
    PollShape c (ok ([], e ∷ []), c') = Quiet Event c c' × (c'.handled ≡ c.handled)
    PollShape c (ok (_, _), c') = true ≡ false

    -- the counters aside, two states with the same past
    abbrev Past : Consumer Event → Consumer Event → Type 0
    Past c c' = Quiet Event c c' × (c'.handled ≡ c.handled)

    receive-PollShape :
        (topic : String) (partition offset : ℕ) (msg : BrokerMessage) (c d : Consumer Event)
        → Past c d
        → PollShape c (receive Event env topic partition offset msg d)
    unfolding receive decode
    receive-PollShape topic partition offset msg c d h = ground arith

    check_metadata-PollShape :
        (topic : Option String) (partition offset : Option ℕ) (msg : BrokerMessage)
        (c d : Consumer Event)
        → Past c d
        → PollShape c (check_metadata Event env topic partition offset msg d)
    unfolding check_metadata
    check_metadata-PollShape (some t) (some p) (some o) msg c d h =
        receive-PollShape t p o msg c d h
    check_metadata-PollShape (some t) (some p) none msg c d h = h.0
    check_metadata-PollShape (some t) none o msg c d h = h.0
    check_metadata-PollShape none p o msg c d h = h.0

    read_broker-PollShape :
        (polled : Polled) (c d : Consumer Event)
        → Past c d
        → PollShape c (read_broker Event env polled d)
    unfolding read_broker
    read_broker-PollShape poll_raises c d h = h.0
    read_broker-PollShape nothing c d h = h.0
    read_broker-PollShape partition_eof c d h = h.0
    read_broker-PollShape transport_error c d h = h.0
    read_broker-PollShape other_error c d h = h.0
    read_broker-PollShape (message msg) c d h =
        check_metadata-PollShape msg.topic msg.partition msg.offset msg c
          (record d { metrics = record d.metrics { consumed = d.metrics.consumed + 1 } }) h

    poll-PollShape : (c : Consumer Event) → PollShape c (poll Event env c)
    unfolding poll is_shutdown_requested
    poll-PollShape c = elim (Bool-cases c.closed) [
      | inl e ↦ rw e (refl, refl)
      | inr e ↦ rw e (elim (Bool-cases (c.shutdown_requested || env.signal c.looks)) [
        | inl stop ↦ rw stop (refl, refl)
        | inr go_on ↦ rw go_on (
            read_broker-PollShape env.broker_poll (record c { closed = false })
              (looked Event env (record c { closed = false })) ((refl, refl), refl))
      ])
    ]

    -- One offset is committed, the next one of a record which `process` took or whose dead letter was
    -- acknowledged.
    abbrev pub OneCommitted : Consumer Event → Consumer Event → Type 0
    OneCommitted c c' =
        ((m : ConsumerMessage Event) × (c'.commits
            ≡ c.commits ++ next_offset (message_place m) ∷ [])
          × (c'.handled ≡ c.handled ++ m ∷ [])
          × (c'.dead_letters ≡ c.dead_letters))
        ⊎ ((p : Place) × (f : Failure) × (n : ℕ) × (c'.commits ≡ c.commits ++ next_offset p ∷ [])
            × (c'.handled ≡ c.handled)
            × (c'.dead_letters ≡ c.dead_letters ++ diagnostic_envelope Event env p f n ∷ []))

    -- What one call of `process_next` has done: it committed the offset of a settled record; or it
    -- committed nothing and dead-lettered nothing; or it raised, and then the consumer is closed, and
    -- what it committed is nothing or the offset of a settled record.
    abbrev pub Report : Consumer Event → Result Exception Bool × Consumer Event → Type 0
    Report c (ok true, c') = OneCommitted c c'
    Report c (ok false, c') = Quiet Event c c'
    Report c (err e, c') = ((c'.commits ≡ c.commits) ⊎ OneCommitted c c') × (c'.closed ≡ true)

    -- the report before `close`
    abbrev Ended : Consumer Event → Result Exception Bool × Consumer Event → Type 0
    Ended c (ok b, c') = Report c (ok b, c')
    Ended c (err e, c') = (c'.commits ≡ c.commits) ⊎ OneCommitted c c'

    Ended-handled :
        (m : ConsumerMessage Event) (n : ℕ) (c d : Consumer Event)
        (x : Result Exception Bool × Consumer Event)
        → Quiet Event c d
        → d.handled ≡ c.handled ++ m ∷ []
        → FinishReport Event env (message_place m) none n d x
        → Ended c x
    Ended-handled m n c d (ok true, c') q h r = inl (m, ground arith, ground arith, ground arith)
    Ended-handled m n c d (ok false, c') q h r = ground arith
    Ended-handled m n c d (err e, c') q h (inl r) = inl (r ∙ q.0)
    Ended-handled m n c d (err e, c') q h (inr r) =
        inr (inl (m, ground arith, ground arith, ground arith))

    Ended-failed :
        (p : Place) (f : Failure) (n : ℕ) (c d : Consumer Event)
        (x : Result Exception Bool × Consumer Event)
        → Past c d
        → FinishReport Event env p (some f) n d x
        → Ended c x
    Ended-failed p f n c d (ok true, c') q r =
        inr (p, f, n, ground arith, ground arith, ground arith)
    Ended-failed p f n c d (ok false, c') q r = ground arith
    Ended-failed p f n c d (err e, c') q (inl r) = inl (r ∙ q.0.0)
    Ended-failed p f n c d (err e, c') q (inr r) =
        inr (inr (p, f, n, ground arith, ground arith, ground arith))

    -- the record of a message, behind the loop over its attempts
    abbrev settle :
        ConsumerMessage Event
        → Result Exception LoopEnd × Consumer Event
        → Result Exception Bool × Consumer Event
    settle m (r, d) = continue r (λ end. finish_loop Event env (message_place m) end) d

    settle-Ended :
        (m : ConsumerMessage Event) (k : ℕ) (c d : Consumer Event)
        (x : Result Exception LoopEnd × Consumer Event)
        → 1 ≤ k
        → Past c d
        → LoopReport Event m k none d x
        → Ended c (settle m x)
    unfolding finish_loop
    settle-Ended m k c d (err e, c') l q r = inl (r.0 ∙ q.0.0)
    settle-Ended m k c d (ok shut_down, c') l q r = ground arith
    settle-Ended m k c d (ok (settled none n), c') l q (r, inl h) =
        Ended-handled m n c c' _ (ground arith) (ground arith)
          (finish-FinishReport Event env (message_place m) none n c')
    settle-Ended m k c d (ok (settled none n), c') l q (r, inr h) = absurd (omega arith)
    settle-Ended m k c d (ok (settled (some f) n), c') l q r =
        Ended-failed (message_place m) f n c c' _ (ground arith)
          (finish-FinishReport Event env (message_place m) (some f) n c')

    -- the rest of the body, behind `poll`
    abbrev polled_body :
        RetryPolicy
        → Result Exception (List (ConsumerMessage Event) × List DeserializationError)
          × Consumer Event
        → Result Exception Bool × Consumer Event
    polled_body policy (r, d) =
        continue r (λ (messages, errors). process_polled Event env policy messages errors) d

    polled_body-Ended :
        (policy : RetryPolicy) (c : Consumer Event)
        (x : Result Exception (List (ConsumerMessage Event) × List DeserializationError)
          × Consumer Event)
        → 1 ≤ policy.max_attempts
        → PollShape c x
        → Ended c (polled_body policy x)
    unfolding process_polled
    polled_body-Ended policy c (err e, d) h q = inl q.0
    polled_body-Ended policy c (ok ([], []), d) h q = q
    polled_body-Ended policy c (ok (m ∷ [], []), d) h q =
        settle-Ended m policy.max_attempts c d _ h q
          (attempt_loop-LoopReport Event env policy m policy.max_attempts 0 none d)
    polled_body-Ended policy c (ok ([], e ∷ []), d) h q =
        Ended-failed (error_place e) e.error 0 c d _ q
          (finish-FinishReport Event env (error_place e) (some e.error) 0 d)
    polled_body-Ended policy c (ok ([], e ∷ e' ∷ es), d) h q = absurd (ground arith)
    polled_body-Ended policy c (ok (m ∷ ms, e ∷ es), d) h q = absurd (ground arith)
    polled_body-Ended policy c (ok (m ∷ m' ∷ ms, []), d) h q = absurd (ground arith)

    close-closed : (c : Consumer Event) → (close Event env c).1.closed ≡ true
    unfolding close
    close-closed c = ground arith

    close-handled : (c : Consumer Event) → (close Event env c).1.handled ≡ c.handled
    unfolding close
    close-handled c = ground arith

    on_exception-Report :
        (c : Consumer Event) (x : Result Exception Bool × Consumer Event)
        → Ended c x
        → Report c (on_exception Event env x)
    unfolding on_exception
    on_exception-Report c (ok b, c') h = h
    on_exception-Report c (err e, c') h = (closing h, close-closed c')
      where
        closing :
            (c'.commits ≡ c.commits) ⊎ OneCommitted c c'
            → ((close Event env c').1.commits ≡ c.commits) ⊎ OneCommitted c (close Event env c').1
        closing (inl r) = inl ((close-Quiet Event env c').0 ∙ r)
        closing (inr (inl (m, a, b, d))) =
            let q = close-Quiet Event env c' in
            inr (inl (m, q.0 ∙ a, close-handled c' ∙ b, q.1 ∙ d))
        closing (inr (inr (p, f, n, a, b, d))) =
            let q = close-Quiet Event env c' in
            inr (inr (p, f, n, q.0 ∙ a, close-handled c' ∙ b, q.1 ∙ d))

    -- Under a retry policy that allows an attempt, a call of `process_next` commits one offset, the
    -- next one of a record that `process` took or whose dead letter was acknowledged, and returns
    -- true; or it returns false, having committed nothing and dead-lettered nothing; or it raises, having
    -- closed the consumer, and what the broker took then is nothing or, of a commit that failed, the
    -- next offset of a record that `process` took or whose dead letter was acknowledged.
    pub process_next-Report :
        (policy : RetryPolicy) (c : Consumer Event)
        → 1 ≤ policy.max_attempts
        → Report c (process_next Event env policy c)
    unfolding process_next process_body
    process_next-Report policy c h =
        on_exception-Report c _ (polled_body-Ended policy c (poll Event env c) h (poll-PollShape c))

    -- A closed consumer refuses the next call and stays as it is.
    pub process_next-closed :
        (policy : RetryPolicy) (c : Consumer Event)
        → c.closed ≡ true
        → process_next Event env policy c ≡ (err consumer_closed, c)
    unfolding process_next process_body on_exception poll close
    process_next-closed policy c h = rw (h, poll, close) refl

    on_exception-closed :
        (e : Exception) (x : Result Exception Bool × Consumer Event)
        → (on_exception Event env x).0 ≡ err e
        → (on_exception Event env x).1.closed ≡ true
    unfolding on_exception
    on_exception-closed e (ok b, c) h = absurd (ground arith)
    on_exception-closed e (err e', c) h = close-closed c

    raised-closed :
        (policy : RetryPolicy) (c : Consumer Event) (e : Exception)
        → (process_next Event env policy c).0 ≡ err e
        → (process_next Event env policy c).1.closed ≡ true
    unfolding process_next
    raised-closed policy c e h = on_exception-closed e (process_body Event env policy c) h

  run_closed :
      (policy : RetryPolicy) (envs : List (Environment Event)) (c : Consumer Event)
      → c.closed ≡ true
      → run Event policy envs c ≡ c
  unfolding run
  run_closed policy [] c h = refl
  run_closed policy (env ∷ envs) c h =
      rw (process_next-closed env policy c h) (run_closed policy envs c h)

  -- A call of `process_next` that raises is the last one with an effect: whatever the later calls
  -- meet, they leave the consumer, its commits and its dead letters as the exception left them.
  pub run_after_error :
      (policy : RetryPolicy) (env : Environment Event) (envs : List (Environment Event))
      (c c' : Consumer Event) (e : Exception)
      → process_next Event env policy c ≡ (err e, c')
      → run Event policy (env ∷ envs) c ≡ c'
  unfolding run
  run_after_error policy env envs c c' e h =
      run_closed policy envs _ (raised-closed env policy c e (ap (λ x. x.0) h)) ∙ ap (λ x. x.1) h
