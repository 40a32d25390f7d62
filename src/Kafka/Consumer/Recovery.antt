-- ===== src/Kafka/Consumer/Recovery.antt =====
-- A message from its first attempt to its commit, when no signal comes and the broker answers.
use agentic_data_engineering.Kafka.Consumer.Retries.{
  IsCalm, IsReady, IsTransient, LoopEnds, go_on, attempt_loop_recovers, attempt_loop_exhausted,
}
use agentic_data_engineering.Kafka.Broker.{processed, RetryPolicy, Failure, transient, Exception}
use agentic_data_engineering.Kafka.Client.{
  ConsumerMessage, Environment, Consumer, commit_offsets, is_shutdown_requested,
}
use agentic_data_engineering.Kafka.Consumer.{
  LoopEnd, settled, Place, message_place, next_offset, diagnostic_envelope, attempt_loop, deliver,
  finish, finish_loop, process_polled,
}
use agentic_data_engineering.Base.{
  ℕ, ◌+◌, ◌≤◌, ◌<◌, ◌≡◌, ap, ◌∙◌, Bool, true, none, some, [], ◌∷◌, ◌++◌, arith,
}
use agentic_data_engineering.Base.Equality.{nat_eq, string_eq, option_eq}
use agentic_data_engineering.Base.Exec.{Result, ok, continue}

module _ (Event : Type 0) (env : Environment Event) where
  -- the end of a settled record, in calm
  finish_calm :
      (p : Place) (n : ℕ) (c : Consumer Event)
      → IsCalm Event env
      → IsReady Event env c
      → let x = finish Event env p none n c in
        (x.0 ≡ ok true)
        × (x.1.commits ≡ c.commits ++ next_offset p ∷ [])
        × (x.1.handled ≡ c.handled)
        × (x.1.calls ≡ c.calls)
  unfolding finish deliver is_shutdown_requested commit_offsets
  finish_calm p n c calm (o, s) =
      rw (go_on Event env c calm s) (rw (calm.1 (next_offset p ∷ [])) (ground arith))

  finish_failed_calm :
      (p : Place) (f : Failure) (n : ℕ) (c : Consumer Event)
      → IsCalm Event env
      → IsReady Event env c
      → let x = finish Event env p (some f) n c in
        (x.0 ≡ ok true)
        × (x.1.commits ≡ c.commits ++ next_offset p ∷ [])
        × (x.1.dead_letters ≡ c.dead_letters ++ diagnostic_envelope Event env p f n ∷ [])
        × (x.1.calls ≡ c.calls)
  unfolding finish deliver is_shutdown_requested commit_offsets
  finish_failed_calm p f n c calm (o, s) = rw (go_on Event env c calm s) (
      rw (calm.2 (diagnostic_envelope Event env p f n))
        (rw (calm.1 (next_offset p ∷ [])) (ground arith)))

  -- what a message leaves that was committed after `n` calls of `process`
  abbrev pub Committed :
      Place → Consumer Event → ℕ → Result Exception Bool × Consumer Event → Type 0
  Committed p c n x =
      (x.0 ≡ ok true) × (x.1.commits ≡ c.commits ++ next_offset p ∷ []) × (x.1.calls ≡ c.calls + n)

  recovered :
      (m : ConsumerMessage Event) (k : ℕ) (c : Consumer Event)
      (x : Result Exception LoopEnd × Consumer Event)
      → IsCalm Event env
      → IsReady Event env c
      → LoopEnds Event env none (0 + k + 1) c (k + 1) (m ∷ []) x
      → let y = continue x.0 (λ end. finish_loop Event env (message_place m) end) x.1 in
        Committed (message_place m) c (k + 1) y × (y.1.handled ≡ c.handled ++ m ∷ [])
  unfolding finish_loop
  recovered m k c x calm ready (e, l) =
      let f = finish_calm (message_place m) (0 + k + 1) x.1 calm (l.0 ∙ ready.0, l.1) in
      rw e ((f.0, rw (← l.2) f.1, omega (arith, f.3, l.4)), rw (← l.5) f.2)

  -- In calm, a message whose first `k` attempts meet a transient error and whose next attempt is
  -- processed, within the attempts that the policy allows, is handled and committed by `k + 1` calls.
  pub process_polled_recovers :
      (policy : RetryPolicy) (m : ConsumerMessage Event) (k : ℕ) (c : Consumer Event)
      → IsCalm Event env
      → IsReady Event env c
      → k < policy.max_attempts
      → IsTransient Event env m 0 k
      → env.process m (0 + k + 1) ≡ processed
      → let y = process_polled Event env policy (m ∷ []) [] c in
        Committed (message_place m) c (k + 1) y × (y.1.handled ≡ c.handled ++ m ∷ [])
  unfolding process_polled
  process_polled_recovers policy m k c calm ready l t p =
      recovered m k c (attempt_loop Event env policy m policy.max_attempts 0 none c) calm ready
        (attempt_loop_recovers Event env policy m k policy.max_attempts 0 none c calm ready.1 l t p)

  gave_up :
      (m : ConsumerMessage Event) (n : ℕ) (c : Consumer Event)
      (x : Result Exception LoopEnd × Consumer Event)
      → IsCalm Event env
      → IsReady Event env c
      → LoopEnds Event env (some transient) n c n [] x
      → let y = continue x.0 (λ end. finish_loop Event env (message_place m) end) x.1 in
        Committed (message_place m) c n y
        × (y.1.dead_letters
            ≡ c.dead_letters ++ diagnostic_envelope Event env (message_place m) transient n ∷ [])
  unfolding finish_loop
  gave_up m n c x calm ready (e, l) =
      let f = finish_failed_calm (message_place m) transient n x.1 calm (l.0 ∙ ready.0, l.1) in
      rw e ((f.0, rw (← l.2) f.1, omega (arith, f.3, l.4)), rw (← l.3) f.2)

  -- In calm, a message whose attempts all meet a transient error goes to the dead-letter topic after
  -- exactly the attempts that the policy allows, with their number in the letter, and is committed.
  pub process_polled_exhausted :
      (policy : RetryPolicy) (m : ConsumerMessage Event) (c : Consumer Event)
      → IsCalm Event env
      → IsReady Event env c
      → 1 ≤ policy.max_attempts
      → IsTransient Event env m 0 policy.max_attempts
      → let y = process_polled Event env policy (m ∷ []) [] c in
        Committed (message_place m) c policy.max_attempts y
        × (y.1.dead_letters
            ≡ c.dead_letters
              ++ diagnostic_envelope Event env (message_place m) transient policy.max_attempts ∷ [])
  unfolding process_polled
  process_polled_exhausted policy m c calm ready l t =
      let (e, left) =
        attempt_loop_exhausted Event env policy m policy.max_attempts 0 none c calm ready.1 l t in
      let n : 0 + policy.max_attempts ≡ policy.max_attempts = omega arith in
      gave_up m policy.max_attempts c (attempt_loop Event env policy m policy.max_attempts 0 none c)
        calm ready (e ∙ ap (λ z. ok (settled (some transient) z)) n, left)
