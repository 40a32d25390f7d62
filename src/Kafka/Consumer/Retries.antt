-- ===== src/Kafka/Consumer/Retries.antt =====
-- The attempts of `process_next` at one record: how many it makes, and how they end when no signal
-- comes and the broker answers.
use agentic_data_engineering.Kafka.Consumer.Attempts.{after_transient, Outcome-cases}
use agentic_data_engineering.Kafka.Broker.{
  TopicPartition, DeadLetter, replied, processed, transient_error, RetryPolicy, Failure, transient,
  Exception,
}
use agentic_data_engineering.Kafka.Client.{ConsumerMessage, Environment, Consumer, close}
use agentic_data_engineering.Kafka.Consumer.{LoopEnd, settled, attempt_loop}
use agentic_data_engineering.Base.{
  ℕ, zero, suc, ◌+◌, ◌≤◌, ◌<◌, ◌≡◌, refl, sym, ap, ◌∙◌, inl, inr, true, false, ◌||◌, Option, none,
  some, List, [], ◌∷◌, ◌++◌, append-nil, arith, Bool-cases,
}
use agentic_data_engineering.Base.Equality.{nat_eq, string_eq, option_eq}
use agentic_data_engineering.Base.Exec.{Result, ok}

module _ (Event : Type 0) (env : Environment Event) where
  -- No signal comes, and the broker takes every commit and every dead letter.
  abbrev pub IsCalm : Type 0
  IsCalm =
      ((i : ℕ) → env.signal i ≡ false)
      × ((offsets : List TopicPartition) → env.broker_commit offsets ≡ replied [])
      × ((letter : DeadLetter) → env.dead_letter letter ≡ true)

  -- Open, and not asked to shut down.
  abbrev pub IsReady : Consumer Event → Type 0
  IsReady c = (c.closed ≡ false) × (c.shutdown_requested ≡ false)

  -- The attempts `n + 1` to `n + k` meet a transient error.
  abbrev pub IsTransient : ConsumerMessage Event → ℕ → ℕ → Type 0
  IsTransient m n k = (i : ℕ) → i < k → env.process m (n + i + 1) ≡ transient_error

  -- Whatever the attempts meet, the loop with `rounds` rounds left calls `process` at most that often.
  pub attempt_loop-calls :
      (policy : RetryPolicy) (m : ConsumerMessage Event) (rounds n : ℕ) (failure : Option Failure)
      (c : Consumer Event)
      → (attempt_loop Event env policy m rounds n failure c).1.calls ≤ c.calls + rounds
  unfolding attempt_loop close
  attempt_loop-calls policy m zero n failure c = omega arith
  attempt_loop-calls policy m (suc rounds) n failure c =
      elim (Bool-cases (c.shutdown_requested || env.signal c.looks)) [
        | inl stop ↦ rw stop (ground arith)
        | inr go_on ↦ rw go_on (elim (Outcome-cases (env.process m (n + 1))) [
          | inl e ↦ rw e (omega arith)
          | inr (inl e) ↦ rw e (
              omega (
                arith,
                attempt_loop-calls policy m rounds (n + 1) (some transient)
                    (after_transient Event policy (n + 1) c),
              ))
          | inr (inr (inl e)) ↦ rw e (omega arith)
          | inr (inr (inr e)) ↦ rw e (omega arith)
        ])
      ]

  -- what the loop leaves, from `c`, after `n` more calls of `process`
  abbrev pub Left : Consumer Event → ℕ → List (ConsumerMessage Event) → Consumer Event → Type 0
  Left c n ms d =
      (d.closed ≡ c.closed)
      × (d.shutdown_requested ≡ false)
      × (d.commits ≡ c.commits)
      × (d.dead_letters ≡ c.dead_letters)
      × (d.calls ≡ c.calls + n)
      × (d.handled ≡ c.handled ++ ms)

  abbrev pub LoopEnds :
      Option Failure
      → ℕ
      → Consumer Event
      → ℕ
      → List (ConsumerMessage Event)
      → Result Exception LoopEnd × Consumer Event
      → Type 0
  LoopEnds failure attempts c n ms x = (x.0 ≡ ok (settled failure attempts)) × Left c n ms x.1

  LoopEnds-map :
      (policy : RetryPolicy) (failure : Option Failure) (a attempts attempts' : ℕ)
      (c : Consumer Event) (n n' : ℕ) (ms : List (ConsumerMessage Event))
      (x : Result Exception LoopEnd × Consumer Event)
      → attempts ≡ attempts'
      → n' ≡ n + 1
      → LoopEnds failure attempts (after_transient Event policy a c) n ms x
      → LoopEnds failure attempts' c n' ms x
  LoopEnds-map policy failure a attempts attempts' c n n' ms x e e' h = (
    h.0 ∙ ap (λ z. ok (settled failure z)) e,
    (h.1.0, h.1.1, h.1.2, h.1.3, omega (arith, h.1.4), h.1.5),
  )

  pub go_on :
      (c : Consumer Event)
      → IsCalm
      → c.shutdown_requested ≡ false
      → (c.shutdown_requested || env.signal c.looks) ≡ false
  go_on c calm s = rw (s, calm.0 c.looks) refl

  IsTransient-first :
      (m : ConsumerMessage Event) (n k : ℕ)
      → IsTransient m n (suc k)
      → env.process m (n + 1) ≡ transient_error
  IsTransient-first m n k t = ap (λ z. env.process m z) (omega arith) ∙ t 0 (omega arith)

  IsTransient-rest :
      (m : ConsumerMessage Event) (n k : ℕ) → IsTransient m n (suc k) → IsTransient m (n + 1) k
  IsTransient-rest m n k t i l = ap (λ z. env.process m z) (omega arith) ∙ t (suc i) (omega arith)

  pub attempt_loop_recovers :
      (policy : RetryPolicy) (m : ConsumerMessage Event) (k rounds n : ℕ) (failure : Option Failure)
      (c : Consumer Event)
      → IsCalm
      → c.shutdown_requested ≡ false
      → k < rounds
      → IsTransient m n k
      → env.process m (n + k + 1) ≡ processed
      → LoopEnds none
          (n + k + 1)
          c
          (k + 1)
          (m ∷ [])
          (attempt_loop Event env policy m rounds n failure c)
  unfolding attempt_loop
  attempt_loop_recovers policy m k zero n failure c calm s l t p = absurd (omega arith)
  attempt_loop_recovers policy m zero (suc rounds) n failure c calm s l t p =
      let next : n + 1 ≡ n + 0 + 1 = omega arith in
      let first : env.process m (n + 1) ≡ env.process m (n + 0 + 1) =
        ap (λ z. env.process m z) next in
      rw (go_on c calm s)
        (rw (first ∙ p) (ap (λ z. ok (settled none z)) next, (refl, refl, refl, refl, refl, refl)))
  attempt_loop_recovers policy m (suc k) (suc rounds) n failure c calm s l t p =
      rw (go_on c calm s) (
        rw (IsTransient-first m n k t) (
          LoopEnds-map policy none (n + 1) (n + 1 + k + 1) (n + suc k + 1) c (k + 1) (suc k + 1)
            (m ∷ [])
            (attempt_loop Event env policy m rounds (n + 1) (some transient)
              (after_transient Event policy (n + 1) c))
            (omega arith) (omega arith)
            (attempt_loop_recovers policy m k rounds (n + 1) (some transient)
              (after_transient Event policy (n + 1) c) calm refl (omega arith)
              (IsTransient-rest m n k t) (ap (λ z. env.process m z) (omega arith) ∙ p))))

  pub attempt_loop_exhausted :
      (policy : RetryPolicy) (m : ConsumerMessage Event) (rounds n : ℕ) (failure : Option Failure)
      (c : Consumer Event)
      → IsCalm
      → c.shutdown_requested ≡ false
      → 1 ≤ rounds
      → IsTransient m n rounds
      → LoopEnds
          (some transient)
          (n + rounds)
          c
          rounds
          []
          (attempt_loop Event env policy m rounds n failure c)
  unfolding attempt_loop
  attempt_loop_exhausted policy m zero n failure c calm s l t = absurd (omega arith)
  attempt_loop_exhausted policy m (suc zero) n failure c calm s l t = rw (go_on c calm s) (
      rw (IsTransient-first m n 0 t)
        (refl, (refl, refl, refl, refl, refl, sym (append-nil c.handled))))
  attempt_loop_exhausted policy m (suc (suc rounds)) n failure c calm s l t = rw (go_on c calm s) (
      rw (IsTransient-first m n (suc rounds) t) (
        LoopEnds-map policy (some transient) (n + 1) (n + 1 + suc rounds) (n + suc (suc rounds)) c
          (suc rounds) (suc (suc rounds)) []
          (attempt_loop Event env policy m (suc rounds) (n + 1) (some transient)
            (after_transient Event policy (n + 1) c))
          (omega arith) (omega arith)
          (attempt_loop_exhausted policy m (suc rounds) (n + 1) (some transient)
            (after_transient Event policy (n + 1) c) calm refl (omega arith)
            (IsTransient-rest m n (suc rounds) t))))
