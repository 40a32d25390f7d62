-- ===== src/Kafka/Consumer/Attempts.antt =====
-- The loop of `process_next` over the attempts at one record.
use agentic_data_engineering.Kafka.Broker.{
  Outcome, processed, transient_error, processing_error, unexpected_error, RetryPolicy, Failure,
  transient, Exception,
}
use agentic_data_engineering.Kafka.Client.{ConsumerMessage, Environment, Consumer, close}
use agentic_data_engineering.Kafka.Consumer.{LoopEnd, shut_down, settled, attempt_loop}
use agentic_data_engineering.Base.{
  ℕ, zero, suc, ◌+◌, ◌*◌, ◌≡◌, refl, ◌⊎◌, inl, inr, false, ◌||◌, Option, none, some, [], ◌∷◌, ◌++◌,
  arith, ltb, if◌then◌else◌, Bool-cases,
}
use agentic_data_engineering.Base.Equality.{nat_eq, string_eq, option_eq}
use agentic_data_engineering.Base.Exec.{Result, ok, err}

pub Outcome-cases :
    (o : Outcome)
    → (o ≡ processed) ⊎ ((o ≡ transient_error) ⊎ ((o ≡ processing_error) ⊎ (o ≡ unexpected_error)))
Outcome-cases processed = inl refl
Outcome-cases transient_error = inr (inl refl)
Outcome-cases processing_error = inr (inr (inl refl))
Outcome-cases unexpected_error = inr (inr (inr refl))

module _ (Event : Type 0) where
  -- Nothing is committed and nothing is dead-lettered from `c` to `c'`.
  abbrev pub Quiet : Consumer Event → Consumer Event → Type 0
  Quiet c c' = (c'.commits ≡ c.commits) × (c'.dead_letters ≡ c.dead_letters)

  abbrev pub LoopReport :
      ConsumerMessage Event
      → ℕ
      → Option Failure
      → Consumer Event
      → Result Exception LoopEnd × Consumer Event
      → Type 0
  LoopReport m rounds failure c (ok shut_down, c') = Quiet c c'
  LoopReport m rounds failure c (ok (settled none n), c') =
      Quiet c c' × ((c'.handled ≡ c.handled ++ m ∷ []) ⊎ ((failure ≡ none) × (rounds ≡ 0)))
  LoopReport m rounds failure c (ok (settled (some f) n), c') =
      Quiet c c' × (c'.handled ≡ c.handled)
  LoopReport m rounds failure c (err e, c') = Quiet c c'

  -- the state behind an attempt with a transient error, where no signal had come
  abbrev pub after_transient : RetryPolicy → ℕ → Consumer Event → Consumer Event
  after_transient policy attempt c = record c {
    shutdown_requested = false;
    looks = c.looks + 1;
    metrics = record c.metrics { processing_errors = c.metrics.processing_errors + 1 };
    calls = c.calls + 1;
    slept = if ltb attempt policy.max_attempts then c.slept + policy.backoff * attempt else c.slept;
  }

  LoopReport-map :
      (m : ConsumerMessage Event) (rounds rounds' : ℕ) (f : Failure) (failure : Option Failure)
      (c d : Consumer Event) (x : Result Exception LoopEnd × Consumer Event)
      → Quiet c d
      → d.handled ≡ c.handled
      → LoopReport m rounds (some f) d x
      → LoopReport m rounds' failure c x
  LoopReport-map m rounds rounds' f failure c d (ok shut_down, c') q h r = ground arith
  LoopReport-map m rounds rounds' f failure c d (ok (settled none n), c') q h r = ground arith
  LoopReport-map m rounds rounds' f failure c d (ok (settled (some g) n), c') q h r = ground arith
  LoopReport-map m rounds rounds' f failure c d (err e, c') q h r = ground arith

  module _ (env : Environment Event) where
    pub close-Quiet : (c : Consumer Event) → Quiet c (close Event env c).1
    unfolding close
    close-Quiet c = ground arith

    pub attempt_loop-LoopReport :
        (policy : RetryPolicy) (m : ConsumerMessage Event) (rounds n : ℕ) (failure : Option Failure)
        (c : Consumer Event)
        → LoopReport m rounds failure c (attempt_loop Event env policy m rounds n failure c)
    unfolding attempt_loop
    attempt_loop-LoopReport policy m zero n none c = ((refl, refl), inr (refl, refl))
    attempt_loop-LoopReport policy m zero n (some f) c = ((refl, refl), refl)
    attempt_loop-LoopReport policy m (suc rounds) n failure c =
        elim (Bool-cases (c.shutdown_requested || env.signal c.looks)) [
          | inl stop ↦ rw stop (close-Quiet _)
          | inr go_on ↦ rw go_on (elim (Outcome-cases (env.process m (n + 1))) [
            | inl e ↦ rw e ((refl, refl), inl refl)
            | inr (inl e) ↦ rw e (
                LoopReport-map m rounds (suc rounds) transient failure c
                  (after_transient policy (n + 1) c) _ (refl, refl) refl
                  (attempt_loop-LoopReport policy m rounds (n + 1) (some transient)
                    (after_transient policy (n + 1) c)))
            | inr (inr (inl e)) ↦ rw e ((refl, refl), refl)
            | inr (inr (inr e)) ↦ rw e (refl, refl)
          ])
        ]
