-- ===== src/Kafka/Consumer/Settling.antt =====
-- The end of `process_next`: the dead letter of a record that failed, and the commit.
use agentic_data_engineering.Kafka.Consumer.Attempts.{Quiet}
use agentic_data_engineering.Kafka.Broker.{
  TopicPartition, Failure, Exception, CommitReply, commit_raises, replied,
}
use agentic_data_engineering.Kafka.Client.{
  Environment, Consumer, close, commit_offsets, commit_failed, update_metrics,
  is_shutdown_requested,
}
use agentic_data_engineering.Kafka.Consumer.{
  Place, next_offset, diagnostic_envelope, deliver, finish,
}
use agentic_data_engineering.Base.{
  ℕ, ◌+◌, ◌≡◌, refl, ◌∙◌, ◌⊎◌, append-nil, inl, inr, Bool, true, false, ◌||◌, Option, none, some,
  [], ◌∷◌, ◌++◌, arith, if◌then◌else◌, Bool-cases, is_some, exists,
}
use agentic_data_engineering.Base.Equality.{nat_eq, string_eq, option_eq}
use agentic_data_engineering.Base.Exec.{Result, ok, err, pure, continue, ◌>>◌}

module _ (Event : Type 0) where
  module _ (env : Environment Event) where
    -- a commit adds its offset, or raises and adds it or nothing
    abbrev CommitReport :
        TopicPartition → Consumer Event → Result Exception Unit × Consumer Event → Type 0
    CommitReport tp c (ok x, c') =
        (c'.commits ≡ c.commits ++ tp ∷ [])
        × (c'.dead_letters ≡ c.dead_letters)
        × (c'.handled ≡ c.handled)
    CommitReport tp c (err e, c') =
        ((c'.commits ≡ c.commits) ⊎ (c'.commits ≡ c.commits ++ tp ∷ []))
        × (c'.dead_letters ≡ c.dead_letters)
        × (c'.handled ≡ c.handled)

    commit_failed-CommitReport :
        (tp : TopicPartition) (c : Consumer Event)
        → CommitReport tp c (commit_failed Event env (tp ∷ []) c)
    unfolding commit_failed
    commit_failed-CommitReport tp c = elim (Bool-cases (env.taken_anyway tp)) [
      | inl e ↦ rw e (inr refl, refl, refl)
      | inr e ↦ rw e (inl (append-nil c.commits), refl, refl)
    ]

    commit-CommitReport :
        (tp : TopicPartition) (c : Consumer Event)
        → CommitReport tp c (commit_offsets Event env (tp ∷ []) c)
    unfolding commit_offsets
    commit-CommitReport tp c = elim (Bool-cases c.closed) [
      | inl e ↦ rw e (inl refl, refl, refl)
      | inr e ↦ rw e (answered (env.broker_commit (tp ∷ [])))
    ]
      where
        answered :
            (reply : CommitReply)
            → CommitReport tp c (elim reply [
              | commit_raises ↦ commit_failed Event env (tp ∷ []) c
              | replied marks ↦
                  (if exists (λ b. b) marks
                    then commit_failed Event env (tp ∷ []) c
                    else (ok tt, record c { commits = c.commits ++ tp ∷ [] }))
            ])
        answered commit_raises = commit_failed-CommitReport tp c
        answered (replied marks) = elim (Bool-cases (exists (λ b. b) marks)) [
          | inl e ↦ rw e (commit_failed-CommitReport tp c)
          | inr e ↦ rw e (refl, refl, refl)
        ]

    -- the offset behind a record is committed, and its dead letter is acknowledged where it failed
    abbrev pub Settled : Place → Option Failure → ℕ → Consumer Event → Consumer Event → Type 0
    Settled p none n c c' =
        (c'.commits ≡ c.commits ++ next_offset p ∷ [])
        × (c'.dead_letters ≡ c.dead_letters)
        × (c'.handled ≡ c.handled)
    Settled p (some f) n c c' =
        (c'.commits ≡ c.commits ++ next_offset p ∷ [])
        × (c'.dead_letters ≡ c.dead_letters ++ diagnostic_envelope Event env p f n ∷ [])
        × (c'.handled ≡ c.handled)

    -- what `finish` does with a settled record
    abbrev pub FinishReport :
        Place
        → Option Failure
        → ℕ
        → Consumer Event
        → Result Exception Bool × Consumer Event
        → Type 0
    FinishReport p failure n c (ok true, c') = Settled p failure n c c'
    FinishReport p failure n c (ok false, c') = Quiet Event c c'
    FinishReport p failure n c (err e, c') = (c'.commits ≡ c.commits) ⊎ Settled p failure n c c'

    -- the steps of `finish` behind the commit
    abbrev ending :
        Option Failure
        → Result Exception Unit × Consumer Event
        → Result Exception Bool × Consumer Event
    ending failure (r, c) =
        continue r
          (λ _.
            update_metrics Event (λ m. record m {
              processed_count =
                  if is_some failure then m.processed_count else m.processed_count + 1;
            })
            >> pure true)
          c

    ending-FinishReport :
        (p : Place) (failure : Option Failure) (n : ℕ) (c d : Consumer Event)
        (x : Result Exception Unit × Consumer Event)
        → d.commits ≡ c.commits
        → d.handled ≡ c.handled
        → FinishReport p failure n c
            (ok true, record d { commits = c.commits ++ next_offset p ∷ [] })
        → CommitReport (next_offset p) d x
        → FinishReport p failure n c (ending failure x)
    ending-FinishReport p none n c d (ok y, c') e₁ e₂ h r = ground arith
    ending-FinishReport p (some f) n c d (ok y, c') e₁ e₂ h r = ground arith
    ending-FinishReport p none n c d (err e, c') e₁ e₂ h (inl r, q, t) = inl (r ∙ e₁)
    ending-FinishReport p none n c d (err e, c') e₁ e₂ h (inr r, q, t) =
        inr (ground arith, ground arith, ground arith)
    ending-FinishReport p (some f) n c d (err e, c') e₁ e₂ h (inl r, q, t) = inl (r ∙ e₁)
    ending-FinishReport p (some f) n c d (err e, c') e₁ e₂ h (inr r, q, t) =
        inr (ground arith, ground arith, ground arith)

    -- the consumer behind a look at the flag, where no signal had come
    abbrev pub looked : Consumer Event → Consumer Event
    looked c = record c { shutdown_requested = false; looks = c.looks + 1 }

    abbrev delivered : Place → Failure → ℕ → Consumer Event → Consumer Event
    delivered p f n c = record c {
      dead_letters = c.dead_letters ++ diagnostic_envelope Event env p f n ∷ [];
      metrics = record c.metrics { dead_lettered = c.metrics.dead_lettered + 1 };
    }

    pub finish-FinishReport :
        (p : Place) (failure : Option Failure) (n : ℕ) (c : Consumer Event)
        → FinishReport p failure n c (finish Event env p failure n c)
    unfolding finish deliver is_shutdown_requested close
    finish-FinishReport p none n c =
        elim (Bool-cases (c.shutdown_requested || env.signal c.looks)) [
          | inl stop ↦ rw stop (ground arith)
          | inr go_on ↦ rw go_on (
              ending-FinishReport p none n c (looked c) _ refl refl (refl, refl, refl)
                (commit-CommitReport (next_offset p) (looked c)))
        ]
    finish-FinishReport p (some f) n c =
        elim (Bool-cases (c.shutdown_requested || env.signal c.looks)) [
          | inl stop ↦ rw stop (ground arith)
          | inr go_on ↦
              rw go_on (elim (Bool-cases (env.dead_letter (diagnostic_envelope Event env p f n))) [
                | inl taken ↦ rw taken (
                    ending-FinishReport p (some f) n c (delivered p f n (looked c)) _ refl refl
                      (refl, refl, refl)
                      (commit-CommitReport (next_offset p) (delivered p f n (looked c))))
                | inr refused ↦ rw refused (inl refl)
              ])
        ]
