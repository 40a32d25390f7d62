-- ===== src/Processor/Pipeline/Accounts.antt =====
-- What a whole batch leaves: the counts of its result, and the topics.
use agentic_data_engineering.Processor.Pipeline.Routing.{
  All-select, index-has, rows-Found, All-rejected, deduplicate-total, outcome_of,
  route_valid-Progress, length-rows, events_to_polars-cases,
}
use agentic_data_engineering.Processor.Columns.{Polars}
use agentic_data_engineering.Processor.Events.{Event, event_rows, normalize}
use agentic_data_engineering.Processor.Validation.{has_errors, validate}
use agentic_data_engineering.Processor.Validation.Rules.{validate_partition}
use agentic_data_engineering.Processor.Dedup.{Seen, DeduplicationResult, total_input_count}
use agentic_data_engineering.Processor.Pipeline.{
  World, Sinks, PipelineError, total, empty_result, event_index, route_valid, run_pipeline,
  process_rows, finish_batch, start, process_batch, publish_invalid_records,
}
use agentic_data_engineering.Processor.Pipeline.Progress.{
  Ends, Ends-map, Ends-bind, Ends-ok, Progress-refl, By, counts, Found, publish_invalid-Progress,
}
use agentic_data_engineering.Base.{
  ℕ, ◌+◌, ◌≡◌, refl, ◌∙◌, inl, inr, not, Option, none, List, [], ◌∷◌, arith, ltb, if◌then◌else◌,
  Bool-cases, length,
}
use agentic_data_engineering.Base.Equality.{nat_eq, string_eq, option_eq}
use agentic_data_engineering.Base.Exec.{Result, ok, err, pure}

module _ (P : Polars) where
  -- What a batch without an error leaves, against the state that it began in: each message is in
  -- one of the three counts, a conflict is counted again by `total`, and the topics grew as counted.
  pub record Accounted (n : ℕ) (w w' : World P) : Type 0 where
    pub every_message :
        w'.result.published_valid + w'.result.published_invalid + w'.result.duplicates_skipped ≡ n
    pub in_total : total w'.result ≡ n + w'.result.conflicts
    pub in_validated : length w'.validated ≡ length w.validated + w'.result.published_valid
    pub in_invalid : length w'.invalid ≡ length w.invalid + w'.result.published_invalid

  module _ (S : Sinks P) where
    Accounted-of :
        (n i : ℕ) (out : DeduplicationResult P) (w₁ w₂ w₃ : World P) (s : Option (Seen P))
        → w₁.result ≡ empty_result
        → total_input_count P out + i ≡ n
        → By P w₁ (0, i, counts P 0 i 0 0) w₂
        → By P
            (record w₂ { seen = s })
            (
              length out.deduplicated,
              length out.conflicts,
              counts P
                  (length out.deduplicated)
                  (length out.conflicts)
                  (length out.duplicates)
                  (length out.conflicts),
            )
            w₃
        → Accounted n w₁ w₃
    unfolding total total_input_count
    Accounted-of n i out w₁ w₂ w₃ s e h p q =
        let z : w₁.result.published_valid + w₁.result.published_invalid
              + w₁.result.duplicates_skipped + w₁.result.conflicts
            ≡ 0 =
          rw e refl in
        record {
          every_message = omega (
            arith, z, p.published_valid, p.published_invalid, p.duplicates_skipped, p.conflicts,
            q.published_valid, q.published_invalid, q.duplicates_skipped, q.conflicts,
          );
          in_total = omega (
            arith, z, p.published_valid, p.published_invalid, p.duplicates_skipped, p.conflicts,
            q.published_valid, q.published_invalid, q.duplicates_skipped, q.conflicts,
          );
          in_validated =
              omega (arith, z, p.validated, q.validated, p.published_valid, q.published_valid);
          in_invalid =
              omega (arith, z, p.invalids, q.invalids, p.published_invalid, q.published_invalid);
        }

    Accounted-none :
        (n i : ℕ) (w₁ w₂ : World P)
        → w₁.result ≡ empty_result
        → i ≡ n
        → By P w₁ (0, i, counts P 0 i 0 0) w₂
        → Accounted n w₁ w₂
    Accounted-none n i w₁ w₂ e h p =
        Accounted-of n i (record { deduplicated = []; duplicates = []; conflicts = [] }) w₁ w₂ w₂
          w₂.seen e (unfold total_input_count in omega arith) p (Progress-refl P w₂)

    reset : World P → World P
    reset w = record w { result = empty_result }

    process_rows-Accounted :
        (events : List (Event P)) (w : World P)
        → w.seen ≡ none
        → Ends P
            (Accounted (length events) (reset w))
            (process_rows P S (event_rows P events) events w)
    unfolding reset process_rows
    process_rows-Accounted events w h =
        let index = event_index P events [] in
        let df = normalize P (event_rows P events) in
        let found = rows-Found P index events (index-has P events []) in
        let parts = (validate_partition P df).2 in
        Ends-bind P
          (By P (reset w)
            (0, length (validate P df).invalid, counts P 0 (length (validate P df).invalid) 0 0))
          (Accounted (length events) (reset w))
          (publish_invalid_records P S (validate P df).invalid index)
          (if ltb 0 (length (validate P df).valid)
            then route_valid P S (validate P df).valid index
            else pure tt)
          (reset w)
          (publish_invalid-Progress P S index (validate P df).invalid (reset w)
            (unfold validate in All-rejected P (Found P index) df found))
          λ w₂ p. elim (Bool-cases (ltb 0 (length (validate P df).valid))) [
            | inl e ↦ rw e (
                Ends-map P _ (Accounted (length events) (reset w))
                  (route_valid P S (validate P df).valid index w₂)
                  (λ w₃ q.
                    Accounted-of (length events) (length (validate P df).invalid)
                      (outcome_of P (validate P df).valid w₂) (reset w) w₂ w₃ _ refl
                      (omega (
                        arith,
                        deduplicate-total P (validate P df).valid w₂.seen (p.seen ∙ h),
                        parts,
                        length-rows P events,
                      ))
                      p q)
                  (route_valid-Progress P S index (validate P df).valid w₂ (
                    unfold validate in
                    All-select (Found P index) (λ r. not (has_errors P r)) df found)))
            | inr e ↦ rw e (
                Accounted-none (length events) (length (validate P df).invalid) (reset w) w₂ refl
                  (ground (arith, parts, length-rows P events)) p)
          ]

    run_pipeline-Accounted :
        (events : List (Event P)) (w : World P)
        → w.seen ≡ none
        → Ends P (Accounted (length events) (reset w)) (run_pipeline P S events w)
    unfolding run_pipeline
    run_pipeline-Accounted events w h = elim (events_to_polars-cases P events) [
      | inl e ↦ rw (e, run_pipeline) tt
      | inr e ↦ rw (e, run_pipeline) (process_rows-Accounted events w h)
    ]

    same :
        (n : ℕ) (w w' v v' : World P)
        → Accounted n w w'
        → w.validated ≡ v.validated
        → w.invalid ≡ v.invalid
        → w'.validated ≡ v'.validated
        → w'.invalid ≡ v'.invalid
        → w'.result ≡ v'.result
        → Accounted n v v'
    unfolding total
    same n w w' v v' a e₁ e₂ e₃ e₄ e₅ = record {
      every_message = rw (← e₅) a.every_message;
      in_total = rw (← e₅) a.in_total;
      in_validated = rw (← e₁, ← e₃, ← e₅) a.in_validated;
      in_invalid = rw (← e₂, ← e₄, ← e₅) a.in_invalid;
    }

    finish_batch-Accounted :
        (n m : ℕ) (w v : World P) (x : Result PipelineError Unit × World P)
        → w.validated ≡ v.validated
        → w.invalid ≡ v.invalid
        → Ends P (Accounted n w) x
        → Ends P (Accounted n v) (finish_batch P S m x)
    unfolding finish_batch
    finish_batch-Accounted n m w v (err e, w') e₁ e₂ h = tt
    finish_batch-Accounted n m w v (ok _, w') e₁ e₂ h = same n w w' v _ h e₁ e₂ refl refl refl

    -- the same of every batch, as long as no step fails
    process_batch-Ends :
        (events : List (Event P)) (w : World P)
        → w.seen ≡ none
        → Ends P (Accounted (length events) w) (process_batch P S events w)
    unfolding process_batch
    process_batch-Ends [] w h = record {
      every_message = refl;
      in_total = unfold total in refl;
      in_validated = omega arith;
      in_invalid = omega arith;
    }
    process_batch-Ends (e ∷ es) w h =
        finish_batch-Accounted _ _ (reset (start P S (length (e ∷ es)) w)) w _
          (unfold reset start in refl) (unfold reset start in refl)
          (run_pipeline-Accounted (e ∷ es) (start P S (length (e ∷ es)) w) (unfold start in h))

    -- A batch that ends without an error, by a pipeline without a deduplication state, accounts for
    -- each of its messages: as published, as invalid, or as a duplicate. The total of its result
    -- exceeds the size of the batch by the conflicts, and each topic grew by what the result counts.
    pub process_batch-Accounted :
        (events : List (Event P)) (w : World P)
        → w.seen ≡ none
        → (process_batch P S events w).0 ≡ ok tt
        → Accounted (length events) w (process_batch P S events w).1
    process_batch-Accounted events w h e =
        Ends-ok P (Accounted (length events) w) (process_batch P S events w) e
          (process_batch-Ends events w h)
