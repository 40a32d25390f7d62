-- ===== src/Processor/Pipeline/Acknowledged.antt =====
-- The pipeline of services/processor/pipeline.py under sinks that acknowledge every message.
use agentic_data_engineering.Processor.Columns.{Polars, Row}
use agentic_data_engineering.Processor.Events.{Event, event_rows, prices, normalize}
use agentic_data_engineering.Processor.Validation.{validate}
use agentic_data_engineering.Processor.Dedup.{DeduplicationResult, deduplicate}
use agentic_data_engineering.Processor.Pipeline.Routing.{
  events_to_polars-taken, events_to_polars-refused,
}
use agentic_data_engineering.Processor.Pipeline.{
  World, Sinks, Step, Envelope, PipelineError, inference_error, process_rows, event_index,
  event_of_row, send_invalid, send_validated, envelope, invalid_row, publish_invalid_records,
  conflict_row, publish_conflict_records, valid_row, publish_valid_records, route_valid,
  run_pipeline, finish_batch, start, process_batch, count, empty_result,
}
use agentic_data_engineering.Base.{
  ℕ, ◌+◌, String, ◌≡◌, refl, ◌∙◌, inl, inr, true, List, [], ◌∷◌, ltb, if◌then◌else◌, Bool-cases,
  Option-cases, length,
}
use agentic_data_engineering.Base.Equality.{nat_eq, string_eq, option_eq}
use agentic_data_engineering.Base.Dict.{Dict}
use agentic_data_engineering.Base.Exec.{Result, ok, err, pure, continue, ◌>>◌}

module _ (P : Polars) where
  -- Sinks that acknowledge whatever they are sent.
  abbrev pub Acknowledges : Sinks P → Type 0
  Acknowledges S =
      ((w : World P) (e : Event P) → S.validated_sink w e ≡ true)
      × ((w : World P) (e : Envelope) → S.invalid_sink w e ≡ true)

  abbrev Succeeds : Step P → Type 0
  Succeeds m = (w : World P) → (m w).0 ≡ ok tt

  Succeeds-bind : (m k : Step P) → Succeeds m → Succeeds k → Succeeds (m >> k)
  Succeeds-bind m k h g w = let (r, w') = m w in go r w' (h w)
    where
      go :
          (r : Result PipelineError Unit) (w' : World P)
          → r ≡ ok tt
          → (continue r (λ _. k) w').0 ≡ ok tt
      go (ok x) w' e = g w'
      go (err x) w' e = e

  -- how a batch ends: by the frame, which `from_dicts` builds or refuses
  abbrev pub outcome : List (Event P) → Result PipelineError Unit
  outcome [] = ok tt
  outcome (e ∷ es) =
      if P.takes_prices (prices P (event_rows P (e ∷ es))) then ok tt else err inference_error

  module _ (S : Sinks P) (a : Acknowledges S) where
    send_invalid-Succeeds : (e : Envelope) → Succeeds (send_invalid P S e)
    unfolding send_invalid
    send_invalid-Succeeds e w = rw (a.1 w e) refl

    send_validated-Succeeds : (e : Event P) → Succeeds (send_validated P S e)
    unfolding send_validated
    send_validated-Succeeds e w = rw (a.0 w e) refl

    invalid_row-Succeeds :
        (index : Dict String (Event P)) (r : Row P × String) → Succeeds (invalid_row P S index r)
    unfolding invalid_row
    invalid_row-Succeeds index (r, errors) w = elim (Option-cases (event_of_row P index r)) [
      | inl e ↦ rw (e, invalid_row) refl
      | inr (x, e) ↦
          rw (e, invalid_row)
            (Succeeds-bind (send_invalid P S (envelope P S x _))
              (count P S (λ n. record n { published_invalid = n.published_invalid + 1 }))
              (send_invalid-Succeeds _) (λ w'. refl) w)
    ]

    publish_invalid-Succeeds :
        (df : List (Row P × String)) (index : Dict String (Event P))
        → Succeeds (publish_invalid_records P S df index)
    unfolding publish_invalid_records
    publish_invalid-Succeeds [] index w = refl
    publish_invalid-Succeeds (r ∷ df) index w =
        Succeeds-bind (invalid_row P S index r) (publish_invalid_records P S df index)
          (invalid_row-Succeeds index r) (publish_invalid-Succeeds df index) w

    conflict_row-Succeeds :
        (index : Dict String (Event P)) (r : Row P) → Succeeds (conflict_row P S index r)
    unfolding conflict_row
    conflict_row-Succeeds index r w = elim (Option-cases (event_of_row P index r)) [
      | inl e ↦ rw (e, conflict_row) refl
      | inr (x, e) ↦
          rw (e, conflict_row)
            (Succeeds-bind (send_invalid P S (envelope P S x _))
              (count P S (λ n. record n {
                published_invalid = n.published_invalid + 1;
                conflicts = n.conflicts + 1;
              }))
              (send_invalid-Succeeds _) (λ w'. refl) w)
    ]

    publish_conflict-Succeeds :
        (df : List (Row P)) (index : Dict String (Event P))
        → Succeeds (publish_conflict_records P S df index)
    unfolding publish_conflict_records
    publish_conflict-Succeeds [] index w = refl
    publish_conflict-Succeeds (r ∷ df) index w =
        Succeeds-bind (conflict_row P S index r) (publish_conflict_records P S df index)
          (conflict_row-Succeeds index r) (publish_conflict-Succeeds df index) w

    publish_valid-Succeeds :
        (df : List (Row P)) (index : Dict String (Event P))
        → Succeeds (publish_valid_records P S df index)
    unfolding publish_valid_records valid_row
    publish_valid-Succeeds [] index w = refl
    publish_valid-Succeeds (r ∷ df) index w =
        Succeeds-bind (valid_row P S index r) (publish_valid_records P S df index) row
          (publish_valid-Succeeds df index) w
      where
        row : Succeeds (valid_row P S index r)
        row w' = elim (Option-cases (event_of_row P index r)) [
          | inl e ↦ rw (e, valid_row) refl
          | inr (x, e) ↦ rw (e, valid_row) (send_validated-Succeeds x w')
        ]

    route_valid-Succeeds :
        (valid : List (Row P)) (index : Dict String (Event P))
        → Succeeds (route_valid P S valid index)
    unfolding route_valid
    route_valid-Succeeds valid index w =
        go (deduplicate P valid w.seen).0 (record w { seen = (deduplicate P valid w.seen).1 })
      where
        go :
            (out : DeduplicationResult P)
            → Succeeds (do
              publish_conflict_records P S out.conflicts index
              count P S (λ n. record n {
                duplicates_skipped = n.duplicates_skipped + length out.duplicates;
              })
              publish_valid_records P S out.deduplicated index
              count P S
                  (λ n. record n { published_valid = n.published_valid + length out.deduplicated }))
        go out =
            let skip : Step P = count P S (λ n. record n {
              duplicates_skipped = n.duplicates_skipped + length out.duplicates;
            }) in
            let last : Step P =
              count P S
                (λ n. record n { published_valid = n.published_valid + length out.deduplicated }) in
            let valid : Step P = publish_valid_records P S out.deduplicated index in
            Succeeds-bind (publish_conflict_records P S out.conflicts index)
              (skip >> (valid >> last)) (publish_conflict-Succeeds out.conflicts index)
              (Succeeds-bind skip (valid >> last) (λ w'. refl)
                (Succeeds-bind valid last (publish_valid-Succeeds out.deduplicated index)
                  (λ w'. refl)))

    process_rows-Succeeds :
        (events : List (Event P)) → Succeeds (process_rows P S (event_rows P events) events)
    unfolding process_rows
    process_rows-Succeeds events w =
        let index = event_index P events [] in
        let rows = (validate P (normalize P (event_rows P events))).valid in
        let bad = (validate P (normalize P (event_rows P events))).invalid in
        Succeeds-bind (publish_invalid_records P S bad index)
          (if ltb 0 (length rows) then route_valid P S rows index else pure tt)
          (publish_invalid-Succeeds bad index)
          (λ w'. elim (Bool-cases (ltb 0 (length rows))) [
            | inl e ↦ rw e (route_valid-Succeeds rows index w')
            | inr e ↦ rw e refl
          ])
          (record w { result = empty_result })

    run_pipeline-outcome :
        (e : Event P) (es : List (Event P)) (w : World P)
        → (run_pipeline P S (e ∷ es) w).0 ≡ outcome (e ∷ es)
    unfolding run_pipeline
    run_pipeline-outcome e es w =
        elim (Bool-cases (P.takes_prices (prices P (event_rows P (e ∷ es))))) [
          | inl t ↦ rw t (
              rw (events_to_polars-taken P e es t, run_pipeline) (process_rows-Succeeds (e ∷ es) w))
          | inr t ↦ rw t (rw (events_to_polars-refused P e es t, run_pipeline) refl)
        ]

    finish_batch-outcome :
        (n : ℕ) (x : Result PipelineError Unit × World P) → (finish_batch P S n x).0 ≡ x.0
    unfolding finish_batch
    finish_batch-outcome n (err e, w) = refl
    finish_batch-outcome n (ok tt, w) = refl

  pub process_batch-outcome :
      (S : Sinks P) (events : List (Event P)) (w : World P) (a : Acknowledges S)
      → (process_batch P S events w).0 ≡ outcome events
  unfolding process_batch
  process_batch-outcome S [] w a = refl
  process_batch-outcome S (e ∷ es) w a =
      finish_batch-outcome S a _ (run_pipeline P S (e ∷ es) (start P S (length (e ∷ es)) w))
      ∙ run_pipeline-outcome S a e es (start P S (length (e ∷ es)) w)
