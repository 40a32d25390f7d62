-- ===== src/Processor/Pipeline/Retry.antt =====
-- What the pipeline does with a batch whose valid rows the deduplication state holds already: a
-- batch that is replayed, or one that is tried again after a sink refused it, since the state is
-- written before the events are published.
use agentic_data_engineering.Processor.Columns.{Polars, Row}
use agentic_data_engineering.Processor.Events.{Event, event_rows, normalize}
use agentic_data_engineering.Processor.Validation.{validate}
use agentic_data_engineering.Processor.Dedup.{Seen, DeduplicationResult, deduplicate}
use agentic_data_engineering.Processor.Dedup.Split.{pairs}
use agentic_data_engineering.Processor.Dedup.Replay.{Remembered, deduplicate-Remembered}
use agentic_data_engineering.Processor.Pipeline.Routing.{events_to_polars-cases}
use agentic_data_engineering.Processor.Pipeline.{
  World, Sinks, Step, Envelope, PipelineError, event_index, event_of_row, send_invalid, envelope,
  invalid_row, publish_invalid_records, conflict_row, publish_conflict_records,
  publish_valid_records, route_valid, run_pipeline, process_rows, bump, finish_batch, start,
  process_batch, count, empty_result,
}
use agentic_data_engineering.Base.{
  ℕ, ◌+◌, String, ◌≡◌, refl, sym, ap, ◌∙◌, inl, inr, Option, some, List, [], ◌∷◌, arith, ltb,
  if◌then◌else◌, Bool-cases, Option-cases, length,
}
use agentic_data_engineering.Base.Equality.{nat_eq, string_eq, option_eq}
use agentic_data_engineering.Base.Dict.{Dict}
use agentic_data_engineering.Base.Exec.{Result, ok, err, pure, continue, ◌>>◌}

module _ (P : Polars) where
  -- The rows of a batch that are valid.
  unfoldable pub valid_rows : List (Event P) → List (Row P)
  valid_rows events = (validate P (normalize P (event_rows P events))).valid

  -- the topic of the valid events and the state are these
  abbrev pub Stands : List (Event P) → Option (Seen P) → World P → Type 0
  Stands es σ w = (w.validated ≡ es) × (w.seen ≡ σ)

  module _ (es : List (Event P)) (σ : Option (Seen P)) where
    abbrev Keeps : Step P → Type 0
    Keeps m = (w : World P) → Stands es σ w → Stands es σ (m w).1

    Keeps-bind : (m k : Step P) → Keeps m → Keeps k → Keeps (m >> k)
    Keeps-bind m k h g w p = let (r, w') = m w in go r w' (h w p)
      where
        go :
            (r : Result PipelineError Unit) (w' : World P)
            → Stands es σ w'
            → Stands es σ (continue r (λ _. k) w').1
        go (ok x) w' q = g w' q
        go (err e) w' q = q

    module _ (S : Sinks P) where
      send_invalid-Keeps : (e : Envelope) → Keeps (send_invalid P S e)
      unfolding send_invalid
      send_invalid-Keeps e w p = ground arith

      invalid_row-Keeps :
          (index : Dict String (Event P)) (r : Row P × String) → Keeps (invalid_row P S index r)
      unfolding invalid_row
      invalid_row-Keeps index (r, errors) w p = elim (Option-cases (event_of_row P index r)) [
        | inl e ↦ rw (e, invalid_row) p
        | inr (a, e) ↦
            rw (e, invalid_row)
              (Keeps-bind (send_invalid P S (envelope P S a _))
                (count P S (λ n. record n { published_invalid = n.published_invalid + 1 }))
                (send_invalid-Keeps _) (λ w' q. q) w p)
      ]

      pub publish_invalid-Keeps :
          (df : List (Row P × String)) (index : Dict String (Event P))
          → Keeps (publish_invalid_records P S df index)
      unfolding publish_invalid_records
      publish_invalid-Keeps [] index w p = p
      publish_invalid-Keeps (r ∷ df) index w p =
          Keeps-bind (invalid_row P S index r) (publish_invalid_records P S df index)
            (invalid_row-Keeps index r) (publish_invalid-Keeps df index) w p

      conflict_row-Keeps :
          (index : Dict String (Event P)) (r : Row P) → Keeps (conflict_row P S index r)
      unfolding conflict_row
      conflict_row-Keeps index r w p = elim (Option-cases (event_of_row P index r)) [
        | inl e ↦ rw (e, conflict_row) p
        | inr (a, e) ↦
            rw (e, conflict_row)
              (Keeps-bind (send_invalid P S (envelope P S a _))
                (count P S (λ n. record n {
                  published_invalid = n.published_invalid + 1;
                  conflicts = n.conflicts + 1;
                }))
                (send_invalid-Keeps _) (λ w' q. q) w p)
      ]

      pub publish_conflict-Keeps :
          (df : List (Row P)) (index : Dict String (Event P))
          → Keeps (publish_conflict_records P S df index)
      unfolding publish_conflict_records
      publish_conflict-Keeps [] index w p = p
      publish_conflict-Keeps (r ∷ df) index w p =
          Keeps-bind (conflict_row P S index r) (publish_conflict_records P S df index)
            (conflict_row-Keeps index r) (publish_conflict-Keeps df index) w p

      -- the steps of `route_valid` behind the deduplication, when it keeps nothing
      publish_nothing :
          (df : List (Row P)) (index : Dict String (Event P))
          → df ≡ []
          → Keeps (publish_valid_records P S df index)
      unfolding publish_valid_records
      publish_nothing df index e w p = rw (e, publish_valid_records) p

      routed :
          (index : Dict String (Event P)) (w : World P)
          (x : DeduplicationResult P × Option (Seen P))
          → w.validated ≡ es
          → x.0.deduplicated ≡ []
          → x.1 ≡ σ
          → Stands es σ
              ((do
                publish_conflict_records P S x.0.conflicts index
                count P S (λ n. record n {
                  duplicates_skipped = n.duplicates_skipped + length x.0.duplicates;
                })
                publish_valid_records P S x.0.deduplicated index
                count P S (λ n. record n {
                  published_valid = n.published_valid + length x.0.deduplicated;
                }))
                (record w { seen = x.1 })).1
      routed index w (out, seen) v d e =
          let skip : Step P =
            count P S (λ n. record n {
              duplicates_skipped = n.duplicates_skipped + length out.duplicates;
            }) in
          let last : Step P =
            count P S
              (λ n. record n { published_valid = n.published_valid + length out.deduplicated }) in
          let valid : Step P = publish_valid_records P S out.deduplicated index in
          Keeps-bind (publish_conflict_records P S out.conflicts index) (skip >> (valid >> last))
            (publish_conflict-Keeps out.conflicts index)
            (Keeps-bind skip (valid >> last) (λ w' q. q)
              (Keeps-bind valid last (publish_nothing out.deduplicated index d) (λ w' q. q)))
            (record w { seen = seen }) (v, e)

      route_valid-Keeps :
          (valid : List (Row P)) (index : Dict String (Event P)) (seen : Seen P)
          → σ ≡ some seen
          → Remembered ⦃eh = P.hash_eq⦄ seen (pairs P valid)
          → Keeps (route_valid P S valid index)
      unfolding route_valid
      route_valid-Keeps valid index seen s h w p =
          let (d, e) = deduplicate-Remembered P valid seen h in
          let same : deduplicate P valid w.seen ≡ deduplicate P valid (some seen) =
            ap (λ z. deduplicate P valid z) (p.1 ∙ s) in
          routed index w (deduplicate P valid w.seen) p.0 (ap (λ x. x.0.deduplicated) same ∙ d)
            (ap (λ x. x.1) same ∙ e ∙ sym s)

      process_rows-Keeps :
          (events : List (Event P)) (seen : Seen P)
          → σ ≡ some seen
          → Remembered ⦃eh = P.hash_eq⦄ seen (pairs P (valid_rows events))
          → Keeps (process_rows P S (event_rows P events) events)
      unfolding process_rows valid_rows
      process_rows-Keeps events seen s h w p =
          let index = event_index P events [] in
          let rows = (validate P (normalize P (event_rows P events))).valid in
          let bad = (validate P (normalize P (event_rows P events))).invalid in
          Keeps-bind (publish_invalid_records P S bad index)
            (if ltb 0 (length rows) then route_valid P S rows index else pure tt)
            (publish_invalid-Keeps bad index)
            (λ w' q. elim (Bool-cases (ltb 0 (length rows))) [
              | inl e ↦ rw e (route_valid-Keeps rows index seen s h w' q)
              | inr e ↦ rw e q
            ])
            (record w { result = empty_result }) p

      run_pipeline-Keeps :
          (events : List (Event P)) (seen : Seen P)
          → σ ≡ some seen
          → Remembered ⦃eh = P.hash_eq⦄ seen (pairs P (valid_rows events))
          → Keeps (run_pipeline P S events)
      unfolding run_pipeline
      run_pipeline-Keeps events seen s h w p = elim (events_to_polars-cases P events) [
        | inl e ↦ rw (e, run_pipeline) p
        | inr e ↦ rw (e, run_pipeline) (process_rows-Keeps events seen s h w p)
      ]

      finish_batch-Stands :
          (n : ℕ) (x : Result PipelineError Unit × World P)
          → Stands es σ x.1
          → Stands es σ (finish_batch P S n x).1
      unfolding finish_batch bump
      finish_batch-Stands n (err e, w) h = h
      finish_batch-Stands n (ok _, w) h = h

  -- A batch whose valid rows are all in the deduplication state sends nothing to the topic of the
  -- valid events and leaves the state as it is, whatever the sinks answer.
  pub process_batch-Remembered :
      (S : Sinks P) (events : List (Event P)) (w : World P) (seen : Seen P)
      → w.seen ≡ some seen
      → Remembered ⦃eh = P.hash_eq⦄ seen (pairs P (valid_rows events))
      → Stands w.validated w.seen (process_batch P S events w).1
  unfolding process_batch start bump
  process_batch-Remembered S [] w seen s h = (refl, refl)
  process_batch-Remembered S (e ∷ es) w seen s h = finish_batch-Stands w.validated w.seen S _ _ (
      run_pipeline-Keeps w.validated w.seen S (e ∷ es) seen s h (start P S (length (e ∷ es)) w)
        (refl, refl))
