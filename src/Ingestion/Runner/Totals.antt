-- ===== src/Ingestion/Runner/Totals.antt =====
-- The accounts of the runner over whole cycles, the sources beside the one that is fetched, and the
-- calls of `fetch`.
use mathlib.Core.Path.{subst}
use agentic_data_engineering.Ingestion.Runner.{
  run_cycles, new_status, new_runner, FetchAnswer, fetched, source_fetch_error, unexpected_error,
  PublishAnswer, producer_closed, not_serializable, client_raises, delivery_failed, unconfirmed,
  receipt, other_exception, raise_serialization_error, raise_publish_error, return_receipt,
  Environment, Runner, note_error, note_fetched, note_malformed, note_published, called,
  publish_event, publish_all, finish_publish, deliver, back_off, fetch_call, attempts,
  fetch_and_publish, run_once,
}
use agentic_data_engineering.Ingestion.Runner.Effects.{
  IsAccounted, Effect, Effect-trans, IsCounted, Effect-IsCounted, Effect-refl, note_error-Effect,
  note_fetched-Effect, note_published-Effect, note_malformed-Effect,
}
use agentic_data_engineering.Ingestion.Runner.Statuses.{
  new_sources-AllKnown, sum_over-new_sources, sum_over, AllKnown,
}
use agentic_data_engineering.Base.{
  ℕ, zero, suc, ◌+◌, String, ◌≡◌, refl, sym, ◌∙◌, Bool, true, false, List, [], ◌∷◌, arith,
  if◌then◌else◌, is_some, length-append, length, All_map_of,
}
use agentic_data_engineering.Base.Equality.{◌==◌, nat_eq, string_eq, option_eq}
use agentic_data_engineering.Base.Dict.{get}
use agentic_data_engineering.Base.Exec.{Result, ok, err, bind_rule}

module _ (Event : Type 0) (Record : Type 0) where
  module _ (env : Environment Event Record) where
    -- Publishing leaves the statistics to its caller.
    abbrev Sent :
        {A : Type 0} → Runner Event Record → Result String A × Runner Event Record → Type 0
    Sent r x = (x.1.stats ≡ r.stats) × IsCounted Event Record r x.1

    publish_event-Sent :
        (event : Event) (r : Runner Event Record) → Sent r (publish_event Event Record env event r)
    unfolding publish_event called raise_serialization_error raise_publish_error return_receipt
    publish_event-Sent event r = by_answer (env.publish event r.publishes)
      where
        by_answer :
            (answer : PublishAnswer Event Record)
            → Sent r (elim answer as (λ x. Result String Bool × Runner Event Record) [
              | producer_closed ↦
                  (ok false, raise_publish_error Event Record env (called Event Record env r))
              | not_serializable ↦
                  (ok false, raise_serialization_error Event Record env (called Event Record env r))
              | client_raises ↦
                  (ok false, raise_publish_error Event Record env (called Event Record env r))
              | delivery_failed ↦
                  (ok false, raise_publish_error Event Record env (called Event Record env r))
              | unconfirmed ↦
                  (ok false, raise_publish_error Event Record env (called Event Record env r))
              | receipt ↦
                  (ok true, return_receipt Event Record env event (called Event Record env r))
              | other_exception message ↦ (err message, called Event Record env r)
            ])
        by_answer producer_closed = (refl, (omega arith, omega arith, omega arith))
        by_answer not_serializable = (refl, (omega arith, omega arith, omega arith))
        by_answer client_raises = (refl, (omega arith, omega arith, omega arith))
        by_answer delivery_failed = (refl, (omega arith, omega arith, omega arith))
        by_answer unconfirmed = (refl, (omega arith, omega arith, omega arith))
        by_answer receipt =
            let n = length-append r.received (event ∷ []) in
            (refl, (omega arith, omega arith, omega arith))
        by_answer (other_exception message) = (refl, (refl, refl, refl))

    publish_all-Sent :
        (events : List Event) (n : ℕ) (r : Runner Event Record)
        → Sent r (publish_all Event Record env events n r)
    unfolding publish_all
    publish_all-Sent [] n r = (refl, (refl, refl, refl))
    publish_all-Sent (event ∷ events) n r =
        bind_rule (publish_event Event Record env event) _ r (Sent r)
          (λ e t h. subst (Sent r) h (publish_event-Sent event r))
          (λ came t h.
            let first : Sent r (ok came, t) = subst (Sent r) h (publish_event-Sent event r) in
            let rest = publish_all-Sent events (if came then n + 1 else n) t in
            (
              rest.0 ∙ first.0,
              (
                omega (arith, rest.1.0, first.1.0),
                omega (arith, rest.1.1, first.1.1),
                omega (arith, rest.1.2, first.1.2),
              ),
            ))

    finish_publish-Effect :
        (name : String) (r : Runner Event Record) (x : Result String ℕ × Runner Event Record)
        → Sent r x
        → Effect Event Record name r (finish_publish Event Record env name x)
    unfolding finish_publish
    finish_publish-Effect name r (ok n, q) h =
        Effect-trans Event Record name r q (note_published Event Record name n q)
          (Effect-IsCounted Event Record name r q h.0 h.1)
          (note_published-Effect Event Record name n q)
    finish_publish-Effect name r (err message, q) h =
        Effect-trans Event Record name r q (note_error Event Record name message q)
          (Effect-IsCounted Event Record name r q h.0 h.1)
          (note_error-Effect Event Record name message q)

    deliver-Effect :
        (name : String) (events : List Event) (malformed : List Record) (r : Runner Event Record)
        → Effect Event Record name r (deliver Event Record env name events malformed r)
    unfolding deliver
    deliver-Effect name events malformed r =
        let returned = note_fetched Event Record name r in
        let spoiled = note_malformed Event Record name (length malformed) returned in
        let done = deliver Event Record env name events malformed r in
        Effect-trans Event Record name r returned done (note_fetched-Effect Event Record name r) (
          Effect-trans Event Record name returned spoiled done
            (note_malformed-Effect Event Record name (length malformed) returned)
            (finish_publish-Effect name spoiled _ (publish_all-Sent events 0 spoiled)))

    back_off-Effect :
        (name : String) (attempt : ℕ) (r : Runner Event Record)
        → Effect Event Record name r (back_off Event Record env attempt r)
    unfolding back_off
    back_off-Effect name attempt r =
        Effect-IsCounted Event Record name r (back_off Event Record env attempt r) (ground arith)
          (ground arith, ground arith, ground arith)

    attempts-Effect :
        (name : String) (rounds attempt : ℕ) (r : Runner Event Record)
        → Effect Event Record name r (attempts Event Record env name rounds attempt r)
    unfolding attempts fetch_call
    attempts-Effect name zero attempt r = Effect-refl Event Record name r
    attempts-Effect name (suc rounds) attempt r =
        by_answer (λ q. attempts-Effect name rounds (attempt + 1) q) (env.fetch name r.fetches)
      where
        counted : Runner Event Record
        counted = fetch_call Event Record env r

        by_answer :
            ((q : Runner Event Record)
              → Effect Event Record name q (attempts Event Record env name rounds (attempt + 1) q))
            → (answer : FetchAnswer Event Record)
            → Effect Event Record name r (elim answer as (λ x. Runner Event Record) [
              | fetched events malformed ↦ deliver Event Record env name events malformed counted
              | source_fetch_error message ↦ attempts Event Record env name rounds (attempt + 1) (
                  back_off Event Record env
                    (attempt + 1)
                    (note_error Event Record name message counted))
              | unexpected_error message ↦ note_error Event Record name message counted
            ])
        by_answer rest (fetched events malformed) = deliver-Effect name events malformed counted
        by_answer rest (source_fetch_error message) =
            let noted = note_error Event Record name message counted in
            let rested = back_off Event Record env (attempt + 1) noted in
            let done = attempts Event Record env name rounds (attempt + 1) rested in
            Effect-trans Event Record name r noted done
              (note_error-Effect Event Record name message counted)
              (Effect-trans Event Record name noted rested done
                (back_off-Effect name (attempt + 1) noted) (rest rested))
        by_answer rest (unexpected_error message) =
            note_error-Effect Event Record name message counted

    fetch_and_publish-Effect :
        (name : String) (r : Runner Event Record)
        → Effect Event Record name r (fetch_and_publish Event Record env name r)
    unfolding fetch_and_publish
    fetch_and_publish-Effect name r = attempts-Effect name (suc r.max_retries) 0 r

    -- Whatever the source and the producer answer, a cycle of one source leaves the statuses of the others
    -- as they were.
    pub fetch_and_publish_apart :
        (name other : String) (r : Runner Event Record)
        → (name == other) ≡ false
        → get other (fetch_and_publish Event Record env name r).stats.sources
          ≡ get other r.stats.sources
    fetch_and_publish_apart name other r h = (fetch_and_publish-Effect name r).1 other h

    run_once-IsAccounted :
        (names : List String) (r : Runner Event Record)
        → AllKnown names r.stats.sources
        → IsAccounted Event Record r
        → IsAccounted Event Record (run_once Event Record env names r)
    unfolding run_once
    run_once-IsAccounted [] r known a = a
    run_once-IsAccounted (name ∷ names) r known a =
        let effect = fetch_and_publish-Effect name r in
        run_once-IsAccounted names (fetch_and_publish Event Record env name r)
          (All_map_of _ _ names (λ k h. effect.0 k ∙ h) known.1) (effect.2 known.0 a)

    run_once-known :
        (names : List String) (k : String) (r : Runner Event Record)
        → is_some (get k (run_once Event Record env names r).stats.sources)
          ≡ is_some (get k r.stats.sources)
    unfolding run_once
    run_once-known [] k r = refl
    run_once-known (name ∷ names) k r =
        run_once-known names k (fetch_and_publish Event Record env name r)
        ∙ (fetch_and_publish-Effect name r).0 k

    run_cycles_from-IsAccounted :
        (n : ℕ) (names : List String) (r : Runner Event Record)
        → AllKnown names r.stats.sources
        → IsAccounted Event Record r
        → IsAccounted Event Record (run_cycles Event Record env n names r)
    unfolding run_cycles
    run_cycles_from-IsAccounted zero names r known a = a
    run_cycles_from-IsAccounted (suc n) names r known a =
        run_cycles_from-IsAccounted n names (run_once Event Record env names r)
          (All_map_of _ _ names (λ k h. run_once-known names k r ∙ h) known)
          (run_once-IsAccounted names r known a)

    -- Whatever the sources and the producer answer, after any number of cycles of a new runner the totals
    -- of the statistics are the sums over the sources, and the producer's counters are these totals with
    -- the receipts, the serialization errors and the publish errors of the producer counted in too.
    pub run_cycles-IsAccounted :
        (n : ℕ) (names : List String) (max_retries : ℕ)
        → IsAccounted Event Record
            (run_cycles Event Record env n names (new_runner Event Record names max_retries))
    unfolding new_runner sum_over
    run_cycles-IsAccounted n names max_retries =
        run_cycles_from-IsAccounted n names (new_runner Event Record names max_retries)
          (new_sources-AllKnown names [])
          (
            sym (
                sum_over-new_sources (λ s. s.events_published) names []
                  (λ k. unfold new_status in refl) refl),
            sym (
                sum_over-new_sources (λ s. s.malformed_count) names []
                  (λ k. unfold new_status in refl) refl),
            sym (
                sum_over-new_sources (λ s. length s.errors) names []
                  (λ k. unfold new_status in refl) refl),
            refl,
            refl,
            refl,
          )
