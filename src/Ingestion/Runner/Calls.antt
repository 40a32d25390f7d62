-- ===== src/Ingestion/Runner/Calls.antt =====
-- The calls of `fetch` in a cycle, and the receipts behind the events that are counted.
use mathlib.Core.Path.{subst}
use agentic_data_engineering.Ingestion.Runner.{
  run_cycles, new_runner, FetchAnswer, fetched, source_fetch_error, unexpected_error, PublishAnswer,
  producer_closed, not_serializable, client_raises, delivery_failed, unconfirmed, receipt,
  other_exception, raise_serialization_error, raise_publish_error, return_receipt, Environment,
  Runner, note_error, note_fetched, note_malformed, note_published, called, publish_event,
  publish_all, finish_publish, deliver, back_off, fetch_call, attempts, fetch_and_publish, run_once,
}
use agentic_data_engineering.Base.{
  ℕ, zero, suc, ◌+◌, ◌≤◌, String, ◌≡◌, refl, ap, ◌∙◌, inl, inr, Bool, true, false, List, [], ◌∷◌,
  arith, ltb, leb, if◌then◌else◌, Bool-cases, length, length-append,
}
use agentic_data_engineering.Base.Equality.{nat_eq, string_eq, option_eq}
use agentic_data_engineering.Base.Exec.{Result, ok, err, bind_rule}

module _ (Event : Type 0) (Record : Type 0) (env : Environment Event Record) where
  -- What publishing comes to: no call of `fetch`, and a receipt for each event counted.
  abbrev SentReport : ℕ → Runner Event Record → Result String ℕ × Runner Event Record → Type 0
  SentReport n r (ok m, q) =
      (q.fetches ≡ r.fetches)
      × (q.stats ≡ r.stats)
      × (length q.received + n ≡ length r.received + m)
  SentReport n r (err message, q) =
      (q.fetches ≡ r.fetches) × (q.stats ≡ r.stats) × (length r.received ≤ length q.received)

  abbrev EventReport : Runner Event Record → Result String Bool × Runner Event Record → Type 0
  EventReport r (ok true, q) =
      (q.fetches ≡ r.fetches) × (q.stats ≡ r.stats) × (length q.received ≡ length r.received + 1)
  EventReport r (ok false, q) =
      (q.fetches ≡ r.fetches) × (q.stats ≡ r.stats) × (length q.received ≡ length r.received)
  EventReport r (err message, q) =
      (q.fetches ≡ r.fetches) × (q.stats ≡ r.stats) × (length q.received ≡ length r.received)

  publish_event-EventReport :
      (event : Event) (r : Runner Event Record)
      → EventReport r (publish_event Event Record env event r)
  unfolding publish_event called raise_serialization_error raise_publish_error return_receipt
  publish_event-EventReport event r = by_answer (env.publish event r.publishes)
    where
      by_answer :
          (answer : PublishAnswer Event Record)
          → EventReport r (elim answer as (λ x. Result String Bool × Runner Event Record) [
            | producer_closed ↦
                (ok false, raise_publish_error Event Record env (called Event Record env r))
            | not_serializable ↦
                (ok false, raise_serialization_error Event Record env (called Event Record env r))
            | client_raises ↦
                (ok false, raise_publish_error Event Record env (called Event Record env r))
            | delivery_failed ↦
                (ok false, raise_publish_error Event Record env (called Event Record env r))
            | unconfirmed ↦
                (ok false, raise_publish_error Event Record env (called Event Record env r))
            | receipt ↦ (ok true, return_receipt Event Record env event (called Event Record env r))
            | other_exception message ↦ (err message, called Event Record env r)
          ])
      by_answer receipt = (refl, refl, length-append r.received (event ∷ []))
      by_answer producer_closed = (refl, refl, refl)
      by_answer not_serializable = (refl, refl, refl)
      by_answer client_raises = (refl, refl, refl)
      by_answer delivery_failed = (refl, refl, refl)
      by_answer unconfirmed = (refl, refl, refl)
      by_answer (other_exception message) = (refl, refl, refl)

  sent_more :
      (n : ℕ) (came : Bool) (r t : Runner Event Record) (x : Result String ℕ × Runner Event Record)
      → EventReport r (ok came, t)
      → SentReport (if came then n + 1 else n) t x
      → SentReport n r x
  sent_more n true r t (ok m, q) h k = (k.0 ∙ h.0, k.1 ∙ h.1, omega (arith, h.2, k.2))
  sent_more n true r t (err e, q) h k = (k.0 ∙ h.0, k.1 ∙ h.1, omega (arith, h.2, k.2))
  sent_more n false r t (ok m, q) h k = (k.0 ∙ h.0, k.1 ∙ h.1, omega (arith, h.2, k.2))
  sent_more n false r t (err e, q) h k = (k.0 ∙ h.0, k.1 ∙ h.1, omega (arith, h.2, k.2))

  sent_failed :
      (n : ℕ) (r t : Runner Event Record) (e : String)
      → EventReport r (err e, t)
      → SentReport n r (err e, t)
  sent_failed n r t e h = (h.0, h.1, omega (arith, h.2))

  publish_all-SentReport :
      (events : List Event) (n : ℕ) (r : Runner Event Record)
      → SentReport n r (publish_all Event Record env events n r)
  unfolding publish_all
  publish_all-SentReport [] n r = (refl, refl, refl)
  publish_all-SentReport (event ∷ events) n r =
      bind_rule (publish_event Event Record env event) _ r (SentReport n r)
        (λ e t h. sent_failed n r t e (subst (EventReport r) h (publish_event-EventReport event r)))
        (λ came t h.
          sent_more n came r t _ (subst (EventReport r) h (publish_event-EventReport event r))
            (publish_all-SentReport events (if came then n + 1 else n) t))

  -- Each event that is counted has a receipt.
  abbrev pub IsReceived : Runner Event Record → Type 0
  IsReceived r = r.stats.total_events_published ≤ length r.received

  -- What a step comes to: so many calls of `fetch`, and the counted events have receipts still.
  abbrev Calls : ℕ → Runner Event Record → Runner Event Record → Type 0
  Calls n r q =
      (q.fetches ≤ r.fetches + n) × (r.fetches ≤ q.fetches) × (IsReceived r → IsReceived q)

  finish_publish-Calls :
      (name : String) (r : Runner Event Record) (x : Result String ℕ × Runner Event Record)
      → SentReport 0 r x
      → Calls 0 r (finish_publish Event Record env name x)
  unfolding finish_publish note_published note_error
  finish_publish-Calls name r (ok m, q) h =
      let same : q.stats.total_events_published ≡ r.stats.total_events_published =
        ap (λ s. s.total_events_published) h.1 in
      (omega (arith, h.0), omega (arith, h.0), λ a. omega (arith, h.2))
  finish_publish-Calls name r (err e, q) h =
      let same : q.stats.total_events_published ≡ r.stats.total_events_published =
        ap (λ s. s.total_events_published) h.1 in
      (omega (arith, h.0), omega (arith, h.0), λ a. omega (arith, h.2))

  Calls-trans :
      (n m : ℕ) (r q p : Runner Event Record) → Calls n r q → Calls m q p → Calls (n + m) r p
  Calls-trans n m r q p x y = (omega (arith, x.0, y.0), omega (arith, x.1, y.1), λ a. y.2 (x.2 a))

  note_fetched-Calls :
      (name : String) (r : Runner Event Record) → Calls 0 r (note_fetched Event Record name r)
  unfolding note_fetched
  note_fetched-Calls name r = (omega arith, omega arith, λ a. a)

  note_malformed-Calls :
      (name : String) (n : ℕ) (r : Runner Event Record)
      → Calls 0 r (note_malformed Event Record name n r)
  unfolding note_malformed
  note_malformed-Calls name n r = elim (Bool-cases (ltb 0 n)) [
    | inl e ↦ rw e (omega arith, omega arith, λ a. a)
    | inr e ↦ rw e (omega arith, omega arith, λ a. a)
  ]

  note_error-Calls :
      (name message : String) (r : Runner Event Record)
      → Calls 0 r (note_error Event Record name message r)
  unfolding note_error
  note_error-Calls name message r = (omega arith, omega arith, λ a. a)

  back_off-Calls :
      (attempt : ℕ) (r : Runner Event Record) → Calls 0 r (back_off Event Record env attempt r)
  unfolding back_off
  back_off-Calls attempt r = elim (Bool-cases (leb attempt r.max_retries)) [
    | inl e ↦ rw e (omega arith, omega arith, λ a. a)
    | inr e ↦ rw e (omega arith, omega arith, λ a. a)
  ]

  fetch_call-Calls : (r : Runner Event Record) → Calls 1 r (fetch_call Event Record env r)
  unfolding fetch_call
  fetch_call-Calls r = (omega arith, omega arith, λ a. a)

  deliver-Calls :
      (name : String) (events : List Event) (malformed : List Record) (r : Runner Event Record)
      → Calls 0 r (deliver Event Record env name events malformed r)
  unfolding deliver
  deliver-Calls name events malformed r =
      let returned = note_fetched Event Record name r in
      let spoiled = note_malformed Event Record name (length malformed) returned in
      let done = deliver Event Record env name events malformed r in
      Calls-trans 0 0 r returned done (note_fetched-Calls name r) (
        Calls-trans 0 0 returned spoiled done
          (note_malformed-Calls name (length malformed) returned)
          (finish_publish-Calls name spoiled _ (publish_all-SentReport events 0 spoiled)))

  attempts-Calls :
      (name : String) (rounds attempt : ℕ) (r : Runner Event Record)
      → Calls rounds r (attempts Event Record env name rounds attempt r)
  unfolding attempts
  attempts-Calls name zero attempt r = (omega arith, omega arith, λ a. a)
  attempts-Calls name (suc rounds) attempt r =
      by_answer (λ q. attempts-Calls name rounds (attempt + 1) q) (env.fetch name r.fetches)
    where
      counted : Runner Event Record
      counted = fetch_call Event Record env r

      by_answer :
          ((q : Runner Event Record)
            → Calls rounds q (attempts Event Record env name rounds (attempt + 1) q))
          → (answer : FetchAnswer Event Record)
          → Calls (suc rounds) r (elim answer as (λ x. Runner Event Record) [
            | fetched events malformed ↦ deliver Event Record env name events malformed counted
            | source_fetch_error message ↦ attempts Event Record env name rounds (attempt + 1) (
                back_off Event Record env
                  (attempt + 1)
                  (note_error Event Record name message counted))
            | unexpected_error message ↦ note_error Event Record name message counted
          ])
      by_answer rest (fetched events malformed) =
          let x = fetch_call-Calls r in
          let y = deliver-Calls name events malformed counted in
          (omega (arith, x.0, y.0), omega (arith, x.1, y.1), λ a. y.2 (x.2 a))
      by_answer rest (source_fetch_error message) =
          let noted = note_error Event Record name message counted in
          let x = fetch_call-Calls r in
          let y = note_error-Calls name message counted in
          let z = back_off-Calls (attempt + 1) noted in
          let w = rest (back_off Event Record env (attempt + 1) noted) in
          (
            omega (arith, x.0, y.0, z.0, w.0),
            omega (arith, x.1, y.1, z.1, w.1),
            λ a. w.2 (z.2 (y.2 (x.2 a))),
          )
      by_answer rest (unexpected_error message) =
          let x = fetch_call-Calls r in
          let y = note_error-Calls name message counted in
          (omega (arith, x.0, y.0), omega (arith, x.1, y.1), λ a. y.2 (x.2 a))

  -- A cycle of one source calls its `fetch` at most as often as there are retries and once more.
  pub fetch_and_publish-fetches :
      (name : String) (r : Runner Event Record)
      → (fetch_and_publish Event Record env name r).fetches ≤ r.fetches + (r.max_retries + 1)
  unfolding fetch_and_publish
  fetch_and_publish-fetches name r = omega (arith, (attempts-Calls name (suc r.max_retries) 0 r).0)

  run_once-IsReceived :
      (names : List String) (r : Runner Event Record)
      → IsReceived r
      → IsReceived (run_once Event Record env names r)
  unfolding run_once fetch_and_publish
  run_once-IsReceived [] r a = a
  run_once-IsReceived (name ∷ names) r a =
      run_once-IsReceived names (fetch_and_publish Event Record env name r)
        ((attempts-Calls name (suc r.max_retries) 0 r).2 a)

  run_cycles_from-IsReceived :
      (n : ℕ) (names : List String) (r : Runner Event Record)
      → IsReceived r
      → IsReceived (run_cycles Event Record env n names r)
  unfolding run_cycles
  run_cycles_from-IsReceived zero names r a = a
  run_cycles_from-IsReceived (suc n) names r a =
      run_cycles_from-IsReceived n names (run_once Event Record env names r)
        (run_once-IsReceived names r a)

  -- After any number of cycles of a new runner, no more events are counted as published than receipts
  -- came.
  pub run_cycles-IsReceived :
      (n : ℕ) (names : List String) (max_retries : ℕ)
      → (run_cycles Event Record env n names
          (new_runner Event Record names max_retries)).stats.total_events_published
        ≤ length
            (run_cycles Event Record env n names
              (new_runner Event Record names max_retries)).received
  unfolding new_runner
  run_cycles-IsReceived n names max_retries =
      run_cycles_from-IsReceived n names (new_runner Event Record names max_retries) (omega arith)
