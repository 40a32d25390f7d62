-- ===== src/Ingestion/Runner/Effects.antt =====
-- What a cycle of one source does to the runner.
use agentic_data_engineering.Ingestion.Runner.{
  SourceStatus, Runner, note_error, note_fetched, note_malformed, note_published,
}
use agentic_data_engineering.Ingestion.Runner.Statuses.{
  sum_over, sum_over-update_status, get-update_status, get-update_status_other,
}
use agentic_data_engineering.Base.{
  ℕ, ◌+◌, String, ◌≡◌, refl, ◌∙◌, inl, inr, true, false, [], ◌∷◌, ◌++◌, arith, ltb, Bool-cases,
  is_some, length, length-append,
}
use agentic_data_engineering.Base.Equality.{◌==◌, nat_eq, string_eq, option_eq}
use agentic_data_engineering.Base.Dict.{get}

module _ (Event : Type 0) (Record : Type 0) where
  -- The totals are the sums over the sources, and the producer's counters are the totals with what
  -- the producer has counted itself: an event that is published is counted as produced by both.
  abbrev pub IsAccounted : Runner Event Record → Type 0
  IsAccounted r =
      (r.stats.total_events_published ≡ sum_over (λ s. s.events_published) r.stats.sources)
      × (r.stats.total_malformed ≡ sum_over (λ s. s.malformed_count) r.stats.sources)
      × (r.stats.total_errors ≡ sum_over (λ s. length s.errors) r.stats.sources)
      × (r.metrics.produced ≡ r.stats.total_events_published + length r.received)
      × (r.metrics.invalid ≡ r.stats.total_malformed + r.unserialized)
      × (r.metrics.producer_errors ≡ r.stats.total_errors + (r.unserialized + r.unpublished))

  -- The effect of a step for a source: every status is still there, those of the other sources are as
  -- they were, and the accounts stay right.
  abbrev pub Effect : String → Runner Event Record → Runner Event Record → Type 0
  Effect name r q =
      ((k : String) → is_some (get k q.stats.sources) ≡ is_some (get k r.stats.sources))
      × ((k : String) → (name == k) ≡ false → get k q.stats.sources ≡ get k r.stats.sources)
      × (is_some (get name r.stats.sources) ≡ true → IsAccounted r → IsAccounted q)

  pub Effect-trans :
      (name : String) (r q p : Runner Event Record)
      → Effect name r q
      → Effect name q p
      → Effect name r p
  Effect-trans name r q p x y = (
    λ k. y.0 k ∙ x.0 k,
    λ k h. y.1 k h ∙ x.1 k h,
    λ known a. y.2 (x.0 name ∙ known) (x.2 known a),
  )

  -- The producer counted what it received and refused.
  abbrev pub IsCounted : Runner Event Record → Runner Event Record → Type 0
  IsCounted r q =
      (q.metrics.produced + length r.received ≡ r.metrics.produced + length q.received)
      × (q.metrics.invalid + r.unserialized ≡ r.metrics.invalid + q.unserialized)
      × (q.metrics.producer_errors + (r.unserialized + r.unpublished)
          ≡ r.metrics.producer_errors + (q.unserialized + q.unpublished))

  pub Effect-IsCounted :
      (name : String) (r q : Runner Event Record)
      → q.stats ≡ r.stats
      → IsCounted r q
      → Effect name r q
  Effect-IsCounted name r q h k = (
    λ j. rw h refl,
    λ j n. rw h refl,
    λ known a. (
      rw h a.0,
      rw h a.1,
      rw h a.2,
      rw h (omega (arith, a.3, k.0)),
      rw h (omega (arith, a.4, k.1)),
      rw h (omega (arith, a.5, k.2)),
    ),
  )

  pub Effect-refl : (name : String) (r : Runner Event Record) → Effect name r r
  Effect-refl name r = (λ j. refl, λ j n. refl, λ known a. a)

  pub note_error-Effect :
      (name message : String) (r : Runner Event Record)
      → Effect name r (note_error Event Record name message r)
  unfolding note_error
  note_error-Effect name message r = (
    λ k. get-update_status k name _ r.stats.sources,
    λ k h. get-update_status_other k name _ r.stats.sources h,
    λ known a.
        let e =
          sum_over-update_status (λ s. s.events_published) name failed 0 r.stats.sources
            (λ s. omega arith) known in
        let m =
          sum_over-update_status (λ s. s.malformed_count) name failed 0 r.stats.sources
            (λ s. omega arith) known in
        let x =
          sum_over-update_status (λ s. length s.errors) name failed 1 r.stats.sources
            (λ s. length-append s.errors (message ∷ [])) known in
        (omega (arith, a.0), omega (arith, a.1), omega (arith, a.2), a.3, a.4, omega (arith, a.5)),
  )
    where
      failed : SourceStatus → SourceStatus
      failed s = record s { last_fetch_success = false; errors = s.errors ++ message ∷ [] }

  pub note_fetched-Effect :
      (name : String) (r : Runner Event Record) → Effect name r (note_fetched Event Record name r)
  unfolding note_fetched
  note_fetched-Effect name r = (
    λ k. get-update_status k name _ r.stats.sources,
    λ k h. get-update_status_other k name _ r.stats.sources h,
    λ known a.
        let e =
          sum_over-update_status (λ s. s.events_published) name returned 0 r.stats.sources
            (λ s. omega arith) known in
        let m =
          sum_over-update_status (λ s. s.malformed_count) name returned 0 r.stats.sources
            (λ s. omega arith) known in
        let x =
          sum_over-update_status (λ s. length s.errors) name returned 0 r.stats.sources
            (λ s. omega arith) known in
        (omega (arith, a.0), omega (arith, a.1), omega (arith, a.2), a.3, a.4, a.5),
  )
    where
      returned : SourceStatus → SourceStatus
      returned s = record s { last_fetch_success = true }

  pub note_published-Effect :
      (name : String) (n : ℕ) (r : Runner Event Record)
      → Effect name r (note_published Event Record name n r)
  unfolding note_published
  note_published-Effect name n r = (
    λ k. get-update_status k name _ r.stats.sources,
    λ k h. get-update_status_other k name _ r.stats.sources h,
    λ known a.
        let e =
          sum_over-update_status (λ s. s.events_published) name sent n r.stats.sources (λ s. refl)
            known in
        let m =
          sum_over-update_status (λ s. s.malformed_count) name sent 0 r.stats.sources
            (λ s. omega arith) known in
        let x =
          sum_over-update_status (λ s. length s.errors) name sent 0 r.stats.sources
            (λ s. omega arith) known in
        (omega (arith, a.0), omega (arith, a.1), omega (arith, a.2), omega (arith, a.3), a.4, a.5),
  )
    where
      sent : SourceStatus → SourceStatus
      sent s = record s { events_published = s.events_published + n }

  pub note_malformed-Effect :
      (name : String) (n : ℕ) (r : Runner Event Record)
      → Effect name r (note_malformed Event Record name n r)
  unfolding note_malformed
  note_malformed-Effect name n r = elim (Bool-cases (ltb 0 n)) [
    | inr none_there ↦ rw none_there (Effect-refl name r)
    | inl some_there ↦ rw some_there (
      λ k. get-update_status k name _ r.stats.sources,
      λ k h. get-update_status_other k name _ r.stats.sources h,
      λ known a.
          let e =
            sum_over-update_status (λ s. s.events_published) name spoiled 0 r.stats.sources
              (λ s. omega arith) known in
          let m =
            sum_over-update_status (λ s. s.malformed_count) name spoiled n r.stats.sources
              (λ s. refl) known in
          let x =
            sum_over-update_status (λ s. length s.errors) name spoiled 0 r.stats.sources
              (λ s. omega arith) known in
          (
            omega (arith, a.0),
            omega (arith, a.1),
            omega (arith, a.2),
            a.3,
            omega (arith, a.4),
            a.5,
          ),
    )
  ]
    where
      spoiled : SourceStatus → SourceStatus
      spoiled s = record s { malformed_count = s.malformed_count + n }
