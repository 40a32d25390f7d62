-- ===== src/Processor/Pipeline/Progress.antt =====
-- What the publishing loops add to the topics and to the result, when they end without an error.
use agentic_data_engineering.Processor.Columns.{Polars, Row}
use agentic_data_engineering.Processor.Events.{Event}
use agentic_data_engineering.Processor.Pipeline.{
  World, Sinks, Step, PipelineError, PipelineResult, Envelope, validation_failure, dedup_conflict,
  envelope, count, event_of_row, invalid_row, conflict_row, valid_row, publish_invalid_records,
  publish_conflict_records, publish_valid_records, send_invalid, send_validated,
}
use agentic_data_engineering.Base.{
  ℕ, suc, ◌+◌, String, ◌≡◌, refl, ◌∙◌, inl, inr, true, List, [], ◌∷◌, arith, Bool-cases,
  Option-cases, is_some, length, length-append, All,
}
use agentic_data_engineering.Base.Equality.{nat_eq, string_eq, option_eq}
use agentic_data_engineering.Base.Dict.{Dict}
use agentic_data_engineering.Base.Exec.{Result, ok, err, continue, ◌>>◌}

module _ (P : Polars) where
  -- `Q` holds of the state in which a step ends without an error.
  abbrev pub Ends : (World P → Type 0) → Result PipelineError Unit × World P → Type 0
  Ends Q (ok _, w) = Q w
  Ends Q (err e, w) = Unit

  pub Ends-ok :
      (Q : World P → Type 0) (x : Result PipelineError Unit × World P)
      → x.0 ≡ ok tt
      → Ends Q x
      → Q x.1
  Ends-ok Q (ok _, w) e q = q
  Ends-ok Q (err x, w) e q = absurd (ground arith)

  pub Ends-bind :
      (Q R : World P → Type 0) (m k : Step P) (w : World P)
      → Ends Q (m w)
      → ((w' : World P) → Q w' → Ends R (k w'))
      → Ends R ((m >> k) w)
  Ends-bind Q R m k w h f = let (r, w') = m w in go r w' h
    where
      go :
          (r : Result PipelineError Unit) (w' : World P)
          → Ends Q (r, w')
          → Ends R (continue r (λ _. k) w')
      go (ok x) w' q = f w' q
      go (err e) w' q = tt

  -- From `w` to `w'` so many messages reached each topic, and the result grew by so much.
  pub record Progress (w w' : World P) (valid invalid : ℕ) (d : PipelineResult) : Type 0 where
    pub validated : length w'.validated ≡ length w.validated + valid
    pub invalids : length w'.invalid ≡ length w.invalid + invalid
    pub seen : w'.seen ≡ w.seen
    pub published_valid : w'.result.published_valid ≡ w.result.published_valid + d.published_valid
    pub published_invalid :
        w'.result.published_invalid ≡ w.result.published_invalid + d.published_invalid
    pub duplicates_skipped :
        w'.result.duplicates_skipped ≡ w.result.duplicates_skipped + d.duplicates_skipped
    pub conflicts : w'.result.conflicts ≡ w.result.conflicts + d.conflicts

  abbrev pub counts : ℕ → ℕ → ℕ → ℕ → PipelineResult
  counts a b c d = record {
    published_valid = a;
    published_invalid = b;
    duplicates_skipped = c;
    conflicts = d;
  }

  -- The row's event is found in the index.
  abbrev pub Found : Dict String (Event P) → Row P → Type 0
  Found index r = is_some (event_of_row P index r) ≡ true

  -- two amounts of progress add up to a third
  abbrev AddsUp : ℕ × ℕ × PipelineResult → ℕ × ℕ × PipelineResult → ℕ × ℕ × PipelineResult → Type 0
  AddsUp (v₁, i₁, d₁) (v₂, i₂, d₂) (v, i, d) =
      (v₁ + v₂ ≡ v)
      × (i₁ + i₂ ≡ i)
      × (d₁.published_valid + d₂.published_valid ≡ d.published_valid)
      × (d₁.published_invalid + d₂.published_invalid ≡ d.published_invalid)
      × (d₁.duplicates_skipped + d₂.duplicates_skipped ≡ d.duplicates_skipped)
      × (d₁.conflicts + d₂.conflicts ≡ d.conflicts)

  abbrev pub By : World P → ℕ × ℕ × PipelineResult → World P → Type 0
  By w (v, i, d) w' = Progress w w' v i d

  Progress_trans :
      (w₀ w₁ w₂ : World P) (a b c : ℕ × ℕ × PipelineResult)
      → AddsUp a b c
      → By w₀ a w₁
      → By w₁ b w₂
      → By w₀ c w₂
  Progress_trans w₀ w₁ w₂ a b c h p q = record {
    validated = omega (arith, p.validated, q.validated);
    invalids = omega (arith, p.invalids, q.invalids);
    seen = q.seen ∙ p.seen;
    published_valid = omega (arith, p.published_valid, q.published_valid);
    published_invalid = omega (arith, p.published_invalid, q.published_invalid);
    duplicates_skipped = omega (arith, p.duplicates_skipped, q.duplicates_skipped);
    conflicts = omega (arith, p.conflicts, q.conflicts);
  }

  pub Ends-map :
      (Q R : World P → Type 0) (x : Result PipelineError Unit × World P)
      → ((w' : World P) → Q w' → R w')
      → Ends Q x
      → Ends R x
  Ends-map Q R (ok a, w) f q = f w q
  Ends-map Q R (err e, w) f q = tt

  -- One step after another.
  pub Progress-then :
      (a b c : ℕ × ℕ × PipelineResult) (m k : Step P) (w : World P)
      → AddsUp a b c
      → Ends (By w a) (m w)
      → ((w' : World P) → By w a w' → Ends (By w' b) (k w'))
      → Ends (By w c) ((m >> k) w)
  Progress-then a b c m k w h p q = Ends-bind (By w a) (By w c) m k w p (λ w' pw.
      Ends-map (By w' b) (By w c) (k w') (λ w'' qw. Progress_trans w w' w'' a b c h pw qw)
        (q w' pw))

  pub Progress-refl : (w : World P) → Progress w w 0 0 (counts 0 0 0 0)
  Progress-refl w = record {
    validated = omega arith;
    invalids = omega arith;
    seen = refl;
    published_valid = omega arith;
    published_invalid = omega arith;
    duplicates_skipped = omega arith;
    conflicts = omega arith;
  }

  module _ (S : Sinks P) where
    send_invalid-Progress :
        (e : Envelope) (w : World P)
        → Ends (λ w'. Progress w w' 0 1 (counts 0 0 0 0)) (send_invalid P S e w)
    unfolding send_invalid
    send_invalid-Progress e w = elim (Bool-cases (S.invalid_sink w e)) [
      | inl yes_ ↦ rw (yes_, send_invalid) (ground (arith, length-append w.invalid (e ∷ [])))
      | inr no_ ↦ rw (no_, send_invalid) tt
    ]

    send_validated-Progress :
        (e : Event P) (w : World P)
        → Ends (λ w'. Progress w w' 1 0 (counts 0 0 0 0)) (send_validated P S e w)
    unfolding send_validated
    send_validated-Progress e w = elim (Bool-cases (S.validated_sink w e)) [
      | inl yes_ ↦ rw (yes_, send_validated) (ground (arith, length-append w.validated (e ∷ [])))
      | inr no_ ↦ rw (no_, send_validated) tt
    ]

    module _ (index : Dict String (Event P)) where
      invalid_row-Progress :
          (r : Row P) (errors : String) (w : World P)
          → Found index r
          → Ends (λ w'. Progress w w' 0 1 (counts 0 1 0 0)) (invalid_row P S index (r, errors) w)
      unfolding invalid_row
      invalid_row-Progress r errors w f = elim (Option-cases (event_of_row P index r)) [
        | inl e ↦ ground (arith, e)
        | inr (e, q) ↦
            rw (q, invalid_row)
              (Progress-then (0, 1, counts 0 0 0 0) (0, 0, counts 0 1 0 0) (0, 1, counts 0 1 0 0)
                (send_invalid P S (envelope P S e (validation_failure errors)))
                (count P S (λ n. record n { published_invalid = n.published_invalid + 1 })) w
                (omega arith) (send_invalid-Progress (envelope P S e (validation_failure errors)) w)
                (λ w' p. ground arith))
      ]

      conflict_row-Progress :
          (r : Row P) (w : World P)
          → Found index r
          → Ends (λ w'. Progress w w' 0 1 (counts 0 1 0 1)) (conflict_row P S index r w)
      unfolding conflict_row
      conflict_row-Progress r w f = elim (Option-cases (event_of_row P index r)) [
        | inl e ↦ ground (arith, e)
        | inr (e, q) ↦
            rw (q, conflict_row)
              (Progress-then (0, 1, counts 0 0 0 0) (0, 0, counts 0 1 0 1) (0, 1, counts 0 1 0 1)
                (send_invalid P S (envelope P S e dedup_conflict))
                (count P S (λ n. record n {
                  published_invalid = n.published_invalid + 1;
                  conflicts = n.conflicts + 1;
                }))
                w (omega arith) (send_invalid-Progress (envelope P S e dedup_conflict) w)
                (λ w' p. ground arith))
      ]

      valid_row-Progress :
          (r : Row P) (w : World P)
          → Found index r
          → Ends (λ w'. Progress w w' 1 0 (counts 0 0 0 0)) (valid_row P S index r w)
      unfolding valid_row
      valid_row-Progress r w f = elim (Option-cases (event_of_row P index r)) [
        | inl e ↦ ground (arith, e)
        | inr (e, q) ↦ rw (q, valid_row) (send_validated-Progress e w)
      ]

      -- the loops
      pub publish_invalid-Progress :
          (df : List (Row P × String)) (w : World P)
          → All (λ p. Found index p.0) df
          → Ends
              (By w (0, length df, counts 0 (length df) 0 0))
              (publish_invalid_records P S df index w)
      unfolding publish_invalid_records
      publish_invalid-Progress [] w h = Progress-refl w
      publish_invalid-Progress ((r, t) ∷ df) w h =
          Progress-then (0, 1, counts 0 1 0 0) (0, length df, counts 0 (length df) 0 0)
            (0, suc (length df), counts 0 (suc (length df)) 0 0) (invalid_row P S index (r, t))
            (publish_invalid_records P S df index) w (omega arith) (invalid_row-Progress r t w h.0)
            (λ w' _. publish_invalid-Progress df w' h.1)

      pub publish_conflict-Progress :
          (df : List (Row P)) (w : World P)
          → All (Found index) df
          → Ends
              (By w (0, length df, counts 0 (length df) 0 (length df)))
              (publish_conflict_records P S df index w)
      unfolding publish_conflict_records
      publish_conflict-Progress [] w h = Progress-refl w
      publish_conflict-Progress (r ∷ df) w h =
          Progress-then (0, 1, counts 0 1 0 1) (0, length df, counts 0 (length df) 0 (length df))
            (0, suc (length df), counts 0 (suc (length df)) 0 (suc (length df)))
            (conflict_row P S index r) (publish_conflict_records P S df index) w (omega arith)
            (conflict_row-Progress r w h.0) (λ w' _. publish_conflict-Progress df w' h.1)

      pub publish_valid-Progress :
          (df : List (Row P)) (w : World P)
          → All (Found index) df
          → Ends (By w (length df, 0, counts 0 0 0 0)) (publish_valid_records P S df index w)
      unfolding publish_valid_records
      publish_valid-Progress [] w h = Progress-refl w
      publish_valid-Progress (r ∷ df) w h =
          Progress-then (1, 0, counts 0 0 0 0) (length df, 0, counts 0 0 0 0)
            (suc (length df), 0, counts 0 0 0 0) (valid_row P S index r)
            (publish_valid_records P S df index) w (omega arith) (valid_row-Progress r w h.0)
            (λ w' _. publish_valid-Progress df w' h.1)
