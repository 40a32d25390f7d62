-- ===== src/Health/Assessor/Causes.antt =====
-- The state that the assessor reports, by its causes.
use agentic_data_engineering.Health.Tracker.{
  DegradationState, healthy, unreachable, rate_limited, structurally_changed, partially_parseable,
  empty_result, stale, Floats, Config, FetchOutcome,
}
use agentic_data_engineering.Health.Assessor.{
  last_failure, says_rate_limit, says_structural, success_ratio_of, is_stale, has_few_records,
  has_many_malformed, judged, judge_low_ratio, judge_data, judge_failures, assess,
}
use agentic_data_engineering.Base.{
  ℕ, String, ◌≡◌, refl, ap, ◌∙◌, inl, inr, Bool, true, false, Option, none, some, List, [], ◌∷◌,
  arith, leb, if◌then◌else◌, Bool-cases,
}
use agentic_data_engineering.Base.Equality.{nat_eq, string_eq, option_eq}

-- The state of the first cause that is there.
unfoldable pub first_cause : List (Bool × DegradationState) → DegradationState
first_cause [] = healthy
first_cause ((there, state) ∷ causes) =
    let rest = first_cause causes in if there then state else rest

module _ (fl : Floats) (lower : String → String) where
  open fl use {Float, less}

  -- a test of the last fetch that failed
  unfoldable pub of_last : (FetchOutcome fl → Bool) → Option (FetchOutcome fl) → Bool
  of_last p none = false
  of_last p (some o) = p o

  module _ (config : Config fl) (source_name : String) (empty : ℕ) (age : Option Float) where
    unfoldable pub causes_of :
        List (FetchOutcome fl) → Option (FetchOutcome fl) → List (Bool × DegradationState)
    unfolding of_last
    causes_of os failure =
        (of_last (says_rate_limit fl lower) failure, rate_limited)
        ∷ (of_last (says_structural fl lower) failure, structurally_changed)
        ∷ (less (success_ratio_of fl lower os) config.min_success_ratio, unreachable)
        ∷ (is_stale fl lower config source_name empty age, stale)
        ∷ (leb config.max_empty_fetches empty, empty_result)
        ∷ (has_few_records fl lower config source_name empty age os, empty_result)
        ∷ (has_many_malformed fl lower config source_name empty age os, partially_parseable)
        ∷ []

    unfoldable pub causes : List (FetchOutcome fl) → List (Bool × DegradationState)
    unfolding causes_of
    causes os = causes_of os (last_failure fl lower os)

    judge_data-causes :
        (os : List (FetchOutcome fl))
        → (judge_data fl lower config source_name empty age os).state
          ≡ first_cause (
              (is_stale fl lower config source_name empty age, stale)
              ∷ (leb config.max_empty_fetches empty, empty_result)
              ∷ (has_few_records fl lower config source_name empty age os, empty_result)
              ∷ (has_many_malformed fl lower config source_name empty age os, partially_parseable)
              ∷ [])
    unfolding judge_data judged first_cause
    judge_data-causes os = ground arith

    judge_low_ratio-causes :
        (os : List (FetchOutcome fl)) (failure : Option (FetchOutcome fl))
        → less (success_ratio_of fl lower os) config.min_success_ratio ≡ true
        → (judge_low_ratio fl lower config source_name empty age os failure).state
          ≡ first_cause (causes_of os failure)
    unfolding judge_low_ratio judged causes_of first_cause of_last
    judge_low_ratio-causes os none h = rw h refl
    judge_low_ratio-causes os (some o) h = ground arith

    judge_failures-causes :
        (os : List (FetchOutcome fl)) (failure : Option (FetchOutcome fl))
        → less (success_ratio_of fl lower os) config.min_success_ratio ≡ false
        → (judge_failures fl lower config source_name empty age os failure).state
          ≡ first_cause (causes_of os failure)
    unfolding judge_failures judged causes_of first_cause of_last
    judge_failures-causes os none h = rw h (judge_data-causes os)
    judge_failures-causes os (some o) h = ground (arith, judge_data-causes os)

    -- Of a source with a history, the state is that of the first cause: a rate limit in the reason of the
    -- last failed fetch, a structural change in it, a low success ratio, old data, empty fetches in a row,
    -- too few records, too many malformed ones; without any of them it is healthy.
    pub assess-causes :
        (o : FetchOutcome fl) (os : List (FetchOutcome fl))
        → (assess fl lower config source_name empty age (o ∷ os)).state
          ≡ first_cause (causes (o ∷ os))
    unfolding assess causes
    assess-causes o os =
        elim (Bool-cases (less (success_ratio_of fl lower (o ∷ os)) config.min_success_ratio)) [
          | inl e ↦
              let p : assess fl lower config source_name empty age (o ∷ os)
                  ≡ judge_low_ratio fl lower config source_name empty age (o ∷ os)
                      (last_failure fl lower (o ∷ os)) =
                rw e refl in
              ap (λ a. a.state) p ∙ judge_low_ratio-causes (o ∷ os) _ e
          | inr e ↦
              let p : assess fl lower config source_name empty age (o ∷ os)
                  ≡ judge_failures fl lower config source_name empty age (o ∷ os)
                      (last_failure fl lower (o ∷ os)) =
                rw e refl in
              ap (λ a. a.state) p ∙ judge_failures-causes (o ∷ os) _ e
        ]
