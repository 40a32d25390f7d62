-- ===== src/Health/Assessor.antt =====
-- libs/observability/health_assessment.py: `SourceHealthAssessor`.
pub mod Causes
use agentic_data_engineering.Base.Texts.{contains}
use agentic_data_engineering.Health.Tracker.{
  DegradationState, healthy, unreachable, rate_limited, structurally_changed, partially_parseable,
  empty_result, stale, Floats, Config, FetchOutcome, exceeds, Tracker,
}
use agentic_data_engineering.Base.{
  ℕ, zero, suc, ◌+◌, ◌-◌, ◌*◌, ◌≤◌, ◌<◌, min, String, ◌≡◌, refl, sym, ap, ◌∙◌, ◌≢◌, ◌↔◌, ◌⊎◌, inl,
  inr, Bool, true, false, not, ◌&&◌, ◌||◌, Option, none, some, List, [], ◌∷◌, ◌++◌, map, append-nil,
  append_assoc, arith, ltb, leb, ==_iff, if◌then◌else◌, Bool-cases, Option-cases, is_some, length,
  drop, take, select, exists, count_if, length-append, length-drop, length-select, All, All-append,
  All_map_of,
}
use agentic_data_engineering.Base.Equality.{
  Eq, ◌==◌, nat_eq, string_eq, option_eq, beq_refl, beq-eq, beq_false, beq_sym, beq_cases,
}
use agentic_data_engineering.Base.Dict.{Dict, get, put, remove, get-put, get-remove, dict_laws}
use agentic_data_engineering.Base.Exec.{
  Result, ok, err, Exec, pure, raise, gets, lift, modify, continue, ◌>>=◌, ◌>>◌,
}

module _ (fl : Floats) (lower : String → String) where
  open fl use {Float, zero_float, quotient, round_4, less}

  -- the reasons, with the values that their texts show
  pub data Reason : Type 0 where
    no_fetch_history : Reason
    low_ratio_and_rate_limit low_ratio_and_structural_change : Option String → Reason
    ratio_below_threshold : Float → Float → Reason
    recent_rate_limit recent_structural_change : Option String → Reason
    age_exceeds_threshold : Option Float → Option Float → Reason
    consecutive_empty_fetches : ℕ → ℕ → Reason
    records_below_minimum : ℕ → Option ℕ → Reason
    malformed_above_threshold : Float → Float → Reason

  pub record Counts : Type 0 where
    pub successful_fetches : ℕ
    pub failed_fetches : ℕ
    pub success_ratio : Float
    pub total_records : ℕ
    pub total_malformed : ℕ
    pub total_events : ℕ
    pub malformed_ratio : Float
    pub consecutive_empty : ℕ

  -- the signals; without a history only the number of fetches and the freshness are there
  pub record Signals : Type 0 where
    pub total_fetches : ℕ
    pub counts : Option Counts
    pub freshness_age_seconds : Option Float
    pub max_freshness_age_seconds : Option Float

  -- `SourceHealthAssessment`, without the clock's time
  pub record Assessment : Type 0 where
    pub state : DegradationState
    pub reasons : List Reason
    pub source : String
    pub signals : Signals

  unfoldable pub sum_of : (FetchOutcome fl → ℕ) → List (FetchOutcome fl) → ℕ
  sum_of f [] = 0
  sum_of f (o ∷ os) = (if o.success then f o else 0) + sum_of f os

  -- the last fetch that failed
  unfoldable pub last_failure : List (FetchOutcome fl) → Option (FetchOutcome fl)
  last_failure [] = none
  last_failure (o ∷ os) = elim (last_failure os) [
    | some f ↦ some f
    | none ↦ (if o.success then none else some o)
  ]

  unfoldable pub reason_lower : FetchOutcome fl → String
  reason_lower o = elim o.failure_reason [ none ↦ lower "" | some reason ↦ lower reason ]

  unfoldable pub says_rate_limit : FetchOutcome fl → Bool
  unfolding reason_lower contains
  says_rate_limit o = contains "rate" (reason_lower o) && contains "limit" (reason_lower o)

  unfoldable pub says_structural : FetchOutcome fl → Bool
  unfolding reason_lower contains
  says_structural o =
      contains "structural" (reason_lower o) || contains "structure" (reason_lower o)

  -- the values that `assess` computes first
  unfoldable pub success_ratio_of : List (FetchOutcome fl) → Float
  success_ratio_of os =
      if ltb 0 (length os) then quotient (count_if (λ o. o.success) os) (length os) else zero_float

  unfoldable pub malformed_ratio_of : List (FetchOutcome fl) → Float
  unfolding sum_of
  malformed_ratio_of os =
      let records = sum_of (λ o. o.total_records) os in
      if ltb 0 records then quotient (sum_of (λ o. o.malformed_count) os) records else zero_float

  module _ (config : Config fl) (source_name : String) (consecutive_empty : ℕ)
      (age : Option Float) where
    unfoldable pub signals_of : List (FetchOutcome fl) → Signals
    unfolding sum_of success_ratio_of malformed_ratio_of
    signals_of os = record {
      total_fetches = length os;
      counts = some (record {
        successful_fetches = count_if (λ o. o.success) os;
        failed_fetches = length os - count_if (λ o. o.success) os;
        success_ratio = round_4 (success_ratio_of os);
        total_records = sum_of (λ o. o.total_records) os;
        total_malformed = sum_of (λ o. o.malformed_count) os;
        total_events = sum_of (λ o. o.events_emitted) os;
        malformed_ratio = round_4 (malformed_ratio_of os);
        consecutive_empty = consecutive_empty;
      });
      freshness_age_seconds = age;
      max_freshness_age_seconds = config.max_freshness_age_seconds;
    }

    unfoldable pub judged : List (FetchOutcome fl) → DegradationState → List Reason → Assessment
    unfolding signals_of
    judged os state reasons = record {
      state = state;
      reasons = reasons;
      source = source_name;
      signals = signals_of os;
    }

    -- the branch of a low success ratio
    unfoldable pub judge_low_ratio : List (FetchOutcome fl) → Option (FetchOutcome fl) → Assessment
    unfolding judged says_rate_limit says_structural success_ratio_of
    judge_low_ratio os none =
        judged os unreachable
          (ratio_below_threshold (success_ratio_of os) config.min_success_ratio ∷ [])
    judge_low_ratio os (some o) =
        if says_rate_limit o
        then judged os rate_limited (low_ratio_and_rate_limit o.failure_reason ∷ [])
        else if says_structural o
        then judged os structurally_changed (low_ratio_and_structural_change o.failure_reason ∷ [])
        else judged os unreachable
            (ratio_below_threshold (success_ratio_of os) config.min_success_ratio ∷ [])

    unfoldable pub is_stale : Bool
    unfolding exceeds
    is_stale = elim age [ none ↦ false | some a ↦ exceeds fl a config.max_freshness_age_seconds ]

    unfoldable pub has_few_records : List (FetchOutcome fl) → Bool
    unfolding sum_of
    has_few_records os = elim config.min_expected_records [
      | none ↦ false
      | some least ↦
          ltb 0 (sum_of (λ o. o.total_records) os) && ltb (sum_of (λ o. o.total_records) os) least
    ]

    unfoldable pub has_many_malformed : List (FetchOutcome fl) → Bool
    unfolding sum_of malformed_ratio_of
    has_many_malformed os =
        ltb 0 (sum_of (λ o. o.total_records) os)
        && less config.max_malformed_ratio (malformed_ratio_of os)

    -- the checks behind the failures
    unfoldable pub judge_data : List (FetchOutcome fl) → Assessment
    unfolding judged is_stale has_few_records has_many_malformed sum_of malformed_ratio_of
    judge_data os =
        if is_stale
        then judged os stale (age_exceeds_threshold age config.max_freshness_age_seconds ∷ [])
        else if leb config.max_empty_fetches consecutive_empty
        then judged os empty_result
            (consecutive_empty_fetches consecutive_empty config.max_empty_fetches ∷ [])
        else if has_few_records os
        then judged os empty_result (
            records_below_minimum (sum_of (λ o. o.total_records) os) config.min_expected_records
            ∷ [])
        else if has_many_malformed os
        then judged os partially_parseable
            (malformed_above_threshold (malformed_ratio_of os) config.max_malformed_ratio ∷ [])
        else judged os healthy []

    unfoldable pub judge_failures : List (FetchOutcome fl) → Option (FetchOutcome fl) → Assessment
    unfolding judged says_rate_limit says_structural judge_data
    judge_failures os none = judge_data os
    judge_failures os (some o) =
        if says_rate_limit o
        then judged os rate_limited (recent_rate_limit o.failure_reason ∷ [])
        else if says_structural o
        then judged os structurally_changed (recent_structural_change o.failure_reason ∷ [])
        else judge_data os

    unfoldable pub assess : List (FetchOutcome fl) → Assessment
    unfolding judge_low_ratio judge_failures last_failure success_ratio_of
    assess [] = record {
      state = healthy;
      reasons = no_fetch_history ∷ [];
      source = source_name;
      signals = record {
        total_fetches = 0;
        counts = none;
        freshness_age_seconds = age;
        max_freshness_age_seconds = config.max_freshness_age_seconds;
      };
    }
    assess (o ∷ os) =
        if less (success_ratio_of (o ∷ os)) config.min_success_ratio
        then judge_low_ratio (o ∷ os) (last_failure (o ∷ os))
        else judge_failures (o ∷ os) (last_failure (o ∷ os))

  -- `SourceHealthTracker.assess`
  unfoldable pub assess_tracker : String → Tracker fl → Assessment
  unfolding assess
  assess_tracker source_name t =
      assess t.config source_name t.consecutive_empty t.freshness_age_seconds t.outcomes
