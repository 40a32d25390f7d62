-- ===== src/Health/Evaluator.antt =====
-- libs/observability/health_evaluation.py: the health of the configured sources from what is stored of
-- their fetches.
pub mod Empties
use agentic_data_engineering.Health.Tracker.{
  DegradationState, healthy, FreshnessState, fresh, stale_data, never_collected, Floats, Config,
  FetchOutcome, exceeds,
}
use agentic_data_engineering.Health.Assessor.{Reason, no_fetch_history, Assessment, assess}
use agentic_data_engineering.Base.{
  ℕ, zero, suc, ◌+◌, ◌-◌, ◌*◌, ◌≤◌, ◌<◌, min, String, ◌≡◌, refl, sym, ap, ◌∙◌, ◌≢◌, ◌↔◌, ◌⊎◌, inl,
  inr, Bool, true, false, not, ◌&&◌, ◌||◌, Option, none, some, List, [], ◌∷◌, ◌++◌, map, append-nil,
  append_assoc, arith, ltb, leb, ==_iff, if◌then◌else◌, Bool-cases, Option-cases, is_some, length,
  drop, take, select, exists, count_if, length-append, length-drop, length-select, All, All-append,
  All_map_of,
}
use agentic_data_engineering.Base.Equality.{
  Eq, ◌==◌, nat_eq, string_eq, option_eq, beq_refl, beq-eq, beq_false, beq_sym, beq_cases,
}
use agentic_data_engineering.Base.Dict.{Dict, get, put, remove, get-put, get-remove, dict_laws}
use agentic_data_engineering.Base.Exec.{
  Result, ok, err, Exec, pure, raise, gets, lift, modify, continue, ◌>>=◌, ◌>>◌,
}

-- `d.get(key, default)`
abbrev or_default {ℓ} : {A : Type ℓ} → A → Option A → A
or_default d none = d
or_default d (some a) = a

-- `reversed(xs)`
unfoldable pub reversed : {A : Type 0} → List A → List A
reversed [] = []
reversed (x ∷ xs) = reversed xs ++ x ∷ []

module _ (fl : Floats) (lower : String → String) (Time : Type 0) where
  open fl use {Float, zero_float, less}

  -- an entry of `recent_fetch_outcomes`, with the keys that it has
  pub record RawOutcome : Type 0 where
    pub success : Option Bool
    pub events_emitted : Option ℕ
    pub total_records : Option ℕ
    pub malformed_count : Option ℕ
    pub failure_reason : Option String

  -- `SourceObservation`; nothing reads `total_observations`
  pub record SourceObservation : Type 0 where
    pub source_name : String
    pub last_observation_at : Option Time
    pub recent_fetch_outcomes : List RawOutcome

  -- `SourceHealthEvaluationConfig`
  pub record EvaluationConfig : Type 0 where
    pub source_configs : Dict String (Config fl)
    pub default_config : Config fl

  -- what the reasons of an evaluation are
  pub data EvaluationReasons : Type 0 where
    assessed : List (Reason fl lower) → EvaluationReasons
    no_observation_data_available : EvaluationReasons

  -- `IngestionHealthEvaluation`
  pub record Evaluation : Type 0 where
    pub source_name : String
    pub assessment : Assessment fl lower
    pub reasons : EvaluationReasons
    pub freshness_state : FreshnessState
    pub freshness_age_seconds : Option Float

  unfoldable pub config_for : EvaluationConfig → String → Config fl
  unfolding get
  config_for c source_name = or_default c.default_config (get source_name c.source_configs)

  -- `seconds_since` is the clock's time less a time, in seconds
  unfoldable pub compute_freshness_age : (Time → Float) → SourceObservation → Option Float
  compute_freshness_age seconds_since obs = elim obs.last_observation_at [
    | none ↦ none
    | some t ↦ some (if less zero_float (seconds_since t) then seconds_since t else zero_float)
  ]

  unfoldable pub compute_freshness_state : Option Float → Config fl → FreshnessState
  unfolding exceeds
  compute_freshness_state none config = never_collected
  compute_freshness_state (some age) config =
      if exceeds fl age config.max_freshness_age_seconds then stale_data else fresh

  unfoldable pub outcome_of_raw : RawOutcome → FetchOutcome fl
  outcome_of_raw raw = record {
    success = or_default true raw.success;
    events_emitted = or_default 0 raw.events_emitted;
    total_records = or_default 0 raw.total_records;
    malformed_count = or_default 0 raw.malformed_count;
    failure_reason = raw.failure_reason;
  }

  unfoldable pub build_outcomes : List RawOutcome → List (FetchOutcome fl)
  unfolding outcome_of_raw
  build_outcomes [] = []
  build_outcomes (raw ∷ raws) = outcome_of_raw raw ∷ build_outcomes raws

  -- the loop that counts until its `break`
  unfoldable pub count_until : List RawOutcome → ℕ
  count_until [] = 0
  count_until (raw ∷ raws) =
      let rest = count_until raws in
      if or_default true raw.success && or_default 0 raw.events_emitted == 0 then suc rest else 0

  unfoldable pub count_consecutive_empty : List RawOutcome → ℕ
  unfolding count_until reversed
  count_consecutive_empty raws = count_until (reversed raws)

  is_never_collected : FreshnessState → Bool
  is_never_collected never_collected = true
  is_never_collected s = false

  is_healthy : DegradationState → Bool
  is_healthy healthy = true
  is_healthy s = false

  unfoldable pub evaluation_reasons :
      FreshnessState → Assessment fl lower → List (FetchOutcome fl) → EvaluationReasons
  unfolding is_never_collected is_healthy
  evaluation_reasons freshness a [] =
      if is_never_collected freshness && is_healthy a.state
      then no_observation_data_available
      else assessed a.reasons
  evaluation_reasons freshness a (o ∷ os) = assessed a.reasons

  unfoldable pub evaluate_source :
      EvaluationConfig → (Time → Float) → SourceObservation → Evaluation
  unfolding config_for compute_freshness_age compute_freshness_state build_outcomes
      count_consecutive_empty assess evaluation_reasons
  evaluate_source c seconds_since obs =
      let config = config_for c obs.source_name in
      let age = compute_freshness_age seconds_since obs in
      let freshness = compute_freshness_state age config in
      let outcomes = build_outcomes obs.recent_fetch_outcomes in
      let empties = count_consecutive_empty obs.recent_fetch_outcomes in
      let assessment = assess fl lower config obs.source_name empties age outcomes in
      record {
        source_name = obs.source_name;
        assessment = assessment;
        reasons = evaluation_reasons freshness assessment outcomes;
        freshness_state = freshness;
        freshness_age_seconds = age;
      }

  unfoldable pub evaluate_all :
      EvaluationConfig → (Time → Float) → List SourceObservation → List Evaluation
  unfolding evaluate_source
  evaluate_all c seconds_since [] = []
  evaluate_all c seconds_since (obs ∷ rest) =
      evaluate_source c seconds_since obs ∷ evaluate_all c seconds_since rest
