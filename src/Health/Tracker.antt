-- ===== src/Health/Tracker.antt =====
-- libs/observability/health_assessment.py: the outcomes of the fetches of a source, and the judgement.
pub mod History
use agentic_data_engineering.Base.{
  ℕ, zero, suc, ◌+◌, ◌-◌, ◌*◌, ◌≤◌, ◌<◌, min, String, ◌≡◌, refl, sym, ap, ◌∙◌, ◌≢◌, ◌↔◌, ◌⊎◌, inl,
  inr, Bool, true, false, not, ◌&&◌, ◌||◌, Option, none, some, List, [], ◌∷◌, ◌++◌, map, append-nil,
  append_assoc, arith, ltb, leb, ==_iff, if◌then◌else◌, Bool-cases, Option-cases, is_some, length,
  drop, take, select, exists, count_if, length-append, length-drop, length-select, All, All-append,
  All_map_of,
}
use agentic_data_engineering.Base.Equality.{
  Eq, ◌==◌, nat_eq, string_eq, option_eq, beq_refl, beq-eq, beq_false, beq_sym, beq_cases,
}
use agentic_data_engineering.Base.Dict.{Dict, get, put, remove, get-put, get-remove, dict_laws}
use agentic_data_engineering.Base.Exec.{
  Result, ok, err, Exec, pure, raise, gets, lift, modify, continue, ◌>>=◌, ◌>>◌,
}

-- `SourceDegradationState`
pub data DegradationState : Type 0 where
  healthy unreachable rate_limited structurally_changed : DegradationState
  partially_parseable empty_result stale : DegradationState

-- `FreshnessState`
pub data FreshnessState : Type 0 where
  fresh stale_data never_collected : FreshnessState

-- Python's floats as far as the module computes with them: 0.0, a quotient of two
-- counts, `round(x, 4)` and the comparison.
pub record Floats : Type 1 where
  pub Float : Type 0
  pub zero_float : Float
  pub quotient : ℕ → ℕ → Float
  pub round_4 : Float → Float
  pub less : Float → Float → Bool

-- `outcomes[-n:]`, where `-0` is 0 and the slice is the whole list
unfoldable pub last_of : {A : Type 0} → ℕ → List A → List A
last_of zero xs = xs
last_of (suc n) xs = drop (length xs - suc n) xs

module _ (fl : Floats) where
  open fl use {Float, less}

  -- `SourceHealthConfig`
  pub record Config : Type 0 where
    pub min_success_ratio : Float
    pub max_malformed_ratio : Float
    pub max_empty_fetches : ℕ
    pub max_freshness_age_seconds : Option Float
    pub min_expected_records : Option ℕ

  -- `_FetchOutcome`, without its time stamp, which nothing reads
  pub record FetchOutcome : Type 0 where
    pub success : Bool
    pub events_emitted : ℕ
    pub total_records : ℕ
    pub malformed_count : ℕ
    pub failure_reason : Option String

  -- `SourceHealthTracker`
  pub record Tracker : Type 0 where
    pub config : Config
    pub max_history : ℕ
    pub outcomes : List FetchOutcome
    pub consecutive_empty : ℕ
    pub freshness_age_seconds : Option Float

  unfoldable pub new_tracker : Config → ℕ → Tracker
  new_tracker config max_history = record {
    config = config;
    max_history = max_history;
    outcomes = [];
    consecutive_empty = 0;
    freshness_age_seconds = none;
  }

  unfoldable pub update_freshness_age : Option Float → Tracker → Tracker
  update_freshness_age age t = record t { freshness_age_seconds = age }

  unfoldable pub exceeds : Float → Option Float → Bool
  exceeds age none = false
  exceeds age (some threshold) = less threshold age

  unfoldable pub get_freshness_state : Tracker → FreshnessState
  unfolding exceeds
  get_freshness_state t = elim t.freshness_age_seconds [
    | none ↦ never_collected
    | some age ↦ (if exceeds age t.config.max_freshness_age_seconds then stale_data else fresh)
  ]

  unfoldable pub trim_history : Tracker → Tracker
  unfolding last_of
  trim_history t =
      if ltb t.max_history (length t.outcomes)
      then record t { outcomes = last_of t.max_history t.outcomes }
      else t

  unfoldable pub add_outcome : FetchOutcome → Tracker → Tracker
  unfolding trim_history
  add_outcome outcome t = trim_history (record t { outcomes = t.outcomes ++ outcome ∷ [] })

  unfoldable pub record_fetch_success : ℕ → ℕ → ℕ → Tracker → Tracker
  unfolding add_outcome
  record_fetch_success events_emitted total_records malformed_count t =
      let outcome : FetchOutcome = record {
        success = true;
        events_emitted = events_emitted;
        total_records = total_records;
        malformed_count = malformed_count;
        failure_reason = none;
      } in
      let u = add_outcome outcome t in
      if events_emitted == 0
      then record u { consecutive_empty = u.consecutive_empty + 1 }
      else record u { consecutive_empty = 0 }

  unfoldable pub record_fetch_failure : String → Tracker → Tracker
  unfolding add_outcome
  record_fetch_failure reason t =
      let outcome : FetchOutcome = record {
        success = false;
        events_emitted = 0;
        total_records = 0;
        malformed_count = 0;
        failure_reason = some reason;
      } in
      add_outcome outcome t
