-- ===== src/Health/Tests.antt =====
-- The health of a source at concrete fetches.
use agentic_data_engineering.Health.Tracker.{
  healthy, rate_limited, empty_result, Floats, Config, FetchOutcome, last_of, new_tracker,
  record_fetch_success, record_fetch_failure,
}
use agentic_data_engineering.Health.Tracker.History.{
  Report, fetched, failed, tell_all, outcome_of, tell_all-outcomes,
}
use agentic_data_engineering.Health.Assessor.{assess, assess_tracker}
use agentic_data_engineering.Health.Assessor.Causes.{first_cause, causes, assess-causes}
use agentic_data_engineering.Health.Evaluator.{RawOutcome, build_outcomes, count_consecutive_empty}
use agentic_data_engineering.Base.{
  ℕ, ◌*◌, String, ◌≡◌, refl, Bool, false, Option, none, some, List, [], ◌∷◌, map, ltb,
}
use agentic_data_engineering.Base.Equality.{nat_eq, string_eq, option_eq}

-- A float is a fraction, and a ratio is compared by its product.
abbrev floats : Floats
floats = record {
  Float = ℕ × ℕ;
  zero_float = (0, 1);
  quotient = λ a b. (a, b);
  round_4 = λ x. x;
  less = λ x y. ltb (x.0 * y.1) (y.0 * x.1);
}

abbrev config : Config floats
config = record {
  min_success_ratio = (1, 2);
  max_malformed_ratio = (1, 2);
  max_empty_fetches = 2;
  max_freshness_age_seconds = none;
  min_expected_records = none;
}

abbrev reports : List Report
reports = fetched 3 3 0 ∷ fetched 0 0 0 ∷ failed "timeout" ∷ fetched 0 0 0 ∷ []

abbrev raw : Option Bool → ℕ → Option String → RawOutcome floats (λ s. s) ℕ
raw success events reason = record {
  success = success;
  events_emitted = some events;
  total_records = some events;
  malformed_count = none;
  failure_reason = reason;
}

abbrev raws : List (RawOutcome floats (λ s. s) ℕ)
raws =
    raw none 3 none ∷ raw none 0 none ∷ raw (some false) 0 (some "timeout") ∷ raw none 0 none ∷ []

-- The two counts of one history differ: the tracker's makes the source an empty one.
tracker_and_evaluator :
    ((tell_all floats reports (new_tracker floats config 9)).consecutive_empty ≡ 2)
    × (count_consecutive_empty floats (λ s. s) ℕ raws ≡ 1)
    × ((assess_tracker floats
          (λ s. s)
          "shop"
          (tell_all floats reports (new_tracker floats config 9))).state
        ≡ empty_result)
    × ((assess floats (λ s. s) config "shop" 1 none (build_outcomes floats (λ s. s) ℕ raws)).state
        ≡ healthy)
unfolding tell_all new_tracker count_consecutive_empty assess assess_tracker build_outcomes
    record_fetch_success record_fetch_failure
tracker_and_evaluator = (refl, refl, refl, refl)

tell_all-outcomes_example :
    (tell_all floats reports (new_tracker floats config 2)).outcomes
    ≡ last_of 2 (map (outcome_of floats) reports)
tell_all-outcomes_example = tell_all-outcomes floats config 2 reports

abbrev blocked : FetchOutcome floats
blocked = record {
  success = false;
  events_emitted = 0;
  total_records = 0;
  malformed_count = 0;
  failure_reason = some "rate limit";
}

-- No fetch succeeds, and the source is not unreachable.
blocked_state : (assess floats (λ s. s) config "shop" 0 none (blocked ∷ [])).state ≡ rate_limited
unfolding assess
blocked_state = refl

assess-causes_example :
    (assess floats (λ s. s) config "shop" 0 none (blocked ∷ [])).state
    ≡ first_cause (causes floats (λ s. s) config "shop" 0 none (blocked ∷ []))
assess-causes_example = assess-causes floats (λ s. s) config "shop" 0 none blocked []
