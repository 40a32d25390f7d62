-- ===== src/Ingestion/Tests.antt =====
-- The ingestion runner at concrete answers of the sources and of the producer.
use agentic_data_engineering.Ingestion.Runner.{
  FetchAnswer, fetched, source_fetch_error, receipt, delivery_failed, other_exception, Environment,
  Runner, new_runner, fetch_and_publish, run_once, run_cycles,
}
use agentic_data_engineering.Ingestion.Runner.Effects.{IsAccounted}
use agentic_data_engineering.Ingestion.Runner.Totals.{
  run_cycles-IsAccounted, fetch_and_publish_apart,
}
use agentic_data_engineering.Ingestion.Runner.Calls.{run_cycles-IsReceived}
use agentic_data_engineering.Base.{
  ℕ, zero, suc, ◌≤◌, String, ◌≡◌, refl, [], ◌∷◌, if◌then◌else◌, length,
}
use agentic_data_engineering.Base.Equality.{◌==◌, nat_eq, string_eq, option_eq}
use agentic_data_engineering.Base.Dict.{get}

-- The first fetch fails, the others bring two events and a malformed record; the producer refuses the
-- event 2.
abbrev env : Environment ℕ ℕ
env = record {
  fetch = answers;
  publish = λ event n. if event == 2 then delivery_failed else receipt;
}
  where
    answers : String → ℕ → FetchAnswer ℕ ℕ
    answers name zero = source_fetch_error "timeout"
    answers name (suc n) = fetched (1 ∷ 2 ∷ []) (7 ∷ [])

abbrev runner : Runner ℕ ℕ
runner = new_runner ℕ ℕ ("shop" ∷ "market" ∷ []) 3

-- Two cycles: four deliveries, of one event each.
two_cycles :
    ((run_cycles ℕ ℕ env 2 ("shop" ∷ "market" ∷ []) runner).stats.total_events_published ≡ 4)
    × ((run_cycles ℕ ℕ env 2 ("shop" ∷ "market" ∷ []) runner).stats.total_malformed ≡ 4)
    × ((run_cycles ℕ ℕ env 2 ("shop" ∷ "market" ∷ []) runner).fetches ≡ 5)
    × ((run_cycles ℕ ℕ env 2 ("shop" ∷ "market" ∷ []) runner).slept ≡ 1 ∷ [])
unfolding run_cycles new_runner
two_cycles = (refl, refl, refl, refl)

-- The producer fails at the second event: the first has its receipt and is not counted.
abbrev breaking : Environment ℕ ℕ
breaking = record {
  fetch = λ name n. fetched (1 ∷ 2 ∷ []) [];
  publish = λ event n. if event == 2 then other_exception "broken" else receipt;
}

uncounted :
    ((run_once ℕ ℕ breaking ("shop" ∷ []) runner).stats.total_events_published ≡ 0)
    × ((run_once ℕ ℕ breaking ("shop" ∷ []) runner).received ≡ 1 ∷ [])
unfolding run_once new_runner
uncounted = (refl, refl)

run_cycles-IsAccounted_example :
    IsAccounted ℕ ℕ (run_cycles ℕ ℕ env 2 ("shop" ∷ "market" ∷ []) runner)
run_cycles-IsAccounted_example = run_cycles-IsAccounted ℕ ℕ env 2 ("shop" ∷ "market" ∷ []) 3

fetch_and_publish_apart_example :
    get "market" (fetch_and_publish ℕ ℕ env "shop" runner).stats.sources
    ≡ get "market" runner.stats.sources
fetch_and_publish_apart_example = fetch_and_publish_apart ℕ ℕ env "shop" "market" runner refl

run_cycles-IsReceived_example :
    (run_cycles ℕ ℕ env 2 ("shop" ∷ "market" ∷ []) runner).stats.total_events_published
    ≤ length (run_cycles ℕ ℕ env 2 ("shop" ∷ "market" ∷ []) runner).received
run_cycles-IsReceived_example = run_cycles-IsReceived ℕ ℕ env 2 ("shop" ∷ "market" ∷ []) 3
