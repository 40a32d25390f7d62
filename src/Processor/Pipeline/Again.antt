-- ===== src/Processor/Pipeline/Again.antt =====
-- A batch of services/processor/pipeline.py that is processed twice by one pipeline.
use agentic_data_engineering.Processor.Columns.{Polars}
use agentic_data_engineering.Processor.Events.{Event}
use agentic_data_engineering.Processor.Dedup.{Seen, deduplicate}
use agentic_data_engineering.Processor.Pipeline.{World, Sinks, Step}
use agentic_data_engineering.Base.{◌≡◌, ◌⊎◌, Option, List}
use agentic_data_engineering.Base.Equality.{nat_eq, string_eq, option_eq}
use agentic_data_engineering.Base.Dict.{Dict}
use agentic_data_engineering.Processor.Pipeline.Retry.{valid_rows}

module _ (P : Polars) (S : Sinks P) where
  abbrev KeepsSeen : Step P → Type 0
  KeepsSeen m = (w : World P) → (m w).1.seen ≡ w.seen

  -- A run leaves the state, or writes that of its deduplication.
  abbrev Written : List (Event P) → Option (Seen P) → World P → Type 0
  Written events σ w = (w.seen ≡ σ) ⊎ (w.seen ≡ (deduplicate P (valid_rows P events) σ).1)
