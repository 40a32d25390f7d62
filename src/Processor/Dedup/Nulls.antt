-- ===== src/Processor/Dedup/Nulls.antt =====
-- The payload hash of a row with a null: `concat_str` gives a null then, so that the hash says
-- nothing of the other columns.
use mathlib.Core.Option
use agentic_data_engineering.Processor.Columns.{Polars, Row}
use agentic_data_engineering.Processor.Dedup.{concat_columns, hash_columns, row_hash, deduplicate}
use agentic_data_engineering.Processor.Dedup.Marks.{clash, occurs}
use agentic_data_engineering.Processor.Dedup.Outputs.{deduplicate_without_state}
use agentic_data_engineering.Base.{String, ◌≡◌, refl, ap, Option, none, some, List, [], ◌∷◌, ◌++◌}
use agentic_data_engineering.Base.Equality.{nat_eq, string_eq, option_eq, beq_refl}

concat_columns_null : (xs ys : List (Option String)) → concat_columns (xs ++ none ∷ ys) ≡ none
unfolding concat_columns
concat_columns_null [] [] = refl
concat_columns_null [] (y ∷ ys) = refl
concat_columns_null (none ∷ []) ys = refl
concat_columns_null (none ∷ x ∷ xs) ys = refl
concat_columns_null (some t ∷ []) ys = rw (concat_columns_null [] ys) refl
concat_columns_null (some t ∷ x ∷ xs) ys = rw (concat_columns_null (x ∷ xs) ys) refl

module _ (P : Polars) where
  open P use {hash, hash_eq}

  row_hash_null : (r : Row P) → r.price ≡ none → row_hash P r ≡ hash none
  unfolding row_hash hash_columns concat_columns
  row_hash_null r h = rw h (
      ap hash (
        concat_columns_null
          (r.event_type
            ∷ Option.map P.version_text r.schema_version
            ∷ r.source
            ∷ Option.map P.time_text r.produced_at
            ∷ r.external_id
            ∷ r.name
            ∷ r.url
            ∷ [])
          (r.currency ∷ r.availability ∷ r.category ∷ Option.map P.time_text r.collected_at ∷ [])))

  -- Of two rows with one event id and no price, the second is dropped as a duplicate, whatever the
  -- other columns hold, and no conflict is reported.
  pub deduplicate_null_price :
      (a b : Row P)
      → a.price ≡ none
      → b.price ≡ none
      → b.event_id ≡ a.event_id
      → (deduplicate P (a ∷ b ∷ []) none).0
        ≡ record { deduplicated = a ∷ []; duplicates = b ∷ []; conflicts = [] }
  unfolding clash occurs
  deduplicate_null_price a b ha hb e =
      rw
        (
          deduplicate_without_state P (a ∷ b ∷ []),
          row_hash_null a ha,
          row_hash_null b hb,
          e,
          beq_refl a.event_id,
          beq_refl ⦃e = hash_eq⦄ (hash none),
        )
        refl
