-- ===== src/Processor/Pipeline/Routing.antt =====
-- How the rows of a batch are found again in the event index, and how the valid ones are routed.
use agentic_data_engineering.Processor.Columns.{Polars, Row}
use agentic_data_engineering.Processor.Events.{
  Event, events_to_polars, event_rows, prices, normalize,
}
use agentic_data_engineering.Processor.Validation.{has_errors, rejected}
use agentic_data_engineering.Processor.Dedup.{
  Annotated, Seen, DeduplicationResult, total_input_count, rows_where, split_result, deduplicate,
}
use agentic_data_engineering.Processor.Dedup.Marks.{marked}
use agentic_data_engineering.Processor.Dedup.Split.{flags_of, final_marks, deduplicate_lem}
use agentic_data_engineering.Processor.Dedup.Outputs.{total_input_count-deduplicate}
use agentic_data_engineering.Processor.Pipeline.{
  World, Sinks, event_index, event_of_row, route_valid, count, publish_conflict_records,
  publish_valid_records,
}
use agentic_data_engineering.Processor.Pipeline.Progress.{
  Ends, Progress-then, By, counts, Found, publish_conflict-Progress, publish_valid-Progress,
}
use agentic_data_engineering.Base.{
  ◌⊎◌, suc, ◌+◌, String, ◌≡◌, refl, ap, inl, inr, Bool, true, false, Option, none, some, List, [],
  ◌∷◌, ◌++◌, arith, if◌then◌else◌, Bool-cases, is_some, length, select, All,
}
use agentic_data_engineering.Base.Equality.{nat_eq, string_eq, option_eq, beq_refl}
use agentic_data_engineering.Base.Dict.{Dict, get, put, get-put}
use agentic_data_engineering.Base.Exec.{◌>>◌}

pub All-select {ℓ} :
    {A : Type 0} (Q : A → Type ℓ) (p : A → Bool) (xs : List A) → All Q xs → All Q (select p xs)
All-select Q p [] h = tt
All-select Q p (x ∷ xs) h = elim (Bool-cases (p x)) [
  | inl e ↦ rw e (h.0, All-select Q p xs h.1)
  | inr e ↦ rw e (All-select Q p xs h.1)
]

All_if {ℓ} :
    {A : Type 0} (Q : A → Type ℓ) (b : Bool) (x : A) (xs : List A)
    → Q x
    → All Q xs
    → All Q (if b then x ∷ xs else xs)
All_if Q true x xs h hs = (h, hs)
All_if Q false x xs h hs = hs

module _ (P : Polars) where
  index-keeps :
      (k : String) (es : List (Event P)) (index : Dict String (Event P))
      → is_some (get k index) ≡ true
      → is_some (get k (event_index P es index)) ≡ true
  unfolding event_index
  index-keeps k [] index h = h
  index-keeps k (e ∷ es) index h =
      index-keeps k es (put e.event_id e index) (rw get-put (ground arith))

  -- every event of the batch is found under its event id
  pub index-has :
      (es : List (Event P)) (index : Dict String (Event P))
      → All (λ (e : Event P). is_some (get e.event_id (event_index P es index)) ≡ true) es
  unfolding event_index
  index-has [] index = tt
  index-has (e ∷ es) index = (
    index-keeps e.event_id es (put e.event_id e index) (rw get-put (rw (beq_refl e.event_id) refl)),
    index-has es (put e.event_id e index),
  )

  pub rows-Found :
      (index : Dict String (Event P)) (es : List (Event P))
      → All (λ (e : Event P). is_some (get e.event_id index) ≡ true) es
      → All (Found P index) (normalize P (event_rows P es))
  unfolding normalize event_rows event_of_row
  rows-Found index [] h = tt
  rows-Found index (e ∷ es) h = (h.0, rows-Found index es h.1)

  -- The rows of the events are built, or `from_dicts` raises.
  pub events_to_polars-cases :
      (es : List (Event P))
      → (events_to_polars P es ≡ none) ⊎ (events_to_polars P es ≡ some (event_rows P es))
  unfolding events_to_polars event_rows
  events_to_polars-cases [] = inr refl
  events_to_polars-cases (e ∷ es) =
      elim (Bool-cases (P.takes_prices (prices P (event_rows P (e ∷ es))))) [
        | inl h ↦ rw h (inr refl)
        | inr h ↦ rw h (inl refl)
      ]

  pub events_to_polars-taken :
      (e : Event P) (es : List (Event P))
      → P.takes_prices (prices P (event_rows P (e ∷ es))) ≡ true
      → events_to_polars P (e ∷ es) ≡ some (event_rows P (e ∷ es))
  unfolding events_to_polars
  events_to_polars-taken e es h = rw h refl

  pub events_to_polars-refused :
      (e : Event P) (es : List (Event P))
      → P.takes_prices (prices P (event_rows P (e ∷ es))) ≡ false
      → events_to_polars P (e ∷ es) ≡ none
  unfolding events_to_polars
  events_to_polars-refused e es h = rw h refl

  pub length-rows : (es : List (Event P)) → length (normalize P (event_rows P es)) ≡ length es
  unfolding normalize event_rows
  length-rows [] = refl
  length-rows (e ∷ es) = ap suc (length-rows es)

  module _ (Q : Row P → Type 0) where
    pub All-rejected : (df : List (Row P)) → All Q df → All (λ p. Q p.0) (rejected P df)
    unfolding rejected
    All-rejected [] h = tt
    All-rejected (r ∷ df) h = elim (Bool-cases (has_errors P r)) [
      | inl e ↦ rw e (h.0, All-rejected df h.1)
      | inr e ↦ rw e (All-rejected df h.1)
    ]

    All-marked :
        (p : Annotated P → Bool) (df before rest : List (Row P)) (flags : List Bool)
        → All Q rest
        → All Q (rows_where P p (marked P df before rest flags))
    unfolding rows_where marked
    All-marked p df before [] flags h = tt
    All-marked p df before (r ∷ rest) [] h = tt
    All-marked p df before (r ∷ rest) (b ∷ flags) h =
        All_if Q _ r _ h.0 (All-marked p df (before ++ r ∷ []) rest flags h.1)

    All-deduplicate :
        (df : List (Row P)) (state : Option (Seen P))
        → All Q df
        → let out = (deduplicate P df state).0 in All Q out.deduplicated × All Q out.conflicts
    All-deduplicate df state h = rw deduplicate_lem (
        unfold split_result final_marks in
        (
          All-marked _ df [] df (flags_of P df state) h,
          All-marked _ df [] df (flags_of P df state) h,
        ))

  pub deduplicate-total :
      (df : List (Row P)) (state : Option (Seen P))
      → state ≡ none
      → total_input_count P (deduplicate P df state).0 ≡ length df
  deduplicate-total df none h = total_input_count-deduplicate P df
  deduplicate-total df (some seen) h = cc

  -- the frames of `deduplicate` on the valid rows, in the state `w`
  abbrev pub outcome_of : List (Row P) → World P → DeduplicationResult P
  outcome_of valid w = (deduplicate P valid w.seen).0

  module _ (S : Sinks P) (index : Dict String (Event P)) where
    pub route_valid-Progress :
        (valid : List (Row P)) (w : World P)
        → All (Found P index) valid
        → let out = outcome_of valid w in
          let c = length out.conflicts in
          let v = length out.deduplicated in
          Ends P
            (By P
              (record w { seen = (deduplicate P valid w.seen).1 })
              (v, c, counts P v c (length out.duplicates) c))
            (route_valid P S valid index w)
    unfolding route_valid
    route_valid-Progress valid w h =
        let out = outcome_of valid w in
        let c = length out.conflicts in
        let d = length out.duplicates in
        let v = length out.deduplicated in
        let found = All-deduplicate (Found P index) valid w.seen h in
        let mark_duplicates =
          count P S (λ n. record n { duplicates_skipped = n.duplicates_skipped + d }) in
        let mark_valid = count P S (λ n. record n { published_valid = n.published_valid + v }) in
        Progress-then P (0, c, counts P 0 c 0 c) (v, 0, counts P v 0 d 0) (v, c, counts P v c d c)
          (publish_conflict_records P S out.conflicts index)
          (mark_duplicates >> (publish_valid_records P S out.deduplicated index >> mark_valid))
          (record w { seen = (deduplicate P valid w.seen).1 }) (omega arith)
          (publish_conflict-Progress P S index out.conflicts _ found.1)
          λ w₁ _.
            Progress-then P (0, 0, counts P 0 0 d 0) (v, 0, counts P v 0 0 0)
              (v, 0, counts P v 0 d 0) mark_duplicates
              (publish_valid_records P S out.deduplicated index >> mark_valid) w₁ (omega arith)
              (ground arith)
              λ w₂ _.
                Progress-then P (v, 0, counts P 0 0 0 0) (0, 0, counts P v 0 0 0)
                  (v, 0, counts P v 0 0 0) (publish_valid_records P S out.deduplicated index)
                  mark_valid w₂ (omega arith)
                  (publish_valid-Progress P S index out.deduplicated w₂ found.0)
                  λ w₃ _. ground arith
