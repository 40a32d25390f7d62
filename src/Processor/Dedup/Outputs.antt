-- ===== src/Processor/Dedup/Outputs.antt =====
-- The three outputs of `deduplicate`, of services/processor/deduplication.py.
use agentic_data_engineering.Processor.Columns.{Polars, Row, replicate}
use agentic_data_engineering.Processor.Dedup.{
  Annotated, Seen, total_input_count, rows_where, split_result, deduplicate,
}
use agentic_data_engineering.Processor.Dedup.Marks.{clash, occurs, marked}
use agentic_data_engineering.Processor.Dedup.Split.{
  flags_of, state_after, final_marks, deduplicate_lem, length-flags_of,
}
use agentic_data_engineering.Processor.Dedup.Unique.{exists-append}
use agentic_data_engineering.Base.{
  ◌+◌, ◌≡◌, refl, inl, inr, Bool, true, false, not, ◌&&◌, ◌||◌, Option, none, List, [], ◌∷◌, ◌++◌,
  arith, if◌then◌else◌, Bool-cases, length, select, All,
}
use agentic_data_engineering.Base.Equality.{◌==◌, nat_eq, string_eq, option_eq, beq_sym}

module _ (P : Polars) where
  -- Without conflict, the first row of its event id in the batch.
  abbrev pub is_first : List (Row P) → List (Row P) → Row P → Bool
  is_first df before r = not (clash P df r) && not (occurs P before r)

  -- The rows of a batch that are first, and those that repeat an earlier row.
  abbrev pub first_rows : List (Row P) → List (Row P) → List (Row P) → List (Row P)
  first_rows df before [] = []
  first_rows df before (r ∷ rest) =
      let later = first_rows df (before ++ r ∷ []) rest in
      if is_first df before r then r ∷ later else later

  abbrev pub repeated_rows : List (Row P) → List (Row P) → List (Row P) → List (Row P)
  repeated_rows df before [] = []
  repeated_rows df before (r ∷ rest) =
      let later = repeated_rows df (before ++ r ∷ []) rest in
      if not (clash P df r) && occurs P before r then r ∷ later else later

  marked_conflicts :
      (df before rest : List (Row P)) (flags : List Bool)
      → length rest ≡ length flags
      → rows_where P (λ a. a.is_conflict) (marked P df before rest flags) ≡ select (clash P df) rest
  unfolding rows_where marked
  marked_conflicts df before [] flags h = refl
  marked_conflicts df before (r ∷ rest) [] h = absurd (omega arith)
  marked_conflicts df before (r ∷ rest) (b ∷ flags) h =
      rw (marked_conflicts df (before ++ r ∷ []) rest flags (omega arith)) refl

  -- Whatever the state, the conflicts are the rows to which the batch has a row with the same event
  -- id and another payload hash, in their order.
  pub conflicts-deduplicate :
      (df : List (Row P)) (state : Option (Seen P))
      → (deduplicate P df state).0.conflicts ≡ select (clash P df) df
  conflicts-deduplicate df state = rw deduplicate_lem (
      unfold split_result final_marks in
      marked_conflicts df [] df (flags_of P df state) (length-flags_of P df state))

  marked_split :
      (df before rest : List (Row P))
      → split_result P (marked P df before rest (replicate (length rest) false)) ≡ record {
        deduplicated = first_rows df before rest;
        duplicates = repeated_rows df before rest;
        conflicts = select (clash P df) rest;
      }
  unfolding split_result rows_where marked
  marked_split df before [] = refl
  marked_split df before (r ∷ rest) = ground (arith, marked_split df (before ++ r ∷ []) rest)

  -- Without a state: the first row of each event id that has one payload, the later rows of such
  -- an event id, and the rows in conflict.
  pub deduplicate_without_state :
      (df : List (Row P))
      → deduplicate P df none ≡ (
        record {
          deduplicated = first_rows df [] df;
          duplicates = repeated_rows df [] df;
          conflicts = select (clash P df) df;
        },
        none,
      )
  deduplicate_without_state df =
      rw deduplicate_lem
        (rw (← marked_split df [] df) (unfold final_marks flags_of state_after in refl))

  split_total :
      (df before rest : List (Row P))
      → length (first_rows df before rest)
          + length (repeated_rows df before rest)
          + length (select (clash P df) rest)
        ≡ length rest
  split_total df before [] = refl
  split_total df before (r ∷ rest) = ground (arith, split_total df (before ++ r ∷ []) rest)

  -- Without a state no row is lost and none is counted twice.
  pub total_input_count-deduplicate :
      (df : List (Row P)) → total_input_count P (deduplicate P df none).0 ≡ length df
  unfolding total_input_count
  total_input_count-deduplicate df = rw (deduplicate_without_state df) (split_total df [] df)

  -- No two rows have one event id.
  abbrev pub Distinct : List (Row P) → Type 0
  Distinct [] = Unit
  Distinct (r ∷ df) = (occurs P df r ≡ false) × Distinct df

  abbrev kept : Annotated P → Bool
  kept a = not a.is_duplicate && not a.is_conflict

  abbrev Apart : List (Row P) → List (Row P) → Type 0
  Apart before df = All (λ r. occurs P before r ≡ false) df

  occurs-snoc :
      (before : List (Row P)) (r q : Row P)
      → occurs P (before ++ r ∷ []) q ≡ false
      → (occurs P before q ≡ false) × ((r.event_id == q.event_id) ≡ false)
  unfolding occurs
  occurs-snoc before r q h =
      ground (arith, exists-append (λ (x : Row P). x.event_id == q.event_id) before (r ∷ []))

  Apart-snoc :
      (before : List (Row P)) (r : Row P) (df : List (Row P))
      → Apart (before ++ r ∷ []) df
      → Apart before df × (occurs P df r ≡ false)
  unfolding occurs
  Apart-snoc before r [] h = (tt, refl)
  Apart-snoc before r (q ∷ df) h =
      let (a, o) = Apart-snoc before r df h.1 in
      let (x, y) = occurs-snoc before r q h.0 in
      ((x, a), ground (arith, beq_sym r.event_id q.event_id))

  -- what a row adds to the kept rows behind it
  kept-cons :
      (before : List (Row P)) (r : Row P) (b c : Bool) (later : List (Row P))
      → Distinct later
      → Apart before later × (occurs P later r ≡ false)
      → let out = (if not (b || (not c && occurs P before r)) && not c then r ∷ later else later) in
        Distinct out × Apart before out
  kept-cons before r true c later d (a, o) = (d, a)
  kept-cons before r false true later d (a, o) = (d, a)
  kept-cons before r false false later d (a, o) = elim (Bool-cases (occurs P before r)) [
    | inl p ↦ rw p (d, a)
    | inr p ↦ rw p ((o, d), (p, a))
  ]

  kept-Distinct :
      (df before rest : List (Row P)) (flags : List Bool)
      → Distinct (rows_where P kept (marked P df before rest flags))
        × Apart before (rows_where P kept (marked P df before rest flags))
  unfolding rows_where marked
  kept-Distinct df before [] flags = (tt, tt)
  kept-Distinct df before (r ∷ rest) [] = (tt, tt)
  kept-Distinct df before (r ∷ rest) (b ∷ flags) =
      let ih = kept-Distinct df (before ++ r ∷ []) rest flags in
      kept-cons before r b (clash P df r) _ ih.0 (Apart-snoc before r _ ih.1)

  -- With a state or without one, no event id is published twice from one batch.
  pub deduplicated-Distinct :
      (df : List (Row P)) (state : Option (Seen P))
      → Distinct (deduplicate P df state).0.deduplicated
  deduplicated-Distinct df state =
      rw deduplicate_lem
        (unfold split_result final_marks in (kept-Distinct df [] df (flags_of P df state)).0)
