-- ===== src/Processor/Dedup.antt =====
-- services/processor/deduplication.py.
pub mod Unique
pub mod Marks
pub mod Split
pub mod Outputs
pub mod Replay
pub mod Nulls
use mathlib.Core.Option
use agentic_data_engineering.Processor.Columns.{Polars, Row}
use agentic_data_engineering.Base.Texts.{append}
use agentic_data_engineering.Base.{
  ℕ, zero, suc, ◌+◌, ◌-◌, ◌*◌, ◌≤◌, ◌<◌, min, String, ◌≡◌, refl, sym, ap, ◌∙◌, ◌≢◌, ◌↔◌, ◌⊎◌, inl,
  inr, Bool, true, false, not, ◌&&◌, ◌||◌, Option, none, some, List, [], ◌∷◌, ◌++◌, map, append-nil,
  append_assoc, arith, ltb, leb, ==_iff, if◌then◌else◌, Bool-cases, Option-cases, is_some, length,
  drop, take, select, exists, count_if, length-append, length-drop, length-select, All, All-append,
  All_map_of,
}
use agentic_data_engineering.Base.Equality.{
  Eq, ◌==◌, nat_eq, string_eq, option_eq, beq_refl, beq-eq, beq_false, beq_sym, beq_cases,
}
use agentic_data_engineering.Base.Dict.{Dict, get, put, remove, get-put, get-remove, dict_laws}
use agentic_data_engineering.Base.Exec.{
  Result, ok, err, Exec, pure, raise, gets, lift, modify, continue, ◌>>=◌, ◌>>◌,
}

-- `DeduplicationState._seen`: event id to payload hash.
abbrev pub Seen : Polars → Type 0
Seen P = Dict (Option String) P.Hash

module _ (P : Polars) where
  open P use {Hash, hash_eq, price_text, time_text, version_text, hash, rank_ordinal}

  pub record Annotated : Type 0 where
    pub row : Row P
    pub payload_hash : Hash
    pub is_duplicate : Bool
    pub is_conflict : Bool

  pub record DeduplicationResult : Type 0 where
    pub deduplicated : List (Row P)
    pub duplicates : List (Row P)
    pub conflicts : List (Row P)

  unfoldable pub total_input_count : DeduplicationResult → ℕ
  total_input_count r = length r.deduplicated + length r.duplicates + length r.conflicts

-- `concat_str(…, separator="|")`: null where one of the columns is null.
unfoldable pub concat_columns : List (Option String) → Option String
unfolding append
concat_columns [] = some ""
concat_columns (c ∷ []) = c
concat_columns (none ∷ cs) = none
concat_columns (some t ∷ cs) = elim (concat_columns cs) [
  | none ↦ none
  | some u ↦ some (append t (append "|" u))
]

-- `check_and_update`, on the event ids and the hashes of a batch: the first hash of an event id is
-- kept, and a row repeats it or not.
unfoldable pub check_and_update :
    {K H : Type 0} ⦃ek : Eq K⦄ ⦃eh : Eq H⦄ → List (K × H) → Dict K H → List Bool × Dict K H
check_and_update [] seen = ([], seen)
check_and_update ((eid, phash) ∷ rest) seen = elim (get eid seen) [
  | some h ↦ (let (results, seen') = check_and_update rest seen in ((h == phash) ∷ results, seen'))
  | none ↦
      (let (results, seen') = check_and_update rest (put eid phash seen) in
        (false ∷ results, seen'))
]

-- `n_unique()` of a column without nulls
unfoldable pub n_unique : {A : Type 0} ⦃e : Eq A⦄ → List A → ℕ
n_unique [] = 0
n_unique (h ∷ hs) = let rest = n_unique hs in if exists (λ k. k == h) hs then rest else suc rest

module _ (P : Polars) where
  open P use {Hash, hash_eq, price_text, time_text, version_text, hash, rank_ordinal}

  -- `_HASH_COLUMNS` as texts: every column but `event_id`.
  unfoldable pub hash_columns : Row P → List (Option String)
  hash_columns r =
      r.event_type
      ∷ Option.map version_text r.schema_version
      ∷ r.source
      ∷ Option.map time_text r.produced_at
      ∷ r.external_id
      ∷ r.name
      ∷ r.url
      ∷ Option.map price_text r.price
      ∷ r.currency
      ∷ r.availability
      ∷ r.category
      ∷ Option.map time_text r.collected_at
      ∷ []

  unfoldable pub row_hash : Row P → Hash
  unfolding hash_columns concat_columns
  row_hash r = hash (concat_columns (hash_columns r))

  -- `_add_payload_hash`, with the flag columns at `pl.lit(False)`
  unfoldable pub add_payload_hash : List (Row P) → List (Annotated P)
  add_payload_hash [] = []
  add_payload_hash (r ∷ df) =
      record { row = r; payload_hash = row_hash r; is_duplicate = false; is_conflict = false }
      ∷ add_payload_hash df

  abbrev pub keys_of : List (Annotated P) → List (Option String × Hash)
  keys_of = map (λ a. (a.row.event_id, a.payload_hash))

  -- a new `_is_duplicate` column
  unfoldable pub set_duplicate : List (Annotated P) → List Bool → List (Annotated P)
  set_duplicate (a ∷ df) (b ∷ flags) = record a { is_duplicate = b } ∷ set_duplicate df flags
  set_duplicate df flags = []

  unfoldable pub mark_cross_batch_duplicates :
      List (Annotated P) → Seen P → List (Annotated P) × Seen P
  unfolding check_and_update set_duplicate
  mark_cross_batch_duplicates df seen =
      let (flags, seen') = check_and_update ⦃eh = hash_eq⦄ (keys_of df) seen in
      (set_duplicate df flags, seen')

  -- the hashes of the rows with one event id: a group of `over("event_id")`
  unfoldable pub group_hashes : Option String → List (Annotated P) → List Hash
  group_hashes eid [] = []
  group_hashes eid (a ∷ df) =
      let rest = group_hashes eid df in
      if a.row.event_id == eid then a.payload_hash ∷ rest else rest

  -- one row of the window expressions, with the rows before it in the batch
  unfoldable pub status : List (Annotated P) → List (Annotated P) → Annotated P → Annotated P
  unfolding group_hashes n_unique
  status df before a =
      let group = group_hashes a.row.event_id df in
      let is_conflict = ltb 1 (n_unique ⦃e = hash_eq⦄ group) in
      let rank = rank_ordinal group (length (group_hashes a.row.event_id before)) in
      let is_within_dup = not is_conflict && ltb 1 rank in
      record a { is_duplicate = a.is_duplicate || is_within_dup; is_conflict = is_conflict }

  unfoldable pub mark_rows :
      List (Annotated P) → List (Annotated P) → List (Annotated P) → List (Annotated P)
  mark_rows df before [] = []
  mark_rows df before (a ∷ rest) = status df before a ∷ mark_rows df (before ++ a ∷ []) rest

  unfoldable pub mark_within_batch_status : List (Annotated P) → List (Annotated P)
  unfolding mark_rows
  mark_within_batch_status df = mark_rows df [] df

  -- `filter(…).drop(…)`
  unfoldable pub rows_where : (Annotated P → Bool) → List (Annotated P) → List (Row P)
  rows_where p [] = []
  rows_where p (a ∷ df) = let rest = rows_where p df in if p a then a.row ∷ rest else rest

  unfoldable pub split_result : List (Annotated P) → DeduplicationResult P
  unfolding rows_where
  split_result df = record {
    deduplicated = rows_where (λ a. not a.is_duplicate && not a.is_conflict) df;
    duplicates = rows_where (λ a. a.is_duplicate) df;
    conflicts = rows_where (λ a. a.is_conflict) df;
  }

  -- `deduplicate`: an empty frame is split into three empty ones, without a look at the state.
  unfoldable pub deduplicate :
      List (Row P) → Option (Seen P) → DeduplicationResult P × Option (Seen P)
  unfolding add_payload_hash mark_within_batch_status split_result
  deduplicate [] state = (record { deduplicated = []; duplicates = []; conflicts = [] }, state)
  deduplicate df none = (split_result (mark_within_batch_status (add_payload_hash df)), none)
  deduplicate df (some seen) =
      let (annotated, seen') = mark_cross_batch_duplicates (add_payload_hash df) seen in
      (split_result (mark_within_batch_status annotated), some seen')
