-- ===== src/Processor/Dedup/Marks.antt =====
-- What the window expressions of `_mark_within_batch_status` come to, row by row.
use mathlib.Core.Path.{subst}
use agentic_data_engineering.Processor.Columns.{Polars, Row}
use agentic_data_engineering.Processor.Dedup.{
  Annotated, row_hash, group_hashes, n_unique, status, mark_rows,
}
use agentic_data_engineering.Processor.Dedup.Unique.{
  differs, n_unique-gt-one, eq-replicate, exists-append,
}
use agentic_data_engineering.Base.{
  ℕ, ◌+◌, ◌<◌, String, ◌≡◌, refl, ◌∙◌, inl, inr, Bool, true, false, not, ◌&&◌, ◌||◌, Option, List,
  [], ◌∷◌, ◌++◌, append_assoc, arith, ltb, if◌then◌else◌, Bool-cases, length, exists, length-append,
}
use agentic_data_engineering.Base.Equality.{◌==◌, nat_eq, string_eq, option_eq, beq_refl}

module _ (P : Polars) where
  open P use {Hash, hash_eq, rank_ordinal, rank_ordinal_equal}

  abbrev hash_is : Hash → Hash → Bool
  hash_is a b = hash_eq.beq a b

  -- Another row of the batch has the event id of `r` and another payload.
  unfoldable pub clash : List (Row P) → Row P → Bool
  clash df r =
      exists (λ q. q.event_id == r.event_id && not (hash_is (row_hash P q) (row_hash P r))) df

  -- A row of the list has the event id of `r`.
  unfoldable pub occurs : List (Row P) → Row P → Bool
  occurs df r = exists (λ q. q.event_id == r.event_id) df

  -- The annotated rows before the window expressions: a flag for each row.
  unfoldable pub flagged : List (Row P) → List Bool → List (Annotated P)
  flagged (r ∷ df) (b ∷ flags) =
      record { row = r; payload_hash = row_hash P r; is_duplicate = b; is_conflict = false }
      ∷ flagged df flags
  flagged df flags = []

  -- The annotated rows after them.
  unfoldable pub marked :
      List (Row P) → List (Row P) → List (Row P) → List Bool → List (Annotated P)
  marked df before (r ∷ rest) (b ∷ flags) =
      record {
        row = r;
        payload_hash = row_hash P r;
        is_duplicate = b || (not (clash df r) && occurs before r);
        is_conflict = clash df r;
      }
      ∷ marked df (before ++ r ∷ []) rest flags
  marked df before rest flags = []

  pub row_group : Option String → List (Row P) → List Hash
  row_group eid [] = []
  row_group eid (r ∷ df) =
      let rest = row_group eid df in if r.event_id == eid then row_hash P r ∷ rest else rest

  row_group-append :
      (eid : Option String) (xs ys : List (Row P))
      → row_group eid (xs ++ ys) ≡ row_group eid xs ++ row_group eid ys
  unfolding row_group
  row_group-append eid [] ys = refl
  row_group-append eid (x ∷ xs) ys = ground (arith, row_group-append eid xs ys)

  group_hashes-append :
      (eid : Option String) (xs ys : List (Annotated P))
      → group_hashes P eid (xs ++ ys) ≡ group_hashes P eid xs ++ group_hashes P eid ys
  unfolding group_hashes
  group_hashes-append eid [] ys = refl
  group_hashes-append eid (x ∷ xs) ys = ground (arith, group_hashes-append eid xs ys)

  pub group_hashes-flagged :
      (eid : Option String) (df : List (Row P)) (flags : List Bool)
      → length df ≡ length flags
      → group_hashes P eid (flagged df flags) ≡ row_group eid df
  unfolding group_hashes flagged row_group
  group_hashes-flagged eid [] [] h = refl
  group_hashes-flagged eid [] (b ∷ flags) h = absurd (omega arith)
  group_hashes-flagged eid (r ∷ df) [] h = absurd (omega arith)
  group_hashes-flagged eid (r ∷ df) (b ∷ flags) h =
      ground (arith, group_hashes-flagged eid df flags)

  clash-group :
      (r : Row P) (df : List (Row P))
      → differs ⦃e = hash_eq⦄ (row_hash P r) (row_group r.event_id df) ≡ clash df r
  unfolding row_group clash
  clash-group r [] = refl
  clash-group r (q ∷ df) = ground (arith, clash-group r df)

  occurs-group :
      (r : Row P) (df : List (Row P)) → ltb 0 (length (row_group r.event_id df)) ≡ occurs df r
  unfolding row_group occurs
  occurs-group r [] = ground arith
  occurs-group r (q ∷ df) = ground (arith, occurs-group r df)

  mem-group :
      (r : Row P) (rest : List (Row P))
      → exists (λ k. hash_is k (row_hash P r)) (row_group r.event_id (r ∷ rest)) ≡ true
  unfolding row_group
  mem-group r rest =
      ground (arith, hash_eq.beq_iff (row_hash P r) (row_hash P r), beq_refl r.event_id)

  module _ (before : List (Row P)) (r : Row P) (rest : List (Row P)) where
    abbrev group : List Hash
    group = row_group r.event_id (before ++ r ∷ rest)

    abbrev place : ℕ
    place = length (row_group r.event_id before)

    mem-whole : exists (λ k. hash_is k (row_hash P r)) group ≡ true
    mem-whole =
        rw
          (
            row_group-append,
            exists-append (λ k. hash_is k (row_hash P r)) (row_group r.event_id before),
          )
          (ground (arith, mem-group r rest))

    place-lt : place < length group
    unfolding row_group
    place-lt = rw row_group-append (
        ground (
          arith,
          length-append (row_group r.event_id before) (row_group r.event_id (r ∷ rest)),
          beq_refl r.event_id,
        ))

    conflict-eq-clash : ltb 1 (n_unique ⦃e = hash_eq⦄ group) ≡ clash (before ++ r ∷ rest) r
    conflict-eq-clash =
        n_unique-gt-one ⦃e = hash_eq⦄ (row_hash P r) group mem-whole
        ∙ clash-group r (before ++ r ∷ rest)

    rank-eq-place : clash (before ++ r ∷ rest) r ≡ false → rank_ordinal group place ≡ place + 1
    rank-eq-place h =
        rw
          (eq-replicate ⦃e = hash_eq⦄ (row_hash P r) group (clash-group r (before ++ r ∷ rest) ∙ h))
          (rank_ordinal_equal (row_hash P r) (length group) place place-lt)

    within-dup :
        (not (clash (before ++ r ∷ rest) r) && ltb 1 (rank_ordinal group place))
        ≡ (not (clash (before ++ r ∷ rest) r) && occurs before r)
    within-dup = elim (Bool-cases (clash (before ++ r ∷ rest) r)) [
      | inl c ↦ rw c
      | inr c ↦ rw (c, rank-eq-place c) (ground (arith, occurs-group r before))
    ]

  abbrev GroupsAgree : List (Annotated P) → List (Row P) → Type 0
  GroupsAgree ann df = (eid : Option String) → group_hashes P eid ann ≡ row_group eid df

  abbrev fresh : Row P → Bool → Annotated P
  fresh r b = record { row = r; payload_hash = row_hash P r; is_duplicate = b; is_conflict = false }

  abbrev settled : List (Row P) → List (Row P) → Row P → Bool → Annotated P
  settled df before r b = record {
    row = r;
    payload_hash = row_hash P r;
    is_duplicate = b || (not (clash df r) && occurs before r);
    is_conflict = clash df r;
  }

  status-settled :
      (before : List (Row P)) (r : Row P) (rest : List (Row P)) (b : Bool)
      (whole earlier : List (Annotated P))
      → GroupsAgree whole (before ++ r ∷ rest)
      → GroupsAgree earlier before
      → status P whole earlier (fresh r b) ≡ settled (before ++ r ∷ rest) before r b
  unfolding status
  status-settled before r rest b whole earlier hw he =
      rw (hw r.event_id, he r.event_id, conflict-eq-clash before r rest)
        (rw (within-dup before r rest) refl)

  GroupsAgree-snoc :
      (before : List (Row P)) (r : Row P) (b : Bool) (earlier : List (Annotated P))
      → GroupsAgree earlier before
      → GroupsAgree (earlier ++ fresh r b ∷ []) (before ++ r ∷ [])
  unfolding group_hashes row_group
  GroupsAgree-snoc before r b earlier he eid =
      rw (group_hashes-append eid earlier (fresh r b ∷ []), row_group-append eid before (r ∷ []))
        (rw (he eid) refl)

  mark_rows-marked :
      (df before rest : List (Row P)) (flags : List Bool) (whole earlier : List (Annotated P))
      → length rest ≡ length flags
      → before ++ rest ≡ df
      → GroupsAgree whole df
      → GroupsAgree earlier before
      → mark_rows P whole earlier (flagged rest flags) ≡ marked df before rest flags
  unfolding mark_rows marked flagged
  mark_rows-marked df before [] flags whole earlier h e hw he = refl
  mark_rows-marked df before (r ∷ rest) [] whole earlier h e hw he = absurd (omega arith)
  mark_rows-marked df before (r ∷ rest) (b ∷ flags) whole earlier h e hw he =
      let ih : mark_rows P whole (earlier ++ fresh r b ∷ []) (flagged rest flags)
          ≡ marked df (before ++ r ∷ []) rest flags =
        mark_rows-marked df (before ++ r ∷ []) rest flags whole (earlier ++ fresh r b ∷ [])
          (omega arith) (append_assoc before (r ∷ []) rest ∙ e) hw
          (GroupsAgree-snoc before r b earlier he) in
      let s : status P whole earlier (fresh r b) ≡ settled df before r b =
        subst (λ d. GroupsAgree whole d → status P whole earlier (fresh r b) ≡ settled d before r b)
          e (λ hd. status-settled before r rest b whole earlier hd he) hw in
      cc

  -- The marks of a batch, given a flag for each row.
  pub marks_lem :
      (df : List (Row P)) (flags : List Bool)
      → length df ≡ length flags
      → mark_rows P (flagged df flags) [] (flagged df flags) ≡ marked df [] df flags
  marks_lem df flags h =
      mark_rows-marked df [] df flags (flagged df flags) [] h refl
        (λ eid. group_hashes-flagged eid df flags h) (λ eid. unfold group_hashes row_group in refl)
