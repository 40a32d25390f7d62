-- ===== src/Processor/Dedup/Split.antt =====
-- `deduplicate` through the marks: the flags of the rows, and the frames that they select.
use agentic_data_engineering.Processor.Columns.{Polars, Row, replicate}
use agentic_data_engineering.Processor.Dedup.{
  Annotated, Seen, DeduplicationResult, row_hash, add_payload_hash, check_and_update, keys_of,
  set_duplicate, mark_cross_batch_duplicates, mark_within_batch_status, split_result, deduplicate,
}
use agentic_data_engineering.Processor.Dedup.Marks.{flagged, marked, marks_lem}
use agentic_data_engineering.Base.{
  ℕ, zero, suc, String, ◌≡◌, refl, sym, ap, ◌∙◌, inl, inr, Bool, false, Option, none, some, List,
  [], ◌∷◌, Option-cases, length,
}
use agentic_data_engineering.Base.Equality.{nat_eq, string_eq, option_eq}
use agentic_data_engineering.Base.Dict.{get, put}

-- The event id and the payload hash of each row.
abbrev pub pairs : (P : Polars) → List (Row P) → List (Option String × P.Hash)
pairs P [] = []
pairs P (r ∷ df) = (r.event_id, row_hash P r) ∷ pairs P df

module _ (P : Polars) where
  open P use {Hash, hash_eq}

  -- the flags of a batch, from the state before it, and the state after it
  unfoldable pub flags_of : List (Row P) → Option (Seen P) → List Bool
  flags_of df none = replicate (length df) false
  flags_of df (some seen) = (check_and_update ⦃eh = hash_eq⦄ (pairs P df) seen).0

  unfoldable pub state_after : List (Row P) → Option (Seen P) → Option (Seen P)
  state_after df none = none
  state_after df (some seen) = some (check_and_update ⦃eh = hash_eq⦄ (pairs P df) seen).1

  length-check_and_update :
      (l : List (Option String × Hash)) (seen : Seen P)
      → length (check_and_update ⦃eh = hash_eq⦄ l seen).0 ≡ length l
  unfolding check_and_update
  length-check_and_update [] seen = refl
  length-check_and_update ((eid, h) ∷ l) seen = elim (Option-cases (get eid seen)) [
    | inl e ↦ rw (e, check_and_update) (ap suc (length-check_and_update l (put eid h seen)))
    | inr (v, e) ↦ rw (e, check_and_update) (ap suc (length-check_and_update l seen))
  ]

  length-pairs : (df : List (Row P)) → length (pairs P df) ≡ length df
  length-pairs [] = refl
  length-pairs (r ∷ df) = ap suc (length-pairs df)

  length-replicate : (n : ℕ) → length (replicate n false) ≡ n
  length-replicate zero = refl
  length-replicate (suc n) = ap suc (length-replicate n)

  pub length-flags_of :
      (df : List (Row P)) (state : Option (Seen P)) → length df ≡ length (flags_of df state)
  unfolding flags_of
  length-flags_of df none = sym (length-replicate (length df))
  length-flags_of df (some seen) = sym (length-check_and_update (pairs P df) seen ∙ length-pairs df)

  add_payload_hash-flagged :
      (df : List (Row P)) → add_payload_hash P df ≡ flagged P df (replicate (length df) false)
  unfolding add_payload_hash flagged
  add_payload_hash-flagged [] = refl
  add_payload_hash-flagged (r ∷ df) = rw (add_payload_hash-flagged df)

  set_duplicate-flagged :
      (df : List (Row P)) (flags : List Bool)
      → set_duplicate P (add_payload_hash P df) flags ≡ flagged P df flags
  unfolding add_payload_hash set_duplicate flagged
  set_duplicate-flagged [] flags = refl
  set_duplicate-flagged (r ∷ df) [] = refl
  set_duplicate-flagged (r ∷ df) (b ∷ flags) = rw (set_duplicate-flagged df flags)

  keys_of-pairs : (df : List (Row P)) → keys_of P (add_payload_hash P df) ≡ pairs P df
  unfolding add_payload_hash
  keys_of-pairs [] = refl
  keys_of-pairs (r ∷ df) = rw (keys_of-pairs df)

  -- the annotated rows of a batch, after every mark
  unfoldable pub final_marks : List (Row P) → Option (Seen P) → List (Annotated P)
  final_marks df state = marked P df [] df (flags_of df state)

  within_batch :
      (df : List (Row P)) (flags : List Bool)
      → length df ≡ length flags
      → mark_within_batch_status P (flagged P df flags) ≡ marked P df [] df flags
  unfolding mark_within_batch_status
  within_batch df flags h = marks_lem P df flags h

  split_marks : List (Annotated P) → DeduplicationResult P
  split_marks df = split_result P (mark_within_batch_status P df)

  deduplicate-first :
      (r : Row P) (df : List (Row P))
      → deduplicate P (r ∷ df) none ≡ (split_marks (add_payload_hash P (r ∷ df)), none)
  unfolding deduplicate split_marks
  deduplicate-first r df = refl

  deduplicate-again :
      (r : Row P) (df : List (Row P)) (seen : Seen P)
      → deduplicate P (r ∷ df) (some seen) ≡ (
        split_marks (mark_cross_batch_duplicates P (add_payload_hash P (r ∷ df)) seen).0,
        some (mark_cross_batch_duplicates P (add_payload_hash P (r ∷ df)) seen).1,
      )
  unfolding deduplicate split_marks
  deduplicate-again r df seen = refl

  cross_batch :
      (df : List (Row P)) (seen : Seen P)
      → mark_cross_batch_duplicates P (add_payload_hash P df) seen ≡ (
        flagged P df (flags_of df (some seen)),
        (check_and_update ⦃eh = hash_eq⦄ (pairs P df) seen).1,
      )
  cross_batch df seen =
      (unfold mark_cross_batch_duplicates in
        rw (keys_of-pairs df) (unfold flags_of in rw (set_duplicate-flagged df) refl))

  split_marks-flagged :
      (df : List (Row P)) (state : Option (Seen P))
      → split_marks (flagged P df (flags_of df state)) ≡ split_result P (final_marks df state)
  unfolding split_marks final_marks
  split_marks-flagged df state =
      ap (split_result P) (within_batch df (flags_of df state) (length-flags_of df state))

  -- `deduplicate` splits the marked rows, and leaves the state of `check_and_update`.
  pub deduplicate_lem :
      (df : List (Row P)) (state : Option (Seen P))
      → deduplicate P df state ≡ (split_result P (final_marks df state), state_after df state)
  deduplicate_lem [] none =
      unfold deduplicate split_result final_marks flags_of state_after marked in refl
  deduplicate_lem [] (some seen) =
      unfold deduplicate split_result final_marks flags_of state_after marked check_and_update in
      refl
  deduplicate_lem (r ∷ df) none =
      rw
        (
          deduplicate-first r df,
          add_payload_hash-flagged (r ∷ df),
          ← split_marks-flagged (r ∷ df) none,
        )
        (unfold flags_of state_after in refl)
  deduplicate_lem (r ∷ df) (some seen) =
      rw
        (
          deduplicate-again r df seen,
          cross_batch (r ∷ df) seen,
          ← split_marks-flagged (r ∷ df) (some seen),
        )
        (unfold flags_of state_after in refl)
