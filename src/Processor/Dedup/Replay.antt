-- ===== src/Processor/Dedup/Replay.antt =====
-- The cross-batch state: what it remembers, and what a replayed batch does.
use agentic_data_engineering.Processor.Columns.{Polars, Row, replicate}
use agentic_data_engineering.Processor.Dedup.{
  Seen, total_input_count, row_hash, check_and_update, rows_where, split_result, deduplicate,
}
use agentic_data_engineering.Processor.Dedup.Marks.{clash, occurs, marked}
use agentic_data_engineering.Processor.Dedup.Split.{
  pairs, flags_of, state_after, final_marks, deduplicate_lem,
}
use agentic_data_engineering.Base.{
  String, ◌≡◌, refl, ap, ◌∙◌, inl, inr, true, false, not, ◌&&◌, Option, none, some, List, [], ◌∷◌,
  ◌++◌, arith, Option-cases, length, All, All_map_of,
}
use agentic_data_engineering.Base.Equality.{
  Eq, nat_eq, string_eq, option_eq, beq_refl, beq_sym, beq_cases,
}
use agentic_data_engineering.Base.Dict.{Dict, get, put, get-put}

abbrev pub or_else {ℓ} : {A : Type ℓ} → Option A → Option A → Option A
or_else none b = b
or_else (some a) b = some a

module _ {K H : Type 0} ⦃ek : Eq K⦄ ⦃eh : Eq H⦄ where
  -- What the state holds of an event id: what it held, or else the first hash in the batch.
  pub get-check_and_update :
      (k : K) (l : List (K × H)) (seen : Dict K H)
      → get k (check_and_update l seen).1 ≡ or_else (get k seen) (get k l)
  unfolding check_and_update get
  get-check_and_update k [] seen = ground arith
  get-check_and_update k ((j, h) ∷ l) seen = elim (Option-cases (get j seen)) [
    | inl e ↦
        rw (e, check_and_update)
          (rw (get-check_and_update k l (put j h seen), get-put j k h seen)
            (elim (beq_cases j k) [
              | inl p ↦ rw (← p) (rw (e, beq_refl j) refl)
              | inr p ↦ rw p refl
            ]))
    | inr (v, e) ↦
        rw (e, check_and_update)
          (rw (get-check_and_update k l seen)
            (elim (beq_cases j k) [ inl p ↦ rw (← p) (rw e refl) | inr p ↦ rw p refl ]))
  ]

  -- Every row of the batch is remembered with its own hash.
  abbrev pub Remembered : Dict K H → List (K × H) → Type 0
  Remembered seen = All (λ p. get p.0 seen ≡ some p.1)

  -- A batch of which every row is remembered is flagged whole, and changes nothing.
  pub check_and_update-Remembered :
      (l : List (K × H)) (seen : Dict K H)
      → Remembered seen l
      → check_and_update l seen ≡ (replicate (length l) true, seen)
  unfolding check_and_update
  check_and_update-Remembered [] seen h = refl
  check_and_update-Remembered ((j, v) ∷ l) seen h =
      rw (h.0, check_and_update) (rw (check_and_update-Remembered l seen h.1, beq_refl v) refl)

module _ (P : Polars) where
  open P use {Hash, hash_eq}

  all_flagged :
      (df before rest : List (Row P))
      → rows_where P
          (λ a. not a.is_duplicate && not a.is_conflict)
          (marked P df before rest (replicate (length (pairs P rest)) true))
        ≡ []
  unfolding rows_where marked
  all_flagged df before [] = refl
  all_flagged df before (r ∷ rest) = all_flagged df (before ++ r ∷ []) rest

  flags-Remembered :
      (df : List (Row P)) (seen : Seen P)
      → Remembered ⦃eh = hash_eq⦄ seen (pairs P df)
      → flags_of P df (some seen) ≡ replicate (length (pairs P df)) true
  unfolding flags_of
  flags-Remembered df seen h =
      ap (λ x. x.0) (check_and_update-Remembered ⦃eh = hash_eq⦄ (pairs P df) seen h)

  -- A batch whose rows the state remembers publishes nothing and leaves the state as it is.
  pub deduplicate-Remembered :
      (df : List (Row P)) (seen : Seen P)
      → Remembered ⦃eh = hash_eq⦄ seen (pairs P df)
      → ((deduplicate P df (some seen)).0.deduplicated ≡ [])
        × ((deduplicate P df (some seen)).1 ≡ some seen)
  deduplicate-Remembered df seen h = rw deduplicate_lem (
    unfold split_result final_marks in rw (flags-Remembered df seen h) (all_flagged df [] df),
    unfold state_after in rw (check_and_update-Remembered ⦃eh = hash_eq⦄ (pairs P df) seen h) refl,
  )

  -- Every row carries the hash that the state, or else the batch at its first row, has for its
  -- event id.
  abbrev pub IsConsistent : Seen P → List (Row P) → Type 0
  IsConsistent seen df =
      All (λ (p : Option String × Hash). or_else (get p.0 seen) (get p.0 (pairs P df)) ≡ some p.1)
        (pairs P df)

  -- The state behind a batch.
  abbrev pub after : List (Row P) → Seen P → Seen P
  after df seen = (check_and_update ⦃eh = hash_eq⦄ (pairs P df) seen).1

  pub state-deduplicate :
      (df : List (Row P)) (seen : Seen P) → (deduplicate P df (some seen)).1 ≡ some (after df seen)
  state-deduplicate df seen = rw (deduplicate_lem P df (some seen)) (unfold state_after in refl)

  pub IsConsistent-Remembered :
      (df : List (Row P)) (seen : Seen P)
      → IsConsistent seen df
      → Remembered ⦃eh = hash_eq⦄ (after df seen) (pairs P df)
  IsConsistent-Remembered df seen h =
      All_map_of _ (λ (p : Option String × Hash). get p.0 (after df seen) ≡ some p.1) (pairs P df)
        (λ p c. get-check_and_update ⦃eh = hash_eq⦄ p.0 (pairs P df) seen ∙ c) h

  -- Replay: a consistent batch that is processed again with the state that it left publishes
  -- nothing, and the state stays as it is.
  pub deduplicate_replay :
      (df : List (Row P)) (seen : Seen P)
      → IsConsistent seen df
      → let state = (deduplicate P df (some seen)).1 in
        ((deduplicate P df state).0.deduplicated ≡ []) × ((deduplicate P df state).1 ≡ state)
  deduplicate_replay df seen h =
      rw (state-deduplicate df seen)
        (deduplicate-Remembered df (after df seen) (IsConsistent-Remembered df seen h))

  flags_new_payload :
      (r : Row P) (seen : Seen P) (h : Hash)
      → get r.event_id seen ≡ some h
      → hash_eq.beq h (row_hash P r) ≡ false
      → flags_of P (r ∷ []) (some seen) ≡ false ∷ []
  unfolding flags_of check_and_update
  flags_new_payload r seen h e d = ground arith

  -- A row whose event id the state holds with another hash is published all the same, when it is
  -- alone in its batch.
  pub deduplicate_new_payload :
      (r : Row P) (seen : Seen P) (h : Hash)
      → get r.event_id seen ≡ some h
      → hash_eq.beq h (row_hash P r) ≡ false
      → (deduplicate P (r ∷ []) (some seen)).0.deduplicated ≡ r ∷ []
  deduplicate_new_payload r seen h e d = rw deduplicate_lem (
      unfold split_result final_marks in
      rw (flags_new_payload r seen h e d) (
        unfold rows_where marked clash occurs in
        ground (arith, hash_eq.beq_iff (row_hash P r) (row_hash P r))))

  module _ (a b c : Row P) (eb : b.event_id ≡ a.event_id) (ec : c.event_id ≡ a.event_id)
      (hc : row_hash P c ≡ row_hash P a)
      (d : hash_eq.beq (row_hash P a) (row_hash P b) ≡ false) where
    flags_three : flags_of P (a ∷ b ∷ c ∷ []) (some []) ≡ false ∷ false ∷ true ∷ []
    unfolding flags_of check_and_update get put
    flags_three = ground (arith, beq_refl a.event_id, beq_refl ⦃e = hash_eq⦄ (row_hash P a))

    -- Two payloads under one event id, and the first of them again: the third row is a duplicate
    -- and a conflict, so that the result counts four rows.
    pub counted_twice : total_input_count P (deduplicate P (a ∷ b ∷ c ∷ []) (some [])).0 ≡ 4
    unfolding total_input_count
    counted_twice = rw deduplicate_lem (
        unfold split_result final_marks in
        rw flags_three (
          unfold rows_where marked clash occurs in
          ground (
            arith,
            beq_refl a.event_id,
            beq_refl ⦃e = hash_eq⦄ (row_hash P a),
            beq_sym ⦃e = hash_eq⦄ (row_hash P a) (row_hash P b),
          )))
