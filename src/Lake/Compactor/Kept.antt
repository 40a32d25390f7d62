-- ===== src/Lake/Compactor/Kept.antt =====
-- The rows of a bucket before and behind the steps of a compaction.
use mathlib.Core.Path.{subst}
use agentic_data_engineering.Lake.Storage.{no_repeat, S3, S3Laws, Storage}
use agentic_data_engineering.Lake.Compactor.{
  Parquet, CompactionError, CompactionConfig, Run, on_storage, note, or_raise, read_frames,
  delete_all, write_compacted, drop_sources, replace_sources, combine, compact_keys,
}
use agentic_data_engineering.Lake.Compactor.Contents.{
  held, held_at, held_in, count_if-all_rows, ParquetLaws,
}
use agentic_data_engineering.Lake.Compactor.Requests.{
  objects, Answer, or_raise_failed, or_raise_answered, ReadReport, read_frames-ReadReport,
}
use agentic_data_engineering.Lake.Compactor.Written.{
  CompactedAnswer, write_compacted-CompactedAnswer,
}
use agentic_data_engineering.Lake.Compactor.Drops.{DropReport, delete_all-DropReport}
use agentic_data_engineering.Base.{
  ℕ, ◌+◌, ◌≤◌, String, ◌≡◌, refl, ap, ◌∙◌, inl, inr, Bool, true, false, none, List, [], ◌∷◌, arith,
  ltb, Bool-cases, length, exists, count_if,
}
use agentic_data_engineering.Base.Equality.{◌==◌, nat_eq, string_eq, option_eq, beq_refl}
use agentic_data_engineering.Base.Dict.{Dict, get}
use agentic_data_engineering.Base.Exec.{Result, ok, err, Exec, continue, ◌>>=◌}

module _ (s3 : S3) (pq : Parquet s3.Bytes) (config : CompactionConfig) (laws : S3Laws s3)
    (pq_laws : ParquetLaws pq) where
  open s3 use {Bytes}
  open pq use {Row, Frame, rows, concat, read_parquet, write_parquet}

  abbrev pub Outcome : Type 0 → Type 0
  Outcome A = Result CompactionError A × Run s3 pq config

  -- No row of `before` is lost, and where the result says that the partition is compacted, none is
  -- there more often.
  abbrev pub Kept : {A : Type 0} → Dict String Bytes → Outcome A → Type 0
  Kept before (r, run) =
      ((p : Row → Bool) → held pq p before ≤ held pq p (objects s3 run.storage))
      × (run.result.compacted ≡ true
          → (p : Row → Bool) → held pq p before ≡ held pq p (objects s3 run.storage))

  pub storage_rule :
      {A B : Type 0} (m : Exec (Storage s3) CompactionError A)
      (k : A → Exec (Run s3 pq config) CompactionError B) (run : Run s3 pq config)
      (Q : Outcome B → Type 0)
      → ((e : CompactionError) (t : Storage s3)
          → m run.storage ≡ (err e, t)
          → Q (err e, record run { storage = t }))
      → ((a : A) (t : Storage s3)
          → m run.storage ≡ (ok a, t)
          → Q (k a (record run { storage = t })))
      → Q ((on_storage s3 pq config m >>= k) run)
  unfolding on_storage
  storage_rule {A} m k run Q failed went_on = go (m run.storage) refl
    where
      go :
          (x : Result CompactionError A × Storage s3)
          → m run.storage ≡ x
          → Q (continue x.0 k (record run { storage = x.1 }))
      go (ok a, t) h = went_on a t h
      go (err e, t) h = failed e t h

  drop_sources-Kept :
      (before : Dict String Bytes) (keys : List String) (total : ℕ) (combined : Frame)
      (run : Run s3 pq config)
      → no_repeat keys ≡ true
      → run.result.compacted ≡ false
      → ((p : Row → Bool)
          → held pq p (objects s3 run.storage)
            ≡ held_at pq p keys (objects s3 run.storage) + held pq p before)
      → Kept before (drop_sources s3 pq config keys total combined run)
  unfolding drop_sources note
  drop_sources-Kept before keys total combined run distinct not_yet there =
      storage_rule (delete_all s3 pq config keys) _ run (Kept before)
        (λ e t h.
          let report = deleted (err e, t) h in
          (λ p. omega (arith, report p, there p), λ yes. absurd (ground arith)))
        (λ done t h.
          let report = deleted (ok done, t) h in
          (λ p. omega (arith, report p, there p), λ yes p. omega (arith, report p, there p)))
    where
      deleted :
          (x : Answer s3 Unit)
          → delete_all s3 pq config keys run.storage ≡ x
          → DropReport s3 pq config laws keys run.storage x
      deleted x h =
          subst (DropReport s3 pq config laws keys run.storage) h
            (delete_all-DropReport s3 pq config laws keys run.storage distinct)

  replace_sources-Kept :
      (before : Dict String Bytes) (keys : List String) (key : String) (total : ℕ)
      (combined validation : Frame) (run : Run s3 pq config)
      → no_repeat keys ≡ true
      → run.result.compacted ≡ false
      → rows validation ≡ rows combined
      → ((p : Row → Bool)
          → held pq p (objects s3 run.storage)
            ≡ held_at pq p keys (objects s3 run.storage) + held pq p before)
      → Kept before (replace_sources s3 pq config keys key total combined validation run)
  unfolding replace_sources note
  replace_sources-Kept before keys key total combined validation run distinct not_yet same there =
      rw (same, beq_refl (length (rows combined)))
        (drop_sources-Kept before keys total combined
          (record run { result = record run.result { records_after = length (rows combined) } })
          distinct not_yet there)

  write_step-Kept :
      (key : String) (keys : List String) (total : ℕ) (combined : Frame)
      (before : Dict String Bytes) (run : Run s3 pq config)
      → no_repeat keys ≡ true
      → run.result.compacted ≡ false
      → objects s3 run.storage ≡ before
      → get key before ≡ none
      → exists (λ j. j == key) keys ≡ false
      → ((p : Row → Bool) → count_if p (rows combined) ≡ held_at pq p keys before)
      → Kept before (
          (on_storage s3 pq config (write_compacted s3 pq config key combined) >>= λ validation.
          replace_sources s3 pq config keys key total combined validation)
            run)
  write_step-Kept key keys total combined before run distinct not_yet same absent apart all_in =
      storage_rule (write_compacted s3 pq config key combined) _ run (Kept before)
        (λ e t h.
          let report = written (err e, t) h in
          (
            λ p.
                let a : held pq p (objects s3 run.storage) ≡ held pq p before =
                  ap (λ d. held pq p d) same in
                omega (arith, report p),
            λ yes. absurd (ground arith),
          ))
        (λ validation t h.
          let report = written (ok validation, t) h in
          replace_sources-Kept before keys key total combined validation
            (record run { storage = t }) distinct not_yet report.0
            (λ p.
              let a : held pq p (objects s3 run.storage) ≡ held pq p before =
                ap (λ d. held pq p d) same in
              let b : held_at pq p keys (objects s3 run.storage) ≡ held_at pq p keys before =
                ap (λ d. held_at pq p keys d) same in
              omega (arith, report.1 p, report.2 keys p apart, all_in p)))
    where
      written :
          (x : Answer s3 Frame)
          → write_compacted s3 pq config key combined run.storage ≡ x
          → CompactedAnswer s3 pq config laws pq_laws key combined run.storage x
      written x h = subst (CompactedAnswer s3 pq config laws pq_laws key combined run.storage) h (
          write_compacted-CompactedAnswer s3 pq config laws pq_laws key combined run.storage
            (rw same absent))

  combine-Kept :
      (key : String) (keys : List String) (found : List Frame × ℕ) (before : Dict String Bytes)
      (run : Run s3 pq config)
      → no_repeat keys ≡ true
      → run.result.compacted ≡ false
      → objects s3 run.storage ≡ before
      → get key before ≡ none
      → exists (λ j. j == key) keys ≡ false
      → ((p : Row → Bool) → held_in pq p found.0 ≡ held_at pq p keys before)
      → Kept before (combine s3 pq config key keys found run)
  unfolding combine note
  combine-Kept key keys ([], total) before run distinct not_yet same absent apart all_in =
      (λ p. rw same (omega arith), λ yes. absurd (ground arith))
  combine-Kept key keys (f ∷ fs, total) before run distinct not_yet same absent apart all_in =
      storage_rule (or_raise s3 pq config (concat (f ∷ fs))) _ run (Kept before)
        (λ e t h. (
          λ p. rw (or_raise_failed s3 pq config laws _ run.storage t e h, same) (omega arith),
          λ yes. absurd (ground arith),
        ))
        (λ combined t h.
          let raised = or_raise_answered s3 pq config laws _ run.storage t combined h in
          write_step-Kept key keys total combined before
            (record run {
              storage = t;
              result = record run.result { records_before = length (rows combined) };
            })
            distinct not_yet (ap (objects s3) raised.0 ∙ same) absent apart
            (λ p.
              let e : count_if p (rows combined) ≡ held_in pq p (f ∷ fs) =
                ap (λ x. count_if p x) (pq_laws.concat_rows (f ∷ fs) combined raised.1)
                ∙ count_if-all_rows pq p (f ∷ fs) in
              e ∙ all_in p))

  pub compact_keys-Kept :
      (key : String) (keys : List String) (before : Dict String Bytes) (run : Run s3 pq config)
      → no_repeat keys ≡ true
      → run.result.compacted ≡ false
      → objects s3 run.storage ≡ before
      → get key before ≡ none
      → Kept before (compact_keys s3 pq config key keys run)
  unfolding compact_keys note
  compact_keys-Kept key keys before run distinct not_yet same absent =
      elim (Bool-cases (ltb (length keys) config.min_files_to_compact)) [
        | inl few ↦ rw few (λ p. rw same (omega arith), λ yes. absurd (ground arith))
        | inr enough ↦ rw enough (
            storage_rule (read_frames s3 pq config keys) _ noted (Kept before)
              (λ e t h.
                let report : objects s3 t ≡ objects s3 run.storage = found_of (err e, t) h in
                (λ p. rw (report, same) (omega arith), λ yes. absurd (ground arith)))
              (λ found t h.
                let report = found_of (ok found, t) h in
                combine-Kept key keys found before (record noted { storage = t }) distinct not_yet
                  (report.0 ∙ same) absent (report.2 key (rw same absent))
                  (λ p. report.1 p ∙ ap (λ d. held_at pq p keys d) same)))
      ]
    where
      noted : Run s3 pq config
      noted = record run { result = record run.result { source_files = length keys } }

      found_of :
          (x : Answer s3 (List Frame × ℕ))
          → read_frames s3 pq config keys run.storage ≡ x
          → ReadReport s3 pq config laws keys run.storage x
      found_of x h =
          subst (ReadReport s3 pq config laws keys run.storage) h
            (read_frames-ReadReport s3 pq config laws keys run.storage)
