-- ===== src/Lake/Compactor/Preserved.antt =====
-- The rows of a bucket before and behind a compaction of one of its partitions.
use mathlib.Core.Path.{subst}
use agentic_data_engineering.Lake.Storage.{no_repeat, S3, S3Laws, Storage, list_objects}
use agentic_data_engineering.Lake.Compactor.{
  Parquet, CompactionConfig, Run, new_result, stored, is_source, compacted_key, compact_body,
  caught, compact_partition,
}
use agentic_data_engineering.Lake.Compactor.Contents.{held, ParquetLaws}
use agentic_data_engineering.Lake.Compactor.Requests.{
  objects, Answer, ListAnswer, list_objects-ListAnswer,
}
use agentic_data_engineering.Lake.Compactor.Kept.{Outcome, Kept, storage_rule, compact_keys-Kept}
use agentic_data_engineering.Base.{
  ◌≤◌, String, ◌≡◌, refl, sym, Bool, true, false, none, List, [], ◌∷◌, arith, select, exists,
}
use agentic_data_engineering.Base.Equality.{◌==◌, nat_eq, string_eq, option_eq}
use agentic_data_engineering.Base.Dict.{Dict, get}
use agentic_data_engineering.Base.Exec.{ok, err}

module _ (s3 : S3) (pq : Parquet s3.Bytes) (config : CompactionConfig) (laws : S3Laws s3)
    (pq_laws : ParquetLaws pq) where
  open s3 use {Bytes}
  open pq use {Row, Frame, rows, concat, read_parquet, write_parquet}

  exists-select :
      (q : String → Bool) (k : String) (keys : List String)
      → exists (λ j. j == k) keys ≡ false
      → exists (λ j. j == k) (select q keys) ≡ false
  exists-select q k [] h = refl
  exists-select q k (j ∷ js) h = ground (arith, exists-select q k js)

  no_repeat-select :
      (q : String → Bool) (keys : List String)
      → no_repeat keys ≡ true
      → no_repeat (select q keys) ≡ true
  unfolding no_repeat
  no_repeat-select q [] h = refl
  no_repeat-select q (k ∷ ks) h = ground (arith, no_repeat-select q ks, exists-select q k ks)

  compact_body-Kept :
      (prefix uuid_hex : String) (run : Run s3 pq config)
      → run.result.compacted ≡ false
      → get (compacted_key s3 pq config prefix uuid_hex) (objects s3 run.storage) ≡ none
      → Kept s3 pq config laws pq_laws
          (objects s3 run.storage)
          (compact_body s3 pq config prefix uuid_hex run)
  unfolding compact_body
  compact_body-Kept prefix uuid_hex run not_yet absent =
      storage_rule s3 pq config laws pq_laws (stored s3 pq config (list_objects s3 prefix)) _ run
        (Kept s3 pq config laws pq_laws (objects s3 run.storage))
        (λ e t h.
          let same : objects s3 t ≡ objects s3 run.storage = listed (err e, t) h in
          (λ p. rw same (omega arith), λ yes. absurd (ground arith)))
        (λ keys t h.
          let report = listed (ok keys, t) h in
          compact_keys-Kept s3 pq config laws pq_laws (compacted_key s3 pq config prefix uuid_hex)
            (select is_source keys) (objects s3 run.storage) (record run { storage = t })
            (no_repeat-select is_source keys report.1) not_yet report.0 absent)
    where
      listed :
          (x : Answer s3 (List String))
          → stored s3 pq config (list_objects s3 prefix) run.storage ≡ x
          → ListAnswer s3 run.storage x
      listed x h =
          subst (ListAnswer s3 run.storage) h
            (list_objects-ListAnswer s3 pq config laws prefix run.storage)

  caught-Kept :
      (before : Dict String Bytes) (x : Outcome s3 pq config laws pq_laws Unit)
      → Kept s3 pq config laws pq_laws before x
      → ((p : Row → Bool) → held pq p before ≤ held pq p (objects s3 (caught s3 pq config x).1))
        × ((caught s3 pq config x).0.compacted ≡ true
            → (p : Row → Bool)
            → held pq p before ≡ held pq p (objects s3 (caught s3 pq config x).1))
  unfolding caught
  caught-Kept before (ok done, run) h = h
  caught-Kept before (err e, run) h = h

  -- Whatever request fails, a compaction whose file has a new key loses no row: of the rows that pass
  -- a test, the bucket holds at least as many behind it as before it.
  pub held_le-compact_partition :
      (prefix uuid_hex : String) (s : Storage s3) (p : Row → Bool)
      → get (compacted_key s3 pq config prefix uuid_hex) (objects s3 s) ≡ none
      → held pq p (objects s3 s)
        ≤ held pq p (objects s3 (compact_partition s3 pq config prefix uuid_hex s).1)
  unfolding compact_partition new_result
  held_le-compact_partition prefix uuid_hex s p absent =
      (caught-Kept (objects s3 s) _ (compact_body-Kept prefix uuid_hex _ refl absent)).0 p

  -- A compaction whose file has a new key, and whose result says that the partition is compacted,
  -- keeps the rows of the bucket, each as often as it was there.
  pub held-compact_partition :
      (prefix uuid_hex : String) (s : Storage s3) (p : Row → Bool)
      → get (compacted_key s3 pq config prefix uuid_hex) (objects s3 s) ≡ none
      → (compact_partition s3 pq config prefix uuid_hex s).0.compacted ≡ true
      → held pq p (objects s3 (compact_partition s3 pq config prefix uuid_hex s).1)
        ≡ held pq p (objects s3 s)
  unfolding compact_partition new_result
  held-compact_partition prefix uuid_hex s p absent all_done = sym (
      (caught-Kept (objects s3 s) _ (compact_body-Kept prefix uuid_hex _ refl absent)).1 all_done p)
