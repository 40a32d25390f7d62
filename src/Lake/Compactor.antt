-- ===== src/Lake/Compactor.antt =====
-- libs/compaction/compactor.py: the small files of a partition become one file.
pub mod Contents
pub mod Requests
pub mod Drops
pub mod Written
pub mod Kept
pub mod Preserved
use agentic_data_engineering.Base.Texts.{append, starts_with, ends_with, rsplit_slash}
use agentic_data_engineering.Lake.Storage.{
  S3, StorageError, Storage, put_object, get_object, delete_object, list_objects,
}
use agentic_data_engineering.Base.{
  ℕ, zero, suc, ◌+◌, ◌-◌, ◌*◌, ◌≤◌, ◌<◌, min, String, ◌≡◌, refl, sym, ap, ◌∙◌, ◌≢◌, ◌↔◌, ◌⊎◌, inl,
  inr, Bool, true, false, not, ◌&&◌, ◌||◌, Option, none, some, List, [], ◌∷◌, ◌++◌, map, append-nil,
  append_assoc, arith, ltb, leb, ==_iff, if◌then◌else◌, Bool-cases, Option-cases, is_some, length,
  drop, take, select, exists, count_if, length-append, length-drop, length-select, All, All-append,
  All_map_of,
}
use agentic_data_engineering.Base.Equality.{
  Eq, ◌==◌, nat_eq, string_eq, option_eq, beq_refl, beq-eq, beq_false, beq_sym, beq_cases,
}
use agentic_data_engineering.Base.Dict.{Dict, get, put, remove, get-put, get-remove, dict_laws}
use agentic_data_engineering.Base.Exec.{
  Result, ok, err, Exec, map_err, pure, raise, gets, lift, modify, continue, ◌>>=◌, ◌>>◌,
}

-- `CompactionConfig`; nothing reads `max_source_file_bytes`
pub record CompactionConfig : Type 0 where
  pub min_files_to_compact : ℕ
  pub max_source_file_bytes : ℕ

-- What the compactor takes from polars. `concat` and `read_parquet` are `none` where they raise.
pub record Parquet (Bytes : Type 0) : Type 1 where
  pub Row : Type 0
  pub Frame : Type 0
  pub rows : Frame → List Row
  pub concat : List Frame → Option Frame
  pub write_parquet : Frame → Bytes
  pub read_parquet : Bytes → Option Frame
  pub len : Bytes → ℕ

-- an exception in `compact_partition`, or the mismatch that it notes itself
pub data CompactionError : Type 0 where
  storage_error : StorageError → CompactionError
  polars_error : CompactionError
  record_count_mismatch : ℕ → ℕ → CompactionError

-- `CompactionResult`; `bytes_freed` is the difference of the two sizes, which can be negative
pub record CompactionResult : Type 0 where
  pub partition_prefix : String
  pub source_files : ℕ
  pub compacted : Bool
  pub records_before : ℕ
  pub records_after : ℕ
  pub bytes_freed : ℕ × ℕ
  pub errors : List CompactionError

unfoldable pub new_result : String → CompactionResult
new_result prefix = record {
  partition_prefix = prefix;
  source_files = 0;
  compacted = false;
  records_before = 0;
  records_after = 0;
  bytes_freed = (0, 0);
  errors = [];
}

-- `CompactionResult.success`
unfoldable pub success : CompactionResult → Bool
success result = elim result.errors [ [] ↦ true | e ∷ es ↦ false ]

unfoldable pub filename : String → String
unfolding rsplit_slash
filename key = elim (rsplit_slash key) [ none ↦ key | some (a, b) ↦ b ]

-- a file that a compaction reads
unfoldable pub is_source : String → Bool
unfolding filename starts_with ends_with
is_source key = ends_with ".parquet" key && not (starts_with "compacted-" (filename key))

module _ (s3 : S3) (pq : Parquet s3.Bytes) (config : CompactionConfig) where
  open s3 use {Bytes}
  open pq use {Frame, rows, concat, write_parquet, read_parquet, len}

  -- the storage, and the result that the method fills
  pub record Run : Type 0 where
    pub storage : Storage s3
    pub result : CompactionResult

  unfoldable pub on_storage :
      {A : Type 0} → Exec (Storage s3) CompactionError A → Exec Run CompactionError A
  on_storage m run = let (r, storage) = m run.storage in (r, record run { storage = storage })

  unfoldable pub note : (CompactionResult → CompactionResult) → Exec Run CompactionError Unit
  note f = modify (λ run. record run { result = f run.result })

  unfoldable pub stored :
      {A : Type 0} → Exec (Storage s3) StorageError A → Exec (Storage s3) CompactionError A
  stored m s = let (r, t) = m s in (map_err storage_error r, t)

  unfoldable pub or_raise : {A : Type 0} → Option A → Exec (Storage s3) CompactionError A
  or_raise none = raise polars_error
  or_raise (some a) = pure a

  -- the frames of the files, and the bytes read
  unfoldable pub read_frames : List String → Exec (Storage s3) CompactionError (List Frame × ℕ)
  unfolding stored get_object or_raise
  read_frames [] = pure ([], 0)
  read_frames (key ∷ keys) =
      let rest = read_frames keys in
      stored (get_object s3 key) >>= λ body. or_raise (read_parquet body) >>= λ frame.
      rest >>= λ found. pure (frame ∷ found.0, len body + found.1)

  unfoldable pub delete_all : List String → Exec (Storage s3) CompactionError Unit
  unfolding stored delete_object
  delete_all [] = pure tt
  delete_all (key ∷ keys) =
      let rest = delete_all keys in stored (delete_object s3 key) >>= λ done. rest

  -- the compacted file, written and read back
  unfoldable pub write_compacted : String → Frame → Exec (Storage s3) CompactionError Frame
  unfolding stored put_object get_object or_raise
  write_compacted key combined = stored (put_object s3 key (write_parquet combined)) >>= λ done.
      stored (get_object s3 key) >>= λ body. or_raise (read_parquet body)

  -- the end of a compaction whose file has as many records as it should
  unfoldable pub drop_sources : List String → ℕ → Frame → Exec Run CompactionError Unit
  unfolding on_storage note delete_all
  drop_sources keys total combined = on_storage (delete_all keys) >>= λ done.
      note (λ r. record r { compacted = true; bytes_freed = (total, len (write_parquet combined)) })

  -- the end of a compaction whose file has another number of records
  unfoldable pub drop_compacted : String → Frame → Frame → Exec Run CompactionError Unit
  unfolding on_storage note stored delete_object
  drop_compacted key combined validation =
      note (λ r. record r {
        errors =
            r.errors
            ++ record_count_mismatch (length (rows combined)) (length (rows validation)) ∷ [];
      })
      >>= λ done. on_storage (stored (delete_object s3 key))

  unfoldable pub replace_sources :
      List String → String → ℕ → Frame → Frame → Exec Run CompactionError Unit
  unfolding note drop_sources drop_compacted
  replace_sources keys key total combined validation =
      note (λ r. record r { records_after = length (rows validation) }) >>= λ done.
      if length (rows validation) == length (rows combined)
      then drop_sources keys total combined
      else drop_compacted key combined validation

  unfoldable pub combine : String → List String → List Frame × ℕ → Exec Run CompactionError Unit
  unfolding on_storage note or_raise write_compacted replace_sources
  combine key keys ([], total) = pure tt
  combine key keys (f ∷ frames, total) = on_storage (or_raise (concat (f ∷ frames))) >>= λ combined.
      note (λ r. record r { records_before = length (rows combined) }) >>= λ done.
      on_storage (write_compacted key combined) >>= λ validation.
      replace_sources keys key total combined validation

  unfoldable pub compact_keys : String → List String → Exec Run CompactionError Unit
  unfolding on_storage note read_frames combine
  compact_keys key keys =
      if ltb (length keys) config.min_files_to_compact
      then pure tt
      else note (λ r. record r { source_files = length keys }) >>= λ done.
          on_storage (read_frames keys) >>= λ found. combine key keys found

  -- `uuid_hex` is the text that `uuid4` draws for the call
  unfoldable pub compacted_key : String → String → String
  unfolding append
  compacted_key prefix uuid_hex = append prefix (append "compacted-" (append uuid_hex ".parquet"))

  unfoldable pub compact_body : String → String → Exec Run CompactionError Unit
  unfolding on_storage stored list_objects compact_keys compacted_key is_source
  compact_body prefix uuid_hex = on_storage (stored (list_objects s3 prefix)) >>= λ keys.
      compact_keys (compacted_key prefix uuid_hex) (select is_source keys)

  -- the `except` clause
  unfoldable pub caught : Result CompactionError Unit × Run → CompactionResult × Storage s3
  caught (ok done, run) = (run.result, run.storage)
  caught (err e, run) = (record run.result { errors = run.result.errors ++ e ∷ [] }, run.storage)

  unfoldable pub compact_partition : String → String → Storage s3 → CompactionResult × Storage s3
  unfolding new_result compact_body caught
  compact_partition prefix uuid_hex storage =
      caught
        (compact_body prefix uuid_hex (record { storage = storage; result = new_result prefix }))

  -- the loop of `compact_all` over the discovered partitions
  unfoldable pub compact_each :
      (String → String) → List String → Storage s3 → List CompactionResult × Storage s3
  unfolding compact_partition
  compact_each uuid_hex [] storage = ([], storage)
  compact_each uuid_hex (prefix ∷ prefixes) storage =
      let (result, next) = compact_partition prefix (uuid_hex prefix) storage in
      let (results, last) = compact_each uuid_hex prefixes next in (result ∷ results, last)
