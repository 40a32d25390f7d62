-- ===== src/Lake/Tests.antt =====
-- The data lake at concrete events, buckets and faults.
use agentic_data_engineering.Processor.Tests.{polars, event, lamp}
use agentic_data_engineering.Lake.PartitionKey.{
  bronze, silver, Keyed, sanitize_path_segment, has_dots, neutralize, build_partition_key, size,
}
use agentic_data_engineering.Lake.PartitionKey.Segments.{
  single_dots, neutralize-terminates, sanitize_path_segment_clean, all_safe,
}
use agentic_data_engineering.Lake.PartitionKey.Injective.{no_slash, build_partition_key_injective}
use agentic_data_engineering.Lake.Storage.{is_distinct, S3, Storage}
use agentic_data_engineering.Lake.Memory.{memory, memory_laws}
use agentic_data_engineering.Lake.Writer.{
  Formats, Writer, flush_failed, flush_batch, layer_schema, event_to_row,
}
use agentic_data_engineering.Lake.Writer.Files.{put_all, event_to_row_valid}
use agentic_data_engineering.Lake.Writer.Writes.{
  flush_batch-ok, flush_batch-raises, flush_batch_again,
}
use agentic_data_engineering.Lake.Schema.{PyValue, validate_row_against_schema}
use agentic_data_engineering.Lake.Compactor.{
  CompactionConfig, Parquet, compacted_key, compact_partition,
}
use agentic_data_engineering.Lake.Compactor.Contents.{held, ParquetLaws, all_rows}
use agentic_data_engineering.Lake.Compactor.Requests.{objects}
use agentic_data_engineering.Lake.Compactor.Preserved.{
  held-compact_partition, held_le-compact_partition,
}
use agentic_data_engineering.Base.{
  true, false, ℕ, ◌≤◌, ◌<◌, String, ◌≡◌, refl, sym, ap, ◌∙◌, false, none, some, List, [], ◌∷◌, ◌++◌,
  arith, length,
}
use agentic_data_engineering.Base.Equality.{◌==◌, nat_eq, string_eq, option_eq}
use agentic_data_engineering.Base.Dict.{Dict, get, put, remove}

traversal : sanitize_path_segment "path/../evil" ≡ "path_._evil"
unfolding sanitize_path_segment
traversal = refl

neutralize-terminates_example : neutralize 9 "a....b" ≡ single_dots "a....b"
unfolding size
neutralize-terminates_example = neutralize-terminates 9 "a....b" (omega arith)

sanitize_path_segment_clean_example :
    (all_safe (sanitize_path_segment "a/....b") ≡ true)
    × (has_dots (sanitize_path_segment "a/....b") ≡ false)
    × (sanitize_path_segment (sanitize_path_segment "a/....b") ≡ sanitize_path_segment "a/....b")
sanitize_path_segment_clean_example = sanitize_path_segment_clean "a/....b"

abbrev first : Keyed
first = record { source = "shop"; event_id = "e/1"; year = "2026"; month = "09"; day = "18" }

abbrev second : Keyed
second = record { source = "shop"; event_id = "e_1"; year = "2026"; month = "09"; day = "18" }

-- two event ids, one file
same_key : build_partition_key first bronze ≡ build_partition_key second bronze
unfolding build_partition_key
same_key = refl

build_partition_key_injective_example :
    (bronze ≡ bronze)
    × (sanitize_path_segment "shop" ≡ sanitize_path_segment "shop")
    × (first.year ≡ second.year)
    × (first.month ≡ second.month)
    × (first.day ≡ second.day)
    × (sanitize_path_segment "e/1" ≡ sanitize_path_segment "e_1")
unfolding no_slash
build_partition_key_injective_example =
    build_partition_key_injective first second bronze bronze (refl, refl, refl) (refl, refl, refl)
      same_key

-- A file is the list of its rows, and a row is a number.
abbrev flatten : List (List ℕ) → List ℕ
flatten [] = []
flatten (f ∷ fs) = f ++ flatten fs

abbrev parquet : Parquet (List ℕ)
parquet = record {
  Row = ℕ;
  Frame = List ℕ;
  rows = λ f. f;
  concat = λ fs. some (flatten fs);
  write_parquet = λ f. f;
  read_parquet = λ b. some b;
  len = λ b. length b;
}

flatten-all_rows : (fs : List (List ℕ)) → flatten fs ≡ all_rows parquet fs
unfolding all_rows
flatten-all_rows [] = refl
flatten-all_rows (f ∷ fs) = ap (λ x. f ++ x) (flatten-all_rows fs)

parquet_laws : ParquetLaws parquet
parquet_laws = record {
  concat_rows = λ fs f h. let e : flatten fs ≡ f = cc in sym e ∙ flatten-all_rows fs;
  read_back = λ f g h. cc;
}

abbrev config : CompactionConfig
config = record { min_files_to_compact = 2; max_source_file_bytes = 10 }

module _ (failing : List ℕ) where
  abbrev bucket : Storage (memory (List ℕ) failing)
  bucket = record {
    closed = false;
    client = record {
      objects = ("silver/a.parquet", 1 ∷ 2 ∷ []) ∷ ("silver/b.parquet", 3 ∷ []) ∷ [];
      distinct = unfold is_distinct get in refl;
      requests = 0;
    };
  }

held-compact_partition_example :
    held parquet
      (λ r. r == 3)
      (objects
        (memory (List ℕ) [])
        (compact_partition (memory (List ℕ) []) parquet config "silver/" "0f" (bucket [])).1)
    ≡ held parquet (λ r. r == 3) (objects (memory (List ℕ) []) (bucket []))
unfolding compact_partition get put
held-compact_partition_example =
    held-compact_partition (memory (List ℕ) []) parquet config (memory_laws (List ℕ) [])
      parquet_laws "silver/" "0f" (bucket []) (λ r. r == 3) refl refl

-- The second deletion fails.
held_le-compact_partition_example :
    held parquet (λ r. r == 3) (objects (memory (List ℕ) (6 ∷ [])) (bucket (6 ∷ [])))
    ≤ held parquet
        (λ r. r == 3)
        (objects
          (memory (List ℕ) (6 ∷ []))
          (compact_partition
            (memory (List ℕ) (6 ∷ []))
            parquet
            config
            "silver/"
            "0f"
            (bucket (6 ∷ []))).1)
unfolding get compacted_key
held_le-compact_partition_example =
    held_le-compact_partition (memory (List ℕ) (6 ∷ [])) parquet config
      (memory_laws (List ℕ) (6 ∷ [])) parquet_laws "silver/" "0f" (bucket (6 ∷ [])) (λ r. r == 3)
      refl

-- Then the row of the file that is left is in the bucket twice.
row_twice :
    held parquet
      (λ r. r == 3)
      (objects
        (memory (List ℕ) (6 ∷ []))
        (compact_partition
          (memory (List ℕ) (6 ∷ []))
          parquet
          config
          "silver/"
          "0f"
          (bucket (6 ∷ []))).1)
    ≡ 2
unfolding compact_partition held get put remove
row_twice = refl

abbrev formats : Formats polars (Dict String PyValue)
formats = record {
  str_version = λ v. "1";
  str_price = λ p. "1.0";
  isoformat = λ t. "2026-09-18T00:00:00+00:00";
  year = λ t. "2026";
  month = λ t. "09";
  day = λ t. "18";
  parquet_of_row = λ row. row;
}

module _ (failing : List ℕ) where
  abbrev files : S3
  files = memory (Dict String PyValue) failing

  abbrev writer : Writer polars files formats silver
  writer = record {
    storage = record {
      closed = false;
      client = record { objects = []; distinct = unfold is_distinct in refl; requests = 0 };
    };
    batch = record { events = lamp ∷ event "e2" "desk" none ∷ []; max_size = 2 };
  }

event_to_row_valid_example :
    validate_row_against_schema
      (event_to_row polars (files []) formats silver lamp)
      (layer_schema silver)
    ≡ []
event_to_row_valid_example = event_to_row_valid polars (files []) formats silver silver lamp

flush_batch-ok_example :
    ((files []).contents (flush_batch polars (files []) formats silver (writer [])).1.storage.client
      ≡ put_all polars (files []) formats silver (writer []).batch.events [])
    × ((flush_batch polars (files []) formats silver (writer [])).1.batch.events ≡ [])
unfolding flush_batch
flush_batch-ok_example =
    flush_batch-ok polars (files []) formats silver (memory_laws (Dict String PyValue) [])
      (writer []) refl

flush_batch-raises_example :
    ((n : ℕ) × (ids : List String) × (flush_failed 1 ("e2" ∷ []) ≡ flush_failed n ids) × (0 < n))
    × ((flush_batch polars (files (1 ∷ [])) formats silver (writer (1 ∷ []))).1.batch.events ≡ [])
unfolding flush_batch
flush_batch-raises_example =
    flush_batch-raises polars (files (1 ∷ [])) formats silver
      (memory_laws (Dict String PyValue) (1 ∷ [])) (writer (1 ∷ [])) (flush_failed 1 ("e2" ∷ []))
      refl

-- The same events once more, in the bucket that their first flush left.
abbrev after_flush : Writer polars (files []) formats silver
after_flush = record {
  storage = (flush_batch polars (files []) formats silver (writer [])).1.storage;
  batch = (writer []).batch;
}

flush_batch_again_example :
    get "k" (
      (files []).contents
        (flush_batch polars (files []) formats silver after_flush).1.storage.client)
    ≡ get "k" (
        (files []).contents
          (flush_batch polars (files []) formats silver (writer [])).1.storage.client)
unfolding flush_batch
flush_batch_again_example =
    flush_batch_again polars (files []) formats silver (memory_laws (Dict String PyValue) [])
      (writer []) after_flush "k" refl refl refl refl
