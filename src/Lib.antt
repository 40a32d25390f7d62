-- ===== src/Lib.antt =====
-- A data platform for product observations: adapters collect them, Kafka carries them, the
-- processor validates and deduplicates them, and writers and loaders keep them. This library models
-- the parts that decide which observation survives and under which identity, and proves what they
-- promise.
--
-- Kafka models libs/common/kafka_consumer.py with libs/common/kafka_errors.py. Kafka/Broker.antt
-- has what the consumer meets outside of it: the client library's answers, the outcomes of the
-- caller's `process`, the dead letter. Kafka/Client.antt has the object (`KafkaConsumer`) with
-- `poll`, `commit_offsets`, `commit_message` and `close`; its record also keeps what it did: the
-- calls, the handled messages, the acknowledged dead letters and the offsets committed.
-- Kafka/Consumer.antt has `process_next`: the loop over the attempts, the dead letter, the commit,
-- and the `except` clause that closes the consumer. The proofs are in Kafka/Consumer/: Attempts and
-- Settling for the two halves of `process_next`, Commits for the whole, Retries and Recovery for
-- how often it tries and what comes of it when nothing interferes. An `Environment` answers for the
-- client library, the callbacks and the signals, one for each call. A commit that fails may have been
-- taken by the broker, as `taken_anyway` says.
--
-- Processor models services/processor. Processor/Columns.antt has the rows of `NORMALIZED_SCHEMA`
-- and the interface `Polars`: hash, rank, casts, number types and whether
-- `from_dicts` takes a column of prices, which come from a library; the
-- one law that the proofs use is that equal values are ranked in the order of their occurrence.
-- Processor/Events.antt has the event of libs/event_contracts/product_observation.py,
-- `events_to_polars` of polars_transform.py and `normalize` of schema_normalization.py.
-- Processor/Validation.antt is data_validation.py, Processor/Dedup.antt is deduplication.py, and
-- Processor/Pipeline.antt is pipeline.py with the counters of
-- libs/observability/processor_metrics.py. A data frame is the list of its rows; a null is `none`;
-- the window expressions of the deduplication are computed from the whole batch and the rows before
-- a row.
--
-- Marketplace models libs/marketplace. Marketplace/Identity.antt has the qualified identifiers of
-- identity.py, listing.py and seller.py, Marketplace/Products.antt the choice of a product
-- identifier from a listing's metadata, and Marketplace/Mapper.antt `ListingProductMapper`; a
-- Python set is the list of its elements. The characters that a pattern's digit stands for, and
-- `str.strip`, are the interface `Python`.
--
-- Lake models the data lake. Lake/PartitionKey.antt is libs/partitioning/partition_key.py: the loop
-- over the dots runs on rounds, and the length of the text is enough of them. Lake/Storage.antt is
-- libs/common/minio_storage.py over the interface `S3`, the boto3 client of one bucket; `S3Laws` is
-- what the object store documents, and of a request that failed it says only that it was carried
-- out or not. Lake/Schema.antt is libs/schema/parquet_schemas.py (the schemas and
-- `validate_row_against_schema`). Lake/Writer.antt is libs/raw_writer/bronze_writer.py and
-- libs/lake_writer/silver_writer.py, which differ in the layer. Lake/Compactor.antt is
-- libs/compaction/compactor.py over the interface `Parquet`, what it takes from polars; the proofs
-- in Lake/Compactor/ count the rows that a bucket holds, by a test of the rows. Lake/Memory.antt is
-- an object store for the tests, with requests that fail.
--
-- Health models libs/observability: Health/Tracker.antt and Health/Assessor.antt are
-- health_assessment.py, Health/Evaluator.antt is health_evaluation.py. Python's floats are the
-- interface `Floats`.
--
-- Ingestion/Runner.antt models services/ingestion/runner.py: the cycles over the sources, the retry
-- loop on the rounds left, `max_retries` + 1 at first, and the counters. An `Environment` answers for
-- the adapters and the Kafka client of the producer, one answer for each call; `publish` of
-- libs/common/kafka_producer.py is modelled by its outcomes and by the counters, which it shares with
-- the runner; the runner's record also keeps the calls,
-- the events whose receipt came and the seconds slept.
--
-- Warehouse models warehouse/loader. Warehouse/Rows.antt is models.py and `_map_row` of
-- batch_loader.py; decimals, times and how they are read from a text are the interface `Values`.
-- Warehouse/Database.antt has the tables and the statements on them, Warehouse/Upserts.antt the four
-- steps of a batch, and Warehouse/Loader.antt the transaction, the loop over the batches and
-- `load_from_lake` behind the reading of the files. A `Server` says which statements are refused, by
-- their number; the inserts of one `execute_batch` are one statement, so are the two selections of
-- `_upsert_source_products`, and a commit that is refused commits nothing. A
-- price is stored as it is, without the rounding of NUMERIC(12, 2). The loop runs on rounds, of
-- which it has as many as there are rows.
--
-- Base has the shared helpers: lists over native numbers, Boolean equality, dictionaries, texts.
--
-- Stateful code passes its state: a method is a function from a state to a result and a state, so
-- that what was written before an exception stays written (Base/Exec.antt). The loop over the
-- attempts runs on the rounds left, which start at `max_attempts`, and so needs no fuel.
--
-- Not modelled: logging, time stamps and latencies, threads and locks; the lag samples and
-- `subscribe` of the consumer; the service loop of the processor; the discovery of partitions, the
-- Parquet reader and the creation of buckets; the comparison of schemas; the adapters, the
-- agent and the API; the queries of the warehouse; Airflow, Helm, Kubernetes and Terraform files.
pub mod Base
pub mod Health
pub mod Ingestion
pub mod Kafka
pub mod Lake
pub mod Marketplace
pub mod Processor
pub mod Warehouse
