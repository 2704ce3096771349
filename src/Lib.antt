-- ===== src/Lib.antt =====
-- Verification of the event platform: Kafka consumers of orders and of access logs, with
-- PostgreSQL behind them (src/streaming_platform), and the tools of its data platform
-- (src/data_platform).
--
-- The program. The order consumer polls a message, decodes and validates it, stores the event
-- and a marker in one transaction, or sends what can never be stored to a dead-letter topic, and
-- only then commits the message's offset. The log consumer buffers contributions to metrics of a
-- minute, flushes a snapshot of them in one transaction, and commits offsets up to the first one
-- that is not durable. Both retry temporary failures a bounded number of times. The event
-- generator sends made events to the two topics at a given rate and reports on their deliveries.
-- The tools of the data platform decide on the cost of queries, answer questions on the metadata
-- of the warehouse, and diagnose incidents from such answers.
--
-- The files, by the code they are about:
--   Models             models/event.py, order.py, application_log.py, dlq.py: records and enums with
--                      the source's fields; Models.Json is pydantic's JsonValue
--   Outcome            exceptions as values; an operation on a state S is S -> Outcome A x S, and
--                      the state is kept when it raises
--   Consumer.Retry     consumer/retry.py: RetryPolicy.delay, run_with_retry
--   Consumer.Errors    consumer/errors.py: decode_json_value, build_dlq_message and the classes of
--                      errors; the parameter Codec stands for the standard library's codecs and for
--                      pydantic
--   Consumer.Offsets   consumer/offsets.py: ContiguousOffsetTracker; Offsets.History has a step
--                      relation over its calls
--   Consumer.World     the database, the dead-letter topic, the committed offsets and the coming
--                      results of every call that leaves the program
--   Consumer.Order     consumer/order.py: OrderProcessor.process, OrderConsumerRunner.run
--   Consumer.Log       consumer/log.py: Log.State is the shared state, Log.Processor, Log.Flush and
--                      Log.Runner are LogMessageProcessor, LogFlushService and LogConsumerRunner;
--                      run_to_end is the order of calls in apps/log_consumer/__main__.py
--   Metrics            metrics/log_aggregation.py: contribution_for, LogAggregationBuffer;
--                      metrics/statistics.py: average, nearest_rank_percentile, on the doubles of
--                      Metrics.Doubles
--   Database           database/models.py: the tables as dicts by primary key;
--                      database/order_repository.py and log_repository.py: persist,
--                      persist_snapshot
--   Kafka              kafka/consumer.py, kafka/dlq.py and kafka/producer.py: poll, commit, publish,
--                      and send and flush of TrackedKafkaProducer
--   Generator          generator/report.py: DeliveryTracker and its ranges of delivered offsets;
--                      generator/factory.py: EventFactory, whose random numbers are read from a
--                      list in its state (FactoryCodec stands for the version-4 UUIDs and for
--                      pydantic); generator/runner.py: GeneratorRunner, in Generator.Runner, which
--                      composes the factory, the producer and the tracker
--   DataPlatform       src/data_platform: CostPolicy is bigquery_cost_policy.py, with the evaluation
--                      in CostPolicy.Evaluation; Incidents is incidents.py, with _collect in
--                      Incidents.Tools, _inventory in Incidents.Inventory, _facts and _correlate in
--                      Incidents.Correlation, diagnose in Incidents.Diagnosis and render_markdown in
--                      Incidents.Markdown; Redaction is redact of metadata_security.py, with
--                      its patterns in Redaction.Patterns; Values is a
--                      JSON document as json.loads gives it, with Python's view of each value;
--                      Metadata is metadata_models.py, Metadata.Walk is _walk of
--                      metadata_service.py and Metadata.Service the tools on it, with call in
--                      Service.Calls; SlimCi is slim_ci.py, with _dbt_command and what is read from
--                      outputs in SlimCi.Commands, cleanup_ci_schemas in SlimCi.Schemas and
--                      run_slim_ci in SlimCi.Orchestration, given what the two gates find;
--                      SlimCi.Gated gives it the contract gate;
--                      Contracts is contracts.py, with _downstream_paths in Contracts.Impact,
--                      _tests_for_model in Contracts.Keys, _compare_columns in Contracts.Columns
--                      and compare_contracts in Contracts.Comparison, where the record Python
--                      stands for str, repr, lower and == on values
--   Tests              each result at a concrete input
-- The other modules (Prelude, Dict, Text, Sorting) are shared helpers.
--
-- Numbers. Offsets, counts and times are natural numbers. A duration is a number of a time unit,
-- and an amount is in hundredths. The percentile of a report is a double, and its product with
-- the number of samples is rounded as Python does. The generator's rates are in millionths, and
-- its products and quotients are exact and rounded down, where the source's are products of
-- floats, so that the number of planned events may be one more than there (0.29 times 100).
-- UUIDs are their 128-bit integers; the widths of the columns are modelled for order rows and
-- their markers, not for the writes of the log consumer.
--
-- Loops. The retry loop has a round for each of its max_retries + 1 attempts. The search for the
-- committable offset has a round for each tracked offset, which is enough since each round
-- passes a different one. The wait for a delivery goes over the rounds that the clock admits.
-- The polling loops run for any given number of iterations, or fewer where a shutdown is
-- requested. The walk over the lineage has a round for each asset that it may visit, at most
-- 200, and the search for the models below a model one for it and one for each node of the
-- manifest.
--
-- The world. What a call outside the program does is read from a list in the state: a
-- transaction commits, fails, or commits with its answer lost; a delivery or an offset commit
-- may be stored although the call raises. The results hold for every such list, but for the one
-- on what the order consumer gets done, which is on lists that are empty: every call then
-- succeeds at once. That an acknowledged delivery is stored, and that a transaction is atomic,
-- is what the model takes from Kafka and PostgreSQL. The rebalance callbacks of the log consumer
-- and the signals come with the polls, as lists too; what a callback raises comes out of its
-- poll. The consumer's close, with what the client does then, is outside the model.
--
-- Not modelled: logging (but for the retry warnings), the wiring of objects, the inspection of
-- consumer lag, the benchmark, the demo, and the other tools of src/data_platform. Of the tools
-- that are modelled, the reading and writing of files is left out, with the environment of a
-- subprocess and the removal of a temporary directory, and json, the
-- parsing of times and the regular expressions other than those of redaction are parameters; the
-- callers of redact take the patterns as parameters too, and their results hold for any.
pub mod Prelude
pub mod Dict
pub mod Models
pub mod Outcome
pub mod Metrics
pub mod Text
pub mod Sorting
pub mod Kafka
pub mod Database
pub mod Consumer
pub mod Generator
pub mod DataPlatform
pub mod Tests
