-- ===== src/Lib.antt =====
-- aslan-core: the core of its write paths, as functions, and what makes them correct. Paths of the
-- program are from the repository's root.
--
-- The program keeps financial time series with their history. Every mutation is attributed to an
-- actor (src/aslan_core/audit), leaves a row in an audit log in the same transaction, and is
-- refused in strict mode when nobody is named. A job opens an ingestion run, reads and moves its
-- cursors (src/aslan_core/ingestion), and writes observations under the key (series, ts, as_of);
-- readers ask what was known at a point in time (src/aslan_core/timeseries). Events for other
-- processes are rows of a transactional outbox, which a drainer moves to Redis streams
-- (src/aslan_core/streams).
--
-- The files, and the code each is about:
--   Base, Result, Action, Json   shared: lists, dicts, sorting, errors, methods that change a state and
--                                may raise, JSON-shaped values
--   Audit/Context                src/aslan_core/audit/context.py: Actor, set_actor, current_actor,
--                                require_actor, push_actor, pop_actor
--   Audit/Recorder               src/aslan_core/audit/recorder.py: assert_actor_or_strict_raise, record
--   Watermark/Table, /Store      src/aslan_core/ingestion/watermarks.py: the SQL statements, then get,
--                                advance, set, list_for_job of WatermarkStore
--   Ingestion/Handle, /Run       src/aslan_core/ingestion/run.py: IngestionRunHandle, then
--                                ingestion_run, _close_run and the transaction they share
--   Timeseries/Types, /Bytes, /Payload
--                                src/aslan_core/schemas/timeseries.py: ObservationIn, payload_hash
--   Timeseries/Metadata          _validate_no_numeric_string_keys of src/aslan_core/timeseries/writer.py
--                                and has_numeric_string_keys of src/aslan_core/timeseries/pii.py
--   Timeseries/Pii               src/aslan_core/timeseries/pii.py: find_pii_in_metadata, _walk,
--                                _scan_string, _set_at_path (find_pii_in_clear_text is in Gate)
--   Timeseries/Scrub             scrub_in_python of the same file
--   Timeseries/Subject           find_pii_in_metadata_for_subject of the same file
--   Timeseries/BatchHash, /Batch, /Table, /Writer
--                                src/aslan_core/timeseries/writer.py: _compute_batch_hash, the
--                                validation and deduplication, the SQL statements, then write,
--                                _write_chunk and _emit_write_batch_audit of ObservationWriter
--   Timeseries/Catalog, /Gate, /Request, /Upsert
--                                the same file and src/aslan_core/models/ts.py: ts.series_catalog and
--                                ts.series_subject, what an upsert checks first, then upsert_series,
--                                _reconcile_existing, _upsert_series_field_change,
--                                _upsert_series_fresh, _persist_subjects
--   Timeseries/Calls             write and upsert_series on one session, in any order
--   Timeseries/Reader, /Series   src/aslan_core/timeseries/reader.py: latest and range, then get_series
--   Streams/Deadletter           src/aslan_core/streams/deadletter.py: the tables, the search for an
--                                orphan, acquire_or_adopt_intent, and route_to_deadletter in Route
--   Streams/Ids                  redis_id_increment and redis_id_compare of
--                                src/aslan_core/streams/deadletter.py
--   Streams/Producer             src/aslan_core/streams/producer.py: publish and publish_many of
--                                StreamProducer
--   Streams/Services             what the drainer calls: the Redis client, the database driver, the clock;
--                                in Pages what a loop over the pages of a stream shows
--   Streams/Reconcile, /Outbox, /Row, /Drainer
--                                src/aslan_core/streams/outbox_drainer.py: _reconcile_unindexed_xadd and
--                                _capture_stream_lower_bound, the SQL statements, the body of the loop
--                                over the rows, then _drain_one_batch and drain_outbox
--   Tests                        the theorems and the code at concrete inputs
-- The child modules of these are named for what they are about.
--
-- How it is modelled. A table is the list of its rows, a SQL statement a function on it; what an
-- open transaction sees is a record that the methods pass on, and an exception keeps the state at
-- the raise. The ContextVar, the flag audit_strict and the time of the transaction are a context. A
-- datetime is its instant and UTC offset, a float its 64 bits, a digest its number. The keys
-- of a dict are strings. Code outside
-- the repository is a parameter, in the record Env of Timeseries/Types: SHA-256, isoformat, NFC,
-- json.dumps, the digit class of the module re, and what the columns, CHECKs and foreign keys of
-- ts.observation refuse; format_exception in Ingestion/Run; finditer in
-- Timeseries/Pii; casefold in Timeseries/Subject; model_dump and the span of tracing in
-- Streams/Producer; json.dumps, str and total_seconds in Streams/Row; in the record Checks of
-- Timeseries/Gate the equality of dicts, the metadata that is read back of a JSONB column, the
-- CHECK constraints and the foreign keys of a series. What other transactions commit between the
-- SELECT and the INSERT of a fresh series is a parameter of upsert_series. The chunks of a batch
-- are cut with fuel, the length of the batch, which is enough since each chunk takes at least one
-- row. In the drainer every call of Redis and every statement may raise, and what other clients do
-- is a state of the surroundings that each call moves: the record Services of Streams/Services,
-- with the laws that Redis documents in Streams/Services/Laws. The loops over the pages of a
-- stream, in the reconciliation and in the search for an orphan, have fuel, one more than the ids
-- up to the last entry, which is enough since each page moves the cursor on; the daemon of the
-- drainer is cancelled in the sleep after a given number of batches. The acquisition of an intent
-- counts its retries, of which there are three, and what other workers commit to the intents before
-- a statement reads them is its parameter, as is, in the routing, what they commit before a
-- session; int of a string, the text of an id and the module json are parameters of
-- Streams/Deadletter. Everything else is structural recursion.
--
-- Not modelled: the wire to Postgres; keys of a dict that are no strings, at which the validator of
-- the writer raises; failing statements, outside the drainer, the dead letters and
-- the constraints of a series and of the observations; a commit that fails after it took effect; advisory locks and other
-- connections (writers of one series run one after the other, and a drainer meets others only in
-- the rows that they lock); metrics other than the gauge of the outbox, traces and log lines; the
-- rest of the streams (the consumer, the janitor, redaction), the documents, registry, query, API,
-- dashboard and command line parts of the program, which are other components.
pub mod Base
pub mod Result
pub mod Action
pub mod Json
pub mod Audit
pub mod Watermark
pub mod Ingestion
pub mod Timeseries
pub mod Streams
pub mod Tests
