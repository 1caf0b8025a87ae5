-- ===== src/Lib.antt =====
-- eve-api-cache is a caching proxy for the public API of EVE Online (ESI). A request passes the
-- rate limiter (app/rate_limit.py) and the catch-all route (app/routes.py), is checked against the
-- allowlist (app/allowlist.py), and is answered by app/proxy.py from Redis (app/cache.py), from a
-- fetch that concurrent callers share (app/coalesce.py, app/esi_client.py), or from the archive. A
-- collector (app/collector.py) fills the same cache and archive ahead of any caller.
--
-- Base holds the shared names: Boolean tests and lists over native numbers, texts as code points,
-- Python's dict, integers with `int` and `str`, and the monad of code that mutates a state and may
-- raise (`Exec`: what was written before a raise stays written), with the rules for what such code
-- keeps (Keeps) and for when it returns (Returns).
-- RateLimit is `InMemoryRateLimiter`; RateLimit/Window is the reference limiter and
-- RateLimit/Refinement compares them.
-- Allowlist has Pattern (the regular expressions), Endpoints (the table and `match_endpoint`), Path
-- (`validate_path`, `validate_datasource`), Params (`check_params`, `normalize_params`), Keys
-- (`normalize_body`, `compute_query_hash`, `build_cache_key`), Labels (`endpoint_label`) and Safety.
-- Cache has Values (`_compress_value`, `_decode_value`), Client (the methods of `CacheClient`;
-- `set_body` is its `set`), Names (those for names) and Views (what the readers answer after a write).
-- EsiClient has Headers, State (the settings, the network and the client's state), Breaker
-- (`_note_response_budget`, `_budget_blocked`), Pacer (`_pace`), Retry (`_request_with_retries`),
-- Pages (`_fetch_all_pages`), Fetch (`fetch`), Traffic and Answers.
-- Coalesce is one call of `coalesce`; Coalesce/Tasks is the interleaving of all calls as a step
-- relation, with cancellation, which Coalesce/Cancelled looks at.
-- Proxy has Defs (the surroundings and the state), Admission (the checks of `_dispatch` and
-- `_validate_post_body`), Effects (its calls of the other parts, and `_archive_response`), Dispatch
-- (the rest of `_dispatch`, and `proxy_request`), Rejections, Answers and Caching.
-- Routes has the helpers of app/routes.py, Routes/Handler its function `proxy`, and
-- Routes/Operations the endpoints for health, the collector's state and the metrics.
-- Metrics is the registry of app/metrics.py and Metrics/Exposition its text exposition (`render`);
-- Histograms is about what it holds, Scrapes is a reader of the text, Numbers is about the texts of
-- numbers, Listing and Recorded about what such a reader finds, and Breaks about the lines of the
-- text. Events lists the calls that other parts make of the registry.
-- Collector is `_fetch_and_store` and the endpoints of the single collectors; Collector/Types is
-- the discovery of type ids, Collector/Histories the market history of a region, and
-- Collector/Warming what is left in the cache.
-- Scheduler is the table of jobs of app/scheduler.py and one run of a job under its advisory lock;
-- Scheduler/Starts is about when they start. Scheduler/Status is `scheduler_status`.
-- Postgres is the database: what INSERT ... ON CONFLICT, UPDATE and ORDER BY ... LIMIT 1 do to rows.
-- Archive is app/archive.py over the tables of app/db.py: Tables (the rows and their unique keys),
-- Sessions (the surroundings and an `AsyncSession`, whose server may be lost at any statement), Keys
-- (the idempotency key, the region in a path, the codec of the blobs), Orders (the Parquet file, its
-- manifest, and the versions of the orders), Snapshots (`write_snapshot`), Reads
-- (`get_latest_payload`), Mappings and Names (`write_names`), Batches (`_chunks`), and Live, which
-- gives the proxy its archive. About them are Untouched, Rows and Writes (what each statement keeps),
-- Atomic, RoundTrip, Upserts, Present and Retry, Success, Repeats, Naming, and Fallback, where the
-- proxy meets the archive.
-- Ddl is the data definition language of PostgreSQL: Catalogs (tables with rows) and Apply (what each
-- operation that a migration sends makes of them); Steps has when single ones go through.
-- Migrations has the upgrades and downgrades of alembic/versions as lists of such operations
-- (Initial, Idempotency, Storage, EventKeys; Columns has their arguments), all of them in their order
-- (Upgrades), and the tables that app/db.py declares (Declared). Agreement compares the two,
-- Reversal undoes all, and History is about rows that are there.
-- Examples has concrete surroundings and runs of the theorems in them.
--
-- Code that is not in the repository is a parameter: Redis (`Redis`: what SET, GET and DEL promise;
-- a SET with an expiry time of 0 is refused), the compression libraries (`Compressor`: round trips),
-- `json` (`Codec`), SHA-256, HTTP with the clocks (`Network`: the monotonic clock does not go back)
-- `email.utils` and `datetime` (`Dates`), Python's floats in the metrics (`Floats`), PostgreSQL
-- (`Postgres`) with its advisory locks, `pyarrow` with the directory of its files (`Parquet`), the
-- texts of a `datetime` (`Calendar`) and the server that a migration runs on (`Ddl.Server`: all
-- operations in one transaction). To the proxy the archive is an interface (`Archive`) with one law,
-- that names are written to the keys of names alone; Archive/Live builds app/archive.py as an
-- instance of it.
--
-- Times are natural numbers of ticks or of seconds, and numbers are unbounded as in Python. The loop of
-- `_request_with_retries` recurs on the number of retries that are left, which is what bounds the
-- loop of the source. What other requests do while one is suspended is an argument (`Turn`).
--
-- Not modelled: the semaphores, the order in which pages arrive, the engine of app/db.py, the
-- logging, app/config.py, app/main.py, app/deps.py and alembic/env.py. The width of a column is kept,
-- but no text is measured by it: a value that its column refuses is one of the failures of a
-- statement that `ArchiveEnv.up` stands for. An id or a name of another type than its column is taken
-- to be refused by the driver, a Boolean id too. The numbers in headers have at most 300 digits, which
-- `int` and a float take. Redis is taken to be there, and its upper limit on an expiry time is left
-- out.
pub mod Allowlist
pub mod Archive
pub mod Base
pub mod Cache
pub mod Coalesce
pub mod Collector
pub mod Ddl
pub mod EsiClient
pub mod Events
pub mod Examples
pub mod Json
pub mod Metrics
pub mod Migrations
pub mod Postgres
pub mod Proxy
pub mod RateLimit
pub mod Redis
pub mod Routes
pub mod Scheduler
