-- ===== src/Lib.antt =====
-- The verification library of document-intelligence-mvp, a multi-tenant document service.
--
-- An upload is read, checked and named (app/services/uploads.py) and becomes a document row with
-- a queued job; archives are unpacked by app/adapters/zip_unpack.py. Workers claim jobs from the
-- queue (app/services/jobs.py) and process them into chunks, a profile, vectors and relations to
-- other documents (app/services/relations.py). Users search by meaning
-- (app/services/retrieval.py) or for a literal (app/services/lexical.py), ask questions whose
-- answers cite passages (app/services/qa.py), and watch a document's stages
-- (app/services/pipeline.py). The retrieval is measured by app/evaluation/metrics.py. The tables
-- of app/models.py are what these parts share.
--
-- Which file models what. Prelude and its children have the tests, lists, sorting and text
-- methods of Python that all use. Errors has the exceptions, and Result for a call that may
-- raise one. Models has the rows of app/models.py, and Database a value with all tables and the
-- uniqueness that lookups rest on. Floats and Providers have what is called from outside: an
-- order of scores, the embedding provider and the reranker (app/providers/base.py,
-- app/services/indexing.py). Jobs models app/services/jobs.py, Pipeline
-- app/services/pipeline.py, Relations app/services/relations.py, Retrieval
-- app/services/retrieval.py, Lexical app/services/lexical.py, Qa app/services/qa.py, ZipUnpack
-- app/adapters/zip_unpack.py, Uploads and Uploads.Reading app/services/uploads.py, Ingestion
-- app/services/documents.py and app/services/ingestion.py, Metrics app/evaluation/metrics.py;
-- VectorStore models app/services/vector_store.py, with the index that it implements in
-- VectorStore.Index, Normalization app/services/normalization.py, Indexing
-- app/services/indexing.py, Profiling app/services/profiling.py, Processing
-- app/services/processing.py, Worker app/worker.py, Deletion app/services/deletion.py,
-- Reindexing app/services/reindexing.py; Processing.Keeping and Processing.Frame say what the
-- steps of a run leave alone, and Deletion.Late is about a worker that comes after a deletion.
-- Relations.Gathering is the part of relations.py that finds the candidates. A function keeps
-- its name; the children of a module have its theorems. Tests has the runs on small inputs.
--
-- How state is modelled. A table is the list of its rows, in the table's order, and a service
-- that writes is a function from the rows to the rows and its result. A statement of SQL is the
-- list function that it describes: WHERE selects, ORDER BY sorts stably, LIMIT takes, UPDATE
-- changes each row that passes, INSERT checks the constraints, ON CONFLICT DO UPDATE updates or
-- adds. Each call is one transaction. Processing works on more than tables: World has the
-- tables, the objects and the index, Actions the calls on them, which leave a state behind when
-- they raise, and a transaction puts the tables back after an exception, but neither objects nor
-- index. SKIP LOCKED is the parameter `locked`, the rows that other transactions hold; a trace
-- of the queue is a list of calls, each with its own clock and locks. A UUID and a timestamp are
-- numbers, a JSON value is its text, text and bytes are lists of code points, a fresh id is an
-- argument.
--
-- Parameters. What the repository does not contain is an argument: `str.lower` and Unicode's
-- NFKD and NFC, SHA-256, zipfile, the decoding of UTF-8, the parser of documents, the embedding
-- provider, the reranker, the vector store's answer `nearest` to a search, the client of Qdrant,
-- the storage backend, the model's reply `llm`, PostgreSQL's text search, the ids that new rows
-- get, and floats, of which an order is read. So are three calls of the repository's own code
-- that is not modelled: the intake of an artifact, the mean of chunk vectors, and what a
-- deletion drops of the engineering tables. No theorem says what they compute; where one needs
-- documented behaviour of them (an order of floats that are no NaN, a stream that gives
-- something before its end, a deletion in Qdrant that removes what matches), it is a named
-- hypothesis.
--
-- Loops and bounds. Loops over lists are structural. The loop of `read_upload_bounded` has
-- `max_bytes + 1` turns of fuel, and a decimal number `n` has `n + 1` turns for its digits,
-- since each turn takes a byte or a digit. Python's integers have no bound, and the model's
-- numbers have none.
--
-- Not modelled: logging and tracing, the foreign keys between the tables, the ids and times of
-- relation rows, the time stamp that an update of a document sets, the spool of an upload on
-- disk, the mean of chunk vectors (floating-point arithmetic), the intake of artifacts by the
-- adapters with the engineering tables, and the parts of the program that classify, and the
-- evaluation around its metrics; the HTTP routes, the clients of external services and the
-- settings are glue around the parts above.
pub mod Prelude
pub mod Errors
pub mod Models
pub mod Jobs
pub mod Floats
pub mod Relations
pub mod Pipeline
pub mod Database
pub mod Actions
pub mod Providers
pub mod VectorStore
pub mod Retrieval
pub mod Lexical
pub mod Qa
pub mod Normalization
pub mod World
pub mod Indexing
pub mod Profiling
pub mod Processing
pub mod Worker
pub mod Deletion
pub mod Reindexing
pub mod ZipUnpack
pub mod Uploads
pub mod Ingestion
pub mod Metrics
mod Tests
