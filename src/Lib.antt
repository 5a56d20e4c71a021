-- ===== src/Lib.antt =====
-- A model of the ingestion pipeline of the DocMind backend, and what holds of it.
--
-- An upload stores a file, adds a row to `documents` and a first row to `processing_jobs`, and puts
-- a task into the queue of arq. A worker takes a task and runs its stage; a stage that succeeds adds
-- the job of the next stage and its task, and the last stage marks the document as indexed. Two cron
-- jobs repair what crashes leave behind. The parts and the files that model them:
--
--   Model         backend/app/models and backend/app/core/exceptions.py: enums, rows, errors
--   Repositories  backend/app/db/repositories: the queries and writes, as functions on the rows
--   Ingester      backend/app/rag/ingestion.py: `start_stage`, `fail_stage`, `complete_stage`,
--                 `record_attempt`. Machine is the abstract state machine, Starts and Refinement relate the
--                 methods to it, Invariant and Frozen say what its steps keep
--   Worker        backend/app/workers/tasks.py: `run_stage` with its four transactions
--   Stages        backend/app/workers/tasks.py: the bodies of the five stages with the artifacts
--                 that they leave in the storage, and the tasks
--   Embedding     backend/app/core/decorator.py, backend/app/rag/embed/embed.py and
--                 `Ingester.embed`: the batches of texts and their retries
--   Storage       backend/app/services/storage/keys.py: cache keys; the protocol of a backend;
--                 backend/app/services/storage/mime.py: the types of files (Signatures, Mime, Detection);
--                 backend/app/services/storage/base.py: the validation of keys (Validation,
--                 Matched, Accepted, Spaced, Confined); backend/app/services/storage/local.py: uploads
--                 and the other operations on files (Local, Files), and what they leave and give
--                 back (Streaming, Uploads, Failures, Downloads)
--   Account       backend/app/core/auth.py (Tokens), backend/app/models/user.py and the schemas
--                 (Types), backend/app/db/repositories/user_repo.py and
--                 backend/app/services/user_service.py (Users), backend/app/api/v1/auth.py and the
--                 current user of backend/app/core/deps.py (Requests). Laws says what is asked of
--                 the libraries
--   Service       backend/app/services/document_service.py, and the upload and reprocess handlers of
--                 backend/app/api/v1/documents.py
--   Sweeper       backend/app/workers/sweeper.py: `sweep_orphans` and `sweep_pipeline`
--   Splitter      backend/app/rag/chunk/splitter.py: `fit` and `split`, over a tokenizer
--   Retrieval     backend/app/rag/retrieval: `retrieve` with its searches (Search), fusion and
--                 selection (Ranking), rerank and order of steps (Retrieve), `build_passages`
--                 (Passages) and `render_context` (Context). Readable, Origins, Tenancy and Isolation follow what a user may read
--                 through these steps
--   Evaluation    backend/app/rag/evaluation/metrics.py (Metrics, Ranks), dataset.py (Dataset) and runner.py
--                 (Runner): the retrieval that records its stages, and the run over the cases.
--                 Instrumented compares it with `retrieve`, Cases says what a run returns, and
--                 Stages what it records
--   Examples      concrete inputs; Base: shared helpers
--
-- State is passed explicitly. A repository method is a `Session`: it takes the rows and returns or
-- raises, with the rows as the session then sees them. A transaction commits what a session did, or
-- rolls it back when it raises, and is atomic. A `World` is the rows, the objects of the storage and
-- the queue. Between two transactions of a worker or of the sweeper other processes may change the
-- world: they are arbitrary functions, and a theorem names what it asks of them. The body of a stage
-- is such a parameter of `run_stage`; the five bodies of the program are functions that it is given.
--
-- A UUID is a number, an instant a number of seconds, an entry of a vector the number of its bits,
-- and an error text the list of the parts of the f-string. The clock, the ids of new rows, the
-- answers of redis, the storage backend of the pipeline, the digest of the cache keys, `uuid.UUID` and the
-- test of the sweeper for pipeline keys are parameters. So are docling with the cleaner and the chunker, gzip
-- and JSON texts, libmagic, PyJWT, bcrypt, the embedding client, the reranker, the order in which Postgres finds rows, and
-- the arithmetic of scores. Loops run over lists, but for these: `fit` counts down; the loop of
-- `split` has the number of tokens as its fuel, which is enough since each round moves on by at
-- least one token; the cut into batches has the number of texts as its fuel, which is enough since a
-- batch is not empty, and so has the reading of a file the number of its bytes; the attempts of a call and the loop of `mmr_select` count down.
--
-- Not modelled: log calls, `updated_at`, the ORM relationships, the chunking by docling, the SQL
-- of full-text queries, the files and the reports of an evaluation, the storage on S3, conversations
-- with their messages and citations, folders and errors of the operating system, and the glue of
-- the API.
pub mod Base
pub mod Model
pub mod Repositories
pub mod Ingester
pub mod Worker
pub mod Storage
pub mod Service
pub mod Stages
pub mod Embedding
pub mod Sweeper
pub mod Splitter
pub mod Retrieval
pub mod Evaluation
pub mod Account
pub mod Examples
