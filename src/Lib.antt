-- ===== src/Lib.antt =====
-- A model of the backend of RepoPilot (backend/app), which imports GitHub repositories, indexes them,
-- and answers questions about them. Its hard part is durable background work: rows of the database are
-- queues, workers take rows up under leases, a dispatcher announces due rows to a message broker, and
-- users submit and cancel while that goes on.
--
-- How the parts interact. `POST` routes write rows of status queued. `dispatch_once` and
-- `dispatch_answers` fail the rows whose worker was lost, select due rows and send one message for
-- each; a message may be lost, repeated or late. A worker claims the row that a message names with one
-- conditional UPDATE that writes a new token, and every later write of that worker is conditional on
-- the token. Answer runs differ from jobs: they cost money, so a lost worker is not replaced, and each
-- change of status writes an event in the same transaction, from which clients are streamed.
--
-- Which file models which part:
--   * Prelude: numbers, Boolean tests, comparisons with a null column, lists, and results for `raise`.
--   * Sql: SELECT and UPDATE over a table as a list of rows, and keys.
--   * Jobs: backend/app/jobs/state.py, jobs/dispatcher.py, the writes to the job rows in
--     jobs/import_repository.py and jobs/index_repository.py, and the cancel and retry of
--     services/repository.py. Jobs/Model has the rows, Jobs/Lease the worker's statements,
--     Jobs/Dispatcher and Jobs/Control the others', and Jobs/System the steps of all of them, the
--     retry of a search preparation and the removal of a repository included.
--   * Repositories: `create`, `retry`, `cancel` and `remove` of services/repository.py with `owned` of
--     repositories/repository.py. The parser of URLs and the rate limiter are a record of functions.
--   * Indexes: `start` and `cancel` of services/index.py and the query of repositories/index.py.
--   * Runs: jobs/answer_run.py, jobs/answer_dispatcher.py, the update of jobs/answer_preview.py,
--     repositories/run_event.py, repositories/conversation.py (`owned`, `append_pair`), and `submit`,
--     `replay` and `cancel` of services/answer_runs.py. Runs/System has the steps; that conversations
--     are created, and removed with their runs, is none of them.
--   * Chunks: indexing/chunks.py, the whole of `chunk_source`: Chunks/Model has the loops over code
--     points, Chunks/Spans the regions and the spans.
--   * Search: `reserve` and `checkpoint` of jobs/prepare_search.py, `start` and `cancel` of
--     services/search_preparation.py, and the queries of repositories/search.py. Search/Steps has them
--     as steps of Jobs/System.
--   * Context: `bounded_history` and `retrieval_question` of generation/history.py, `build_context` and
--     `validate_citations` of generation/context.py. JSON and the tokenizer are a record of functions.
--   * Archive: indexing/archive.py: Archive/Paths has the tests on names, Archive/Model the bounded
--     reader, Archive/Reading the loop over the entries. tarfile, gzip and Python's strings are
--     parameters.
--   * Preparing: `run_preparation` of jobs/prepare_search.py, whose transactions meet the database as
--     the other processes have left it.
--   * Ranking: `fuse` of retrieval/ranking.py; Ranking/Floats has the rounding of its floating-point
--     numbers.
--   * Searching: services/search.py and retrieval/context.py. Calls/Model has the actions that it shares
--     with the answers: a value or an error, with a log of the calls that matter; Calls/Conduct is the
--     automaton over that log.
--   * Answers: services/answers.py in Answers/Model, generation/contracts.py in Answers/Contracts.
--   * Completions: `consume_stream` of generation/openai_stream.py over the events that `frames` yields.
--   * Accounts: services/auth.py and repositories/auth.py.
--   * Receipts: `begin` and `finish` of services/usage_receipts.py over the rows of
--     models/usage_receipt.py.
--   * Streams: `page` and `frames` of services/run_stream.py: what a client is sent, round by round.
--   * Limits: the Lua script of core/rate_limits.py and `check` of its Redis limiter. The commands of
--     Redis are a record of functions with the laws that Redis documents.
--
-- How state and operations correspond. One transaction is one function from the database, or from one
-- table, to the next. An UPDATE with RETURNING is `update_where` together with `select_where` over the
-- table as it was. An `AppError` is an error value with its code and status, and the function then
-- returns no database, as the source then commits nothing. Times are microseconds and UUIDs are
-- numbers; a new UUID is a parameter, with the hypothesis that it is new where that matters. Every
-- reading of a clock is a parameter of its own. Concurrency is the order of the steps: PostgreSQL's
-- row locks make each conditional UPDATE atomic.
--
-- Bounds and fuel. Loops over rows and over code points are structural recursion. Two loops of
-- `chunk_source` run on fuel: the chain of a symbol's parents, with as much as there are symbols, and
-- the chunks of a span, with its length. A parent comes before its members, and every chunk of a span
-- takes at least one code point, so that neither runs out. The loop that drains an archive
-- has one step more than bytes remain, and every step that goes on takes at least one byte.
-- Search documents are cut into batches of at most eight with the length of the list as fuel, and
-- every batch takes at least one document. The exponent of a floating-point number is sought up to
-- 1074, that of the least one; scores are above 1/2^60 and below 2^53.
--
-- What is not modelled: the HTTP routes and their schemas, password hashing, the clients of GitHub and
-- OpenAI, the ranking inside PostgreSQL, the evaluation scripts, logging, and costs as
-- decimals: they are whole numbers here. What `submit` asks of other services (search state, rate
-- limiter, history, SHA-256) is a parameter.
pub mod Prelude
pub mod Sql
pub mod Accounts
pub mod Answers
pub mod Archive
pub mod Calls
pub mod Chunks
pub mod Completions
pub mod Context
pub mod Indexes
pub mod Jobs
pub mod Limits
pub mod Preparing
pub mod Ranking
pub mod Receipts
pub mod Repositories
pub mod Runs
pub mod Search
pub mod Searching
pub mod Streams
