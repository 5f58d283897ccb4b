-- ===== src/Lib.antt =====
-- The agent reliability runtime: durable runs, their leases and retries, and the outbox.
--
-- The program keeps all of its state in PostgreSQL. The API accepts a run with a row in the outbox; a
-- dispatcher publishes the outbox to a queue; a worker claims the run that a message names, executes
-- it under a lease, and reports the end of its attempt; a scheduler takes expired leases away and
-- queues due retries again. Each of these is one transaction over the same tables, so the model has
-- one record of tables and one function from tables to tables for a transaction, and the theorems
-- about the whole quantify over every order of transactions.
--
-- Files, and the code that they model (paths from the repository's root):
--   Prelude      shared names, tests on numbers, tables as lists, `Result` for calls that may raise
--   Json         JSON values as Python holds them
--   Domain       src/agent_runtime/domain: states.py (States), retry.py (Retry, with Bounds for proofs),
--                routing.py (Routing: Scores, Decisions; Ranking for proofs), policy.py and
--                `build_policy_snapshot` of retry.py (Policy, with Limits for proofs)
--   Store        src/agent_runtime/infrastructure/database/models.py: a record for each mapped class
--   Quotas       src/agent_runtime/infrastructure/database/quotas.py, with Budget and Total for proofs
--   Execution    src/agent_runtime/infrastructure/database/execution_service.py: Common (private methods),
--                Claim (`claim`), Finish (`complete_success`, `complete_failure`), Scheduler
--                (`recover_expired_leases`, `schedule_due_retries`); Frames, Summaries, Openings,
--                Batches and Orders for proofs
--   Runs         src/agent_runtime/infrastructure/database/run_service.py: `submit`, `get_run`; Replay
--                (`replay`, `submit_regression`), Evaluate (`evaluate`), History (`get_attempts`, `get_events`,
--                `get_evaluations`); Submission, Retried, Replayed, Replays, Evaluated, History/Pages
--                for proofs
--   Messaging    src/agent_runtime/infrastructure/messaging: Dispatch (dispatcher.py), Worker (worker.py),
--                the routing of publisher.py, Bodies (what a message carries and how the worker parses it),
--                Topology (the exchanges, queues and bindings that
--                publisher.py and worker.py declare), Traces (`sanitize_trace_context` of
--                src/agent_runtime/observability/telemetry.py); World for the broker's steps; Heard, Waiting,
--                Delivered, Sanitized for proofs
--   Audit        src/agent_runtime/security/audit_retention.py: the purge, with Batch and Purge for proofs,
--                and Command (`main`)
--   Evaluation   src/agent_runtime/evaluation: safety.py (Safety; Measures, Pushes, Visits, Traversal,
--                Rules for proofs), engine.py (Engine; Paths, Kinds, Outcomes for proofs), regression.py (Dataset,
--                with Laws for proofs; Regression: Summaries, Runner, and Payload for the JSON of a
--                report; Losses, Entries, Reports for proofs); Digits, Text and Equality for what Python's
--                texts and `==` do
--   Resources    src/agent_runtime/execution/resource_executor.py: Charging (the class `ChargedExecutor`),
--                Jobs (`execute`); Payments, Keeps, Charges, Transactions for proofs
--   Security     src/agent_runtime/security/envelope.py: Vault (what it uses of libraries, with their laws, and
--                its local key wrapper) and Envelope, with Candidates (`retention_candidates`); Keys, Live,
--                Sealing, Erasure for proofs
--   Lifecycle    the moves of one run, and what the operations of Execution do in terms of them
--   System       committed transactions in any order, and what they keep; Reports and Requeues say what
--                a worker's report and a pass over the due retries do to the rows
--   Scenario     one run on concrete tables, and the theorems applied to it
--
-- A function keeps the name of the method that it models; a method that is long is cut into functions
-- named for what they do. A transaction takes an `Env`: the clocks, the identifiers that `uuid4`
-- draws and the rows locked by others. A raise rolls back, so only `ok` carries new tables. Row and
-- advisory locks make transactions atomic; a model of one transaction at a time has them for nothing.
-- The unique constraint on keys is not assumed but proved; the primary keys are assumed where a row
-- is inserted or updated by its key.
--
-- Loops are over lists or over a count that the code gives (`batch_size`). Only the loop of the audit
-- purge runs on fuel; a unit for each expired row and one more is proved enough.
-- Times are microseconds since the start of 1970, up to the end of the year 9999, past which the time of
-- a retry raises `OverflowError`. Where a failed attempt is written, `latency_ms` must fit its 32-bit
-- column and `error_code` its 64 characters, or the transaction raises; other values that PostgreSQL's
-- columns refuse are outside the model. An integer too large for a float is refused with
-- `OverflowError`.
-- Durations are whole microseconds, the resolution of `timedelta`, and JSON floats are millionths.
-- Rates, scores and percentages are decimals that are rounded half to even, where the code has binary
-- fractions: a comparison of two numbers that differ by less than the last place may come out the
-- other way. A text holds Unicode scalar values.
-- SHA-256 over the sorted JSON text, the text of an identifier and its parsing, the publisher's
-- confirmation, the worker's executor, the reading of a message's bytes as JSON, the calls of
-- jsonschema, the names of exception classes, the digits of numbers in a routing reason, the cipher
-- and codecs of encrypted data, and what happens around a charged job are parameters.
--
-- Not modelled: the rate limiter, authentication and credentials, the HTTP layer, the client SDK,
-- settings and process loops; providers, the command lines of evaluation and data retention,
-- migrations, metrics, spans and logs. None of them decides on the rows of a run, its attempts or its
-- outbox: they call the services above, or libraries.
pub mod Prelude
pub mod Json
pub mod Domain
pub mod Store
pub mod Quotas
pub mod Execution
pub mod Runs
pub mod Lifecycle
pub mod System
pub mod Security
pub mod Scenario
pub mod Messaging
pub mod Audit
pub mod Evaluation
pub mod Resources
