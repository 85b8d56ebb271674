-- ===== src/Lib.antt =====
-- Verification library of TEJUN, a desktop program in which an agent runs the checks of a project and
-- a procedure is written from what it found. The Go code stands under internal/. This library models
-- the parts that decide what happens to a run and to what comes of it: the repository of execution jobs
-- with its receipts and outbox, the runner that drives it, the answers to the agent's permission
-- requests, the procedures with their revisions, the projects, and the rules of internal/domain.
--
-- How the parts interact. A client's request reaches ExecutionRunner (internal/application/
-- execution_run.go), which writes it to the database through ExecutionRepository (internal/adapter/
-- sqlite/execution_run.go): a job is queued together with its run, its receipt and an event. The
-- worker's loop calls RunOne, which claims the oldest queued job, runs its checks one by one with the
-- agent, and completes the job; a cancellation marks a running job and stops the agent; a start-up ends
-- the jobs that a dead process left. Each call is one SQLite transaction, and other requests come
-- between two calls.
--
-- Which file models which part:
-- - Prelude, Prelude/*: names of the libraries, Boolean tests on numbers, texts, sets of texts.
-- - Shared: internal/domain/shared/error.go, and the errors of the driver.
-- - Sql/Tx, Sql/Table, Sql/Table/*, Sql/Keeps, Sql/Yields, Sql/Commit: a transaction is a function
--   from a state to a result; a failure rolls everything back (`commit`), as the deferred Rollback
--   does. UPDATE, DELETE, SELECT and INSERT are functions on lists of rows. `Keeps R m` says that a
--   successful run of m relates the states before and after by R, and keeps_rules are its rules for
--   search; `Yields` says the same of its result. Table/Along relates two tables row by row, Table/Keys
--   is a PRIMARY KEY, Table/Sorted is about an ORDER BY.
-- - Database, Database/*: the tables as one record, columns with a CHECK as data types, times with
--   their RFC3339Nano text.
-- - Mutation, Mutation/Receipts: existingResult, saveMutation, insertOutbox, requestHash (internal/
--   adapter/sqlite/agent_connection.go and execution.go), sequence and mutation (preparation.go).
-- - Execution/Statements, Accept, Claim, Checks, Complete, Cancel, Recover: the methods of
--   ExecutionRepository, AcceptExecutionJob as accept_execution_job and so on; the body of a method is
--   the definition that ends in _tx, and one with _new is its branch without a receipt.
-- - Execution/Snapshot, Generate, Generate/*: readExecution as far as the domain's rules read it, and
--   GenerateProcedureDraft as generate_procedure_draft (internal/adapter/sqlite/execution.go).
-- - Execution/Operations: the methods as requests and histories of them; Operations/Kept proves once
--   that what the primitive writes keep every transaction keeps, Operations/Sides gives two ways to fill
--   its interface `Writes`.
-- - Execution/Replay, Replay/*, Execution/Outbox, Execution/Lifecycle, Lifecycle/*: what histories keep;
--   Lifecycle/Oldest: the order of the queue, by Sql/Table/Order and Prelude/Order.
-- - Runner/Turn, Clients, Ended: ExecutionRunner, RunOne as run_one, and its other methods.
-- - Permission/Claims, Answers, Spent, Once, Respond: the answers to an agent's permission requests
--   (internal/adapter/sqlite/execution_permission.go and internal/application/execution_permission.go),
--   ClaimPermission as claim_permission, Respond as respond.
-- - Procedure/Codec, Statements, Draft, Complete: SaveProcedureDraft as save_procedure_draft and
--   CompleteProcedure as complete_procedure (internal/adapter/sqlite/procedure.go), with
--   validProcedureDocumentText, procedureImages and procedureEvidenceIDs. CompleteProcedure reads the
--   database twice before its transaction: `first` and `seen` are the states at those reads.
-- - Procedure/Revision/Accept, Claim, Finish, Recover, Cancel: procedure_revision.go, the queue of the
--   revisions of a draft that an agent writes; Outcomes and Adopts say what becomes of an answer.
-- - Procedure/Operations: these methods as requests, histories of them, and their relations, as in
--   Execution/Operations; Versions, Pending, Sound, Replay: what histories keep.
-- - Project/Create, Archive, Links, Delete: CreateProject as create_project, DuplicateProject and
--   CreateRevision as copy_project, ArchiveProject and DeleteProject (internal/adapter/sqlite/
--   project.go). A DELETE fails when a foreign key refers to a row that it selects (`delete_rows`);
--   Stuck, Spares, Inserts and Copies are about what these leave.
-- - Domain/*: internal/domain/execution, procedure, project and agentconnection. Trace: safeID.
-- - Execution/Tests, Permission/Tests, Procedure/Tests, Project/Tests, Domain/Tests, Runner/Tests:
--   concrete runs and the examples of the results.
--
-- What is a parameter. sha256 and the digest of an input's JSON text are functions about which nothing
-- is supposed. The executor, the clock, the ids and the requests of other clients are the fields of
-- World in Runner/Turn and Wire in Permission/Respond, the functions of encoding/json are the fields of
-- Json in Procedure/Codec, and EvidenceFiles.Verify is a Verifier in Procedure/Complete; nothing is
-- supposed about them either. No fuel is
-- used: the loops are over lists.
--
-- What is not modelled. Failures of the disk and of the driver other than a violated key or a missing
-- row, cancelled contexts, the overflow of 64-bit counters, and the encoding of results as JSON (a
-- receipt keeps the value; the column expires_at keeps the time). Foreign keys are tested where an
-- execution is named and where DeleteProject deletes. Invalid UTF-8 does not occur in a text.
-- event_data has the branches procedure.updated, project.deleted, project.changed and the default one.
-- The events of other components, the views, preparations, sessions of projects, evidence files, the
-- agent's process, the export and the desktop services are not modelled.
pub mod Prelude
pub mod Shared
pub mod Sql
pub mod Database
pub mod Mutation
pub mod Execution
pub mod Domain
pub mod Runner
pub mod Trace
pub mod Permission
pub mod Procedure
pub mod Project
