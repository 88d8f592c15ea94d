-- ===== src/Lib.antt =====
-- Universal data onboarder: the engine that takes a file of records into a tenant's models.
--
-- A file is parsed under the tenant's ceiling (core/parsing, core/guardrail), its rows are staged in
-- a job store (orchestration), mapped onto the fields of a registered target (registry,
-- core/mapping), validated (core/validation), and committed row by row (core/commit). Each part is a
-- function on the store or on the file, called one after the other by the job's status.
--
-- Files and source (paths from the repository's root):
--   Base        lists, texts as UTF-16 code units, insertion-ordered dictionaries, results.
--   Value       the JavaScript values that a cell can hold. A number or a time is the bits of a
--               double. What the language does with them (Number, Date, String) is an argument, the
--               record Host.
--   Sql         core/parsing/sqlDumpParser.js. Positions in the text are the text that is left.
--               Fuel: the length of the text, or of what is left of it, plus one.
--   Parsing     core/parsing/streamingParser.js, and detectSourceFormat of
--               orchestration/migrationImport.service.js. A stream is its list of events.
--   Guardrail   core/guardrail/tierPolicy.js and streamingGuardrail.js. The environment's variables
--               are an argument, as are the locale's formats.
--   Registry    registry/registerTarget.js, registry/importTargetRegistry.service.js.
--   Store       orchestration/adapters/inMemoryJobStore.js, the store of the tests and the one
--               implementation of the job store that the repository holds whole. A method is a
--               function from the store to the store. The update of a job is that of
--               adapters/mongooseJobStore.js, whose dotted keys set the counts inside the job; the
--               in-memory one leaves them. A copy is the value itself: that JSON makes a text of a
--               date is left out.
--   Mapping     core/mapping/applyMapping.js.
--   Import      orchestration/migrationImport.service.js, the upload of the shared tier, the begin
--               and the end of the dedicated tier's, and the listings.
--   Validation  core/validation/validateRows.js. What the database and the target answer to the
--               batched queries is an argument.
--   Commit      core/commit/commitBatch.js, core/commit/idempotency.js. A target's commitRow passes
--               on a world of its own, and is an argument, as is what an aborted transaction leaves.
--   Pipeline    worker/importPipeline.js, the steps of one job: Stage (the file, and its rows in chunks;
--               fuel: one unit for each row), Steps, and Sessions (the run of a session, with these
--               steps for each of its jobs). The adapter bag is empty, so all steps use the default
--               job store. The download and the calls of Mongoose are
--               arguments.
--   Paging      the pages of the listings of migrationImport.service.js and sessionManager.js.
--   Access      http/requireTarget.middleware.js.
--   Session     orchestration/dependencyGraph.js (Graph, Order), the session record and the collections
--               of adapters/mongoose/schemas/MigrationSession.model.js (Db), sessionManager.js (Manager,
--               References, ExternalIds), and the run of a session in worker/importPipeline.js (Run).
--               Kahn's algorithm runs on fuel, one unit for each vertex. The collections of MongoDB
--               are a record of operations with their documented laws.
--
-- Not modelled: the commit worker (worker/bullmqCommitWorker.js) and the aggregations of the
-- in-memory store; the HTTP routes, the Mongoose adapter, BullMQ, the storage and connection
-- adapters and the React wizard, which are calls of libraries; logging and the event bus; times of
-- updates. Asynchronous calls are made in the order of the code, one after the other: two requests
-- on one job at the same time are out of the model.
pub mod Base
pub mod Value
pub mod Registry
pub mod Sql
pub mod Parsing
pub mod Guardrail
pub mod Store
pub mod Mapping
pub mod Paging
pub mod Import
pub mod Validation
pub mod Commit
pub mod Session
pub mod Pipeline
pub mod Access
