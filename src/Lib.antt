-- ===== src/Lib.antt =====
-- Document intelligence: the state machines and values that carry a document from its upload to
-- its result.
--
-- The program takes uploads and has them inspected, keeps a job for each accepted document, has
-- workers recognise its pages, and stores a result. Its parts, and how they interact:
--
--   * crates/ocr-domain holds the values and the rules. src/lib.rs has the errors, the lifecycle
--     of a job, the identifiers and the result of a document; src/page_workflow.rs keeps the
--     pages of a job, hands them out as tasks and takes the reports of workers.
--   * crates/ocr-store keeps uploads, jobs, page workflows, results and an outbox of events in a
--     relational database. Each of its functions is one transaction.
--   * crates/ocr-temporal drives a job. A workflow calls activities until the document is done
--     and continues as a new run before its history grows too long. The page runner of
--     crates/ocr-service claims tasks from the stored page workflow inside such an activity. The
--     dispatcher of src/work_scope_dispatcher.rs goes over the tenants that have work, imports
--     their uploads and has the relay of crates/ocr-service/src/outbox_relay.rs start a page
--     workflow for each event in the outbox.
--   * crates/ocr-engine recognises images, crates/ocr-eval measures the recognition.
--
-- The files of this library:
--
--   * Base: the names that the other files share. Base/Lists, Base/Words, Base/Results,
--     Base/Sorting, Base/Text and Base/Text/Decimal have lists by position, machine-width
--     arithmetic on the natural numbers, results with errors, stable sorting, strings as lists
--     of code points with their UTF-8 bytes, and decimal notation.
--   * Domain: crates/ocr-domain/src/lib.rs. Domain/Errors has JobState and Error;
--     Domain/JobLifecycle has JobLifecycle with try_from, new, transition_to,
--     request_cancellation and is_allowed_transition, and its child Runs the sequences of
--     changes; Domain/Ids has every validated string, also those of src/semantic_memory.rs.
--     Domain/Geometry has numbers of type f64 as their bits, confidence, page numbers and sizes,
--     points and polygons; Domain/Pages text observations and DocumentPage; Domain/Documents
--     extracted values, tables, provenance and cost; Domain/Results DocumentResult with its
--     stored form; Domain/SemanticMemory the rest of src/semantic_memory.rs. Their children Laws,
--     Order, Parts and Made are about what the constructors accept and what they make.
--   * PageWorkflow: crates/ocr-domain/src/page_workflow.rs. PageWorkflow.antt has every
--     operation under its name in the source. Its children are about the active task (Active),
--     the invariant and the stored form (Invariant), sequences of operations (Runs), the loop of
--     a claim (Claims) and a whole claim (Granted), the activity keys (Keys), the three reports
--     (Records), and the progress that sequences of operations make (Progress).
--   * Store: crates/ocr-store/src/lib.rs. Store/Values has the requests, the stored values and the
--     outcomes, Store/Validation and Store/Artifacts the checks of them, Store/Tables the tables
--     that migrations/ creates, Store/Transactions the shape of a transaction. The operations of
--     PgJobStore have their names in the source: those on uploads in Store/Uploads, on jobs and
--     results in Store/Jobs and Store/Jobs/Results, on page workflows in Store/PageWorkflows, on
--     the outbox in Store/Outbox and Store/Outbox/Webhooks, those that read the source of a job
--     in Store/Jobs/Sources. Store/WorkScopes has the functions of
--     migrations/0015_work_scope_leases.sql that they call, and release of PgWorkScopeDirectory;
--     Store/WorkScopes/Claims its claim, and list_reconcilable_uploads.
--     Store/Geometries and Store/Artifacts/Batches are about the checks. The others are about
--     sequences of calls by any number of processes: Store/Uploads/Calls with its neighbours
--     Invariant and Leases on uploads; Store/Lifecycle on jobs, with children for what one call
--     does (Steps), the lifecycle of the domain (Refinement), jobs and results together
--     (Results), a committed result (Committed) and a repeated request (Repeated);
--     Store/PageWorkflows/Revisions and Saves on page workflows; Store/Outbox/Deliveries, Kept
--     and Leases on events.
--   * Eval: crates/ocr-eval/src/lib.rs. Eval.antt has the limits, evaluate_text and the
--     aggregation, Eval/Levenshtein the table of levenshtein; Eval/Scripts defines edit scripts,
--     Eval/Laws relates the table to them, Eval/Bounds is about the sums, and Eval/Limits about
--     the limits.
--   * Service: crates/ocr-service. Service/PageRunner has src/page_runner.rs: the match on one
--     outcome and the loop over them are record_outcome and record_outcomes, and run_once is cut
--     at its calls of the store into run_loaded, claim_step, process_step, record_step and
--     finish. Its children are about the loop (Outcomes), the tasks of one claim (Rounds), the
--     errors of a whole round (Errors), and a round on the store of this library (Stored).
--     Service/OutboxRelay has relay_scope of src/outbox_relay.rs, with relay_events for its loop;
--     Starter has DurableWorkflowStarter, Runs is about a whole run and Redelivery about an event
--     that is dispatched again. Service/Digest has src/digest.rs.
--   * Temporal: crates/ocr-temporal. Of src/lib.rs, Temporal/Activities has the options and the
--     errors of activities. Temporal/Pages has WorkflowInput, WorkflowRunInput, WorkflowPlan and
--     OcrDocumentWorkflow::run, Temporal/Durable has DurableActivityInput,
--     DurableWorkflowRunInput and DurableDocumentWorkflow::run; their children follow the chain
--     of runs that continue_as_new makes. Temporal/WorkScopeDispatcher has
--     src/work_scope_dispatcher.rs, where dispatch_scopes is the loop of dispatch_once, and its
--     child Rounds is about that loop.
--
-- State and operations. A method on `&mut self` is a function that returns the new value beside
-- its result. An early return is a branch of an `if` or an `elim`, and `?` on a result is the
-- same written out. Integers are natural numbers: checked and saturating operations of
-- Base/Words take the largest value of their type first, and subtraction is used where the
-- source cannot pass below zero. The `usize` of the source has 64 bits.
--
-- The database. A table is a list of rows with the columns that the program reads, and a
-- transaction is a function from the tables to the tables and a result: the row locks and the
-- isolation of the database make it one step, and a transaction that returns an error leaves the
-- tables as they were. `found`, `branch`, `validated`, `decoded` and `commit` of
-- Store/Transactions are the match on a selected row, a test, a check of the arguments, a decoded
-- row and the end of a transaction. The time of a transaction, `now()`, is an argument, in
-- microseconds; no order of these times is assumed. Primary keys and the unique constraints that
-- an insert can meet are modelled, the checks of columns and the foreign keys are not: the model
-- accepts what a check might refuse. A checkpoint is kept as the workflow and not as its JSON
-- text, whose length, as written and as read back, is a parameter, and so is the collation that
-- orders texts. Event payloads are left out,
-- since nothing reads them.
--
-- Loops. The loops over ranges and lists are structural recursion. A chain of runs recurs on
-- fuel, 20 runs for the workflow over pages and 60 for the checkpointed one: 1000 pages in runs
-- of 50, and 3000 rounds in runs of 50, so the fuel covers every document.
--
-- Parameters. The activities of a workflow are functions that return a status, a failure or
-- nothing, as Temporal hands them back after its retries. The store of the page runner is a
-- record of two calls over a state, and the concurrent processing of the pages of a batch is one
-- function that returns the outcomes in the order of their completion; Reliable of
-- Service/PageRunner/Errors names what is assumed of them, and Service/PageRunner/Stored has the
-- relational store in their place. The relay and the dispatcher are over records of the calls
-- that they make, whose state other processes may change between two calls. The rounded sum and
-- product of two numbers of type f64, which the area of a polygon needs, and the JSON values of
-- extracted fields are parameters too, and so are the Unicode normalization and the division of
-- counts that the evaluation uses, the SHA-256 digest, and the notation of a UUID that names a
-- point of the vector index. Nothing is assumed of them but what a theorem names.
--
-- Not modelled: the SDK of Temporal, serde (the wire forms are the records, and the checks after
-- decoding are modelled), failures of the database itself, HTTP, object storage, the images and
-- the recognition models, and src/native_pages.rs of the store.
pub mod Base
pub mod Domain
pub mod Eval
pub mod PageWorkflow
pub mod Service
pub mod Store
pub mod Temporal
