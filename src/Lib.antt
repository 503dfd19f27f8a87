-- ===== src/Lib.antt =====
-- UMP: robots of several makers work on a shared plan through one protocol. A coordinator keeps a
-- plan and sends its steps as assignments; each robot decides by itself, from the leases that its
-- owner granted, whether an assignment is authorized, executes it at most once, and reports an
-- outcome. This library models the parts of src/ump that decide these things, and proves what
-- they promise.
--
-- The parts, and the files that model them:
-- * src/ump/models.py is Models. Each dataclass is a record, its `__post_init__` a function
--   `..._post_init` into a result type, and the constructor call a function `make_...` that gives
--   the record or the error. Models.Text has the text checks, Models.Json the JSON documents,
--   Models.Codec `payload` and the decoders of the stored documents.
-- * src/ump/authority.py is Authority. Authority.Store has `SqliteAuthorityStore`: `grant`,
--   `revoke`, `authorize` and the audit events. Authority.Listing has `read_authority_leases`,
--   and Authority.Reads `read_authority_lease`.
-- * src/ump/journal.py is Journal. Journal.Durable has `SqliteAssignmentJournal`: `claim`,
--   `complete`, `lookup`, `resolve_unknown`, `resolution`, and the recovery of a restart.
--   Journal.Memory has `MemoryAssignmentJournal`.
-- * src/ump/coordinator_store.py is Coordinator. Coordinator.Tables has its tables, statuses and
--   `_refresh_run_locked`; Coordinator.Store has the other operations of `CoordinatorStore`.
-- * src/ump/collaboration.py is in part Coordinator.Checks. It has `validate_plan`, with its search
--   for cycles in Checks.Visit. The search runs on fuel, one more than the steps of the plan.
-- * src/ump/transport.py is Transport: Envelope has `encode_envelope`, `decode_envelope` and
--   `make_envelope`, Bus the `InMemoryBus`.
-- * src/ump/delivery.py is Delivery: Outbox has `SqliteOutbox`, with `ready` and `metrics` in
--   Outbox.Ready.
-- * src/ump/runtime.py is Runtime: Participant has the assignment handler of `Participant`,
--   Participant.Execution the execution of an assignment and `publish_state`,
--   Participant.Direct both for a participant without executor,
--   Participant.Requests the handlers of queries and cancellations. A participant holds an
--   authority store and a journal and calls their operations; Participant.History has its life,
--   with restarts. Registry has what a coordinator knows of its peers, with `is_fresh` and
--   `missing_context`.
-- * Prelude has the notation and the lemmas that the parts share: Booleans, lists, integers,
--   results, transactions, and tables as lists of rows in rowid order.
--
-- How state is modelled. Each store is a record of its tables. A method takes the store and
-- returns its answer, a value or an error, with the store after it. A method runs under the
-- lock and inside BEGIN IMMEDIATE, so it is one step: `transaction` keeps the old store where the
-- method raises. What a process does over time is a list of calls (`Call`, `perform` and
-- `perform_all` of each History module), in any order, those that fail among them; a restart is a
-- call too. Every function but the
-- search of `validate_plan` is total by structural recursion, and needs no fuel.
--
-- What is abstracted. A row holds the document of a JSON text instead of the text: the texts are
-- written with sorted keys and fixed separators, and a dictionary is modelled with its keys in
-- that order, so that two texts are equal when their documents are. Numbers in documents are
-- integers. SHA-256 of the text of a document is the parameter `digest` of the journal. The
-- Boolean results of `isinstance` checks that the types of the model decide are left out. Python
-- integers are ℤ, with no bounds. The bytes of an envelope are their number and the document that
-- they parse to. The clock, the adapter and the JSON Schema validator are other code: what they
-- answer during one step of a participant is an argument of the step, an exception included. Its
-- executor is a list of the jobs that wait and a list of those whose adapter call is under way. A
-- participant without executor, the default, runs the job inside its handler: Participant.Direct
-- has that as one step, and the two lists have it with other steps between. Otherwise a handler is
-- one step: in the program the lock covers one send, so that other threads may send between two
-- sends of one handler, and the model gives the messages of the handler itself, in their order.
-- `bus.publish` is taken to return. The decoders of the model raise for a field of another JSON
-- type where a constructor of Python would take it: `tuple` of a text or an object, and a Boolean
-- as a time. The constant texts of acknowledgements and refusals are
-- the constructors of `Reason`.
--
-- What is not modelled: floating-point data (robot state, poses, batteries), capability
-- documents and manifests, opening and migrating database files, threads, sockets and processes,
-- `SqliteInbox` of delivery.py, `CommunicationWatchdog` and the handlers of `Registry` of
-- runtime.py, the class `Coordinator` of src/ump/collaboration.py, and the adapters to robots.
mod Prelude
pub mod Models
pub mod Authority
pub mod Journal
pub mod Coordinator
pub mod Transport
pub mod Delivery
pub mod Runtime
