-- ===== src/Lib.antt =====
-- The conversation service: a FastAPI service that keeps conversations in Cassandra, preferences
-- and notes in PostgreSQL, caches and timeouts in Redis, and exchanges events with an LLM service over Kafka.
--
-- A user's message is accepted by MessageService.send (app/services/message_service.py): it opens a
-- placeholder row for the reply, registers a timeout for it, and writes the message together with a
-- request event in one logged batch (app/repositories/message_repository.py). The outbox worker
-- (app/workers/outbox_worker.py) publishes the events; the LLM service answers with events that
-- app/events/consumers.py handles: each is deduplicated by the inbox, ends the turn through the message
-- service, and is streamed to the clients (app/services/stream_service.py). A worker
-- (app/workers/pending_timeout_worker.py) fails the turns that got no answer. Beside this stand the
-- tree of a user's conversations (app/services/hierarchy_service.py), the validation of the sources of
-- an answer (app/services/citations.py) and the idempotency keys of the API
-- (app/services/idempotency_service.py).
--
-- The files:
-- Model, State: the entities of app/models, the Cassandra tables and the Redis keys as one record
-- `World`, and `Env`, which says what the clock shows and which outside calls raise during an
-- operation. Uuids are numbers, a text is the list of its code points.
-- Errors: a method is a function from a state to a result and a state, so what was written before an
-- exception stays written; Errors/Ensures says what a method ensures on a return and on a raise.
-- Helpers: uuidv7 and uuidv7_after (app/utils/helpers.py).
-- Citations: sanitize_citations and its helpers, over a data type of JSON values. The byte size of a
-- list's JSON is a parameter.
-- Messages: one function per method of CassandraMessageRepository; Messages/Table is the partition
-- with its upserts, Messages/Effects what each statement leaves.
-- MessageService: MessageService.history and the cache of messages; its children Pending (placeholders
-- and markers), Send (send and regenerate), Finish (finalize, fail, attach_summary, delete). The
-- preferences service and the branch context service are functions handed in as `Services`.
-- Inbox, Stream, Consumers: the handlers of the chat.response events. `uuid5` is a parameter.
-- Timeout: process_expired_pending. Outbox: process_bucket of both outbox workers; which publish calls
-- and which updates succeed are parameters. Leases: the bucket leases of the outbox worker.
-- Ownership: the ownership keys of the stream service. Idempotency: the service of that name.
-- Hierarchy: build_hierarchy, root_of, subtree, depth_of and scope_ids.
-- Artifacts: the registry of diagrams and animations (app/artifacts/service.py): Table has the
-- statements that change one row, Adoption and Lifecycle the steps of a render, Worker the passes over
-- the active artifacts, Registration the requests, Backend the reading of the answers of llm-service
-- (app/artifacts/render_backend.py) and Media the validation of a video (app/artifacts/media.py). Other
-- workers may commit between any two calls (`Host.others`). Moves and its children show that every
-- write is a move of the lifecycle; Safety, Evolution, Refinement and Claims draw the conclusions.
-- Conversations: the two tables of conversations and their batches, with the methods in
-- Conversations/Repository (app/repositories/conversation_repository.py); Conversations/Catalog is the invariant on them,
-- Conversations/Service the service (app/services/conversation_service.py) with the cached
-- conversations, and its child History the operations in any order.
-- Branches: the context that a branch inherits (app/services/branch_context_service.py); its child
-- Documents lists the documents. What it reads of conversations and messages is handed in.
-- Notes: the save of notes by version (app/repositories/notes_repository.py), which Notes/Register
-- compares with a register of texts. SourceEdits: the edits of code blocks
-- (app/repositories/source_edit_repository.py). Others may commit between the two statements of an
-- operation, and between the count that an insert is made on and its write. CustomModes: the references and the
-- bodies of app/models/custom_modes.py (Fields), the table of app/repositories/pg_repositories.py
-- (Repository) and app/services/custom_mode_service.py (Service); in Limits a creation counts and
-- writes in two steps, between which other requests run. Preferences: app/models/preferences.py with
-- the body of a PATCH (Patch), its table (Rows) and app/services/preferences_service.py (Service,
-- Resolve). Others may commit before each load and each save of an update. Resolve answers in the form
-- that MessageService takes. Modes, Cleaning and Tools show what validation leaves, Stored that a saved
-- document reads back, Update what an update does. `str.lower`, `str.isprintable`, NFKC, case folding
-- and the answer of the mode catalog are parameters.
-- Tests: the theorems at concrete inputs.
--
-- Fuel: root_of and depth_of get one round for each node and subtree one for the root and for each
-- child of a node, which is enough for any catalog, cycles included. The walk over the boxes of a
-- video gets one round for each byte and one more, which is enough: running out of it is a result
-- apart from that of an invalid video. The walk to the ancestors of a branch counts down from 25, the
-- limit of the source.
--
-- Failures: an Env says which kinds of call raise during one operation, so two calls of one kind in one
-- operation raise alike; each operation, each event and each entry of a timeout scan meets its own. The
-- artifact registry and the outbox decide each call on its own.
--
-- Not modelled: write timestamps and time-to-live of Cassandra and Redis other than the expiry of a
-- timeout marker, the trimming of the replay log, interleaving inside one operation (the artifact
-- registry, notes, source edits, the creation of a custom mode and the update of preferences are the
-- exceptions), the pages of a list of custom modes, logging, and the parts of the service that
-- app/api, app/exports, app/security, app/db and app/core hold.
pub mod Prelude
pub mod Model
pub mod Text
pub mod Strings
pub mod Errors
pub mod State
pub mod Helpers
pub mod Citations
pub mod Hierarchy
pub mod Messages
pub mod MessageService
pub mod Stream
pub mod Inbox
pub mod Consumers
pub mod Timeout
pub mod Outbox
pub mod Idempotency
pub mod Leases
pub mod Ownership
pub mod Conversations
pub mod Branches
pub mod Notes
pub mod SourceEdits
pub mod CustomModes
pub mod Preferences
pub mod Artifacts
pub mod Tests
