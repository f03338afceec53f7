-- ===== src/Lib.antt =====
-- The durable queues of Vector Lake and the loops that serve them, and what keeps them correct.
--
-- Vector Lake keeps its work in two SQLite tables. `jobs` holds the ingest work: a scan enqueues a
-- job for a source, a dispatcher claims it, it is handed to a subagent, which leases it and either
-- finalizes it or reports a failure. `mutation_outbox` holds the changes of pages that were
-- committed and are to be projected to files: a commit enqueues an intent for a page, the daemon
-- claims it, projects it, and completes it or reports a failure. Both are read and written by
-- several processes; a lease that is bounded in time, a token and a generation decide whose write
-- counts. Each public function runs in one transaction, which is one step of the model.
--
-- A batch of page mutations goes through the coordinator: it resolves and validates the pages, takes
-- their locks in a fixed order, changes the canonical tables and enqueues the intents in one
-- transaction, and then projects each page to its file or leaves that to the daemon. The daemon
-- supervises its loop threads, and the runner supervises the daemon's process. Threads that embed
-- pages share the clients of a provider and the requests of a minute. Candidates of a search in the
-- memories come from an index of the grams of a document.
--
-- Files. Prelude: tests, lists, the SQL statements over a table that is a list of rows, tables with
-- a primary key, results.
-- Jobs.Row, Jobs.Queue, Jobs.Lease, Jobs.Lease.Checks, Jobs.Failure, Jobs.Ledger:
-- vector_lake/db_store.py, the functions on `jobs`, `processed_files` and
-- `ingest_abandoned_sources`, under their own names; an UPDATE is a function `…_row` on the row that
-- it changes, a WHERE is a Boolean test `is_…`. Jobs.Callers: the statements on `jobs` of
-- vector_lake/controlled_recompile.py, vector_lake/tool_ingest.py and reset_jobs.py. Jobs.History:
-- steps of the job table, and what holds in every history.
-- Outbox, Outbox.Enqueue, Outbox.Writes: vector_lake/db_store.py, the functions on `mutation_outbox`.
-- Outbox.Latest, Outbox.Claims, Outbox.Pages, Outbox.History: proofs on them. Outbox.Retention:
-- vector_lake/outbox_retention.py.
-- Coordinator, Coordinator.Locks, .Prepare, .Commit, .Projection, .Batch:
-- vector_lake/mutation_coordinator.py, with `enqueue_mutations_batch` of vector_lake/db_store.py and
-- `atomic_write_text` of vector_lake/wiki_utils.py. The records Paths (pathlib), Validators (the
-- checks of a page), Canonical (the operations on the canonical tables that the coordinator calls)
-- and Surroundings (all that a batch meets) are its parameters; their laws stand where they are
-- used. Its files are a function from paths to texts.
-- Mirror, Mirror.Queue, Mirror.Select, Mirror.Writers: vector_lake/db_store.py, the control row and
-- the queue with which the Tantivy index follows the full-text table, and the writers of that table;
-- Mirror.Ack and Mirror.History: proofs on them.
-- Threads: vector_lake/thread_supervision.py, the registry of the daemon's loop threads;
-- Threads.Budget and Threads.Reporting: proofs on it.
-- Runner, Runner.Loop: vector_lake/runner_supervision.py, `runner_supervisor_loop` as a function from
-- what its rounds meet to the actions that it takes; Runner.Delays, Ladder, Children and Stopping:
-- proofs on it.
-- Embeddings: vector_lake/embedding_scheduler.py, `_batch_items` and one round of
-- `MinuteRateLimiter.reserve`; Embeddings.Clients: `_ClientManager`, one function for each block under
-- its condition, and Embeddings.Clients.History: the runs of these blocks.
-- Grams, Grams.Postings: vector_lake/memory_gram_index.py, the grams of a document and the packed
-- posting lists, with `_memory_relevance` of vector_lake/governance_store.py.
-- Backups: vector_lake/backup_retention.py, the plan over the entries of a scan.
-- The child modules of Embeddings, Grams and Backups hold the proofs.
-- The modules Examples: the theorems at small inputs.
--
-- Representation. A text that the code only stores and compares is a number, 0 for the empty text; a
-- message that the code cuts or extends is a list of character codes. A time is a number of
-- microseconds: the ISO texts of UTC times that the code compares are in the order of the times, and
-- julianday() is taken as exact. Uuids, secrets and readings of the clock are arguments, one for each
-- reading. Numbers that the code clamps from below are natural numbers. A raised exception aborts
-- the transaction, which is the `err` of a result: the table stays as it was. The standard library's
-- json and hashlib, float() and SQL LENGTH are parameters, and so is the check of a controlled
-- recompile, which reads files. A JSON null and a missing key are not told apart. Loops run over
-- lists, by structural recursion; there is no fuel: the loop of the runner goes over the rounds that
-- it meets, and a theorem about it is one about every list of rounds.
--
-- Not modelled: the canonical tables behind the coordinator, the status line of an adopted
-- supervisor, the rebuild of the gram index and the longer query terms, the requests and the
-- backfill of embeddings, the files of backups and their verification, the connection, locks and
-- schema of the database, the other tables, the parsing of wiki files, the model calls of the ingest,
-- search and ranking, the servers and command line, and the native extension.
pub mod Prelude
pub mod Jobs
pub mod Outbox
pub mod Coordinator
pub mod Mirror
pub mod Threads
pub mod Runner
pub mod Embeddings
pub mod Grams
pub mod Backups
