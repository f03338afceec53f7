-- ===== src/Coordinator/Batch.antt =====
-- vector_lake/mutation_coordinator.py, `execute_mutation_batch` as a whole.
pub mod Truth
use vector_lake.Prelude.{
  ℕ, Bool, true, false, not, Option, none, some, List, [], ◌∷◌, ◌++◌, map, ◌==◌, if◌then◌else◌,
}
use vector_lake.Prelude.Result.{Result, ok, err, ◌>>=◌, ◌>>◌, require}
use vector_lake.Outbox.{Intent, MutationType, ValidationMode, full, is_delete}
use vector_lake.Coordinator.{
  MutationError, runtime_error, Paths, Files, Validators, Canonical, Expected, unversioned, Request,
  Prepared,
}
use vector_lake.Coordinator.Locks.{projection_locks}
use vector_lake.Coordinator.Prepare.{prepare_mutations}
use vector_lake.Coordinator.Commit.{Db, Hook, version_text, prepare_change_sets, commit}
use vector_lake.Coordinator.Projection.{Target, materialize_markdown_projection}

-- What a batch meets outside the database and the files: names, validators, hashing, the file locks
-- and those that the thread holds, the health check of the runtime, new ids and the clock.
pub record Surroundings : Type 0 where
  pub paths : Paths
  pub waited : Paths
  pub validators : Validators
  pub sha256 : MutationType → ℕ → ℕ → Expected → ValidationMode → ℕ
  pub is_source_metadata : ℕ → Bool
  pub in_time : ℕ → Bool
  pub held : List ℕ
  pub enforce_runtime_write_health : ValidationMode → Result MutationError (Unit {0})
  pub draw : List Intent → ℕ
  pub times : ℕ → ℕ
  pub published_at : ℕ
  pub now : ℕ

-- The sources of the updates are checked again, with the locks held.
unfoldable pub recheck_sources :
    Validators → Files → List Prepared → Result MutationError (Unit {0})
recheck_sources validators files [] = ok tt
recheck_sources validators files (p ∷ ps) = do
  if is_delete p.mutation_type then ok tt else elim p.content [
    | none ↦ ok tt
    | some content ↦ validators.check_placeholder_sources content (files p.filename)
  ]
  recheck_sources validators files ps

abbrev pub target_of : ValidationMode → Prepared → ℕ → Target
target_of mode p i = record {
  outbox_id = i;
  filename = p.filename;
  mutation_type = p.mutation_type;
  payload_text = p.content;
  validation_mode = mode;
  claim = none;
}

-- `except Exception`: the page is deferred, and its file stays.
abbrev pub or_deferred : ℕ → Files → Result MutationError Files → List ℕ × Files
or_deferred f files (err raised) = (f ∷ [], files)
or_deferred f files (ok files') = ([], files')

unfoldable pub project_each :
    Surroundings
    → List ℕ
    → (ℕ → ℕ)
    → ValidationMode
    → List Intent
    → List Prepared
    → List ℕ
    → Files
    → List ℕ × Files
project_each s locks version_of mode intents [] ids files = ([], files)
project_each s locks version_of mode intents (p ∷ ps) [] files = ([], files)
project_each s locks version_of mode intents (p ∷ ps) (i ∷ ids) files =
    let first = or_deferred p.filename files (
      materialize_markdown_projection s.paths s.waited s.validators s.is_source_metadata false
        s.in_time locks version_of (target_of mode p i) s.now intents files) in
    let rest = project_each s locks version_of mode intents ps ids first.1 in
    (first.0 ++ rest.0, rest.1)

module _ (canonical : Canonical) where
  open canonical use {Store}

  pub record Outcome : Type 0 where
    pub outbox_ids : List ℕ
    pub deferred : List ℕ
    pub db : Db Store
    pub files : Files

  -- `read` is the store when the change sets are prepared, `files` the files when the requests are;
  -- `db` and `locked` are the database and the files once the page locks are held.
  unfoldable pub execute_mutation_batch :
      (s : Surroundings)
      → Hook canonical s.paths
      → Hook canonical s.paths
      → ValidationMode
      → Bool
      → List Request
      → Store
      → Files
      → Db Store
      → Files
      → Result MutationError Outcome
  unfolding recheck_sources project_each
  execute_mutation_batch s precondition callback mode in_transaction requests read files db locked =
      do
        require (not in_transaction) runtime_error
        s.enforce_runtime_write_health mode
        prepared ← prepare_mutations s.paths s.validators files s.sha256 mode requests
        change_sets ← prepare_change_sets canonical s.paths read prepared
        taken ←
            projection_locks s.paths s.waited locked false s.in_time s.held
              (map (λ p. p.filename) prepared)
        recheck_sources s.validators locked prepared
        committed ←
            commit canonical s.paths precondition callback mode s.draw s.times s.published_at
              prepared change_sets db
        let projected =
            project_each s (taken ++ s.held) (version_text canonical s.paths committed.1.store) mode
              committed.1.intents prepared committed.0 locked
        ok (record {
          outbox_ids = committed.0;
          deferred = projected.0;
          db = committed.1;
          files = projected.1;
        })

  -- `execute_mutation_plan`: a batch of one mutation, in full mode.
  unfoldable pub execute_mutation_plan :
      (s : Surroundings)
      → ℕ
      → Option ℕ
      → Bool
      → Store
      → Files
      → Db Store
      → Files
      → Result MutationError Outcome
  unfolding execute_mutation_batch
  execute_mutation_plan s filename content is_delete read files db locked =
      execute_mutation_batch s none none full false
        (record {
          filename = some filename;
          content = content;
          is_delete = is_delete;
          expected_version = unversioned;
        }
          ∷ [])
        read files db locked
