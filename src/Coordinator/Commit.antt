-- ===== src/Coordinator/Commit.antt =====
-- vector_lake/mutation_coordinator.py, `execute_mutation_batch`: the transaction of a batch.
pub mod Enqueued
pub mod Binding
pub mod Versions
use vector_lake.Prelude.{
  ℕ, Bool, true, false, ◌&&◌, ◌||◌, not, Option, none, some, List, [], ◌∷◌, ◌++◌, map, ◌==◌,
  if◌then◌else◌, is_some,
}
use vector_lake.Prelude.Result.{Result, ok, err, ◌>>=◌, ◌>>◌, require}
use vector_lake.Jobs.Failure.{opt_eq}
use vector_lake.Outbox.{Intent, OutboxError, MutationType, ValidationMode, is_delete}
use vector_lake.Outbox.Enqueue.{enqueue_mutation, bind_mutation_versions}
use vector_lake.Coordinator.{
  MutationError, value_error, version_conflict, from_outbox, Paths, Files, Validators, Canonical,
  text_of, Expected, unversioned, not_a_text, version, Prepared,
}

-- The database, as far as a batch changes it.
pub record Db (S : Type 0) : Type 0 where
  pub store : S
  pub intents : List Intent

-- (expected == "" and current is not None) or (expected != "" and current != expected)
abbrev pub conflicts : Expected → Option ℕ → Bool
conflicts (version expected) current =
    if expected == 0 then is_some current else not (opt_eq current (some expected))
conflicts _ current = false

module _ (canonical : Canonical) (paths : Paths) where
  open canonical use {Store, ChangeSet, page_version}

  abbrev pub version_of_file : Store → ℕ → Option ℕ
  version_of_file store f = page_version store (paths.stem f)

  -- versions.get(page, "")
  abbrev pub version_text : Store → ℕ → ℕ
  version_text store f = text_of (version_of_file store f)

  unfoldable pub check_versions : Store → List Prepared → Result MutationError (Unit {0})
  check_versions store [] = ok tt
  check_versions store (p ∷ ps) = do
    require (not (conflicts p.expected_version (version_of_file store p.filename))) value_error
    check_versions store ps

  unfoldable pub delete_pages : List Prepared → Store → Store
  delete_pages [] store = store
  delete_pages (p ∷ ps) store = delete_pages ps (
      if is_delete p.mutation_type
      then canonical.delete_node_cascade (paths.stem p.filename) store
      else store)

  -- The change sets of the updates.
  unfoldable pub prepare_change_sets : Store → List Prepared → Result MutationError (List ChangeSet)
  prepare_change_sets store [] = ok []
  prepare_change_sets store (p ∷ ps) = do
    change_sets ← if is_delete p.mutation_type then ok [] else elim p.content [
      | none ↦ err value_error
      | some content ↦ do
        change_set ← canonical.prepare_change_set store p.filename content
        ok (change_set ∷ [])
    ]
    rest ← prepare_change_sets store ps
    ok (change_sets ++ rest)

  -- `versions` of the pages of the batch are what they were.
  unfoldable pub same_versions : Store → Store → List Prepared → Bool
  same_versions before now [] = true
  same_versions before now (p ∷ ps) =
      opt_eq (version_of_file now p.filename) (version_of_file before p.filename)
      && same_versions before now ps

  -- `canonical_precondition` and `canonical_callback` run inside the transaction.
  abbrev pub Hook : Type 0
  Hook = Option (Db Store → Result MutationError (Db Store))

  abbrev pub run_hook : Hook → Db Store → Result MutationError (Db Store)
  run_hook none db = ok db
  run_hook (some f) db = f db

  unfoldable pub run_callback : Hook → List Prepared → Db Store → Result MutationError (Db Store)
  unfolding same_versions
  run_callback none prepared db = ok db
  run_callback (some f) prepared db = do
    db' ← f db
    require (same_versions db.store db'.store prepared) version_conflict
    ok db'

-- `enqueue_mutations_batch`: `draw` is the next AUTOINCREMENT id of a table, and `times f` the clock
-- when the intent of the file `f` is written.
unfoldable pub enqueue_mutations_batch :
    ValidationMode
    → (List Intent → ℕ)
    → (ℕ → ℕ)
    → List Prepared
    → List Intent
    → Result MutationError (List ℕ × List Intent)
enqueue_mutations_batch mode draw times [] intents = ok ([], intents)
enqueue_mutations_batch mode draw times (p ∷ ps) intents = do
  first ← from_outbox (
      enqueue_mutation p.filename p.mutation_type p.content (some p.idempotency_key) mode
        (draw intents) (times p.filename) intents)
  rest ← enqueue_mutations_batch mode draw times ps first.1
  ok (first.0 ∷ rest.0, rest.1)

module _ (canonical : Canonical) (paths : Paths) where
  open canonical use {Store, ChangeSet}

  -- `with db_store.transaction():`, whose changes are kept if all of it succeeds.
  unfoldable pub commit :
      Hook canonical paths
      → Hook canonical paths
      → ValidationMode
      → (List Intent → ℕ)
      → (ℕ → ℕ)
      → ℕ
      → List Prepared
      → List ChangeSet
      → Db Store
      → Result MutationError (List ℕ × Db Store)
  unfolding check_versions delete_pages enqueue_mutations_batch run_callback
  commit precondition callback mode draw times published_at prepared change_sets db = do
    db1 ← run_hook canonical paths precondition db
    check_versions canonical paths db1.store prepared
    applied ←
        canonical.apply_change_sets_batch change_sets
          (delete_pages canonical paths prepared db1.store)
    let store =
        canonical.record_prepared_change_sets (map (canonical.publish_at published_at) change_sets)
          applied
    enqueued ← enqueue_mutations_batch mode draw times prepared db1.intents
    intents ← from_outbox (
        bind_mutation_versions (λ f. text_of (canonical.page_version store (paths.stem f)))
          enqueued.0 enqueued.1)
    db2 ←
        run_callback canonical paths callback prepared (record { store = store; intents = intents })
    ok (enqueued.0, db2)
