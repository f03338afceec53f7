-- ===== src/Coordinator/Projection.antt =====
-- vector_lake/mutation_coordinator.py, `require_projection_intent` and
-- `materialize_markdown_projection`, and vector_lake/wiki_utils.py, `atomic_write_text`.
pub mod Current
pub mod Accepted
use vector_lake.Prelude.{
  ℕ, Bool, true, false, ◌&&◌, ◌||◌, not, Option, none, some, List, [], ◌∷◌, ◌==◌, if◌then◌else◌,
  is_some,
}
use vector_lake.Prelude.Result.{Result, ok, err, ◌>>=◌, ◌>>◌, require}
use vector_lake.Jobs.Failure.{opt_eq}
use vector_lake.Outbox.{
  Intent, IntentStatus, pending, processing, completed, claim_lost, MutationType, update, delete,
  other_type, ValidationMode, OutboxClaim, is_delete, same_type, same_mode, current_mutation_intent,
  validate_mutation_claim,
}
use vector_lake.Outbox.Enqueue.{is_known_mode}
use vector_lake.Coordinator.{
  MutationError, value_error, version_conflict, outbox_error, from_outbox, Paths, Files, Validators,
  resolve_wiki_mutation_path,
}
use vector_lake.Coordinator.Locks.{projection_locks}
use vector_lake.Coordinator.Prepare.{is_full, is_schema}

-- What is to be materialized.
pub record Target : Type 0 where
  pub outbox_id : ℕ
  pub filename : ℕ
  pub mutation_type : MutationType
  pub payload_text : Option ℕ
  pub validation_mode : ValidationMode
  pub claim : Option OutboxClaim

abbrev pub is_intent_of : Target → Intent → Bool
is_intent_of t row =
    row.id == t.outbox_id
    && row.filename == t.filename
    && same_type row.mutation_type t.mutation_type
    && opt_eq row.payload_text t.payload_text
    && same_mode row.validation_mode t.validation_mode

-- status in {"pending", "processing", "completed"}
abbrev pub is_eligible : IntentStatus → Bool
is_eligible pending = true
is_eligible processing = true
is_eligible completed = true
is_eligible _ = false

-- The intent is unversioned or bound to another state of the page, or deletes a page that is there;
-- `current` is the version of the page, 0 for none.
abbrev pub is_outdated : Option ℕ → MutationType → ℕ → Bool
is_outdated none t current = not (current == 0)
is_outdated (some expected) t current =
    not (expected == current) || is_delete t && not (current == 0)

abbrev pub intent_of : Target → ℕ → List Intent → Result MutationError Intent
intent_of t now intents = from_outbox (elim t.claim [
  | none ↦ current_mutation_intent t.outbox_id intents
  | some claim ↦ validate_mutation_claim claim now intents
])

abbrev pub key_test : (ℕ → Bool) → Option ℕ → Bool
key_test is_source_metadata none = false
key_test is_source_metadata (some key) = is_source_metadata key

-- `is_source_metadata` tells that a key begins with "source-metadata:".
unfoldable pub require_projection_intent :
    (ℕ → Bool) → (ℕ → ℕ) → Target → ℕ → List Intent → Result MutationError Intent
require_projection_intent is_source_metadata version_of t now intents = do
  row ← intent_of t now intents
  require (not (key_test is_source_metadata row.idempotency_key)) version_conflict
  require (is_intent_of t row) (outbox_error claim_lost)
  require (is_eligible row.status) (outbox_error claim_lost)
  require (not (is_outdated row.base_version t.mutation_type (version_of t.filename)))
      version_conflict
  ok row

-- The files, one of them changed.
abbrev pub put_file : ℕ → Option ℕ → Files → Files
put_file f content files g = if g == f then content else files g

unfoldable pub atomic_write_text :
    Paths → Validators → Files → ℕ → ℕ → ValidationMode → Result MutationError Files
atomic_write_text paths validators files f content mode = do
  require (is_known_mode mode) value_error
  let is_new = is_full mode && not (is_some (files f))
  if not (paths.is_wiki_page f)
      then ok tt
      else if is_full mode
      then validators.verify_asset content f is_new
      else validators.validate_schema content f is_new
  ok (put_file f (some content) files)

abbrev pub payload_or_file : Option ℕ → Option ℕ → Result MutationError ℕ
payload_or_file (some text) file = ok text
payload_or_file none (some text) = ok text
payload_or_file none none = err value_error

unfoldable pub write_projection :
    Paths
    → Validators
    → Files
    → ℕ
    → Option ℕ
    → ValidationMode
    → MutationType
    → Result MutationError Files
unfolding atomic_write_text
write_projection paths validators files f payload mode delete = ok (put_file f none files)
write_projection paths validators files f payload mode (other_type _) = err value_error
write_projection paths validators files f payload mode update = do
  text ← payload_or_file payload (files f)
  atomic_write_text paths validators files f text mode

unfoldable pub materialize_markdown_projection :
    Paths
    → Paths
    → Validators
    → (ℕ → Bool)
    → Bool
    → (ℕ → Bool)
    → List ℕ
    → (ℕ → ℕ)
    → Target
    → ℕ
    → List Intent
    → Files
    → Result MutationError Files
unfolding require_projection_intent write_projection
materialize_markdown_projection paths waited validators is_source_metadata in_transaction in_time
      held version_of t now intents files =
    do
      _ ← projection_locks paths waited files in_transaction in_time held (t.filename ∷ [])
      _ ← require_projection_intent is_source_metadata version_of t now intents
      path ←
          resolve_wiki_mutation_path paths files (some t.filename)
            (is_schema t.validation_mode || is_delete t.mutation_type)
            (not (is_delete t.mutation_type))
      write_projection paths validators files path.1 t.payload_text t.validation_mode
          t.mutation_type
