-- ===== src/Coordinator.antt =====
-- vector_lake/mutation_coordinator.py: the names of pages, the requests of a batch, and what the
-- coordinator uses of the file system, of the validators and of the canonical tables.
pub mod Locks
pub mod Prepare
pub mod Commit
pub mod Projection
pub mod Batch
mod Examples
use vector_lake.Prelude.{
  ℕ, Bool, true, false, ◌&&◌, ◌||◌, not, Option, none, some, List, [], ◌∷◌, ◌==◌, contains, is_some,
}
use vector_lake.Prelude.Result.{Result, ok, err, ◌>>=◌, ◌>>◌, require}
use vector_lake.Outbox.{Intent, OutboxError, MutationType, ValidationMode, schema}
use vector_lake.Jobs.Failure.{opt_eq}

pub data MutationError : Type 0 where
  value_error runtime_error lock_timeout version_conflict : MutationError
  outbox_error : OutboxError → MutationError
  refused : ℕ → MutationError

abbrev pub from_outbox {ℓ} : {A : Type ℓ} → Result OutboxError A → Result MutationError A
from_outbox (err e) = err (outbox_error e)
from_outbox (ok a) = ok a

-- What pathlib, os.path and `validate_wiki_filename` say of a name. `resolved` is the directory and
-- the name of the resolved path, `normcase` the key of a path, `stem` the name without its suffix;
-- `is_wiki_page` tells that a path ends in .md and has a part wiki.
pub record Paths : Type 0 where
  pub chars : ℕ → List ℕ
  pub is_trimmed : ℕ → Bool
  pub is_absolute : ℕ → Bool
  pub path_name : ℕ → ℕ
  pub wiki_root : ℕ
  pub resolved : ℕ → ℕ × ℕ
  pub is_valid_name : ℕ → Bool
  pub normcase : ℕ × ℕ → ℕ
  pub stem : ℕ → ℕ
  pub is_wiki_page : ℕ → Bool

-- The Markdown files of the wiki directory, by name.
abbrev pub Files : Type 0
Files = ℕ → Option ℕ

-- filename in {".", ".."}
abbrev pub is_dots : List ℕ → Bool
is_dots (a ∷ []) = a == b'.'
is_dots (a ∷ b ∷ []) = a == b'.' && b == b'.'
is_dots _ = false

abbrev pub has_separator : List ℕ → Bool
has_separator cs = contains cs 0 || contains cs b'/' || contains cs 92

-- A filename that is no text is none.
unfoldable pub resolve_wiki_mutation_path :
    Paths → Files → Option ℕ → Bool → Bool → Result MutationError (ℕ × ℕ)
resolve_wiki_mutation_path paths files none allow_existing_legacy_name validate_new_name =
    err value_error
resolve_wiki_mutation_path paths files (some f) allow_existing_legacy_name validate_new_name = do
  require (not (f == 0) && paths.is_trimmed f) value_error
  require (not (has_separator (paths.chars f))) value_error
  require (not (paths.is_absolute f) && paths.path_name f == f && not (is_dots (paths.chars f)))
      value_error
  let candidate = paths.resolved f
  require (candidate.0 == paths.wiki_root) value_error
  require (candidate.1 == f) value_error
  require
      (not (validate_new_name && not (allow_existing_legacy_name && is_some (files f)))
        || paths.is_valid_name f)
      value_error
  ok candidate

-- `expected_version` in a request: no key, a value that is no text, or a text.
pub data Expected : Type 0 where
  unversioned not_a_text : Expected
  version : ℕ → Expected

pub record Request : Type 0 where
  pub filename : Option ℕ
  pub content : Option ℕ
  pub is_delete : Bool
  pub expected_version : Expected

pub record Prepared : Type 0 where
  pub filename : ℕ
  pub content : Option ℕ
  pub mutation_type : MutationType
  pub expected_version : Expected
  pub idempotency_key : ℕ

-- The checks of schema_validator and defense_hook: of the sources against those of the page that
-- is replaced, and of a text under its name, new or not.
pub record Validators : Type 0 where
  pub check_placeholder_sources : ℕ → Option ℕ → Result MutationError (Unit {0})
  pub verify_asset : ℕ → ℕ → Bool → Result MutationError (Unit {0})
  pub validate_schema : ℕ → ℕ → Bool → Result MutationError (Unit {0})

-- The canonical tables of governance_store and db_store: `page_version` is the entry of a page in
-- `canonical_page_versions`.
pub record Canonical : Type 1 where
  pub Store : Type 0
  pub ChangeSet : Type 0
  pub page_version : Store → ℕ → Option ℕ
  pub prepare_change_set : Store → ℕ → ℕ → Result MutationError ChangeSet
  pub publish_at : ℕ → ChangeSet → ChangeSet
  pub delete_node_cascade : ℕ → Store → Store
  pub apply_change_sets_batch : List ChangeSet → Store → Result MutationError Store
  pub record_prepared_change_sets : List ChangeSet → Store → Store

-- versions.get(page, "")
abbrev pub text_of : Option ℕ → ℕ
text_of none = 0
text_of (some v) = v
