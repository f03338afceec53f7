-- ===== src/Jobs/Lease/Checks.antt =====
-- vector_lake/db_store.py, `validate_ingest_job_finalization`: the checks that come before a job is
-- finalized, in their order.
pub mod Commit
use vector_lake.Prelude.{
  ℕ, Bool, true, false, ◌&&◌, ◌||◌, not, Option, none, some, List, ◌==◌, if◌then◌else◌, is_some,
}
use vector_lake.Prelude.Sql.{null_or_le, find_key}
use vector_lake.Prelude.Result.{Result, ok, err, ◌>>=◌, ◌>>◌, require}
use vector_lake.Jobs.Row.{
  Job, Payload, Host, TaskType, text_or_empty, is_truthy, is_ingest_type, is_recompile,
  is_processing,
}
use vector_lake.Jobs.Failure.{
  GenerationToken, absent, boolean, integer, spelled, negative, other_value, opt_eq,
}
use vector_lake.Jobs.Lease.{
  LeaseError, unknown_job, not_ingest_job, wrong_status, token_mismatch, owner_mismatch,
  generation_invalid, generation_mismatch, deadline_invalid, lease_expired, payload_invalid,
  marker_refused, marker_mismatch, dispatch_differs, source_mismatch, name_mismatch,
  source_hash_mismatch,
}

-- `processed_data`: the lease that the caller shows, and the payload fields beside it.
pub record Processed : Type 0 where
  pub lease_token : Option ℕ
  pub lease_owner : Option ℕ
  pub lease_generation : GenerationToken
  pub fields : Payload

-- int(value): the number, or a TypeError or ValueError; a negative number equals no generation.
abbrev pub check_generation : GenerationToken → ℕ → Result LeaseError (Unit {0})
check_generation (integer n) g = require (n == g) generation_mismatch
check_generation (spelled (some n)) g = require (n == g) generation_mismatch
check_generation (boolean true) g = require (1 == g) generation_mismatch
check_generation (boolean false) g = require (0 == g) generation_mismatch
check_generation negative g = err generation_mismatch
check_generation _ g = err generation_invalid

abbrev pub check_deadline : Option ℕ → ℕ → Result LeaseError (Unit {0})
check_deadline none now = err deadline_invalid
check_deadline (some until) now = require (not (null_or_le (some until) now)) lease_expired

-- `not supplied or supplied != expected`, for texts
abbrev pub shows : Option ℕ → Option ℕ → Bool
shows supplied expected =
    not (text_or_empty supplied == 0) && text_or_empty supplied == text_or_empty expected

-- `controlled_recompile.validate_marker`: an ordinary ingest carries no marker. `authorised` is the
-- check of a recompile, which reads the approved request and the file system.
abbrev pub validate_marker : (Payload → Bool) → TaskType → Payload → Bool
validate_marker authorised t p =
    if is_recompile t then authorised p else not (is_some p.controlled_recompile)

abbrev pub dispatch_unchanged : Payload → Payload → Bool
dispatch_unchanged d p =
    opt_eq d.integration_candidates p.integration_candidates
    && opt_eq d.source_projection_hash p.source_projection_hash
    && opt_eq d.ingest_contract_version p.ingest_contract_version
    && opt_eq d.source_read_path p.source_read_path

abbrev pub same_text : Option ℕ → Option ℕ → Bool
same_text a b = text_or_empty a == text_or_empty b

-- The checks of the payload, after those of the lease.
unfoldable pub check_payload : Host → (Payload → Bool) → Job → Payload → Result LeaseError Payload
check_payload host authorised row d = do
  p ← elim (host.json_loads row.payload) [ none ↦ err payload_invalid | some q ↦ ok q ]
  require (validate_marker authorised row.task_type p) marker_refused
  require (opt_eq d.controlled_recompile p.controlled_recompile) marker_mismatch
  require (dispatch_unchanged d p) dispatch_differs
  require (same_text d.filepath p.filepath && same_text d.file_hash p.file_hash) source_mismatch
  require (not (is_truthy p.canonical_name) || same_text d.canonical_name p.canonical_name)
      name_mismatch
  require (same_text d.source_hash p.source_hash) source_hash_mismatch
  ok p

-- The checks of a row that was found; the answer is the row with its payload.
unfoldable pub validate_row :
    Host → (Payload → Bool) → Job → Processed → ℕ → Result LeaseError (Job × Payload)
unfolding check_payload
validate_row host authorised row processed now = do
  require (is_ingest_type row.task_type) not_ingest_job
  require (is_processing row.status) wrong_status
  require (shows processed.lease_token row.lease_token) token_mismatch
  require (shows processed.lease_owner row.lease_owner) owner_mismatch
  check_generation processed.lease_generation row.lease_generation
  check_deadline row.lease_until now
  p ← check_payload host authorised row processed.fields
  ok (row, p)

unfoldable pub validate_ingest_job_finalization :
    Host → (Payload → Bool) → ℕ → Processed → ℕ → List Job → Result LeaseError (Job × Payload)
unfolding validate_row
validate_ingest_job_finalization host authorised job_id processed now jobs =
    elim (find_key (λ r. r.job_id) job_id jobs) [
      | none ↦ err unknown_job
      | some row ↦ validate_row host authorised row processed now
    ]
