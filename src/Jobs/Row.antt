-- ===== src/Jobs/Row.antt =====
-- vector_lake/db_store.py: a row of the `jobs` table, and what a claim and a payload hold.
-- A text that the code only stores and compares is a number, 0 for the empty text. A time is a
-- number of microseconds: the ISO texts of UTC times are in the order of the times.
use mathlib.Core.Bool.{cond}
use vector_lake.Prelude.{ℕ, ◌*◌, Bool, true, false, Option, none, some, List, not, ◌==◌}

pub data TaskType : Type 0 where
  ingest : TaskType
  ingest_recompile : TaskType
  other_task : ℕ → TaskType

pub data JobStatus : Type 0 where
  queued dispatched awaiting_subagent subagent_processing : JobStatus
  failed finalized completed cancelled superseded : JobStatus

pub JobStatus-discrete : Discrete JobStatus
JobStatus-discrete = hlevel

pub record Job : Type 0 where
  pub job_id : ℕ
  pub task_type : TaskType
  pub payload : ℕ
  pub status : JobStatus
  pub retries : ℕ
  pub error_msg : List ℕ
  pub created_at : ℕ
  pub updated_at : ℕ
  pub available_at : Option ℕ
  pub lease_until : Option ℕ
  pub lease_owner : Option ℕ
  pub lease_token : Option ℕ
  pub lease_generation : ℕ
  pub idempotency_key : Option ℕ
  pub task_packet_path : Option ℕ
  pub completed_at : Option ℕ
  pub result_json : Option ℕ

-- The keys of a payload that db_store reads, `none` for a missing key or null. The last four are
-- compared as JSON values, with their types.
pub record Payload : Type 0 where
  pub filepath : Option ℕ
  pub file_hash : Option ℕ
  pub canonical_name : Option ℕ
  pub source_hash : Option ℕ
  pub controlled_recompile : Option ℕ
  pub integration_candidates : Option ℕ
  pub source_projection_hash : Option ℕ
  pub ingest_contract_version : Option ℕ
  pub source_read_path : Option ℕ

-- The standard library's `json` and `hashlib`, over payloads. `sha256` takes the three texts that
-- `_job_idempotency_key` joins.
pub record Host : Type 0 where
  pub json_loads : ℕ → Option Payload
  pub json_dumps : Payload → ℕ
  pub sha256 : ℕ → ℕ → ℕ → ℕ

abbrev pub max_ingest_attempts : ℕ
max_ingest_attempts = 3

-- timedelta(seconds=n)
abbrev pub seconds : ℕ → ℕ
seconds n = n * 1000000

-- str(value or "")
abbrev pub text_or_empty : Option ℕ → ℕ
text_or_empty none = 0
text_or_empty (some t) = t

-- bool(value), for a text or None
abbrev pub is_truthy : Option ℕ → Bool
is_truthy none = false
is_truthy (some t) = not (t == 0)

-- a or b, for a text or None
abbrev pub text_or : Option ℕ → Option ℕ → Option ℕ
text_or a b = cond (is_truthy a) a b

abbrev pub is_ingest_type : TaskType → Bool
is_ingest_type ingest = true
is_ingest_type ingest_recompile = true
is_ingest_type (other_task n) = false

abbrev pub is_recompile : TaskType → Bool
is_recompile ingest_recompile = true
is_recompile _ = false

-- INGEST_JOB_TERMINAL_SUCCESS
abbrev pub is_terminal_success : JobStatus → Bool
is_terminal_success finalized = true
is_terminal_success completed = true
is_terminal_success _ = false

-- INGEST_JOB_TERMINAL_FAILURE
abbrev pub is_terminal_failure : JobStatus → Bool
is_terminal_failure failed = true
is_terminal_failure cancelled = true
is_terminal_failure _ = false

abbrev pub is_queued : JobStatus → Bool
is_queued queued = true
is_queued _ = false

abbrev pub is_failed : JobStatus → Bool
is_failed failed = true
is_failed _ = false

abbrev pub is_dispatched : JobStatus → Bool
is_dispatched dispatched = true
is_dispatched _ = false

abbrev pub is_awaiting : JobStatus → Bool
is_awaiting awaiting_subagent = true
is_awaiting _ = false

abbrev pub is_processing : JobStatus → Bool
is_processing subagent_processing = true
is_processing _ = false
