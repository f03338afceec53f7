-- ===== src/Jobs/Queue.antt =====
-- vector_lake/db_store.py: enqueueing a job, and handing jobs to the dispatcher.
pub mod Exclusion
pub mod Dedup
use Prim.Native.String.{String}
use Prim.Native.Char.{code}
use mathlib.Core.Bool.{cond}
use vector_lake.Prelude.{
  ℕ, ◌+◌, Bool, true, false, ◌&&◌, ◌||◌, not, Option, none, some, List, [], ◌∷◌, ◌++◌, map, ltb,
  leb, ◌==◌, if◌then◌else◌, take, contains, max,
}
use vector_lake.Prelude.Sql.{
  sql_eq, null_or_le, update_where, select, fetch_one, order_by, find_key,
}
use vector_lake.Jobs.Row.{
  TaskType, ingest, JobStatus, queued, dispatched, superseded, Job, Payload, Host,
  max_ingest_attempts, seconds, text_or_empty, is_truthy, text_or, is_recompile,
  is_terminal_success, is_terminal_failure, is_queued, is_failed, is_dispatched,
}

abbrev pub codes : String → List ℕ
codes String.[] = []
codes (String.◌∷◌ c s) = code c ∷ codes s

-- `_job_idempotency_key`
unfoldable pub job_idempotency_key : Host → TaskType → Payload → Option ℕ
job_idempotency_key host ingest p =
    cond (is_truthy p.filepath && is_truthy p.file_hash)
      (some (
        host.sha256 (text_or_empty p.filepath) (text_or_empty p.file_hash)
          (text_or_empty p.canonical_name)))
      none
job_idempotency_key host _ p = none

-- `_job_is_terminal_unsuccessful`
unfoldable pub job_is_terminal_unsuccessful : List Job → ℕ → Bool
job_is_terminal_unsuccessful jobs i = elim (find_key (λ r. r.job_id) i jobs) [
  | none ↦ false
  | some r ↦ is_terminal_failure r.status
]

-- The UPDATE of the row that gives up its key: `stop` also ends its dispatch.
abbrev pub superseded_row : Bool → ℕ → Job → Job
superseded_row stop now r = record r {
  idempotency_key = none;
  status = if stop then superseded else r.status;
  error_msg = r.error_msg ++ codes " [superseded by a fresh dispatch]";
  updated_at = now;
}

-- The INSERT of a queued job; the columns that it does not name take their defaults.
abbrev pub queued_row : Host → ℕ → TaskType → Payload → Option ℕ → ℕ → Job
queued_row host job_id task_type payload key now = record {
  job_id = job_id;
  task_type = task_type;
  payload = host.json_dumps payload;
  status = queued;
  retries = 0;
  error_msg = [];
  created_at = now;
  updated_at = now;
  available_at = some now;
  lease_until = none;
  lease_owner = none;
  lease_token = none;
  lease_generation = 0;
  idempotency_key = key;
  task_packet_path = none;
  completed_at = none;
  result_json = none;
}

-- What `enqueue_job` does about a row that already holds the key: there is none, it is kept, or
-- its key is taken (and its dispatch stopped, when it had given up).
pub data Collision : Type 0 where
  no_collision : Collision
  keep_existing : ℕ → Collision
  take_key : ℕ → Bool → Collision

unfoldable pub collide : Bool → Bool → List Job → Option Job → Collision
unfolding job_is_terminal_unsuccessful
collide replace_terminal supersede_finished jobs none = no_collision
collide replace_terminal supersede_finished jobs (some existing) =
    let unfinished_mismatch =
      replace_terminal && job_is_terminal_unsuccessful jobs existing.job_id in
    let finished_collision = supersede_finished && is_terminal_success existing.status in
    if unfinished_mismatch || finished_collision
    then take_key existing.job_id unfinished_mismatch
    else keep_existing existing.job_id

-- The answer of `enqueue_job` and its writes. `job_id` is the fresh uuid.
unfoldable pub resolve_collision :
    Host → TaskType → Payload → Option ℕ → ℕ → ℕ → List Job → Collision → ℕ × List Job
resolve_collision host task_type payload key job_id now jobs no_collision =
    (job_id, jobs ++ queued_row host job_id task_type payload key now ∷ [])
resolve_collision host task_type payload key job_id now jobs (keep_existing i) = (i, jobs)
resolve_collision host task_type payload key job_id now jobs (take_key i stop) = (
  job_id,
  update_where (λ r. r.job_id == i) (superseded_row stop now) jobs
      ++ queued_row host job_id task_type payload key now ∷ [],
)

-- SELECT job_id FROM jobs WHERE idempotency_key = ?
abbrev pub find_idempotent : ℕ → List Job → Option Job
find_idempotent key jobs = fetch_one (λ r. sql_eq r.idempotency_key (some key)) jobs

-- The row that holds the key, if the key is one.
unfoldable pub key_holder : Option ℕ → List Job → Option Job
key_holder none jobs = none
key_holder (some key) jobs = if key == 0 then none else find_idempotent key jobs

-- The transaction of `enqueue_job`, once the key is known.
unfoldable pub enqueue_with_key :
    Host → TaskType → Payload → Bool → Bool → Option ℕ → ℕ → ℕ → List Job → ℕ × List Job
unfolding resolve_collision collide key_holder
enqueue_with_key host task_type payload replace_terminal supersede_finished key job_id now jobs =
    resolve_collision host task_type payload key job_id now jobs
      (collide replace_terminal supersede_finished jobs (key_holder key jobs))

unfoldable pub enqueue_job :
    Host → TaskType → Payload → Option ℕ → Bool → Bool → ℕ → ℕ → List Job → ℕ × List Job
unfolding job_idempotency_key enqueue_with_key
enqueue_job host task_type payload idempotency_key replace_terminal supersede_finished job_id now
      jobs =
    enqueue_with_key host task_type payload (replace_terminal || supersede_finished)
      supersede_finished (text_or idempotency_key (job_idempotency_key host task_type payload))
      job_id now jobs

-- COALESCE(available_at, created_at, '') <= now
abbrev pub is_available : ℕ → Job → Bool
is_available now r = elim r.available_at [ none ↦ leb r.created_at now | some t ↦ leb t now ]

-- The WHERE of `claim_pending_jobs`.
abbrev pub is_claimable : ℕ → Job → Bool
is_claimable now r =
    not (is_recompile r.task_type)
    && ((is_queued r.status || is_failed r.status)
          && ltb r.retries max_ingest_attempts
          && is_available now r
        || is_dispatched r.status && null_or_le r.lease_until now)

abbrev pub dispatched_row : ℕ → ℕ → Job → Job
dispatched_row until now r = record r {
  status = dispatched;
  lease_until = some until;
  updated_at = now;
}

-- now + timedelta(seconds=max(1, lease_seconds))
abbrev pub lease_end : ℕ → ℕ → ℕ
lease_end now lease_seconds = now + seconds (max 1 lease_seconds)

-- The jobs that a claim selects: the oldest `max(1, limit)` that are claimable.
unfoldable pub pending_ids : ℕ → ℕ → List Job → List ℕ
pending_ids limit now jobs =
    map (λ r. r.job_id)
      (take (max 1 limit) (order_by (λ r. r.created_at) (select (is_claimable now) jobs)))

-- The result is the claimed rows, in order, and the new table.
unfoldable pub claim_pending_jobs : ℕ → ℕ → ℕ → List Job → List Job × List Job
unfolding pending_ids
claim_pending_jobs limit lease_seconds now jobs =
    let ids = pending_ids limit now jobs in
    let jobs' =
      update_where (λ r. contains ids r.job_id) (dispatched_row (lease_end now lease_seconds) now)
        jobs in
    (order_by (λ r. r.created_at) (select (λ r. contains ids r.job_id) jobs'), jobs')

-- The jobs that wait for a dispatch, whatever their time.
unfoldable pub get_pending_jobs : ℕ → List Job → List Job
get_pending_jobs limit jobs = take limit (
    order_by (λ r. r.created_at)
      (select (λ r. is_queued r.status || is_failed r.status && ltb r.retries 3) jobs))
