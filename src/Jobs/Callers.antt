-- ===== src/Jobs/Callers.antt =====
-- The statements on `jobs` outside of vector_lake/db_store.py: the handover of a source by
-- vector_lake/controlled_recompile.py, `requeue_legacy_ingest_jobs` of vector_lake/tool_ingest.py, and
-- reset_jobs.py.
use vector_lake.Prelude.{
  ℕ, Bool, true, ◌&&◌, ◌||◌, Option, none, some, List, [], ◌∷◌, ltb, ◌==◌, if◌then◌else◌,
}
use vector_lake.Prelude.Sql.{update_where}
use vector_lake.Prelude.Result.{Result}
use vector_lake.Jobs.Row.{
  JobStatus, queued, Job, Host, is_queued, is_failed, is_awaiting, is_dispatched,
  max_ingest_attempts,
}
use vector_lake.Jobs.Queue.{codes}
use vector_lake.Jobs.Failure.{FailureError, mark_job_awaiting_subagent}

-- A job of the request that is there already is handed over if it is failed or queued, and has an
-- attempt left. The guards on its time, on other work for its source and on the attempts spent for
-- the same content are not modelled: with them fewer jobs are handed over.
abbrev pub is_recompilable : Job → Bool
is_recompilable r = (is_failed r.status || is_queued r.status) && ltb r.retries max_ingest_attempts

abbrev pub with_payload : ℕ → Option ℕ → List Job → List Job
with_payload job_id none jobs = jobs
with_payload job_id (some p) jobs =
    update_where (λ r. r.job_id == job_id) (λ r. record r { payload = p }) jobs

-- A job that is there gets its new payload; then it is handed over.
unfoldable pub hand_over_source :
    Host → ℕ → Option ℕ → ℕ → List ℕ → ℕ → List Job → Result FailureError (List Job)
hand_over_source host job_id payload path shown now jobs =
    mark_job_awaiting_subagent host job_id path shown none none now
      (with_payload job_id payload jobs)

-- A job whose packet is rebuilt, with the status that it had when it was read.
pub record Migration : Type 0 where
  pub job_id : ℕ
  pub payload : ℕ
  pub status : JobStatus

abbrev pub requeued_row : ℕ → ℕ → Job → Job
requeued_row payload now r = record r {
  payload = payload;
  status = queued;
  retries = 0;
  error_msg = codes "Legacy ingest packet rebuilt for the integration contract";
  available_at = some now;
  updated_at = now;
  task_packet_path = none;
  lease_until = none;
  lease_owner = none;
  lease_token = none;
}

abbrev pub rebuilt_row : ℕ → ℕ → Job → Job
rebuilt_row payload now r = record r {
  payload = payload;
  updated_at = now;
  task_packet_path = none;
}

-- The statuses that are read are queued, failed and awaiting_subagent.
abbrev pub is_as_read : JobStatus → JobStatus → Bool
is_as_read read s = if is_failed read then is_failed s else is_queued s

abbrev pub migrate_one : ℕ → Migration → List Job → List Job
migrate_one now m jobs =
    if is_awaiting m.status
    then update_where (λ r. r.job_id == m.job_id && is_awaiting r.status)
        (requeued_row m.payload now) jobs
    else update_where (λ r. r.job_id == m.job_id && is_as_read m.status r.status)
        (rebuilt_row m.payload now) jobs

-- The transaction of `requeue_legacy_ingest_jobs`.
unfoldable pub requeue_legacy_ingest_jobs : ℕ → List Migration → List Job → List Job
requeue_legacy_ingest_jobs now [] jobs = jobs
requeue_legacy_ingest_jobs now (m ∷ ms) jobs =
    requeue_legacy_ingest_jobs now ms (migrate_one now m jobs)

-- lease_until IS NULL OR lease_until < ?
abbrev pub null_or_before : Option ℕ → ℕ → Bool
null_or_before none now = true
null_or_before (some t) now = ltb t now

-- reset_jobs.py --apply
unfoldable pub reset_jobs : ℕ → List Job → List Job
reset_jobs now jobs =
    update_where (λ r. is_dispatched r.status && null_or_before r.lease_until now)
      (λ r. record r { status = queued; lease_until = none }) jobs
