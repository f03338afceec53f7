-- ===== src/Jobs/History.antt =====
-- vector_lake/db_store.py: the histories of the jobs table. A step is one transaction of one
-- process, called as vector_lake/ingest_worker.py, tool_ingest.py, periodic_catch_up.py,
-- controlled_recompile.py and scripts/ingest_runner.py call it, or one of their own.
pub mod Change
pub mod Steps
pub mod Invariants
pub mod Fencing
pub mod Reporting
use vector_lake.Prelude.{ℕ, ◌≡◌, Bool, true, Option, none, some, List, []}
use vector_lake.Prelude.Sql.{find_key}
use vector_lake.Prelude.Result.{ok}
use vector_lake.Jobs.Row.{TaskType, queued, failed, completed, Job, Payload, Host}
use vector_lake.Jobs.Queue.{enqueue_job, claim_pending_jobs}
use vector_lake.Jobs.Lease.{claim_subagent_jobs, finalize_ingest_job, expire_stale_subagent_jobs}
use vector_lake.Jobs.Failure.{
  Claim, mark_job_awaiting_subagent, fail_dispatch_claim, release_job_for_retry, update_job_status,
}
use vector_lake.Jobs.Callers.{
  is_recompilable, hand_over_source, Migration, requeue_legacy_ingest_jobs, reset_jobs,
}
use vector_lake.Jobs.Ledger.{ProcessedFile, close_terminal_failed_jobs}

pub data Step (host : Host) : List Job → List Job → Type 0 where
  -- The uuid of a new job is not in the table.
  enqueued :
      (task_type : TaskType) (p : Payload) (key : Option ℕ) (replace supersede : Bool)
      (job_id now : ℕ) (jobs : List Job)
      → find_key (λ r. r.job_id) job_id jobs ≡ none
      → Step host jobs (enqueue_job host task_type p key replace supersede job_id now jobs).1
  claimed :
      (limit lease_seconds now : ℕ) (jobs : List Job)
      → Step host jobs (claim_pending_jobs limit lease_seconds now jobs).1
  handed :
      (job_id path : ℕ) (shown : List ℕ) (p : Payload) (claim : Job) (now : ℕ)
      (jobs jobs' : List Job)
      → mark_job_awaiting_subagent host job_id path shown (some p) (some claim) now jobs ≡ ok jobs'
      → Step host jobs jobs'
  -- controlled_recompile.py hands over a source: a job that it has just enqueued, or that is there.
  handed_source :
      (job_id : ℕ) (payload : Option ℕ) (path : ℕ) (shown : List ℕ) (now : ℕ)
      (jobs jobs' : List Job) (r : Job)
      → find_key (λ r. r.job_id) job_id jobs ≡ some r
      → is_recompilable r ≡ true
      → hand_over_source host job_id payload path shown now jobs ≡ ok jobs'
      → Step host jobs jobs'
  requeued :
      (now : ℕ) (ms : List Migration) (jobs : List Job)
      → Step host jobs (requeue_legacy_ingest_jobs now ms jobs)
  reset : (now : ℕ) (jobs : List Job) → Step host jobs (reset_jobs now jobs)
  dispatch_failed :
      (claim : Job) (reason : List ℕ) (now now' now'' : ℕ) (jobs : List Job)
      → Step host jobs (fail_dispatch_claim claim reason now now' now'' jobs).1
  leased :
      (limit lease_seconds owner : ℕ) (tokens : ℕ → ℕ) (now : ℕ) (jobs : List Job)
      → Step host jobs (claim_subagent_jobs limit lease_seconds owner tokens now jobs).1
  finalized :
      (job_id owner token generation result now : ℕ) (jobs jobs' : List Job)
      → finalize_ingest_job job_id owner token generation result now jobs ≡ ok jobs'
      → Step host jobs jobs'
  released :
      (job_id : ℕ) (reason : List ℕ) (claim : Option Claim) (delay now : ℕ) (jobs jobs' : List Job)
      (done : Bool)
      → release_job_for_retry job_id reason claim delay now jobs ≡ ok (done, jobs')
      → Step host jobs jobs'
  reported :
      (job_id : ℕ) (reason : List ℕ) (claim : Claim) (now now' : ℕ) (jobs : List Job)
      → Step host jobs (update_job_status job_id failed reason (some claim) now now' jobs).1
  -- controlled_recompile.py completes a request that it has just enqueued.
  registered :
      (job_id now now' : ℕ) (jobs : List Job) (r : Job)
      → find_key (λ r. r.job_id) job_id jobs ≡ some r
      → r.status ≡ queued
      → Step host jobs (update_job_status job_id completed [] none now now' jobs).1
  expired :
      (max_age_seconds now now' : ℕ) (jobs : List Job)
      → Step host jobs (expire_stale_subagent_jobs max_age_seconds now now' jobs).1
  closed :
      (proven : Job → Bool) (files : List ProcessedFile) (only : Bool) (now : ℕ) (jobs : List Job)
      → Step host jobs (close_terminal_failed_jobs host proven files only now jobs).1

pub data Reach (host : Host) (start : List Job) : List Job → Type 0 where
  here : Reach host start start
  next :
      {jobs jobs' : List Job}
      → Reach host start jobs
      → Step host jobs jobs'
      → Reach host start jobs'
