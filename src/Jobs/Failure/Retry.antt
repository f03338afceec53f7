-- ===== src/Jobs/Failure/Retry.antt =====
-- vector_lake/db_store.py: when a job that was released or that failed may be dispatched again.
use vector_lake.Prelude.{
  ℕ, ◌+◌, ◌*◌, ◌^◌, ◌≤◌, ◌≡◌, true, ◌&&◌, not, Option, none, some, List, arith, ltb, leb, ◌==◌,
  if◌then◌else◌, refl, subst,
}
use vector_lake.Prelude.Sql.{find_key, update_where, update_where-found, find_key-key}
use vector_lake.Prelude.Result.{ok}
use vector_lake.Jobs.Row.{Job, failed, seconds, is_recompile, max_ingest_attempts}
use vector_lake.Jobs.Queue.{is_claimable}
use vector_lake.Jobs.Failure.{
  Claim, released_row, failed_row, retries_of, release_job_for_retry, update_job_status,
  write_status,
}

-- An UPDATE by id of a row that is there.
by_id :
    (g : Job → Job) (job_id : ℕ) (jobs : List Job) (r : Job)
    → ((x : Job) → (g x).job_id ≡ x.job_id)
    → find_key (λ r. r.job_id) job_id jobs ≡ some r
    → find_key (λ r. r.job_id) job_id (update_where (λ x. x.job_id == job_id) g jobs) ≡ some (g r)
by_id g job_id jobs r same found =
    let e = find_key-key (λ (r : Job). r.job_id) job_id jobs found in
    let hit : (r.job_id == job_id) ≡ true = ground arith in
    let seen =
      update_where-found (λ (r : Job). r.job_id) (λ x. x.job_id == job_id) g same job_id jobs
        found in
    rw (hit, if◌then◌else◌) at seen

-- A report that was accepted was written.
update_job_status-written :
    (job_id : ℕ) (reason : List ℕ) (claim : Option Claim) (now now' : ℕ) (jobs jobs' : List Job)
    → update_job_status job_id failed reason claim now now' jobs ≡ (true, jobs')
    → write_status job_id failed reason now now' jobs ≡ jobs'
unfolding update_job_status
update_job_status-written job_id reason none now now' jobs jobs' e = ground arith
update_job_status-written job_id reason (some c) now now' jobs jobs' e = ground arith

-- A released job has spent no attempt. It can be claimed exactly from the end of the delay on, and
-- only while it has an attempt left and is no recompile; the delay is 1 second to 1 hour.
pub release_then_claimable :
    (job_id : ℕ) (reason : List ℕ) (claim : Option Claim) (delay now : ℕ) (jobs jobs' : List Job)
    (r : Job)
    → find_key (λ r. r.job_id) job_id jobs ≡ some r
    → release_job_for_retry job_id reason claim delay now jobs ≡ ok (true, jobs')
    → (r' : Job) × (find_key (λ r. r.job_id) job_id jobs' ≡ some r')
      × (r'.retries ≡ r.retries)
      × (seconds 1 ≤ delay)
      × (delay ≤ seconds 3600)
      × ((t : ℕ)
          → is_claimable t r' ≡ (
              not (is_recompile r.task_type)
              && ltb r.retries max_ingest_attempts
              && leb (now + delay) t))
unfolding release_job_for_retry
release_then_claimable job_id reason claim delay now jobs jobs' r found e =
    let g = released_row reason now (now + delay) in
    let changed : update_where (λ x. x.job_id == job_id) g jobs ≡ jobs' = ground arith in
    (
      g r,
      subst (λ rows. find_key (λ r. r.job_id) job_id rows ≡ some (g r)) changed
          (by_id g job_id jobs r (λ x. refl) found),
      refl,
      ground arith,
      ground arith,
      λ t. ground arith,
    )

-- A reported failure spends one attempt. The job can be claimed again exactly from 5 seconds times
-- 2 to the attempts spent before, on, and only while it has an attempt left and is no recompile.
pub failure_backoff :
    (job_id : ℕ) (reason : List ℕ) (claim : Option Claim) (now now' : ℕ) (jobs jobs' : List Job)
    (r : Job)
    → find_key (λ r. r.job_id) job_id jobs ≡ some r
    → update_job_status job_id failed reason claim now now' jobs ≡ (true, jobs')
    → (r' : Job) × (find_key (λ r. r.job_id) job_id jobs' ≡ some r')
      × (r'.retries ≡ r.retries + 1)
      × ((t : ℕ)
          → is_claimable t r' ≡ (
              not (is_recompile r.task_type)
              && ltb (r.retries + 1) max_ingest_attempts
              && leb (now' + seconds (5 * 2 ^ r.retries)) t))
unfolding write_status
failure_backoff job_id reason claim now now' jobs jobs' r found e =
    let spent : retries_of job_id jobs ≡ r.retries = rw (found, retries_of) in
    let g = failed_row reason now (now' + seconds (5 * 2 ^ r.retries)) in
    let changed : update_where (λ x. x.job_id == job_id) g jobs ≡ jobs' =
      subst
        (λ n.
          update_where (λ x. x.job_id == job_id)
            (failed_row reason now (now' + seconds (5 * 2 ^ n))) jobs
          ≡ jobs')
        spent (update_job_status-written job_id reason claim now now' jobs jobs' e) in
    (
      g r,
      subst (λ rows. find_key (λ r. r.job_id) job_id rows ≡ some (g r)) changed
          (by_id g job_id jobs r (λ x. refl) found),
      refl,
      λ t. ground arith,
    )
