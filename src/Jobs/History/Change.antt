-- ===== src/Jobs/History/Change.antt =====
-- vector_lake/db_store.py: one row of `jobs`, and the table, before and after a step.
use vector_lake.Prelude.{
  ◌≤◌, ◌<◌, ◌≡◌, ◌≢◌, Bool, true, false, ◌||◌, List, [], ◌∷◌, ◌++◌, All, refl, arith, sym, ◌∙◌,
}
use vector_lake.Prelude.Keys.{
  IsKeyed, Forall2, Forall2-refl, IsKeyed-Forall2, All-Forall2, All-append, IsKeyed-snoc,
}
use vector_lake.Jobs.Row.{
  JobStatus, queued, finalized, completed, superseded, Job, is_queued, is_dispatched, is_awaiting,
  is_processing, max_ingest_attempts,
}

-- In the dispatcher's or in a subagent's hands, or waiting for the first time.
abbrev pub is_live : JobStatus → Bool
is_live s = is_queued s || is_dispatched s || is_awaiting s || is_processing s

-- Finished, or replaced by another job.
abbrev pub is_done : JobStatus → Bool
is_done finalized = true
is_done completed = true
is_done superseded = true
is_done _ = false

-- The attempts that a job has spent.
pub record IsBudgeted (r : Job) : Type 0 where
  pub within : r.retries ≤ max_ingest_attempts
  pub left : is_live r.status ≡ true → r.retries < max_ingest_attempts

-- One row, before and after.
pub record Later (r r' : Job) : Type 0 where
  pub same_job : r'.job_id ≡ r.job_id
  pub generation : r.lease_generation ≤ r'.lease_generation
  pub budget : IsBudgeted r → IsBudgeted r'
  pub done : is_done r.status ≡ true → r'.status ≡ r.status

pub Later-refl : (r : Job) → Later r r
Later-refl r = record {
  same_job = refl;
  generation = omega arith;
  budget = λ b. b;
  done = λ _. refl;
}

pub Later-trans : (r s t : Job) → Later r s → Later s t → Later r t
Later-trans r s t p q = record {
  same_job = q.same_job ∙ p.same_job;
  generation = omega arith;
  budget = λ b. q.budget (p.budget b);
  done = λ d. q.done (rw (p.done d) d) ∙ p.done d;
}

-- The table: rows change, and at most one queued job is added, under a key that is new.
pub data Change (jobs : List Job) : List Job → Type 0 where
  updated : (jobs' : List Job) → Forall2 Later jobs jobs' → Change jobs jobs'
  appended :
      (kept : List Job) (x : Job)
      → Forall2 Later jobs kept
      → IsBudgeted x
      → x.status ≡ queued
      → All (λ r. r.job_id ≢ x.job_id) jobs
      → Change jobs (kept ++ x ∷ [])

pub Change-refl : (jobs : List Job) → Change jobs jobs
Change-refl jobs = updated jobs (Forall2-refl Later Later-refl jobs)

pub Change-IsKeyed :
    {jobs jobs' : List Job}
    → Change jobs jobs'
    → IsKeyed (λ r. r.job_id) jobs
    → IsKeyed (λ r. r.job_id) jobs'
Change-IsKeyed {jobs} (updated kept f) h =
    IsKeyed-Forall2 Later (λ r. r.job_id) (λ r s l. l.same_job) jobs kept f h
Change-IsKeyed {jobs} (appended kept x f b q new) h =
    IsKeyed-snoc (λ (r : Job). r.job_id) kept x
      (IsKeyed-Forall2 Later (λ r. r.job_id) (λ r s l. l.same_job) jobs kept f h)
      (All-Forall2 Later (λ r. r.job_id ≢ x.job_id) (λ r. r.job_id ≢ x.job_id)
        (λ r s l other e. other (sym l.same_job ∙ e)) jobs kept f new)

pub Change-IsBudgeted :
    {jobs jobs' : List Job} → Change jobs jobs' → All IsBudgeted jobs → All IsBudgeted jobs'
Change-IsBudgeted {jobs} (updated kept f) h =
    All-Forall2 Later IsBudgeted IsBudgeted (λ r s l. l.budget) jobs kept f h
Change-IsBudgeted {jobs} (appended kept x f b q new) h =
    All-append IsBudgeted kept (x ∷ [])
      (All-Forall2 Later IsBudgeted IsBudgeted (λ r s l. l.budget) jobs kept f h) (b, tt)
