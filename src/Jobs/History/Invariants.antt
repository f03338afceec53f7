-- ===== src/Jobs/History/Invariants.antt =====
-- vector_lake/db_store.py: the jobs table over a history.
use vector_lake.Prelude.{ℕ, ◌≤◌, ◌≡◌, true, some, List, [], ◌∷◌, All}
use vector_lake.Prelude.Sql.{find_key}
use vector_lake.Prelude.Keys.{IsKeyed, find_key-append, find_key-Forall2}
use vector_lake.Jobs.Row.{Job, Host}
use vector_lake.Jobs.History.{
  Step, enqueued, claimed, handed, handed_source, requeued, reset, dispatch_failed, leased,
  finalized, released, reported, registered, expired, closed, Reach, here, next,
}
use vector_lake.Jobs.History.Change.{
  IsBudgeted, Later, Later-refl, Later-trans, Change, updated, appended, Change-IsKeyed,
  Change-IsBudgeted, is_done,
}
use vector_lake.Jobs.History.Steps.{
  claim_pending_jobs-Later, claim_subagent_jobs-Later, finalize_ingest_job-Later,
  expire_stale_subagent_jobs-Later,
}
use vector_lake.Jobs.History.Steps.Reports.{
  release_job_for_retry-Later, update_job_status-Later, fail_dispatch_claim-Later,
}
use vector_lake.Jobs.History.Steps.Handover.{
  mark_job_awaiting_subagent-Later, registered-Later, close_terminal_failed_jobs-Later,
}
use vector_lake.Jobs.History.Steps.Callers.{
  hand_over_source-Later, requeue_legacy_ingest_jobs-Later, reset_jobs-Later,
}
use vector_lake.Jobs.History.Steps.Enqueue.{enqueue_job-Change}

pub Step-Change :
    {host : Host} {jobs jobs' : List Job}
    → Step host jobs jobs'
    → IsKeyed (λ r. r.job_id) jobs
    → Change jobs jobs'
Step-Change {host} (enqueued t p key replace supersede i now jobs new) k =
    enqueue_job-Change host t p key replace supersede i now jobs k new
Step-Change (claimed limit lease now jobs) k =
    updated _ (claim_pending_jobs-Later limit lease now jobs k)
Step-Change {host} (handed i path shown p claim now jobs jobs' e) k =
    updated jobs' (mark_job_awaiting_subagent-Later host i path shown p claim now jobs jobs' k e)
Step-Change {host} (handed_source i payload path shown now jobs jobs' r found q e) k =
    updated jobs' (hand_over_source-Later host i payload path shown now jobs jobs' r k found q e)
Step-Change (requeued now ms jobs) k = updated _ (requeue_legacy_ingest_jobs-Later now ms jobs)
Step-Change (reset now jobs) k = updated _ (reset_jobs-Later now jobs)
Step-Change (dispatch_failed claim reason now now' now'' jobs) k =
    updated _ (fail_dispatch_claim-Later claim reason now now' now'' jobs k)
Step-Change (leased limit lease owner tokens now jobs) k =
    updated _ (claim_subagent_jobs-Later limit lease owner tokens now jobs)
Step-Change (finalized i owner token generation result now jobs jobs' e) k =
    updated jobs' (finalize_ingest_job-Later i owner token generation result now jobs jobs' e)
Step-Change (released i reason claim delay now jobs jobs' done e) k =
    updated jobs' (release_job_for_retry-Later i reason claim delay now jobs jobs' done k e)
Step-Change (reported i reason claim now now' jobs) k =
    updated _ (update_job_status-Later i reason claim now now' jobs k)
Step-Change (registered i now now' jobs r found q) k =
    updated _ (registered-Later i now now' jobs r k found q)
Step-Change (expired age now now' jobs) k =
    updated _ (expire_stale_subagent_jobs-Later age now now' jobs)
Step-Change {host} (closed proven files only now jobs) k =
    updated _ (close_terminal_failed_jobs-Later host proven files only now jobs)

-- In every history that starts from a keyed table whose jobs are within their budget, ids stay
-- unique, the attempts that a job counts are three at most, and a job that is queued, dispatched,
-- awaiting or processing has one left. A job whose old packet is rebuilt counts from zero again.
pub Reach-IsBudgeted :
    {host : Host} {start jobs : List Job}
    → IsKeyed (λ r. r.job_id) start
    → All IsBudgeted start
    → Reach host start jobs
    → IsKeyed (λ r. r.job_id) jobs × All IsBudgeted jobs
Reach-IsBudgeted keyed b here = (keyed, b)
Reach-IsBudgeted keyed b (next r s) =
    let (keyed', b') = Reach-IsBudgeted keyed b r in
    let c = Step-Change s keyed' in (Change-IsKeyed c keyed', Change-IsBudgeted c b')

Change-find :
    (k : ℕ) {jobs jobs' : List Job} {r : Job}
    → Change jobs jobs'
    → find_key (λ r. r.job_id) k jobs ≡ some r
    → (r' : Job) × (find_key (λ r. r.job_id) k jobs' ≡ some r') × Later r r'
Change-find k {jobs} {r = r} (updated kept f) e =
    find_key-Forall2 (λ r. r.job_id) Later (λ r s l. l.same_job) k jobs kept r f e
Change-find k {jobs} {r = r} (appended kept x f b q new) e =
    let (r', found, l) =
      find_key-Forall2 (λ r. r.job_id) Later (λ r s l. l.same_job) k jobs kept r f e in
    (r', find_key-append (λ r. r.job_id) k kept (x ∷ []) r' found, l)

pub Reach-IsKeyed :
    {host : Host} {start jobs : List Job}
    → IsKeyed (λ r. r.job_id) start
    → Reach host start jobs
    → IsKeyed (λ r. r.job_id) jobs
Reach-IsKeyed keyed here = keyed
Reach-IsKeyed keyed (next r s) =
    let keyed' = Reach-IsKeyed keyed r in Change-IsKeyed (Step-Change s keyed') keyed'

pub Reach-find :
    {host : Host} {start jobs : List Job} (k : ℕ) (r : Job)
    → IsKeyed (λ r. r.job_id) start
    → find_key (λ r. r.job_id) k start ≡ some r
    → Reach host start jobs
    → (r' : Job) × (find_key (λ r. r.job_id) k jobs ≡ some r') × Later r r'
Reach-find k r keyed found here = (r, found, Later-refl r)
Reach-find k r keyed found (next history s) =
    let (r', found', l) = Reach-find k r keyed found history in
    let (r'', found'', l') = Change-find k (Step-Change s (Reach-IsKeyed keyed history)) found' in
    (r'', found'', Later-trans r r' r'' l l')

-- In every history a job that is in the table stays in it; its lease generation never falls, and
-- once it is finalized, completed or superseded its status never changes again.
pub Reach-Later :
    {host : Host} {start jobs : List Job} (k : ℕ) (r : Job)
    → IsKeyed (λ r. r.job_id) start
    → find_key (λ r. r.job_id) k start ≡ some r
    → Reach host start jobs
    → (r' : Job) × (find_key (λ r. r.job_id) k jobs ≡ some r')
      × (r.lease_generation ≤ r'.lease_generation)
      × (is_done r.status ≡ true → r'.status ≡ r.status)
Reach-Later k r keyed found history =
    let (r', found', l) = Reach-find k r keyed found history in (r', found', l.generation, l.done)
