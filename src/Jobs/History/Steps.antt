-- ===== src/Jobs/History/Steps.antt =====
-- vector_lake/db_store.py: the functions of the jobs table, as changes of its rows.
pub mod Reports
pub mod Handover
pub mod Callers
pub mod Enqueue
use vector_lake.Prelude.{
  ℕ, ◌≡◌, ◌≢◌, Bool, true, false, Option, none, some, List, [], ◌∷◌, ◌++◌, All, arith, map,
  contains, take, max, ◌==◌, if◌then◌else◌, Bool-cases, inl, inr, refl, subst, sym, ◌∙◌,
}
use vector_lake.Prelude.Sql.{
  find_key, update_where, row_count, select, order_by, fetch_one, All-imp, All-intro, All-take,
  All-order_by, All-select,
}
use vector_lake.Prelude.Keys.{
  IsKeyed, Forall2, Forall2-refl, Forall2-trans, Forall2-update_where, All-found, All-same,
  All-ne_of_none, contains-map,
}
use mathlib.Core.Option.{some-injective}
use vector_lake.Prelude.Result.{ok}
use vector_lake.Jobs.Row.{TaskType, Job, Payload, Host}
use vector_lake.Jobs.Queue.{
  is_claimable, dispatched_row, lease_end, pending_ids, claim_pending_jobs,
}
use vector_lake.Jobs.Lease.{
  is_leasable, leased_row, lease_one, lease_each, leasable_ids, claim_subagent_jobs, is_finalizable,
  finalized_row, finalize_ingest_job, is_stale, expired_row, expire_stale_subagent_jobs,
}
use vector_lake.Jobs.History.Change.{IsBudgeted, Later, Later-refl, Later-trans}

-- An UPDATE whose WHERE alone makes the change of a row a legal one.
pub guarded_update :
    (p : Job → Bool) (g : Job → Job)
    → ((r : Job) → p r ≡ true → Later r (g r))
    → (jobs : List Job) → Forall2 Later jobs (update_where p g jobs)
guarded_update p g on jobs =
    Forall2-update_where Later (λ (r : Job). Unit {0}) p g (λ r _ e. on r e) Later-refl jobs
      (All-intro (λ (r : Job). Unit {0}) (λ r. tt) jobs)

leased_row-Later :
    (now until owner token : ℕ) (r : Job)
    → is_leasable now r ≡ true
    → Later r (leased_row now until owner token r)
leased_row-Later now until owner token r e = record {
  same_job = refl;
  generation = omega arith;
  budget = λ b. ground arith;
  done = λ d. ground arith;
}

pub lease_one-Later :
    (now until owner token job_id : ℕ) (jobs : List Job)
    → Forall2 Later jobs (lease_one now until owner token job_id jobs).1
unfolding lease_one
lease_one-Later now until owner token job_id jobs =
    guarded_update _ (leased_row now until owner token)
      (λ r e. leased_row-Later now until owner token r (ground arith)) jobs

pub lease_each-Later :
    (now until owner : ℕ) (tokens : ℕ → ℕ) (ids : List ℕ) (jobs : List Job)
    → Forall2 Later jobs (lease_each now until owner tokens ids jobs).1
unfolding lease_each
lease_each-Later now until owner tokens [] jobs = Forall2-refl Later Later-refl jobs
lease_each-Later now until owner tokens (i ∷ ids) jobs =
    let (row, jobs') = lease_one now until owner (tokens i) i jobs in
    Forall2-trans Later Later-trans jobs jobs' (lease_each now until owner tokens ids jobs').1
      (lease_one-Later now until owner (tokens i) i jobs)
      (lease_each-Later now until owner tokens ids jobs')

pub claim_subagent_jobs-Later :
    (limit lease_seconds owner : ℕ) (tokens : ℕ → ℕ) (now : ℕ) (jobs : List Job)
    → Forall2 Later jobs (claim_subagent_jobs limit lease_seconds owner tokens now jobs).1
unfolding claim_subagent_jobs
claim_subagent_jobs-Later limit lease_seconds owner tokens now jobs =
    lease_each-Later now (lease_end now lease_seconds) owner tokens (leasable_ids limit now jobs)
      jobs

finalized_row-Later :
    (job_id owner token generation result now : ℕ) (r : Job)
    → is_finalizable job_id owner token generation now r ≡ true
    → Later r (finalized_row now result r)
finalized_row-Later job_id owner token generation result now r e = record {
  same_job = refl;
  generation = omega arith;
  budget = λ b. ground arith;
  done = λ d. ground arith;
}

pub finalize_ingest_job-Later :
    (job_id owner token generation result now : ℕ) (jobs jobs' : List Job)
    → finalize_ingest_job job_id owner token generation result now jobs ≡ ok jobs'
    → Forall2 Later jobs jobs'
unfolding finalize_ingest_job
finalize_ingest_job-Later job_id owner token generation result now jobs jobs' e =
    let fits = is_finalizable job_id owner token generation now in
    let changed : update_where fits (finalized_row now result) jobs ≡ jobs' = ground arith in
    subst (Forall2 Later jobs) changed (
      guarded_update fits (finalized_row now result)
        (λ r f. finalized_row-Later job_id owner token generation result now r f) jobs)

expired_row-Later :
    (max_age_seconds now now' : ℕ) (r : Job)
    → is_stale max_age_seconds now r ≡ true
    → Later r (expired_row now' r)
expired_row-Later max_age_seconds now now' r e = record {
  same_job = refl;
  generation = omega arith;
  budget = λ b. ground (arith, b.left);
  done = λ d. ground arith;
}

pub expire_stale_subagent_jobs-Later :
    (max_age_seconds now now' : ℕ) (jobs : List Job)
    → Forall2 Later jobs (expire_stale_subagent_jobs max_age_seconds now now' jobs).1
unfolding expire_stale_subagent_jobs
expire_stale_subagent_jobs-Later max_age_seconds now now' jobs =
    guarded_update (is_stale max_age_seconds now) (expired_row now')
      (λ r e. expired_row-Later max_age_seconds now now' r e) jobs

-- The row that a lookup finds is claimable.
IsPending : ℕ → List Job → ℕ → Type 0
IsPending now jobs k =
    (r : Job) × (find_key (λ r. r.job_id) k jobs ≡ some r) × (is_claimable now r ≡ true)

IsPending-found :
    (limit now : ℕ) (jobs : List Job)
    → IsKeyed (λ r. r.job_id) jobs
    → (k : ℕ) → contains (pending_ids limit now jobs) k ≡ true
    → IsPending now jobs k
unfolding pending_ids IsPending
IsPending-found limit now jobs keyed =
    let P : Job → Type 0 = λ r. IsPending now jobs r.job_id in
    let rows = select (is_claimable now) jobs in
    contains-map (λ (r : Job). r.job_id) (IsPending now jobs)
      (take (max 1 limit) (order_by (λ r. r.created_at) rows))
      (All-take P (max 1 limit) (order_by (λ r. r.created_at) rows) (
        All-order_by P (λ r. r.created_at) rows
          (All-select (λ r. find_key (λ r. r.job_id) r.job_id jobs ≡ some r) P (is_claimable now)
            (λ r found e. (r, found, e)) jobs (All-found (λ r. r.job_id) jobs keyed))))

dispatched_row-Later :
    (now until : ℕ) (r : Job) → is_claimable now r ≡ true → Later r (dispatched_row until now r)
dispatched_row-Later now until r e = record {
  same_job = refl;
  generation = omega arith;
  budget = λ b. ground (arith, b.left);
  done = λ d. ground arith;
}

pub claim_pending_jobs-Later :
    (limit lease_seconds now : ℕ) (jobs : List Job)
    → IsKeyed (λ r. r.job_id) jobs
    → Forall2 Later jobs (claim_pending_jobs limit lease_seconds now jobs).1
unfolding claim_pending_jobs IsPending
claim_pending_jobs-Later limit lease_seconds now jobs keyed =
    let ids = pending_ids limit now jobs in
    let until = lease_end now lease_seconds in
    Forall2-update_where Later (λ (r : Job). find_key (λ r. r.job_id) r.job_id jobs ≡ some r)
      (λ r. contains ids r.job_id) (dispatched_row until now)
      (λ r found e.
        let (s, found', claimable) = IsPending-found limit now jobs keyed r.job_id e in
        let same : some s ≡ some r = sym found' ∙ found in
        dispatched_row-Later now until r
          (subst (λ x. is_claimable now x ≡ true) (some-injective s r same) claimable))
      Later-refl jobs (All-found (λ r. r.job_id) jobs keyed)
