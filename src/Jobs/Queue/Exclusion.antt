-- ===== src/Jobs/Queue/Exclusion.antt =====
-- vector_lake/db_store.py, `claim_pending_jobs`: two successive claims.
use vector_lake.Prelude.{
  ℕ, ◌<◌, ◌≡◌, ◌≢◌, refl, true, false, some, List, take, max, contains, All, arith, Bool-cases, inl,
  inr, subst,
}
use vector_lake.Prelude.Sql.{
  select, order_by, update_where, All-intro, All-imp, All-take, All-order_by, All-select,
  All-update_where,
}
use vector_lake.Prelude.Keys.{contains-map}
use vector_lake.Jobs.Row.{Job, dispatched}
use vector_lake.Jobs.Queue.{
  is_claimable, dispatched_row, lease_end, pending_ids, claim_pending_jobs,
}

-- Every row with one of these ids is dispatched under a lease that ends at `until`.
abbrev pub Holds : List ℕ → ℕ → Job → Type 0
Holds ids until r =
    contains ids r.job_id ≡ true → (r.status ≡ dispatched) × (r.lease_until ≡ some until)

Holds-claim :
    (ids : List ℕ) (until now : ℕ) (jobs : List Job)
    → All
        (Holds ids until)
        (update_where (λ r. contains ids r.job_id) (dispatched_row until now) jobs)
Holds-claim ids until now jobs =
    All-update_where (λ (r : Job). Unit {0}) (Holds ids until) (λ r. contains ids r.job_id)
      (dispatched_row until now) (λ r _ e _. (refl, refl)) (λ r _ e h. cc) jobs
      (All-intro (λ (r : Job). Unit {0}) (λ r. tt) jobs)

not-claimable_of_Holds :
    (ids : List ℕ) (until now : ℕ) (r : Job)
    → now < until
    → Holds ids until r
    → is_claimable now r ≡ true
    → contains ids r.job_id ≡ false
not-claimable_of_Holds ids until now r h held c = elim (Bool-cases (contains ids r.job_id)) [
  | inl e ↦ ground (arith, held e)
  | inr e ↦ e
]

-- While the lease runs, a later claim selects none of the jobs.
pub pending_ids_avoid :
    (ids : List ℕ) (until now limit : ℕ) (jobs : List Job)
    → now < until
    → All (Holds ids until) jobs
    → (k : ℕ) → contains (pending_ids limit now jobs) k ≡ true
    → contains ids k ≡ false
unfolding pending_ids
pending_ids_avoid ids until now limit jobs h held =
    let Free : Job → Type 0 = λ r. contains ids r.job_id ≡ false in
    contains-map (λ (r : Job). r.job_id) (λ k. contains ids k ≡ false)
      (take (max 1 limit) (order_by (λ r. r.created_at) (select (is_claimable now) jobs)))
      (All-take Free (max 1 limit) (order_by (λ r. r.created_at) (select (is_claimable now) jobs)) (
        All-order_by Free (λ r. r.created_at) (select (is_claimable now) jobs)
          (All-select (Holds ids until) Free (is_claimable now)
            (λ r held c. not-claimable_of_Holds ids until now r h held c) jobs held)))

-- What a claim returns: rows of the jobs it selected, dispatched until the end of its lease.
pub claimed_rows :
    (limit lease_seconds now : ℕ) (jobs : List Job)
    → All
        (λ r.
          (contains (pending_ids limit now jobs) r.job_id ≡ true)
          × (r.status ≡ dispatched)
          × (r.lease_until ≡ some (lease_end now lease_seconds)))
        (claim_pending_jobs limit lease_seconds now jobs).0
unfolding claim_pending_jobs
claimed_rows limit lease_seconds now jobs =
    let ids = pending_ids limit now jobs in
    let until = lease_end now lease_seconds in
    let Claimed : Job → Type 0 = λ r.
      (contains ids r.job_id ≡ true) × (r.status ≡ dispatched) × (r.lease_until ≡ some until) in
    let jobs' = update_where (λ r. contains ids r.job_id) (dispatched_row until now) jobs in
    All-order_by Claimed (λ r. r.created_at) (select (λ r. contains ids r.job_id) jobs')
      (All-select (Holds ids until) Claimed (λ r. contains ids r.job_id)
        (λ r held e. (e, (held e).0, (held e).1)) jobs' (Holds-claim ids until now jobs))

-- The table that a claim leaves.
pub Holds-claim_pending_jobs :
    (limit lease_seconds now : ℕ) (jobs : List Job)
    → All
        (Holds (pending_ids limit now jobs) (lease_end now lease_seconds))
        (claim_pending_jobs limit lease_seconds now jobs).1
unfolding claim_pending_jobs
Holds-claim_pending_jobs limit lease_seconds now jobs =
    Holds-claim (pending_ids limit now jobs) (lease_end now lease_seconds) now jobs

-- Of two successive claims, the second one made before the lease of the first ends, no job is
-- returned by both, whatever the limits, the table and the length of the second lease.
pub claim_pending_jobs_disjoint :
    (limit lease_seconds now limit' lease_seconds' now' : ℕ) (jobs : List Job)
    → now' < lease_end now lease_seconds
    → All
        (λ r.
          All
            (λ r'. r.job_id ≢ r'.job_id)
            (claim_pending_jobs limit' lease_seconds' now'
              (claim_pending_jobs limit lease_seconds now jobs).1).0)
        (claim_pending_jobs limit lease_seconds now jobs).0
claim_pending_jobs_disjoint limit lease_seconds now limit' lease_seconds' now' jobs h =
    let ids = pending_ids limit now jobs in
    let until = lease_end now lease_seconds in
    let jobs' = (claim_pending_jobs limit lease_seconds now jobs).1 in
    let again = (claim_pending_jobs limit' lease_seconds' now' jobs').0 in
    let ids' = pending_ids limit' now' jobs' in
    let Claimed : Job → Type 0 = λ r.
      (contains ids r.job_id ≡ true) × (r.status ≡ dispatched) × (r.lease_until ≡ some until) in
    let Again : Job → Type 0 = λ r.
      (contains ids' r.job_id ≡ true)
      × (r.status ≡ dispatched)
      × (r.lease_until ≡ some (lease_end now' lease_seconds')) in
    All-imp Claimed (λ r. All (λ r'. r.job_id ≢ r'.job_id) again)
      (λ r c.
        All-imp Again (λ r'. r.job_id ≢ r'.job_id)
          (λ r' c' e.
            let avoid : contains ids r'.job_id ≡ false =
              pending_ids_avoid ids until now' limit' jobs' h
                (Holds-claim_pending_jobs limit lease_seconds now jobs) r'.job_id c'.0 in
            let taken : contains ids r'.job_id ≡ true = subst (λ k. contains ids k ≡ true) e c.0 in
            cc)
          again (claimed_rows limit' lease_seconds' now' jobs'))
      (claim_pending_jobs limit lease_seconds now jobs).0
      (claimed_rows limit lease_seconds now jobs)
