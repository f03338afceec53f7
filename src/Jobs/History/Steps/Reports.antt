-- ===== src/Jobs/History/Steps/Reports.antt =====
-- vector_lake/db_store.py: the functions that write to one job, as changes of its row.
use vector_lake.Prelude.{
  ℕ, ◌+◌, ◌*◌, ◌^◌, ◌≡◌, Bool, true, ◌&&◌, not, Option, none, some, List, arith, ◌==◌, ==_iff,
  Bool-cases, Option-cases, inl, inr, refl, subst, sym,
}
use vector_lake.Prelude.Sql.{find_key, update_where, fetch_one, sql_eq, null_or_le, All-fetch_one}
use vector_lake.Prelude.Keys.{
  IsKeyed, Forall2, Forall2-refl, Forall2-update_where, All-same, All-found,
}
use vector_lake.Prelude.Result.{ok}
use vector_lake.Jobs.Row.{failed, Job, seconds, is_dispatched}
use vector_lake.Jobs.Failure.{
  Claim, ingest_failure_claim_current, row_is_current, released_row, release_job_for_retry,
  failed_row, retries_of, write_status, update_job_status, dispatch_claim_current,
  fail_dispatch_claim,
}
use vector_lake.Jobs.History.Change.{Later, Later-refl}

-- An UPDATE of the row of one job, in a keyed table where that row is known.
pub one_row_update :
    (job_id : ℕ) (g : Job → Job) (jobs : List Job) (r : Job)
    → IsKeyed (λ r. r.job_id) jobs
    → find_key (λ r. r.job_id) job_id jobs ≡ some r
    → Later r (g r)
    → Forall2 Later jobs (update_where (λ x. x.job_id == job_id) g jobs)
one_row_update job_id g jobs r keyed found l =
    Forall2-update_where Later (λ (x : Job). x.job_id ≡ job_id → x ≡ r) (λ x. x.job_id == job_id) g
      (λ x same e. subst (λ (y : Job). Later y (g y)) (sym (same ((==_iff x.job_id job_id).0 e))) l)
      Later-refl jobs (All-same (λ r. r.job_id) job_id jobs keyed found)

-- A lookup that a guard passed has found a row for which the guard holds.
row_is_current-found :
    (job_id : ℕ) (claim : Option Claim) (now : ℕ) (jobs : List Job)
    → row_is_current job_id claim now jobs ≡ true
    → (r : Job) × (find_key (λ r. r.job_id) job_id jobs ≡ some r)
      × (ingest_failure_claim_current r claim now ≡ true)
unfolding row_is_current
row_is_current-found job_id claim now jobs e =
    elim (Option-cases (find_key (λ r. r.job_id) job_id jobs)) [
      | inl missing ↦ cc (rw (missing, row_is_current) at e)
      | inr (r, found) ↦ (r, found, rw (found, row_is_current) at e)
    ]

released_row-Later :
    (reason : List ℕ) (claim : Option Claim) (now available : ℕ) (r : Job)
    → ingest_failure_claim_current r claim now ≡ true
    → Later r (released_row reason now available r)
unfolding ingest_failure_claim_current
released_row-Later reason none now available r e = record {
  same_job = refl;
  generation = omega arith;
  budget = λ b. ground arith;
  done = λ d. ground arith;
}
released_row-Later reason (some c) now available r e = record {
  same_job = refl;
  generation = omega arith;
  budget = λ b. ground arith;
  done = λ d. ground arith;
}

failed_row-Later :
    (reason : List ℕ) (claim : Claim) (now now' available : ℕ) (r : Job)
    → ingest_failure_claim_current r (some claim) now ≡ true
    → Later r (failed_row reason now' available r)
unfolding ingest_failure_claim_current
failed_row-Later reason claim now now' available r e = record {
  same_job = refl;
  generation = omega arith;
  budget = λ b. ground (arith, b.left);
  done = λ d. ground arith;
}

pub release_job_for_retry-Later :
    (job_id : ℕ) (reason : List ℕ) (claim : Option Claim) (delay now : ℕ) (jobs jobs' : List Job)
    (done : Bool)
    → IsKeyed (λ r. r.job_id) jobs
    → release_job_for_retry job_id reason claim delay now jobs ≡ ok (done, jobs')
    → Forall2 Later jobs jobs'
unfolding release_job_for_retry
release_job_for_retry-Later job_id reason claim delay now jobs jobs' done keyed e =
    elim (Bool-cases (row_is_current job_id claim now jobs)) [
      | inl current ↦
          let (r, found, holds) = row_is_current-found job_id claim now jobs current in
          subst (Forall2 Later jobs) (ground arith) (
            one_row_update job_id (released_row reason now (now + delay)) jobs r keyed found
              (released_row-Later reason claim now (now + delay) r holds))
      | inr stale ↦ subst (Forall2 Later jobs) (ground arith) (Forall2-refl Later Later-refl jobs)
    ]

pub update_job_status-Later :
    (job_id : ℕ) (reason : List ℕ) (claim : Claim) (now now' : ℕ) (jobs : List Job)
    → IsKeyed (λ r. r.job_id) jobs
    → Forall2 Later jobs (update_job_status job_id failed reason (some claim) now now' jobs).1
unfolding update_job_status write_status
update_job_status-Later job_id reason claim now now' jobs keyed =
    elim (Bool-cases (row_is_current job_id (some claim) now jobs)) [
      | inl current ↦
          let (r, found, holds) = row_is_current-found job_id (some claim) now jobs current in
          let available = now' + seconds (5 * 2 ^ retries_of job_id jobs) in
          rw current (
            one_row_update job_id (failed_row reason now available) jobs r keyed found
              (failed_row-Later reason claim now now available r holds))
      | inr stale ↦ rw stale (Forall2-refl Later Later-refl jobs)
    ]

-- With the claim that it holds the dispatcher's row is live.
pub dispatch_current-found :
    (claim : Job) (now : ℕ) (jobs : List Job)
    → IsKeyed (λ r. r.job_id) jobs
    → dispatch_claim_current claim now jobs ≡ true
    → (r : Job) × (find_key (λ r. r.job_id) claim.job_id jobs ≡ some r)
      × (is_dispatched r.status ≡ true)
unfolding dispatch_claim_current
dispatch_current-found claim now jobs keyed e =
    let exact : Job → Bool = λ r.
      r.job_id == claim.job_id
      && is_dispatched r.status
      && sql_eq r.lease_until claim.lease_until
      && not (null_or_le r.lease_until now)
      && r.updated_at == claim.updated_at
      && r.payload == claim.payload in
    elim (Option-cases (fetch_one exact jobs)) [
      | inl missing ↦ cc (rw missing at e)
      | inr (r, fetched) ↦
          let (found, fits) =
            All-fetch_one (λ r. find_key (λ r. r.job_id) r.job_id jobs ≡ some r) exact jobs
              (All-found (λ r. r.job_id) jobs keyed) fetched in
          let same : r.job_id ≡ claim.job_id = ground arith in
          (r, subst (λ k. find_key (λ r. r.job_id) k jobs ≡ some r) same found, ground arith)
    ]

dispatched-failed-Later :
    (reason : List ℕ) (now available : ℕ) (r : Job)
    → is_dispatched r.status ≡ true
    → Later r (failed_row reason now available r)
dispatched-failed-Later reason now available r e = record {
  same_job = refl;
  generation = omega arith;
  budget = λ b. ground (arith, b.left);
  done = λ d. ground arith;
}

pub fail_dispatch_claim-Later :
    (claim : Job) (reason : List ℕ) (now now' now'' : ℕ) (jobs : List Job)
    → IsKeyed (λ r. r.job_id) jobs
    → Forall2 Later jobs (fail_dispatch_claim claim reason now now' now'' jobs).1
unfolding fail_dispatch_claim update_job_status write_status
fail_dispatch_claim-Later claim reason now now' now'' jobs keyed =
    elim (Bool-cases (dispatch_claim_current claim now jobs)) [
      | inl current ↦
          let (r, found, held) = dispatch_current-found claim now jobs keyed current in
          let available = now'' + seconds (5 * 2 ^ retries_of claim.job_id jobs) in
          rw current (
            one_row_update claim.job_id (failed_row reason now' available) jobs r keyed found
              (dispatched-failed-Later reason now' available r held))
      | inr lost ↦ rw lost (Forall2-refl Later Later-refl jobs)
    ]
