-- ===== src/Jobs/Lease/Checks/Commit.antt =====
-- vector_lake/db_store.py: `validate_ingest_job_finalization` and then `finalize_ingest_job`.
use vector_lake.Prelude.{
  ℕ, ◌<◌, ◌≡◌, ◌≢◌, Bool, true, some, List, arith, if◌then◌else◌, Option-cases, inl, inr, refl,
}
use vector_lake.Prelude.Sql.{find_key, find_key-key, update_where, update_where-found, row_count}
use vector_lake.Prelude.Keys.{IsKeyed, row_count-one, find_key-other}
use vector_lake.Prelude.Result.{ok}
use vector_lake.Jobs.Row.{Job, Payload, Host}
use vector_lake.Jobs.Failure.{integer}
use vector_lake.Jobs.Lease.{is_finalizable, finalized_row, finalize_ingest_job}
use vector_lake.Jobs.Lease.Checks.{Processed, validate_row, validate_ingest_job_finalization}

validate_row-finalizable :
    (host : Host) (authorised : Payload → Bool) (job_id : ℕ) (row : Job) (processed : Processed)
    (p : Payload) (owner token generation now now' until : ℕ)
    → row.job_id ≡ job_id
    → processed.lease_owner ≡ some owner
    → processed.lease_token ≡ some token
    → processed.lease_generation ≡ integer generation
    → validate_row host authorised row processed now ≡ ok (row, p)
    → row.lease_until ≡ some until
    → now' < until
    → is_finalizable job_id owner token generation now' row ≡ true
unfolding validate_row
validate_row-finalizable host authorised job_id row processed p owner token generation now now'
      until i o t g e u h =
    ground arith

validate_row-row :
    (host : Host) (authorised : Payload → Bool) (r row : Job) (processed : Processed) (p : Payload)
    (now : ℕ)
    → validate_row host authorised r processed now ≡ ok (row, p)
    → r ≡ row
unfolding validate_row
validate_row-row host authorised r row processed p now e = ground arith

validated_row :
    (host : Host) (authorised : Payload → Bool) (job_id : ℕ) (processed : Processed) (row : Job)
    (p : Payload) (now : ℕ) (jobs : List Job)
    → validate_ingest_job_finalization host authorised job_id processed now jobs ≡ ok (row, p)
    → (find_key (λ r. r.job_id) job_id jobs ≡ some row)
      × (validate_row host authorised row processed now ≡ ok (row, p))
unfolding validate_ingest_job_finalization validate_row
validated_row host authorised job_id processed row p now jobs e =
    elim (Option-cases (find_key (λ r. r.job_id) job_id jobs)) [
      | inl missing ↦ cc (rw (missing, validate_ingest_job_finalization) at e)
      | inr (r, found) ↦
          let passed = rw (found, validate_ingest_job_finalization) at e in
          let same : r ≡ row = validate_row-row host authorised r row processed p now passed in
          (rw (← same) found, rw same at passed)
    ]

-- If the checks of `validate_ingest_job_finalization` pass, for a caller that shows its lease as
-- two texts and a number, then `finalize_ingest_job` with that lease succeeds at every time before
-- the lease ends: the job is then finalized with its lease cleared, and every other job is as it
-- was. The ids of the table are unique.
pub finalize_after_validate :
    (host : Host) (authorised : Payload → Bool) (job_id : ℕ) (processed : Processed) (row : Job)
    (p : Payload) (owner token generation result now now' until : ℕ) (jobs : List Job)
    → IsKeyed (λ r. r.job_id) jobs
    → processed.lease_owner ≡ some owner
    → processed.lease_token ≡ some token
    → processed.lease_generation ≡ integer generation
    → validate_ingest_job_finalization host authorised job_id processed now jobs ≡ ok (row, p)
    → row.lease_until ≡ some until
    → now' < until
    → (jobs' : List Job) × (finalize_ingest_job job_id owner token generation result now' jobs
        ≡ ok jobs')
      × (find_key (λ r. r.job_id) job_id jobs' ≡ some (finalized_row now' result row))
      × ((j : ℕ) → j ≢ job_id → find_key (λ r. r.job_id) j jobs' ≡ find_key (λ r. r.job_id) j jobs)
unfolding finalize_ingest_job
finalize_after_validate host authorised job_id processed row p owner token generation result now
      now' until jobs keyed o t g e u h =
    let fits = is_finalizable job_id owner token generation now' in
    let (found, passed) = validated_row host authorised job_id processed row p now jobs e in
    let fit : fits row ≡ true =
      validate_row-finalizable host authorised job_id row processed p owner token generation now
        now' until (find_key-key (λ (r : Job). r.job_id) job_id jobs found) o t g passed u h in
    let named : (y : Job) → fits y ≡ true → y.job_id ≡ job_id = λ y on. ground arith in
    let once : row_count fits jobs ≡ 1 =
      row_count-one (λ r. r.job_id) fits job_id jobs row keyed named found fit in
    let seen =
      update_where-found (λ (r : Job). r.job_id) fits (finalized_row now' result) (λ r. refl) job_id
        jobs found in
    (
      update_where fits (finalized_row now' result) jobs,
      rw once,
      rw (fit, if◌then◌else◌) at seen,
      λ j other.
          find_key-other (λ r. r.job_id) fits (finalized_row now' result) (λ r. refl) job_id j jobs
            named other,
    )
