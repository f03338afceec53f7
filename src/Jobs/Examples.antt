-- ===== src/Jobs/Examples.antt =====
-- vector_lake/db_store.py: the theorems on the jobs table, applied to small tables.
use vector_lake.Prelude.{
  ℕ, ◌+◌, ◌≡◌, ◌≢◌, ◌≤◌, ◌&&◌, leb, true, false, none, some, List, [], ◌∷◌, All, refl, arith, Memᴰ,
}
use vector_lake.Prelude.Sql.{
  find_key, fetch_one, update_where, order_by, insert_by, select, row_count,
}
use vector_lake.Prelude.Keys.{IsKeyed}
use vector_lake.Prelude.Result.{ok, err}
use vector_lake.Jobs.Row.{
  ingest, JobStatus, queued, awaiting_subagent, subagent_processing, failed, Job, Payload, Host,
  seconds,
}
use vector_lake.Jobs.Queue.{claim_pending_jobs, enqueue_job, is_claimable}
use vector_lake.Jobs.Lease.{
  claim_subagent_jobs, lease_each, lease_one, leasable_ids, finalize_ingest_job, finalized_row,
  no_longer_finalizable,
}
use vector_lake.Jobs.Lease.Checks.{
  Processed, validate_ingest_job_finalization, validate_row, check_payload,
}
use vector_lake.Jobs.Lease.Checks.Commit.{finalize_after_validate}
use vector_lake.Jobs.Failure.{
  Claim, released_row, failed_row, integer, claim_of, release_job_for_retry, update_job_status,
  row_is_current, ingest_failure_claim_current, write_status,
}
use vector_lake.Jobs.Failure.Retry.{release_then_claimable, failure_backoff}
use vector_lake.Jobs.Queue.Exclusion.{claim_pending_jobs_disjoint}
use vector_lake.Jobs.Queue.Dedup.{HasDistinctKeys, enqueue_job-HasDistinctKeys, enqueue_again}
use vector_lake.Jobs.Ledger.{
  AbandonedSource, is_source, record_abandoned_source, clear_abandoned_sources,
}
use vector_lake.Jobs.Ledger.Abandoned.{count_of, others, record_abandoned_source-counts}
use vector_lake.Jobs.History.{here, next, claimed}
use vector_lake.Jobs.History.Change.{IsBudgeted, is_done}
use vector_lake.Jobs.History.Invariants.{Reach-IsBudgeted, Reach-Later}
use vector_lake.Jobs.History.Reporting.{IsIgnored, stale_lease_never_reports}
use vector_lake.Jobs.History.Fencing.{stale_lease_never_finalizes}

abbrev source : Payload
source = record {
  filepath = some 11;
  file_hash = some 12;
  canonical_name = none;
  source_hash = some 14;
  controlled_recompile = none;
  integration_candidates = none;
  source_projection_hash = none;
  ingest_contract_version = none;
  source_read_path = none;
}

abbrev host : Host
host = record {
  json_loads = λ n. some source;
  json_dumps = λ p. 7;
  sha256 = λ a b c. a + b + c + 1;
}

abbrev job : ℕ → JobStatus → Job
job i s = record {
  job_id = i;
  task_type = ingest;
  payload = 7;
  status = s;
  retries = 0;
  error_msg = [];
  created_at = 100 + i;
  updated_at = 100 + i;
  available_at = none;
  lease_until = none;
  lease_owner = none;
  lease_token = none;
  lease_generation = 0;
  idempotency_key = some (500 + i);
  task_packet_path = none;
  completed_at = none;
  result_json = none;
}

abbrev leased_job : Job
leased_job = record (job 1 subagent_processing) {
  lease_until = some 5000;
  lease_owner = some 3;
  lease_token = some 4;
  lease_generation = 2;
}

abbrev two_jobs : List Job
two_jobs = job 1 queued ∷ job 2 failed ∷ []

abbrev awaiting : List Job
awaiting = job 1 awaiting_subagent ∷ job 2 queued ∷ []

two_jobs-IsKeyed : IsKeyed (λ (r : Job). r.job_id) two_jobs
two_jobs-IsKeyed = ((λ e. ground arith, tt), (tt, tt))

awaiting-IsKeyed : IsKeyed (λ (r : Job). r.job_id) awaiting
awaiting-IsKeyed = ((λ e. ground arith, tt), (tt, tt))

found_1 : find_key (λ (r : Job). r.job_id) 1 awaiting ≡ some (job 1 awaiting_subagent)
unfolding fetch_one
found_1 = refl

found_leased : find_key (λ (r : Job). r.job_id) 1 (leased_job ∷ []) ≡ some leased_job
unfolding fetch_one
found_leased = refl

abbrev one_released : List Job
one_released = released_row [] 4000 60004000 leased_job ∷ []

released_now :
    release_job_for_retry 1 [] (some (claim_of leased_job)) 60000000 4000 (leased_job ∷ [])
    ≡ ok (true, one_released)
unfolding release_job_for_retry row_is_current ingest_failure_claim_current fetch_one update_where
released_now = refl

abbrev one_failed : List Job
one_failed = failed_row [] 4000 5004000 leased_job ∷ []

failed_now :
    update_job_status 1 failed [] (some (claim_of leased_job)) 4000 4000 (leased_job ∷ [])
    ≡ (true, one_failed)
unfolding update_job_status row_is_current ingest_failure_claim_current write_status fetch_one
    update_where
failed_now = refl

abbrev processed : Processed
processed = record {
  lease_token = some 4;
  lease_owner = some 3;
  lease_generation = integer 2;
  fields = source;
}

validated :
    validate_ingest_job_finalization host (λ p. false) 1 processed 4000 (leased_job ∷ [])
    ≡ ok (leased_job, source)
unfolding validate_ingest_job_finalization validate_row check_payload fetch_one
validated = refl

claim_pending_jobs_disjoint_example :
    All
      (λ r.
        All
          (λ r'. r.job_id ≢ r'.job_id)
          (claim_pending_jobs 5 300 1001 (claim_pending_jobs 1 300 1000 two_jobs).1).0)
      (claim_pending_jobs 1 300 1000 two_jobs).0
claim_pending_jobs_disjoint_example =
    claim_pending_jobs_disjoint 1 300 1000 5 300 1001 two_jobs (omega arith)

abbrev leased_row_1 : Job
leased_row_1 = record (job 1 awaiting_subagent) {
  status = subagent_processing;
  lease_until = some 300001000;
  lease_owner = some 3;
  lease_token = some 9;
  lease_generation = 1;
  updated_at = 1000;
}

leased_row_1-claimed : Memᴰ leased_row_1 (claim_subagent_jobs 5 300 3 (λ i. 9) 1000 awaiting).0
unfolding claim_subagent_jobs lease_each lease_one leasable_ids select order_by insert_by fetch_one
    update_where row_count
leased_row_1-claimed = Memᴰ.head refl

stale_lease_never_finalizes_example :
    finalize_ingest_job 1 3 4 0 8 2000 (claim_subagent_jobs 5 300 3 (λ i. 9) 1000 awaiting).1
    ≡ err no_longer_finalizable
stale_lease_never_finalizes_example =
    stale_lease_never_finalizes {host = host} 1 (job 1 awaiting_subagent) 5 300 3 (λ i. 9) 1000
      leased_row_1 awaiting-IsKeyed found_1 here leased_row_1-claimed refl here 3 4 8 2000

leased_row_1-found :
    find_key (λ r. r.job_id) 1 (claim_subagent_jobs 5 300 3 (λ i. 9) 1000 awaiting).1
    ≡ some leased_row_1
unfolding claim_subagent_jobs lease_each lease_one leasable_ids select order_by insert_by fetch_one
    update_where row_count
leased_row_1-found = refl

-- The claim of the generation 0, with the token that is valid now.
abbrev old_claim : Claim
old_claim = record (claim_of leased_row_1) { lease_generation = integer 0 }

stale_lease_never_reports_example :
    IsIgnored 1 old_claim 2000 (claim_subagent_jobs 5 300 3 (λ i. 9) 1000 awaiting).1
stale_lease_never_reports_example =
    stale_lease_never_reports {host = host} 1 (job 1 awaiting_subagent) 5 300 3 (λ i. 9) 1000
      leased_row_1 awaiting-IsKeyed found_1 here leased_row_1-claimed refl here leased_row_1
      old_claim 2000 leased_row_1-found refl refl

awaiting-IsBudgeted : All IsBudgeted awaiting
awaiting-IsBudgeted = (
  record { within = omega arith; left = λ e. omega arith },
  (record { within = omega arith; left = λ e. omega arith }, tt),
)

Reach-IsBudgeted_example :
    IsKeyed (λ (r : Job). r.job_id) (claim_pending_jobs 5 300 1000 awaiting).1
    × All IsBudgeted (claim_pending_jobs 5 300 1000 awaiting).1
Reach-IsBudgeted_example =
    Reach-IsBudgeted {host = host} awaiting-IsKeyed awaiting-IsBudgeted
      (next here (claimed 5 300 1000 awaiting))

Reach-Later_example :
    (r' : Job) × (find_key (λ r. r.job_id) 1 (claim_pending_jobs 5 300 1000 awaiting).1 ≡ some r')
    × ((job 1 awaiting_subagent).lease_generation ≤ r'.lease_generation)
    × (is_done (job 1 awaiting_subagent).status ≡ true → r'.status ≡ awaiting_subagent)
Reach-Later_example =
    Reach-Later {host = host} 1 (job 1 awaiting_subagent) awaiting-IsKeyed found_1
      (next here (claimed 5 300 1000 awaiting))

two_jobs-HasDistinctKeys : HasDistinctKeys two_jobs
two_jobs-HasDistinctKeys = ((refl, tt), (tt, tt))

enqueue_job-HasDistinctKeys_example :
    HasDistinctKeys (enqueue_job host ingest source (some 501) true true 3 2000 two_jobs).1
enqueue_job-HasDistinctKeys_example =
    enqueue_job-HasDistinctKeys host ingest source (some 501) true true 3 2000 two_jobs
      (λ a b c e. omega arith) two_jobs-HasDistinctKeys

enqueue_again_example :
    enqueue_job host ingest source
      (some 501)
      false
      false
      4
      3000
      (enqueue_job host ingest source (some 501) true true 3 2000 two_jobs).1
    ≡ enqueue_job host ingest source (some 501) true true 3 2000 two_jobs
enqueue_again_example =
    enqueue_again host ingest source true true 501 3 2000 4 3000 two_jobs (λ e. omega arith)
      two_jobs-HasDistinctKeys

release_then_claimable_example :
    (r' : Job) × (find_key (λ r. r.job_id) 1 one_released ≡ some r')
    × (r'.retries ≡ 0)
    × (seconds 1 ≤ seconds 60)
    × (seconds 60 ≤ seconds 3600)
    × ((t : ℕ) → is_claimable t r' ≡ (true && true && leb (4000 + seconds 60) t))
release_then_claimable_example =
    release_then_claimable 1 [] (some (claim_of leased_job)) (seconds 60) 4000 (leased_job ∷ [])
      one_released leased_job found_leased released_now

failure_backoff_example :
    (r' : Job) × (find_key (λ r. r.job_id) 1 one_failed ≡ some r')
    × (r'.retries ≡ 1)
    × ((t : ℕ) → is_claimable t r' ≡ (true && true && leb (4000 + seconds 5) t))
failure_backoff_example =
    failure_backoff 1 [] (some (claim_of leased_job)) 4000 4000 (leased_job ∷ []) one_failed
      leased_job found_leased failed_now

finalize_after_validate_example :
    (jobs' : List Job) × (finalize_ingest_job 1 3 4 2 8 4001 (leased_job ∷ []) ≡ ok jobs')
    × (find_key (λ r. r.job_id) 1 jobs' ≡ some (finalized_row 4001 8 leased_job))
    × ((j : ℕ)
        → j ≢ 1
        → find_key (λ r. r.job_id) j jobs' ≡ find_key (λ r. r.job_id) j (leased_job ∷ []))
finalize_after_validate_example =
    finalize_after_validate host (λ p. false) 1 processed leased_job source 3 4 2 8 4000 4001 5000
      (leased_job ∷ []) (tt, tt) refl refl refl validated refl (omega arith)

abbrev abandoned : List AbandonedSource
abandoned =
    record { filepath = 11; file_hash = 12; reason = []; terminal_jobs = 2; abandoned_at = 50 } ∷ []

record_abandoned_source-counts_example :
    (count_of 11 12 (record_abandoned_source 11 12 [] 60 abandoned).1
      ≡ count_of 11 12 abandoned + 1)
    × ((record_abandoned_source 11 12 [] 60 abandoned).0 ≡ count_of 11 12 abandoned + 1)
    × (others 11 12 (record_abandoned_source 11 12 [] 60 abandoned).1 ≡ others 11 12 abandoned)
    × ((k : ℕ)
        → fetch_one
            (is_source 11 k)
            (clear_abandoned_sources (some 11) (record_abandoned_source 11 12 [] 60 abandoned).1).1
          ≡ none)
record_abandoned_source-counts_example = record_abandoned_source-counts 11 12 [] 60 abandoned
