-- ===== src/Jobs/Lease.antt =====
-- vector_lake/db_store.py: the lease of a subagent on an ingest job, from claim to finalization.
pub mod Checks
use mathlib.Core.Bool.{cond}
use vector_lake.Prelude.{
  ℕ, suc, ◌+◌, ◌-◌, Bool, true, false, ◌&&◌, ◌||◌, not, Option, none, some, List, [], ◌∷◌, ◌++◌,
  map, ltb, leb, ◌==◌, if◌then◌else◌, take, max, is_some,
}
use vector_lake.Prelude.Sql.{
  sql_eq, null_or_le, update_where, select, row_count, fetch_one, order_by, find_key,
}
use vector_lake.Prelude.Result.{Result, ok, err, ◌>>=◌, ◌>>◌, require}
use vector_lake.Jobs.Row.{
  TaskType, JobStatus, subagent_processing, failed, finalized, Job, Payload, Host, seconds,
  text_or_empty, is_ingest_type, is_recompile, is_awaiting, is_processing,
}
use vector_lake.Jobs.Queue.{lease_end, codes}

-- The WHERE of `claim_subagent_jobs`, of its UPDATE and of `ingest_tasks_ready`.
abbrev pub is_leasable : ℕ → Job → Bool
is_leasable now r = is_awaiting r.status || is_processing r.status && null_or_le r.lease_until now

abbrev pub leased_row : ℕ → ℕ → ℕ → ℕ → Job → Job
leased_row now until owner token r = record r {
  status = subagent_processing;
  lease_until = some until;
  lease_owner = some owner;
  lease_token = some token;
  lease_generation = r.lease_generation + 1;
  updated_at = now;
}

-- One round of the loop: the UPDATE is guarded again, and the row is read back if it changed.
unfoldable pub lease_one : ℕ → ℕ → ℕ → ℕ → ℕ → List Job → Option Job × List Job
lease_one now until owner token job_id jobs =
    let guarded = λ (r : Job). r.job_id == job_id && is_leasable now r in
    let jobs' = update_where guarded (leased_row now until owner token) jobs in
    (if row_count guarded jobs == 1 then find_key (λ r. r.job_id) job_id jobs' else none, jobs')

abbrev pub push : Option Job → List Job → List Job
push none claimed = claimed
push (some r) claimed = r ∷ claimed

-- The loop. `tokens k` is the secret drawn for the job `k`.
unfoldable pub lease_each : ℕ → ℕ → ℕ → (ℕ → ℕ) → List ℕ → List Job → List Job × List Job
unfolding lease_one
lease_each now until owner tokens [] jobs = ([], jobs)
lease_each now until owner tokens (i ∷ ids) jobs =
    let (row, jobs') = lease_one now until owner (tokens i) i jobs in
    let (claimed, jobs'') = lease_each now until owner tokens ids jobs' in
    (push row claimed, jobs'')

-- The jobs that a claim selects.
unfoldable pub leasable_ids : ℕ → ℕ → List Job → List ℕ
leasable_ids limit now jobs =
    map (λ r. r.job_id)
      (take (max 1 limit) (
        order_by (λ r. r.created_at)
          (select (λ r. is_ingest_type r.task_type && is_leasable now r) jobs)))

unfoldable pub claim_subagent_jobs : ℕ → ℕ → ℕ → (ℕ → ℕ) → ℕ → List Job → List Job × List Job
unfolding leasable_ids lease_each
claim_subagent_jobs limit lease_seconds owner tokens now jobs =
    lease_each now (lease_end now lease_seconds) owner tokens (leasable_ids limit now jobs) jobs

unfoldable pub ingest_tasks_ready : ℕ → List Job → Bool
ingest_tasks_ready now jobs =
    is_some (fetch_one (λ r. is_ingest_type r.task_type && is_leasable now r) jobs)

-- The WHERE of the UPDATE of `finalize_ingest_job`.
abbrev pub is_finalizable : ℕ → ℕ → ℕ → ℕ → ℕ → Job → Bool
is_finalizable job_id owner token generation now r =
    r.job_id == job_id
    && is_processing r.status
    && sql_eq r.lease_owner (some owner)
    && sql_eq r.lease_token (some token)
    && r.lease_generation == generation
    && not (null_or_le r.lease_until now)

abbrev pub finalized_row : ℕ → ℕ → Job → Job
finalized_row now result r = record r {
  status = finalized;
  completed_at = some now;
  updated_at = now;
  lease_until = none;
  lease_owner = none;
  lease_token = none;
  error_msg = [];
  result_json = some result;
}

pub data LeaseError : Type 0 where
  unknown_job not_ingest_job wrong_status token_mismatch owner_mismatch : LeaseError
  generation_invalid generation_mismatch deadline_invalid lease_expired : LeaseError
  payload_invalid marker_refused marker_mismatch dispatch_differs : LeaseError
  source_mismatch name_mismatch source_hash_mismatch no_longer_finalizable : LeaseError

unfoldable pub finalize_ingest_job : ℕ → ℕ → ℕ → ℕ → ℕ → ℕ → List Job → Result LeaseError (List Job)
finalize_ingest_job job_id owner token generation result now jobs =
    let fits = is_finalizable job_id owner token generation now in
    if row_count fits jobs == 1
    then ok (update_where fits (finalized_row now result) jobs)
    else err no_longer_finalizable

abbrev pub expired_row : ℕ → Job → Job
expired_row now r = record r {
  status = failed;
  retries = r.retries + 1;
  error_msg = codes "Subagent task packet expired before finalization";
  updated_at = now;
  available_at = some now;
  lease_until = none;
  lease_owner = none;
  lease_token = none;
}

-- `cutoff` is before `now` by `max(1, max_age_seconds)`; a cutoff before the epoch expires nothing.
abbrev pub is_stale : ℕ → ℕ → Job → Bool
is_stale max_age_seconds now r =
    is_awaiting r.status && ltb (r.updated_at + seconds (max 1 max_age_seconds)) now

-- Two readings of the clock: of the cutoff, and of the UPDATE.
unfoldable pub expire_stale_subagent_jobs : ℕ → ℕ → ℕ → List Job → ℕ × List Job
expire_stale_subagent_jobs max_age_seconds now now' jobs = (
  row_count (is_stale max_age_seconds now) jobs,
  update_where (is_stale max_age_seconds now) (expired_row now') jobs,
)
