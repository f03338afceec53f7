-- ===== src/Jobs/Failure.antt =====
-- vector_lake/db_store.py: who may report on a job, and how a job fails, is released for a retry,
-- or is handed to a subagent.
pub mod Retry
use mathlib.Core.Bool.{cond}
use vector_lake.Prelude.{
  ℕ, ◌+◌, ◌*◌, ◌^◌, Bool, true, false, ◌&&◌, ◌||◌, not, Option, none, some, List, ◌++◌, ltb, leb,
  ◌==◌, if◌then◌else◌, take, is_some,
}
use vector_lake.Prelude.Sql.{sql_eq, null_or_le, update_where, fetch_one, find_key}
use vector_lake.Prelude.Result.{Result, ok, err, ◌>>=◌, ◌>>◌, require}
use vector_lake.Jobs.Row.{
  JobStatus, queued, dispatched, awaiting_subagent, subagent_processing, failed, Job, Payload, Host,
  max_ingest_attempts, seconds, text_or_empty, is_truthy, is_ingest_type, is_queued, is_failed,
  is_dispatched, is_terminal_success,
}
use vector_lake.Jobs.Queue.{codes}

-- What a caller hands in as `lease_generation`, and `int(…)` of it.
pub data GenerationToken : Type 0 where
  absent : GenerationToken
  boolean : Bool → GenerationToken
  integer : ℕ → GenerationToken
  spelled : Option ℕ → GenerationToken  -- a text, and the number that it spells
  negative : GenerationToken
  other_value : GenerationToken

-- A claim as a caller holds it: a dict, in which every key may be missing.
pub record Claim : Type 0 where
  pub job_id : Option ℕ
  pub lease_until : Option ℕ
  pub updated_at : Option ℕ
  pub payload : Option ℕ
  pub lease_owner : Option ℕ
  pub lease_token : Option ℕ
  pub lease_generation : GenerationToken

-- The claim that a claimed row is, as the runner hands it back.
abbrev pub claim_of : Job → Claim
claim_of r = record {
  job_id = some r.job_id;
  lease_until = r.lease_until;
  updated_at = some r.updated_at;
  payload = some r.payload;
  lease_owner = r.lease_owner;
  lease_token = r.lease_token;
  lease_generation = integer r.lease_generation;
}

-- Python's == on texts and None
abbrev pub opt_eq : Option ℕ → Option ℕ → Bool
opt_eq none none = true
opt_eq (some a) (some b) = a == b
opt_eq _ _ = false

abbrev pub is_after : Option ℕ → ℕ → Bool
is_after t now = not (null_or_le t now)

-- isinstance(token, (int, str)), not a bool, and int(token) == generation
abbrev pub token_matches : GenerationToken → ℕ → Bool
token_matches (integer n) g = n == g
token_matches (spelled (some n)) g = n == g
token_matches _ g = false

-- The branches of `_ingest_failure_claim_current`: no claim, a dispatch claim, a model lease.
abbrev pub unleased_current : Job → Bool
unleased_current r =
    (is_queued r.status || is_failed r.status)
    && ltb r.retries max_ingest_attempts
    && not (is_truthy r.lease_owner || is_truthy r.lease_token || is_some r.lease_until)

abbrev pub dispatch_current : Job → Claim → ℕ → Bool
dispatch_current r c now =
    opt_eq r.lease_until c.lease_until
    && opt_eq (some r.updated_at) c.updated_at
    && opt_eq (some r.payload) c.payload
    && is_after r.lease_until now

abbrev pub lease_current : Job → Claim → ℕ → Bool
lease_current r c now =
    is_truthy r.lease_owner
    && opt_eq r.lease_owner c.lease_owner
    && is_truthy r.lease_token
    && opt_eq r.lease_token c.lease_token
    && token_matches c.lease_generation r.lease_generation
    && is_after r.lease_until now

abbrev pub current_by_status : JobStatus → Job → Claim → ℕ → Bool
current_by_status dispatched r c now = dispatch_current r c now
current_by_status subagent_processing r c now = lease_current r c now
current_by_status _ r c now = false

unfoldable pub ingest_failure_claim_current : Job → Option Claim → ℕ → Bool
ingest_failure_claim_current r none now = is_ingest_type r.task_type && unleased_current r
ingest_failure_claim_current r (some c) now =
    is_ingest_type r.task_type
    && text_or_empty c.job_id == r.job_id
    && current_by_status r.status r c now

pub data FailureError : Type 0 where
  bad_delay claim_required claim_lost payload_unreadable refresh_changes_identity : FailureError

abbrev pub released_row : List ℕ → ℕ → ℕ → Job → Job
released_row reason now available r = record r {
  status = failed;
  error_msg = take 460 reason ++ codes " [transient, retry does not spend the attempt budget]";
  updated_at = now;
  available_at = some available;
  lease_until = none;
  lease_owner = none;
  lease_token = none;
}

-- Whether the row of `job_id` is there and the claim is current for it.
unfoldable pub row_is_current : ℕ → Option Claim → ℕ → List Job → Bool
unfolding ingest_failure_claim_current
row_is_current job_id claim now jobs = elim (find_key (λ r. r.job_id) job_id jobs) [
  | none ↦ false
  | some r ↦ ingest_failure_claim_current r claim now
]

-- `delay` is `delay_seconds` in microseconds.
unfoldable pub release_job_for_retry :
    ℕ → List ℕ → Option Claim → ℕ → ℕ → List Job → Result FailureError (Bool × List Job)
unfolding row_is_current
release_job_for_retry job_id reason claim delay now jobs = do
  require (leb (seconds 1) delay && leb delay (seconds 3600)) bad_delay
  ok (
      if row_is_current job_id claim now jobs
      then (
        true,
        update_where (λ r. r.job_id == job_id) (released_row reason now (now + delay)) jobs,
      )
      else (false, jobs))

abbrev pub failed_row : List ℕ → ℕ → ℕ → Job → Job
failed_row error_msg now available r = record r {
  status = failed;
  error_msg = error_msg;
  updated_at = now;
  retries = r.retries + 1;
  available_at = some available;
  lease_until = none;
  lease_owner = none;
  lease_token = none;
}

abbrev pub status_row : JobStatus → List ℕ → ℕ → Job → Job
status_row status error_msg now r = record r {
  status = status;
  error_msg = error_msg;
  updated_at = now;
  lease_until = none;
  lease_owner = none;
  lease_token = none;
  completed_at = if is_terminal_success status then some now else r.completed_at;
}

-- int(row["retries"] or 0), 0 without the row: `next_retry - 1`
abbrev pub retries_of : ℕ → List Job → ℕ
retries_of job_id jobs = elim (find_key (λ r. r.job_id) job_id jobs) [
  | none ↦ 0
  | some r ↦ r.retries
]

-- The UPDATEs of `update_job_status`. `now'` is the second reading of the clock, for the backoff.
unfoldable pub write_status : ℕ → JobStatus → List ℕ → ℕ → ℕ → List Job → List Job
write_status job_id failed error_msg now now' jobs =
    update_where (λ r. r.job_id == job_id)
      (failed_row error_msg now (now' + seconds (5 * 2 ^ retries_of job_id jobs))) jobs
write_status job_id status error_msg now now' jobs =
    update_where (λ r. r.job_id == job_id) (status_row status error_msg now) jobs

unfoldable pub update_job_status :
    ℕ → JobStatus → List ℕ → Option Claim → ℕ → ℕ → List Job → Bool × List Job
unfolding row_is_current write_status
update_job_status job_id status error_msg none now now' jobs =
    (true, write_status job_id status error_msg now now' jobs)
update_job_status job_id status error_msg (some c) now now' jobs =
    if row_is_current job_id (some c) now jobs
    then (true, write_status job_id status error_msg now now' jobs)
    else (false, jobs)

-- `_dispatch_claim_current`: the claim is the row that `claim_pending_jobs` returned.
unfoldable pub dispatch_claim_current : Job → ℕ → List Job → Bool
dispatch_claim_current claim now jobs = is_some (
    fetch_one
      (λ r.
        r.job_id == claim.job_id
        && is_dispatched r.status
        && sql_eq r.lease_until claim.lease_until
        && not (null_or_le r.lease_until now)
        && r.updated_at == claim.updated_at
        && r.payload == claim.payload)
      jobs)

-- Three readings of the clock: its own, and two of `update_job_status`.
unfoldable pub fail_dispatch_claim : Job → List ℕ → ℕ → ℕ → ℕ → List Job → Bool × List Job
unfolding dispatch_claim_current update_job_status
fail_dispatch_claim claim reason now now' now'' jobs =
    if dispatch_claim_current claim now jobs
    then (true, (update_job_status claim.job_id failed reason none now' now'' jobs).1)
    else (false, jobs)

abbrev pub awaiting_row : ℕ → ℕ → List ℕ → Job → Job
awaiting_row now path shown_path r = record r {
  status = awaiting_subagent;
  task_packet_path = some path;
  error_msg = codes "Subagent task packet: " ++ shown_path;
  updated_at = now;
  lease_until = none;
  lease_owner = none;
  lease_token = none;
}

-- A refreshed payload keeps the source that was queued.
abbrev pub same_identity : Payload → Payload → Bool
same_identity p q =
    opt_eq p.filepath q.filepath
    && opt_eq p.file_hash q.file_hash
    && opt_eq p.canonical_name q.canonical_name

-- Binds a refreshed payload, under its exact dispatch claim.
unfoldable pub bind_payload :
    Host → ℕ → Payload → Option Job → ℕ → List Job → Result FailureError (List Job)
unfolding dispatch_claim_current
bind_payload host job_id p none now jobs = err claim_required
bind_payload host job_id p (some claim) now jobs = do
  require (claim.job_id == job_id) claim_required
  require (dispatch_claim_current claim now jobs) claim_lost
  original ← elim (host.json_loads claim.payload) [ none ↦ err payload_unreadable | some q ↦ ok q ]
  require (same_identity p original) refresh_changes_identity
  ok (update_where (λ r. r.job_id == job_id) (λ r. record r { payload = host.json_dumps p }) jobs)

unfoldable pub mark_job_awaiting_subagent :
    Host
    → ℕ
    → ℕ
    → List ℕ
    → Option Payload
    → Option Job
    → ℕ
    → List Job
    → Result FailureError (List Job)
unfolding bind_payload
mark_job_awaiting_subagent host job_id path shown_path dispatch_payload dispatch_claim now jobs = do
  bound ← elim dispatch_payload [
    | none ↦ ok jobs
    | some p ↦ bind_payload host job_id p dispatch_claim now jobs
  ]
  ok (update_where (λ r. r.job_id == job_id) (awaiting_row now path shown_path) bound)
