-- ===== src/Jobs/History/Reporting.antt =====
-- vector_lake/db_store.py, `release_job_for_retry` and `update_job_status`: reports under an old lease.
use vector_lake.Prelude.{
  ℕ, ◌<◌, ◌≡◌, ◌⊎◌, true, false, ◌&&◌, some, List, Memᴰ, arith, Bool-cases, inl, inr, refl, sym,
  ◌∙◌, leb, if◌then◌else◌,
}
use mathlib.Core.Option.{some-injective}
use vector_lake.Prelude.Sql.{find_key}
use vector_lake.Prelude.Keys.{IsKeyed}
use vector_lake.Prelude.Result.{ok, err}
use vector_lake.Jobs.Row.{Job, Host, JobStatus, subagent_processing, seconds}
use vector_lake.Jobs.Lease.{claim_subagent_jobs}
use vector_lake.Jobs.Failure.{
  GenerationToken, Claim, token_matches, ingest_failure_claim_current, row_is_current,
  release_job_for_retry, update_job_status, bad_delay,
}
use vector_lake.Jobs.History.{Reach}
use vector_lake.Jobs.History.Fencing.{leased_again}

-- A token does not match two generations.
token_matches-newer :
    (t : GenerationToken) (old new : ℕ)
    → token_matches t old ≡ true
    → old < new
    → token_matches t new ≡ false
token_matches-newer t old new h lt = ground (arith, h, lt)

row_is_current-stale :
    (k : ℕ) (c : Claim) (old now : ℕ) (jobs : List Job) (g : Job)
    → find_key (λ r. r.job_id) k jobs ≡ some g
    → g.status ≡ subagent_processing
    → token_matches c.lease_generation old ≡ true
    → old < g.lease_generation
    → row_is_current k (some c) now jobs ≡ false
unfolding row_is_current ingest_failure_claim_current
row_is_current-stale k c old now jobs g found on matches newer =
    let stale = token_matches-newer c.lease_generation old g.lease_generation matches newer in
    ground (arith, found, on, stale)

-- What a report that does not count comes to: nothing is written.
abbrev pub IsIgnored : ℕ → Claim → ℕ → List Job → Type 0
IsIgnored k c now jobs =
    ((status : JobStatus) (reason : List ℕ) (now' : ℕ)
      → update_job_status k status reason (some c) now now' jobs ≡ (false, jobs))
    × ((reason : List ℕ) (delay : ℕ)
        → (release_job_for_retry k reason (some c) delay now jobs ≡ err bad_delay)
          ⊎ (release_job_for_retry k reason (some c) delay now jobs ≡ ok (false, jobs)))

row_is_current-IsIgnored :
    (k : ℕ) (c : Claim) (now : ℕ) (jobs : List Job)
    → row_is_current k (some c) now jobs ≡ false
    → IsIgnored k c now jobs
unfolding update_job_status release_job_for_retry
row_is_current-IsIgnored k c now jobs off = (
  λ status reason now'. rw (off, if◌then◌else◌) refl,
  λ reason delay. elim (Bool-cases (leb (seconds 1) delay && leb delay (seconds 3600))) [
    | inl e ↦ inr (rw (e, off, if◌then◌else◌) refl)
    | inr e ↦ inl (rw e refl)
  ],
)

-- A job had the generation of row `r`; after some history `claim_subagent_jobs` hands the job out once
-- more; then, after any further history and while the job is in processing, a report with a claim of
-- the generation of `r` is ignored, whatever else it shows and at any time: neither a failure nor
-- another status nor a release for a retry is written.
pub stale_lease_never_reports :
    {host : Host} {start before after : List Job} (k : ℕ) (r : Job)
    (limit lease_seconds consumer : ℕ) (tokens : ℕ → ℕ) (claimed_at : ℕ) (c : Job)
    → IsKeyed (λ r. r.job_id) start
    → find_key (λ r. r.job_id) k start ≡ some r
    → Reach host start before
    → Memᴰ c (claim_subagent_jobs limit lease_seconds consumer tokens claimed_at before).0
    → c.job_id ≡ k
    → Reach host (claim_subagent_jobs limit lease_seconds consumer tokens claimed_at before).1 after
    → (f : Job) (claim : Claim) (now : ℕ) → find_key (λ r. r.job_id) k after ≡ some f
    → f.status ≡ subagent_processing
    → token_matches claim.lease_generation r.lease_generation ≡ true
    → IsIgnored k claim now after
stale_lease_never_reports k r limit lease_seconds consumer tokens claimed_at c keyed found history
      taken same later f claim now there on matches =
    let (_, (g, seen, newer)) =
      leased_again k r limit lease_seconds consumer tokens claimed_at c keyed found history taken
        same later in
    let one : g ≡ f = some-injective g f (sym seen ∙ there) in
    row_is_current-IsIgnored k claim now _
      (row_is_current-stale k claim r.lease_generation now _ f there on matches (rw one at newer))
