-- ===== src/Jobs/History/Fencing.antt =====
-- vector_lake/db_store.py, `claim_subagent_jobs` and `finalize_ingest_job`: the generations of
-- leases.
use vector_lake.Prelude.{
  ℕ, ◌≤◌, ◌<◌, ◌≡◌, Bool, true, false, ◌&&◌, some, List, [], ◌∷◌, All, All-mem, Memᴰ, arith, ◌==◌,
  ==_iff, if◌then◌else◌, Bool-cases, Option-cases, inl, inr, refl, sym, ap, subst, ◌∙◌,
}
use mathlib.Core.Option.{some-injective}
use vector_lake.Prelude.Sql.{
  find_key, find_key-key, update_where, update_where-found, row_count, All-fetch_one, All-imp,
  row_count-none, row_count-some,
}
use vector_lake.Prelude.Keys.{IsKeyed, IsKeyed-Forall2, Forall2, All-same, find_key-Forall2}
use vector_lake.Prelude.Result.{err}
use vector_lake.Jobs.Row.{Job, Host}
use vector_lake.Jobs.Queue.{lease_end}
use vector_lake.Jobs.Lease.{
  is_leasable, leased_row, lease_one, lease_each, leasable_ids, push, claim_subagent_jobs,
  is_finalizable, finalize_ingest_job, no_longer_finalizable,
}
use vector_lake.Jobs.History.{Reach}
use vector_lake.Jobs.History.Change.{Later}
use vector_lake.Jobs.History.Steps.{lease_one-Later, lease_each-Later}
use vector_lake.Jobs.History.Invariants.{Reach-find, Reach-IsKeyed}

-- A claimed row, against the row of its job before the claim and after it.
abbrev Issued : Job → List Job → Job → Type 0
Issued r after c =
    (f : Job) × (find_key (λ r. r.job_id) c.job_id after ≡ some f)
    × (r.lease_generation < c.lease_generation)
    × (c.lease_generation ≤ f.lease_generation)

-- A round that returns a row has leased the row that the table held under its id.
lease_one-some :
    (now until owner token i : ℕ) (jobs : List Job) (r c : Job)
    → IsKeyed (λ r. r.job_id) jobs
    → find_key (λ r. r.job_id) i jobs ≡ some r
    → (lease_one now until owner token i jobs).0 ≡ some c
    → (c ≡ leased_row now until owner token r)
      × (find_key (λ r. r.job_id) i (lease_one now until owner token i jobs).1 ≡ some c)
unfolding lease_one
lease_one-some now until owner token i jobs r c keyed found e =
    let guarded : Job → Bool = λ x. x.job_id == i && is_leasable now x in
    let read : find_key (λ r. r.job_id) i
          (update_where guarded (leased_row now until owner token) jobs)
        ≡ some c =
      ground arith in
    let (x, fetched) = row_count-some guarded jobs (ground arith) in
    let (same, held) =
      All-fetch_one (λ y. y.job_id ≡ i → y ≡ r) guarded jobs
        (All-same (λ r. r.job_id) i jobs keyed found) fetched in
    let here : x ≡ r = same (ground arith) in
    let kept : guarded r ≡ true = subst (λ y. guarded y ≡ true) here held in
    let now_found =
      update_where-found (λ r. r.job_id) guarded (leased_row now until owner token) (λ r. refl) i
        jobs found in
    (
      some-injective c (leased_row now until owner token r)
          (sym read ∙ rw (kept, if◌then◌else◌) at now_found),
      read,
    )

lease_one-read :
    (now until owner token i : ℕ) (jobs : List Job) (c : Job)
    → (lease_one now until owner token i jobs).0 ≡ some c
    → find_key (λ r. r.job_id) i (lease_one now until owner token i jobs).1 ≡ some c
unfolding lease_one
lease_one-read now until owner token i jobs c e = ground arith

-- The row that a round returns is newer than the one that it leased.
lease_one-Issued :
    (now until owner token i k : ℕ) (jobs after : List Job) (r c : Job)
    → IsKeyed (λ r. r.job_id) jobs
    → find_key (λ r. r.job_id) k jobs ≡ some r
    → (lease_one now until owner token i jobs).0 ≡ some c
    → Forall2 Later (lease_one now until owner token i jobs).1 after
    → c.job_id ≡ k
    → Issued r after c
lease_one-Issued now until owner token i k jobs after r c keyed found given changed same =
    let jobs' = (lease_one now until owner token i jobs).1 in
    let read = lease_one-read now until owner token i jobs c given in
    let here : c.job_id ≡ i = find_key-key (λ r. r.job_id) i jobs' read in
    let (row, _) =
      lease_one-some now until owner token i jobs r c keyed
        (subst (λ j. find_key (λ r. r.job_id) j jobs ≡ some r) (sym same ∙ here) found) given in
    let (f, seen, later) =
      find_key-Forall2 (λ r. r.job_id) Later (λ r s l. l.same_job) i jobs' after c changed read in
    (
      f,
      subst (λ j. find_key (λ r. r.job_id) j after ≡ some f) (sym here) seen,
      omega (arith, ap (λ (x : Job). x.lease_generation) row),
      later.generation,
    )

lease_each-Issued :
    (now until owner : ℕ) (tokens : ℕ → ℕ) (ids : List ℕ) (jobs : List Job) (k : ℕ) (r : Job)
    → IsKeyed (λ r. r.job_id) jobs
    → find_key (λ r. r.job_id) k jobs ≡ some r
    → All
        (λ c. c.job_id ≡ k → Issued r (lease_each now until owner tokens ids jobs).1 c)
        (lease_each now until owner tokens ids jobs).0
unfolding lease_each
lease_each-Issued now until owner tokens [] jobs k r keyed found = tt
lease_each-Issued now until owner tokens (i ∷ ids) jobs k r keyed found =
    let jobs' = (lease_one now until owner (tokens i) i jobs).1 in
    let after = (lease_each now until owner tokens ids jobs').1 in
    let claimed = (lease_each now until owner tokens ids jobs').0 in
    let changed = lease_one-Later now until owner (tokens i) i jobs in
    let keyed' =
      IsKeyed-Forall2 Later (λ r. r.job_id) (λ r s l. l.same_job) jobs jobs' changed keyed in
    let (r', found', later) =
      find_key-Forall2 (λ r. r.job_id) Later (λ r s l. l.same_job) k jobs jobs' r changed found in
    let rest : All (λ c. c.job_id ≡ k → Issued r after c) claimed =
      All-imp (λ c. c.job_id ≡ k → Issued r' after c) (λ c. c.job_id ≡ k → Issued r after c)
        (λ c issued same.
          let (f, seen, newer, kept) = issued same in
          (f, seen, omega (arith, later.generation), kept))
        claimed (lease_each-Issued now until owner tokens ids jobs' k r' keyed' found') in
    elim (Option-cases (lease_one now until owner (tokens i) i jobs).0) [
      | inl skipped ↦ rw (skipped, push) rest
      | inr (c, given) ↦
          rw (given, push)
            (
              lease_one-Issued now until owner (tokens i) i k jobs after r c keyed found given
                  (lease_each-Later now until owner tokens ids jobs'),
              rest,
            )
    ]

-- A table in which no row of the job has this generation finalizes nothing under it.
finalize_ingest_job-refused :
    (job_id owner token generation result now : ℕ) (jobs : List Job) (f : Job)
    → IsKeyed (λ r. r.job_id) jobs
    → find_key (λ r. r.job_id) job_id jobs ≡ some f
    → generation < f.lease_generation
    → finalize_ingest_job job_id owner token generation result now jobs ≡ err no_longer_finalizable
unfolding finalize_ingest_job
finalize_ingest_job-refused job_id owner token generation result now jobs f keyed found newer =
    let fits = is_finalizable job_id owner token generation now in
    let none_fits : row_count fits jobs ≡ 0 = row_count-none fits jobs (
      All-imp (λ x. x.job_id ≡ job_id → x ≡ f) (λ x. fits x ≡ false)
        (λ x same. elim (Bool-cases (x.job_id == job_id)) [
          | inl e ↦
              let here : x.lease_generation ≡ f.lease_generation =
                ap (λ (y : Job). y.lease_generation) (same ((==_iff x.job_id job_id).0 e)) in
              ground arith
          | inr e ↦ ground arith
        ])
        jobs (All-same (λ r. r.job_id) job_id jobs keyed found)) in
    rw none_fits

-- A job that is handed out again has a generation from then on that is newer than it had before.
pub leased_again :
    {host : Host} {start before after : List Job} (k : ℕ) (r : Job)
    (limit lease_seconds consumer : ℕ) (tokens : ℕ → ℕ) (claimed_at : ℕ) (c : Job)
    → IsKeyed (λ r. r.job_id) start
    → find_key (λ r. r.job_id) k start ≡ some r
    → Reach host start before
    → Memᴰ c (claim_subagent_jobs limit lease_seconds consumer tokens claimed_at before).0
    → c.job_id ≡ k
    → Reach host (claim_subagent_jobs limit lease_seconds consumer tokens claimed_at before).1 after
    → IsKeyed (λ r. r.job_id) after
      × ((g : Job) × (find_key (λ r. r.job_id) k after ≡ some g)
          × (r.lease_generation < g.lease_generation))
unfolding claim_subagent_jobs
leased_again {before = before} k r limit lease_seconds consumer tokens claimed_at c keyed found
      history taken same later =
    let (r', found', l) = Reach-find k r keyed found history in
    let keyed_before = Reach-IsKeyed keyed history in
    let until = lease_end claimed_at lease_seconds in
    let ids = leasable_ids limit claimed_at before in
    let given = lease_each claimed_at until consumer tokens ids before in
    let (f, seen, newer, kept) =
      All-mem (λ c. c.job_id ≡ k → Issued r' given.1 c) given.0
        (lease_each-Issued claimed_at until consumer tokens ids before k r' keyed_before found')
        taken same in
    let keyed_after =
      IsKeyed-Forall2 Later (λ r. r.job_id) (λ r s l. l.same_job) before given.1
        (lease_each-Later claimed_at until consumer tokens ids before) keyed_before in
    let (g, seen_last, last) =
      Reach-find k f keyed_after
        (subst (λ j. find_key (λ r. r.job_id) j given.1 ≡ some f) same seen) later in
    (
      Reach-IsKeyed keyed_after later,
      (g, seen_last, omega (arith, l.generation, newer, kept, last.generation)),
    )

-- Fencing. A job had the generation of row `r`; after some history `claim_subagent_jobs` hands the
-- job out once more; then, after any further history, whoever still holds a lease of the
-- generation of `r` cannot finalize the job, whatever owner and token it shows and at any time.
pub stale_lease_never_finalizes :
    {host : Host} {start before after : List Job} (k : ℕ) (r : Job)
    (limit lease_seconds consumer : ℕ) (tokens : ℕ → ℕ) (claimed_at : ℕ) (c : Job)
    → IsKeyed (λ r. r.job_id) start
    → find_key (λ r. r.job_id) k start ≡ some r
    → Reach host start before
    → Memᴰ c (claim_subagent_jobs limit lease_seconds consumer tokens claimed_at before).0
    → c.job_id ≡ k
    → Reach host (claim_subagent_jobs limit lease_seconds consumer tokens claimed_at before).1 after
    → (owner token result now : ℕ)
    → finalize_ingest_job k owner token r.lease_generation result now after
      ≡ err no_longer_finalizable
stale_lease_never_finalizes k r limit lease_seconds consumer tokens claimed_at c keyed found history
      taken same later owner token result now =
    let (keyed_after, (g, seen, newer)) =
      leased_again k r limit lease_seconds consumer tokens claimed_at c keyed found history taken
        same later in
    finalize_ingest_job-refused k owner token r.lease_generation result now _ g keyed_after seen
      newer
