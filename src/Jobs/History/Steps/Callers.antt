-- ===== src/Jobs/History/Steps/Callers.antt =====
-- vector_lake/controlled_recompile.py, tool_ingest.py and reset_jobs.py: their statements on `jobs`, as
-- changes of rows.
use vector_lake.Prelude.{
  ℕ, ◌≡◌, true, Option, none, some, List, [], ◌∷◌, arith, ◌==◌, if◌then◌else◌, Bool-cases, inl, inr,
  refl, subst,
}
use vector_lake.Prelude.Sql.{find_key, update_where, update_where-found}
use vector_lake.Prelude.Keys.{IsKeyed, IsKeyed-Forall2, Forall2, Forall2-refl, Forall2-trans}
use vector_lake.Prelude.Result.{ok}
use vector_lake.Jobs.Row.{queued, Job, Host, is_awaiting, is_dispatched}
use vector_lake.Jobs.Failure.{awaiting_row, mark_job_awaiting_subagent}
use vector_lake.Jobs.Callers.{
  is_recompilable, hand_over_source, Migration, requeued_row, rebuilt_row, migrate_one,
  requeue_legacy_ingest_jobs, reset_jobs,
}
use vector_lake.Jobs.History.Change.{Later, Later-refl, Later-trans}
use vector_lake.Jobs.History.Steps.{guarded_update}
use vector_lake.Jobs.History.Steps.Handover.{bound_row-Later}
use vector_lake.Jobs.History.Steps.Reports.{one_row_update}

handed_row-Later :
    (now path : ℕ) (shown : List ℕ) (r : Job)
    → is_recompilable r ≡ true
    → Later r (awaiting_row now path shown r)
handed_row-Later now path shown r e = record {
  same_job = refl;
  generation = omega arith;
  budget = λ b. ground (arith, b.within, e);
  done = λ d. ground (arith, d, e);
}

hand_over-Later :
    (job_id now path : ℕ) (shown : List ℕ) (jobs : List Job) (r : Job)
    → IsKeyed (λ r. r.job_id) jobs
    → find_key (λ r. r.job_id) job_id jobs ≡ some r
    → is_recompilable r ≡ true
    → Forall2 Later jobs (update_where (λ r. r.job_id == job_id) (awaiting_row now path shown) jobs)
hand_over-Later job_id now path shown jobs r keyed found e =
    one_row_update job_id (awaiting_row now path shown) jobs r keyed found
      (handed_row-Later now path shown r e)

pub hand_over_source-Later :
    (host : Host) (job_id : ℕ) (payload : Option ℕ) (path : ℕ) (shown : List ℕ) (now : ℕ)
    (jobs jobs' : List Job) (r : Job)
    → IsKeyed (λ r. r.job_id) jobs
    → find_key (λ r. r.job_id) job_id jobs ≡ some r
    → is_recompilable r ≡ true
    → hand_over_source host job_id payload path shown now jobs ≡ ok jobs'
    → Forall2 Later jobs jobs'
unfolding hand_over_source mark_job_awaiting_subagent
hand_over_source-Later host job_id none path shown now jobs jobs' r keyed found e h =
    subst (Forall2 Later jobs) (ground arith)
      (hand_over-Later job_id now path shown jobs r keyed found e)
hand_over_source-Later host job_id (some p) path shown now jobs jobs' r keyed found e h =
    let rebind : Job → Job = λ x. record x { payload = p } in
    let bound = update_where (λ x. x.job_id == job_id) rebind jobs in
    let first : Forall2 Later jobs bound =
      guarded_update (λ x. x.job_id == job_id) rebind (λ x _. bound_row-Later p x) jobs in
    let there =
      update_where-found (λ x. x.job_id) (λ x. x.job_id == job_id) rebind (λ x. refl) job_id jobs
        found in
    Forall2-trans Later Later-trans jobs bound jobs' first (
      subst (Forall2 Later bound) (ground (arith, h)) (
        hand_over-Later job_id now path shown bound (if r.job_id == job_id then rebind r else r)
          (IsKeyed-Forall2 Later (λ x. x.job_id) (λ x y l. l.same_job) jobs bound first keyed) there
          (ground (arith, e))))

requeued_row-Later :
    (payload now : ℕ) (r : Job) → is_awaiting r.status ≡ true → Later r (requeued_row payload now r)
requeued_row-Later payload now r e = record {
  same_job = refl;
  generation = omega arith;
  budget = λ b. record { within = omega arith; left = λ _. omega arith };
  done = λ d. ground (arith, d, e);
}

rebuilt_row-Later : (payload now : ℕ) (r : Job) → Later r (rebuilt_row payload now r)
rebuilt_row-Later payload now r = record {
  same_job = refl;
  generation = omega arith;
  budget = λ b. record { within = b.within; left = b.left };
  done = λ d. refl;
}

migrate_one-Later :
    (now : ℕ) (m : Migration) (jobs : List Job) → Forall2 Later jobs (migrate_one now m jobs)
migrate_one-Later now m jobs = elim (Bool-cases (is_awaiting m.status)) [
  | inl e ↦
      rw (e, if◌then◌else◌)
        (guarded_update _ (requeued_row m.payload now)
          (λ r f. requeued_row-Later m.payload now r (ground (arith, f))) jobs)
  | inr e ↦
      rw (e, if◌then◌else◌)
        (guarded_update _ (rebuilt_row m.payload now) (λ r _. rebuilt_row-Later m.payload now r)
          jobs)
]

pub requeue_legacy_ingest_jobs-Later :
    (now : ℕ) (ms : List Migration) (jobs : List Job)
    → Forall2 Later jobs (requeue_legacy_ingest_jobs now ms jobs)
unfolding requeue_legacy_ingest_jobs
requeue_legacy_ingest_jobs-Later now [] jobs = Forall2-refl Later Later-refl jobs
requeue_legacy_ingest_jobs-Later now (m ∷ ms) jobs =
    Forall2-trans Later Later-trans jobs (migrate_one now m jobs)
      (requeue_legacy_ingest_jobs now (m ∷ ms) jobs) (migrate_one-Later now m jobs)
      (requeue_legacy_ingest_jobs-Later now ms (migrate_one now m jobs))

reset_row-Later :
    (r : Job)
    → is_dispatched r.status ≡ true
    → Later r (record r { status = queued; lease_until = none })
reset_row-Later r e = record {
  same_job = refl;
  generation = omega arith;
  budget = λ b. ground (arith, b.within, b.left, e);
  done = λ d. ground (arith, d, e);
}

pub reset_jobs-Later : (now : ℕ) (jobs : List Job) → Forall2 Later jobs (reset_jobs now jobs)
unfolding reset_jobs
reset_jobs-Later now jobs =
    guarded_update _ (λ r. record r { status = queued; lease_until = none })
      (λ r f. reset_row-Later r (ground (arith, f))) jobs
