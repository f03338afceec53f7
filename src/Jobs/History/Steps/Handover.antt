-- ===== src/Jobs/History/Steps/Handover.antt =====
-- vector_lake/db_store.py: handing a job over, registering a recompile, and closing failed jobs, as
-- changes of rows.
use vector_lake.Prelude.{
  ℕ, ◌≡◌, Bool, true, ◌&&◌, ◌||◌, none, some, List, [], ◌∷◌, arith, ◌==◌, if◌then◌else◌, Bool-cases,
  inl, inr, refl, subst, sym,
}
use vector_lake.Prelude.Sql.{find_key, update_where, update_where-found}
use vector_lake.Prelude.Keys.{IsKeyed, IsKeyed-Forall2, Forall2, Forall2-refl, Forall2-trans}
use vector_lake.Prelude.Result.{ok, >>=-eq-ok}
use vector_lake.Jobs.Row.{
  queued, completed, Job, Payload, Host, is_failed, is_dispatched, is_queued,
}
use vector_lake.Jobs.Failure.{
  status_row, write_status, update_job_status, dispatch_claim_current, awaiting_row, bind_payload,
  mark_job_awaiting_subagent,
}
use vector_lake.Jobs.Ledger.{
  ProcessedFile, is_kept, closed_row, close_each, close_terminal_failed_jobs,
  list_terminal_failed_jobs,
}
use vector_lake.Jobs.History.Change.{Later, Later-refl, Later-trans}
use vector_lake.Jobs.History.Steps.{guarded_update}
use vector_lake.Jobs.History.Steps.Reports.{one_row_update, dispatch_current-found}

awaiting_row-Later :
    (now path : ℕ) (shown : List ℕ) (r : Job)
    → (is_dispatched r.status || is_queued r.status) ≡ true
    → Later r (awaiting_row now path shown r)
awaiting_row-Later now path shown r e = record {
  same_job = refl;
  generation = omega arith;
  budget = λ b. ground (arith, b.left);
  done = λ d. ground arith;
}

pub bound_row-Later : (p : ℕ) (r : Job) → Later r (record r { payload = p })
bound_row-Later p r = record {
  same_job = refl;
  generation = omega arith;
  budget = λ b. record { within = b.within; left = b.left };
  done = λ d. refl;
}

-- The handover of a job that is queued or dispatched.
pub handover-Later :
    (job_id now path : ℕ) (shown : List ℕ) (jobs : List Job) (r : Job)
    → IsKeyed (λ r. r.job_id) jobs
    → find_key (λ r. r.job_id) job_id jobs ≡ some r
    → (is_dispatched r.status || is_queued r.status) ≡ true
    → Forall2 Later jobs (update_where (λ r. r.job_id == job_id) (awaiting_row now path shown) jobs)
handover-Later job_id now path shown jobs r keyed found e =
    one_row_update job_id (awaiting_row now path shown) jobs r keyed found
      (awaiting_row-Later now path shown r e)

-- A handover with a refreshed payload has passed the check of its dispatch claim.
bind_payload-ok :
    (host : Host) (job_id : ℕ) (p : Payload) (claim : Job) (now : ℕ) (jobs bound : List Job)
    → bind_payload host job_id p (some claim) now jobs ≡ ok bound
    → (claim.job_id ≡ job_id)
      × (dispatch_claim_current claim now jobs ≡ true)
      × (bound
          ≡ update_where
              (λ r. r.job_id == job_id)
              (λ r. record r { payload = host.json_dumps p })
              jobs)
unfolding bind_payload
bind_payload-ok host job_id p claim now jobs bound e = ground arith

pub mark_job_awaiting_subagent-Later :
    (host : Host) (job_id path : ℕ) (shown : List ℕ) (p : Payload) (claim : Job) (now : ℕ)
    (jobs jobs' : List Job)
    → IsKeyed (λ r. r.job_id) jobs
    → mark_job_awaiting_subagent host job_id path shown (some p) (some claim) now jobs ≡ ok jobs'
    → Forall2 Later jobs jobs'
unfolding mark_job_awaiting_subagent
mark_job_awaiting_subagent-Later host job_id path shown p claim now jobs jobs' keyed e =
    let (bound, binds, sent) =
      >>=-eq-ok (bind_payload host job_id p (some claim) now jobs)
        (λ bound. ok (update_where (λ r. r.job_id == job_id) (awaiting_row now path shown) bound))
        e in
    let (same, current, changed) = bind_payload-ok host job_id p claim now jobs bound binds in
    let (r, found, held) = dispatch_current-found claim now jobs keyed current in
    let rebind : Job → Job = λ r. record r { payload = host.json_dumps p } in
    let first : Forall2 Later jobs bound = subst (Forall2 Later jobs) (sym changed) (
      guarded_update (λ r. r.job_id == job_id) rebind (λ r _. bound_row-Later (host.json_dumps p) r)
        jobs) in
    let found_job : find_key (λ r. r.job_id) job_id jobs ≡ some r =
      subst (λ k. find_key (λ r. r.job_id) k jobs ≡ some r) same found in
    let found_bound : find_key (λ r. r.job_id) job_id bound
        ≡ some (if r.job_id == job_id then rebind r else r) =
      subst
        (λ rows.
          find_key (λ r. r.job_id) job_id rows ≡ some (if r.job_id == job_id then rebind r else r))
        (sym changed)
        (update_where-found (λ r. r.job_id) (λ r. r.job_id == job_id) rebind (λ r. refl) job_id jobs
          found_job) in
    subst (Forall2 Later jobs) (ground arith) (
      Forall2-trans Later Later-trans jobs bound _ first (
        handover-Later job_id now path shown bound (if r.job_id == job_id then rebind r else r)
          (IsKeyed-Forall2 Later (λ r. r.job_id) (λ r s l. l.same_job) jobs bound first keyed)
          found_bound (ground arith)))

registered_row-Later :
    (now : ℕ) (r : Job) → r.status ≡ queued → Later r (status_row completed [] now r)
registered_row-Later now r e = record {
  same_job = refl;
  generation = omega arith;
  budget = λ b. ground (arith, b.within);
  done = λ d. ground arith;
}

pub registered-Later :
    (job_id now now' : ℕ) (jobs : List Job) (r : Job)
    → IsKeyed (λ r. r.job_id) jobs
    → find_key (λ r. r.job_id) job_id jobs ≡ some r
    → r.status ≡ queued
    → Forall2 Later jobs (update_job_status job_id completed [] none now now' jobs).1
unfolding update_job_status write_status
registered-Later job_id now now' jobs r keyed found e =
    one_row_update job_id (status_row completed [] now) jobs r keyed found
      (registered_row-Later now r e)

closed_row-Later : (now : ℕ) (r : Job) → is_failed r.status ≡ true → Later r (closed_row now r)
closed_row-Later now r e = record {
  same_job = refl;
  generation = omega arith;
  budget = λ b. ground (arith, b.within);
  done = λ d. ground arith;
}

close_each-Later :
    (host : Host) (proven : Job → Bool) (files : List ProcessedFile) (only : Bool) (now : ℕ)
    (rs jobs : List Job)
    → Forall2 Later jobs (close_each host proven files only now rs jobs).1
unfolding close_each
close_each-Later host proven files only now [] jobs = Forall2-refl Later Later-refl jobs
close_each-Later host proven files only now (r ∷ rs) jobs =
    elim (Bool-cases (is_kept host proven files only r)) [
      | inl kept ↦ rw kept (close_each-Later host proven files only now rs jobs)
      | inr goes ↦
          let jobs' =
            update_where (λ x. x.job_id == r.job_id && is_failed x.status) (closed_row now) jobs in
          rw goes (
            Forall2-trans Later Later-trans jobs jobs'
              (close_each host proven files only now rs jobs').1
              (guarded_update _ (closed_row now) (λ x e. closed_row-Later now x (ground arith))
                jobs)
              (close_each-Later host proven files only now rs jobs'))
    ]

pub close_terminal_failed_jobs-Later :
    (host : Host) (proven : Job → Bool) (files : List ProcessedFile) (only : Bool) (now : ℕ)
    (jobs : List Job)
    → Forall2 Later jobs (close_terminal_failed_jobs host proven files only now jobs).1
unfolding close_terminal_failed_jobs
close_terminal_failed_jobs-Later host proven files only now jobs =
    close_each-Later host proven files only now (list_terminal_failed_jobs jobs) jobs
