-- ===== src/Jobs/History/Steps/Enqueue.antt =====
-- vector_lake/db_store.py, `enqueue_job`, as a change of the rows of the table.
use vector_lake.Prelude.{
  ℕ, ◌≡◌, Bool, true, false, ◌||◌, Option, none, some, List, arith, ◌==◌, Option-cases, inl, inr,
  refl, subst,
}
use vector_lake.Prelude.Sql.{find_key, update_where, sql_eq, All-fetch_one}
use vector_lake.Prelude.Keys.{IsKeyed, Forall2-refl, All-found, All-ne_of_none}
use vector_lake.Jobs.Row.{TaskType, Job, Payload, Host, is_terminal_failure, text_or}
use vector_lake.Jobs.Queue.{
  job_idempotency_key, job_is_terminal_unsuccessful, superseded_row, queued_row, collide,
  key_holder, no_collision, Collision, keep_existing, take_key, resolve_collision, enqueue_with_key,
  enqueue_job,
}
use vector_lake.Jobs.History.Change.{IsBudgeted, Later, Later-refl, Change, appended, Change-refl}
use vector_lake.Jobs.History.Steps.Reports.{one_row_update}

queued_row-IsBudgeted :
    (host : Host) (job_id : ℕ) (t : TaskType) (p : Payload) (key : Option ℕ) (now : ℕ)
    → IsBudgeted (queued_row host job_id t p key now)
queued_row-IsBudgeted host job_id t p key now = ground arith

-- The row that loses its key had given up, or is left as it was but for the key.
superseded_row-Later :
    (stop : Bool) (now : ℕ) (r : Job)
    → (stop ≡ true → is_terminal_failure r.status ≡ true)
    → Later r (superseded_row stop now r)
superseded_row-Later true now r h = record {
  same_job = refl;
  generation = omega arith;
  budget = λ b. ground (arith, b.within);
  done = λ d. ground (arith, h refl);
}
superseded_row-Later false now r h = record {
  same_job = refl;
  generation = omega arith;
  budget = λ b. record { within = b.within; left = b.left };
  done = λ d. refl;
}

job_is_terminal_unsuccessful-found :
    (jobs : List Job) (i : ℕ) (r : Job)
    → find_key (λ r. r.job_id) i jobs ≡ some r
    → job_is_terminal_unsuccessful jobs i ≡ is_terminal_failure r.status
unfolding job_is_terminal_unsuccessful
job_is_terminal_unsuccessful-found jobs i r found = rw (found, job_is_terminal_unsuccessful)

-- The row that holds a key is a row of the table.
pub key_holder-found :
    (key : Option ℕ) (jobs : List Job) {r : Job}
    → IsKeyed (λ r. r.job_id) jobs
    → key_holder key jobs ≡ some r
    → find_key (λ r. r.job_id) r.job_id jobs ≡ some r
unfolding key_holder
key_holder-found none jobs keyed e = cc
key_holder-found (some key) jobs keyed e =
    (All-fetch_one (λ r. find_key (λ r. r.job_id) r.job_id jobs ≡ some r)
      (λ r. sql_eq r.idempotency_key (some key)) jobs (All-found (λ r. r.job_id) jobs keyed)
      (ground arith)).0

resolve_collision-Change :
    (host : Host) (t : TaskType) (p : Payload) (key : Option ℕ) (job_id now : ℕ) (jobs : List Job)
    (c : Collision)
    → IsKeyed (λ r. r.job_id) jobs
    → find_key (λ r. r.job_id) job_id jobs ≡ none
    → ((i : ℕ) (stop : Bool)
        → c ≡ take_key i stop
        → (r : Job) × (find_key (λ r. r.job_id) i jobs ≡ some r)
          × (stop ≡ true → is_terminal_failure r.status ≡ true))
    → Change jobs (resolve_collision host t p key job_id now jobs c).1
unfolding resolve_collision
resolve_collision-Change host t p key job_id now jobs no_collision keyed new taken =
    appended jobs (queued_row host job_id t p key now) (Forall2-refl Later Later-refl jobs)
      (queued_row-IsBudgeted host job_id t p key now) refl
      (All-ne_of_none (λ r. r.job_id) job_id jobs new)
resolve_collision-Change host t p key job_id now jobs (keep_existing i) keyed new taken =
    Change-refl jobs
resolve_collision-Change host t p key job_id now jobs (take_key i stop) keyed new taken =
    let (r, found, gave_up) = taken i stop refl in
    appended (update_where (λ x. x.job_id == i) (superseded_row stop now) jobs)
      (queued_row host job_id t p key now)
      (one_row_update i (superseded_row stop now) jobs r keyed found
        (superseded_row-Later stop now r gave_up))
      (queued_row-IsBudgeted host job_id t p key now) refl
      (All-ne_of_none (λ r. r.job_id) job_id jobs new)

-- A key is taken from a row of the table, whose dispatch is stopped only if it had given up.
pub collide-take_key :
    (replace supersede : Bool) (key : Option ℕ) (jobs : List Job) (i : ℕ) (stop : Bool)
    → IsKeyed (λ r. r.job_id) jobs
    → collide replace supersede jobs (key_holder key jobs) ≡ take_key i stop
    → (r : Job) × (find_key (λ r. r.job_id) i jobs ≡ some r)
      × (stop ≡ true → is_terminal_failure r.status ≡ true)
unfolding collide
collide-take_key replace supersede key jobs i stop keyed e =
    elim (Option-cases (key_holder key jobs)) [
      | inl absent ↦ cc (rw (absent, collide) at e)
      | inr (r, held) ↦
          let found = key_holder-found key jobs keyed held in
          let taken = rw (held, collide) at e in
          let same : r.job_id ≡ i = ground arith in
          (
            r,
            subst (λ k. find_key (λ r. r.job_id) k jobs ≡ some r) same found,
            λ s. ground (arith, job_is_terminal_unsuccessful-found jobs r.job_id r found),
          )
    ]

pub enqueue_with_key-Change :
    (host : Host) (t : TaskType) (p : Payload) (replace supersede : Bool) (key : Option ℕ)
    (job_id now : ℕ) (jobs : List Job)
    → IsKeyed (λ r. r.job_id) jobs
    → find_key (λ r. r.job_id) job_id jobs ≡ none
    → Change jobs (enqueue_with_key host t p replace supersede key job_id now jobs).1
unfolding enqueue_with_key
enqueue_with_key-Change host t p replace supersede key job_id now jobs keyed new =
    resolve_collision-Change host t p key job_id now jobs
      (collide replace supersede jobs (key_holder key jobs)) keyed new
      (λ i stop. collide-take_key replace supersede key jobs i stop keyed)

pub enqueue_job-Change :
    (host : Host) (t : TaskType) (p : Payload) (key : Option ℕ) (replace supersede : Bool)
    (job_id now : ℕ) (jobs : List Job)
    → IsKeyed (λ r. r.job_id) jobs
    → find_key (λ r. r.job_id) job_id jobs ≡ none
    → Change jobs (enqueue_job host t p key replace supersede job_id now jobs).1
unfolding enqueue_job
enqueue_job-Change host t p key replace supersede job_id now jobs =
    enqueue_with_key-Change host t p (replace || supersede) supersede
      (text_or key (job_idempotency_key host t p)) job_id now jobs
