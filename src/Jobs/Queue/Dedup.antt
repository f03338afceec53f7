-- ===== src/Jobs/Queue/Dedup.antt =====
-- vector_lake/db_store.py, `enqueue_job`: the idempotency keys.
use vector_lake.Prelude.{
  ℕ, ◌≡◌, ◌≢◌, Bool, true, false, ◌&&◌, ◌||◌, Option, none, some, List, [], ◌∷◌, ◌++◌, All, arith,
  ◌==◌, ==_refl, if◌then◌else◌, Bool-cases, inl, inr, refl, ◌∙◌, ap,
}
use mathlib.Core.Option.{some-injective}
use vector_lake.Prelude.Sql.{sql_eq, update_where, fetch_one, All-intro, All-update_where}
use vector_lake.Prelude.Keys.{All-append}
use vector_lake.Jobs.Row.{
  TaskType, ingest, Job, Payload, Host, is_terminal_success, text_or, text_or_empty,
}
use vector_lake.Jobs.Queue.{
  superseded_row, queued_row, collide, key_holder, find_idempotent, resolve_collision,
  enqueue_with_key, enqueue_job, job_idempotency_key, job_is_terminal_unsuccessful,
}

-- No two rows hold one idempotency key.
abbrev pub HasDistinctKeys : List Job → Type 0
HasDistinctKeys [] = Unit
HasDistinctKeys (x ∷ xs) =
    All (λ y. sql_eq x.idempotency_key y.idempotency_key ≡ false) xs × HasDistinctKeys xs

abbrev IsFree : Option ℕ → Job → Type 0
IsFree key r = sql_eq r.idempotency_key key ≡ false

HasDistinctKeys-snoc :
    (jobs : List Job) (x : Job)
    → HasDistinctKeys jobs
    → All (IsFree x.idempotency_key) jobs
    → HasDistinctKeys (jobs ++ x ∷ [])
HasDistinctKeys-snoc [] x d f = (tt, tt)
HasDistinctKeys-snoc (y ∷ jobs) x d f = (
  All-append (λ z. sql_eq y.idempotency_key z.idempotency_key ≡ false) jobs (x ∷ []) d.0 (f.0, tt),
  HasDistinctKeys-snoc jobs x d.1 f.1,
)

IsFree-absent :
    (key : ℕ) (jobs : List Job) → find_idempotent key jobs ≡ none → All (IsFree (some key)) jobs
unfolding fetch_one
IsFree-absent key [] e = tt
IsFree-absent key (x ∷ jobs) e = elim (Bool-cases (sql_eq x.idempotency_key (some key))) [
  | inl b ↦ cc (rw (b, if◌then◌else◌) at e)
  | inr b ↦ (b, IsFree-absent key jobs (rw (b, if◌then◌else◌) at e))
]

-- Once the holder has given up its key nobody holds it.
IsFree-taken :
    (key i : ℕ) (stop : Bool) (now : ℕ) (jobs : List Job) (r : Job)
    → HasDistinctKeys jobs
    → find_idempotent key jobs ≡ some r
    → r.job_id ≡ i
    → All (IsFree (some key)) (update_where (λ x. x.job_id == i) (superseded_row stop now) jobs)
unfolding fetch_one update_where
IsFree-taken key i stop now [] r d e same = tt
IsFree-taken key i stop now (x ∷ jobs) r d e same =
    elim (Bool-cases (sql_eq x.idempotency_key (some key))) [
      | inl b ↦
          let here : x ≡ r = some-injective x r (rw (b, if◌then◌else◌) at e) in
          let hit : (x.job_id == i) ≡ true = ground (arith, ap (λ (y : Job). y.job_id) here) in
          (
            rw (hit, if◌then◌else◌) refl,
            All-update_where (λ y. sql_eq x.idempotency_key y.idempotency_key ≡ false)
                (IsFree (some key)) (λ y. y.job_id == i) (superseded_row stop now) (λ y _ _. refl)
                (λ y other _. ground arith) jobs d.0,
          )
      | inr b ↦
          (ground arith, IsFree-taken key i stop now jobs r d.1 (rw (b, if◌then◌else◌) at e) same)
    ]

taking-HasDistinctKeys :
    (i : ℕ) (stop : Bool) (now : ℕ) (jobs : List Job)
    → HasDistinctKeys jobs
    → HasDistinctKeys (update_where (λ x. x.job_id == i) (superseded_row stop now) jobs)
unfolding update_where
taking-HasDistinctKeys i stop now [] d = tt
taking-HasDistinctKeys i stop now (x ∷ jobs) d =
    let Apart : Job → Type 0 = λ y. sql_eq x.idempotency_key y.idempotency_key ≡ false in
    let Kept : Job → Type 0 = λ y.
      sql_eq (if x.job_id == i then superseded_row stop now x else x).idempotency_key
        y.idempotency_key
      ≡ false in
    (
      All-update_where Apart Kept (λ y. y.job_id == i) (superseded_row stop now)
          (λ y _ _. ground arith) (λ y apart _. ground arith) jobs d.0,
      taking-HasDistinctKeys i stop now jobs d.1,
    )

-- The key of a new row, if it is not empty, is held by nobody when the row is added.
resolve-HasDistinctKeys :
    (host : Host) (t : TaskType) (p : Payload) (replace supersede : Bool) (key : ℕ) (job_id now : ℕ)
    (jobs : List Job) (holder : Option Job)
    → find_idempotent key jobs ≡ holder
    → HasDistinctKeys jobs
    → HasDistinctKeys
        (resolve_collision host t p
          (some key)
          job_id
          now
          jobs
          (collide replace supersede jobs holder)).1
unfolding resolve_collision collide
resolve-HasDistinctKeys host t p replace supersede key job_id now jobs none e d =
    HasDistinctKeys-snoc jobs (queued_row host job_id t p (some key) now) d
      (IsFree-absent key jobs e)
resolve-HasDistinctKeys host t p replace supersede key job_id now jobs (some r) e d =
    let stop = replace && job_is_terminal_unsuccessful jobs r.job_id in
    elim (Bool-cases (stop || supersede && is_terminal_success r.status)) [
      | inl b ↦
          rw (b, collide)
            (HasDistinctKeys-snoc _ (queued_row host job_id t p (some key) now)
              (taking-HasDistinctKeys r.job_id stop now jobs d)
              (IsFree-taken key r.job_id stop now jobs r d e refl))
      | inr b ↦ rw (b, collide) d
    ]

key_holder-nonempty :
    (key : ℕ) (jobs : List Job) → key ≢ 0 → key_holder (some key) jobs ≡ find_idempotent key jobs
unfolding key_holder
key_holder-nonempty key jobs h = ground arith

enqueue_with_key-HasDistinctKeys :
    (host : Host) (t : TaskType) (p : Payload) (replace supersede : Bool) (key : Option ℕ)
    (job_id now : ℕ) (jobs : List Job)
    → key ≢ some 0
    → HasDistinctKeys jobs
    → HasDistinctKeys (enqueue_with_key host t p replace supersede key job_id now jobs).1
unfolding enqueue_with_key
enqueue_with_key-HasDistinctKeys host t p replace supersede none job_id now jobs h d =
    HasDistinctKeys-snoc jobs (queued_row host job_id t p none now) d
      (All-intro (IsFree none) (λ r. ground arith) jobs)
enqueue_with_key-HasDistinctKeys host t p replace supersede (some key) job_id now jobs h d =
    rw (key_holder-nonempty key jobs (λ e. h (ap some e))) (
      resolve-HasDistinctKeys host t p replace supersede key job_id now jobs
        (find_idempotent key jobs) refl d)

text_or-nonempty :
    (host : Host) (t : TaskType) (p : Payload) (given : Option ℕ)
    → ((a b c : ℕ) → host.sha256 a b c ≢ 0)
    → text_or given (job_idempotency_key host t p) ≢ some 0
unfolding job_idempotency_key
text_or-nonempty host ingest p given digest e = ground (
  arith,
  digest (text_or_empty p.filepath) (text_or_empty p.file_hash) (text_or_empty p.canonical_name),
)
text_or-nonempty host _ p given digest e = ground arith

-- `enqueue_job` keeps the keys distinct, whatever it replaces, if the digest of a source is never
-- the empty text.
pub enqueue_job-HasDistinctKeys :
    (host : Host) (t : TaskType) (p : Payload) (given : Option ℕ) (replace supersede : Bool)
    (job_id now : ℕ) (jobs : List Job)
    → ((a b c : ℕ) → host.sha256 a b c ≢ 0)
    → HasDistinctKeys jobs
    → HasDistinctKeys (enqueue_job host t p given replace supersede job_id now jobs).1
unfolding enqueue_job
enqueue_job-HasDistinctKeys host t p given replace supersede job_id now jobs digest =
    enqueue_with_key-HasDistinctKeys host t p (replace || supersede) supersede
      (text_or given (job_idempotency_key host t p)) job_id now jobs
      (text_or-nonempty host t p given digest)

find_idempotent-snoc :
    (key : ℕ) (jobs : List Job) (x : Job)
    → All (IsFree (some key)) jobs
    → sql_eq x.idempotency_key (some key) ≡ true
    → find_idempotent key (jobs ++ x ∷ []) ≡ some x
unfolding fetch_one
find_idempotent-snoc key [] x f h = rw (h, if◌then◌else◌)
find_idempotent-snoc key (y ∷ jobs) x f h =
    rw (f.0, if◌then◌else◌) (find_idempotent-snoc key jobs x f.1 h)

-- After an enqueue the job that it answered holds the key.
resolve-holder :
    (host : Host) (t : TaskType) (p : Payload) (replace supersede : Bool) (key job_id now : ℕ)
    (jobs : List Job) (holder : Option Job)
    → find_idempotent key jobs ≡ holder
    → HasDistinctKeys jobs
    → let (i, jobs') =
        resolve_collision host t p
          (some key)
          job_id
          now
          jobs
          (collide replace supersede jobs holder) in
      (r : Job) × (find_idempotent key jobs' ≡ some r) × (r.job_id ≡ i)
unfolding resolve_collision collide
resolve-holder host t p replace supersede key job_id now jobs none e d =
    let row = queued_row host job_id t p (some key) now in
    (row, find_idempotent-snoc key jobs row (IsFree-absent key jobs e) (==_refl key), refl)
resolve-holder host t p replace supersede key job_id now jobs (some r) e d =
    let stop = replace && job_is_terminal_unsuccessful jobs r.job_id in
    let row = queued_row host job_id t p (some key) now in
    elim (Bool-cases (stop || supersede && is_terminal_success r.status)) [
      | inl b ↦
          rw (b, collide)
            (
              row,
              find_idempotent-snoc key _ row (IsFree-taken key r.job_id stop now jobs r d e refl)
                  (==_refl key),
              refl,
            )
      | inr b ↦ rw (b, collide) (r, e, refl)
    ]

with_key-holder :
    (host : Host) (t : TaskType) (p : Payload) (replace supersede : Bool) (key job_id now : ℕ)
    (jobs : List Job)
    → key ≢ 0
    → HasDistinctKeys jobs
    → let (i, jobs') = enqueue_with_key host t p replace supersede (some key) job_id now jobs in
      (r : Job) × (find_idempotent key jobs' ≡ some r) × (r.job_id ≡ i)
unfolding enqueue_with_key
with_key-holder host t p replace supersede key job_id now jobs h d =
    rw (key_holder-nonempty key jobs h) (
      resolve-holder host t p replace supersede key job_id now jobs (find_idempotent key jobs) refl
        d)

keep_plain :
    (host : Host) (t : TaskType) (p : Payload) (key job_id now : ℕ) (jobs : List Job) (r : Job)
    → key ≢ 0
    → find_idempotent key jobs ≡ some r
    → enqueue_with_key host t p false false (some key) job_id now jobs ≡ (r.job_id, jobs)
unfolding enqueue_with_key
keep_plain host t p key job_id now jobs r h found =
    rw (key_holder-nonempty key jobs h) (rw found refl)

with_key_again :
    (host : Host) (t : TaskType) (p : Payload) (replace supersede : Bool)
    (key job_id now job_id' now' : ℕ) (jobs : List Job)
    → key ≢ 0
    → HasDistinctKeys jobs
    → let first = enqueue_with_key host t p replace supersede (some key) job_id now jobs in
      enqueue_with_key host t p false false (some key) job_id' now' first.1 ≡ first
with_key_again host t p replace supersede key job_id now job_id' now' jobs h d =
    let first = enqueue_with_key host t p replace supersede (some key) job_id now jobs in
    let (r, found, same) = with_key-holder host t p replace supersede key job_id now jobs h d in
    keep_plain host t p key job_id' now' first.1 r h found ∙ ap (λ i. (i, first.1)) same

enqueue_with_given_key :
    (host : Host) (t : TaskType) (p : Payload) (replace supersede : Bool) (key job_id now : ℕ)
    (jobs : List Job)
    → key ≢ 0
    → enqueue_job host t p (some key) replace supersede job_id now jobs
      ≡ enqueue_with_key host t p (replace || supersede) supersede (some key) job_id now jobs
unfolding enqueue_job
enqueue_with_given_key host t p replace supersede key job_id now jobs h =
    let used : text_or (some key) (job_idempotency_key host t p) ≡ some key = ground arith in
    rw used

-- A second, plain `enqueue_job` with the key of the first, whatever the first one replaced, finds
-- the first job: it returns its id and writes nothing. The key is not empty, and no two jobs held
-- one key before.
pub enqueue_again :
    (host : Host) (t : TaskType) (p : Payload) (replace supersede : Bool)
    (key job_id now job_id' now' : ℕ) (jobs : List Job)
    → key ≢ 0
    → HasDistinctKeys jobs
    → enqueue_job host t p
        (some key)
        false
        false
        job_id'
        now'
        (enqueue_job host t p (some key) replace supersede job_id now jobs).1
      ≡ enqueue_job host t p (some key) replace supersede job_id now jobs
enqueue_again host t p replace supersede key job_id now job_id' now' jobs nonempty d =
    rw
      (
        enqueue_with_given_key host t p replace supersede key job_id now jobs nonempty,
        enqueue_with_given_key host t p false false key job_id' now' _ nonempty,
      )
      (with_key_again host t p (replace || supersede) supersede key job_id now job_id' now' jobs
        nonempty d)
