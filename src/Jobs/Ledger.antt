-- ===== src/Jobs/Ledger.antt =====
-- vector_lake/db_store.py: the ledger of processed files, the sources that were given up, and the
-- failed jobs whose source has been ingested since.
pub mod Abandoned
use mathlib.Core.List.{reverse}
use vector_lake.Prelude.{
  ℕ, ◌+◌, ◌-◌, Bool, true, false, ◌&&◌, ◌||◌, not, Option, none, some, List, [], ◌∷◌, ◌++◌, map,
  leb, ◌==◌, if◌then◌else◌, take, is_some,
}
use vector_lake.Prelude.Sql.{update_where, select, row_count, fetch_one, order_by, find_key}
use vector_lake.Jobs.Row.{
  JobStatus, superseded, Job, Payload, Host, max_ingest_attempts, text_or_empty, is_recompile,
  is_failed,
}
use vector_lake.Jobs.Queue.{codes}

-- A row of `processed_files`.
pub record ProcessedFile : Type 0 where
  pub filepath : ℕ
  pub file_hash : ℕ
  pub processed_at : ℕ
  pub observed_mtime_ns : Option ℕ
  pub observed_size : Option ℕ

-- COALESCE(new, old)
abbrev pub coalesce : Option ℕ → Option ℕ → Option ℕ
coalesce none old = old
coalesce (some n) old = some n

-- The upsert of `mark_file_processed`.
unfoldable pub mark_file_processed :
    ℕ → ℕ → Option ℕ → Option ℕ → ℕ → List ProcessedFile → List ProcessedFile
mark_file_processed filepath file_hash mtime size now files =
    if is_some (find_key (λ f. f.filepath) filepath files)
    then update_where (λ f. f.filepath == filepath)
        (λ f. record f {
          file_hash = file_hash;
          processed_at = now;
          observed_mtime_ns = coalesce mtime f.observed_mtime_ns;
          observed_size = coalesce size f.observed_size;
        })
        files
    else files
      ++ record {
        filepath = filepath;
        file_hash = file_hash;
        processed_at = now;
        observed_mtime_ns = mtime;
        observed_size = size;
      }
        ∷ []

-- A row of `ingest_abandoned_sources`; its key is the path with the hash.
pub record AbandonedSource : Type 0 where
  pub filepath : ℕ
  pub file_hash : ℕ
  pub reason : List ℕ
  pub terminal_jobs : ℕ
  pub abandoned_at : ℕ

abbrev pub is_source : ℕ → ℕ → AbandonedSource → Bool
is_source filepath file_hash s = s.filepath == filepath && s.file_hash == file_hash

unfoldable pub record_abandoned_source :
    ℕ → ℕ → List ℕ → ℕ → List AbandonedSource → ℕ × List AbandonedSource
record_abandoned_source filepath file_hash reason now sources =
    let sources' : List AbandonedSource =
      if is_some (fetch_one (is_source filepath file_hash) sources)
      then update_where (is_source filepath file_hash)
          (λ s. record s {
            reason = take 500 reason;
            terminal_jobs = s.terminal_jobs + 1;
            abandoned_at = now;
          })
          sources
      else sources
        ++ record {
          filepath = filepath;
          file_hash = file_hash;
          reason = take 500 reason;
          terminal_jobs = 1;
          abandoned_at = now;
        }
          ∷ [] in
    (
      elim (fetch_one (is_source filepath file_hash) sources') [
        | none ↦ 1
        | some s ↦ s.terminal_jobs
      ],
      sources',
    )

unfoldable pub abandoned_source_keys : List AbandonedSource → List (ℕ × ℕ)
abandoned_source_keys sources = map (λ s. (s.filepath, s.file_hash)) sources

-- Newest first.
unfoldable pub list_abandoned_sources : List AbandonedSource → List AbandonedSource
list_abandoned_sources sources = reverse (order_by (λ s. s.abandoned_at) sources)

-- `if filepath:`: no path, or the empty one, clears every source.
abbrev pub is_cleared : Option ℕ → AbandonedSource → Bool
is_cleared none s = true
is_cleared (some filepath) s = filepath == 0 || s.filepath == filepath

unfoldable pub clear_abandoned_sources : Option ℕ → List AbandonedSource → ℕ × List AbandonedSource
clear_abandoned_sources filepath sources =
    (row_count (is_cleared filepath) sources, select (λ s. not (is_cleared filepath s)) sources)

-- The WHERE of `list_terminal_failed_jobs`.
abbrev pub is_terminal_failed : Job → Bool
is_terminal_failed r = is_failed r.status && leb max_ingest_attempts r.retries

-- The source that a job names, 0 where its payload names none.
unfoldable pub filepath_of : Host → Job → ℕ
filepath_of host r = elim (host.json_loads r.payload) [
  | none ↦ 0
  | some p ↦ text_or_empty p.filepath
]

unfoldable pub list_terminal_failed_jobs : List Job → List Job
list_terminal_failed_jobs jobs =
    reverse (order_by (λ r. r.updated_at) (select is_terminal_failed jobs))

abbrev pub closed_row : ℕ → Job → Job
closed_row now r = record r {
  status = superseded;
  updated_at = now;
  error_msg = r.error_msg ++ codes " [closed: the source was ingested by a later job]";
}

-- Whether the loop keeps a job. `proven` is the check of a recompile against the file system.
unfoldable pub is_kept : Host → (Job → Bool) → List ProcessedFile → Bool → Job → Bool
unfolding filepath_of
is_kept host proven files source_ingested_only r =
    is_recompile r.task_type && not (proven r)
    || source_ingested_only
      && (filepath_of host r == 0
          || not (is_some (find_key (λ f. f.filepath) (filepath_of host r) files)))

-- The loop of `close_terminal_failed_jobs`, over the list read before it.
unfoldable pub close_each :
    Host → (Job → Bool) → List ProcessedFile → Bool → ℕ → List Job → List Job → List ℕ × List Job
unfolding is_kept
close_each host proven files only now [] jobs = ([], jobs)
close_each host proven files only now (r ∷ rs) jobs =
    let jobs' =
      if is_kept host proven files only r
      then jobs
      else update_where (λ x. x.job_id == r.job_id && is_failed x.status) (closed_row now) jobs in
    let (closed, jobs'') = close_each host proven files only now rs jobs' in
    (if is_kept host proven files only r then closed else r.job_id ∷ closed, jobs'')

-- The ids that were closed, and the new table. The ids kept are the other ones of the list.
unfoldable pub close_terminal_failed_jobs :
    Host → (Job → Bool) → List ProcessedFile → Bool → ℕ → List Job → List ℕ × List Job
unfolding list_terminal_failed_jobs close_each
close_terminal_failed_jobs host proven files only now jobs =
    close_each host proven files only now (list_terminal_failed_jobs jobs) jobs
