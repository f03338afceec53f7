-- ===== src/Coordinator/Examples.antt =====
-- vector_lake/mutation_coordinator.py: the theorems on the coordinator, applied to small batches.
use vector_lake.Prelude.{
  contains, ℕ, ◌+◌, ◌≤◌, ◌≡◌, true, false, Option, none, some, List, [], ◌∷◌, Memᴰ, refl, arith,
  ◌==◌, if◌then◌else◌, map, ap, sym,
}
use vector_lake.Prelude.Sql.{find_key, fetch_one, update_where}
use vector_lake.Prelude.Result.{Result, ok, err, ok-injective}
use vector_lake.Outbox.{
  Intent, MutationType, update, delete, ValidationMode, full, latest_of, current_mutation_intent,
}
use vector_lake.Outbox.Enqueue.{
  enqueue_mutation, enqueue_over, write_intent, max_revision, supersede_older, inserted_row,
  bound_row, bind_mutation_versions,
}
use vector_lake.Coordinator.{
  MutationError, value_error, Paths, Files, Validators, Canonical, Expected, unversioned, version,
  Request, Prepared, resolve_wiki_mutation_path,
}
use vector_lake.Coordinator.Locks.{
  sorted_set, projection_locks, IsAscending, IsOrderly, key_of, projection_locks-IsOrderly,
}
use vector_lake.Coordinator.Prepare.{prepare_mutations}
use vector_lake.Coordinator.Commit.{Db, version_text, prepare_change_sets, commit}
use vector_lake.Coordinator.Commit.Binding.{
  AllCommitted, KeepsOutbox, commit-AllCommitted, IsCommitted,
}
use vector_lake.Coordinator.Commit.Versions.{commit-conflict}
use vector_lake.Coordinator.Projection.{
  require_projection_intent, put_file, materialize_markdown_projection,
}
use vector_lake.Coordinator.Projection.Current.{
  IsCurrent, IsProjected, materialize_markdown_projection-IsCurrent,
}
use vector_lake.Coordinator.Projection.Accepted.{IsCommitted-accepted}
use vector_lake.Coordinator.Batch.{Surroundings, target_of, Outcome, execute_mutation_batch}
use vector_lake.Coordinator.Batch.Truth.{IsExecuted, execute_mutation_batch-IsExecuted}

abbrev plain_paths : Paths
plain_paths = record {
  chars = λ f. (f + 200) ∷ [];
  is_trimmed = λ f. true;
  is_absolute = λ f. false;
  path_name = λ f. f;
  wiki_root = 1;
  resolved = λ f. (1, f);
  is_valid_name = λ f. true;
  normcase = λ path. path.1;
  stem = λ f. f;
  is_wiki_page = λ f. true;
}

abbrev lenient : Validators
lenient = record {
  check_placeholder_sources = λ content old. ok tt;
  verify_asset = λ content f is_new. ok tt;
  validate_schema = λ content f is_new. ok tt;
}

-- Each page has a version; a change set gives its page one.
abbrev versions_only : Canonical
versions_only = record {
  Store = ℕ → Option ℕ;
  ChangeSet = ℕ × ℕ;
  page_version = λ store page. store page;
  prepare_change_set = λ store f content. ok (f, content + 1);
  publish_at = λ now change_set. change_set;
  delete_node_cascade = λ page store other. if other == page then none else store other;
  apply_change_sets_batch = λ change_sets store. ok (elim change_sets [
    | [] ↦ store
    | c ∷ _ ↦ λ other. if other == c.0 then some c.1 else store other
  ]);
  record_prepared_change_sets = λ change_sets store. store;
}

abbrev files : Files
files f = if f == 9 then some 60 else none

abbrev requests : List Request
requests =
    record { filename = some 8; content = some 70; is_delete = false; expected_version = version 0 }
    ∷ record { filename = some 9; content = none; is_delete = true; expected_version = unversioned }
    ∷ []

abbrev sha : MutationType → ℕ → ℕ → Expected → ValidationMode → ℕ
sha t f c e m = 500 + f

abbrev first : Prepared
first = record {
  filename = 8;
  content = some 70;
  mutation_type = update;
  expected_version = version 0;
  idempotency_key = 508;
}

abbrev second : Prepared
second = record {
  filename = 9;
  content = none;
  mutation_type = delete;
  expected_version = unversioned;
  idempotency_key = 509;
}

requests-prepared :
    prepare_mutations plain_paths lenient files sha full requests ≡ ok (first ∷ second ∷ [])
unfolding prepare_mutations resolve_wiki_mutation_path
requests-prepared = refl

two-locked :
    projection_locks plain_paths plain_paths files false (λ k. true) [] (9 ∷ 8 ∷ 9 ∷ [])
    ≡ ok (8 ∷ 9 ∷ [])
unfolding projection_locks resolve_wiki_mutation_path
two-locked = refl

projection_locks-IsOrderly_example :
    IsAscending (sorted_set (9 ∷ 8 ∷ 9 ∷ []))
    × ((f : ℕ) → contains (sorted_set (9 ∷ 8 ∷ 9 ∷ [])) f ≡ contains (9 ∷ 8 ∷ 9 ∷ []) f)
    × IsOrderly false
        (λ k. true)
        []
        (map (key_of plain_paths) (sorted_set (9 ∷ 8 ∷ 9 ∷ [])))
        (8 ∷ 9 ∷ [])
projection_locks-IsOrderly_example =
    projection_locks-IsOrderly plain_paths plain_paths files false (λ k. true) [] (9 ∷ 8 ∷ 9 ∷ [])
      (8 ∷ 9 ∷ []) two-locked

-- A number above every id.
next_id : List Intent → ℕ
next_id [] = 1
next_id (x ∷ xs) = x.id + next_id xs

next_id-pos : (xs : List Intent) → 1 ≤ next_id xs
unfolding next_id
next_id-pos [] = omega arith
next_id-pos (x ∷ xs) = omega (arith, next_id-pos xs)

next_id-free : (xs : List Intent) (n : ℕ) → next_id xs ≤ n → find_key (λ x. x.id) n xs ≡ none
unfolding next_id fetch_one
next_id-free [] n h = refl
next_id-free (x ∷ xs) n h = ground (arith, next_id-pos xs, next_id-free xs n)

abbrev store : ℕ → Option ℕ
store page = if page == 9 then some 5 else none

abbrev before : Db (ℕ → Option ℕ)
before = record { store = store; intents = [] }

abbrev written : List Intent
written =
    bound_row 71 (inserted_row 1 8 update (some 70) (some 508) full 1 300)
    ∷ bound_row 0 (inserted_row 2 9 delete none (some 509) full 1 300)
    ∷ []

abbrev batch_commit : Result MutationError (List ℕ × Db (ℕ → Option ℕ))
batch_commit =
    commit versions_only plain_paths none none full next_id (λ f. 300) 290 (first ∷ second ∷ [])
      ((8, 71) ∷ []) before

abbrev after_commit : ℕ → Option ℕ
after_commit other = if other == 8 then some 71 else if other == 9 then none else store other

batch-committed : batch_commit ≡ ok (1 ∷ 2 ∷ [], record { store = after_commit; intents = written })
unfolding commit bind_mutation_versions enqueue_mutation enqueue_over write_intent max_revision
    supersede_older update_where fetch_one latest_of next_id
batch-committed = refl

quiet : KeepsOutbox versions_only plain_paths none
quiet db db' e = ap (λ (d : Db (ℕ → Option ℕ)). d.intents) (ok-injective (sym e))

commit-AllCommitted_example :
    AllCommitted
      (version_text versions_only plain_paths after_commit)
      (first ∷ second ∷ [])
      (1 ∷ 2 ∷ [])
      written
commit-AllCommitted_example =
    commit-AllCommitted versions_only plain_paths none none full next_id (λ f. 300) 290
      (first ∷ second ∷ []) ((8, 71) ∷ []) before
      (1 ∷ 2 ∷ [], record { store = after_commit; intents = written }) quiet quiet
      (λ ys. next_id-free ys (next_id ys) (omega arith)) tt (((λ e. ground arith), tt), (tt, tt))
      batch-committed

abbrev stale : Prepared
stale = record second { expected_version = version 6 }

commit-conflict_example :
    commit versions_only plain_paths none none full next_id
      (λ f. 300)
      290
      (first ∷ stale ∷ [])
      ((8, 71) ∷ [])
      before
    ≡ err value_error
commit-conflict_example =
    commit-conflict versions_only plain_paths none full next_id (λ f. 300) 290 (first ∷ stale ∷ [])
      ((8, 71) ∷ []) before stale (Memᴰ.tail (Memᴰ.head refl))
      (λ respects. cc (respects.1 (λ e. ground arith)))

abbrev surroundings : Surroundings
surroundings = record {
  paths = plain_paths;
  waited = plain_paths;
  validators = lenient;
  sha256 = sha;
  is_source_metadata = λ key. false;
  in_time = λ k. true;
  held = [];
  enforce_runtime_write_health = λ mode. ok tt;
  draw = next_id;
  times = λ f. 300;
  published_at = 290;
  now = 400;
}

abbrev projected : Files
projected = put_file 9 none (put_file 8 (some 70) files)

abbrev outcome : Outcome versions_only
outcome = record {
  outbox_ids = 1 ∷ 2 ∷ [];
  deferred = [];
  db = record { store = after_commit; intents = written };
  files = projected;
}

batch-executed :
    execute_mutation_batch versions_only surroundings none none full false requests store files
      before files
    ≡ ok outcome
unfolding execute_mutation_batch commit bind_mutation_versions enqueue_mutation enqueue_over
    write_intent max_revision supersede_older update_where fetch_one latest_of next_id
    prepare_mutations resolve_wiki_mutation_path prepare_change_sets projection_locks
    materialize_markdown_projection current_mutation_intent
batch-executed = refl

execute_mutation_batch-IsExecuted_example :
    IsExecuted versions_only surroundings full requests files files outcome
execute_mutation_batch-IsExecuted_example =
    execute_mutation_batch-IsExecuted versions_only surroundings none none full false requests store
      files before files outcome quiet quiet (λ ys. next_id-free ys (next_id ys) (omega arith)) tt
      batch-executed

first-materialized :
    materialize_markdown_projection plain_paths plain_paths lenient
      (λ key. false)
      false
      (λ k. true)
      []
      (version_text versions_only plain_paths after_commit)
      (target_of full first 1)
      400
      written
      files
    ≡ ok (put_file 8 (some 70) files)
unfolding materialize_markdown_projection projection_locks resolve_wiki_mutation_path
    current_mutation_intent latest_of fetch_one
first-materialized = refl

materialize_markdown_projection-IsCurrent_example :
    IsCurrent (version_text versions_only plain_paths after_commit) (target_of full first 1) written
    × IsProjected (target_of full first 1) files (put_file 8 (some 70) files)
materialize_markdown_projection-IsCurrent_example =
    materialize_markdown_projection-IsCurrent plain_paths plain_paths lenient (λ key. false) false
      (λ k. true) [] (version_text versions_only plain_paths after_commit) (target_of full first 1)
      400 written files (put_file 8 (some 70) files) first-materialized

abbrev first_row : Intent
first_row = bound_row 71 (inserted_row 1 8 update (some 70) (some 508) full 1 300)

first-IsCommitted :
    IsCommitted (version_text versions_only plain_paths after_commit) first 1 written
unfolding fetch_one
first-IsCommitted = record {
  row = first_row;
  found = refl;
  filename = refl;
  mutation_type = refl;
  payload_text = refl;
  pending = refl;
  base_version = refl;
  gone = λ e. cc;
}

IsCommitted-accepted_example :
    require_projection_intent
      (λ key. false)
      (version_text versions_only plain_paths after_commit)
      (target_of full first 1)
      400
      written
    ≡ ok first_row
unfolding first-IsCommitted current_mutation_intent latest_of fetch_one
IsCommitted-accepted_example =
    IsCommitted-accepted (λ key. false) (version_text versions_only plain_paths after_commit) full
      first 1 400 written first-IsCommitted refl refl refl
