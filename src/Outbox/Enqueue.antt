-- ===== src/Outbox/Enqueue.antt =====
-- vector_lake/db_store.py, `enqueue_mutation` and `bind_mutation_versions`: how intents come into
-- `mutation_outbox`.
use vector_lake.Prelude.{
  ℕ, ◌+◌, Bool, true, false, ◌&&◌, ◌||◌, not, Option, none, some, List, [], ◌∷◌, ◌++◌, ltb, ◌==◌,
  if◌then◌else◌, max,
}
use vector_lake.Prelude.Sql.{sql_eq, update_where, fetch_one, find_key}
use vector_lake.Prelude.Result.{Result, ok, err, ◌>>=◌, ◌>>◌, require}
use vector_lake.Jobs.Failure.{opt_eq}
use vector_lake.Outbox.{
  MutationType, other_type, ValidationMode, other_mode, pending, superseded, Intent, OutboxError,
  value_error, is_pending, is_processing, is_active, is_delete, same_type, same_mode, latest_of,
}

-- COALESCE(MAX(projection_generation), 0) over a file
unfoldable pub max_revision : ℕ → List Intent → ℕ
max_revision f [] = 0
max_revision f (x ∷ xs) =
    let rest = max_revision f xs in
    if x.filename == f then max x.projection_generation rest else rest

abbrev pub is_supported : MutationType → Bool
is_supported (other_type _) = false
is_supported _ = true

abbrev pub is_known_mode : ValidationMode → Bool
is_known_mode (other_mode _) = false
is_known_mode _ = true

-- SELECT * FROM mutation_outbox WHERE idempotency_key=?, for a key that is not empty
abbrev pub find_existing : Option ℕ → List Intent → Option Intent
find_existing none intents = none
find_existing (some key) intents =
    if key == 0 then none else fetch_one (λ x. sql_eq x.idempotency_key (some key)) intents

abbrev pub revived_row : ℕ → Option ℕ → ValidationMode → ℕ → Intent → Intent
revived_row now payload mode revision x = record x {
  status = pending;
  attempt_count = 0;
  last_error = none;
  available_at = some now;
  started_at = none;
  completed_at = none;
  lease_until = none;
  lease_owner = none;
  lease_token = none;
  payload_text = payload;
  validation_mode = mode;
  projection_generation = revision;
  base_version = none;
  superseded_by = none;
}

abbrev pub inserted_row :
    ℕ → ℕ → MutationType → Option ℕ → Option ℕ → ValidationMode → ℕ → ℕ → Intent
inserted_row id filename t payload key mode revision now = record {
  id = id;
  filename = filename;
  mutation_type = t;
  payload_text = payload;
  status = pending;
  attempt_count = 0;
  last_error = none;
  created_at = now;
  available_at = some now;
  started_at = none;
  completed_at = none;
  lease_until = none;
  lease_owner = none;
  lease_token = none;
  lease_generation = 0;
  projection_generation = revision;
  base_version = none;
  superseded_by = none;
  idempotency_key = key;
  validation_mode = mode;
}

abbrev pub superseded_row : ℕ → Intent → Intent
superseded_row by x = record x {
  status = superseded;
  superseded_by = some by;
  lease_until = none;
  lease_owner = none;
  lease_token = none;
}

-- The last UPDATE of an enqueue: older live intents of the page give way.
unfoldable pub supersede_older : ℕ → ℕ → ℕ → List Intent → List Intent
supersede_older outbox_id filename revision intents =
    update_where
      (λ x.
        x.filename == filename
        && not (x.id == outbox_id)
        && is_active x.status
        && ltb x.projection_generation revision)
      (superseded_row outbox_id) intents

-- An existing intent that is the live newest one of its page is kept, if nothing about it changed.
abbrev pub is_live_latest : Intent → Option Intent → Bool
is_live_latest x none = false
is_live_latest x (some l) = (is_pending x.status || is_processing x.status) && l.id == x.id

-- The writes of an enqueue that is not a repetition: `fresh_id` is the next AUTOINCREMENT id.
unfoldable pub write_intent :
    ℕ
    → MutationType
    → Option ℕ
    → Option ℕ
    → ValidationMode
    → ℕ
    → ℕ
    → Option Intent
    → List Intent
    → ℕ × List Intent
unfolding max_revision supersede_older
write_intent filename t payload key mode fresh_id now none intents =
    let revision = max_revision filename intents + 1 in
    (
      fresh_id,
      supersede_older fresh_id filename revision
          (intents ++ inserted_row fresh_id filename t payload key mode revision now ∷ []),
    )
write_intent filename t payload key mode fresh_id now (some x) intents =
    let revision = max_revision filename intents + 1 in
    (
      x.id,
      supersede_older x.id filename revision
          (update_where (λ y. y.id == x.id) (revived_row now payload mode revision) intents),
    )

unfoldable pub enqueue_over :
    ℕ
    → MutationType
    → Option ℕ
    → Option ℕ
    → ValidationMode
    → ℕ
    → ℕ
    → Option Intent
    → List Intent
    → Result OutboxError (ℕ × List Intent)
unfolding write_intent latest_of
enqueue_over filename t payload key mode fresh_id now none intents =
    ok (write_intent filename t payload key mode fresh_id now none intents)
enqueue_over filename t payload key mode fresh_id now (some x) intents = do
  require (x.filename == filename && same_type x.mutation_type t) value_error
  if is_live_latest x (latest_of filename intents)
      then if opt_eq x.payload_text payload && same_mode x.validation_mode mode
        then ok (x.id, intents)
        else err value_error
      else ok (write_intent filename t payload key mode fresh_id now (some x) intents)

-- `enqueue_mutation`
unfoldable pub enqueue_mutation :
    ℕ
    → MutationType
    → Option ℕ
    → Option ℕ
    → ValidationMode
    → ℕ
    → ℕ
    → List Intent
    → Result OutboxError (ℕ × List Intent)
unfolding enqueue_over
enqueue_mutation filename t payload key mode fresh_id now intents = do
  require (not (filename == 0)) value_error
  require (is_supported t) value_error
  require (is_known_mode mode) value_error
  enqueue_over filename t payload key mode fresh_id now (find_existing key intents) intents

abbrev pub bound_row : ℕ → Intent → Intent
bound_row version x = record x {
  base_version = some version;
  lease_generation = x.lease_generation + (if is_processing x.status then 1 else 0);
  status = pending;
  attempt_count = 0;
  lease_owner = none;
  lease_token = none;
  lease_until = none;
}

-- `bind_mutation_versions`: `version_of` is the canonical version of the page of a file, 0 for none.
unfoldable pub bind_mutation_versions :
    (ℕ → ℕ) → List ℕ → List Intent → Result OutboxError (List Intent)
bind_mutation_versions version_of [] intents = ok intents
bind_mutation_versions version_of (i ∷ ids) intents = do
  row ← elim (find_key (λ x. x.id) i intents) [ none ↦ err value_error | some x ↦ ok x ]
  let version = version_of row.filename
  require (not (is_delete row.mutation_type && not (version == 0))) value_error
  bind_mutation_versions version_of ids (update_where (λ x. x.id == i) (bound_row version) intents)
