-- ===== src/Mirror.antt =====
-- vector_lake/db_store.py: the control row and the queue of the Tantivy mirror of the full-text
-- table. The control row is there, and callers are outside of transactions: the RuntimeErrors about
-- either are left out. A time is a number of microseconds.
pub mod Queue
pub mod Writers
pub mod Select
pub mod History
pub mod Ack
mod Examples
use vector_lake.Prelude.{
  ℕ, ◌+◌, Bool, true, false, ◌&&◌, ◌||◌, not, Option, none, some, List, [], ◌∷◌, ◌++◌, ltb, leb,
  ◌==◌, if◌then◌else◌, take, is_some,
}
use vector_lake.Prelude.Sql.{update_where, sql_eq, find_key}
use vector_lake.Prelude.Result.{Result, ok, err, ◌>>=◌, ◌>>◌, require}
use vector_lake.Jobs.Row.{seconds}

pub data Phase : Type 0 where
  needs_clear seeding replay ready : Phase

pub data Operation : Type 0 where
  upsert delete : Operation

-- The row of `tantivy_mirror_state`.
pub record Control : Type 0 where
  pub revision : ℕ
  pub epoch : ℕ
  pub phase : Phase
  pub seed_after_rowid : ℕ
  pub seed_through_rowid : ℕ
  pub incarnation : Option ℕ
  pub attempt_count : ℕ
  pub available_at : ℕ
  pub last_error : Option (List ℕ)

-- A row of `tantivy_mirror_queue`.
pub record QueueRow : Type 0 where
  pub node_key : ℕ
  pub epoch : ℕ
  pub generation : ℕ
  pub operation : Operation
  pub fts_rowid : Option ℕ
  pub attempt_count : ℕ
  pub available_at : ℕ
  pub last_error : Option (List ℕ)

-- A row of `wiki_search_index`.
pub record FtsRow : Type 0 where
  pub rowid : ℕ
  pub node_key : ℕ
  pub title : Option ℕ
  pub summary : Option ℕ
  pub text : Option ℕ

pub record Mirror : Type 0 where
  pub control : Control
  pub queue : List QueueRow
  pub fts : List FtsRow

pub data MirrorError : Type 0 where
  value_error runtime_error : MirrorError

abbrev pub is_ready : Phase → Bool
is_ready ready = true
is_ready _ = false

abbrev pub is_replay : Phase → Bool
is_replay replay = true
is_replay _ = false

abbrev pub is_seeding : Phase → Bool
is_seeding seeding = true
is_seeding _ = false

abbrev pub is_needs_clear : Phase → Bool
is_needs_clear needs_clear = true
is_needs_clear _ = false

abbrev pub has_node_key : ℕ → List QueueRow → Bool
has_node_key k queue = is_some (find_key (λ q. q.node_key) k queue)

abbrev pub intent_row : ℕ → Operation → Option ℕ → Control → QueueRow
intent_row node_key operation rowid c = record {
  node_key = node_key;
  epoch = c.epoch;
  generation = c.revision;
  operation = operation;
  fts_rowid = rowid;
  attempt_count = 0;
  available_at = 0;
  last_error = none;
}

-- revision + 1, and 'ready' goes back to 'replay'
abbrev pub bumped : Control → Control
bumped c = record c {
  revision = c.revision + 1;
  phase = if is_ready c.phase then replay else c.phase;
}

-- `_enqueue_tantivy_intent`: the intent of a node takes the place of its older one.
unfoldable pub enqueue_tantivy_intent : ℕ → Operation → Option ℕ → Mirror → Mirror
enqueue_tantivy_intent node_key operation rowid m =
    let c = bumped m.control in
    let row = intent_row node_key operation rowid c in
    record m {
      control = c;
      queue =
          if has_node_key node_key m.queue
          then update_where (λ q. q.node_key == node_key) (λ _. row) m.queue
          else m.queue ++ row ∷ [];
    }

-- COALESCE(MAX(rowid), 0)
unfoldable pub max_rowid : List FtsRow → ℕ
max_rowid [] = 0
max_rowid (x ∷ xs) = let rest = max_rowid xs in if leb rest x.rowid then x.rowid else rest

-- `_reset_tantivy_epoch`
unfoldable pub reset_tantivy_epoch : Mirror → Mirror
unfolding max_rowid
reset_tantivy_epoch m = record m {
  control = record {
    revision = m.control.revision + 1;
    epoch = m.control.epoch + 1;
    phase = needs_clear;
    seed_after_rowid = 0;
    seed_through_rowid = max_rowid m.fts;
    incarnation = none;
    attempt_count = 0;
    available_at = 0;
    last_error = none;
  };
  queue = [];
}

-- GROUP BY node_key HAVING COUNT(*) > 1
unfoldable pub has_duplicates : List FtsRow → Bool
has_duplicates [] = false
has_duplicates (x ∷ xs) = is_some (find_key (λ y. y.node_key) x.node_key xs) || has_duplicates xs

-- `_tantivy_limits`, of one number
abbrev pub within : ℕ → ℕ → Bool
within cap value = leb 1 value && leb value cap

-- The answer is the new epoch.
unfoldable pub request_tantivy_rebuild : Mirror → Result MirrorError (ℕ × Mirror)
unfolding reset_tantivy_epoch has_duplicates
request_tantivy_rebuild m = do
  require (not (has_duplicates m.fts)) runtime_error
  let m' = reset_tantivy_epoch m
  ok (m'.control.epoch, m')

abbrev pub admits_clear : ℕ → ℕ → ℕ → Control → Bool
admits_clear epoch max_attempts now c =
    c.epoch == epoch
    && is_needs_clear c.phase
    && ltb c.attempt_count max_attempts
    && leb c.available_at now

-- An UPDATE of the control row, and whether it matched.
abbrev pub control_update : Bool → (Control → Control) → Mirror → Bool × Mirror
control_update test f m = (test, if test then record m { control = f m.control } else m)

unfoldable pub tantivy_mirror_admit_clear : ℕ → ℕ → ℕ → Mirror → Result MirrorError (Bool × Mirror)
tantivy_mirror_admit_clear epoch max_attempts now m = do
  require (within 3 max_attempts) value_error
  ok (
      control_update (admits_clear epoch max_attempts now m.control)
        (λ c. record c { attempt_count = c.attempt_count + 1 }) m)

abbrev pub acks_clear : ℕ → Control → Bool
acks_clear epoch c = c.epoch == epoch && is_needs_clear c.phase && ltb 0 c.attempt_count

abbrev pub seeding_row : ℕ → Control → Control
seeding_row incarnation c = record c {
  phase = seeding;
  incarnation = some incarnation;
  attempt_count = 0;
  available_at = 0;
  last_error = none;
}

-- `size` is the length of a text in characters.
unfoldable pub tantivy_mirror_ack_clear :
    (ℕ → ℕ) → ℕ → ℕ → Mirror → Result MirrorError (Bool × Mirror)
tantivy_mirror_ack_clear size epoch incarnation m = do
  require (not (incarnation == 0) && leb (size incarnation) 128) value_error
  ok (control_update (acks_clear epoch m.control) (seeding_row incarnation) m)

-- `_tantivy_retry_delay`, of microseconds
abbrev pub is_retry_delay : ℕ → Bool
is_retry_delay delay = leb delay (seconds 3600)

unfoldable pub tantivy_mirror_fail_clear :
    ℕ → List ℕ → ℕ → ℕ → Mirror → Result MirrorError (Bool × Mirror)
tantivy_mirror_fail_clear epoch error delay now m = do
  require (is_retry_delay delay) value_error
  ok (
      control_update (m.control.epoch == epoch && is_needs_clear m.control.phase)
        (λ c. record c { last_error = some (take 2000 error); available_at = now + delay }) m)
