-- ===== src/Mirror/Queue.antt =====
-- vector_lake/db_store.py: seeding, replaying and draining the queue of the Tantivy mirror.
use vector_lake.Prelude.{
  ℕ, suc, ◌+◌, Bool, true, false, ◌&&◌, ◌||◌, not, Option, none, some, List, [], ◌∷◌, ◌++◌, ltb,
  leb, ◌==◌, if◌then◌else◌, take, length,
}
use vector_lake.Prelude.Sql.{update_where, sql_eq, select, row_count, order_by}
use vector_lake.Prelude.Result.{Result, ok, ◌>>◌, require}
use vector_lake.Mirror.{
  Phase, seeding, replay, ready, Operation, upsert, Control, QueueRow, FtsRow, Mirror, MirrorError,
  value_error, runtime_error, is_ready, is_replay, is_seeding, has_node_key, has_duplicates, within,
  control_update, is_retry_delay,
}

-- SELECT … WHERE rowid > ? AND rowid <= ? ORDER BY rowid LIMIT ?
unfoldable pub seed_rows : ℕ → Control → List FtsRow → List FtsRow
seed_rows max_rows c fts = take max_rows (
    order_by (λ f. f.rowid)
      (select (λ f. ltb c.seed_after_rowid f.rowid && leb f.rowid c.seed_through_rowid) fts))

abbrev pub seed_row : ℕ → ℕ → FtsRow → QueueRow
seed_row epoch revision f = record {
  node_key = f.node_key;
  epoch = epoch;
  generation = revision;
  operation = upsert;
  fts_rowid = some f.rowid;
  attempt_count = 0;
  available_at = 0;
  last_error = none;
}

-- INSERT OR IGNORE, row by row: a node that is queued keeps its intent. The answer counts the rows
-- added, and the new queue.
unfoldable pub seed_each : ℕ → ℕ → List FtsRow → List QueueRow → ℕ × List QueueRow
seed_each epoch revision [] queue = (0, queue)
seed_each epoch revision (f ∷ fs) queue =
    let known = has_node_key f.node_key queue in
    let queue' = if known then queue else queue ++ seed_row epoch revision f ∷ [] in
    let (added, queue'') = seed_each epoch revision fs queue' in
    ((if known then 0 else 1) + added, queue'')

-- rows[-1]["rowid"] if rows else …
unfoldable pub last_rowid : ℕ → List FtsRow → ℕ
last_rowid through [] = through
last_rowid through (f ∷ fs) = last_rowid f.rowid fs

pub record SeedReport : Type 0 where
  pub scanned : ℕ
  pub enqueued : ℕ
  pub phase : Phase
  pub conflict : Bool

-- A page of the seed, written.
unfoldable pub seed_page : ℕ → ℕ → Mirror → SeedReport × Mirror
unfolding seed_rows seed_each last_rowid
seed_page epoch max_rows m =
    let c = m.control in
    let rows = seed_rows max_rows c m.fts in
    let (added, queue') = seed_each epoch c.revision rows m.queue in
    let last = last_rowid c.seed_through_rowid rows in
    let done = ltb (length rows) max_rows || leb c.seed_through_rowid last in
    let next = if done then replay else seeding in
    (
      record { scanned = length rows; enqueued = added; phase = next; conflict = false },
      record m { control = record c { seed_after_rowid = last; phase = next }; queue = queue' },
    )

unfoldable pub tantivy_mirror_seed : ℕ → ℕ → Mirror → Result MirrorError (SeedReport × Mirror)
unfolding seed_page has_duplicates
tantivy_mirror_seed epoch max_rows m = do
  require (within 100 max_rows) value_error
  if not (m.control.epoch == epoch) || not (is_seeding m.control.phase)
      then ok (record { scanned = 0; enqueued = 0; phase = m.control.phase; conflict = true }, m)
      else require (not (m.control.seed_after_rowid == 0 && has_duplicates m.fts)) runtime_error
        >> ok (seed_page epoch max_rows m)

-- What a consumer holds of a queued row; the texts are there for an upsert that was selected.
pub record TantivyMirrorIntent : Type 0 where
  pub node_key : ℕ
  pub epoch : ℕ
  pub generation : ℕ
  pub operation : Operation
  pub fts_rowid : Option ℕ
  pub payload_bytes : ℕ
  pub title : Option ℕ
  pub summary : Option ℕ
  pub text : Option ℕ
  pub error : Option (List ℕ)

pub record TantivyMirrorBatch : Type 0 where
  pub epoch : ℕ
  pub intents : List TantivyMirrorIntent
  pub rejected : List TantivyMirrorIntent
  pub payload_bytes : ℕ

-- WHERE node_key = ? AND epoch = ? AND generation = ?
abbrev pub is_intent : TantivyMirrorIntent → QueueRow → Bool
is_intent i q = q.node_key == i.node_key && q.epoch == i.epoch && q.generation == i.generation

abbrev pub text_of : Option (List ℕ) → List ℕ
text_of none = []
text_of (some t) = t

abbrev pub rejected_row : ℕ → List ℕ → QueueRow → QueueRow
rejected_row max_attempts error q = record q {
  attempt_count = max_attempts;
  last_error = some (take 2000 error);
}

unfoldable pub reject_each : ℕ → List TantivyMirrorIntent → List QueueRow → List QueueRow
reject_each max_attempts [] queue = queue
reject_each max_attempts (i ∷ is) queue =
    reject_each max_attempts is
      (update_where (is_intent i) (rejected_row max_attempts (text_of i.error)) queue)

-- The loop over the intents; `clock n` is the reading of the clock for the n-th one.
unfoldable pub admit_each :
    ℕ
    → (ℕ → ℕ)
    → List TantivyMirrorIntent
    → List QueueRow
    → List TantivyMirrorIntent × List QueueRow
admit_each max_attempts clock [] queue = ([], queue)
admit_each max_attempts clock (i ∷ is) queue =
    let fits : QueueRow → Bool =
      λ q. is_intent i q && ltb q.attempt_count max_attempts && leb q.available_at (clock 0) in
    let queue' = update_where fits (λ q. record q { attempt_count = q.attempt_count + 1 }) queue in
    let (admitted, queue'') = admit_each max_attempts (λ n. clock (suc n)) is queue' in
    (if row_count fits queue == 0 then admitted else i ∷ admitted, queue'')

-- The writes of an admission.
unfoldable pub admit_batch :
    TantivyMirrorBatch → ℕ → (ℕ → ℕ) → Mirror → List TantivyMirrorIntent × Mirror
unfolding reject_each admit_each
admit_batch batch max_attempts clock m =
    let (admitted, queue') =
      admit_each max_attempts clock batch.intents
        (reject_each max_attempts batch.rejected m.queue) in
    (admitted, record m { queue = queue' })

unfoldable pub tantivy_mirror_admit :
    TantivyMirrorBatch
    → ℕ
    → (ℕ → ℕ)
    → Mirror
    → Result MirrorError (List TantivyMirrorIntent × Mirror)
unfolding admit_batch
tantivy_mirror_admit batch max_attempts clock m = do
  require (within 3 max_attempts) value_error
  require
      (leb (length batch.intents + length batch.rejected) 100 && leb batch.payload_bytes 4194304)
      value_error
  if not (m.control.epoch == batch.epoch) || not (is_replay m.control.phase)
      then ok ([], m)
      else ok (admit_batch batch max_attempts clock m)

-- The DELETEs of an acknowledgement, and how many rows they took.
unfoldable pub ack_each : List TantivyMirrorIntent → List QueueRow → ℕ × List QueueRow
ack_each [] queue = (0, queue)
ack_each (i ∷ is) queue =
    let (taken, queue') = ack_each is (select (λ q. not (is_intent i q)) queue) in
    (row_count (is_intent i) queue + taken, queue')

unfoldable pub tantivy_mirror_ack :
    List TantivyMirrorIntent → Mirror → Result MirrorError (ℕ × Mirror)
unfolding ack_each
tantivy_mirror_ack intents m = do
  require (leb (length intents) 100) value_error
  let acked = ack_each intents m.queue
  ok (acked.0, record m { queue = acked.1 })

unfoldable pub fail_each :
    List ℕ → ℕ → (ℕ → ℕ) → List TantivyMirrorIntent → List QueueRow → ℕ × List QueueRow
fail_each error delay clock [] queue = (0, queue)
fail_each error delay clock (i ∷ is) queue =
    let (changed, queue') =
      fail_each error delay (λ n. clock (suc n)) is
        (update_where (is_intent i)
          (λ q. record q { last_error = some (take 2000 error); available_at = clock 0 + delay })
          queue) in
    (row_count (is_intent i) queue + changed, queue')

unfoldable pub tantivy_mirror_fail :
    List TantivyMirrorIntent → List ℕ → ℕ → (ℕ → ℕ) → Mirror → Result MirrorError (ℕ × Mirror)
unfolding fail_each
tantivy_mirror_fail intents error delay clock m = do
  require (is_retry_delay delay) value_error
  require (leb (length intents) 100) value_error
  let failed = fail_each error delay clock intents m.queue
  ok (failed.0, record m { queue = failed.1 })

abbrev pub is_drained : List QueueRow → Bool
is_drained [] = true
is_drained (q ∷ qs) = false

unfoldable pub tantivy_mirror_mark_ready : ℕ → ℕ → Mirror → Result MirrorError (Bool × Mirror)
unfolding has_duplicates
tantivy_mirror_mark_ready epoch incarnation m = do
  require (not (has_duplicates m.fts)) runtime_error
  ok (
      control_update
        (m.control.epoch == epoch
          && sql_eq m.control.incarnation (some incarnation)
          && is_replay m.control.phase
          && is_drained m.queue)
        (λ c. record c { phase = ready }) m)

pub record TantivyMirrorToken : Type 0 where
  pub revision : ℕ
  pub epoch : ℕ
  pub incarnation : ℕ

abbrev pub token_of : Control → Option ℕ → Option TantivyMirrorToken
token_of c none = none
token_of c (some i) = some (record { revision = c.revision; epoch = c.epoch; incarnation = i })

unfoldable pub tantivy_mirror_read_token : Bool → Mirror → Option TantivyMirrorToken
tantivy_mirror_read_token in_transaction m =
    if not in_transaction && is_ready m.control.phase && is_drained m.queue
    then token_of m.control m.control.incarnation
    else none

pub record MirrorState : Type 0 where
  pub control : Control
  pub pending : ℕ
  pub blocked : ℕ

-- The control row with the counts of the queue.
unfoldable pub tantivy_mirror_state : ℕ → Mirror → Result MirrorError MirrorState
tantivy_mirror_state max_attempts m = do
  require (within 3 max_attempts) value_error
  ok (record {
    control = m.control;
    pending = length m.queue;
    blocked = row_count (λ q. leb max_attempts q.attempt_count) m.queue;
  })
