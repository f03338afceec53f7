-- ===== src/Mirror/Examples.antt =====
-- vector_lake/db_store.py: the theorems on the Tantivy mirror, applied to a small mirror.
use native.Mathlib.Omega.{arith}
use vector_lake.Prelude.{ℕ, ◌≡◌, true, false, none, some, List, [], ◌∷◌, refl, is_some}
use vector_lake.Prelude.Sql.{
  select, fetch_one, order_by, insert_by, find_key, update_where, row_count,
}
use vector_lake.Prelude.Result.{ok}
use vector_lake.Mirror.Ack.{tantivy_mirror_ack-keeps_newer}
use vector_lake.Mirror.{
  intent_row, bumped, Phase, replay, ready, upsert, FtsRow, QueueRow, Mirror, is_ready,
  enqueue_tantivy_intent, has_duplicates, within,
}
use vector_lake.Mirror.Queue.{
  ack_each, tantivy_mirror_ack, TantivyMirrorIntent, TantivyMirrorBatch, TantivyMirrorToken,
  tantivy_mirror_admit, tantivy_mirror_mark_ready, tantivy_mirror_read_token,
}
use vector_lake.Mirror.Select.{
  IsWithin, tantivy_mirror_select, select_each, sort_out, joined, eligible_rows, snapshot,
  tantivy_mirror_select-admissible,
}
use vector_lake.Mirror.Writers.{delete_search_index}
use vector_lake.Mirror.History.{
  start, after, deleted, made_ready, same_token_same_table, IsSound, read_token_iff_ready,
}

abbrev page : FtsRow
page = record { rowid = 1; node_key = 20; title = some 21; summary = none; text = some 22 }

abbrev mirror : Phase → List QueueRow → Mirror
mirror phase queue = record {
  control = record {
    revision = 7;
    epoch = 2;
    phase = phase;
    seed_after_rowid = 1;
    seed_through_rowid = 1;
    incarnation = some 9;
    attempt_count = 0;
    available_at = 0;
    last_error = none;
  };
  queue = queue;
  fts = page ∷ [];
}

abbrev token : TantivyMirrorToken
token = record { revision = 7; epoch = 2; incarnation = 9 }

token-read : tantivy_mirror_read_token false (mirror ready []) ≡ some token
unfolding tantivy_mirror_read_token
token-read = refl

made-ready : tantivy_mirror_mark_ready 2 9 (mirror ready []) ≡ ok (false, mirror ready [])
unfolding tantivy_mirror_mark_ready has_duplicates fetch_one
made-ready = refl

same_token_same_table_example : (mirror ready []).fts ≡ (mirror ready []).fts
same_token_same_table_example =
    same_token_same_table false false token
      (after start (made_ready (mirror ready []) 2 9 (false, mirror ready []) made-ready))
      token-read token-read

mirror-IsSound : IsSound (mirror ready [])
mirror-IsSound = record { drained = λ e. refl; cleared = λ e. refl }

read_token_iff_ready_example :
    is_some (tantivy_mirror_read_token false (delete_search_index (some 1) 20 (mirror ready [])))
    ≡ is_ready (delete_search_index (some 1) 20 (mirror ready [])).control.phase
read_token_iff_ready_example =
    read_token_iff_ready mirror-IsSound (after start (deleted (mirror ready []) (some 1) 20))

abbrev queued_page : QueueRow
queued_page = record {
  node_key = 20;
  epoch = 2;
  generation = 7;
  operation = upsert;
  fts_rowid = some 1;
  attempt_count = 0;
  available_at = 0;
  last_error = none;
}

abbrev batch : TantivyMirrorBatch
batch = record {
  epoch = 2;
  intents = snapshot queued_page 63 (some page) none ∷ [];
  rejected = [];
  payload_bytes = 63;
}

batch-selected :
    tantivy_mirror_select (λ n. n) 10 1000 3 5 (mirror replay (queued_page ∷ [])) ≡ ok batch
unfolding tantivy_mirror_select select_each sort_out joined eligible_rows select fetch_one order_by
    insert_by
batch-selected = refl

tantivy_mirror_select-admissible_example :
    IsWithin 10 1000 batch
    × ((attempts : ℕ) (clock : ℕ → ℕ) (later : Mirror)
        → within 3 attempts ≡ true
        → (answer : List TantivyMirrorIntent × Mirror) × (tantivy_mirror_admit batch attempts clock
              later
            ≡ ok answer))
tantivy_mirror_select-admissible_example =
    tantivy_mirror_select-admissible (λ n. n) 10 1000 3 5 (mirror replay (queued_page ∷ [])) batch
      batch-selected

abbrev taken : TantivyMirrorIntent
taken = snapshot queued_page 63 (some page) none

acked-once :
    tantivy_mirror_ack
      (taken ∷ [])
      (enqueue_tantivy_intent 20 upsert (some 1) (mirror replay (queued_page ∷ [])))
    ≡ ok (0, enqueue_tantivy_intent 20 upsert (some 1) (mirror replay (queued_page ∷ [])))
unfolding tantivy_mirror_ack ack_each enqueue_tantivy_intent update_where select row_count fetch_one
acked-once = refl

tantivy_mirror_ack-keeps_newer_example :
    find_key
      (λ (q : QueueRow). q.node_key)
      20
      (enqueue_tantivy_intent 20 upsert (some 1) (mirror replay (queued_page ∷ []))).queue
    ≡ some (intent_row 20 upsert (some 1) (bumped (mirror replay (queued_page ∷ [])).control))
tantivy_mirror_ack-keeps_newer_example =
    tantivy_mirror_ack-keeps_newer 20 upsert (some 1) (mirror replay (queued_page ∷ []))
      (taken ∷ []) (0, enqueue_tantivy_intent 20 upsert (some 1) (mirror replay (queued_page ∷ [])))
      (omega arith, tt) acked-once
