-- ===== src/Mirror/History.antt =====
-- vector_lake/db_store.py: the Tantivy mirror over a run of operations, of the writers of the
-- full-text table and of the consumer of the queue.
use vector_lake.Prelude.{
  ℕ, ◌≤◌, ◌≡◌, Bool, true, false, Option, none, some, List, [], ◌∷◌, arith, refl, sym, ◌∙◌, is_some,
  suc,
}
use vector_lake.Prelude.Sql.{update_where, select}
use vector_lake.Prelude.Result.{ok}
use vector_lake.Mirror.{
  Operation, upsert, delete, QueueRow, FtsRow, Mirror, is_ready, is_needs_clear,
  enqueue_tantivy_intent, reset_tantivy_epoch, request_tantivy_rebuild, tantivy_mirror_admit_clear,
  tantivy_mirror_ack_clear, tantivy_mirror_fail_clear,
}
use vector_lake.Mirror.Writers.{upsert_search_index, delete_search_index, clear_search_index}
use vector_lake.Mirror.Queue.{
  TantivyMirrorIntent, TantivyMirrorBatch, TantivyMirrorToken, SeedReport, tantivy_mirror_seed,
  seed_page, tantivy_mirror_admit, admit_batch, ack_each, tantivy_mirror_ack, fail_each,
  tantivy_mirror_fail, tantivy_mirror_mark_ready, tantivy_mirror_read_token, is_drained,
}

-- One transaction: of the writers of the full-text table, or of the consumer.
pub data Step : Mirror → Mirror → Type 0 where
  upserted :
      (m : Mirror) (replace : Bool) (recorded : Option ℕ) (row : FtsRow)
      → Step m (upsert_search_index replace recorded row m)
  deleted :
      (m : Mirror) (recorded : Option ℕ) (node_key : ℕ)
      → Step m (delete_search_index recorded node_key m)
  wiped : (m : Mirror) → Step m (clear_search_index m)
  rebuilt :
      (m : Mirror) (answer : ℕ × Mirror) → request_tantivy_rebuild m ≡ ok answer → Step m answer.1
  clear_admitted :
      (m : Mirror) (epoch max_attempts now : ℕ) (answer : Bool × Mirror)
      → tantivy_mirror_admit_clear epoch max_attempts now m ≡ ok answer
      → Step m answer.1
  clear_acked :
      (m : Mirror) (size : ℕ → ℕ) (epoch incarnation : ℕ) (answer : Bool × Mirror)
      → tantivy_mirror_ack_clear size epoch incarnation m ≡ ok answer
      → Step m answer.1
  clear_failed :
      (m : Mirror) (epoch : ℕ) (error : List ℕ) (delay now : ℕ) (answer : Bool × Mirror)
      → tantivy_mirror_fail_clear epoch error delay now m ≡ ok answer
      → Step m answer.1
  seeded :
      (m : Mirror) (epoch max_rows : ℕ) (answer : SeedReport × Mirror)
      → tantivy_mirror_seed epoch max_rows m ≡ ok answer
      → Step m answer.1
  admitted :
      (m : Mirror) (batch : TantivyMirrorBatch) (max_attempts : ℕ) (clock : ℕ → ℕ)
      (answer : List TantivyMirrorIntent × Mirror)
      → tantivy_mirror_admit batch max_attempts clock m ≡ ok answer
      → Step m answer.1
  acked :
      (m : Mirror) (intents : List TantivyMirrorIntent) (answer : ℕ × Mirror)
      → tantivy_mirror_ack intents m ≡ ok answer
      → Step m answer.1
  reported :
      (m : Mirror) (intents : List TantivyMirrorIntent) (error : List ℕ) (delay : ℕ) (clock : ℕ → ℕ)
      (answer : ℕ × Mirror)
      → tantivy_mirror_fail intents error delay clock m ≡ ok answer
      → Step m answer.1
  made_ready :
      (m : Mirror) (epoch incarnation : ℕ) (answer : Bool × Mirror)
      → tantivy_mirror_mark_ready epoch incarnation m ≡ ok answer
      → Step m answer.1

pub data Reach : Mirror → Mirror → Type 0 where
  start : {m : Mirror} → Reach m m
  after : {m n p : Mirror} → Reach m n → Step n p → Reach m p

-- The full-text table only changes with the revision, and the revision only grows.
pub record Advances (m n : Mirror) : Type 0 where
  pub grows : m.control.revision ≤ n.control.revision
  pub fixed : m.control.revision ≡ n.control.revision → m.fts ≡ n.fts

still : (m n : Mirror) → n.control.revision ≡ m.control.revision → n.fts ≡ m.fts → Advances m n
still m n r f = record { grows = omega arith; fixed = λ _. sym f }

Advances-trans : (m n p : Mirror) → Advances m n → Advances n p → Advances m p
Advances-trans m n p a b = record {
  grows = omega (arith, a.grows, b.grows);
  fixed = λ e.
      a.fixed (omega (arith, a.grows, b.grows, e)) ∙ b.fixed (omega (arith, a.grows, b.grows, e));
}

-- A writer that enqueues an intent raises the revision, whatever it does to the table.
enqueued-Advances :
    (node_key : ℕ) (operation : Operation) (rowid : Option ℕ) (m w : Mirror)
    → w.control.revision ≡ m.control.revision
    → Advances m (enqueue_tantivy_intent node_key operation rowid w)
unfolding enqueue_tantivy_intent
enqueued-Advances node_key operation rowid m w e = record {
  grows = omega (arith, e);
  fixed = λ same. absurd (omega (arith, e, same));
}

Step-Advances : {m n : Mirror} → Step m n → Advances m n
unfolding upsert_search_index delete_search_index clear_search_index request_tantivy_rebuild
    reset_tantivy_epoch tantivy_mirror_admit_clear tantivy_mirror_ack_clear
    tantivy_mirror_fail_clear tantivy_mirror_seed seed_page tantivy_mirror_admit admit_batch
    tantivy_mirror_ack tantivy_mirror_fail tantivy_mirror_mark_ready
Step-Advances (upserted m replace recorded row) =
    enqueued-Advances row.node_key upsert (some row.rowid) m _ refl
Step-Advances (deleted m recorded k) = enqueued-Advances k delete none m _ refl
Step-Advances (wiped m) = record { grows = omega arith; fixed = λ e. absurd (omega (arith, e)) }
Step-Advances (rebuilt m answer e) =
    let next : answer.1 ≡ reset_tantivy_epoch m = ground arith in
    rw next (record { grows = omega arith; fixed = λ same. absurd (omega (arith, same)) })
Step-Advances (clear_admitted m epoch max_attempts now answer e) =
    still m answer.1 (ground arith) (ground arith)
Step-Advances (clear_acked m size epoch incarnation answer e) =
    still m answer.1 (ground arith) (ground arith)
Step-Advances (clear_failed m epoch error delay now answer e) =
    still m answer.1 (ground arith) (ground arith)
Step-Advances (seeded m epoch max_rows answer e) = still m answer.1 (ground arith) (ground arith)
Step-Advances (admitted m batch max_attempts clock answer e) =
    still m answer.1 (ground arith) (ground arith)
Step-Advances (acked m intents answer e) = still m answer.1 (ground arith) (ground arith)
Step-Advances (reported m intents error delay clock answer e) =
    still m answer.1 (ground arith) (ground arith)
Step-Advances (made_ready m epoch incarnation answer e) =
    still m answer.1 (ground arith) (ground arith)

Reach-Advances : {m n : Mirror} → Reach m n → Advances m n
Reach-Advances {m} start = still m m refl refl
Reach-Advances {m} {n} (after {n = k} r s) =
    Advances-trans m k n (Reach-Advances r) (Step-Advances s)

token-revision :
    (in_transaction : Bool) (m : Mirror) (t : TantivyMirrorToken)
    → tantivy_mirror_read_token in_transaction m ≡ some t
    → t.revision ≡ m.control.revision
unfolding tantivy_mirror_read_token
token-revision in_transaction m t e = ground arith

-- If one token is read before and after, over any run of writes, clears and rebuilds and of
-- steps of the consumer in between, then the full-text table after is the one before.
pub same_token_same_table :
    {m n : Mirror} (b b' : Bool) (t : TantivyMirrorToken)
    → Reach m n
    → tantivy_mirror_read_token b m ≡ some t
    → tantivy_mirror_read_token b' n ≡ some t
    → m.fts ≡ n.fts
same_token_same_table {m} {n} b b' t run h k =
    (Reach-Advances run).fixed (sym (token-revision b m t h) ∙ token-revision b' n t k)

-- A mirror that is ready has nothing queued, and one that was cleared has an incarnation.
pub record IsSound (m : Mirror) : Type 0 where
  pub drained : is_ready m.control.phase ≡ true → is_drained m.queue ≡ true
  pub cleared : is_needs_clear m.control.phase ≡ false → is_some m.control.incarnation ≡ true

ack_each-drained :
    (is : List TantivyMirrorIntent) (queue : List QueueRow)
    → is_drained queue ≡ true
    → is_drained (ack_each is queue).1 ≡ true
unfolding ack_each select
ack_each-drained [] queue h = h
ack_each-drained (i ∷ is) [] h = ack_each-drained is [] refl
ack_each-drained (i ∷ is) (q ∷ queue) h = cc

fail_each-drained :
    (error : List ℕ) (delay : ℕ) (clock : ℕ → ℕ) (is : List TantivyMirrorIntent)
    (queue : List QueueRow)
    → is_drained queue ≡ true
    → is_drained (fail_each error delay clock is queue).1 ≡ true
unfolding fail_each update_where
fail_each-drained error delay clock [] queue h = h
fail_each-drained error delay clock (i ∷ is) [] h =
    fail_each-drained error delay (λ n. clock (suc n)) is [] refl
fail_each-drained error delay clock (i ∷ is) (q ∷ queue) h = cc

enqueued-IsSound :
    (node_key : ℕ) (operation : Operation) (rowid : Option ℕ) (m w : Mirror)
    → w.control ≡ m.control
    → IsSound m
    → IsSound (enqueue_tantivy_intent node_key operation rowid w)
unfolding enqueue_tantivy_intent
enqueued-IsSound node_key operation rowid m w e h = record {
  drained = λ z. ground arith;
  cleared = λ z. ground (arith, h.cleared, e);
}

Step-IsSound : {m n : Mirror} → Step m n → IsSound m → IsSound n
unfolding upsert_search_index delete_search_index clear_search_index request_tantivy_rebuild
    reset_tantivy_epoch tantivy_mirror_admit_clear tantivy_mirror_ack_clear
    tantivy_mirror_fail_clear tantivy_mirror_seed seed_page tantivy_mirror_admit admit_batch
    tantivy_mirror_ack tantivy_mirror_fail tantivy_mirror_mark_ready
Step-IsSound (upserted m replace recorded row) h =
    enqueued-IsSound row.node_key upsert (some row.rowid) m _ refl h
Step-IsSound (deleted m recorded k) h = enqueued-IsSound k delete none m _ refl h
Step-IsSound (wiped m) h = record { drained = λ z. cc; cleared = λ z. cc }
Step-IsSound (rebuilt m answer e) h =
    let next : answer.1 ≡ reset_tantivy_epoch m = ground arith in
    rw next (record { drained = λ z. cc; cleared = λ z. cc })
Step-IsSound (clear_admitted m epoch max_attempts now answer e) h = record {
  drained = λ z. ground (arith, h.drained);
  cleared = λ z. ground (arith, h.cleared);
}
Step-IsSound (clear_acked m size epoch incarnation answer e) h = record {
  drained = λ z. ground (arith, h.drained);
  cleared = λ z. ground (arith, h.cleared);
}
Step-IsSound (clear_failed m epoch error delay now answer e) h = record {
  drained = λ z. ground (arith, h.drained);
  cleared = λ z. ground (arith, h.cleared);
}
Step-IsSound (seeded m epoch max_rows answer e) h = record {
  drained = λ z. ground (arith, h.drained);
  cleared = λ z. ground (arith, h.cleared);
}
Step-IsSound (admitted m batch max_attempts clock answer e) h = record {
  drained = λ z. ground (arith, h.drained);
  cleared = λ z. ground (arith, h.cleared);
}
Step-IsSound (acked m intents answer e) h =
    let next : answer.1 ≡ record m { queue = (ack_each intents m.queue).1 } = ground arith in
    rw next (record {
      drained = λ z. ack_each-drained intents m.queue (h.drained z);
      cleared = h.cleared;
    })
Step-IsSound (reported m intents error delay clock answer e) h =
    let next : answer.1 ≡ record m { queue = (fail_each error delay clock intents m.queue).1 } =
      ground arith in
    rw next (record {
      drained = λ z. fail_each-drained error delay clock intents m.queue (h.drained z);
      cleared = h.cleared;
    })
Step-IsSound (made_ready m epoch incarnation answer e) h = record {
  drained = λ z. ground (arith, h.drained);
  cleared = λ z. ground (arith, h.cleared);
}

Reach-IsSound : {m n : Mirror} → Reach m n → IsSound m → IsSound n
Reach-IsSound start h = h
Reach-IsSound (after r s) h = Step-IsSound s (Reach-IsSound r h)

-- After any run from a sound mirror, a token is read outside of transactions exactly if the mirror
-- is ready.
pub read_token_iff_ready :
    {m n : Mirror}
    → IsSound m
    → Reach m n
    → is_some (tantivy_mirror_read_token false n) ≡ is_ready n.control.phase
unfolding tantivy_mirror_read_token
read_token_iff_ready {m} {n} sound run =
    let h = Reach-IsSound run sound in ground (arith, h.drained, h.cleared)
