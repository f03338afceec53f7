-- ===== src/Mirror/Ack.antt =====
-- vector_lake/db_store.py, `tantivy_mirror_ack` after `_enqueue_tantivy_intent`.
use vector_lake.Prelude.{
  ℕ, ◌≤◌, ◌≡◌, Bool, true, false, not, Option, some, List, [], ◌∷◌, ◌++◌, All, ◌==◌, if◌then◌else◌,
  Bool-cases, inl, inr, arith, refl,
}
use vector_lake.Prelude.Sql.{update_where, select, fetch_one, find_key}
use vector_lake.Prelude.Result.{ok}
use vector_lake.Mirror.{
  Operation, QueueRow, Mirror, intent_row, bumped, has_node_key, enqueue_tantivy_intent,
}
use vector_lake.Mirror.Queue.{TantivyMirrorIntent, is_intent, ack_each, tantivy_mirror_ack}

find-select :
    (k : ℕ) (keep : QueueRow → Bool) (xs : List QueueRow) (x : QueueRow)
    → find_key (λ q. q.node_key) k xs ≡ some x
    → keep x ≡ true
    → find_key (λ q. q.node_key) k (select keep xs) ≡ some x
unfolding fetch_one select
find-select k keep [] x e kept = cc
find-select k keep (y ∷ xs) x e kept = elim (Bool-cases (y.node_key == k)) [
  | inl hit ↦
      let here : y ≡ x = ground (arith, hit, e) in
      rw (here, kept, if◌then◌else◌) (ground (arith, hit, here))
  | inr miss ↦
      let there = find-select k keep xs x (rw (miss, if◌then◌else◌) at e) kept in
      ground (arith, miss, there)
]

enqueued-found :
    (k : ℕ) (row : QueueRow) (xs : List QueueRow)
    → row.node_key ≡ k
    → find_key
        (λ q. q.node_key)
        k
        (if has_node_key k xs
          then update_where (λ q. q.node_key == k) (λ _. row) xs
          else xs ++ row ∷ [])
      ≡ some row
unfolding fetch_one update_where
enqueued-found k row [] same = ground (arith, same)
enqueued-found k row (x ∷ xs) same = elim (Bool-cases (x.node_key == k)) [
  | inl hit ↦ ground (arith, hit, same)
  | inr miss ↦ let rest = enqueued-found k row xs same in ground (arith, miss, rest)
]

ack_each-found :
    (k : ℕ) (row : QueueRow) (is : List TantivyMirrorIntent) (queue : List QueueRow)
    → All (λ i. is_intent i row ≡ false) is
    → find_key (λ q. q.node_key) k queue ≡ some row
    → find_key (λ q. q.node_key) k (ack_each is queue).1 ≡ some row
unfolding ack_each
ack_each-found k row [] queue other found = found
ack_each-found k row (i ∷ is) queue other found =
    ack_each-found k row is (select (λ q. not (is_intent i q)) queue) other.1
      (find-select k (λ q. not (is_intent i q)) queue row found (ground (arith, other.0)))

newer-untouched :
    (k : ℕ) (operation : Operation) (rowid : Option ℕ) (m : Mirror) (is : List TantivyMirrorIntent)
    → All (λ i. i.generation ≤ m.control.revision) is
    → All (λ i. is_intent i (intent_row k operation rowid (bumped m.control)) ≡ false) is
newer-untouched k operation rowid m [] h = tt
newer-untouched k operation rowid m (i ∷ is) h =
    (ground (arith, h.0), newer-untouched k operation rowid m is h.1)

-- A node is written after a consumer selected intents, whose generations are at most the revision
-- then. An acknowledgement of these intents leaves the new intent of the node in the queue, as it
-- was enqueued.
pub tantivy_mirror_ack-keeps_newer :
    (k : ℕ) (operation : Operation) (rowid : Option ℕ) (m : Mirror)
    (intents : List TantivyMirrorIntent) (answer : ℕ × Mirror)
    → All (λ i. i.generation ≤ m.control.revision) intents
    → tantivy_mirror_ack intents (enqueue_tantivy_intent k operation rowid m) ≡ ok answer
    → find_key (λ q. q.node_key) k answer.1.queue
      ≡ some (intent_row k operation rowid (bumped m.control))
unfolding tantivy_mirror_ack enqueue_tantivy_intent
tantivy_mirror_ack-keeps_newer k operation rowid m intents answer older e =
    let row = intent_row k operation rowid (bumped m.control) in
    let queue = (enqueue_tantivy_intent k operation rowid m).queue in
    let left : answer.1.queue ≡ (ack_each intents queue).1 = ground arith in
    rw left (
      ack_each-found k row intents queue (newer-untouched k operation rowid m intents older)
        (enqueued-found k row m.queue refl))
