-- ===== src/Mirror/Select.antt =====
-- vector_lake/db_store.py, `tantivy_mirror_select`: the batch that a consumer replays next.
use vector_lake.Prelude.{
  ℕ, suc, refl, ◌+◌, ◌≤◌, ◌≡◌, Bool, true, false, ◌&&◌, ◌||◌, not, Option, none, some, List, [],
  ◌∷◌, ltb, leb, ◌==◌, if◌then◌else◌, take, arith, length, is_some, subst, Bool-cases, inl, inr,
  length-take-le,
}
use vector_lake.Prelude.Sql.{select, fetch_one, order_by}
use vector_lake.Prelude.Result.{Result, ok, ◌>>◌, require, require-eq-ok}
use vector_lake.Jobs.Queue.{codes}
use vector_lake.Mirror.{
  Operation, upsert, delete, QueueRow, FtsRow, Mirror, MirrorError, value_error, is_replay, within,
}
use vector_lake.Mirror.Queue.{
  TantivyMirrorIntent, TantivyMirrorBatch, admit_batch, tantivy_mirror_admit,
}

abbrev pub is_upsert : Operation → Bool
is_upsert upsert = true
is_upsert delete = false

abbrev pub is_row_of : QueueRow → FtsRow → Bool
is_row_of q f =
    is_upsert q.operation
    && f.node_key == q.node_key
    && elim q.fts_rowid [ none ↦ false | some r ↦ f.rowid == r ]

-- The LEFT JOIN: the row of the full-text table that an upsert names.
unfoldable pub joined : List FtsRow → QueueRow → Option FtsRow
joined fts q = fetch_one (is_row_of q) fts

-- COALESCE(length(CAST(text AS BLOB)), 0)
abbrev pub opt_size : (ℕ → ℕ) → Option ℕ → ℕ
opt_size size none = 0
opt_size size (some t) = size t

abbrev pub row_size : (ℕ → ℕ) → Option FtsRow → ℕ
row_size size none = 0
row_size size (some f) = opt_size size f.title + opt_size size f.summary + opt_size size f.text

abbrev pub snapshot : QueueRow → ℕ → Option FtsRow → Option (List ℕ) → TantivyMirrorIntent
snapshot q bytes f error = record {
  node_key = q.node_key;
  epoch = q.epoch;
  generation = q.generation;
  operation = q.operation;
  fts_rowid = q.fts_rowid;
  payload_bytes = bytes;
  title = elim f [ none ↦ none | some x ↦ x.title ];
  summary = elim f [ none ↦ none | some x ↦ x.summary ];
  text = elim f [ none ↦ none | some x ↦ x.text ];
  error = error;
}

-- Why a row is rejected, if it is.
abbrev pub rejection : ℕ → QueueRow → ℕ → Option FtsRow → Option (List ℕ)
rejection max_bytes q bytes f =
    if is_upsert q.operation && not (is_some f)
    then some (codes "FTS rowid/node_key missing; rebuild required")
    else if ltb max_bytes bytes
    then some (codes "FTS payload exceeds max_bytes; not materialized")
    else none

-- The intents selected, those rejected, and the bytes of the selected ones.
pub record Selection : Type 0 where
  pub selected : List TantivyMirrorIntent
  pub rejected : List TantivyMirrorIntent
  pub total : ℕ

-- One round of the loop, before the rounds that follow it.
unfoldable pub sort_out :
    ℕ → QueueRow → ℕ → Option FtsRow → Option (List ℕ) → ℕ → (ℕ → Selection) → Selection
sort_out max_bytes q bytes f (some error) total rest =
    let s = rest total in record s { rejected = snapshot q bytes none (some error) ∷ s.rejected }
sort_out max_bytes q bytes f none total rest =
    if ltb max_bytes (total + bytes)
    then rest total
    else (let s = rest (total + bytes) in
        record s { selected = snapshot q bytes f none ∷ s.selected })

unfoldable pub select_each : (ℕ → ℕ) → ℕ → List FtsRow → List QueueRow → ℕ → Selection
unfolding sort_out joined
select_each size max_bytes fts [] total = record { selected = []; rejected = []; total = total }
select_each size max_bytes fts (q ∷ qs) total =
    let f = joined fts q in
    let bytes = size q.node_key + row_size size f in
    sort_out max_bytes q bytes f (rejection max_bytes q bytes f) total
      (λ t. select_each size max_bytes fts qs t)

unfoldable pub eligible_rows : ℕ → ℕ → ℕ → ℕ → List QueueRow → List QueueRow
eligible_rows epoch max_attempts now max_rows queue = take max_rows (
    order_by (λ q. q.generation)
      (order_by (λ q. q.node_key)
        (select
          (λ q. q.epoch == epoch && ltb q.attempt_count max_attempts && leb q.available_at now)
          queue)))

abbrev pub batch_of : ℕ → Selection → TantivyMirrorBatch
batch_of epoch s = record {
  epoch = epoch;
  intents = s.selected;
  rejected = s.rejected;
  payload_bytes = s.total;
}

-- `size` is the length of a text in bytes.
unfoldable pub tantivy_mirror_select :
    (ℕ → ℕ) → ℕ → ℕ → ℕ → ℕ → Mirror → Result MirrorError TantivyMirrorBatch
unfolding select_each eligible_rows
tantivy_mirror_select size max_rows max_bytes max_attempts now m = do
  require (within 100 max_rows) value_error
  require (within 4194304 max_bytes) value_error
  require (within 3 max_attempts) value_error
  if not (is_replay m.control.phase)
      then ok (record { epoch = m.control.epoch; intents = []; rejected = []; payload_bytes = 0 })
      else ok (
          batch_of m.control.epoch (
            select_each size max_bytes m.fts
              (eligible_rows m.control.epoch max_attempts now max_rows m.queue) 0))

-- The sum of the sizes of intents.
abbrev pub bytes_of : List TantivyMirrorIntent → ℕ
bytes_of [] = 0
bytes_of (i ∷ is) = i.payload_bytes + bytes_of is

record Bounds (max_bytes rows total : ℕ) (s : Selection) : Type 0 where
  count : length s.selected + length s.rejected ≤ rows
  fits : s.total ≤ max_bytes
  adds_up : s.total ≡ total + bytes_of s.selected

sort_out-Bounds :
    (max_bytes : ℕ) (q : QueueRow) (bytes : ℕ) (f : Option FtsRow) (error : Option (List ℕ))
    (total rows : ℕ) (rest : ℕ → Selection)
    → ((t : ℕ) → t ≤ max_bytes → Bounds max_bytes rows t (rest t))
    → total ≤ max_bytes
    → Bounds max_bytes (suc rows) total (sort_out max_bytes q bytes f error total rest)
unfolding sort_out
sort_out-Bounds max_bytes q bytes f (some error) total rows rest h le =
    let b = h total le in
    record {
      count = omega (arith, b.count);
      fits = omega (arith, b.fits);
      adds_up = omega (arith, b.adds_up);
    }
sort_out-Bounds max_bytes q bytes f none total rows rest h le =
    elim (Bool-cases (ltb max_bytes (total + bytes))) [
      | inl over ↦
          let b = h total le in
          rw (over, if◌then◌else◌)
            (record {
              count = omega (arith, b.count);
              fits = omega (arith, b.fits);
              adds_up = omega (arith, b.adds_up);
            })
      | inr under ↦
          let b = h (total + bytes) (ground (arith, under)) in
          rw (under, if◌then◌else◌)
            (record {
              count = omega (arith, b.count);
              fits = omega (arith, b.fits);
              adds_up = omega (arith, b.adds_up);
            })
    ]

select_each-Bounds :
    (size : ℕ → ℕ) (max_bytes : ℕ) (fts : List FtsRow) (qs : List QueueRow) (total : ℕ)
    → total ≤ max_bytes
    → Bounds max_bytes (length qs) total (select_each size max_bytes fts qs total)
unfolding select_each
select_each-Bounds size max_bytes fts [] total le = record {
  count = omega arith;
  fits = le;
  adds_up = omega arith;
}
select_each-Bounds size max_bytes fts (q ∷ qs) total le =
    let f = joined fts q in
    let bytes = size q.node_key + row_size size f in
    sort_out-Bounds max_bytes q bytes f (rejection max_bytes q bytes f) total (length qs)
      (λ t. select_each size max_bytes fts qs t) (select_each-Bounds size max_bytes fts qs) le

abbrev pub IsWithin : ℕ → ℕ → TantivyMirrorBatch → Type 0
IsWithin max_rows max_bytes batch =
    (length batch.intents + length batch.rejected ≤ max_rows)
    × (batch.payload_bytes ≡ bytes_of batch.intents)
    × (batch.payload_bytes ≤ max_bytes)

selected-IsWithin :
    (size : ℕ → ℕ) (max_rows max_bytes epoch : ℕ) (fts : List FtsRow) (max_attempts now : ℕ)
    (queue : List QueueRow)
    → IsWithin max_rows max_bytes (
        batch_of epoch
          (select_each size max_bytes fts (eligible_rows epoch max_attempts now max_rows queue) 0))
unfolding eligible_rows
selected-IsWithin size max_rows max_bytes epoch fts max_attempts now queue =
    let rows = eligible_rows epoch max_attempts now max_rows queue in
    let few : length rows ≤ max_rows = length-take-le max_rows _ in
    let b = select_each-Bounds size max_bytes fts rows 0 (omega arith) in
    (omega (arith, b.count, few), omega (arith, b.adds_up), b.fits)

admitted_within :
    (batch : TantivyMirrorBatch) (attempts : ℕ) (clock : ℕ → ℕ) (m : Mirror)
    → length batch.intents + length batch.rejected ≤ 100
    → batch.payload_bytes ≤ 4194304
    → within 3 attempts ≡ true
    → (answer : List TantivyMirrorIntent × Mirror) × (tantivy_mirror_admit batch attempts clock m
        ≡ ok answer)
unfolding tantivy_mirror_admit
admitted_within batch attempts clock m few small valid =
    let limits : (leb (length batch.intents + length batch.rejected) 100
          && leb batch.payload_bytes 4194304)
        ≡ true =
      ground (arith, few, small) in
    elim (Bool-cases (not (m.control.epoch == batch.epoch) || not (is_replay m.control.phase))) [
      | inl stale ↦ (([], m), rw (valid, limits, stale, if◌then◌else◌) refl)
      | inr current ↦
          (admit_batch batch attempts clock m, rw (valid, limits, current, if◌then◌else◌) refl)
    ]

-- A batch that was selected stays within the limits asked for: at most `max_rows` intents, selected
-- or rejected, the sizes of the selected ones add up to its bytes, and those are at most
-- `max_bytes`. `tantivy_mirror_admit` takes it without an exception, at any later state of the
-- mirror, for every valid number of attempts.
pub tantivy_mirror_select-admissible :
    (size : ℕ → ℕ) (max_rows max_bytes max_attempts now : ℕ) (m : Mirror)
    (batch : TantivyMirrorBatch)
    → tantivy_mirror_select size max_rows max_bytes max_attempts now m ≡ ok batch
    → IsWithin max_rows max_bytes batch
      × ((attempts : ℕ) (clock : ℕ → ℕ) (later : Mirror)
          → within 3 attempts ≡ true
          → (answer : List TantivyMirrorIntent × Mirror) × (tantivy_mirror_admit batch attempts
                clock later
              ≡ ok answer))
unfolding tantivy_mirror_select
tantivy_mirror_select-admissible size max_rows max_bytes max_attempts now m batch e =
    let (rows, e1) = require-eq-ok (within 100 max_rows) value_error _ e in
    let (bytes, e2) = require-eq-ok (within 4194304 max_bytes) value_error _ e1 in
    let (_, e3) = require-eq-ok (within 3 max_attempts) value_error _ e2 in
    let fits : IsWithin max_rows max_bytes batch =
      elim (Bool-cases (not (is_replay m.control.phase))) [
        | inl idle ↦
            let none_yet = rw (idle, if◌then◌else◌) at e3 in
            (ground arith, ground arith, ground arith)
        | inr busy ↦
            let chosen : batch_of m.control.epoch (
                  select_each size max_bytes m.fts
                    (eligible_rows m.control.epoch max_attempts now max_rows m.queue) 0)
                ≡ batch =
              ground (arith, rw (busy, if◌then◌else◌) at e3) in
            subst (IsWithin max_rows max_bytes) chosen (
              selected-IsWithin size max_rows max_bytes m.control.epoch m.fts max_attempts now
                m.queue)
      ] in
    (
      fits,
      λ attempts clock later valid.
          admitted_within batch attempts clock later (ground (arith, fits.0, rows))
            (ground (arith, fits.2, bytes)) valid,
    )
