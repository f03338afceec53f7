-- ===== src/Embeddings.antt =====
-- vector_lake/embedding_scheduler.py: the batches of a backfill, and the limiter of the requests of a
-- minute. Times are microseconds.
pub mod Batches
pub mod Rate
pub mod Clients
mod Examples
use vector_lake.Prelude.{
  ℕ, ◌+◌, ◌-◌, Bool, true, false, ◌&&◌, ◌||◌, not, Option, none, some, List, [], ◌∷◌, ◌++◌, ltb,
  leb, ◌==◌, if◌then◌else◌, min, max, length,
}
use vector_lake.Prelude.Sql.{select}
use vector_lake.Jobs.Row.{seconds}

-- The two shares are int(rpm * utilization) and int(tpm * utilization).
pub record EmbeddingRateConfig : Type 0 where
  pub rpm_share : ℕ
  pub tpm_share : ℕ
  pub max_batch_items : ℕ
  pub max_batch_tokens : ℕ

abbrev pub effective_rpm : EmbeddingRateConfig → ℕ
effective_rpm c = max 1 c.rpm_share

abbrev pub effective_tpm : EmbeddingRateConfig → ℕ
effective_tpm c = max 1 c.tpm_share

pub record Item : Type 0 where
  pub node_key : ℕ
  pub text : ℕ
  pub tokens : ℕ
  pub content_digest : ℕ

abbrev pub item_tokens : Item → ℕ
item_tokens i = max 1 i.tokens

abbrev pub batch_token_cap : EmbeddingRateConfig → ℕ
batch_token_cap c = max 1 (min c.max_batch_tokens (effective_tpm c))

abbrev pub is_nonempty : List Item → Bool
is_nonempty [] = false
is_nonempty (i ∷ is) = true

-- Whether the current batch is closed before an item.
abbrev pub is_full : EmbeddingRateConfig → List Item → ℕ → Item → Bool
is_full c current current_tokens i =
    is_nonempty current
    && (leb c.max_batch_items (length current)
        || ltb (batch_token_cap c) (current_tokens + item_tokens i))

-- The loop, with the current batch and its tokens.
unfoldable pub batch_each : EmbeddingRateConfig → List Item → List Item → ℕ → List (List Item)
batch_each c [] current current_tokens = if is_nonempty current then current ∷ [] else []
batch_each c (i ∷ is) current current_tokens =
    let full = is_full c current current_tokens i in
    let next = if full then i ∷ [] else current ++ i ∷ [] in
    let next_tokens = if full then item_tokens i else current_tokens + item_tokens i in
    let rest = batch_each c is next next_tokens in if full then current ∷ rest else rest

unfoldable pub batch_items : EmbeddingRateConfig → List Item → List (List Item)
unfolding batch_each
batch_items c items = batch_each c items [] 0

-- A row of `embedding_rate_reservations`.
pub record Reservation : Type 0 where
  pub reserved_at : ℕ
  pub token_count : ℕ

-- COALESCE(SUM(token_count), 0)
unfoldable pub tokens_of : List Reservation → ℕ
tokens_of [] = 0
tokens_of (r ∷ rs) = r.token_count + tokens_of rs

-- MIN(reserved_at)
unfoldable pub oldest_of : List Reservation → Option ℕ
oldest_of [] = none
oldest_of (r ∷ rs) = elim (oldest_of rs) [
  | none ↦ some r.reserved_at
  | some t ↦ some (min r.reserved_at t)
]

-- reserved_at > now - 60.0
abbrev pub is_recent : ℕ → Reservation → Bool
is_recent now r = ltb now (r.reserved_at + seconds 60)

-- float(oldest or now)
abbrev pub or_now : ℕ → Option ℕ → ℕ
or_now now none = now
or_now now (some t) = if t == 0 then now else t

-- max(0.01, oldest + 60.0 - now + 0.05)
abbrev pub wait_of : ℕ → Option ℕ → ℕ
wait_of now oldest = max 10000 (or_now now oldest + seconds 60 + 50000 - now)

-- How a round of `reserve` ends: with a slot, an exception, or a sleep before the next round.
pub data Round : Type 0 where
  granted value_error budget_exceeded : Round
  sleeps : ℕ → Round

-- `remaining` is what is left of the caller's budget, when there is a deadline.
abbrev pub wait_or_refuse : Option ℕ → ℕ → Round
wait_or_refuse none wait = sleeps wait
wait_or_refuse (some remaining) wait = if ltb remaining wait then budget_exceeded else sleeps wait

abbrev pub has_room : EmbeddingRateConfig → ℕ → List Reservation → Bool
has_room c request recent =
    leb (length recent + 1) (effective_rpm c) && leb (tokens_of recent + request) (effective_tpm c)

-- A round that looks at the window; only a durable one writes.
unfoldable pub window_round :
    EmbeddingRateConfig → ℕ → Option ℕ → Bool → ℕ → List Reservation → Round × List Reservation
unfolding tokens_of oldest_of
window_round c request remaining true now rows =
    let recent = select (is_recent now) rows in
    if has_room c request recent
    then (granted, recent ++ record { reserved_at = now; token_count = request } ∷ [])
    else (wait_or_refuse remaining (wait_of now (oldest_of recent)), recent)
window_round c request remaining false now rows =
    let recent = select (is_recent now) rows in
    if has_room c request recent
    then (granted, rows)
    else (wait_or_refuse remaining (wait_of now (oldest_of recent)), rows)

-- One round of `reserve`.
unfoldable pub reserve_round :
    EmbeddingRateConfig → ℕ → Option ℕ → Bool → ℕ → List Reservation → Round × List Reservation
unfolding window_round
reserve_round c request_tokens remaining durable now rows =
    if ltb (effective_tpm c) (max 1 request_tokens)
    then (value_error, rows)
    else window_round c (max 1 request_tokens) remaining durable now rows
