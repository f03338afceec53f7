-- ===== src/Outbox/Retention.antt =====
-- vector_lake/outbox_retention.py: old terminal rows of the outbox lose their payload.
pub mod Sweep
use vector_lake.Prelude.{
  ℕ, ◌+◌, ◌-◌, ◌*◌, Bool, true, false, ◌&&◌, ◌||◌, Option, none, some, List, [], ◌∷◌, ltb, leb,
  ◌==◌, if◌then◌else◌, max, is_some,
}
use vector_lake.Prelude.Sql.{update_where, row_count}
use vector_lake.Prelude.Result.{Result, ok, err, ◌>>=◌, ◌>>◌, require}
use vector_lake.Jobs.Row.{seconds}
use vector_lake.Outbox.{
  Intent, IntentStatus, pending, processing, completed, superseded, cancelled, failed,
}

-- What float() makes of a text that is not blank: the ValueError, or a value. Of a finite value
-- int() keeps the sign and the whole part.
pub data FloatValue : Type 0 where
  value_error nan infinity : FloatValue
  below_zero : FloatValue
  whole_part : ℕ → FloatValue

pub data RetentionError : Type 0 where
  overflow_error : RetentionError

abbrev pub default_keep_days : ℕ
default_keep_days = 30

-- max(0, int(float(raw))): int() of an infinity is an OverflowError, which is not caught.
abbrev pub days_of : FloatValue → Result RetentionError ℕ
days_of value_error = ok default_keep_days
days_of nan = ok default_keep_days
days_of infinity = err overflow_error
days_of below_zero = ok 0
days_of (whole_part n) = ok n

-- `raw` is the stripped text of the variable; 0 stands for the empty one.
abbrev pub keep_days : (ℕ → FloatValue) → ℕ → Result RetentionError ℕ
keep_days float raw = if raw == 0 then ok default_keep_days else days_of (float raw)

-- status IN TERMINAL_STATES
abbrev pub is_terminal : IntentStatus → Bool
is_terminal completed = true
is_terminal superseded = true
is_terminal cancelled = true
is_terminal failed = true
is_terminal _ = false

-- COALESCE(completed_at, started_at, created_at)
abbrev pub last_time : Intent → ℕ
last_time x = elim x.completed_at [
  | none ↦ elim x.started_at [ none ↦ x.created_at | some t ↦ t ]
  | some t ↦ t
]

abbrev pub is_strippable : ℕ → Intent → Bool
is_strippable cutoff x = is_terminal x.status && is_some x.payload_text && ltb (last_time x) cutoff

-- COALESCE(SUM(LENGTH(payload_text)), 0); `size` is LENGTH.
unfoldable pub payload_bytes : (ℕ → ℕ) → (Intent → Bool) → List Intent → ℕ
payload_bytes size p [] = 0
payload_bytes size p (x ∷ xs) =
    let rest = payload_bytes size p xs in
    if p x then elim x.payload_text [ none ↦ rest | some t ↦ size t + rest ] else rest

-- A datetime counts from the first one there is, and a difference before it is an OverflowError.
abbrev pub cutoff_of : ℕ → ℕ → Result RetentionError ℕ
cutoff_of now days =
    if leb (seconds (days * 86400)) now
    then ok (now - seconds (days * 86400))
    else err overflow_error

pub record RetentionPlan : Type 0 where
  pub keep_days : ℕ
  pub cutoff : ℕ
  pub rows_to_strip : ℕ
  pub bytes_to_strip : ℕ
  pub rows_with_payload : ℕ

abbrev pub plan_at : (ℕ → ℕ) → ℕ → ℕ → List Intent → RetentionPlan
plan_at size window cutoff intents = record {
  keep_days = window;
  cutoff = cutoff;
  rows_to_strip = row_count (is_strippable cutoff) intents;
  bytes_to_strip = payload_bytes size (is_strippable cutoff) intents;
  rows_with_payload = row_count (λ x. is_some x.payload_text) intents;
}

abbrev pub window_of : (ℕ → FloatValue) → ℕ → Option ℕ → Result RetentionError ℕ
window_of float raw none = keep_days float raw
window_of float raw (some days) = ok days

unfoldable pub plan_outbox_payload_retention :
    (ℕ → FloatValue)
    → (ℕ → ℕ)
    → ℕ
    → Option ℕ
    → ℕ
    → List Intent
    → Result RetentionError RetentionPlan
unfolding payload_bytes
plan_outbox_payload_retention float size raw days now intents = do
  window ← window_of float raw days
  cutoff ← cutoff_of now window
  ok (plan_at size window cutoff intents)

abbrev pub stripped_row : Intent → Intent
stripped_row x = record x { payload_text = none }

pub record PruneReport : Type 0 where
  pub plan : RetentionPlan
  pub dry_run : Bool
  pub stripped : ℕ

unfoldable pub strip : RetentionPlan → Bool → List Intent → PruneReport × List Intent
strip plan dry_run intents =
    if dry_run || plan.rows_to_strip == 0
    then (record { plan = plan; dry_run = true; stripped = 0 }, intents)
    else (
      record {
        plan = plan;
        dry_run = false;
        stripped = row_count (is_strippable plan.cutoff) intents;
      },
      update_where (is_strippable plan.cutoff) stripped_row intents,
    )

-- The plan is read before the transaction of the UPDATE: `seen` is the table that it reads, `intents`
-- the one that the UPDATE finds.
unfoldable pub prune_outbox_payloads :
    (ℕ → FloatValue)
    → (ℕ → ℕ)
    → ℕ
    → Option ℕ
    → Bool
    → ℕ
    → List Intent
    → List Intent
    → Result RetentionError (PruneReport × List Intent)
unfolding plan_outbox_payload_retention strip
prune_outbox_payloads float size raw days dry_run now seen intents = do
  plan ← plan_outbox_payload_retention float size raw days now seen
  ok (strip plan dry_run intents)
