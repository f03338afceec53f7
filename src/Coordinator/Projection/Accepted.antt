-- ===== src/Coordinator/Projection/Accepted.antt =====
-- vector_lake/mutation_coordinator.py, `require_projection_intent`: the intents of a batch pass it.
use vector_lake.Prelude.{ℕ, ◌≡◌, Bool, true, false, Option, none, some, List, arith, refl}
use vector_lake.Prelude.Sql.{find_key-key}
use vector_lake.Prelude.Result.{ok}
use vector_lake.Jobs.Failure.{opt_eq}
use vector_lake.Outbox.{
  Intent, IntentStatus, pending, processing, completed, failed, superseded, cancelled, MutationType,
  update, delete, other_type, ValidationMode, full, schema, other_mode, is_pending, same_type,
  same_mode, current_mutation_intent,
}
use vector_lake.Coordinator.{Prepared}
use vector_lake.Coordinator.Commit.Binding.{IsCommitted}
use vector_lake.Coordinator.Projection.{
  is_intent_of, is_eligible, is_outdated, key_test, require_projection_intent,
}
use vector_lake.Coordinator.Batch.{target_of}

same_type_refl : (t : MutationType) → same_type t t ≡ true
same_type_refl update = refl
same_type_refl delete = refl
same_type_refl (other_type n) = ground arith

same_mode_refl : (m : ValidationMode) → same_mode m m ≡ true
same_mode_refl full = refl
same_mode_refl schema = refl
same_mode_refl (other_mode n) = ground arith

opt_eq_refl : (o : Option ℕ) → opt_eq o o ≡ true
opt_eq_refl none = refl
opt_eq_refl (some n) = ground arith

pending-eligible : (s : IntentStatus) → is_pending s ≡ true → is_eligible s ≡ true
pending-eligible pending h = refl
pending-eligible processing h = refl
pending-eligible completed h = refl
pending-eligible failed h = cc
pending-eligible superseded h = cc
pending-eligible cancelled h = cc

-- The intent of a mutation of a committed batch, while it is the newest of its page and the page
-- keeps its version, is accepted for the projection of that mutation: no commit leaves an intent
-- behind that its own projection refuses. The key is none of a source metadata publication, and the
-- intent was enqueued under the mode of the batch.
pub IsCommitted-accepted :
    (is_source_metadata : ℕ → Bool) (version_of : ℕ → ℕ) (mode : ValidationMode) (p : Prepared)
    (i now : ℕ) (intents : List Intent) (h : IsCommitted version_of p i intents)
    → current_mutation_intent i intents ≡ ok h.row
    → key_test is_source_metadata h.row.idempotency_key ≡ false
    → h.row.validation_mode ≡ mode
    → require_projection_intent is_source_metadata version_of (target_of mode p i) now intents
      ≡ ok h.row
unfolding require_projection_intent
IsCommitted-accepted is_source_metadata version_of mode p i now intents h newest other under =
    let id : h.row.id ≡ i = find_key-key (λ (x : Intent). x.id) i intents h.found in
    let named : is_intent_of (target_of mode p i) h.row ≡ true = ground (
      arith,
      h.filename,
      h.mutation_type,
      h.payload_text,
      same_type_refl p.mutation_type,
      opt_eq_refl p.content,
      same_mode_refl mode,
    ) in
    let eligible = pending-eligible h.row.status h.pending in
    let in_step : is_outdated h.row.base_version p.mutation_type (version_of p.filename) ≡ false =
      ground (arith, h.base_version, h.gone) in
    rw (newest, other, named, eligible, in_step) refl
