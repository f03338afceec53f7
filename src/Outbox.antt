-- ===== src/Outbox.antt =====
-- vector_lake/db_store.py: the rows of `mutation_outbox`, and the functions that read one row.
pub mod Enqueue
pub mod Writes
pub mod Latest
pub mod Claims
pub mod Retention
pub mod Pages
pub mod History
mod Examples
use vector_lake.Prelude.{
  ℕ, ◌+◌, Bool, true, false, ◌&&◌, ◌||◌, not, Option, none, some, List, [], ◌∷◌, ltb, leb, ◌==◌,
  if◌then◌else◌, max,
}
use vector_lake.Prelude.Sql.{sql_eq, null_or_le, find_key}
use vector_lake.Prelude.Result.{Result, ok, err, ◌>>=◌, ◌>>◌, require}
use vector_lake.Jobs.Failure.{GenerationToken, integer, spelled, opt_eq}

pub data MutationType : Type 0 where
  update delete : MutationType
  other_type : ℕ → MutationType

pub data ValidationMode : Type 0 where
  full schema : ValidationMode
  other_mode : ℕ → ValidationMode

pub data IntentStatus : Type 0 where
  pending processing completed failed superseded cancelled : IntentStatus

pub record Intent : Type 0 where
  pub id : ℕ
  pub filename : ℕ
  pub mutation_type : MutationType
  pub payload_text : Option ℕ
  pub status : IntentStatus
  pub attempt_count : ℕ
  pub last_error : Option (List ℕ)
  pub created_at : ℕ
  pub available_at : Option ℕ
  pub started_at : Option ℕ
  pub completed_at : Option ℕ
  pub lease_until : Option ℕ
  pub lease_owner : Option ℕ
  pub lease_token : Option ℕ
  pub lease_generation : ℕ
  pub projection_generation : ℕ
  pub base_version : Option ℕ
  pub superseded_by : Option ℕ
  pub idempotency_key : Option ℕ
  pub validation_mode : ValidationMode

pub data OutboxError : Type 0 where
  claim_lost claim_superseded value_error : OutboxError

abbrev pub is_pending : IntentStatus → Bool
is_pending pending = true
is_pending _ = false

abbrev pub is_processing : IntentStatus → Bool
is_processing processing = true
is_processing _ = false

-- status IN ('pending','processing','failed')
abbrev pub is_active : IntentStatus → Bool
is_active pending = true
is_active processing = true
is_active failed = true
is_active _ = false

abbrev pub is_superseded : IntentStatus → Bool
is_superseded superseded = true
is_superseded _ = false

abbrev pub same_type : MutationType → MutationType → Bool
same_type update update = true
same_type delete delete = true
same_type (other_type a) (other_type b) = a == b
same_type _ _ = false

abbrev pub same_mode : ValidationMode → ValidationMode → Bool
same_mode full full = true
same_mode schema schema = true
same_mode (other_mode a) (other_mode b) = a == b
same_mode _ _ = false

-- newer.projection_generation > old.projection_generation, or the same with a greater id
abbrev pub is_newer : Intent → Intent → Bool
is_newer newer old =
    ltb old.projection_generation newer.projection_generation
    || newer.projection_generation == old.projection_generation && ltb old.id newer.id

abbrev pub newest : Intent → Option Intent → Option Intent
newest x none = some x
newest x (some y) = if is_newer y x then some y else some x

-- WHERE filename=? ORDER BY projection_generation DESC, id DESC LIMIT 1
unfoldable pub latest_of : ℕ → List Intent → Option Intent
latest_of f [] = none
latest_of f (x ∷ xs) = let rest = latest_of f xs in if x.filename == f then newest x rest else rest

-- EXISTS (SELECT 1 FROM mutation_outbox newer WHERE newer.filename IS old.filename AND …)
unfoldable pub has_newer : List Intent → Intent → Bool
has_newer [] x = false
has_newer (y ∷ ys) x = y.filename == x.filename && is_newer y x || has_newer ys x

abbrev pub is_latest_id : Intent → Option Intent → Bool
is_latest_id row none = false
is_latest_id row (some l) = l.id == row.id && l.projection_generation == row.projection_generation

unfoldable pub current_mutation_intent : ℕ → List Intent → Result OutboxError Intent
unfolding latest_of
current_mutation_intent outbox_id intents = do
  row ← elim (find_key (λ x. x.id) outbox_id intents) [ none ↦ err claim_lost | some x ↦ ok x ]
  require (not (is_superseded row.status) && is_latest_id row (latest_of row.filename intents))
      claim_superseded
  ok row

-- A claim as a caller holds it: a dict, in which every key may be missing.
pub record OutboxClaim : Type 0 where
  pub id : GenerationToken
  pub lease_generation : GenerationToken
  pub projection_generation : GenerationToken
  pub lease_owner : Option ℕ
  pub lease_token : Option ℕ

-- The claim that a claimed row is.
abbrev pub claim_of : Intent → OutboxClaim
claim_of x = record {
  id = integer x.id;
  lease_generation = integer x.lease_generation;
  projection_generation = integer x.projection_generation;
  lease_owner = x.lease_owner;
  lease_token = x.lease_token;
}

abbrev pub positive : ℕ → Result OutboxError ℕ
positive n = if n == 0 then err claim_lost else ok n

-- int(value) of an identity field: no bool, no float, and greater than 0
abbrev pub identity : GenerationToken → Result OutboxError ℕ
identity (integer n) = positive n
identity (spelled (some n)) = positive n
identity _ = err claim_lost

-- A nonempty text.
abbrev pub nonempty_text : Option ℕ → Result OutboxError ℕ
nonempty_text none = err claim_lost
nonempty_text (some t) = positive t

-- The row still holds the lease that was shown, under the revision that was shown.
abbrev pub holds_lease : Intent → ℕ → ℕ → ℕ → ℕ → Bool
holds_lease row owner token generation revision =
    is_processing row.status
    && sql_eq row.lease_owner (some owner)
    && sql_eq row.lease_token (some token)
    && row.lease_generation == generation
    && row.projection_generation == revision

unfoldable pub validate_mutation_claim : OutboxClaim → ℕ → List Intent → Result OutboxError Intent
unfolding current_mutation_intent
validate_mutation_claim claim now intents = do
  outbox_id ← identity claim.id
  generation ← identity claim.lease_generation
  revision ← identity claim.projection_generation
  owner ← nonempty_text claim.lease_owner
  token ← nonempty_text claim.lease_token
  row ← current_mutation_intent outbox_id intents
  require (holds_lease row owner token generation revision) claim_lost
  require (not (null_or_le row.lease_until now)) claim_lost
  ok row

-- Whether an event on a file is an echo of the newest intent.
abbrev pub is_delete : MutationType → Bool
is_delete delete = true
is_delete _ = false

unfoldable pub is_managed_projection_state : ℕ → MutationType → Option ℕ → List Intent → Bool
unfolding latest_of
is_managed_projection_state filename t payload intents = elim (latest_of filename intents) [
  | none ↦ false
  | some x ↦ same_type x.mutation_type t && (is_delete t || opt_eq x.payload_text payload)
]
