-- ===== src/Outbox/Writes.antt =====
-- vector_lake/db_store.py: the claims of `mutation_outbox`, how they end, and the migration to leases.
use vector_lake.Prelude.{
  ℕ, ◌+◌, ◌-◌, ◌*◌, ◌^◌, Bool, ◌&&◌, ◌||◌, not, Option, none, some, List, [], ◌∷◌, map, leb, ◌==◌,
  if◌then◌else◌, max, take,
}
use vector_lake.Prelude.Sql.{
  sql_eq, null_or_le, update_where, select, row_count, order_by, find_key,
}
use vector_lake.Prelude.Result.{Result, ok, err, ◌>>=◌, ◌>>◌, require}
use vector_lake.Jobs.Row.{seconds}
use vector_lake.Jobs.Failure.{opt_eq}
use vector_lake.Outbox.{
  IntentStatus, pending, processing, completed, failed, superseded, Intent, OutboxError, claim_lost,
  OutboxClaim, is_pending, is_processing, is_active, latest_of, has_newer, validate_mutation_claim,
}

-- COALESCE(available_at, created_at, '') <= now
abbrev pub is_available : ℕ → Intent → Bool
is_available now x = elim x.available_at [ none ↦ leb x.created_at now | some t ↦ leb t now ]

-- The WHERE of `claim_mutation_outbox`.
abbrev pub is_claimable : ℕ → List Intent → Intent → Bool
is_claimable now intents x =
    (is_pending x.status && is_available now x
      || is_processing x.status && null_or_le x.lease_until now)
    && not (has_newer intents x)

abbrev pub claimed_row : ℕ → ℕ → ℕ → (ℕ → ℕ) → Intent → Intent
claimed_row now until owner tokens x = record x {
  status = processing;
  attempt_count = x.attempt_count + 1;
  started_at = some now;
  lease_until = some until;
  lease_owner = some owner;
  lease_token = some (tokens x.id);
  lease_generation = x.lease_generation + 1;
}

unfoldable pub outbox_ids : ℕ → ℕ → List Intent → List ℕ
unfolding has_newer
outbox_ids limit now intents =
    map (λ x. x.id)
      (take (max 1 limit) (order_by (λ x. x.id) (select (is_claimable now intents) intents)))

-- One round of the loop for each id: an UPDATE, and the row is read back.
unfoldable pub claim_each :
    ℕ → ℕ → ℕ → (ℕ → ℕ) → List ℕ → List Intent → List (Option Intent) × List Intent
claim_each now until owner tokens [] intents = ([], intents)
claim_each now until owner tokens (i ∷ ids) intents =
    let intents' = update_where (λ x. x.id == i) (claimed_row now until owner tokens) intents in
    let (claimed, intents'') = claim_each now until owner tokens ids intents' in
    (find_key (λ x. x.id) i intents' ∷ claimed, intents'')

abbrev pub lease_end : ℕ → ℕ → ℕ
lease_end now lease_seconds = now + seconds (max 1 lease_seconds)

-- `tokens i` is the uuid drawn for the intent `i`.
unfoldable pub claim_mutation_outbox :
    ℕ → ℕ → ℕ → (ℕ → ℕ) → ℕ → List Intent → List (Option Intent) × List Intent
unfolding outbox_ids claim_each
claim_mutation_outbox limit lease_seconds owner tokens now intents =
    claim_each now (lease_end now lease_seconds) owner tokens (outbox_ids limit now intents) intents

-- The WHERE of the UPDATEs that end a lease: the row that was validated, still as it was.
abbrev pub is_held : Intent → ℕ → Intent → Bool
is_held row now x =
    x.id == row.id
    && is_processing x.status
    && sql_eq x.lease_owner row.lease_owner
    && sql_eq x.lease_token row.lease_token
    && x.lease_generation == row.lease_generation
    && x.projection_generation == row.projection_generation
    && not (null_or_le x.lease_until now)

-- UPDATE … and `if changed != 1: raise MutationClaimLost`
unfoldable pub end_lease :
    Intent → ℕ → (Intent → Intent) → List Intent → Result OutboxError (List Intent)
end_lease row now g intents =
    if row_count (is_held row now) intents == 1
    then ok (update_where (is_held row now) g intents)
    else err claim_lost

abbrev pub completed_row : ℕ → Intent → Intent
completed_row now x = record x {
  status = completed;
  completed_at = some now;
  lease_until = none;
  last_error = none;
}

-- Two readings of the clock: one of the validation, one of its own.
unfoldable pub complete_mutation_outbox :
    ℕ → OutboxClaim → ℕ → ℕ → List Intent → Result OutboxError (List Intent)
unfolding end_lease
complete_mutation_outbox outbox_id claim now now' intents = do
  row ← validate_mutation_claim claim now intents
  require (row.id == outbox_id) claim_lost
  end_lease row now' (completed_row now') intents

abbrev pub ended_row : IntentStatus → List ℕ → ℕ → Intent → Intent
ended_row status error available x = record x {
  status = status;
  last_error = some (take 4000 error);
  available_at = some available;
  lease_until = none;
  lease_owner = none;
  lease_token = none;
}

-- attempts >= max(1, max_attempts)
abbrev pub is_terminal_attempt : ℕ → ℕ → Bool
is_terminal_attempt max_attempts attempts = leb (max 1 max_attempts) attempts

-- `backoff` is `backoff_base` in microseconds.
abbrev pub retry_at : ℕ → ℕ → ℕ → ℕ → ℕ
retry_at max_attempts backoff attempts now =
    now + (if is_terminal_attempt max_attempts attempts then 0 else backoff * 2 ^ (attempts - 1))

abbrev pub status_after : ℕ → ℕ → IntentStatus
status_after max_attempts attempts =
    if is_terminal_attempt max_attempts attempts then failed else pending

unfoldable pub fail_mutation_outbox :
    ℕ
    → List ℕ
    → ℕ
    → ℕ
    → OutboxClaim
    → ℕ
    → ℕ
    → List Intent
    → Result OutboxError (IntentStatus × List Intent)
unfolding end_lease
fail_mutation_outbox outbox_id error max_attempts backoff claim now now' intents = do
  row ← validate_mutation_claim claim now intents
  require (row.id == outbox_id) claim_lost
  let status = status_after max_attempts row.attempt_count
  intents' ←
      end_lease row now'
        (ended_row status error (retry_at max_attempts backoff row.attempt_count now')) intents
  ok (status, intents')

abbrev pub revision_row : Intent → Intent
revision_row x = record x { projection_generation = x.id }

abbrev pub unleased_row : Intent → Intent
unleased_row x = record x {
  status = pending;
  lease_until = none;
  lease_owner = none;
  lease_token = none;
}

-- superseded_by=(SELECT newer.id … ORDER BY … LIMIT 1)
abbrev pub by_latest : List Intent → Intent → Intent
by_latest intents x = record x {
  status = superseded;
  superseded_by = elim (latest_of x.filename intents) [ none ↦ none | some l ↦ some l.id ];
  lease_until = none;
  lease_owner = none;
  lease_token = none;
}

-- The UPDATEs of `_migrate_outbox_fencing`, in their order.
unfoldable pub migrate_outbox_fencing : List Intent → List Intent
unfolding has_newer latest_of
migrate_outbox_fencing intents =
    let revised = update_where (λ x. x.projection_generation == 0) revision_row intents in
    let unleased =
      update_where
        (λ x.
          is_processing x.status
          && (opt_eq x.lease_owner none || opt_eq x.lease_token none || x.lease_generation == 0))
        unleased_row revised in
    update_where (λ x. is_active x.status && has_newer unleased x) (by_latest unleased) unleased
