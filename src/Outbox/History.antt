-- ===== src/Outbox/History.antt =====
-- vector_lake/db_store.py and vector_lake/outbox_retention.py: the outbox over a run of operations.
pub mod Onward
use vector_lake.Prelude.{ℕ, ◌+◌, ◌⊎◌, inl, inr, ◌≡◌, Bool, List, Option, none, some, arith, refl}
use vector_lake.Prelude.Sql.{update_where, find_key, All-intro}
use vector_lake.Prelude.Keys.{
  IsKeyed, IsKeyed-snoc, IsKeyed-Forall2, All-ne_of_none, Forall2, Forall2-update_where,
}
use vector_lake.Prelude.Result.{ok}
use vector_lake.Outbox.{Intent, MutationType, ValidationMode, IntentStatus, OutboxClaim}
use vector_lake.Outbox.Enqueue.{
  enqueue_mutation, enqueue_over, write_intent, supersede_older, find_existing,
  bind_mutation_versions, superseded_row, inserted_row, revived_row, max_revision,
}
use vector_lake.Outbox.Writes.{
  claim_mutation_outbox, complete_mutation_outbox, fail_mutation_outbox, migrate_outbox_fencing,
  revision_row, unleased_row, by_latest,
}
use vector_lake.Outbox.Claims.Migration.{migrate_outbox_fencing-OnlyLatestActive}
use vector_lake.Outbox.Latest.{OnlyLatestActive, SamePlace, SamePlace-OnlyLatestActive}
use vector_lake.Outbox.Latest.Enqueue.{enqueue_mutation-OnlyLatestActive}
use vector_lake.Outbox.Claims.Leases.{
  AllActive, bind_mutation_versions-SamePlace, claim_mutation_outbox-SamePlace,
  complete_mutation_outbox-SamePlace, fail_mutation_outbox-SamePlace,
}
use vector_lake.Outbox.Retention.{FloatValue, PruneReport, prune_outbox_payloads}
use vector_lake.Outbox.Retention.Sweep.{prune_outbox_payloads-SamePlace}

-- One call that committed.
pub data Step : List Intent → List Intent → Type 0 where
  enqueued :
      {xs : List Intent} (filename : ℕ) (t : MutationType) (payload key : Option ℕ)
      (mode : ValidationMode) (fresh_id now : ℕ) (answer : ℕ × List Intent)
      → find_key (λ x. x.id) fresh_id xs ≡ none
      → enqueue_mutation filename t payload key mode fresh_id now xs ≡ ok answer
      → Step xs answer.1
  bound :
      {xs ys : List Intent} (version_of : ℕ → ℕ) (ids : List ℕ)
      → AllActive ids xs
      → bind_mutation_versions version_of ids xs ≡ ok ys
      → Step xs ys
  claimed :
      {xs : List Intent} (limit lease_seconds owner : ℕ) (tokens : ℕ → ℕ) (now : ℕ)
      → Step xs (claim_mutation_outbox limit lease_seconds owner tokens now xs).1
  succeeded :
      {xs ys : List Intent} (outbox_id : ℕ) (c : OutboxClaim) (now now' : ℕ)
      → complete_mutation_outbox outbox_id c now now' xs ≡ ok ys
      → Step xs ys
  broke :
      {xs : List Intent} (outbox_id : ℕ) (error : List ℕ) (max_attempts backoff : ℕ)
      (c : OutboxClaim) (now now' : ℕ) (answer : IntentStatus × List Intent)
      → fail_mutation_outbox outbox_id error max_attempts backoff c now now' xs ≡ ok answer
      → Step xs answer.1
  pruned :
      {xs : List Intent} (seen : List Intent) (float : ℕ → FloatValue) (size : ℕ → ℕ) (raw : ℕ)
      (days : Option ℕ) (dry_run : Bool) (now : ℕ) (answer : PruneReport × List Intent)
      → prune_outbox_payloads float size raw days dry_run now seen xs ≡ ok answer
      → Step xs answer.1
  migrated : {xs : List Intent} → Step xs (migrate_outbox_fencing xs)

pub data Reach : List Intent → List Intent → Type 0 where
  start : {xs : List Intent} → Reach xs xs
  after : {xs ys zs : List Intent} → Reach xs ys → Step ys zs → Reach xs zs

SameId : Intent → Intent → Type 0
SameId x y = y.id ≡ x.id

update-IsKeyed :
    (p : Intent → Bool) (g : Intent → Intent) (xs : List Intent)
    → ((x : Intent) → (g x).id ≡ x.id)
    → IsKeyed (λ x. x.id) xs
    → IsKeyed (λ x. x.id) (update_where p g xs)
unfolding SameId
update-IsKeyed p g xs same =
    IsKeyed-Forall2 SameId (λ x. x.id) (λ x y e. e) xs (update_where p g xs)
      (Forall2-update_where SameId (λ (x : Intent). Unit {0}) p g (λ x _ _. same x) (λ x. refl) xs
        (All-intro (λ (x : Intent). Unit {0}) (λ x. tt) xs))

SamePlace-IsKeyed :
    (xs ys : List Intent)
    → Forall2 SamePlace xs ys
    → IsKeyed (λ x. x.id) xs
    → IsKeyed (λ x. x.id) ys
SamePlace-IsKeyed xs ys = IsKeyed-Forall2 SamePlace (λ x. x.id) (λ x y s. s.id) xs ys

write_intent-IsKeyed :
    (f : ℕ) (t : MutationType) (payload key : Option ℕ) (mode : ValidationMode) (i now : ℕ)
    (existing : Option Intent) (xs : List Intent)
    → find_key (λ x. x.id) i xs ≡ none
    → IsKeyed (λ x. x.id) xs
    → IsKeyed (λ x. x.id) (write_intent f t payload key mode i now existing xs).1
unfolding write_intent supersede_older
write_intent-IsKeyed f t payload key mode i now none xs new keyed =
    update-IsKeyed _ (superseded_row i) _ (λ x. refl)
      (IsKeyed-snoc (λ x. x.id) xs (inserted_row i f t payload key mode (max_revision f xs + 1) now)
        keyed (All-ne_of_none (λ x. x.id) i xs new))
write_intent-IsKeyed f t payload key mode i now (some r) xs new keyed =
    update-IsKeyed _ (superseded_row r.id) _ (λ x. refl)
      (update-IsKeyed _ (revived_row now payload mode (max_revision f xs + 1)) xs (λ x. refl) keyed)

enqueue_over-IsKeyed :
    (f : ℕ) (t : MutationType) (payload key : Option ℕ) (mode : ValidationMode) (i now : ℕ)
    (existing : Option Intent) (xs : List Intent) (answer : ℕ × List Intent)
    → find_key (λ x. x.id) i xs ≡ none
    → IsKeyed (λ x. x.id) xs
    → enqueue_over f t payload key mode i now existing xs ≡ ok answer
    → IsKeyed (λ x. x.id) answer.1
unfolding enqueue_over
enqueue_over-IsKeyed f t payload key mode i now existing xs answer new keyed e =
    let cases : (answer.1 ≡ xs) ⊎ (answer ≡ write_intent f t payload key mode i now existing xs) =
      ground arith in
    elim cases [
      | inl kept ↦ rw kept keyed
      | inr written ↦
          rw written (write_intent-IsKeyed f t payload key mode i now existing xs new keyed)
    ]

pub enqueue_mutation-IsKeyed :
    (f : ℕ) (t : MutationType) (payload key : Option ℕ) (mode : ValidationMode) (i now : ℕ)
    (xs : List Intent) (answer : ℕ × List Intent)
    → find_key (λ x. x.id) i xs ≡ none
    → IsKeyed (λ x. x.id) xs
    → enqueue_mutation f t payload key mode i now xs ≡ ok answer
    → IsKeyed (λ x. x.id) answer.1
unfolding enqueue_mutation
enqueue_mutation-IsKeyed f t payload key mode i now xs answer new keyed e =
    enqueue_over-IsKeyed f t payload key mode i now (find_existing key xs) xs answer new keyed
      (ground arith)

migrate_outbox_fencing-IsKeyed :
    (xs : List Intent) → IsKeyed (λ x. x.id) xs → IsKeyed (λ x. x.id) (migrate_outbox_fencing xs)
unfolding migrate_outbox_fencing
migrate_outbox_fencing-IsKeyed xs keyed =
    update-IsKeyed _ (by_latest _) _ (λ x. refl)
      (update-IsKeyed _ unleased_row _ (λ x. refl)
        (update-IsKeyed _ revision_row xs (λ x. refl) keyed))

-- Unique ids, and only the newest intent of a page live.
abbrev pub IsFenced : List Intent → Type 0
IsFenced xs = IsKeyed (λ x. x.id) xs × OnlyLatestActive xs

SamePlace-IsFenced : (xs ys : List Intent) → Forall2 SamePlace xs ys → IsFenced xs → IsFenced ys
SamePlace-IsFenced xs ys s h =
    (SamePlace-IsKeyed xs ys s h.0, SamePlace-OnlyLatestActive xs ys s h.1)

Step-IsFenced : {xs ys : List Intent} → Step xs ys → IsFenced xs → IsFenced ys
Step-IsFenced {xs} (enqueued f t payload key mode i now answer new e) h = (
  enqueue_mutation-IsKeyed f t payload key mode i now xs answer new h.0 e,
  enqueue_mutation-OnlyLatestActive f t payload key mode i now xs answer h.0 new h.1 e,
)
Step-IsFenced {xs} {ys} (bound version_of ids live e) h =
    SamePlace-IsFenced xs ys (bind_mutation_versions-SamePlace version_of ids xs ys live e) h
Step-IsFenced {xs} {ys} (claimed limit lease_seconds owner tokens now) h =
    SamePlace-IsFenced xs ys
      (claim_mutation_outbox-SamePlace limit lease_seconds owner tokens now xs h.0) h
Step-IsFenced {xs} {ys} (succeeded outbox_id c now now' e) h =
    SamePlace-IsFenced xs ys (complete_mutation_outbox-SamePlace outbox_id c now now' xs ys e) h
Step-IsFenced {xs} (broke outbox_id error max_attempts backoff c now now' answer e) h =
    SamePlace-IsFenced xs answer.1
      (fail_mutation_outbox-SamePlace outbox_id error max_attempts backoff c now now' xs answer e) h
Step-IsFenced {xs} (pruned seen float size raw days dry_run now answer e) h =
    SamePlace-IsFenced xs answer.1
      (prune_outbox_payloads-SamePlace float size raw days dry_run now seen xs answer e) h
Step-IsFenced {xs} migrated h =
    (migrate_outbox_fencing-IsKeyed xs h.0, migrate_outbox_fencing-OnlyLatestActive xs)

-- From a table with unique ids in which each live intent is the newest of its page, every run of
-- enqueues, bindings of live intents, claims, completions, failures, payload sweeps and
-- migrations, in any order, leads to such a table again. The id of an insertion is new.
pub Reach-IsFenced : {xs ys : List Intent} → Reach xs ys → IsFenced xs → IsFenced ys
Reach-IsFenced start h = h
Reach-IsFenced (after r s) h = Step-IsFenced s (Reach-IsFenced r h)
