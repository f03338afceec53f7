-- ===== src/Outbox/History/Onward.antt =====
-- vector_lake/db_store.py and vector_lake/outbox_retention.py: a row of the outbox over a run of
-- operations.
use vector_lake.Prelude.{
  ℕ, ◌+◌, ◌≤◌, ◌<◌, ◌≡◌, ◌⊎◌, inl, inr, Bool, true, false, ◌&&◌, ◌||◌, not, ◌==◌, Option, none,
  some, List, [], ◌∷◌, ◌++◌, arith, refl, ◌∙◌, if◌then◌else◌, Bool-cases, subst,
}
use vector_lake.Prelude.Sql.{update_where, find_key, All-intro}
use vector_lake.Prelude.Keys.{Forall2-update_where, find_key-Forall2, find_key-append}
use vector_lake.Prelude.Result.{ok, err, require-eq-ok, >>=-eq-ok}
use vector_lake.Outbox.{
  Intent, MutationType, ValidationMode, IntentStatus, OutboxClaim, claim_lost, value_error,
  is_delete, is_processing, validate_mutation_claim,
}
use vector_lake.Outbox.Enqueue.{
  enqueue_mutation, enqueue_over, write_intent, supersede_older, find_existing, bound_row,
  bind_mutation_versions, superseded_row, inserted_row, revived_row, max_revision,
}
use vector_lake.Outbox.Writes.{
  claimed_row, claim_each, outbox_ids, lease_end, claim_mutation_outbox, is_held, end_lease,
  completed_row, complete_mutation_outbox, ended_row, fail_mutation_outbox, status_after, retry_at,
  migrate_outbox_fencing, revision_row, unleased_row, by_latest, is_terminal_attempt,
}
use vector_lake.Outbox.Retention.{
  PruneReport, RetentionPlan, FloatValue, is_strippable, stripped_row, strip, prune_outbox_payloads,
  plan_outbox_payload_retention,
}
use vector_lake.Outbox.History.{
  Step, enqueued, bound, claimed, succeeded, broke, pruned, migrated, Reach, start, after,
}

-- One row, before and after: its generation does not fall, and it only comes into processing with a
-- new generation.
pub record Onward (x y : Intent) : Type 0 where
  pub id : y.id ≡ x.id
  pub generation : x.lease_generation ≤ y.lease_generation
  pub renewed :
      is_processing y.status ≡ true
      → (is_processing x.status ≡ true) ⊎ (x.lease_generation < y.lease_generation)

Onward-refl : (x : Intent) → Onward x x
Onward-refl x = record { id = refl; generation = omega arith; renewed = λ on. inl on }

Onward-trans : (x y z : Intent) → Onward x y → Onward y z → Onward x z
Onward-trans x y z p q = record {
  id = q.id ∙ p.id;
  generation = omega (arith, p.generation, q.generation);
  renewed = λ on. elim (q.renewed on) [
    | inr more ↦ inr (omega (arith, p.generation, more))
    | inl mid ↦ elim (p.renewed mid) [
      | inl first ↦ inl first
      | inr more ↦ inr (omega (arith, q.generation, more))
    ]
  ];
}

-- Each row that is found is found again, and has gone on.
pub Keeps : List Intent → List Intent → Type 0
Keeps xs ys =
    (i : ℕ) (x : Intent)
    → find_key (λ z. z.id) i xs ≡ some x
    → (y : Intent) × (find_key (λ z. z.id) i ys ≡ some y) × Onward x y

Keeps-refl : (xs : List Intent) → Keeps xs xs
unfolding Keeps
Keeps-refl xs i x found = (x, found, Onward-refl x)

Keeps-trans : (xs ys zs : List Intent) → Keeps xs ys → Keeps ys zs → Keeps xs zs
unfolding Keeps
Keeps-trans xs ys zs p q i x found =
    let (y, there, first) = p i x found in
    let (z, last, second) = q i y there in (z, last, Onward-trans x y z first second)

Keeps-update_where :
    (p : Intent → Bool) (g : Intent → Intent) (xs : List Intent)
    → ((x : Intent) → p x ≡ true → Onward x (g x))
    → Keeps xs (update_where p g xs)
unfolding Keeps
Keeps-update_where p g xs on i x found =
    find_key-Forall2 (λ z. z.id) Onward (λ a b o. o.id) i xs (update_where p g xs) x
      (Forall2-update_where Onward (λ (z : Intent). Unit {0}) p g (λ z _ e. on z e) Onward-refl xs
        (All-intro (λ (z : Intent). Unit {0}) (λ z. tt) xs))
      found

Keeps-append : (xs ys : List Intent) → Keeps xs (xs ++ ys)
unfolding Keeps
Keeps-append xs ys i x found = (x, find_key-append (λ z. z.id) i xs ys x found, Onward-refl x)

-- A row that is not in processing afterwards, with the generation that it had or a greater one.
rested :
    (x y : Intent)
    → y.id ≡ x.id
    → x.lease_generation ≤ y.lease_generation
    → is_processing y.status ≡ false
    → Onward x y
rested x y same more off = record { id = same; generation = more; renewed = λ on. cc }

write_intent-Keeps :
    (f : ℕ) (t : MutationType) (payload key : Option ℕ) (mode : ValidationMode) (i now : ℕ)
    (existing : Option Intent) (xs : List Intent)
    → Keeps xs (write_intent f t payload key mode i now existing xs).1
unfolding write_intent supersede_older
write_intent-Keeps f t payload key mode i now none xs =
    let new = inserted_row i f t payload key mode (max_revision f xs + 1) now in
    Keeps-trans xs (xs ++ new ∷ []) _ (Keeps-append xs (new ∷ [])) (
      Keeps-update_where _ (superseded_row i) (xs ++ new ∷ [])
        (λ x _. rested x _ refl (omega arith) refl))
write_intent-Keeps f t payload key mode i now (some r) xs =
    let revive = revived_row now payload mode (max_revision f xs + 1) in
    let ys = update_where (λ y. y.id == r.id) revive xs in
    Keeps-trans xs ys _
      (Keeps-update_where (λ y. y.id == r.id) revive xs (λ x _. rested x _ refl (omega arith) refl))
      (Keeps-update_where _ (superseded_row r.id) ys (λ x _. rested x _ refl (omega arith) refl))

enqueue_over-Keeps :
    (f : ℕ) (t : MutationType) (payload key : Option ℕ) (mode : ValidationMode) (i now : ℕ)
    (existing : Option Intent) (xs : List Intent) (answer : ℕ × List Intent)
    → enqueue_over f t payload key mode i now existing xs ≡ ok answer
    → Keeps xs answer.1
unfolding enqueue_over
enqueue_over-Keeps f t payload key mode i now existing xs answer e =
    let cases : (answer.1 ≡ xs) ⊎ (answer ≡ write_intent f t payload key mode i now existing xs) =
      ground arith in
    elim cases [
      | inl kept ↦ rw kept (Keeps-refl xs)
      | inr written ↦ rw written (write_intent-Keeps f t payload key mode i now existing xs)
    ]

enqueue_mutation-Keeps :
    (f : ℕ) (t : MutationType) (payload key : Option ℕ) (mode : ValidationMode) (i now : ℕ)
    (xs : List Intent) (answer : ℕ × List Intent)
    → enqueue_mutation f t payload key mode i now xs ≡ ok answer
    → Keeps xs answer.1
unfolding enqueue_mutation
enqueue_mutation-Keeps f t payload key mode i now xs answer e =
    enqueue_over-Keeps f t payload key mode i now (find_existing key xs) xs answer (ground arith)

claim_each-Keeps :
    (now until owner : ℕ) (tokens : ℕ → ℕ) (ids : List ℕ) (xs : List Intent)
    → Keeps xs (claim_each now until owner tokens ids xs).1
unfolding claim_each
claim_each-Keeps now until owner tokens [] xs = Keeps-refl xs
claim_each-Keeps now until owner tokens (i ∷ ids) xs =
    let g = claimed_row now until owner tokens in
    let ys = update_where (λ x. x.id == i) g xs in
    Keeps-trans xs ys (claim_each now until owner tokens ids ys).1
      (Keeps-update_where (λ x. x.id == i) g xs
        (λ x _. record { id = refl; generation = omega arith; renewed = λ _. inr (omega arith) }))
      (claim_each-Keeps now until owner tokens ids ys)

claim_mutation_outbox-Keeps :
    (limit lease_seconds owner : ℕ) (tokens : ℕ → ℕ) (now : ℕ) (xs : List Intent)
    → Keeps xs (claim_mutation_outbox limit lease_seconds owner tokens now xs).1
unfolding claim_mutation_outbox
claim_mutation_outbox-Keeps limit lease_seconds owner tokens now xs =
    claim_each-Keeps now (lease_end now lease_seconds) owner tokens (outbox_ids limit now xs) xs

bind_mutation_versions-Keeps :
    (version_of : ℕ → ℕ) (ids : List ℕ) (xs ys : List Intent)
    → bind_mutation_versions version_of ids xs ≡ ok ys
    → Keeps xs ys
unfolding bind_mutation_versions
bind_mutation_versions-Keeps version_of [] xs ys e =
    let same : xs ≡ ys = ground arith in subst (Keeps xs) same (Keeps-refl xs)
bind_mutation_versions-Keeps version_of (i ∷ ids) xs ys e =
    let (row, _, e1) =
      >>=-eq-ok (elim (find_key (λ x. x.id) i xs) [ none ↦ err value_error | some x ↦ ok x ]) _ e in
    let g = bound_row (version_of row.filename) in
    let zs = update_where (λ x. x.id == i) g xs in
    let (_, rest) =
      require-eq-ok (not (is_delete row.mutation_type && not (version_of row.filename == 0)))
        value_error _ e1 in
    Keeps-trans xs zs ys
      (Keeps-update_where (λ x. x.id == i) g xs (λ x _. rested x _ refl (omega arith) refl))
      (bind_mutation_versions-Keeps version_of ids zs ys rest)

end_lease-Keeps :
    (row : Intent) (now : ℕ) (g : Intent → Intent) (xs ys : List Intent)
    → ((x : Intent) → Onward x (g x))
    → end_lease row now g xs ≡ ok ys
    → Keeps xs ys
unfolding end_lease
end_lease-Keeps row now g xs ys on e =
    let result : update_where (is_held row now) g xs ≡ ys = ground arith in
    subst (Keeps xs) result (Keeps-update_where (is_held row now) g xs (λ x _. on x))

pub status_after-ends :
    (max_attempts attempts : ℕ) → is_processing (status_after max_attempts attempts) ≡ false
status_after-ends max_attempts attempts =
    elim (Bool-cases (is_terminal_attempt max_attempts attempts)) [
      | inl e ↦ rw (e, if◌then◌else◌) refl
      | inr e ↦ rw (e, if◌then◌else◌) refl
    ]

complete_mutation_outbox-Keeps :
    (outbox_id : ℕ) (c : OutboxClaim) (now now' : ℕ) (xs ys : List Intent)
    → complete_mutation_outbox outbox_id c now now' xs ≡ ok ys
    → Keeps xs ys
unfolding complete_mutation_outbox
complete_mutation_outbox-Keeps outbox_id c now now' xs ys e =
    let (row, _, e1) = >>=-eq-ok (validate_mutation_claim c now xs) _ e in
    let (_, ended) = require-eq-ok (row.id == outbox_id) claim_lost _ e1 in
    end_lease-Keeps row now' (completed_row now') xs ys (λ x. rested x _ refl (omega arith) refl)
      ended

fail_mutation_outbox-Keeps :
    (outbox_id : ℕ) (error : List ℕ) (max_attempts backoff : ℕ) (c : OutboxClaim) (now now' : ℕ)
    (xs : List Intent) (answer : IntentStatus × List Intent)
    → fail_mutation_outbox outbox_id error max_attempts backoff c now now' xs ≡ ok answer
    → Keeps xs answer.1
unfolding fail_mutation_outbox
fail_mutation_outbox-Keeps outbox_id error max_attempts backoff c now now' xs answer e =
    let (row, _, e1) = >>=-eq-ok (validate_mutation_claim c now xs) _ e in
    let (_, e2) = require-eq-ok (row.id == outbox_id) claim_lost _ e1 in
    let g =
      ended_row (status_after max_attempts row.attempt_count) error
        (retry_at max_attempts backoff row.attempt_count now') in
    let (ys, ended, e3) = >>=-eq-ok (end_lease row now' g xs) _ e2 in
    let same : ys ≡ answer.1 = ground arith in
    subst (Keeps xs) same (
      end_lease-Keeps row now' g xs ys
        (λ x. rested x _ refl (omega arith) (status_after-ends max_attempts row.attempt_count))
        ended)

strip-Keeps :
    (plan : RetentionPlan) (dry_run : Bool) (xs : List Intent) → Keeps xs (strip plan dry_run xs).1
unfolding strip
strip-Keeps plan dry_run xs = elim (Bool-cases (dry_run || plan.rows_to_strip == 0)) [
  | inl e ↦ rw (e, if◌then◌else◌) (Keeps-refl xs)
  | inr e ↦
      rw (e, if◌then◌else◌)
        (Keeps-update_where (is_strippable plan.cutoff) stripped_row xs
          (λ x _. record { id = refl; generation = omega arith; renewed = λ on. inl on }))
]

prune_outbox_payloads-Keeps :
    (float : ℕ → FloatValue) (size : ℕ → ℕ) (raw : ℕ) (days : Option ℕ) (dry_run : Bool) (now : ℕ)
    (seen xs : List Intent) (answer : PruneReport × List Intent)
    → prune_outbox_payloads float size raw days dry_run now seen xs ≡ ok answer
    → Keeps xs answer.1
unfolding prune_outbox_payloads
prune_outbox_payloads-Keeps float size raw days dry_run now seen xs answer e =
    let (plan, _, e1) =
      >>=-eq-ok (plan_outbox_payload_retention float size raw days now seen) _ e in
    let same : strip plan dry_run xs ≡ answer = ground arith in
    rw (← same) (strip-Keeps plan dry_run xs)

migrate_outbox_fencing-Keeps : (xs : List Intent) → Keeps xs (migrate_outbox_fencing xs)
unfolding migrate_outbox_fencing
migrate_outbox_fencing-Keeps xs =
    Keeps-trans xs _ _
      (Keeps-update_where _ revision_row xs
        (λ x _. record { id = refl; generation = omega arith; renewed = λ on. inl on }))
      (Keeps-trans _ _ _
        (Keeps-update_where _ unleased_row _ (λ x _. rested x _ refl (omega arith) refl))
        (Keeps-update_where _ (by_latest _) _ (λ x _. rested x _ refl (omega arith) refl)))

Step-Keeps : {xs ys : List Intent} → Step xs ys → Keeps xs ys
Step-Keeps {xs} (enqueued f t payload key mode i now answer new e) =
    enqueue_mutation-Keeps f t payload key mode i now xs answer e
Step-Keeps {xs} {ys} (bound version_of ids live e) =
    bind_mutation_versions-Keeps version_of ids xs ys e
Step-Keeps {xs} (claimed limit lease_seconds owner tokens now) =
    claim_mutation_outbox-Keeps limit lease_seconds owner tokens now xs
Step-Keeps {xs} {ys} (succeeded outbox_id c now now' e) =
    complete_mutation_outbox-Keeps outbox_id c now now' xs ys e
Step-Keeps {xs} (broke outbox_id error max_attempts backoff c now now' answer e) =
    fail_mutation_outbox-Keeps outbox_id error max_attempts backoff c now now' xs answer e
Step-Keeps {xs} (pruned seen float size raw days dry_run now answer e) =
    prune_outbox_payloads-Keeps float size raw days dry_run now seen xs answer e
Step-Keeps {xs} migrated = migrate_outbox_fencing-Keeps xs

pub Reach-found :
    {xs ys : List Intent}
    → Reach xs ys
    → (i : ℕ) (x : Intent) → find_key (λ z. z.id) i xs ≡ some x
    → (y : Intent) × (find_key (λ z. z.id) i ys ≡ some y) × Onward x y
unfolding Keeps
Reach-found start i x found = (x, found, Onward-refl x)
Reach-found (after r s) i x found =
    let (y, there, first) = Reach-found r i x found in
    let (z, last, second) = Step-Keeps s i y there in (z, last, Onward-trans x y z first second)
