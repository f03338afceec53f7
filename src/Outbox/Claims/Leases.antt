-- ===== src/Outbox/Claims/Leases.antt =====
-- vector_lake/db_store.py: the operations of the lease, as changes of the rows of the outbox.
use vector_lake.Prelude.{
  ℕ, ◌≡◌, true, ◌&&◌, not, none, some, List, [], ◌∷◌, All, arith, ◌==◌, ==_iff, refl, sym, max,
  take, subst,
}
use vector_lake.Prelude.Sql.{
  update_where, All-update_where, All-intro, All-imp, find_key, select, order_by, All-select,
  All-order_by, All-take,
}
use vector_lake.Prelude.Keys.{
  IsKeyed, All-map, Forall2, Forall2-update_where, Forall2-refl, Forall2-trans, All-found, All-same,
}
use vector_lake.Prelude.Result.{ok, err, require-eq-ok, >>=-eq-ok}
use vector_lake.Outbox.{
  Intent, OutboxClaim, IntentStatus, claim_lost, value_error, is_delete, is_active, is_processing,
  validate_mutation_claim,
}
use vector_lake.Outbox.Enqueue.{bound_row, bind_mutation_versions}
use vector_lake.Outbox.Writes.{
  claimed_row, claim_each, outbox_ids, is_claimable, lease_end, claim_mutation_outbox, is_held,
  end_lease, completed_row, complete_mutation_outbox, ended_row, fail_mutation_outbox, status_after,
  retry_at,
}
use vector_lake.Outbox.Latest.{SamePlace, SamePlace-refl, SamePlace-trans}

claimable_active :
    (now : ℕ) (xs : List Intent) (x : Intent)
    → is_claimable now xs x ≡ true
    → is_active x.status ≡ true
claimable_active now xs x e = ground arith

-- Each id is that of live rows only.
abbrev pub AllActive : List ℕ → List Intent → Type 0
AllActive ids xs = All (λ i. All (λ x. x.id ≡ i → is_active x.status ≡ true) xs) ids

touch-SamePlace :
    (i : ℕ) (g : Intent → Intent) (xs : List Intent)
    → ((x : Intent) → is_active x.status ≡ true → SamePlace x (g x))
    → All (λ x. x.id ≡ i → is_active x.status ≡ true) xs
    → Forall2 SamePlace xs (update_where (λ x. x.id == i) g xs)
touch-SamePlace i g xs same h =
    Forall2-update_where SamePlace (λ x. x.id ≡ i → is_active x.status ≡ true) (λ x. x.id == i) g
      (λ x on hit. same x (on ((==_iff x.id i).0 hit))) SamePlace-refl xs h

touch-AllActive :
    (i : ℕ) (g : Intent → Intent) (ids : List ℕ) (xs : List Intent)
    → ((x : Intent) → is_active (g x).status ≡ true)
    → AllActive ids xs
    → AllActive ids (update_where (λ x. x.id == i) g xs)
touch-AllActive i g ids xs on =
    All-imp (λ j. All (λ x. x.id ≡ j → is_active x.status ≡ true) xs)
      (λ j. All (λ x. x.id ≡ j → is_active x.status ≡ true) (update_where (λ x. x.id == i) g xs))
      (λ j live.
        All-update_where (λ x. x.id ≡ j → is_active x.status ≡ true)
          (λ x. x.id ≡ j → is_active x.status ≡ true) (λ x. x.id == i) g (λ x _ _ _. on x)
          (λ x keep _. keep) xs live)
      ids

claim_each-SamePlace :
    (now until owner : ℕ) (tokens : ℕ → ℕ) (ids : List ℕ) (xs : List Intent)
    → AllActive ids xs
    → Forall2 SamePlace xs (claim_each now until owner tokens ids xs).1
unfolding claim_each
claim_each-SamePlace now until owner tokens [] xs h = Forall2-refl SamePlace SamePlace-refl xs
claim_each-SamePlace now until owner tokens (i ∷ ids) xs h =
    let g = claimed_row now until owner tokens in
    let ys = update_where (λ x. x.id == i) g xs in
    Forall2-trans SamePlace SamePlace-trans xs ys (claim_each now until owner tokens ids ys).1
      (touch-SamePlace i g xs
        (λ x on. record { id = refl; filename = refl; revision = refl; active = λ _. on }) h.0)
      (claim_each-SamePlace now until owner tokens ids ys
        (touch-AllActive i g ids xs (λ x. refl) h.1))

outbox_ids-AllActive :
    (limit now : ℕ) (xs : List Intent)
    → IsKeyed (λ x. x.id) xs
    → AllActive (outbox_ids limit now xs) xs
unfolding outbox_ids select order_by
outbox_ids-AllActive limit now xs keyed =
    let Sole : Intent → Type 0 = λ r. All (λ x. x.id ≡ r.id → is_active x.status ≡ true) xs in
    let Found : Intent → Type 0 = λ r. find_key (λ x. x.id) r.id xs ≡ some r in
    let sole : All Sole (select (is_claimable now xs) xs) =
      All-select Found Sole (is_claimable now xs)
        (λ r found fits.
          All-imp (λ y. y.id ≡ r.id → y ≡ r) (λ y. y.id ≡ r.id → is_active y.status ≡ true)
            (λ y same e.
              subst (λ (z : Intent). is_active z.status ≡ true) (sym (same e))
                (claimable_active now xs r fits))
            xs (All-same (λ x. x.id) r.id xs keyed found))
        xs (All-found (λ x. x.id) xs keyed) in
    All-map {A = Intent} (λ i. All (λ x. x.id ≡ i → is_active x.status ≡ true) xs)
      (λ (x : Intent). x.id)
      (take (max 1 limit) (order_by (λ x. x.id) (select (is_claimable now xs) xs)))
      (All-take Sole (max 1 limit) (order_by (λ x. x.id) (select (is_claimable now xs) xs))
        (All-order_by Sole (λ x. x.id) (select (is_claimable now xs) xs) sole))

pub bind_mutation_versions-SamePlace :
    (version_of : ℕ → ℕ) (ids : List ℕ) (xs ys : List Intent)
    → AllActive ids xs
    → bind_mutation_versions version_of ids xs ≡ ok ys
    → Forall2 SamePlace xs ys
unfolding bind_mutation_versions
bind_mutation_versions-SamePlace version_of [] xs ys h e =
    let same : xs ≡ ys = ground arith in rw (← same) (Forall2-refl SamePlace SamePlace-refl xs)
bind_mutation_versions-SamePlace version_of (i ∷ ids) xs ys h e =
    let (row, _, e1) =
      >>=-eq-ok (elim (find_key (λ x. x.id) i xs) [ none ↦ err value_error | some x ↦ ok x ]) _ e in
    let g = bound_row (version_of row.filename) in
    let zs = update_where (λ x. x.id == i) g xs in
    let (_, rest) =
      require-eq-ok (not (is_delete row.mutation_type && not (version_of row.filename == 0)))
        value_error _ e1 in
    Forall2-trans SamePlace SamePlace-trans xs zs ys
      (touch-SamePlace i g xs
        (λ x on. record { id = refl; filename = refl; revision = refl; active = λ _. on }) h.0)
      (bind_mutation_versions-SamePlace version_of ids zs ys
        (touch-AllActive i g ids xs (λ x. refl) h.1) rest)

pub claim_mutation_outbox-SamePlace :
    (limit lease_seconds owner : ℕ) (tokens : ℕ → ℕ) (now : ℕ) (xs : List Intent)
    → IsKeyed (λ x. x.id) xs
    → Forall2 SamePlace xs (claim_mutation_outbox limit lease_seconds owner tokens now xs).1
unfolding claim_mutation_outbox
claim_mutation_outbox-SamePlace limit lease_seconds owner tokens now xs keyed =
    claim_each-SamePlace now (lease_end now lease_seconds) owner tokens (outbox_ids limit now xs) xs
      (outbox_ids-AllActive limit now xs keyed)

end_lease-SamePlace :
    (row : Intent) (now : ℕ) (g : Intent → Intent) (xs ys : List Intent)
    → ((x : Intent) → is_processing x.status ≡ true → SamePlace x (g x))
    → end_lease row now g xs ≡ ok ys
    → Forall2 SamePlace xs ys
unfolding end_lease
end_lease-SamePlace row now g xs ys same e =
    let result : update_where (is_held row now) g xs ≡ ys = ground arith in
    rw (← result) (
      Forall2-update_where SamePlace (λ (x : Intent). Unit {0}) (is_held row now) g
        (λ x _ hit. same x (ground (arith, hit))) SamePlace-refl xs
        (All-intro (λ (x : Intent). Unit {0}) (λ x. tt) xs))

pub complete_mutation_outbox-SamePlace :
    (outbox_id : ℕ) (c : OutboxClaim) (now now' : ℕ) (xs ys : List Intent)
    → complete_mutation_outbox outbox_id c now now' xs ≡ ok ys
    → Forall2 SamePlace xs ys
unfolding complete_mutation_outbox
complete_mutation_outbox-SamePlace outbox_id c now now' xs ys e =
    let (row, _, e1) = >>=-eq-ok (validate_mutation_claim c now xs) _ e in
    let (_, ended) = require-eq-ok (row.id == outbox_id) claim_lost _ e1 in
    end_lease-SamePlace row now' (completed_row now') xs ys
      (λ x on. record { id = refl; filename = refl; revision = refl; active = λ z. cc }) ended

pub fail_mutation_outbox-SamePlace :
    (outbox_id : ℕ) (error : List ℕ) (max_attempts backoff : ℕ) (c : OutboxClaim) (now now' : ℕ)
    (xs : List Intent) (answer : IntentStatus × List Intent)
    → fail_mutation_outbox outbox_id error max_attempts backoff c now now' xs ≡ ok answer
    → Forall2 SamePlace xs answer.1
unfolding fail_mutation_outbox
fail_mutation_outbox-SamePlace outbox_id error max_attempts backoff c now now' xs answer e =
    let (row, _, e1) = >>=-eq-ok (validate_mutation_claim c now xs) _ e in
    let (_, e2) = require-eq-ok (row.id == outbox_id) claim_lost _ e1 in
    let g =
      ended_row (status_after max_attempts row.attempt_count) error
        (retry_at max_attempts backoff row.attempt_count now') in
    let (ys, ended, e3) = >>=-eq-ok (end_lease row now' g xs) _ e2 in
    let same : ys ≡ answer.1 = ground arith in
    rw (← same) (
      end_lease-SamePlace row now' g xs ys
        (λ x on. record {
          id = refl;
          filename = refl;
          revision = refl;
          active = λ _. ground (arith, on);
        })
        ended)
