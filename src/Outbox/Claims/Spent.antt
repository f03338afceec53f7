-- ===== src/Outbox/Claims/Spent.antt =====
-- vector_lake/db_store.py, `complete_mutation_outbox` and `fail_mutation_outbox`: the end of a claim.
use vector_lake.Prelude.{
  ℕ, ◌≡◌, ◌≢◌, true, false, some, List, arith, ◌==◌, if◌then◌else◌, refl, sym, ◌∙◌, ap, subst, inl,
  inr,
}
use mathlib.Core.Option.{some-injective}
use vector_lake.Prelude.Keys.{IsKeyed, All-same}
use vector_lake.Prelude.Sql.{
  All-fetch_one, find_key, find_key-key, update_where, update_where-found, row_count,
  row_count-some,
}
use vector_lake.Prelude.Result.{ok, ok-injective, require-eq-ok, >>=-eq-ok}
use vector_lake.Outbox.{
  Intent, OutboxClaim, IntentStatus, claim_lost, is_processing, validate_mutation_claim, identity,
}
use vector_lake.Outbox.Writes.{
  is_held, end_lease, completed_row, complete_mutation_outbox, ended_row, fail_mutation_outbox,
  status_after, retry_at,
}
use vector_lake.Outbox.Claims.{
  current_mutation_intent-ok, validate_mutation_claim-ok, validate_mutation_claim-generation,
}
use vector_lake.Outbox.History.{Reach}
use vector_lake.Outbox.History.Onward.{Onward, Reach-found, status_after-ends}

-- The row whose lease was ended is the one that was validated, changed by `g`.
end_lease-found :
    (row : Intent) (now : ℕ) (g : Intent → Intent) (xs ys : List Intent)
    → ((z : Intent) → (g z).id ≡ z.id)
    → IsKeyed (λ z. z.id) xs
    → find_key (λ z. z.id) row.id xs ≡ some row
    → end_lease row now g xs ≡ ok ys
    → find_key (λ z. z.id) row.id ys ≡ some (g row)
unfolding end_lease
end_lease-found row now g xs ys same keyed found e =
    let held = is_held row now in
    let once : row_count held xs ≡ 1 = ground arith in
    let result : update_where held g xs ≡ ys = ground arith in
    let (x, hit) = row_count-some held xs (λ none_hit. cc) in
    let (same_row, fits) =
      All-fetch_one (λ (y : Intent). y.id ≡ row.id → y ≡ row) held xs
        (All-same (λ z. z.id) row.id xs keyed found) hit in
    let here : x ≡ row = same_row (ground (arith, fits)) in
    let fit : held row ≡ true = rw here at fits in
    let seen = update_where-found (λ (z : Intent). z.id) held g same row.id xs found in
    rw (fit, if◌then◌else◌, result) at seen

-- A claim whose row went on from a rest under the generation that it shows is refused.
ended-refused :
    (c : OutboxClaim) (rest now_row r : Intent) (now : ℕ) (xs : List Intent) (i : ℕ)
    → identity c.id ≡ ok i
    → identity c.lease_generation ≡ ok rest.lease_generation
    → is_processing rest.status ≡ false
    → find_key (λ z. z.id) i xs ≡ some now_row
    → Onward rest now_row
    → validate_mutation_claim c now xs ≢ ok r
ended-refused c rest now_row r now xs i a shown off found onward e =
    let (j, b, current, on, _) = validate_mutation_claim-ok c now xs r e in
    let same : i ≡ j = ground arith in
    let there = (current_mutation_intent-ok j xs r current).0 in
    let again : some now_row ≡ some r =
      sym found ∙ (ap (λ k. find_key (λ (z : Intent). z.id) k xs) same ∙ there) in
    let one : now_row ≡ r = some-injective now_row r again in
    let generation : rest.lease_generation ≡ r.lease_generation =
      ok-injective (sym shown ∙ validate_mutation_claim-generation c now xs r e) in
    let later = rw one at onward in
    elim (later.renewed on) [
      | inl processing ↦ cc (off, processing)
      | inr more ↦ absurd (omega (arith, generation, more))
    ]

claimed-row :
    (c : OutboxClaim) (now : ℕ) (xs : List Intent) (row : Intent)
    → validate_mutation_claim c now xs ≡ ok row
    → (identity c.id ≡ ok row.id) × (find_key (λ z. z.id) row.id xs ≡ some row)
claimed-row c now xs row e =
    let (i, a, current, _, _) = validate_mutation_claim-ok c now xs row e in
    let found = (current_mutation_intent-ok i xs row current).0 in
    let key : row.id ≡ i = find_key-key (λ (z : Intent). z.id) i xs found in
    (a ∙ ap (λ k. ok k) (sym key), ap (λ k. find_key (λ (z : Intent). z.id) k xs) key ∙ found)

ended_claim-refused :
    (c : OutboxClaim) (row r : Intent) (now now' later : ℕ) (g : Intent → Intent)
    (xs ys zs : List Intent)
    → ((z : Intent) → (g z).id ≡ z.id)
    → (g row).lease_generation ≡ row.lease_generation
    → is_processing (g row).status ≡ false
    → IsKeyed (λ z. z.id) xs
    → validate_mutation_claim c now xs ≡ ok row
    → end_lease row now' g xs ≡ ok ys
    → Reach ys zs
    → validate_mutation_claim c later zs ≢ ok r
ended_claim-refused c row r now now' later g xs ys zs same kept off keyed valid ended run =
    let (a, found) = claimed-row c now xs row valid in
    let (last, there, onward) =
      Reach-found run row.id (g row) (end_lease-found row now' g xs ys same keyed found ended) in
    ended-refused c (g row) last r later zs row.id a
      (validate_mutation_claim-generation c now xs row valid ∙ ap (λ n. ok n) (sym kept)) off there
      onward

-- A claim with which an intent was completed is refused after any further run of the operations of
-- the outbox, in which bindings are of live intents and insertions have new ids, at every time, also
-- when the intent has been enqueued and claimed again since. Ids are unique.
pub complete_mutation_outbox-spends :
    (outbox_id : ℕ) (c : OutboxClaim) (now now' later : ℕ) (xs ys zs : List Intent) (r : Intent)
    → IsKeyed (λ z. z.id) xs
    → complete_mutation_outbox outbox_id c now now' xs ≡ ok ys
    → Reach ys zs
    → validate_mutation_claim c later zs ≢ ok r
unfolding complete_mutation_outbox
complete_mutation_outbox-spends outbox_id c now now' later xs ys zs r keyed e run =
    let (row, valid, e1) = >>=-eq-ok (validate_mutation_claim c now xs) _ e in
    let (_, ended) = require-eq-ok (row.id == outbox_id) claim_lost _ e1 in
    ended_claim-refused c row r now now' later (completed_row now') xs ys zs (λ z. refl) refl refl
      keyed valid ended run

-- So is one with which a failure was reported, also when the intent has been claimed for a retry
-- since. Ids are unique.
pub fail_mutation_outbox-spends :
    (outbox_id : ℕ) (error : List ℕ) (max_attempts backoff : ℕ) (c : OutboxClaim)
    (now now' later : ℕ) (xs zs : List Intent) (answer : IntentStatus × List Intent) (r : Intent)
    → IsKeyed (λ z. z.id) xs
    → fail_mutation_outbox outbox_id error max_attempts backoff c now now' xs ≡ ok answer
    → Reach answer.1 zs
    → validate_mutation_claim c later zs ≢ ok r
unfolding fail_mutation_outbox
fail_mutation_outbox-spends outbox_id error max_attempts backoff c now now' later xs zs answer r
      keyed e run =
    let (row, valid, e1) = >>=-eq-ok (validate_mutation_claim c now xs) _ e in
    let (_, e2) = require-eq-ok (row.id == outbox_id) claim_lost _ e1 in
    let status = status_after max_attempts row.attempt_count in
    let g = ended_row status error (retry_at max_attempts backoff row.attempt_count now') in
    let (ys, ended, e3) = >>=-eq-ok (end_lease row now' g xs) _ e2 in
    let same : answer.1 ≡ ys = ground arith in
    ended_claim-refused c row r now now' later g xs ys zs (λ z. refl) refl
      (status_after-ends max_attempts row.attempt_count) keyed valid ended
      (subst (λ t. Reach t zs) same run)
