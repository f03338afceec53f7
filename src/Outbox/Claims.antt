-- ===== src/Outbox/Claims.antt =====
-- vector_lake/db_store.py, `validate_mutation_claim`: what a claim on an outbox row is good for.
pub mod Leases
pub mod Spent
pub mod Migration
use vector_lake.Prelude.{
  ℕ, ◌≡◌, Bool, true, false, ◌&&◌, not, Option, none, some, List, arith, ◌==◌, ==_iff, Option-cases,
  inl, inr, sym, ◌∙◌, refl, subst, ap,
}
use vector_lake.Prelude.Sql.{find_key, find_key-key, null_or_le}
use vector_lake.Prelude.Result.{Result, ok, err, ◌>>=◌, ◌>>◌, require, require-eq-ok, >>=-eq-ok}
use vector_lake.Outbox.{
  Intent, OutboxError, claim_lost, claim_superseded, OutboxClaim, is_superseded, latest_of,
  is_latest_id, is_processing, current_mutation_intent, validate_mutation_claim, identity,
  nonempty_text, holds_lease,
}

-- The row is found under its id, and it is the newest of its page.
pub current_mutation_intent-ok :
    (i : ℕ) (xs : List Intent) (x : Intent)
    → current_mutation_intent i xs ≡ ok x
    → (find_key (λ y. y.id) i xs ≡ some x)
      × (is_latest_id x (latest_of x.filename xs) ≡ true)
      × (is_superseded x.status ≡ false)
unfolding current_mutation_intent
current_mutation_intent-ok i xs x e = elim (Option-cases (find_key (λ y. y.id) i xs)) [
  | inl gone ↦ cc (rw (gone, current_mutation_intent) at e)
  | inr (row, found) ↦
      let here = rw (found, current_mutation_intent) at e in
      let same : row ≡ x = ground arith in
      let checked = rw same at here in (rw (← same) found, ground arith, ground arith)
]

same_latest :
    (x y : Intent) (l : Option Intent)
    → is_latest_id x l ≡ true
    → is_latest_id y l ≡ true
    → x.id ≡ y.id
same_latest x y none h k = cc
same_latest x y (some l) h k = ground arith

-- What a claim that was accepted is known to be.
abbrev pub Accepted : OutboxClaim → ℕ → List Intent → Intent → Type 0
Accepted c now xs x =
    (i : ℕ) × (identity c.id ≡ ok i)
    × (current_mutation_intent i xs ≡ ok x)
    × (is_processing x.status ≡ true)
    × (null_or_le x.lease_until now ≡ false)

pub validate_mutation_claim-ok :
    (c : OutboxClaim) (now : ℕ) (xs : List Intent) (x : Intent)
    → validate_mutation_claim c now xs ≡ ok x
    → Accepted c now xs x
unfolding validate_mutation_claim
validate_mutation_claim-ok c now xs x e =
    let (i, a, e1) = >>=-eq-ok (identity c.id) _ e in
    let (g, b, e2) = >>=-eq-ok (identity c.lease_generation) _ e1 in
    let (r, b2, e3) = >>=-eq-ok (identity c.projection_generation) _ e2 in
    let (o, b3, e4) = >>=-eq-ok (nonempty_text c.lease_owner) _ e3 in
    let (t, b4, e5) = >>=-eq-ok (nonempty_text c.lease_token) _ e4 in
    let (row, current, e6) = >>=-eq-ok (current_mutation_intent i xs) _ e5 in
    let (held, e7) = require-eq-ok (holds_lease row o t g r) claim_lost _ e6 in
    let (live, e8) = require-eq-ok (not (null_or_le row.lease_until now)) claim_lost _ e7 in
    let same : row ≡ x = ground (arith, e8) in
    let on : is_processing row.status ≡ true = ground (arith, held) in
    let until : null_or_le row.lease_until now ≡ false = ground (arith, live) in
    subst (Accepted c now xs) same (i, a, current, on, until)

-- It shows the generation of the row.
pub validate_mutation_claim-generation :
    (c : OutboxClaim) (now : ℕ) (xs : List Intent) (x : Intent)
    → validate_mutation_claim c now xs ≡ ok x
    → identity c.lease_generation ≡ ok x.lease_generation
unfolding validate_mutation_claim
validate_mutation_claim-generation c now xs x e =
    let (i, a, e1) = >>=-eq-ok (identity c.id) _ e in
    let (g, b, e2) = >>=-eq-ok (identity c.lease_generation) _ e1 in
    let (r, b2, e3) = >>=-eq-ok (identity c.projection_generation) _ e2 in
    let (o, b3, e4) = >>=-eq-ok (nonempty_text c.lease_owner) _ e3 in
    let (t, b4, e5) = >>=-eq-ok (nonempty_text c.lease_token) _ e4 in
    let (row, current, e6) = >>=-eq-ok (current_mutation_intent i xs) _ e5 in
    let (held, e7) = require-eq-ok (holds_lease row o t g r) claim_lost _ e6 in
    let (live, e8) = require-eq-ok (not (null_or_le row.lease_until now)) claim_lost _ e7 in
    let same : row ≡ x = ground (arith, e8) in
    let shown : row.lease_generation ≡ g = ground (arith, held) in
    b ∙ ap (λ n. ok n) (sym shown ∙ ap (λ (z : Intent). z.lease_generation) same)

-- Two claims on intents of one page that are both accepted, at whatever times, are claims on one
-- row: a page has one writer.
pub one_writer_per_page :
    (a b : OutboxClaim) (now now' : ℕ) (xs : List Intent) (x y : Intent)
    → validate_mutation_claim a now xs ≡ ok x
    → validate_mutation_claim b now' xs ≡ ok y
    → x.filename ≡ y.filename
    → x ≡ y
one_writer_per_page a b now now' xs x y ha hb page =
    let (i, _, ca, _, _) = validate_mutation_claim-ok a now xs x ha in
    let (j, _, cb, _, _) = validate_mutation_claim-ok b now' xs y hb in
    let (fx, lx, _) = current_mutation_intent-ok i xs x ca in
    let (fy, ly, _) = current_mutation_intent-ok j xs y cb in
    let kx : x.id ≡ i = find_key-key (λ (z : Intent). z.id) i xs fx in
    let ky : y.id ≡ j = find_key-key (λ (z : Intent). z.id) j xs fy in
    let ids : x.id ≡ y.id = same_latest x y (latest_of y.filename xs) (rw page at lx) ly in
    ground (arith)
