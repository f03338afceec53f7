-- ===== src/Coordinator/Commit/Enqueued.antt =====
-- vector_lake/db_store.py, `enqueue_mutations_batch`: the intents of a batch.
use vector_lake.Prelude.{ℕ, ◌≡◌, ◌≢◌, Option, none, some, List, [], ◌∷◌, All, sym}
use vector_lake.Prelude.Sql.{find_key}
use vector_lake.Prelude.Keys.{IsKeyed}
use vector_lake.Prelude.Result.{Result, ok, err, >>=-eq-ok, ok-injective}
use vector_lake.Outbox.{Intent, MutationType, ValidationMode}
use vector_lake.Outbox.Enqueue.{enqueue_mutation, bind_mutation_versions}
use vector_lake.Outbox.Pages.{IsFor, enqueue_mutation-IsFor}
use vector_lake.Outbox.Pages.Bound.{bind_mutation_versions-IsFor}
use vector_lake.Outbox.History.{enqueue_mutation-IsKeyed}
use vector_lake.Coordinator.{from_outbox, Prepared}
use vector_lake.Coordinator.Commit.{enqueue_mutations_batch}

-- Every mutation of a batch has its intent.
abbrev pub AllFor : List Prepared → List ℕ → List Intent → Type 0
AllFor [] [] xs = Unit
AllFor [] (i ∷ ids) xs = ⊥
AllFor (p ∷ ps) [] xs = ⊥
AllFor (p ∷ ps) (i ∷ ids) xs = IsFor p.filename p.mutation_type p.content i xs × AllFor ps ids xs

pub from_outbox-ok {ℓ} : {A : Type ℓ} (r : Result _ A) {a : A} → from_outbox r ≡ ok a → r ≡ ok a
from_outbox-ok (err e) h = cc
from_outbox-ok (ok a) h = cc

pub enqueue_mutations_batch-AllFor :
    (mode : ValidationMode) (draw : List Intent → ℕ) (times : ℕ → ℕ) (ps : List Prepared)
    (xs : List Intent) (answer : List ℕ × List Intent)
    → ((ys : List Intent) → find_key (λ x. x.id) (draw ys) ys ≡ none)
    → IsKeyed (λ x. x.id) xs
    → IsKeyed (λ p. p.filename) ps
    → enqueue_mutations_batch mode draw times ps xs ≡ ok answer
    → AllFor ps answer.0 answer.1
      × ((f : ℕ) (t : MutationType) (payload : Option ℕ) (i : ℕ)
          → All (λ p. p.filename ≢ f) ps
          → IsFor f t payload i xs
          → IsFor f t payload i answer.1)
unfolding enqueue_mutations_batch
enqueue_mutations_batch-AllFor mode draw times [] xs answer new keyed distinct e =
    rw (ok-injective (sym e)) (tt, λ f t payload i other h. h)
enqueue_mutations_batch-AllFor mode draw times (p ∷ ps) xs answer new keyed distinct e =
    let (first, one, e1) =
      >>=-eq-ok
        (from_outbox (
          enqueue_mutation p.filename p.mutation_type p.content (some p.idempotency_key) mode
            (draw xs) (times p.filename) xs))
        _ e in
    let (rest, more, e2) = >>=-eq-ok (enqueue_mutations_batch mode draw times ps first.1) _ e1 in
    let whole : answer ≡ (first.0 ∷ rest.0, rest.1) = ok-injective (sym e2) in
    let enqueued = from_outbox-ok _ one in
    let (own, others) =
      enqueue_mutation-IsFor p.filename p.mutation_type p.content (some p.idempotency_key) mode
        (draw xs) (times p.filename) xs first keyed (new xs) enqueued in
    let (all, kept) =
      enqueue_mutations_batch-AllFor mode draw times ps first.1 rest new
        (enqueue_mutation-IsKeyed p.filename p.mutation_type p.content (some p.idempotency_key) mode
          (draw xs) (times p.filename) xs first (new xs) keyed enqueued)
        distinct.1 more in
    rw whole (
      (kept p.filename p.mutation_type p.content first.0 distinct.0 own, all),
      λ f t payload i apart h.
          kept f t payload i apart.1 (others f t payload i (λ same. apart.0 (sym same)) h),
    )

pub AllFor-bound :
    (version_of : ℕ → ℕ) (bound : List ℕ) (ps : List Prepared) (ids : List ℕ) (xs ys : List Intent)
    → AllFor ps ids xs
    → bind_mutation_versions version_of bound xs ≡ ok ys
    → AllFor ps ids ys
AllFor-bound version_of bound [] [] xs ys h e = tt
AllFor-bound version_of bound [] (i ∷ ids) xs ys h e = absurd h
AllFor-bound version_of bound (p ∷ ps) [] xs ys h e = absurd h
AllFor-bound version_of bound (p ∷ ps) (i ∷ ids) xs ys h e = (
  bind_mutation_versions-IsFor version_of p.filename p.mutation_type p.content i bound xs ys h.0 e,
  AllFor-bound version_of bound ps ids xs ys h.1 e,
)
