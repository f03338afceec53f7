-- ===== src/Outbox/Examples.antt =====
-- vector_lake/db_store.py and vector_lake/outbox_retention.py: the theorems on the outbox, applied
-- to small tables.
use vector_lake.Prelude.{◌+◌, ℕ, ◌+◌, ◌≡◌, ◌≢◌, false, none, some, List, [], ◌∷◌, refl, arith}
use vector_lake.Prelude.Sql.{find_key, fetch_one, update_where, row_count}
use vector_lake.Prelude.Keys.{IsKeyed}
use vector_lake.Prelude.Result.{ok}
use vector_lake.Outbox.{
  Intent, IntentStatus, pending, processing, update, full, claim_of, validate_mutation_claim,
  has_newer, latest_of, current_mutation_intent,
}
use vector_lake.Outbox.Enqueue.{
  enqueue_mutation, enqueue_over, write_intent, max_revision, supersede_older, inserted_row,
  superseded_row,
}
use vector_lake.Outbox.Writes.{
  claim_mutation_outbox, completed_row, complete_mutation_outbox, end_lease, ended_row,
  fail_mutation_outbox,
}
use vector_lake.Outbox.Latest.{OnlyLatestActive}
use vector_lake.Outbox.Claims.{one_writer_per_page}
use vector_lake.Outbox.Claims.Spent.{complete_mutation_outbox-spends, fail_mutation_outbox-spends}
use vector_lake.Outbox.Claims.Migration.{migrate_outbox_fencing-OnlyLatestActive}
use vector_lake.Outbox.Writes.{migrate_outbox_fencing}
use vector_lake.Outbox.Retention.{PruneReport, RetentionPlan, plan_at, stripped_row}
use vector_lake.Outbox.History.{start, after, claimed, IsFenced, Reach-IsFenced}

abbrev intent : ℕ → ℕ → IntentStatus → Intent
intent i f s = record (inserted_row i f update (some 70) (some (500 + i)) full i 100) { status = s }

abbrev held : Intent
held = record (intent 2 8 processing) {
  attempt_count = 1;
  started_at = some 200;
  lease_until = some 5000;
  lease_owner = some 3;
  lease_token = some 4;
  lease_generation = 1;
}

abbrev table : List Intent
table = intent 1 9 pending ∷ held ∷ []

table-IsKeyed : IsKeyed (λ (x : Intent). x.id) table
table-IsKeyed = ((λ e. ground arith, tt), (tt, tt))

table-OnlyLatestActive : OnlyLatestActive table
unfolding has_newer
table-OnlyLatestActive = (λ e. refl, (λ e. refl, tt))

table-new : find_key (λ (x : Intent). x.id) 3 table ≡ none
unfolding fetch_one
table-new = refl

held-valid : validate_mutation_claim (claim_of held) 4000 table ≡ ok held
unfolding validate_mutation_claim current_mutation_intent latest_of fetch_one
held-valid = refl

one_writer_per_page_example : held ≡ held
one_writer_per_page_example =
    one_writer_per_page (claim_of held) (claim_of held) 4000 4000 table held held held-valid
      held-valid refl

abbrev after_completion : List Intent
after_completion = intent 1 9 pending ∷ completed_row 4001 held ∷ []

held-completed : complete_mutation_outbox 2 (claim_of held) 4000 4001 table ≡ ok after_completion
unfolding complete_mutation_outbox end_lease row_count update_where validate_mutation_claim
    current_mutation_intent latest_of fetch_one
held-completed = refl

complete_mutation_outbox-spends_example :
    validate_mutation_claim
      (claim_of held)
      4002
      (claim_mutation_outbox 5 60 3 (λ i. 9) 6000 after_completion).1
    ≢ ok held
complete_mutation_outbox-spends_example =
    complete_mutation_outbox-spends 2 (claim_of held) 4000 4001 4002 table after_completion _ held
      table-IsKeyed held-completed (after start (claimed 5 60 3 (λ i. 9) 6000))

abbrev after_failure : IntentStatus × List Intent
after_failure = (pending, intent 1 9 pending ∷ ended_row pending [] 5004001 held ∷ [])

held-failed : fail_mutation_outbox 2 [] 3 5000000 (claim_of held) 4000 4001 table ≡ ok after_failure
unfolding fail_mutation_outbox end_lease row_count update_where validate_mutation_claim
    current_mutation_intent latest_of fetch_one
held-failed = refl

fail_mutation_outbox-spends_example :
    validate_mutation_claim
      (claim_of held)
      9000000
      (claim_mutation_outbox 5 60 3 (λ i. 9) 8000000 after_failure.1).1
    ≢ ok held
fail_mutation_outbox-spends_example =
    fail_mutation_outbox-spends 2 [] 3 5000000 (claim_of held) 4000 4001 9000000 table _
      after_failure held table-IsKeyed held-failed (after start (claimed 5 60 3 (λ i. 9) 8000000))

abbrev after_enqueue : ℕ × List Intent
after_enqueue = (
  3,
  intent 1 9 pending
      ∷ superseded_row 3 held
      ∷ inserted_row 3 8 update (some 71) (some 503) full 3 300
      ∷ [],
)

third-enqueued : enqueue_mutation 8 update (some 71) (some 503) full 3 300 table ≡ ok after_enqueue
unfolding enqueue_mutation enqueue_over write_intent max_revision supersede_older update_where
    fetch_one latest_of
third-enqueued = refl

migrate_outbox_fencing-OnlyLatestActive_example :
    OnlyLatestActive (migrate_outbox_fencing (intent 1 8 pending ∷ held ∷ []))
migrate_outbox_fencing-OnlyLatestActive_example =
    migrate_outbox_fencing-OnlyLatestActive (intent 1 8 pending ∷ held ∷ [])

Reach-IsFenced_example : IsFenced (claim_mutation_outbox 5 60 3 (λ i. 9) 6000 table).1
Reach-IsFenced_example =
    Reach-IsFenced (after start (claimed 5 60 3 (λ i. 9) 6000))
      (table-IsKeyed, table-OnlyLatestActive)

abbrev finished : List Intent
finished = completed_row 200 (intent 1 8 processing) ∷ []

abbrev swept : PruneReport × List Intent
swept = (
  record { plan = plan_at (λ n. n) 0 900 finished; dry_run = false; stripped = 1 },
  stripped_row (completed_row 200 (intent 1 8 processing)) ∷ [],
)

abbrev planned_again : RetentionPlan
planned_again = plan_at (λ n. n) 0 900 swept.1
