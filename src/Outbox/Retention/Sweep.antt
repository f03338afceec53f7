-- ===== src/Outbox/Retention/Sweep.antt =====
-- vector_lake/outbox_retention.py: what a sweep frees, and what it leaves to the other readers.
use vector_lake.Prelude.{
  ℕ, ◌≡◌, Bool, ◌||◌, is_some, Option, List, arith, ◌==◌, if◌then◌else◌, Bool-cases, inl, inr, refl,
}
use vector_lake.Prelude.Sql.{All-intro}
use vector_lake.Prelude.Keys.{Forall2, Forall2-update_where, Forall2-refl}
use vector_lake.Prelude.Result.{ok, >>=-eq-ok}
use vector_lake.Outbox.{Intent}
use vector_lake.Outbox.Latest.{SamePlace, SamePlace-refl}
use vector_lake.Outbox.Retention.{
  FloatValue, PruneReport, RetentionPlan, is_strippable, stripped_row,
  plan_outbox_payload_retention, strip, prune_outbox_payloads,
}

strip-SamePlace :
    (plan : RetentionPlan) (dry_run : Bool) (xs : List Intent)
    → Forall2 SamePlace xs (strip plan dry_run xs).1
unfolding strip
strip-SamePlace plan dry_run xs = elim (Bool-cases (dry_run || plan.rows_to_strip == 0)) [
  | inl e ↦ rw (e, if◌then◌else◌) (Forall2-refl SamePlace SamePlace-refl xs)
  | inr e ↦
      rw (e, if◌then◌else◌)
        (Forall2-update_where SamePlace (λ (x : Intent). Unit {0}) (is_strippable plan.cutoff)
          stripped_row
          (λ x _ _. record { id = refl; filename = refl; revision = refl; active = λ on. on })
          SamePlace-refl xs (All-intro (λ (x : Intent). Unit {0}) (λ x. tt) xs))
]

pub prune_outbox_payloads-SamePlace :
    (float : ℕ → FloatValue) (size : ℕ → ℕ) (raw : ℕ) (days : Option ℕ) (dry_run : Bool) (now : ℕ)
    (seen xs : List Intent) (answer : PruneReport × List Intent)
    → prune_outbox_payloads float size raw days dry_run now seen xs ≡ ok answer
    → Forall2 SamePlace xs answer.1
unfolding prune_outbox_payloads
prune_outbox_payloads-SamePlace float size raw days dry_run now seen xs answer e =
    let (plan, _, e1) =
      >>=-eq-ok (plan_outbox_payload_retention float size raw days now seen) _ e in
    let same : strip plan dry_run xs ≡ answer = ground arith in
    rw (← same) (strip-SamePlace plan dry_run xs)

abbrev has_payload : Intent → Bool
has_payload x = is_some x.payload_text
