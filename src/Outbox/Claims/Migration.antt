-- ===== src/Outbox/Claims/Migration.antt =====
-- vector_lake/db_store.py, `_migrate_outbox_fencing`: what the upgrade makes of an old table.
use vector_lake.Prelude.{
  ◌≡◌, Bool, true, false, ◌&&◌, ◌||◌, List, none, ◌==◌, All, arith, ◌∙◌, refl,
}
use vector_lake.Prelude.Sql.{update_where, All-update_where, All-intro}
use vector_lake.Prelude.Keys.{Forall2, Forall2-update_where}
use vector_lake.Outbox.{Intent, is_active, is_processing, has_newer}
use vector_lake.Outbox.Writes.{by_latest, revision_row, unleased_row, migrate_outbox_fencing}
use vector_lake.Outbox.Latest.{OnlyLatestActive, SamePlace, SamePlace-refl, has_newer-SamePlace}
use vector_lake.Jobs.Failure.{opt_eq}

-- The last UPDATE of the migration, over a table of any contents.
supersede-OnlyLatestActive :
    (xs : List Intent)
    → OnlyLatestActive (update_where (λ x. is_active x.status && has_newer xs x) (by_latest xs) xs)
supersede-OnlyLatestActive xs =
    let stale : Intent → Bool = λ x. is_active x.status && has_newer xs x in
    let ys = update_where stale (by_latest xs) xs in
    let Any : Intent → Type 0 = λ x. Unit {0} in
    let every : All Any xs = All-intro Any (λ x. tt) xs in
    let placed : Forall2 SamePlace xs ys =
      Forall2-update_where SamePlace Any stale (by_latest xs)
        (λ x _ _. record { id = refl; filename = refl; revision = refl; active = λ e. cc })
        SamePlace-refl xs every in
    All-update_where Any (λ y. is_active y.status ≡ true → has_newer ys y ≡ false) stale
      (by_latest xs) (λ x _ _ on. cc)
      (λ x _ kept on.
        has_newer-SamePlace xs ys x x placed (SamePlace-refl x) ∙ ground (arith, kept, on))
      xs every

-- Whatever a table holds, after the migration each live intent is the newest of its page.
pub migrate_outbox_fencing-OnlyLatestActive :
    (intents : List Intent) → OnlyLatestActive (migrate_outbox_fencing intents)
unfolding migrate_outbox_fencing
migrate_outbox_fencing-OnlyLatestActive intents = supersede-OnlyLatestActive (
    update_where
      (λ x.
        is_processing x.status
        && (opt_eq x.lease_owner none || opt_eq x.lease_token none || x.lease_generation == 0))
      unleased_row (update_where (λ x. x.projection_generation == 0) revision_row intents))
