-- ===== src/Backups/Examples.antt =====
-- vector_lake/backup_retention.py: the theorem on the plan, applied to three backups.
use vector_lake.Prelude.{ℕ, ◌+◌, ◌≤◌, ◌≡◌, ◌⊎◌, [], ◌∷◌, length, arith}
use vector_lake.Backups.{BackupEntry, database, Scan, plan, sum_of}
use vector_lake.Backups.Bounds.{newest_of, IsNewestOf, plan-keeps_newest}

abbrev backup : ℕ → ℕ → BackupEntry
backup name time = record {
  name = name;
  members = name ∷ [];
  kind = database;
  total_bytes = 40;
  modified_at = time;
}

abbrev three_backups : Scan
three_backups = record {
  root = 1;
  entries = backup 1 10 ∷ backup 2 30 ∷ backup 3 20 ∷ [];
  unrecognized = [];
  protected = [];
  total_bytes = 120;
}

plan-keeps_newest_example :
    ((w : BackupEntry → ℕ)
      → sum_of w (plan three_backups 2 50).keep + sum_of w (plan three_backups 2 50).remove
        ≡ sum_of w three_backups.entries)
    × IsNewestOf (newest_of (plan three_backups 2 50).keep) three_backups.entries
    × (1 ≤ 50
        → ((plan three_backups 2 50).retained_bytes ≤ 50)
          ⊎ (length (plan three_backups 2 50).keep ≡ 1))
plan-keeps_newest_example = plan-keeps_newest three_backups 2 50 (omega arith)
