-- ===== src/Backups.antt =====
-- vector_lake/backup_retention.py: the bounds, the plan over the entries of a scan, and the report. Names are numbers in the
-- order of the texts; a path and a member is a number.
pub mod Bounds
mod Examples
use vector_lake.Prelude.{
  ℕ, zero, suc, ◌+◌, ◌-◌, Bool, true, false, ◌&&◌, ◌||◌, not, Option, none, some, List, [], ◌∷◌,
  ◌++◌, map, ltb, leb, ◌==◌, if◌then◌else◌, take, max, length, contains,
}

pub data BackupKind : Type 0 where
  database directory : BackupKind

pub record BackupEntry : Type 0 where
  pub name : ℕ
  pub members : List ℕ
  pub kind : BackupKind
  pub total_bytes : ℕ
  pub modified_at : ℕ

pub record Scan : Type 0 where
  pub root : ℕ
  pub entries : List BackupEntry
  pub unrecognized : List ℕ
  pub protected : List ℕ
  pub total_bytes : ℕ

abbrev pub default_keep_count : ℕ
default_keep_count = 3

abbrev pub default_max_bytes : ℕ
default_max_bytes = 12884901888

-- A variable of the environment: unset or blank, or a text with the integer that it spells, if any.
-- Integers below 0 are 0, as both bounds are clamped from below.
pub data EnvText : Type 0 where
  blank : EnvText
  spelled_int : ℕ → EnvText
  not_an_int : EnvText

-- `_int_env`
abbrev pub int_env : EnvText → ℕ → ℕ
int_env (spelled_int n) default = n
int_env _ default = default

abbrev pub given_or : Option ℕ → ℕ → ℕ
given_or none n = n
given_or (some m) n = m

unfoldable pub resolve_bounds : EnvText → EnvText → Option ℕ → Option ℕ → ℕ × ℕ
resolve_bounds keep_env bytes_env keep_count max_bytes = (
  max 1 (given_or keep_count (int_env keep_env default_keep_count)),
  given_or max_bytes (int_env bytes_env default_max_bytes),
)

-- The keys (modified_at, name), compared as tuples.
abbrev pub is_older : BackupEntry → BackupEntry → Bool
is_older a b =
    ltb a.modified_at b.modified_at || a.modified_at == b.modified_at && ltb a.name b.name

unfoldable pub insert_newest : BackupEntry → List BackupEntry → List BackupEntry
insert_newest x [] = x ∷ []
insert_newest x (y ∷ ys) =
    let rest = insert_newest x ys in if is_older x y then y ∷ rest else x ∷ y ∷ ys

-- sorted(…, reverse=True)
unfoldable pub newest_first : List BackupEntry → List BackupEntry
unfolding insert_newest
newest_first [] = []
newest_first (x ∷ xs) = insert_newest x (newest_first xs)

unfoldable pub drop : ℕ → List BackupEntry → List BackupEntry
drop zero xs = xs
drop (suc n) [] = []
drop (suc n) (x ∷ xs) = drop n xs

-- sum(weight(entry) for entry in entries)
abbrev pub sum_of : (BackupEntry → ℕ) → List BackupEntry → ℕ
sum_of weight [] = 0
sum_of weight (x ∷ xs) = weight x + sum_of weight xs

abbrev pub bytes_of : List BackupEntry → ℕ
bytes_of xs = sum_of (λ x. x.total_bytes) xs

-- A list turned around, in front of another one.
abbrev pub reverse_onto : List BackupEntry → List BackupEntry → List BackupEntry
reverse_onto [] ys = ys
reverse_onto (x ∷ xs) ys = reverse_onto xs (x ∷ ys)

-- The while loop, over the entries to keep with the last one first: `pop` takes the first one.
unfoldable pub shrink :
    ℕ → List BackupEntry → ℕ → List BackupEntry → List BackupEntry × List BackupEntry
shrink max_bytes [] retained remove = ([], remove)
shrink max_bytes (x ∷ []) retained remove = (x ∷ [], remove)
shrink max_bytes (x ∷ y ∷ ys) retained remove =
    let rest = shrink max_bytes (y ∷ ys) (retained - x.total_bytes) (remove ++ x ∷ []) in
    if ltb max_bytes retained then rest else (x ∷ y ∷ ys, remove)

pub record Plan : Type 0 where
  pub root : ℕ
  pub keep_count : ℕ
  pub max_bytes : ℕ
  pub total_bytes : ℕ
  pub retained_bytes : ℕ
  pub removable_bytes : ℕ
  pub unrecognized : List ℕ
  pub protected : List ℕ
  pub keep : List BackupEntry
  pub remove : List BackupEntry

-- The entries kept and those removed.
unfoldable pub split_entries : ℕ → ℕ → List BackupEntry → List BackupEntry × List BackupEntry
unfolding newest_first drop shrink
split_entries keep_count max_bytes entries =
    let ordered = newest_first entries in
    let keep = take keep_count ordered in
    let remove = drop keep_count ordered in
    let (kept, removed) = shrink max_bytes (reverse_onto keep []) (bytes_of keep) remove in
    if ltb 0 max_bytes then (reverse_onto kept [], removed) else (keep, remove)

-- `_plan`, of a scan
unfoldable pub plan : Scan → ℕ → ℕ → Plan
unfolding split_entries
plan scan keep_count max_bytes =
    let (keep, remove) = split_entries keep_count max_bytes scan.entries in
    record {
      root = scan.root;
      keep_count = keep_count;
      max_bytes = max_bytes;
      total_bytes = scan.total_bytes;
      retained_bytes = bytes_of keep;
      removable_bytes = bytes_of remove;
      unrecognized = scan.unrecognized;
      protected = scan.protected;
      keep = keep;
      remove = remove;
    }

pub record Report : Type 0 where
  pub plan : Plan
  pub dry_run : Bool
  pub entry_count : ℕ
  pub deleted : List ℕ
  pub deleted_bytes : ℕ
  pub failures : List ℕ

abbrev pub deleted_bytes_of : List ℕ → List BackupEntry → ℕ
deleted_bytes_of deleted [] = 0
deleted_bytes_of deleted (x ∷ xs) =
    (if contains deleted x.name then x.total_bytes else 0) + deleted_bytes_of deleted xs

-- `_public`; the entries that it describes are those of the plan.
unfoldable pub public_report : Plan → Bool → List ℕ → List ℕ → Report
public_report p dry_run deleted failures = record {
  plan = p;
  dry_run = dry_run;
  entry_count = length p.keep + length p.remove;
  deleted = deleted;
  deleted_bytes = deleted_bytes_of deleted p.remove;
  failures = failures;
}

unfoldable pub plan_backup_retention : EnvText → EnvText → Option ℕ → Option ℕ → Scan → Report
unfolding plan public_report resolve_bounds
plan_backup_retention keep_env bytes_env keep_count max_bytes scan =
    let (count, bytes) = resolve_bounds keep_env bytes_env keep_count max_bytes in
    public_report (plan scan count bytes) true [] []
