-- ===== src/Backups/Bounds.antt =====
-- vector_lake/backup_retention.py, `_plan`: the entries kept and removed.
use vector_lake.Prelude.{
  ℕ, suc, zero, ◌+◌, ◌-◌, ◌≤◌, ◌≡◌, ◌⊎◌, true, Option, none, some, List, [], ◌∷◌, ◌++◌, arith, ltb,
  if◌then◌else◌, Bool-cases, inl, inr, refl, ◌∙◌, take, length, ◌<◌, All, sym, subst,
}
use vector_lake.Prelude.Sql.{All-imp}
use vector_lake.Backups.{
  sum_of, BackupEntry, Scan, bytes_of, reverse_onto, insert_newest, newest_first, drop, shrink,
  split_entries, plan, is_older,
}

module _ (w : BackupEntry → ℕ) where
  sum_of-insert_newest :
      (x : BackupEntry) (ys : List BackupEntry) → sum_of w (insert_newest x ys) ≡ w x + sum_of w ys
  unfolding insert_newest
  sum_of-insert_newest x [] = refl
  sum_of-insert_newest x (y ∷ ys) = elim (Bool-cases (is_older x y)) [
    | inl e ↦ rw (e, if◌then◌else◌) (omega (arith, sum_of-insert_newest x ys))
    | inr e ↦ rw (e, if◌then◌else◌) refl
  ]

  sum_of-newest_first : (xs : List BackupEntry) → sum_of w (newest_first xs) ≡ sum_of w xs
  unfolding newest_first
  sum_of-newest_first [] = refl
  sum_of-newest_first (x ∷ xs) =
      omega (arith, sum_of-insert_newest x (newest_first xs), sum_of-newest_first xs)

  sum_of-take-drop :
      (n : ℕ) (xs : List BackupEntry) → sum_of w (take n xs) + sum_of w (drop n xs) ≡ sum_of w xs
  unfolding drop
  sum_of-take-drop zero xs = omega arith
  sum_of-take-drop (suc n) [] = omega arith
  sum_of-take-drop (suc n) (x ∷ xs) = omega (arith, sum_of-take-drop n xs)

  sum_of-reverse_onto :
      (xs ys : List BackupEntry) → sum_of w (reverse_onto xs ys) ≡ sum_of w xs + sum_of w ys
  sum_of-reverse_onto [] ys = omega arith
  sum_of-reverse_onto (x ∷ xs) ys = omega (arith, sum_of-reverse_onto xs (x ∷ ys))

  sum_of-snoc :
      (xs : List BackupEntry) (x : BackupEntry) → sum_of w (xs ++ x ∷ []) ≡ sum_of w xs + w x
  sum_of-snoc [] x = omega arith
  sum_of-snoc (y ∷ xs) x = omega (arith, sum_of-snoc xs x)

  sum_of-shrink :
      (max_bytes : ℕ) (keep : List BackupEntry) (retained : ℕ) (remove : List BackupEntry)
      → sum_of w (shrink max_bytes keep retained remove).0
          + sum_of w (shrink max_bytes keep retained remove).1
        ≡ sum_of w keep + sum_of w remove
  unfolding shrink
  sum_of-shrink max_bytes [] retained remove = refl
  sum_of-shrink max_bytes (x ∷ []) retained remove = refl
  sum_of-shrink max_bytes (x ∷ y ∷ ys) retained remove =
      elim (Bool-cases (ltb max_bytes retained)) [
        | inl over ↦
            let rest =
              sum_of-shrink max_bytes (y ∷ ys) (retained - x.total_bytes) (remove ++ x ∷ []) in
            let put = sum_of-snoc remove x in rw (over, if◌then◌else◌) (omega (arith, rest, put))
        | inr fits ↦ rw (fits, if◌then◌else◌) refl
      ]

  sum_of-split_entries :
      (keep_count max_bytes : ℕ) (entries : List BackupEntry)
      → sum_of w (split_entries keep_count max_bytes entries).0
          + sum_of w (split_entries keep_count max_bytes entries).1
        ≡ sum_of w entries
  unfolding split_entries
  sum_of-split_entries keep_count max_bytes entries =
      let ordered = newest_first entries in
      let keep = take keep_count ordered in
      let remove = drop keep_count ordered in
      let all = sum_of-newest_first entries in
      let parts = sum_of-take-drop keep_count ordered in
      elim (Bool-cases (ltb 0 max_bytes)) [
        | inl limited ↦
            let cut = shrink max_bytes (reverse_onto keep []) (bytes_of keep) remove in
            let a = sum_of-shrink max_bytes (reverse_onto keep []) (bytes_of keep) remove in
            let b = sum_of-reverse_onto keep [] in
            let c = sum_of-reverse_onto cut.0 [] in
            rw (limited, if◌then◌else◌) (omega (arith, all, parts, a, b, c))
        | inr unlimited ↦ rw (unlimited, if◌then◌else◌) (omega (arith, all, parts))
      ]

-- After the loop one entry is left, or the bytes fit, or there was none.
shrink-fits :
    (max_bytes : ℕ) (keep : List BackupEntry) (remove : List BackupEntry)
    → (bytes_of (shrink max_bytes keep (bytes_of keep) remove).0 ≤ max_bytes)
      ⊎ (length (shrink max_bytes keep (bytes_of keep) remove).0 ≡ 1)
unfolding shrink
shrink-fits max_bytes [] remove = inl (omega arith)
shrink-fits max_bytes (x ∷ []) remove = inr refl
shrink-fits max_bytes (x ∷ y ∷ ys) remove =
    let left : bytes_of (x ∷ y ∷ ys) - x.total_bytes ≡ bytes_of (y ∷ ys) = omega arith in
    elim (Bool-cases (ltb max_bytes (bytes_of (x ∷ y ∷ ys)))) [
      | inl over ↦
          rw (over, if◌then◌else◌, left) (shrink-fits max_bytes (y ∷ ys) (remove ++ x ∷ []))
      | inr fits ↦ rw (fits, if◌then◌else◌) (inl (ground (arith, fits)))
    ]

length-reverse_onto :
    (xs ys : List BackupEntry) → length (reverse_onto xs ys) ≡ length xs + length ys
length-reverse_onto [] ys = omega arith
length-reverse_onto (x ∷ xs) ys = omega (arith, length-reverse_onto xs (x ∷ ys))

abbrev pub newest_of : List BackupEntry → Option BackupEntry
newest_of [] = none
newest_of (x ∷ xs) = some x

abbrev last_or : Option BackupEntry → List BackupEntry → Option BackupEntry
last_or d [] = d
last_or d (x ∷ xs) = last_or (some x) xs

last_or-reverse_onto :
    (d : Option BackupEntry) (xs : List BackupEntry) (y : BackupEntry) (ys : List BackupEntry)
    → last_or d (reverse_onto xs (y ∷ ys)) ≡ last_or (some y) ys
last_or-reverse_onto d [] y ys = refl
last_or-reverse_onto d (x ∷ xs) y ys = last_or-reverse_onto d xs x (y ∷ ys)

newest_of-reverse_onto :
    (xs ys : List BackupEntry) → newest_of (reverse_onto xs ys) ≡ last_or (newest_of ys) xs
newest_of-reverse_onto [] ys = refl
newest_of-reverse_onto (x ∷ xs) ys = newest_of-reverse_onto xs (x ∷ ys)

last_or-shrink :
    (d : Option BackupEntry) (max_bytes : ℕ) (keep : List BackupEntry) (retained : ℕ)
    (remove : List BackupEntry)
    → last_or d (shrink max_bytes keep retained remove).0 ≡ last_or d keep
unfolding shrink
last_or-shrink d max_bytes [] retained remove = refl
last_or-shrink d max_bytes (x ∷ []) retained remove = refl
last_or-shrink d max_bytes (x ∷ y ∷ ys) retained remove =
    elim (Bool-cases (ltb max_bytes retained)) [
      | inl over ↦
          rw (over, if◌then◌else◌)
            (last_or-shrink d max_bytes (y ∷ ys) (retained - x.total_bytes) (remove ++ x ∷ []))
      | inr fits ↦ rw (fits, if◌then◌else◌) refl
    ]

last_of_reversed : (xs : List BackupEntry) → last_or none (reverse_onto xs []) ≡ newest_of xs
last_of_reversed [] = refl
last_of_reversed (x ∷ xs) = last_or-reverse_onto none xs x []

newest_of-take : (n : ℕ) (xs : List BackupEntry) → 1 ≤ n → newest_of (take n xs) ≡ newest_of xs
newest_of-take zero xs h = absurd (omega arith)
newest_of-take (suc n) [] h = refl
newest_of-take (suc n) (x ∷ xs) h = refl

-- Made before, or at the same time with a name that is not greater.
abbrev pub IsNotNewer : BackupEntry → BackupEntry → Type 0
IsNotNewer x m =
    (x.modified_at < m.modified_at) ⊎ ((x.modified_at ≡ m.modified_at) × (x.name ≤ m.name))

-- The newest of these entries, none if there are none.
abbrev pub IsNewestOf : Option BackupEntry → List BackupEntry → Type 0
IsNewestOf none xs = xs ≡ []
IsNewestOf (some m) xs = All (λ x. IsNotNewer x m) xs

IsNotNewer-trans : (x y z : BackupEntry) → IsNotNewer x y → IsNotNewer y z → IsNotNewer x z
IsNotNewer-trans x y z h k = ground (arith, h, k)

insert_newest-IsNewestOf :
    (x : BackupEntry) (ys zs : List BackupEntry)
    → IsNewestOf (newest_of ys) zs
    → IsNewestOf (newest_of (insert_newest x ys)) (x ∷ zs)
unfolding insert_newest
insert_newest-IsNewestOf x [] zs h = rw h (inr (refl, omega arith), tt)
insert_newest-IsNewestOf x (y ∷ ys) zs h = elim (Bool-cases (is_older x y)) [
  | inl e ↦ rw (e, if◌then◌else◌) (ground (arith, e), h)
  | inr e ↦
      let first : IsNotNewer y x = ground (arith, e) in
      rw (e, if◌then◌else◌)
        (
          inr (refl, omega arith),
          All-imp (λ z. IsNotNewer z y) (λ z. IsNotNewer z x)
              (λ z k. IsNotNewer-trans z y x k first) zs h,
        )
]

newest_first-IsNewestOf : (xs : List BackupEntry) → IsNewestOf (newest_of (newest_first xs)) xs
unfolding newest_first
newest_first-IsNewestOf [] = refl
newest_first-IsNewestOf (x ∷ xs) =
    insert_newest-IsNewestOf x (newest_first xs) xs (newest_first-IsNewestOf xs)

-- Of the entries of a scan, each one is kept or removed, and as often as it was there: every sum
-- over the entries is the sum over the kept ones and the removed ones. With at least one entry to
-- keep, the first of the kept entries is the newest of the scan: no entry has a later time, or the
-- same time and a greater name. Under a limit of bytes the kept entries fit it, or there is only
-- one of them.
pub plan-keeps_newest :
    (scan : Scan) (keep_count max_bytes : ℕ)
    → 1 ≤ keep_count
    → ((w : BackupEntry → ℕ)
        → sum_of w (plan scan keep_count max_bytes).keep
            + sum_of w (plan scan keep_count max_bytes).remove
          ≡ sum_of w scan.entries)
      × IsNewestOf (newest_of (plan scan keep_count max_bytes).keep) scan.entries
      × (1 ≤ max_bytes
          → ((plan scan keep_count max_bytes).retained_bytes ≤ max_bytes)
            ⊎ (length (plan scan keep_count max_bytes).keep ≡ 1))
unfolding plan split_entries
plan-keeps_newest scan keep_count max_bytes some_kept =
    let ordered = newest_first scan.entries in
    let keep = take keep_count ordered in
    let remove = drop keep_count ordered in
    let cut = shrink max_bytes (reverse_onto keep []) (bytes_of keep) remove in
    let first = newest_of-take keep_count ordered some_kept in
    let same : bytes_of (reverse_onto keep []) ≡ bytes_of keep =
      omega (arith, sum_of-reverse_onto (λ x. x.total_bytes) keep []) in
    let fits : (bytes_of cut.0 ≤ max_bytes) ⊎ (length cut.0 ≡ 1) =
      (let seen = shrink-fits max_bytes (reverse_onto keep []) remove in rw same at seen) in
    let top : newest_of (plan scan keep_count max_bytes).keep ≡ newest_of ordered =
      elim (Bool-cases (ltb 0 max_bytes)) [
        | inl limited ↦
            rw (plan, split_entries, limited, if◌then◌else◌)
              (newest_of-reverse_onto cut.0 []
                ∙ last_or-shrink none max_bytes (reverse_onto keep []) (bytes_of keep) remove
                ∙ last_of_reversed keep
                ∙ first)
        | inr unlimited ↦ rw (plan, split_entries, unlimited, if◌then◌else◌) first
      ] in
    (
      λ w. sum_of-split_entries w keep_count max_bytes scan.entries,
      subst (λ o. IsNewestOf o scan.entries) (sym top) (newest_first-IsNewestOf scan.entries),
      λ positive.
          let limited : ltb 0 max_bytes ≡ true = ground (arith, positive) in
          let total = sum_of-reverse_onto (λ x. x.total_bytes) cut.0 [] in
          let count = length-reverse_onto cut.0 [] in
          rw (plan, split_entries, limited, if◌then◌else◌)
            (elim fits [
              | inl small ↦ inl (omega (arith, total, small))
              | inr one ↦ inr (omega (arith, count, one))
            ]),
    )
