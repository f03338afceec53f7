-- ===== src/Jobs/Ledger/Abandoned.antt =====
-- vector_lake/db_store.py: the sources that the ingest gave up, from `record_abandoned_source` to
-- `clear_abandoned_sources`.
use vector_lake.Prelude.{
  ℕ, ◌+◌, ◌≡◌, true, not, none, some, List, [], ◌∷◌, ◌++◌, arith, if◌then◌else◌, Bool-cases, Option,
  Option-cases, inl, inr, refl, take,
}
use vector_lake.Prelude.Sql.{update_where, select, fetch_one}
use vector_lake.Jobs.Ledger.{
  AbandonedSource, is_source, record_abandoned_source, is_cleared, clear_abandoned_sources,
}

abbrev counted : List ℕ → ℕ → AbandonedSource → AbandonedSource
counted reason now s = record s {
  reason = reason;
  terminal_jobs = s.terminal_jobs + 1;
  abandoned_at = now;
}

fetch-counted :
    (f h : ℕ) (reason : List ℕ) (now : ℕ) (xs : List AbandonedSource) (s : AbandonedSource)
    → fetch_one (is_source f h) xs ≡ some s
    → fetch_one (is_source f h) (update_where (is_source f h) (counted reason now) xs)
      ≡ some (counted reason now s)
unfolding fetch_one update_where
fetch-counted f h reason now [] s e = cc
fetch-counted f h reason now (x ∷ xs) s e = elim (Bool-cases (is_source f h x)) [
  | inl on ↦ ground (arith, e, on)
  | inr off ↦ ground (arith, off, fetch-counted f h reason now xs s (rw (off, if◌then◌else◌) at e))
]

fetch-new :
    (f h : ℕ) (xs : List AbandonedSource) (s : AbandonedSource)
    → fetch_one (is_source f h) xs ≡ none
    → is_source f h s ≡ true
    → fetch_one (is_source f h) (xs ++ s ∷ []) ≡ some s
unfolding fetch_one
fetch-new f h [] s e on = ground (arith, on)
fetch-new f h (x ∷ xs) s e on = elim (Bool-cases (is_source f h x)) [
  | inl hit ↦ cc (rw (hit, if◌then◌else◌) at e)
  | inr off ↦ ground (arith, off, fetch-new f h xs s (rw (off, if◌then◌else◌) at e) on)
]

cleared-none :
    (f h : ℕ) (xs : List AbandonedSource)
    → fetch_one (is_source f h) (select (λ s. not (is_cleared (some f) s)) xs) ≡ none
unfolding fetch_one select
cleared-none f h [] = refl
cleared-none f h (x ∷ xs) = ground (arith, cleared-none f h xs)

-- The rows of the other sources.
abbrev pub others : ℕ → ℕ → List AbandonedSource → List AbandonedSource
others f h sources = select (λ s. not (is_source f h s)) sources

others-counted :
    (f h : ℕ) (reason : List ℕ) (now : ℕ) (xs : List AbandonedSource)
    → others f h (update_where (is_source f h) (counted reason now) xs) ≡ others f h xs
unfolding select update_where
others-counted f h reason now [] = refl
others-counted f h reason now (x ∷ xs) = elim (Bool-cases (is_source f h x)) [
  | inl on ↦ simp (on, others-counted f h reason now xs)
  | inr off ↦ simp (off, others-counted f h reason now xs)
]

others-snoc :
    (f h : ℕ) (xs : List AbandonedSource) (s : AbandonedSource)
    → is_source f h s ≡ true
    → others f h (xs ++ s ∷ []) ≡ others f h xs
unfolding select
others-snoc f h [] s on = simp on
others-snoc f h (x ∷ xs) s on = elim (Bool-cases (is_source f h x)) [
  | inl e ↦ simp (e, others-snoc f h xs s on)
  | inr e ↦ simp (e, others-snoc f h xs s on)
]

-- The count that the table holds for a source, 0 if it has none.
abbrev pub tally : Option AbandonedSource → ℕ
tally none = 0
tally (some s) = s.terminal_jobs

abbrev pub count_of : ℕ → ℕ → List AbandonedSource → ℕ
count_of f h sources = tally (fetch_one (is_source f h) sources)

-- After a source was recorded once more, the table counts one more for it than before, from 0 for a
-- new source, and that is the answer; the rows of the other sources are as they were. After a clear
-- of its path the table has no row of that path.
pub record_abandoned_source-counts :
    (f h : ℕ) (reason : List ℕ) (now : ℕ) (sources : List AbandonedSource)
    → (count_of f h (record_abandoned_source f h reason now sources).1 ≡ count_of f h sources + 1)
      × ((record_abandoned_source f h reason now sources).0 ≡ count_of f h sources + 1)
      × (others f h (record_abandoned_source f h reason now sources).1 ≡ others f h sources)
      × ((k : ℕ)
          → fetch_one
              (is_source f k)
              (clear_abandoned_sources
                (some f)
                (record_abandoned_source f h reason now sources).1).1
            ≡ none)
unfolding record_abandoned_source clear_abandoned_sources
record_abandoned_source-counts f h reason now sources =
    elim (Option-cases (fetch_one (is_source f h) sources)) [
      | inl gone ↦
          let new : AbandonedSource = record {
            filepath = f;
            file_hash = h;
            reason = take 500 reason;
            terminal_jobs = 1;
            abandoned_at = now;
          } in
          let seen = fetch-new f h sources new gone (ground arith) in
          rw (record_abandoned_source, gone, if◌then◌else◌, seen)
            (
              refl,
              refl,
              others-snoc f h sources new (ground arith),
              λ k. cleared-none f k (sources ++ new ∷ []),
            )
      | inr (s, found) ↦
          let seen = fetch-counted f h (take 500 reason) now sources s found in
          rw (record_abandoned_source, found, if◌then◌else◌, seen)
            (
              refl,
              refl,
              others-counted f h (take 500 reason) now sources,
              λ k.
                  cleared-none f k
                    (update_where (is_source f h) (counted (take 500 reason) now) sources),
            )
    ]
