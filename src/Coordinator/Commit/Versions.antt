-- ===== src/Coordinator/Commit/Versions.antt =====
-- vector_lake/mutation_coordinator.py, `execute_mutation_batch`: the expected versions of a batch.
use vector_lake.Prelude.{
  ℕ, ◌≡◌, ◌≢◌, true, false, Option, none, some, List, [], ◌∷◌, Memᴰ, arith, Bool-cases, inl, inr,
  refl, subst,
}
use vector_lake.Prelude.Result.{err}
use vector_lake.Outbox.{Intent, ValidationMode}
use vector_lake.Coordinator.{
  value_error, Paths, Canonical, Expected, unversioned, not_a_text, version, Prepared,
}
use vector_lake.Coordinator.Commit.{Db, Hook, conflicts, version_of_file, check_versions, commit}

-- The page is in the state that the mutation expects: an empty text expects no page.
abbrev pub Respects : Expected → Option ℕ → Type 0
Respects (version v) current = (v ≡ 0 → current ≡ none) × (v ≢ 0 → current ≡ some v)
Respects _ current = Unit

conflicts-false :
    (e : Expected) (current : Option ℕ) → conflicts e current ≡ false → Respects e current
conflicts-false unversioned current h = tt
conflicts-false not_a_text current h = tt
conflicts-false (version v) none h = (λ _. refl, λ given. absurd (ground (arith, given)))
conflicts-false (version v) (some c) h = (λ e. absurd (ground (arith, e)), λ e. ground (arith, e))

conflicts-true :
    (e : Expected) (current : Option ℕ) → ¬ Respects e current → conflicts e current ≡ true
conflicts-true e current h = elim (Bool-cases (conflicts e current)) [
  | inl yes' ↦ yes'
  | inr no' ↦ absurd (h (conflicts-false e current no'))
]

module _ (canonical : Canonical) (paths : Paths) where
  open canonical use {Store, ChangeSet}

  check_versions-conflict :
      (store : Store) (ps : List Prepared) (p : Prepared)
      → Memᴰ p ps
      → ¬ Respects p.expected_version (version_of_file canonical paths store p.filename)
      → check_versions canonical paths store ps ≡ err value_error
  unfolding check_versions
  check_versions-conflict store [] p m h = elim m [ ]
  check_versions-conflict store (q ∷ ps) p (Memᴰ.head e) h =
      let here =
        conflicts-true p.expected_version (version_of_file canonical paths store p.filename) h in
      let conflict : conflicts q.expected_version (version_of_file canonical paths store q.filename)
          ≡ true =
        subst
          (λ (z : Prepared).
            conflicts z.expected_version (version_of_file canonical paths store z.filename) ≡ true)
          e here in
      rw conflict refl
  check_versions-conflict store (q ∷ ps) p (Memᴰ.tail m) h =
      let later = check_versions-conflict store ps p m h in
      elim (Bool-cases
        (conflicts q.expected_version (version_of_file canonical paths store q.filename))) [
          | inl bad ↦ rw bad refl
          | inr good ↦ rw (good, later) refl
        ]

  -- A batch in which some mutation expects another version than its page has, or no page where there
  -- is one, is refused, whatever the rest of it is and before anything is written.
  pub commit-conflict :
      (callback : Hook canonical paths) (mode : ValidationMode) (draw : List Intent → ℕ)
      (times : ℕ → ℕ) (published_at : ℕ) (prepared : List Prepared) (change_sets : List ChangeSet)
      (db : Db Store) (p : Prepared)
      → Memᴰ p prepared
      → ¬ Respects p.expected_version (version_of_file canonical paths db.store p.filename)
      → commit canonical paths none callback mode draw times published_at prepared change_sets db
        ≡ err value_error
  unfolding commit
  commit-conflict callback mode draw times published_at prepared change_sets db p m h =
      rw (check_versions-conflict db.store prepared p m h) refl
