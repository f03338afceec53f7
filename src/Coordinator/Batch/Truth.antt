-- ===== src/Coordinator/Batch/Truth.antt =====
-- vector_lake/mutation_coordinator.py, `execute_mutation_batch`: what its outcome says of the files.
use vector_lake.Prelude.{
  ℕ, ◌≡◌, ◌≢◌, ◌⊎◌, Bool, true, false, not, Option, none, some, List, [], ◌∷◌, ◌++◌, map, All,
  arith, if◌then◌else◌, Bool-cases, inl, inr, refl, sym, ◌∙◌, ap, subst, contains,
}
use vector_lake.Prelude.Sql.{find_key, All-imp}
use vector_lake.Prelude.Keys.{IsKeyed}
use vector_lake.Prelude.Result.{Result, ok, err, require-eq-ok, >>=-eq-ok, ok-injective}
use vector_lake.Outbox.{Intent, ValidationMode, is_delete}
use vector_lake.Coordinator.{
  MutationError, runtime_error, Paths, Files, Validators, Canonical, Request, Prepared,
}
use vector_lake.Coordinator.Locks.{projection_locks}
use vector_lake.Coordinator.Prepare.{
  HasPassed, type_of, check_content, prepare_mutations, prepare_mutations-HasPassed,
}
use vector_lake.Coordinator.Commit.{Db, Hook, version_text, prepare_change_sets, commit}
use vector_lake.Coordinator.Commit.Binding.{KeepsOutbox, AllCommitted, commit-AllCommitted}
use vector_lake.Coordinator.Projection.{materialize_markdown_projection}
use vector_lake.Coordinator.Projection.Current.{
  IsProjected, materialize_markdown_projection-IsCurrent,
}
use vector_lake.Coordinator.Batch.{
  Surroundings, recheck_sources, target_of, or_deferred, project_each, Outcome,
  execute_mutation_batch,
}

-- The file that a mutation asks for.
abbrev pub projected_text : Prepared → Option ℕ
projected_text p = if is_delete p.mutation_type then none else p.content

-- An update has a text, and a mutation is an update or a deletion.
abbrev pub IsComplete : Prepared → Type 0
IsComplete p =
    (is_delete p.mutation_type ≡ false → (text : ℕ) × (p.content ≡ some text))
    × (p.mutation_type ≡ type_of (is_delete p.mutation_type))

checked-some :
    (validators : Validators) (files : Files) (mode : ValidationMode) (f : ℕ) (content : Option ℕ)
    → check_content validators files mode f content ≡ ok tt
    → (text : ℕ) × (content ≡ some text)
unfolding check_content
checked-some validators files mode f none e = cc
checked-some validators files mode f (some text) e = (text, refl)

HasPassed-IsComplete :
    (paths : Paths) (validators : Validators) (files : Files) (mode : ValidationMode) (p : Prepared)
    → HasPassed paths validators files mode [] p
    → IsComplete p
HasPassed-IsComplete paths validators files mode p h = (
  λ kept. checked-some validators files mode p.filename p.content (h.accepted kept),
  h.known_type,
)

-- A projection of a complete mutation that succeeded left the file that it asks for.
IsProjected-text :
    (mode : ValidationMode) (p : Prepared) (i : ℕ) (files files' : Files)
    → IsComplete p
    → IsProjected (target_of mode p i) files files'
    → files' p.filename ≡ projected_text p
IsProjected-text mode p i files files' complete h = elim (Bool-cases (is_delete p.mutation_type)) [
  | inl deletes ↦ rw (deletes, if◌then◌else◌) (h.deleted (complete.1 ∙ ap type_of deletes))
  | inr updates ↦
      let (text, given) = complete.0 updates in
      rw (updates, if◌then◌else◌)
        (h.updated (complete.1 ∙ ap type_of updates) text given ∙ sym given)
]

-- One round: the page is deferred, or its file is right; the other files stay.
or_deferred-truth :
    (mode : ValidationMode) (p : Prepared) (i : ℕ) (files : Files) (r : Result MutationError Files)
    → IsComplete p
    → ((files' : Files) → r ≡ ok files' → IsProjected (target_of mode p i) files files')
    → (let first = or_deferred p.filename files r in
        ((contains first.0 p.filename ≡ true) ⊎ (first.1 p.filename ≡ projected_text p))
        × ((g : ℕ) → g ≢ p.filename → first.1 g ≡ files g))
or_deferred-truth mode p i files (err raised) complete h = (inl (ground arith), λ g apart. refl)
or_deferred-truth mode p i files (ok files') complete h =
    let projected = h files' refl in
    (inr (IsProjected-text mode p i files files' complete projected), projected.others)

contains-append_left :
    (xs ys : List ℕ) (a : ℕ) → contains xs a ≡ true → contains (xs ++ ys) a ≡ true
contains-append_left [] ys a h = cc
contains-append_left (x ∷ xs) ys a h = ground (arith, contains-append_left xs ys a)

contains-append_right :
    (xs ys : List ℕ) (a : ℕ) → contains ys a ≡ true → contains (xs ++ ys) a ≡ true
contains-append_right [] ys a h = h
contains-append_right (x ∷ xs) ys a h = ground (arith, contains-append_right xs ys a h)

-- As many intents as mutations.
abbrev SameLength : List Prepared → List ℕ → Type 0
SameLength [] [] = Unit
SameLength [] (i ∷ ids) = ⊥
SameLength (p ∷ ps) [] = ⊥
SameLength (p ∷ ps) (i ∷ ids) = SameLength ps ids

abbrev pub IsTruthful : List ℕ → Files → Prepared → Type 0
IsTruthful deferred files p =
    (contains deferred p.filename ≡ true) ⊎ (files p.filename ≡ projected_text p)

project_each-IsTruthful :
    (s : Surroundings) (locks : List ℕ) (version_of : ℕ → ℕ) (mode : ValidationMode)
    (intents : List Intent) (ps : List Prepared) (ids : List ℕ) (files : Files)
    → SameLength ps ids
    → IsKeyed (λ p. p.filename) ps
    → All IsComplete ps
    → (let out = project_each s locks version_of mode intents ps ids files in
        All (IsTruthful out.0 out.1) ps
        × ((g : ℕ) → All (λ p. p.filename ≢ g) ps → out.1 g ≡ files g))
unfolding project_each
project_each-IsTruthful s locks version_of mode intents [] ids files len keyed complete =
    (tt, λ g apart. refl)
project_each-IsTruthful s locks version_of mode intents (p ∷ ps) [] files len keyed complete =
    absurd len
project_each-IsTruthful s locks version_of mode intents (p ∷ ps) (i ∷ ids) files len keyed
      complete =
    let attempt =
      materialize_markdown_projection s.paths s.waited s.validators s.is_source_metadata false
        s.in_time locks version_of (target_of mode p i) s.now intents files in
    let first = or_deferred p.filename files attempt in
    let rest = project_each s locks version_of mode intents ps ids first.1 in
    let (own, apart) = or_deferred-truth mode p i files attempt complete.0 (λ files' done.
      (materialize_markdown_projection-IsCurrent s.paths s.waited s.validators s.is_source_metadata
        false s.in_time locks version_of (target_of mode p i) s.now intents files files' done).1) in
    let (truths, kept) =
      project_each-IsTruthful s locks version_of mode intents ps ids first.1 len keyed.1
        complete.1 in
    let own' : IsTruthful (first.0 ++ rest.0) rest.1 p = elim own [
      | inl deferred ↦ inl (contains-append_left first.0 rest.0 p.filename deferred)
      | inr right ↦ inr (kept p.filename keyed.0 ∙ right)
    ] in
    (
      (
        own',
        All-imp (IsTruthful rest.0 rest.1) (IsTruthful (first.0 ++ rest.0) rest.1)
            (λ q truth. elim truth [
              | inl deferred ↦ inl (contains-append_right first.0 rest.0 q.filename deferred)
              | inr right ↦ inr right
            ])
            ps truths,
      ),
      λ g others. kept g others.1 ∙ apart g (λ same. others.0 (sym same)),
    )

AllCommitted-SameLength :
    (version_of : ℕ → ℕ) (ps : List Prepared) (ids : List ℕ) (xs : List Intent)
    → AllCommitted version_of ps ids xs
    → SameLength ps ids
AllCommitted-SameLength version_of [] [] xs h = tt
AllCommitted-SameLength version_of [] (i ∷ ids) xs h = absurd h
AllCommitted-SameLength version_of (p ∷ ps) [] xs h = absurd h
AllCommitted-SameLength version_of (p ∷ ps) (i ∷ ids) xs h =
    AllCommitted-SameLength version_of ps ids xs h.1

module _ (canonical : Canonical) where
  open canonical use {Store}

  -- What the outcome of a batch is: intents for its mutations, bound to the versions of their pages,
  -- and files that are as asked for, but for the pages that are reported as deferred.
  pub record IsExecuted (s : Surroundings) (mode : ValidationMode) (requests : List Request)
      (files locked : Files) (outcome : Outcome canonical) : Type 0 where
    pub prepared : List Prepared
    pub asked : prepare_mutations s.paths s.validators files s.sha256 mode requests ≡ ok prepared
    pub committed :
        AllCommitted
          (version_text canonical s.paths outcome.db.store)
          prepared
          outcome.outbox_ids
          outcome.db.intents
    pub truthful : All (IsTruthful outcome.deferred outcome.files) prepared
    pub others : (g : ℕ) → All (λ p. p.filename ≢ g) prepared → outcome.files g ≡ locked g

  -- A batch that returns has one pending intent for each of its mutations, of the page, the type and
  -- the text of the mutation and bound to the version that the page has at the end of the
  -- transaction; each page that it does not report as deferred has exactly the text of its update in
  -- its file, or no file after a deletion; and the files of other pages are as they were. Ids are
  -- unique and new ids are free, and the caller's hooks do not write to the outbox.
  pub execute_mutation_batch-IsExecuted :
      (s : Surroundings) (precondition callback : Hook canonical s.paths) (mode : ValidationMode)
      (in_transaction : Bool) (requests : List Request) (read : Store) (files : Files)
      (db : Db Store) (locked : Files) (outcome : Outcome canonical)
      → KeepsOutbox canonical s.paths precondition
      → KeepsOutbox canonical s.paths callback
      → ((ys : List Intent) → find_key (λ x. x.id) (s.draw ys) ys ≡ none)
      → IsKeyed (λ x. x.id) db.intents
      → execute_mutation_batch canonical s precondition callback mode in_transaction requests read
          files db locked
        ≡ ok outcome
      → IsExecuted s mode requests files locked outcome
  unfolding execute_mutation_batch
  execute_mutation_batch-IsExecuted s precondition callback mode in_transaction requests read files
        db locked outcome quiet quiet' new keyed e =
      let (_, e1) = require-eq-ok (not in_transaction) runtime_error _ e in
      let (_, _, e2) = >>=-eq-ok (s.enforce_runtime_write_health mode) _ e1 in
      let (prepared, asked, e3) =
        >>=-eq-ok (prepare_mutations s.paths s.validators files s.sha256 mode requests) _ e2 in
      let (change_sets, _, e4) =
        >>=-eq-ok (prepare_change_sets canonical s.paths read prepared) _ e3 in
      let (taken, _, e5) =
        >>=-eq-ok
          (projection_locks s.paths s.waited locked false s.in_time s.held
            (map (λ p. p.filename) prepared))
          _ e4 in
      let (_, _, e6) = >>=-eq-ok (recheck_sources s.validators locked prepared) _ e5 in
      let (answer, done, e7) =
        >>=-eq-ok
          (commit canonical s.paths precondition callback mode s.draw s.times s.published_at
            prepared change_sets db)
          _ e6 in
      let (_, distinct, passed) =
        prepare_mutations-HasPassed s.paths s.validators files s.sha256 mode requests prepared
          asked in
      let committed =
        commit-AllCommitted canonical s.paths precondition callback mode s.draw s.times
          s.published_at prepared change_sets db answer quiet quiet' new keyed distinct done in
      let (truthful, others) =
        project_each-IsTruthful s (taken ++ s.held) (version_text canonical s.paths answer.1.store)
          mode answer.1.intents prepared answer.0 locked
          (AllCommitted-SameLength (version_text canonical s.paths answer.1.store) prepared answer.0
            answer.1.intents committed)
          distinct
          (All-imp (HasPassed s.paths s.validators files mode []) IsComplete
            (λ p. HasPassed-IsComplete s.paths s.validators files mode p) prepared passed) in
      subst (IsExecuted s mode requests files locked) (ok-injective e7) (record {
        prepared = prepared;
        asked = asked;
        committed = committed;
        truthful = truthful;
        others = others;
      })
