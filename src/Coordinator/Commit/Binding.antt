-- ===== src/Coordinator/Commit/Binding.antt =====
-- vector_lake/mutation_coordinator.py, `execute_mutation_batch`: the intents of a committed batch.
use vector_lake.Prelude.{
  ℕ, ◌≡◌, true, none, some, List, [], ◌∷◌, All, refl, sym, ◌∙◌, ap, map, &&-eq-true,
}
use mathlib.Core.Option.{some-injective}
use vector_lake.Prelude.Sql.{find_key, All-intro}
use vector_lake.Prelude.Keys.{IsKeyed}
use vector_lake.Prelude.Result.{ok, require-eq-ok, >>=-eq-ok, ok-injective}
use vector_lake.Outbox.{Intent, ValidationMode, is_pending, is_delete}
use vector_lake.Outbox.Enqueue.{bind_mutation_versions}
use vector_lake.Outbox.Pages.{IsFor, opt_eq-eq}
use vector_lake.Outbox.Pages.Bound.{IsBound, bind_mutation_versions-IsBound}
use vector_lake.Coordinator.{version_conflict, from_outbox, Paths, Canonical, text_of, Prepared}
use vector_lake.Coordinator.Commit.{
  Db, version_of_file, version_text, check_versions, delete_pages, same_versions, Hook, run_hook,
  run_callback, enqueue_mutations_batch, commit,
}
use vector_lake.Coordinator.Commit.Enqueued.{
  AllFor, from_outbox-ok, enqueue_mutations_batch-AllFor, AllFor-bound,
}

-- The intent of a mutation of a committed batch.
pub record IsCommitted (version_of : ℕ → ℕ) (p : Prepared) (i : ℕ) (xs : List Intent) : Type 0 where
  pub row : Intent
  pub found : find_key (λ x. x.id) i xs ≡ some row
  pub filename : row.filename ≡ p.filename
  pub mutation_type : row.mutation_type ≡ p.mutation_type
  pub payload_text : row.payload_text ≡ p.content
  pub pending : is_pending row.status ≡ true
  pub base_version : row.base_version ≡ some (version_of p.filename)
  pub gone : is_delete p.mutation_type ≡ true → version_of p.filename ≡ 0

abbrev pub AllCommitted : (ℕ → ℕ) → List Prepared → List ℕ → List Intent → Type 0
AllCommitted version_of [] [] xs = Unit
AllCommitted version_of [] (i ∷ ids) xs = ⊥
AllCommitted version_of (p ∷ ps) [] xs = ⊥
AllCommitted version_of (p ∷ ps) (i ∷ ids) xs =
    IsCommitted version_of p i xs × AllCommitted version_of ps ids xs

IsCommitted-both :
    (version_of : ℕ → ℕ) (p : Prepared) (i : ℕ) (xs : List Intent)
    → IsFor p.filename p.mutation_type p.content i xs
    → IsBound version_of i xs
    → IsCommitted version_of p i xs
IsCommitted-both version_of p i xs h b =
    let same : b.row ≡ h.row = some-injective b.row h.row (sym b.found ∙ h.found) in
    record {
      row = h.row;
      found = h.found;
      filename = h.filename;
      mutation_type = h.mutation_type;
      payload_text = h.payload_text;
      pending = rw same at b.pending;
      base_version = rw (same, h.filename) at b.base_version;
      gone = λ deleted. rw (same, h.filename) at (b.gone (rw (same, h.mutation_type) deleted));
    }

AllCommitted-both :
    (version_of now_of : ℕ → ℕ) (ps : List Prepared) (ids : List ℕ) (xs : List Intent)
    → AllFor ps ids xs
    → All (λ i. IsBound version_of i xs) ids
    → All (λ p. now_of p.filename ≡ version_of p.filename) ps
    → AllCommitted now_of ps ids xs
AllCommitted-both version_of now_of [] [] xs h b same = tt
AllCommitted-both version_of now_of [] (i ∷ ids) xs h b same = absurd h
AllCommitted-both version_of now_of (p ∷ ps) [] xs h b same = absurd h
AllCommitted-both version_of now_of (p ∷ ps) (i ∷ ids) xs h b same =
    let c = IsCommitted-both version_of p i xs h.0 b.0 in
    (
      record {
        row = c.row;
        found = c.found;
        filename = c.filename;
        mutation_type = c.mutation_type;
        payload_text = c.payload_text;
        pending = c.pending;
        base_version = c.base_version ∙ ap some (sym same.0);
        gone = λ deleted. same.0 ∙ c.gone deleted;
      },
      AllCommitted-both version_of now_of ps ids xs h.1 b.1 same.1,
    )

module _ (canonical : Canonical) (paths : Paths) where
  open canonical use {Store, ChangeSet}

  -- A hook that leaves the outbox alone.
  abbrev pub KeepsOutbox : Hook canonical paths → Type 0
  KeepsOutbox hook =
      (db db' : Db Store) → run_hook canonical paths hook db ≡ ok db' → db'.intents ≡ db.intents

  same_versions-All :
      (before now : Store) (ps : List Prepared)
      → same_versions canonical paths before now ps ≡ true
      → All
          (λ p.
            version_text canonical paths now p.filename
            ≡ version_text canonical paths before p.filename)
          ps
  unfolding same_versions
  same_versions-All before now [] h = tt
  same_versions-All before now (p ∷ ps) h =
      let (one, rest) = &&-eq-true h in
      (
        ap text_of (
            opt_eq-eq (version_of_file canonical paths now p.filename)
              (version_of_file canonical paths before p.filename) one),
        same_versions-All before now ps rest,
      )

  -- What the callback leaves: the outbox, and the versions of the pages of the batch.
  run_callback-ok :
      (hook : Hook canonical paths) (ps : List Prepared) (db db' : Db Store)
      → KeepsOutbox hook
      → run_callback canonical paths hook ps db ≡ ok db'
      → (db'.intents ≡ db.intents)
        × All
            (λ p.
              version_text canonical paths db'.store p.filename
              ≡ version_text canonical paths db.store p.filename)
            ps
  unfolding run_callback
  run_callback-ok none ps db db' kept e =
      let same : db' ≡ db = ok-injective (sym e) in
      rw same (
        refl,
        All-intro
            (λ p.
              version_text canonical paths db.store p.filename
              ≡ version_text canonical paths db.store p.filename)
            (λ p. refl) ps,
      )
  run_callback-ok (some f) ps db db' kept e =
      let (after, called, e1) = >>=-eq-ok (f db) _ e in
      let (checked, e2) =
        require-eq-ok (same_versions canonical paths db.store after.store ps) version_conflict _
          e1 in
      let same : db' ≡ after = ok-injective (sym e2) in
      rw same (kept db after called, same_versions-All db.store after.store ps checked)

  -- A batch that committed has one intent for each of its mutations, in their order: a pending one of
  -- the page, the type and the text of the mutation, bound to the version that the page has when the
  -- transaction ends, which for a deletion is none. Ids are unique and new ids are free, no two
  -- mutations have one file name, and the caller's hooks do not write to the outbox.
  pub commit-AllCommitted :
      (precondition callback : Hook canonical paths) (mode : ValidationMode)
      (draw : List Intent → ℕ) (times : ℕ → ℕ) (published_at : ℕ) (prepared : List Prepared)
      (change_sets : List ChangeSet) (db : Db Store) (answer : List ℕ × Db Store)
      → KeepsOutbox precondition
      → KeepsOutbox callback
      → ((ys : List Intent) → find_key (λ x. x.id) (draw ys) ys ≡ none)
      → IsKeyed (λ x. x.id) db.intents
      → IsKeyed (λ p. p.filename) prepared
      → commit canonical paths precondition callback mode draw times published_at prepared
          change_sets db
        ≡ ok answer
      → AllCommitted
          (version_text canonical paths answer.1.store)
          prepared
          answer.0
          answer.1.intents
  unfolding commit
  commit-AllCommitted precondition callback mode draw times published_at prepared change_sets db
        answer quiet quiet' new keyed distinct e =
      let (db1, before, e1) = >>=-eq-ok (run_hook canonical paths precondition db) _ e in
      let (_, _, e2) = >>=-eq-ok (check_versions canonical paths db1.store prepared) _ e1 in
      let (applied, _, e3) =
        >>=-eq-ok
          (canonical.apply_change_sets_batch change_sets
            (delete_pages canonical paths prepared db1.store))
          _ e2 in
      let store =
        canonical.record_prepared_change_sets (map (canonical.publish_at published_at) change_sets)
          applied in
      let (enqueued, one, e4) =
        >>=-eq-ok (enqueue_mutations_batch mode draw times prepared db1.intents) _ e3 in
      let (intents, two, e5) =
        >>=-eq-ok
          (from_outbox
            (bind_mutation_versions (version_text canonical paths store) enqueued.0 enqueued.1))
          _ e4 in
      let (db2, called, e6) =
        >>=-eq-ok
          (run_callback canonical paths callback prepared
            (record { store = store; intents = intents }))
          _ e5 in
      let bound = from_outbox-ok _ two in
      let (all, _) =
        enqueue_mutations_batch-AllFor mode draw times prepared db1.intents enqueued new
          (rw (quiet db db1 before) keyed) distinct one in
      let (outbox, versions) =
        run_callback-ok callback prepared (record { store = store; intents = intents }) db2 quiet'
          called in
      rw (ok-injective (sym e6), outbox)
        (AllCommitted-both (version_text canonical paths store)
          (version_text canonical paths db2.store) prepared enqueued.0 intents
          (AllFor-bound (version_text canonical paths store) enqueued.0 prepared enqueued.0
            enqueued.1 intents all bound)
          (bind_mutation_versions-IsBound (version_text canonical paths store) enqueued.0 enqueued.1
            intents bound)
          versions)
