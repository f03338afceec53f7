-- ===== src/Outbox/Pages.antt =====
-- vector_lake/db_store.py, `enqueue_mutation`: what an intent is for.
pub mod Bound
use vector_lake.Prelude.{
  ℕ, ◌+◌, ◌≡◌, ◌≢◌, Bool, true, false, ◌&&◌, not, Option, none, some, List, [], ◌∷◌, ◌++◌, All,
  arith, ◌==◌, ==_iff, if◌then◌else◌, Bool-cases, Option-cases, inl, inr, refl, sym, ◌∙◌, ◌⊎◌, ap,
  subst,
}
use mathlib.Core.Option.{some-injective}
use vector_lake.Prelude.Sql.{update_where, find_key, find_key-key, update_where-found}
use vector_lake.Prelude.Keys.{IsKeyed, find_key-append, find_key-snoc}
use vector_lake.Prelude.Result.{
  ok, err, ◌>>=◌, ◌>>◌, require, require-eq-ok, >>=-eq-ok, ok-injective,
}
use vector_lake.Jobs.Failure.{opt_eq}
use vector_lake.Outbox.{
  value_error, Intent, MutationType, update, delete, other_type, ValidationMode, is_pending,
  is_delete, same_type, latest_of,
}
use vector_lake.Outbox.Enqueue.{
  max_revision, inserted_row, revived_row, superseded_row, supersede_older, write_intent,
  find_existing, is_live_latest, enqueue_over, enqueue_mutation, bound_row, bind_mutation_versions,
}
use vector_lake.Outbox.Latest.Enqueue.{find_existing-found}

-- The intent `i` is for the page, the type of mutation and the text.
pub record IsFor (f : ℕ) (t : MutationType) (payload : Option ℕ) (i : ℕ) (xs : List Intent)
    : Type 0 where
  pub row : Intent
  pub found : find_key (λ x. x.id) i xs ≡ some row
  pub filename : row.filename ≡ f
  pub mutation_type : row.mutation_type ≡ t
  pub payload_text : row.payload_text ≡ payload

-- An UPDATE of the other rows of the table, or one that keeps what an intent is for.
pub update-IsFor :
    (p : Intent → Bool) (g : Intent → Intent)
    → ((x : Intent) → (g x).id ≡ x.id)
    → (f : ℕ) (t : MutationType) (payload : Option ℕ) (i : ℕ) (xs : List Intent)
    → (h : IsFor f t payload i xs)
    → (p h.row ≡ true
        → ((g h.row).filename ≡ f)
          × ((g h.row).mutation_type ≡ t)
          × ((g h.row).payload_text ≡ payload))
    → IsFor f t payload i (update_where p g xs)
update-IsFor p g same f t payload i xs h kept =
    let seen = update_where-found (λ (x : Intent). x.id) p g same i xs h.found in
    elim (Bool-cases (p h.row)) [
      | inl hit ↦
          let (a, b, c) = kept hit in
          record {
            row = g h.row;
            found = rw (hit, if◌then◌else◌) at seen;
            filename = a;
            mutation_type = b;
            payload_text = c;
          }
      | inr miss ↦ record {
        row = h.row;
        found = rw (miss, if◌then◌else◌) at seen;
        filename = h.filename;
        mutation_type = h.mutation_type;
        payload_text = h.payload_text;
      }
    ]

supersede_older-IsFor :
    (by f' rev f : ℕ) (t : MutationType) (payload : Option ℕ) (i : ℕ) (xs : List Intent)
    → IsFor f t payload i xs
    → IsFor f t payload i (supersede_older by f' rev xs)
unfolding supersede_older
supersede_older-IsFor by f' rev f t payload i xs h =
    update-IsFor _ (superseded_row by) (λ x. refl) f t payload i xs h
      (λ _. (h.filename, h.mutation_type, h.payload_text))

-- The intent that an enqueue writes is for its page.
write_intent-IsFor :
    (f : ℕ) (t : MutationType) (payload key : Option ℕ) (mode : ValidationMode) (i now : ℕ)
    (existing : Option Intent) (xs : List Intent)
    → find_key (λ x. x.id) i xs ≡ none
    → ((r : Intent)
        → existing ≡ some r
        → (find_key (λ x. x.id) r.id xs ≡ some r) × (r.filename ≡ f) × (r.mutation_type ≡ t))
    → (let answer = write_intent f t payload key mode i now existing xs in
        IsFor f t payload answer.0 answer.1)
unfolding write_intent
write_intent-IsFor f t payload key mode i now none xs new known =
    let row = inserted_row i f t payload key mode (max_revision f xs + 1) now in
    supersede_older-IsFor i f (max_revision f xs + 1) f t payload i (xs ++ row ∷ []) (record {
      row = row;
      found = find_key-snoc (λ x. x.id) i xs row new refl;
      filename = refl;
      mutation_type = refl;
      payload_text = refl;
    })
write_intent-IsFor f t payload key mode i now (some r) xs new known =
    let (found, page, type) = known r refl in
    let g = revived_row now payload mode (max_revision f xs + 1) in
    let seen =
      update_where-found (λ (x : Intent). x.id) (λ x. x.id == r.id) g (λ x. refl) r.id xs found in
    let hit : (r.id == r.id) ≡ true = ground arith in
    supersede_older-IsFor r.id f (max_revision f xs + 1) f t payload r.id
      (update_where (λ x. x.id == r.id) g xs)
      (record {
        row = g r;
        found = rw (hit, if◌then◌else◌) at seen;
        filename = page;
        mutation_type = type;
        payload_text = refl;
      })

-- The intents of the other pages stay what they are for.
write_intent-keeps :
    (f : ℕ) (t : MutationType) (payload key : Option ℕ) (mode : ValidationMode) (i now : ℕ)
    (existing : Option Intent) (xs : List Intent)
    → ((r : Intent)
        → existing ≡ some r
        → (find_key (λ x. x.id) r.id xs ≡ some r) × (r.filename ≡ f))
    → (f' : ℕ) (t' : MutationType) (payload' : Option ℕ) (j : ℕ) → f' ≢ f
    → IsFor f' t' payload' j xs
    → IsFor f' t' payload' j (write_intent f t payload key mode i now existing xs).1
unfolding write_intent
write_intent-keeps f t payload key mode i now none xs known f' t' payload' j other h =
    supersede_older-IsFor i f (max_revision f xs + 1) f' t' payload' j _ (record {
      row = h.row;
      found = find_key-append (λ x. x.id) j xs _ h.row h.found;
      filename = h.filename;
      mutation_type = h.mutation_type;
      payload_text = h.payload_text;
    })
write_intent-keeps f t payload key mode i now (some r) xs known f' t' payload' j other h =
    let (found, page) = known r refl in
    supersede_older-IsFor r.id f (max_revision f xs + 1) f' t' payload' j _ (
      update-IsFor (λ x. x.id == r.id) (revived_row now payload mode (max_revision f xs + 1))
        (λ x. refl) f' t' payload' j xs h
        (λ hit. absurd (
          other (
            let same : j ≡ r.id =
              sym (find_key-key (λ (x : Intent). x.id) j xs h.found)
              ∙ (==_iff h.row.id r.id).0 hit in
            let one : h.row ≡ r = some-injective h.row r (sym h.found ∙ rw same found) in
            sym h.filename ∙ ap (λ (x : Intent). x.filename) one ∙ page))))

pub same_type-eq : (s t : MutationType) → same_type s t ≡ true → s ≡ t
same_type-eq update update h = refl
same_type-eq delete delete h = refl
same_type-eq (other_type a) (other_type b) h = ap other_type ((==_iff a b).0 h)
same_type-eq update delete h = cc
same_type-eq update (other_type b) h = cc
same_type-eq delete update h = cc
same_type-eq delete (other_type b) h = cc
same_type-eq (other_type a) update h = cc
same_type-eq (other_type a) delete h = cc

pub opt_eq-eq : (a b : Option ℕ) → opt_eq a b ≡ true → a ≡ b
opt_eq-eq none none h = refl
opt_eq-eq none (some b) h = cc
opt_eq-eq (some a) none h = cc
opt_eq-eq (some a) (some b) h = ap some ((==_iff a b).0 h)

-- The intents of the pages other than `f` stay what they are for.
abbrev pub KeepsOthers : ℕ → List Intent → List Intent → Type 0
KeepsOthers f xs ys =
    (f' : ℕ) (t' : MutationType) (payload' : Option ℕ) (j : ℕ)
    → f' ≢ f
    → IsFor f' t' payload' j xs
    → IsFor f' t' payload' j ys

enqueue_over-IsFor :
    (f : ℕ) (t : MutationType) (payload key : Option ℕ) (mode : ValidationMode) (i now : ℕ)
    (existing : Option Intent) (xs : List Intent) (answer : ℕ × List Intent)
    → find_existing key xs ≡ existing
    → IsKeyed (λ x. x.id) xs
    → find_key (λ x. x.id) i xs ≡ none
    → enqueue_over f t payload key mode i now existing xs ≡ ok answer
    → IsFor f t payload answer.0 answer.1 × KeepsOthers f xs answer.1
unfolding enqueue_over
enqueue_over-IsFor f t payload key mode i now none xs answer look keyed new e =
    let whole : answer ≡ write_intent f t payload key mode i now none xs = ok-injective (sym e) in
    rw whole (
      write_intent-IsFor f t payload key mode i now none xs new (λ r known. cc),
      write_intent-keeps f t payload key mode i now none xs (λ r known. cc),
    )
enqueue_over-IsFor f t payload key mode i now (some r) xs answer look keyed new e =
    let (checked, e1) =
      require-eq-ok (r.filename == f && same_type r.mutation_type t) value_error _ e in
    let page : r.filename ≡ f = ground arith in
    let type : r.mutation_type ≡ t = same_type-eq r.mutation_type t (ground arith) in
    let found = find_existing-found key xs r keyed look in
    elim (Bool-cases (is_live_latest r (latest_of f xs))) [
      | inl live ↦
          let kept : (opt_eq r.payload_text payload ≡ true) × (answer ≡ (r.id, xs)) =
            ground arith in
          rw kept.1 (
            record {
              row = r;
              found = found;
              filename = page;
              mutation_type = type;
              payload_text = opt_eq-eq r.payload_text payload kept.0;
            },
            λ f' t' payload' j other h. h,
          )
      | inr spent ↦
          let whole : answer ≡ write_intent f t payload key mode i now (some r) xs = ground arith in
          let known = λ (s : Intent) (same : some r ≡ some s).
            subst
              (λ (z : Intent).
                (find_key (λ x. x.id) z.id xs ≡ some z) × (z.filename ≡ f) × (z.mutation_type ≡ t))
              (some-injective r s same) (found, page, type) in
          rw whole (
            write_intent-IsFor f t payload key mode i now (some r) xs new known,
            write_intent-keeps f t payload key mode i now (some r) xs
                (λ s same. ((known s same).0, (known s same).1)),
          )
    ]

-- A successful enqueue answers with an intent for its page, its type of mutation and its text, and
-- the intents of the other pages stay what they are for.
pub enqueue_mutation-IsFor :
    (f : ℕ) (t : MutationType) (payload key : Option ℕ) (mode : ValidationMode) (i now : ℕ)
    (xs : List Intent) (answer : ℕ × List Intent)
    → IsKeyed (λ x. x.id) xs
    → find_key (λ x. x.id) i xs ≡ none
    → enqueue_mutation f t payload key mode i now xs ≡ ok answer
    → IsFor f t payload answer.0 answer.1 × KeepsOthers f xs answer.1
unfolding enqueue_mutation
enqueue_mutation-IsFor f t payload key mode i now xs answer keyed new e =
    enqueue_over-IsFor f t payload key mode i now (find_existing key xs) xs answer refl keyed new
      (ground arith)
