-- ===== src/Outbox/Pages/Bound.antt =====
-- vector_lake/db_store.py, `bind_mutation_versions`: the versions that intents are bound to.
use vector_lake.Prelude.{
  ℕ, ◌≡◌, ◌≢◌, true, false, ◌&&◌, not, Option, some, List, [], ◌∷◌, All, arith, ◌==◌, ==_iff,
  if◌then◌else◌, Bool-cases, Option-cases, inl, inr, refl, sym,
}
use vector_lake.Prelude.Sql.{update_where, find_key, find_key-key, update_where-found}
use vector_lake.Prelude.Result.{ok, require-eq-ok, ok-injective}
use vector_lake.Outbox.{value_error, Intent, MutationType, is_pending, is_delete}
use vector_lake.Outbox.Enqueue.{bound_row, bind_mutation_versions}
use vector_lake.Outbox.Pages.{IsFor, update-IsFor}

-- The intent `i` is bound to the version of its page, pending, and no deletion of a page that is
-- still there.
pub record IsBound (version_of : ℕ → ℕ) (i : ℕ) (xs : List Intent) : Type 0 where
  pub row : Intent
  pub found : find_key (λ x. x.id) i xs ≡ some row
  pub base_version : row.base_version ≡ some (version_of row.filename)
  pub pending : is_pending row.status ≡ true
  pub gone : is_delete row.mutation_type ≡ true → version_of row.filename ≡ 0

bind_one-IsBound :
    (version_of : ℕ → ℕ) (i j : ℕ) (xs : List Intent) (r : Intent)
    → find_key (λ x. x.id) j xs ≡ some r
    → (i ≢ j → IsBound version_of i xs)
    → (is_delete r.mutation_type ≡ true → version_of r.filename ≡ 0)
    → IsBound version_of i (update_where (λ x. x.id == j) (bound_row (version_of r.filename)) xs)
bind_one-IsBound version_of i j xs r found before gone = elim (Bool-cases (i == j)) [
  | inl same ↦
      let here : find_key (λ (x : Intent). x.id) i xs ≡ some r = rw ((==_iff i j).0 same) found in
      let seen =
        update_where-found (λ (x : Intent). x.id) (λ x. x.id == j)
          (bound_row (version_of r.filename)) (λ x. refl) i xs here in
      let hit : (r.id == j) ≡ true =
        ground (arith, find_key-key (λ (x : Intent). x.id) j xs found) in
      record {
        row = bound_row (version_of r.filename) r;
        found = rw (hit, if◌then◌else◌) at seen;
        base_version = refl;
        pending = refl;
        gone = gone;
      }
  | inr other ↦
      let h = before (λ e. ground arith) in
      let seen =
        update_where-found (λ (x : Intent). x.id) (λ x. x.id == j)
          (bound_row (version_of r.filename)) (λ x. refl) i xs h.found in
      let miss : (h.row.id == j) ≡ false =
        ground (arith, find_key-key (λ (x : Intent). x.id) i xs h.found) in
      record {
        row = h.row;
        found = rw (miss, if◌then◌else◌) at seen;
        base_version = h.base_version;
        pending = h.pending;
        gone = h.gone;
      }
]

-- What one round of the loop does.
record BindsOne (version_of : ℕ → ℕ) (j : ℕ) (js : List ℕ) (xs ys : List Intent) : Type 0 where
  row : Intent
  found : find_key (λ x. x.id) j xs ≡ some row
  gone : is_delete row.mutation_type ≡ true → version_of row.filename ≡ 0
  rest :
      bind_mutation_versions version_of js
        (update_where (λ x. x.id == j) (bound_row (version_of row.filename)) xs)
      ≡ ok ys

bind_mutation_versions-cons :
    (version_of : ℕ → ℕ) (j : ℕ) (js : List ℕ) (xs ys : List Intent)
    → bind_mutation_versions version_of (j ∷ js) xs ≡ ok ys
    → BindsOne version_of j js xs ys
unfolding bind_mutation_versions
bind_mutation_versions-cons version_of j js xs ys e =
    elim (Option-cases (find_key (λ (x : Intent). x.id) j xs)) [
      | inl absent ↦ cc (rw (absent, bind_mutation_versions) at e)
      | inr (r, found) ↦
          let e0 = rw (found, bind_mutation_versions) at e in
          let (checked, e1) =
            require-eq-ok (not (is_delete r.mutation_type && not (version_of r.filename == 0)))
              value_error _ e0 in
          record { row = r; found = found; gone = λ deleted. ground arith; rest = e1 }
    ]

bind_mutation_versions-keeps :
    (version_of : ℕ → ℕ) (i : ℕ) (ids : List ℕ) (xs ys : List Intent)
    → IsBound version_of i xs
    → bind_mutation_versions version_of ids xs ≡ ok ys
    → IsBound version_of i ys
unfolding bind_mutation_versions
bind_mutation_versions-keeps version_of i [] xs ys h e = rw (ok-injective (sym e)) h
bind_mutation_versions-keeps version_of i (j ∷ js) xs ys h e =
    let b = bind_mutation_versions-cons version_of j js xs ys e in
    bind_mutation_versions-keeps version_of i js _ ys
      (bind_one-IsBound version_of i j xs b.row b.found (λ _. h) b.gone) b.rest

-- A successful binding binds every intent that it was given.
pub bind_mutation_versions-IsBound :
    (version_of : ℕ → ℕ) (ids : List ℕ) (xs ys : List Intent)
    → bind_mutation_versions version_of ids xs ≡ ok ys
    → All (λ i. IsBound version_of i ys) ids
bind_mutation_versions-IsBound version_of [] xs ys e = tt
bind_mutation_versions-IsBound version_of (j ∷ js) xs ys e =
    let b = bind_mutation_versions-cons version_of j js xs ys e in
    (
      bind_mutation_versions-keeps version_of j js _ ys
          (bind_one-IsBound version_of j j xs b.row b.found (λ other. absurd (other refl)) b.gone)
          b.rest,
      bind_mutation_versions-IsBound version_of js _ ys b.rest,
    )

-- It changes nothing that an intent is for.
pub bind_mutation_versions-IsFor :
    (version_of : ℕ → ℕ) (f : ℕ) (t : MutationType) (payload : Option ℕ) (i : ℕ) (ids : List ℕ)
    (xs ys : List Intent)
    → IsFor f t payload i xs
    → bind_mutation_versions version_of ids xs ≡ ok ys
    → IsFor f t payload i ys
unfolding bind_mutation_versions
bind_mutation_versions-IsFor version_of f t payload i [] xs ys h e = rw (ok-injective (sym e)) h
bind_mutation_versions-IsFor version_of f t payload i (j ∷ js) xs ys h e =
    let b = bind_mutation_versions-cons version_of j js xs ys e in
    bind_mutation_versions-IsFor version_of f t payload i js _ ys
      (update-IsFor (λ x. x.id == j) (bound_row (version_of b.row.filename)) (λ x. refl) f t payload
        i xs h (λ _. (h.filename, h.mutation_type, h.payload_text)))
      b.rest
