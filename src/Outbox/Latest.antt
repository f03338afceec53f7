-- ===== src/Outbox/Latest.antt =====
-- vector_lake/db_store.py: the live intents of a page, and their order.
pub mod Enqueue
use vector_lake.Prelude.{
  ℕ, ◌≤◌, ◌<◌, ◌≡◌, ◌≢◌, Bool, true, false, ◌&&◌, ◌||◌, not, Option, none, some, List, [], ◌∷◌,
  ◌++◌, All, arith, ltb, ◌==◌, ==_iff, if◌then◌else◌, Bool-cases, inl, inr, refl, subst, sym, ◌∙◌,
  ◌⊎◌, ap,
}
use vector_lake.Prelude.Sql.{update_where, All-update_where, All-imp, find_key, All-intro}
use vector_lake.Prelude.Keys.{Forall2, All-Forall2, Forall2-update_where, All-both}
use vector_lake.Prelude.Result.{ok, err, ◌>>=◌}
use vector_lake.Outbox.{
  Intent, pending, processing, completed, failed, superseded, is_active, is_newer, is_processing,
  has_newer,
}
use vector_lake.Outbox.Enqueue.{superseded_row, supersede_older}
use vector_lake.Outbox.Writes.{is_held, completed_row, ended_row}

-- A live intent has no newer one of its page in the table.
abbrev pub OnlyLatestActive : List Intent → Type 0
OnlyLatestActive intents =
    All (λ x. is_active x.status ≡ true → has_newer intents x ≡ false) intents

-- A change of a row that keeps its place in the order of its page, and wakes nothing.
pub record SamePlace (x y : Intent) : Type 0 where
  pub id : y.id ≡ x.id
  pub filename : y.filename ≡ x.filename
  pub revision : y.projection_generation ≡ x.projection_generation
  pub active : is_active y.status ≡ true → is_active x.status ≡ true

pub SamePlace-refl : (x : Intent) → SamePlace x x
SamePlace-refl x = record { id = refl; filename = refl; revision = refl; active = λ e. e }

pub SamePlace-trans : (x y z : Intent) → SamePlace x y → SamePlace y z → SamePlace x z
SamePlace-trans x y z p q = record {
  id = q.id ∙ p.id;
  filename = q.filename ∙ p.filename;
  revision = q.revision ∙ p.revision;
  active = λ e. p.active (q.active e);
}

pub has_newer-SamePlace :
    (xs ys : List Intent) (x y : Intent)
    → Forall2 SamePlace xs ys
    → SamePlace x y
    → has_newer ys y ≡ has_newer xs x
unfolding has_newer
has_newer-SamePlace [] [] x y f s = refl
has_newer-SamePlace [] (w ∷ ys) x y f s = absurd f
has_newer-SamePlace (z ∷ xs) [] x y f s = absurd f
has_newer-SamePlace (z ∷ xs) (w ∷ ys) x y f s = simp (
  f.0.id,
  f.0.filename,
  f.0.revision,
  s.id,
  s.filename,
  s.revision,
  has_newer-SamePlace xs ys x y f.1 s,
)

-- Such changes keep the invariant.
pub SamePlace-OnlyLatestActive :
    (xs ys : List Intent) → Forall2 SamePlace xs ys → OnlyLatestActive xs → OnlyLatestActive ys
SamePlace-OnlyLatestActive xs ys f =
    All-Forall2 SamePlace (λ x. is_active x.status ≡ true → has_newer xs x ≡ false)
      (λ y. is_active y.status ≡ true → has_newer ys y ≡ false)
      (λ x y s only on. has_newer-SamePlace xs ys x y f s ∙ only (s.active on)) xs ys f

-- A new newest intent `i` of the page `f`, with revision `rev`, among the rows.
abbrev pub Leads : ℕ → ℕ → ℕ → Intent → Type 0
Leads i f rev y =
    y.filename ≡ f
    → ((y.id ≡ i) × (y.projection_generation ≡ rev))
      ⊎ ((y.id ≢ i) × (y.projection_generation < rev))

leader-is-latest :
    (i f rev : ℕ) (xs : List Intent) (y : Intent)
    → All (Leads i f rev) xs
    → y.filename ≡ f
    → y.id ≡ i
    → y.projection_generation ≡ rev
    → has_newer xs y ≡ false
unfolding has_newer
leader-is-latest i f rev [] y leads a b c = refl
leader-is-latest i f rev (x ∷ xs) y leads a b c = elim (Bool-cases (x.filename == y.filename)) [
  | inl same ↦ ground (arith, leads.0 (ground arith), leader-is-latest i f rev xs y leads.1 a b c)
  | inr other ↦ rw other (leader-is-latest i f rev xs y leads.1 a b c)
]

superseded_row-SamePlace : (i : ℕ) (x : Intent) → SamePlace x (superseded_row i x)
superseded_row-SamePlace i x = record {
  id = refl;
  filename = refl;
  revision = refl;
  active = λ e. cc;
}

-- A live row that was not superseded has no newer one.
survivor-is-latest :
    (i f rev : ℕ) (xs : List Intent) (x : Intent)
    → All (Leads i f rev) xs
    → Leads i f rev x
    → (x.filename ≢ f → is_active x.status ≡ true → has_newer xs x ≡ false)
    → (x.filename == f && not (x.id == i) && is_active x.status && ltb x.projection_generation rev)
      ≡ false
    → is_active x.status ≡ true
    → has_newer xs x ≡ false
survivor-is-latest i f rev xs x leads lead other kept on = elim (Bool-cases (x.filename == f)) [
  | inl same ↦
      let here : x.filename ≡ f = (==_iff x.filename f).0 same in
      elim (lead here) [
        | inl (a, b) ↦ leader-is-latest i f rev xs x leads here a b
        | inr (a, b) ↦ absurd (ground arith)
      ]
  | inr apart ↦ other (λ e. ground arith) on
]

-- After the older live intents of the page gave way only newest ones are live: on this page by the
-- leader's revision, on the others because they were before.
pub supersede_older-OnlyLatestActive :
    (i f rev : ℕ) (xs : List Intent)
    → All (Leads i f rev) xs
    → All (λ y. y.filename ≢ f → is_active y.status ≡ true → has_newer xs y ≡ false) xs
    → OnlyLatestActive (supersede_older i f rev xs)
unfolding supersede_older
supersede_older-OnlyLatestActive i f rev xs leads others =
    let gone : Intent → Bool = λ x.
      x.filename == f && not (x.id == i) && is_active x.status && ltb x.projection_generation rev in
    let ys = update_where gone (superseded_row i) xs in
    let Other : Intent → Type 0 =
      λ y. y.filename ≢ f → is_active y.status ≡ true → has_newer xs y ≡ false in
    let placed : Forall2 SamePlace xs ys =
      Forall2-update_where SamePlace (λ (x : Intent). Unit {0}) gone (superseded_row i)
        (λ x _ _. superseded_row-SamePlace i x) SamePlace-refl xs
        (All-intro (λ (x : Intent). Unit {0}) (λ x. tt) xs) in
    All-update_where (λ y. Leads i f rev y × Other y)
      (λ y. is_active y.status ≡ true → has_newer ys y ≡ false) gone (superseded_row i)
      (λ x _ _ on. cc)
      (λ x both kept on.
        has_newer-SamePlace xs ys x x placed (SamePlace-refl x)
        ∙ survivor-is-latest i f rev xs x leads both.0 both.1 kept on)
      xs (All-both (Leads i f rev) Other xs leads others)
