-- ===== src/Outbox/Latest/Enqueue.antt =====
-- vector_lake/db_store.py, `enqueue_mutation`: the live intents of a page.
use vector_lake.Prelude.{
  ℕ, ◌+◌, ◌≤◌, ◌≡◌, ◌≢◌, true, false, Option, none, some, List, [], ◌∷◌, ◌++◌, All, arith, ◌==◌,
  ==_iff, if◌then◌else◌, Bool-cases, inl, inr, refl, ◌∙◌, ap, ◌⊎◌,
}
use vector_lake.Prelude.Sql.{
  update_where, sql_eq, All-update_where, All-imp, find_key, All-fetch_one,
}
use vector_lake.Prelude.Keys.{IsKeyed, All-append, All-both, All-found, All-same, All-ne_of_none}
use vector_lake.Prelude.Result.{ok}
use vector_lake.Outbox.{Intent, MutationType, ValidationMode, is_active, has_newer}
use vector_lake.Outbox.Enqueue.{
  max_revision, inserted_row, revived_row, write_intent, find_existing, enqueue_over,
  enqueue_mutation,
}
use vector_lake.Outbox.Latest.{OnlyLatestActive, Leads, supersede_older-OnlyLatestActive}

-- No row of the page has a revision above the greatest.
max_revision_bounds :
    (f : ℕ) (xs : List Intent)
    → All (λ y. y.filename ≡ f → y.projection_generation ≤ max_revision f xs) xs
unfolding max_revision
max_revision_bounds f [] = tt
max_revision_bounds f (x ∷ xs) = (
  λ e. ground arith,
  All-imp (λ y. y.filename ≡ f → y.projection_generation ≤ max_revision f xs)
      (λ y. y.filename ≡ f → y.projection_generation ≤ max_revision f (x ∷ xs))
      (λ y h e. ground (arith, h e)) xs (max_revision_bounds f xs),
)

has_newer-snoc :
    (xs : List Intent) (x y : Intent)
    → y.filename ≢ x.filename
    → has_newer (xs ++ x ∷ []) y ≡ has_newer xs y
unfolding has_newer
has_newer-snoc [] x y h = ground arith
has_newer-snoc (z ∷ xs) x y h = simp (has_newer-snoc xs x y h)

-- Rows of other pages do not notice that a row of this one was revived.
has_newer-revived :
    (f i : ℕ) (g : Intent → Intent) (xs : List Intent) (y : Intent)
    → ((x : Intent) → (g x).filename ≡ x.filename)
    → All (λ x. x.id ≡ i → x.filename ≡ f) xs
    → y.filename ≢ f
    → has_newer (update_where (λ x. x.id == i) g xs) y ≡ has_newer xs y
unfolding has_newer update_where
has_newer-revived f i g [] y same page other = refl
has_newer-revived f i g (x ∷ xs) y same page other = elim (Bool-cases (x.id == i)) [
  | inl hit ↦ ground (
    arith,
    page.0 ((==_iff x.id i).0 hit),
    same x,
    has_newer-revived f i g xs y same page.1 other,
  )
  | inr miss ↦ rw (miss, if◌then◌else◌) (simp (has_newer-revived f i g xs y same page.1 other))
]

insert-OnlyLatestActive :
    (i f : ℕ) (t : MutationType) (payload key : Option ℕ) (mode : ValidationMode) (now : ℕ)
    (xs : List Intent)
    → find_key (λ x. x.id) i xs ≡ none
    → OnlyLatestActive xs
    → OnlyLatestActive (write_intent f t payload key mode i now none xs).1
unfolding write_intent
insert-OnlyLatestActive i f t payload key mode now xs new only =
    let rev = max_revision f xs + 1 in
    let row = inserted_row i f t payload key mode rev now in
    supersede_older-OnlyLatestActive i f rev (xs ++ row ∷ [])
      (All-append (Leads i f rev) xs (row ∷ [])
        (All-imp (λ y. (y.id ≢ i) × (y.filename ≡ f → y.projection_generation ≤ max_revision f xs))
          (Leads i f rev) (λ y both here. inr (both.0, omega (arith, both.1 here))) xs
          (All-both (λ y. y.id ≢ i)
            (λ y. y.filename ≡ f → y.projection_generation ≤ max_revision f xs) xs
            (All-ne_of_none (λ x. x.id) i xs new) (max_revision_bounds f xs)))
        (λ _. inl (refl, refl), tt))
      (All-append
        (λ y. y.filename ≢ f → is_active y.status ≡ true → has_newer (xs ++ row ∷ []) y ≡ false) xs
        (row ∷ [])
        (All-imp (λ y. is_active y.status ≡ true → has_newer xs y ≡ false)
          (λ y. y.filename ≢ f → is_active y.status ≡ true → has_newer (xs ++ row ∷ []) y ≡ false)
          (λ y h other on. has_newer-snoc xs row y other ∙ h on) xs only)
        (λ other _. absurd (other refl), tt))

revive-OnlyLatestActive :
    (fresh f : ℕ) (t : MutationType) (payload key : Option ℕ) (mode : ValidationMode) (now : ℕ)
    (xs : List Intent) (r : Intent)
    → IsKeyed (λ x. x.id) xs
    → find_key (λ x. x.id) r.id xs ≡ some r
    → r.filename ≡ f
    → OnlyLatestActive xs
    → OnlyLatestActive (write_intent f t payload key mode fresh now (some r) xs).1
unfolding write_intent
revive-OnlyLatestActive fresh f t payload key mode now xs r keyed found page only =
    let rev = max_revision f xs + 1 in
    let g = revived_row now payload mode rev in
    let on_page : All (λ x. x.id ≡ r.id → x.filename ≡ f) xs =
      All-imp (λ x. x.id ≡ r.id → x ≡ r) (λ x. x.id ≡ r.id → x.filename ≡ f)
        (λ x same e. ap (λ (z : Intent). z.filename) (same e) ∙ page) xs
        (All-same (λ x. x.id) r.id xs keyed found) in
    let ys = update_where (λ x. x.id == r.id) g xs in
    let Bounded : Intent → Type 0 =
      λ y. y.filename ≡ f → y.projection_generation ≤ max_revision f xs in
    let Only : Intent → Type 0 =
      λ y. (y.id ≡ r.id → y.filename ≡ f) × (is_active y.status ≡ true → has_newer xs y ≡ false) in
    supersede_older-OnlyLatestActive r.id f rev ys
      (All-update_where Bounded (Leads r.id f rev) (λ x. x.id == r.id) g
        (λ x _ hit here. inl ((==_iff x.id r.id).0 hit, refl))
        (λ x bound miss here. inr (λ e. ground arith, omega (arith, bound here))) xs
        (max_revision_bounds f xs))
      (All-update_where Only
        (λ y. y.filename ≢ f → is_active y.status ≡ true → has_newer ys y ≡ false)
        (λ x. x.id == r.id) g (λ x o hit other on. absurd (other (o.0 ((==_iff x.id r.id).0 hit))))
        (λ x o miss other on. has_newer-revived f r.id g xs x (λ z. refl) on_page other ∙ o.1 on) xs
        (All-both (λ y. y.id ≡ r.id → y.filename ≡ f)
          (λ y. is_active y.status ≡ true → has_newer xs y ≡ false) xs on_page only))

pub find_existing-found :
    (key : Option ℕ) (xs : List Intent) (r : Intent)
    → IsKeyed (λ x. x.id) xs
    → find_existing key xs ≡ some r
    → find_key (λ x. x.id) r.id xs ≡ some r
find_existing-found none xs r keyed e = cc
find_existing-found (some key) xs r keyed e =
    (All-fetch_one (λ y. find_key (λ x. x.id) y.id xs ≡ some y)
      (λ x. sql_eq x.idempotency_key (some key)) xs (All-found (λ x. x.id) xs keyed)
      (ground arith)).0

enqueue_over-OnlyLatestActive :
    (f : ℕ) (t : MutationType) (payload key : Option ℕ) (mode : ValidationMode) (i now : ℕ)
    (existing : Option Intent) (xs : List Intent) (answer : ℕ × List Intent)
    → find_existing key xs ≡ existing
    → IsKeyed (λ x. x.id) xs
    → find_key (λ x. x.id) i xs ≡ none
    → OnlyLatestActive xs
    → enqueue_over f t payload key mode i now existing xs ≡ ok answer
    → OnlyLatestActive answer.1
unfolding enqueue_over
enqueue_over-OnlyLatestActive f t payload key mode i now none xs answer look keyed new only e =
    let same : answer ≡ write_intent f t payload key mode i now none xs = ground arith in
    rw same (insert-OnlyLatestActive i f t payload key mode now xs new only)
enqueue_over-OnlyLatestActive f t payload key mode i now (some r) xs answer look keyed new only e =
    let page : r.filename ≡ f = ground arith in
    let revived =
      revive-OnlyLatestActive i f t payload key mode now xs r keyed
        (find_existing-found key xs r keyed look) page only in
    let cases : (answer.1 ≡ xs) ⊎ (answer ≡ write_intent f t payload key mode i now (some r) xs) =
      ground arith in
    elim cases [ inl kept ↦ rw kept only | inr written ↦ rw written revived ]

-- Every successful `enqueue_mutation`, be it a new intent, a repeated one or the revival of an old
-- one, leaves a table in which each live intent (pending, processing or failed) is the newest of
-- its page. Ids are unique and the id of an insertion is new.
pub enqueue_mutation-OnlyLatestActive :
    (filename : ℕ) (t : MutationType) (payload key : Option ℕ) (mode : ValidationMode)
    (fresh_id now : ℕ) (intents : List Intent) (answer : ℕ × List Intent)
    → IsKeyed (λ x. x.id) intents
    → find_key (λ x. x.id) fresh_id intents ≡ none
    → OnlyLatestActive intents
    → enqueue_mutation filename t payload key mode fresh_id now intents ≡ ok answer
    → OnlyLatestActive answer.1
unfolding enqueue_mutation
enqueue_mutation-OnlyLatestActive filename t payload key mode fresh_id now intents answer keyed new
      only e =
    enqueue_over-OnlyLatestActive filename t payload key mode fresh_id now
      (find_existing key intents) intents answer refl keyed new only (ground arith)
