-- ===== src/Embeddings/Clients/Changes.antt =====
-- vector_lake/embedding_scheduler.py, `_ClientManager.generations`: which generations are on the list
-- after the changes that the blocks make to it.
use vector_lake.Prelude.{
  ℕ, ◌≡◌, Bool, true, false, not, ◌||◌, ◌==◌, arith, if◌then◌else◌, List, [], ◌∷◌, ◌++◌, map,
  length, refl, Bool-cases, inl, inr, some, ◌≢◌,
}
use vector_lake.Prelude.Sql.{select, fetch_one, find_key, All-select}
use vector_lake.Prelude.Keys.{IsKeyed, Forall2}
use vector_lake.Embeddings.Clients.{ClientGeneration}

abbrev pub is_listed : ℕ → List ClientGeneration → Bool
is_listed i [] = false
is_listed i (g ∷ gens) = g.id == i || is_listed i gens

abbrev pub SameId : ClientGeneration → ClientGeneration → Type 0
SameId g h = h.id ≡ g.id

pub Forall2-map :
    (f : ClientGeneration → ClientGeneration)
    → ((g : ClientGeneration) → SameId g (f g))
    → (gens : List ClientGeneration) → Forall2 SameId gens (map f gens)
Forall2-map f same [] = tt
Forall2-map f same (g ∷ gens) = (same g, Forall2-map f same gens)

pub Forall2-is_listed :
    (i : ℕ) (gens later : List ClientGeneration)
    → Forall2 SameId gens later
    → is_listed i later ≡ is_listed i gens
Forall2-is_listed i [] [] r = refl
Forall2-is_listed i [] (h ∷ later) r = absurd r
Forall2-is_listed i (g ∷ gens) [] r = absurd r
Forall2-is_listed i (g ∷ gens) (h ∷ later) r = rw (r.0, Forall2-is_listed i gens later r.1) refl

pub Forall2-length :
    (gens later : List ClientGeneration) → Forall2 SameId gens later → length later ≡ length gens
Forall2-length [] [] r = refl
Forall2-length [] (h ∷ later) r = absurd r
Forall2-length (g ∷ gens) [] r = absurd r
Forall2-length (g ∷ gens) (h ∷ later) r = omega (arith, Forall2-length gens later r.1)

pub is_listed-snoc :
    (i : ℕ) (gens : List ClientGeneration) (y : ClientGeneration)
    → is_listed i gens ≡ true
    → is_listed i (gens ++ y ∷ []) ≡ true
is_listed-snoc i [] y h = cc
is_listed-snoc i (g ∷ gens) y h = ground (arith, is_listed-snoc i gens y, h)

pub is_listed-select :
    (i j : ℕ) (gens : List ClientGeneration)
    → (i == j) ≡ false
    → is_listed j (select (λ g. not (g.id == i)) gens) ≡ is_listed j gens
unfolding select
is_listed-select i j [] e = refl
is_listed-select i j (g ∷ gens) e = ground (arith, is_listed-select i j gens e, e)

pub IsKeyed-select {ℓ} :
    {A : Type ℓ} (key : A → ℕ) (p : A → Bool) (xs : List A)
    → IsKeyed key xs
    → IsKeyed key (select p xs)
unfolding select
IsKeyed-select key p [] h = tt
IsKeyed-select key p (x ∷ xs) h =
    let rest = IsKeyed-select key p xs h.1 in
    elim (Bool-cases (p x)) [
      | inl e ↦
          rw (e, if◌then◌else◌)
            (
              All-select (λ y. key y ≢ key x) (λ y. key y ≢ key x) p (λ y other _. other) xs h.0,
              rest,
            )
      | inr e ↦ rw (e, if◌then◌else◌) rest
    ]

-- A lookup finds a generation that is on the list.
pub find_key-listed :
    (i : ℕ) (gens : List ClientGeneration)
    → is_listed i gens ≡ true
    → (g : ClientGeneration) × (find_key (λ x. x.id) i gens ≡ some g)
unfolding fetch_one
find_key-listed i [] e = cc
find_key-listed i (g ∷ gens) e = elim (Bool-cases (g.id == i)) [
  | inl same ↦ (g, rw (same, if◌then◌else◌) refl)
  | inr other ↦
      let (h, found) = find_key-listed i gens (rw other at e) in
      (h, rw (other, if◌then◌else◌) found)
]

pub listed_of_found :
    (i : ℕ) (gens : List ClientGeneration) {g : ClientGeneration}
    → find_key (λ x. x.id) i gens ≡ some g
    → is_listed i gens ≡ true
unfolding fetch_one
listed_of_found i [] e = cc
listed_of_found i (h ∷ gens) e = elim (Bool-cases (h.id == i)) [
  | inl same ↦ rw same refl
  | inr other ↦ rw other (listed_of_found i gens (rw (other, if◌then◌else◌) at e))
]
