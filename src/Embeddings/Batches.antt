-- ===== src/Embeddings/Batches.antt =====
-- vector_lake/embedding_scheduler.py, `_batch_items`: the items and sizes of batches.
use vector_lake.Prelude.{
  ℕ, ◌+◌, ◌≤◌, ◌≡◌, ◌≢◌, ◌⊎◌, true, false, List, [], ◌∷◌, ◌++◌, All, arith, if◌then◌else◌,
  Bool-cases, inl, inr, refl, ◌∙◌, ap, max, length, length-snoc,
}
use vector_lake.Embeddings.{
  EmbeddingRateConfig, Item, item_tokens, batch_token_cap, is_full, batch_each, batch_items,
}

abbrev pub flatten : List (List Item) → List Item
flatten [] = []
flatten (b ∷ bs) = b ++ flatten bs

abbrev pub batch_tokens : List Item → ℕ
batch_tokens [] = 0
batch_tokens (i ∷ is) = item_tokens i + batch_tokens is

-- At most the items allowed, and at most the tokens allowed unless it is one item alone.
pub record IsBounded (c : EmbeddingRateConfig) (b : List Item) : Type 0 where
  pub some_items : 1 ≤ length b
  pub few_items : length b ≤ max 1 c.max_batch_items
  pub few_tokens : (batch_tokens b ≤ batch_token_cap c) ⊎ (length b ≡ 1)

snoc-append : (xs : List Item) (i : Item) (ys : List Item) → (xs ++ i ∷ []) ++ ys ≡ xs ++ i ∷ ys
snoc-append [] i ys = refl
snoc-append (x ∷ xs) i ys = ap (λ zs. x ∷ zs) (snoc-append xs i ys)

append-nil : (xs : List Item) → xs ++ [] ≡ xs
append-nil [] = refl
append-nil (x ∷ xs) = ap (λ zs. x ∷ zs) (append-nil xs)

tokens-snoc :
    (xs : List Item) (i : Item) → batch_tokens (xs ++ i ∷ []) ≡ batch_tokens xs + item_tokens i
tokens-snoc [] i = omega arith
tokens-snoc (x ∷ xs) i = omega (arith, tokens-snoc xs i)

batch_each-flatten :
    (c : EmbeddingRateConfig) (items current : List Item) (tokens : ℕ)
    → flatten (batch_each c items current tokens) ≡ current ++ items
unfolding batch_each
batch_each-flatten c [] [] tokens = refl
batch_each-flatten c [] (x ∷ current) tokens = refl
batch_each-flatten c (i ∷ is) current tokens = elim (Bool-cases (is_full c current tokens i)) [
  | inl full ↦
      rw (full, if◌then◌else◌)
        (ap (λ zs. current ++ zs) (batch_each-flatten c is (i ∷ []) (item_tokens i)))
  | inr room ↦
      rw (room, if◌then◌else◌)
        (batch_each-flatten c is (current ++ i ∷ []) (tokens + item_tokens i)
          ∙ snoc-append current i is)
]

-- What the loop knows of its current batch.
abbrev Fits : EmbeddingRateConfig → List Item → ℕ → Type 0
Fits c current tokens =
    (tokens ≡ batch_tokens current) × ((length current ≡ 0) ⊎ IsBounded c current)

one-IsBounded : (c : EmbeddingRateConfig) (i : Item) → IsBounded c (i ∷ [])
one-IsBounded c i = record {
  some_items = omega arith;
  few_items = omega arith;
  few_tokens = inr refl;
}

grown-IsBounded :
    (c : EmbeddingRateConfig) (current : List Item) (tokens : ℕ) (i : Item)
    → is_full c current tokens i ≡ false
    → Fits c current tokens
    → IsBounded c (current ++ i ∷ [])
grown-IsBounded c [] tokens i room fits = one-IsBounded c i
grown-IsBounded c (x ∷ current) tokens i room (sum, _) =
    let n = length-snoc current i in
    let t = tokens-snoc current i in
    record {
      some_items = omega arith;
      few_items = ground (arith, n, room);
      few_tokens = inl (ground (arith, t, sum, room));
    }

full_nonempty :
    (c : EmbeddingRateConfig) (current : List Item) (tokens : ℕ) (i : Item)
    → is_full c current tokens i ≡ true
    → length current ≢ 0
full_nonempty c [] tokens i full e = cc
full_nonempty c (x ∷ current) tokens i full e = omega (arith, e)

batch_each-IsBounded :
    (c : EmbeddingRateConfig) (items current : List Item) (tokens : ℕ)
    → Fits c current tokens
    → All (IsBounded c) (batch_each c items current tokens)
unfolding batch_each
batch_each-IsBounded c [] [] tokens fits = tt
batch_each-IsBounded c [] (x ∷ current) tokens fits = elim fits.1 [
  | inl none_yet ↦ absurd (omega arith)
  | inr b ↦ (b, tt)
]
batch_each-IsBounded c (i ∷ is) current tokens fits =
    elim (Bool-cases (is_full c current tokens i)) [
      | inl full ↦
          rw (full, if◌then◌else◌)
            (
              elim fits.1 [
                | inl none_yet ↦ absurd (full_nonempty c current tokens i full none_yet)
                | inr b ↦ b
              ],
              batch_each-IsBounded c is (i ∷ []) (item_tokens i)
                  (omega arith, inr (one-IsBounded c i)),
            )
      | inr room ↦
          rw (room, if◌then◌else◌)
            (batch_each-IsBounded c is (current ++ i ∷ []) (tokens + item_tokens i) (
              omega (arith, tokens-snoc current i, fits.0),
              inr (grown-IsBounded c current tokens i room fits),
            ))
    ]

-- The batches, one after the other, are the items in their order; each batch has an item, at most
-- `max_batch_items` items (one, if that is 0), and at most the tokens allowed unless it is one item
-- alone.
pub batch_items-partition :
    (c : EmbeddingRateConfig) (items : List Item)
    → (flatten (batch_items c items) ≡ items) × All (IsBounded c) (batch_items c items)
unfolding batch_items
batch_items-partition c items =
    (batch_each-flatten c items [] 0, batch_each-IsBounded c items [] 0 (refl, inl refl))
