-- ===== src/Grams/Relevance.antt =====
-- vector_lake/memory_gram_index.py, `_accumulate`: the index scores short terms as the full scan.
use vector_lake.Prelude.{ℕ, ◌<◌, ◌||◌, List, [], ◌∷◌, All, ◌==◌, if◌then◌else◌, contains}
use vector_lake.Grams.{Memory, mask_of, field_weight}
use vector_lake.Grams.Postings.{Accumulator, credit}
use vector_lake.Grams.Masks.{grams_of}

-- The documents are in strictly ascending order of their numbers.
abbrev pub AreOrdered : List Memory → Type 0
AreOrdered [] = Unit
AreOrdered (m ∷ ms) = All (λ n. m.doc < n.doc) ms × AreOrdered ms

-- The posting list of a gram: the documents that have it, with the mask of the fields that do.
unfoldable pub postings_of : List ℕ → List Memory → List (ℕ × ℕ)
postings_of g [] = []
postings_of g (m ∷ ms) =
    let rest = postings_of g ms in
    let mask = mask_of g (grams_of m) in if mask == 0 then rest else (m.doc, mask) ∷ rest

-- The loop, over the entries of the blob.
abbrev credit_one : List ℕ → ℕ → ℕ → Accumulator → Accumulator
credit_one skip doc mask acc =
    if contains skip doc || mask == 0 then acc else credit field_weight doc mask acc

credit_each : List ℕ → List (ℕ × ℕ) → Accumulator → Accumulator
credit_each skip [] acc = acc
credit_each skip ((doc, mask) ∷ es) acc = credit_each skip es (credit_one skip doc mask acc)

-- What the index credits a document for a gram.
abbrev credited : List ℕ → List ℕ → Memory → ℕ
credited skip g m = if contains skip m.doc then 0 else field_weight (mask_of g (grams_of m))
