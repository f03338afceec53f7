-- ===== src/Grams.antt =====
-- vector_lake/memory_gram_index.py: the grams of a memory and the weights of the fields, and
-- vector_lake/governance_store.py, `_memory_relevance`: the score of the full scan.
pub mod Postings
pub mod Roundtrip
pub mod Masks
pub mod Relevance
mod Examples
use vector_lake.Prelude.{
  ℕ, ◌+◌, ◌*◌, ◌/◌, ◌%◌, Bool, true, false, ◌&&◌, ◌||◌, List, [], ◌∷◌, ◌++◌, leb, ltb, ◌==◌,
  if◌then◌else◌, length, text_eq,
}

-- The three texts of a memory that are indexed and its type, in lower case, and its document number.
pub record Memory : Type 0 where
  pub doc : ℕ
  pub key_blob : List ℕ
  pub text_blob : List ℕ
  pub page_blob : List ℕ
  pub type_blob : List ℕ

-- [a-z0-9]
abbrev pub is_run_char : ℕ → Bool
is_run_char c = leb b'0' c && leb c b'9' || leb b'a' c && leb c b'z'

abbrev pub add_run : List ℕ → List (List ℕ) → List (List ℕ)
add_run run runs = if leb 3 (length run) then run ∷ runs else runs

-- _LONG_RUN.findall(blob), with the run that has begun.
unfoldable pub runs_from : List ℕ → List ℕ → List (List ℕ)
runs_from run [] = add_run run []
runs_from run (c ∷ cs) =
    let longer = runs_from (run ++ c ∷ []) cs in
    let ended = add_run run (runs_from [] cs) in if is_run_char c then longer else ended

unfoldable pub long_runs : List ℕ → List (List ℕ)
unfolding runs_from
long_runs blob = runs_from [] blob

abbrev pub characters : List ℕ → List (List ℕ)
characters [] = []
characters (c ∷ cs) = (c ∷ []) ∷ characters cs

abbrev pub bigrams : List ℕ → List (List ℕ)
bigrams [] = []
bigrams (c ∷ []) = []
bigrams (c ∷ d ∷ cs) = (c ∷ d ∷ []) ∷ bigrams (d ∷ cs)

-- `seen`
abbrev pub seen_grams : List ℕ → List (List ℕ)
seen_grams blob = characters blob ++ (bigrams blob ++ long_runs blob)

-- mask | bit, for a power of two
abbrev pub or_bit : ℕ → ℕ → ℕ
or_bit bit mask = if mask / bit % 2 == 1 then mask else mask + bit

abbrev pub GramTable : Type 0
GramTable = List (List ℕ × ℕ)

-- grams.get(gram, 0)
unfoldable pub mask_of : List ℕ → GramTable → ℕ
mask_of g [] = 0
mask_of g ((h, mask) ∷ table) = let rest = mask_of g table in if text_eq h g then mask else rest

-- grams[gram] = grams.get(gram, 0) | bit
unfoldable pub mark : ℕ → List ℕ → GramTable → GramTable
mark bit g [] = (g, bit) ∷ []
mark bit g ((h, mask) ∷ table) =
    let rest = mark bit g table in
    if text_eq h g then (h, or_bit bit mask) ∷ table else (h, mask) ∷ rest

unfoldable pub mark_each : ℕ → List (List ℕ) → GramTable → GramTable
unfolding mark
mark_each bit [] table = table
mark_each bit (g ∷ gs) table = mark_each bit gs (mark bit g table)

unfoldable pub extract_grams : List ℕ → List ℕ → List ℕ → GramTable
unfolding mark_each long_runs
extract_grams key_blob text_blob page_blob =
    mark_each 4 (seen_grams page_blob)
      (mark_each 2 (seen_grams text_blob) (mark_each 1 (seen_grams key_blob) []))

-- FIELD_WEIGHTS
abbrev pub field_weight : ℕ → ℕ
field_weight mask = if ltb mask 8 then 4 * (mask % 2) + 3 * (mask / 2 % 2) + mask / 4 % 2 else 0

abbrev pub starts_with : List ℕ → List ℕ → Bool
starts_with [] text = true
starts_with (a ∷ as') [] = false
starts_with (a ∷ as') (c ∷ cs) = a == c && starts_with as' cs

-- term in text
abbrev pub occurs : List ℕ → List ℕ → Bool
occurs term [] = starts_with term []
occurs term (c ∷ cs) = starts_with term (c ∷ cs) || occurs term cs

-- The weight of a match in the type, which the postings do not know.
abbrev pub type_weight : List ℕ → Memory → ℕ
type_weight term m = if occurs term m.type_blob then 1 else 0

-- `_memory_relevance`, the weights of one term with the factor 1.
unfoldable pub memory_relevance : List ℕ → Memory → ℕ
memory_relevance term m =
    (if occurs term m.key_blob then field_weight 1 else 0)
    + (if occurs term m.text_blob then field_weight 2 else 0)
    + (if occurs term m.page_blob then field_weight 4 else 0)
    + type_weight term m
