-- ===== src/Grams/Masks.antt =====
-- vector_lake/memory_gram_index.py, `extract_grams`: the mask of a gram of one or two characters.
use vector_lake.Prelude.{
  ℕ, ◌+◌, ◌≤◌, ◌<◌, ◌≡◌, Bool, true, false, ◌||◌, List, [], ◌∷◌, ◌++◌, All, arith, leb,
  if◌then◌else◌, Bool-cases, inl, inr, refl, sym, ◌∙◌, ap, length, text_eq, text_eq-eq,
  text_eq_refl,
}
use vector_lake.Grams.{
  Memory, is_run_char, runs_from, long_runs, characters, bigrams, seen_grams, or_bit, GramTable,
  mask_of, mark, mark_each, extract_grams, field_weight, occurs, memory_relevance, type_weight,
}

abbrev pub has_gram : List ℕ → List (List ℕ) → Bool
has_gram g [] = false
has_gram g (h ∷ hs) = text_eq h g || has_gram g hs

-- A gram that is one of two texts that differ is not the other.
text_eq-apart : (g h j : List ℕ) → text_eq h g ≡ false → text_eq h j ≡ true → text_eq g j ≡ false
text_eq-apart g h j other same = elim (Bool-cases (text_eq g j)) [
  | inl e ↦
      let one : h ≡ g = text_eq-eq h j same ∙ sym (text_eq-eq g j e) in
      cc (other, ap (λ z. text_eq z g) one, text_eq_refl g)
  | inr e ↦ e
]

mask_of-mark :
    (bit : ℕ)
    → or_bit bit 0 ≡ bit
    → (g j : List ℕ) (table : GramTable)
    → mask_of j (mark bit g table)
      ≡ (if text_eq g j then or_bit bit (mask_of j table) else mask_of j table)
unfolding mask_of mark
mask_of-mark bit empty g j [] = elim (Bool-cases (text_eq g j)) [
  | inl same ↦ rw same (sym empty)
  | inr other ↦ rw other refl
]
mask_of-mark bit empty g j ((h, mask) ∷ table) =
    let rest = mask_of-mark bit empty g j table in
    elim (Bool-cases (text_eq h g)) [
      | inl same ↦
          let alike : text_eq g j ≡ text_eq h j =
            ap (λ z. text_eq z j) (sym (text_eq-eq h g same)) in
          elim (Bool-cases (text_eq h j)) [
            | inl hit ↦ rw (same, alike, hit, if◌then◌else◌) refl
            | inr miss ↦ rw (same, alike, miss, if◌then◌else◌) refl
          ]
      | inr other ↦ elim (Bool-cases (text_eq h j)) [
        | inl hit ↦ rw (other, text_eq-apart g h j other hit, hit, if◌then◌else◌) refl
        | inr miss ↦ rw (other, miss, if◌then◌else◌) rest
      ]
    ]

mask_of-mark_each :
    (bit : ℕ)
    → or_bit bit 0 ≡ bit
    → ((m : ℕ) → or_bit bit (or_bit bit m) ≡ or_bit bit m)
    → (j : List ℕ) (gs : List (List ℕ)) (table : GramTable)
    → mask_of j (mark_each bit gs table)
      ≡ (if has_gram j gs then or_bit bit (mask_of j table) else mask_of j table)
unfolding mark_each
mask_of-mark_each bit empty twice j [] table = refl
mask_of-mark_each bit empty twice j (g ∷ gs) table =
    mask_of-mark_each bit empty twice j gs (mark bit g table) ∙ elim (Bool-cases (text_eq g j)) [
      | inl hit ↦
          rw (mask_of-mark bit empty g j table, hit, if◌then◌else◌)
            (elim (Bool-cases (has_gram j gs)) [
              | inl again ↦ rw (again, if◌then◌else◌) (twice (mask_of j table))
              | inr once ↦ rw (once, if◌then◌else◌) refl
            ])
      | inr miss ↦ rw (mask_of-mark bit empty g j table, miss, if◌then◌else◌) refl
    ]

-- Which fields have the gram.
abbrev pub field_mask : Bool → Bool → Bool → ℕ
field_mask a b c = (if a then 1 else 0) + (if b then 2 else 0) + (if c then 4 else 0)

or_masks :
    (a b c : Bool)
    → (let first = if a then or_bit 1 0 else 0 in
        let second = if b then or_bit 2 first else first in if c then or_bit 4 second else second)
      ≡ field_mask a b c
or_masks true true true = refl
or_masks true true false = refl
or_masks true false true = refl
or_masks true false false = refl
or_masks false true true = refl
or_masks false true false = refl
or_masks false false true = refl
or_masks false false false = refl

pub mask_of-extract_grams :
    (j key text page : List ℕ)
    → mask_of j (extract_grams key text page)
      ≡ field_mask
          (has_gram j (seen_grams key))
          (has_gram j (seen_grams text))
          (has_gram j (seen_grams page))
unfolding extract_grams mask_of
mask_of-extract_grams j key text page =
    mask_of-mark_each 4 refl (λ m. ground arith) j (seen_grams page) _
    ∙ rw
        (
          mask_of-mark_each 2 refl (λ m. ground arith) j (seen_grams text)
              (mark_each 1 (seen_grams key) []),
          mask_of-mark_each 1 refl (λ m. ground arith) j (seen_grams key) [],
        )
        (or_masks (has_gram j (seen_grams key)) (has_gram j (seen_grams text))
          (has_gram j (seen_grams page)))

has_gram-append :
    (g : List ℕ) (as' bs : List (List ℕ))
    → has_gram g (as' ++ bs) ≡ (has_gram g as' || has_gram g bs)
has_gram-append g [] bs = refl
has_gram-append g (a ∷ as') bs = ground (arith, has_gram-append g as' bs)

-- The runs are longer than two characters.
runs_from-long : (run cs : List ℕ) → All (λ r. 3 ≤ length r) (runs_from run cs)
unfolding runs_from
runs_from-long run [] = elim (Bool-cases (leb 3 (length run))) [
  | inl e ↦ rw (e, if◌then◌else◌) (ground arith, tt)
  | inr e ↦ rw (e, if◌then◌else◌) tt
]
runs_from-long run (c ∷ cs) = elim (Bool-cases (is_run_char c)) [
  | inl on ↦ rw (on, if◌then◌else◌) (runs_from-long (run ++ c ∷ []) cs)
  | inr off ↦ elim (Bool-cases (leb 3 (length run))) [
    | inl e ↦ rw (off, e, if◌then◌else◌) (ground arith, runs_from-long [] cs)
    | inr e ↦ rw (off, e, if◌then◌else◌) (runs_from-long [] cs)
  ]
]

has_gram-longer :
    (g : List ℕ) (hs : List (List ℕ))
    → length g < 3
    → All (λ h. 3 ≤ length h) hs
    → has_gram g hs ≡ false
has_gram-longer g [] short long = refl
has_gram-longer g (h ∷ hs) short long =
    let apart : text_eq h g ≡ false = elim (Bool-cases (text_eq h g)) [
      | inl e ↦ absurd (omega (arith, ap length (text_eq-eq h g e), long.0))
      | inr e ↦ e
    ] in
    rw (apart, has_gram-longer g hs short long.1) refl

characters-one :
    (c : ℕ) (text : List ℕ) → has_gram (c ∷ []) (characters text) ≡ occurs (c ∷ []) text
characters-one c [] = refl
characters-one c (x ∷ xs) = ground (arith, characters-one c xs)

characters-two : (c d : ℕ) (text : List ℕ) → has_gram (c ∷ d ∷ []) (characters text) ≡ false
characters-two c d [] = refl
characters-two c d (x ∷ xs) = ground (arith, characters-two c d xs)

bigrams-one : (c : ℕ) (text : List ℕ) → has_gram (c ∷ []) (bigrams text) ≡ false
bigrams-one c [] = refl
bigrams-one c (x ∷ []) = refl
bigrams-one c (x ∷ y ∷ ys) = ground (arith, bigrams-one c (y ∷ ys))

bigrams-two :
    (c d : ℕ) (text : List ℕ) → has_gram (c ∷ d ∷ []) (bigrams text) ≡ occurs (c ∷ d ∷ []) text
bigrams-two c d [] = refl
bigrams-two c d (x ∷ []) = ground arith
bigrams-two c d (x ∷ y ∷ ys) = ground (arith, bigrams-two c d (y ∷ ys))

-- A query term of one or two characters.
pub data IsShort : List ℕ → Type 0 where
  one : (c : ℕ) → IsShort (c ∷ [])
  two : (c d : ℕ) → IsShort (c ∷ d ∷ [])

or_false : (b : Bool) → (b || false) ≡ b
or_false true = refl
or_false false = refl

-- A short term is a gram of a text just if it occurs in it.
seen_grams-occurs :
    {g : List ℕ} → IsShort g → (text : List ℕ) → has_gram g (seen_grams text) ≡ occurs g text
unfolding long_runs
seen_grams-occurs (one c) text =
    let runs =
      has_gram-longer (c ∷ []) (runs_from [] text) (omega arith) (runs_from-long [] text) in
    has_gram-append (c ∷ []) (characters text) (bigrams text ++ runs_from [] text)
    ∙ rw
        (
          has_gram-append (c ∷ []) (bigrams text) (runs_from [] text),
          characters-one c text,
          bigrams-one c text,
          runs,
        )
        (or_false (occurs (c ∷ []) text))
seen_grams-occurs (two c d) text =
    let runs =
      has_gram-longer (c ∷ d ∷ []) (runs_from [] text) (omega arith) (runs_from-long [] text) in
    has_gram-append (c ∷ d ∷ []) (characters text) (bigrams text ++ runs_from [] text)
    ∙ rw
        (
          has_gram-append (c ∷ d ∷ []) (bigrams text) (runs_from [] text),
          characters-two c d text,
          bigrams-two c d text,
          runs,
        )
        (or_false (occurs (c ∷ d ∷ []) text))

weighted :
    (a b c : Bool)
    → field_weight (field_mask a b c)
      ≡ (if a then field_weight 1 else 0)
        + (if b then field_weight 2 else 0)
        + (if c then field_weight 4 else 0)
weighted true true true = refl
weighted true true false = refl
weighted true false true = refl
weighted true false false = refl
weighted false true true = refl
weighted false true false = refl
weighted false false true = refl
weighted false false false = refl

-- The grams of a memory, as a table of masks.
abbrev pub grams_of : Memory → GramTable
grams_of m = extract_grams m.key_blob m.text_blob m.page_blob

-- The weight of the mask of a short term is what the full scan credits for it.
pub field_weight-mask_of :
    {g : List ℕ}
    → IsShort g
    → (m : Memory) → field_weight (mask_of g (grams_of m)) + type_weight g m ≡ memory_relevance g m
unfolding memory_relevance
field_weight-mask_of {g} short m =
    rw
      (
        mask_of-extract_grams g m.key_blob m.text_blob m.page_blob,
        seen_grams-occurs short m.key_blob,
        seen_grams-occurs short m.text_blob,
        seen_grams-occurs short m.page_blob,
      )
      (ap (λ n. n + type_weight g m)
        (weighted (occurs g m.key_blob) (occurs g m.text_blob) (occurs g m.page_blob)))

field_mask-small : (a b c : Bool) → field_mask a b c < 8
field_mask-small a b c = ground arith

pub mask_of-small : (g : List ℕ) (m : Memory) → mask_of g (grams_of m) < 16
mask_of-small g m =
    let small =
      field_mask-small (has_gram g (seen_grams m.key_blob)) (has_gram g (seen_grams m.text_blob))
        (has_gram g (seen_grams m.page_blob)) in
    omega (arith, mask_of-extract_grams g m.key_blob m.text_blob m.page_blob, small)
