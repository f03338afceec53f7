-- ===== src/Grams/Examples.antt =====
-- vector_lake/memory_gram_index.py: the theorems on the gram index, applied to two memories.
use vector_lake.Prelude.{ℕ, ◌≡◌, true, false, none, List, [], ◌∷◌, refl, arith}
use vector_lake.Prelude.Result.{ok}
use vector_lake.Grams.{Memory, field_weight}
use vector_lake.Grams.Postings.{pack, entries, Accumulator, credit}
use vector_lake.Grams.Roundtrip.{entries-pack}

abbrev ab : List ℕ
ab = b'a' ∷ b'b' ∷ []

abbrev memories : List Memory
memories =
    record {
      doc = 3;
      key_blob = b'a' ∷ b'b' ∷ b'c' ∷ [];
      text_blob = b'b' ∷ [];
      page_blob = ab;
      type_blob = ab;
    }
    ∷ record { doc = 7; key_blob = []; text_blob = b'x' ∷ ab; page_blob = []; type_blob = [] }
    ∷ []

abbrev blob : List ℕ
blob = 53 ∷ 0 ∷ 0 ∷ 0 ∷ 66 ∷ 0 ∷ 0 ∷ 0 ∷ []

two-packed : pack true ((3, 5) ∷ (7, 2) ∷ []) ≡ ok blob
unfolding pack
two-packed = refl

entries-pack_example : entries blob ≡ ok ((3, 5) ∷ (7, 2) ∷ [])
entries-pack_example =
    entries-pack ((3, 5) ∷ (7, 2) ∷ []) blob (omega arith, (omega arith, tt)) two-packed

-- A big-endian host packs in its own byte order, and reads something else back.
big_endian_packed : pack false ((3, 5) ∷ []) ≡ ok (0 ∷ 0 ∷ 0 ∷ 53 ∷ [])
unfolding pack
big_endian_packed = refl

big_endian_read : entries (0 ∷ 0 ∷ 0 ∷ 53 ∷ []) ≡ ok ((55574528, 0) ∷ [])
unfolding entries
big_endian_read = refl

abbrev credits : Accumulator
credits = credit field_weight 7 2 (credit field_weight 3 5 (λ d. none))
