-- ===== src/Grams/Postings.antt =====
-- vector_lake/memory_gram_index.py: packed posting lists, without the native extension.
use vector_lake.Prelude.{
  ℕ, ◌+◌, ◌-◌, ◌*◌, ◌/◌, ◌%◌, ◌^◌, Bool, ◌||◌, Option, none, some, List, [], ◌∷◌, ◌++◌, ltb, leb,
  ◌==◌, if◌then◌else◌, contains,
}
use vector_lake.Prelude.Result.{Result, ok, err, ◌>>=◌, ◌>>◌, require}

pub data PackError : Type 0 where
  overflow ragged : PackError

-- ((doc - previous) << 4) | (mask & 0x0F): an array of type "I" takes 0 to 2 ^ 32 - 1.
unfoldable pub pack_values : ℕ → List (ℕ × ℕ) → Result PackError (List ℕ)
pack_values previous [] = ok []
pack_values previous ((doc, mask) ∷ ps) = do
  require (leb previous doc) overflow
  let value = (doc - previous) * 16 + mask % 16
  require (ltb value (2 ^ 32)) overflow
  rest ← pack_values doc ps
  ok (value ∷ rest)

-- The four bytes of a value, least significant first.
abbrev pub low_first : ℕ → List ℕ
low_first v = v % 256 ∷ v / 256 % 256 ∷ v / 65536 % 256 ∷ v / 16777216 % 256 ∷ []

abbrev pub high_first : ℕ → List ℕ
high_first v = v / 16777216 % 256 ∷ v / 65536 % 256 ∷ v / 256 % 256 ∷ v % 256 ∷ []

-- `tobytes` in the byte order of the host.
unfoldable pub to_bytes : Bool → List ℕ → List ℕ
to_bytes little [] = []
to_bytes little (v ∷ vs) = (if little then low_first v else high_first v) ++ to_bytes little vs

-- `_pack`
unfoldable pub pack : Bool → List (ℕ × ℕ) → Result PackError (List ℕ)
unfolding pack_values to_bytes
pack little postings = do values ← pack_values 0 postings; ok (to_bytes little values)

-- `frombytes`, and the `byteswap` of a host that is not little: either way the first byte is the
-- least significant one.
unfoldable pub from_bytes : List ℕ → Result PackError (List ℕ)
from_bytes [] = ok []
from_bytes (a ∷ b ∷ c ∷ d ∷ rest) = do
  values ← from_bytes rest
  ok ((a + 256 * b + 65536 * c + 16777216 * d) ∷ values)
from_bytes _ = err ragged

unfoldable pub entries_from : ℕ → List ℕ → List (ℕ × ℕ)
entries_from doc [] = []
entries_from doc (v ∷ vs) = (doc + v / 16, v % 16) ∷ entries_from (doc + v / 16) vs

-- `_entries`
unfoldable pub entries : List ℕ → Result PackError (List (ℕ × ℕ))
unfolding from_bytes entries_from
entries blob = do values ← from_bytes blob; ok (entries_from 0 values)

-- The accumulator: a weight for each document that was credited.
abbrev pub Accumulator : Type 0
Accumulator = ℕ → Option ℕ

abbrev pub weight_in : Accumulator → ℕ → ℕ
weight_in acc doc = elim (acc doc) [ none ↦ 0 | some w ↦ w ]

abbrev pub credit : (ℕ → ℕ) → ℕ → ℕ → Accumulator → Accumulator
credit weights doc mask acc d = if d == doc then some (weight_in acc doc + weights mask) else acc d

-- The loop of `_accumulate`.
unfoldable pub accumulate_values : (ℕ → ℕ) → List ℕ → ℕ → List ℕ → Accumulator → Accumulator
accumulate_values weights skip doc [] acc = acc
accumulate_values weights skip doc (v ∷ vs) acc =
    let here = doc + v / 16 in
    accumulate_values weights skip here vs
      (if contains skip here || v % 16 == 0 then acc else credit weights here (v % 16) acc)

-- `_accumulate`
unfoldable pub accumulate : (ℕ → ℕ) → List ℕ → List ℕ → Accumulator → Result PackError Accumulator
unfolding from_bytes accumulate_values
accumulate weights skip blob acc = do
  values ← from_bytes blob
  ok (accumulate_values weights skip 0 values acc)
