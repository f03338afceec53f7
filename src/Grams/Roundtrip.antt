-- ===== src/Grams/Roundtrip.antt =====
-- vector_lake/memory_gram_index.py, `_pack` and `_entries`: what is packed is read back.
use vector_lake.Prelude.{
  ℕ, ◌+◌, ◌-◌, ◌*◌, ◌/◌, ◌%◌, ◌^◌, ◌<◌, ◌≤◌, ◌≡◌, true, List, [], ◌∷◌, All, arith, ltb, leb, refl,
  sym,
}
use vector_lake.Prelude.Result.{ok, require-eq-ok, >>=-eq-ok, ok-injective}
use vector_lake.Grams.Postings.{
  overflow, pack_values, to_bytes, pack, from_bytes, entries_from, entries,
}

word :
    (v : ℕ)
    → v < 2 ^ 32
    → v % 256 + 256 * (v / 256 % 256) + 65536 * (v / 65536 % 256) + 16777216 * (v / 16777216 % 256)
      ≡ v
word v h = omega arith

pub from_bytes-to_bytes :
    (vs : List ℕ) → All (λ v. v < 2 ^ 32) vs → from_bytes (to_bytes true vs) ≡ ok vs
unfolding from_bytes to_bytes
from_bytes-to_bytes [] h = refl
from_bytes-to_bytes (v ∷ vs) h = rw (from_bytes-to_bytes vs h.1, word v h.0) refl

-- Masks of four bits.
abbrev pub AreMasks : List (ℕ × ℕ) → Type 0
AreMasks ps = All (λ p. p.1 < 16) ps

pub pack_values-entries :
    (previous : ℕ) (ps : List (ℕ × ℕ)) (vs : List ℕ)
    → AreMasks ps
    → pack_values previous ps ≡ ok vs
    → All (λ v. v < 2 ^ 32) vs × (entries_from previous vs ≡ ps)
unfolding pack_values entries_from
pack_values-entries previous [] vs masks e = rw (ok-injective (sym e)) (tt, refl)
pack_values-entries previous ((doc, mask) ∷ ps) vs masks e =
    let value = (doc - previous) * 16 + mask % 16 in
    let (up, e1) = require-eq-ok (leb previous doc) overflow _ e in
    let (fits, e2) = require-eq-ok (ltb value (2 ^ 32)) overflow _ e1 in
    let (rest, more, e3) = >>=-eq-ok (pack_values doc ps) _ e2 in
    let (small, same) = pack_values-entries doc ps rest masks.1 more in
    let le : previous ≤ doc = ground (arith, up) in
    let lt : value < 2 ^ 32 = ground (arith, fits) in
    let there : previous + value / 16 ≡ doc = omega (arith, masks.0) in
    let masked : value % 16 ≡ mask = omega (arith, masks.0) in
    rw (ok-injective (sym e3)) ((lt, small), rw (there, masked, same) refl)

-- On a little-endian host a list of postings that can be packed, with masks of four bits, is read
-- back from its blob as it was.
pub entries-pack :
    (ps : List (ℕ × ℕ)) (blob : List ℕ)
    → AreMasks ps
    → pack true ps ≡ ok blob
    → entries blob ≡ ok ps
unfolding pack entries
entries-pack ps blob masks e =
    let (vs, packed, e1) = >>=-eq-ok (pack_values 0 ps) _ e in
    let (small, same) = pack_values-entries 0 ps vs masks packed in
    rw (ok-injective (sym e1), from_bytes-to_bytes vs small, same) refl
