-- ===== src/Prelude/Lists.antt =====
-- Lists measured by native numbers, under the library's names.
use Prim.Native.Nat.{ℕ, zero, suc, ◌+◌, ◌≤◌}
use mathlib.Core.Path.{◌≡◌, refl}
use mathlib.Core.Bool.{Bool, true, false, ◌||◌, ◌&&◌}
use mathlib.Core.List.{List, [], ◌∷◌, ◌++◌, Memᴰ}
use native.Mathlib.Omega.{arith}
use vector_lake.Prelude.Tests.{◌==◌, ==_iff, &&-eq-true}

module _ {ℓ} {A : Type ℓ} where
  abbrev pub length : List A → ℕ
  length [] = 0
  length (x ∷ xs) = suc (length xs)

  abbrev pub take : ℕ → List A → List A
  take zero xs = []
  take (suc n) [] = []
  take (suc n) (x ∷ xs) = x ∷ take n xs

  pub length-append : (xs ys : List A) → length (xs ++ ys) ≡ length xs + length ys
  length-append [] ys = omega arith
  length-append (x ∷ xs) ys = omega (arith, length-append xs ys)

  pub length-snoc : (xs : List A) (y : A) → length (xs ++ y ∷ []) ≡ length xs + 1
  length-snoc [] y = omega arith
  length-snoc (x ∷ xs) y = omega (arith, length-snoc xs y)

  pub length-take-le : (n : ℕ) (xs : List A) → length (take n xs) ≤ n
  length-take-le zero xs = omega arith
  length-take-le (suc n) [] = omega arith
  length-take-le (suc n) (x ∷ xs) = omega (arith, length-take-le n xs)

  pub mem_of_mem-take : {a : A} (n : ℕ) (xs : List A) → Memᴰ a (take n xs) → Memᴰ a xs
  mem_of_mem-take zero xs m = elim m [ ]
  mem_of_mem-take (suc n) [] m = elim m [ ]
  mem_of_mem-take (suc n) (x ∷ xs) (Memᴰ.head e) = Memᴰ.head e
  mem_of_mem-take (suc n) (x ∷ xs) (Memᴰ.tail m) = Memᴰ.tail (mem_of_mem-take n xs m)

-- A predicate of every item. It computes to a tuple.
abbrev pub All {ℓ κ} : {A : Type ℓ} → (A → Type κ) → List A → Type κ
All P [] = Unit
All P (x ∷ xs) = P x × All P xs

pub All-mem {ℓ κ} : {A : Type ℓ} (P : A → Type κ) {a : A} (xs : List A) → All P xs → Memᴰ a xs → P a
All-mem P [] h m = elim m [ ]
All-mem P (x ∷ xs) h (Memᴰ.head e) = rw e h.0
All-mem P (x ∷ xs) h (Memᴰ.tail m) = All-mem P xs h.1 m

abbrev pub contains : List ℕ → ℕ → Bool
contains [] a = false
contains (x ∷ xs) a = x == a || contains xs a

-- Texts, as lists of character codes.
abbrev pub text_eq : List ℕ → List ℕ → Bool
text_eq [] [] = true
text_eq (a ∷ as') (b ∷ bs) = a == b && text_eq as' bs
text_eq _ _ = false

pub text_eq-eq : (s t : List ℕ) → text_eq s t ≡ true → s ≡ t
text_eq-eq [] [] h = refl
text_eq-eq [] (b ∷ bs) h = cc
text_eq-eq (a ∷ as') [] h = cc
text_eq-eq (a ∷ as') (b ∷ bs) h =
    let (one, rest) = &&-eq-true h in cc ((==_iff a b).0 one, text_eq-eq as' bs rest)

pub text_eq_refl : (s : List ℕ) → text_eq s s ≡ true
text_eq_refl [] = refl
text_eq_refl (a ∷ as') = ground (arith, text_eq_refl as')
