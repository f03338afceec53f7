-- ===== src/Prelude/Keys.antt =====
-- Tables with a primary key, and tables whose rows change one by one.
use Prim.Native.Nat.{ℕ, suc}
use mathlib.Core.Path.{◌≡◌, refl, sym, ap, subst, ◌∙◌}
use mathlib.Core.Logic.{◌≢◌, inl, inr}
use mathlib.Core.Bool.{Bool, true, false}
use mathlib.Core.Option.{none, some, some-injective}
use mathlib.Core.List.{List, [], ◌∷◌, ◌++◌, map}
use native.Mathlib.Omega.{arith}
use vector_lake.Prelude.Tests.{◌==◌, if◌then◌else◌, Bool-cases}
use vector_lake.Prelude.Lists.{All, contains}
use vector_lake.Prelude.Sql.{update_where, fetch_one, find_key, row_count, All-imp, row_count-none}

pub All-append {ℓ κ} :
    {A : Type ℓ} (P : A → Type κ) (xs ys : List A) → All P xs → All P ys → All P (xs ++ ys)
All-append P [] ys h k = k
All-append P (x ∷ xs) ys h k = (h.0, All-append P xs ys h.1 k)

module _ {ℓ} {A : Type ℓ} (key : A → ℕ) where
  -- No two rows have one key.
  abbrev pub IsKeyed : List A → Type ℓ
  IsKeyed [] = Unit
  IsKeyed (x ∷ xs) = All (λ y. key y ≢ key x) xs × IsKeyed xs

module _ {ℓ} {A : Type ℓ} (key : A → ℕ) where
  pub All-ne_of_none : (k : ℕ) (xs : List A) → find_key key k xs ≡ none → All (λ x. key x ≢ k) xs
  unfolding fetch_one
  All-ne_of_none k [] e = tt
  All-ne_of_none k (x ∷ xs) e = elim (Bool-cases (key x == k)) [
    | inl b ↦ absurd (ground arith)
    | inr b ↦ (λ h. ground arith, All-ne_of_none k xs (rw (b, if◌then◌else◌) at e))
  ]

  -- In a keyed table the row that is found is the only one with its key.
  pub All-same :
      (k : ℕ) (xs : List A) {x : A}
      → IsKeyed key xs
      → find_key key k xs ≡ some x
      → All (λ y. key y ≡ k → y ≡ x) xs
  unfolding fetch_one
  All-same k [] keyed e = cc
  All-same k (y ∷ xs) {x} keyed e = elim (Bool-cases (key y == k)) [
    | inl b ↦
        let here : y ≡ x = some-injective y x (rw (b, if◌then◌else◌) at e) in
        (
          λ _. here,
          All-imp (λ z. key z ≢ key y) (λ z. key z ≡ k → z ≡ x)
              (λ z other h. absurd (other (h ∙ sym (ground arith)))) xs keyed.0,
        )
    | inr b ↦ (λ h. absurd (ground arith), All-same k xs keyed.1 (rw (b, if◌then◌else◌) at e))
  ]

  pub IsKeyed-snoc :
      (xs : List A) (x : A)
      → IsKeyed key xs
      → All (λ y. key y ≢ key x) xs
      → IsKeyed key (xs ++ x ∷ [])
  IsKeyed-snoc [] x keyed new = (tt, tt)
  IsKeyed-snoc (y ∷ xs) x keyed new = (
    All-append (λ z. key z ≢ key y) xs (x ∷ []) keyed.0 (λ e. new.0 (sym e), tt),
    IsKeyed-snoc xs x keyed.1 new.1,
  )

module _ {ℓ κ} {A : Type ℓ} (key : A → ℕ) where
  -- A key among the keys of a list is the key of one of its rows.
  pub contains-map :
      (P : ℕ → Type κ) (rows : List A)
      → All (λ r. P (key r)) rows
      → (k : ℕ) → contains (map key rows) k ≡ true
      → P k
  contains-map P [] h k e = cc
  contains-map P (r ∷ rows) h k e = elim (Bool-cases (key r == k)) [
    | inl b ↦ subst P (ground arith) h.0
    | inr b ↦ contains-map P rows h.1 k (ground arith)
  ]

module _ {ℓ κ μ} {A : Type ℓ} (P : A → Type κ) (Q : A → Type μ) where
  pub All-both : (xs : List A) → All P xs → All Q xs → All (λ x. P x × Q x) xs
  All-both [] h k = tt
  All-both (x ∷ xs) h k = ((h.0, k.0), All-both xs h.1 k.1)

module _ {ℓ} {A : Type ℓ} (key : A → ℕ) where
  -- In a keyed table a lookup of its key finds each row.
  pub All-found : (xs : List A) → IsKeyed key xs → All (λ x. find_key key (key x) xs ≡ some x) xs
  unfolding fetch_one
  All-found [] h = tt
  All-found (x ∷ xs) h = (
    ground arith,
    All-imp (λ y. (key y ≢ key x) × (find_key key (key y) xs ≡ some y))
        (λ y. find_key key (key y) (x ∷ xs) ≡ some y) (λ y both. ground arith) xs
        (All-both (λ y. key y ≢ key x) (λ y. find_key key (key y) xs ≡ some y) xs h.0
          (All-found xs h.1)),
  )

-- Two tables of the same length, related row by row.
abbrev pub Forall2 {ℓ} : {A : Type ℓ} → (A → A → Type 0) → List A → List A → Type 0
Forall2 R [] [] = Unit
Forall2 R [] (y ∷ ys) = ⊥
Forall2 R (x ∷ xs) [] = ⊥
Forall2 R (x ∷ xs) (y ∷ ys) = R x y × Forall2 R xs ys

module _ {ℓ} {A : Type ℓ} (R : A → A → Type 0) where
  pub Forall2-refl : ((x : A) → R x x) → (xs : List A) → Forall2 R xs xs
  Forall2-refl h [] = tt
  Forall2-refl h (x ∷ xs) = (h x, Forall2-refl h xs)

  pub Forall2-trans :
      ((x y z : A) → R x y → R y z → R x z)
      → (xs ys zs : List A) → Forall2 R xs ys
      → Forall2 R ys zs
      → Forall2 R xs zs
  Forall2-trans t [] [] [] p q = tt
  Forall2-trans t [] [] (z ∷ zs) p q = q
  Forall2-trans t [] (y ∷ ys) zs p q = absurd p
  Forall2-trans t (x ∷ xs) [] zs p q = absurd p
  Forall2-trans t (x ∷ xs) (y ∷ ys) [] p q = q
  Forall2-trans t (x ∷ xs) (y ∷ ys) (z ∷ zs) p q =
      (t x y z p.0 q.0, Forall2-trans t xs ys zs p.1 q.1)

  pub Forall2-update_where {μ} :
      (P : A → Type μ) (p : A → Bool) (g : A → A)
      → ((x : A) → P x → p x ≡ true → R x (g x))
      → ((x : A) → R x x)
      → (xs : List A) → All P xs
      → Forall2 R xs (update_where p g xs)
  unfolding update_where
  Forall2-update_where P p g on same [] h = tt
  Forall2-update_where P p g on same (x ∷ xs) h = elim (Bool-cases (p x)) [
    | inl e ↦ (rw (e, if◌then◌else◌) (on x h.0 e), Forall2-update_where P p g on same xs h.1)
    | inr e ↦ (rw (e, if◌then◌else◌) (same x), Forall2-update_where P p g on same xs h.1)
  ]

  pub All-Forall2 {μ ν} :
      (P : A → Type μ) (Q : A → Type ν)
      → ((x y : A) → R x y → P x → Q y)
      → (xs ys : List A) → Forall2 R xs ys
      → All P xs
      → All Q ys
  All-Forall2 P Q f [] [] r h = tt
  All-Forall2 P Q f [] (y ∷ ys) r h = absurd r
  All-Forall2 P Q f (x ∷ xs) [] r h = absurd r
  All-Forall2 P Q f (x ∷ xs) (y ∷ ys) r h = (f x y r.0 h.0, All-Forall2 P Q f xs ys r.1 h.1)

  -- A change row by row that keeps the keys.
  pub IsKeyed-Forall2 :
      (key : A → ℕ)
      → ((x y : A) → R x y → key y ≡ key x)
      → (xs ys : List A) → Forall2 R xs ys
      → IsKeyed key xs
      → IsKeyed key ys
  IsKeyed-Forall2 key same [] [] r h = tt
  IsKeyed-Forall2 key same [] (y ∷ ys) r h = absurd r
  IsKeyed-Forall2 key same (x ∷ xs) [] r h = absurd r
  IsKeyed-Forall2 key same (x ∷ xs) (y ∷ ys) r h = (
    All-Forall2 (λ z. key z ≢ key x) (λ z. key z ≢ key y)
        (λ z w rz other e. other (sym (same z w rz) ∙ e ∙ same x y r.0)) xs ys r.1 h.0,
    IsKeyed-Forall2 key same xs ys r.1 h.1,
  )

  pub map-Forall2 :
      (key : A → ℕ)
      → ((x y : A) → R x y → key y ≡ key x)
      → (xs ys : List A) → Forall2 R xs ys
      → map key ys ≡ map key xs
  map-Forall2 key same [] [] r = refl
  map-Forall2 key same [] (y ∷ ys) r = absurd r
  map-Forall2 key same (x ∷ xs) [] r = absurd r
  map-Forall2 key same (x ∷ xs) (y ∷ ys) r = cc (same x y r.0, map-Forall2 key same xs ys r.1)

module _ {ℓ} {A : Type ℓ} (key : A → ℕ) where
  -- A row that is found is found again after rows are added.
  pub find_key-append :
      (k : ℕ) (xs ys : List A) (x : A)
      → find_key key k xs ≡ some x
      → find_key key k (xs ++ ys) ≡ some x
  unfolding fetch_one
  find_key-append k [] ys x e = cc
  find_key-append k (z ∷ xs) ys x e = elim (Bool-cases (key z == k)) [
    | inl b ↦ rw (b, if◌then◌else◌) (rw (b, if◌then◌else◌) at e)
    | inr b ↦ rw (b, if◌then◌else◌) (find_key-append k xs ys x (rw (b, if◌then◌else◌) at e))
  ]

  -- A row with a new key is found where it was added.
  pub find_key-snoc :
      (k : ℕ) (xs : List A) (x : A)
      → find_key key k xs ≡ none
      → key x ≡ k
      → find_key key k (xs ++ x ∷ []) ≡ some x
  unfolding fetch_one
  find_key-snoc k [] x absent e = ground arith
  find_key-snoc k (z ∷ xs) x absent e = elim (Bool-cases (key z == k)) [
    | inl b ↦ cc (rw (b, if◌then◌else◌) at absent)
    | inr b ↦ rw (b, if◌then◌else◌) (find_key-snoc k xs x (rw (b, if◌then◌else◌) at absent) e)
  ]

  -- A row that is found is found again, later, in a table that changed row by row.
  pub find_key-Forall2 :
      (R : A → A → Type 0)
      → ((x y : A) → R x y → key y ≡ key x)
      → (k : ℕ) (xs ys : List A) (x : A) → Forall2 R xs ys
      → find_key key k xs ≡ some x
      → (y : A) × (find_key key k ys ≡ some y) × R x y
  unfolding fetch_one
  find_key-Forall2 R same k [] ys x r e = cc
  find_key-Forall2 R same k (z ∷ xs) [] x r e = absurd r
  find_key-Forall2 R same k (z ∷ xs) (w ∷ ys) x r e = elim (Bool-cases (key z == k)) [
    | inl b ↦
        let here : z ≡ x = some-injective z x (rw (b, if◌then◌else◌) at e) in
        (w, ground (arith, same z w r.0), subst (λ v. R v w) here r.0)
    | inr b ↦
        let (y, found, l) = find_key-Forall2 R same k xs ys x r.1 (rw (b, if◌then◌else◌) at e) in
        (y, ground (arith, same z w r.0), l)
  ]

module _ {ℓ} {A : Type ℓ} (key : A → ℕ) (p : A → Bool) where
  -- A WHERE that names the key, and holds of the row with that key, is met once.
  pub row_count-one :
      (k : ℕ) (xs : List A) (x : A)
      → IsKeyed key xs
      → ((y : A) → p y ≡ true → key y ≡ k)
      → find_key key k xs ≡ some x
      → p x ≡ true
      → row_count p xs ≡ 1
  unfolding fetch_one row_count
  row_count-one k [] x keyed named e h = cc
  row_count-one k (y ∷ xs) x keyed named e h = elim (Bool-cases (key y == k)) [
    | inl b ↦
        let here : y ≡ x = some-injective y x (rw (b, if◌then◌else◌) at e) in
        let hit : p y ≡ true = rw here h in
        let others : row_count p xs ≡ 0 = row_count-none p xs (
          All-imp (λ z. key z ≢ key y) (λ z. p z ≡ false)
            (λ z other. elim (Bool-cases (p z)) [
              | inl on ↦ absurd (other (named z on ∙ sym (named y hit)))
              | inr off ↦ off
            ])
            xs keyed.0) in
        rw (hit, if◌then◌else◌) (ap suc others)
    | inr b ↦ elim (Bool-cases (p y)) [
      | inl on ↦ absurd (ground (arith, named y))
      | inr off ↦
          rw (off, if◌then◌else◌)
            (row_count-one k xs x keyed.1 named (rw (b, if◌then◌else◌) at e) h)
    ]
  ]

  -- An UPDATE that names a key leaves the rows with other keys alone.
  pub find_key-other :
      (g : A → A)
      → ((x : A) → key (g x) ≡ key x)
      → (k j : ℕ) (xs : List A) → ((y : A) → p y ≡ true → key y ≡ k)
      → j ≢ k
      → find_key key j (update_where p g xs) ≡ find_key key j xs
  unfolding fetch_one update_where
  find_key-other g same k j [] named other = refl
  find_key-other g same k j (x ∷ xs) named other =
      ground (arith, same x, named x, find_key-other g same k j xs named other)

pub All-map {ℓ κ μ} :
    {A : Type ℓ} {B : Type κ} (P : B → Type μ) (f : A → B) (xs : List A)
    → All (λ x. P (f x)) xs
    → All P (map f xs)
All-map P f [] h = tt
All-map P f (x ∷ xs) h = (h.0, All-map P f xs h.1)
