-- ===== src/Prelude/Sql.antt =====
-- The SQL statements of vector_lake/db_store.py over a table that is a list of rows:
-- UPDATE with its WHERE, SELECT, ORDER BY, LIMIT, and the row count of a statement.
use Prim.Native.Nat.{ℕ, zero, suc, ◌≤◌}
use mathlib.Core.Path.{◌≡◌, refl, ap, subst, ◌∙◌}
use mathlib.Core.Logic.{◌≢◌, inl, inr}
use mathlib.Core.Bool.{Bool, true, false}
use mathlib.Core.Option
use mathlib.Core.Option.{Option, none, some, some-injective}
use mathlib.Core.List.{List, [], ◌∷◌, map}
use native.Mathlib.Omega.{arith}
use vector_lake.Prelude.Tests.{leb, ◌==◌, if◌then◌else◌, Bool-cases}
use vector_lake.Prelude.Lists.{length, take, All, contains}

-- `col = ?`: a NULL on either side makes the comparison false.
abbrev pub sql_eq : Option ℕ → Option ℕ → Bool
sql_eq (some a) (some b) = a == b
sql_eq _ _ = false

-- `COALESCE(col, '') <= ?`: NULL is before every time.
abbrev pub null_or_le : Option ℕ → ℕ → Bool
null_or_le none t = true
null_or_le (some a) t = leb a t

module _ {ℓ} {A : Type ℓ} where
  -- UPDATE t SET f WHERE p
  unfoldable pub update_where : (A → Bool) → (A → A) → List A → List A
  update_where p f [] = []
  update_where p f (x ∷ xs) = (if p x then f x else x) ∷ update_where p f xs

  -- SELECT * FROM t WHERE p
  unfoldable pub select : (A → Bool) → List A → List A
  select p [] = []
  select p (x ∷ xs) = let rest = select p xs in if p x then x ∷ rest else rest

  -- cursor.rowcount of an UPDATE or DELETE with this WHERE
  unfoldable pub row_count : (A → Bool) → List A → ℕ
  row_count p [] = 0
  row_count p (x ∷ xs) = let rest = row_count p xs in if p x then suc rest else rest

  -- .fetchone()
  unfoldable pub fetch_one : (A → Bool) → List A → Option A
  fetch_one p [] = none
  fetch_one p (x ∷ xs) = let rest = fetch_one p xs in if p x then some x else rest

  -- ORDER BY a key, ascending; rows with equal keys keep their order.
  unfoldable pub insert_by : (A → ℕ) → A → List A → List A
  insert_by k x [] = x ∷ []
  insert_by k x (y ∷ ys) =
      let rest = insert_by k x ys in if leb (k x) (k y) then x ∷ y ∷ ys else y ∷ rest

  unfoldable pub order_by : (A → ℕ) → List A → List A
  unfolding insert_by
  order_by k [] = []
  order_by k (x ∷ xs) = insert_by k x (order_by k xs)

module _ {ℓ κ} {A : Type ℓ} (P : A → Type κ) where
  pub All-intro : ((x : A) → P x) → (xs : List A) → All P xs
  All-intro h [] = tt
  All-intro h (x ∷ xs) = (h x, All-intro h xs)

  pub All-take : (n : ℕ) (xs : List A) → All P xs → All P (take n xs)
  All-take zero xs h = tt
  All-take (suc n) [] h = tt
  All-take (suc n) (x ∷ xs) h = (h.0, All-take n xs h.1)

  pub All-insert_by : (k : A → ℕ) (x : A) (ys : List A) → P x → All P ys → All P (insert_by k x ys)
  unfolding insert_by
  All-insert_by k x [] p h = (p, tt)
  All-insert_by k x (y ∷ ys) p h = elim (Bool-cases (leb (k x) (k y))) [
    | inl e ↦ rw (e, if◌then◌else◌) (p, h)
    | inr e ↦ rw (e, if◌then◌else◌) (h.0, All-insert_by k x ys p h.1)
  ]

  pub All-order_by : (k : A → ℕ) (xs : List A) → All P xs → All P (order_by k xs)
  unfolding order_by
  All-order_by k [] h = tt
  All-order_by k (x ∷ xs) h = All-insert_by k x (order_by k xs) h.0 (All-order_by k xs h.1)

module _ {ℓ κ μ} {A : Type ℓ} (P : A → Type κ) (Q : A → Type μ) where
  pub All-imp : ((x : A) → P x → Q x) → (xs : List A) → All P xs → All Q xs
  All-imp f [] h = tt
  All-imp f (x ∷ xs) h = (f x h.0, All-imp f xs h.1)

  -- What a selected row satisfies: what every row does, and the WHERE clause.
  pub All-select :
      (p : A → Bool)
      → ((x : A) → P x → p x ≡ true → Q x)
      → (xs : List A) → All P xs
      → All Q (select p xs)
  unfolding select
  All-select p f [] h = tt
  All-select p f (x ∷ xs) h = elim (Bool-cases (p x)) [
    | inl e ↦ rw (e, if◌then◌else◌) (f x h.0 e, All-select p f xs h.1)
    | inr e ↦ rw (e, if◌then◌else◌) (All-select p f xs h.1)
  ]

  -- What every row satisfies after an UPDATE: the changed rows and the others apart.
  pub All-update_where :
      (p : A → Bool) (g : A → A)
      → ((x : A) → P x → p x ≡ true → Q (g x))
      → ((x : A) → P x → p x ≡ false → Q x)
      → (xs : List A) → All P xs
      → All Q (update_where p g xs)
  unfolding update_where
  All-update_where p g on off [] h = tt
  All-update_where p g on off (x ∷ xs) h = elim (Bool-cases (p x)) [
    | inl e ↦ (rw (e, if◌then◌else◌) (on x h.0 e), All-update_where p g on off xs h.1)
    | inr e ↦ (rw (e, if◌then◌else◌) (off x h.0 e), All-update_where p g on off xs h.1)
  ]

module _ {ℓ κ} {A : Type ℓ} (P : A → Type κ) where
  -- A row that was fetched is a row of the table that satisfies the WHERE clause.
  pub All-fetch_one :
      (p : A → Bool) (xs : List A) {x : A} → All P xs → fetch_one p xs ≡ some x → P x × (p x ≡ true)
  unfolding fetch_one
  All-fetch_one p [] h e = cc
  All-fetch_one p (y ∷ xs) {x} h e = elim (Bool-cases (p y)) [
    | inl b ↦
        subst (λ z. P z × (p z ≡ true)) (some-injective y x (rw (b, if◌then◌else◌) at e)) (h.0, b)
    | inr b ↦ All-fetch_one p xs h.1 (rw (b, if◌then◌else◌) at e)
  ]

module _ {ℓ} {A : Type ℓ} (key : A → ℕ) where
  -- SELECT * FROM t WHERE key = ?, for a primary key
  abbrev pub find_key : ℕ → List A → Option A
  find_key k xs = fetch_one (λ x. key x == k) xs

  -- A row with the key is found, and it has the key.
  pub find_key-key : (k : ℕ) (xs : List A) {x : A} → find_key k xs ≡ some x → key x ≡ k
  unfolding fetch_one
  find_key-key k [] e = cc
  find_key-key k (y ∷ xs) e = elim (Bool-cases (key y == k)) [
    | inl h ↦ let found = rw (h, if◌then◌else◌) at e in ground (arith)
    | inr h ↦ find_key-key k xs (rw (h, if◌then◌else◌) at e)
  ]

  -- An UPDATE that keeps the key is seen by a lookup as that update of the row found.
  pub find_key-update_where :
      (p : A → Bool) (g : A → A)
      → ((x : A) → key (g x) ≡ key x)
      → (k : ℕ) (xs : List A)
      → find_key k (update_where p g xs) ≡ Option.map (λ x. if p x then g x else x) (find_key k xs)
  unfolding fetch_one update_where
  find_key-update_where p g same k [] = refl
  find_key-update_where p g same k (x ∷ xs) =
      ground (arith, same x, find_key-update_where p g same k xs)

  -- The same for a row that is known.
  pub update_where-found :
      (p : A → Bool) (g : A → A)
      → ((x : A) → key (g x) ≡ key x)
      → (k : ℕ) (xs : List A) {x : A} → find_key k xs ≡ some x
      → find_key k (update_where p g xs) ≡ some (if p x then g x else x)
  update_where-found p g same k xs e =
      find_key-update_where p g same k xs ∙ ap (Option.map (λ x. if p x then g x else x)) e

  pub All-find_key {κ} :
      (P : A → Type κ) (k : ℕ) (xs : List A) {x : A} → All P xs → find_key k xs ≡ some x → P x
  unfolding fetch_one
  All-find_key P k [] h e = cc
  All-find_key P k (y ∷ xs) {x} h e = elim (Bool-cases (key y == k)) [
    | inl b ↦ subst P (some-injective y x (rw (b, if◌then◌else◌) at e)) h.0
    | inr b ↦ All-find_key P k xs h.1 (rw (b, if◌then◌else◌) at e)
  ]

  -- The rows that a SELECT returned are among the keys that it returned.
  pub contains-keys : (xs : List A) → All (λ x. contains (map key xs) (key x) ≡ true) xs
  contains-keys [] = tt
  contains-keys (x ∷ xs) = (
    ground arith,
    All-imp (λ y. contains (map key xs) (key y) ≡ true)
        (λ y. contains (map key (x ∷ xs)) (key y) ≡ true) (λ y h. ground arith) xs
        (contains-keys xs),
  )

module _ {ℓ} {A : Type ℓ} (p : A → Bool) where
  pub length-select-le : (xs : List A) → length (select p xs) ≤ length xs
  unfolding select
  length-select-le [] = omega arith
  length-select-le (x ∷ xs) = ground (arith, length-select-le xs)

  pub row_count-none : (xs : List A) → All (λ x. p x ≡ false) xs → row_count p xs ≡ 0
  unfolding row_count
  row_count-none [] h = refl
  row_count-none (x ∷ xs) h = ground (arith, row_count-none xs h.1)

  -- A statement that changed a row found one.
  pub row_count-some : (xs : List A) → row_count p xs ≢ 0 → (x : A) × (fetch_one p xs ≡ some x)
  unfolding row_count fetch_one
  row_count-some [] h = absurd (h refl)
  row_count-some (x ∷ xs) h = elim (Bool-cases (p x)) [
    | inl e ↦ (x, rw (e, if◌then◌else◌))
    | inr e ↦
        let (y, found) = row_count-some xs (λ z. h (rw (e, if◌then◌else◌) z)) in
        (y, rw (e, if◌then◌else◌) found)
  ]
