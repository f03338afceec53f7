-- ===== src/Coordinator/Locks.antt =====
-- vector_lake/mutation_coordinator.py, `projection_locks`: which page locks a thread takes, and when.
use vector_lake.Prelude.{
  ℕ, ◌<◌, ◌≡◌, ◌≢◌, Bool, true, false, not, some, List, [], ◌∷◌, ◌++◌, ◌||◌, map, All, arith, ltb,
  ◌==◌, if◌then◌else◌, Bool-cases, inl, inr, contains, refl, sym, ◌∙◌, ap, subst,
}
use vector_lake.Prelude.Sql.{select, All-imp}
use vector_lake.Prelude.Keys.{IsKeyed, All-append}
use vector_lake.Prelude.Result.{Result, ok, ◌>>=◌, ◌>>◌, require, require-eq-ok, >>=-eq-ok}
use vector_lake.Coordinator.{
  MutationError, value_error, runtime_error, lock_timeout, Paths, Files, resolve_wiki_mutation_path,
}

-- sorted(set(filenames)): the numbers of names are in the order of the texts.
unfoldable pub insert_name : ℕ → List ℕ → List ℕ
insert_name x [] = x ∷ []
insert_name x (y ∷ ys) =
    let rest = insert_name x ys in
    if x == y then y ∷ ys else if ltb x y then x ∷ y ∷ ys else y ∷ rest

unfoldable pub sorted_set : List ℕ → List ℕ
unfolding insert_name
sorted_set [] = []
sorted_set (x ∷ xs) = insert_name x (sorted_set xs)

-- os.path.normcase(str(path.resolve()))
unfoldable pub lock_key : Paths → Files → ℕ → Result MutationError ℕ
unfolding resolve_wiki_mutation_path
lock_key paths files f = do
  path ← resolve_wiki_mutation_path paths files (some f) false false
  ok (paths.normcase path)

-- One lock. `waited` is what the file system says of paths after the wait, `in_time` tells whether
-- the file lock of a key was free before the deadline.
unfoldable pub acquire :
    Paths → Files → Bool → (ℕ → Bool) → Bool → ℕ → ℕ → Result MutationError (List ℕ)
unfolding lock_key
acquire waited files in_transaction in_time true f key = ok []
acquire waited files in_transaction in_time false f key = do
  require (not in_transaction) runtime_error
  require (in_time key) lock_timeout
  key' ← lock_key waited files f
  require (key' == key) value_error
  ok (key ∷ [])

-- The loop over the names: the keys that it locked, in their order.
unfoldable pub lock_each :
    Paths
    → Paths
    → Files
    → Bool
    → (ℕ → Bool)
    → List ℕ
    → List ℕ
    → List ℕ
    → Result MutationError (List ℕ)
unfolding acquire lock_key
lock_each paths waited files in_transaction in_time seen held [] = ok []
lock_each paths waited files in_transaction in_time seen held (f ∷ fs) = do
  key ← lock_key paths files f
  require (not (contains seen key)) value_error
  taken ← acquire waited files in_transaction in_time (contains held key) f key
  rest ← lock_each paths waited files in_transaction in_time (key ∷ seen) (taken ++ held) fs
  ok (taken ++ rest)

unfoldable pub projection_locks :
    Paths → Paths → Files → Bool → (ℕ → Bool) → List ℕ → List ℕ → Result MutationError (List ℕ)
unfolding lock_each sorted_set
projection_locks paths waited files in_transaction in_time held filenames =
    lock_each paths waited files in_transaction in_time [] held (sorted_set filenames)

-- The lock key of a name, where the name resolves.
abbrev pub key_of : Paths → ℕ → ℕ
key_of paths f = paths.normcase (paths.resolved f)

lock_key-ok :
    (paths : Paths) (files : Files) (f : ℕ) {k : ℕ}
    → lock_key paths files f ≡ ok k
    → k ≡ key_of paths f
unfolding lock_key
lock_key-ok paths files f e = ground arith

pub record IsOrderly (in_transaction : Bool) (in_time : ℕ → Bool) (held keys taken : List ℕ)
    : Type 0 where
  pub complete : taken ≡ select (λ k. not (contains held k)) keys
  pub distinct : IsKeyed (λ k. k) keys
  pub outside : in_transaction ≡ true → taken ≡ []
  pub free : All (λ k. in_time k ≡ true) taken

acquire-ok :
    (waited : Paths) (files : Files) (in_transaction : Bool) (in_time : ℕ → Bool) (known : Bool)
    (f key : ℕ) (taken : List ℕ)
    → acquire waited files in_transaction in_time known f key ≡ ok taken
    → (taken ≡ (if known then [] else key ∷ []))
      × (in_transaction ≡ true → taken ≡ [])
      × All (λ k. in_time k ≡ true) taken
unfolding acquire
acquire-ok waited files in_transaction in_time true f key taken e =
    let none_taken : taken ≡ [] = ground arith in (none_taken, λ _. none_taken, rw none_taken tt)
acquire-ok waited files in_transaction in_time false f key taken e =
    let (outside, e1) = require-eq-ok (not in_transaction) runtime_error _ e in
    let (free, e2) = require-eq-ok (in_time key) lock_timeout _ e1 in
    let (again, _, e3) = >>=-eq-ok (lock_key waited files f) _ e2 in
    let one : taken ≡ key ∷ [] = ground (arith, e3) in
    (one, λ inside. cc (rw inside at outside), rw one (free, tt))

-- A key that is not among the keys need not be told apart from the held ones.
select-held :
    (p q : ℕ → Bool) (keys : List ℕ)
    → All (λ k. p k ≡ q k) keys
    → select (λ k. not (p k)) keys ≡ select (λ k. not (q k)) keys
unfolding select
select-held p q [] h = refl
select-held p q (k ∷ ks) h = simp (h.0, select-held p q ks h.1)

-- Of the keys, none seen before, those that were not held are locked.
abbrev AllLocked : Bool → (ℕ → Bool) → List ℕ → List ℕ → List ℕ → List ℕ → Type 0
AllLocked in_transaction in_time seen held keys taken =
    IsOrderly in_transaction in_time held keys taken × All (λ k. contains seen k ≡ false) keys

module _ (in_transaction : Bool) (in_time : ℕ → Bool) (seen held : List ℕ) (key : ℕ)
    (keys got rest : List ℕ) (new : contains seen key ≡ false)
    (shape : got ≡ (if contains held key then [] else key ∷ []))
    (outside : in_transaction ≡ true → got ≡ []) (free : All (λ k. in_time k ≡ true) got)
    (later : AllLocked in_transaction in_time (key ∷ seen) (got ++ held) keys rest) where
  others-held : All (λ k. contains (got ++ held) k ≡ contains held k) keys
  others-held =
      All-imp (λ k. contains (key ∷ seen) k ≡ false)
        (λ k. contains (got ++ held) k ≡ contains held k)
        (λ k apart. elim (Bool-cases (contains held key)) [
          | inl known ↦ rw (shape, known, if◌then◌else◌)
          | inr fresh ↦ rw (shape, fresh, if◌then◌else◌) (ground arith)
        ])
        keys later.1

  AllLocked-cons : AllLocked in_transaction in_time seen held (key ∷ keys) (got ++ rest)
  unfolding select
  AllLocked-cons = (
    record {
      complete = elim (Bool-cases (contains held key)) [
        | inl known ↦
            rw (shape, known, if◌then◌else◌)
              (later.0.complete
                ∙ select-held (contains (got ++ held)) (contains held) keys others-held)
        | inr fresh ↦
            rw (shape, fresh, if◌then◌else◌)
              (ap (λ t. key ∷ t)
                (later.0.complete
                  ∙ select-held (contains (got ++ held)) (contains held) keys others-held))
      ];
      distinct = (
        All-imp (λ k. contains (key ∷ seen) k ≡ false) (λ k. k ≢ key) (λ k apart e. ground arith)
            keys later.1,
        later.0.distinct,
      );
      outside = λ inside. rw (outside inside, later.0.outside inside) refl;
      free = All-append (λ k. in_time k ≡ true) got rest free later.0.free;
    },
    (
      new,
      All-imp (λ k. contains (key ∷ seen) k ≡ false) (λ k. contains seen k ≡ false)
          (λ k apart. ground arith) keys later.1,
    ),
  )

lock_each-AllLocked :
    (paths waited : Paths) (files : Files) (in_transaction : Bool) (in_time : ℕ → Bool)
    (seen held names taken : List ℕ)
    → lock_each paths waited files in_transaction in_time seen held names ≡ ok taken
    → AllLocked in_transaction in_time seen held (map (key_of paths) names) taken
unfolding lock_each select
lock_each-AllLocked paths waited files in_transaction in_time seen held [] taken e =
    let empty : taken ≡ [] = ground arith in
    (record { complete = empty; distinct = tt; outside = λ _. empty; free = rw empty tt }, tt)
lock_each-AllLocked paths waited files in_transaction in_time seen held (f ∷ fs) taken e =
    let (key, found, e1) = >>=-eq-ok (lock_key paths files f) _ e in
    let (new, e2) = require-eq-ok (not (contains seen key)) value_error _ e1 in
    let (got, acquired, e3) =
      >>=-eq-ok (acquire waited files in_transaction in_time (contains held key) f key) _ e2 in
    let (rest, more, e4) =
      >>=-eq-ok (lock_each paths waited files in_transaction in_time (key ∷ seen) (got ++ held) fs)
        _ e3 in
    let (shape, outside, free) =
      acquire-ok waited files in_transaction in_time (contains held key) f key got acquired in
    let orderly =
      lock_each-AllLocked paths waited files in_transaction in_time (key ∷ seen) (got ++ held) fs
        rest more in
    let name : key ≡ key_of paths f = lock_key-ok paths files f found in
    let whole : taken ≡ got ++ rest = ground (arith, e4) in
    subst (AllLocked in_transaction in_time seen held (key_of paths f ∷ map (key_of paths) fs))
      (sym whole)
      (subst
        (λ k. AllLocked in_transaction in_time seen held (k ∷ map (key_of paths) fs) (got ++ rest))
        name
        (AllLocked-cons in_transaction in_time seen held key (map (key_of paths) fs) got rest
          (ground (arith, new)) shape outside free orderly))

-- Strictly ascending.
abbrev pub IsAscending : List ℕ → Type 0
IsAscending [] = Unit
IsAscending (x ∷ xs) = All (λ y. x < y) xs × IsAscending xs

All-insert_name {κ} :
    (P : ℕ → Type κ) (x : ℕ) (ys : List ℕ) → P x → All P ys → All P (insert_name x ys)
unfolding insert_name
All-insert_name P x [] p h = (p, tt)
All-insert_name P x (y ∷ ys) p h = elim (Bool-cases (x == y)) [
  | inl same ↦ rw (same, if◌then◌else◌) h
  | inr other ↦ elim (Bool-cases (ltb x y)) [
    | inl before ↦ rw (other, before, if◌then◌else◌) (p, h)
    | inr behind ↦ rw (other, behind, if◌then◌else◌) (h.0, All-insert_name P x ys p h.1)
  ]
]

insert_name-IsAscending : (x : ℕ) (ys : List ℕ) → IsAscending ys → IsAscending (insert_name x ys)
unfolding insert_name
insert_name-IsAscending x [] h = (tt, tt)
insert_name-IsAscending x (y ∷ ys) h = elim (Bool-cases (x == y)) [
  | inl same ↦ rw (same, if◌then◌else◌) h
  | inr other ↦ elim (Bool-cases (ltb x y)) [
    | inl before ↦
        let lt : x < y = ground arith in
        rw (other, before, if◌then◌else◌)
          ((lt, All-imp (λ z. y < z) (λ z. x < z) (λ z l. omega arith) ys h.0), h)
    | inr behind ↦
        rw (other, behind, if◌then◌else◌)
          (All-insert_name (λ z. y < z) x ys (ground arith) h.0, insert_name-IsAscending x ys h.1)
  ]
]

sorted_set-IsAscending : (xs : List ℕ) → IsAscending (sorted_set xs)
unfolding sorted_set
sorted_set-IsAscending [] = tt
sorted_set-IsAscending (x ∷ xs) =
    insert_name-IsAscending x (sorted_set xs) (sorted_set-IsAscending xs)

contains-insert_name :
    (f x : ℕ) (ys : List ℕ) → contains (insert_name x ys) f ≡ (x == f || contains ys f)
unfolding insert_name
contains-insert_name f x [] = refl
contains-insert_name f x (y ∷ ys) = ground (arith, contains-insert_name f x ys)

contains-sorted_set : (f : ℕ) (xs : List ℕ) → contains (sorted_set xs) f ≡ contains xs f
unfolding sorted_set
contains-sorted_set f [] = refl
contains-sorted_set f (x ∷ xs) =
    contains-insert_name f x (sorted_set xs) ∙ rw (contains-sorted_set f xs) refl

-- A call that succeeds goes through the names that it was given, each of them and no other, in
-- strictly ascending order, whatever order they were given in; their lock keys are all different, it takes exactly the locks of those keys that the
-- thread does not hold yet, in that order, each of them was free in time, and inside a transaction
-- it takes none.
pub projection_locks-IsOrderly :
    (paths waited : Paths) (files : Files) (in_transaction : Bool) (in_time : ℕ → Bool)
    (held names taken : List ℕ)
    → projection_locks paths waited files in_transaction in_time held names ≡ ok taken
    → IsAscending (sorted_set names)
      × ((f : ℕ) → contains (sorted_set names) f ≡ contains names f)
      × IsOrderly in_transaction in_time held (map (key_of paths) (sorted_set names)) taken
unfolding projection_locks
projection_locks-IsOrderly paths waited files in_transaction in_time held names taken e = (
  sorted_set-IsAscending names,
  λ f. contains-sorted_set f names,
  (lock_each-AllLocked paths waited files in_transaction in_time [] held (sorted_set names) taken
      e).0,
)
