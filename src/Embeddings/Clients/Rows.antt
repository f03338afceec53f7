-- ===== src/Embeddings/Clients/Rows.antt =====
-- vector_lake/embedding_scheduler.py, `_ClientManager`: what a generation satisfies between two blocks
-- under the condition, and that every change of one keeps it.
use vector_lake.Prelude.{
  ℕ, ◌+◌, ◌-◌, ◌<◌, ◌≡◌, Bool, true, false, not, ◌||◌, ◌&&◌, ◌==◌, arith, if◌then◌else◌,
}
use vector_lake.Embeddings.Clients.{
  ClientGeneration, ClientManager, is_active, is_open, settled_row, borrowed_row, constructed_row,
  released_row,
}

-- Whether a generation may be in this state: only an open one is borrowed, and an active one is of
-- the current epoch of a manager that is not shut down.
abbrev pub is_allowed : ℕ → Bool → ClientGeneration → Bool
is_allowed epoch stopped g =
    (is_open g.state || g.borrowers == 0)
    && (not (is_active g.state) || g.epoch == epoch && not stopped)

-- It counts the callers that hold its client, and its identity is one that was given.
abbrev pub IsCounted : (ℕ → ℕ) → ℕ → ClientGeneration → Type 0
IsCounted held next g = (g.borrowers ≡ held g.id) × (g.id < next)

abbrev pub IsSound : (ℕ → ℕ) → ℕ → ClientManager → ClientGeneration → Type 0
IsSound held next m g = IsCounted held next g × (is_allowed m.epoch m.stopped g ≡ true)

pub allowed-settled :
    (epoch epoch' : ℕ) (stopped stopped' : Bool) (g : ClientGeneration)
    → is_allowed epoch stopped g ≡ true
    → is_allowed epoch' stopped' (settled_row g) ≡ true
allowed-settled epoch epoch' stopped stopped' g h = ground (arith, h)

pub allowed-released :
    (epoch : ℕ) (stopped : Bool) (g : ClientGeneration)
    → is_allowed epoch stopped g ≡ true
    → is_allowed epoch stopped (released_row g) ≡ true
allowed-released epoch stopped g h = ground (arith, h)

pub allowed-constructed :
    (expired : Bool) (m : ClientManager) (g : ClientGeneration)
    → g.borrowers ≡ 0
    → is_allowed m.epoch m.stopped (constructed_row expired m g) ≡ true
allowed-constructed expired m g h = ground (arith, h)

-- One caller more or less holds the client.
abbrev pub taken : ℕ → (ℕ → ℕ) → ℕ → ℕ
taken i held j = if j == i then held j + 1 else held j

abbrev pub given_back : ℕ → (ℕ → ℕ) → ℕ → ℕ
given_back i held j = if j == i then held j - 1 else held j

module _ (held : ℕ → ℕ) (next : ℕ) (m : ClientManager) where
  pub borrowed_row-IsSound :
      (i : ℕ) (g : ClientGeneration)
      → IsSound held next m g
      → is_open g.state ≡ true
      → (g.id == i) ≡ true
      → IsSound (taken i held) next m (borrowed_row g)
  borrowed_row-IsSound i g ((counted, known), allowed) opened e =
      ((ground (arith, counted, e), known), ground (arith, allowed, opened))

  pub other-taken :
      (i : ℕ) (g : ClientGeneration)
      → IsSound held next m g
      → (g.id == i) ≡ false
      → IsSound (taken i held) next m g
  other-taken i g ((counted, known), allowed) e = ((ground (arith, counted, e), known), allowed)

  pub other-given_back :
      (i : ℕ) (g : ClientGeneration)
      → IsSound held next m g
      → (g.id == i) ≡ false
      → IsSound (given_back i held) next m g
  other-given_back i g ((counted, known), allowed) e =
      ((ground (arith, counted, e), known), allowed)

  pub released_row-IsSound :
      (i : ℕ) (g : ClientGeneration)
      → IsSound held next m g
      → (g.id == i) ≡ true
      → IsSound (given_back i held) next m (released_row g)
  released_row-IsSound i g ((counted, known), allowed) e =
      ((ground (arith, counted, e), known), allowed-released m.epoch m.stopped g allowed)
