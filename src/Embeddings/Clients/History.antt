-- ===== src/Embeddings/Clients/History.antt =====
-- vector_lake/embedding_scheduler.py, `_ClientManager` over a run of its blocks, of any number of
-- threads in any order.
pub mod Keeping
pub mod Borrowing
pub mod Safety
use vector_lake.Prelude.{
  ℕ, ◌+◌, ◌≤◌, ◌<◌, ◌≡◌, Bool, true, false, not, ◌==◌, Option, none, some, List, [], ◌∷◌, length,
  All, if◌then◌else◌,
}
use vector_lake.Prelude.Sql.{find_key}
use vector_lake.Prelude.Keys.{IsKeyed}
use vector_lake.Embeddings.Clients.{
  GenerationState, ClientGeneration, ClientManager, Attempt, is_open, invalidate, attempt,
  is_unwanted, finish, remove, release, close_fails,
}
use vector_lake.Embeddings.Clients.Rows.{taken, given_back, IsSound}
use vector_lake.Embeddings.Clients.Changes.{is_listed}

-- The manager, how many callers hold the client of each generation, and the next identity.
pub record World : Type 0 where
  pub manager : ClientManager
  pub held : ℕ → ℕ
  pub next : ℕ

abbrev pub generation_of : ℕ → ClientManager → Option ClientGeneration
generation_of i m = find_key (λ g. g.id) i m.generations

abbrev pub world : ClientManager → (ℕ → ℕ) → ℕ → World
world m held next = record { manager = m; held = held; next = next }

-- One block under the condition. A thread constructs a generation that it has reserved, closes one
-- that is closing, and gives back a client that it holds.
pub data Step : World → World → Type 0 where
  invalidated :
      (shutdown reopen : Bool) (m : ClientManager) (held : ℕ → ℕ) (next : ℕ)
      → Step (world m held next) (world (invalidate shutdown reopen m) held next)
  borrowed :
      (key i : ℕ) (m m' : ClientManager) (held : ℕ → ℕ) (next : ℕ)
      → attempt key next m ≡ Attempt.borrowed i m'
      → Step (world m held next) (world m' (taken i held) next)
  reserved :
      (key : ℕ) (m m' : ClientManager) (held : ℕ → ℕ) (next : ℕ)
      → attempt key next m ≡ Attempt.reserved m'
      → Step (world m held next) (world m' held (next + 1))
  waits :
      (key : ℕ) (m m' : ClientManager) (held : ℕ → ℕ) (next : ℕ)
      → attempt key next m ≡ Attempt.waits m'
      → Step (world m held next) (world m' held next)
  constructed :
      (i : ℕ) (expired : Bool) (g : ClientGeneration) (m : ClientManager) (held : ℕ → ℕ) (next : ℕ)
      → generation_of i m ≡ some g
      → g.state ≡ GenerationState.constructing
      → Step
          (world m held next)
          (world (finish i expired m) (if is_unwanted expired m g then held else taken i held) next)
  construction_failed :
      (i : ℕ) (g : ClientGeneration) (m : ClientManager) (held : ℕ → ℕ) (next : ℕ)
      → generation_of i m ≡ some g
      → g.state ≡ GenerationState.constructing
      → Step (world m held next) (world (remove i m) held next)
  released :
      (i : ℕ) (m : ClientManager) (held : ℕ → ℕ) (next : ℕ)
      → 0 < held i
      → Step (world m held next) (world (release i m) (given_back i held) next)
  closed :
      (i : ℕ) (g : ClientGeneration) (m : ClientManager) (held : ℕ → ℕ) (next : ℕ)
      → generation_of i m ≡ some g
      → g.state ≡ GenerationState.closing
      → Step (world m held next) (world (remove i m) held next)
  close_failed :
      (i : ℕ) (g : ClientGeneration) (m : ClientManager) (held : ℕ → ℕ) (next : ℕ)
      → generation_of i m ≡ some g
      → g.state ≡ GenerationState.closing
      → Step (world m held next) (world (close_fails i m) held next)

-- `__init__`
abbrev pub initial : World
initial = world (record { epoch = 0; stopped = false; generations = [] }) (λ _. 0) 0

pub data Reach : World → Type 0 where
  start : Reach initial
  after : {v w : World} → Reach v → Step v w → Reach w

-- Every generation is sound, a client that is held is on the list, and no identity to come is.
pub record IsConsistent (w : World) : Type 0 where
  pub keyed : IsKeyed (λ g. g.id) w.manager.generations
  pub few : length w.manager.generations ≤ 2
  pub sound : All (IsSound w.held w.next w.manager) w.manager.generations
  pub listed : (i : ℕ) → 0 < w.held i → is_listed i w.manager.generations ≡ true
  pub fresh : (i : ℕ) → w.next ≤ i → w.held i ≡ 0
